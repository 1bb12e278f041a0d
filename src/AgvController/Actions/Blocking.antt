-- ===== src/AgvController/Actions/Blocking.antt =====
-- src/controller/agv-controller.ts: the blocking types of actions. The index arithmetic of the
-- dispatch is compared with a plain description: actions run together up to the next HARD one.
use vda_5050_lib_2_0_0_js.Prelude.{
  ℕ, zero, suc, ◌+◌, ◌-◌, ◌≤◌, ◌≡◌, refl, ap, sym, ◌∙◌, Option, none, some, Bool, true, false, List,
  [], ◌∷◌, arith, any, find_index, find_index_from, take, drop, length, get_elem?, eqb,
  if◌then◌else◌, String-Eq, ◌==◌, Option-cases, Bool-cases, ◌⊎◌, inl, inr,
}
use vda_5050_lib_2_0_0_js.Types.{Action, is_hard, is_soft}
use vda_5050_lib_2_0_0_js.AgvController.Model.{Controller}
use vda_5050_lib_2_0_0_js.AgvController.Actions.{
  next_chunk, before_stop, index_or, index_of_action, index_after, find_index_after, slice,
  for_each, process_chunk,
}

-- The actions in front of the first HARD one.
abbrev pub until_hard : List Action → List Action
until_hard [] = []
until_hard (a ∷ actions) = if is_hard a.blocking_type then [] else a ∷ until_hard actions

-- The first HARD action.
abbrev pub first_hard : List Action → Option Action
first_hard [] = none
first_hard (a ∷ actions) = if is_hard a.blocking_type then some a else first_hard actions

abbrev hard : Action → Bool
hard a = is_hard a.blocking_type

abbrev soft : Action → Bool
soft a = is_soft a.blocking_type

-- An index counted from `i` on, or the length.
abbrev index_or_end : ℕ → Option ℕ → List Action → ℕ
index_or_end i none actions = i + length actions
index_or_end i (some j) actions = j

find_hard_lem :
    (i : ℕ) (actions : List Action)
    → (index_or_end i (find_index_from i hard actions) actions ≡ i + length (until_hard actions))
find_hard_lem i [] = omega arith
find_hard_lem i (a ∷ actions) = ground (arith, find_hard_lem (i + 1) actions)

take-until_hard :
    (actions : List Action) → take (length (until_hard actions)) actions ≡ until_hard actions
take-until_hard [] = refl
take-until_hard (a ∷ actions) = ground (arith, take-until_hard actions)

length_until_hard-le : (actions : List Action) → length (until_hard actions) ≤ length actions
length_until_hard-le [] = omega arith
length_until_hard-le (a ∷ actions) = ground (arith, length_until_hard-le actions)

hard_at :
    (actions : List Action) → get_elem? actions (length (until_hard actions)) ≡ first_hard actions
hard_at [] = refl
hard_at (a ∷ actions) = ground (arith, hard_at actions)

get_elem?-drop :
    (actions : List Action) (i j : ℕ) → get_elem? (drop i actions) j ≡ get_elem? actions (i + j)
get_elem?-drop actions zero j = ground arith
get_elem?-drop [] (suc i) j = refl
get_elem?-drop (a ∷ actions) (suc i) j = ground (arith, get_elem?-drop actions i j)

length-drop : (actions : List Action) (i : ℕ) → length (drop i actions) ≡ length actions - i
length-drop actions zero = omega arith
length-drop [] (suc i) = omega arith
length-drop (a ∷ actions) (suc i) = omega (arith, length-drop actions i)

pub find_index_from-bounds :
    (i : ℕ) (p : Action → Bool) (actions : List Action) (j : ℕ)
    → find_index_from i p actions ≡ some j
    → (i ≤ j) × (j + 1 ≤ i + length actions)
find_index_from-bounds i p [] j e = cc
find_index_from-bounds i p (a ∷ actions) j e =
    ground (arith, find_index_from-bounds (i + 1) p actions j)

index_after-le :
    (actions : List Action) (after : Option Action) → index_after actions after ≤ length actions
unfolding index_after index_of_action
index_after-le actions none = omega arith
index_after-le actions (some after) =
    elim (Option-cases (find_index (λ a. a.action_id == after.action_id) actions)) [
      | inl e ↦ rw (e, index_after) (omega arith)
      | inr (i, e) ↦ rw (e, index_after) (omega (arith, find_index_from-bounds 0 _ actions i e))
    ]

soft_lem :
    (i : ℕ) (actions : List Action)
    → before_stop (find_index_from i soft actions) (i + length (until_hard actions))
      ≡ any soft (until_hard actions)
soft_lem i [] = refl
soft_lem i (a ∷ actions) = elim (Option-cases (find_index_from (i + 1) soft actions)) [
  | inl e ↦ ground (arith, soft_lem (i + 1) actions)
  | inr (j, e) ↦
      ground (arith, soft_lem (i + 1) actions, find_index_from-bounds (i + 1) soft actions j e)
]

-- Positions counted from `start` on, in the whole array.
shifted_hard :
    (start : ℕ) (actions : List Action)
    → start ≤ length actions
    → index_or (find_index_after hard start actions) (length actions)
      ≡ start + length (until_hard (drop start actions))
unfolding find_index_after
shifted_hard start actions le =
    ground (arith, find_hard_lem 0 (drop start actions), length-drop actions start)

shifted_soft :
    (start stop : ℕ) (actions : List Action)
    → stop ≡ start + length (until_hard (drop start actions))
    → before_stop (find_index_after soft start actions) stop
      ≡ any soft (until_hard (drop start actions))
unfolding find_index_after
shifted_soft start stop actions e = ground (arith, soft_lem 0 (drop start actions))

-- The next actions to start, those behind `after` or from the first on: the chunk consists of the
-- actions in front of the next HARD one, which stands right behind it if there is one, and the
-- vehicle stops for it if a SOFT action is among them.
next_chunk_lem :
    (actions : List Action) (after : Option Action)
    → let chunk = next_chunk actions after in
      let rest = drop (index_after actions after) actions in
      (slice actions chunk.start chunk.stop ≡ until_hard rest)
      × (get_elem? actions chunk.stop ≡ first_hard rest)
      × (chunk.stop_driving ≡ any soft (until_hard rest))
unfolding next_chunk find_index_after
next_chunk_lem actions after =
    let start = index_after actions after in
    let rest = drop start actions in
    let stop = shifted_hard start actions (index_after-le actions after) in
    (
      rw stop (ap (λ n. take n rest) (omega arith) ∙ take-until_hard rest),
      rw stop (sym (get_elem?-drop actions start (length (until_hard rest))) ∙ hard_at rest),
      shifted_soft start _ actions stop,
    )

first_hard-none :
    (i : ℕ) (actions : List Action)
    → find_index_from i hard actions ≡ none
    → first_hard actions ≡ none
first_hard-none i [] e = refl
first_hard-none i (a ∷ actions) e = ground (arith, first_hard-none (i + 1) actions)

first_hard-some :
    (i j : ℕ) (actions : List Action)
    → find_index_from i hard actions ≡ some j
    → (a : Action) × (first_hard actions ≡ some a)
first_hard-some i j [] e = absurd (ground arith)
first_hard-some i j (a ∷ actions) e = elim (Bool-cases (hard a)) [
  | inl h ↦ (a, rw h refl)
  | inr n ↦ let (b, f) = first_hard-some (i + 1) j actions (ground arith) in (b, rw n f)
]

hard_index_cases :
    (start : ℕ) (actions : List Action)
    → start ≤ length actions
    → ((find_index_after hard start actions ≡ none) × (first_hard (drop start actions) ≡ none))
      ⊎ ((i : ℕ) × (a : Action) × (find_index_after hard start actions ≡ some i)
          × (get_elem? actions i ≡ some a)
          × (first_hard (drop start actions) ≡ some a))
unfolding find_index_after
hard_index_cases start actions le =
    let rest = drop start actions in
    elim (Option-cases (find_index_from 0 hard rest)) [
      | inl e ↦ inl (rw (e, find_index_after) refl, first_hard-none 0 rest e)
      | inr (j, e) ↦
          let (a, f) = first_hard-some 0 j rest e in
          let at : j ≡ length (until_hard rest) = ground (arith, find_hard_lem 0 rest) in
          inr (
            start + j,
            a,
            rw (e, find_index_after) refl,
            sym (get_elem?-drop actions start j) ∙ rw at (hard_at rest) ∙ f,
            f,
          )
    ]

-- What is to be started when `rest` is left: the actions in front of the next HARD one together,
-- or that HARD one alone if it is the first, or nothing more.
unfoldable pub start_next :
    List Action
    → (Bool → Action → Controller → Controller)
    → (Controller → Controller)
    → Controller
    → Controller
start_next rest execute otherwise c = elim (until_hard rest) [
  | a ∷ actions ↦ for_each (execute (any soft (a ∷ actions))) (a ∷ actions) c
  | [] ↦ elim (first_hard rest) [ none ↦ otherwise c | some a ↦ execute true a c ]
]

-- The dispatch of actions, for nodes as for edges, starts what `start_next` says is next.
pub process_chunk_lem :
    (actions : List Action) (after : Option Action)
    (execute : Bool → Action → Controller → Controller) (otherwise : Controller → Controller)
    (c : Controller)
    → process_chunk actions after execute otherwise c
      ≡ start_next (drop (index_after actions after) actions) execute otherwise c
unfolding next_chunk process_chunk start_next
process_chunk_lem actions after execute otherwise c = by_parallel (until_hard rest) refl
  where
    start : ℕ
    start = index_after actions after

    rest : List Action
    rest = drop start actions

    stop_lem : (next_chunk actions after).stop ≡ start + length (until_hard rest)
    stop_lem = shifted_hard start actions (index_after-le actions after)

    by_parallel :
        (us : List Action)
        → until_hard rest ≡ us
        → process_chunk actions after execute otherwise c ≡ start_next rest execute otherwise c
    by_parallel [] e =
        let at_once : eqb (next_chunk actions after).stop start ≡ true = ground (arith, stop_lem) in
        elim (hard_index_cases start actions (index_after-le actions after)) [
          | inl (i, f) ↦ rw (at_once, process_chunk, i, e, start_next, f) refl
          | inr (j, a, i, g, f) ↦ rw (at_once, process_chunk, i, g, e, start_next, f) refl
        ]
    by_parallel (a ∷ us) e =
        let later : eqb (next_chunk actions after).stop start ≡ false = ground (arith, stop_lem) in
        let (run, at, stops) = next_chunk_lem actions after in
        rw (later, process_chunk, run, stops, e, start_next) refl
