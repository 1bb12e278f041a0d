-- ===== src/VirtualAgvAdapter/Adapter/Ticks.antt =====
-- src/adapter/virtual-agv-adapter.ts: the loop of `_onTick` over the state machines. An action that
-- ends is taken out of the array while the loop runs over it.
use vda_5050_lib_2_0_0_js.Prelude.{
  ℕ, zero, suc, ◌+◌, ◌≤◌, ◌≡◌, refl, inl, inr, none, some, Bool, true, List, [], ◌∷◌, ◌++◌, map,
  length, get_elem?, if◌then◌else◌, Outcome, ok, err, ◌>>=◌, Outcome-cases, arith, sym, ap, ◌∙◌,
  Option-cases,
}
use vda_5050_lib_2_0_0_js.Types.{Double}
use vda_5050_lib_2_0_0_js.VirtualAgvAdapter.Numbers.{Arithmetic}
use vda_5050_lib_2_0_0_js.VirtualAgvAdapter.Definitions.{VirtualError, FreshLoad}
use vda_5050_lib_2_0_0_js.VirtualAgvAdapter.Machine.{VirtualActionStateMachine, set_pause}
use vda_5050_lib_2_0_0_js.VirtualAgvAdapter.Machine.Transition.{Ticked}
use vda_5050_lib_2_0_0_js.VirtualAgvAdapter.Machine.Tick.{tick}
use vda_5050_lib_2_0_0_js.VirtualAgvAdapter.Adapter.{VirtualAgvAdapter}

abbrev Machines : Type 0
Machines = List VirtualActionStateMachine

abbrev pub set_at : ℕ → VirtualActionStateMachine → Machines → Machines
set_at i m [] = []
set_at zero m (n ∷ machines) = m ∷ machines
set_at (suc i) m (n ∷ machines) = n ∷ set_at i m machines

-- `splice(i, 1)`.
abbrev pub remove_at : ℕ → Machines → Machines
remove_at i [] = []
remove_at zero (n ∷ machines) = machines
remove_at (suc i) (n ∷ machines) = n ∷ remove_at i machines

-- What a linked state asks of the other machines, one request after the other.
abbrev pub ask_all : List Bool → Machines → Machines
ask_all [] machines = machines
ask_all (paused ∷ requests) machines = ask_all requests (map (set_pause paused) machines)

-- The machine that has ticked, at its place or taken out, among the others.
abbrev pub put_back : ℕ → Ticked → Machines → Machines
put_back i r machines =
    let asked = ask_all r.others machines in
    if r.finalized then remove_at i asked else set_at i r.machine asked

-- The adapter after the machine at an index has ticked.
abbrev pub after_tick : ℕ → Ticked → VirtualAgvAdapter → VirtualAgvAdapter
after_tick i r d = record d {
  vehicle = r.vehicle;
  action_state_machines = put_back i r d.action_state_machines;
}

-- One round for each index; the rounds are as many as the machines at the start.
unfoldable pub tick_from :
    Arithmetic
    → Double
    → FreshLoad
    → ℕ
    → ℕ
    → VirtualAgvAdapter
    → Outcome VirtualError VirtualAgvAdapter
tick_from a interval fresh zero i d = ok d
tick_from a interval fresh (suc rounds) i d = elim (get_elem? d.action_state_machines i) [
  | none ↦ ok d
  | some m ↦ tick a interval fresh m d.vehicle >>= λ r.
      tick_from a interval fresh rounds (i + 1) (after_tick i r d)
]

unfoldable pub advance_actions :
    Arithmetic → Double → FreshLoad → VirtualAgvAdapter → Outcome VirtualError VirtualAgvAdapter
advance_actions a interval fresh d = tick_from a interval fresh (length d.action_state_machines) 0 d

length-set_at :
    (i : ℕ) (m : VirtualActionStateMachine) (machines : Machines)
    → length (set_at i m machines) ≡ length machines
length-set_at i m [] = refl
length-set_at zero m (n ∷ machines) = refl
length-set_at (suc i) m (n ∷ machines) = omega (arith, length-set_at i m machines)

length-remove_at : (i : ℕ) (machines : Machines) → length (remove_at i machines) ≤ length machines
length-remove_at i [] = omega arith
length-remove_at zero (n ∷ machines) = omega arith
length-remove_at (suc i) (n ∷ machines) = omega (arith, length-remove_at i machines)

length-map_pause :
    (paused : Bool) (machines : Machines)
    → length (map (set_pause paused) machines) ≡ length machines
length-map_pause paused [] = refl
length-map_pause paused (n ∷ machines) = omega (arith, length-map_pause paused machines)

length-ask_all :
    (requests : List Bool) (machines : Machines)
    → length (ask_all requests machines) ≡ length machines
length-ask_all [] machines = refl
length-ask_all (paused ∷ requests) machines = omega (
  arith,
  length-ask_all requests (map (set_pause paused) machines),
  length-map_pause paused machines,
)

length-put_back :
    (i : ℕ) (r : Ticked) (machines : Machines) → length (put_back i r machines) ≤ length machines
length-put_back i r machines = ground (
  arith,
  length-ask_all r.others machines,
  length-remove_at i (ask_all r.others machines),
  length-set_at i r.machine (ask_all r.others machines),
)

get_beyond : (i : ℕ) (machines : Machines) → length machines ≤ i → get_elem? machines i ≡ none
get_beyond i [] h = refl
get_beyond zero (n ∷ machines) h = absurd (omega arith)
get_beyond (suc i) (n ∷ machines) h = get_beyond i machines (omega arith)

module _ (a : Arithmetic) (interval : Double) (fresh : FreshLoad) where
  tick_from_none :
      (rounds i : ℕ) (d : VirtualAgvAdapter)
      → get_elem? d.action_state_machines i ≡ none
      → tick_from a interval fresh (suc rounds) i d ≡ ok d
  unfolding tick_from
  tick_from_none rounds i d e = ground (arith, e)

  tick_from_beyond :
      (rounds i : ℕ) (d : VirtualAgvAdapter)
      → length d.action_state_machines ≤ i
      → tick_from a interval fresh rounds i d ≡ ok d
  unfolding tick_from
  tick_from_beyond zero i d h = refl
  tick_from_beyond (suc rounds) i d h =
      tick_from_none rounds i d (get_beyond i d.action_state_machines h)

  tick_from_step :
      (rounds i : ℕ) (d : VirtualAgvAdapter) (m : VirtualActionStateMachine) (r : Ticked)
      → get_elem? d.action_state_machines i ≡ some m
      → tick a interval fresh m d.vehicle ≡ ok r
      → tick_from a interval fresh (suc rounds) i d
        ≡ tick_from a interval fresh rounds (i + 1) (after_tick i r d)
  unfolding tick_from
  tick_from_step rounds i d m r e k = ground (arith, e, k)

  tick_from_error :
      (rounds i : ℕ) (d : VirtualAgvAdapter) (m : VirtualActionStateMachine) (x : VirtualError)
      → get_elem? d.action_state_machines i ≡ some m
      → tick a interval fresh m d.vehicle ≡ err x
      → tick_from a interval fresh (suc rounds) i d ≡ err x
  unfolding tick_from
  tick_from_error rounds i d m x e k = ground (arith, e, k)

-- From an index on, with as many rounds as there are machines behind it, any more change nothing.
tick_from-enough :
    (a : Arithmetic) (interval : Double) (fresh : FreshLoad) (rounds more i : ℕ)
    (d : VirtualAgvAdapter)
    → length d.action_state_machines ≤ rounds + i
    → rounds ≤ more
    → tick_from a interval fresh more i d ≡ tick_from a interval fresh rounds i d
tick_from-enough a interval fresh zero more i d h l =
    tick_from_beyond a interval fresh more i d (omega (arith, h))
    ∙ sym (tick_from_beyond a interval fresh zero i d (omega (arith, h)))
tick_from-enough a interval fresh (suc rounds) zero i d h l = absurd (omega (arith, l))
tick_from-enough a interval fresh (suc rounds) (suc more) i d h l =
    elim (Option-cases (get_elem? d.action_state_machines i)) [
      | inl e ↦
          tick_from_none a interval fresh more i d e
          ∙ sym (tick_from_none a interval fresh rounds i d e)
      | inr (m, e) ↦ elim (Outcome-cases (tick a interval fresh m d.vehicle)) [
        | inl (r, k) ↦
            tick_from_step a interval fresh more i d m r e k
            ∙ tick_from-enough a interval fresh rounds more (i + 1) (after_tick i r d)
                (omega (arith, h, length-put_back i r d.action_state_machines)) (omega (arith, l))
            ∙ sym (tick_from_step a interval fresh rounds i d m r e k)
        | inr (x, k) ↦
            tick_from_error a interval fresh more i d m x e k
            ∙ sym (tick_from_error a interval fresh rounds i d m x e k)
      ]
    ]

get-append-length :
    (before : Machines) (m : VirtualActionStateMachine) (rest : Machines)
    → get_elem? (before ++ m ∷ rest) (length before) ≡ some m
get-append-length [] m rest = refl
get-append-length (n ∷ before) m rest = get-append-length before m rest

remove_at-append :
    (before : Machines) (m : VirtualActionStateMachine) (rest : Machines)
    → remove_at (length before) (before ++ m ∷ rest) ≡ before ++ rest
remove_at-append [] m rest = refl
remove_at-append (n ∷ before) m rest = ap (λ xs. n ∷ xs) (remove_at-append before m rest)

-- When an action ends in a tick, and its linked states ask nothing of the others, the loop goes on
-- behind the machine that follows it: that one does not tick.
pub tick_from-skips :
    (a : Arithmetic) (interval : Double) (fresh : FreshLoad) (rounds : ℕ) (d : VirtualAgvAdapter)
    (before : Machines) (m next : VirtualActionStateMachine) (rest : Machines) (r : Ticked)
    → d.action_state_machines ≡ before ++ m ∷ next ∷ rest
    → tick a interval fresh m d.vehicle ≡ ok r
    → r.finalized ≡ true
    → r.others ≡ []
    → (tick_from a interval fresh (suc rounds) (length before) d
        ≡ tick_from a interval fresh rounds
            (length before + 1)
            (record d { vehicle = r.vehicle; action_state_machines = before ++ next ∷ rest }))
      × (get_elem? (before ++ next ∷ rest) (length before) ≡ some next)
tick_from-skips a interval fresh rounds d before m next rest r e k f o = (
  tick_from_step a interval fresh rounds (length before) d m r
        (rw e (get-append-length before m (next ∷ rest))) k
      ∙ ap
          (λ machines.
            tick_from a interval fresh rounds (length before + 1)
              (record d { vehicle = r.vehicle; action_state_machines = machines }))
          (rw (e, f, o) (remove_at-append before m (next ∷ rest))),
  get-append-length before next rest,
)
