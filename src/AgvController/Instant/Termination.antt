-- ===== src/AgvController/Instant/Termination.antt =====
-- src/controller/agv-controller.ts: the steps of the work on instant actions, and their fuel.
use vda_5050_lib_2_0_0_js.Prelude.{
  ℕ, zero, suc, ◌+◌, ◌≤◌, ◌≡◌, refl, ap, Option, none, some, Bool, true, false, List, [], ◌∷◌,
  arith, err, ok, String-Eq, length, get_elem?, eqb, ◌>>=◌, Bool-cases, Option-cases, inl, inr,
}
use vda_5050_lib_2_0_0_js.Types.{Action, is_hard}
use vda_5050_lib_2_0_0_js.AgvController.Model.{Run, undefined_action, out_of_fuel, Controller}
use vda_5050_lib_2_0_0_js.AgvController.Actions.Blocking.{find_index_from-bounds}
use vda_5050_lib_2_0_0_js.AgvController.Actions.{
  index_after, find_index_after, are_parallel_actions_ended, next_chunk, index_of_action,
  get_hard_blocking_action_after_parallel_actions,
}
use vda_5050_lib_2_0_0_js.AgvController.Instant.{
  process_instant_action_chunk, execute_from, continue_instant, splice_action, splice_one,
}

-- The run ends with at most `n` pending actions, or at an action that is not there.
unfoldable pub Ends : ℕ → Run → Type 0
Ends n (ok c) = length c.current_instant_actions ≤ n
Ends n (err (undefined_action, c)) = Unit
Ends n (err (out_of_fuel, c)) = ⊥

abbrev pub pending : Controller → ℕ
pending c = length c.current_instant_actions

Ends-le : (m n : ℕ) (r : Run) → m ≤ n → Ends m r → Ends n r
unfolding Ends
Ends-le m n (ok c) le e = omega (arith, e)
Ends-le m n (err (undefined_action, c)) le e = tt
Ends-le m n (err (out_of_fuel, c)) le e = e

Ends-then :
    (n : ℕ) (r : Run) (k : Controller → Run)
    → Ends n r
    → ((c : Controller) → pending c ≤ n → Ends n (k c))
    → Ends n (r >>= k)
unfolding Ends
Ends-then n (ok c) k e h = h c e
Ends-then n (err (undefined_action, c)) k e h = tt
Ends-then n (err (out_of_fuel, c)) k e h = e

length-splice : (i : Option ℕ) (xs : List Action) → length (splice_one i xs) ≤ length xs
unfolding splice_one
length-splice none [] = omega arith
length-splice none (x ∷ []) = omega arith
length-splice none (x ∷ y ∷ xs) = omega (arith, length-splice none (y ∷ xs))
length-splice (some i) [] = omega arith
length-splice (some zero) (x ∷ xs) = omega arith
length-splice (some (suc i)) (x ∷ xs) = omega (arith, length-splice (some i) xs)

length-splice_none :
    (xs : List Action) → 1 ≤ length xs → length (splice_one none xs) + 1 ≤ length xs
unfolding splice_one
length-splice_none [] h = absurd (omega arith)
length-splice_none (x ∷ []) h = omega arith
length-splice_none (x ∷ y ∷ xs) h = omega (arith, length-splice_none (y ∷ xs) (omega arith))

length-splice_some :
    (i : ℕ) (xs : List Action) → i + 1 ≤ length xs → length (splice_one (some i) xs) + 1 ≤ length xs
unfolding splice_one
length-splice_some i [] h = absurd (omega arith)
length-splice_some zero (x ∷ xs) h = omega arith
length-splice_some (suc i) (x ∷ xs) h = omega (arith, length-splice_some i xs (omega (arith, h)))

splice_action-lt :
    (action : Action) (c : Controller)
    → 1 ≤ pending c
    → pending (splice_action action c) + 1 ≤ pending c
unfolding splice_action index_of_action
splice_action-lt action c h =
    elim (Option-cases (index_of_action c.current_instant_actions action)) [
      | inl e ↦ rw (e, splice_action) (length-splice_none c.current_instant_actions h)
      | inr (i, e) ↦
          rw (e, splice_action)
            (length-splice_some i c.current_instant_actions
              (omega (arith, find_index_from-bounds 0 _ c.current_instant_actions i e)))
    ]

pub splice_action-le :
    (action : Action) (c : Controller) → pending (splice_action action c) ≤ pending c
unfolding splice_action
splice_action-le action c = length-splice _ c.current_instant_actions

abbrev pub StepEnds : ℕ → (Bool → Action → Controller → Run) → Type 0
StepEnds n step = (b : Bool) (a : Action) (c : Controller) → pending c ≤ n → Ends n (step b a c)

module _ (step : Bool → Action → Controller → Run) where
  execute_from-Ends :
      (n : ℕ)
      → StepEnds n step
      → (b : Bool) (i m : ℕ) (c : Controller) → pending c ≤ n
      → Ends n (execute_from step b i m c)
  unfolding execute_from Ends
  execute_from-Ends n h b i zero c le = le
  execute_from-Ends n h b i (suc m) c le =
      elim (Option-cases (get_elem? c.current_instant_actions i)) [
        | inl e ↦ rw (e, execute_from) tt
        | inr (a, e) ↦
            rw (e, execute_from)
              (Ends-then n (step b a c) (execute_from step b (i + 1) m) (h b a c le)
                (execute_from-Ends n h b (i + 1) m))
      ]

  pub chunk-Ends :
      (n : ℕ)
      → StepEnds n step
      → (after : Option Action) (skip : Bool) (c : Controller) → pending c ≤ n
      → Ends n (process_instant_action_chunk step after skip c)
  unfolding process_instant_action_chunk Ends
  chunk-Ends n h after skip c le =
      let chunk = next_chunk c.current_instant_actions after in
      elim (Bool-cases (eqb chunk.stop chunk.start)) [
        | inr more ↦
            rw (more, process_instant_action_chunk) (execute_from-Ends n h _ chunk.start _ c le)
        | inl one ↦ elim (Option-cases chunk.hard_index) [
          | inl e ↦ rw (one, process_instant_action_chunk, e) le
          | inr (i, e) ↦ elim (Bool-cases skip) [
            | inl s ↦ rw (one, process_instant_action_chunk, e, s) le
            | inr s ↦
                rw (one, process_instant_action_chunk, e, s) (execute_from-Ends n h true i 1 c le)
          ]
        ]
      ]

  empty_chunk :
      (eqb (next_chunk [] none).stop (next_chunk [] none).start ≡ true)
      × ((next_chunk [] none).hard_index ≡ none)
  unfolding next_chunk find_index_after index_after
  empty_chunk = (refl, refl)

  chunk-empty :
      (c : Controller)
      → c.current_instant_actions ≡ []
      → process_instant_action_chunk step none false c ≡ ok c
  unfolding process_instant_action_chunk
  chunk-empty c e =
      rw
        (
          ap (λ xs. next_chunk xs none) e,
          process_instant_action_chunk,
          empty_chunk.0,
          empty_chunk.1,
        )
        refl

  length-zero : (xs : List Action) → length xs ≤ 0 → xs ≡ []
  length-zero [] h = refl
  length-zero (x ∷ xs) h = absurd (omega (arith, h))

  no_hard : (action : Action) → get_hard_blocking_action_after_parallel_actions [] action ≡ none
  unfolding get_hard_blocking_action_after_parallel_actions index_after index_of_action
  no_hard action = refl

  pub continue_instant-empty :
      (action : Action) (c : Controller)
      → pending c ≤ 0
      → continue_instant step action c ≡ ok (splice_action action c)
  unfolding continue_instant
  continue_instant-empty action c e = elim (Bool-cases (is_hard action.blocking_type)) [
    | inl h ↦
        rw (h, continue_instant)
          (chunk-empty (splice_action action c)
            (length-zero _ (omega (arith, splice_action-le action c))))
    | inr h ↦
        rw
          (
            h,
            continue_instant,
            ap (λ xs. get_hard_blocking_action_after_parallel_actions xs action)
                (length-zero c.current_instant_actions e),
            no_hard action,
          )
          refl
  ]

  pub continue_instant-Ends :
      (n : ℕ)
      → StepEnds n step
      → (action : Action) (c : Controller) → pending c ≤ suc n
      → Ends (suc n) (continue_instant step action c)
  unfolding continue_instant Ends
  continue_instant-Ends n h action c le =
      let spliced = splice_action action c in
      let small : pending spliced ≤ n =
        ground (arith, splice_action-lt action c, splice_action-le action c) in
      elim (Bool-cases (is_hard action.blocking_type)) [
        | inl hard ↦
            rw (hard, continue_instant)
              (Ends-le n (suc n) (process_instant_action_chunk step none false spliced)
                (omega arith) (chunk-Ends n h none false spliced small))
        | inr soft ↦
            elim (Option-cases
              (get_hard_blocking_action_after_parallel_actions c.current_instant_actions action)) [
                | inl e ↦ rw (soft, continue_instant, e) (omega (arith, small))
                | inr (next, e) ↦
                    elim (Bool-cases (
                      are_parallel_actions_ended c.state.action_states c.current_instant_actions
                        action false)) [
                          | inl ended ↦
                              rw (soft, continue_instant, e, ended)
                                (Ends-le n (suc n) (step true next spliced) (omega arith)
                                  (h true next spliced small))
                          | inr waiting ↦
                              rw (soft, continue_instant, e, waiting) (omega (arith, small))
                        ]
              ]
      ]
