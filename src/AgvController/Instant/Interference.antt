-- ===== src/AgvController/Instant/Interference.antt =====
-- src/controller/agv-controller.ts: the loop that starts pending instant actions, and an action that
-- the controller ends itself meanwhile.
use text.Mathlib.TextEquality.{eq_iff}
use vda_5050_lib_2_0_0_js.Prelude.{
  ℕ, suc, ◌≡◌, refl, ◌∙◌, ap, get_elem?, Option, none, some, Bool, true, false, [], ◌∷◌, ◌++◌,
  arith, err, ok, String-Eq, ◌==◌,
}
use vda_5050_lib_2_0_0_js.Types.{Error, Action, is_hard}
use vda_5050_lib_2_0_0_js.AgvController.Model.{
  undefined_action, Run, ActionContext, ActionStatusChangeInfo, Controller, update_state,
  publish_current_state, merge_state, reset_publish_timer, publish_state, snapshot,
}
use vda_5050_lib_2_0_0_js.AgvController.Errors.{new_error}
use vda_5050_lib_2_0_0_js.AgvController.Actions.{
  next_chunk, index_after, index_of_action, find_index_after,
  get_hard_blocking_action_after_parallel_actions,
}
use vda_5050_lib_2_0_0_js.AgvController.Status.{
  set_action_status, with_failure, failure, clone_state,
}
use vda_5050_lib_2_0_0_js.AgvController.Reports.Canceling.{set_action_status-log}
use vda_5050_lib_2_0_0_js.AgvController.Instant.{
  process_instant_action, process_instant_action_chunk, execute_from, continue_instant,
  update_instant_action_status, register_instant_action, dispatch, splice_action, splice_one,
  instant_context, state_reported,
}

with_failure-current :
    (f : Option Error) (c : Controller)
    → (with_failure f c).0.current_instant_actions ≡ c.current_instant_actions
unfolding with_failure new_error
with_failure-current none c = refl
with_failure-current (some e) c = refl

pub set_action_status-current :
    (context : ActionContext) (change : ActionStatusChangeInfo) (c : Controller)
    → (set_action_status context change c).current_instant_actions ≡ c.current_instant_actions
unfolding set_action_status update_state publish_current_state merge_state clone_state
set_action_status-current context change c = with_failure-current (failure context change) c

module _ (request other : Action) (h : is_hard request.blocking_type ≡ false)
    (k : is_hard other.blocking_type ≡ false) where
  index_of_request : index_of_action (request ∷ other ∷ []) request ≡ some 0
  unfolding index_of_action
  index_of_request = ground (arith, eq_iff request.action_id request.action_id)

  no_hard_after :
      get_hard_blocking_action_after_parallel_actions (request ∷ other ∷ []) request ≡ none
  unfolding get_hard_blocking_action_after_parallel_actions index_after
  no_hard_after =
      rw (index_of_request, get_hard_blocking_action_after_parallel_actions, index_after)
        (ground (arith, k))

  whole_chunk : (next_chunk (request ∷ other ∷ []) none).start ≡ 0
  unfolding next_chunk index_after
  whole_chunk = refl

  whole_chunk_stop : (next_chunk (request ∷ other ∷ []) none).stop ≡ 2
  unfolding next_chunk index_after find_index_after
  whole_chunk_stop = ground (arith, h, k)

  continue_request :
      (step : Bool → Action → Controller → Run) (c : Controller)
      → c.current_instant_actions ≡ request ∷ other ∷ []
      → continue_instant step request c ≡ ok (splice_action request c)
  unfolding continue_instant
  continue_request step c e =
      let none_left =
        ap (λ xs. get_hard_blocking_action_after_parallel_actions xs request) e ∙ no_hard_after in
      rw (h, continue_instant, none_left) refl

  splice_request :
      (c : Controller)
      → c.current_instant_actions ≡ request ∷ other ∷ []
      → (splice_action request c).current_instant_actions ≡ other ∷ []
  unfolding splice_action splice_one
  splice_request c e =
      ap (λ xs. splice_one (index_of_action xs request) xs) e
      ∙ ap (λ i. splice_one i (request ∷ other ∷ [])) index_of_request

  -- The state request is answered at once and taken out of the pending actions.
  process_request :
      (fuel : ℕ) (stop_driving : Bool) (c : Controller)
      → c.current_instant_actions ≡ request ∷ other ∷ []
      → request.action_type ≡ "stateRequest"
      → (d : Controller) × (process_instant_action (suc fuel) stop_driving request c ≡ ok d)
        × (d.current_instant_actions ≡ other ∷ [])
        × (d.log
            ≡ (c.log ++ reset_publish_timer ∷ [])
              ++ publish_state d.timestamp (snapshot d.state) ∷ [])
  unfolding splice_action process_instant_action dispatch update_instant_action_status
      register_instant_action instant_context
  process_request fuel stop_driving c e s =
      let context = instant_context request (some stop_driving) c in
      let d = set_action_status context state_reported (register_instant_action request c) in
      let pending : d.current_instant_actions ≡ request ∷ other ∷ [] =
        set_action_status-current context state_reported (register_instant_action request c) ∙ e in
      let is_request : (request.action_type == "stateRequest") ≡ true =
        ground (arith, s, eq_iff request.action_type "stateRequest") in
      (
        splice_action request d,
        rw (is_request, process_instant_action, dispatch, update_instant_action_status)
            (continue_request (process_instant_action fuel) d pending),
        splice_request d pending,
        set_action_status-log context state_reported (register_instant_action request c),
      )

past_end :
    (step : Bool → Action → Controller → Run) (stop_driving : Bool) (c : Controller)
    → get_elem? c.current_instant_actions 1 ≡ none
    → execute_from step stop_driving 1 1 c ≡ err (undefined_action, c)
unfolding execute_from
past_end step stop_driving c e = rw (e, execute_from) refl

-- Two instant actions that do not block, of which the first is a state request that the controller
-- ends itself: the loop finds no action where the second was, and fails. The second is pending then,
-- and has not been handed to the adapter: all that was done is to publish the state.
pub chunk-undefined_action :
    (fuel : ℕ) (request other : Action) (c : Controller)
    → c.current_instant_actions ≡ request ∷ other ∷ []
    → request.action_type ≡ "stateRequest"
    → is_hard request.blocking_type ≡ false
    → is_hard other.blocking_type ≡ false
    → (d : Controller) × (process_instant_action_chunk
          (process_instant_action (suc fuel))
          none
          false
          c
        ≡ err (undefined_action, d))
      × (d.current_instant_actions ≡ other ∷ [])
      × (d.log
          ≡ (c.log ++ reset_publish_timer ∷ [])
            ++ publish_state d.timestamp (snapshot d.state) ∷ [])
unfolding process_instant_action_chunk execute_from
chunk-undefined_action fuel request other c e s h k =
    let step = process_instant_action (suc fuel) in
    let stop_driving = (next_chunk (request ∷ other ∷ []) none).stop_driving in
    let (d, run, left, log) = process_request request other h k fuel stop_driving c e s in
    (
      d,
      rw
          (
            ap (λ xs. next_chunk xs none) e,
            process_instant_action_chunk,
            whole_chunk request other h k,
            whole_chunk_stop request other h k,
          )
          (rw (ap (λ xs. get_elem? xs 0) e, execute_from, run)
            (past_end step stop_driving d (ap (λ xs. get_elem? xs 1) left))),
      left,
      log,
    )
