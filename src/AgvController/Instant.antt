-- ===== src/AgvController/Instant.antt =====
-- src/controller/agv-controller.ts, `_processInstantActions` and what it calls. The recursion of
-- the calls is bounded by fuel: only an action that the controller ends itself goes on with the
-- others, and it is taken out of the pending ones before.
pub mod Messages
pub mod Termination
pub mod Interference
pub mod Runs
use vda_5050_lib_2_0_0_js.Prelude.{
  ℕ, zero, suc, ◌+◌, ◌-◌, String, Option, none, some, Bool, true, false, not, ◌&&◌, List, [], ◌∷◌,
  ◌++◌, any, length, get_elem?, eqb, if◌then◌else◌, String-Eq, ℕ-Eq, ◌==◌, append, Outcome, ok, err,
  ◌>>=◌,
}
use vda_5050_lib_2_0_0_js.JsMap
use vda_5050_lib_2_0_0_js.Types.{
  Action, ActionStatus, InstantActions, is_hard, is_ended_status, Error, ErrorReference, ErrorType,
}
use vda_5050_lib_2_0_0_js.AgvController.Model.{
  Run, undefined_action, out_of_fuel, Controller, AgvAdapter, ActionContext, instant,
  ActionStatusChangeInfo, Effect, execute_action, emit, update_state, no_change, PartialState,
  has_active_order, has_canceling_order, ErrorObject,
}
use vda_5050_lib_2_0_0_js.AgvController.Errors.{
  create_action_error, create_instant_actions_validation_error, new_error, reference,
  ref_key_error_description_detail,
}
use vda_5050_lib_2_0_0_js.AgvController.Orders.{last}
use vda_5050_lib_2_0_0_js.AgvController.Actions.{
  current_order_id, index_of_action, next_chunk, get_hard_blocking_action_after_parallel_actions,
  are_parallel_actions_ended,
}
use vda_5050_lib_2_0_0_js.AgvController.Status.{set_action_status}
use vda_5050_lib_2_0_0_js.AgvController.Cancel.{cancel_order}

unfoldable pub instant_context : Action → Option Bool → Controller → ActionContext
instant_context action stop_driving c = record {
  action = action;
  target = instant;
  stop_driving = stop_driving;
  active_order_id = if has_active_order c then current_order_id c else none;
}

abbrev pub without_last {ℓ} : {A : Type ℓ} → List A → List A
without_last [] = []
without_last (x ∷ []) = []
without_last (x ∷ y ∷ xs) = x ∷ without_last (y ∷ xs)

abbrev pub remove_at {ℓ} : {A : Type ℓ} → ℕ → List A → List A
remove_at i [] = []
remove_at zero (x ∷ xs) = xs
remove_at (suc i) (x ∷ xs) = x ∷ remove_at i xs

-- `splice(index, 1)`; index -1 is the last position.
unfoldable pub splice_one {ℓ} : {A : Type ℓ} → Option ℕ → List A → List A
splice_one none xs = without_last xs
splice_one (some i) xs = remove_at i xs

unfoldable pub splice_action : Action → Controller → Controller
splice_action action c = record c {
  current_instant_actions =
      splice_one (index_of_action c.current_instant_actions action) c.current_instant_actions;
}

module _ (execute : Bool → Action → Controller → Run) where
  -- The loop reads the array in each round, as it is then.
  unfoldable pub execute_from : Bool → ℕ → ℕ → Controller → Run
  execute_from stop_driving i zero c = ok c
  execute_from stop_driving i (suc n) c = elim (get_elem? c.current_instant_actions i) [
    | none ↦ err (undefined_action, c)
    | some action ↦ execute stop_driving action c >>= execute_from stop_driving (i + 1) n
  ]

  unfoldable pub process_instant_action_chunk : Option Action → Bool → Controller → Run
  process_instant_action_chunk after skip_initial_hard c =
      let chunk = next_chunk c.current_instant_actions after in
      if eqb chunk.stop chunk.start
      then elim chunk.hard_index [
        | none ↦ ok c
        | some i ↦ if skip_initial_hard then ok c else execute_from true i 1 c
      ]
      else execute_from chunk.stop_driving chunk.start (chunk.stop - chunk.start) c

  -- What follows the end of an instant action.
  unfoldable pub continue_instant : Action → Controller → Run
  continue_instant action c =
      if is_hard action.blocking_type
      then process_instant_action_chunk none false (splice_action action c)
      else elim (get_hard_blocking_action_after_parallel_actions c.current_instant_actions action) [
        | none ↦ ok (splice_action action c)
        | some next ↦
            if are_parallel_actions_ended c.state.action_states c.current_instant_actions action
              false
            then execute true next (splice_action action c)
            else ok (splice_action action c)
      ]

  -- `_updateActionStatus` for an instant action.
  unfoldable pub update_instant_action_status :
      ActionContext → ActionStatusChangeInfo → Controller → Run
  update_instant_action_status context change c =
      let c' = set_action_status context change c in
      if is_ended_status change.action_status then continue_instant context.action c' else ok c'

abbrev pub state_reported : ActionStatusChangeInfo
state_reported = record {
  action_status = ActionStatus.finished;
  result_description = some "Reported new state";
  error_description = none;
  linked_state = no_change;
}

unfoldable pub register_instant_action : Action → Controller → Controller
register_instant_action action c = record c {
  ended_publish_count = JsMap.set action.action_id 0 c.ended_publish_count;
}

-- `finish` is the status update by the controller itself, also where a vehicle that stops at once
-- ends the cancelling. The handler of `stopPause` reports to
-- `stop_pause_reported`.
unfoldable pub dispatch :
    (ActionContext → ActionStatusChangeInfo → Controller → Run) → Bool → Action → Controller → Run
dispatch finish stop_driving action c =
    let context = instant_context action (some stop_driving) c in
    let registered = register_instant_action action c in
    if action.action_type == "stateRequest"
    then finish context state_reported registered
    else if action.action_type == "cancelOrder"
    then cancel_order finish context registered
    else ok (emit (execute_action context) registered)

unfoldable pub process_instant_action : ℕ → Bool → Action → Controller → Run
process_instant_action zero = dispatch (λ context change d. err (out_of_fuel, d))
process_instant_action (suc k) = dispatch (update_instant_action_status (process_instant_action k))

-- An instant action that ends leaves at most the other ones to be processed.
unfoldable pub enough_fuel : Controller → ℕ
enough_fuel c = length c.current_instant_actions + 1
