-- ===== src/AgvController/Cancel.antt =====
-- src/controller/agv-controller.ts, `_cancelOrder`: the instant action that ends the current order.
pub mod Waiting
use vda_5050_lib_2_0_0_js.Prelude.{
  String, Option, none, some, Bool, true, false, not, ◌&&◌, List, [], ◌∷◌, map, find, select,
  if◌then◌else◌, String-Eq, ◌==◌, ok, err,
}
use vda_5050_lib_2_0_0_js.Types.{Action, ActionState, ActionStatus, is_ended_status, Node, Edge}
use vda_5050_lib_2_0_0_js.AgvController.Model.{
  Run, undefined_action, update_state, Controller, ActionContext, ActionStatusChangeInfo, Effect,
  cancel_action, emit, is_instant_action_state, no_change, PartialState,
}
use vda_5050_lib_2_0_0_js.AgvController.Orders.{base_nodes, base_edges}
use vda_5050_lib_2_0_0_js.AgvController.Actions.{
  current_nodes, current_edges, node_action_context, edge_action_context, for_each,
}
use vda_5050_lib_2_0_0_js.AgvController.Status.{set_action_status, on_order_actions_canceled}

abbrev pub is_waiting : ActionStatus → Bool
is_waiting ActionStatus.waiting = true
is_waiting _ = false

unfoldable pub fail_waiting_state : Controller → ActionState → ActionState
fail_waiting_state c s =
    if not (is_instant_action_state c s) && is_waiting s.action_status
    then record s { action_status = ActionStatus.failed }
    else s

-- The state is changed in place and reported by the next update.
unfoldable pub fail_waiting_actions : Controller → Controller
fail_waiting_actions c = record c {
  state = record c.state { action_states = map (fail_waiting_state c) c.state.action_states };
}

unfoldable pub node_context_of : Controller → String → List Node → Option ActionContext
node_context_of c action_id [] = none
node_context_of c action_id (n ∷ ns) = elim (find (λ a. a.action_id == action_id) n.actions) [
  | none ↦ node_context_of c action_id ns
  | some action ↦ some (node_action_context n none c action)
]

unfoldable pub edge_context_of : Controller → String → List Edge → Option ActionContext
edge_context_of c action_id [] = none
edge_context_of c action_id (e ∷ es) = elim (find (λ a. a.action_id == action_id) e.actions) [
  | none ↦ edge_context_of c action_id es
  | some action ↦ some (edge_action_context e none c action)
]

unfoldable pub context_to_cancel : Controller → ActionState → Option ActionContext
context_to_cancel c s = elim (node_context_of c s.action_id (base_nodes (current_nodes c))) [
  | some context ↦ some context
  | none ↦ edge_context_of c s.action_id (base_edges (current_edges c))
]

unfoldable pub is_to_cancel : Controller → ActionState → Bool
is_to_cancel c s = not (is_instant_action_state c s) && not (is_ended_status s.action_status)

abbrev pub running : ActionStatusChangeInfo
running = record {
  action_status = ActionStatus.running;
  result_description = none;
  error_description = none;
  linked_state = no_change;
}

abbrev pub finished : ActionStatusChangeInfo
finished = record {
  action_status = ActionStatus.finished;
  result_description = none;
  error_description = none;
  linked_state = no_change;
}

-- `finish` is the update of the status of an instant action.
module _ (finish : ActionContext → ActionStatusChangeInfo → Controller → Run) where
  -- The callback of `stopTraverse`. A second call for the same cancelling finds no context and throws
  -- after the states are gone.
  unfoldable pub stopped_by : Controller → Run
  stopped_by c =
      let emptied =
        update_state (record no_change { node_states = some []; edge_states = some [] }) false
          (record c { cancel_order_context = none }) in
      elim c.cancel_order_context [
        | none ↦ err (undefined_action, emptied)
        | some context ↦ finish context finished emptied
      ]

  unfoldable pub cancel_scheduled : List ActionState → Controller → Run
  cancel_scheduled [] c =
      let asked = on_order_actions_canceled c in
      if asked.stops_at_once then stopped_by asked else ok asked
  cancel_scheduled (s ∷ states) c =
      ok (for_each (λ t d. emit (cancel_action (context_to_cancel d t)) d) (s ∷ states) c)

  unfoldable pub cancel_order : ActionContext → Controller → Run
  cancel_order context c =
      let reported =
        set_action_status context running
          (fail_waiting_actions (record c { cancel_order_context = some context })) in
      cancel_scheduled (select (is_to_cancel reported) reported.state.action_states) reported
