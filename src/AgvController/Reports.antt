-- ===== src/AgvController/Reports.antt =====
-- src/controller/agv-controller.ts: what the adapter reports: the status of actions, the traversal
-- of an edge, the stop of the vehicle, and parts of the state.
pub mod Canceling
use vda_5050_lib_2_0_0_js.Prelude.{
  none, some, Bool, true, false, ◌&&◌, [], select, eqb, if◌then◌else◌, String-Eq, Option-Eq, ◌==◌,
  ok, err, ◌>>=◌,
}
use vda_5050_lib_2_0_0_js.Types.{ActionStatus, is_ended_status, Node}
use vda_5050_lib_2_0_0_js.AgvController.Model.{
  Run, undefined_action, Controller, ActionContext, ActionTarget, on_node, on_edge, instant,
  ActionStatusChangeInfo, TraverseEdgeContext, update_state, no_change, PartialState,
  has_canceling_order,
}
use vda_5050_lib_2_0_0_js.AgvController.Actions.{process_node}
use vda_5050_lib_2_0_0_js.AgvController.Status.{
  set_action_status, continue_order, current_node, clone_state,
}
use vda_5050_lib_2_0_0_js.AgvController.Cancel.{stopped_by}
use vda_5050_lib_2_0_0_js.AgvController.Instant.{
  process_instant_action, update_instant_action_status, enough_fuel,
}

-- An edge of an order that passed the check has an end node.
unfoldable pub update_edge_traversed : TraverseEdgeContext → Controller → Controller
update_edge_traversed context c = if has_canceling_order c then c else elim context.end_node [
  | none ↦ c
  | some node ↦ process_node (current_node c node) (some context.edge) c
]

-- What an instant action and what an action of an order asks for.
abbrev pub for_target : ActionTarget → Run → Run → Run
for_target instant on_instant on_order = on_instant
for_target (on_node node) on_instant on_order = on_order
for_target (on_edge edge start end) on_instant on_order = on_order

unfoldable pub update_order_action_status :
    ActionContext → ActionStatusChangeInfo → Controller → Controller
update_order_action_status context change c =
    let c' = set_action_status context change c in
    if is_ended_status change.action_status then continue_order context c' else c'

-- `_updateActionStatus`.
unfoldable pub update_action_status : ActionContext → ActionStatusChangeInfo → Controller → Run
update_action_status context change c =
    for_target context.target
      (update_instant_action_status (process_instant_action (enough_fuel c)) context change c)
      (ok (update_order_action_status context change c))

abbrev is_finished : ActionStatus → Bool
is_finished ActionStatus.finished = true
is_finished _ = false

unfoldable pub resume_paused_node : Controller → Controller
resume_paused_node c = elim c.current_paused_node [
  | none ↦ c
  | some node ↦
      let c' = record c { current_paused_node = none } in
      if has_canceling_order c then c' else process_node (current_node c' node) none c'
]

-- The callback of the instant action `stopPause`.
unfoldable pub stop_pause_reported : ActionContext → ActionStatusChangeInfo → Controller → Run
stop_pause_reported context change c = update_action_status context change c >>= λ d.
    ok (if is_finished change.action_status then resume_paused_node d else d)

unfoldable pub driving_to_next_node : Node → Controller → Controller
driving_to_next_node next c =
    update_state
      (record no_change {
        node_states = some (
            select (λ s. s.node_id == next.node_id && eqb s.sequence_id next.sequence_id)
              c.state.node_states);
        edge_states = some [];
      })
      true c

-- The callback `stopped` after the handler has returned.
unfoldable pub stopped : Controller → Run
stopped = stopped_by update_action_status

unfoldable pub update_partial_state : PartialState → Bool → Controller → Controller
update_partial_state p report_immediately c =
    let (c', cloned) = clone_state p c in update_state cloned report_immediately c'
