-- ===== src/AgvController/Status.antt =====
-- src/controller/agv-controller.ts, `_updateActionStatus`: the new state of an action, and how an
-- ended node or edge action lets the order go on. A report of the adapter about a node action is
-- about the node that the current order has under this ID and sequence ID now: stitching adds
-- actions to the last base node while its actions are running.
pub mod States
use vda_5050_lib_2_0_0_js.Prelude.{
  ℕ, zero, suc, ◌+◌, String, Option, none, some, Bool, true, false, not, ◌&&◌, List, [], ◌∷◌, ◌++◌,
  find, find_index, every, eqb, if◌then◌else◌, String-Eq, ◌==◌,
}
use vda_5050_lib_2_0_0_js.Types.{
  Action, ActionState, ActionStatus, is_ended_status, is_hard, Node, Edge, Error, ErrorType,
}
use vda_5050_lib_2_0_0_js.AgvController.Model.{
  Controller, ErrorObject, ActionContext, ActionTarget, on_node, on_edge, instant,
  ActionStatusChangeInfo, PartialState, Effect, stop_traverse, emit, update_state, no_change,
  has_canceling_order,
}
use vda_5050_lib_2_0_0_js.AgvController.Errors.{create_action_error, new_error}
use vda_5050_lib_2_0_0_js.AgvController.Orders.{base_nodes, base_edges}
use vda_5050_lib_2_0_0_js.AgvController.Actions.{
  current_nodes, current_edges, is_action_ended, get_hard_blocking_action_after_parallel_actions,
  are_parallel_actions_ended, process_node_actions, process_node_action, process_edge_actions,
  process_edge_action, process_edge, do_traverse_edge,
}

-- Copies of error objects are new objects.
unfoldable pub clone_errors : ℕ → List ErrorObject → List ErrorObject
clone_errors next [] = []
clone_errors next (e ∷ es) = record e { identity = next } ∷ clone_errors (next + 1) es

abbrev count_errors : Option (List ErrorObject) → ℕ
count_errors none = 0
count_errors (some es) = count es
  where
    count : List ErrorObject → ℕ
    count [] = 0
    count (e ∷ es) = suc (count es)

abbrev clone_given : ℕ → Option (List ErrorObject) → Option (List ErrorObject)
clone_given next none = none
clone_given next (some es) = some (clone_errors next es)

-- `_cloneState`.
unfoldable pub clone_state : PartialState → Controller → Controller × PartialState
clone_state p c = (
  record c { next_identity = c.next_identity + count_errors p.errors },
  record p { errors = clone_given c.next_identity p.errors },
)

unfoldable pub new_action_state : ActionContext → ActionStatusChangeInfo → ActionState
new_action_state context change = record {
  action_description = context.action.action_description;
  action_id = context.action.action_id;
  action_status = change.action_status;
  action_type = some context.action.action_type;
  result_description = change.result_description;
}

-- The first state of this action is replaced; it is added if there is none.
unfoldable pub put_action_state : ActionState → List ActionState → List ActionState
put_action_state s [] = s ∷ []
put_action_state s (t ∷ ts) =
    let rest = put_action_state s ts in if t.action_id == s.action_id then s ∷ ts else t ∷ rest

abbrev is_failed : ActionStatus → Bool
is_failed ActionStatus.failed = true
is_failed _ = false

abbrev non_empty : Option String → Option String
non_empty none = none
non_empty (some s) = if s == "" then none else some s

abbrev failure_type : ActionTarget → ErrorType
failure_type instant = ErrorType.instant_action
failure_type (on_node n) = ErrorType.order_action
failure_type (on_edge e start end) = ErrorType.order_action

-- The error of an action that fails with a description.
unfoldable pub failure : ActionContext → ActionStatusChangeInfo → Option Error
failure context change =
    if is_failed change.action_status
    then elim (non_empty change.error_description) [
      | none ↦ none
      | some description ↦
          some (create_action_error context (failure_type context.target) description [])
    ]
    else none

unfoldable pub with_failure : Option Error → Controller → Controller × Option (List ErrorObject)
with_failure none c = (c, none)
with_failure (some error) c =
    let (c', object) = new_error error c in (c', some (c.state.errors ++ object ∷ []))

abbrev assigned {ℓ} : {A : Type ℓ} → Option A → Option A → Option A
assigned none old = old
assigned (some a) old = some a

-- The update of the state; what the change is linked to wins.
unfoldable pub set_action_status : ActionContext → ActionStatusChangeInfo → Controller → Controller
set_action_status context change c =
    let (c1, errors) = with_failure (failure context change) c in
    let (c2, linked) = clone_state change.linked_state c1 in
    let states = put_action_state (new_action_state context change) c.state.action_states in
    update_state
      (record linked {
        action_states = assigned linked.action_states (some states);
        errors = assigned linked.errors errors;
      })
      true c2

unfoldable pub are_all_order_actions_canceled : Controller → Bool
are_all_order_actions_canceled c =
    every (λ n. every (is_action_ended c.state.action_states) n.actions)
      (base_nodes (current_nodes c))
    && every (λ e. every (is_action_ended c.state.action_states) e.actions)
        (base_edges (current_edges c))

-- The handler gets the callbacks `driving_to_next_node` and `stopped`. After the report of an action
-- nothing follows the call, so that a vehicle that stops at once calls `stopped` as the next step.
unfoldable pub on_order_actions_canceled : Controller → Controller
on_order_actions_canceled = emit stop_traverse

unfoldable pub continue_canceling : Controller → Controller
continue_canceling c = if are_all_order_actions_canceled c then on_order_actions_canceled c else c

-- What follows the end of an action among those of its node or edge.
unfoldable pub continue_actions :
    List Action
    → Action
    → (Controller → Controller)
    → (Action → Controller → Controller)
    → (Controller → Controller)
    → Controller
    → Controller
continue_actions actions action next_actions execute otherwise c =
    if is_hard action.blocking_type
    then next_actions c
    else elim (get_hard_blocking_action_after_parallel_actions actions action) [
      | some next ↦
          if are_parallel_actions_ended c.state.action_states actions action false
          then execute next c
          else c
      | none ↦
          if are_parallel_actions_ended c.state.action_states actions action true
          then otherwise c
          else c
    ]

-- The node as the current order has it.
unfoldable pub current_node : Controller → Node → Node
current_node c node =
    elim (find (λ n. n.node_id == node.node_id && eqb n.sequence_id node.sequence_id)
      (current_nodes c)) [ none ↦ node | some n ↦ n ]

unfoldable pub continue_node : Node → Action → Controller → Controller
continue_node node action c =
    if has_canceling_order c
    then continue_canceling c
    else continue_actions node.actions action (process_node_actions node (some action))
        (process_node_action node true) (process_edge node) c

unfoldable pub continue_edge : Edge → Action → Controller → Controller
continue_edge edge action c =
    if has_canceling_order c
    then continue_canceling c
    else continue_actions edge.actions action (process_edge_actions edge (some action))
        (process_edge_action edge true) (do_traverse_edge edge) c

-- `_updateActionStatus` for the actions of an order.
unfoldable pub continue_order : ActionContext → Controller → Controller
continue_order context c = elim context.target [
  | on_node node ↦ continue_node (current_node c node) context.action c
  | on_edge edge start end ↦ continue_edge edge context.action c
  | instant ↦ c
]
