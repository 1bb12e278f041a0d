-- ===== src/AgvController/Process.antt =====
-- src/controller/agv-controller.ts, `_processOrder`, `_acceptOrder` and `_rejectOrder`: what an
-- incoming order does. `schema` is the message of the `TypeError` that `validateTopicObject` throws for
-- an order that the generated validator refuses.
pub mod Rejection
use vda_5050_lib_2_0_0_js.Prelude.{
  ℕ, String, Option, none, some, Bool, true, false, not, ◌&&◌, ◌||◌, List, [], ◌∷◌, ◌++◌, any,
  every, select, eqb, ltb, if◌then◌else◌, String-Eq, ◌==◌, append, Outcome, ok, err,
}
use vda_5050_lib_2_0_0_js.Types.{
  Action, Node, Edge, Order, OrderContent, Error, ErrorType, EStop, OperatingMode, SafetyStatus,
  BatteryState, NodeState, EdgeState,
}
use vda_5050_lib_2_0_0_js.AgvController.Validation.{OrderViolation, validate_order_constraints}
use vda_5050_lib_2_0_0_js.AgvController.Model.{
  Controller, AgvAdapter, update_state, no_change, PartialState, has_active_order,
  has_canceling_order, is_some, ErrorObject,
}
use vda_5050_lib_2_0_0_js.AgvController.Errors.{create_order_error, reference}
use vda_5050_lib_2_0_0_js.AgvController.Orders.{
  get_node_states, get_edge_states, get_action_states, get_instant_action_states,
  get_non_order_rejection_errors, base_end, is_order_base_stitching, is_order_update_base_stitching,
  add_actions, head_actions, head_node, stitch, reject_order, route_refusal, actions_refusal,
  deviation_refusal,
}
use vda_5050_lib_2_0_0_js.AgvController.Actions.{is_action_ended, process_node, process_edge}

unfoldable pub violation_message : OrderViolation → String
violation_message OrderViolation.no_base_node = "Order must contain at least one base node"
violation_message OrderViolation.node_sequence_id = "Order contains node with invalid sequenceId"
violation_message OrderViolation.base_horizon_nodes = "Incorrect sequence of base-horizon nodes"
violation_message OrderViolation.nodes_and_edges = "Incompatible sequence of nodes and edges"
violation_message OrderViolation.edge_sequence_id = "Order contains edge with invalid sequenceId"
violation_message OrderViolation.base_horizon_edges = "Incorrect sequence of base-horizon edges"
violation_message OrderViolation.edge_nodes = "An edge doesn't have proper start and/or end nodes"
-- Not reached: the numbers of nodes and edges are compared first.
violation_message OrderViolation.undefined_node = "undefined node"

abbrev e_stop_name : EStop → String
e_stop_name EStop.autoack = "AUTOACK"
e_stop_name EStop.manual = "MANUAL"
e_stop_name EStop.none = "NONE"
e_stop_name EStop.remote = "REMOTE"

abbrev is_e_stop : EStop → Bool
is_e_stop EStop.none = false
is_e_stop _ = true

abbrev operating_mode_name : OperatingMode → String
operating_mode_name OperatingMode.automatic = "AUTOMATIC"
operating_mode_name OperatingMode.manual = "MANUAL"
operating_mode_name OperatingMode.semiautomatic = "SEMIAUTOMATIC"
operating_mode_name OperatingMode.service = "SERVICE"
operating_mode_name OperatingMode.teachin = "TEACHIN"

abbrev is_automatic : OperatingMode → Bool
is_automatic OperatingMode.automatic = true
is_automatic OperatingMode.semiautomatic = true
is_automatic _ = false

-- The three modes of `_acceptOrder`.
pub data AcceptMode : Type 0 where
  accept_new accept_stitch accept_update : AcceptMode

-- What becomes of an order that is in order itself.
pub data Decision : Type 0 where
  accept : AcceptMode → Decision
  discard : Decision
  reject : Error → Decision

abbrev or_refusal : Option Error → Option Error → Option Error
or_refusal none next = next
or_refusal (some e) next = some e

abbrev refuse_if : Bool → Error → Option Error
refuse_if true e = some e
refuse_if false e = none

unfoldable pub validation_refusal : (Order → Option String) → Order → Option Error
validation_refusal schema order = elim (schema order) [
  | some message ↦ some (
      create_order_error order ErrorType.order_validation
        (append "invalid order: TypeError: " message) [])
  | none ↦ elim (validate_order_constraints order.content) [
    | ok x ↦ none
    | err violation ↦ some (
        create_order_error order ErrorType.order_validation
          (append "invalid order: Error: " (violation_message violation)) [])
  ]
]

unfoldable pub canceling_refusal : Order → Controller → Option Error
canceling_refusal order c =
    refuse_if (has_canceling_order c)
      (create_order_error order ErrorType.order "active order is being canceled" [])

-- The checks of the vehicle's state.
unfoldable pub vehicle_refusal : Order → Controller → Option Error
vehicle_refusal order c =
    or_refusal
      (refuse_if c.state.battery_state.charging (
        create_order_error order ErrorType.order "order is not executable while charging"
          (reference "batteryState.charging" "true" ∷ [])))
      (or_refusal
        (refuse_if (is_e_stop c.state.safety_state.e_stop) (
          create_order_error order ErrorType.order
            "order is not executable as emergency stop is active"
            (reference "safetyState.eStop" (e_stop_name c.state.safety_state.e_stop) ∷ [])))
        (or_refusal
          (refuse_if c.state.safety_state.field_violation (
            create_order_error order ErrorType.order
              "order is not executable due to protective field violation"
              (reference "safetyState.fieldViolation" "true" ∷ [])))
          (refuse_if (not (is_automatic c.state.operating_mode)) (
            create_order_error order ErrorType.order "order is not executable due to operating mode"
              (reference "operatingMode" (operating_mode_name c.state.operating_mode) ∷ [])))))

-- `order.orderId === this.currentOrder?.orderId`, with the current order.
abbrev same_order : Order → Option Order → Option Order
same_order order none = none
same_order order (some current) = if order.order_id == current.order_id then some current else none

abbrev stitching_decision : Order → Controller → Decision
stitching_decision order c =
    if is_order_base_stitching c order
    then accept accept_stitch
    else reject (
        create_order_error order ErrorType.order_update
          "stitching order base not extending active order base" [])

abbrev update_decision : Order → Controller → Decision
update_decision order c =
    if is_order_update_base_stitching c order
    then accept accept_update
    else reject (
        create_order_error order ErrorType.order_update
          "order update base not extending current order base" [])

module _ (adapter : AgvAdapter) where
  abbrev new_decision : Order → Decision
  new_decision order = elim (deviation_refusal adapter order) [
    | some e ↦ reject e
    | none ↦ accept accept_new
  ]

  -- The comparison with the current order, once nothing speaks against the order itself.
  unfoldable pub decide_update : Order → Controller → Decision
  decide_update order c = elim (same_order order c.current_order) [
    | some current ↦
        if ltb order.order_update_id current.order_update_id
        then reject (create_order_error order ErrorType.order_update "invalid orderUpdateId" [])
        else if eqb order.order_update_id current.order_update_id
        then discard
        else if has_active_order c
        then stitching_decision order c
        else update_decision order c
    | none ↦ if has_active_order c then stitching_decision order c else new_decision order
  ]

  module _ (schema : Order → Option String) where
    -- The checks in front of that comparison, in their order.
    unfoldable pub refusal : Order → Controller → Option Error
    refusal order c = or_refusal (validation_refusal schema order) (
        or_refusal (canceling_refusal order c) (
          or_refusal (route_refusal adapter order)
            (or_refusal (actions_refusal adapter order) (vehicle_refusal order c))))

    unfoldable pub decide : Order → Controller → Decision
    decide order c = elim (refusal order c) [ some e ↦ reject e | none ↦ decide_update order c ]

  abbrev process_first_node : Order → Controller → Controller
  process_first_node order c = elim (head_node order.nodes) [
    | none ↦ c
    | some n ↦ process_node n none c
  ]

  unfoldable pub accept_new_order : Order → Controller → Controller
  accept_new_order order c = process_first_node order (
      update_state
        (record no_change {
          order_id = some order.order_id;
          order_update_id = some order.order_update_id;
          errors = some (get_non_order_rejection_errors false c);
          node_states = some (get_node_states order.content false);
          edge_states = some (get_edge_states adapter order.content);
          action_states = some (get_instant_action_states c ++ get_action_states order.content);
        })
        true (record c { current_order = some order }))

  unfoldable pub accept_update_order : Order → Controller → Controller
  accept_update_order order c = process_first_node order (
      update_state
        (record no_change {
          order_update_id = some order.order_update_id;
          errors = some (get_non_order_rejection_errors false c);
          node_states = some (get_node_states order.content false);
          edge_states = some (get_edge_states adapter order.content);
          action_states = some (get_instant_action_states c ++ get_action_states order.content);
        })
        true (record c { current_order = some order }))

  abbrev is_in_states : Node → List NodeState → Bool
  is_in_states node states =
      any (λ s. s.node_id == node.node_id && eqb s.sequence_id node.sequence_id) states

  -- The state that a stitching order leads to.
  unfoldable pub stitched_state : Order → Order → Controller → Controller
  stitched_state current order c =
      update_state
        (record no_change {
          order_id = some order.order_id;
          order_update_id = some order.order_update_id;
          errors = some (get_non_order_rejection_errors true c);
          node_states =
              some (
                select (λ s. s.released) c.state.node_states ++ get_node_states order.content true);
          edge_states = some (
              select (λ s. s.released) c.state.edge_states
              ++ get_edge_states adapter order.content);
          action_states = some (c.state.action_states ++ get_action_states order.content);
        })
        true
        (record c {
          current_order = some (record current { content = stitch current.content order.content });
        })

  -- The tests of the end of the base come before the state is updated.
  unfoldable pub accept_stitching_order : Order → Order → Node → Controller → Controller
  accept_stitching_order current order current_end c =
      let extended = add_actions (head_actions order.nodes) current_end in
      let is_processed = not (is_in_states extended c.state.node_states) in
      let all_ended = every (is_action_ended c.state.action_states) extended.actions in
      let c' = stitched_state current order c in
      if is_processed && all_ended then process_edge extended c' else c'

  unfoldable pub accept_order : AcceptMode → Order → Controller → Controller
  accept_order accept_new order c = accept_new_order order c
  accept_order accept_update order c = accept_update_order order c
  accept_order accept_stitch order c = elim c.current_order [
    | none ↦ c
    | some current ↦ elim (base_end current.nodes) [
      | none ↦ c
      | some current_end ↦ accept_stitching_order current order current_end c
    ]
  ]

  unfoldable pub apply_decision : Decision → Order → Controller → Controller
  apply_decision (accept mode) order c = accept_order mode order c
  apply_decision discard order c = update_state no_change true c
  apply_decision (reject e) order c = reject_order e c

  unfoldable pub process_order : (Order → Option String) → Order → Controller → Controller
  process_order schema order c = apply_decision (decide schema order c) order c
