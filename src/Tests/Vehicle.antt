-- ===== src/Tests/Vehicle.antt =====
-- src/controller/agv-controller.ts on a concrete order.
use vda_5050_lib_2_0_0_js.AgvController.Orders.{stitch}
use vda_5050_lib_2_0_0_js.AgvController.Orders.BaseEnd.{Extends}
use vda_5050_lib_2_0_0_js.AgvController.Orders.Stitching.Accepted.{stitch-IsWellFormed}
use vda_5050_lib_2_0_0_js.Types.{Node, Edge}
use vda_5050_lib_2_0_0_js.AgvController.Reports.Canceling.{update_action_status-canceling}
use vda_5050_lib_2_0_0_js.AgvController.Model.{
  ActionContext, on_node, reset_publish_timer, publish_state, stop_traverse, snapshot, update_state,
  publish_current_state, merge_state,
}
use vda_5050_lib_2_0_0_js.AgvController.Status.{
  clone_state, with_failure, failure, put_action_state, are_all_order_actions_canceled,
}
use vda_5050_lib_2_0_0_js.AgvController.Actions.{is_action_ended}
use vda_5050_lib_2_0_0_js.AgvController.Orders.{base_edges}
use vda_5050_lib_2_0_0_js.Prelude.{
  ◌++◌, zero, suc, ◌+◌, ◌*◌, ltb, inl, ℕ, ◌≡◌, ◌≢◌, ◌↔◌, ◌⊎◌, refl, arith, none, some, true, false,
  String, List, [], ◌∷◌, get_elem?, ok, err,
}
use vda_5050_lib_2_0_0_js.Types.{Action, ActionState, ActionStatus, BlockingType, Error}
use vda_5050_lib_2_0_0_js.AgvController.Validation.{
  validate_order_constraints, check_nodes, check_edges, is_bad_sequence_id,
}
use vda_5050_lib_2_0_0_js.AgvController.Validation.Spec
use vda_5050_lib_2_0_0_js.AgvController.Validation.Complete.{validate_iff}
use vda_5050_lib_2_0_0_js.AgvController.Model.{
  undefined_action, out_of_fuel, Controller, ActionStatusChangeInfo, no_change, has_active_order,
}
use vda_5050_lib_2_0_0_js.JsMap
use vda_5050_lib_2_0_0_js.AgvController.Orders.{
  route_refusal, actions_refusal, deviation_refusal, first_refused, node_contexts, edge_contexts,
  is_order_base_stitching, base_end, base_nodes, base_part, last,
}
use vda_5050_lib_2_0_0_js.AgvController.Process.{
  accept, accept_order, accept_new, accept_stitch, decide, decide_update, refusal, process_order,
  validation_refusal, canceling_refusal, vehicle_refusal,
}
use vda_5050_lib_2_0_0_js.AgvController.Process.Rejection.{
  IsRejection, process_order-IsRejection, IsAcceptable, accepted-IsAcceptable,
  process_order-Extends, process_order-not_newer,
}
use vda_5050_lib_2_0_0_js.AgvController.Actions.{
  index_after, process_chunk, process_node_action, process_edge,
}
use vda_5050_lib_2_0_0_js.AgvController.Actions.Blocking.{process_chunk_lem, start_next}
use vda_5050_lib_2_0_0_js.AgvController.Status.{set_action_status, new_action_state}
use vda_5050_lib_2_0_0_js.AgvController.Instant.{
  process_instant_action, process_instant_action_chunk,
}
use vda_5050_lib_2_0_0_js.AgvController.Instant.Messages.{process_instant_actions}
use vda_5050_lib_2_0_0_js.AgvController.Instant.Interference.{chunk-undefined_action}
use vda_5050_lib_2_0_0_js.AgvController.Instant.Runs.{
  process_instant_actions-terminates, update_action_status-terminates,
}
use vda_5050_lib_2_0_0_js.AgvController.Reports.{update_action_status}
use vda_5050_lib_2_0_0_js.Tests.Fixtures.{
  header, action, node, first_order, next_order, idle, driving, willing, valid, request, beep, pick,
  cancel_context,
}

validate_iff_example :
    (validate_order_constraints first_order.content ≡ ok tt) ↔ Spec.IsWellFormed first_order.content
validate_iff_example = validate_iff first_order.content

process_order-IsRejection_example :
    (error : Error) × IsRejection error driving
      (process_order willing (λ order. some "bad") first_order driving)
process_order-IsRejection_example =
    process_order-IsRejection willing (λ order. some "bad") first_order driving
      (λ a. ground (arith, a.valid))

first_accepted : decide willing valid first_order idle ≡ accept accept_new
unfolding decide decide_update refusal validation_refusal canceling_refusal vehicle_refusal
    route_refusal actions_refusal deviation_refusal first_refused node_contexts edge_contexts
    has_active_order validate_order_constraints check_nodes check_edges is_bad_sequence_id
first_accepted = refl

accepted-IsAcceptable_example : IsAcceptable willing valid first_order idle
accepted-IsAcceptable_example =
    accepted-IsAcceptable willing valid first_order idle accept_new first_accepted

process_order-Extends_example :
    (Extends next_order driving
      × (process_order willing valid next_order driving
          ≡ accept_order willing accept_stitch next_order driving))
    ⊎ (((process_order willing valid next_order driving).current_order ≡ some first_order)
        × ((process_order willing valid next_order driving).state.action_states ≡ []))
unfolding has_active_order
process_order-Extends_example = process_order-Extends willing valid next_order driving refl

process_order-not_newer_example :
    ((process_order willing valid first_order driving).current_order ≡ some first_order)
    × ((process_order willing valid first_order driving).state.action_states ≡ [])
process_order-not_newer_example =
    process_order-not_newer willing valid first_order first_order driving refl refl (omega arith)

abbrev two_then_hard : List Action
two_then_hard = beep ∷ action "s1" "light" BlockingType.soft ∷ pick ∷ []

process_chunk_lem_example :
    process_chunk two_then_hard none
      (process_node_action (node "n2" 2 true []))
      (process_edge (node "n2" 2 true []))
      driving
    ≡ start_next two_then_hard
        (process_node_action (node "n2" 2 true []))
        (process_edge (node "n2" 2 true []))
        driving
unfolding index_after
process_chunk_lem_example =
    process_chunk_lem two_then_hard none (process_node_action (node "n2" 2 true []))
      (process_edge (node "n2" 2 true [])) driving

abbrev done : ActionStatusChangeInfo
done = record {
  action_status = ActionStatus.finished;
  result_description = none;
  error_description = none;
  linked_state = no_change;
}

abbrev action_state : String → ActionStatus → ActionState
action_state id status = record {
  action_description = none;
  action_id = id;
  action_status = status;
  action_type = none;
  result_description = none;
}

abbrev working : Controller
working = record driving {
  state = record driving.state {
    action_states =
        action_state "a0" ActionStatus.running ∷ action_state "a1" ActionStatus.waiting ∷ [];
  };
}

abbrev two_pending : Controller
two_pending = record driving { current_instant_actions = request ∷ beep ∷ [] }

chunk-undefined_action_example :
    (d : Controller) × (process_instant_action_chunk
        (process_instant_action 3)
        none
        false
        two_pending
      ≡ err (undefined_action, d))
    × (d.current_instant_actions ≡ beep ∷ [])
    × (d.log ≡ reset_publish_timer ∷ publish_state d.timestamp (snapshot d.state) ∷ [])
chunk-undefined_action_example =
    chunk-undefined_action 2 request beep two_pending refl refl refl refl

process_instant_actions-terminates_example :
    process_instant_actions willing
      (λ message. none)
      (record { header = header; actions = request ∷ beep ∷ [] })
      driving
    ≢ err (out_of_fuel, driving)
process_instant_actions-terminates_example =
    process_instant_actions-terminates willing (λ message. none)
      (record { header = header; actions = request ∷ beep ∷ [] }) driving driving

update_action_status-terminates_example :
    update_action_status cancel_context done driving ≢ err (out_of_fuel, driving)
update_action_status-terminates_example =
    update_action_status-terminates cancel_context done driving driving

first_well_formed : Spec.IsWellFormed first_order.content
first_well_formed = record {
  start = 0;
  even = refl;
  base = 2;
  base_pos = omega arith;
  base_le = omega arith;
  node_at = nodes;
  edge_count = refl;
  base_edges = 1;
  base_edges_le = omega arith;
  base_edges_end = inl refl;
  edge_at = edges;
}
  where
    nodes :
        (i : ℕ) (n : Node)
        → get_elem? first_order.nodes i ≡ some n
        → (n.sequence_id ≡ 0 + 2 * i) × (n.released ≡ ltb i 2)
    nodes zero n g = ground (arith, g)
    nodes (suc zero) n g = ground (arith, g)
    nodes (suc (suc i)) n g = absurd (ground (arith, g))

    edges :
        (i : ℕ) (e : Edge) (n m : Node)
        → get_elem? first_order.edges i ≡ some e
        → get_elem? first_order.nodes i ≡ some n
        → get_elem? first_order.nodes (i + 1) ≡ some m
        → (e.sequence_id ≡ 0 + 2 * i + 1)
          × (e.released ≡ ltb i 1)
          × (e.start_node_id ≡ n.node_id)
          × (e.end_node_id ≡ m.node_id)
    edges zero e n m ge gn gm = ground (arith, ge, gn, gm)
    edges (suc i) e n m ge gn gm = absurd (ground (arith, ge))

next-IsWellFormed : Spec.IsWellFormed next_order.content
unfolding validate_order_constraints check_nodes check_edges is_bad_sequence_id
next-IsWellFormed = (validate_iff next_order.content).0 refl

stitch-IsWellFormed_example : Spec.IsWellFormed (stitch first_order.content next_order.content)
unfolding is_order_base_stitching base_end base_nodes base_part last first_well_formed
stitch-IsWellFormed_example =
    stitch-IsWellFormed driving first_order next_order first_well_formed refl refl refl
      next-IsWellFormed

abbrev canceling : Controller
canceling = record driving { cancel_order_context = some cancel_context }

abbrev pick_context : ActionContext
pick_context = record {
  action = pick;
  target = on_node (node "n2" 2 true (pick ∷ []));
  stop_driving = some true;
  active_order_id = some "o1";
}

update_action_status-canceling_example :
    let reported = set_action_status pick_context done canceling in
    (d : Controller) × (update_action_status pick_context done canceling ≡ ok d)
    × (d.log
        ≡ (reset_publish_timer ∷ publish_state reported.timestamp (snapshot reported.state) ∷ [])
          ++ stop_traverse ∷ [])
unfolding are_all_order_actions_canceled set_action_status update_state publish_current_state
    merge_state clone_state with_failure failure new_action_state put_action_state is_action_ended
    base_nodes base_edges base_part
update_action_status-canceling_example =
    update_action_status-canceling pick_context done canceling (λ e. ground (arith, e)) refl
