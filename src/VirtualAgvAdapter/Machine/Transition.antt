-- ===== src/VirtualAgvAdapter/Machine/Transition.antt =====
-- src/adapter/virtual-agv-adapter.ts: `_transition` of a virtual action's state machine. The machine
-- comes with the vehicle with the calls made, and whether the action is finalized.
use vda_5050_lib_2_0_0_js.Prelude.{
  String, Option, none, some, Bool, false, List, [], ◌∷◌, ◌++◌, if◌then◌else◌,
}
use vda_5050_lib_2_0_0_js.Types.{ActionStatus, is_ended_status}
use vda_5050_lib_2_0_0_js.AgvController.Model.{
  ActionContext, PartialState, no_change, given_optional,
}
use vda_5050_lib_2_0_0_js.VirtualAgvAdapter.Vehicle.{
  Vehicle, SideEffect, StatusChange, call, update_action_status,
}
use vda_5050_lib_2_0_0_js.VirtualAgvAdapter.Definitions.{
  VirtualActionTransitions, LinkedState, FreshLoad, timed_of,
}
use vda_5050_lib_2_0_0_js.VirtualAgvAdapter.Machine.{VirtualActionStateMachine}

-- `Object.assign`: what `p` gives replaces what `base` gives.
unfoldable pub assign : PartialState → PartialState → PartialState
assign base p = record {
  timestamp = given_optional p.timestamp base.timestamp;
  action_states = given_optional p.action_states base.action_states;
  agv_position = given_optional p.agv_position base.agv_position;
  battery_state = given_optional p.battery_state base.battery_state;
  distance_since_last_node =
      given_optional p.distance_since_last_node base.distance_since_last_node;
  driving = given_optional p.driving base.driving;
  edge_states = given_optional p.edge_states base.edge_states;
  errors = given_optional p.errors base.errors;
  information = given_optional p.information base.information;
  last_node_id = given_optional p.last_node_id base.last_node_id;
  last_node_sequence_id = given_optional p.last_node_sequence_id base.last_node_sequence_id;
  loads = given_optional p.loads base.loads;
  new_base_request = given_optional p.new_base_request base.new_base_request;
  node_states = given_optional p.node_states base.node_states;
  operating_mode = given_optional p.operating_mode base.operating_mode;
  order_id = given_optional p.order_id base.order_id;
  order_update_id = given_optional p.order_update_id base.order_update_id;
  paused = given_optional p.paused base.paused;
  safety_state = given_optional p.safety_state base.safety_state;
  velocity = given_optional p.velocity base.velocity;
  zone_set_id = given_optional p.zone_set_id base.zone_set_id;
}

-- What a tick leaves: `others` has the requests to the other machines.
pub record Ticked : Type 0 where
  pub machine : VirtualActionStateMachine
  pub vehicle : Vehicle
  pub others : List Bool
  pub finalized : Bool

abbrev pub unchanged : VirtualActionStateMachine → Vehicle → Ticked
unchanged m v = record { machine = m; vehicle = v; others = []; finalized = false }

-- The linked state, result and error description of `transitions[status] ?? {}`.
abbrev pub linked_of : VirtualActionTransitions → ActionStatus → Option LinkedState
linked_of t ActionStatus.finished = t.finished.linked_state
linked_of t ActionStatus.failed = t.failed.linked_state
linked_of t s = elim (timed_of t s) [ none ↦ none | some timed ↦ timed.linked_state ]

abbrev result_of : VirtualActionStateMachine → ActionStatus → Vehicle → Option String
result_of m ActionStatus.finished v =
    some (m.action_definition.transitions.finished.result_description m.action_context v.state)
result_of m _ v = none

abbrev error_of : VirtualActionStateMachine → ActionStatus → Option String
error_of m ActionStatus.failed = elim m.action_definition.transitions.failed.error_description [
  | none ↦ none
  | some describe ↦ some (describe m.action_context)
]
error_of m _ = none

abbrev pub no_effect : Vehicle → SideEffect
no_effect v = record { vehicle = v; changes = no_change; others = none }

unfoldable pub apply_linked : Option LinkedState → FreshLoad → ActionContext → Vehicle → SideEffect
apply_linked none fresh context v = no_effect v
apply_linked (some linked) fresh context v = linked fresh context v

abbrev listed : Option Bool → List Bool
listed none = []
listed (some b) = b ∷ []

abbrev pub ended : Option ActionStatus → Bool
ended none = false
ended (some s) = is_ended_status s

abbrev pub enter : Option ActionStatus → VirtualActionStateMachine → VirtualActionStateMachine
enter status m =
    let entered = record m { action_status = status } in
    if ended status
    then record entered { should_terminate = none; should_cancel = none; should_pause = false }
    else entered

-- `_transition`, with the linked state of the change already applied.
unfoldable pub transition_from :
    Option ActionStatus → SideEffect → FreshLoad → VirtualActionStateMachine → Ticked
transition_from status change fresh m =
    let linked : Option LinkedState = elim status [
      | none ↦ none
      | some s ↦ linked_of m.action_definition.transitions s
    ] in
    let effect = apply_linked linked fresh m.action_context change.vehicle in
    let report : StatusChange = record {
      action_status = status;
      linked_state = assign change.changes effect.changes;
      result_description = elim status [ none ↦ none | some s ↦ result_of m s effect.vehicle ];
      error_description = elim status [ none ↦ none | some s ↦ error_of m s ];
    } in
    record {
      machine = enter status m;
      vehicle = call (update_action_status m.action_context report) effect.vehicle;
      others = listed change.others ++ listed effect.others;
      finalized = ended status;
    }

abbrev pub transition :
    Option ActionStatus → FreshLoad → VirtualActionStateMachine → Vehicle → Ticked
transition status fresh m v = transition_from status (no_effect v) fresh m
