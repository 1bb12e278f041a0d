-- ===== src/VirtualAgvAdapter/Catalogue.antt =====
-- src/adapter/virtual-agv-adapter.ts: the default set of action definitions. `estimate` is
-- `_calculateEstimatedOrderExecutionTimes`, whose text is floating-point arithmetic.
use text.Mathlib.Text.{starts_with}
use vda_5050_lib_2_0_0_js.Prelude.{
  ℕ, String, Option, none, some, Bool, true, false, not, ◌&&◌, ◌||◌, List, [], ◌∷◌, find,
  if◌then◌else◌, Outcome, ok, err, String-Eq, ◌==◌,
}
use vda_5050_lib_2_0_0_js.Types.{is_zero, Double, Json, Action, ActionStatus}
use vda_5050_lib_2_0_0_js.AgvController.Model.{ActionContext, no_change, is_some}
use vda_5050_lib_2_0_0_js.VirtualAgvAdapter.Numbers.{Arithmetic, one, five}
use vda_5050_lib_2_0_0_js.VirtualAgvAdapter.Vehicle.{
  Vehicle, VirtualAgvState, SideEffect, with_state, load_added, load_removed, start_pause,
  stop_pause, start_charging, stop_charging,
}
use vda_5050_lib_2_0_0_js.VirtualAgvAdapter.Definitions.{
  VirtualActionDefinition, VirtualActionTransitions, TimedTransition, LinkedState, FreshLoad,
  ActionScope, Constraint, DurationTime, seconds, parameter_or, VirtualError, not_a_function,
}

abbrev is_number : Option Json → Bool
is_number (some (Json.number d)) = true
is_number _ = false

abbrev is_text : Option Json → Bool
is_text (some (Json.text s)) = true
is_text _ = false

abbrev is_array : Option Json → Bool
is_array (some (Json.array items)) = true
is_array _ = false

abbrev number_if_given : Option Json → Bool
number_if_given value = not (is_some value) || is_number value

abbrev is_epal : Option Json → Bool
is_epal (some (Json.text s)) = s == "EPAL"
is_epal _ = false

-- `value && value.startsWith("floor")`: what is truthy and no text has no such method.
unfoldable pub is_floor_location : Option Json → Outcome VirtualError Bool
is_floor_location none = ok false
is_floor_location (some Json.null) = ok false
is_floor_location (some (Json.bool false)) = ok false
is_floor_location (some (Json.bool true)) = err not_a_function
is_floor_location (some (Json.number d)) = if is_zero d then ok false else err not_a_function
is_floor_location (some (Json.text s)) = ok (starts_with s "floor")
is_floor_location (some (Json.array items)) = err not_a_function
is_floor_location (some (Json.object fields)) = err not_a_function

abbrev plain : (Option Json → Bool) → Constraint
plain test value scope parameters = ok (test value)

abbrev duration_constraint : List (String × Constraint)
duration_constraint = ("duration", plain number_if_given) ∷ []

abbrev load_constraints : List (String × Constraint)
load_constraints =
    ("stationType", (λ value scope parameters. is_floor_location value))
    ∷ ("loadType", plain is_epal)
    ∷ duration_constraint

abbrev find_value : String → Action → Option Json
find_value name action = elim action.action_parameters [
  | none ↦ none
  | some parameters ↦ elim (find (λ p. p.key == name) parameters) [
    | none ↦ none
    | some p ↦ some p.value
  ]
]

abbrev sequence_id_of : Arithmetic → Option Json → ℕ
sequence_id_of a (some (Json.number d)) = a.to_sequence_id d
sequence_id_of a _ = 0

-- `_initPosition`, of an action whose parameters passed the constraints; another has no effect here.
unfoldable pub init_position : Arithmetic → Action → Vehicle → SideEffect
init_position a action v =
    moved (find_value "x" action) (find_value "y" action) (find_value "theta" action)
      (find_value "mapId" action) (find_value "lastNodeId" action)
  where
    moved : Option Json → Option Json → Option Json → Option Json → Option Json → SideEffect
    moved (some (Json.number x)) (some (Json.number y)) (some (Json.number theta))
          (some (Json.text map_id)) (some (Json.text last_node_id)) =
        let position = record v.state.position { x = x; y = y; theta = theta; map_id = map_id } in
        record {
          vehicle =
              with_state (λ s. record s { position = position; last_node_id = last_node_id }) v;
          changes = record no_change {
            agv_position = some position;
            last_node_id = some last_node_id;
            last_node_sequence_id =
                some (sequence_id_of a (find_value "lastNodeSequenceId" action));
          };
          others = none;
        }
    moved _ _ _ _ _ = record { vehicle = v; changes = no_change; others = none }

abbrev timed : DurationTime → ActionStatus → TimedTransition
timed duration next = record { duration_time = duration; next = next; linked_state = none }

abbrev linked : (FreshLoad → ActionContext → Vehicle → SideEffect) → Option LinkedState
linked f = some f

-- The transitions of an action that says how it ends; all but those of pausing and of the estimate
-- can be canceled.
abbrev course :
    ActionStatus
    → Bool
    → Option TimedTransition
    → Option TimedTransition
    → (ActionContext → VirtualAgvState → String)
    → Option LinkedState
    → String
    → VirtualActionTransitions
course first cancelable initializing running result linked_state failure = record {
  on_init = first;
  on_cancel = if cancelable then some (record { linked_state = none }) else none;
  on_terminate = none;
  initializing = initializing;
  running = running;
  finished = record { result_description = result; linked_state = linked_state };
  failed = record { error_description = some (λ context. failure); linked_state = none };
}

abbrev Executable : Type 0
Executable = ActionScope → Option String → VirtualAgvState → String

abbrev definition :
    String
    → List ActionScope
    → Option (List (String × Constraint))
    → Option Executable
    → VirtualActionTransitions
    → VirtualActionDefinition
definition type scopes constraints executable transitions = record {
  action_type = type;
  action_scopes = scopes;
  action_parameter_constraints = constraints;
  action_executable = elim executable [ none ↦ none | some f ↦ some (λ action. f) ];
  transitions = transitions;
}

abbrev says : String → ActionContext → VirtualAgvState → String
says s context state = s

abbrev running_for : Double → Option TimedTransition
running_for d = some (timed (parameter_or "duration" d) ActionStatus.finished)

abbrev instant_or_node : List ActionScope
instant_or_node = ActionScope.instant ∷ ActionScope.node ∷ []

abbrev any_scope : List ActionScope
any_scope = ActionScope.instant ∷ ActionScope.node ∷ ActionScope.edge ∷ []

abbrev node_only : List ActionScope
node_only = ActionScope.node ∷ []

abbrev instant_only : List ActionScope
instant_only = ActionScope.instant ∷ []

abbrev refused_if : (VirtualAgvState → Bool) → String → Option Executable
refused_if test message = some (λ scope order state. if test state then message else "")

abbrev is_charging : VirtualAgvState → Bool
is_charging s = s.battery_state.charging

abbrev load_course : String → LinkedState → String → VirtualActionTransitions
load_course result linked_state failure =
    course ActionStatus.initializing true (some (timed (seconds one) ActionStatus.running))
      (running_for five) (says result) (some linked_state) failure

abbrev charging_course : String → LinkedState → VirtualActionTransitions
charging_course result linked_state =
    course ActionStatus.running true none (running_for one) (says result) (some linked_state)
      "startCharging action failed"

abbrev at_once : Bool → String → LinkedState → String → VirtualActionTransitions
at_once cancelable result linked_state failure =
    course ActionStatus.finished cancelable none none (says result) (some linked_state) failure

abbrev has_order : Option String → Bool
has_order none = false
has_order (some order_id) = not (order_id == "")

abbrev is_instant : ActionScope → Bool
is_instant ActionScope.instant = true
is_instant _ = false

abbrev start_charging_executable : Executable
start_charging_executable scope order state =
    if is_charging state
    then "charging already in progress"
    else if has_order order && is_instant scope
    then "charging denied as order is in progress"
    else ""

abbrev position_constraints : List (String × Constraint)
position_constraints =
    ("x", plain is_number)
    ∷ ("y", plain is_number)
    ∷ ("theta", plain is_number)
    ∷ ("mapId", plain is_text)
    ∷ ("lastNodeId", plain is_text)
    ∷ ("lastNodeSequenceId", plain number_if_given)
    ∷ []

-- Those from "startCharging" on.
abbrev last_definitions : (ActionContext → VirtualAgvState → String) → List VirtualActionDefinition
last_definitions estimate =
    definition "startCharging" instant_or_node (some duration_constraint)
      (some start_charging_executable)
      (charging_course "Started charging" (λ fresh context. start_charging))
    ∷ definition "stopCharging" instant_or_node (some duration_constraint)
        (refused_if (λ s. not (is_charging s)) "charging not in progress")
        (charging_course "Stopped charging" (λ fresh context. stop_charging))
    ∷ definition "orderExecutionTime" instant_only (some (("orders", plain is_array) ∷ [])) none (
        course ActionStatus.finished false none none estimate none
          "orderExecutionTime action failed")
    ∷ []

unfoldable pub action_definitions :
    Arithmetic → (ActionContext → VirtualAgvState → String) → List VirtualActionDefinition
action_definitions a estimate =
    definition "noop" any_scope (some duration_constraint) none (
      course ActionStatus.running true none (running_for five) (says "noop action finished") none
        "noop action failed")
    ∷ definition "pick" node_only (some load_constraints)
        (refused_if (λ s. is_some s.current_load) "load already picked")
        (load_course "pick action finished" (λ fresh context. load_added fresh.load_id fresh.weight)
          "pick action failed")
    ∷ definition "drop" node_only (some load_constraints)
        (refused_if (λ s. not (is_some s.current_load)) "no load to drop")
        (load_course "drop action finished" (λ fresh context. load_removed) "drop action failed")
    ∷ definition "initPosition" instant_or_node (some position_constraints) none (
        at_once true "Position initialized" (λ fresh context. init_position a context.action)
          "initPosition action failed")
    ∷ definition "startPause" instant_only none (refused_if (λ s. s.is_paused) "already paused")
        (at_once false "Paused" (λ fresh context. start_pause) "startPause action failed")
    ∷ definition "stopPause" instant_only none (refused_if (λ s. not s.is_paused) "not yet paused")
        (at_once false "Unpaused" (λ fresh context. stop_pause) "stopPause action failed")
    ∷ last_definitions estimate
