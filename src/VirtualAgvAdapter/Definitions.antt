-- ===== src/VirtualAgvAdapter/Definitions.antt =====
-- src/adapter/virtual-agv-adapter.ts: the definitions of virtual actions, and what the functions
-- that they hold are given.
pub mod Lookup
use vda_5050_lib_2_0_0_js.Prelude.{
  String, Option, none, some, Bool, true, false, List, any, find, String-Eq, ◌==◌, Outcome, ◌&&◌,
}
use vda_5050_lib_2_0_0_js.Types.{Double, Json, Action, ActionStatus}
use vda_5050_lib_2_0_0_js.AgvController.Model.{ActionContext, ActionTarget, on_node, on_edge}
use vda_5050_lib_2_0_0_js.VirtualAgvAdapter.Vehicle.{Vehicle, VirtualAgvState, SideEffect}

-- The TypeErrors that the code can run into.
pub data VirtualError : Type 0 where
  no_definition no_transition no_node_position not_a_function : VirtualError

pub data ActionScope : Type 0 where
  instant node edge : ActionScope

abbrev pub scope_of : ActionTarget → ActionScope
scope_of (on_node n) = ActionScope.node
scope_of (on_edge e start end) = ActionScope.edge
scope_of ActionTarget.instant = ActionScope.instant

abbrev pub same_scope : ActionScope → ActionScope → Bool
same_scope ActionScope.instant ActionScope.instant = true
same_scope ActionScope.node ActionScope.node = true
same_scope ActionScope.edge ActionScope.edge = true
same_scope _ _ = false

-- A number of seconds, or the name of an action parameter with a default.
pub data DurationTime : Type 0 where
  seconds : Double → DurationTime
  parameter_or : String → Double → DurationTime

-- What is random when a linked state is asked for: the ID and the weight of a load.
pub record FreshLoad : Type 0 where
  pub load_id : String
  pub weight : Double

abbrev pub LinkedState : Type 0
LinkedState = FreshLoad → ActionContext → Vehicle → SideEffect

pub record CancelTransition : Type 0 where
  pub linked_state : Option LinkedState

pub record TerminateTransition : Type 0 where
  pub next : ActionStatus
  pub linked_state : Option LinkedState

pub record TimedTransition : Type 0 where
  pub duration_time : DurationTime
  pub next : ActionStatus
  pub linked_state : Option LinkedState

pub record FinishedTransition : Type 0 where
  pub result_description : ActionContext → VirtualAgvState → String
  pub linked_state : Option LinkedState

pub record FailedTransition : Type 0 where
  pub error_description : Option (ActionContext → String)
  pub linked_state : Option LinkedState

pub record VirtualActionTransitions : Type 0 where
  pub on_init : ActionStatus
  pub on_cancel : Option CancelTransition
  pub on_terminate : Option TerminateTransition
  pub initializing : Option TimedTransition
  pub running : Option TimedTransition
  pub finished : FinishedTransition
  pub failed : FailedTransition

-- A constraint gets the value of its parameter, the scope and all the parameters.
abbrev pub Constraint : Type 0
Constraint = Option Json → ActionScope → List (String × Json) → Outcome VirtualError Bool

pub record VirtualActionDefinition : Type 0 where
  pub action_type : String
  pub action_scopes : List ActionScope
  pub action_parameter_constraints : Option (List (String × Constraint))
  pub action_executable : Option (Action → ActionScope → Option String → VirtualAgvState → String)
  pub transitions : VirtualActionTransitions

abbrev pub timed_of : VirtualActionTransitions → ActionStatus → Option TimedTransition
timed_of t ActionStatus.initializing = t.initializing
timed_of t ActionStatus.running = t.running
timed_of t _ = none

-- `getTransitionDuration`: the value of the parameter may be of any kind.
unfoldable pub get_transition_duration : TimedTransition → Action → Json
get_transition_duration t action = elim t.duration_time [
  | seconds d ↦ Json.number d
  | parameter_or name default ↦ elim action.action_parameters [
    | none ↦ Json.number default
    | some parameters ↦ elim (find (λ p. p.key == name) parameters) [
      | none ↦ Json.number default
      | some p ↦ p.value
    ]
  ]
]

unfoldable pub get_action_definition :
    List VirtualActionDefinition → Action → ActionScope → Option VirtualActionDefinition
get_action_definition definitions action scope =
    find (λ d. d.action_type == action.action_type && any (same_scope scope) d.action_scopes)
      definitions
