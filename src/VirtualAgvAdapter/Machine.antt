-- ===== src/VirtualAgvAdapter/Machine.antt =====
-- src/adapter/virtual-agv-adapter.ts: `VirtualActionStateMachine`. A method returns the machine it
-- leaves.
pub mod Transition
pub mod Tick
pub mod Laws
pub mod Timing
use vda_5050_lib_2_0_0_js.Prelude.{
  String, Option, none, some, Bool, true, false, not, ◌&&◌, ◌||◌, List, [], ◌∷◌, ◌++◌,
  if◌then◌else◌, Outcome, ok, err, String-Eq, ◌==◌,
}
use vda_5050_lib_2_0_0_js.JsMap
use vda_5050_lib_2_0_0_js.JsMap.{JsMap}
use vda_5050_lib_2_0_0_js.Types.{Double, ActionStatus, status_name}
use vda_5050_lib_2_0_0_js.AgvController.Model.{
  ActionContext, PartialState, no_change, given_optional, is_some,
}
use vda_5050_lib_2_0_0_js.VirtualAgvAdapter.Numbers.{Arithmetic, nought}
use vda_5050_lib_2_0_0_js.VirtualAgvAdapter.Vehicle.{
  Vehicle, SideEffect, StatusChange, call, update_action_status,
}
use vda_5050_lib_2_0_0_js.VirtualAgvAdapter.Definitions.{
  VirtualActionDefinition, VirtualActionTransitions, TimedTransition, LinkedState, FreshLoad,
  ActionScope, scope_of, same_scope, timed_of, get_transition_duration, VirtualError, no_transition,
}

pub record VirtualActionStateMachine : Type 0 where
  pub action_context : ActionContext
  pub action_definition : VirtualActionDefinition
  pub action_status : Option ActionStatus
  pub action_status_on_pause : Option ActionStatus
  pub should_terminate : Option Bool
  pub should_cancel : Option Bool
  pub should_pause : Bool
  pub status_duration_times : JsMap String Double

abbrev key_if {ℓ} : {A : Type ℓ} → String → Option A → JsMap String Double
key_if key none = []
key_if key (some a) = (key, nought) ∷ []

-- Each key of the transitions, with 0.
abbrev initial_times : VirtualActionTransitions → JsMap String Double
initial_times t =
    key_if "ON_INIT" (some t.on_init)
    ++ key_if "ON_CANCEL" t.on_cancel
    ++ key_if "ON_TERMINATE" t.on_terminate
    ++ key_if "INITIALIZING" t.initializing
    ++ key_if "RUNNING" t.running
    ++ key_if "FINISHED" (some t.finished)
    ++ key_if "FAILED" (some t.failed)

unfoldable pub new_machine :
    ActionContext → VirtualActionDefinition → Bool → VirtualActionStateMachine
new_machine context definition should_pause = record {
  action_context = context;
  action_definition = definition;
  action_status = none;
  action_status_on_pause = none;
  should_terminate = some false;
  should_cancel = some false;
  should_pause = should_pause;
  status_duration_times = initial_times definition.transitions;
}

unfoldable pub matches : String → ActionScope → VirtualActionStateMachine → Bool
matches action_id scope m =
    m.action_context.action.action_id == action_id
    && same_scope (scope_of m.action_context.target) scope

abbrev pub is_false : Option Bool → Bool
is_false (some false) = true
is_false _ = false

abbrev pub is_true : Option Bool → Bool
is_true (some true) = true
is_true _ = false

unfoldable pub terminate : VirtualActionStateMachine → VirtualActionStateMachine
terminate m =
    if same_scope (scope_of m.action_context.target) ActionScope.edge && is_false m.should_terminate
    then record m { should_terminate = some true }
    else m

unfoldable pub cancel : VirtualActionStateMachine → VirtualActionStateMachine
cancel m =
    if same_scope (scope_of m.action_context.target) ActionScope.instant
      || (not (is_false m.should_cancel) || not (is_some m.action_definition.transitions.on_cancel))
    then m
    else record m { should_cancel = some true }

-- `pause` and `unpause`.
unfoldable pub set_pause : Bool → VirtualActionStateMachine → VirtualActionStateMachine
set_pause paused m = record m { should_pause = paused }
