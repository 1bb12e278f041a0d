-- ===== src/VirtualAgvAdapter/Adapter.antt =====
-- src/adapter/virtual-agv-adapter.ts: the handlers of `VirtualAgvAdapter`, once it is attached, and
-- the part of a tick that advances the actions. What the controller does in a call is not part of a
-- handler.
pub mod Ticks
pub mod Pausing
pub mod Executable
use vda_5050_lib_2_0_0_js.Prelude.{
  ℕ, zero, suc, ◌+◌, String, Option, none, some, Bool, true, false, ◌||◌, List, [], ◌∷◌, ◌++◌, map,
  length, get_elem?, find, eqb, ltb, if◌then◌else◌, Outcome, ok, err, ◌>>=◌, String-Eq, ◌==◌,
}
use vda_5050_lib_2_0_0_js.JsMap
use vda_5050_lib_2_0_0_js.Types.{Double, Json, Action, ActionStatus, Node, Error, ErrorReference}
use vda_5050_lib_2_0_0_js.AgvController.Model.{
  ActionContext, ActionTarget, on_node, TraverseEdgeContext, no_change, is_some,
}
use vda_5050_lib_2_0_0_js.AgvController.Errors.{reference, ref_key_error_description_detail}
use vda_5050_lib_2_0_0_js.VirtualAgvAdapter.Numbers.{Arithmetic, nought, twenty_four}
use vda_5050_lib_2_0_0_js.VirtualAgvAdapter.Vehicle.{
  Vehicle, VirtualAgvState, VirtualAgvAdapterOptions, call, update_action_status, stopped, detached,
  StatusChange, stop_if_driving, stop_pause_without_context,
}
use vda_5050_lib_2_0_0_js.VirtualAgvAdapter.Definitions.{
  VirtualActionDefinition, VirtualError, no_definition, FreshLoad, ActionScope, scope_of,
  Constraint, get_action_definition,
}
use vda_5050_lib_2_0_0_js.VirtualAgvAdapter.Machine.{
  VirtualActionStateMachine, new_machine, matches, terminate, cancel, set_pause,
}
use vda_5050_lib_2_0_0_js.VirtualAgvAdapter.Machine.Transition.{Ticked}
use vda_5050_lib_2_0_0_js.VirtualAgvAdapter.Machine.Tick.{tick}

pub record VirtualAgvAdapter : Type 0 where
  pub vehicle : Vehicle
  pub action_state_machines : List VirtualActionStateMachine
  pub traverse_context : Option TraverseEdgeContext
  pub battery_low_error : Option Error

abbrev Adapter : Type 0
Adapter = VirtualAgvAdapter

-- The description of the error, if the definition finds the action not executable now.
abbrev pub refusal_of : VirtualActionDefinition → ActionContext → VirtualAgvState → String
refusal_of definition context state = elim definition.action_executable [
  | none ↦ ""
  | some check ↦ check context.action (scope_of context.target) context.active_order_id state
]

abbrev pub failed_with : String → StatusChange
failed_with description = record {
  action_status = some ActionStatus.failed;
  linked_state = no_change;
  result_description = none;
  error_description = some description;
}

abbrev is_pause_action : Action → Bool
is_pause_action action = action.action_type == "stopPause" || action.action_type == "startPause"

abbrev pub wants_stop : ActionContext → Bool
wants_stop context = elim context.stop_driving [ none ↦ false | some b ↦ b ]

abbrev pub begin_action : VirtualActionDefinition → ActionContext → Adapter → Adapter
begin_action definition context d =
    let vehicle = if wants_stop context then stop_if_driving true d.vehicle else d.vehicle in
    let paused = if is_pause_action context.action then false else vehicle.state.is_paused in
    record d {
      vehicle = vehicle;
      action_state_machines = d.action_state_machines ++ new_machine context definition paused ∷ [];
    }

unfoldable pub execute_action :
    List VirtualActionDefinition → ActionContext → Adapter → Outcome VirtualError Adapter
execute_action definitions context d =
    elim (get_action_definition definitions context.action (scope_of context.target)) [
      | none ↦ err no_definition
      | some definition ↦
          let refusal = refusal_of definition context d.vehicle.state in
          ok (
            if refusal == "" then begin_action definition context d else record d {
              vehicle = call (update_action_status context (failed_with refusal)) d.vehicle;
            })
    ]

-- Applies a request to the first machine that matches the action of the context.
abbrev pub on_matching :
    (VirtualActionStateMachine → VirtualActionStateMachine)
    → ActionContext
    → List VirtualActionStateMachine
    → List VirtualActionStateMachine
on_matching f context [] = []
on_matching f context (m ∷ machines) =
    let rest = on_matching f context machines in
    if matches context.action.action_id (scope_of context.target) m
    then f m ∷ machines
    else m ∷ rest

unfoldable pub finish_edge_action : ActionContext → Adapter → Adapter
finish_edge_action context d = record d {
  action_state_machines = on_matching terminate context d.action_state_machines;
}

unfoldable pub cancel_action : ActionContext → Adapter → Adapter
cancel_action context d = record d {
  action_state_machines = on_matching cancel context d.action_state_machines;
}

abbrev pub parameters_of : Action → List (String × Json)
parameters_of action = elim action.action_parameters [
  | none ↦ []
  | some parameters ↦ map (λ p. (p.key, p.value)) parameters
]

abbrev pub value_of : String → List (String × Json) → Option Json
value_of key parameters = elim (find (λ p. p.0 == key) parameters) [
  | none ↦ none
  | some p ↦ some p.1
]

-- The parameters whose constraint is not met; a constraint may throw.
abbrev pub violations :
    ActionScope
    → List (String × Json)
    → List (String × Constraint)
    → Outcome VirtualError (List ErrorReference)
violations scope parameters [] = ok []
violations scope parameters ((key, constraint) ∷ constraints) =
    constraint (value_of key parameters) scope parameters >>= λ met.
    violations scope parameters constraints >>= λ rest.
    ok (if met then rest else reference "actionParameter" key ∷ rest)

abbrev pub with_summary : List ErrorReference → List ErrorReference
with_summary [] = []
with_summary (r ∷ refs) =
    (r ∷ refs) ++ reference ref_key_error_description_detail "invalid actionParameter" ∷ []

abbrev pub check_parameters :
    Option (List (String × Constraint)) → ActionContext → Outcome VirtualError (List ErrorReference)
check_parameters none context = ok []
check_parameters (some constraints) context =
    violations (scope_of context.target) (parameters_of context.action) constraints >>= λ refs.
    ok (with_summary refs)

abbrev pub check_definition :
    Option VirtualActionDefinition → ActionContext → Outcome VirtualError (List ErrorReference)
check_definition none context = ok (reference ref_key_error_description_detail "not supported" ∷ [])
check_definition (some definition) context =
    check_parameters definition.action_parameter_constraints context

unfoldable pub is_action_executable :
    List VirtualActionDefinition → ActionContext → Outcome VirtualError (List ErrorReference)
is_action_executable definitions context =
    check_definition (get_action_definition definitions context.action (scope_of context.target))
      context

unfoldable pub traverse_edge : TraverseEdgeContext → Adapter → Adapter
traverse_edge context d = record d { traverse_context = some context }

unfoldable pub stop_traverse : Adapter → Adapter
stop_traverse d = record d {
  traverse_context = none;
  vehicle = call stopped (stop_pause_without_context (stop_if_driving true d.vehicle));
}

unfoldable pub detach : Adapter → Adapter
detach d = record d { vehicle = call detached d.vehicle }
