-- ===== src/Tests/VirtualDrive.antt =====
-- src/adapter/virtual-agv-adapter.ts at a vehicle that drives, pauses and charges.
use vda_5050_lib_2_0_0_js.JsMap.{get}
use vda_5050_lib_2_0_0_js.Prelude.{
  ◌+◌, ◌≡◌, refl, ◌↔◌, none, some, true, false, [], ◌∷◌, All, get_elem?, ok,
}
use vda_5050_lib_2_0_0_js.Types.{ActionStatus, BlockingType, NodePosition, Error, ErrorLevel}
use vda_5050_lib_2_0_0_js.AgvController.Model.{ActionContext, TraverseEdgeContext, instant}
use vda_5050_lib_2_0_0_js.VirtualAgvAdapter.Vehicle.{optional_defaults, call, update_action_status}
use vda_5050_lib_2_0_0_js.VirtualAgvAdapter.Machine.{new_machine, VirtualActionStateMachine}
use vda_5050_lib_2_0_0_js.VirtualAgvAdapter.Machine.Transition.{
  Ticked, transition, transition_from, apply_linked,
}
use vda_5050_lib_2_0_0_js.VirtualAgvAdapter.Machine.Tick
use vda_5050_lib_2_0_0_js.VirtualAgvAdapter.Catalogue.{action_definitions}
use vda_5050_lib_2_0_0_js.VirtualAgvAdapter.Adapter.{
  VirtualAgvAdapter, stop_traverse, execute_action, failed_with, is_action_executable,
}
use vda_5050_lib_2_0_0_js.VirtualAgvAdapter.Adapter.Ticks.{tick_from, tick_from-skips, put_back}
use vda_5050_lib_2_0_0_js.VirtualAgvAdapter.Adapter.Pausing.{
  stop_traverse-refuses_stop_pause, tick-start_pause, IsAsked,
}
use vda_5050_lib_2_0_0_js.VirtualAgvAdapter.Adapter.Executable.{
  is_action_executable_iff, IsAccepted,
}
use vda_5050_lib_2_0_0_js.VirtualAgvAdapter.Motion.{drive, initial_state, advance_traverse}
use vda_5050_lib_2_0_0_js.VirtualAgvAdapter.Numbers.{nought}
use vda_5050_lib_2_0_0_js.VirtualAgvAdapter.Definitions.{get_transition_duration}
use vda_5050_lib_2_0_0_js.VirtualAgvAdapter.Motion.Charging.{
  advance_battery_charge, advance_battery_charge-forgets, IsSilent,
}
use vda_5050_lib_2_0_0_js.VirtualAgvAdapter.Motion.Traversals.{advance_traverse-Drives, Drives}
use vda_5050_lib_2_0_0_js.Tests.Fixtures.{action, node, edge}
use vda_5050_lib_2_0_0_js.Tests.Virtual.{
  whole, wholes, fresh_load, vehicle, resting, on_first_node, running_machine,
}

abbrev adapter : VirtualAgvAdapter
adapter = record {
  vehicle = vehicle;
  action_state_machines = running_machine ∷ running_machine ∷ [];
  traverse_context = none;
  battery_low_error = none;
}

abbrev plain_machine : VirtualActionStateMachine
plain_machine = record running_machine {
  action_definition = record running_machine.action_definition {
    transitions = record running_machine.action_definition.transitions {
      finished = record { result_description = λ context state. "rested"; linked_state = none };
    };
  };
}

abbrev plain_adapter : VirtualAgvAdapter
plain_adapter = record adapter { action_state_machines = plain_machine ∷ running_machine ∷ [] }

-- The first of two actions finishes after another second.
abbrev finishing : Ticked
finishing =
    transition (some ActionStatus.finished) fresh_load
      (Tick.with_duration ActionStatus.running nought plain_machine) vehicle

tick_from-skips_example :
    (tick_from wholes (whole 1) fresh_load 2 0 plain_adapter
      ≡ tick_from wholes (whole 1) fresh_load 1 (0 + 1) (record plain_adapter {
        vehicle = finishing.vehicle;
        action_state_machines = running_machine ∷ [];
      }))
    × (get_elem? (running_machine ∷ []) 0 ≡ some running_machine)
unfolding Tick.tick Tick.advance transition_from get_transition_duration Tick.duration_after get
    apply_linked
tick_from-skips_example =
    tick_from-skips wholes (whole 1) fresh_load 1 plain_adapter [] plain_machine running_machine []
      finishing refl refl refl refl

abbrev stop_pause_context : ActionContext
stop_pause_context = record {
  action = action "i1" "stopPause" BlockingType.hard;
  target = instant;
  stop_driving = none;
  active_order_id = none;
}

abbrev paused_adapter : VirtualAgvAdapter
paused_adapter = record adapter {
  vehicle = record vehicle { state = record vehicle.state { is_paused = true } };
  action_state_machines = record running_machine { should_pause = true } ∷ [];
}

stop_traverse-refuses_stop_pause_example :
    ((stop_traverse paused_adapter).vehicle.state.is_driving ≡ false)
    × ((stop_traverse paused_adapter).vehicle.state.is_paused ≡ false)
    × ((stop_traverse paused_adapter).action_state_machines ≡ paused_adapter.action_state_machines)
    × (execute_action
          (action_definitions wholes (λ context state. ""))
          stop_pause_context
          (stop_traverse paused_adapter)
        ≡ ok (record (stop_traverse paused_adapter) {
          vehicle =
              call
                (update_action_status stop_pause_context (failed_with "not yet paused"))
                (stop_traverse paused_adapter).vehicle;
        }))
stop_traverse-refuses_stop_pause_example =
    stop_traverse-refuses_stop_pause wholes (λ context state. "") stop_pause_context paused_adapter
      refl refl

tick-start_pause_example :
    (r : Ticked) × (Tick.tick wholes
        (whole 1)
        fresh_load
        (new_machine on_first_node (resting ActionStatus.finished) false)
        vehicle
      ≡ ok r)
    × (r.vehicle.state.is_paused ≡ true)
    × (r.vehicle.state.is_driving ≡ false)
    × All (IsAsked true) (put_back 0 r adapter.action_state_machines)
unfolding initial_state
tick-start_pause_example =
    tick-start_pause wholes (whole 1) fresh_load 0 adapter
      (new_machine on_first_node (resting ActionStatus.finished) false) on_first_node
      (resting ActionStatus.finished) refl refl refl refl

is_action_executable_iff_example :
    (is_action_executable (action_definitions wholes (λ context state. "")) stop_pause_context
      ≡ ok [])
    ↔ IsAccepted (action_definitions wholes (λ context state. "")) stop_pause_context
is_action_executable_iff_example =
    is_action_executable_iff (action_definitions wholes (λ context state. "")) stop_pause_context

abbrev low_battery : Error
low_battery = record {
  error_description = none;
  error_level = ErrorLevel.fatal;
  error_references = none;
  error_type = "batteryLowError";
}

abbrev charging_adapter : VirtualAgvAdapter
charging_adapter = record adapter {
  battery_low_error = some low_battery;
  vehicle = record vehicle {
    state = record vehicle.state {
      battery_state = record vehicle.state.battery_state { charging = true };
    };
  };
}

abbrev recharged_adapter : VirtualAgvAdapter
recharged_adapter = record charging_adapter { battery_low_error = none }

advance_battery_charge-forgets_example :
    ((advance_battery_charge wholes optional_defaults 1
        (whole 1)
        (whole 1)
        charging_adapter).battery_low_error
      ≡ none)
    × IsSilent wholes optional_defaults
        (advance_battery_charge wholes optional_defaults 1
          (whole 1)
          (whole 1)
          charging_adapter).vehicle
    × ((advance_battery_charge wholes optional_defaults 2
          (whole 1)
          (whole 1)
          recharged_adapter).battery_low_error
        ≡ none)
    × IsSilent wholes optional_defaults
        (advance_battery_charge wholes optional_defaults 2
          (whole 1)
          (whole 1)
          recharged_adapter).vehicle
unfolding initial_state optional_defaults
advance_battery_charge-forgets_example =
    advance_battery_charge-forgets wholes optional_defaults 1 (whole 1) (whole 1) charging_adapter 2
      (whole 1) recharged_adapter refl refl refl refl refl refl refl

abbrev end_position : NodePosition
end_position = record {
  allowed_deviation_theta = none;
  allowed_deviation_xy = none;
  map_description = none;
  map_id = "local";
  theta = none;
  x = whole 3;
  y = whole 4;
}

abbrev edge_ahead : TraverseEdgeContext
edge_ahead = record {
  edge = edge "e1" 1 true "n1" "n2";
  start_node = none;
  end_node = some (record (node "n2" 2 true []) { node_position = some end_position });
  trajectory = none;
}

abbrev departing_adapter : VirtualAgvAdapter
departing_adapter = record adapter { traverse_context = some edge_ahead }

advance_traverse-Drives_example :
    Drives wholes optional_defaults edge_ahead end_position departing_adapter
      (drive wholes optional_defaults (whole 1) 0 edge_ahead end_position departing_adapter)
unfolding advance_traverse initial_state
advance_traverse-Drives_example =
    advance_traverse-Drives wholes optional_defaults (whole 1) 0 edge_ahead end_position
      departing_adapter
      (drive wholes optional_defaults (whole 1) 0 edge_ahead end_position departing_adapter) refl
      refl refl
