-- ===== src/VirtualAgvAdapter/Motion.antt =====
-- src/adapter/virtual-agv-adapter.ts: the simulated drive along an edge, the battery, and the whole
-- of a tick. `draw` numbers the calls of a distribution.
pub mod Range
pub mod Traversals
pub mod Charging
use vda_5050_lib_2_0_0_js.Prelude.{
  ℕ, String, Option, none, some, Bool, true, false, not, ◌&&◌, ◌||◌, List, [], ◌∷◌, ◌++◌,
  if◌then◌else◌, Outcome, ok, err, ◌>>=◌,
}
use vda_5050_lib_2_0_0_js.Types.{Double, NodePosition, Error, ErrorLevel, EStop, OperatingMode}
use vda_5050_lib_2_0_0_js.AgvController.Model.{TraverseEdgeContext, PartialState, no_change}
use vda_5050_lib_2_0_0_js.AgvController.Errors.{reference}
use vda_5050_lib_2_0_0_js.VirtualAgvAdapter.Numbers.{
  Arithmetic, nought, ten, twenty_four, hundred, thousand, seconds_per_hour, not_a_number,
}
use vda_5050_lib_2_0_0_js.VirtualAgvAdapter.Vehicle.{
  Vehicle, VirtualAgvState, VirtualAgvAdapterOptions, Call, call, with_state, start_driving,
  stop_driving, stop_charging, get_battery_reach, update_battery_state,
  update_agv_position_velocity, update_partial_state, add_error, remove_error, edge_traversed,
  attached,
}
use vda_5050_lib_2_0_0_js.VirtualAgvAdapter.Definitions.{VirtualError, no_node_position, FreshLoad}
use vda_5050_lib_2_0_0_js.VirtualAgvAdapter.Adapter.{VirtualAgvAdapter}
use vda_5050_lib_2_0_0_js.VirtualAgvAdapter.Adapter.Ticks.{advance_actions}

-- What `attach` starts with, unless the vehicle state is there already.
unfoldable pub initial_state : Arithmetic → VirtualAgvAdapterOptions → VirtualAgvState
initial_state a o = record {
  is_driving = false;
  is_paused = false;
  position = record {
    deviation_range = none;
    localization_score = none;
    map_description = none;
    map_id = o.initial_position.map_id;
    position_initialized = true;
    theta = o.initial_position.theta;
    x = o.initial_position.x;
    y = o.initial_position.y;
  };
  last_node_id = o.initial_position.last_node_id;
  velocity = record { omega = some nought; vx = some nought; vy = some nought };
  battery_state = record {
    battery_charge = o.initial_battery_charge;
    battery_health = none;
    battery_voltage = some twenty_four;
    charging = false;
    reach = some (get_battery_reach a o o.initial_battery_charge);
  };
  safety_state = record { e_stop = EStop.none; field_violation = false };
  operating_mode = OperatingMode.automatic;
  current_load = none;
}

-- `attach` of an adapter that has a vehicle state; the timer is not modelled.
unfoldable pub attach : VirtualAgvAdapter → VirtualAgvAdapter
attach d =
    let s = d.vehicle.state in
    record d {
      vehicle =
          call
            (attached (record no_change {
              agv_position = some s.position;
              last_node_id = some s.last_node_id;
              velocity = some s.velocity;
              battery_state = some s.battery_state;
              driving = some s.is_driving;
              operating_mode = some s.operating_mode;
              paused = some s.is_paused;
              safety_state = some s.safety_state;
            }))
            d.vehicle;
    }

module _ (a : Arithmetic) (o : VirtualAgvAdapterOptions) where
  abbrev pick_sample : Bool → Double × Double → Double
  pick_sample true sample = sample.1
  pick_sample false sample = sample.0

  unfoldable pub get_target_speed : ℕ → Bool → Double → Option Double → Double
  get_target_speed draw use_mean distance max_speed = elim o.vehicle_speed_distribution [
    | some distribution ↦ pick_sample use_mean (distribution draw)
    | none ↦ elim o.vehicle_time_distribution [
      | some distribution ↦ a.divide distance (pick_sample use_mean (distribution draw))
      | none ↦ elim max_speed [
        | none ↦ o.vehicle_speed
        | some limit ↦ a.minimum limit o.vehicle_speed
      ]
    ]
  ]

  abbrev pub with_charge : Double → VirtualAgvState → VirtualAgvState
  with_charge charge s = record s {
    battery_state = record s.battery_state {
      battery_charge = charge;
      reach = some (get_battery_reach a o charge);
    };
  }

  abbrev pub report_battery : Bool → Vehicle → Vehicle
  report_battery immediately v = call (update_battery_state v.state.battery_state immediately) v

  -- `updateBatteryState`.
  unfoldable pub drain_battery : Double → Double → Vehicle → Vehicle
  drain_battery dx dy v =
      let distance = a.sqrt (a.add (a.multiply dx dx) (a.multiply dy dy)) in
      let used = a.divide (a.multiply distance hundred) o.battery_max_reach in
      let left = a.maximum nought (a.subtract v.state.battery_state.battery_charge used) in
      report_battery false (with_state (with_charge left) v)

  abbrev report_position : Vehicle → Vehicle
  report_position v = call (update_agv_position_velocity (some v.state.position) none false) v

  abbrev pub number_of : Option Double → Double
  number_of none = not_a_number
  number_of (some d) = d

  abbrev move_to : Double → Double → Double → VirtualAgvState → VirtualAgvState
  move_to x y theta s = record s { position = record s.position { x = x; y = y; theta = theta } }

  abbrev or_double : Option Double → Double → Double
  or_double none d = d
  or_double (some e) d = e

  -- The vehicle reaches the end node.
  unfoldable pub arrive : TraverseEdgeContext → NodePosition → VirtualAgvAdapter → VirtualAgvAdapter
  arrive context end d =
      let p = d.vehicle.state.position in
      let there = with_state (move_to end.x end.y (or_double end.theta p.theta)) d.vehicle in
      let drained = drain_battery (a.subtract end.x p.x) (a.subtract end.y p.y) there in
      record d {
        traverse_context = none;
        vehicle = call (edge_traversed context) (stop_driving true (report_position drained));
      }

  abbrev low_error : VirtualAgvState → Error
  low_error s = record {
    error_description = some "stop driving due to low battery";
    error_level = ErrorLevel.fatal;
    error_references =
        some
          (reference "batteryState.batteryCharge" (a.to_text s.battery_state.battery_charge) ∷ []);
    error_type = "batteryLowError";
  }

  abbrev pub is_low : VirtualAgvState → Bool
  is_low s = a.less s.battery_state.battery_charge o.low_battery_charge_threshold

  -- The vehicle goes on for the interval, and stops if the battery was low before.
  unfoldable pub move_on :
      TraverseEdgeContext → Double → Double → Double → VirtualAgvAdapter → VirtualAgvAdapter
  move_on context alpha dx dy d =
      let p = d.vehicle.state.position in
      let moved =
        with_state
          (move_to (a.add p.x dx) (a.add p.y dy) (or_double context.edge.orientation alpha))
          d.vehicle in
      let reported = report_position (drain_battery dx dy moved) in
      let stopped = stop_driving false reported in
      if is_low d.vehicle.state
      then record d {
        vehicle = call (add_error (low_error reported.state)) stopped;
        battery_low_error = some (low_error reported.state);
      }
      else record d { vehicle = reported }

  unfoldable pub drive :
      Double → ℕ → TraverseEdgeContext → NodePosition → VirtualAgvAdapter → VirtualAgvAdapter
  drive interval draw context end d =
      let s = d.vehicle.state in
      let tx = a.subtract end.x s.position.x in
      let ty = a.subtract end.y s.position.y in
      let alpha = a.atan2 ty tx in
      let distance = a.sqrt (a.add (a.square tx) (a.square ty)) in
      let speed = get_target_speed draw false distance context.edge.max_speed in
      let dx = a.multiply (number_of s.velocity.vx) interval in
      let dy = a.multiply (number_of s.velocity.vy) interval in
      if s.is_driving
      then (if a.at_most (a.add (a.square tx) (a.square ty)) (a.add (a.square dx) (a.square dy))
          then arrive context end d
          else move_on context alpha dx dy d)
      else if is_low s
      then d
      else record d {
        vehicle =
            start_driving (a.multiply (a.cos alpha) speed) (a.multiply (a.sin alpha) speed) true
              d.vehicle;
      }

  abbrev pub end_position : TraverseEdgeContext → Option NodePosition
  end_position context = elim context.end_node [ none ↦ none | some n ↦ n.node_position ]

  -- `_advanceTraverse`.
  unfoldable pub advance_traverse :
      Double → ℕ → VirtualAgvAdapter → Outcome VirtualError VirtualAgvAdapter
  advance_traverse interval draw d = elim d.traverse_context [
    | none ↦ ok d
    | some context ↦
        if d.vehicle.state.is_paused || d.vehicle.state.battery_state.charging
        then ok d
        else elim (end_position context) [
          | none ↦ err no_node_position
          | some end ↦ ok (drive interval draw context end d)
        ]
  ]
