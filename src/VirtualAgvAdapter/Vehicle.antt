-- ===== src/VirtualAgvAdapter/Vehicle.antt =====
-- src/adapter/virtual-agv-adapter.ts: the internal state of the virtual vehicle, the adapter's
-- options, and what actions do to the vehicle. A call of the controller is an entry of `calls`; what
-- the controller does in it is not. `others` is what the loops of `_startPause` and `_stopPause` ask
-- of the other actions' state machines: `true` to pause, `false` to unpause.
use vda_5050_lib_2_0_0_js.Prelude.{
  ℕ, String, Option, none, some, Bool, true, false, List, [], ◌∷◌, ◌++◌, if◌then◌else◌,
}
use vda_5050_lib_2_0_0_js.Types.{
  Double, ActionStatus, AgvPosition, BatteryState, Velocity, SafetyStatus, OperatingMode, Load,
  Error,
}
use vda_5050_lib_2_0_0_js.AgvController.Model.{
  ActionContext, TraverseEdgeContext, PartialState, no_change,
}
use vda_5050_lib_2_0_0_js.VirtualAgvAdapter.Numbers.{
  Arithmetic, nought, half, one, two, hundred, default_battery_max_reach, default_deviation_theta,
}

-- The status is `undefined` if a machine resumes without having kept one.
pub record StatusChange : Type 0 where
  pub action_status : Option ActionStatus
  pub linked_state : PartialState
  pub result_description : Option String
  pub error_description : Option String

-- What the adapter calls, in order.
pub data Call : Type 0 where
  update_action_status : ActionContext → StatusChange → Call
  update_driving_state : Bool → Call
  update_agv_position_velocity : Option AgvPosition → Option Velocity → Bool → Call
  update_paused_state : Bool → Bool → Call
  update_battery_state : BatteryState → Bool → Call
  add_error : Error → Call
  remove_error : Error → Call
  update_partial_state : PartialState → Call
  edge_traversed : TraverseEdgeContext → Call
  stopped : Call
  attached : PartialState → Call
  detached : Call

pub record VirtualAgvState : Type 0 where
  pub is_driving : Bool
  pub is_paused : Bool
  pub position : AgvPosition
  pub last_node_id : String
  pub velocity : Velocity
  pub battery_state : BatteryState
  pub safety_state : SafetyStatus
  pub operating_mode : OperatingMode
  pub current_load : Option Load

pub record InitialPosition : Type 0 where
  pub map_id : String
  pub x : Double
  pub y : Double
  pub theta : Double
  pub last_node_id : String

-- A distribution gives, at its n-th call, a random value and the mean.
pub record VirtualAgvAdapterOptions : Type 0 where
  pub initial_position : InitialPosition
  pub agv_normal_deviation_xy_tolerance : Double
  pub agv_normal_deviation_theta_tolerance : Double
  pub vehicle_speed : Double
  pub vehicle_speed_distribution : Option (ℕ → Double × Double)
  pub vehicle_time_distribution : Option (ℕ → Double × Double)
  pub battery_max_reach : Double
  pub initial_battery_charge : Double
  pub full_battery_charge_time : Double
  pub low_battery_charge_threshold : Double

-- `_optionsWithDefaults({})`, less the options of the timer.
unfoldable pub optional_defaults : VirtualAgvAdapterOptions
optional_defaults = record {
  initial_position = record {
    map_id = "local";
    x = nought;
    y = nought;
    theta = nought;
    last_node_id = "0";
  };
  agv_normal_deviation_xy_tolerance = half;
  agv_normal_deviation_theta_tolerance = default_deviation_theta;
  vehicle_speed = two;
  vehicle_speed_distribution = none;
  vehicle_time_distribution = none;
  battery_max_reach = default_battery_max_reach;
  initial_battery_charge = hundred;
  full_battery_charge_time = one;
  low_battery_charge_threshold = one;
}

pub record Vehicle : Type 0 where
  pub state : VirtualAgvState
  pub calls : List Call

abbrev pub call : Call → Vehicle → Vehicle
call c v = record v { calls = v.calls ++ c ∷ [] }

-- What a linked state brings about: `undefined` is an empty partial state.
pub record SideEffect : Type 0 where
  pub vehicle : Vehicle
  pub changes : PartialState
  pub others : Option Bool

abbrev quiet : Vehicle → SideEffect
quiet v = record { vehicle = v; changes = no_change; others = none }

abbrev pub with_state : (VirtualAgvState → VirtualAgvState) → Vehicle → Vehicle
with_state f v = record v { state = f v.state }

abbrev with_velocity : Double → Double → VirtualAgvState → VirtualAgvState
with_velocity vx vy s = record s { velocity = record s.velocity { vx = some vx; vy = some vy } }

unfoldable pub start_driving : Double → Double → Bool → Vehicle → Vehicle
start_driving vx vy immediately v =
    let d = with_state (λ s. record (with_velocity vx vy s) { is_driving = true }) v in
    call (update_agv_position_velocity none (some d.state.velocity) immediately)
      (call (update_driving_state true) d)

unfoldable pub stop_driving : Bool → Vehicle → Vehicle
stop_driving immediately v =
    let d = with_state (λ s. record (with_velocity nought nought s) { is_driving = false }) v in
    call (update_agv_position_velocity none (some d.state.velocity) immediately)
      (call (update_driving_state false) d)

abbrev pub stop_if_driving : Bool → Vehicle → Vehicle
stop_if_driving immediately v = if v.state.is_driving then stop_driving immediately v else v

unfoldable pub get_battery_reach : Arithmetic → VirtualAgvAdapterOptions → Double → Double
get_battery_reach m o charge = m.floor (m.divide (m.multiply o.battery_max_reach charge) hundred)

-- The load's ID is made of a fresh UUID, its weight is random.
unfoldable pub load_added : String → Double → Vehicle → SideEffect
load_added load_id weight v =
    let load : Load = record {
      bounding_box_reference = none;
      load_dimensions = some (record { height = some one; length = one; width = one });
      load_id = some load_id;
      load_position = none;
      load_type = some "EPAL";
      weight = some weight;
    } in
    record {
      vehicle = with_state (λ s. record s { current_load = some load }) v;
      changes = record no_change { loads = some (load ∷ []) };
      others = none;
    }

unfoldable pub load_removed : Vehicle → SideEffect
load_removed v = record {
  vehicle = with_state (λ s. record s { current_load = none }) v;
  changes = record no_change { loads = some [] };
  others = none;
}

unfoldable pub start_pause : Vehicle → SideEffect
start_pause v = if v.state.is_paused then quiet v else record {
  vehicle = with_state (λ s. record s { is_paused = true }) (stop_if_driving false v);
  changes = record no_change { paused = some true };
  others = some true;
}

-- With the context of an action.
unfoldable pub stop_pause : Vehicle → SideEffect
stop_pause v =
    if v.state.is_paused
    then record {
      vehicle = with_state (λ s. record s { is_paused = false }) v;
      changes = record no_change { paused = some false };
      others = some false;
    }
    else quiet v

-- Without one: no state machine is asked to unpause.
unfoldable pub stop_pause_without_context : Vehicle → Vehicle
stop_pause_without_context v =
    if v.state.is_paused
    then call (update_paused_state false true) (with_state (λ s. record s { is_paused = false }) v)
    else v

abbrev with_charging : Bool → VirtualAgvState → VirtualAgvState
with_charging charging s = record s {
  battery_state = record s.battery_state { charging = charging };
}

unfoldable pub start_charging : Vehicle → SideEffect
start_charging v =
    let c = with_state (with_charging true) (stop_if_driving false v) in
    if v.state.battery_state.charging then quiet v else record {
      vehicle = c;
      changes = record no_change { battery_state = some c.state.battery_state };
      others = none;
    }

unfoldable pub stop_charging : Vehicle → SideEffect
stop_charging v =
    let c = with_state (with_charging false) v in
    if v.state.battery_state.charging
    then record {
      vehicle = c;
      changes = record no_change { battery_state = some c.state.battery_state };
      others = none;
    }
    else quiet v
