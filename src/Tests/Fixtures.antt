-- ===== src/Tests/Fixtures.antt =====
-- An order over two nodes, a controller that is idle and one that drives the order.
use vda_5050_lib_2_0_0_js.Prelude.{ℕ, String, Option, none, some, Bool, true, false, List, [], ◌∷◌}
use vda_5050_lib_2_0_0_js.Types.{
  Action, BlockingType, Node, Edge, Order, Header, Double, OperatingMode, EStop, StateOf,
}
use vda_5050_lib_2_0_0_js.AgvController.Model.{
  Controller, ErrorObject, AgvAdapter, ActionContext, instant,
}

abbrev pub header : Header
header = record {
  header_id = 0;
  manufacturer = "RobotCompany";
  serial_number = "001";
  timestamp = "2024-01-01T00:00:00.000Z";
  version = "2.0.0";
}

abbrev pub action : String → String → BlockingType → Action
action id type blocking = record {
  action_description = none;
  action_id = id;
  action_parameters = none;
  action_type = type;
  blocking_type = blocking;
}

abbrev pub node : String → ℕ → Bool → List Action → Node
node id sequence_id released actions = record {
  actions = actions;
  node_description = none;
  node_id = id;
  node_position = none;
  released = released;
  sequence_id = sequence_id;
}

abbrev pub edge : String → ℕ → Bool → String → String → Edge
edge id sequence_id released from to = record {
  actions = [];
  direction = none;
  length = none;
  edge_description = none;
  edge_id = id;
  end_node_id = to;
  max_height = none;
  max_rotation_speed = none;
  max_speed = none;
  min_height = none;
  orientation = none;
  orientation_type = none;
  released = released;
  rotation_allowed = none;
  sequence_id = sequence_id;
  start_node_id = from;
  trajectory = none;
}

abbrev pub pick : Action
pick = action "a1" "pick" BlockingType.hard

abbrev pub first_order : Order
first_order = record {
  header = header;
  content = record {
    edges = edge "e1" 1 true "n1" "n2" ∷ [];
    nodes = node "n1" 0 true [] ∷ node "n2" 2 true (pick ∷ []) ∷ [];
    order_id = "o1";
    order_update_id = 0;
    zone_set_id = none;
  };
}

-- It goes on where the first one ends.
abbrev pub next_order : Order
next_order = record {
  header = header;
  content = record {
    edges = edge "e2" 3 true "n2" "n3" ∷ [];
    nodes = node "n2" 2 true [] ∷ node "n3" 4 true [] ∷ [];
    order_id = "o1";
    order_update_id = 1;
    zone_set_id = none;
  };
}

abbrev zero_double : Double
zero_double = record { negative = false; exponent = 0; fraction = 0 }

abbrev pub idle_state : StateOf ErrorObject
idle_state = record {
  action_states = [];
  agv_position = none;
  battery_state = record {
    battery_charge = zero_double;
    battery_health = none;
    battery_voltage = none;
    charging = false;
    reach = none;
  };
  distance_since_last_node = none;
  driving = false;
  edge_states = [];
  errors = [];
  information = none;
  last_node_id = "n1";
  last_node_sequence_id = 0;
  loads = none;
  new_base_request = none;
  node_states = [];
  operating_mode = OperatingMode.automatic;
  order_id = "";
  order_update_id = 0;
  paused = none;
  safety_state = record { e_stop = EStop.none; field_violation = false };
  velocity = none;
  zone_set_id = none;
}

abbrev pub idle : Controller
idle = record {
  current_order = none;
  timestamp = none;
  state = idle_state;
  current_paused_node = none;
  current_instant_actions = [];
  ended_publish_count = [];
  errored_publish_count = [];
  cancel_order_context = none;
  next_identity = 0;
  stops_at_once = true;
  log = [];
}

-- The vehicle is on its way to the last node of the first order.
abbrev pub driving : Controller
driving = record idle {
  current_order = some first_order;
  state = record idle_state {
    order_id = "o1";
    node_states =
        record {
          node_description = none;
          node_id = "n2";
          node_position = none;
          released = true;
          sequence_id = 2;
        }
        ∷ [];
  };
}

-- An adapter that objects to nothing.
abbrev pub willing : AgvAdapter
willing = record {
  is_action_executable = λ context. [];
  is_node_within_deviation_range = λ n. [];
  is_route_traversable = λ nodes edges. [];
  trajectory = none;
}

abbrev pub valid : Order → Option String
valid order = none

abbrev pub request : Action
request = action "r1" "stateRequest" BlockingType.none

abbrev pub beep : Action
beep = action "b1" "beep" BlockingType.none

abbrev pub cancel_context : ActionContext
cancel_context = record {
  action = action "c1" "cancelOrder" BlockingType.hard;
  target = instant;
  stop_driving = some true;
  active_order_id = some "o1";
}
