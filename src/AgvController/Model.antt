-- ===== src/AgvController/Model.antt =====
-- src/controller/agv-controller.ts: the controller's fields, the adapter that it talks to, and the
-- way it updates and publishes its state. Calls of the adapter's handlers, of timers and of the
-- client are entries of `log`, in the order in which they are made; what the adapter reports back
-- is an operation of its own, but for `stopped` where it is called within the cancelling of an
-- order. Error objects are told apart by `identity`.
use vda_5050_lib_2_0_0_js.Prelude.{
  ℕ, String, Option, none, some, Bool, true, false, not, ◌&&◌, ◌||◌, List, [], ◌∷◌, ◌++◌, map,
  length, any, if◌then◌else◌, String-Eq, ltb, Outcome,
}
use vda_5050_lib_2_0_0_js.JsMap
use vda_5050_lib_2_0_0_js.JsMap.{JsMap}
use vda_5050_lib_2_0_0_js.Types.{
  Double, Action, ActionState, ActionStatus, is_ended_status, Node, Edge, Order, NodeState,
  EdgeState, Trajectory, AgvPosition, Velocity, BatteryState, Information, Load, OperatingMode,
  SafetyStatus, Error, ErrorReference, StateOf, StateContent,
}

pub record ErrorObject : Type 0 where
  pub identity : ℕ
  pub error : Error

-- `Partial<Headerless<State>>`: `none` is a property that is not given.
pub record PartialState : Type 0 where
  pub timestamp : Option String
  pub action_states : Option (List ActionState)
  pub agv_position : Option AgvPosition
  pub battery_state : Option BatteryState
  pub distance_since_last_node : Option Double
  pub driving : Option Bool
  pub edge_states : Option (List EdgeState)
  pub errors : Option (List ErrorObject)
  pub information : Option (List Information)
  pub last_node_id : Option String
  pub last_node_sequence_id : Option ℕ
  pub loads : Option (List Load)
  pub new_base_request : Option Bool
  pub node_states : Option (List NodeState)
  pub operating_mode : Option OperatingMode
  pub order_id : Option String
  pub order_update_id : Option ℕ
  pub paused : Option Bool
  pub safety_state : Option SafetyStatus
  pub velocity : Option Velocity
  pub zone_set_id : Option String

abbrev pub no_change : PartialState
no_change = record {
  timestamp = none;
  action_states = none;
  agv_position = none;
  battery_state = none;
  distance_since_last_node = none;
  driving = none;
  edge_states = none;
  errors = none;
  information = none;
  last_node_id = none;
  last_node_sequence_id = none;
  loads = none;
  new_base_request = none;
  node_states = none;
  operating_mode = none;
  order_id = none;
  order_update_id = none;
  paused = none;
  safety_state = none;
  velocity = none;
  zone_set_id = none;
}

-- Where an action belongs: `scope` with the node or edge of the context.
pub data ActionTarget : Type 0 where
  on_node : Node → ActionTarget
  on_edge : Edge → Option Node → Option Node → ActionTarget
  instant : ActionTarget

pub record ActionContext : Type 0 where
  pub action : Action
  pub target : ActionTarget
  pub stop_driving : Option Bool
  pub active_order_id : Option String

pub record TraverseEdgeContext : Type 0 where
  pub edge : Edge
  pub start_node : Option Node
  pub end_node : Option Node
  pub trajectory : Option Trajectory

pub record ActionStatusChangeInfo : Type 0 where
  pub action_status : ActionStatus
  pub result_description : Option String
  pub error_description : Option String
  pub linked_state : PartialState

-- The questions that the controller asks the adapter; `undefined` answers are empty lists.
pub record AgvAdapter : Type 0 where
  pub is_action_executable : ActionContext → List ErrorReference
  pub is_node_within_deviation_range : Node → List ErrorReference
  pub is_route_traversable : List Node → List Edge → List ErrorReference
  pub trajectory : Option (Edge → Option Node → Option Node → Option Trajectory)

pub data Effect : Type 0 where
  reset_publish_timer : Effect
  publish_state : Option String → StateContent → Effect
  execute_action : ActionContext → Effect
  -- There is no context if the order does not contain the action.
  cancel_action : Option ActionContext → Effect
  finish_edge_action : ActionContext → Effect
  traverse_edge : TraverseEdgeContext → Effect
  stop_traverse : Effect

pub record Controller : Type 0 where
  pub current_order : Option Order
  pub timestamp : Option String
  pub state : StateOf ErrorObject
  pub current_paused_node : Option Node
  pub current_instant_actions : List Action
  pub ended_publish_count : JsMap String ℕ
  pub errored_publish_count : JsMap ℕ ℕ
  pub cancel_order_context : Option ActionContext
  pub next_identity : ℕ
  -- Whether the adapter calls `stopped` before its `stopTraverse` returns, as the virtual one does.
  pub stops_at_once : Bool
  pub log : List Effect

-- Why a run of the controller ends early; the controller is left as it is then.
pub data Fault : Type 0 where
  undefined_action out_of_fuel : Fault

abbrev pub Run : Type 0
Run = Outcome (Fault × Controller) Controller

abbrev pub given {ℓ} : {A : Type ℓ} → Option A → A → A
given none old = old
given (some a) old = a

abbrev pub given_optional {ℓ} : {A : Type ℓ} → Option A → Option A → Option A
given_optional none old = old
given_optional (some a) old = some a

-- `_mergeState`; a timestamp that is not given is deleted.
unfoldable pub merge_state : PartialState → Controller → Controller
merge_state p c = record c {
  timestamp = p.timestamp;
  state = record {
    action_states = given p.action_states c.state.action_states;
    agv_position = given_optional p.agv_position c.state.agv_position;
    battery_state = given p.battery_state c.state.battery_state;
    distance_since_last_node =
        given_optional p.distance_since_last_node c.state.distance_since_last_node;
    driving = given p.driving c.state.driving;
    edge_states = given p.edge_states c.state.edge_states;
    errors = given p.errors c.state.errors;
    information = given_optional p.information c.state.information;
    last_node_id = given p.last_node_id c.state.last_node_id;
    last_node_sequence_id = given p.last_node_sequence_id c.state.last_node_sequence_id;
    loads = given_optional p.loads c.state.loads;
    new_base_request = given_optional p.new_base_request c.state.new_base_request;
    node_states = given p.node_states c.state.node_states;
    operating_mode = given p.operating_mode c.state.operating_mode;
    order_id = given p.order_id c.state.order_id;
    order_update_id = given p.order_update_id c.state.order_update_id;
    paused = given_optional p.paused c.state.paused;
    safety_state = given p.safety_state c.state.safety_state;
    velocity = given_optional p.velocity c.state.velocity;
    zone_set_id = given_optional p.zone_set_id c.state.zone_set_id;
  };
}

-- The state as it is published: the data of its errors.
unfoldable pub snapshot : StateOf ErrorObject → StateContent
snapshot s = record {
  action_states = s.action_states;
  agv_position = s.agv_position;
  battery_state = s.battery_state;
  distance_since_last_node = s.distance_since_last_node;
  driving = s.driving;
  edge_states = s.edge_states;
  errors = map (λ e. e.error) s.errors;
  information = s.information;
  last_node_id = s.last_node_id;
  last_node_sequence_id = s.last_node_sequence_id;
  loads = s.loads;
  new_base_request = s.new_base_request;
  node_states = s.node_states;
  operating_mode = s.operating_mode;
  order_id = s.order_id;
  order_update_id = s.order_update_id;
  paused = s.paused;
  safety_state = s.safety_state;
  velocity = s.velocity;
  zone_set_id = s.zone_set_id;
}

abbrev pub emit : Effect → Controller → Controller
emit e c = record c { log = c.log ++ e ∷ [] }

-- `_publishCurrentState` up to its `await`; see `state_published` for the rest.
unfoldable pub publish_current_state : Controller → Controller
publish_current_state c =
    emit (publish_state c.timestamp (snapshot c.state)) (emit reset_publish_timer c)

unfoldable pub update_state : PartialState → Bool → Controller → Controller
update_state p publish_immediately c =
    let merged = merge_state p c in
    if publish_immediately then publish_current_state merged else merged

unfoldable pub is_instant_action_state : Controller → ActionState → Bool
is_instant_action_state c s = JsMap.has s.action_id c.ended_publish_count

unfoldable pub has_active_order : Controller → Bool
unfolding is_instant_action_state
has_active_order c =
    ltb 0 (length c.state.node_states)
    || ltb 0 (length c.state.edge_states)
    || any (λ s. not (is_instant_action_state c s) && not (is_ended_status s.action_status))
        c.state.action_states

abbrev pub is_some {ℓ} : {A : Type ℓ} → Option A → Bool
is_some none = false
is_some (some a) = true

abbrev pub has_canceling_order : Controller → Bool
has_canceling_order c = is_some c.cancel_order_context
