-- ===== src/MasterController/Model.antt =====
-- src/controller/master-controller.ts: the caches of the master controller, and the events that it
-- raises. A cache is an object that several places refer to, so it is a number, its place in
-- `caches`; the handlers of an event are those that were given with the cache or the action. Order
-- handlers are optional in part: an event stands for a call if there is a handler for it.
use vda_5050_lib_2_0_0_js.Prelude.{
  ℕ, zero, suc, String, Option, Bool, List, [], ◌∷◌, ◌++◌, get_elem?,
}
use vda_5050_lib_2_0_0_js.JsMap.{JsMap}
use vda_5050_lib_2_0_0_js.AgvIdMap.{AgvIdMap}
use vda_5050_lib_2_0_0_js.Types.{
  Double, AgvId, Action, ActionState, Node, Edge, OrderContent, Error, OperatingMode, SafetyStatus,
}

-- `Partial<Pick<State, ...>>`: `none` is a property that is not given or undefined.
pub record EdgeStateChanges : Type 0 where
  pub distance_since_last_node : Option Double
  pub driving : Option Bool
  pub new_base_request : Option Bool
  pub operating_mode : Option OperatingMode
  pub paused : Option Bool
  pub safety_state : Option SafetyStatus

-- `Node | Edge`.
pub data Target : Type 0 where
  node : Node → Target
  edge : Edge → Target

pub record OrderStateCache : Type 0 where
  pub agv_id : AgvId
  pub order : OrderContent
  pub is_order_processed_handler_invoked : Bool
  pub last_cache : Option ℕ
  pub combined_order : OrderContent
  pub last_node_traversed : Option Node
  pub last_edge_state_changes : Option EdgeStateChanges
  pub edge_state_change_invocations : Option ℕ
  pub last_edge_processed : Option Edge
  pub last_action_states : JsMap String ActionState
  pub mapped_actions : JsMap String (Action × Target)

pub record InstantActionStateCache : Type 0 where
  pub agv_id : AgvId
  pub action : Action
  pub instant_actions_ref : ℕ
  pub last_action_state : Option ActionState

-- The map of order IDs, with its property "lastCache".
pub record OrderIds : Type 0 where
  pub last_assigned : Option ℕ
  pub by_order_id : JsMap String (JsMap ℕ ℕ)

-- What the handlers are called with; the number is that of the cache.
pub data Event : Type 0 where
  order_processed : ℕ → Option Error → Bool → Bool → Event
  node_traversed : ℕ → Node → Option Edge → Option Node → Event
  edge_traversing : ℕ → Edge → Option Node → Option Node → EdgeStateChanges → ℕ → Event
  edge_traversed : ℕ → Edge → Option Node → Option Node → Event
  action_state_changed : ℕ → ActionState → Option Error → Action → Target → Event
  instant_action_state_changed : ActionState → Option Error → Action → Event
  instant_action_error : Error → Action → Event

pub record MasterController : Type 0 where
  pub current_orders : AgvIdMap OrderIds
  pub caches : List OrderStateCache
  pub current_instant_actions : AgvIdMap (JsMap String InstantActionStateCache)
  pub current_instant_actions_ref : Option ℕ
  pub validation_errors : List (ℕ × Error)
  pub events : List Event

abbrev pub set_cache : ℕ → OrderStateCache → List OrderStateCache → List OrderStateCache
set_cache i c [] = []
set_cache zero c (d ∷ caches) = c ∷ caches
set_cache (suc i) c (d ∷ caches) = d ∷ set_cache i c caches

abbrev pub cache_at : ℕ → MasterController → Option OrderStateCache
cache_at i m = get_elem? m.caches i

abbrev pub put_cache : ℕ → OrderStateCache → MasterController → MasterController
put_cache i c m = record m { caches = set_cache i c m.caches }

abbrev pub raise : Event → MasterController → MasterController
raise e m = record m { events = m.events ++ e ∷ [] }
