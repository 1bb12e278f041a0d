-- ===== src/MasterController/Caches.antt =====
-- src/controller/master-controller.ts: the order state caches: adding, finding and removing them,
-- and the assignment of an order up to and after its publishing.
pub mod Laws
pub mod Indexed
use vda_5050_lib_2_0_0_js.Prelude.{
  ℕ, zero, suc, ◌+◌, String, Option, none, some, Bool, true, false, List, [], ◌∷◌, ◌++◌, length,
  eqb, if◌then◌else◌, String-Eq, ℕ-Eq,
}
use vda_5050_lib_2_0_0_js.JsMap
use vda_5050_lib_2_0_0_js.JsMap.{JsMap}
use vda_5050_lib_2_0_0_js.AgvIdMap
use vda_5050_lib_2_0_0_js.Types.{AgvId, Action, Node, Edge, OrderContent}
use vda_5050_lib_2_0_0_js.MasterController.Model.{
  MasterController, OrderStateCache, OrderIds, Target, node, edge, cache_at, put_cache,
}

abbrev pub no_orders : OrderIds
no_orders = record { last_assigned = none; by_order_id = [] }

abbrev pub order_ids_of : AgvId → MasterController → OrderIds
order_ids_of agv_id m = elim (AgvIdMap.get agv_id m.current_orders) [
  | none ↦ no_orders
  | some ids ↦ ids
]

abbrev pub update_ids_of : String → OrderIds → JsMap ℕ ℕ
update_ids_of order_id ids = elim (JsMap.get order_id ids.by_order_id) [
  | none ↦ []
  | some updates ↦ updates
]

unfoldable pub get_order_state_cache : AgvId → String → ℕ → MasterController → Option ℕ
get_order_state_cache agv_id order_id order_update_id m =
    elim (AgvIdMap.get agv_id m.current_orders) [
      | none ↦ none
      | some ids ↦ elim (JsMap.get order_id ids.by_order_id) [
        | none ↦ none
        | some updates ↦ JsMap.get order_update_id updates
      ]
    ]

unfoldable pub get_last_assigned_order_state_cache : AgvId → MasterController → Option ℕ
get_last_assigned_order_state_cache agv_id m = elim (AgvIdMap.get agv_id m.current_orders) [
  | none ↦ none
  | some ids ↦ ids.last_assigned
]

abbrev map_actions :
    Target → List Action → JsMap String (Action × Target) → JsMap String (Action × Target)
map_actions target [] mapped = mapped
map_actions target (a ∷ actions) mapped =
    map_actions target actions (JsMap.set a.action_id (a, target) mapped)

-- Up to the first node that is not released.
abbrev map_nodes : List Node → JsMap String (Action × Target) → JsMap String (Action × Target)
map_nodes [] mapped = mapped
map_nodes (n ∷ nodes) mapped =
    let rest = map_nodes nodes (map_actions (node n) n.actions mapped) in
    if n.released then rest else mapped

abbrev map_edges : List Edge → JsMap String (Action × Target) → JsMap String (Action × Target)
map_edges [] mapped = mapped
map_edges (e ∷ edges) mapped =
    let rest = map_edges edges (map_actions (edge e) e.actions mapped) in
    if e.released then rest else mapped

-- `_initCachedActions`.
unfoldable pub cached_actions : OrderContent → JsMap String (Action × Target)
cached_actions order = map_edges order.edges (map_nodes order.nodes [])

abbrev pub new_cache : AgvId → OrderContent → Option ℕ → OrderStateCache
new_cache agv_id order last_cache = record {
  agv_id = agv_id;
  order = order;
  is_order_processed_handler_invoked = false;
  last_cache = last_cache;
  combined_order = order;
  last_node_traversed = none;
  last_edge_state_changes = none;
  edge_state_change_invocations = none;
  last_edge_processed = none;
  last_action_states = [];
  mapped_actions = cached_actions order;
}

-- The new cache is behind all others.
unfoldable pub add_order_state_cache : AgvId → OrderContent → MasterController → MasterController
add_order_state_cache agv_id order m =
    let ids = order_ids_of agv_id m in
    let i = length m.caches in
    let updates = JsMap.set order.order_update_id i (update_ids_of order.order_id ids) in
    record m {
      caches =
          m.caches ++ new_cache agv_id order (get_last_assigned_order_state_cache agv_id m) ∷ [];
      current_orders =
          AgvIdMap.set agv_id
            (record {
              last_assigned = some i;
              by_order_id = JsMap.set order.order_id updates ids.by_order_id;
            })
            m.current_orders;
    }

abbrev is_empty_map {ℓ κ} : {K : Type ℓ} {V : Type κ} → JsMap K V → Bool
is_empty_map m = eqb (JsMap.size m) 0

-- The maps without the cache of an order update, and without those that are empty then.
unfoldable pub forget : AgvId → String → ℕ → MasterController → MasterController
forget agv_id order_id order_update_id m = elim (AgvIdMap.get agv_id m.current_orders) [
  | none ↦ m
  | some ids ↦ elim (JsMap.get order_id ids.by_order_id) [
    | none ↦ m
    | some updates ↦
        let left = JsMap.delete order_update_id updates in
        let orders = JsMap.delete order_id ids.by_order_id in
        let kept = JsMap.set order_id left ids.by_order_id in
        record m {
          current_orders =
              if is_empty_map left
              then (if is_empty_map orders
                  then AgvIdMap.delete agv_id m.current_orders
                  else AgvIdMap.set agv_id (record ids { by_order_id = orders }) m.current_orders)
              else AgvIdMap.set agv_id (record ids { by_order_id = kept }) m.current_orders;
        }
  ]
]

abbrev pub drop_last : Bool → ℕ → OrderStateCache → MasterController → MasterController
drop_last true i c m = put_cache i (record c { last_cache = none }) m
drop_last false i c m = m

-- The cache with its number, if there is one.
abbrev pub remove_cache : ℕ → Bool → MasterController → Option OrderStateCache → MasterController
remove_cache i delete_last_cache m none = m
remove_cache i delete_last_cache m (some c) =
    forget c.agv_id c.order.order_id c.order.order_update_id (drop_last delete_last_cache i c m)

unfoldable pub remove_order_state_cache : ℕ → Bool → MasterController → MasterController
remove_order_state_cache i delete_last_cache m = remove_cache i delete_last_cache m (cache_at i m)

-- `_getLastActiveOrderStateCache` from `next` on: the first cache of the chain that the maps hold
-- under its own order. Each step goes on to an older cache.
unfoldable pub active_from : ℕ → AgvId → Option ℕ → MasterController → Option ℕ
active_from rounds agv_id none m = none
active_from zero agv_id (some i) m = none
active_from (suc rounds) agv_id (some i) m = elim (cache_at i m) [
  | none ↦ none
  | some c ↦
      let later = active_from rounds agv_id c.last_cache m in
      elim (get_order_state_cache agv_id c.order.order_id c.order.order_update_id m) [
        | none ↦ later
        | some j ↦ if eqb j i then some i else later
      ]
]

unfoldable pub get_last_active_order_state_cache : OrderStateCache → MasterController → Option ℕ
get_last_active_order_state_cache c m = active_from (suc (length m.caches)) c.agv_id c.last_cache m

-- `assignOrder` up to its publishing; `none` if the order is discarded.
unfoldable pub assign_order : AgvId → OrderContent → MasterController → Option MasterController
assign_order agv_id order m =
    elim (get_order_state_cache agv_id order.order_id order.order_update_id m) [
      | some i ↦ none
      | none ↦ some (add_order_state_cache agv_id order m)
    ]

-- The publishing of the order with this cache has failed.
unfoldable pub assignment_failed : ℕ → MasterController → MasterController
assignment_failed i m = remove_order_state_cache i false m
