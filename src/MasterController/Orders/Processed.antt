-- ===== src/MasterController/Orders/Processed.antt =====
-- src/controller/master-controller.ts: when an order has been processed, and the whole of
-- `_dispatchOrderState`.
pub mod Once
pub mod Marks
use vda_5050_lib_2_0_0_js.Prelude.{
  ℕ, String, ◌≡◌, refl, ◌↔◌, Option, none, some, Bool, true, false, not, ◌&&◌, List, [], ◌∷◌, ◌++◌,
  every, if◌then◌else◌, String-Eq, arith, All, Bool-cases, inl, inr,
}
use vda_5050_lib_2_0_0_js.JsMap
use vda_5050_lib_2_0_0_js.JsMap.{JsMap}
use vda_5050_lib_2_0_0_js.Types.{
  Action, ActionState, ActionStatus, is_ended_status, NodeState, EdgeState, StateContent,
}
use vda_5050_lib_2_0_0_js.MasterController.Model.{
  MasterController, OrderStateCache, Event, order_processed, Target, cache_at, put_cache,
}
use vda_5050_lib_2_0_0_js.MasterController.Caches.{remove_order_state_cache}
use vda_5050_lib_2_0_0_js.MasterController.Graph.{has_ended}
use vda_5050_lib_2_0_0_js.MasterController.Edges.{Step}
use vda_5050_lib_2_0_0_js.MasterController.Orders.{
  is_order_canceling, take_over_last, process_action_states, process_last_edge, process_next_node,
  and_then,
}

-- The results `false`, `undefined` and `true` of `_isOrderProcessed`.
pub data Progress : Type 0 where
  unprocessed active completed : Progress

abbrev is_nil {ℓ} : {A : Type ℓ} → List A → Bool
is_nil [] = true
is_nil (a ∷ xs) = false

abbrev all_mapped_ended : JsMap String ActionState → JsMap String (Action × Target) → Bool
all_mapped_ended states [] = true
all_mapped_ended states ((k, (action, target)) ∷ mapped) =
    has_ended (JsMap.get action.action_id states) && all_mapped_ended states mapped

unfoldable pub is_order_processed : OrderStateCache → StateContent → Progress
is_order_processed c state =
    let ended = all_mapped_ended c.last_action_states c.mapped_actions in
    if is_nil state.node_states && is_nil state.edge_states
    then (if ended then completed else unprocessed)
    else if every (λ s. not s.released) state.node_states
        && every (λ s. not s.released) state.edge_states
    then (if ended then active else unprocessed)
    else unprocessed

abbrev pub is_active : Progress → Bool
is_active active = true
is_active _ = false

abbrev pub is_processed : Progress → Bool
is_processed unprocessed = false
is_processed _ = true

abbrev pub raise_all : List Event → MasterController → MasterController
raise_all events m = record m { events = m.events ++ events }

-- The cache as it is marked; unless the order is active it is removed.
abbrev pub settled : ℕ → Bool → OrderStateCache → MasterController → MasterController
settled i stays c m =
    let marked = put_cache i (record c { is_order_processed_handler_invoked = true }) m in
    if stays then marked else remove_order_state_cache i true marked

abbrev pub complete : ℕ → Progress → Bool → OrderStateCache → MasterController → MasterController
complete i progress by_cancelation c m =
    raise_all (order_processed i none by_cancelation (is_active progress) ∷ [])
      (settled i (is_active progress) c m)

abbrev pub is_due : Progress → OrderStateCache → Bool
is_due progress c = is_processed progress && not c.is_order_processed_handler_invoked

-- The last part of `_dispatchOrderState`: an active order keeps its cache for stitching.
unfoldable pub finish_order :
    ℕ → StateContent → OrderStateCache → MasterController → MasterController
finish_order i state c m =
    let progress = is_order_processed c state in
    let by_cancelation = is_order_canceling c state (ActionStatus.finished ∷ []) m in
    if is_due progress c then complete i progress by_cancelation c m else m

-- What a state says of the actions, the edge and the nodes of an order.
unfoldable pub process_order_state : ℕ → Bool → StateContent → OrderStateCache → Step
process_order_state i is_canceling state c = and_then (process_next_node i is_canceling state) (
    and_then (process_last_edge i is_canceling state)
      (process_action_states i state state.action_states c))

abbrev pub dispatch_to :
    ℕ → StateContent → MasterController → Option OrderStateCache → MasterController
dispatch_to i state m none = m
dispatch_to i state m (some c) =
    let is_canceling =
      is_order_canceling c state (ActionStatus.running ∷ ActionStatus.finished ∷ []) m in
    let (d, events) = process_order_state i is_canceling state c in
    finish_order i state d (raise_all events (put_cache i d m))

abbrev pub stitched : ℕ → MasterController → Option OrderStateCache → MasterController
stitched i m none = m
stitched i m (some c) = take_over_last i c m

unfoldable pub dispatch_order_state : ℕ → StateContent → MasterController → MasterController
dispatch_order_state i state m =
    let m' = stitched i m (cache_at i m) in dispatch_to i state m' (cache_at i m')

-- No node and no edge is left.
abbrev pub NothingLeft : StateContent → Type 0
NothingLeft state = (state.node_states ≡ []) × (state.edge_states ≡ [])

-- Only the horizon is left.
abbrev pub HorizonLeft : StateContent → Type 0
HorizonLeft state =
    All (λ s. s.released ≡ false) state.node_states
    × All (λ s. s.released ≡ false) state.edge_states

-- Each action of the order has been reported as finished or failed.
abbrev pub AllEnded : OrderStateCache → Type 0
AllEnded c =
    All (λ b. has_ended (JsMap.get b.1.0.action_id c.last_action_states) ≡ true) c.mapped_actions

is_nil_iff {ℓ} : {A : Type ℓ} (xs : List A) → (is_nil xs ≡ true) ↔ (xs ≡ [])
is_nil_iff [] = ground arith
is_nil_iff (a ∷ xs) = ground arith

all_mapped_ended_iff :
    (states : JsMap String ActionState) (mapped : JsMap String (Action × Target))
    → (all_mapped_ended states mapped ≡ true)
      ↔ All (λ b. has_ended (JsMap.get b.1.0.action_id states) ≡ true) mapped
all_mapped_ended_iff states [] = ground arith
all_mapped_ended_iff states ((k, (action, target)) ∷ mapped) =
    ground (arith, all_mapped_ended_iff states mapped)

not-released_iff {ℓ} :
    {A : Type ℓ} (is_released : A → Bool) (xs : List A)
    → (every (λ s. not (is_released s)) xs ≡ true) ↔ All (λ s. is_released s ≡ false) xs
not-released_iff is_released [] = ground arith
not-released_iff is_released (x ∷ xs) = ground (arith, not-released_iff is_released xs)

-- An order is completed exactly if the state has no node and no edge left and each action of the
-- order has been reported as finished or failed; it is processed but active exactly if something is
-- left, of which nothing is released, and each action of the order has been reported so.
pub is_order_processed_iff :
    (c : OrderStateCache) (state : StateContent)
    → ((is_order_processed c state ≡ completed) ↔ (NothingLeft state × AllEnded c))
      × ((is_order_processed c state ≡ active)
          ↔ ((¬ NothingLeft state) × HorizonLeft state × AllEnded c))
unfolding is_order_processed
is_order_processed_iff c state =
    let ended = all_mapped_ended_iff c.last_action_states c.mapped_actions in
    let nodes = is_nil_iff state.node_states in
    let edges = is_nil_iff state.edge_states in
    let node_horizon = not-released_iff (λ s. s.released) state.node_states in
    let edge_horizon = not-released_iff (λ s. s.released) state.edge_states in
    ground (arith, ended, nodes, edges, node_horizon, edge_horizon)
