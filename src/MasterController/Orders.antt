-- ===== src/MasterController/Orders.antt =====
-- src/controller/master-controller.ts: `_dispatchOrderState`: what a state says of an order. The
-- actions that stitching adds to a node are added in the combined order; handlers are given the
-- nodes and edges as they are there.
pub mod Processed
use vda_5050_lib_2_0_0_js.Prelude.{
  ℕ, ◌+◌, String, Option, none, some, Bool, true, false, not, ◌&&◌, ◌||◌, List, [], ◌∷◌, ◌++◌, any,
  every, find, eqb, if◌then◌else◌, String-Eq, ◌==◌, option_beq,
}
use vda_5050_lib_2_0_0_js.JsMap
use vda_5050_lib_2_0_0_js.JsMap.{JsMap}
use vda_5050_lib_2_0_0_js.AgvIdMap
use vda_5050_lib_2_0_0_js.Types.{
  Action, ActionState, ActionStatus, status_name, is_ended_status, Node, Edge, OrderContent,
  StateContent, Error, NodeState,
}
use vda_5050_lib_2_0_0_js.AgvController.Model.{is_some}
use vda_5050_lib_2_0_0_js.MasterController.Model.{
  MasterController, OrderStateCache, InstantActionStateCache, Event, order_processed,
  node_traversed, action_state_changed, Target, cache_at, put_cache,
}
use vda_5050_lib_2_0_0_js.MasterController.Caches.{
  get_last_active_order_state_cache, remove_order_state_cache,
}
use vda_5050_lib_2_0_0_js.MasterController.Graph.{
  get_node, get_next_edge, get_edge_end_node, state_of, get_action_error,
}
use vda_5050_lib_2_0_0_js.MasterController.Edges.{Step, process_edge_events}

abbrev is_cancel_order : InstantActionStateCache → Bool
is_cancel_order c = c.action.action_type == "cancelOrder"

abbrev has_status : List ActionStatus → Option ActionState → Bool
has_status statuses none = false
has_status statuses (some s) = any (λ t. status_name t == status_name s.action_status) statuses

-- `_isOrderCanceling`: the first "cancelOrder" among the instant actions decides.
unfoldable pub is_order_canceling :
    OrderStateCache → StateContent → List ActionStatus → MasterController → Bool
is_order_canceling c state statuses m = elim (AgvIdMap.get c.agv_id m.current_instant_actions) [
  | none ↦ false
  | some actions ↦ elim (find (λ b. is_cancel_order b.1) actions) [
    | none ↦ false
    | some (action_id, a) ↦ has_status statuses (state_of action_id state)
  ]
]

-- The nodes up to the first that is not released.
abbrev base_nodes : List Node → List Node
base_nodes [] = []
base_nodes (n ∷ nodes) = let rest = base_nodes nodes in if n.released then n ∷ rest else []

abbrev base_edges : List Edge → List Edge
base_edges [] = []
base_edges (e ∷ edges) = let rest = base_edges edges in if e.released then e ∷ rest else []

-- The actions of the first new node are appended to those of the end of the base.
abbrev extend_end : List Action → List Node → List Node
extend_end actions [] = []
extend_end actions (n ∷ []) = record n { actions = n.actions ++ actions } ∷ []
extend_end actions (n ∷ p ∷ nodes) = n ∷ extend_end actions (p ∷ nodes)

abbrev stitch_nodes : List Node → List Node → List Node
stitch_nodes last [] = base_nodes last
stitch_nodes last (first ∷ nodes) = extend_end first.actions (base_nodes last) ++ nodes

unfoldable pub stitched_order : OrderContent → OrderContent → OrderContent
stitched_order last new = record new {
  nodes = stitch_nodes last.nodes new.nodes;
  edges = base_edges last.edges ++ new.edges;
}

-- `new Map([...older, ...newer])`.
abbrev merge_maps :
    JsMap String (Action × Target) → JsMap String (Action × Target) → JsMap String (Action × Target)
merge_maps older [] = older
merge_maps older ((k, v) ∷ newer) = merge_maps (JsMap.set k v older) newer

unfoldable pub take_over : OrderStateCache → OrderStateCache → OrderStateCache
take_over last c =
    let combined = stitched_order last.combined_order c.combined_order in
    record c {
      combined_order = combined;
      last_node_traversed = elim last.last_node_traversed [
        | none ↦ none
        | some n ↦ get_node combined n.node_id n.sequence_id
      ];
      last_edge_state_changes = last.last_edge_state_changes;
      edge_state_change_invocations = last.edge_state_change_invocations;
      last_edge_processed = last.last_edge_processed;
      mapped_actions = merge_maps last.mapped_actions c.mapped_actions;
      last_action_states = last.last_action_states;
    }

-- The cache of the previous order is removed.
abbrev pub take_over_cache :
    ℕ → ℕ → OrderStateCache → MasterController → Option OrderStateCache → MasterController
take_over_cache i j c m none = m
take_over_cache i j c m (some last) =
    remove_order_state_cache j true (put_cache i (take_over last c) m)

abbrev pub take_over_active : ℕ → OrderStateCache → MasterController → Option ℕ → MasterController
take_over_active i c m none = m
take_over_active i c m (some j) = take_over_cache i j c m (cache_at j m)

-- The state of the previous order is taken over if that is still active.
unfoldable pub take_over_last : ℕ → OrderStateCache → MasterController → MasterController
take_over_last i c m = take_over_active i c m (get_last_active_order_state_cache c m)

abbrev pub status_changed : Option ActionState → ActionState → Bool
status_changed none s = true
status_changed (some old) s = not (status_name old.action_status == status_name s.action_status)

abbrev error_if_failed : StateContent → ActionState → Option Error
error_if_failed state s = elim s.action_status [
  | ActionStatus.failed ↦ get_action_error state.errors s.action_id false
  | _ ↦ none
]

-- The state of an action of the order, if the action is one.
abbrev pub mapped_action_state :
    ℕ → StateContent → ActionState → OrderStateCache → Option (Action × Target) → Step
mapped_action_state i state s c none = (c, [])
mapped_action_state i state s c (some (action, target)) =
    if status_changed (JsMap.get s.action_id c.last_action_states) s
    then (
      record c { last_action_states = JsMap.set s.action_id s c.last_action_states },
      action_state_changed i s (error_if_failed state s) action target ∷ [],
    )
    else (c, [])

unfoldable pub process_action_state : ℕ → StateContent → ActionState → OrderStateCache → Step
process_action_state i state s c =
    mapped_action_state i state s c (JsMap.get s.action_id c.mapped_actions)

abbrev pub and_then : (OrderStateCache → Step) → Step → Step
and_then f (c, events) = let (c', more) = f c in (c', events ++ more)

unfoldable pub process_action_states : ℕ → StateContent → List ActionState → OrderStateCache → Step
process_action_states i state [] c = (c, [])
process_action_states i state (s ∷ states) c =
    and_then (process_action_states i state states) (process_action_state i state s c)

abbrev is_at : Node → StateContent → Bool
is_at n state = n.node_id == state.last_node_id && eqb n.sequence_id state.last_node_sequence_id

abbrev is_left : Node → StateContent → Bool
is_left n state =
    not (any (λ s. s.node_id == n.node_id && eqb s.sequence_id n.sequence_id) state.node_states)

abbrev first_of : List Node → Option Node
first_of [] = none
first_of (n ∷ nodes) = some n

-- The node that the state reports as traversed now; an order has a first node.
unfoldable pub next_node : StateContent → OrderStateCache → Option Node
next_node state c = elim c.last_node_traversed [
  | none ↦ elim (first_of c.combined_order.nodes) [
    | none ↦ none
    | some n ↦ if is_left n state then some n else none
  ]
  | some n ↦
      if is_at n state
      then none
      else get_node c.combined_order state.last_node_id state.last_node_sequence_id
]

abbrev pub edge_behind : ℕ → Bool → StateContent → OrderStateCache → Option Node → Step
edge_behind i is_canceling state c none = (c, [])
edge_behind i is_canceling state c (some n) = process_edge_events i is_canceling n state c

unfoldable pub process_last_edge : ℕ → Bool → StateContent → OrderStateCache → Step
process_last_edge i is_canceling state c = edge_behind i is_canceling state c c.last_node_traversed

abbrev pub end_of : OrderStateCache → Option Edge → Option Node
end_of c none = none
end_of c (some e) = get_edge_end_node c.combined_order e

-- The edge behind the node may be in the same state.
abbrev pub traverse_node : ℕ → Bool → StateContent → OrderStateCache → Option Node → Step
traverse_node i is_canceling state c none = (c, [])
traverse_node i is_canceling state c (some n) =
    let next_edge = get_next_edge c.combined_order n in
    and_then (process_edge_events i is_canceling n state) (
      record c { last_node_traversed = some n },
      node_traversed i n next_edge (end_of c next_edge) ∷ [],
    )

unfoldable pub process_next_node : ℕ → Bool → StateContent → OrderStateCache → Step
process_next_node i is_canceling state c = traverse_node i is_canceling state c (next_node state c)
