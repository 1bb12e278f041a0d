-- ===== src/AgvController/Orders.antt =====
-- src/controller/agv-controller.ts: what an order contributes to the state, the stitching of an order
-- onto the current one, and the checks by the adapter.
pub mod Stitching
pub mod BaseEnd
use vda_5050_lib_2_0_0_js.Prelude.{
  ℕ, ◌+◌, String, Option, none, some, Bool, true, false, not, ◌&&◌, ◌||◌, List, [], ◌∷◌, ◌++◌, map,
  any, every, select, find, find_index, take, drop, eqb, if◌then◌else◌, String-Eq, ℕ-Eq, ◌==◌,
}
use vda_5050_lib_2_0_0_js.JsMap
use vda_5050_lib_2_0_0_js.Types.{
  Action, ActionState, ActionStatus, Node, Edge, Order, OrderContent, NodeState, EdgeState,
  Trajectory, ErrorReference, ErrorType, Error,
}
use vda_5050_lib_2_0_0_js.AgvController.Model.{
  Controller, ErrorObject, AgvAdapter, ActionContext, on_node, on_edge, is_instant_action_state,
  update_state, no_change, PartialState, is_some,
}
use vda_5050_lib_2_0_0_js.AgvController.Errors.{create_order_error, new_error, reference}

-- `_getEdgeStartNode` and `_getEdgeEndNode`; the sequence ID of an edge is at least one.
unfoldable pub get_edge_start_node : List Node → Edge → Option Node
get_edge_start_node nodes edge =
    find (λ n. n.node_id == edge.start_node_id && eqb (n.sequence_id + 1) edge.sequence_id) nodes

unfoldable pub get_edge_end_node : List Node → Edge → Option Node
get_edge_end_node nodes edge =
    find (λ n. n.node_id == edge.end_node_id && eqb n.sequence_id (edge.sequence_id + 1)) nodes

unfoldable pub node_state : Node → NodeState
node_state n = record {
  node_description = n.node_description;
  node_id = n.node_id;
  node_position = n.node_position;
  released = n.released;
  sequence_id = n.sequence_id;
}

unfoldable pub get_node_states : OrderContent → Bool → List NodeState
get_node_states order exclude_first_node =
    map node_state (if exclude_first_node then drop 1 order.nodes else order.nodes)

unfoldable pub edge_trajectory : AgvAdapter → List Node → Edge → Option Trajectory
edge_trajectory adapter nodes e = elim adapter.trajectory [
  | none ↦ e.trajectory
  | some calculate ↦ calculate e (get_edge_start_node nodes e) (get_edge_end_node nodes e)
]

unfoldable pub edge_state : AgvAdapter → List Node → Edge → EdgeState
edge_state adapter nodes e = record {
  edge_description = e.edge_description;
  edge_id = e.edge_id;
  released = e.released;
  sequence_id = e.sequence_id;
  trajectory = edge_trajectory adapter nodes e;
}

unfoldable pub get_edge_states : AgvAdapter → OrderContent → List EdgeState
get_edge_states adapter order = map (edge_state adapter order.nodes) order.edges

unfoldable pub action_state_from : Action → ActionState
action_state_from a = record {
  action_description = a.action_description;
  action_id = a.action_id;
  action_status = ActionStatus.waiting;
  action_type = some a.action_type;
  result_description = none;
}

-- `.filter(released).flatMap(actions)`.
unfoldable pub base_node_actions : List Node → List Action
base_node_actions [] = []
base_node_actions (n ∷ ns) =
    let rest = base_node_actions ns in if n.released then n.actions ++ rest else rest

unfoldable pub base_edge_actions : List Edge → List Action
base_edge_actions [] = []
base_edge_actions (e ∷ es) =
    let rest = base_edge_actions es in if e.released then e.actions ++ rest else rest

-- Every caller keeps the first node.
unfoldable pub get_action_states : OrderContent → List ActionState
get_action_states order =
    map action_state_from (base_node_actions order.nodes)
    ++ map action_state_from (base_edge_actions order.edges)

unfoldable pub get_instant_action_states : Controller → List ActionState
get_instant_action_states c = select (is_instant_action_state c) c.state.action_states

abbrev has_action_id_reference : Option (List ErrorReference) → Bool
has_action_id_reference none = false
has_action_id_reference (some refs) = any (λ r. r.reference_key == "actionId") refs

unfoldable pub get_non_order_rejection_errors : Bool → Controller → List ErrorObject
get_non_order_rejection_errors should_keep_order_action_errors c =
    select
      (λ e.
        JsMap.has e.identity c.errored_publish_count
        || should_keep_order_action_errors && has_action_id_reference e.error.error_references)
      c.state.errors

-- The part of an array in front of its first unreleased element.
unfoldable pub base_part {ℓ} : {A : Type ℓ} → (A → Bool) → List A → List A
base_part released xs = elim (find_index (λ x. not (released x)) xs) [
  | none ↦ xs
  | some i ↦ take i xs
]

unfoldable pub base_nodes : List Node → List Node
base_nodes = base_part (λ n. n.released)

unfoldable pub base_edges : List Edge → List Edge
base_edges = base_part (λ e. e.released)

unfoldable pub last {ℓ} : {A : Type ℓ} → List A → Option A
last [] = none
last (x ∷ []) = some x
last (x ∷ y ∷ xs) = last (y ∷ xs)

-- The last base node of an order.
unfoldable pub base_end : List Node → Option Node
base_end nodes = last (base_nodes nodes)

abbrev same_place : Option Node → Option Node → Bool
same_place (some a) (some b) = a.node_id == b.node_id && eqb a.sequence_id b.sequence_id
same_place _ _ = false

abbrev pub head_node : List Node → Option Node
head_node [] = none
head_node (n ∷ ns) = some n

unfoldable pub is_order_base_stitching : Controller → Order → Bool
is_order_base_stitching c order = elim c.current_order [
  | none ↦ false
  | some current ↦ same_place (base_end current.nodes) (head_node order.nodes)
]

abbrev starts_at : Option Node → String → ℕ → Bool
starts_at none node_id sequence_id = false
starts_at (some n) node_id sequence_id = n.node_id == node_id && eqb n.sequence_id sequence_id

unfoldable pub is_order_update_base_stitching : Controller → Order → Bool
is_order_update_base_stitching c order =
    starts_at (head_node order.nodes) c.state.last_node_id c.state.last_node_sequence_id

abbrev pub head_actions : List Node → List Action
head_actions [] = []
head_actions (n ∷ ns) = n.actions

unfoldable pub add_actions : List Action → Node → Node
add_actions more n = record n { actions = n.actions ++ more }

-- The last of the kept nodes gets the actions of the first new one.
unfoldable pub extend_last : List Action → List Node → List Node
extend_last more [] = []
extend_last more (n ∷ []) = add_actions more n ∷ []
extend_last more (n ∷ m ∷ ns) = n ∷ extend_last more (m ∷ ns)

-- The new contents of the current order in the case "stitch". Its header stays.
unfoldable pub stitch : OrderContent → OrderContent → OrderContent
stitch current order = record {
  edges = base_edges current.edges ++ order.edges;
  nodes = extend_last (head_actions order.nodes) (base_nodes current.nodes) ++ drop 1 order.nodes;
  order_id = order.order_id;
  order_update_id = order.order_update_id;
  zone_set_id = order.zone_set_id;
}

unfoldable pub reject_order : Error → Controller → Controller
reject_order error c =
    let (c', object) = new_error error c in
    update_state (record no_change { errors = some (c'.state.errors ++ object ∷ []) }) true c'

abbrev is_empty {ℓ} : {A : Type ℓ} → List A → Bool
is_empty [] = true
is_empty (x ∷ xs) = false

module _ (adapter : AgvAdapter) where
  unfoldable pub route_refusal : Order → Option Error
  route_refusal order =
      let refs = adapter.is_route_traversable order.nodes order.edges in
      if is_empty refs
      then none
      else some
          (create_order_error order ErrorType.order_no_route "order route is not traversable" refs)

  -- The first action among these contexts that the adapter cannot execute.
  unfoldable pub first_refused : List ActionContext → Option (ActionContext × List ErrorReference)
  first_refused [] = none
  first_refused (context ∷ contexts) =
      let refs = adapter.is_action_executable context in
      let rest = first_refused contexts in if is_empty refs then rest else some (context, refs)

  unfoldable pub node_contexts : Order → List Node → List ActionContext
  node_contexts order [] = []
  node_contexts order (n ∷ ns) =
      map
        (λ a. record {
          action = a;
          target = on_node n;
          stop_driving = none;
          active_order_id = some order.order_id;
        })
        n.actions
      ++ node_contexts order ns

  unfoldable pub edge_contexts : Order → List Edge → List ActionContext
  edge_contexts order [] = []
  edge_contexts order (e ∷ es) =
      map
        (λ a. record {
          action = a;
          target = on_edge e (get_edge_start_node order.nodes e) (get_edge_end_node order.nodes e);
          stop_driving = none;
          active_order_id = some order.order_id;
        })
        e.actions
      ++ edge_contexts order es

  unfoldable pub actions_refusal : Order → Option Error
  actions_refusal order =
      elim (first_refused (node_contexts order order.nodes ++ edge_contexts order order.edges)) [
        | none ↦ none
        | some (context, refs) ↦ some (
            create_order_error order ErrorType.order "order action is not executable" (
              reference "actionId" context.action.action_id
              ∷ reference "actionType" context.action.action_type
              ∷ refs))
      ]

  -- An order that passed the check has a first node.
  unfoldable pub deviation_refusal : Order → Option Error
  deviation_refusal order = elim (head_node order.nodes) [
    | none ↦ none
    | some first ↦
        let refs = adapter.is_node_within_deviation_range first in
        if is_empty refs
        then none
        else some (
            create_order_error order ErrorType.order_no_route
              "first node of new order not within deviation range"
              (reference "nodeId" first.node_id ∷ refs))
  ]
