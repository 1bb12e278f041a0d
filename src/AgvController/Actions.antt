-- ===== src/AgvController/Actions.antt =====
-- src/controller/agv-controller.ts, "Node and edge processing" and "Action processing": the dispatch
-- of node and edge actions by their blocking types, and the traversal of edges.
pub mod Blocking
use vda_5050_lib_2_0_0_js.Prelude.{
  ℕ, ◌+◌, ◌-◌, String, Option, none, some, Bool, true, false, not, ◌&&◌, List, [], ◌∷◌, ◌++◌, find,
  find_index, take, drop, select, get_elem?, eqb, if◌then◌else◌, String-Eq, ◌==◌, any, every, ltb,
  length, ◌||◌,
}
use vda_5050_lib_2_0_0_js.Types.{
  Action, ActionState, is_ended_status, is_hard, is_soft, Node, Edge, Order, NodeState, EdgeState,
  Trajectory,
}
use vda_5050_lib_2_0_0_js.AgvController.Model.{
  Controller, ActionContext, TraverseEdgeContext, on_node, on_edge, Effect, execute_action,
  finish_edge_action, traverse_edge, emit, update_state, no_change, PartialState,
}
use vda_5050_lib_2_0_0_js.AgvController.Orders.{get_edge_start_node, get_edge_end_node}

-- The current order's contents; they are read only while there is one.
abbrev pub current_nodes : Controller → List Node
current_nodes c = elim c.current_order [ none ↦ [] | some order ↦ order.nodes ]

abbrev pub current_edges : Controller → List Edge
current_edges c = elim c.current_order [ none ↦ [] | some order ↦ order.edges ]

abbrev pub current_order_id : Controller → Option String
current_order_id c = elim c.current_order [ none ↦ none | some order ↦ some order.order_id ]

unfoldable pub get_trailing_edge : List Edge → Node → Option Edge
get_trailing_edge edges node =
    find (λ e. e.start_node_id == node.node_id && eqb e.sequence_id (node.sequence_id + 1)) edges

unfoldable pub is_action_ended : List ActionState → Action → Bool
is_action_ended states action = elim (find (λ s. s.action_id == action.action_id) states) [
  | none ↦ false
  | some s ↦ is_ended_status s.action_status
]

unfoldable pub index_of_action : List Action → Action → Option ℕ
index_of_action actions action = find_index (λ a. a.action_id == action.action_id) actions

-- One after the index of an action; zero if it is not there, since its index is -1 then.
unfoldable pub index_after : List Action → Option Action → ℕ
index_after actions none = 0
index_after actions (some action) = elim (index_of_action actions action) [
  | none ↦ 0
  | some i ↦ i + 1
]

-- `findIndex` from position `start` on.
unfoldable pub find_index_after : (Action → Bool) → ℕ → List Action → Option ℕ
find_index_after p start actions = elim (find_index p (drop start actions)) [
  | none ↦ none
  | some i ↦ some (start + i)
]

-- The actions that can be started together: those from `start` up to the next HARD one.
pub record Chunk : Type 0 where
  pub start : ℕ
  pub hard_index : Option ℕ
  pub stop : ℕ
  pub stop_driving : Bool

abbrev pub before_stop : Option ℕ → ℕ → Bool
before_stop none stop = false
before_stop (some i) stop = ltb i stop

abbrev pub index_or : Option ℕ → ℕ → ℕ
index_or none i = i
index_or (some j) i = j

unfoldable pub next_chunk : List Action → Option Action → Chunk
next_chunk actions after =
    let start = index_after actions after in
    let hard_index = find_index_after (λ a. is_hard a.blocking_type) start actions in
    let soft_index = find_index_after (λ a. is_soft a.blocking_type) start actions in
    let stop = index_or hard_index (length actions) in
    record {
      start = start;
      hard_index = hard_index;
      stop = stop;
      stop_driving = before_stop soft_index stop;
    }

-- The elements from index `start` up to `stop`.
abbrev pub slice {ℓ} : {A : Type ℓ} → List A → ℕ → ℕ → List A
slice xs start stop = take (stop - start) (drop start xs)

unfoldable pub get_hard_blocking_action_after_parallel_actions :
    List Action → Action → Option Action
get_hard_blocking_action_after_parallel_actions actions action =
    find (λ a. is_hard a.blocking_type) (drop (index_after actions (some action)) actions)

-- The loop over neighbours of an action, away from it, that stops at a HARD one.
unfoldable pub parallel_ended : List ActionState → Bool → List Action → Bool
parallel_ended states soft_only [] = true
parallel_ended states soft_only (a ∷ more) =
    let rest = parallel_ended states soft_only more in
    if is_hard a.blocking_type
    then true
    else if (is_soft a.blocking_type || not soft_only) && not (is_action_ended states a)
    then false
    else rest

abbrev backwards {ℓ} : {A : Type ℓ} → List A → List A → List A
backwards [] done = done
backwards (x ∷ xs) done = backwards xs (x ∷ done)

unfoldable pub are_parallel_actions_ended : List ActionState → List Action → Action → Bool → Bool
are_parallel_actions_ended states actions ended_action soft_only =
    let before : List Action = elim (index_of_action actions ended_action) [
      | none ↦ []
      | some i ↦ take i actions
    ] in
    parallel_ended states soft_only (backwards before [])
    && parallel_ended states soft_only (drop (index_after actions (some ended_action)) actions)

unfoldable pub do_traverse_edge : Edge → Controller → Controller
do_traverse_edge edge c =
    emit
      (traverse_edge (record {
        edge = edge;
        start_node = get_edge_start_node (current_nodes c) edge;
        end_node = get_edge_end_node (current_nodes c) edge;
        trajectory =
            elim (find (λ s. s.edge_id == edge.edge_id && eqb s.sequence_id edge.sequence_id)
              c.state.edge_states) [ none ↦ none | some s ↦ s.trajectory ];
      }))
      c

unfoldable pub edge_action_context : Edge → Option Bool → Controller → Action → ActionContext
edge_action_context edge stop_driving c action = record {
  action = action;
  target =
      on_edge edge (get_edge_start_node (current_nodes c) edge)
        (get_edge_end_node (current_nodes c) edge);
  stop_driving = stop_driving;
  active_order_id = current_order_id c;
}

unfoldable pub node_action_context : Node → Option Bool → Controller → Action → ActionContext
node_action_context node stop_driving c action = record {
  action = action;
  target = on_node node;
  stop_driving = stop_driving;
  active_order_id = current_order_id c;
}

unfoldable pub process_edge_action : Edge → Bool → Action → Controller → Controller
process_edge_action edge stop_driving action c =
    emit (execute_action (edge_action_context edge (some stop_driving) c action)) c

unfoldable pub process_node_action : Node → Bool → Action → Controller → Controller
process_node_action node stop_driving action c =
    emit (execute_action (node_action_context node (some stop_driving) c action)) c

-- A loop whose rounds are `step`.
unfoldable pub for_each {ℓ} :
    {A : Type ℓ} → (A → Controller → Controller) → List A → Controller → Controller
for_each step [] c = c
for_each step (x ∷ xs) c = for_each step xs (step x c)

-- What follows the chunk: the HARD action at its end, or `otherwise`.
unfoldable pub process_chunk :
    List Action
    → Option Action
    → (Bool → Action → Controller → Controller)
    → (Controller → Controller)
    → Controller
    → Controller
process_chunk actions after execute otherwise c =
    let chunk = next_chunk actions after in
    if eqb chunk.stop chunk.start
    then elim chunk.hard_index [
      | none ↦ otherwise c
      | some i ↦ elim (get_elem? actions i) [ none ↦ c | some action ↦ execute true action c ]
    ]
    else for_each (execute chunk.stop_driving) (slice actions chunk.start chunk.stop) c

unfoldable pub process_edge_actions : Edge → Option Action → Controller → Controller
process_edge_actions edge after =
    process_chunk edge.actions after (process_edge_action edge) (do_traverse_edge edge)

unfoldable pub process_edge : Node → Controller → Controller
process_edge node c = elim (get_trailing_edge (current_edges c) node) [
  | none ↦ c
  | some edge ↦ if edge.released then process_edge_actions edge none c else c
]

unfoldable pub process_node_actions : Node → Option Action → Controller → Controller
process_node_actions node after =
    process_chunk node.actions after (process_node_action node) (process_edge node)

unfoldable pub finish_edge_actions : Edge → Controller → Controller
finish_edge_actions edge c =
    for_each (λ action d. emit (finish_edge_action (edge_action_context edge none d action)) d)
      (select (λ a. not (is_action_ended c.state.action_states a)) edge.actions) c

abbrev is_state_of_node : Node → NodeState → Bool
is_state_of_node node s = s.node_id == node.node_id && eqb s.sequence_id node.sequence_id

abbrev is_state_of_edge : Edge → EdgeState → Bool
is_state_of_edge edge s = s.edge_id == edge.edge_id && eqb s.sequence_id edge.sequence_id

abbrev is_paused : Option Bool → Bool
is_paused none = false
is_paused (some b) = b

unfoldable pub without_edge : Option Edge → List EdgeState → Option (List EdgeState)
without_edge none states = none
without_edge (some edge) states = some (select (λ s. not (is_state_of_edge edge s)) states)

unfoldable pub finish_traversed : Option Edge → Controller → Controller
finish_traversed none c = c
finish_traversed (some edge) c = finish_edge_actions edge c

-- `_processNode` of a node that is released while the vehicle is not paused.
unfoldable pub enter_node : Node → Option Edge → Controller → Controller
enter_node node traversed_edge c =
    let c' = finish_traversed traversed_edge c in
    process_node_actions node none (
      update_state
        (record no_change {
          node_states = some (select (λ s. not (is_state_of_node node s)) c'.state.node_states);
          edge_states = without_edge traversed_edge c'.state.edge_states;
          last_node_id = some node.node_id;
          last_node_sequence_id = some node.sequence_id;
        })
        true c')

unfoldable pub process_node : Node → Option Edge → Controller → Controller
process_node node traversed_edge c =
    if not node.released
    then c
    else if is_paused c.state.paused
    then record c { current_paused_node = some node }
    else enter_node node traversed_edge c
