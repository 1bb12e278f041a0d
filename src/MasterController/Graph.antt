-- ===== src/MasterController/Graph.antt =====
-- src/controller/master-controller.ts: looking up nodes, edges and errors.
use vda_5050_lib_2_0_0_js.Prelude.{
  ℕ, ◌+◌, String, Option, none, some, Bool, true, false, ◌&&◌, ◌||◌, List, [], any, every, find,
  eqb, String-Eq, ◌==◌,
}
use vda_5050_lib_2_0_0_js.Types.{
  ActionState, BlockingType, is_ended_status, Node, Edge, OrderContent, StateContent, Error,
  ErrorReference, Topic, topic_name,
}

unfoldable pub get_node : OrderContent → String → ℕ → Option Node
get_node order node_id sequence_id =
    find (λ n. n.node_id == node_id && eqb n.sequence_id sequence_id) order.nodes

abbrev starts_at : Node → Edge → Bool
starts_at node e = e.start_node_id == node.node_id && eqb e.sequence_id (node.sequence_id + 1)

unfoldable pub get_next_edge : OrderContent → Node → Option Edge
get_next_edge order node = find (starts_at node) order.edges

unfoldable pub get_next_released_edge : OrderContent → Node → Option Edge
get_next_released_edge order node = find (λ e. e.released && starts_at node e) order.edges

-- `edge.sequenceId - 1`: no node precedes an edge with the sequence ID 0.
unfoldable pub get_edge_start_node : OrderContent → Edge → Option Node
get_edge_start_node order edge =
    find (λ n. n.node_id == edge.start_node_id && eqb (n.sequence_id + 1) edge.sequence_id)
      order.nodes

unfoldable pub get_edge_end_node : OrderContent → Edge → Option Node
get_edge_end_node order edge = get_node order edge.end_node_id (edge.sequence_id + 1)

abbrev pub state_of : String → StateContent → Option ActionState
state_of action_id state = find (λ s. s.action_id == action_id) state.action_states

abbrev pub has_ended : Option ActionState → Bool
has_ended none = false
has_ended (some s) = is_ended_status s.action_status

abbrev is_none_blocking : BlockingType → Bool
is_none_blocking BlockingType.none = true
is_none_blocking _ = false

unfoldable pub are_all_blocking_actions_ended : Node → StateContent → Bool
are_all_blocking_actions_ended node state =
    every (λ a. is_none_blocking a.blocking_type || has_ended (state_of a.action_id state))
      node.actions

-- `error.errorReferences ?? []`.
abbrev pub references_of : Error → List ErrorReference
references_of e = elim e.error_references [ none ↦ [] | some refs ↦ refs ]

abbrev pub refers_to : String → String → List ErrorReference → Bool
refers_to key value refs = any (λ r. r.reference_key == key && r.reference_value == value) refs

abbrev pub has_key : String → List ErrorReference → Bool
has_key key refs = any (λ r. r.reference_key == key) refs

abbrev topic_for : Bool → Topic
topic_for true = Topic.instant_actions
topic_for false = Topic.order

unfoldable pub get_action_error : List Error → String → Bool → Option Error
get_action_error errors action_id as_instant_action =
    find
      (λ e.
        refers_to "actionId" action_id (references_of e)
        && refers_to "topic" (topic_name (topic_for as_instant_action)) (references_of e))
      errors
