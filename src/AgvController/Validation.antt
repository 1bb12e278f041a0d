-- ===== src/AgvController/Validation.antt =====
-- src/controller/agv-controller.ts, `_validateOrderConstraints`: the shape of an order. The thrown
-- errors are the values of `OrderViolation`; an index of the arrays counts the rounds of a loop.
pub mod Spec
pub mod Sound
pub mod Complete
use vda_5050_lib_2_0_0_js.Prelude.{
  ℕ, ◌+◌, ◌%◌, String, Option, none, some, Bool, true, false, not, ◌&&◌, ◌||◌, List, [], ◌∷◌,
  length, eqb, String-Eq, Option-Eq, ℕ-Eq, ◌==◌, if◌then◌else◌, Outcome, ok, err, ◌>>=◌, ◌>>◌,
  throw_if,
}
use vda_5050_lib_2_0_0_js.Types.{Node, Edge, OrderContent}

pub data OrderViolation : Type 0 where
  no_base_node node_sequence_id base_horizon_nodes nodes_and_edges edge_sequence_id
        base_horizon_edges edge_nodes undefined_node :
      OrderViolation

-- `prev` is the sequence ID of the node before, if there is one.
unfoldable pub is_bad_sequence_id : Option ℕ → ℕ → Bool
is_bad_sequence_id none sequence_id = not (eqb (sequence_id % 2) 0)
is_bad_sequence_id (some prev) sequence_id = not (eqb sequence_id (prev + 2))

-- The loop over the nodes from index `i`; it returns `firstHorizonIndex`.
unfoldable pub check_nodes :
    ℕ → Option ℕ → Bool → Option ℕ → List Node → Outcome OrderViolation (Option ℕ)
unfolding is_bad_sequence_id
check_nodes i prev is_base first_horizon [] = ok first_horizon
check_nodes i prev is_base first_horizon (n ∷ ns) = do
  throw_if (is_bad_sequence_id prev n.sequence_id) node_sequence_id
  throw_if (not is_base && n.released) base_horizon_nodes
  check_nodes (i + 1) (some n.sequence_id) (is_base && n.released)
      (if is_base && not n.released then some i else first_horizon) ns

-- The loop over the edges from index `i`; the nodes are those from index `i` on.
unfoldable pub check_edges :
    ℕ → Bool → Option ℕ → List Edge → List Node → Outcome OrderViolation (Unit {0})
check_edges i is_base first_horizon [] nodes = ok tt
check_edges i is_base first_horizon (e ∷ es) (n ∷ m ∷ ns) = do
  throw_if (not (eqb e.sequence_id (n.sequence_id + 1))) edge_sequence_id
  throw_if (is_base && (not e.released && not (first_horizon == some (i + 1)))) base_horizon_edges
  throw_if (not is_base && e.released) base_horizon_edges
  throw_if (not (e.start_node_id == n.node_id) || not (e.end_node_id == m.node_id)) edge_nodes
  check_edges (i + 1) (is_base && e.released) first_horizon es (m ∷ ns)
check_edges i is_base first_horizon (e ∷ es) _ = err undefined_node

abbrev starts_with_base : List Node → Bool
starts_with_base [] = false
starts_with_base (n ∷ ns) = n.released

unfoldable pub validate_order_constraints : OrderContent → Outcome OrderViolation (Unit {0})
unfolding check_nodes check_edges
validate_order_constraints order = do
  throw_if (not (starts_with_base order.nodes)) no_base_node
  first_horizon ← check_nodes 0 none true none order.nodes
  throw_if (not (eqb (length order.edges + 1) (length order.nodes))) nodes_and_edges
  check_edges 0 true first_horizon order.edges order.nodes
