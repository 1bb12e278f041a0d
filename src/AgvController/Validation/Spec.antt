-- ===== src/AgvController/Validation/Spec.antt =====
-- The shape of a well-formed order, stated position by position.
use vda_5050_lib_2_0_0_js.Prelude.{ℕ, ◌+◌, ◌*◌, ◌%◌, ◌≤◌, ◌≡◌, ◌⊎◌, some, length, get_elem?, ltb}
use vda_5050_lib_2_0_0_js.Types.{Node, Edge, OrderContent}

-- Sequence IDs count up by two from an even number, nodes and edges in turn. The nodes are base
-- nodes up to a position, at least one of them, and horizon nodes from there on. Likewise the
-- edges; where there are horizon edges, each base edge leads to a base node and each horizon edge
-- to a horizon node. An edge joins the nodes beside it.
pub record IsWellFormed (order : OrderContent) : Type 0 where
  pub start : ℕ
  pub even : start % 2 ≡ 0
  pub base : ℕ
  pub base_pos : 1 ≤ base
  pub base_le : base ≤ length order.nodes
  pub node_at :
      (i : ℕ) (n : Node)
      → get_elem? order.nodes i ≡ some n
      → (n.sequence_id ≡ start + 2 * i) × (n.released ≡ ltb i base)
  pub edge_count : length order.edges + 1 ≡ length order.nodes
  pub base_edges : ℕ
  pub base_edges_le : base_edges ≤ length order.edges
  pub base_edges_end : (base_edges ≡ length order.edges) ⊎ (base_edges + 1 ≡ base)
  pub edge_at :
      (i : ℕ) (e : Edge) (n m : Node)
      → get_elem? order.edges i ≡ some e
      → get_elem? order.nodes i ≡ some n
      → get_elem? order.nodes (i + 1) ≡ some m
      → (e.sequence_id ≡ start + 2 * i + 1)
        × (e.released ≡ ltb i base_edges)
        × (e.start_node_id ≡ n.node_id)
        × (e.end_node_id ≡ m.node_id)
