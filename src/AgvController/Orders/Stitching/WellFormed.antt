-- ===== src/AgvController/Orders/Stitching/WellFormed.antt =====
-- src/controller/agv-controller.ts: the nodes and edges of a stitched order, position by position.
use vda_5050_lib_2_0_0_js.Prelude.{
  ℕ, zero, suc, ◌+◌, ◌-◌, ◌*◌, ◌≤◌, ◌≡◌, refl, ap, ◌∙◌, some, List, [], ◌∷◌, ◌++◌, length,
  get_elem?, take, drop, arith, ltb, if◌then◌else◌, String-Eq, inl, inr, Bool-cases, length-append,
}
use vda_5050_lib_2_0_0_js.Types.{Node, Edge, OrderContent}
use vda_5050_lib_2_0_0_js.AgvController.Validation.Spec.{IsWellFormed}
use vda_5050_lib_2_0_0_js.AgvController.Orders.{
  base_nodes, base_edges, head_actions, extend_last, stitch,
}
use vda_5050_lib_2_0_0_js.AgvController.Orders.Stitching.{
  base_part_lem, get_elem?-append, get_elem?-take, length-take, length-extend_last,
  extend_last-IsSamePlace, IsSamePlace,
}

get_elem?-drop_one : (ns : List Node) (i : ℕ) → get_elem? (drop 1 ns) i ≡ get_elem? ns (i + 1)
get_elem?-drop_one [] i = ground arith
get_elem?-drop_one (n ∷ ns) i = ground arith

length-drop_one : (ns : List Node) → length (drop 1 ns) ≡ length ns - 1
length-drop_one [] = refl
length-drop_one (n ∷ ns) = omega arith

get_elem?-lt :
    {A : Type 0} (xs : List A) (i : ℕ) (x : A) → get_elem? xs i ≡ some x → i + 1 ≤ length xs
get_elem?-lt [] i x e = absurd (ground (arith, e))
get_elem?-lt (y ∷ xs) zero x e = omega arith
get_elem?-lt (y ∷ xs) (suc i) x e = omega (arith, get_elem?-lt xs i x e)

pub get_elem?-some :
    {A : Type 0} (xs : List A) (i : ℕ) → i + 1 ≤ length xs → (x : A) × (get_elem? xs i ≡ some x)
get_elem?-some [] i h = absurd (omega (arith, h))
get_elem?-some (x ∷ xs) zero h = (x, refl)
get_elem?-some (x ∷ xs) (suc i) h = get_elem?-some xs i (omega (arith, h))

-- An edge has nodes beside it, so it is known whether it belongs to the base.
edge_released :
    (order : OrderContent) (w : IsWellFormed order) (i : ℕ) (e : Edge)
    → get_elem? order.edges i ≡ some e
    → e.released ≡ ltb i w.base_edges
edge_released order w i e g =
    let inside : i + 1 ≤ length order.edges = get_elem?-lt order.edges i e g in
    let (n, from) = get_elem?-some order.nodes i (omega (arith, inside, w.edge_count)) in
    let (m, to) = get_elem?-some order.nodes (i + 1) (omega (arith, inside, w.edge_count)) in
    (w.edge_at i e n m g from to).1

module _ (current order : OrderContent) (w : IsWellFormed current) (v : IsWellFormed order)
    (strict : w.base_edges + 1 ≡ w.base) (a b : Node)
    (end_at : get_elem? current.nodes (w.base - 1) ≡ some a)
    (head_at : get_elem? order.nodes 0 ≡ some b) (same_id : a.node_id ≡ b.node_id)
    (same_sequence : a.sequence_id ≡ b.sequence_id) where
  kept_nodes : base_nodes current.nodes ≡ take w.base current.nodes
  unfolding base_nodes
  kept_nodes =
      base_part_lem (λ n. n.released) current.nodes w.base w.base_le (λ j n g. (w.node_at j n g).1)

  kept_edges : base_edges current.edges ≡ take w.base_edges current.edges
  unfolding base_edges
  kept_edges =
      base_part_lem (λ e. e.released) current.edges w.base_edges w.base_edges_le
        (edge_released current w)

  front : List Node
  front = extend_last (head_actions order.nodes) (take w.base current.nodes)

  nodes_lem : (stitch current order).nodes ≡ front ++ drop 1 order.nodes
  unfolding stitch front
  nodes_lem = ap (λ ns. extend_last (head_actions order.nodes) ns ++ drop 1 order.nodes) kept_nodes

  edges_lem : (stitch current order).edges ≡ take w.base_edges current.edges ++ order.edges
  unfolding stitch
  edges_lem = ap (λ es. es ++ order.edges) kept_edges

  length-front : length front ≡ w.base
  unfolding front
  length-front =
      length-extend_last (head_actions order.nodes) (take w.base current.nodes)
      ∙ length-take w.base current.nodes w.base_le

  node_at_lem :
      (i : ℕ)
      → get_elem? (stitch current order).nodes i
        ≡ (if ltb i w.base then get_elem? front i else get_elem? order.nodes (i + 1 - w.base))
  node_at_lem i = ground (
    arith,
    ap (λ ns. get_elem? ns i) nodes_lem,
    get_elem?-append front (drop 1 order.nodes) i,
    length-front,
    get_elem?-drop_one order.nodes (i - w.base),
    w.base_pos,
  )

  edge_at_lem :
      (i : ℕ)
      → get_elem? (stitch current order).edges i ≡ (
          if ltb i w.base_edges
          then get_elem? current.edges i
          else get_elem? order.edges (i - w.base_edges))
  edge_at_lem i = ground (
    arith,
    ap (λ es. get_elem? es i) edges_lem,
    get_elem?-append (take w.base_edges current.edges) order.edges i,
    length-take w.base_edges current.edges w.base_edges_le,
    get_elem?-take w.base_edges current.edges i,
  )

  -- A kept node is a node of the current order, up to its actions.
  low :
      (i : ℕ) (n : Node)
      → i + 1 ≤ w.base
      → get_elem? (stitch current order).nodes i ≡ some n
      → (m : Node) × (get_elem? current.nodes i ≡ some m) × IsSamePlace n m
  unfolding front
  low i n le g =
      let (m, at, same) =
        extend_last-IsSamePlace (head_actions order.nodes) (take w.base current.nodes) i n
          (ground (arith, node_at_lem i)) in
      (m, ground (arith, get_elem?-take w.base current.nodes i), same)

  -- A node from the end of the base on is at the place of a node of the new order.
  high :
      (i : ℕ) (n : Node)
      → w.base ≤ i + 1
      → get_elem? (stitch current order).nodes i ≡ some n
      → (m : Node) × (get_elem? order.nodes (i + 1 - w.base) ≡ some m)
        × (n.node_id ≡ m.node_id)
        × (n.sequence_id ≡ m.sequence_id)
  high i n le g = elim (Bool-cases (ltb i w.base)) [
    | inr beyond ↦ (n, ground (arith, node_at_lem i), refl, refl)
    | inl at_end ↦
        let (m, at, same) = low i n (ground arith) g in
        let here : get_elem? current.nodes i ≡ some a =
          ap (get_elem? current.nodes) (ground (arith, w.base_pos)) ∙ end_at in
        (
          b,
          ap (get_elem? order.nodes) (ground (arith, w.base_pos)) ∙ head_at,
          ground (arith, same.id),
          ground (arith, same.sequence),
        )
  ]

  start_lem : v.start + 2 ≡ w.start + 2 * w.base
  start_lem =
      ground
        (arith, w.node_at (w.base - 1) a end_at, v.node_at 0 b head_at, same_sequence, w.base_pos)

  node_count : length (stitch current order).nodes + 1 ≡ w.base + length order.nodes
  node_count = ground (
    arith,
    ap length nodes_lem,
    length-append front (drop 1 order.nodes),
    length-front,
    length-drop_one order.nodes,
    v.edge_count,
  )

  edge_count : length (stitch current order).edges ≡ w.base_edges + length order.edges
  edge_count = ground (
    arith,
    ap length edges_lem,
    length-append (take w.base_edges current.edges) order.edges,
    length-take w.base_edges current.edges w.base_edges_le,
  )

  stitched_node :
      (i : ℕ) (n : Node)
      → get_elem? (stitch current order).nodes i ≡ some n
      → (n.sequence_id ≡ w.start + 2 * i) × (n.released ≡ ltb i (w.base - 1 + v.base))
  stitched_node i n g = elim (Bool-cases (ltb i w.base)) [
    | inl kept ↦
        let (m, at, same) = low i n (ground arith) g in
        ground (arith, w.node_at i m at, same.sequence, same.released, v.base_pos)
    | inr new ↦
        ground (
          arith,
          v.node_at (i + 1 - w.base) n (ground (arith, node_at_lem i)),
          start_lem,
          w.base_pos,
        )
  ]

  stitched_edge :
      (i : ℕ) (e : Edge) (n m : Node)
      → get_elem? (stitch current order).edges i ≡ some e
      → get_elem? (stitch current order).nodes i ≡ some n
      → get_elem? (stitch current order).nodes (i + 1) ≡ some m
      → (e.sequence_id ≡ w.start + 2 * i + 1)
        × (e.released ≡ ltb i (w.base_edges + v.base_edges))
        × (e.start_node_id ≡ n.node_id)
        × (e.end_node_id ≡ m.node_id)
  stitched_edge i e n m ge gn gm = elim (Bool-cases (ltb i w.base_edges)) [
    | inl kept ↦
        let (n', from, same) = low i n (ground (arith, strict)) gn in
        let (m', to, same') = low (i + 1) m (ground (arith, strict)) gm in
        ground
          (arith, w.edge_at i e n' m' (ground (arith, edge_at_lem i)) from to, same.id, same'.id)
    | inr new ↦
        let j = i - w.base_edges in
        let (n', from, id, sequence) = high i n (ground (arith, strict)) gn in
        let (m', to, id', sequence') = high (i + 1) m (ground (arith, strict)) gm in
        ground (
          arith,
          v.edge_at j e n' m' (ground (arith, edge_at_lem i))
              (ap (get_elem? order.nodes) (omega (arith, strict)) ∙ from)
              (ap (get_elem? order.nodes) (ground (arith, strict)) ∙ to),
          start_lem,
          strict,
          id,
          id',
        )
  ]

  pub stitched : IsWellFormed (stitch current order)
  stitched = record {
    start = w.start;
    even = w.even;
    base = w.base - 1 + v.base;
    base_pos = omega (arith, v.base_pos);
    base_le = omega (arith, node_count, w.base_pos, v.base_le);
    node_at = stitched_node;
    edge_count = omega (arith, node_count, edge_count, v.edge_count, strict);
    base_edges = w.base_edges + v.base_edges;
    base_edges_le = omega (arith, edge_count, v.base_edges_le);
    base_edges_end = ground (arith, v.base_edges_end, edge_count, strict);
    edge_at = stitched_edge;
  }
