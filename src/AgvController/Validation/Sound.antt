-- ===== src/AgvController/Validation/Sound.antt =====
-- src/controller/agv-controller.ts, `_validateOrderConstraints`: from the check to the shape of an
-- order.
use native.Mathlib.Numerals.{add-one}
use text.Mathlib.TextEquality.{eq_iff}
use vda_5050_lib_2_0_0_js.Prelude.{
  ℕ, zero, suc, ◌+◌, ◌*◌, ◌%◌, ◌≤◌, ◌≡◌, refl, sym, ap, subst, Option, none, some, Bool, true,
  false, not, ◌&&◌, List, [], ◌∷◌, length, get_elem?, ltb, option_beq_iff, ℕ-Eq, ◌⊎◌, inl, inr,
  Bool-cases, arith, if◌then◌else◌, Outcome-cases, ok,
}
use vda_5050_lib_2_0_0_js.Types.{Node, Edge, OrderContent}
use vda_5050_lib_2_0_0_js.AgvController.Validation.{
  check_nodes, check_edges, validate_order_constraints,
}
use vda_5050_lib_2_0_0_js.AgvController.Validation.Spec.{IsWellFormed}

-- The number of base elements at the front, none if the base has ended before.
module _ {A : Type 0} (rel : A → Bool) where
  unfoldable pub base_count : Bool → List A → ℕ
  base_count b [] = 0
  base_count b (n ∷ ns) = if b && rel n then suc (base_count true ns) else 0

  base_count-le : (b : Bool) (ns : List A) → base_count b ns ≤ length ns
  unfolding base_count
  base_count-le b [] = omega arith
  base_count-le b (n ∷ ns) = ground (arith, base_count-le true ns)

  base_count-false : (ns : List A) → base_count false ns ≡ 0
  unfolding base_count
  base_count-false [] = refl
  base_count-false (n ∷ ns) = refl

abbrev pub node_released : Node → Bool
node_released n = n.released

abbrev pub edge_released : Edge → Bool
edge_released e = e.released

abbrev pub NodesFrom : ℕ → ℕ → List Node → Type 0
NodesFrom start base nodes =
    (i : ℕ) (n : Node)
    → get_elem? nodes i ≡ some n
    → (n.sequence_id ≡ start + 2 * i) × (n.released ≡ ltb i base)

check_nodes-NodesFrom :
    (i prev : ℕ) (b : Bool) (h h' : Option ℕ) (ns : List Node)
    → check_nodes i (some prev) b h ns ≡ ok h'
    → NodesFrom (prev + 2) (base_count node_released b ns) ns
unfolding check_nodes base_count
check_nodes-NodesFrom i prev b h h' (n ∷ ns) e zero m g = ground arith
check_nodes-NodesFrom i prev b h h' (n ∷ ns) e (suc j) m g = ground (
  arith,
  base_count-false node_released ns,
  check_nodes-NodesFrom (i + 1) n.sequence_id (b && n.released)
      (if b && not n.released then some i else h) h' ns (ground arith) j m g,
)
check_nodes-NodesFrom i prev b h h' [] e j m g = cc

check_nodes-horizon :
    (i : ℕ) (prev : Option ℕ) (b : Bool) (h h' : Option ℕ) (ns : List Node)
    → check_nodes i prev b h ns ≡ ok h'
    → h' ≡ (
        if b && ltb (base_count node_released b ns) (length ns)
        then some (i + base_count node_released b ns)
        else h)
unfolding check_nodes base_count
check_nodes-horizon i prev b h h' [] e = ground arith
check_nodes-horizon i prev b h h' (n ∷ ns) e = ground (
  arith,
  base_count-false node_released ns,
  check_nodes-horizon (i + 1) (some n.sequence_id) (b && n.released)
      (if b && not n.released then some i else h) h' ns (ground arith),
)

abbrev pub EdgesFrom : ℕ → List Edge → List Node → Type 0
EdgesFrom base edges nodes =
    (i : ℕ) (e : Edge) (n m : Node)
    → get_elem? edges i ≡ some e
    → get_elem? nodes i ≡ some n
    → get_elem? nodes (suc i) ≡ some m
    → (e.sequence_id ≡ n.sequence_id + 1)
      × (e.released ≡ ltb i base)
      × (e.start_node_id ≡ n.node_id)
      × (e.end_node_id ≡ m.node_id)

check_edges-EdgesFrom :
    (i : ℕ) (b : Bool) (h : Option ℕ) (es : List Edge) (ns : List Node)
    → check_edges i b h es ns ≡ ok tt
    → EdgesFrom (base_count edge_released b es) es ns
unfolding check_edges base_count
check_edges-EdgesFrom i b h (e ∷ es) (n ∷ m ∷ ns) v zero e' n' m' ge gn gm =
    ground (arith, eq_iff e.start_node_id n.node_id, eq_iff e.end_node_id m.node_id)
check_edges-EdgesFrom i b h (e ∷ es) (n ∷ m ∷ ns) v (suc j) e' n' m' ge gn gm = ground (
  arith,
  base_count-false edge_released es,
  check_edges-EdgesFrom (i + 1) (b && e.released) h es (m ∷ ns) (ground arith) j e' n' m' ge gn gm,
)
check_edges-EdgesFrom i b h [] ns v j e' n' m' ge gn gm = cc
check_edges-EdgesFrom i b h (e ∷ es) _ v j e' n' m' ge gn gm = cc

check_edges-end :
    (i : ℕ) (h : Option ℕ) (es : List Edge) (ns : List Node)
    → check_edges i true h es ns ≡ ok tt
    → (base_count edge_released true es ≡ length es)
      ⊎ (h ≡ some (i + base_count edge_released true es + 1))
unfolding check_edges base_count
check_edges-end i h [] ns v = inl refl
check_edges-end i h (e ∷ es) (n ∷ m ∷ ns) v = elim (Bool-cases e.released) [
  | inl base ↦ ground (arith, check_edges-end (i + 1) h es (m ∷ ns) (ground arith))
  | inr horizon ↦ inr (ground (arith, option_beq_iff h (some (i + 1))))
]
check_edges-end i h (e ∷ es) _ v = cc

shifted :
    (start : ℕ) (base : ℕ) (first : Node) (ns : List Node)
    → first.sequence_id ≡ start
    → first.released ≡ true
    → NodesFrom (start + 2) base ns
    → NodesFrom start (suc base) (first ∷ ns)
shifted start base first ns s r h zero m g = ground arith
shifted start base first ns s r h (suc j) m g = ground (arith, h j m g)

-- The two loops, taken apart.
pub passes :
    (order : OrderContent) (first : Node) (ns : List Node)
    → order.nodes ≡ first ∷ ns
    → validate_order_constraints order ≡ ok tt
    → (h : Option ℕ) × (first.released ≡ true)
      × (first.sequence_id % 2 ≡ 0)
      × (check_nodes 1 (some first.sequence_id) true none ns ≡ ok h)
      × (length order.edges + 1 ≡ suc (length ns))
      × (check_edges 0 true h order.edges (first ∷ ns) ≡ ok tt)
unfolding validate_order_constraints
passes order first ns e v =
    elim (Outcome-cases (check_nodes 1 (some first.sequence_id) true none ns)) [
      | inl (h, c) ↦ (h, ground arith, ground arith, c, ground arith, ground arith)
      | inr (x, c) ↦ absurd (ground arith)
    ]

well_formed :
    (order : OrderContent) (first : Node) (ns : List Node)
    → order.nodes ≡ first ∷ ns
    → validate_order_constraints order ≡ ok tt
    → IsWellFormed order
well_formed order first ns e v =
    let (h, released, even, nodes, count, edges) = passes order first ns e v in
    let base : ℕ = suc (base_count node_released true ns) in
    let base_edges : ℕ = base_count edge_released true order.edges in
    let from : NodesFrom first.sequence_id base order.nodes =
      subst (NodesFrom first.sequence_id base) (sym e) (
        shifted first.sequence_id (base_count node_released true ns) first ns refl released
          (check_nodes-NodesFrom 1 first.sequence_id true none h ns nodes)) in
    let edges_from : EdgesFrom base_edges order.edges order.nodes =
      subst (EdgesFrom base_edges order.edges) (sym e)
        (check_edges-EdgesFrom 0 true h order.edges (first ∷ ns) edges) in
    record {
      start = first.sequence_id;
      even = even;
      base = base;
      base_pos = omega arith;
      base_le = omega (arith, base_count-le node_released true ns, ap length e);
      node_at = from;
      edge_count = omega (arith, count, ap length e);
      base_edges = base_edges;
      base_edges_le = base_count-le edge_released true order.edges;
      base_edges_end = ground (
        arith,
        check_edges-end 0 h order.edges (first ∷ ns) edges,
        check_nodes-horizon 1 (some first.sequence_id) true none h ns nodes,
      );
      edge_at = λ i ed n m ge gn gm.
          ground (arith, edges_from i ed n m ge gn (rw (← add-one i) gm), from i n gn);
    }

-- An order that passes the check is well formed.
pub validate_sound :
    (order : OrderContent) → validate_order_constraints order ≡ ok tt → IsWellFormed order
validate_sound order v = by_nodes order.nodes refl
  where
    by_nodes : (ns : List Node) → order.nodes ≡ ns → IsWellFormed order
    by_nodes [] e = absurd (unfold validate_order_constraints in ground arith)
    by_nodes (first ∷ ns) e = well_formed order first ns e v
