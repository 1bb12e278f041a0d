-- ===== src/AgvController/Validation/Complete.antt =====
-- src/controller/agv-controller.ts, `_validateOrderConstraints`: from the shape of an order to the check.
use native.Mathlib.Numerals.{add-one}
use text.Mathlib.TextEquality.{eq_iff}
use vda_5050_lib_2_0_0_js.Prelude.{
  ℕ, zero, suc, ◌+◌, ◌-◌, ◌≤◌, ◌≡◌, refl, ap, subst, ◌⊎◌, ◌↔◌, Option, none, some, Bool, true,
  false, ◌&&◌, List, [], ◌∷◌, length, ltb, arith, if◌then◌else◌, ok, option_beq_iff, ℕ-Eq,
}
use vda_5050_lib_2_0_0_js.Types.{Node, Edge, OrderContent}
use vda_5050_lib_2_0_0_js.AgvController.Validation.{
  check_nodes, check_edges, validate_order_constraints,
}
use vda_5050_lib_2_0_0_js.AgvController.Validation.Spec.{IsWellFormed}
use vda_5050_lib_2_0_0_js.AgvController.Validation.Sound.{NodesFrom, EdgesFrom, validate_sound}

check_nodes_of_NodesFrom :
    (i prev base : ℕ) (b : Bool) (h : Option ℕ) (ns : List Node)
    → base ≤ length ns
    → (b ≡ false → base ≡ 0)
    → NodesFrom (prev + 2) base ns
    → check_nodes i (some prev) b h ns
      ≡ ok (if b && ltb base (length ns) then some (i + base) else h)
unfolding check_nodes
check_nodes_of_NodesFrom i prev base b h [] l z from = ground arith
check_nodes_of_NodesFrom i prev zero b h (n ∷ ns) l z from = ground (
  arith,
  from 0 n refl,
  check_nodes_of_NodesFrom (i + 1) n.sequence_id 0 false (if b then some i else h) ns (omega arith)
      (λ _. refl) (λ j m g. ground (arith, from 0 n refl, from (suc j) m g)),
)
check_nodes_of_NodesFrom i prev (suc k) b h (n ∷ ns) l z from = ground (
  arith,
  from 0 n refl,
  check_nodes_of_NodesFrom (i + 1) n.sequence_id k true h ns (omega arith) (λ e. cc)
      (λ j m g. ground (arith, from 0 n refl, from (suc j) m g)),
)

check_edges_of_EdgesFrom :
    (i base : ℕ) (b : Bool) (h : Option ℕ) (es : List Edge) (ns : List Node)
    → length es + 1 ≡ length ns
    → base ≤ length es
    → (b ≡ false → base ≡ 0)
    → (b ≡ true → (base ≡ length es) ⊎ (h ≡ some (i + base + 1)))
    → EdgesFrom base es ns
    → check_edges i b h es ns ≡ ok tt
unfolding check_edges
check_edges_of_EdgesFrom i base b h [] ns c l z t from = refl
check_edges_of_EdgesFrom i zero b h (e ∷ es) (n ∷ m ∷ ns) c l z t from = ground (
  arith,
  from 0 e n m refl refl refl,
  option_beq_iff h (some (i + 1)),
  eq_iff e.start_node_id n.node_id,
  eq_iff e.end_node_id m.node_id,
  check_edges_of_EdgesFrom (i + 1) 0 false h es (m ∷ ns) (omega arith) (omega arith) (λ _. refl)
      (λ k. cc) (λ j e' n' m' ge gn gm. ground (arith, from (suc j) e' n' m' ge gn gm)),
)
check_edges_of_EdgesFrom i (suc k) b h (e ∷ es) (n ∷ m ∷ ns) c l z t from = ground (
  arith,
  from 0 e n m refl refl refl,
  eq_iff e.start_node_id n.node_id,
  eq_iff e.end_node_id m.node_id,
  check_edges_of_EdgesFrom (i + 1) k true h es (m ∷ ns) (omega arith) (omega arith) (λ f. cc)
      (λ f. ground arith) (λ j e' n' m' ge gn gm. ground (arith, from (suc j) e' n' m' ge gn gm)),
)
check_edges_of_EdgesFrom i base b h (e ∷ es) (n ∷ []) c l z t from = absurd (omega arith)
check_edges_of_EdgesFrom i base b h (e ∷ es) [] c l z t from = absurd (omega arith)

validate_cons :
    (order : OrderContent) (first : Node) (ns : List Node)
    → order.nodes ≡ first ∷ ns
    → IsWellFormed order
    → validate_order_constraints order ≡ ok tt
unfolding validate_order_constraints
validate_cons order first ns e w =
    let from : NodesFrom w.start w.base (first ∷ ns) =
      subst (NodesFrom w.start w.base) e w.node_at in
    let edges : EdgesFrom w.base_edges order.edges (first ∷ ns) =
      subst (EdgesFrom w.base_edges order.edges) e (λ i ed n m ge gn gm.
        ground (arith, w.edge_at i ed n m ge gn (rw add-one gm), w.node_at i n gn)) in
    let size : length order.nodes ≡ suc (length ns) = ap length e in
    let h : Option ℕ = if ltb (w.base - 1) (length ns) then some (1 + (w.base - 1)) else none in
    let nodes : check_nodes 1 (some first.sequence_id) true none ns ≡ ok h = ground (
      arith,
      w.base_pos,
      w.base_le,
      check_nodes_of_NodesFrom 1 first.sequence_id (w.base - 1) true none ns
          (omega (arith, w.base_le, size)) (λ f. cc)
          (λ j m g. ground (arith, w.base_pos, from 0 first refl, from (suc j) m g)),
    ) in
    let rest : check_edges 0 true h order.edges (first ∷ ns) ≡ ok tt =
      check_edges_of_EdgesFrom 0 w.base_edges true h order.edges (first ∷ ns)
        (omega (arith, w.edge_count, size)) w.base_edges_le (λ f. cc)
        (λ f.
          ground
            (arith, w.base_edges_end, w.edge_count, size, w.base_pos, w.base_le, w.base_edges_le))
        edges in
    ground (arith, nodes, rest, from 0 first refl, w.even, w.base_pos, w.edge_count, size)

-- The check accepts exactly the well-formed orders.
pub validate_iff :
    (order : OrderContent) → (validate_order_constraints order ≡ ok tt) ↔ IsWellFormed order
validate_iff order = (validate_sound order, λ w. by_nodes order.nodes refl w)
  where
    by_nodes :
        (ns : List Node)
        → order.nodes ≡ ns
        → IsWellFormed order
        → validate_order_constraints order ≡ ok tt
    by_nodes [] e w = absurd (omega (arith, w.base_pos, w.base_le, ap length e))
    by_nodes (first ∷ ns) e w = validate_cons order first ns e w
