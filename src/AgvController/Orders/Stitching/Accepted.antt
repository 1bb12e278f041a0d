-- ===== src/AgvController/Orders/Stitching/Accepted.antt =====
-- src/controller/agv-controller.ts: an order that `_isOrderBaseStitching` lets through.
use text.Mathlib.TextEquality.{eq_iff}
use vda_5050_lib_2_0_0_js.Prelude.{
  ℕ, zero, suc, ◌+◌, ◌-◌, ◌≤◌, ◌≡◌, refl, ap, ◌∙◌, some, true, List, [], ◌∷◌, length, get_elem?,
  take, arith, String-Eq,
}
use vda_5050_lib_2_0_0_js.Types.{Node, Order, OrderContent}
use vda_5050_lib_2_0_0_js.AgvController.Model.{Controller}
use vda_5050_lib_2_0_0_js.AgvController.Validation.Spec.{IsWellFormed}
use vda_5050_lib_2_0_0_js.AgvController.Orders.{
  base_nodes, stitch, is_order_base_stitching, base_end, last, head_node,
}
use vda_5050_lib_2_0_0_js.AgvController.Orders.Stitching.{base_part_lem}
use vda_5050_lib_2_0_0_js.AgvController.Orders.Stitching.WellFormed.{get_elem?-some, stitched}

last-take : (n : ℕ) (ns : List Node) → n + 1 ≤ length ns → last (take (suc n) ns) ≡ get_elem? ns n
unfolding last
last-take zero [] h = absurd (omega (arith, h))
last-take zero (m ∷ ns) h = refl
last-take (suc n) [] h = absurd (omega (arith, h))
last-take (suc n) (m ∷ []) h = absurd (omega (arith, h))
last-take (suc n) (m ∷ k ∷ ns) h = last-take n (k ∷ ns) (omega (arith, h))

base_end_lem :
    (order : OrderContent) (w : IsWellFormed order)
    → base_end order.nodes ≡ get_elem? order.nodes (w.base - 1)
unfolding base_end base_nodes
base_end_lem order w =
    let split : w.base ≡ suc (w.base - 1) = omega (arith, w.base_pos) in
    ap last
      (base_part_lem (λ n. n.released) order.nodes w.base w.base_le (λ j n g. (w.node_at j n g).1))
    ∙ ap (λ k. last (take k order.nodes)) split
    ∙ last-take (w.base - 1) order.nodes (omega (arith, w.base_pos, w.base_le))

get_elem?-head : (ns : List Node) → head_node ns ≡ get_elem? ns 0
get_elem?-head [] = refl
get_elem?-head (n ∷ ns) = refl

joins :
    (c : Controller) (current order : Order) (a b : Node)
    → c.current_order ≡ some current
    → is_order_base_stitching c order ≡ true
    → base_end current.nodes ≡ some a
    → head_node order.nodes ≡ some b
    → (a.node_id ≡ b.node_id) × (a.sequence_id ≡ b.sequence_id)
unfolding is_order_base_stitching
joins c current order a b e s ends begins =
    ground (arith, e, s, ends, begins, eq_iff a.node_id b.node_id)

-- Stitching a well-formed order, which begins where the base of the current order ends, onto a
-- well-formed current order, whose base edges all lead to base nodes, gives a well-formed order.
pub stitch-IsWellFormed :
    (c : Controller) (current order : Order) (w : IsWellFormed current.content)
    → c.current_order ≡ some current
    → is_order_base_stitching c order ≡ true
    → w.base_edges + 1 ≡ w.base
    → IsWellFormed order.content
    → IsWellFormed (stitch current.content order.content)
stitch-IsWellFormed c current order w e s strict v =
    let (a, end_at) =
      get_elem?-some current.nodes (w.base - 1) (omega (arith, w.base_pos, w.base_le)) in
    let (b, head_at) = get_elem?-some order.nodes 0 (omega (arith, v.base_pos, v.base_le)) in
    let ends : base_end current.nodes ≡ some a = base_end_lem current.content w ∙ end_at in
    let begins : head_node order.nodes ≡ some b = get_elem?-head order.nodes ∙ head_at in
    let (same_id, same_sequence) = joins c current order a b e s ends begins in
    stitched current.content order.content w v strict a b end_at head_at same_id same_sequence
