-- ===== src/AgvController/Orders/BaseEnd.antt =====
-- src/controller/agv-controller.ts, `_isOrderBaseStitching`: the end of the base by its place.
use vda_5050_lib_2_0_0_js.Prelude.{
  ℕ, zero, suc, ◌+◌, ◌≤◌, ◌≡◌, refl, ap, ◌∙◌, subst, Option, none, some, Bool, true, false, not,
  List, [], ◌∷◌, get_elem?, find_index_from, arith, String-Eq, if◌then◌else◌, Bool-cases, inl, inr,
  Option-cases,
}
use text.Mathlib.TextEquality.{eq_iff}
use vda_5050_lib_2_0_0_js.Types.{Node, Order}
use vda_5050_lib_2_0_0_js.AgvController.Model.{Controller}
use vda_5050_lib_2_0_0_js.AgvController.Orders.{
  base_part, base_nodes, base_end, last, head_node, is_order_base_stitching,
}

-- The place of the last base node: all nodes up to it are released, and the next one, if any, is not.
pub record IsBaseEnd (nodes : List Node) (e : Node) : Type 0 where
  pub index : ℕ
  pub here : get_elem? nodes index ≡ some e
  pub base : (j : ℕ) (n : Node) → j ≤ index → get_elem? nodes j ≡ some n → n.released ≡ true
  pub horizon : (n : Node) → get_elem? nodes (suc index) ≡ some n → n.released ≡ false

abbrev next_found : Option ℕ → Option ℕ
next_found none = none
next_found (some i) = some (i + 1)

find_index_from-suc :
    (p : Node → Bool) (i : ℕ) (xs : List Node)
    → find_index_from (i + 1) p xs ≡ next_found (find_index_from i p xs)
find_index_from-suc p i [] = refl
find_index_from-suc p i (x ∷ xs) = ground (arith, find_index_from-suc p (i + 1) xs)

base_nodes-cons :
    (n : Node) (ns : List Node)
    → base_nodes (n ∷ ns) ≡ (if n.released then n ∷ base_nodes ns else [])
unfolding base_nodes base_part
base_nodes-cons n ns = ground (arith, find_index_from-suc (λ m. not m.released) 0 ns)

first_released : (n : Node) (ns : List Node) → base_nodes (n ∷ ns) ≡ [] → n.released ≡ false
first_released n ns e = ground (arith, e, base_nodes-cons n ns)

alone_base :
    (n : Node) (ns : List Node) (j : ℕ) (m : Node)
    → n.released ≡ true
    → j ≤ 0
    → get_elem? (n ∷ ns) j ≡ some m
    → m.released ≡ true
alone_base n ns zero m r le g = ground (arith, r, g)
alone_base n ns (suc j) m r le g = absurd (omega (arith, le))

alone_horizon :
    (ns : List Node) (m : Node) → base_nodes ns ≡ [] → get_elem? ns 0 ≡ some m → m.released ≡ false
alone_horizon [] m e g = cc
alone_horizon (k ∷ ns) m e g = ground (arith, first_released k ns e, g)

alone : (n : Node) (ns : List Node) → n.released ≡ true → base_nodes ns ≡ [] → IsBaseEnd (n ∷ ns) n
alone n ns r e = record {
  index = 0;
  here = refl;
  base = λ j m le g. alone_base n ns j m r le g;
  horizon = λ m g. alone_horizon ns m e g;
}

later_base :
    (n e : Node) (ns : List Node) (h : IsBaseEnd ns e) (j : ℕ) (m : Node)
    → n.released ≡ true
    → j ≤ suc h.index
    → get_elem? (n ∷ ns) j ≡ some m
    → m.released ≡ true
later_base n e ns h zero m r le g = ground (arith, r, g)
later_base n e ns h (suc j) m r le g = h.base j m (omega (arith, le)) g

later : (n e : Node) (ns : List Node) → n.released ≡ true → IsBaseEnd ns e → IsBaseEnd (n ∷ ns) e
later n e ns r h = record {
  index = suc h.index;
  here = h.here;
  base = λ j m le g. later_base n e ns h j m r le g;
  horizon = h.horizon;
}

nothing : (e : Node) → base_end [] ≡ some e → ⊥
unfolding base_end base_nodes base_part last
nothing e h = ground (arith, h)

-- The end of the base, found as the last of the released nodes in front, is at that place.
base_end-IsBaseEnd : (nodes : List Node) (e : Node) → base_end nodes ≡ some e → IsBaseEnd nodes e
unfolding base_end last
base_end-IsBaseEnd [] e h = absurd (nothing e h)
base_end-IsBaseEnd (n ∷ ns) e h = elim (Bool-cases n.released) [
  | inl r ↦
      split (base_nodes ns) refl (subst (λ bs. last bs ≡ some e) (base_nodes-cons n ns ∙ on r) h) r
        (base_end-IsBaseEnd ns e)
  | inr r ↦ absurd (ground (arith, ap last (base_nodes-cons n ns), h, r))
]
  where
    on : n.released ≡ true → (if n.released then n ∷ base_nodes ns else []) ≡ n ∷ base_nodes ns
    on r = rw r refl

    split :
        (bs : List Node)
        → base_nodes ns ≡ bs
        → last (n ∷ bs) ≡ some e
        → n.released ≡ true
        → (base_end ns ≡ some e → IsBaseEnd ns e)
        → IsBaseEnd (n ∷ ns) e
    split [] b l r rest = subst (IsBaseEnd (n ∷ ns)) (ground (arith, l)) (alone n ns r b)
    split (k ∷ bs) b l r rest = later n e ns r (rest (ap last b ∙ l))

head_node_lem : (nodes : List Node) → head_node nodes ≡ get_elem? nodes 0
head_node_lem [] = refl
head_node_lem (n ∷ ns) = refl

-- The order starts at the node at which the base of the current order ends.
pub record Extends (order : Order) (c : Controller) : Type 0 where
  pub current : Order
  pub is_current : c.current_order ≡ some current
  pub end : Node
  pub is_end : IsBaseEnd current.nodes end
  pub first : Node
  pub is_first : get_elem? order.nodes 0 ≡ some first
  pub same_id : first.node_id ≡ end.node_id
  pub same_sequence_id : first.sequence_id ≡ end.sequence_id

Extends-current :
    (order current : Order) (c : Controller)
    → c.current_order ≡ some current
    → is_order_base_stitching c order ≡ true
    → Extends order c
unfolding is_order_base_stitching
Extends-current order current c e s = elim (Option-cases (base_end current.nodes)) [
  | inl no_end ↦ absurd (ground (arith, e, s, no_end))
  | inr (end, at_end) ↦ elim (Option-cases (get_elem? order.nodes 0)) [
    | inl no_first ↦ absurd (ground (arith, e, s, at_end, no_first, head_node_lem order.nodes))
    | inr (first, at_first) ↦ record {
      current = current;
      is_current = e;
      end = end;
      is_end = base_end-IsBaseEnd current.nodes end at_end;
      first = first;
      is_first = at_first;
      same_id = ground (
        arith,
        e,
        s,
        at_end,
        at_first,
        head_node_lem order.nodes,
        eq_iff end.node_id first.node_id,
      );
      same_sequence_id = ground (arith, e, s, at_end, at_first, head_node_lem order.nodes);
    }
  ]
]

pub stitching-Extends :
    (order : Order) (c : Controller) → is_order_base_stitching c order ≡ true → Extends order c
unfolding is_order_base_stitching
stitching-Extends order c s = elim (Option-cases c.current_order) [
  | inl e ↦ absurd (ground (arith, e, s))
  | inr (current, e) ↦ Extends-current order current c e s
]
