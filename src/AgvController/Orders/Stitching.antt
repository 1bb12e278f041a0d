-- ===== src/AgvController/Orders/Stitching.antt =====
-- src/controller/agv-controller.ts, `_acceptOrder` in the mode "stitch": the new current order.
pub mod WellFormed
pub mod Accepted
use text.Mathlib.TextEquality.{eq_iff}
use vda_5050_lib_2_0_0_js.Prelude.{
  ℕ, zero, suc, ◌+◌, ◌-◌, ◌*◌, ◌%◌, ◌≤◌, ◌<◌, ◌≡◌, refl, sym, ap, ◌∙◌, subst, String, Option, none,
  some, Bool, true, false, not, List, [], ◌∷◌, ◌++◌, length, get_elem?, take, drop, find_index,
  find_index_from, arith, ltb, eqb, if◌then◌else◌, String-Eq, ◌==◌, ◌&&◌, inl, inr, Option-cases,
  Bool-cases, length-append,
}
use vda_5050_lib_2_0_0_js.Types.{Node, Edge, Order, OrderContent, Action}
use vda_5050_lib_2_0_0_js.AgvController.Model.{Controller}
use vda_5050_lib_2_0_0_js.AgvController.Validation.Spec.{IsWellFormed}
use vda_5050_lib_2_0_0_js.AgvController.Orders.{
  base_part, base_nodes, base_edges, last, base_end, head_node, head_actions, add_actions,
  extend_last, stitch,
}

-- The elements of a list that starts with its base, one by one.
module _ {A : Type 0} (released : A → Bool) where
  base_part-take :
      (i : ℕ) (xs : List A) (n : ℕ)
      → n ≤ length xs
      → ((j : ℕ) (x : A) → get_elem? xs j ≡ some x → released x ≡ ltb j n)
      → (elim (find_index_from i (λ x. not (released x)) xs) as (λ o. ℕ) [
        | none ↦ i + length xs
        | some k ↦ k
      ])
        ≡ i + n
  base_part-take i [] n le h = omega (arith, le)
  base_part-take i (x ∷ xs) zero le h = ground (arith, h 0 x refl)
  base_part-take i (x ∷ xs) (suc n) le h = ground (
    arith,
    h 0 x refl,
    base_part-take (i + 1) xs n (omega (arith, le)) (λ j y g. ground (arith, h (suc j) y g)),
  )

  take-length : (xs : List A) → take (length xs) xs ≡ xs
  take-length [] = refl
  take-length (x ∷ xs) = ap (λ ys. x ∷ ys) (take-length xs)

  pub base_part_lem :
      (xs : List A) (n : ℕ)
      → n ≤ length xs
      → ((j : ℕ) (x : A) → get_elem? xs j ≡ some x → released x ≡ ltb j n)
      → base_part released xs ≡ take n xs
  unfolding base_part
  base_part_lem xs n le h = elim (Option-cases (find_index (λ x. not (released x)) xs)) [
    | inl e ↦
        rw (e, base_part)
          (sym (take-length xs) ∙ ap (λ k. take k xs) (ground (arith, base_part-take 0 xs n le h)))
    | inr (i, e) ↦
        rw (e, base_part) (ap (λ k. take k xs) (ground (arith, base_part-take 0 xs n le h)))
  ]

module _ {A : Type 0} where
  pub get_elem?-append :
      (xs ys : List A) (i : ℕ)
      → get_elem? (xs ++ ys) i
        ≡ (if ltb i (length xs) then get_elem? xs i else get_elem? ys (i - length xs))
  get_elem?-append [] ys i = ground arith
  get_elem?-append (x ∷ xs) ys zero = ground arith
  get_elem?-append (x ∷ xs) ys (suc i) = ground (arith, get_elem?-append xs ys i)

  pub get_elem?-take :
      (n : ℕ) (xs : List A) (i : ℕ)
      → get_elem? (take n xs) i ≡ (if ltb i n then get_elem? xs i else none)
  get_elem?-take zero xs i = ground arith
  get_elem?-take (suc n) [] i = ground arith
  get_elem?-take (suc n) (x ∷ xs) zero = ground arith
  get_elem?-take (suc n) (x ∷ xs) (suc i) = ground (arith, get_elem?-take n xs i)

  pub length-take : (n : ℕ) (xs : List A) → n ≤ length xs → length (take n xs) ≡ n
  length-take zero xs h = refl
  length-take (suc n) [] h = absurd (omega (arith, h))
  length-take (suc n) (x ∷ xs) h = omega (arith, length-take n xs (omega (arith, h)))

-- Nodes that differ at most in their actions.
pub record IsSamePlace (n m : Node) : Type 0 where
  pub id : n.node_id ≡ m.node_id
  pub sequence : n.sequence_id ≡ m.sequence_id
  pub released : n.released ≡ m.released

pub length-extend_last :
    (more : List Action) (ns : List Node) → length (extend_last more ns) ≡ length ns
unfolding extend_last
length-extend_last more [] = refl
length-extend_last more (n ∷ []) = refl
length-extend_last more (n ∷ m ∷ ns) = omega (arith, length-extend_last more (m ∷ ns))

pub extend_last-IsSamePlace :
    (more : List Action) (ns : List Node) (i : ℕ) (n : Node)
    → get_elem? (extend_last more ns) i ≡ some n
    → (m : Node) × (get_elem? ns i ≡ some m) × IsSamePlace n m
unfolding extend_last add_actions
extend_last-IsSamePlace more [] i n e = absurd (ground (arith, e))
extend_last-IsSamePlace more (m ∷ []) zero n e = (
  m,
  refl,
  record { id = ground (arith, e); sequence = ground (arith, e); released = ground (arith, e) },
)
extend_last-IsSamePlace more (m ∷ []) (suc i) n e = absurd (ground (arith, e))
extend_last-IsSamePlace more (m ∷ k ∷ ns) zero n e = (
  m,
  refl,
  record { id = ground (arith, e); sequence = ground (arith, e); released = ground (arith, e) },
)
extend_last-IsSamePlace more (m ∷ k ∷ ns) (suc i) n e = extend_last-IsSamePlace more (k ∷ ns) i n e
