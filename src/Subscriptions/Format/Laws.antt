-- ===== src/Subscriptions/Format/Laws.antt =====
-- src/common/subscription-manager.ts: what the assignments to the shared `levels` array do.
use mathlib.Core.Path.{fun_ext}
use mathlib.Core.Option
use mathlib.Core.Option.{some-injective}
use text.Mathlib.TextEquality.{eq_iff}
use vda_5050_lib_2_0_0_js.Prelude.{
  ℕ, zero, suc, ◌≡◌, refl, sym, ap, ◌∙◌, ◌≢◌, String, Option, none, some, Bool, String-Eq,
  Option-Eq, ℕ-Eq, ◌==◌, eqb, if◌then◌else◌, List, get_elem?, length, arith, All, Option-cases, inl,
  inr,
}
use vda_5050_lib_2_0_0_js.Subscriptions.Format.{
  Format, Placeholder, placeholder, index_of, index, set, assign, fill, level_at,
}

get_elem?-set :
    (xs : List String) (i j : ℕ) (v : String)
    → get_elem? (set xs i v) j
      ≡ (elim (get_elem? xs j) [ none ↦ none | some w ↦ if◌then◌else◌ (eqb i j) (some v) (some w) ])
get_elem?-set List.[] i j v = refl
get_elem?-set (List.◌∷◌ x xs) zero zero v = refl
get_elem?-set (List.◌∷◌ x xs) zero (suc j) v = ground arith
get_elem?-set (List.◌∷◌ x xs) (suc i) zero v = ground arith
get_elem?-set (List.◌∷◌ x xs) (suc i) (suc j) v = ground (arith, get_elem?-set xs i j v)

-- The index of a placeholder is a position where it stands.
index_of-eq-some :
    (p : String) (levels : List String) (i : ℕ)
    → index_of p levels ≡ some i
    → get_elem? levels i ≡ some p
unfolding index_of
index_of-eq-some p List.[] i h = cc
index_of-eq-some p (List.◌∷◌ l levels) zero h = ground (arith, eq_iff l p)
index_of-eq-some p (List.◌∷◌ l levels) (suc i) h = ground (arith, index_of-eq-some p levels i)

-- Two placeholders never share a position.
index_of_ne :
    (p q : String) (levels : List String) (i : ℕ)
    → p ≢ q
    → index_of p levels ≡ some i
    → index_of q levels ≢ some i
index_of_ne p q levels i h e k =
    h (some-injective p q (sym (index_of-eq-some p levels i e) ∙ index_of-eq-some q levels i k))

abbrev pub Apart : Option ℕ → Option ℕ → Type 0
Apart a b = (i : ℕ) → a ≡ some i → b ≢ some i

pub level_at-assign_self :
    (a : Option ℕ) (v : String) (levels : List String)
    → level_at (assign a v levels) a ≡ (elim (level_at levels a) [ none ↦ none | some w ↦ some v ])
unfolding assign
level_at-assign_self none v levels = refl
level_at-assign_self (some i) v levels = ground (arith, get_elem?-set levels i i v)

pub level_at-assign_ne :
    (a b : Option ℕ) (v : String) (levels : List String)
    → Apart a b
    → level_at (assign a v levels) b ≡ level_at levels b
unfolding assign
level_at-assign_ne none b v levels h = refl
level_at-assign_ne (some i) none v levels h = refl
level_at-assign_ne (some i) (some j) v levels h =
    ground (arith, get_elem?-set levels i j v, h i refl)

-- Where a placeholder occurs, the array has its text at its index.
pub level_at-index :
    (f : Format) (p : Placeholder)
    → level_at f.levels (index f p)
      ≡ (elim (index f p) [ none ↦ none | some i ↦ some (placeholder p) ])
unfolding index
level_at-index f p = elim (Option-cases (index f p)) [
  | inl e ↦ rw e refl
  | inr (i, e) ↦ rw e (index_of-eq-some (placeholder p) f.levels i e)
]

pub index-Apart :
    (f : Format) (p q : Placeholder) → placeholder p ≢ placeholder q → Apart (index f p) (index f q)
unfolding index
index-Apart f p q h i = index_of_ne (placeholder p) (placeholder q) f.levels i h

set-All :
    (P : String → Type 0) (levels : List String) (i : ℕ) (v : String)
    → All P levels
    → P v
    → All P (set levels i v)
set-All P List.[] i v h k = tt
set-All P (List.◌∷◌ x xs) zero v (_, h) k = (k, h)
set-All P (List.◌∷◌ x xs) (suc i) v (p, h) k = (p, set-All P xs i v h k)

pub assign-All :
    (P : String → Type 0) (a : Option ℕ) (v : String) (levels : List String)
    → All P levels
    → P v
    → All P (assign a v levels)
unfolding assign
assign-All P none v levels h k = h
assign-All P (some i) v levels h k = set-All P levels i v h k

length-set : (levels : List String) (i : ℕ) (v : String) → length (set levels i v) ≡ length levels
length-set List.[] i v = refl
length-set (List.◌∷◌ x xs) zero v = refl
length-set (List.◌∷◌ x xs) (suc i) v = ap suc (length-set xs i v)

pub length-assign :
    (a : Option ℕ) (v : String) (levels : List String) → length (assign a v levels) ≡ length levels
unfolding assign
length-assign none v levels = refl
length-assign (some i) v levels = length-set levels i v

abbrev overwrite : Bool → String → String → String
overwrite b v w = if b then v else w

get_elem?-assign :
    (a : Option ℕ) (v : String) (levels : List String) (j : ℕ)
    → get_elem? (assign a v levels) j ≡ Option.map (overwrite (a == some j) v) (get_elem? levels j)
unfolding assign
get_elem?-assign none v levels j = ground arith
get_elem?-assign (some i) v levels j = ground (arith, get_elem?-set levels i j v)

-- What stands at a position after the five assignments, in place of `w`.
written : Format → String → String → String → ℕ → String → String
written f m s t j w = overwrite (index f Placeholder.for_topic == some j) t (
    overwrite (index f Placeholder.for_serial_number == some j) s (
      overwrite (index f Placeholder.for_manufacturer == some j) m (
        overwrite (index f Placeholder.for_version == some j) f.version
          (overwrite (index f Placeholder.for_interface == some j) f.interface w))))

get_elem?-fill :
    (f : Format) (m s t : String) (levels : List String) (j : ℕ)
    → get_elem? (fill f m s t levels) j ≡ Option.map (written f m s t j) (get_elem? levels j)
unfolding fill written
get_elem?-fill f m s t levels j = simp (get_elem?-assign, Option.map-map)

written_twice :
    (f : Format) (m s t m' s' t' : String) (j : ℕ) (w : String)
    → written f m' s' t' j (written f m s t j w) ≡ written f m' s' t' j w
unfolding written
written_twice f m s t m' s' t' j w = ground arith

list_ext : (xs ys : List String) → ((j : ℕ) → get_elem? xs j ≡ get_elem? ys j) → xs ≡ ys
list_ext List.[] List.[] h = refl
list_ext List.[] (List.◌∷◌ y ys) h = cc (h 0)
list_ext (List.◌∷◌ x xs) List.[] h = cc (h 0)
list_ext (List.◌∷◌ x xs) (List.◌∷◌ y ys) h = cc (h 0, list_ext xs ys (λ j. h (suc j)))

-- An MQTT topic is filled in the same whatever an earlier call left in the shared array.
fill-fill :
    (f : Format) (m s t m' s' t' : String) (levels : List String)
    → fill f m' s' t' (fill f m s t levels) ≡ fill f m' s' t' levels
fill-fill f m s t m' s' t' levels = list_ext _ _ λ j.
    get_elem?-fill f m' s' t' (fill f m s t levels) j
    ∙ ap (Option.map (written f m' s' t' j)) (get_elem?-fill f m s t levels j)
    ∙ Option.map-map (written f m' s' t' j) (written f m s t j) (get_elem? levels j)
    ∙ ap (λ g. Option.map g (get_elem? levels j)) (fun_ext (written_twice f m s t m' s' t' j))
    ∙ sym (get_elem?-fill f m' s' t' levels j)
