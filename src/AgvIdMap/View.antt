-- ===== src/AgvIdMap/View.antt =====
-- src/common/agvid-map.ts: the map of maps seen through its iterator, as one flat map.
use text.Mathlib.TextEquality.{eq_iff}
use vda_5050_lib_2_0_0_js.Prelude.{
  ◌≡◌, refl, ◌≢◌, String, none, some, List, [], ◌∷◌, ◌++◌, map, String-Eq, ◌==◌, if◌then◌else◌,
  arith, length, length-append, ◌⊎◌, inl, inr,
}
use vda_5050_lib_2_0_0_js.JsMap
use vda_5050_lib_2_0_0_js.JsMap.{JsMap}
use vda_5050_lib_2_0_0_js.Types.{AgvId, AgvId-Eq}
use vda_5050_lib_2_0_0_js.AgvIdMap.{AgvIdMap, empty, size, get, set, delete, entries}
use vda_5050_lib_2_0_0_js.JsMap.Laws.{HasDistinctKeys}
use vda_5050_lib_2_0_0_js.AgvIdMap.Laws.{IsWellFormed, set-IsWellFormed, delete-IsWellFormed}

-- A change of a map.
pub data Change {ℓ} (T : Type ℓ) : Type ℓ where
  put : AgvId → T → Change T
  drop : AgvId → Change T

module _ {ℓ} {T : Type ℓ} where
  length-map {κ} : {B : Type κ} (f : T → B) (xs : List T) → length (map f xs) ≡ length xs
  length-map f [] = refl
  length-map f (x ∷ xs) = omega (arith, length-map f xs)

module _ {ℓ} {T : Type ℓ} where
  -- The size is the number of entries that the iterator yields.
  size-entries : (m : AgvIdMap T) → size m ≡ length (entries m)
  unfolding size entries
  size-entries [] = refl
  size-entries ((manufacturer, inner) ∷ m) = omega (
    arith,
    length-append (tagged manufacturer inner) (entries m),
    length-map (tag manufacturer) inner,
    size-entries m,
  )
    where
      tag : String → String × T → AgvId × T
      tag manufacturer b = (record { manufacturer = manufacturer; serial_number = b.0 }, b.1)

      tagged : String → JsMap String T → List (AgvId × T)
      tagged manufacturer inner = map (tag manufacturer) inner

  get-append :
      (id : AgvId) (xs ys : List (AgvId × T))
      → JsMap.get id (xs ++ ys)
        ≡ (elim (JsMap.get id xs) [ none ↦ JsMap.get id ys | some v ↦ some v ])
  unfolding JsMap.get
  get-append id [] ys = refl
  get-append id ((k, v) ∷ xs) ys = ground (arith, get-append id xs ys)

  get-tagged :
      (id : AgvId) (manufacturer : String) (inner : JsMap String T)
      → JsMap.get id
          (map (λ b. (record { manufacturer = manufacturer; serial_number = b.0 }, b.1)) inner)
        ≡ (if manufacturer == id.manufacturer then JsMap.get id.serial_number inner else none)
  unfolding JsMap.get
  get-tagged id manufacturer [] = ground arith
  get-tagged id manufacturer ((s, v) ∷ inner) = ground (arith, get-tagged id manufacturer inner)

  -- Looking a vehicle up in the iterator's entries gives what `get` gives.
  get-entries :
      (id : AgvId) (m : AgvIdMap T) → HasDistinctKeys m → JsMap.get id (entries m) ≡ get id m
  unfolding entries get JsMap.get
  get-entries id [] d = refl
  get-entries id ((manufacturer, inner) ∷ m) (d, ds) =
      rw (get-append id _ (entries m), get-tagged id manufacturer inner)
        (ground (arith, eq_iff manufacturer id.manufacturer, get-entries id m ds))

  -- No entry of a manufacturer.
  IsAbsent : String → List (AgvId × T) → Type 0
  IsAbsent m [] = Unit
  IsAbsent m ((id, v) ∷ es) = (m ≢ id.manufacturer) × IsAbsent m es

  -- The first entry is of a manufacturer.
  StartsWith : String → List (AgvId × T) → Type 0
  StartsWith m [] = ⊥
  StartsWith m ((id, v) ∷ es) = m ≡ id.manufacturer

  -- After each entry comes one of the same manufacturer, or none at all any more.
  pub IsGrouped : List (AgvId × T) → Type 0
  IsGrouped [] = Unit
  IsGrouped ((id, v) ∷ es) =
      (StartsWith id.manufacturer es ⊎ IsAbsent id.manufacturer es) × IsGrouped es

  abbrev tag_all : String → JsMap String T → List (AgvId × T)
  tag_all m inner = map (λ b. (record { manufacturer = m; serial_number = b.0 }, b.1)) inner

  IsAbsent-append :
      (k m : String) (inner : JsMap String T) (es : List (AgvId × T))
      → k ≢ m
      → IsAbsent k es
      → IsAbsent k (tag_all m inner ++ es)
  unfolding IsAbsent
  IsAbsent-append k m [] es h a = a
  IsAbsent-append k m (b ∷ inner) es h a = (h, IsAbsent-append k m inner es h a)

  IsAbsent-entries : (k : String) (m : AgvIdMap T) → JsMap.get k m ≡ none → IsAbsent k (entries m)
  unfolding entries JsMap.get IsAbsent
  IsAbsent-entries k [] e = tt
  IsAbsent-entries k ((j, inner) ∷ m) e =
      IsAbsent-append k j inner (entries m) (λ same. ground (arith, e, same, eq_iff j k))
        (IsAbsent-entries k m (ground arith))

  IsGrouped-append :
      (m : String) (inner : JsMap String T) (es : List (AgvId × T))
      → IsAbsent m es
      → IsGrouped es
      → IsGrouped (tag_all m inner ++ es)
  unfolding IsGrouped StartsWith
  IsGrouped-append m [] es a g = g
  IsGrouped-append m (b ∷ []) es a g = (inr a, g)
  IsGrouped-append m (b ∷ c ∷ inner) es a g = (inl refl, IsGrouped-append m (c ∷ inner) es a g)

  grouped : (m : AgvIdMap T) → HasDistinctKeys m → IsGrouped (entries m)
  unfolding entries IsGrouped
  grouped [] d = tt
  grouped ((j, inner) ∷ m) (d, ds) =
      IsGrouped-append j inner (entries m) (IsAbsent-entries j m d) (grouped m ds)

  abbrev pub after : List (Change T) → AgvIdMap T → AgvIdMap T
  after [] m = m
  after (put id v ∷ changes) m = after changes (set id v m)
  after (drop id ∷ changes) m = after changes (delete id m)

  after-IsWellFormed :
      (changes : List (Change T)) (m : AgvIdMap T) → IsWellFormed m → IsWellFormed (after changes m)
  after-IsWellFormed [] m w = w
  after-IsWellFormed (put id v ∷ changes) m w =
      after-IsWellFormed changes (set id v m) (set-IsWellFormed id v m w)
  after-IsWellFormed (drop id ∷ changes) m w =
      after-IsWellFormed changes (delete id m) (delete-IsWellFormed id m w)

  -- In a map that any sets and deletions have made of the empty one, the entries of a manufacturer
  -- stand together in the iteration, whatever was set between them.
  pub entries-IsGrouped : (changes : List (Change T)) → IsGrouped (entries (after changes empty))
  entries-IsGrouped changes =
      grouped (after changes empty)
        (after-IsWellFormed changes empty (record { distinct = tt; inner = tt })).distinct
