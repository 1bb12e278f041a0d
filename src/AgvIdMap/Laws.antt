-- ===== src/AgvIdMap/Laws.antt =====
-- src/common/agvid-map.ts: look-ups after a change, and what keeps the map of maps in order.
use vda_5050_lib_2_0_0_js.Prelude.{
  ◌≡◌, String, none, some, [], ◌∷◌, String-Eq, ◌==◌, if◌then◌else◌, arith, All, Option-cases, eqb,
  subst, ◌<◌, inl, inr, Bool-cases,
}
use text.Mathlib.TextEquality.{eq_iff}
use vda_5050_lib_2_0_0_js.JsMap
use vda_5050_lib_2_0_0_js.JsMap.{JsMap}
use vda_5050_lib_2_0_0_js.JsMap.Laws.{
  HasDistinctKeys, get_empty, get-set, get-delete, set-HasDistinctKeys, delete-HasDistinctKeys,
}
use vda_5050_lib_2_0_0_js.Types.{AgvId, agv_id_beq}
use vda_5050_lib_2_0_0_js.AgvIdMap.{AgvIdMap, get, set, delete}

module _ {ℓ} {T : Type ℓ} where
  -- A value that is set is found under its vehicle, and every other vehicle keeps its value.
  pub get-set_agv :
      (id other : AgvId) (value : T) (m : AgvIdMap T)
      → get other (set id value m) ≡ (if agv_id_beq id other then some value else get other m)
  unfolding get set JsMap.get
  get-set_agv id other value m = elim (Option-cases (JsMap.get id.manufacturer m)) [
    | inl missing ↦
        rw (missing, set)
          (ground (
            arith,
            get-set other.manufacturer id.manufacturer (JsMap.set id.serial_number value []) m,
            get-set other.serial_number id.serial_number value [],
            eq_iff id.manufacturer other.manufacturer,
          ))
    | inr (inner, found) ↦
        rw (found, set)
          (ground (
            arith,
            get-set other.manufacturer id.manufacturer (JsMap.set id.serial_number value inner) m,
            get-set other.serial_number id.serial_number value inner,
            eq_iff id.manufacturer other.manufacturer,
          ))
  ]

  -- After a deletion the vehicle has no value, and every other vehicle keeps its value.
  pub get-delete_agv :
      (id other : AgvId) (m : AgvIdMap T)
      → get other (delete id m) ≡ (if agv_id_beq id other then none else get other m)
  unfolding get delete
  get-delete_agv id other m = elim (Option-cases (JsMap.get id.manufacturer m)) [
    | inl missing ↦ rw (missing, delete) (ground (arith, eq_iff id.manufacturer other.manufacturer))
    | inr (inner, found) ↦
        let rest = JsMap.delete id.serial_number inner in
        rw (found, delete)
          (ground (
            arith,
            get-set other.manufacturer id.manufacturer rest m,
            get-delete other.manufacturer id.manufacturer m,
            get-delete other.serial_number id.serial_number inner,
            get_empty other.serial_number rest,
            eq_iff id.manufacturer other.manufacturer,
          ))
  ]

  -- Manufacturers are distinct, and each has distinct vehicles and at least one.
  pub record IsInner (b : String × JsMap String T) : Type ℓ where
    inhabited : 0 < JsMap.size b.1
    pub distinct : HasDistinctKeys b.1

  pub record IsWellFormed (m : AgvIdMap T) : Type ℓ where
    pub distinct : HasDistinctKeys m
    pub inner : All IsInner m

  size-set_pos : (k : String) (v : T) (m : JsMap String T) → 0 < JsMap.size (JsMap.set k v m)
  unfolding JsMap.set
  size-set_pos k v [] = omega arith
  size-set_pos k v ((j, w) ∷ m) = ground arith

  set-All :
      (k : String) (b : JsMap String T) (m : AgvIdMap T)
      → ((j : String) → IsInner (j, b))
      → All IsInner m
      → All IsInner (JsMap.set k b m)
  unfolding JsMap.set
  set-All k b [] h _ = (h k, tt)
  set-All k b ((j, c) ∷ m) h (here, later) = elim (Bool-cases (j == k)) [
    | inl same ↦ rw (same, JsMap.set) (h j, later)
    | inr other ↦ rw (other, JsMap.set) (here, set-All k b m h later)
  ]

  delete-All : (k : String) (m : AgvIdMap T) → All IsInner m → All IsInner (JsMap.delete k m)
  unfolding JsMap.delete
  delete-All k [] h = tt
  delete-All k ((j, c) ∷ m) (here, later) = elim (Bool-cases (j == k)) [
    | inl same ↦ rw (same, JsMap.delete) (delete-All k m later)
    | inr other ↦ rw (other, JsMap.delete) (here, delete-All k m later)
  ]

  get-All :
      (k : String) (m : AgvIdMap T) {b : JsMap String T}
      → All IsInner m
      → JsMap.get k m ≡ some b
      → HasDistinctKeys b
  unfolding JsMap.get
  get-All k [] h e = cc
  get-All k ((j, c) ∷ m) (here, later) e = elim (Bool-cases (j == k)) [
    | inl same ↦ subst HasDistinctKeys (ground arith) here.distinct
    | inr other ↦ get-All k m later (ground arith)
  ]

  -- Setting a value keeps the map well formed.
  pub set-IsWellFormed :
      (id : AgvId) (value : T) (m : AgvIdMap T) → IsWellFormed m → IsWellFormed (set id value m)
  unfolding set
  set-IsWellFormed id value m w = elim (Option-cases (JsMap.get id.manufacturer m)) [
    | inl missing ↦ rw (missing, set) (grown [] tt)
    | inr (inner, found) ↦ rw (found, set) (grown inner (get-All id.manufacturer m w.inner found))
  ]
    where
      grown :
          (inner : JsMap String T)
          → HasDistinctKeys inner
          → IsWellFormed (JsMap.set id.manufacturer (JsMap.set id.serial_number value inner) m)
      grown inner d = record {
        distinct = set-HasDistinctKeys id.manufacturer _ m w.distinct;
        inner =
            set-All id.manufacturer _ m
              (λ j. record {
                inhabited = size-set_pos id.serial_number value inner;
                distinct = set-HasDistinctKeys id.serial_number value inner d;
              })
              w.inner;
      }

  -- Deleting a value keeps the map well formed: no manufacturer is left without a vehicle.
  pub delete-IsWellFormed :
      (id : AgvId) (m : AgvIdMap T) → IsWellFormed m → IsWellFormed (delete id m)
  unfolding delete
  delete-IsWellFormed id m w = elim (Option-cases (JsMap.get id.manufacturer m)) [
    | inl missing ↦ rw (missing, delete) w
    | inr (inner, found) ↦
        let rest = JsMap.delete id.serial_number inner in
        elim (Bool-cases (eqb (JsMap.size rest) 0)) [
          | inl last ↦
              rw (found, delete, last)
                (record {
                  distinct = delete-HasDistinctKeys id.manufacturer m w.distinct;
                  inner = delete-All id.manufacturer m w.inner;
                })
          | inr more ↦
              rw (found, delete, more)
                (record {
                  distinct = set-HasDistinctKeys id.manufacturer rest m w.distinct;
                  inner =
                      set-All id.manufacturer rest m
                        (λ j. record {
                          inhabited = ground arith;
                          distinct =
                              delete-HasDistinctKeys id.serial_number inner
                                (get-All id.manufacturer m w.inner found);
                        })
                        w.inner;
                })
        ]
  ]
