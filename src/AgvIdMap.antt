-- ===== src/AgvIdMap.antt =====
-- src/common/agvid-map.ts: values by vehicle, in a map of maps. A method that changes the map
-- returns the new one; an inner map that is changed in place is set under its manufacturer.
pub mod Laws
pub mod View
use vda_5050_lib_2_0_0_js.Prelude.{
  ℕ, ◌+◌, String, Option, none, some, List, [], ◌∷◌, ◌++◌, map, Eq, String-Eq, ◌==◌, ◌&&◌,
  if◌then◌else◌, eqb,
}
use vda_5050_lib_2_0_0_js.JsMap
use vda_5050_lib_2_0_0_js.JsMap.{JsMap}
use vda_5050_lib_2_0_0_js.Types.{AgvId, agv_id_beq}

abbrev pub AgvIdMap {ℓ} : Type ℓ → Type ℓ
AgvIdMap T = JsMap String (JsMap String T)

module _ {ℓ} {T : Type ℓ} where
  abbrev pub empty : AgvIdMap T
  empty = []

  unfoldable pub size : AgvIdMap T → ℕ
  size [] = 0
  size ((manufacturer, inner) ∷ m) = JsMap.size inner + size m

  unfoldable pub get : AgvId → AgvIdMap T → Option T
  get id m = elim (JsMap.get id.manufacturer m) [
    | none ↦ none
    | some inner ↦ JsMap.get id.serial_number inner
  ]

  unfoldable pub set : AgvId → T → AgvIdMap T → AgvIdMap T
  set id value m = elim (JsMap.get id.manufacturer m) [
    | none ↦ JsMap.set id.manufacturer (JsMap.set id.serial_number value []) m
    | some inner ↦ JsMap.set id.manufacturer (JsMap.set id.serial_number value inner) m
  ]

  unfoldable pub delete : AgvId → AgvIdMap T → AgvIdMap T
  delete id m = elim (JsMap.get id.manufacturer m) [
    | none ↦ m
    | some inner ↦
        let rest = JsMap.delete id.serial_number inner in
        if eqb (JsMap.size rest) 0
        then JsMap.delete id.manufacturer m
        else JsMap.set id.manufacturer rest m
  ]

  -- The iterator: manufacturer by manufacturer, and the vehicles of each.
  unfoldable pub entries : AgvIdMap T → List (AgvId × T)
  entries [] = []
  entries ((manufacturer, inner) ∷ m) =
      map (λ b. (record { manufacturer = manufacturer; serial_number = b.0 }, b.1)) inner
      ++ entries m
