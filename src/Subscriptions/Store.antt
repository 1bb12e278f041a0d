-- ===== src/Subscriptions/Store.antt =====
-- src/common/subscription-manager.ts, class SubscriptionManager: subscriptions by topic, serial
-- number and manufacturer. `_subscriptionIds` refers to an innermost map; here it holds the path of
-- that map, which is never replaced while an ID refers to it. New IDs are arguments.
pub mod Lookup
pub mod Laws
pub mod Removal
pub mod Consistency
pub mod Matching
pub mod Delivery
use vda_5050_lib_2_0_0_js.Prelude.{
  ℕ, String, Option, none, some, Bool, true, false, not, String-Eq, Option-Eq, Eq, ◌==◌, ◌&&◌, eqb,
  if◌then◌else◌, List, [], ◌∷◌, ◌++◌, Outcome, ok, err, ◌>>=◌, ◌>>◌, ◌↔◌, ◌≡◌, arith,
  option_beq_iff, option_beq, ltb, map,
}
use vda_5050_lib_2_0_0_js.JsMap
use vda_5050_lib_2_0_0_js.JsMap.{JsMap}
use vda_5050_lib_2_0_0_js.Types.{AgvId, AgvIdPattern}
use vda_5050_lib_2_0_0_js.Mqtt.{TopicError, assert_mqtt_topic_utf8_count}
use vda_5050_lib_2_0_0_js.Subscriptions.Format.{
  Format, Deconstructed, get_mqtt_topic, get_mqtt_topic_utf8_length, deconstruct_mqtt_topic,
}

-- `undefined` stands for a wildcard.
pub record SubscriptionPath : Type 0 where
  pub topic : Option String
  pub serial_number : Option String
  pub manufacturer : Option String

abbrev pub path_beq : SubscriptionPath → SubscriptionPath → Bool
path_beq a b =
    a.topic == b.topic && (a.serial_number == b.serial_number && a.manufacturer == b.manufacturer)

module _ {ℓ} (H : Type ℓ) where
  -- An innermost map, with the property `mqttTopic` that the source hangs on it.
  pub record Leaf : Type ℓ where
    pub mqtt_topic : Option String
    pub handlers : JsMap String H

  abbrev pub ByManufacturer : Type ℓ
  ByManufacturer = JsMap (Option String) Leaf

  abbrev pub BySerialNumber : Type ℓ
  BySerialNumber = JsMap (Option String) ByManufacturer

  abbrev pub ByTopic : Type ℓ
  ByTopic = JsMap (Option String) BySerialNumber

  pub record Store : Type ℓ where
    pub format : Format
    pub subscriptions : ByTopic
    pub subscription_ids : JsMap String SubscriptionPath

pub record Added : Type 0 where
  pub id : String
  pub mqtt_topic : Option String
  pub requires_subscribe : Bool

pub record Removed : Type 0 where
  pub mqtt_topic : Option String
  pub requires_unsubscribe : Bool

-- `map.get(key)`, or a new map where there is none.
abbrev pub get_or_new {ℓ} : {V : Type ℓ} → Option String → JsMap (Option String) (List V) → List V
get_or_new key m = elim (JsMap.get key m) [ none ↦ [] | some inner ↦ inner ]

abbrev pub or_else : Option String → Option String → Option String
or_else none s = s
or_else (some s) _ = some s

module _ {ℓ} {H : Type ℓ} where
  unfoldable pub new : Format → Store H
  new format = record { format = format; subscriptions = []; subscription_ids = [] }

  unfoldable pub leaf_at : SubscriptionPath → ByTopic H → Option (Leaf H)
  leaf_at p m = elim (JsMap.get p.topic m) [
    | none ↦ none
    | some by_serial ↦ elim (JsMap.get p.serial_number by_serial) [
      | none ↦ none
      | some by_manufacturer ↦ JsMap.get p.manufacturer by_manufacturer
    ]
  ]

  -- The `while` loop over the path with a new innermost map at its end: maps on the way are
  -- created where they are missing.
  unfoldable pub put_leaf : SubscriptionPath → Leaf H → ByTopic H → ByTopic H
  put_leaf p leaf m =
      let by_serial = get_or_new p.topic m in
      let by_manufacturer = get_or_new p.serial_number by_serial in
      JsMap.set p.topic
        (JsMap.set p.serial_number (JsMap.set p.manufacturer leaf by_manufacturer) by_serial) m

  unfoldable pub leaf_or_new : SubscriptionPath → ByTopic H → Leaf H
  leaf_or_new p m = elim (leaf_at p m) [
    | none ↦ record { mqtt_topic = none; handlers = [] }
    | some leaf ↦ leaf
  ]

  unfoldable pub clear : Store H → Store H
  clear s = record s { subscriptions = []; subscription_ids = [] }

  -- `map.set(id, handler)`, and `mqttTopic` on the first handler.
  unfoldable pub enter : String → H → String → Leaf H → Leaf H
  enter id handler mqtt_topic leaf =
      let handlers = JsMap.set id handler leaf.handlers in
      if eqb (JsMap.size handlers) 1
      then record { mqtt_topic = some mqtt_topic; handlers = handlers }
      else record { mqtt_topic = leaf.mqtt_topic; handlers = handlers }

  unfoldable pub add :
      String → Option String → AgvIdPattern → H → Store H → Outcome TopicError (Store H × Added)
  add id topic subject handler s = do
    assert_mqtt_topic_utf8_count
        (get_mqtt_topic_utf8_length s.format topic subject.manufacturer subject.serial_number)
    let path : SubscriptionPath = record {
      topic = topic;
      serial_number = subject.serial_number;
      manufacturer = subject.manufacturer;
    }
    let leaf =
        enter id handler (get_mqtt_topic s.format topic subject.manufacturer subject.serial_number)
          (leaf_or_new path s.subscriptions)
    ok (
      record s {
        subscriptions = put_leaf path leaf s.subscriptions;
        subscription_ids = JsMap.set id path s.subscription_ids;
      },
      record {
        id = id;
        mqtt_topic = leaf.mqtt_topic;
        requires_subscribe = eqb (JsMap.size leaf.handlers) 1;
      },
    )

  unfoldable pub remove : String → Store H → Store H × Option Removed
  remove id s = elim (JsMap.get id s.subscription_ids) [
    | none ↦ (s, none)
    | some path ↦
        let leaf = leaf_or_new path s.subscriptions in
        let handlers = JsMap.delete id leaf.handlers in
        if not (JsMap.has id leaf.handlers) then (s, none) else (
          record s {
            subscriptions = put_leaf path (record leaf { handlers = handlers }) s.subscriptions;
          },
          some (record {
            mqtt_topic = leaf.mqtt_topic;
            requires_unsubscribe = eqb (JsMap.size handlers) 0;
          }),
        )
  ]

  -- The walk of `getAll`, a level at a time. An innermost map always has its `mqttTopic`.
  unfoldable pub topics_of_leaves : ByManufacturer H → List String
  topics_of_leaves [] = []
  topics_of_leaves ((k, leaf) ∷ m) =
      (elim leaf.mqtt_topic [
        | none ↦ []
        | some topic ↦ if ltb 0 (JsMap.size leaf.handlers) then topic ∷ [] else []
      ])
      ++ topics_of_leaves m

  unfoldable pub topics_by_serial : BySerialNumber H → List String
  topics_by_serial [] = []
  topics_by_serial ((k, leaves) ∷ m) = topics_of_leaves leaves ++ topics_by_serial m

  unfoldable pub topics_by_topic : ByTopic H → List String
  topics_by_topic [] = []
  topics_by_topic ((k, inner) ∷ m) = topics_by_serial inner ++ topics_by_topic m

  unfoldable pub get_all : Store H → List String
  get_all s = topics_by_topic s.subscriptions

  -- `_findInternal`, a level at a time: the key itself first, then the wildcard.
  abbrev pub follow {κ} : {V : Type κ} → (V → List (String × H)) → Option V → List (String × H)
  follow visit none = []
  follow visit (some v) = visit v

  abbrev pub find_level {κ} :
      {V : Type κ}
      → Option String
      → (V → List (String × H))
      → JsMap (Option String) V
      → List (String × H)
  find_level key visit m = follow visit (JsMap.get key m) ++ follow visit (JsMap.get none m)

  unfoldable pub find_internal : SubscriptionPath → ByTopic H → List (String × H)
  find_internal p =
      find_level p.topic
        (find_level p.serial_number (find_level p.manufacturer (λ leaf. leaf.handlers)))

  -- The subject comes from the message and may lack a part.
  unfoldable pub find : String → AgvIdPattern → Store H → List (String × H) × Option String
  find mqtt_topic subject s =
      let path = deconstruct_mqtt_topic s.format mqtt_topic in
      (
        find_internal
            (record {
              topic = path.topic;
              serial_number = or_else path.serial_number subject.serial_number;
              manufacturer = or_else path.manufacturer subject.manufacturer;
            })
            s.subscriptions,
        path.topic,
      )
