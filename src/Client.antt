-- ===== src/Client.antt =====
-- src/common/client.ts: publishing on a topic and the checks of topics and vehicles. `now` is the
-- clock as text; `check_object` is the message of the generated or registered validator's error, if
-- it finds one. The MQTT client is a log of what it is asked to publish.
pub mod Directions
pub mod HeaderIds
pub mod Publishing
pub mod Tracking
pub mod Subscribing
use Prim.Native.Char.{Char, code}
use vda_5050_lib_2_0_0_js.Prelude.{
  ℕ, ◌+◌, String, Option, none, some, Bool, true, false, not, ◌&&◌, ◌||◌, List, [], ◌∷◌, ◌++◌, ltb,
  leb, eqb, if◌then◌else◌, String-Eq, ◌==◌, every_char, Outcome, ok, err, ◌>>=◌, ◌>>◌, throw_if,
}
use vda_5050_lib_2_0_0_js.JsMap
use vda_5050_lib_2_0_0_js.JsMap.{JsMap}
use vda_5050_lib_2_0_0_js.Types.{
  AgvId, AgvIdPattern, Topic, topic_name, core_topics, Header, Headerless, Vda5050Object,
  is_extension_topic,
}
use vda_5050_lib_2_0_0_js.Mqtt.{assert_mqtt_topic_length}
use vda_5050_lib_2_0_0_js.Subscriptions.Format.{Format, get_mqtt_topic}

pub data ClientError : Type 0 where
  client_not_started topic_empty topic_level_invalid extension_not_registered extension_not_inbound
        extension_not_outbound manufacturer_empty manufacturer_missing manufacturer_invalid
        serial_number_empty serial_number_missing serial_number_invalid mqtt_topic_too_long :
      ClientError
  direction_invalid : Topic → Bool → ClientError
  object_invalid : String → ClientError

-- `ILLEGAL_TOPIC_LEVEL_CHARS_REGEX`: NUL, plus, hash and slash.
unfoldable pub is_legal_topic_char : Char → Bool
is_legal_topic_char c =
    not (eqb (code c) 0 || (eqb (code c) b'+' || (eqb (code c) b'#' || eqb (code c) b'/')))

abbrev pub is_valid_topic_level : String → Bool
is_valid_topic_level name = every_char is_legal_topic_char name

abbrev between : ℕ → ℕ → ℕ → Bool
between low high n = leb low n && leb n high

-- A-Z a-z 0-9 _ . : -
unfoldable pub is_serial_number_char : Char → Bool
is_serial_number_char c =
    between b'A' b'Z' (code c)
    || (between b'a' b'z' (code c)
        || (between b'0' b'9' (code c)
            || (eqb (code c) b'_'
                || (eqb (code c) b'.' || (eqb (code c) b':' || eqb (code c) b'-')))))

abbrev is_missing : Option String → Bool
is_missing none = true
is_missing (some s) = s == ""

abbrev is_empty_text : Option String → Bool
is_empty_text none = false
is_empty_text (some s) = s == ""

abbrev passes : (String → Bool) → Option String → Bool
passes p none = true
passes p (some s) = p s

unfoldable pub validate_agv_id : AgvIdPattern → Bool → Outcome ClientError (Unit {0})
validate_agv_id id for_subscription = do
  throw_if (is_empty_text id.manufacturer) manufacturer_empty
  throw_if (not for_subscription && is_missing id.manufacturer) manufacturer_missing
  throw_if (not (passes is_valid_topic_level id.manufacturer)) manufacturer_invalid
  throw_if (is_empty_text id.serial_number) serial_number_empty
  throw_if (not for_subscription && is_missing id.serial_number) serial_number_missing
  throw_if
      (not (passes is_valid_topic_level id.serial_number)
        || not (passes (every_char is_serial_number_char) id.serial_number))
      serial_number_invalid

-- How an extension topic is registered.
pub record ExtensionTopic : Type 0 where
  pub as_inbound : Bool
  pub as_outbound : Bool

pub record Publication : Type 0 where
  pub mqtt_topic : String
  pub object : Vda5050Object
  pub retain : Bool

pub record Client : Type 0 where
  pub is_started : Bool
  pub is_connected : Bool
  pub format : Format
  pub header_ids : JsMap String ℕ
  pub extension_topics : JsMap String ExtensionTopic
  pub published : List Publication

pub record PublishOptions : Type 0 where
  pub retain_message : Bool
  pub drop_if_offline : Bool

abbrev pub max_header_id : ℕ
max_header_id = 0xffffffff

abbrev pub header_id_of : String → Client → ℕ
header_id_of topic c = elim (JsMap.get topic c.header_ids) [ none ↦ 0 | some id ↦ id ]

unfoldable pub next_header_id : String → Client → Client × ℕ
next_header_id topic c =
    let id = header_id_of topic c in
    (
      record c {
        header_ids = JsMap.set topic (if ltb id max_header_id then id + 1 else 0) c.header_ids;
      },
      id,
    )

abbrev core_topic_of : String → List Topic → Option Topic
core_topic_of name [] = none
core_topic_of name (t ∷ ts) =
    let rest = core_topic_of name ts in if topic_name t == name then some t else rest

abbrev given_or {ℓ} : {A : Type ℓ} → Option A → A → A
given_or none a = a
given_or (some b) a = b

-- The checks that `validateTopicDirection` of a subclass takes part in.
module _ (check_direction : Topic → Bool → Outcome ClientError (Unit {0})) where
  unfoldable pub validate_topic :
      JsMap String ExtensionTopic → String → Bool → Outcome ClientError (Unit {0})
  validate_topic extensions topic for_subscription = do
    throw_if (topic == "") topic_empty
    throw_if (not (is_valid_topic_level topic)) topic_level_invalid
    elim (core_topic_of topic core_topics) [
      | some core ↦ check_direction core for_subscription
      | none ↦ elim (JsMap.get topic extensions) [
        | none ↦ err extension_not_registered
        | some e ↦ do
          throw_if (for_subscription && not e.as_inbound) extension_not_inbound
          throw_if (not for_subscription && not e.as_outbound) extension_not_outbound
      ]
    ]

  module _ (protocol_version : String) (check_object : String → Vda5050Object → Option String) where
    unfoldable pub with_object_header : String → AgvId → Headerless → String → ℕ → Vda5050Object
    with_object_header topic subject object now header_id = record {
      header = record {
        header_id = header_id;
        manufacturer = subject.manufacturer;
        serial_number = subject.serial_number;
        timestamp = given_or object.timestamp now;
        version = protocol_version;
      };
      content = object.content;
    }

    abbrev validated : String → Vda5050Object → Outcome ClientError (Unit {0})
    validated topic object = elim (check_object topic object) [
      | none ↦ ok tt
      | some message ↦ err (object_invalid message)
    ]

    abbrev length_checked : String → Outcome ClientError (Unit {0})
    length_checked mqtt_topic = elim (assert_mqtt_topic_length mqtt_topic) [
      | ok x ↦ ok tt
      | err e ↦ err mqtt_topic_too_long
    ]

    abbrev pattern_of : AgvId → AgvIdPattern
    pattern_of id = record {
      manufacturer = some id.manufacturer;
      serial_number = some id.serial_number;
    }

    -- What is checked before a header ID is taken.
    unfoldable pub check_publish : String → AgvId → Client → Outcome ClientError (Unit {0})
    check_publish topic subject c = do
      throw_if (not c.is_started) client_not_started
      validate_topic c.extension_topics topic false
      validate_agv_id (pattern_of subject) false

    -- The message goes to the MQTT client, unless it is to be dropped while offline.
    unfoldable pub send :
        String → Vda5050Object → PublishOptions → Client → Client × Option Vda5050Object
    send mqtt_topic object options c =
        if not c.is_connected && options.drop_if_offline then (c, none) else (
          record c {
            published =
                c.published
                ++ record {
                  mqtt_topic = mqtt_topic;
                  object = object;
                  retain = options.retain_message;
                }
                  ∷ [];
          },
          some object,
        )

    -- The header ID that a refused message took is not given back.
    unfoldable pub publish_topic :
        String
        → AgvId
        → Headerless
        → PublishOptions
        → String
        → Client
        → Client × Outcome ClientError (Option Vda5050Object)
    publish_topic topic subject object options now c = elim (check_publish topic subject c) [
      | err e ↦ (c, err e)
      | ok x ↦
          let (c', id) = next_header_id topic c in
          let full = with_object_header topic subject object now id in
          let mqtt_topic =
            get_mqtt_topic c.format (some topic) (some subject.manufacturer)
              (some subject.serial_number) in
          elim (validated topic full >> length_checked mqtt_topic) [
            | err e ↦ (c', err e)
            | ok y ↦ let (c'', result) = send mqtt_topic full options c' in (c'', ok result)
          ]
    ]
