-- ===== src/Subscriptions/Format.antt =====
-- src/common/subscription-manager.ts, `_compileMqttTopic`: MQTT topics from a format with
-- placeholders, and back. The `levels` array that the source's closures share is the field `levels`.
pub mod Laws
pub mod RoundTrip
use Prim.Native.Char.{Char, code}
use Prim.Native.String.{[], ◌∷◌}
use text.Mathlib.Text.{find?}
use mathlib.Core.List
use vda_5050_lib_2_0_0_js.Prelude.{
  ℕ, zero, suc, ◌+◌, String, Option, none, some, Bool, true, false, not, ◌&&◌, ◌||◌, String-Eq,
  Option-Eq, ℕ-Eq, ◌==◌, eqb, if◌then◌else◌, List, map, any, find_index, get_elem?, length, Outcome,
  ok, err, ◌>>=◌, ◌>>◌, throw_if, split_slash, join_slash, append,
}
use vda_5050_lib_2_0_0_js.Mqtt.{get_utf8_bytes_count}

pub data FormatError : Type 0 where
  invalid_placeholder : String → FormatError
  missing_topic : FormatError

pub data Placeholder : Type 0 where
  for_interface for_version for_manufacturer for_serial_number for_topic : Placeholder

abbrev pub placeholder : Placeholder → String
placeholder Placeholder.for_interface = "%interfaceName%"
placeholder Placeholder.for_version = "%majorVersion%"
placeholder Placeholder.for_manufacturer = "%manufacturer%"
placeholder Placeholder.for_serial_number = "%serialNumber%"
placeholder Placeholder.for_topic = "%topic%"

abbrev pub placeholders : List Placeholder
placeholders = List.◌∷◌ Placeholder.for_interface (
    List.◌∷◌ Placeholder.for_version (
      List.◌∷◌ Placeholder.for_manufacturer
        (List.◌∷◌ Placeholder.for_serial_number (List.◌∷◌ Placeholder.for_topic List.[]))))

abbrev is_dot : Char → Bool
is_dot c = eqb (code c) b'.'

-- `s.substring(0, s.indexOf("."))`, which is empty where there is no dot.
before_dot : String → Option String
before_dot [] = none
before_dot (c ∷ s) =
    let rest = before_dot s in
    if is_dot c then some "" else elim rest [ none ↦ none | some r ↦ some (c ∷ r) ]

unfoldable pub major_version_of : String → String
unfolding before_dot
major_version_of version = elim (before_dot version) [ none ↦ "v" | some n ↦ append "v" n ]

-- `levels.indexOf(p)`; -1 is `none`.
unfoldable pub index_of : String → List String → Option ℕ
index_of p List.[] = none
index_of p (List.◌∷◌ l levels) =
    let rest = index_of p levels in
    if l == p then some 0 else elim rest [ none ↦ none | some i ↦ some (suc i) ]

abbrev pub contains : String → String → Bool
contains l p = elim (find? l p) [ none ↦ false | some i ↦ true ]

-- `levels.some((l, li) => l.search(p) !== -1 && li !== index)`, from position `li` on.
unfoldable pub misplaced_from : ℕ → String → Option ℕ → List String → Bool
misplaced_from li p index List.[] = false
misplaced_from li p index (List.◌∷◌ l levels) =
    contains l p && not (some li == index) || misplaced_from (li + 1) p index levels

pub record Format : Type 0 where
  pub levels : List String
  pub interface : String
  pub version : String

unfoldable pub index : Format → Placeholder → Option ℕ
index f p = index_of (placeholder p) f.levels

unfoldable pub check_placeholders : List String → List Placeholder → Outcome FormatError (Unit {0})
check_placeholders levels List.[] = ok tt
check_placeholders levels (List.◌∷◌ p ps) = do
  throw_if (misplaced_from 0 (placeholder p) (index_of (placeholder p) levels) levels)
      (invalid_placeholder (placeholder p))
  check_placeholders levels ps

abbrev is_none {ℓ} : {A : Type ℓ} → Option A → Bool
is_none none = true
is_none (some a) = false

unfoldable pub compile : String → String → String → Outcome FormatError Format
compile topic_format interface_name protocol_version = do
  let levels = split_slash topic_format
  check_placeholders levels placeholders
  throw_if (is_none (index_of (placeholder Placeholder.for_topic) levels)) missing_topic
  ok (record {
    levels = levels;
    interface = interface_name;
    version = major_version_of protocol_version;
  })

abbrev pub set : List String → ℕ → String → List String
set List.[] i v = List.[]
set (List.◌∷◌ x xs) zero v = List.◌∷◌ v xs
set (List.◌∷◌ x xs) (suc i) v = List.◌∷◌ x (set xs i v)

-- `levels[index] = v`; an assignment at -1 makes a property that `join` does not see.
unfoldable pub assign : Option ℕ → String → List String → List String
assign none v levels = levels
assign (some i) v levels = set levels i v

-- The five assignments that both closures begin with, on the array as it stands.
unfoldable pub fill : Format → String → String → String → List String → List String
fill f manufacturer serial_number topic levels = assign (index f Placeholder.for_topic) topic (
    assign (index f Placeholder.for_serial_number) serial_number (
      assign (index f Placeholder.for_manufacturer) manufacturer (
        assign (index f Placeholder.for_version) f.version
          (assign (index f Placeholder.for_interface) f.interface levels))))

unfoldable pub construct_mqtt_topic : Format → String → String → String → String
construct_mqtt_topic f manufacturer serial_number topic =
    join_slash (fill f manufacturer serial_number topic f.levels)

-- The levels that stand for manufacturer, serial number and topic; `undefined` is `none`.
pub record Deconstructed : Type 0 where
  pub manufacturer : Option String
  pub serial_number : Option String
  pub topic : Option String

abbrev pub level_at : List String → Option ℕ → Option String
level_at levels none = none
level_at levels (some i) = get_elem? levels i

unfoldable pub deconstruct_mqtt_topic : Format → String → Deconstructed
deconstruct_mqtt_topic f mqtt_topic =
    let levels = split_slash mqtt_topic in
    record {
      manufacturer = level_at levels (index f Placeholder.for_manufacturer);
      serial_number = level_at levels (index f Placeholder.for_serial_number);
      topic = level_at levels (index f Placeholder.for_topic);
    }

-- The `reduce`: the bytes of the levels and of a slash after each but the last.
unfoldable pub sum_bytes : ℕ → List String → ℕ
sum_bytes prev List.[] = prev
sum_bytes prev (List.◌∷◌ cur List.[]) = prev + get_utf8_bytes_count cur + 0
sum_bytes prev (List.◌∷◌ cur (List.◌∷◌ next rest)) =
    sum_bytes (prev + get_utf8_bytes_count cur + 1) (List.◌∷◌ next rest)

unfoldable pub mqtt_topic_utf8_length : Format → String → String → String → ℕ
mqtt_topic_utf8_length f manufacturer serial_number topic =
    sum_bytes 0 (fill f manufacturer serial_number topic f.levels)

-- `getMqttTopic` and `getMqttTopicUtf8Length`: an absent part is the MQTT wildcard.
abbrev pub or_wildcard : Option String → String
or_wildcard none = "+"
or_wildcard (some s) = s

unfoldable pub get_mqtt_topic : Format → Option String → Option String → Option String → String
get_mqtt_topic f topic manufacturer serial_number =
    construct_mqtt_topic f (or_wildcard manufacturer) (or_wildcard serial_number)
      (or_wildcard topic)

unfoldable pub get_mqtt_topic_utf8_length :
    Format → Option String → Option String → Option String → ℕ
get_mqtt_topic_utf8_length f topic manufacturer serial_number =
    mqtt_topic_utf8_length f (or_wildcard manufacturer) (or_wildcard serial_number)
      (or_wildcard topic)
