-- ===== src/Mqtt.antt =====
-- src/common/mqtt-utils.ts. A text is read through its UTF-16 code units, as `charCodeAt` reads it.
pub mod Utf8
use Prim.Native.Char.{Char, code}
use Prim.Native.String.{[], ◌∷◌}
use vda_5050_lib_2_0_0_js.Prelude.{
  ℕ, ◌+◌, ◌-◌, ◌*◌, ◌/◌, ◌%◌, String, List, ◌++◌, ltb, leb, if◌then◌else◌, length, Outcome,
  throw_if, ok,
}
use mathlib.Core.List

abbrev pub max_mqtt_topic_utf8_count : ℕ
max_mqtt_topic_utf8_count = 65535

-- The code units of a character: a surrogate pair beyond the basic plane.
abbrev pub char_units : ℕ → List ℕ
char_units c =
    if ltb c 0x10000
    then List.◌∷◌ c List.[]
    else List.◌∷◌ (0xd800 + (c - 0x10000) / 0x400)
        (List.◌∷◌ (0xdc00 + (c - 0x10000) % 0x400) List.[])

unfoldable pub utf16 : String → List ℕ
utf16 [] = List.[]
utf16 (c ∷ s) = char_units (code c) ++ utf16 s

-- What one round of the loop adds to `count`.
unfoldable pub unit_bytes : ℕ → ℕ
unit_bytes code =
    if leb code 0x007f
    then 1
    else if leb code 0x07ff
    then 2
    else if leb code 0xd7ff
    then 3
    else if leb code 0xdfff
    then 2
    else 3

unfoldable pub utf8_bytes_from : ℕ → List ℕ → ℕ
utf8_bytes_from count List.[] = count
utf8_bytes_from count (List.◌∷◌ code str) = utf8_bytes_from (count + unit_bytes code) str

unfoldable pub get_utf8_bytes_count : String → ℕ
unfolding utf8_bytes_from utf16 unit_bytes
get_utf8_bytes_count str = utf8_bytes_from 0 (utf16 str)

pub data TopicError : Type 0 where
  topic_too_long : TopicError

unfoldable pub assert_mqtt_topic_utf8_count : ℕ → Outcome TopicError (Unit {0})
assert_mqtt_topic_utf8_count utf8_count =
    throw_if (ltb max_mqtt_topic_utf8_count utf8_count) topic_too_long

unfoldable pub assert_mqtt_topic_length : String → Outcome TopicError (Unit {0})
unfolding assert_mqtt_topic_utf8_count
assert_mqtt_topic_length mqtt_topic =
    if ltb max_mqtt_topic_utf8_count (length (utf16 mqtt_topic) * 4)
    then assert_mqtt_topic_utf8_count (get_utf8_bytes_count mqtt_topic)
    else ok tt
