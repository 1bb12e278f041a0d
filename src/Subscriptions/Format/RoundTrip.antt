-- ===== src/Subscriptions/Format/RoundTrip.antt =====
-- src/common/subscription-manager.ts: an MQTT topic that a client constructs is deconstructed into
-- the parts that it was made of.
use Prim.Native.String.{len}
use text.Mathlib.Text.{◌==◌}
use text.Mathlib.TextEquality.{eq_iff}
use text.Mathlib.TextPositions.{len-append}
use vda_5050_lib_2_0_0_js.Prelude.{
  ℕ, ◌<◌, ◌+◌, ◌≡◌, refl, ap, ◌∙◌, ◌≢◌, String, Option, none, some, false, List, length, arith, All,
  NoSlash, split_slash, join_slash, append, split-join, split_slash-NoSlash, length-split_slash, ok,
}
use vda_5050_lib_2_0_0_js.Mqtt.{get_utf8_bytes_count}
use vda_5050_lib_2_0_0_js.Mqtt.Utf8.{get_utf8_bytes_count_lem}
use vda_5050_lib_2_0_0_js.Subscriptions.Format.{
  Format, Placeholder, placeholder, index, assign, fill, level_at, compile, construct_mqtt_topic,
  deconstruct_mqtt_topic, sum_bytes, mqtt_topic_utf8_length, major_version_of,
}
use vda_5050_lib_2_0_0_js.Subscriptions.Format.Laws.{
  level_at-assign_self, level_at-assign_ne, level_at-index, index-Apart, assign-All, length-assign,
}

-- A part is recovered where its placeholder occurs in the format.
abbrev pub present : Option ℕ → String → Option String
present none v = none
present (some i) v = some v

ne_of_beq : (a b : String) → (a == b) ≡ false → a ≢ b
ne_of_beq a b h = ground (arith, eq_iff a b)

keep :
    (f : Format) (q p : Placeholder) (v : String) (levels : List String) {r : Option String}
    → (placeholder q == placeholder p) ≡ false
    → level_at levels (index f p) ≡ r
    → level_at (assign (index f q) v levels) (index f p) ≡ r
keep f q p v levels h e =
    level_at-assign_ne (index f q) (index f p) v levels (index-Apart f q p (ne_of_beq _ _ h)) ∙ e

recover :
    (f : Format) (p : Placeholder) (v : String) (levels : List String)
    → level_at levels (index f p) ≡ level_at f.levels (index f p)
    → level_at (assign (index f p) v levels) (index f p) ≡ present (index f p) v
recover f p v levels e =
    ground (arith, level_at-assign_self (index f p) v levels, level_at-index f p)

module _ (f : Format) (m s t : String) where
  fill_topic :
      level_at (fill f m s t f.levels) (index f Placeholder.for_topic)
      ≡ present (index f Placeholder.for_topic) t
  unfolding fill
  fill_topic = recover f Placeholder.for_topic t _ (
      keep f Placeholder.for_serial_number Placeholder.for_topic s _ refl (
        keep f Placeholder.for_manufacturer Placeholder.for_topic m _ refl (
          keep f Placeholder.for_version Placeholder.for_topic f.version _ refl
            (keep f Placeholder.for_interface Placeholder.for_topic f.interface _ refl refl))))

  fill_serial :
      level_at (fill f m s t f.levels) (index f Placeholder.for_serial_number)
      ≡ present (index f Placeholder.for_serial_number) s
  unfolding fill
  fill_serial = keep f Placeholder.for_topic Placeholder.for_serial_number t _ refl (
      recover f Placeholder.for_serial_number s _ (
        keep f Placeholder.for_manufacturer Placeholder.for_serial_number m _ refl (
          keep f Placeholder.for_version Placeholder.for_serial_number f.version _ refl (
            keep f Placeholder.for_interface Placeholder.for_serial_number f.interface _ refl
              refl))))

  fill_manufacturer :
      level_at (fill f m s t f.levels) (index f Placeholder.for_manufacturer)
      ≡ present (index f Placeholder.for_manufacturer) m
  unfolding fill
  fill_manufacturer = keep f Placeholder.for_topic Placeholder.for_manufacturer t _ refl (
      keep f Placeholder.for_serial_number Placeholder.for_manufacturer s _ refl (
        recover f Placeholder.for_manufacturer m _ (
          keep f Placeholder.for_version Placeholder.for_manufacturer f.version _ refl (
            keep f Placeholder.for_interface Placeholder.for_manufacturer f.interface _ refl
              refl))))

  fill-NoSlash :
      All NoSlash f.levels
      → NoSlash f.interface
      → NoSlash f.version
      → NoSlash m
      → NoSlash s
      → NoSlash t
      → All NoSlash (fill f m s t f.levels)
  unfolding fill
  fill-NoSlash h hi hv hm hs ht =
      assign-All NoSlash _ t _
        (assign-All NoSlash _ s _
          (assign-All NoSlash _ m _
            (assign-All NoSlash _ f.version _ (assign-All NoSlash _ f.interface _ h hi) hv) hm)
          hs)
        ht

  length-fill : length (fill f m s t f.levels) ≡ length f.levels
  unfolding fill
  length-fill = simp length-assign

-- The levels of a compiled format are those of the text, and hold its topic placeholder.
compile-eq-ok :
    (topic_format name version : String) (f : Format)
    → compile topic_format name version ≡ ok f
    → (f.levels ≡ split_slash topic_format)
      × (f.interface ≡ name)
      × (f.version ≡ major_version_of version)
      × (index f Placeholder.for_topic ≢ none)
unfolding compile index
compile-eq-ok topic_format name version f e =
    (ground arith, ground arith, ground arith, ground arith)

-- An MQTT topic constructed by a compiled format is deconstructed into the manufacturer and the
-- serial number where the format has their placeholders, and into the topic always, provided that
-- no part holds a slash.
pub deconstruct-construct :
    (topic_format name version : String) (f : Format) (m s t : String)
    → compile topic_format name version ≡ ok f
    → NoSlash name
    → NoSlash (major_version_of version)
    → NoSlash m
    → NoSlash s
    → NoSlash t
    → deconstruct_mqtt_topic f (construct_mqtt_topic f m s t) ≡ record {
      manufacturer = present (index f Placeholder.for_manufacturer) m;
      serial_number = present (index f Placeholder.for_serial_number) s;
      topic = some t;
    }
unfolding deconstruct_mqtt_topic construct_mqtt_topic
deconstruct-construct topic_format name version f m s t e hn hv hm hs ht =
    let (levels, interface, version', occurs) = compile-eq-ok topic_format name version f e in
    let parts = fill f m s t f.levels in
    let plain : All NoSlash parts =
      fill-NoSlash f m s t (rw levels (split_slash-NoSlash topic_format)) (rw interface hn)
        (rw version' hv) hm hs ht in
    let some_part : 0 < length parts =
      omega (arith, length-fill f m s t, ap length levels, length-split_slash topic_format) in
    let back : split_slash (join_slash parts) ≡ parts = split-join parts some_part plain in
    ground (arith, back, fill_manufacturer f m s t, fill_serial f m s t, fill_topic f m s t)

sum_bytes_lem :
    (prev : ℕ) (parts : List String) → sum_bytes prev parts ≡ prev + len (join_slash parts)
unfolding sum_bytes join_slash
sum_bytes_lem prev List.[] = omega arith
sum_bytes_lem prev (List.◌∷◌ s List.[]) = omega (arith, get_utf8_bytes_count_lem s)
sum_bytes_lem prev (List.◌∷◌ s (List.◌∷◌ t parts)) = omega (
  arith,
  get_utf8_bytes_count_lem s,
  len-append s (append "/" (join_slash (List.◌∷◌ t parts))),
  len-append "/" (join_slash (List.◌∷◌ t parts)),
  sum_bytes_lem (prev + get_utf8_bytes_count s + 1) (List.◌∷◌ t parts),
)

-- The length computed level by level is the UTF-8 length of the topic that is constructed.
mqtt_topic_utf8_length_lem :
    (f : Format) (m s t : String)
    → mqtt_topic_utf8_length f m s t ≡ len (construct_mqtt_topic f m s t)
unfolding mqtt_topic_utf8_length construct_mqtt_topic
mqtt_topic_utf8_length_lem f m s t = omega (arith, sum_bytes_lem 0 (fill f m s t f.levels))
