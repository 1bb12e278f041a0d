-- ===== src/Mqtt/Utf8.antt =====
-- src/common/mqtt-utils.ts: the byte count and UTF-8.
use Prim.Native.Char.{char, IsScalar, len_utf8_def, width}
use Prim.Native.Nat.{compare}
use Prim.Native.String.{[], ◌∷◌, len}
use Prim.Native.String.len
use vda_5050_lib_2_0_0_js.Prelude.{
  ℕ, ◌+◌, ◌*◌, ◌≤◌, ◌≡◌, refl, ◌↔◌, String, List, ◌++◌, arith, length, ok,
}
use vda_5050_lib_2_0_0_js.Mqtt.{
  char_units, utf16, unit_bytes, utf8_bytes_from, get_utf8_bytes_count, assert_mqtt_topic_length,
  max_mqtt_topic_utf8_count,
}

bytes_of : List ℕ → ℕ
bytes_of List.[] = 0
bytes_of (List.◌∷◌ u us) = unit_bytes u + bytes_of us

utf8_bytes_from_lem : (count : ℕ) (us : List ℕ) → utf8_bytes_from count us ≡ count + bytes_of us
unfolding utf8_bytes_from bytes_of
utf8_bytes_from_lem count List.[] = omega arith
utf8_bytes_from_lem count (List.◌∷◌ u us) =
    omega (arith, utf8_bytes_from_lem (count + unit_bytes u) us)

bytes_of-append : (us vs : List ℕ) → bytes_of (us ++ vs) ≡ bytes_of us + bytes_of vs
unfolding bytes_of
bytes_of-append List.[] vs = omega arith
bytes_of-append (List.◌∷◌ u us) vs = omega (arith, bytes_of-append us vs)

width_lem :
    (n : ℕ)
    → IsScalar n
    → bytes_of (char_units n) ≡ width (compare n 128) (compare n 2048) (compare n 65536)
unfolding bytes_of unit_bytes
width_lem n h = ground arith

bytes_of-utf16 : (s : String) → bytes_of (utf16 s) ≡ len s
unfolding utf16 bytes_of
bytes_of-utf16 [] = refl
bytes_of-utf16 (char n h ∷ s) = omega (
  arith,
  bytes_of-append (char_units n) (utf16 s),
  width_lem n h,
  len_utf8_def (char n h),
  len.cons (char n h) s,
  bytes_of-utf16 s,
)

-- The byte count of a text is its length in UTF-8.
pub get_utf8_bytes_count_lem : (s : String) → get_utf8_bytes_count s ≡ len s
unfolding get_utf8_bytes_count
get_utf8_bytes_count_lem s = omega (arith, utf8_bytes_from_lem 0 (utf16 s), bytes_of-utf16 s)

unit_bytes-le : (u : ℕ) → unit_bytes u ≤ 3
unfolding unit_bytes
unit_bytes-le u = ground arith

bytes_of-le : (us : List ℕ) → bytes_of us ≤ length us * 3
unfolding bytes_of
bytes_of-le List.[] = omega arith
bytes_of-le (List.◌∷◌ u us) = omega (arith, unit_bytes-le u, bytes_of-le us)

-- A topic passes exactly when its UTF-8 length is within the limit; the shortcut for topics with
-- few code units never lets a longer one through.
pub assert_mqtt_topic_length_iff :
    (s : String) → (assert_mqtt_topic_length s ≡ ok tt) ↔ (len s ≤ max_mqtt_topic_utf8_count)
unfolding assert_mqtt_topic_length
assert_mqtt_topic_length_iff s =
    ground (arith, bytes_of-utf16 s, bytes_of-le (utf16 s), get_utf8_bytes_count_lem s)
