-- ===== src/Client/HeaderIds.antt =====
-- src/common/client.ts, `_nextHeaderId`: header IDs count the messages of each topic, as unsigned
-- 32-bit integers.
use text.Mathlib.TextEquality.{eq_iff}
use vda_5050_lib_2_0_0_js.Prelude.{
  ℕ, zero, suc, ◌+◌, ◌<◌, ◌%◌, ◌≡◌, String, String-Eq, ◌==◌, if◌then◌else◌, ltb, arith,
}
use vda_5050_lib_2_0_0_js.JsMap.Laws.{get-set}
use vda_5050_lib_2_0_0_js.Client.{Client, header_id_of, next_header_id, max_header_id}

-- The client after `n` messages of a topic.
unfoldable pub after_messages : ℕ → String → Client → Client
after_messages zero topic c = c
after_messages (suc n) topic c = (next_header_id topic (after_messages n topic c)).0

header_id_of-next :
    (topic other : String) (c : Client)
    → header_id_of other (next_header_id topic c).0 ≡ (
        if topic == other
        then (if ltb (header_id_of topic c) max_header_id then header_id_of topic c + 1 else 0)
        else header_id_of other c)
unfolding next_header_id
header_id_of-next topic other c = ground (
  arith,
  get-set other topic
      (if ltb (header_id_of topic c) max_header_id then header_id_of topic c + 1 else 0)
      c.header_ids,
)

-- After `n` messages of a topic, whose header ID was in range, the next one of this topic is `n`
-- further on, modulo 2 ^ 32, and that of every other topic is as before.
pub header_id_of-after_messages :
    (n : ℕ) (topic other : String) (c : Client)
    → header_id_of topic c < 4294967296
    → header_id_of other (after_messages n topic c)
      ≡ (if topic == other then (header_id_of topic c + n) % 4294967296 else header_id_of other c)
unfolding after_messages
header_id_of-after_messages zero topic other c h = ground (arith, eq_iff topic other)
header_id_of-after_messages (suc n) topic other c h = ground (
  arith,
  header_id_of-next topic other (after_messages n topic c),
  header_id_of-after_messages n topic other c h,
  header_id_of-after_messages n topic topic c h,
  eq_iff topic topic,
)
