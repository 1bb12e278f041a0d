-- ===== src/Tests/Broker.antt =====
-- src/common/subscription-manager.ts at a concrete format and subscription.
use vda_5050_lib_2_0_0_js.Prelude.{
  ◌≡◌, refl, String, ◌==◌, if◌then◌else◌, none, some, [], ◌∷◌, true, ok, ℕ, split_slash, String-Eq,
  is_slash, join_slash,
}
use vda_5050_lib_2_0_0_js.JsMap
use vda_5050_lib_2_0_0_js.Types.{AgvIdPattern}
use vda_5050_lib_2_0_0_js.Mqtt.{
  assert_mqtt_topic_utf8_count, get_utf8_bytes_count, utf8_bytes_from, utf16, unit_bytes,
}
use vda_5050_lib_2_0_0_js.Subscriptions.Format.{
  Format, compile, construct_mqtt_topic, deconstruct_mqtt_topic, fill, mqtt_topic_utf8_length,
  get_mqtt_topic, get_mqtt_topic_utf8_length, sum_bytes, assign, index, index_of,
  check_placeholders, misplaced_from, major_version_of,
}
use vda_5050_lib_2_0_0_js.Subscriptions.Format.RoundTrip.{deconstruct-construct}
use vda_5050_lib_2_0_0_js.Subscriptions.Store.{
  SubscriptionPath, Store, Added, new, add, remove, clear, enter, leaf_or_new, leaf_at, put_leaf,
  find_internal,
}
use vda_5050_lib_2_0_0_js.Subscriptions.Store.Lookup.{handlers_at, handlers_of, find_internal_lem}
use vda_5050_lib_2_0_0_js.Subscriptions.Store.Consistency.{
  IsConsistent, clear-IsConsistent, add-IsConsistent, remove-IsConsistent,
}
use vda_5050_lib_2_0_0_js.Subscriptions.Store.Matching.{complete}

abbrev pub format : Format
format = record {
  levels =
      "%interfaceName%" ∷ "%majorVersion%" ∷ "%manufacturer%" ∷ "%serialNumber%" ∷ "%topic%" ∷ [];
  interface = "uagv";
  version = "v2";
}

pub format_compiled :
    compile "%interfaceName%/%majorVersion%/%manufacturer%/%serialNumber%/%topic%" "uagv" "2.0.0"
    ≡ ok format
unfolding compile split_slash check_placeholders misplaced_from index_of major_version_of is_slash
format_compiled = refl

deconstruct-construct_example :
    deconstruct_mqtt_topic format (construct_mqtt_topic format "RobotCompany" "001" "order")
    ≡ record {
      manufacturer = some "RobotCompany";
      serial_number = some "001";
      topic = some "order";
    }
unfolding index index_of major_version_of is_slash
deconstruct-construct_example =
    deconstruct-construct "%interfaceName%/%majorVersion%/%manufacturer%/%serialNumber%/%topic%"
      "uagv" "2.0.0" format "RobotCompany" "001" "order" format_compiled refl refl refl refl refl

abbrev pub start : Store ℕ
start = new format

abbrev pub wildcard : AgvIdPattern
wildcard = record { manufacturer = some "RobotCompany"; serial_number = none }

abbrev wildcard_path : SubscriptionPath
wildcard_path = record {
  topic = some "state";
  serial_number = none;
  manufacturer = some "RobotCompany";
}

abbrev pub subscribed : Store ℕ
subscribed = record {
  format = format;
  subscriptions =
      (
        some "state",
        (
          none,
          (
            some "RobotCompany",
            record { mqtt_topic = some "uagv/v2/RobotCompany/+/state"; handlers = ("id1", 7) ∷ [] },
          )
              ∷ [],
        )
            ∷ [],
      )
      ∷ [];
  subscription_ids = ("id1", wildcard_path) ∷ [];
}

abbrev pub first_added : Added
first_added = record {
  id = "id1";
  mqtt_topic = some "uagv/v2/RobotCompany/+/state";
  requires_subscribe = true;
}

add_start : add "id1" (some "state") wildcard 7 start ≡ ok (subscribed, first_added)
unfolding add new assert_mqtt_topic_utf8_count get_mqtt_topic_utf8_length mqtt_topic_utf8_length
    sum_bytes get_utf8_bytes_count utf8_bytes_from utf16 unit_bytes fill assign index index_of enter
    get_mqtt_topic construct_mqtt_topic leaf_or_new leaf_at put_leaf JsMap.get JsMap.set join_slash
add_start = refl

find_internal_lem_example :
    find_internal (complete "state" "001" "RobotCompany") subscribed.subscriptions ≡ ("id1", 7) ∷ []
unfolding handlers_at handlers_of leaf_at JsMap.get
find_internal_lem_example =
    find_internal_lem (complete "state" "001" "RobotCompany") subscribed.subscriptions

start-IsConsistent : IsConsistent start
unfolding clear new
start-IsConsistent = clear-IsConsistent start

add-IsConsistent_example : IsConsistent subscribed
unfolding new JsMap.get
add-IsConsistent_example =
    add-IsConsistent "id1" (some "state") wildcard 7 start subscribed first_added refl add_start
      start-IsConsistent

remove-IsConsistent_example :
    IsConsistent (remove "id1" subscribed).0
    × ((q : SubscriptionPath) (j : String)
        → JsMap.get j (handlers_at q (remove "id1" subscribed).0.subscriptions)
          ≡ (if "id1" == j then none else JsMap.get j (handlers_at q subscribed.subscriptions)))
unfolding new JsMap.get
remove-IsConsistent_example = remove-IsConsistent "id1" subscribed (
    add-IsConsistent "id1" (some "state") wildcard 7 start subscribed first_added refl add_start
      start-IsConsistent)
