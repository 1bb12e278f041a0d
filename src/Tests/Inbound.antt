-- ===== src/Tests/Inbound.antt =====
-- src/common/client.ts and src/client/master-control-client.ts at concrete inbound messages.
use vda_5050_lib_2_0_0_js.Prelude.{
  ℕ, ◌≡◌, refl, Option, none, some, String, String-Eq, [], ◌∷◌, ok, is_slash, join_slash,
}
use vda_5050_lib_2_0_0_js.JsMap
use vda_5050_lib_2_0_0_js.Types.{AgvId, Connection, ConnectionState, Vda5050Object}
use vda_5050_lib_2_0_0_js.Mqtt.{
  assert_mqtt_topic_utf8_count, get_utf8_bytes_count, utf8_bytes_from, utf16, unit_bytes,
}
use vda_5050_lib_2_0_0_js.Client.{
  validate_topic, validate_agv_id, is_legal_topic_char, is_serial_number_char,
}
use vda_5050_lib_2_0_0_js.Client.Directions.{master_control_direction}
use vda_5050_lib_2_0_0_js.Client.Tracking.{
  Tracker, get_tracked_state, after_connections, get_tracked_state-after_connections,
}
use vda_5050_lib_2_0_0_js.Client.Subscribing.{
  Subscriber, BrokerCall, subscribe_topic, dispatch_message,
}
use vda_5050_lib_2_0_0_js.Client.Subscribing.Laws.{call_of, call, dispatch_message-subscribe_topic}
use vda_5050_lib_2_0_0_js.Subscriptions.Format.{
  get_mqtt_topic, major_version_of, get_mqtt_topic_utf8_length, mqtt_topic_utf8_length, sum_bytes,
  fill, assign, index, index_of, construct_mqtt_topic,
}
use vda_5050_lib_2_0_0_js.Subscriptions.Store.{new, add, enter, leaf_or_new, leaf_at, put_leaf}
use vda_5050_lib_2_0_0_js.Subscriptions.Store.Lookup.{handlers_at, handlers_of}
use vda_5050_lib_2_0_0_js.Tests.Broker.{format, wildcard, start, subscribed, format_compiled}
use vda_5050_lib_2_0_0_js.Tests.Messages.{client, online_object, subject}

abbrev before : Subscriber ℕ
before = record { client = client; store = start; broker_calls = [] }

abbrev after : Subscriber ℕ
after = record {
  client = client;
  store = subscribed;
  broker_calls = BrokerCall.subscribe (some "uagv/v2/RobotCompany/+/state") ∷ [];
}

abbrev any_valid : Option String → Vda5050Object → Option String
any_valid topic object = none

subscribed_state :
    subscribe_topic master_control_direction "id1" "state" wildcard 7 before ≡ ok (after, "id1")
unfolding subscribe_topic validate_topic is_legal_topic_char is_serial_number_char
    master_control_direction validate_agv_id add new assert_mqtt_topic_utf8_count
    get_mqtt_topic_utf8_length mqtt_topic_utf8_length sum_bytes get_utf8_bytes_count utf8_bytes_from
    utf16 unit_bytes fill assign index index_of enter get_mqtt_topic construct_mqtt_topic
    leaf_or_new leaf_at put_leaf JsMap.get JsMap.set join_slash
subscribed_state = refl

dispatch_message-subscribe_topic_example :
    call_of "id1" (
      dispatch_message any_valid
        (get_mqtt_topic format (some "state") (some "RobotCompany") (some "001"))
        (some online_object)
        after)
    ≡ some (call online_object (some "state") "id1" 7)
unfolding JsMap.get new is_slash major_version_of handlers_at handlers_of leaf_at
dispatch_message-subscribe_topic_example =
    dispatch_message-subscribe_topic master_control_direction any_valid
      "%interfaceName%/%majorVersion%/%manufacturer%/%serialNumber%/%topic%" "uagv" "2.0.0" "state"
      "id1" "state" wildcard 7 before after "id1" online_object format_compiled refl refl refl refl
      refl (λ q. refl) subscribed_state refl

abbrev connection : ConnectionState → Connection
connection state = record { header = online_object.header; connection_state = state }

abbrev other : AgvId
other = record { manufacturer = "RobotCompany"; serial_number = "002" }

abbrev no_vehicle : Tracker
no_vehicle = record { connection_states = []; track_handlers = 3 ∷ []; calls = [] }

get_tracked_state-after_connections_example :
    get_tracked_state subject (
      after_connections
        ((subject, connection ConnectionState.online)
          ∷ (subject, connection ConnectionState.connectionbroken)
          ∷ (other, connection ConnectionState.online)
          ∷ [])
        no_vehicle)
    ≡ some (record { state = ConnectionState.connectionbroken; timestamp = "now" })
get_tracked_state-after_connections_example =
    get_tracked_state-after_connections subject
      ((subject, connection ConnectionState.online)
        ∷ (subject, connection ConnectionState.connectionbroken)
        ∷ (other, connection ConnectionState.online)
        ∷ [])
      no_vehicle
