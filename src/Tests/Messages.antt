-- ===== src/Tests/Messages.antt =====
-- src/common/client.ts at a concrete message, and the counters of published states.
use vda_5050_lib_2_0_0_js.Prelude.{
  ◌≡◌, refl, arith, String, String-Eq, Option, none, some, true, false, [], ◌∷◌, ok, err,
  join_slash,
}
use vda_5050_lib_2_0_0_js.JsMap
use vda_5050_lib_2_0_0_js.JsMap.{JsMap}
use vda_5050_lib_2_0_0_js.Types.{AgvId, Topic, Content, Headerless, Vda5050Object, ConnectionState}
use vda_5050_lib_2_0_0_js.Mqtt.{assert_mqtt_topic_length, utf16}
use vda_5050_lib_2_0_0_js.Subscriptions.Format.{
  get_mqtt_topic, construct_mqtt_topic, fill, assign, index, index_of,
}
use vda_5050_lib_2_0_0_js.Client.{
  Client, PublishOptions, direction_invalid, publish_topic, check_publish, validate_topic,
  validate_agv_id, is_legal_topic_char, is_serial_number_char, next_header_id, header_id_of,
  with_object_header, send,
}
use vda_5050_lib_2_0_0_js.Client.Directions.{agv_direction}
use vda_5050_lib_2_0_0_js.Client.HeaderIds.{after_messages, header_id_of-after_messages}
use vda_5050_lib_2_0_0_js.Client.Publishing.{IsPublished, publish_topic-IsPublished}
use vda_5050_lib_2_0_0_js.AgvController.Cleanup.{count_up}
use vda_5050_lib_2_0_0_js.AgvController.Cleanup.Counting.{published, published_lem, count_up_lem}
use vda_5050_lib_2_0_0_js.Tests.Broker.{format}

abbrev pub subject : AgvId
subject = record { manufacturer = "RobotCompany"; serial_number = "001" }

abbrev pub client : Client
client = record {
  is_started = true;
  is_connected = true;
  format = format;
  header_ids = ("connection", 0xffffffff) ∷ [];
  extension_topics = [];
  published = [];
}

abbrev online : Headerless
online = record { timestamp = none; content = Content.connection ConnectionState.online }

abbrev retained : PublishOptions
retained = record { retain_message = true; drop_if_offline = false }

abbrev accepted : String → Vda5050Object → Option String
accepted topic object = none

abbrev pub online_object : Vda5050Object
online_object = record {
  header = record {
    header_id = 0xffffffff;
    manufacturer = "RobotCompany";
    serial_number = "001";
    timestamp = "now";
    version = "1.1.0";
  };
  content = Content.connection ConnectionState.online;
}

abbrev client_after : Client
client_after = record client {
  header_ids = ("connection", 0) ∷ [];
  published =
      record {
        mqtt_topic = "uagv/v2/RobotCompany/001/connection";
        object = online_object;
        retain = true;
      }
      ∷ [];
}

published_online :
    publish_topic agv_direction "1.1.0" accepted "connection" subject online retained "now" client
    ≡ (client_after, ok (some online_object))
unfolding publish_topic check_publish validate_topic validate_agv_id is_legal_topic_char
    is_serial_number_char next_header_id with_object_header send get_mqtt_topic construct_mqtt_topic
    fill assign index index_of assert_mqtt_topic_length utf16 JsMap.get JsMap.set agv_direction
    join_slash
published_online = refl

publish_topic-IsPublished_example :
    IsPublished agv_direction "1.1.0" accepted "connection" subject retained client client_after
      online_object
publish_topic-IsPublished_example =
    publish_topic-IsPublished agv_direction "1.1.0" accepted "connection" subject online retained
      "now" client client_after online_object published_online

refused_order :
    publish_topic agv_direction "1.1.0" accepted "order" subject online retained "now" client
    ≡ (client, err (direction_invalid Topic.order false))
unfolding publish_topic check_publish validate_topic is_legal_topic_char agv_direction
refused_order = refl

header_id_of-after_messages_example :
    header_id_of "connection" (after_messages 3 "connection" client) ≡ 2
unfolding JsMap.get
header_id_of-after_messages_example =
    header_id_of-after_messages 3 "connection" "connection" client (omega arith)

published_lem_example :
    JsMap.get {K = String} "a1" (published (λ k. true) 5 5 (("a1", 0) ∷ [])) ≡ none
unfolding JsMap.get
published_lem_example =
    published_lem (λ k. true) 5 "a1" (("a1", 0) ∷ []) 5 (refl, tt) (omega arith) refl refl

count_up_lem_example :
    JsMap.get {K = String} "a1" (count_up (λ k. true) 5 (("a1", 3) ∷ [])) ≡ some 4
unfolding JsMap.get
count_up_lem_example = count_up_lem (λ k. true) 5 "a1" (("a1", 3) ∷ []) (refl, tt)
