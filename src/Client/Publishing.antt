-- ===== src/Client/Publishing.antt =====
-- src/common/client.ts, `publishTopic`: what reaches the MQTT client.
use vda_5050_lib_2_0_0_js.Prelude.{
  ◌≡◌, String, Option, none, some, Bool, true, [], ◌∷◌, ◌++◌, arith, Outcome, ok, err, ◌≤◌,
}
use Prim.Native.String.{len}
use vda_5050_lib_2_0_0_js.Types.{AgvId, Topic, Headerless, Vda5050Object}
use vda_5050_lib_2_0_0_js.Mqtt.{max_mqtt_topic_utf8_count}
use vda_5050_lib_2_0_0_js.Mqtt.Utf8.{assert_mqtt_topic_length_iff}
use vda_5050_lib_2_0_0_js.Subscriptions.Format.{get_mqtt_topic}
use vda_5050_lib_2_0_0_js.Client.{
  Client, ClientError, PublishOptions, publish_topic, check_publish, next_header_id, header_id_of,
  with_object_header, send,
}

module _ (check_direction : Topic → Bool → Outcome ClientError (Unit {0}))
    (protocol_version : String) (check_object : String → Vda5050Object → Option String) where
  -- What has been handed over when a publication is answered with an object.
  pub record IsPublished (topic : String) (subject : AgvId) (options : PublishOptions)
      (c c' : Client) (object : Vda5050Object) : Type 0 where
    pub started : c.is_started ≡ true
    pub identity : object.header.header_id ≡ header_id_of topic c
    pub manufacturer : object.header.manufacturer ≡ subject.manufacturer
    pub serial_number : object.header.serial_number ≡ subject.serial_number
    pub valid : check_object topic object ≡ none
    pub mqtt_topic : String
    pub in_limit : len mqtt_topic ≤ max_mqtt_topic_utf8_count
    pub handed_over :
        c'.published
        ≡ c.published
          ++ record { mqtt_topic = mqtt_topic; object = object; retain = options.retain_message }
            ∷ []

  -- A publication that is answered with an object has handed over exactly this one, to a topic
  -- within the limit, under the next header ID of its topic and in the name of its subject.
  pub publish_topic-IsPublished :
      (topic : String) (subject : AgvId) (headerless : Headerless) (options : PublishOptions)
      (now : String) (c c' : Client) (object : Vda5050Object)
      → publish_topic check_direction protocol_version check_object topic subject headerless options
          now c
        ≡ (c', ok (some object))
      → IsPublished topic subject options c c' object
  unfolding publish_topic check_publish with_object_header send next_header_id
  publish_topic-IsPublished topic subject headerless options now c c' object e = record {
    started = ground (arith, e);
    identity = ground (arith, e);
    manufacturer = ground (arith, e);
    serial_number = ground (arith, e);
    valid = ground (arith, e);
    mqtt_topic =
        get_mqtt_topic c.format (some topic) (some subject.manufacturer)
          (some subject.serial_number);
    in_limit = ground (
      arith,
      e,
      assert_mqtt_topic_length_iff (
          get_mqtt_topic c.format (some topic) (some subject.manufacturer)
            (some subject.serial_number)),
    );
    handed_over = ground (arith, e);
  }

  -- A publication that is refused hands nothing over.
  publish_topic-refused :
      (topic : String) (subject : AgvId) (headerless : Headerless) (options : PublishOptions)
      (now : String) (c c' : Client) (error : ClientError)
      → publish_topic check_direction protocol_version check_object topic subject headerless options
          now c
        ≡ (c', err error)
      → c'.published ≡ c.published
  unfolding publish_topic next_header_id send
  publish_topic-refused topic subject headerless options now c c' error e = ground (arith, e)
