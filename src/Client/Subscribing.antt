-- ===== src/Client/Subscribing.antt =====
-- src/common/client.ts: subscribing, unsubscribing and the dispatch of inbound messages. Calls of the
-- MQTT client are logged; its answers are not modelled. An inbound payload is given as `JSON.parse`
-- reads it, none if that throws. What the handlers do is not part of the dispatch: a handler that
-- subscribes or unsubscribes while the message is dispatched is not modelled.
pub mod Laws
use vda_5050_lib_2_0_0_js.Prelude.{
  ℕ, String, Option, none, some, Bool, true, false, not, ◌&&◌, List, [], ◌∷◌, ◌++◌, if◌then◌else◌,
  Outcome, ok, err, ◌>>=◌, ◌>>◌, throw_if,
}
use vda_5050_lib_2_0_0_js.Types.{AgvId, AgvIdPattern, Topic, Vda5050Object}
use vda_5050_lib_2_0_0_js.Client.{
  Client, ClientError, client_not_started, mqtt_topic_too_long, validate_topic, validate_agv_id,
}
use vda_5050_lib_2_0_0_js.Subscriptions.Store.{Store, Added, add, remove, find, get_all}
use vda_5050_lib_2_0_0_js.Subscriptions.Store.Delivery.{pattern}

pub data BrokerCall : Type 0 where
  subscribe : Option String → BrokerCall
  unsubscribe : Option String → BrokerCall

-- A client with its subscriptions; handlers are of any type.
pub record Subscriber {ℓ} (H : Type ℓ) : Type ℓ where
  pub client : Client
  pub store : Store H
  pub broker_calls : List BrokerCall

-- What an inbound message leads to: calls of handlers, in order, or nothing.
pub record HandlerCall {ℓ} (H : Type ℓ) : Type ℓ where
  pub handler : H
  pub object : Vda5050Object
  pub subject : AgvId
  pub topic : Option String
  pub subscription_id : String

abbrev pub subject_of : Vda5050Object → AgvId
subject_of object = record {
  manufacturer = object.manufacturer;
  serial_number = object.serial_number;
}

module _ {ℓ} {H : Type ℓ} where
  abbrev log_if : Bool → BrokerCall → Subscriber H → Subscriber H
  log_if true c s = record s { broker_calls = s.broker_calls ++ c ∷ [] }
  log_if false c s = s

  -- Offline, the subscription is made when the connection is there again.
  abbrev pub subscribed : Subscriber H → Store H × Added → Subscriber H × String
  subscribed s (store, added) = (
    log_if (added.requires_subscribe && s.client.is_connected) (subscribe added.mqtt_topic)
        (record s { store = store }),
    added.id,
  )

  abbrev pub add_subscription :
      String
      → String
      → AgvIdPattern
      → H
      → Subscriber H
      → Outcome ClientError (Subscriber H × String)
  add_subscription id topic subject handler s = elim (add id (some topic) subject handler s.store) [
    | err e ↦ err mqtt_topic_too_long
    | ok r ↦ ok (subscribed s r)
  ]

  unfoldable pub subscribe_topic :
      (Topic → Bool → Outcome ClientError (Unit {0}))
      → String
      → String
      → AgvIdPattern
      → H
      → Subscriber H
      → Outcome ClientError (Subscriber H × String)
  subscribe_topic check_direction id topic subject handler s =
      throw_if (not s.client.is_started) client_not_started >>= λ started.
      validate_topic check_direction s.client.extension_topics topic true >>= λ valid.
      validate_agv_id subject true >>= λ named. add_subscription id topic subject handler s

  -- The result of an ID that is not there is undefined, and taking it apart throws.
  unfoldable pub unsubscribe_id : String → Subscriber H → Outcome ClientError (Subscriber H × Bool)
  unsubscribe_id id s = throw_if (not s.client.is_started) client_not_started >>= λ started.
      let (store, removed) = remove id s.store in
      ok (elim removed [
        | none ↦ (record s { store = store }, false)
        | some r ↦ (
          log_if (r.requires_unsubscribe && s.client.is_connected) (unsubscribe r.mqtt_topic)
              (record s { store = store }),
          true,
        )
      ])

  abbrev pub handler_calls :
      Vda5050Object → AgvId → Option String → List (String × H) → List (HandlerCall H)
  handler_calls object subject topic [] = []
  handler_calls object subject topic ((id, handler) ∷ found) =
      record {
        handler = handler;
        object = object;
        subject = subject;
        topic = topic;
        subscription_id = id;
      }
      ∷ handler_calls object subject topic found

  -- `validate` is the message of the validator's error, if the object is validated and has one.
  unfoldable pub dispatch_message :
      (Option String → Vda5050Object → Option String)
      → String
      → Option Vda5050Object
      → Subscriber H
      → List (HandlerCall H)
  dispatch_message validate mqtt_topic none s = []
  dispatch_message validate mqtt_topic (some object) s =
      let (found, topic) = find mqtt_topic (pattern (subject_of object)) s.store in
      elim (validate topic object) [
        | some message ↦ []
        | none ↦ handler_calls object (subject_of object) topic found
      ]
