-- ===== src/Client/Subscribing/Laws.antt =====
-- src/common/client.ts: which handlers are called for a message.
use vda_5050_lib_2_0_0_js.Prelude.{
  ◌≡◌, ap, ◌∙◌, refl, String, Option, none, some, Bool, if◌then◌else◌, List, [], ◌∷◌, ◌==◌, Outcome,
  ok, Outcome-cases, arith, NoSlash, true, false, Bool-cases, inl, inr, sym, String-Eq,
}
use vda_5050_lib_2_0_0_js.JsMap
use vda_5050_lib_2_0_0_js.Types.{AgvIdPattern, Topic, Vda5050Object}
use vda_5050_lib_2_0_0_js.Client.{ClientError}
use vda_5050_lib_2_0_0_js.Client.Subscribing.{
  Subscriber, HandlerCall, subscribe_topic, dispatch_message, handler_calls, subject_of,
}
use vda_5050_lib_2_0_0_js.Subscriptions.Format.{compile, major_version_of, get_mqtt_topic}
use vda_5050_lib_2_0_0_js.Subscriptions.Store.{SubscriptionPath, Added, add, find}
use vda_5050_lib_2_0_0_js.Subscriptions.Store.Lookup.{handlers_at}
use vda_5050_lib_2_0_0_js.Subscriptions.Store.Laws.{path_of, add-IsAdded}
use vda_5050_lib_2_0_0_js.Subscriptions.Store.Matching.{matches}
use vda_5050_lib_2_0_0_js.Subscriptions.Store.Delivery.{pattern, find-published, find-add_published}

equal : (a b : String) → (a == b) ≡ true → a ≡ b
equal a b same = ground (arith, same, String-Eq.equals_iff a b)

module _ {ℓ} {H : Type ℓ} where
  -- The call of the handler of a subscription, if there is one.
  unfoldable pub call_of : String → List (HandlerCall H) → Option (HandlerCall H)
  call_of id [] = none
  call_of id (c ∷ calls) = if c.subscription_id == id then some c else call_of id calls

  abbrev pub call : Vda5050Object → Option String → String → H → HandlerCall H
  call object topic id handler = record {
    handler = handler;
    object = object;
    subject = subject_of object;
    topic = topic;
    subscription_id = id;
  }

  abbrev pub call_if_some :
      Vda5050Object → Option String → String → Option H → Option (HandlerCall H)
  call_if_some object topic id none = none
  call_if_some object topic id (some h) = some (call object topic id h)

  call_of-handler_calls :
      (object : Vda5050Object) (topic : Option String) (id : String) (found : List (String × H))
      → call_of id (handler_calls object (subject_of object) topic found)
        ≡ call_if_some object topic id (JsMap.get id found)
  unfolding call_of JsMap.get
  call_of-handler_calls object topic id [] = refl
  call_of-handler_calls object topic id ((j, h) ∷ found) = elim (Bool-cases (j == id)) [
    | inl same ↦ rw (same, equal j id same) refl
    | inr other ↦ rw other (call_of-handler_calls object topic id found)
  ]

  subscribe_topic-add :
      (check_direction : Topic → Bool → Outcome ClientError (Unit {0})) (id topic : String)
      (subject : AgvIdPattern) (h : H) (s s' : Subscriber H) (id' : String)
      → subscribe_topic check_direction id topic subject h s ≡ ok (s', id')
      → (r : Added) × (add id (some topic) subject h s.store ≡ ok (s'.store, r))
  unfolding subscribe_topic
  subscribe_topic-add check_direction id topic subject h s s' id' e =
      elim (Outcome-cases (add id (some topic) subject h s.store)) [
        | inl ((store, r), c) ↦ (r, ground (arith, e, c))
        | inr (x, c) ↦ absurd (ground (arith, e, c))
      ]

  called_if :
      (object : Vda5050Object) (t id : String) (h : H) (found : Bool)
      → call_if_some object (some t) id (if found then some h else none)
        ≡ (if found then some (call object (some t) id h) else none)
  called_if object t id h true = refl
  called_if object t id h false = refl

  dispatch_message-valid :
      (mqtt_topic : String) (validate : Option String → Vda5050Object → Option String)
      (t id : String) (object : Vda5050Object) (s : Subscriber H)
      → (find mqtt_topic (pattern (subject_of object)) s.store).1 ≡ some t
      → validate (some t) object ≡ none
      → call_of id (dispatch_message validate mqtt_topic (some object) s)
        ≡ call_if_some object
            (some t)
            id
            (JsMap.get id (find mqtt_topic (pattern (subject_of object)) s.store).0)
  unfolding dispatch_message
  dispatch_message-valid mqtt_topic validate t id object s found valid =
      rw (dispatch_message, found, valid, found)
        (call_of-handler_calls object (some t) id
          (find mqtt_topic (pattern (subject_of object)) s.store).0)

  -- A valid message that is published for a vehicle on a topic leads to a call of a handler that
  -- was subscribed before under a new ID, with the message, its subject and its topic, if topic and
  -- subject of the subscription match, and to no call of it otherwise.
  pub dispatch_message-subscribe_topic :
      (check_direction : Topic → Bool → Outcome ClientError (Unit {0}))
      (validate : Option String → Vda5050Object → Option String)
      (topic_format name version t id topic : String) (subject : AgvIdPattern) (h : H)
      (s s' : Subscriber H) (id' : String) (object : Vda5050Object)
      → compile topic_format name version ≡ ok s.store.format
      → NoSlash name
      → NoSlash (major_version_of version)
      → NoSlash object.manufacturer
      → NoSlash object.serial_number
      → NoSlash t
      → ((q : SubscriptionPath) → JsMap.get id (handlers_at q s.store.subscriptions) ≡ none)
      → subscribe_topic check_direction id topic subject h s ≡ ok (s', id')
      → validate (some t) object ≡ none
      → call_of id (
          dispatch_message validate
            (get_mqtt_topic s.store.format
              (some t)
              (some object.manufacturer)
              (some object.serial_number))
            (some object)
            s')
        ≡ (if matches (path_of (some topic) subject) t object.serial_number object.manufacturer
            then some (call object (some t) id h)
            else none)
  unfolding dispatch_message
  dispatch_message-subscribe_topic check_direction validate topic_format name version t id topic
        subject h s s' id' object e hn hv hm hs ht fresh accepted valid =
      let (r, added) = subscribe_topic-add check_direction id topic subject h s s' id' accepted in
      let format = (add-IsAdded id (some topic) subject h s.store s'.store r added).format in
      let topic_found =
        ap
          (λ f.
            (find (get_mqtt_topic f (some t) (some object.manufacturer) (some object.serial_number))
              (pattern (subject_of object)) s'.store).1)
          (sym format)
        ∙ ap (λ found. found.1)
            (find-published topic_format name version t (subject_of object) s'.store
              (e ∙ ap ok (sym format)) hn hv hm hs ht) in
      let handler_found =
        find-add_published topic_format name version t id (subject_of object) (some topic) subject h
          s.store s'.store r e hn hv hm hs ht fresh added in
      dispatch_message-valid _ validate t id object s' topic_found valid
      ∙ rw handler_found (
          called_if object t id h
            (matches (path_of (some topic) subject) t object.serial_number object.manufacturer))
