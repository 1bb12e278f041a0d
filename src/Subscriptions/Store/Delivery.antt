-- ===== src/Subscriptions/Store/Delivery.antt =====
-- src/common/subscription-manager.ts: from the topic of a publication to the handlers of it.
use vda_5050_lib_2_0_0_js.Prelude.{
  ℕ, ◌≡◌, ◌∙◌, sym, ap, refl, String, Option, none, some, String-Eq, if◌then◌else◌, ok, NoSlash,
}
use vda_5050_lib_2_0_0_js.JsMap
use vda_5050_lib_2_0_0_js.Types.{AgvIdPattern, AgvId}
use vda_5050_lib_2_0_0_js.Subscriptions.Format.{
  compile, major_version_of, get_mqtt_topic, index, Placeholder,
}
use vda_5050_lib_2_0_0_js.Subscriptions.Format.RoundTrip.{present, deconstruct-construct}
use vda_5050_lib_2_0_0_js.Subscriptions.Store.{
  SubscriptionPath, Store, Added, add, find, find_internal, or_else,
}
use vda_5050_lib_2_0_0_js.Subscriptions.Store.Lookup.{handlers_at}
use vda_5050_lib_2_0_0_js.Subscriptions.Store.Laws.{path_of, add-IsAdded}
use vda_5050_lib_2_0_0_js.Subscriptions.Store.Matching.{matches, complete, find-add}

abbrev pub pattern : AgvId → AgvIdPattern
pattern id = record { manufacturer = some id.manufacturer; serial_number = some id.serial_number }

or_else-present : (i : Option ℕ) (s : String) → or_else (present i s) (some s) ≡ some s
or_else-present none s = refl
or_else-present (some i) s = refl

module _ {ℓ} {H : Type ℓ} where
  -- What is found for the topic under which a vehicle's message is published is what is subscribed
  -- for the topic, the serial number and the manufacturer of the message.
  pub find-published :
      (topic_format name version t : String) (id : AgvId) (s : Store H)
      → compile topic_format name version ≡ ok s.format
      → NoSlash name
      → NoSlash (major_version_of version)
      → NoSlash id.manufacturer
      → NoSlash id.serial_number
      → NoSlash t
      → find
          (get_mqtt_topic s.format (some t) (some id.manufacturer) (some id.serial_number))
          (pattern id)
          s
        ≡ (find_internal (complete t id.serial_number id.manufacturer) s.subscriptions, some t)
  unfolding find get_mqtt_topic
  find-published topic_format name version t id s e hn hv hm hs ht =
      let back =
        deconstruct-construct topic_format name version s.format id.manufacturer id.serial_number t
          e hn hv hm hs ht in
      rw
        (
          back,
          find,
          or_else-present (index s.format Placeholder.for_serial_number) id.serial_number,
          or_else-present (index s.format Placeholder.for_manufacturer) id.manufacturer,
        )
        refl

  -- A message that is published for a vehicle on a topic reaches a handler that was subscribed
  -- before under a new ID if its topic and its subject match the message's, and not otherwise; with
  -- a format that compiles, and no slash in the parts.
  pub find-add_published :
      (topic_format name version t sub_id : String) (id : AgvId) (topic : Option String)
      (subject : AgvIdPattern) (h : H) (s s' : Store H) (r : Added)
      → compile topic_format name version ≡ ok s.format
      → NoSlash name
      → NoSlash (major_version_of version)
      → NoSlash id.manufacturer
      → NoSlash id.serial_number
      → NoSlash t
      → ((q : SubscriptionPath) → JsMap.get sub_id (handlers_at q s.subscriptions) ≡ none)
      → add sub_id topic subject h s ≡ ok (s', r)
      → JsMap.get sub_id
          (find
            (get_mqtt_topic s.format (some t) (some id.manufacturer) (some id.serial_number))
            (pattern id)
            s').0
        ≡ (if matches (path_of topic subject) t id.serial_number id.manufacturer
            then some h
            else none)
  find-add_published topic_format name version t sub_id id topic subject h s s' r e hn hv hm hs ht
        fresh added =
      let format : s'.format ≡ s.format =
        (add-IsAdded sub_id topic subject h s s' r added).format in
      let found =
        find-published topic_format name version t id s' (e ∙ ap ok (sym format)) hn hv hm hs ht in
      ap
        (λ f.
          JsMap.get sub_id
            (find (get_mqtt_topic f (some t) (some id.manufacturer) (some id.serial_number))
              (pattern id) s').0)
        (sym format)
      ∙ ap (λ p. JsMap.get sub_id p.0) found
      ∙ find-add sub_id topic subject h s s' r t id.serial_number id.manufacturer fresh added
