-- ===== src/Subscriptions/Store/Laws.antt =====
-- src/common/subscription-manager.ts: what adding and removing a subscription does.
use vda_5050_lib_2_0_0_js.Prelude.{
  ◌≡◌, ap, ◌∙◌, ◌↔◌, String, Option, none, String-Eq, Option-Eq, if◌then◌else◌, [], ◌∷◌, arith,
  option_beq_iff, true, ok, eqb,
}
use vda_5050_lib_2_0_0_js.JsMap
use vda_5050_lib_2_0_0_js.JsMap.{JsMap}
use vda_5050_lib_2_0_0_js.JsMap.Laws.{size-set_absent}
use vda_5050_lib_2_0_0_js.Types.{AgvIdPattern}
use vda_5050_lib_2_0_0_js.Subscriptions.Format.{get_mqtt_topic}
use vda_5050_lib_2_0_0_js.Subscriptions.Store.{
  SubscriptionPath, path_beq, Leaf, Store, Added, ByTopic, leaf_or_new, put_leaf, enter, add,
}
use vda_5050_lib_2_0_0_js.Subscriptions.Store.Lookup.{leaf_at-put_leaf, handlers_of, handlers_at}

abbrev pub path_of : Option String → AgvIdPattern → SubscriptionPath
path_of topic subject = record {
  topic = topic;
  serial_number = subject.serial_number;
  manufacturer = subject.manufacturer;
}

pub path_beq-eq : (p q : SubscriptionPath) → path_beq p q ≡ true → p ≡ q
path_beq-eq p q e = ground (
  arith,
  option_beq_iff p.topic q.topic,
  option_beq_iff p.serial_number q.serial_number,
  option_beq_iff p.manufacturer q.manufacturer,
)

module _ {ℓ} {H : Type ℓ} where
  pub handlers_at-put_leaf :
      (p q : SubscriptionPath) (leaf : Leaf H) (m : ByTopic H)
      → handlers_at q (put_leaf p leaf m)
        ≡ (if path_beq p q then leaf.handlers else handlers_at q m)
  unfolding handlers_at handlers_of
  handlers_at-put_leaf p q leaf m = ground (arith, leaf_at-put_leaf p q leaf m)

  pub handlers_of-leaf_or_new :
      (p : SubscriptionPath) (m : ByTopic H) → (leaf_or_new p m).handlers ≡ handlers_at p m
  unfolding leaf_or_new handlers_at handlers_of
  handlers_of-leaf_or_new p m = ground arith

  enter-handlers :
      (id : String) (h : H) (topic : String) (leaf : Leaf H)
      → (enter id h topic leaf).handlers ≡ JsMap.set id h leaf.handlers
  unfolding enter
  enter-handlers id h topic leaf = ground arith

  pub added_leaf : String → Option String → AgvIdPattern → H → Store H → Leaf H
  added_leaf id topic subject h s =
      enter id h (get_mqtt_topic s.format topic subject.manufacturer subject.serial_number)
        (leaf_or_new (path_of topic subject) s.subscriptions)

  -- What an accepted subscription returns.
  pub record IsAdded (id : String) (topic : Option String) (subject : AgvIdPattern) (h : H)
      (s s' : Store H) (r : Added) : Type ℓ where
    pub format : s'.format ≡ s.format
    pub subscriptions :
        s'.subscriptions
        ≡ put_leaf (path_of topic subject) (added_leaf id topic subject h s) s.subscriptions
    pub ids : s'.subscription_ids ≡ JsMap.set id (path_of topic subject) s.subscription_ids
    pub id_of : r.id ≡ id
    pub topic_of : r.mqtt_topic ≡ (added_leaf id topic subject h s).mqtt_topic
    pub subscribe :
        r.requires_subscribe ≡ eqb (JsMap.size (added_leaf id topic subject h s).handlers) 1

  pub add-IsAdded :
      (id : String) (topic : Option String) (subject : AgvIdPattern) (h : H) (s s' : Store H)
      (r : Added)
      → add id topic subject h s ≡ ok (s', r)
      → IsAdded id topic subject h s s' r
  unfolding add added_leaf
  add-IsAdded id topic subject h s s' r e = ground arith

  added_leaf-handlers :
      (id : String) (topic : Option String) (subject : AgvIdPattern) (h : H) (s : Store H)
      → (added_leaf id topic subject h s).handlers
        ≡ JsMap.set id h (handlers_at (path_of topic subject) s.subscriptions)
  unfolding added_leaf
  added_leaf-handlers id topic subject h s =
      enter-handlers id h _ _
      ∙ ap (JsMap.set id h) (handlers_of-leaf_or_new (path_of topic subject) s.subscriptions)

  -- A subscription that is accepted adds its handler at its own path and changes no other path.
  pub add_lem :
      (id : String) (topic : Option String) (subject : AgvIdPattern) (h : H) (s s' : Store H)
      (r : Added) (q : SubscriptionPath)
      → add id topic subject h s ≡ ok (s', r)
      → handlers_at q s'.subscriptions ≡ (
          if path_beq (path_of topic subject) q
          then JsMap.set id h (handlers_at q s.subscriptions)
          else handlers_at q s.subscriptions)
  add_lem id topic subject h s s' r q e = ground (
    arith,
    ap (λ m. handlers_at q m) (add-IsAdded id topic subject h s s' r e).subscriptions,
    handlers_at-put_leaf (path_of topic subject) q (added_leaf id topic subject h s)
        s.subscriptions,
    added_leaf-handlers id topic subject h s,
    path_beq-eq (path_of topic subject) q,
  )

  -- A subscription needs to be made with the broker exactly if it is the first at its path.
  add-requires_subscribe :
      (id : String) (topic : Option String) (subject : AgvIdPattern) (h : H) (s s' : Store H)
      (r : Added)
      → JsMap.get id (handlers_at (path_of topic subject) s.subscriptions) ≡ none
      → add id topic subject h s ≡ ok (s', r)
      → (r.requires_subscribe ≡ true) ↔ (handlers_at (path_of topic subject) s.subscriptions ≡ [])
  add-requires_subscribe id topic subject h s s' r fresh e =
      count (handlers_at (path_of topic subject) s.subscriptions) fresh (
        (add-IsAdded id topic subject h s s' r e).subscribe
        ∙ ap (λ m. eqb (JsMap.size m) 1) (added_leaf-handlers id topic subject h s))
    where
      count :
          (m : JsMap String H)
          → JsMap.get id m ≡ none
          → r.requires_subscribe ≡ eqb (JsMap.size (JsMap.set id h m)) 1
          → (r.requires_subscribe ≡ true) ↔ (m ≡ [])
      count [] f k = ground (arith, size-set_absent id h [] f)
      count (b ∷ m) f k = ground (arith, size-set_absent id h (b ∷ m) f)
