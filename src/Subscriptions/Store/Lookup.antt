-- ===== src/Subscriptions/Store/Lookup.antt =====
-- src/common/subscription-manager.ts: the innermost maps, addressed by their paths.
use vda_5050_lib_2_0_0_js.Prelude.{
  ◌≡◌, refl, String, Option, none, some, String-Eq, Option-Eq, if◌then◌else◌, List, [], ◌++◌,
  append_assoc, arith, option_beq_iff,
}
use vda_5050_lib_2_0_0_js.JsMap
use vda_5050_lib_2_0_0_js.JsMap.{JsMap}
use vda_5050_lib_2_0_0_js.JsMap.Laws.{get-set}
use vda_5050_lib_2_0_0_js.Subscriptions.Store.{
  SubscriptionPath, path_beq, Leaf, ByManufacturer, BySerialNumber, ByTopic, leaf_at, put_leaf,
  get_or_new, find_internal, find_level, follow,
}

module _ {ℓ} {H : Type ℓ} where
  -- The maps at one path do not share anything with those at another.
  pub leaf_at-put_leaf :
      (p q : SubscriptionPath) (leaf : Leaf H) (m : ByTopic H)
      → leaf_at q (put_leaf p leaf m) ≡ (if path_beq p q then some leaf else leaf_at q m)
  unfolding leaf_at put_leaf JsMap.get
  leaf_at-put_leaf p q leaf m =
      let by_serial : BySerialNumber H = get_or_new p.topic m in
      let by_manufacturer : ByManufacturer H = get_or_new p.serial_number by_serial in
      let inner : ByManufacturer H = JsMap.set p.manufacturer leaf by_manufacturer in
      ground (
        arith,
        get-set q.topic p.topic (JsMap.set p.serial_number inner by_serial) m,
        get-set q.serial_number p.serial_number inner by_serial,
        get-set q.manufacturer p.manufacturer leaf by_manufacturer,
        option_beq_iff p.topic q.topic,
        option_beq_iff p.serial_number q.serial_number,
      )

  unfoldable pub handlers_of : Option (Leaf H) → List (String × H)
  handlers_of none = []
  handlers_of (some leaf) = leaf.handlers

  -- The handlers subscribed at exactly a path.
  unfoldable pub handlers_at : SubscriptionPath → ByTopic H → List (String × H)
  handlers_at p m = handlers_of (leaf_at p m)

  abbrev handlers_below : Option String → Option (ByManufacturer H) → List (String × H)
  handlers_below k none = []
  handlers_below k (some m) = handlers_of (JsMap.get k m)

  abbrev handlers_two_below :
      Option String → Option String → Option (BySerialNumber H) → List (String × H)
  handlers_two_below j k none = []
  handlers_two_below j k (some m) = handlers_below k (JsMap.get j m)

  handlers_at_lem :
      (p : SubscriptionPath) (m : ByTopic H)
      → handlers_at p m ≡ handlers_two_below p.serial_number p.manufacturer (JsMap.get p.topic m)
  unfolding handlers_at leaf_at handlers_of
  handlers_at_lem p m = ground arith

  follow_leaf : (o : Option (Leaf H)) → follow (λ leaf. leaf.handlers) o ≡ handlers_of o
  unfolding handlers_of
  follow_leaf none = refl
  follow_leaf (some leaf) = refl

  follow_manufacturer :
      (k : Option String) (o : Option (ByManufacturer H))
      → follow (find_level k (λ (leaf : Leaf H). leaf.handlers)) o
        ≡ handlers_below k o ++ handlers_below none o
  follow_manufacturer k none = refl
  follow_manufacturer k (some m) = cc (follow_leaf (JsMap.get k m), follow_leaf (JsMap.get none m))

  follow_serial :
      (j k : Option String) (o : Option (BySerialNumber H))
      → follow (find_level j (find_level k (λ (leaf : Leaf H). leaf.handlers))) o
        ≡ (handlers_two_below j k o ++ handlers_two_below j none o)
          ++ (handlers_two_below none k o ++ handlers_two_below none none o)
  follow_serial j k none = refl
  follow_serial j k (some m) =
      cc (follow_manufacturer k (JsMap.get j m), follow_manufacturer k (JsMap.get none m))

  abbrev pub at : Option String → Option String → Option String → ByTopic H → List (String × H)
  at t s k m = handlers_at (record { topic = t; serial_number = s; manufacturer = k }) m

  -- The handlers found for a path are those subscribed at the path itself and at each path that
  -- has wildcards in place of some of its parts, the more special path always first.
  pub find_internal_lem :
      (p : SubscriptionPath) (m : ByTopic H)
      → find_internal p m
        ≡ at p.topic p.serial_number p.manufacturer m
          ++ (at p.topic p.serial_number none m
              ++ (at p.topic none p.manufacturer m
                  ++ (at p.topic none none m
                      ++ (at none p.serial_number p.manufacturer m
                          ++ (at none p.serial_number none m
                              ++ (at none none p.manufacturer m ++ at none none none m))))))
  unfolding find_internal
  find_internal_lem p m =
      rw
        (
          follow_serial p.serial_number p.manufacturer (JsMap.get p.topic m),
          follow_serial p.serial_number p.manufacturer (JsMap.get none m),
        )
        (simp (append_assoc, handlers_at_lem))
