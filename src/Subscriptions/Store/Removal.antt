-- ===== src/Subscriptions/Store/Removal.antt =====
-- src/common/subscription-manager.ts: what removing a subscription does.
use vda_5050_lib_2_0_0_js.Prelude.{
  ◌≡◌, refl, ap, String, Option, none, some, String-Eq, Option-Eq, if◌then◌else◌, arith, true, ok,
  eqb, beq_refl,
}
use vda_5050_lib_2_0_0_js.JsMap
use vda_5050_lib_2_0_0_js.JsMap.{JsMap}
use vda_5050_lib_2_0_0_js.JsMap.Laws.{get-set, has-get, delete-set_absent}
use vda_5050_lib_2_0_0_js.Types.{AgvIdPattern}
use vda_5050_lib_2_0_0_js.Subscriptions.Store.{
  SubscriptionPath, path_beq, Store, Added, leaf_or_new, add, remove,
}
use vda_5050_lib_2_0_0_js.Subscriptions.Store.Lookup.{handlers_at}
use vda_5050_lib_2_0_0_js.Subscriptions.Store.Laws.{
  path_of, path_beq-eq, handlers_at-put_leaf, handlers_of-leaf_or_new, add-IsAdded, add_lem,
}

module _ {ℓ} {H : Type ℓ} where
  -- Nothing changes and `undefined` is returned for an ID that was never added.
  remove_unknown :
      (id : String) (s : Store H) → JsMap.get id s.subscription_ids ≡ none → remove id s ≡ (s, none)
  unfolding remove
  remove_unknown id s e = rw (e, remove) refl

  -- Removing an ID that is subscribed at a path deletes it there and changes no other path. The
  -- broker is to be unsubscribed exactly if no handler is left at the path.
  remove_lem :
      (id : String) (p q : SubscriptionPath) (h : H) (s : Store H)
      → JsMap.get id s.subscription_ids ≡ some p
      → JsMap.get id (handlers_at p s.subscriptions) ≡ some h
      → (handlers_at q (remove id s).0.subscriptions ≡ (
          if path_beq p q
          then JsMap.delete id (handlers_at q s.subscriptions)
          else handlers_at q s.subscriptions))
        × ((remove id s).1
            ≡ some (record {
              mqtt_topic = (leaf_or_new p s.subscriptions).mqtt_topic;
              requires_unsubscribe =
                  eqb (JsMap.size (JsMap.delete id (handlers_at p s.subscriptions))) 0;
            }))
  unfolding remove
  remove_lem id p q h s e found =
      let leaf = leaf_or_new p s.subscriptions in
      rw (e, remove)
        (ground (
          arith,
          has-get id leaf.handlers,
          handlers_of-leaf_or_new p s.subscriptions,
          handlers_at-put_leaf p q (record leaf { handlers = JsMap.delete id leaf.handlers })
              s.subscriptions,
          path_beq-eq p q,
        ))

  -- A second removal of the same ID is answered by `undefined`.
  remove_removed :
      (id : String) (p : SubscriptionPath) (s : Store H)
      → JsMap.get id s.subscription_ids ≡ some p
      → JsMap.get id (handlers_at p s.subscriptions) ≡ none
      → remove id s ≡ (s, none)
  unfolding remove
  remove_removed id p s e gone =
      rw (e, remove)
        (ground (
          arith,
          has-get id (leaf_or_new p s.subscriptions).handlers,
          handlers_of-leaf_or_new p s.subscriptions,
        ))

  -- Removing a subscription that was just added under a new ID leaves the handlers of every path
  -- as they were.
  remove-add :
      (id : String) (topic : Option String) (subject : AgvIdPattern) (h : H) (s s' : Store H)
      (r : Added) (q : SubscriptionPath)
      → JsMap.get id (handlers_at (path_of topic subject) s.subscriptions) ≡ none
      → add id topic subject h s ≡ ok (s', r)
      → handlers_at q (remove id s').0.subscriptions ≡ handlers_at q s.subscriptions
  remove-add id topic subject h s s' r q fresh e =
      let p = path_of topic subject in
      let before = handlers_at p s.subscriptions in
      let self : path_beq p p ≡ true =
        ground (arith, beq_refl p.topic, beq_refl p.serial_number, beq_refl p.manufacturer) in
      let at_p : handlers_at p s'.subscriptions ≡ JsMap.set id h before =
        ground (arith, add_lem id topic subject h s s' r p e, self) in
      let known : JsMap.get id s'.subscription_ids ≡ some p = ground (
        arith,
        ap (JsMap.get id) (add-IsAdded id topic subject h s s' r e).ids,
        get-set id id p s.subscription_ids,
        beq_refl id,
      ) in
      let present : JsMap.get id (handlers_at p s'.subscriptions) ≡ some h =
        ground (arith, ap (JsMap.get id) at_p, get-set id id h before, beq_refl id) in
      ground (
        arith,
        remove_lem id p q h s' known present,
        add_lem id topic subject h s s' r q e,
        path_beq-eq p q,
        delete-set_absent id h before fresh,
      )
