-- ===== src/Subscriptions/Store/Consistency.antt =====
-- src/common/subscription-manager.ts: the invariant between the nested maps and the map of IDs.
use vda_5050_lib_2_0_0_js.Prelude.{
  ◌≡◌, ◌≢◌, refl, ap, ◌==◌, subst, String, Option, none, some, String-Eq, Option-Eq, sym,
  if◌then◌else◌, [], arith, Option-cases, Bool-cases, inl, inr, ok, beq_refl, true,
}
use text.Mathlib.TextEquality.{eq_iff}
use vda_5050_lib_2_0_0_js.JsMap
use vda_5050_lib_2_0_0_js.JsMap.{JsMap}
use vda_5050_lib_2_0_0_js.JsMap.Laws.{
  HasDistinctKeys, get-set, get-delete, has-get, set-HasDistinctKeys, delete-HasDistinctKeys,
}
use vda_5050_lib_2_0_0_js.Types.{AgvIdPattern}
use vda_5050_lib_2_0_0_js.Subscriptions.Store.{
  SubscriptionPath, path_beq, Store, Added, leaf_at, put_leaf, add, remove, leaf_or_new, clear,
}
use vda_5050_lib_2_0_0_js.Subscriptions.Store.Lookup.{handlers_at, handlers_of}
use vda_5050_lib_2_0_0_js.Subscriptions.Store.Laws.{
  path_of, path_beq-eq, handlers_at-put_leaf, handlers_of-leaf_or_new, add-IsAdded, add_lem,
}

path_beq_refl : (q : SubscriptionPath) → path_beq q q ≡ true
path_beq_refl q =
    ground (arith, beq_refl q.topic, beq_refl q.serial_number, beq_refl q.manufacturer)

module _ {ℓ} {H : Type ℓ} where
  -- The IDs of a path's handlers are distinct and registered with that path.
  pub record IsConsistent (s : Store H) : Type ℓ where
    pub distinct : (p : SubscriptionPath) → HasDistinctKeys (handlers_at p s.subscriptions)
    pub registered :
        (p : SubscriptionPath) (id : String) (h : H)
        → JsMap.get id (handlers_at p s.subscriptions) ≡ some h
        → JsMap.get id s.subscription_ids ≡ some p

  nothing_at : (p : SubscriptionPath) → handlers_at {H = H} p [] ≡ []
  unfolding handlers_at leaf_at handlers_of JsMap.get
  nothing_at p = refl

  -- A new or a cleared manager is consistent.
  pub clear-IsConsistent : (s : Store H) → IsConsistent (clear s)
  unfolding clear JsMap.get
  clear-IsConsistent s = record {
    distinct = λ p. subst HasDistinctKeys (sym (nothing_at p)) tt;
    registered = λ p id h e. cc (e, ap (JsMap.get id) (nothing_at p));
  }

  -- Adding under an ID that is not registered keeps the manager consistent.
  pub add-IsConsistent :
      (id : String) (topic : Option String) (subject : AgvIdPattern) (h : H) (s s' : Store H)
      (r : Added)
      → JsMap.get id s.subscription_ids ≡ none
      → add id topic subject h s ≡ ok (s', r)
      → IsConsistent s
      → IsConsistent s'
  add-IsConsistent id topic subject h s s' r fresh e c = record {
    distinct = λ q. ground (
      arith,
      add_lem id topic subject h s s' r q e,
      c.distinct q,
      set-HasDistinctKeys id h (handlers_at q s.subscriptions) (c.distinct q),
    );
    registered = λ q j k found. ground (
      arith,
      ap (JsMap.get j) (add_lem id topic subject h s s' r q e),
      ap (JsMap.get j) (add-IsAdded id topic subject h s s' r e).ids,
      get-set j id h (handlers_at q s.subscriptions),
      get-set j id (path_of topic subject) s.subscription_ids,
      c.registered q j k,
      path_beq-eq (path_of topic subject) q,
      eq_iff id j,
    );
  }

  remove_cases {κ} :
      (P : Store H → Type κ) (id : String) (s : Store H)
      → P s
      → ((p : SubscriptionPath)
          → JsMap.get id s.subscription_ids ≡ some p
          → P (record s {
            subscriptions =
                put_leaf p
                  (record (leaf_or_new p s.subscriptions) {
                    handlers = JsMap.delete id (leaf_or_new p s.subscriptions).handlers;
                  })
                  s.subscriptions;
          }))
      → P (remove id s).0
  unfolding remove
  remove_cases P id s same changed = elim (Option-cases (JsMap.get id s.subscription_ids)) [
    | inl e ↦ rw (e, remove) same
    | inr (p, e) ↦ elim (Bool-cases (JsMap.has id (leaf_or_new p s.subscriptions).handlers)) [
      | inl there ↦ rw (e, remove, there) (changed p e)
      | inr gone ↦ rw (e, remove, gone) same
    ]
  ]

  handlers-removed :
      (id : String) (p q : SubscriptionPath) (s : Store H)
      → handlers_at q (
          put_leaf p
            (record (leaf_or_new p s.subscriptions) {
              handlers = JsMap.delete id (leaf_or_new p s.subscriptions).handlers;
            })
            s.subscriptions)
        ≡ (if path_beq p q
            then JsMap.delete id (handlers_at q s.subscriptions)
            else handlers_at q s.subscriptions)
  handlers-removed id p q s = ground (
    arith,
    handlers_at-put_leaf p q
        (record (leaf_or_new p s.subscriptions) {
          handlers = JsMap.delete id (leaf_or_new p s.subscriptions).handlers;
        })
        s.subscriptions,
    handlers_of-leaf_or_new p s.subscriptions,
    path_beq-eq p q,
  )

  kept-IsConsistent : (id : String) (s : Store H) → IsConsistent s → IsConsistent (remove id s).0
  kept-IsConsistent id s c = remove_cases IsConsistent id s c λ p e. record {
    distinct = λ q. ground (
      arith,
      handlers-removed id p q s,
      c.distinct q,
      delete-HasDistinctKeys id (handlers_at q s.subscriptions) (c.distinct q),
    );
    registered = λ q j k found. ground (
      arith,
      ap (JsMap.get j) (handlers-removed id p q s),
      get-delete j id (handlers_at q s.subscriptions),
      c.registered q j k,
      eq_iff id j,
    );
  }

  -- The handlers of a consistent manager after a removal.
  abbrev IsRemovedAt : String → String → SubscriptionPath → Store H → Store H → Type ℓ
  IsRemovedAt id j q s s' =
      JsMap.get j (handlers_at q s'.subscriptions)
      ≡ (if id == j then none else JsMap.get j (handlers_at q s.subscriptions))

  nowhere :
      (id : String) (q : SubscriptionPath) (s : Store H)
      → IsConsistent s
      → JsMap.get id s.subscription_ids ≢ some q
      → JsMap.get id (handlers_at q s.subscriptions) ≡ none
  nowhere id q s c unknown = elim (Option-cases (JsMap.get id (handlers_at q s.subscriptions))) [
    | inl e ↦ e
    | inr (h, e) ↦ absurd (unknown (c.registered q id h e))
  ]

  unchanged :
      (id j : String) (q : SubscriptionPath) (s : Store H)
      → JsMap.get id (handlers_at q s.subscriptions) ≡ none
      → IsRemovedAt id j q s s
  unchanged id j q s e = ground (arith, e, eq_iff id j)

  removed_at :
      (id j : String) (q : SubscriptionPath) (s : Store H)
      → IsConsistent s
      → IsRemovedAt id j q s (remove id s).0
  unfolding remove
  removed_at id j q s c = elim (Option-cases (JsMap.get id s.subscription_ids)) [
    | inl e ↦ rw (e, remove) (unchanged id j q s (nowhere id q s c (λ f. cc (e, f))))
    | inr (p, e) ↦ elim (Bool-cases (JsMap.has id (leaf_or_new p s.subscriptions).handlers)) [
      | inl there ↦
          rw (e, remove, there)
            (ground (
              arith,
              ap (JsMap.get j) (handlers-removed id p q s),
              get-delete j id (handlers_at q s.subscriptions),
              unchanged id j q s,
              nowhere id q s c,
              e,
              path_beq-eq p q,
              path_beq_refl q,
            ))
      | inr gone ↦
          rw (e, remove, gone)
            (unchanged id j q s (elim (Bool-cases (path_beq p q)) [
              | inl same ↦ ground (
                arith,
                gone,
                path_beq-eq p q same,
                has-get id (handlers_at p s.subscriptions),
                handlers_of-leaf_or_new p s.subscriptions,
              )
              | inr other ↦ nowhere id q s c (λ f. ground (arith, e, f, other, path_beq_refl q))
            ]))
    ]
  ]

  -- Removing any ID, known or not, from a consistent manager keeps it consistent; after that no path
  -- has a handler of the ID, and every path has the handlers of the other IDs that it had.
  pub remove-IsConsistent :
      (id : String) (s : Store H)
      → IsConsistent s
      → IsConsistent (remove id s).0
        × ((q : SubscriptionPath) (j : String) → IsRemovedAt id j q s (remove id s).0)
  remove-IsConsistent id s c = (kept-IsConsistent id s c, λ q j. removed_at id j q s c)
