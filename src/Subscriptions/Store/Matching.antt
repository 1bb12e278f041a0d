-- ===== src/Subscriptions/Store/Matching.antt =====
-- src/common/subscription-manager.ts: which messages a new subscription receives.
use vda_5050_lib_2_0_0_js.Prelude.{
  ◌≡◌, ap, String, Option, none, some, Bool, String-Eq, Option-Eq, ◌==◌, ◌&&◌, if◌then◌else◌, ◌++◌,
  arith, true, ok, beq_refl,
}
use vda_5050_lib_2_0_0_js.JsMap
use vda_5050_lib_2_0_0_js.JsMap.{JsMap}
use vda_5050_lib_2_0_0_js.JsMap.Laws.{get-set, get-append}
use vda_5050_lib_2_0_0_js.Types.{AgvIdPattern}
use vda_5050_lib_2_0_0_js.Subscriptions.Store.{
  SubscriptionPath, path_beq, Store, Added, add, find_internal,
}
use vda_5050_lib_2_0_0_js.Subscriptions.Store.Lookup.{handlers_at, find_internal_lem}
use vda_5050_lib_2_0_0_js.Subscriptions.Store.Laws.{path_of, add_lem}

-- A part of a subscription accepts a part of a message: it is a wildcard or the same text.
abbrev pub accepts : Option String → String → Bool
accepts none s = true
accepts (some r) s = r == s

abbrev pub matches : SubscriptionPath → String → String → String → Bool
matches p topic serial manufacturer =
    accepts p.topic topic && (accepts p.serial_number serial && accepts p.manufacturer manufacturer)

abbrev pub complete : String → String → String → SubscriptionPath
complete topic serial manufacturer = record {
  topic = some topic;
  serial_number = some serial;
  manufacturer = some manufacturer;
}

abbrev first {ℓ} : {V : Type ℓ} → Option V → Option V → Option V
first none b = b
first (some a) b = some a

get-first {ℓ} :
    {V : Type ℓ} (k : String) (m n : JsMap String V)
    → JsMap.get k (m ++ n) ≡ first (JsMap.get k m) (JsMap.get k n)
get-first k m n = ground (arith, get-append k m n)

abbrev path : Option String → Option String → Option String → SubscriptionPath
path t n m = record { topic = t; serial_number = n; manufacturer = m }

-- What a single handler at the path `p` contributes at the path `q`.
abbrev share {ℓ} : {H : Type ℓ} → H → SubscriptionPath → SubscriptionPath → Option H
share h p q = if path_beq p q then some h else none

shares {ℓ} :
    {H : Type ℓ} (h : H) (x y z : Option String) (t n m : String)
    → first (share h (path x y z) (path (some t) (some n) (some m))) (
        first (share h (path x y z) (path (some t) (some n) none)) (
          first (share h (path x y z) (path (some t) none (some m))) (
            first (share h (path x y z) (path (some t) none none)) (
              first (share h (path x y z) (path none (some n) (some m))) (
                first (share h (path x y z) (path none (some n) none)) (
                  first
                    (share h (path x y z) (path none none (some m)))
                    (share h (path x y z) (path none none none))))))))
      ≡ (if matches (path x y z) t n m then some h else none)
shares h none none none t n m = ground arith
shares h none none (some k) t n m = ground arith
shares h none (some j) none t n m = ground arith
shares h none (some j) (some k) t n m = ground arith
shares h (some i) none none t n m = ground arith
shares h (some i) none (some k) t n m = ground arith
shares h (some i) (some j) none t n m = ground arith
shares h (some i) (some j) (some k) t n m = ground arith

module _ {ℓ} {H : Type ℓ} where
  share_added :
      (id : String) (topic : Option String) (subject : AgvIdPattern) (h : H) (s s' : Store H)
      (r : Added) (q : SubscriptionPath)
      → JsMap.get id (handlers_at q s.subscriptions) ≡ none
      → add id topic subject h s ≡ ok (s', r)
      → JsMap.get id (handlers_at q s'.subscriptions) ≡ share h (path_of topic subject) q
  share_added id topic subject h s s' r q fresh e = ground (
    arith,
    ap (JsMap.get id) (add_lem id topic subject h s s' r q e),
    get-set id id h (handlers_at q s.subscriptions),
    beq_refl id,
  )

  -- A subscription under a new ID is found for the messages that it matches, and for no other.
  pub find-add :
      (id : String) (topic : Option String) (subject : AgvIdPattern) (h : H) (s s' : Store H)
      (r : Added) (t n m : String)
      → ((q : SubscriptionPath) → JsMap.get id (handlers_at q s.subscriptions) ≡ none)
      → add id topic subject h s ≡ ok (s', r)
      → JsMap.get id (find_internal (complete t n m) s'.subscriptions)
        ≡ (if matches (path_of topic subject) t n m then some h else none)
  find-add id topic subject h s s' r t n m fresh e =
      let here = λ (q : SubscriptionPath). share_added id topic subject h s s' r q (fresh q) e in
      rw (find_internal_lem (complete t n m) s'.subscriptions)
        (simp (get-first, here) (shares h topic subject.serial_number subject.manufacturer t n m))
