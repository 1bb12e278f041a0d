-- ===== src/AgvController/Cleanup/Counting.antt =====
-- src/controller/agv-controller.ts: how often the end of an instant action, or the refusal of one,
-- is reported.
use vda_5050_lib_2_0_0_js.Prelude.{
  ℕ, zero, suc, ◌+◌, ◌≤◌, ◌≡◌, refl, Option, none, some, Bool, true, false, [], ◌∷◌, arith, ltb,
  leb, if◌then◌else◌, Eq,
}
use vda_5050_lib_2_0_0_js.JsMap
use vda_5050_lib_2_0_0_js.JsMap.{JsMap}
use vda_5050_lib_2_0_0_js.JsMap.Laws.{HasDistinctKeys}
use vda_5050_lib_2_0_0_js.AgvController.Cleanup.{count_up}

module _ {K : Type 0} ⦃e : Eq K⦄ (is_counted : K → Bool) (max_count : ℕ) where
  -- The counter of a key that is counted: one up, or gone when that reaches the limit.
  abbrev pub counted : Bool → Option ℕ → Option ℕ
  counted b none = none
  counted false (some n) = some n
  counted true (some n) = if leb max_count (n + 1) then none else some (n + 1)

  count_up-absent :
      (k : K) (m : JsMap K ℕ)
      → JsMap.get k m ≡ none
      → JsMap.get k (count_up is_counted max_count m) ≡ none
  unfolding count_up JsMap.get
  count_up-absent k [] h = refl
  count_up-absent k ((j, n) ∷ m) h = ground (arith, count_up-absent k m)

  -- One published state moves the counter of each key on by itself.
  pub count_up_lem :
      (k : K) (m : JsMap K ℕ)
      → HasDistinctKeys m
      → JsMap.get k (count_up is_counted max_count m) ≡ counted (is_counted k) (JsMap.get k m)
  unfolding count_up JsMap.get
  count_up_lem k [] d = refl
  count_up_lem k ((j, n) ∷ m) (h, d) =
      ground (arith, count_up_lem k m d, count_up-absent j m h, e.equals_iff j k)

  count_up-HasDistinctKeys :
      (m : JsMap K ℕ) → HasDistinctKeys m → HasDistinctKeys (count_up is_counted max_count m)
  unfolding count_up
  count_up-HasDistinctKeys [] d = tt
  count_up-HasDistinctKeys ((j, n) ∷ m) (h, d) =
      ground (arith, count_up-absent j m h, count_up-HasDistinctKeys m d)

  -- The counters after a number of published states during which the same keys are counted.
  unfoldable pub published : ℕ → JsMap K ℕ → JsMap K ℕ
  published zero m = m
  published (suc i) m = count_up is_counted max_count (published i m)

  published-HasDistinctKeys :
      (i : ℕ) (m : JsMap K ℕ) → HasDistinctKeys m → HasDistinctKeys (published i m)
  unfolding published
  published-HasDistinctKeys zero m d = d
  published-HasDistinctKeys (suc i) m d =
      count_up-HasDistinctKeys (published i m) (published-HasDistinctKeys i m d)

  -- A key that starts at zero and is counted each time has its counter, with the number of
  -- published states, as long as there are fewer than the limit, and loses it then.
  pub published_lem :
      (k : K) (m : JsMap K ℕ) (i : ℕ)
      → HasDistinctKeys m
      → 1 ≤ max_count
      → is_counted k ≡ true
      → JsMap.get k m ≡ some 0
      → JsMap.get k (published i m) ≡ (if ltb i max_count then some i else none)
  unfolding published
  published_lem k m zero d le c h = ground arith
  published_lem k m (suc i) d le c h = ground (
    arith,
    count_up_lem k (published i m) (published-HasDistinctKeys i m d),
    published_lem k m i d le c h,
  )
