-- ===== src/MasterController/Orders/Processed/Marks.antt =====
-- src/controller/master-controller.ts: a cache is marked when its handler `onOrderProcessed` has been
-- called for the end of the order.
use vda_5050_lib_2_0_0_js.Prelude.{
  ℕ, zero, suc, ◌+◌, ◌≡◌, refl, ◌∙◌, String, Option, none, some, Bool, true, false, List, [], ◌∷◌,
  ◌++◌, any, get_elem?, if◌then◌else◌, arith, Bool-cases, inl, inr, String-Eq, ℕ-Eq,
}
use vda_5050_lib_2_0_0_js.Types.{AgvId, StateContent, ActionStatus}
use vda_5050_lib_2_0_0_js.MasterController.Model.{
  MasterController, OrderStateCache, Event, order_processed, cache_at, put_cache, set_cache,
}
use vda_5050_lib_2_0_0_js.MasterController.Caches.{
  forget, remove_order_state_cache, remove_cache, drop_last, get_last_active_order_state_cache,
}
use vda_5050_lib_2_0_0_js.MasterController.Caches.Laws.{forget-keeps}
use vda_5050_lib_2_0_0_js.MasterController.Orders.{
  take_over_last, take_over_cache, take_over_active, take_over, is_order_canceling,
}
use vda_5050_lib_2_0_0_js.MasterController.Orders.Processed.{
  Progress, settled, is_due, finish_order, dispatch_order_state, dispatch_to, stitched,
  process_order_state, is_order_processed, is_active, raise_all,
}
use vda_5050_lib_2_0_0_js.MasterController.Orders.Processed.Once.{
  is_completion, process_order_state-IsQuiet,
}

abbrev pub mark_at : ℕ → List OrderStateCache → Bool
mark_at i [] = false
mark_at zero (c ∷ caches) = c.is_order_processed_handler_invoked
mark_at (suc i) (c ∷ caches) = mark_at i caches

abbrev pub count_completions : List Event → ℕ
count_completions [] = 0
count_completions (e ∷ events) = (if is_completion e then 1 else 0) + count_completions events

-- The calls of `onOrderProcessed` so far, and one more if the cache is not marked.
abbrev pub due : ℕ → MasterController → ℕ
due i m = count_completions m.events + (if mark_at i m.caches then 0 else 1)

count-append :
    (xs ys : List Event)
    → count_completions (xs ++ ys) ≡ count_completions xs + count_completions ys
count-append [] ys = omega arith
count-append (x ∷ xs) ys = omega (arith, count-append xs ys)

count_quiet : (xs : List Event) → any is_completion xs ≡ false → count_completions xs ≡ 0
count_quiet [] h = refl
count_quiet (x ∷ xs) h = ground (arith, count_quiet xs)

mark-get :
    (i : ℕ) (xs : List OrderStateCache) (c : OrderStateCache)
    → get_elem? xs i ≡ some c
    → mark_at i xs ≡ c.is_order_processed_handler_invoked
mark-get i [] c h = ground arith
mark-get zero (x ∷ xs) c h = ground arith
mark-get (suc i) (x ∷ xs) c h = mark-get i xs c h

mark-set :
    (i : ℕ) (xs : List OrderStateCache) (c d : OrderStateCache)
    → get_elem? xs i ≡ some d
    → mark_at i (set_cache i c xs) ≡ c.is_order_processed_handler_invoked
mark-set i [] c d h = ground arith
mark-set zero (x ∷ xs) c d h = refl
mark-set (suc i) (x ∷ xs) c d h = mark-set i xs c d h

mark-set_kept :
    (i j : ℕ) (xs : List OrderStateCache) (c d : OrderStateCache)
    → get_elem? xs j ≡ some d
    → c.is_order_processed_handler_invoked ≡ d.is_order_processed_handler_invoked
    → mark_at i (set_cache j c xs) ≡ mark_at i xs
mark-set_kept i j [] c d h k = refl
mark-set_kept zero zero (x ∷ xs) c d h k = ground arith
mark-set_kept (suc i) zero (x ∷ xs) c d h k = refl
mark-set_kept zero (suc j) (x ∷ xs) c d h k = refl
mark-set_kept (suc i) (suc j) (x ∷ xs) c d h k = mark-set_kept i j xs c d h k

due-forget :
    (i : ℕ) (agv_id : AgvId) (order_id : String) (order_update_id : ℕ) (m : MasterController)
    → due i (forget agv_id order_id order_update_id m) ≡ due i m
due-forget i agv_id order_id order_update_id m =
    let kept = forget-keeps agv_id order_id order_update_id m in rw (kept.0, kept.1) refl

due-put :
    (i j : ℕ) (c d : OrderStateCache) (m : MasterController)
    → cache_at j m ≡ some d
    → c.is_order_processed_handler_invoked ≡ d.is_order_processed_handler_invoked
    → due i (put_cache j c m) ≡ due i m
due-put i j c d m h k = rw (mark-set_kept i j m.caches c d h k) refl

due-drop_last :
    (i j : ℕ) (b : Bool) (c : OrderStateCache) (m : MasterController)
    → cache_at j m ≡ some c
    → due i (drop_last b j c m) ≡ due i m
due-drop_last i j true c m h = due-put i j (record c { last_cache = none }) c m h refl
due-drop_last i j false c m h = refl

due-remove_cache :
    (i j : ℕ) (b : Bool) (m : MasterController) (found : Option OrderStateCache)
    → cache_at j m ≡ found
    → due i (remove_cache j b m found) ≡ due i m
due-remove_cache i j b m none h = refl
due-remove_cache i j b m (some c) h =
    due-forget i c.agv_id c.order.order_id c.order.order_update_id (drop_last b j c m)
    ∙ due-drop_last i j b c m h

due-remove :
    (i j : ℕ) (b : Bool) (m : MasterController) → due i (remove_order_state_cache j b m) ≡ due i m
unfolding remove_order_state_cache
due-remove i j b m = due-remove_cache i j b m (cache_at j m) refl

due-take_over_cache :
    (i j : ℕ) (c : OrderStateCache) (m : MasterController) (last : Option OrderStateCache)
    → cache_at i m ≡ some c
    → due i (take_over_cache i j c m last) ≡ due i m
unfolding take_over
due-take_over_cache i j c m none h = refl
due-take_over_cache i j c m (some last) h =
    due-remove i j true (put_cache i (take_over last c) m)
    ∙ due-put i i (take_over last c) c m h refl

due-take_over_active :
    (i : ℕ) (c : OrderStateCache) (m : MasterController) (j : Option ℕ)
    → cache_at i m ≡ some c
    → due i (take_over_active i c m j) ≡ due i m
due-take_over_active i c m none h = refl
due-take_over_active i c m (some j) h = due-take_over_cache i j c m (cache_at j m) h

due-stitched :
    (i : ℕ) (m : MasterController) (c : Option OrderStateCache)
    → cache_at i m ≡ c
    → due i (stitched i m c) ≡ due i m
unfolding take_over_last
due-stitched i m none h = refl
due-stitched i m (some c) h = due-take_over_active i c m (get_last_active_order_state_cache c m) h

get-set_cache :
    (i : ℕ) (c d : OrderStateCache) (xs : List OrderStateCache)
    → get_elem? xs i ≡ some d
    → get_elem? (set_cache i c xs) i ≡ some c
get-set_cache i c d [] h = ground arith
get-set_cache zero c d (x ∷ xs) h = refl
get-set_cache (suc i) c d (x ∷ xs) h = get-set_cache i c d xs h

due-raise_all :
    (i : ℕ) (events : List Event) (m : MasterController)
    → due i (raise_all events m) ≡ due i m + count_completions events
due-raise_all i events m = omega (arith, count-append m.events events)

due-marked :
    (i : ℕ) (c : OrderStateCache) (m : MasterController)
    → cache_at i m ≡ some c
    → due i (put_cache i (record c { is_order_processed_handler_invoked = true }) m)
      ≡ count_completions m.events
due-marked i c m h =
    rw (mark-set i m.caches (record c { is_order_processed_handler_invoked = true }) c h)
      (omega arith)

due-settled :
    (i : ℕ) (stays : Bool) (c : OrderStateCache) (m : MasterController)
    → cache_at i m ≡ some c
    → due i (settled i stays c m) ≡ count_completions m.events
due-settled i true c m h = due-marked i c m h
due-settled i false c m h =
    due-remove i i true (put_cache i (record c { is_order_processed_handler_invoked = true }) m)
    ∙ due-marked i c m h

due-unmarked :
    (i : ℕ) (c : OrderStateCache) (m : MasterController)
    → cache_at i m ≡ some c
    → c.is_order_processed_handler_invoked ≡ false
    → due i m ≡ count_completions m.events + 1
due-unmarked i c m h k = rw (mark-get i m.caches c h, k) refl

unmarked-is_due :
    (progress : Progress) (c : OrderStateCache)
    → is_due progress c ≡ true
    → c.is_order_processed_handler_invoked ≡ false
unmarked-is_due progress c h = ground arith

due-finish_order :
    (i : ℕ) (state : StateContent) (c : OrderStateCache) (m : MasterController)
    → cache_at i m ≡ some c
    → due i (finish_order i state c m) ≡ due i m
unfolding finish_order
due-finish_order i state c m h =
    let progress = is_order_processed c state in
    elim (Bool-cases (is_due progress c)) [
      | inr e ↦ rw e refl
      | inl e ↦ rw e (
          omega (
            arith,
            due-raise_all i
                (order_processed i none (is_order_canceling c state (ActionStatus.finished ∷ []) m)
                    (is_active progress)
                  ∷ [])
                (settled i (is_active progress) c m),
            due-settled i (is_active progress) c m h,
            due-unmarked i c m h (unmarked-is_due progress c e),
          ))
    ]

due-dispatch_to :
    (i : ℕ) (state : StateContent) (m : MasterController) (c : Option OrderStateCache)
    → cache_at i m ≡ c
    → due i (dispatch_to i state m c) ≡ due i m
due-dispatch_to i state m none h = refl
due-dispatch_to i state m (some c) h =
    let is_canceling =
      is_order_canceling c state (ActionStatus.running ∷ ActionStatus.finished ∷ []) m in
    let r = process_order_state i is_canceling state c in
    let quiet = process_order_state-IsQuiet i is_canceling state c in
    let put = put_cache i r.0 m in
    due-finish_order i state r.0 (raise_all r.1 put) (get-set_cache i r.0 c m.caches h)
    ∙ omega (arith, due-raise_all i r.1 put, count_quiet r.1 quiet.0)
    ∙ due-put i i r.0 c m h quiet.1

-- The calls of `onOrderProcessed`, and one more as long as the cache of the order is not marked, are
-- as many after the dispatch of a state to the order as before: the order is reported as processed
-- when its cache is marked, and at most once.
pub due-dispatch_order_state :
    (i : ℕ) (state : StateContent) (m : MasterController)
    → due i (dispatch_order_state i state m) ≡ due i m
unfolding dispatch_order_state
due-dispatch_order_state i state m =
    let m' = stitched i m (cache_at i m) in
    due-dispatch_to i state m' (cache_at i m') refl ∙ due-stitched i m (cache_at i m) refl
