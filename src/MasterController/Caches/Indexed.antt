-- ===== src/MasterController/Caches/Indexed.antt =====
-- src/controller/master-controller.ts: the maps of caches and the caches themselves.
use vda_5050_lib_2_0_0_js.Prelude.{
  ℕ, zero, suc, ◌≡◌, String, some, true, List, [], ◌∷◌, ◌++◌, length, get_elem?, String-Eq, ℕ-Eq,
  eqb_iff, arith, Bool-cases, inl, inr,
}
use vda_5050_lib_2_0_0_js.Types.{AgvId, agv_id_beq_iff, OrderContent}
use vda_5050_lib_2_0_0_js.MasterController.Model.{MasterController, OrderStateCache, cache_at}
use vda_5050_lib_2_0_0_js.MasterController.Caches.{
  get_order_state_cache, add_order_state_cache, forget, new_cache,
  get_last_assigned_order_state_cache,
}
use vda_5050_lib_2_0_0_js.MasterController.Caches.Laws.{
  get-add, get-forget, same_order, added_last, forget-keeps,
}

-- A cache stands under its own vehicle and order.
abbrev pub IsCacheOf : AgvId → String → ℕ → ℕ → MasterController → Type 0
IsCacheOf agv_id order_id order_update_id i m =
    (c : OrderStateCache) × (cache_at i m ≡ some c)
    × (c.agv_id ≡ agv_id)
    × (c.order.order_id ≡ order_id)
    × (c.order.order_update_id ≡ order_update_id)

abbrev pub IsIndexed : MasterController → Type 0
IsIndexed m =
    (agv_id : AgvId) (order_id : String) (order_update_id i : ℕ)
    → get_order_state_cache agv_id order_id order_update_id m ≡ some i
    → IsCacheOf agv_id order_id order_update_id i m

get_elem-more {ℓ} :
    {A : Type ℓ} (xs : List A) (y x : A) (i : ℕ)
    → get_elem? xs i ≡ some x
    → get_elem? (xs ++ y ∷ []) i ≡ some x
get_elem-more [] y x i h = ground arith
get_elem-more (z ∷ xs) y x zero h = h
get_elem-more (z ∷ xs) y x (suc i) h = get_elem-more xs y x i h

older_cache :
    (agv_id : AgvId) (order : OrderContent) (i : ℕ) (c : OrderStateCache) (m : MasterController)
    → cache_at i m ≡ some c
    → cache_at i (add_order_state_cache agv_id order m) ≡ some c
unfolding add_order_state_cache
older_cache agv_id order i c m h =
    get_elem-more m.caches (new_cache agv_id order (get_last_assigned_order_state_cache agv_id m)) c
      i h

same_order_parts :
    (agv_id : AgvId) (order_id : String) (order_update_id : ℕ) (agv_id' : AgvId)
    (order_id' : String) (order_update_id' : ℕ)
    → same_order agv_id order_id order_update_id agv_id' order_id' order_update_id' ≡ true
    → (agv_id ≡ agv_id') × (order_id ≡ order_id') × (order_update_id ≡ order_update_id')
same_order_parts agv_id order_id order_update_id agv_id' order_id' order_update_id' h = ground (
  arith,
  agv_id_beq_iff agv_id agv_id',
  String-Eq.equals_iff order_id order_id',
  eqb_iff order_update_id order_update_id',
)

-- Adding a cache keeps each cache in the maps under its own vehicle and order.
pub add-IsIndexed :
    (agv_id : AgvId) (order : OrderContent) (m : MasterController)
    → IsIndexed m
    → IsIndexed (add_order_state_cache agv_id order m)
add-IsIndexed agv_id order m h other order_id order_update_id i k =
    let added = get-add agv_id other order order_id order_update_id m in
    elim (Bool-cases
      (same_order agv_id order.order_id order.order_update_id other order_id order_update_id)) [
        | inl e ↦
            let (a, o, u) =
              same_order_parts agv_id order.order_id order.order_update_id other order_id
                order_update_id e in
            let here : length m.caches ≡ i = ground (arith, added, e, k) in
            (
              new_cache agv_id order (get_last_assigned_order_state_cache agv_id m),
              rw (← here) (added_last agv_id order m),
              a,
              o,
              u,
            )
        | inr e ↦
            let (c, at, a, o, u) =
              h other order_id order_update_id i (ground (arith, added, e, k)) in
            (c, older_cache agv_id order i c m at, a, o, u)
      ]

-- So does removing one.
forget-IsIndexed :
    (agv_id : AgvId) (order_id : String) (order_update_id : ℕ) (m : MasterController)
    → IsIndexed m
    → IsIndexed (forget agv_id order_id order_update_id m)
forget-IsIndexed agv_id order_id order_update_id m h other order_id' order_update_id' i k =
    let removed = get-forget agv_id other order_id order_id' order_update_id order_update_id' m in
    let kept = forget-keeps agv_id order_id order_update_id m in
    elim (Bool-cases
      (same_order agv_id order_id order_update_id other order_id' order_update_id')) [
        | inl e ↦ absurd (ground (arith, removed, e, k))
        | inr e ↦
            let (c, at, a, o, u) =
              h other order_id' order_update_id' i (ground (arith, removed, e, k)) in
            (c, rw kept.0 at, a, o, u)
      ]
