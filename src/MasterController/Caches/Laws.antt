-- ===== src/MasterController/Caches/Laws.antt =====
-- src/controller/master-controller.ts: which cache is found for an order.
use vda_5050_lib_2_0_0_js.Prelude.{
  ℕ, ◌≡◌, refl, String, Option, none, some, Bool, List, [], ◌∷◌, ◌++◌, length, get_elem?,
  if◌then◌else◌, ◌&&◌, String-Eq, ℕ-Eq, ◌==◌, arith, Option-cases, inl, inr,
}
use vda_5050_lib_2_0_0_js.JsMap
use vda_5050_lib_2_0_0_js.JsMap.{JsMap}
use vda_5050_lib_2_0_0_js.JsMap.Laws.{get-set, get-delete, get_empty}
use vda_5050_lib_2_0_0_js.AgvIdMap
use vda_5050_lib_2_0_0_js.AgvIdMap.Laws.{get-set_agv, get-delete_agv}
use vda_5050_lib_2_0_0_js.Types.{AgvId, agv_id_beq, agv_id_beq_iff, OrderContent}
use vda_5050_lib_2_0_0_js.MasterController.Model.{
  MasterController, OrderStateCache, OrderIds, cache_at,
}
use vda_5050_lib_2_0_0_js.MasterController.Caches.{
  get_order_state_cache, add_order_state_cache, forget, order_ids_of, update_ids_of, no_orders,
  assign_order, assignment_failed, new_cache, remove_order_state_cache,
  get_last_assigned_order_state_cache,
}

-- The look-up by the maps of a vehicle, which may be missing.
lookup_ids : String → ℕ → OrderIds → Option ℕ
lookup_ids order_id order_update_id ids = elim (JsMap.get order_id ids.by_order_id) [
  | none ↦ none
  | some updates ↦ JsMap.get order_update_id updates
]

get-lookup_ids :
    (agv_id : AgvId) (order_id : String) (order_update_id : ℕ) (m : MasterController)
    → get_order_state_cache agv_id order_id order_update_id m
      ≡ lookup_ids order_id order_update_id (order_ids_of agv_id m)
unfolding get_order_state_cache lookup_ids JsMap.get
get-lookup_ids agv_id order_id order_update_id m = ground arith

lookup_ids-set :
    (order_id other : String) (order_update_id update : ℕ) (i : ℕ) (ids : OrderIds)
    → lookup_ids other update (record ids {
      by_order_id =
          JsMap.set order_id
            (JsMap.set order_update_id i (update_ids_of order_id ids))
            ids.by_order_id;
    })
      ≡ (if order_id == other && order_update_id == update
          then some i
          else lookup_ids other update ids)
unfolding lookup_ids JsMap.get
lookup_ids-set order_id other order_update_id update i ids =
    let updates = JsMap.set order_update_id i (update_ids_of order_id ids) in
    ground (
      arith,
      get-set other order_id updates ids.by_order_id,
      get-set update order_update_id i (update_ids_of order_id ids),
      String-Eq.equals_iff order_id other,
    )

lookup_no_orders :
    (order_id : String) (order_update_id : ℕ) → lookup_ids order_id order_update_id no_orders ≡ none
unfolding lookup_ids JsMap.get
lookup_no_orders order_id order_update_id = refl

abbrev pub same_order : AgvId → String → ℕ → AgvId → String → ℕ → Bool
same_order agv_id order_id order_update_id agv_id' order_id' order_update_id' =
    agv_id_beq agv_id agv_id' && (order_id == order_id' && order_update_id == order_update_id')

-- A cache that is added is found for its vehicle and its order, and every other is found as before.
pub get-add :
    (agv_id other : AgvId) (order : OrderContent) (order_id : String) (order_update_id : ℕ)
    (m : MasterController)
    → get_order_state_cache other order_id order_update_id (add_order_state_cache agv_id order m)
      ≡ (if same_order agv_id order.order_id order.order_update_id other order_id order_update_id
          then some (length m.caches)
          else get_order_state_cache other order_id order_update_id m)
unfolding get_order_state_cache add_order_state_cache lookup_ids JsMap.get
get-add agv_id other order order_id order_update_id m =
    let i = length m.caches in
    let ids = order_ids_of agv_id m in
    let updates = JsMap.set order.order_update_id i (update_ids_of order.order_id ids) in
    ground (
      arith,
      get-set_agv agv_id other
          (record {
            last_assigned = some i;
            by_order_id = JsMap.set order.order_id updates ids.by_order_id;
          })
          m.current_orders,
      agv_id_beq_iff agv_id other,
      lookup_ids-set order.order_id order_id order.order_update_id order_update_id i ids,
    )

lookup_ids-delete :
    (order_id other : String) (order_update_id update : ℕ) (ids : OrderIds) (updates : JsMap ℕ ℕ)
    → JsMap.get order_id ids.by_order_id ≡ some updates
    → lookup_ids other update (record ids {
      by_order_id = JsMap.set order_id (JsMap.delete order_update_id updates) ids.by_order_id;
    })
      ≡ (if order_id == other && order_update_id == update
          then none
          else lookup_ids other update ids)
unfolding lookup_ids
lookup_ids-delete order_id other order_update_id update ids updates h = ground (
  arith,
  get-set other order_id (JsMap.delete order_update_id updates) ids.by_order_id,
  get-delete update order_update_id updates,
  String-Eq.equals_iff order_id other,
)

-- When no update of the order is left, the order goes too.
lookup_ids-delete_order :
    (order_id other : String) (order_update_id update : ℕ) (ids : OrderIds) (updates : JsMap ℕ ℕ)
    → JsMap.get order_id ids.by_order_id ≡ some updates
    → JsMap.size (JsMap.delete order_update_id updates) ≡ 0
    → lookup_ids other update (record ids { by_order_id = JsMap.delete order_id ids.by_order_id })
      ≡ (if order_id == other && order_update_id == update
          then none
          else lookup_ids other update ids)
unfolding lookup_ids
lookup_ids-delete_order order_id other order_update_id update ids updates h z = ground (
  arith,
  get-delete other order_id ids.by_order_id,
  get-delete update order_update_id updates,
  get_empty update (JsMap.delete order_update_id updates) z,
  String-Eq.equals_iff order_id other,
)

lookup_ids_empty :
    (other : String) (update : ℕ) (ids : OrderIds)
    → JsMap.size ids.by_order_id ≡ 0
    → lookup_ids other update ids ≡ none
unfolding lookup_ids
lookup_ids_empty other update ids z = ground (arith, get_empty other ids.by_order_id z)

-- A cache that is removed is no longer found, and every other is found as before.
pub get-forget :
    (agv_id other : AgvId) (order_id order_id' : String) (order_update_id order_update_id' : ℕ)
    (m : MasterController)
    → get_order_state_cache other order_id' order_update_id'
        (forget agv_id order_id order_update_id m)
      ≡ (if same_order agv_id order_id order_update_id other order_id' order_update_id'
          then none
          else get_order_state_cache other order_id' order_update_id' m)
unfolding get_order_state_cache forget lookup_ids
get-forget agv_id other order_id order_id' order_update_id order_update_id' m =
    elim (Option-cases (AgvIdMap.get agv_id m.current_orders)) [
      | inl e ↦ ground (arith, agv_id_beq_iff agv_id other)
      | inr (ids, e) ↦ elim (Option-cases (JsMap.get order_id ids.by_order_id)) [
        | inl k ↦
            ground (arith, agv_id_beq_iff agv_id other, String-Eq.equals_iff order_id order_id')
        | inr (updates, k) ↦
            let left = JsMap.delete order_update_id updates in
            let orders = JsMap.delete order_id ids.by_order_id in
            let kept = JsMap.set order_id left ids.by_order_id in
            ground (
              arith,
              agv_id_beq_iff agv_id other,
              get-set_agv agv_id other (record ids { by_order_id = kept }) m.current_orders,
              get-set_agv agv_id other (record ids { by_order_id = orders }) m.current_orders,
              get-delete_agv agv_id other m.current_orders,
              lookup_ids-delete order_id order_id' order_update_id order_update_id' ids updates k,
              lookup_ids-delete_order order_id order_id' order_update_id order_update_id' ids
                  updates k,
              lookup_ids_empty order_id' order_update_id' (record ids { by_order_id = orders }),
            )
      ]
    ]

-- The caches themselves stay.
pub forget-keeps :
    (agv_id : AgvId) (order_id : String) (order_update_id : ℕ) (m : MasterController)
    → ((forget agv_id order_id order_update_id m).caches ≡ m.caches)
      × ((forget agv_id order_id order_update_id m).events ≡ m.events)
unfolding forget
forget-keeps agv_id order_id order_update_id m =
    elim (Option-cases (AgvIdMap.get agv_id m.current_orders)) [
      | inl e ↦ ground (arith, e)
      | inr (ids, e) ↦ elim (Option-cases (JsMap.get order_id ids.by_order_id)) [
        | inl k ↦ ground (arith, e, k)
        | inr (updates, k) ↦ ground (arith, e, k)
      ]
    ]

get_elem-last {ℓ} :
    {A : Type ℓ} (xs : List A) (x : A) → get_elem? (xs ++ x ∷ []) (length xs) ≡ some x
get_elem-last [] x = refl
get_elem-last (y ∷ xs) x = get_elem-last xs x

pub remove_found :
    (i : ℕ) (c : OrderStateCache) (m : MasterController)
    → cache_at i m ≡ some c
    → assignment_failed i m ≡ forget c.agv_id c.order.order_id c.order.order_update_id m
unfolding assignment_failed remove_order_state_cache
remove_found i c m h = ground (arith, h)

pub added_last :
    (agv_id : AgvId) (order : OrderContent) (m : MasterController)
    → cache_at (length m.caches) (add_order_state_cache agv_id order m)
      ≡ some (new_cache agv_id order (get_last_assigned_order_state_cache agv_id m))
unfolding add_order_state_cache
added_last agv_id order m =
    get_elem-last m.caches (new_cache agv_id order (get_last_assigned_order_state_cache agv_id m))

removed-added :
    (agv_id : AgvId) (order : OrderContent) (m : MasterController)
    → assignment_failed (length m.caches) (add_order_state_cache agv_id order m)
      ≡ forget agv_id order.order_id order.order_update_id (add_order_state_cache agv_id order m)
removed-added agv_id order m =
    remove_found (length m.caches)
      (new_cache agv_id order (get_last_assigned_order_state_cache agv_id m))
      (add_order_state_cache agv_id order m) (added_last agv_id order m)

-- An order that is assigned, and whose publishing fails, leaves no cache: for every order the same
-- cache is found as before, or none as before. In between its own cache is found.
pub assignment_failed-assign_order :
    (agv_id : AgvId) (order : OrderContent) (m assigned : MasterController)
    → assign_order agv_id order m ≡ some assigned
    → (get_order_state_cache agv_id order.order_id order.order_update_id assigned
        ≡ some (length m.caches))
      × ((other : AgvId) (order_id : String) (order_update_id : ℕ)
          → get_order_state_cache other order_id order_update_id
              (assignment_failed (length m.caches) assigned)
            ≡ get_order_state_cache other order_id order_update_id m)
unfolding assign_order
assignment_failed-assign_order agv_id order m assigned h =
    elim (Option-cases (get_order_state_cache agv_id order.order_id order.order_update_id m)) [
      | inr (i, e) ↦ absurd (ground (arith, e, h))
      | inl e ↦
          let added : add_order_state_cache agv_id order m ≡ assigned = ground (arith, e, h) in
          (
            rw (← added) (
                ground (
                  arith,
                  get-add agv_id agv_id order order.order_id order.order_update_id m,
                  agv_id_beq_iff agv_id agv_id,
                  String-Eq.equals_iff order.order_id order.order_id,
                )),
            λ other order_id order_update_id.
                rw (← added, removed-added agv_id order m)
                  (ground (
                    arith,
                    get-forget agv_id other order.order_id order_id order.order_update_id
                        order_update_id (add_order_state_cache agv_id order m),
                    get-add agv_id other order order_id order_update_id m,
                    agv_id_beq_iff agv_id other,
                    String-Eq.equals_iff order.order_id order_id,
                  )),
          )
    ]
