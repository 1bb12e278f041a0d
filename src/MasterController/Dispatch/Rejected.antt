-- ===== src/MasterController/Dispatch/Rejected.antt =====
-- src/controller/master-controller.ts: an error that rejects an order.
use vda_5050_lib_2_0_0_js.Prelude.{
  ℕ, ◌≡◌, refl, ◌∙◌, ap, String, none, some, false, [], ◌∷◌, ◌++◌, arith, String-Eq, eqb_iff,
}
use vda_5050_lib_2_0_0_js.Types.{AgvId, agv_id_beq_iff, Error, OrderContent}
use vda_5050_lib_2_0_0_js.MasterController.Model.{
  MasterController, OrderStateCache, Event, order_processed, cache_at, raise,
}
use vda_5050_lib_2_0_0_js.MasterController.Caches.{
  get_order_state_cache, assign_order, assignment_failed, add_order_state_cache,
}
use vda_5050_lib_2_0_0_js.MasterController.Caches.Laws.{get-forget, remove_found, forget-keeps}
use vda_5050_lib_2_0_0_js.MasterController.Dispatch.{rejected_by, dispatch_error}

removed-get :
    (i : ℕ) (c : OrderStateCache) (m : MasterController)
    → cache_at i m ≡ some c
    → get_order_state_cache c.agv_id c.order.order_id c.order.order_update_id
        (assignment_failed i m)
      ≡ none
removed-get i c m h = rw (remove_found i c m h) (
    ground (
      arith,
      get-forget c.agv_id c.agv_id c.order.order_id c.order.order_id c.order.order_update_id
          c.order.order_update_id m,
      agv_id_beq_iff c.agv_id c.agv_id,
      String-Eq.equals_iff c.order.order_id c.order.order_id,
      eqb_iff c.order.order_update_id c.order.order_update_id,
    ))

dispatch-removed :
    (agv_id : AgvId) (e : Error) (i : ℕ) (m : MasterController)
    → rejected_by e agv_id m ≡ some i
    → dispatch_error agv_id e m
      ≡ raise (order_processed i (some e) false false) (assignment_failed i m)
unfolding dispatch_error assignment_failed
dispatch-removed agv_id e i m h = rw (h, dispatch_error) refl

events-removed :
    (i : ℕ) (c : OrderStateCache) (m : MasterController)
    → cache_at i m ≡ some c
    → (assignment_failed i m).events ≡ m.events
events-removed i c m h =
    rw (remove_found i c m h) (forget-keeps c.agv_id c.order.order_id c.order.order_update_id m).1

get-raise :
    (agv_id : AgvId) (order_id : String) (order_update_id : ℕ) (event : Event)
    (m : MasterController)
    → get_order_state_cache agv_id order_id order_update_id (raise event m)
      ≡ get_order_state_cache agv_id order_id order_update_id m
unfolding get_order_state_cache
get-raise agv_id order_id order_update_id event m = refl

assign_order_absent :
    (agv_id : AgvId) (order : OrderContent) (m : MasterController)
    → get_order_state_cache agv_id order.order_id order.order_update_id m ≡ none
    → assign_order agv_id order m ≡ some (add_order_state_cache agv_id order m)
unfolding assign_order
assign_order_absent agv_id order m h = ground (arith, h)

-- An error that rejects an order is reported to the handler of the order, once, as the end of it;
-- after that the order can be assigned again.
pub dispatch_error-assign_order :
    (agv_id : AgvId) (e : Error) (i : ℕ) (c : OrderStateCache) (m : MasterController)
    → rejected_by e agv_id m ≡ some i
    → cache_at i m ≡ some c
    → ((dispatch_error agv_id e m).events ≡ m.events ++ order_processed i (some e) false false ∷ [])
      × (assign_order c.agv_id c.order (dispatch_error agv_id e m)
          ≡ some (add_order_state_cache c.agv_id c.order (dispatch_error agv_id e m)))
dispatch_error-assign_order agv_id e i c m h k =
    let event = order_processed i (some e) false false in
    (
      rw (dispatch-removed agv_id e i m h)
          (ap (λ events. events ++ event ∷ []) (events-removed i c m k)),
      assign_order_absent c.agv_id c.order (dispatch_error agv_id e m) (
          rw (dispatch-removed agv_id e i m h) (
            get-raise c.agv_id c.order.order_id c.order.order_update_id event
              (assignment_failed i m)
            ∙ removed-get i c m k)),
    )
