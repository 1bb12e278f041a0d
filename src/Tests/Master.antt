-- ===== src/Tests/Master.antt =====
-- src/controller/master-controller.ts at a vehicle and an order.
use vda_5050_lib_2_0_0_js.AgvIdMap
use vda_5050_lib_2_0_0_js.JsMap
use vda_5050_lib_2_0_0_js.Prelude.{
  ℕ, arith, ◌≡◌, refl, ◌↔◌, String, none, some, false, [], ◌∷◌, ◌++◌, String-Eq,
}
use vda_5050_lib_2_0_0_js.Types.{
  AgvId, Action, ActionState, ActionStatus, BlockingType, Error, ErrorLevel, StateContent,
}
use vda_5050_lib_2_0_0_js.MasterController.Model.{
  MasterController, OrderStateCache, InstantActionStateCache, order_processed,
}
use vda_5050_lib_2_0_0_js.MasterController.Caches.{
  add_order_state_cache, assign_order, assignment_failed, get_order_state_cache, new_cache,
  get_last_assigned_order_state_cache,
}
use vda_5050_lib_2_0_0_js.MasterController.Caches.Laws.{assignment_failed-assign_order}
use vda_5050_lib_2_0_0_js.MasterController.Caches.Indexed.{IsIndexed, add-IsIndexed}
use vda_5050_lib_2_0_0_js.MasterController.Orders.Processed.{
  is_order_processed, is_order_processed_iff, completed, active, NothingLeft, HorizonLeft, AllEnded,
  dispatch_order_state,
}
use vda_5050_lib_2_0_0_js.MasterController.Orders.Processed.Marks.{due, due-dispatch_order_state}
use vda_5050_lib_2_0_0_js.MasterController.Dispatch.{dispatch_error, rejected_by, parse_int}
use vda_5050_lib_2_0_0_js.MasterController.Dispatch.Rejected.{dispatch_error-assign_order}
use vda_5050_lib_2_0_0_js.MasterController.Instant.{dispatch_instant_action_state}
use vda_5050_lib_2_0_0_js.MasterController.Instant.Laws.{
  find_action, dispatch_instant_action_state_lem,
}
use vda_5050_lib_2_0_0_js.AgvController.Errors.{reference}
use vda_5050_lib_2_0_0_js.AgvController.Model.{snapshot}
use vda_5050_lib_2_0_0_js.Tests.Fixtures.{first_order, idle_state, action}

abbrev agv : AgvId
agv = record { manufacturer = "RobotCompany"; serial_number = "001" }

abbrev start : MasterController
start = record {
  current_orders = [];
  caches = [];
  current_instant_actions = [];
  current_instant_actions_ref = none;
  validation_errors = [];
  events = [];
}

abbrev cache : OrderStateCache
cache = new_cache agv first_order.content none

assigned : MasterController
assigned = add_order_state_cache agv first_order.content start

reported : StateContent
reported = snapshot idle_state

is_order_processed_iff_example :
    ((is_order_processed cache reported ≡ completed) ↔ (NothingLeft reported × AllEnded cache))
    × ((is_order_processed cache reported ≡ active)
        ↔ ((¬ NothingLeft reported) × HorizonLeft reported × AllEnded cache))
is_order_processed_iff_example = is_order_processed_iff cache reported

due-dispatch_order_state_example : due 0 (dispatch_order_state 0 reported assigned) ≡ due 0 assigned
due-dispatch_order_state_example = due-dispatch_order_state 0 reported assigned

abbrev rejection : Error
rejection = record {
  error_description = none;
  error_level = ErrorLevel.warning;
  error_references =
      some
        (reference "topic" "order" ∷ reference "orderId" "o1" ∷ reference "orderUpdateId" "0" ∷ []);
  error_type = "orderError";
}

dispatch_error-assign_order_example :
    ((dispatch_error agv rejection assigned).events
      ≡ assigned.events ++ order_processed 0 (some rejection) false false ∷ [])
    × (assign_order agv first_order.content (dispatch_error agv rejection assigned)
        ≡ some
            (add_order_state_cache agv first_order.content (dispatch_error agv rejection assigned)))
unfolding rejected_by parse_int get_order_state_cache AgvIdMap.get JsMap.get assigned
    add_order_state_cache AgvIdMap.set JsMap.set get_last_assigned_order_state_cache
dispatch_error-assign_order_example =
    dispatch_error-assign_order agv rejection 0 cache assigned refl refl

assignment_failed-assign_order_example :
    (get_order_state_cache agv first_order.order_id first_order.order_update_id assigned ≡ some 0)
    × ((other : AgvId) (order_id : String) (order_update_id : ℕ)
        → get_order_state_cache other order_id order_update_id (assignment_failed 0 assigned)
          ≡ get_order_state_cache other order_id order_update_id start)
unfolding assign_order get_order_state_cache AgvIdMap.get JsMap.get assigned add_order_state_cache
assignment_failed-assign_order_example =
    assignment_failed-assign_order agv first_order.content start assigned refl

start-IsIndexed : IsIndexed start
unfolding get_order_state_cache AgvIdMap.get JsMap.get
start-IsIndexed agv_id order_id order_update_id i h = absurd (ground (arith, h))

add-IsIndexed_example : IsIndexed (add_order_state_cache agv first_order.content start)
add-IsIndexed_example = add-IsIndexed agv first_order.content start start-IsIndexed

abbrev pause : Action
pause = action "i1" "startPause" BlockingType.hard

abbrev pause_cache : InstantActionStateCache
pause_cache = record {
  agv_id = agv;
  action = pause;
  instant_actions_ref = 1;
  last_action_state = none;
}

abbrev paused_state : ActionState
paused_state = record {
  action_description = none;
  action_id = "i1";
  action_status = ActionStatus.finished;
  action_type = none;
  result_description = none;
}

dispatch_instant_action_state_lem_example :
    find_action agv "i1" (dispatch_instant_action_state agv reported paused_state pause_cache start)
    ≡ none
dispatch_instant_action_state_lem_example =
    dispatch_instant_action_state_lem agv agv reported paused_state pause_cache "i1" start refl
