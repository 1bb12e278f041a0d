-- ===== src/MasterController/Instant/Laws.antt =====
-- src/controller/master-controller.ts: which instant actions are kept.
use vda_5050_lib_2_0_0_js.Prelude.{
  ◌≡◌, String, Option, none, some, true, ◌&&◌, if◌then◌else◌, arith, String-Eq, ◌==◌, eqb_iff,
}
use vda_5050_lib_2_0_0_js.JsMap
use vda_5050_lib_2_0_0_js.JsMap.Laws.{get-set, get-delete, get_empty}
use vda_5050_lib_2_0_0_js.AgvIdMap
use vda_5050_lib_2_0_0_js.AgvIdMap.Laws.{get-set_agv, get-delete_agv}
use vda_5050_lib_2_0_0_js.Types.{
  AgvId, agv_id_beq, agv_id_beq_iff, ActionState, is_ended_status, StateContent,
}
use vda_5050_lib_2_0_0_js.MasterController.Model.{MasterController, InstantActionStateCache}
use vda_5050_lib_2_0_0_js.MasterController.Orders.{status_changed}
use vda_5050_lib_2_0_0_js.MasterController.Instant.{
  ActionCaches, action_caches_of, put_actions, remove_instant_action_state_cache,
  dispatch_instant_action_state,
}

-- The cache of an instant action of a vehicle.
abbrev pub find_action : AgvId → String → MasterController → Option InstantActionStateCache
find_action agv_id action_id m = JsMap.get action_id (action_caches_of agv_id m)

get-put_actions :
    (agv_id other : AgvId) (action_id : String) (caches : ActionCaches) (m : MasterController)
    → find_action other action_id (put_actions agv_id caches m) ≡ (
        if agv_id_beq agv_id other
        then JsMap.get action_id caches
        else find_action other action_id m)
unfolding JsMap.get
get-put_actions agv_id other action_id caches m = ground (
  arith,
  get-set_agv agv_id other caches m.current_instant_actions,
  get-delete_agv agv_id other m.current_instant_actions,
  get_empty action_id caches,
  eqb_iff (JsMap.size caches) 0,
)

-- A removed action is no longer found, and every other action of every vehicle is found as before.
get-remove_action :
    (agv_id other : AgvId) (action_id action_id' : String) (m : MasterController)
    → find_action other action_id' (remove_instant_action_state_cache agv_id action_id m) ≡ (
        if agv_id_beq agv_id other && action_id == action_id'
        then none
        else find_action other action_id' m)
unfolding remove_instant_action_state_cache
get-remove_action agv_id other action_id action_id' m = ground (
  arith,
  get-put_actions agv_id other action_id' (JsMap.delete action_id (action_caches_of agv_id m)) m,
  get-delete action_id' action_id (action_caches_of agv_id m),
  agv_id_beq_iff agv_id other,
)

get-set_actions :
    (agv_id other : AgvId) (action_id action_id' : String) (c : InstantActionStateCache)
    (m : MasterController)
    → find_action other action_id' (record m {
      current_instant_actions =
          AgvIdMap.set agv_id
            (JsMap.set action_id c (action_caches_of agv_id m))
            m.current_instant_actions;
    })
      ≡ (if agv_id_beq agv_id other && action_id == action_id'
          then some c
          else find_action other action_id' m)
get-set_actions agv_id other action_id action_id' c m = ground (
  arith,
  get-set_agv agv_id other (JsMap.set action_id c (action_caches_of agv_id m))
      m.current_instant_actions,
  get-set action_id' action_id c (action_caches_of agv_id m),
  agv_id_beq_iff agv_id other,
)

-- When a status of an instant action is reported that it did not have before, the action is kept
-- with this state, or forgotten if it has ended; every other action of every vehicle is kept as it
-- is.
pub dispatch_instant_action_state_lem :
    (agv_id other : AgvId) (state : StateContent) (s : ActionState) (c : InstantActionStateCache)
    (action_id : String) (m : MasterController)
    → status_changed c.last_action_state s ≡ true
    → find_action other action_id (dispatch_instant_action_state agv_id state s c m) ≡ (
        if agv_id_beq agv_id other && c.action.action_id == action_id
        then (if is_ended_status s.action_status
            then none
            else some (record c { last_action_state = some s }))
        else find_action other action_id m)
unfolding dispatch_instant_action_state
dispatch_instant_action_state_lem agv_id other state s c action_id m h =
    let id = c.action.action_id in
    let kept : InstantActionStateCache = record c { last_action_state = some s } in
    let seen : MasterController = record m {
      current_instant_actions =
          AgvIdMap.set agv_id (JsMap.set id kept (action_caches_of agv_id m))
            m.current_instant_actions;
    } in
    rw h (
      ground (
        arith,
        get-set_actions agv_id other id action_id kept m,
        get-remove_action agv_id other id action_id seen,
      ))
