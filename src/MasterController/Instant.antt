-- ===== src/MasterController/Instant.antt =====
-- src/controller/master-controller.ts: instant actions: initiating them, and what a state says of
-- them. The loop over the actions of a vehicle goes over those that are there when it begins: it
-- removes none but the one that it is at.
pub mod Laws
use vda_5050_lib_2_0_0_js.Prelude.{
  ℕ, suc, ◌+◌, ◌-◌, String, Option, none, some, Bool, true, false, not, ◌&&◌, List, [], ◌∷◌, ◌++◌,
  length, find, select, drop, eqb, ltb, if◌then◌else◌, String-Eq, ◌==◌,
}
use vda_5050_lib_2_0_0_js.JsMap
use vda_5050_lib_2_0_0_js.JsMap.{JsMap}
use vda_5050_lib_2_0_0_js.AgvIdMap
use vda_5050_lib_2_0_0_js.Types.{
  AgvId, Action, ActionState, ActionStatus, is_ended_status, StateContent, Error, ErrorType,
  error_type_name, Topic, topic_name,
}
use vda_5050_lib_2_0_0_js.MasterController.Model.{
  MasterController, InstantActionStateCache, Event, instant_action_state_changed,
  instant_action_error, raise,
}
use vda_5050_lib_2_0_0_js.MasterController.Graph.{
  state_of, get_action_error, references_of, refers_to, has_key,
}
use vda_5050_lib_2_0_0_js.MasterController.Orders.{status_changed}

abbrev pub ActionCaches : Type 0
ActionCaches = JsMap String InstantActionStateCache

abbrev pub action_caches_of : AgvId → MasterController → ActionCaches
action_caches_of agv_id m = elim (AgvIdMap.get agv_id m.current_instant_actions) [
  | none ↦ []
  | some caches ↦ caches
]

unfoldable pub next_ref : MasterController → ℕ
next_ref m = elim m.current_instant_actions_ref [ none ↦ 1 | some ref ↦ ref + 1 ]

abbrev pub add_actions : AgvId → ℕ → List Action → ActionCaches → ActionCaches
add_actions agv_id ref [] caches = caches
add_actions agv_id ref (a ∷ actions) caches = add_actions agv_id ref actions (
    JsMap.set a.action_id
      (record { agv_id = agv_id; action = a; instant_actions_ref = ref; last_action_state = none })
      caches)

-- `initiateInstantActions` up to its publishing.
unfoldable pub initiate_instant_actions : AgvId → List Action → MasterController → MasterController
initiate_instant_actions agv_id actions m = record m {
  current_instant_actions =
      AgvIdMap.set agv_id (add_actions agv_id (next_ref m) actions (action_caches_of agv_id m))
        m.current_instant_actions;
}

-- The message has been published; `ref` is the one taken before.
unfoldable pub instant_actions_initiated : ℕ → MasterController → MasterController
instant_actions_initiated ref m = record m { current_instant_actions_ref = some ref }

abbrev pub remove_actions : List Action → ActionCaches → ActionCaches
remove_actions [] caches = caches
remove_actions (a ∷ actions) caches = remove_actions actions (JsMap.delete a.action_id caches)

abbrev pub put_actions : AgvId → ActionCaches → MasterController → MasterController
put_actions agv_id caches m = record m {
  current_instant_actions =
      if eqb (JsMap.size caches) 0
      then AgvIdMap.delete agv_id m.current_instant_actions
      else AgvIdMap.set agv_id caches m.current_instant_actions;
}

-- The publishing has failed.
unfoldable pub initiation_failed : AgvId → List Action → MasterController → MasterController
initiation_failed agv_id actions m =
    put_actions agv_id (remove_actions actions (action_caches_of agv_id m)) m

unfoldable pub remove_instant_action_state_cache :
    AgvId → String → MasterController → MasterController
remove_instant_action_state_cache agv_id action_id m =
    put_actions agv_id (JsMap.delete action_id (action_caches_of agv_id m)) m

abbrev failure_of : StateContent → ActionState → InstantActionStateCache → Option Error
failure_of state s c = elim s.action_status [
  | ActionStatus.failed ↦ get_action_error state.errors c.action.action_id true
  | _ ↦ none
]

-- An ended action is removed before its handler is called.
unfoldable pub dispatch_instant_action_state :
    AgvId
    → StateContent
    → ActionState
    → InstantActionStateCache
    → MasterController
    → MasterController
dispatch_instant_action_state agv_id state s c m =
    let seen = record m {
      current_instant_actions =
          AgvIdMap.set agv_id
            (JsMap.set c.action.action_id (record c { last_action_state = some s })
              (action_caches_of agv_id m))
            m.current_instant_actions;
    } in
    let left =
      if is_ended_status s.action_status
      then remove_instant_action_state_cache agv_id c.action.action_id seen
      else seen in
    if status_changed c.last_action_state s
    then raise (instant_action_state_changed s (failure_of state s c) c.action) left
    else m

unfoldable pub dispatch_instant_action_error :
    AgvId → Error → InstantActionStateCache → MasterController → MasterController
dispatch_instant_action_error agv_id error c m =
    raise (instant_action_error error c.action)
      (remove_instant_action_state_cache agv_id c.action.action_id m)

unfoldable pub get_instant_actions_validation_error : ℕ → MasterController → Option Error
get_instant_actions_validation_error ref m = elim (find (λ r. eqb r.0 ref) m.validation_errors) [
  | none ↦ none
  | some r ↦ some r.1
]

abbrev pub is_validation_error : Error → Bool
is_validation_error e =
    e.error_type == error_type_name ErrorType.instant_action_validation
    && (refers_to "topic" (topic_name Topic.instant_actions) (references_of e)
        && (not (has_key "orderId" (references_of e))
            && not (has_key "actionId" (references_of e))))

-- `_currentInstantActionsRef - i`; one below 1 is the reference of no action.
abbrev pub with_refs : ℕ → List Error → List (ℕ × Error)
with_refs ref [] = []
with_refs ref (e ∷ errors) = (ref, e) ∷ with_refs (ref - 1) errors

-- New errors stand behind the known ones; the oldest are dropped first.
unfoldable pub update_instant_actions_validation_error :
    List Error → MasterController → MasterController
update_instant_actions_validation_error errors m = elim m.current_instant_actions_ref [
  | none ↦ m
  | some ref ↦
      let found = select is_validation_error errors in
      let known = length m.validation_errors in
      record m {
        validation_errors =
            if ltb known (length found)
            then m.validation_errors ++ with_refs ref (drop known found)
            else drop (known - length found) m.validation_errors;
      }
]

-- What a state says of one action: its state, an error of its own, or one of its message.
unfoldable pub dispatch_instant_action :
    AgvId → StateContent → String → InstantActionStateCache → MasterController → MasterController
dispatch_instant_action agv_id state action_id c m = elim (state_of action_id state) [
  | some s ↦ dispatch_instant_action_state agv_id state s c m
  | none ↦ elim (get_action_error state.errors action_id true) [
    | some e ↦ dispatch_instant_action_error agv_id e c m
    | none ↦ elim (get_instant_actions_validation_error c.instant_actions_ref m) [
      | some e ↦ dispatch_instant_action_error agv_id e c m
      | none ↦ m
    ]
  ]
]

unfoldable pub dispatch_instant_actions :
    AgvId → StateContent → ActionCaches → MasterController → MasterController
dispatch_instant_actions agv_id state [] m = m
dispatch_instant_actions agv_id state ((action_id, c) ∷ caches) m =
    dispatch_instant_actions agv_id state caches
      (dispatch_instant_action agv_id state action_id c m)
