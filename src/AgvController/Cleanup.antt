-- ===== src/AgvController/Cleanup.antt =====
-- src/controller/agv-controller.ts, `_cleanupInstantActionStates` and the part of
-- `_publishCurrentState` that follows the publishing: the states of ended instant actions and the
-- errors of refused ones are taken back after `max_count` published states.
pub mod Counting
use vda_5050_lib_2_0_0_js.Prelude.{
  ℕ, ◌+◌, String, Option, none, some, Bool, true, false, not, ◌&&◌, List, [], ◌∷◌, find, any,
  select, leb, eqb, if◌then◌else◌, String-Eq, ℕ-Eq, ◌==◌,
}
use vda_5050_lib_2_0_0_js.JsMap.{JsMap}
use vda_5050_lib_2_0_0_js.Types.{Action, ActionState, is_ended_status}
use vda_5050_lib_2_0_0_js.AgvController.Model.{
  Controller, ErrorObject, update_state, no_change, PartialState,
}

-- The loops over the counters: the counted keys go one up, or out of the map when they reach
-- `max_count`, which also adds them to the keys to remove.
module _ {K : Type 0} (is_counted : K → Bool) (max_count : ℕ) where
  unfoldable pub count_up : JsMap K ℕ → JsMap K ℕ
  count_up [] = []
  count_up ((k, count) ∷ entries) =
      let rest = count_up entries in
      if not (is_counted k)
      then (k, count) ∷ rest
      else if leb max_count (count + 1)
      then rest
      else (k, count + 1) ∷ rest

  unfoldable pub keys_to_remove : JsMap K ℕ → List K
  keys_to_remove [] = []
  keys_to_remove ((k, count) ∷ entries) =
      let rest = keys_to_remove entries in
      if is_counted k then (if leb max_count (count + 1) then k ∷ rest else rest) else rest

unfoldable pub is_reported_error : Controller → ℕ → Bool
is_reported_error c identity = any (λ e. eqb e.identity identity) c.state.errors

unfoldable pub is_ended_instant_action : Controller → String → Bool
is_ended_instant_action c action_id =
    elim (find (λ s. s.action_id == action_id) c.state.action_states) [
      | none ↦ false
      | some s ↦ is_ended_status s.action_status
    ]

abbrev is_empty {ℓ} : {A : Type ℓ} → List A → Bool
is_empty [] = true
is_empty (x ∷ xs) = false

abbrev unless_empty {ℓ κ} : {A : Type ℓ} {B : Type κ} → List A → B → Option B
unless_empty [] b = none
unless_empty (x ∷ xs) b = some b

unfoldable pub cleanup_instant_action_states : ℕ → Controller → Controller
cleanup_instant_action_states max_count c =
    let errors_to_remove = keys_to_remove (is_reported_error c) max_count c.errored_publish_count in
    let actions_to_remove =
      keys_to_remove (is_ended_instant_action c) max_count c.ended_publish_count in
    let counted = record c {
      errored_publish_count = count_up (is_reported_error c) max_count c.errored_publish_count;
      ended_publish_count = count_up (is_ended_instant_action c) max_count c.ended_publish_count;
    } in
    if is_empty errors_to_remove && is_empty actions_to_remove
    then counted
    else update_state
        (record no_change {
          errors =
              unless_empty errors_to_remove
                (select (λ e. not (any (eqb e.identity) errors_to_remove)) c.state.errors);
          action_states = unless_empty actions_to_remove (
              select (λ s. not (any (λ k. k == s.action_id) actions_to_remove))
                c.state.action_states);
        })
        false counted

-- The state has been handed to the client while it is online.
unfoldable pub state_published : ℕ → Controller → Controller
state_published max_count c =
    cleanup_instant_action_states max_count (record c { timestamp = none })
