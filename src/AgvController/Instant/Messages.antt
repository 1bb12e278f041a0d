-- ===== src/AgvController/Instant/Messages.antt =====
-- src/controller/agv-controller.ts: an incoming message of instant actions. `schema` is the message
-- of the `TypeError` that `validateTopicObject` throws if the generated validator refuses it.
use vda_5050_lib_2_0_0_js.Prelude.{
  String, Option, none, some, true, not, List, [], ◌∷◌, ◌++◌, any, if◌then◌else◌, String-Eq, ℕ-Eq,
  ◌==◌, append, ok,
}
use vda_5050_lib_2_0_0_js.JsMap
use vda_5050_lib_2_0_0_js.Types.{Action, InstantActions, is_hard, Error, ErrorReference, ErrorType}
use vda_5050_lib_2_0_0_js.AgvController.Model.{
  Run, Controller, AgvAdapter, update_state, no_change, has_active_order, has_canceling_order,
  is_some,
}
use vda_5050_lib_2_0_0_js.AgvController.Errors.{
  create_action_error, create_instant_actions_validation_error, new_error, reference,
  ref_key_error_description_detail,
}
use vda_5050_lib_2_0_0_js.AgvController.Orders.{last}
use vda_5050_lib_2_0_0_js.AgvController.Instant.{
  instant_context, process_instant_action, process_instant_action_chunk, enough_fuel,
}

-- An error that is taken back after a number of state messages.
unfoldable pub report_instant_error : Error → Controller → Controller
report_instant_error error c =
    let (c', object) = new_error error c in
    update_state (record no_change { errors = some (c.state.errors ++ object ∷ []) }) true
      (record c' { errored_publish_count = JsMap.set object.identity 0 c'.errored_publish_count })

abbrev detail : String → List ErrorReference
detail text = reference ref_key_error_description_detail text ∷ []

unfoldable pub cancel_order_refs : Controller → List ErrorReference
cancel_order_refs c =
    if not (has_active_order c)
    then detail "no active order to be canceled"
    else if has_canceling_order c
    then detail "cancel order already pending"
    else []

module _ (adapter : AgvAdapter) where
  unfoldable pub instant_refusal : Action → Controller → Option Error
  instant_refusal action c =
      let context = instant_context action none c in
      let is_cancel = action.action_type == "cancelOrder" in
      let error_type =
        if is_cancel
        then ErrorType.instant_action_no_order_to_cancel
        else ErrorType.instant_action in
      elim (if is_cancel then cancel_order_refs c else adapter.is_action_executable context) [
        | [] ↦ none
        | r ∷ refs ↦
            some
              (create_action_error context error_type "instant action is not executable" (r ∷ refs))
      ]

  -- The filter of `_checkInstantActionExecutable`, which reports the actions that it drops.
  unfoldable pub check_instant_actions : List Action → Controller → Controller × List Action
  check_instant_actions [] c = (c, [])
  check_instant_actions (a ∷ more) c = elim (instant_refusal a c) [
    | some error ↦ check_instant_actions more (report_instant_error error c)
    | none ↦ let (c', kept) = check_instant_actions more c in (c', a ∷ kept)
  ]

  unfoldable pub push_instant_actions : List Action → Controller → Controller
  push_instant_actions actions c = record c {
    current_instant_actions = c.current_instant_actions ++ actions;
  }

  unfoldable pub accept_instant_actions : List Action → Controller → Run
  accept_instant_actions actions c =
      let pending = c.current_instant_actions in
      let (checked, kept) = check_instant_actions actions c in
      let pushed = push_instant_actions kept checked in
      if any (λ a. is_hard a.blocking_type) pending
      then ok pushed
      else process_instant_action_chunk (process_instant_action (enough_fuel pushed)) (last pending)
          (is_some (last pending)) pushed

  unfoldable pub process_instant_actions :
      (InstantActions → Option String) → InstantActions → Controller → Run
  process_instant_actions schema message c = elim (schema message) [
    | some text ↦ ok (
        report_instant_error
          (create_instant_actions_validation_error message
            (append "invalid instant actions: TypeError: " text))
          c)
    | none ↦ accept_instant_actions message.actions c
  ]
