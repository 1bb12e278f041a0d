-- ===== src/AgvController/Reports/Canceling.antt =====
-- src/controller/agv-controller.ts: what the reports about an order that is being cancelled start.
use vda_5050_lib_2_0_0_js.Prelude.{
  ◌≡◌, ◌≢◌, refl, ap, ◌∙◌, sym, append-nil, Bool, true, false, ◌&&◌, List, [], ◌∷◌, ◌++◌, ok,
  Option, none, some, if◌then◌else◌, Bool-cases, inl, inr,
}
use vda_5050_lib_2_0_0_js.Types.{Error, is_ended_status}
use vda_5050_lib_2_0_0_js.AgvController.Model.{
  Run, Controller, ActionContext, ActionTarget, instant, on_node, on_edge, ActionStatusChangeInfo,
  Effect, reset_publish_timer, publish_state, stop_traverse, snapshot, has_canceling_order,
  update_state, publish_current_state, merge_state,
}
use vda_5050_lib_2_0_0_js.AgvController.Errors.{new_error}
use vda_5050_lib_2_0_0_js.AgvController.Status.{
  set_action_status, with_failure, failure, clone_state, continue_order, continue_node,
  continue_edge, continue_canceling, on_order_actions_canceled, are_all_order_actions_canceled,
}
use vda_5050_lib_2_0_0_js.AgvController.Reports.{
  update_action_status, update_order_action_status, for_target,
}

with_failure-log : (f : Option Error) (c : Controller) → (with_failure f c).0.log ≡ c.log
unfolding with_failure new_error
with_failure-log none c = refl
with_failure-log (some e) c = refl

with_failure-canceling :
    (f : Option Error) (c : Controller)
    → has_canceling_order (with_failure f c).0 ≡ has_canceling_order c
unfolding with_failure new_error
with_failure-canceling none c = refl
with_failure-canceling (some e) c = refl

set_action_status-canceling :
    (context : ActionContext) (change : ActionStatusChangeInfo) (c : Controller)
    → has_canceling_order (set_action_status context change c) ≡ has_canceling_order c
unfolding set_action_status update_state publish_current_state merge_state clone_state
set_action_status-canceling context change c = with_failure-canceling (failure context change) c

-- The report itself is published at once, and nothing else happens.
pub set_action_status-log :
    (context : ActionContext) (change : ActionStatusChangeInfo) (c : Controller)
    → let d = set_action_status context change c in
      d.log
      ≡ (c.log ++ reset_publish_timer ∷ []) ++ publish_state d.timestamp (snapshot d.state) ∷ []
unfolding set_action_status update_state publish_current_state merge_state clone_state
set_action_status-log context change c =
    let d = set_action_status context change c in
    ap (λ l. (l ++ reset_publish_timer ∷ []) ++ publish_state d.timestamp (snapshot d.state) ∷ [])
      (with_failure-log (failure context change) c)

abbrev stopping : Bool → List Effect
stopping true = stop_traverse ∷ []
stopping false = []

continue_canceling_lem :
    (c : Controller)
    → (continue_canceling c).log ≡ c.log ++ stopping (are_all_order_actions_canceled c)
unfolding continue_canceling on_order_actions_canceled
continue_canceling_lem c = elim (Bool-cases (are_all_order_actions_canceled c)) [
  | inl e ↦ rw (e, continue_canceling) refl
  | inr e ↦ rw (e, continue_canceling) (sym (append-nil c.log))
]

continue_order-canceling :
    (context : ActionContext) (c : Controller)
    → context.target ≢ instant
    → has_canceling_order c ≡ true
    → continue_order context c ≡ continue_canceling c
unfolding continue_order continue_node continue_edge
continue_order-canceling context c order canceling = by_target context.target refl
  where
    by_target :
        (t : ActionTarget) → context.target ≡ t → continue_order context c ≡ continue_canceling c
    by_target instant e = absurd (order e)
    by_target (on_node n) e = rw (e, continue_order, continue_node, canceling) refl
    by_target (on_edge g a b) e = rw (e, continue_order, continue_edge, canceling) refl

update_action_status-order :
    (context : ActionContext) (change : ActionStatusChangeInfo) (c : Controller)
    → context.target ≢ instant
    → update_action_status context change c ≡ (
        let reported = set_action_status context change c in
        ok (
          if is_ended_status change.action_status
          then continue_order context reported
          else reported))
unfolding update_action_status update_order_action_status
update_action_status-order context change c order = by_target _ _ context.target order
  where
    by_target : (i o : Run) (t : ActionTarget) → t ≢ instant → for_target t i o ≡ o
    by_target i o instant h = absurd (h refl)
    by_target i o (on_node n) h = refl
    by_target i o (on_edge g a b) h = refl

-- While an order is being cancelled, the report of an action of it is published, and starts no
-- action and no edge: the vehicle is asked to stop if all actions of the order have ended with this
-- one, and nothing else is asked of the adapter.
pub update_action_status-canceling :
    (context : ActionContext) (change : ActionStatusChangeInfo) (c : Controller)
    → context.target ≢ instant
    → has_canceling_order c ≡ true
    → let reported = set_action_status context change c in
      (d : Controller) × (update_action_status context change c ≡ ok d)
      × (d.log
          ≡ ((c.log ++ reset_publish_timer ∷ [])
              ++ publish_state reported.timestamp (snapshot reported.state) ∷ [])
            ++ stopping
                (is_ended_status change.action_status && are_all_order_actions_canceled reported))
update_action_status-canceling context change c order canceling =
    let reported = set_action_status context change c in
    let still = set_action_status-canceling context change c ∙ canceling in
    (
      if is_ended_status change.action_status then continue_order context reported else reported,
      update_action_status-order context change c order,
      elim (Bool-cases (is_ended_status change.action_status)) [
        | inl e ↦ rw e (
            ap (λ d. d.log) (continue_order-canceling context reported order still)
            ∙ continue_canceling_lem reported
            ∙ ap (λ l. l ++ stopping (are_all_order_actions_canceled reported))
                (set_action_status-log context change c))
        | inr e ↦ rw e (set_action_status-log context change c ∙ sym (append-nil _))
      ],
    )
