-- ===== src/AgvController/Instant/Runs.antt =====
-- src/controller/agv-controller.ts: the fuel of the operations on instant actions.
use vda_5050_lib_2_0_0_js.Prelude.{
  ℕ, zero, suc, ◌+◌, ◌≤◌, ◌≡◌, ◌≢◌, refl, subst, sym, String, Option, some, Bool, List, [], ◌∷◌,
  arith, err, ok, String-Eq, ◌==◌, length, Bool-cases, Option-cases, inl, inr, any, true, false,
  if◌then◌else◌,
}
use vda_5050_lib_2_0_0_js.Types.{Action, ActionState, InstantActions, is_hard, is_ended_status}
use vda_5050_lib_2_0_0_js.AgvController.Model.{
  update_state, merge_state, Run, out_of_fuel, Effect, ActionContext, ActionTarget, instant,
  on_node, on_edge, ActionStatusChangeInfo, Controller, AgvAdapter, emit, cancel_action, is_some,
}
use vda_5050_lib_2_0_0_js.AgvController.Actions.{for_each}
use vda_5050_lib_2_0_0_js.AgvController.Orders.{last}
use vda_5050_lib_2_0_0_js.AgvController.Status.{set_action_status, on_order_actions_canceled}
use vda_5050_lib_2_0_0_js.AgvController.Cancel.{
  cancel_order, cancel_scheduled, fail_waiting_actions, context_to_cancel, running, stopped_by,
  finished,
}
use vda_5050_lib_2_0_0_js.AgvController.Instant.{
  process_instant_action, continue_instant, update_instant_action_status, register_instant_action,
  dispatch, enough_fuel, instant_context, state_reported,
}
use vda_5050_lib_2_0_0_js.AgvController.Instant.Messages.{
  accept_instant_actions, process_instant_actions, check_instant_actions, push_instant_actions,
}
use vda_5050_lib_2_0_0_js.AgvController.Instant.Interference.{set_action_status-current}
use vda_5050_lib_2_0_0_js.AgvController.Instant.Termination.{
  Ends, StepEnds, pending, chunk-Ends, continue_instant-empty, continue_instant-Ends,
  splice_action-le,
}
use vda_5050_lib_2_0_0_js.AgvController.Reports.{
  update_action_status, update_order_action_status, for_target,
}

for_each-current :
    (f : Controller → ActionState → Effect) (states : List ActionState) (c : Controller)
    → (for_each (λ t d. emit (f d t) d) states c).current_instant_actions
      ≡ c.current_instant_actions
unfolding for_each
for_each-current f [] c = refl
for_each-current f (s ∷ states) c = for_each-current f states (emit (f c s) c)

ok-Ends : (n : ℕ) (c : Controller) → pending c ≤ n → Ends n (ok c)
unfolding Ends
ok-Ends n c le = le

-- `finish` ends within what is pending, whatever it reports.
abbrev FinishEnds : ℕ → (ActionContext → ActionStatusChangeInfo → Controller → Run) → Type 0
FinishEnds n finish =
    (context : ActionContext) (change : ActionStatusChangeInfo) (c : Controller)
    → pending c ≤ n
    → Ends n (finish context change c)

module _ (n : ℕ) (finish : ActionContext → ActionStatusChangeInfo → Controller → Run)
    (h : FinishEnds n finish) where
  stopped_by-Ends : (c : Controller) → pending c ≤ n → Ends n (stopped_by finish c)
  unfolding stopped_by update_state merge_state Ends
  stopped_by-Ends c le = elim (Option-cases c.cancel_order_context) [
    | inl e ↦ rw (e, stopped_by) tt
    | inr (context, e) ↦ rw (e, stopped_by) (h context finished _ le)
  ]

  either-Ends : (b : Bool) (r r' : Run) → Ends n r → Ends n r' → Ends n (if b then r else r')
  either-Ends true r r' e e' = e
  either-Ends false r r' e e' = e'

  cancel_scheduled-Ends :
      (states : List ActionState) (c : Controller)
      → pending c ≤ n
      → Ends n (cancel_scheduled finish states c)
  unfolding cancel_scheduled on_order_actions_canceled
  cancel_scheduled-Ends [] c le =
      let asked = on_order_actions_canceled c in
      either-Ends asked.stops_at_once (stopped_by finish asked) (ok asked)
        (stopped_by-Ends asked le) (ok-Ends n asked le)
  cancel_scheduled-Ends (s ∷ states) c le = ok-Ends n _ (
      subst (λ xs. length xs ≤ n)
        (sym (for_each-current (λ d t. cancel_action (context_to_cancel d t)) (s ∷ states) c)) le)

  cancel_order-Ends :
      (context : ActionContext) (c : Controller)
      → pending c ≤ n
      → Ends n (cancel_order finish context c)
  unfolding cancel_order fail_waiting_actions
  cancel_order-Ends context c le =
      let marked = fail_waiting_actions (record c { cancel_order_context = some context }) in
      cancel_scheduled-Ends _ (set_action_status context running marked)
        (subst (λ xs. length xs ≤ n) (sym (set_action_status-current context running marked)) le)

  -- One level of the recursion: `finish` is the status update by the controller.
  dispatch-Ends : StepEnds n (dispatch finish)
  unfolding dispatch register_instant_action Ends
  dispatch-Ends b a c le = elim (Bool-cases (a.action_type == "stateRequest")) [
    | inl request ↦ rw (request, dispatch) (h _ state_reported (register_instant_action a c) le)
    | inr other ↦ elim (Bool-cases (a.action_type == "cancelOrder")) [
      | inl cancel ↦
          rw (other, dispatch, cancel)
            (cancel_order-Ends (instant_context a (some b) c) (register_instant_action a c) le)
      | inr rest ↦ rw (other, dispatch, rest) le
    ]
  ]

-- A status update ends if each call below it does, which has one action less to care for.
update-Ends :
    (n : ℕ) (step : Bool → Action → Controller → Run)
    → ((m : ℕ) → m + 1 ≤ n → StepEnds m step)
    → (context : ActionContext) (change : ActionStatusChangeInfo) (c : Controller) → pending c ≤ n
    → Ends n (update_instant_action_status step context change c)
unfolding update_instant_action_status
update-Ends n step h context change c le =
    elim (Bool-cases (is_ended_status change.action_status)) [
      | inl e ↦ rw (e, update_instant_action_status) (ended n h same)
      | inr e ↦ rw (e, update_instant_action_status) (ok-Ends n c' same)
    ]
  where
    c' : Controller
    c' = set_action_status context change c

    same : pending c' ≤ n
    same = subst (λ xs. length xs ≤ n) (sym (set_action_status-current context change c)) le

    ended :
        (n : ℕ)
        → ((m : ℕ) → m + 1 ≤ n → StepEnds m step)
        → pending c' ≤ n
        → Ends n (continue_instant step context.action c')
    ended zero h p =
        subst (Ends 0) (sym (continue_instant-empty step context.action c' p))
          (ok-Ends 0 _ (omega (arith, p, splice_action-le context.action c')))
    ended (suc m) h p = continue_instant-Ends step m (h m (omega arith)) context.action c' p

process-Ends : (k n : ℕ) → n + 1 ≤ k → StepEnds n (process_instant_action k)
unfolding process_instant_action
process-Ends zero n le b a c p = absurd (omega (arith, le))
process-Ends (suc k) n le b a c p =
    dispatch-Ends n (update_instant_action_status (process_instant_action k))
      (update-Ends n (process_instant_action k) (λ m l. process-Ends k m (omega (arith, le, l)))) b
      a c p

Ends-fuel : (n : ℕ) (r : Run) (d : Controller) → Ends n r → r ≢ err (out_of_fuel, d)
unfolding Ends
Ends-fuel n r d e h = subst (Ends n) h e

process-Ends_enough :
    (c : Controller) → StepEnds (pending c) (process_instant_action (enough_fuel c))
unfolding enough_fuel
process-Ends_enough c = process-Ends (pending c + 1) (pending c) (omega arith)

module _ (adapter : AgvAdapter) (schema : InstantActions → Option String) where
  accept-Ends :
      (actions : List Action) (c : Controller)
      → (n : ℕ) × Ends n (accept_instant_actions adapter actions c)
  unfolding accept_instant_actions
  accept-Ends actions c =
      let checked = check_instant_actions adapter actions c in
      let pushed = push_instant_actions adapter checked.1 checked.0 in
      elim (Bool-cases (any (λ a. is_hard a.blocking_type) c.current_instant_actions)) [
        | inl hard ↦ (
          pending pushed,
          rw (hard, accept_instant_actions) (ok-Ends (pending pushed) pushed (omega arith)),
        )
        | inr none_hard ↦ (
          pending pushed,
          rw (none_hard, accept_instant_actions)
              (chunk-Ends (process_instant_action (enough_fuel pushed)) (pending pushed)
                (process-Ends_enough pushed) (last c.current_instant_actions)
                (is_some (last c.current_instant_actions)) pushed (omega arith)),
        )
      ]

  -- Whatever message of instant actions comes in, and whatever the adapter answers, the controller
  -- ends its work on it within the fuel that it is given.
  pub process_instant_actions-terminates :
      (message : InstantActions) (c d : Controller)
      → process_instant_actions adapter schema message c ≢ err (out_of_fuel, d)
  unfolding process_instant_actions
  process_instant_actions-terminates message c d = elim (Option-cases (schema message)) [
    | inl e ↦
        rw (e, process_instant_actions)
          (let (n, ends) = accept-Ends message.actions c in Ends-fuel n _ d ends)
    | inr (text, e) ↦ rw (e, process_instant_actions) (λ h. ground (arith, h))
  ]

-- Whatever status the adapter reports, of whichever action, the controller ends what follows within
-- the fuel that it is given.
pub update_action_status-terminates :
    (context : ActionContext) (change : ActionStatusChangeInfo) (c d : Controller)
    → update_action_status context change c ≢ err (out_of_fuel, d)
unfolding update_action_status enough_fuel
update_action_status-terminates context change c d =
    by_target _ (update_order_action_status context change c) context.target (
      Ends-fuel (pending c) _ d (
        update-Ends (pending c) (process_instant_action (enough_fuel c))
          (λ m l. process-Ends (enough_fuel c) m (omega (arith, l))) context change c
          (omega arith)))
  where
    by_target :
        (i : Run) (o : Controller) (t : ActionTarget)
        → i ≢ err (out_of_fuel, d)
        → for_target t i (ok o) ≢ err (out_of_fuel, d)
    by_target i o instant h e = h e
    by_target i o (on_node n) h e = ground (arith, e)
    by_target i o (on_edge g a b) h e = ground (arith, e)
