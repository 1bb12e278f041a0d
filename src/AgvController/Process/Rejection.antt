-- ===== src/AgvController/Process/Rejection.antt =====
-- src/controller/agv-controller.ts: what refused, repeated and accepted orders have in common.
use text.Mathlib.TextEquality.{eq_iff}
use vda_5050_lib_2_0_0_js.Prelude.{
  ◌⊎◌, ◌≤◌, ◌≡◌, refl, String, Option, none, some, true, false, [], ◌∷◌, ◌++◌, arith, ltb,
  String-Eq, ok, Option-cases, Bool-cases, inl, inr,
}
use vda_5050_lib_2_0_0_js.Types.{Order, Error, ErrorType, EStop}
use vda_5050_lib_2_0_0_js.AgvController.Model.{
  Controller, AgvAdapter, publish_state, reset_publish_timer, snapshot, update_state, merge_state,
  publish_current_state, has_active_order, has_canceling_order,
}
use vda_5050_lib_2_0_0_js.AgvController.Errors.{new_error, create_order_error}
use vda_5050_lib_2_0_0_js.AgvController.Orders.{
  reject_order, is_order_base_stitching, route_refusal, actions_refusal,
}
use vda_5050_lib_2_0_0_js.AgvController.Orders.BaseEnd.{Extends, stitching-Extends}
use vda_5050_lib_2_0_0_js.AgvController.Validation.{validate_order_constraints}
use vda_5050_lib_2_0_0_js.AgvController.Validation.Spec.{IsWellFormed}
use vda_5050_lib_2_0_0_js.AgvController.Validation.Complete.{validate_iff}
use vda_5050_lib_2_0_0_js.AgvController.Process.{
  Decision, accept_order, AcceptMode, accept_stitch, accept, discard, reject, decide, decide_update,
  refusal, process_order, apply_decision, validation_refusal, canceling_refusal, vehicle_refusal,
  is_e_stop, is_automatic,
}

-- What a rejection leaves: everything but one new error at the end, which is published at once.
pub record IsRejection (error : Error) (c c' : Controller) : Type 0 where
  pub order : c'.current_order ≡ c.current_order
  pub errors :
      c'.state.errors ≡ c.state.errors ++ record { identity = c.next_identity; error = error } ∷ []
  pub nodes : c'.state.node_states ≡ c.state.node_states
  pub edges : c'.state.edge_states ≡ c.state.edge_states
  pub actions : c'.state.action_states ≡ c.state.action_states
  pub published :
      c'.log ≡ (c.log ++ reset_publish_timer ∷ []) ++ publish_state none (snapshot c'.state) ∷ []

reject_order-IsRejection :
    (error : Error) (c : Controller) → IsRejection error c (reject_order error c)
unfolding reject_order update_state publish_current_state merge_state new_error
reject_order-IsRejection error c = record {
  order = refl;
  errors = refl;
  nodes = refl;
  edges = refl;
  actions = refl;
  published = refl;
}

module _ (adapter : AgvAdapter) (schema : Order → Option String) where
  rejected-IsRejection :
      (order : Order) (c : Controller) (error : Error)
      → decide adapter schema order c ≡ reject error
      → IsRejection error c (process_order adapter schema order c)
  unfolding process_order apply_decision
  rejected-IsRejection order c error e = rw (e, apply_decision) (reject_order-IsRejection error c)

  -- What holds of every order that is accepted.
  pub record IsAcceptable (order : Order) (c : Controller) : Type 0 where
    pub valid : schema order ≡ none
    pub well_formed : IsWellFormed order.content
    pub not_canceling : has_canceling_order c ≡ false
    pub traversable : route_refusal adapter order ≡ none
    pub executable : actions_refusal adapter order ≡ none
    pub not_charging : c.state.battery_state.charging ≡ false
    pub no_e_stop : c.state.safety_state.e_stop ≡ EStop.none
    pub no_field_violation : c.state.safety_state.field_violation ≡ false
    pub automatic : is_automatic c.state.operating_mode ≡ true

  refusal-none :
      (order : Order) (c : Controller) (mode : AcceptMode)
      → decide adapter schema order c ≡ accept mode
      → refusal adapter schema order c ≡ none
  unfolding decide
  refusal-none order c mode e = ground arith

  validation_refusal-none :
      (order : Order)
      → validation_refusal schema order ≡ none
      → (schema order ≡ none) × (validate_order_constraints order.content ≡ ok tt)
  unfolding validation_refusal
  validation_refusal-none order e = ground arith

  vehicle_refusal-none :
      (order : Order) (c : Controller)
      → vehicle_refusal order c ≡ none
      → (c.state.battery_state.charging ≡ false)
        × (is_e_stop c.state.safety_state.e_stop ≡ false)
        × (c.state.safety_state.field_violation ≡ false)
        × (is_automatic c.state.operating_mode ≡ true)
  unfolding vehicle_refusal
  vehicle_refusal-none order c e = ground arith

  is_e_stop-false : (e : EStop) → is_e_stop e ≡ false → e ≡ EStop.none
  is_e_stop-false EStop.autoack h = cc
  is_e_stop-false EStop.manual h = cc
  is_e_stop-false EStop.none h = refl
  is_e_stop-false EStop.remote h = cc

  refusal-none_parts :
      (order : Order) (c : Controller)
      → refusal adapter schema order c ≡ none
      → (validation_refusal schema order ≡ none)
        × (has_canceling_order c ≡ false)
        × (route_refusal adapter order ≡ none)
        × (actions_refusal adapter order ≡ none)
        × (vehicle_refusal order c ≡ none)
  unfolding refusal canceling_refusal
  refusal-none_parts order c e = ground arith

  unrefused-IsAcceptable :
      (order : Order) (c : Controller)
      → refusal adapter schema order c ≡ none
      → IsAcceptable order c
  unrefused-IsAcceptable order c e =
      let (v, canceling, route, actions, vehicle) = refusal-none_parts order c e in
      let (valid, constraints) = validation_refusal-none order v in
      let (charging, stop, field, automatic) = vehicle_refusal-none order c vehicle in
      record {
        valid = valid;
        well_formed = (validate_iff order.content).0 constraints;
        not_canceling = canceling;
        traversable = route;
        executable = actions;
        not_charging = charging;
        no_e_stop = is_e_stop-false c.state.safety_state.e_stop stop;
        no_field_violation = field;
        automatic = automatic;
      }

  -- An order is accepted, in any mode, only if it is valid and well formed, no order is being
  -- cancelled, the adapter can travel the route and execute every action, and the vehicle neither
  -- charges nor has stopped for safety nor is driven by hand.
  pub accepted-IsAcceptable :
      (order : Order) (c : Controller) (mode : AcceptMode)
      → decide adapter schema order c ≡ accept mode
      → IsAcceptable order c
  accepted-IsAcceptable order c mode e =
      unrefused-IsAcceptable order c (refusal-none order c mode e)

  -- An order that is not valid or not well formed, or comes while an order is being cancelled, or
  -- has a route or an action that the adapter refuses, or comes while the vehicle charges, has
  -- stopped for safety or is driven by hand, is rejected: one error is added and published at once,
  -- and the current order and the node, edge and action states stay.
  pub process_order-IsRejection :
      (order : Order) (c : Controller)
      → ¬ IsAcceptable order c
      → (error : Error) × IsRejection error c (process_order adapter schema order c)
  unfolding decide
  process_order-IsRejection order c bad = elim (Option-cases (refusal adapter schema order c)) [
    | inl e ↦ absurd (bad (unrefused-IsAcceptable order c e))
    | inr (error, e) ↦ (error, rejected-IsRejection order c error (rw (e, decide) refl))
  ]

  stitching-active :
      (order : Order) (c : Controller) (mode : AcceptMode)
      → has_active_order c ≡ true
      → decide adapter schema order c ≡ accept mode
      → (mode ≡ accept_stitch) × (is_order_base_stitching c order ≡ true)
  unfolding decide decide_update
  stitching-active order c mode active e = ground arith

  active-accepts_stitching :
      (order : Order) (c : Controller) (mode : AcceptMode)
      → has_active_order c ≡ true
      → decide adapter schema order c ≡ accept mode
      → (mode ≡ accept_stitch) × Extends order c
  active-accepts_stitching order c mode active e =
      let (stitch, base) = stitching-active order c mode active e in
      (stitch, stitching-Extends order c base)

  decide_not_newer :
      (order current : Order) (c : Controller)
      → c.current_order ≡ some current
      → order.order_id ≡ current.order_id
      → order.order_update_id ≤ current.order_update_id
      → (decide adapter schema order c ≡ discard)
        ⊎ ((error : Error) × (decide adapter schema order c ≡ reject error))
  unfolding decide decide_update
  decide_not_newer order current c e same le =
      elim (Option-cases (refusal adapter schema order c)) [
        | inr (error, r) ↦ inr (error, rw (r, decide) refl)
        | inl r ↦ elim (Bool-cases (ltb order.order_update_id current.order_update_id)) [
          | inl older ↦ inr (
            create_order_error order ErrorType.order_update "invalid orderUpdateId" [],
            ground (arith, eq_iff order.order_id current.order_id),
          )
          | inr equal ↦ inl (ground (arith, eq_iff order.order_id current.order_id))
        ]
      ]

  discarded :
      (order : Order) (c : Controller)
      → decide adapter schema order c ≡ discard
      → ((process_order adapter schema order c).current_order ≡ c.current_order)
        × ((process_order adapter schema order c).state.action_states ≡ c.state.action_states)
  unfolding process_order apply_decision update_state publish_current_state merge_state
  discarded order c e = rw (e, apply_decision) (refl, refl)

  -- An order that is no newer than the current one of the same ID is never accepted: the current
  -- order and the action states stay.
  pub process_order-not_newer :
      (order current : Order) (c : Controller)
      → c.current_order ≡ some current
      → order.order_id ≡ current.order_id
      → order.order_update_id ≤ current.order_update_id
      → ((process_order adapter schema order c).current_order ≡ c.current_order)
        × ((process_order adapter schema order c).state.action_states ≡ c.state.action_states)
  process_order-not_newer order current c e same le =
      elim (decide_not_newer order current c e same le) [
        | inl d ↦ discarded order c d
        | inr (error, d) ↦ let r = rejected-IsRejection order c error d in (r.order, r.actions)
      ]

  -- While an order is active, an order does one of two things. It starts at the node, by ID and
  -- sequence ID, at which the base of the current order ends, which is the last released node in
  -- front of the first node that is not released, if any, and is accepted in the mode "stitch". Or
  -- the current order and the action states stay.
  pub process_order-Extends :
      (order : Order) (c : Controller)
      → has_active_order c ≡ true
      → (Extends order c
          × (process_order adapter schema order c ≡ accept_order adapter accept_stitch order c))
        ⊎ (((process_order adapter schema order c).current_order ≡ c.current_order)
            × ((process_order adapter schema order c).state.action_states ≡ c.state.action_states))
  unfolding process_order apply_decision
  process_order-Extends order c active = by_decision (decide adapter schema order c) refl
    where
      by_decision :
          (d : Decision)
          → decide adapter schema order c ≡ d
          → (Extends order c
              × (process_order adapter schema order c ≡ accept_order adapter accept_stitch order c))
            ⊎ (((process_order adapter schema order c).current_order ≡ c.current_order)
                × ((process_order adapter schema order c).state.action_states
                    ≡ c.state.action_states))
      by_decision (accept mode) e =
          let (stitch, extends) = active-accepts_stitching order c mode active e in
          inl (extends, rw (e, apply_decision, stitch) refl)
      by_decision discard e = inr (discarded order c e)
      by_decision (reject error) e =
          let r = rejected-IsRejection order c error e in inr (r.order, r.actions)
