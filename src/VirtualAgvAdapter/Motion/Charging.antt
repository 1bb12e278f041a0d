-- ===== src/VirtualAgvAdapter/Motion/Charging.antt =====
-- src/adapter/virtual-agv-adapter.ts: the charging of the battery, and the whole of a tick.
use vda_5050_lib_2_0_0_js.Prelude.{
  ℕ, ◌≡◌, refl, Option, none, some, Bool, true, false, not, ◌&&◌, ◌||◌, List, [], ◌∷◌, ◌++◌, any,
  if◌then◌else◌, Outcome, ok, ◌>>=◌, arith, ◌⊎◌, inl, inr,
}
use vda_5050_lib_2_0_0_js.Types.{same_double, Double, Error, Json}
use vda_5050_lib_2_0_0_js.AgvController.Model.{is_some}
use vda_5050_lib_2_0_0_js.VirtualAgvAdapter.Numbers.{
  Arithmetic, ten, hundred, thousand, seconds_per_hour,
}
use vda_5050_lib_2_0_0_js.VirtualAgvAdapter.Vehicle.{
  Vehicle, VirtualAgvState, VirtualAgvAdapterOptions, Call, call, with_state, stop_charging,
  update_battery_state, update_partial_state, remove_error,
}
use vda_5050_lib_2_0_0_js.VirtualAgvAdapter.Definitions.{VirtualError, FreshLoad}
use vda_5050_lib_2_0_0_js.VirtualAgvAdapter.Adapter.{VirtualAgvAdapter}
use vda_5050_lib_2_0_0_js.VirtualAgvAdapter.Adapter.Ticks.{advance_actions}
use vda_5050_lib_2_0_0_js.VirtualAgvAdapter.Motion.{advance_traverse, report_battery, with_charge}

module _ (a : Arithmetic) (o : VirtualAgvAdapterOptions) where
  abbrev charge_rate : Double
  charge_rate = a.divide (a.divide hundred seconds_per_hour) o.full_battery_charge_time

  abbrev pub charge_after : Double → VirtualAgvState → Double
  charge_after interval s =
      a.minimum hundred (a.add s.battery_state.battery_charge (a.multiply charge_rate interval))

  -- The charge is ten percent above the threshold.
  abbrev pub is_recovered : Double → Bool
  is_recovered charge = a.reaches charge (Json.number (a.add o.low_battery_charge_threshold ten))

  -- A tick on which the charge is reported in addition.
  abbrev pub is_report_tick : ℕ → Double → Bool
  is_report_tick tick tick_interval =
      a.divides_tick (a.divide (a.divide thousand charge_rate) tick_interval) tick

  remove_if : Option Error → Vehicle → Vehicle
  remove_if none v = v
  remove_if (some e) v = call (remove_error e) v

  -- On a tick of the additional report.
  report_in_addition : Bool → Bool → Option Error → Vehicle → Vehicle
  unfolding remove_if
  report_in_addition false is_full error v = v
  report_in_addition true is_full error v = report_battery a o (not is_full) (remove_if error v)

  finish_charging : Bool → Vehicle → Vehicle
  finish_charging false v = v
  finish_charging true v =
      let stopped = stop_charging v in call (update_partial_state stopped.changes) stopped.vehicle

  abbrev pub takes_error : Double → VirtualAgvAdapter → Bool
  takes_error new_charge d = is_some d.battery_low_error && is_recovered new_charge

  unfoldable pub charge : ℕ → Double → Double → VirtualAgvAdapter → VirtualAgvAdapter
  unfolding report_in_addition finish_charging
  charge tick tick_interval interval d =
      let new_charge = charge_after interval d.vehicle.state in
      let is_full = same_double new_charge hundred in
      let taken = takes_error new_charge d in
      let charged = report_battery a o false (with_state (with_charge a o new_charge) d.vehicle) in
      let error = if taken then d.battery_low_error else none in
      record d {
        vehicle =
            finish_charging is_full
              (report_in_addition (is_report_tick tick tick_interval) is_full error charged);
        battery_low_error = if taken then none else d.battery_low_error;
      }

  -- `_advanceBatteryCharge`.
  unfoldable pub advance_battery_charge :
      ℕ → Double → Double → VirtualAgvAdapter → VirtualAgvAdapter
  advance_battery_charge tick tick_interval interval d =
      if not d.vehicle.state.battery_state.charging || d.vehicle.state.is_paused
      then d
      else charge tick tick_interval interval d

  -- `_onTick`.
  unfoldable pub on_tick :
      ℕ
      → Double
      → Double
      → FreshLoad
      → ℕ
      → VirtualAgvAdapter
      → Outcome VirtualError VirtualAgvAdapter
  on_tick tick tick_interval interval fresh draw d = advance_actions a interval fresh d >>= λ acted.
      advance_traverse a o interval draw acted >>= λ driven.
      ok (advance_battery_charge tick tick_interval interval driven)

  abbrev pub is_removal : Call → Bool
  is_removal (remove_error e) = true
  is_removal _ = false

  -- No removal of an error is among the calls.
  abbrev pub IsSilent : Vehicle → Type 0
  IsSilent v = any is_removal v.calls ≡ false

  any-append :
      (calls : List Call) (c : Call)
      → any is_removal (calls ++ c ∷ []) ≡ (any is_removal calls || is_removal c)
  any-append [] c = ground arith
  any-append (b ∷ calls) c = ground (arith, any-append calls c)

  call-IsSilent : (c : Call) (v : Vehicle) → is_removal c ≡ false → IsSilent v → IsSilent (call c v)
  call-IsSilent c v h k = ground (arith, any-append v.calls c)

  calls-stop_charging : (v : Vehicle) → (stop_charging v).vehicle.calls ≡ v.calls
  unfolding stop_charging
  calls-stop_charging v = ground arith

  finish_charging-IsSilent :
      (full : Bool) (v : Vehicle) → IsSilent v → IsSilent (finish_charging full v)
  unfolding finish_charging
  finish_charging-IsSilent false v h = h
  finish_charging-IsSilent true v h =
      call-IsSilent (update_partial_state (stop_charging v).changes) (stop_charging v).vehicle refl
        (rw (calls-stop_charging v) h)

  report-IsSilent :
      (due full : Bool) (v : Vehicle) → IsSilent v → IsSilent (report_in_addition due full none v)
  unfolding report_in_addition remove_if
  report-IsSilent false full v h = h
  report-IsSilent true full v h =
      call-IsSilent (update_battery_state v.state.battery_state (not full)) v refl h

  charged-IsSilent :
      (new_charge : Double) (v : Vehicle)
      → IsSilent v
      → IsSilent (report_battery a o false (with_state (with_charge a o new_charge) v))
  charged-IsSilent new_charge v h =
      let w = with_state (with_charge a o new_charge) v in
      call-IsSilent (update_battery_state w.state.battery_state false) w refl h

  -- A tick without an error to remove.
  charge-IsSilent :
      (tick : ℕ) (tick_interval interval : Double) (d : VirtualAgvAdapter)
      → (d.battery_low_error ≡ none) ⊎ (is_report_tick tick tick_interval ≡ false)
      → IsSilent d.vehicle
      → IsSilent (charge tick tick_interval interval d).vehicle
  unfolding charge
  charge-IsSilent tick tick_interval interval d (inl e) h =
      finish_charging-IsSilent (same_double (charge_after interval d.vehicle.state) hundred) _ (
        rw e (
          report-IsSilent (is_report_tick tick tick_interval)
            (same_double (charge_after interval d.vehicle.state) hundred) _
            (charged-IsSilent (charge_after interval d.vehicle.state) d.vehicle h)))
  charge-IsSilent tick tick_interval interval d (inr t) h =
      finish_charging-IsSilent (same_double (charge_after interval d.vehicle.state) hundred) _ (
        rw (t, report_in_addition)
          (charged-IsSilent (charge_after interval d.vehicle.state) d.vehicle h))

  -- When the charge recovers on a tick that is no tick of the additional report, the adapter forgets
  -- its error of the low battery without asking the controller to remove it; and an adapter that has
  -- no such error does not ask for a removal in any later tick of charging.
  pub advance_battery_charge-forgets :
      (tick : ℕ) (tick_interval interval : Double) (d : VirtualAgvAdapter) (later : ℕ)
      (later_interval : Double) (e : VirtualAgvAdapter)
      → d.vehicle.state.battery_state.charging ≡ true
      → d.vehicle.state.is_paused ≡ false
      → is_recovered (charge_after interval d.vehicle.state) ≡ true
      → is_report_tick tick tick_interval ≡ false
      → IsSilent d.vehicle
      → e.battery_low_error ≡ none
      → IsSilent e.vehicle
      → ((advance_battery_charge tick tick_interval interval d).battery_low_error ≡ none)
        × IsSilent (advance_battery_charge tick tick_interval interval d).vehicle
        × ((advance_battery_charge later tick_interval later_interval e).battery_low_error ≡ none)
        × IsSilent (advance_battery_charge later tick_interval later_interval e).vehicle
  unfolding advance_battery_charge charge
  advance_battery_charge-forgets tick tick_interval interval d later later_interval e c p r t n k
        l =
      (
        ground (arith, c, p, r),
        ground (arith, c, p, charge-IsSilent tick tick_interval interval d (inr t) n),
        ground (arith, k),
        ground (arith, charge-IsSilent later tick_interval later_interval e (inl k) l),
      )
