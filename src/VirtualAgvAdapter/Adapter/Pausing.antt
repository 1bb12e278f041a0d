-- ===== src/VirtualAgvAdapter/Adapter/Pausing.antt =====
-- src/adapter/virtual-agv-adapter.ts: pausing the vehicle and stopping its traverse.
use vda_5050_lib_2_0_0_js.Prelude.{
  ℕ, zero, suc, ◌≡◌, refl, String, some, Bool, true, false, List, [], ◌∷◌, map, All, ok, arith,
}
use vda_5050_lib_2_0_0_js.AgvController.Model.{ActionContext, instant}
use vda_5050_lib_2_0_0_js.VirtualAgvAdapter.Numbers.{Arithmetic}
use vda_5050_lib_2_0_0_js.VirtualAgvAdapter.Vehicle.{
  VirtualAgvState, call, stop_driving, start_pause, stop_pause_without_context,
}
use vda_5050_lib_2_0_0_js.VirtualAgvAdapter.Definitions.{
  VirtualActionDefinition, FreshLoad, get_action_definition,
}
use vda_5050_lib_2_0_0_js.VirtualAgvAdapter.Machine.{
  VirtualActionStateMachine, new_machine, set_pause,
}
use vda_5050_lib_2_0_0_js.VirtualAgvAdapter.Machine.Transition.{
  Ticked, transition, transition_from, apply_linked,
}
use vda_5050_lib_2_0_0_js.VirtualAgvAdapter.Machine.Tick.{tick}
use vda_5050_lib_2_0_0_js.Types.{Double, ActionStatus}
use vda_5050_lib_2_0_0_js.VirtualAgvAdapter.Adapter.Ticks.{put_back, remove_at}
use vda_5050_lib_2_0_0_js.VirtualAgvAdapter.Catalogue.{action_definitions}
use vda_5050_lib_2_0_0_js.VirtualAgvAdapter.Adapter.{
  VirtualAgvAdapter, stop_traverse, execute_action, failed_with,
}
use vda_5050_lib_2_0_0_js.VirtualAgvAdapter.Vehicle.{update_action_status}

-- The executability check of the action "stopPause".
stop_pause_refusal :
    (a : Arithmetic) (estimate : ActionContext → VirtualAgvState → String) (context : ActionContext)
    (d : VirtualAgvAdapter)
    → context.action.action_type ≡ "stopPause"
    → context.target ≡ instant
    → d.vehicle.state.is_paused ≡ false
    → execute_action (action_definitions a estimate) context d
      ≡ ok (record d {
        vehicle = call (update_action_status context (failed_with "not yet paused")) d.vehicle;
      })
unfolding execute_action get_action_definition action_definitions
stop_pause_refusal a estimate context d h t p = rw (h, t, p) refl

stop_traverse-unpaused : (d : VirtualAgvAdapter) → (stop_traverse d).vehicle.state.is_paused ≡ false
unfolding stop_traverse stop_pause_without_context stop_driving
stop_traverse-unpaused d = ground arith

-- After the traverse was stopped the vehicle neither drives nor is paused, and each state machine is
-- as it was, asked to pause or not; the action "stopPause", which would resume them, is refused.
pub stop_traverse-refuses_stop_pause :
    (a : Arithmetic) (estimate : ActionContext → VirtualAgvState → String) (context : ActionContext)
    (d : VirtualAgvAdapter)
    → context.action.action_type ≡ "stopPause"
    → context.target ≡ instant
    → ((stop_traverse d).vehicle.state.is_driving ≡ false)
      × ((stop_traverse d).vehicle.state.is_paused ≡ false)
      × ((stop_traverse d).action_state_machines ≡ d.action_state_machines)
      × (execute_action (action_definitions a estimate) context (stop_traverse d)
          ≡ ok (record (stop_traverse d) {
            vehicle =
                call
                  (update_action_status context (failed_with "not yet paused"))
                  (stop_traverse d).vehicle;
          }))
unfolding stop_traverse stop_pause_without_context stop_driving
stop_traverse-refuses_stop_pause a estimate context d h t = (
  ground arith,
  stop_traverse-unpaused d,
  refl,
  stop_pause_refusal a estimate context (stop_traverse d) h t (stop_traverse-unpaused d),
)

abbrev pub IsAsked : Bool → VirtualActionStateMachine → Type 0
IsAsked paused m = m.should_pause ≡ paused

map-IsAsked :
    (paused : Bool) (machines : List VirtualActionStateMachine)
    → All (IsAsked paused) (map (set_pause paused) machines)
unfolding set_pause
map-IsAsked paused [] = tt
map-IsAsked paused (m ∷ machines) = (refl, map-IsAsked paused machines)

remove_at-All :
    (paused : Bool) (i : ℕ) (machines : List VirtualActionStateMachine)
    → All (IsAsked paused) machines
    → All (IsAsked paused) (remove_at i machines)
remove_at-All paused i [] h = tt
remove_at-All paused zero (m ∷ machines) h = h.1
remove_at-All paused (suc i) (m ∷ machines) h = (h.0, remove_at-All paused i machines h.1)

-- In the first tick of a new action whose FINISHED state starts the pause, and which finishes at
-- once, a vehicle that is not paused comes to a halt and is paused, and every other state machine is
-- asked to pause.
pub tick-start_pause :
    (a : Arithmetic) (interval : Double) (fresh : FreshLoad) (i : ℕ) (d : VirtualAgvAdapter)
    (m : VirtualActionStateMachine) (context : ActionContext) (definition : VirtualActionDefinition)
    → m ≡ new_machine context definition false
    → definition.transitions.on_init ≡ ActionStatus.finished
    → definition.transitions.finished.linked_state ≡ some (λ fresh context. start_pause)
    → d.vehicle.state.is_paused ≡ false
    → (r : Ticked) × (tick a interval fresh m d.vehicle ≡ ok r)
      × (r.vehicle.state.is_paused ≡ true)
      × (r.vehicle.state.is_driving ≡ false)
      × All (IsAsked true) (put_back i r d.action_state_machines)
unfolding tick transition_from apply_linked start_pause stop_driving new_machine
tick-start_pause a interval fresh i d m context definition e o l p = (
  transition (some ActionStatus.finished) fresh m d.vehicle,
  ground (arith, e),
  ground (arith, e, l),
  ground (arith, e, l),
  rw (e, l, p)
      (remove_at-All true i (map (set_pause true) d.action_state_machines)
        (map-IsAsked true d.action_state_machines)),
)
