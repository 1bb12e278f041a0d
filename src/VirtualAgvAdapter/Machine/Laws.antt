-- ===== src/VirtualAgvAdapter/Machine/Laws.antt =====
-- src/adapter/virtual-agv-adapter.ts: the course that a virtual action takes over its ticks.
use vda_5050_lib_2_0_0_js.Prelude.{
  ◌≡◌, Option, none, some, Bool, true, false, ok, arith, Option-cases, inl, inr,
}
use vda_5050_lib_2_0_0_js.Types.{Double, ActionStatus, is_ended_status}
use vda_5050_lib_2_0_0_js.AgvController.Model.{ActionContext, is_some}
use vda_5050_lib_2_0_0_js.VirtualAgvAdapter.Numbers.{Arithmetic}
use vda_5050_lib_2_0_0_js.VirtualAgvAdapter.Vehicle.{Vehicle, SideEffect}
use vda_5050_lib_2_0_0_js.VirtualAgvAdapter.Definitions.{
  VirtualActionDefinition, FreshLoad, ActionScope, scope_of, same_scope,
}
use vda_5050_lib_2_0_0_js.VirtualAgvAdapter.Machine.{
  VirtualActionStateMachine, new_machine, set_pause, cancel, terminate,
}
use vda_5050_lib_2_0_0_js.VirtualAgvAdapter.Machine.Transition.{
  Ticked, unchanged, transition, transition_from, ended, enter, no_effect,
}
use vda_5050_lib_2_0_0_js.VirtualAgvAdapter.Machine.Tick.{
  tick, is_paused_status, advance, cancel_now, terminate_now,
}

-- The flags of an ended action are cleared, those of one that goes on are there.
pub record IsSteady (m : VirtualActionStateMachine) : Type 0 where
  pub ended_cleared :
      ended m.action_status ≡ true
      → (m.should_terminate ≡ none) × (m.should_cancel ≡ none) × (m.should_pause ≡ false)
  pub open_flagged :
      ended m.action_status ≡ false
      → (is_some m.should_terminate ≡ true) × (is_some m.should_cancel ≡ true)

-- The action is finalized exactly if it has ended.
abbrev Closes : Ticked → Type 0
Closes r = IsSteady r.machine × (r.finalized ≡ ended r.machine.action_status)

enter-IsSteady :
    (status : Option ActionStatus) (m : VirtualActionStateMachine)
    → ended m.action_status ≡ false
    → IsSteady m
    → IsSteady (enter status m)
enter-IsSteady status m o h = ground (arith, h.open_flagged)

transition_from-Closes :
    (status : Option ActionStatus) (change : SideEffect) (fresh : FreshLoad)
    (n : VirtualActionStateMachine)
    → ended n.action_status ≡ false
    → IsSteady n
    → Closes (transition_from status change fresh n)
unfolding transition_from
transition_from-Closes status change fresh n o h = ground (arith, enter-IsSteady status n o h)

advance-Closes :
    (a : Arithmetic) (interval : Double) (fresh : FreshLoad) (s : ActionStatus)
    (m : VirtualActionStateMachine) (v : Vehicle) (r : Ticked)
    → m.action_status ≡ some s
    → is_ended_status s ≡ false
    → IsSteady m
    → advance a interval fresh s m v ≡ ok r
    → Closes r
unfolding advance transition_from
advance-Closes a interval fresh s m v r e o h k = ground (arith, h.open_flagged, h.ended_cleared)

held-Closes :
    (status held : Option ActionStatus) (fresh : FreshLoad) (m : VirtualActionStateMachine)
    (v : Vehicle)
    → ended m.action_status ≡ false
    → IsSteady m
    → Closes (transition status fresh (record m { action_status_on_pause = held }) v)
held-Closes status held fresh m v o h =
    transition_from-Closes status (no_effect v) fresh (record m { action_status_on_pause = held }) o
      (ground (arith, h.open_flagged, h.ended_cleared))

cancel_now-Closes :
    (fresh : FreshLoad) (m : VirtualActionStateMachine) (v : Vehicle)
    → ended m.action_status ≡ false
    → IsSteady m
    → is_some m.action_definition.transitions.on_cancel ≡ true
    → Closes (cancel_now fresh m v)
unfolding cancel_now transition_from
cancel_now-Closes fresh m v o h k = ground (arith, h.open_flagged, h.ended_cleared)

terminate_now-Closes :
    (fresh : FreshLoad) (m : VirtualActionStateMachine) (v : Vehicle) (r : Ticked)
    → ended m.action_status ≡ false
    → IsSteady m
    → terminate_now fresh m v ≡ ok r
    → Closes r
unfolding terminate_now transition_from
terminate_now-Closes fresh m v r o h k = ground (arith, h.open_flagged, h.ended_cleared)

-- A tick of an action that goes on keeps the flags of its machine in order, and finalizes the action
-- exactly if it ends it.
pub tick-Closes :
    (a : Arithmetic) (interval : Double) (fresh : FreshLoad) (m : VirtualActionStateMachine)
    (v : Vehicle) (r : Ticked)
    → IsSteady m
    → ended m.action_status ≡ false
    → tick a interval fresh m v ≡ ok r
    → Closes r
unfolding tick
tick-Closes a interval fresh m v r h o k = elim (Option-cases m.action_status) [
  | inl e ↦
      let pause =
        held-Closes (some ActionStatus.paused) (some m.action_definition.transitions.on_init) fresh
          m v o h in
      let start =
        transition_from-Closes (some m.action_definition.transitions.on_init) (no_effect v) fresh m
          o h in
      ground (arith, h.open_flagged, pause, start)
  | inr (s, e) ↦
      let pause = held-Closes (some ActionStatus.paused) (some s) fresh m v o h in
      let resume = held-Closes m.action_status_on_pause none fresh m v o h in
      ground (
        arith,
        h.open_flagged,
        pause,
        resume,
        advance-Closes a interval fresh s m v r e,
        cancel_now-Closes fresh m v o h,
        terminate_now-Closes fresh m v r o h,
      )
]

-- The machine of an action that has ended does nothing in a tick.
tick-ended :
    (a : Arithmetic) (interval : Double) (fresh : FreshLoad) (m : VirtualActionStateMachine)
    (v : Vehicle)
    → IsSteady m
    → ended m.action_status ≡ true
    → tick a interval fresh m v ≡ ok (unchanged m v)
unfolding tick
tick-ended a interval fresh m v h o = ground (arith, h.ended_cleared)

-- The machine of a new action is in order.
new_machine-IsSteady :
    (context : ActionContext) (definition : VirtualActionDefinition) (paused : Bool)
    → IsSteady (new_machine context definition paused)
unfolding new_machine
new_machine-IsSteady context definition paused = ground arith

-- So is a machine that is asked to end, to be cancelled or to pause, unless it has ended.
requests-IsSteady :
    (m : VirtualActionStateMachine) (paused : Bool)
    → IsSteady m
    → IsSteady (terminate m)
      × IsSteady (cancel m)
      × (ended m.action_status ≡ false → IsSteady (set_pause paused m))
unfolding terminate cancel set_pause
requests-IsSteady m paused h = ground (arith, h.open_flagged, h.ended_cleared)

-- An action of a node or an edge, with a status that has not ended, whose definition can be
-- interrupted and whose flags are in order, fails and is finalized in the tick after it was asked to
-- be cancelled, provided that it is asked to pause exactly if it is paused, so that no pausing or
-- resuming is pending.
pub tick-cancel :
    (a : Arithmetic) (interval : Double) (fresh : FreshLoad) (m : VirtualActionStateMachine)
    (v : Vehicle) (s : ActionStatus)
    → IsSteady m
    → m.action_status ≡ some s
    → is_ended_status s ≡ false
    → m.should_pause ≡ is_paused_status (some s)
    → is_some m.action_definition.transitions.on_cancel ≡ true
    → same_scope (scope_of m.action_context.target) ActionScope.instant ≡ false
    → (r : Ticked) × (tick a interval fresh (cancel m) v ≡ ok r)
      × (r.machine.action_status ≡ some ActionStatus.failed)
      × (r.finalized ≡ true)
unfolding tick cancel cancel_now transition_from
tick-cancel a interval fresh m v s h e o p c i = (
  cancel_now fresh (cancel m) v,
  ground (arith, h.open_flagged),
  ground (arith, h.open_flagged),
  ground (arith, h.open_flagged),
)

-- Pausing an action for a tick and resuming it in the next brings it back to where it was, with the
-- time that it has spent.
pub tick-tick_pause :
    (a : Arithmetic) (interval later : Double) (fresh : FreshLoad) (m : VirtualActionStateMachine)
    (v : Vehicle) (s : ActionStatus)
    → IsSteady m
    → m.action_status ≡ some s
    → is_ended_status s ≡ false
    → is_paused_status (some s) ≡ false
    → m.should_pause ≡ false
    → m.action_status_on_pause ≡ none
    → (p : Ticked) × (r : Ticked) × (tick a interval fresh (set_pause true m) v ≡ ok p)
      × (p.machine.action_status ≡ some ActionStatus.paused)
      × (tick a later fresh (set_pause false p.machine) p.vehicle ≡ ok r)
      × (r.machine ≡ m)
unfolding tick set_pause transition_from
tick-tick_pause a interval later fresh m v s h e o n p q =
    let held = record m { should_pause = true; action_status_on_pause = some s } in
    let paused = transition (some ActionStatus.paused) fresh held v in
    let resumed =
      transition (some s) fresh
        (record paused.machine { should_pause = false; action_status_on_pause = none })
        paused.vehicle in
    (
      paused,
      resumed,
      ground (arith, h.open_flagged),
      ground (arith, h.open_flagged),
      ground (arith, h.open_flagged),
      ground (arith, h.open_flagged),
    )
