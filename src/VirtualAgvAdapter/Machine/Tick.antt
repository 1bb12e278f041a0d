-- ===== src/VirtualAgvAdapter/Machine/Tick.antt =====
-- src/adapter/virtual-agv-adapter.ts: `tick` of a virtual action's state machine.
use vda_5050_lib_2_0_0_js.Prelude.{
  Option, none, some, Bool, true, false, not, ◌&&◌, ◌||◌, if◌then◌else◌, Outcome, ok, err,
  String-Eq,
}
use vda_5050_lib_2_0_0_js.JsMap
use vda_5050_lib_2_0_0_js.Types.{Double, status_name, ActionStatus, is_ended_status}
use vda_5050_lib_2_0_0_js.AgvController.Model.{is_some}
use vda_5050_lib_2_0_0_js.VirtualAgvAdapter.Numbers.{Arithmetic, nought, not_a_number}
use vda_5050_lib_2_0_0_js.VirtualAgvAdapter.Vehicle.{Vehicle}
use vda_5050_lib_2_0_0_js.VirtualAgvAdapter.Definitions.{
  FreshLoad, timed_of, get_transition_duration, VirtualError, no_transition,
}
use vda_5050_lib_2_0_0_js.VirtualAgvAdapter.Machine.{VirtualActionStateMachine, is_true}
use vda_5050_lib_2_0_0_js.VirtualAgvAdapter.Machine.Transition.{
  Ticked, unchanged, transition, transition_from, apply_linked,
}

abbrev pub is_paused_status : Option ActionStatus → Bool
is_paused_status (some ActionStatus.paused) = true
is_paused_status _ = false

abbrev or_status : Option ActionStatus → ActionStatus → ActionStatus
or_status none s = s
or_status (some r) s = r

abbrev pub with_duration :
    ActionStatus → Double → VirtualActionStateMachine → VirtualActionStateMachine
with_duration s d m = record m {
  status_duration_times = JsMap.set (status_name s) d m.status_duration_times;
}

-- The time spent in a status, with the interval; `undefined` plus a number is not a number.
unfoldable pub duration_after :
    Arithmetic → Double → ActionStatus → VirtualActionStateMachine → Double
duration_after a interval s m = elim (JsMap.get (status_name s) m.status_duration_times) [
  | none ↦ not_a_number
  | some d ↦ a.add d interval
]

unfoldable pub advance :
    Arithmetic
    → Double
    → FreshLoad
    → ActionStatus
    → VirtualActionStateMachine
    → Vehicle
    → Outcome VirtualError Ticked
advance a interval fresh s m v =
    let duration = duration_after a interval s m in
    elim (timed_of m.action_definition.transitions s) [
      | none ↦
          if is_ended_status s
          then ok (unchanged (with_duration s duration m) v)
          else err no_transition
      | some timed ↦ ok (
          if a.reaches duration (get_transition_duration timed m.action_context.action)
          then transition (some timed.next) fresh (with_duration s nought m) v
          else unchanged (with_duration s duration m) v)
    ]

unfoldable pub cancel_now : FreshLoad → VirtualActionStateMachine → Vehicle → Ticked
cancel_now fresh m v = elim m.action_definition.transitions.on_cancel [
  | none ↦ unchanged m v
  | some c ↦
      transition_from (some ActionStatus.failed)
        (apply_linked c.linked_state fresh m.action_context v) fresh m
]

unfoldable pub terminate_now :
    FreshLoad → VirtualActionStateMachine → Vehicle → Outcome VirtualError Ticked
terminate_now fresh m v = elim m.action_definition.transitions.on_terminate [
  | none ↦ err no_transition
  | some t ↦
      ok (
        transition_from (some t.next) (apply_linked t.linked_state fresh m.action_context v) fresh
          m)
]

unfoldable pub tick :
    Arithmetic
    → Double
    → FreshLoad
    → VirtualActionStateMachine
    → Vehicle
    → Outcome VirtualError Ticked
tick a interval fresh m v =
    if not (is_some m.should_terminate) || not (is_some m.should_cancel)
    then ok (unchanged m v)
    else if m.should_pause && not (is_paused_status m.action_status)
    then ok (
        transition (some ActionStatus.paused) fresh
          (record m {
            action_status_on_pause =
                some (or_status m.action_status m.action_definition.transitions.on_init);
          })
          v)
    else if not m.should_pause && is_paused_status m.action_status
    then ok
        (transition m.action_status_on_pause fresh (record m { action_status_on_pause = none }) v)
    else elim m.action_status [
      | none ↦ ok (transition (some m.action_definition.transitions.on_init) fresh m v)
      | some s ↦
          if is_true m.should_cancel && is_some m.action_definition.transitions.on_cancel
          then ok (cancel_now fresh m v)
          else if is_true m.should_terminate
          then terminate_now fresh m v
          else if is_paused_status (some s)
          then ok (unchanged m v)
          else advance a interval fresh s m v
    ]
