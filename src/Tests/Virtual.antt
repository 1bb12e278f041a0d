-- ===== src/Tests/Virtual.antt =====
-- src/adapter/virtual-agv-adapter.ts at a virtual vehicle with whole numbers for doubles.
use vda_5050_lib_2_0_0_js.Prelude.{
  ℕ, ◌+◌, ◌-◌, ◌*◌, ◌/◌, ◌≡◌, refl, none, some, true, false, [], ◌∷◌, leb, ltb, ok, arith,
}
use vda_5050_lib_2_0_0_js.Types.{Double, Json, ActionStatus, BlockingType}
use vda_5050_lib_2_0_0_js.AgvController.Model.{ActionContext, on_node}
use vda_5050_lib_2_0_0_js.VirtualAgvAdapter.Numbers.{Arithmetic, one}
use vda_5050_lib_2_0_0_js.VirtualAgvAdapter.Vehicle.{Vehicle, optional_defaults, start_pause}
use vda_5050_lib_2_0_0_js.VirtualAgvAdapter.Definitions.{
  VirtualActionDefinition, FreshLoad, TimedTransition, ActionScope, seconds,
  get_transition_duration,
}
use vda_5050_lib_2_0_0_js.VirtualAgvAdapter.Machine.{
  VirtualActionStateMachine, new_machine, set_pause, cancel,
}
use vda_5050_lib_2_0_0_js.VirtualAgvAdapter.Machine.Transition.{Ticked, unchanged}
use vda_5050_lib_2_0_0_js.VirtualAgvAdapter.Machine.Tick.{tick}
use vda_5050_lib_2_0_0_js.VirtualAgvAdapter.Machine.Tick
use vda_5050_lib_2_0_0_js.VirtualAgvAdapter.Machine.Laws.{
  IsSteady, tick-Closes, tick-cancel, tick-tick_pause,
}
use vda_5050_lib_2_0_0_js.VirtualAgvAdapter.Machine.Timing.{Stays, Leaves, ticks-leave}
use vda_5050_lib_2_0_0_js.JsMap
use vda_5050_lib_2_0_0_js.VirtualAgvAdapter.Motion.{initial_state}
use vda_5050_lib_2_0_0_js.Tests.Fixtures.{action, node}

abbrev pub whole : ℕ → Double
whole n = record { negative = false; exponent = 0; fraction = n }

abbrev value : Double → ℕ
value d = d.fraction

-- A double's fraction stands for a whole number.
abbrev pub wholes : Arithmetic
wholes = record {
  add = λ d e. whole (value d + value e);
  subtract = λ d e. whole (value d - value e);
  multiply = λ d e. whole (value d * value e);
  divide = λ d e. whole (value d / value e);
  square = λ d. whole (value d * value d);
  less = λ d e. ltb (value d) (value e);
  at_most = λ d e. leb (value d) (value e);
  reaches = λ d json. elim json [ Json.number e ↦ leb (value e) (value d) | _ ↦ false ];
  floor = λ d. d;
  minimum = λ d e. d;
  maximum = λ d e. e;
  abs = λ d. d;
  sqrt = λ d. d;
  atan2 = λ d e. d;
  cos = λ d. d;
  sin = λ d. d;
  to_text = λ d. "0";
  to_sequence_id = λ d. value d;
  divides_tick = λ d tick. false;
}

abbrev pub fresh_load : FreshLoad
fresh_load = record { load_id = "RFID_1"; weight = one }

abbrev pub vehicle : Vehicle
vehicle = record { state = initial_state wholes optional_defaults; calls = [] }

-- An action that runs for two seconds; `first` is its initial status.
abbrev pub resting : ActionStatus → VirtualActionDefinition
resting first = record {
  action_type = "rest";
  action_scopes = ActionScope.node ∷ ActionScope.instant ∷ [];
  action_parameter_constraints = none;
  action_executable = none;
  transitions = record {
    on_init = first;
    on_cancel = some (record { linked_state = none });
    on_terminate = none;
    initializing = none;
    running = some (record {
      duration_time = seconds (whole 2);
      next = ActionStatus.finished;
      linked_state = none;
    });
    finished = record {
      result_description = λ context state. "rested";
      linked_state = some (λ fresh context. start_pause);
    };
    failed = record { error_description = none; linked_state = none };
  };
}

abbrev pub on_first_node : ActionContext
on_first_node = record {
  action = action "a1" "rest" BlockingType.hard;
  target = on_node (node "n1" 0 true []);
  stop_driving = none;
  active_order_id = none;
}

abbrev pub fresh_machine : VirtualActionStateMachine
fresh_machine = new_machine on_first_node (resting ActionStatus.running) false

-- The action has been running for a second.
abbrev pub running_machine : VirtualActionStateMachine
running_machine = record {
  action_context = on_first_node;
  action_definition = resting ActionStatus.running;
  action_status = some ActionStatus.running;
  action_status_on_pause = none;
  should_terminate = some false;
  should_cancel = some false;
  should_pause = false;
  status_duration_times = ("RUNNING", whole 1) ∷ [];
}

running-IsSteady : IsSteady running_machine
running-IsSteady = ground arith

tick-Closes_example : IsSteady (unchanged running_machine vehicle).machine × (false ≡ false)
unfolding tick Tick.advance get_transition_duration Tick.duration_after JsMap.get JsMap.set
tick-Closes_example =
    tick-Closes wholes (whole 0) fresh_load running_machine vehicle
      (unchanged running_machine vehicle) running-IsSteady refl refl

tick-cancel_example :
    (r : Ticked) × (tick wholes (whole 1) fresh_load (cancel running_machine) vehicle ≡ ok r)
    × (r.machine.action_status ≡ some ActionStatus.failed)
    × (r.finalized ≡ true)
tick-cancel_example =
    tick-cancel wholes (whole 1) fresh_load running_machine vehicle ActionStatus.running
      running-IsSteady refl refl refl refl refl

tick-tick_pause_example :
    (p : Ticked) × (r : Ticked) × (tick wholes
        (whole 1)
        fresh_load
        (set_pause true running_machine)
        vehicle
      ≡ ok p)
    × (p.machine.action_status ≡ some ActionStatus.paused)
    × (tick wholes (whole 1) fresh_load (set_pause false p.machine) p.vehicle ≡ ok r)
    × (r.machine ≡ running_machine)
tick-tick_pause_example =
    tick-tick_pause wholes (whole 1) (whole 1) fresh_load running_machine vehicle
      ActionStatus.running running-IsSteady refl refl refl refl refl

two_seconds : TimedTransition
two_seconds = record {
  duration_time = seconds (whole 2);
  next = ActionStatus.finished;
  linked_state = none;
}

running-Stays : Stays ActionStatus.running two_seconds (whole 1) running_machine
unfolding two_seconds JsMap.get
running-Stays = ground arith

ticks-leave_example : Leaves wholes fresh_load two_seconds (whole 1 ∷ []) running_machine vehicle
unfolding two_seconds get_transition_duration
ticks-leave_example =
    ticks-leave wholes (whole 1) [] fresh_load ActionStatus.running two_seconds (whole 1)
      running_machine vehicle running-Stays refl
