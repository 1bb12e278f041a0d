-- ===== src/VirtualAgvAdapter/Machine/Timing.antt =====
-- src/adapter/virtual-agv-adapter.ts: how long a virtual action stays in a status.
use vda_5050_lib_2_0_0_js.Prelude.{
  ◌≡◌, refl, some, true, false, Outcome, ok, ◌>>=◌, arith, Bool-cases, inl, inr, List, [], ◌∷◌,
  ◌++◌, String-Eq, beq_refl, ap,
}
use vda_5050_lib_2_0_0_js.JsMap
use vda_5050_lib_2_0_0_js.JsMap.Laws.{get-set}
use vda_5050_lib_2_0_0_js.Types.{Double, status_name, ActionStatus, Json}
use vda_5050_lib_2_0_0_js.VirtualAgvAdapter.Numbers.{Arithmetic, nought}
use vda_5050_lib_2_0_0_js.VirtualAgvAdapter.Vehicle.{Vehicle}
use vda_5050_lib_2_0_0_js.VirtualAgvAdapter.Definitions.{
  FreshLoad, VirtualError, TimedTransition, timed_of, get_transition_duration,
}
use vda_5050_lib_2_0_0_js.VirtualAgvAdapter.Machine.{VirtualActionStateMachine}
use vda_5050_lib_2_0_0_js.VirtualAgvAdapter.Machine.Transition.{
  Ticked, unchanged, transition, transition_from,
}
use vda_5050_lib_2_0_0_js.VirtualAgvAdapter.Machine.Tick.{
  tick, is_paused_status, advance, duration_after, with_duration,
}

-- Ticks after the given intervals.
unfoldable pub ticks :
    Arithmetic
    → FreshLoad
    → List Double
    → VirtualActionStateMachine
    → Vehicle
    → Outcome VirtualError (VirtualActionStateMachine × Vehicle)
ticks a fresh [] m v = ok (m, v)
ticks a fresh (x ∷ intervals) m v =
    tick a x fresh m v >>= λ r. ticks a fresh intervals r.machine r.vehicle

abbrev pub elapsed : Arithmetic → Double → List Double → Double
elapsed a d [] = d
elapsed a d (x ∷ intervals) = elapsed a (a.add d x) intervals

-- An action that nobody interferes with, in a status that has a duration, after the time `d` in it.
pub record Stays (s : ActionStatus) (t : TimedTransition) (d : Double)
    (m : VirtualActionStateMachine) : Type 0 where
  pub in_status : m.action_status ≡ some s
  pub timed : timed_of m.action_definition.transitions s ≡ some t
  pub no_pause : m.should_pause ≡ false
  pub no_cancel : m.should_cancel ≡ some false
  pub no_termination : m.should_terminate ≡ some false
  pub time_spent : JsMap.get (status_name s) m.status_duration_times ≡ some d

-- The interval in which the action leaves its status, with the machine as it is before.
pub record Leaves (a : Arithmetic) (fresh : FreshLoad) (t : TimedTransition)
    (intervals : List Double) (m : VirtualActionStateMachine) (v : Vehicle) : Type 0 where
  pub before : List Double
  pub last : Double
  pub after : List Double
  pub split : intervals ≡ before ++ last ∷ after
  pub machine : VirtualActionStateMachine
  pub result : Ticked
  pub runs : ticks a fresh before m v ≡ ok (machine, v)
  pub leaves : tick a last fresh machine v ≡ ok result
  pub next_status : result.machine.action_status ≡ some t.next

abbrev limit : TimedTransition → VirtualActionStateMachine → Json
limit t m = get_transition_duration t m.action_context.action

not-paused :
    (m : VirtualActionStateMachine) (s : ActionStatus) (t : TimedTransition)
    → timed_of m.action_definition.transitions s ≡ some t
    → is_paused_status (some s) ≡ false
not-paused m s t h = ground arith

tick-advance :
    (a : Arithmetic) (x : Double) (fresh : FreshLoad) (s : ActionStatus) (t : TimedTransition)
    (d : Double) (m : VirtualActionStateMachine) (v : Vehicle)
    → Stays s t d m
    → tick a x fresh m v ≡ advance a x fresh s m v
unfolding tick
tick-advance a x fresh s t d m v h =
    ground
      (arith, h.in_status, h.timed, h.no_pause, h.no_cancel, h.no_termination, not-paused m s t)

tick_leaves :
    (a : Arithmetic) (x : Double) (fresh : FreshLoad) (s : ActionStatus) (t : TimedTransition)
    (d : Double) (m : VirtualActionStateMachine) (v : Vehicle)
    → Stays s t d m
    → a.reaches (a.add d x) (limit t m) ≡ true
    → tick a x fresh m v ≡ ok (transition (some t.next) fresh (with_duration s nought m) v)
unfolding advance duration_after
tick_leaves a x fresh s t d m v h k =
    rw (tick-advance a x fresh s t d m v h) (ground (arith, h.timed, h.time_spent))

tick-Stays :
    (a : Arithmetic) (x : Double) (fresh : FreshLoad) (s : ActionStatus) (t : TimedTransition)
    (d : Double) (m : VirtualActionStateMachine) (v : Vehicle)
    → Stays s t d m
    → a.reaches (a.add d x) (limit t m) ≡ false
    → tick a x fresh m v ≡ ok (unchanged (with_duration s (a.add d x) m) v)
unfolding advance duration_after
tick-Stays a x fresh s t d m v h k =
    rw (tick-advance a x fresh s t d m v h) (ground (arith, h.timed, h.time_spent))

with_duration-Stays :
    (s : ActionStatus) (t : TimedTransition) (d later : Double) (m : VirtualActionStateMachine)
    → Stays s t d m
    → Stays s t later (with_duration s later m)
with_duration-Stays s t d later m h = ground (
  arith,
  h.in_status,
  h.timed,
  h.no_pause,
  h.no_cancel,
  h.no_termination,
  get-set (status_name s) (status_name s) later m.status_duration_times,
  beq_refl (status_name s),
)

Leaves-at_once :
    (a : Arithmetic) (x : Double) (intervals : List Double) (fresh : FreshLoad) (s : ActionStatus)
    (t : TimedTransition) (d : Double) (m : VirtualActionStateMachine) (v : Vehicle)
    → Stays s t d m
    → a.reaches (a.add d x) (limit t m) ≡ true
    → Leaves a fresh t (x ∷ intervals) m v
unfolding ticks transition_from
Leaves-at_once a x intervals fresh s t d m v h k = record {
  before = [];
  last = x;
  after = intervals;
  split = refl;
  machine = m;
  result = transition (some t.next) fresh (with_duration s nought m) v;
  runs = refl;
  leaves = tick_leaves a x fresh s t d m v h k;
  next_status = ground arith;
}

Leaves-later :
    (a : Arithmetic) (x : Double) (intervals : List Double) (fresh : FreshLoad) (s : ActionStatus)
    (t : TimedTransition) (d : Double) (m : VirtualActionStateMachine) (v : Vehicle)
    → Stays s t d m
    → a.reaches (a.add d x) (limit t m) ≡ false
    → Leaves a fresh t intervals (with_duration s (a.add d x) m) v
    → Leaves a fresh t (x ∷ intervals) m v
unfolding ticks
Leaves-later a x intervals fresh s t d m v h k l = record {
  before = x ∷ l.before;
  last = l.last;
  after = l.after;
  split = ap (λ xs. x ∷ xs) l.split;
  machine = l.machine;
  result = l.result;
  runs = rw (tick-Stays a x fresh s t d m v h k) l.runs;
  leaves = l.leaves;
  next_status = l.next_status;
}

-- An action that nobody interferes with leaves a status that has a duration, for the status that
-- its definition has next, within any series of ticks whose intervals, added to the time that it has
-- spent there, reach the duration.
pub ticks-leave :
    (a : Arithmetic) (x : Double) (intervals : List Double) (fresh : FreshLoad) (s : ActionStatus)
    (t : TimedTransition) (d : Double) (m : VirtualActionStateMachine) (v : Vehicle)
    → Stays s t d m
    → a.reaches (elapsed a d (x ∷ intervals)) (limit t m) ≡ true
    → Leaves a fresh t (x ∷ intervals) m v
ticks-leave a x [] fresh s t d m v h k = Leaves-at_once a x [] fresh s t d m v h k
ticks-leave a x (y ∷ rest) fresh s t d m v h k =
    elim (Bool-cases (a.reaches (a.add d x) (limit t m))) [
      | inl reached ↦ Leaves-at_once a x (y ∷ rest) fresh s t d m v h reached
      | inr early ↦ Leaves-later a x (y ∷ rest) fresh s t d m v h early (
          ticks-leave a y rest fresh s t (a.add d x) (with_duration s (a.add d x) m) v
            (with_duration-Stays s t d (a.add d x) m h) k)
    ]
