-- ===== src/Types/Actions.antt =====
-- Actions of nodes, edges and instant-actions messages.
use vda_5050_lib_2_0_0_js.Prelude.{String, Option, List, Bool, true, false}
use vda_5050_lib_2_0_0_js.Types.Values.{Json}
use vda_5050_lib_2_0_0_js.Types.Headers.{Header}

pub data BlockingType : Type 0 where
  hard none soft : BlockingType

abbrev pub is_hard : BlockingType → Bool
is_hard BlockingType.hard = true
is_hard _ = false

abbrev pub is_soft : BlockingType → Bool
is_soft BlockingType.soft = true
is_soft _ = false

pub record ActionParameter : Type 0 where
  pub key : String
  pub value : Json

pub record Action : Type 0 where
  pub action_description : Option String
  pub action_id : String
  pub action_parameters : Option (List ActionParameter)
  pub action_type : String
  pub blocking_type : BlockingType

pub record InstantActions : Type 0 where
  pub header : Header
  pub open header use *
  pub actions : List Action

pub data ActionStatus : Type 0 where
  failed finished initializing paused running waiting : ActionStatus

-- The value of the enumerator.
abbrev pub status_name : ActionStatus → String
status_name ActionStatus.failed = "FAILED"
status_name ActionStatus.finished = "FINISHED"
status_name ActionStatus.initializing = "INITIALIZING"
status_name ActionStatus.paused = "PAUSED"
status_name ActionStatus.running = "RUNNING"
status_name ActionStatus.waiting = "WAITING"

-- `FINISHED` or `FAILED`: the statuses in which an action has ended.
abbrev pub is_ended_status : ActionStatus → Bool
is_ended_status ActionStatus.failed = true
is_ended_status ActionStatus.finished = true
is_ended_status _ = false

pub record ActionState : Type 0 where
  pub action_description : Option String
  pub action_id : String
  pub action_status : ActionStatus
  pub action_type : Option String
  pub result_description : Option String
