-- ===== src/Types/States.antt =====
-- The state that a vehicle reports.
use vda_5050_lib_2_0_0_js.Prelude.{ℕ, String, Option, List, Bool}
use vda_5050_lib_2_0_0_js.Types.Values.{Double}
use vda_5050_lib_2_0_0_js.Types.Headers.{Header}
use vda_5050_lib_2_0_0_js.Types.Actions.{ActionState}
use vda_5050_lib_2_0_0_js.Types.Orders.{Trajectory, NodePosition}

pub record AgvPosition : Type 0 where
  pub deviation_range : Option Double
  pub localization_score : Option Double
  pub map_description : Option String
  pub map_id : String
  pub position_initialized : Bool
  pub theta : Double
  pub x : Double
  pub y : Double

pub record BatteryState : Type 0 where
  pub battery_charge : Double
  pub battery_health : Option Double
  pub battery_voltage : Option Double
  pub charging : Bool
  pub reach : Option Double

pub record EdgeState : Type 0 where
  pub edge_description : Option String
  pub edge_id : String
  pub released : Bool
  pub sequence_id : ℕ
  pub trajectory : Option Trajectory

pub data ErrorLevel : Type 0 where
  fatal warning : ErrorLevel

pub record ErrorReference : Type 0 where
  pub reference_key : String
  pub reference_value : String

pub record Error : Type 0 where
  pub error_description : Option String
  pub error_level : ErrorLevel
  pub error_references : Option (List ErrorReference)
  pub error_type : String

pub data InfoLevel : Type 0 where
  debug info : InfoLevel

pub record InfoReference : Type 0 where
  pub reference_key : String
  pub reference_value : String

pub record Information : Type 0 where
  pub info_description : Option String
  pub info_level : InfoLevel
  pub info_references : Option (List InfoReference)
  pub info_type : String

pub record BoundingBoxReference : Type 0 where
  pub theta : Option Double
  pub x : Double
  pub y : Double
  pub z : Double

pub record LoadDimensions : Type 0 where
  pub height : Option Double
  pub length : Double
  pub width : Double

pub record Load : Type 0 where
  pub bounding_box_reference : Option BoundingBoxReference
  pub load_dimensions : Option LoadDimensions
  pub load_id : Option String
  pub load_position : Option String
  pub load_type : Option String
  pub weight : Option Double

pub record NodeState : Type 0 where
  pub node_description : Option String
  pub node_id : String
  pub node_position : Option NodePosition
  pub released : Bool
  pub sequence_id : ℕ

pub data OperatingMode : Type 0 where
  automatic manual semiautomatic service teachin : OperatingMode

pub data EStop : Type 0 where
  autoack manual none remote : EStop

pub record SafetyStatus : Type 0 where
  pub e_stop : EStop
  pub field_violation : Bool

pub record Velocity : Type 0 where
  pub omega : Option Double
  pub vx : Option Double
  pub vy : Option Double

-- A state without its header. `E` is the type of its errors: the controller tells error objects
-- apart that carry the same data.
pub record StateOf (E : Type 0) : Type 0 where
  pub action_states : List ActionState
  pub agv_position : Option AgvPosition
  pub battery_state : BatteryState
  pub distance_since_last_node : Option Double
  pub driving : Bool
  pub edge_states : List EdgeState
  pub errors : List E
  pub information : Option (List Information)
  pub last_node_id : String
  pub last_node_sequence_id : ℕ
  pub loads : Option (List Load)
  pub new_base_request : Option Bool
  pub node_states : List NodeState
  pub operating_mode : OperatingMode
  pub order_id : String
  pub order_update_id : ℕ
  pub paused : Option Bool
  pub safety_state : SafetyStatus
  pub velocity : Option Velocity
  pub zone_set_id : Option String

abbrev pub StateContent : Type 0
StateContent = StateOf Error

pub record State : Type 0 where
  pub header : Header
  pub open header use *
  pub content : StateContent
  pub open content use *

-- What is published to show the vehicle on a map.
pub record VisualizationContent : Type 0 where
  pub agv_position : Option AgvPosition
  pub velocity : Option Velocity

pub record Visualization : Type 0 where
  pub header : Header
  pub open header use *
  pub content : VisualizationContent
  pub open content use *
