-- ===== src/Types/Orders.antt =====
-- Orders: a graph of nodes and edges in driving order.
use vda_5050_lib_2_0_0_js.Prelude.{ℕ, String, Option, List, Bool}
use vda_5050_lib_2_0_0_js.Types.Values.{Double}
use vda_5050_lib_2_0_0_js.Types.Headers.{Header}
use vda_5050_lib_2_0_0_js.Types.Actions.{Action}

pub data OrientationType : Type 0 where
  global tangential : OrientationType

pub record ControlPoint : Type 0 where
  pub weight : Option Double
  pub x : Double
  pub y : Double

pub record Trajectory : Type 0 where
  pub control_points : List ControlPoint
  pub degree : Double
  pub knot_vector : List Double

pub record Edge : Type 0 where
  pub actions : List Action
  pub direction : Option String
  pub length : Option Double
  pub edge_description : Option String
  pub edge_id : String
  pub end_node_id : String
  pub max_height : Option Double
  pub max_rotation_speed : Option Double
  pub max_speed : Option Double
  pub min_height : Option Double
  pub orientation : Option Double
  pub orientation_type : Option OrientationType
  pub released : Bool
  pub rotation_allowed : Option Bool
  pub sequence_id : ℕ
  pub start_node_id : String
  pub trajectory : Option Trajectory

pub record NodePosition : Type 0 where
  pub allowed_deviation_theta : Option Double
  pub allowed_deviation_xy : Option Double
  pub map_description : Option String
  pub map_id : String
  pub theta : Option Double
  pub x : Double
  pub y : Double

pub record Node : Type 0 where
  pub actions : List Action
  pub node_description : Option String
  pub node_id : String
  pub node_position : Option NodePosition
  pub released : Bool
  pub sequence_id : ℕ

-- An order without its header.
pub record OrderContent : Type 0 where
  pub edges : List Edge
  pub nodes : List Node
  pub order_id : String
  pub order_update_id : ℕ
  pub zone_set_id : Option String

pub record Order : Type 0 where
  pub header : Header
  pub open header use *
  pub content : OrderContent
  pub open content use *
