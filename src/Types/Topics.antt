-- ===== src/Types/Topics.antt =====
-- Topics, identifiers of vehicles, and the objects published on a topic.
use vda_5050_lib_2_0_0_js.Prelude.{
  String, Option, List, [], ◌∷◌, Bool, not, ◌&&◌, String-Eq, Eq, true, arith, ◌↔◌, ◌≡◌, ◌==◌, any,
}
use text.Mathlib.TextEquality.{eq_iff}
use vda_5050_lib_2_0_0_js.Types.Values.{JsonFields}
use vda_5050_lib_2_0_0_js.Types.Headers.{Header, ConnectionState}
use vda_5050_lib_2_0_0_js.Types.Actions.{Action}
use vda_5050_lib_2_0_0_js.Types.Orders.{OrderContent}
use vda_5050_lib_2_0_0_js.Types.States.{StateContent, VisualizationContent}

pub data Topic : Type 0 where
  order instant_actions state visualization connection : Topic

-- The value of the enumerator.
abbrev pub topic_name : Topic → String
topic_name Topic.order = "order"
topic_name Topic.instant_actions = "instantActions"
topic_name Topic.state = "state"
topic_name Topic.visualization = "visualization"
topic_name Topic.connection = "connection"

abbrev pub core_topics : List Topic
core_topics =
    Topic.order ∷ Topic.instant_actions ∷ Topic.state ∷ Topic.visualization ∷ Topic.connection ∷ []

unfoldable pub is_extension_topic : String → Bool
is_extension_topic topic = not (any (λ value. topic_name value == topic) core_topics)

pub record AgvId : Type 0 where
  pub manufacturer : String
  pub serial_number : String

-- `Partial<AgvId>`.
pub record AgvIdPattern : Type 0 where
  pub manufacturer : Option String
  pub serial_number : Option String

abbrev pub agv_id_beq : AgvId → AgvId → Bool
agv_id_beq a b = a.manufacturer == b.manufacturer && a.serial_number == b.serial_number

-- The contents of a message, one constructor to each core topic and one for extension objects.
pub data Content : Type 0 where
  connection : ConnectionState → Content
  instant_actions : List Action → Content
  order : OrderContent → Content
  state : StateContent → Content
  visualization : VisualizationContent → Content
  extension : JsonFields → Content

-- `Headerless<Vda5050Object>`: the timestamp may be given in advance.
pub record Headerless : Type 0 where
  pub timestamp : Option String
  pub content : Content

pub record Vda5050Object : Type 0 where
  pub header : Header
  pub open header use *
  pub content : Content

-- The values of `ErrorType`.
pub data ErrorType : Type 0 where
  order order_update order_no_route order_validation order_action instant_action
        instant_action_validation instant_action_no_order_to_cancel :
      ErrorType

abbrev pub error_type_name : ErrorType → String
error_type_name ErrorType.order = "orderError"
error_type_name ErrorType.order_update = "orderUpdateError"
error_type_name ErrorType.order_no_route = "noRouteError"
error_type_name ErrorType.order_validation = "validationError"
error_type_name ErrorType.order_action = "orderActionError"
error_type_name ErrorType.instant_action = "instantActionError"
error_type_name ErrorType.instant_action_validation = "validationError"
error_type_name ErrorType.instant_action_no_order_to_cancel = "noOrderToCancel"

pub agv_id_beq_iff : (a b : AgvId) → (agv_id_beq a b ≡ true) ↔ (a ≡ b)
agv_id_beq_iff a b =
    ground (arith, eq_iff a.manufacturer b.manufacturer, eq_iff a.serial_number b.serial_number)

instance abbrev pub AgvId-Eq : Eq AgvId
AgvId-Eq = record { equals = agv_id_beq; equals_iff = agv_id_beq_iff }
