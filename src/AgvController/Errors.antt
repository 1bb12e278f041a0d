-- ===== src/AgvController/Errors.antt =====
-- src/controller/agv-controller.ts: the errors that the controller reports, and new error objects.
use vda_5050_lib_2_0_0_js.Prelude.{
  ◌+◌, String, Option, none, some, Bool, not, List, [], ◌∷◌, find, select, String-Eq, ◌==◌,
  if◌then◌else◌, append, decimal,
}
use vda_5050_lib_2_0_0_js.Types.{
  Order, Error, ErrorLevel, ErrorReference, ErrorType, error_type_name, Topic, topic_name,
  InstantActions,
}
use vda_5050_lib_2_0_0_js.AgvController.Model.{
  Controller, ErrorObject, ActionContext, ActionTarget, on_node, on_edge, instant,
}

abbrev pub ref_key_error_description_detail : String
ref_key_error_description_detail = "errorDescriptionDetail"

abbrev pub reference : String → String → ErrorReference
reference key value = record { reference_key = key; reference_value = value }

abbrev is_detail : ErrorReference → Bool
is_detail r = r.reference_key == ref_key_error_description_detail

-- An empty detail is falsy, so it adds nothing.
abbrev with_detail : String → Option ErrorReference → String
with_detail description none = description
with_detail description (some r) =
    if r.reference_value == ""
    then description
    else append description (append ": " r.reference_value)

unfoldable pub create_order_error : Order → ErrorType → String → List ErrorReference → Error
create_order_error order error_type description refs = record {
  error_description = some (with_detail description (find is_detail refs));
  error_level = ErrorLevel.warning;
  error_type = error_type_name error_type;
  error_references = some (
      reference "topic" (topic_name Topic.order)
      ∷ reference "headerId" (decimal order.header_id)
      ∷ reference "orderId" order.order_id
      ∷ reference "orderUpdateId" (decimal order.order_update_id)
      ∷ select (λ r. not (is_detail r)) refs);
}

abbrev topic_of : ActionTarget → Topic
topic_of instant = Topic.instant_actions
topic_of (on_node n) = Topic.order
topic_of (on_edge e start end) = Topic.order

unfoldable pub create_action_error :
    ActionContext → ErrorType → String → List ErrorReference → Error
create_action_error context error_type description refs = record {
  error_description = some (with_detail description (find is_detail refs));
  error_level = ErrorLevel.warning;
  error_type = error_type_name error_type;
  error_references = some (
      reference "topic" (topic_name (topic_of context.target))
      ∷ reference "actionId" context.action.action_id
      ∷ reference "actionType" context.action.action_type
      ∷ select (λ r. not (is_detail r)) refs);
}

unfoldable pub create_instant_actions_validation_error : InstantActions → String → Error
create_instant_actions_validation_error actions description = record {
  error_description = some description;
  error_level = ErrorLevel.warning;
  error_type = error_type_name ErrorType.instant_action_validation;
  error_references = some (
      reference "topic" (topic_name Topic.instant_actions)
      ∷ reference "headerId" (decimal actions.header_id)
      ∷ []);
}

-- An error object is like no other that exists.
unfoldable pub new_error : Error → Controller → Controller × ErrorObject
new_error error c = (
  record c { next_identity = c.next_identity + 1 },
  record { identity = c.next_identity; error = error },
)
