-- ===== src/MasterController/Dispatch.antt =====
-- src/controller/master-controller.ts: `_dispatchState`: rejected orders, the current order, and the
-- instant actions, in this order.
pub mod Rejected
use Prim.Native.Char.{Char, code}
use Prim.Native.String
use vda_5050_lib_2_0_0_js.Prelude.{
  ℕ, zero, suc, ◌+◌, ◌-◌, ◌*◌, String, Option, none, some, Bool, true, false, not, ◌&&◌, ◌||◌, List,
  [], ◌∷◌, ◌++◌, leb, eqb, if◌then◌else◌, String-Eq, ◌==◌,
}
use vda_5050_lib_2_0_0_js.AgvIdMap
use vda_5050_lib_2_0_0_js.Types.{
  AgvId, State, StateContent, Error, ErrorReference, ErrorType, error_type_name, Topic, topic_name,
}
use vda_5050_lib_2_0_0_js.MasterController.Model.{MasterController, order_processed, raise}
use vda_5050_lib_2_0_0_js.MasterController.Caches.{get_order_state_cache, remove_order_state_cache}
use vda_5050_lib_2_0_0_js.MasterController.Graph.{references_of, has_key}
use vda_5050_lib_2_0_0_js.MasterController.Orders.Processed.{dispatch_order_state}
use vda_5050_lib_2_0_0_js.MasterController.Instant.{
  action_caches_of, update_instant_actions_validation_error, dispatch_instant_actions,
}

-- The value of the last reference with a key.
abbrev pub last_value : String → List ErrorReference → Option String
last_value key [] = none
last_value key (r ∷ refs) = elim (last_value key refs) [
  | some v ↦ some v
  | none ↦ if r.reference_key == key then some r.reference_value else none
]

abbrev is_digit : Char → Bool
is_digit c = leb b'0' (code c) && leb (code c) b'9'

-- The digits in front.
abbrev leading_digits : Option ℕ → String → Option ℕ
leading_digits number String.[] = number
leading_digits number (String.◌∷◌ c s) =
    let so_far : ℕ = elim number [ none ↦ 0 | some n ↦ n ] in
    let longer = leading_digits (some (so_far * 10 + (code c - b'0'))) s in
    if is_digit c then longer else number

abbrev if_zero : Option ℕ → Option ℕ
if_zero (some zero) = some 0
if_zero _ = none

abbrev signed : String → Option ℕ
signed String.[] = none
signed (String.◌∷◌ c s) =
    if eqb (code c) b'+'
    then leading_digits none s
    else if eqb (code c) b'-'
    then if_zero (leading_digits none s)
    else leading_digits none (String.◌∷◌ c s)

abbrev is_blank : Char → Bool
is_blank c = eqb (code c) 32 || (leb 9 (code c) && leb (code c) 13)

-- `parseInt(text, 10)`, if it is a natural number; no cache is found for another.
unfoldable pub parse_int : String → Option ℕ
parse_int String.[] = none
parse_int (String.◌∷◌ c s) =
    let rest = parse_int s in if is_blank c then rest else signed (String.◌∷◌ c s)

abbrev is_other_topic : Option String → Bool
is_other_topic none = false
is_other_topic (some topic) = not (topic == topic_name Topic.order)

-- The order that an error rejects.
unfoldable pub rejected_by : Error → AgvId → MasterController → Option ℕ
rejected_by e agv_id m =
    let refs = references_of e in
    if is_other_topic (last_value "topic" refs)
    then none
    else if has_key "actionId" refs && not (e.error_type == error_type_name ErrorType.order)
    then none
    else elim (last_value "orderId" refs) [
      | none ↦ none
      | some order_id ↦ elim (last_value "orderUpdateId" refs) [
        | none ↦ none
        | some text ↦ elim (parse_int text) [
          | none ↦ none
          | some order_update_id ↦ get_order_state_cache agv_id order_id order_update_id m
        ]
      ]
    ]

unfoldable pub dispatch_error : AgvId → Error → MasterController → MasterController
dispatch_error agv_id e m = elim (rejected_by e agv_id m) [
  | none ↦ m
  | some i ↦ raise (order_processed i (some e) false false) (remove_order_state_cache i false m)
]

unfoldable pub dispatch_errors : AgvId → List Error → MasterController → MasterController
dispatch_errors agv_id [] m = m
dispatch_errors agv_id (e ∷ errors) m = dispatch_errors agv_id errors (dispatch_error agv_id e m)

abbrev dispatch_current_order : AgvId → StateContent → MasterController → MasterController
dispatch_current_order agv_id state m =
    elim (get_order_state_cache agv_id state.order_id state.order_update_id m) [
      | none ↦ m
      | some i ↦ dispatch_order_state i state m
    ]

-- `_dispatchState`.
unfoldable pub dispatch_state : StateContent → AgvId → MasterController → MasterController
dispatch_state state agv_id m =
    let current = dispatch_current_order agv_id state (dispatch_errors agv_id state.errors m) in
    let updated = update_instant_actions_validation_error state.errors current in
    dispatch_instant_actions agv_id state (action_caches_of agv_id updated) updated
