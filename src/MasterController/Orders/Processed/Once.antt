-- ===== src/MasterController/Orders/Processed/Once.antt =====
-- src/controller/master-controller.ts: the handler `onOrderProcessed` of an order.
use vda_5050_lib_2_0_0_js.Prelude.{
  ℕ, ◌≡◌, refl, inl, inr, Option, none, some, Bool, true, false, ◌||◌, List, [], ◌∷◌, ◌++◌, any,
  arith, Bool-cases, both_branches, String-Eq,
}
use vda_5050_lib_2_0_0_js.Types.{Action, ActionState, Node, Edge, StateContent}
use vda_5050_lib_2_0_0_js.MasterController.Model.{
  OrderStateCache, Event, order_processed, EdgeStateChanges, Target, edge_traversed, node_traversed,
}
use vda_5050_lib_2_0_0_js.JsMap
use vda_5050_lib_2_0_0_js.AgvController.Model.{is_some}
use vda_5050_lib_2_0_0_js.MasterController.Graph.{
  get_edge_start_node, get_edge_end_node, are_all_blocking_actions_ended, get_next_released_edge,
  get_next_edge,
}
use vda_5050_lib_2_0_0_js.MasterController.Edges.{
  Step, update_edge_state_changes, edge_passed, edge_ahead, process_edge_events, report_changes,
  update_from, edge_events, are_same, all_changes, changes_between, same_edge, is_ahead,
}
use vda_5050_lib_2_0_0_js.MasterController.Orders.{
  process_action_state, process_action_states, process_last_edge, process_next_node, and_then,
  mapped_action_state, status_changed, edge_behind, traverse_node, end_of, next_node,
}
use vda_5050_lib_2_0_0_js.MasterController.Orders.Processed.{process_order_state}

abbrev pub is_completion : Event → Bool
is_completion (order_processed i error canceled active) = true
is_completion _ = false

any_completion-append :
    (xs ys : List Event)
    → any is_completion (xs ++ ys) ≡ (any is_completion xs || any is_completion ys)
any_completion-append [] ys = refl
any_completion-append (x ∷ xs) ys = ground (arith, any_completion-append xs ys)

-- A step that raises no `onOrderProcessed`, and leaves the mark and the identity of the order.
abbrev pub IsQuiet : OrderStateCache → Step → Type 0
IsQuiet c r =
    (any is_completion r.1 ≡ false)
    × (r.0.is_order_processed_handler_invoked ≡ c.is_order_processed_handler_invoked)
    × (r.0.agv_id ≡ c.agv_id)
    × (r.0.order ≡ c.order)

and_then-IsQuiet :
    (f : OrderStateCache → Step) (c : OrderStateCache) (r : Step)
    → IsQuiet c r
    → IsQuiet r.0 (f r.0)
    → IsQuiet c (and_then f r)
and_then-IsQuiet f c r h k = ground (arith, any_completion-append r.1 (f r.0).1)

stays-IsQuiet : (c : OrderStateCache) → IsQuiet c (c, [])
stays-IsQuiet c = (refl, refl, refl, refl)

update_from-IsQuiet :
    (i : ℕ) (edge : Edge) (start end : Option Node) (state : StateContent) (c : OrderStateCache)
    (seen : Option EdgeStateChanges)
    → IsQuiet c (update_from i edge start end state c seen)
update_from-IsQuiet i edge start end state c none = (refl, refl, refl, refl)
update_from-IsQuiet i edge start end state c (some old) =
    both_branches (IsQuiet c) (are_same old (all_changes state)) (c, [])
      (report_changes i edge start end (changes_between old (all_changes state)) (all_changes state)
        c)
      (stays-IsQuiet c) (refl, refl, refl, refl)

update_edge-IsQuiet :
    (i : ℕ) (edge : Edge) (start end : Option Node) (state : StateContent) (c : OrderStateCache)
    → IsQuiet c (update_edge_state_changes i edge start end state c)
unfolding update_edge_state_changes
update_edge-IsQuiet i edge start end state c =
    update_from-IsQuiet i edge start end state c c.last_edge_state_changes

edge_passed-IsQuiet :
    (i : ℕ) (edge : Edge) (state : StateContent) (c : OrderStateCache)
    → IsQuiet c (edge_passed i edge state c)
unfolding edge_passed
edge_passed-IsQuiet i edge state c =
    let start = get_edge_start_node c.combined_order edge in
    let end = get_edge_end_node c.combined_order edge in
    let updated = update_edge_state_changes i edge start end state c in
    let quiet = update_edge-IsQuiet i edge start end state c in
    both_branches (IsQuiet c) (same_edge edge c.last_edge_processed) (c, [])
      (
        record updated.0 {
          last_edge_state_changes = none;
          edge_state_change_invocations = some 0;
          last_edge_processed = some edge;
        },
        updated.1 ++ edge_traversed i edge start end ∷ [],
      )
      (stays-IsQuiet c)
      (
        rw (any_completion-append updated.1 (edge_traversed i edge start end ∷ []), quiet.0) refl,
        quiet.1,
        quiet.2,
        quiet.3,
      )

edge_ahead-IsQuiet :
    (i : ℕ) (edge : Edge) (node : Node) (state : StateContent) (c : OrderStateCache)
    → IsQuiet c (edge_ahead i edge node state c)
unfolding edge_ahead
edge_ahead-IsQuiet i edge node state c =
    let start = get_edge_start_node c.combined_order edge in
    let end = get_edge_end_node c.combined_order edge in
    both_branches (IsQuiet c)
      (is_some c.last_edge_state_changes || are_all_blocking_actions_ended node state)
      (update_edge_state_changes i edge start end state c) (c, [])
      (update_edge-IsQuiet i edge start end state c) (stays-IsQuiet c)

edge_events-IsQuiet :
    (i : ℕ) (node : Node) (state : StateContent) (c : OrderStateCache) (next : Option Edge)
    → IsQuiet c (edge_events i node state c next)
edge_events-IsQuiet i node state c none = stays-IsQuiet c
edge_events-IsQuiet i node state c (some edge) =
    both_branches (IsQuiet c) (is_ahead edge state) (edge_ahead i edge node state c)
      (edge_passed i edge state c) (edge_ahead-IsQuiet i edge node state c)
      (edge_passed-IsQuiet i edge state c)

process_edge_events-IsQuiet :
    (i : ℕ) (canceling : Bool) (node : Node) (state : StateContent) (c : OrderStateCache)
    → IsQuiet c (process_edge_events i canceling node state c)
unfolding process_edge_events
process_edge_events-IsQuiet i true node state c = stays-IsQuiet c
process_edge_events-IsQuiet i false node state c =
    edge_events-IsQuiet i node state c (get_next_released_edge c.combined_order node)

mapped-IsQuiet :
    (i : ℕ) (state : StateContent) (s : ActionState) (c : OrderStateCache)
    (mapped : Option (Action × Target))
    → IsQuiet c (mapped_action_state i state s c mapped)
mapped-IsQuiet i state s c none = stays-IsQuiet c
mapped-IsQuiet i state s c (some (action, target)) =
    elim (Bool-cases (status_changed (JsMap.get s.action_id c.last_action_states) s)) [
      | inl e ↦ rw e (refl, refl, refl, refl)
      | inr e ↦ rw e (stays-IsQuiet c)
    ]

action_states-IsQuiet :
    (i : ℕ) (state : StateContent) (states : List ActionState) (c : OrderStateCache)
    → IsQuiet c (process_action_states i state states c)
unfolding process_action_states process_action_state
action_states-IsQuiet i state [] c = stays-IsQuiet c
action_states-IsQuiet i state (s ∷ states) c =
    let first = mapped_action_state i state s c (JsMap.get s.action_id c.mapped_actions) in
    and_then-IsQuiet (process_action_states i state states) c first
      (mapped-IsQuiet i state s c (JsMap.get s.action_id c.mapped_actions))
      (action_states-IsQuiet i state states first.0)

edge_behind-IsQuiet :
    (i : ℕ) (canceling : Bool) (state : StateContent) (c : OrderStateCache) (last : Option Node)
    → IsQuiet c (edge_behind i canceling state c last)
edge_behind-IsQuiet i canceling state c none = stays-IsQuiet c
edge_behind-IsQuiet i canceling state c (some n) = process_edge_events-IsQuiet i canceling n state c

traverse_node-IsQuiet :
    (i : ℕ) (canceling : Bool) (state : StateContent) (c : OrderStateCache) (next : Option Node)
    → IsQuiet c (traverse_node i canceling state c next)
traverse_node-IsQuiet i canceling state c none = stays-IsQuiet c
traverse_node-IsQuiet i canceling state c (some n) =
    let d : OrderStateCache = record c { last_node_traversed = some n } in
    let next_edge = get_next_edge c.combined_order n in
    and_then-IsQuiet (process_edge_events i canceling n state) c
      (d, node_traversed i n next_edge (end_of c next_edge) ∷ []) (refl, refl, refl, refl)
      (process_edge_events-IsQuiet i canceling n state d)

-- What a state says of the actions, edges and nodes of an order never raises `onOrderProcessed`.
pub process_order_state-IsQuiet :
    (i : ℕ) (canceling : Bool) (state : StateContent) (c : OrderStateCache)
    → IsQuiet c (process_order_state i canceling state c)
unfolding process_order_state process_last_edge process_next_node
process_order_state-IsQuiet i canceling state c =
    let acted = process_action_states i state state.action_states c in
    let driven = and_then (process_last_edge i canceling state) acted in
    and_then-IsQuiet (process_next_node i canceling state) c driven
      (and_then-IsQuiet (process_last_edge i canceling state) c acted
        (action_states-IsQuiet i state state.action_states c)
        (edge_behind-IsQuiet i canceling state acted.0 acted.0.last_node_traversed))
      (traverse_node-IsQuiet i canceling state driven.0 (next_node state driven.0))
