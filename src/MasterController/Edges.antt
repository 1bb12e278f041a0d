-- ===== src/MasterController/Edges.antt =====
-- src/controller/master-controller.ts: the events of the edge behind the last node traversed. Edges
-- of an order differ in their sequence IDs, so that two are the same object if IDs and sequence IDs
-- are the same. A function returns the cache it leaves and the events that it raises.
use vda_5050_lib_2_0_0_js.Prelude.{
  ℕ, ◌+◌, String, Option, none, some, Bool, true, false, ◌&&◌, ◌||◌, List, [], ◌∷◌, ◌++◌, find, eqb,
  if◌then◌else◌, String-Eq, ◌==◌,
}
use vda_5050_lib_2_0_0_js.Types.{
  same_double, same_bool, OperatingMode, SafetyStatus, EStop, Node, Edge, StateContent,
}
use vda_5050_lib_2_0_0_js.AgvController.Model.{is_some}
use vda_5050_lib_2_0_0_js.MasterController.Model.{
  OrderStateCache, EdgeStateChanges, Event, edge_traversing, edge_traversed,
}
use vda_5050_lib_2_0_0_js.MasterController.Graph.{
  get_next_released_edge, get_edge_start_node, get_edge_end_node, are_all_blocking_actions_ended,
}

-- `===` where a value may be undefined.
abbrev pub same {ℓ} : {A : Type ℓ} → (A → A → Bool) → Option A → Option A → Bool
same eq none none = true
same eq (some a) (some b) = eq a b
same eq _ _ = false

abbrev mode_name : OperatingMode → String
mode_name OperatingMode.automatic = "AUTOMATIC"
mode_name OperatingMode.manual = "MANUAL"
mode_name OperatingMode.semiautomatic = "SEMIAUTOMATIC"
mode_name OperatingMode.service = "SERVICE"
mode_name OperatingMode.teachin = "TEACHIN"

abbrev stop_name : EStop → String
stop_name EStop.autoack = "AUTOACK"
stop_name EStop.manual = "MANUAL"
stop_name EStop.none = "NONE"
stop_name EStop.remote = "REMOTE"

abbrev pub same_mode : OperatingMode → OperatingMode → Bool
same_mode a b = mode_name a == mode_name b

abbrev pub same_safety : SafetyStatus → SafetyStatus → Bool
same_safety a b =
    stop_name a.e_stop == stop_name b.e_stop && same_bool a.field_violation b.field_violation

unfoldable pub all_changes : StateContent → EdgeStateChanges
all_changes s = record {
  distance_since_last_node = s.distance_since_last_node;
  driving = some s.driving;
  new_base_request = s.new_base_request;
  operating_mode = some s.operating_mode;
  paused = s.paused;
  safety_state = some s.safety_state;
}

-- The new value, if it differs.
abbrev pub delta {ℓ} : {A : Type ℓ} → (A → A → Bool) → Option A → Option A → Option A
delta eq old new = if same eq old new then none else new

abbrev pub changes_between : EdgeStateChanges → EdgeStateChanges → EdgeStateChanges
changes_between old new = record {
  distance_since_last_node =
      delta same_double old.distance_since_last_node new.distance_since_last_node;
  driving = delta same_bool old.driving new.driving;
  new_base_request = delta same_bool old.new_base_request new.new_base_request;
  operating_mode = delta same_mode old.operating_mode new.operating_mode;
  paused = delta same_bool old.paused new.paused;
  safety_state = delta same_safety old.safety_state new.safety_state;
}

abbrev pub are_same : EdgeStateChanges → EdgeStateChanges → Bool
are_same old new =
    same same_double old.distance_since_last_node new.distance_since_last_node
    && (same same_bool old.driving new.driving
        && (same same_bool old.new_base_request new.new_base_request
            && (same same_mode old.operating_mode new.operating_mode
                && (same same_bool old.paused new.paused
                    && same same_safety old.safety_state new.safety_state))))

abbrev pub Step : Type 0
Step = OrderStateCache × List Event

abbrev pub invocations : OrderStateCache → ℕ
invocations c = elim c.edge_state_change_invocations [ none ↦ 0 | some n ↦ n ]

-- `reportChanges`: counts the invocation, and keeps what was last seen.
abbrev pub report_changes :
    ℕ
    → Edge
    → Option Node
    → Option Node
    → EdgeStateChanges
    → EdgeStateChanges
    → OrderStateCache
    → Step
report_changes i edge start end changes seen c = (
  record c {
    last_edge_state_changes = some seen;
    edge_state_change_invocations = some (invocations c + 1);
  },
  edge_traversing i edge start end changes (invocations c + 1) ∷ [],
)

-- Given what was seen last.
abbrev pub update_from :
    ℕ
    → Edge
    → Option Node
    → Option Node
    → StateContent
    → OrderStateCache
    → Option EdgeStateChanges
    → Step
update_from i edge start end state c none =
    report_changes i edge start end (all_changes state) (all_changes state) c
update_from i edge start end state c (some old) =
    if are_same old (all_changes state)
    then (c, [])
    else report_changes i edge start end (changes_between old (all_changes state))
        (all_changes state) c

unfoldable pub update_edge_state_changes :
    ℕ → Edge → Option Node → Option Node → StateContent → OrderStateCache → Step
update_edge_state_changes i edge start end state c =
    update_from i edge start end state c c.last_edge_state_changes

abbrev pub same_edge : Edge → Option Edge → Bool
same_edge e none = false
same_edge e (some f) = e.edge_id == f.edge_id && eqb e.sequence_id f.sequence_id

abbrev pub is_ahead : Edge → StateContent → Bool
is_ahead edge state =
    is_some (
      find (λ s. s.edge_id == edge.edge_id && eqb s.sequence_id edge.sequence_id) state.edge_states)

-- The edge is no longer among the edge states.
unfoldable pub edge_passed : ℕ → Edge → StateContent → OrderStateCache → Step
edge_passed i edge state c =
    let start = get_edge_start_node c.combined_order edge in
    let end = get_edge_end_node c.combined_order edge in
    let (c', events) = update_edge_state_changes i edge start end state c in
    if same_edge edge c.last_edge_processed then (c, []) else (
      record c' {
        last_edge_state_changes = none;
        edge_state_change_invocations = some 0;
        last_edge_processed = some edge;
      },
      events ++ edge_traversed i edge start end ∷ [],
    )

-- Changes are reported as soon as the AGV is ready to drive.
unfoldable pub edge_ahead : ℕ → Edge → Node → StateContent → OrderStateCache → Step
edge_ahead i edge node state c =
    if is_some c.last_edge_state_changes || are_all_blocking_actions_ended node state
    then update_edge_state_changes i edge (get_edge_start_node c.combined_order edge)
        (get_edge_end_node c.combined_order edge) state c
    else (c, [])

-- The events of the released edge behind a node, if there is one.
abbrev pub edge_events : ℕ → Node → StateContent → OrderStateCache → Option Edge → Step
edge_events i node state c none = (c, [])
edge_events i node state c (some edge) =
    if is_ahead edge state then edge_ahead i edge node state c else edge_passed i edge state c

-- `processEdgeEvents`, of a cache whose last node is given.
unfoldable pub process_edge_events : ℕ → Bool → Node → StateContent → OrderStateCache → Step
process_edge_events i is_canceling node state c =
    if is_canceling
    then (c, [])
    else edge_events i node state c (get_next_released_edge c.combined_order node)
