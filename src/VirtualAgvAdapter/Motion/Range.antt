-- ===== src/VirtualAgvAdapter/Motion/Range.antt =====
-- src/adapter/virtual-agv-adapter.ts: where the vehicle may drive: `isNodeWithinDeviationRange`,
-- `isRouteTraversable`, `canExecuteOrder`.
use vda_5050_lib_2_0_0_js.Prelude.{
  ◌≡◌, ◌↔◌, Option, none, some, Bool, true, false, List, [], ◌∷◌, ◌++◌, All, if◌then◌else◌, Outcome,
  ok, ◌>>=◌, arith, String-Eq, ◌==◌,
}
use vda_5050_lib_2_0_0_js.Types.{is_zero, Double, Node, NodePosition, Edge, Action, ErrorReference}
use vda_5050_lib_2_0_0_js.AgvController.Model.{ActionContext, on_node, is_some}
use vda_5050_lib_2_0_0_js.AgvController.Errors.{reference, ref_key_error_description_detail}
use vda_5050_lib_2_0_0_js.VirtualAgvAdapter.Numbers.{Arithmetic}
use vda_5050_lib_2_0_0_js.VirtualAgvAdapter.Vehicle.{VirtualAgvState, VirtualAgvAdapterOptions}
use vda_5050_lib_2_0_0_js.VirtualAgvAdapter.Definitions.{VirtualActionDefinition, VirtualError}
use vda_5050_lib_2_0_0_js.VirtualAgvAdapter.Adapter.{is_action_executable}

-- `||`: a deviation of 0 is as if it were not given.
abbrev or_default : Option Double → Double → Double
or_default none default = default
or_default (some d) default = if is_zero d then default else d

abbrev map_refs : Node → NodePosition → VirtualAgvState → List ErrorReference
map_refs node position s =
    if position.map_id == s.position.map_id
    then []
    else reference "nodeId" node.node_id ∷ reference "nodePosition.mapId" s.position.map_id ∷ []

unfoldable pub is_node_within_deviation_range :
    Arithmetic → VirtualAgvAdapterOptions → VirtualAgvState → Node → List ErrorReference
is_node_within_deviation_range a o s node = elim node.node_position [
  | none ↦ []
  | some position ↦
      let allowed_xy =
        or_default position.allowed_deviation_xy o.agv_normal_deviation_xy_tolerance in
      let distance =
        a.add (a.square (a.subtract s.position.x position.x))
          (a.square (a.subtract s.position.y position.y)) in
      let allowed_theta =
        or_default position.allowed_deviation_theta o.agv_normal_deviation_theta_tolerance in
      map_refs node position s
      ++ (if a.less (a.square allowed_xy) distance
          then reference "nodePosition.allowedDeviationXY" (a.to_text allowed_xy) ∷ []
          else [])
      ++ elim position.theta [
        | none ↦ []
        | some theta ↦
            if a.less allowed_theta (a.abs (a.subtract s.position.theta theta))
            then reference "nodePosition.allowedDeviationTheta" (a.to_text allowed_theta) ∷ []
            else []
      ]
]

abbrev missing_position : Node → List ErrorReference
missing_position node =
    reference ref_key_error_description_detail "missing nodePosition"
    ∷ reference "nodeId" node.node_id
    ∷ reference "nodePosition" "undefined"
    ∷ []

-- The loop over the nodes behind the first.
abbrev missing_positions : List Node → List ErrorReference
missing_positions [] = []
missing_positions (node ∷ nodes) =
    let rest = missing_positions nodes in
    if is_some node.node_position then rest else missing_position node

unfoldable pub is_route_traversable : List Node → List Edge → List ErrorReference
is_route_traversable [] edges = []
is_route_traversable (first ∷ nodes) edges = missing_positions nodes

abbrev node_context : Node → Action → ActionContext
node_context node action = record {
  action = action;
  target = on_node node;
  stop_driving = none;
  active_order_id = none;
}

abbrev is_empty {ℓ} : {A : Type ℓ} → List A → Bool
is_empty [] = true
is_empty (a ∷ as') = false

abbrev can_execute_actions :
    List VirtualActionDefinition → Node → List Action → Outcome VirtualError Bool
can_execute_actions definitions node [] = ok true
can_execute_actions definitions node (action ∷ actions) =
    is_action_executable definitions (node_context node action) >>= λ refs.
    if is_empty refs then can_execute_actions definitions node actions else ok false

abbrev can_execute_nodes : List VirtualActionDefinition → List Node → Outcome VirtualError Bool
can_execute_nodes definitions [] = ok true
can_execute_nodes definitions (node ∷ nodes) =
    can_execute_actions definitions node node.actions >>= λ possible.
    if possible then can_execute_nodes definitions nodes else ok false

unfoldable pub can_execute_order :
    List VirtualActionDefinition → List Node → List Edge → Outcome VirtualError Bool
can_execute_order definitions nodes edges =
    if is_empty (is_route_traversable nodes edges)
    then can_execute_nodes definitions nodes
    else ok false

abbrev Positioned : Node → Type 0
Positioned node = is_some node.node_position ≡ true

missing_positions_iff : (nodes : List Node) → (missing_positions nodes ≡ []) ↔ All Positioned nodes
missing_positions_iff [] = ground arith
missing_positions_iff (node ∷ nodes) = ground (arith, missing_positions_iff nodes)

-- A route is found traversable exactly if every node but the first has a position.
is_route_traversable_iff :
    (first : Node) (nodes : List Node) (edges : List Edge)
    → (is_route_traversable (first ∷ nodes) edges ≡ []) ↔ All Positioned nodes
unfolding is_route_traversable
is_route_traversable_iff first nodes edges = missing_positions_iff nodes
