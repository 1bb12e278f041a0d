-- ===== src/Client/Directions.antt =====
-- src/client/agv-client.ts and src/client/master-control-client.ts: which core topics each side may
-- subscribe and publish.
use vda_5050_lib_2_0_0_js.Prelude.{Bool, not, Outcome, ok, err, ◌≡◌, ◌↔◌, arith, throw_if}
use vda_5050_lib_2_0_0_js.Types.{Topic}
use vda_5050_lib_2_0_0_js.Client.{ClientError, direction_invalid}

-- `validateTopicDirection` of `AgvClient`.
unfoldable pub agv_direction : Topic → Bool → Outcome ClientError (Unit {0})
agv_direction Topic.connection as_inbound =
    throw_if as_inbound (direction_invalid Topic.connection as_inbound)
agv_direction Topic.instant_actions as_inbound =
    throw_if (not as_inbound) (direction_invalid Topic.instant_actions as_inbound)
agv_direction Topic.order as_inbound =
    throw_if (not as_inbound) (direction_invalid Topic.order as_inbound)
agv_direction Topic.state as_inbound =
    throw_if as_inbound (direction_invalid Topic.state as_inbound)
agv_direction Topic.visualization as_inbound =
    throw_if as_inbound (direction_invalid Topic.visualization as_inbound)

-- `validateTopicDirection` of `MasterControlClient`.
unfoldable pub master_control_direction : Topic → Bool → Outcome ClientError (Unit {0})
master_control_direction Topic.connection as_inbound =
    throw_if (not as_inbound) (direction_invalid Topic.connection as_inbound)
master_control_direction Topic.instant_actions as_inbound =
    throw_if as_inbound (direction_invalid Topic.instant_actions as_inbound)
master_control_direction Topic.order as_inbound =
    throw_if as_inbound (direction_invalid Topic.order as_inbound)
master_control_direction Topic.state as_inbound =
    throw_if (not as_inbound) (direction_invalid Topic.state as_inbound)
master_control_direction Topic.visualization as_inbound =
    throw_if (not as_inbound) (direction_invalid Topic.visualization as_inbound)

-- What one side may publish is what the other may subscribe, on every core topic; and no side may
-- both publish and subscribe the same one.
directions_dual :
    (topic : Topic) (as_inbound : Bool)
    → ((agv_direction topic as_inbound ≡ ok tt)
        ↔ (master_control_direction topic (not as_inbound) ≡ ok tt))
      × ((agv_direction topic as_inbound ≡ ok tt)
          ↔ (agv_direction topic (not as_inbound) ≡ err (direction_invalid topic (not as_inbound))))
unfolding agv_direction master_control_direction
directions_dual topic as_inbound = ground arith
