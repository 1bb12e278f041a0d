-- ===== src/Tests/Vehicles.antt =====
-- src/common/agvid-map.ts and src/common/mqtt-utils.ts at concrete vehicles and texts.
use vda_5050_lib_2_0_0_js.Prelude.{◌≡◌, ◌≤◌, ◌↔◌, [], ◌∷◌, String, ok, ℕ}
use Prim.Native.String.{len}
use vda_5050_lib_2_0_0_js.JsMap
use vda_5050_lib_2_0_0_js.Types.{AgvId, AgvId-Eq}
use vda_5050_lib_2_0_0_js.AgvIdMap.{set, entries}
use vda_5050_lib_2_0_0_js.AgvIdMap.View.{put, IsGrouped, entries-IsGrouped}
use vda_5050_lib_2_0_0_js.Mqtt.{assert_mqtt_topic_length, max_mqtt_topic_utf8_count}
use vda_5050_lib_2_0_0_js.Mqtt.Utf8.{assert_mqtt_topic_length_iff}

abbrev agv : String → String → AgvId
agv m s = record { manufacturer = m; serial_number = s }

entries-IsGrouped_example :
    IsGrouped {T = ℕ} ((agv "a" "1", 1) ∷ (agv "a" "2", 3) ∷ (agv "b" "1", 2) ∷ [])
unfolding entries set JsMap.get JsMap.set
entries-IsGrouped_example =
    entries-IsGrouped (put (agv "a" "1") 1 ∷ put (agv "b" "1") 2 ∷ put (agv "a" "2") 3 ∷ [])

assert_mqtt_topic_length_iff_example :
    (assert_mqtt_topic_length "uagv/v2/order" ≡ ok tt)
    ↔ (len "uagv/v2/order" ≤ max_mqtt_topic_utf8_count)
assert_mqtt_topic_length_iff_example = assert_mqtt_topic_length_iff "uagv/v2/order"
