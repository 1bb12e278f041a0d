-- ===== src/AgvController/Cancel/Waiting.antt =====
-- src/controller/agv-controller.ts: what is left of an order that is being cancelled.
use vda_5050_lib_2_0_0_js.Prelude.{◌&&◌, Bool, not, ◌||◌, String-Eq}
use vda_5050_lib_2_0_0_js.JsMap
use vda_5050_lib_2_0_0_js.Types.{ActionState, is_ended_status}
use vda_5050_lib_2_0_0_js.AgvController.Model.{Controller, is_instant_action_state}
use vda_5050_lib_2_0_0_js.AgvController.Cancel.{is_waiting}

-- A state that does not keep an order action waiting.
unfoldable pub is_settled : Controller → ActionState → Bool
is_settled c s = is_instant_action_state c s || not (is_waiting s.action_status)

-- An action of an order that the adapter has been asked to execute, and that has not ended.
abbrev pub is_in_progress : Controller → ActionState → Bool
is_in_progress c s =
    not (is_instant_action_state c s)
    && (not (is_waiting s.action_status) && not (is_ended_status s.action_status))
