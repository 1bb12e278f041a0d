-- ===== src/Tests/Errors.antt =====
-- src/controller/agv-controller.ts, `updateErrors`, with a concrete error.
use vda_5050_lib_2_0_0_js.Prelude.{◌≡◌, refl, some, false, true, [], ◌∷◌, ok, ◌>>=◌}
use vda_5050_lib_2_0_0_js.Types.{Error, ErrorLevel}
use vda_5050_lib_2_0_0_js.AgvController.Model.{Controller, ErrorObject}
use vda_5050_lib_2_0_0_js.AgvController.ErrorUpdates.{
  UpdateMode, update_errors, find_error_index, is_same_error, are_error_references_equal,
}
use vda_5050_lib_2_0_0_js.AgvController.ErrorUpdates.Laws.{errors_of, update_errors-update_errors}
use vda_5050_lib_2_0_0_js.Tests.Fixtures.{idle}

abbrev battery_low : Error
battery_low = record {
  error_description = some "battery low";
  error_level = ErrorLevel.warning;
  error_references = some (record { reference_key = "charge"; reference_value = "9" } ∷ []);
  error_type = "batteryLowError";
}

abbrev emergency : Error
emergency = record battery_low { error_level = ErrorLevel.fatal; error_type = "emergencyError" }

abbrev in_emergency : Controller
in_emergency = record idle {
  state = record idle.state { errors = record { identity = 1; error = emergency } ∷ [] };
}

abbrev low : ErrorObject
low = record { identity = 2; error = battery_low }

update_errors-update_errors_example :
    (update_errors low UpdateMode.add false in_emergency >>= λ added.
    update_errors low UpdateMode.remove true added >>= λ removed. ok (errors_of removed))
    ≡ ok (emergency ∷ [])
unfolding find_error_index is_same_error are_error_references_equal
update_errors-update_errors_example =
    update_errors-update_errors low false true in_emergency refl refl
