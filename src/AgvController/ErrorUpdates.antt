-- ===== src/AgvController/ErrorUpdates.antt =====
-- src/controller/agv-controller.ts, `updateErrors`: the errors that the adapter adds to the state and
-- removes from it.
pub mod Laws
use vda_5050_lib_2_0_0_js.Prelude.{
  ℕ, zero, suc, Option, none, some, Bool, true, false, ◌&&◌, List, [], ◌∷◌, ◌++◌, any, every,
  length, eqb, if◌then◌else◌, String-Eq, Option-Eq, ◌==◌, Outcome, ok, err, ◌>>=◌,
}
use vda_5050_lib_2_0_0_js.Types.{Error, ErrorLevel, ErrorReference}
use vda_5050_lib_2_0_0_js.AgvController.Model.{
  Controller, ErrorObject, PartialState, update_state, no_change,
}
use vda_5050_lib_2_0_0_js.AgvController.Status.{clone_state}

pub data UpdateMode : Type 0 where
  add remove : UpdateMode

-- The `TypeError` of the length of a list that is undefined.
pub data ErrorUpdateError : Type 0 where
  references_undefined : ErrorUpdateError

abbrev same_level : ErrorLevel → ErrorLevel → Bool
same_level ErrorLevel.fatal ErrorLevel.fatal = true
same_level ErrorLevel.warning ErrorLevel.warning = true
same_level ErrorLevel.fatal ErrorLevel.warning = false
same_level ErrorLevel.warning ErrorLevel.fatal = false

abbrev same_reference : ErrorReference → ErrorReference → Bool
same_reference a b = a.reference_key == b.reference_key && a.reference_value == b.reference_value

unfoldable pub are_error_references_equal : List ErrorReference → List ErrorReference → Bool
are_error_references_equal refs_1 refs_2 =
    eqb (length refs_1) (length refs_2) && every (λ a. any (λ b. same_reference b a) refs_2) refs_1

abbrev pub compare_references :
    Option (List ErrorReference) → Option (List ErrorReference) → Outcome ErrorUpdateError Bool
compare_references none _ = err references_undefined
compare_references (some refs_1) none = err references_undefined
compare_references (some refs_1) (some refs_2) = ok (are_error_references_equal refs_1 refs_2)

-- The references are looked at only if all else is equal.
unfoldable pub is_same_error : Error → Error → Outcome ErrorUpdateError Bool
is_same_error error e =
    if e.error_description == error.error_description
      && (same_level e.error_level error.error_level && e.error_type == error.error_type)
    then compare_references e.error_references error.error_references
    else ok false

abbrev pub next_index : Option ℕ → Option ℕ
next_index none = none
next_index (some i) = some (suc i)

unfoldable pub find_error_index : Error → List ErrorObject → Outcome ErrorUpdateError (Option ℕ)
find_error_index error [] = ok none
find_error_index error (e ∷ es) =
    let rest = find_error_index error es in
    is_same_error error e.error >>= λ same.
    if same then ok (some zero) else (rest >>= λ i. ok (next_index i))

-- `splice(index, 1)`.
unfoldable pub without_error : ℕ → List ErrorObject → List ErrorObject
without_error i [] = []
without_error zero (e ∷ es) = es
without_error (suc i) (e ∷ es) = e ∷ without_error i es

unfoldable pub set_errors : List ErrorObject → Bool → Controller → Controller
set_errors errors report_immediately c =
    let (c', cloned) = clone_state (record no_change { errors = some errors }) c in
    update_state cloned report_immediately c'

abbrev pub changed_errors : Option ℕ → UpdateMode → ErrorObject → Bool → Controller → Controller
changed_errors none add error report_immediately c =
    set_errors (c.state.errors ++ error ∷ []) report_immediately c
changed_errors none remove error report_immediately c = c
changed_errors (some i) add error report_immediately c = c
changed_errors (some i) remove error report_immediately c =
    set_errors (without_error i c.state.errors) report_immediately c

unfoldable pub update_errors :
    ErrorObject → UpdateMode → Bool → Controller → Outcome ErrorUpdateError Controller
update_errors error mode report_immediately c =
    find_error_index error.error c.state.errors >>= λ index.
    ok (changed_errors index mode error report_immediately c)
