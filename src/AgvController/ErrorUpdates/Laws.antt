-- ===== src/AgvController/ErrorUpdates/Laws.antt =====
-- src/controller/agv-controller.ts, `updateErrors`: adding and removing an error.
use vda_5050_lib_2_0_0_js.Prelude.{
  ℕ, zero, suc, ◌+◌, ◌≡◌, refl, ap, ◌∙◌, none, some, Bool, true, false, List, [], ◌∷◌, ◌++◌, map,
  length, ok, ◌>>=◌, arith,
}
use vda_5050_lib_2_0_0_js.Types.{Error}
use vda_5050_lib_2_0_0_js.AgvController.Model.{
  Controller, ErrorObject, update_state, merge_state, publish_current_state,
}
use vda_5050_lib_2_0_0_js.AgvController.Status.{clone_state, clone_errors}
use vda_5050_lib_2_0_0_js.AgvController.ErrorUpdates.{
  UpdateMode, is_same_error, find_error_index, without_error, set_errors, update_errors,
}

abbrev pub errors_of : Controller → List Error
errors_of c = map (λ e. e.error) c.state.errors

clone_errors-find :
    (error : Error) (n : ℕ) (es : List ErrorObject)
    → find_error_index error (clone_errors n es) ≡ find_error_index error es
unfolding find_error_index clone_errors
clone_errors-find error n [] = refl
clone_errors-find error n (e ∷ es) = rw (clone_errors-find error (n + 1) es) refl

clone_errors-errors :
    (n : ℕ) (es : List ErrorObject) → map (λ e. e.error) (clone_errors n es) ≡ map (λ e. e.error) es
unfolding clone_errors
clone_errors-errors n [] = refl
clone_errors-errors n (e ∷ es) = ap (λ r. e.error ∷ r) (clone_errors-errors (n + 1) es)

without_error-clone_errors :
    (i n : ℕ) (es : List ErrorObject)
    → map (λ e. e.error) (without_error i (clone_errors n es))
      ≡ map (λ e. e.error) (without_error i es)
unfolding clone_errors without_error
without_error-clone_errors i n [] = refl
without_error-clone_errors zero n (e ∷ es) = clone_errors-errors (n + 1) es
without_error-clone_errors (suc i) n (e ∷ es) =
    ap (λ r. e.error ∷ r) (without_error-clone_errors i (n + 1) es)

without_error-last :
    (es : List ErrorObject) (x : ErrorObject) → without_error (length es) (es ++ x ∷ []) ≡ es
unfolding without_error
without_error-last [] x = refl
without_error-last (e ∷ es) x = ap (λ r. e ∷ r) (without_error-last es x)

find_error_index-last :
    (es : List ErrorObject) (x : ErrorObject)
    → is_same_error x.error x.error ≡ ok true
    → find_error_index x.error es ≡ ok none
    → find_error_index x.error (es ++ x ∷ []) ≡ ok (some (length es))
unfolding find_error_index
find_error_index-last [] x same absent = rw same refl
find_error_index-last (e ∷ es) x same absent =
    ground (arith, find_error_index-last es x same, absent)

set_errors-errors :
    (es : List ErrorObject) (report : Bool) (c : Controller)
    → (set_errors es report c).state.errors ≡ clone_errors c.next_identity es
unfolding set_errors update_state merge_state publish_current_state clone_state
set_errors-errors es true c = refl
set_errors-errors es false c = refl

add_lem :
    (x : ErrorObject) (report : Bool) (c : Controller)
    → find_error_index x.error c.state.errors ≡ ok none
    → update_errors x UpdateMode.add report c ≡ ok (set_errors (c.state.errors ++ x ∷ []) report c)
unfolding update_errors
add_lem x report c absent = rw absent refl

remove_lem :
    (x : ErrorObject) (i : ℕ) (report : Bool) (c : Controller)
    → find_error_index x.error c.state.errors ≡ ok (some i)
    → update_errors x UpdateMode.remove report c
      ≡ ok (set_errors (without_error i c.state.errors) report c)
unfolding update_errors
remove_lem x i report c found = rw found refl

-- What the state has after the error at a place has been removed from given errors.
errors_of-set_errors :
    (es : List ErrorObject) (report : Bool) (c : Controller)
    → errors_of (set_errors es report c) ≡ map (λ e. e.error) es
errors_of-set_errors es report c =
    rw (set_errors-errors es report c) (clone_errors-errors c.next_identity es)

removed_errors :
    (es : List ErrorObject) (x : ErrorObject) (report report' : Bool) (c : Controller)
    → errors_of (
        set_errors
          (without_error (length es) (set_errors (es ++ x ∷ []) report c).state.errors)
          report'
          (set_errors (es ++ x ∷ []) report c))
      ≡ map (λ e. e.error) es
removed_errors es x report report' c =
    errors_of-set_errors _ report' _
    ∙ rw (set_errors-errors (es ++ x ∷ []) report c) (
        without_error-clone_errors (length es) c.next_identity (es ++ x ∷ [])
        ∙ ap (map (λ e. e.error)) (without_error-last es x))

-- Adding an error that is not in the state, and equal to itself, and removing it again succeeds, and
-- the state has the errors that it had.
pub update_errors-update_errors :
    (x : ErrorObject) (report report' : Bool) (c : Controller)
    → is_same_error x.error x.error ≡ ok true
    → find_error_index x.error c.state.errors ≡ ok none
    → (update_errors x UpdateMode.add report c >>= λ added.
        update_errors x UpdateMode.remove report' added >>= λ removed. ok (errors_of removed))
      ≡ ok (errors_of c)
update_errors-update_errors x report report' c same absent =
    let found =
      ap (find_error_index x.error) (set_errors-errors (c.state.errors ++ x ∷ []) report c)
      ∙ clone_errors-find x.error c.next_identity (c.state.errors ++ x ∷ [])
      ∙ find_error_index-last c.state.errors x same absent in
    rw
      (
        add_lem x report c absent,
        remove_lem x (length c.state.errors) report'
            (set_errors (c.state.errors ++ x ∷ []) report c) found,
      )
      (ap ok (removed_errors c.state.errors x report report' c))
