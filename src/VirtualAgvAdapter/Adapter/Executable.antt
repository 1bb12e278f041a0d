-- ===== src/VirtualAgvAdapter/Adapter/Executable.antt =====
-- src/adapter/virtual-agv-adapter.ts: which actions the virtual vehicle accepts.
use vda_5050_lib_2_0_0_js.Prelude.{
  ◌≡◌, ◌↔◌, ap, sym, ◌∙◌, Option-cases, String, Option, none, some, true, List, [], ◌∷◌, All, ok,
  ◌>>=◌, Outcome-cases, inl, inr, arith, String-Eq,
}
use vda_5050_lib_2_0_0_js.Types.{Action, Json, ErrorReference}
use vda_5050_lib_2_0_0_js.AgvController.Model.{ActionContext}
use vda_5050_lib_2_0_0_js.VirtualAgvAdapter.Definitions.{
  VirtualActionDefinition, ActionScope, scope_of, Constraint, get_action_definition,
}
use vda_5050_lib_2_0_0_js.VirtualAgvAdapter.Definitions.Lookup.{
  IsFirst, get_action_definition-IsFirst, at_index,
}
use vda_5050_lib_2_0_0_js.VirtualAgvAdapter.Adapter.{
  is_action_executable, violations, parameters_of, value_of, check_definition, check_parameters,
  with_summary,
}

-- Every constraint is met.
abbrev Meets : ActionScope → List (String × Json) → List (String × Constraint) → Type 0
Meets scope parameters constraints =
    All (λ k. k.1 (value_of k.0 parameters) scope parameters ≡ ok true) constraints

violations-Meets :
    (scope : ActionScope) (parameters : List (String × Json))
    (constraints : List (String × Constraint))
    → (violations scope parameters constraints ≡ ok []) ↔ Meets scope parameters constraints
violations-Meets scope parameters [] = ground arith
violations-Meets scope parameters ((key, constraint) ∷ constraints) =
    let later = violations-Meets scope parameters constraints in ground (arith, later)

-- The parameters of an action are accepted.
abbrev Accepts : Option (List (String × Constraint)) → ActionContext → Type 0
Accepts none context = Unit
Accepts (some constraints) context =
    Meets (scope_of context.target) (parameters_of context.action) constraints

with_summary_iff : (refs : List ErrorReference) → (with_summary refs ≡ []) ↔ (refs ≡ [])
with_summary_iff [] = ground arith
with_summary_iff (r ∷ refs) = ground arith

judged :
    (scope : ActionScope) (parameters : List (String × Json))
    (constraints : List (String × Constraint))
    → ((violations scope parameters constraints >>= λ refs. ok (with_summary refs)) ≡ ok [])
      ↔ Meets scope parameters constraints
judged scope parameters constraints =
    let met = violations-Meets scope parameters constraints in
    elim (Outcome-cases (violations scope parameters constraints)) [
      | inl (refs, e) ↦ ground (arith, met, e, with_summary_iff refs)
      | inr (x, e) ↦ ground (arith, met, e)
    ]

check_parameters-Accepts :
    (constraints : Option (List (String × Constraint))) (context : ActionContext)
    → (check_parameters constraints context ≡ ok []) ↔ Accepts constraints context
check_parameters-Accepts none context = ground arith
check_parameters-Accepts (some constraints) context =
    judged (scope_of context.target) (parameters_of context.action) constraints

-- There is a first definition that fits the action and its scope, and it accepts the parameters.
pub record IsAccepted (definitions : List VirtualActionDefinition) (context : ActionContext)
    : Type 0 where
  pub definition : VirtualActionDefinition
  pub is_first : IsFirst definitions context.action (scope_of context.target) definition
  pub accepts : Accepts definition.action_parameter_constraints context

-- An action is found executable, without an error, exactly if some definition is for its type and
-- its scope, and the parameters meet every constraint of the first such definition.
pub is_action_executable_iff :
    (definitions : List VirtualActionDefinition) (context : ActionContext)
    → (is_action_executable definitions context ≡ ok []) ↔ IsAccepted definitions context
unfolding is_action_executable
is_action_executable_iff definitions context = (forward, backward)
  where
    action : Action
    action = context.action

    scope : ActionScope
    scope = scope_of context.target

    forward : is_action_executable definitions context ≡ ok [] → IsAccepted definitions context
    forward e = elim (Option-cases (get_action_definition definitions action scope)) [
      | inl none_found ↦ absurd (ground (arith, e, none_found))
      | inr (d, found) ↦ record {
        definition = d;
        is_first = get_action_definition-IsFirst action scope definitions d found;
        accepts =
            (check_parameters-Accepts d.action_parameter_constraints context).0
              (ap (λ o. check_definition o context) (sym found) ∙ e);
      }
    ]

    backward : IsAccepted definitions context → is_action_executable definitions context ≡ ok []
    backward a =
        let f = a.is_first in
        ap (λ o. check_definition o context)
          (at_index action scope definitions a.definition f.index f.here f.fits f.first)
        ∙ (check_parameters-Accepts a.definition.action_parameter_constraints context).1 a.accepts
