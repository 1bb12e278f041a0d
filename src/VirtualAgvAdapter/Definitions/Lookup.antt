-- ===== src/VirtualAgvAdapter/Definitions/Lookup.antt =====
-- src/adapter/virtual-agv-adapter.ts, `_getActionDefinition`: the definition by its place.
use vda_5050_lib_2_0_0_js.Prelude.{
  ◌≡◌, ◌↔◌, ℕ, zero, suc, ◌<◌, refl, ap, subst, ◌∙◌, Bool, ◌&&◌, any, get_elem?, if◌then◌else◌,
  ◌==◌, Bool-cases, some, true, List, [], ◌∷◌, inl, inr, arith, String-Eq,
}
use text.Mathlib.TextEquality.{eq_iff}
use vda_5050_lib_2_0_0_js.Types.{Action}
use vda_5050_lib_2_0_0_js.VirtualAgvAdapter.Definitions.{
  VirtualActionDefinition, ActionScope, same_scope, get_action_definition,
}

-- The definition is for the type of the action, and for the scope.
abbrev pub Fits : Action → ActionScope → VirtualActionDefinition → Type 0
Fits action scope d =
    (d.action_type ≡ action.action_type) × ((k : ℕ) × (get_elem? d.action_scopes k ≡ some scope))

-- The first of the definitions that fits.
pub record IsFirst (definitions : List VirtualActionDefinition) (action : Action)
    (scope : ActionScope) (d : VirtualActionDefinition) : Type 0 where
  pub index : ℕ
  pub here : get_elem? definitions index ≡ some d
  pub fits : Fits action scope d
  pub first :
      (j : ℕ) (e : VirtualActionDefinition)
      → j < index
      → get_elem? definitions j ≡ some e
      → ¬ Fits action scope e

same_scope_iff : (s t : ActionScope) → (same_scope s t ≡ true) ↔ (t ≡ s)
same_scope_iff ActionScope.instant ActionScope.instant = ground arith
same_scope_iff ActionScope.instant ActionScope.node = ground arith
same_scope_iff ActionScope.instant ActionScope.edge = ground arith
same_scope_iff ActionScope.node ActionScope.instant = ground arith
same_scope_iff ActionScope.node ActionScope.node = ground arith
same_scope_iff ActionScope.node ActionScope.edge = ground arith
same_scope_iff ActionScope.edge ActionScope.instant = ground arith
same_scope_iff ActionScope.edge ActionScope.node = ground arith
same_scope_iff ActionScope.edge ActionScope.edge = ground arith

any-member :
    (s : ActionScope) (scopes : List ActionScope)
    → any (same_scope s) scopes ≡ true
    → (k : ℕ) × (get_elem? scopes k ≡ some s)
any-member s [] e = absurd (ground (arith, e))
any-member s (t ∷ scopes) e = elim (Bool-cases (same_scope s t)) [
  | inl same ↦ (0, ap some ((same_scope_iff s t).0 same))
  | inr other ↦ let (k, found) = any-member s scopes (ground (arith, e, other)) in (suc k, found)
]

member-any :
    (s : ActionScope) (scopes : List ActionScope) (k : ℕ)
    → get_elem? scopes k ≡ some s
    → any (same_scope s) scopes ≡ true
member-any s [] k e = absurd (ground (arith, e))
member-any s (t ∷ scopes) zero e = ground (arith, e, same_scope_iff s t)
member-any s (t ∷ scopes) (suc k) e = ground (arith, member-any s scopes k e)

abbrev is_fitting : Action → ActionScope → VirtualActionDefinition → Bool
is_fitting action scope d =
    d.action_type == action.action_type && any (same_scope scope) d.action_scopes

is_fitting-Fits :
    (action : Action) (scope : ActionScope) (d : VirtualActionDefinition)
    → is_fitting action scope d ≡ true
    → Fits action scope d
is_fitting-Fits action scope d e = (
  ground (arith, e, eq_iff d.action_type action.action_type),
  any-member scope d.action_scopes (ground (arith, e)),
)

Fits-is_fitting :
    (action : Action) (scope : ActionScope) (d : VirtualActionDefinition)
    → Fits action scope d
    → is_fitting action scope d ≡ true
Fits-is_fitting action scope d (type, (k, e)) =
    ground
      (arith, type, eq_iff d.action_type action.action_type, member-any scope d.action_scopes k e)

module _ (action : Action) (scope : ActionScope) where
  get_action_definition-cons :
      (d : VirtualActionDefinition) (ds : List VirtualActionDefinition)
      → get_action_definition (d ∷ ds) action scope
        ≡ (if is_fitting action scope d then some d else get_action_definition ds action scope)
  unfolding get_action_definition
  get_action_definition-cons d ds = refl

  later_first :
      (d : VirtualActionDefinition) (ds : List VirtualActionDefinition) (i : ℕ)
      → ¬ Fits action scope d
      → ((j : ℕ) (e : VirtualActionDefinition)
          → j < i
          → get_elem? ds j ≡ some e
          → ¬ Fits action scope e)
      → (j : ℕ) (e : VirtualActionDefinition) → j < suc i
      → get_elem? (d ∷ ds) j ≡ some e
      → ¬ Fits action scope e
  later_first d ds i unfit h zero e le g =
      let same : d ≡ e = ground (arith, g) in subst (λ x. ¬ Fits action scope x) same unfit
  later_first d ds i unfit h (suc j) e le g = h j e (omega (arith, le)) g

  pub get_action_definition-IsFirst :
      (ds : List VirtualActionDefinition) (found : VirtualActionDefinition)
      → get_action_definition ds action scope ≡ some found
      → IsFirst ds action scope found
  unfolding get_action_definition
  get_action_definition-IsFirst [] found e = absurd (ground (arith, e))
  get_action_definition-IsFirst (d ∷ ds) found e = elim (Bool-cases (is_fitting action scope d)) [
    | inl fits ↦ record {
      index = 0;
      here = ground (arith, e, fits);
      fits = is_fitting-Fits action scope found (ground (arith, e, fits));
      first = λ j f lt g. absurd (omega (arith, lt));
    }
    | inr other ↦
        let rest = get_action_definition-IsFirst ds found (ground (arith, e, other)) in
        record {
          index = suc rest.index;
          here = rest.here;
          fits = rest.fits;
          first =
              later_first d ds rest.index (λ f. cc (Fits-is_fitting action scope d f, other))
                rest.first;
        }
  ]

  pub at_index :
      (ds : List VirtualActionDefinition) (found : VirtualActionDefinition) (i : ℕ)
      → get_elem? ds i ≡ some found
      → Fits action scope found
      → ((j : ℕ) (e : VirtualActionDefinition)
          → j < i
          → get_elem? ds j ≡ some e
          → ¬ Fits action scope e)
      → get_action_definition ds action scope ≡ some found
  at_index [] found i here fits first = absurd (ground (arith, here))
  at_index (d ∷ ds) found zero here fits first =
      get_action_definition-cons d ds
      ∙ ground (arith, here, Fits-is_fitting action scope found fits)
  at_index (d ∷ ds) found (suc i) here fits first = elim (Bool-cases (is_fitting action scope d)) [
    | inl yes_d ↦ absurd (first 0 d (omega arith) refl (is_fitting-Fits action scope d yes_d))
    | inr no_d ↦
        get_action_definition-cons d ds
        ∙ rw no_d
            (at_index ds found i here fits (λ j e lt g. first (suc j) e (omega (arith, lt)) g))
  ]
