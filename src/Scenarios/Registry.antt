-- ===== src/Scenarios/Registry.antt =====
-- What the registry holds once it is built: aliases and ids name the same scenarios, each by its own,
-- and no alias looks like a generated key.
use precis_finance_mcp.Common.{
  String, ◌≡◌, ◌⊎◌, refl, arith, Bool, true, false, some, List, [], ◌∷◌, eq_iff, eq_refl, lookup,
  lookup-put, lookup-has_key, has_key, put, put-Distinct, Distinct, ok, raise_if, >>=-eq-ok,
  ok-injective, inl, inr, subst, some-inj, text_cases, sym, ◌∙◌, ap,
}
use precis_finance_mcp.Catalogue.{Error, invalid_alias}
use precis_finance_mcp.Scenarios.{
  RealScenarioRef, validate_alias, ScenarioRegistry, no_scenarios, register, register_all,
  scenario_registry,
}

pub record IsRegistry (registry : ScenarioRegistry) : Type 0 where
  pub valid :
      (k : String) (s : RealScenarioRef)
      → lookup k registry.aliases ≡ some s
      → (s.alias ≡ k) × (validate_alias k ≡ ok tt)
  pub own_id :
      (k : String) (s : RealScenarioRef) → lookup k registry.ids ≡ some s → s.scenario_id ≡ k
  pub has_id :
      (k : String) (s : RealScenarioRef)
      → lookup k registry.aliases ≡ some s
      → lookup s.scenario_id registry.ids ≡ some s
  pub has_alias :
      (k : String) (s : RealScenarioRef)
      → lookup k registry.ids ≡ some s
      → lookup s.alias registry.aliases ≡ some s
  pub aliases_once : Distinct registry.aliases
  pub ids_once : Distinct registry.ids

abbrev added : RealScenarioRef → ScenarioRegistry → ScenarioRegistry
added s registry = record {
  aliases = put s.alias s registry.aliases;
  ids = put s.scenario_id s registry.ids;
}

raise_if-ok : (test : Bool) (e : Error) {u : Unit {0}} → raise_if test e ≡ ok u → test ≡ false
raise_if-ok true e h = cc
raise_if-ok false e h = refl

checks_of_register :
    (s : RealScenarioRef) (registry : ScenarioRegistry) {next : ScenarioRegistry}
    → register s registry ≡ ok next
    → (validate_alias s.alias ≡ ok tt)
      × (has_key s.alias registry.aliases ≡ false)
      × (has_key s.scenario_id registry.ids ≡ false)
      × (added s registry ≡ next)
unfolding register
checks_of_register s registry h =
    let (u, valid, h₁) = >>=-eq-ok (validate_alias s.alias) _ h in
    let (v, fresh, h₂) =
      >>=-eq-ok (raise_if (has_key s.alias registry.aliases) invalid_alias) _ h₁ in
    let (w, new, answer) =
      >>=-eq-ok (raise_if (has_key s.scenario_id registry.ids) invalid_alias) _ h₂ in
    (
      valid,
      raise_if-ok (has_key s.alias registry.aliases) invalid_alias fresh,
      raise_if-ok (has_key s.scenario_id registry.ids) invalid_alias new,
      ok-injective answer,
    )

module _ (s : RealScenarioRef) (registry : ScenarioRegistry) (inv : IsRegistry registry)
    (valid : validate_alias s.alias ≡ ok tt) (fresh : has_key s.alias registry.aliases ≡ false)
    (new : has_key s.scenario_id registry.ids ≡ false) where
  -- A scenario that is found is the new one, or was there, with another alias and another id.
  found_alias :
      (k : String) (t : RealScenarioRef)
      → lookup k (put s.alias s registry.aliases) ≡ some t
      → ((s.alias ≡ k) × (s ≡ t)) ⊎ (lookup k registry.aliases ≡ some t)
  found_alias k t h = elim (text_cases s.alias k) [
    | inl (e, same) ↦
        inl (e, some-inj (rw same at (sym (lookup-put s.alias k s registry.aliases) ∙ h)))
    | inr other ↦ inr (rw other at (sym (lookup-put s.alias k s registry.aliases) ∙ h))
  ]

  found_id :
      (k : String) (t : RealScenarioRef)
      → lookup k (put s.scenario_id s registry.ids) ≡ some t
      → ((s.scenario_id ≡ k) × (s ≡ t)) ⊎ (lookup k registry.ids ≡ some t)
  found_id k t h = elim (text_cases s.scenario_id k) [
    | inl (e, same) ↦
        inl (e, some-inj (rw same at (sym (lookup-put s.scenario_id k s registry.ids) ∙ h)))
    | inr other ↦ inr (rw other at (sym (lookup-put s.scenario_id k s registry.ids) ∙ h))
  ]

  added-IsRegistry : IsRegistry (added s registry)
  added-IsRegistry = record {
    valid = λ k t h. elim (found_alias k t h) [
      | inl (e, same) ↦ (
        ap (λ (x : RealScenarioRef). x.alias) (sym same) ∙ e,
        subst (λ (x : String). validate_alias x ≡ ok tt) e valid,
      )
      | inr old ↦ inv.valid k t old
    ];
    own_id = λ k t h. elim (found_id k t h) [
      | inl (e, same) ↦ ap (λ (x : RealScenarioRef). x.scenario_id) (sym same) ∙ e
      | inr old ↦ inv.own_id k t old
    ];
    has_id = λ k t h. elim (found_alias k t h) [
      | inl (e, same) ↦
          subst
            (λ (x : RealScenarioRef).
              lookup x.scenario_id (put s.scenario_id s registry.ids) ≡ some x)
            same
            (lookup-put s.scenario_id s.scenario_id s registry.ids
              ∙ ground (arith, eq_refl s.scenario_id))
      | inr old ↦ ground (
        arith,
        lookup-put s.scenario_id t.scenario_id s registry.ids,
        inv.has_id k t old,
        eq_iff s.scenario_id t.scenario_id,
        lookup-has_key s.scenario_id registry.ids,
      )
    ];
    has_alias = λ k t h. elim (found_id k t h) [
      | inl (e, same) ↦
          subst (λ (x : RealScenarioRef). lookup x.alias (put s.alias s registry.aliases) ≡ some x)
            same (lookup-put s.alias s.alias s registry.aliases ∙ ground (arith, eq_refl s.alias))
      | inr old ↦ ground (
        arith,
        lookup-put s.alias t.alias s registry.aliases,
        inv.has_alias k t old,
        eq_iff s.alias t.alias,
        lookup-has_key s.alias registry.aliases,
      )
    ];
    aliases_once = put-Distinct s.alias s registry.aliases inv.aliases_once;
    ids_once = put-Distinct s.scenario_id s registry.ids inv.ids_once;
  }

no_scenarios-IsRegistry : IsRegistry no_scenarios
no_scenarios-IsRegistry = record {
  valid = λ k s h. cc;
  own_id = λ k s h. cc;
  has_id = λ k s h. cc;
  has_alias = λ k s h. cc;
  aliases_once = tt;
  ids_once = tt;
}

register_all-IsRegistry :
    (scenarios : List RealScenarioRef) (registry : ScenarioRegistry) {after : ScenarioRegistry}
    → IsRegistry registry
    → register_all scenarios registry ≡ ok after
    → IsRegistry after
unfolding register_all
register_all-IsRegistry [] registry inv h = subst IsRegistry (ok-injective h) inv
register_all-IsRegistry (s ∷ scenarios) registry inv h =
    let (next, one, rest) = >>=-eq-ok (register s registry) _ h in
    let (valid, fresh, new, is_next) = checks_of_register s registry one in
    register_all-IsRegistry scenarios next
      (subst IsRegistry is_next (added-IsRegistry s registry inv valid fresh new)) rest

-- If a registry is built, every scenario in it is found under its own alias and its own id and under
-- nothing else, every alias is valid, and no alias and no id stands twice.
pub scenario_registry-IsRegistry :
    (scenarios : List RealScenarioRef) (registry : ScenarioRegistry)
    → scenario_registry scenarios ≡ ok registry
    → IsRegistry registry
unfolding scenario_registry
scenario_registry-IsRegistry scenarios registry h =
    register_all-IsRegistry scenarios no_scenarios no_scenarios-IsRegistry h
