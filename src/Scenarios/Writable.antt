-- ===== src/Scenarios/Writable.antt =====
-- Which texts name a scenario that may be written.
use precis_finance_mcp.Common.{
  String, ◌≡◌, ◌≢◌, ◌↔◌, ◌⊎◌, eq_iff, refl, none, some, if◌then◌else◌, lookup, ok, err, >>=-eq-ok,
  Option-cases, inl, inr, sym, some-inj, ◌∙◌, ap, ok-injective, text_cases,
}
use precis_finance_mcp.Catalogue.{Error, non_writable}
use precis_finance_mcp.Scenarios.{
  RealScenarioRef, real, shifted, ScenarioRef, simple, variance, variance_pct, ScenarioRegistry,
  registered,
}
use precis_finance_mcp.Scenarios.Registry.{IsRegistry}
use precis_finance_mcp.Scenarios.Keys.{
  registered-alias, first_found-cases, simple-inj, resolve_variance-not_simple,
}
use precis_finance_mcp.Scenarios.Calls.{resolve_key_lem}
use precis_finance_mcp.Scenarios.Resolve.{
  compatible, resolve_key_with, resolve_key, resolve_shifted, shift_ops, writable, resolve_writable,
}

real-inj : {s t : RealScenarioRef} → real s ≡ real t → s ≡ t
real-inj h = cc

writable-real :
    (ref : ScenarioRef) (s : RealScenarioRef) → writable ref ≡ ok s → ref ≡ simple (real s)
writable-real (simple (real t)) s h = ap (λ (x : RealScenarioRef). simple (real x)) (ok-injective h)
writable-real (simple (shifted t)) s h = cc
writable-real (variance t) s h = cc
writable-real (variance_pct t) s h = cc

writable-generated :
    (ref : ScenarioRef)
    → ((s : RealScenarioRef) → ref ≢ simple (real s))
    → writable ref ≡ err non_writable
writable-generated (simple (real t)) generated = absurd (generated t refl)
writable-generated (simple (shifted t)) generated = refl
writable-generated (variance t) generated = refl
writable-generated (variance_pct t) generated = refl

module _ (registry : ScenarioRegistry) (inv : IsRegistry registry) where
  -- The registered scenario of an alias, or of an id that is no scenario's alias.
  abbrev pub NamedBy : String → RealScenarioRef → Type 0
  NamedBy key s =
      (lookup s.alias registry.aliases ≡ some s)
      × ((s.alias ≡ key) ⊎ ((lookup key registry.aliases ≡ none) × (s.scenario_id ≡ key)))

  registered-NamedBy :
      (key : String) (s : RealScenarioRef) → registered registry key ≡ some s → NamedBy key s
  registered-NamedBy key s h = (
    registered-alias registry inv key s h,
    elim (Option-cases (lookup key registry.aliases)) [
      | inr (t, found) ↦ inl (
          ap (λ (x : RealScenarioRef). x.alias) (sym (some-inj (rw (registered, found) at h)))
          ∙ (inv.valid key t found).0)
      | inl no_alias ↦ inr (no_alias, inv.own_id key s (rw (registered, no_alias) at h))
    ],
  )

  registered_of_NamedBy :
      (key : String) (s : RealScenarioRef) → NamedBy key s → registered registry key ≡ some s
  registered_of_NamedBy key s (known, by_name) = elim by_name [
    | inl own ↦
        rw (registered, ap (λ (k : String). lookup k registry.aliases) (sym own) ∙ known) refl
    | inr (no_alias, own) ↦
        rw (registered, no_alias)
          (ap (λ (k : String). lookup k registry.ids) (sym own) ∙ inv.has_id s.alias s known)
  ]

  resolve_key_with-real :
      (key : String) (s : RealScenarioRef)
      → resolve_key_with (resolve_key registry) registry key ≡ ok (simple (real s))
      → registered registry key ≡ some s
  resolve_key_with-real key s h =
      elim (first_found-cases (registered registry key) (resolve_shifted shift_ops registry key) _
        h) [
          | inl (t, found, e) ↦ found ∙ ap some (real-inj (simple-inj e))
          | inr (inl (t, unknown, found, e)) ↦ cc (simple-inj e)
          | inr (inr (unknown, unshifted, found)) ↦
              absurd
                (resolve_variance-not_simple registry inv (resolve_key registry) key (real s) found)
        ]

  resolve_key-NamedBy :
      (value : String) (s : RealScenarioRef)
      → resolve_key registry value ≡ ok (simple (real s))
      → (value ≢ "") × NamedBy (compatible value) s
  resolve_key-NamedBy value s h = elim (text_cases value "") [
    | inl (_, empty) ↦ cc (rw (empty, if◌then◌else◌) at (sym (resolve_key_lem registry value) ∙ h))
    | inr there ↦ (
      λ e. cc (rw there at ((eq_iff value "").1 e)),
      registered-NamedBy (compatible value) s (
          resolve_key_with-real (compatible value) s
            (rw (there, if◌then◌else◌) at (sym (resolve_key_lem registry value) ∙ h))),
    )
  ]

  resolve_key_of_NamedBy :
      (value : String) (s : RealScenarioRef)
      → value ≢ ""
      → NamedBy (compatible value) s
      → resolve_key registry value ≡ ok (simple (real s))
  resolve_key_of_NamedBy value s not_empty by_name = elim (text_cases value "") [
    | inl (e, _) ↦ absurd (not_empty e)
    | inr there ↦
        resolve_key_lem registry value
        ∙ rw (there, if◌then◌else◌, registered_of_NamedBy (compatible value) s by_name) refl
  ]

  -- In a registry that was built, for every text: it resolves for writing to a scenario exactly if it
  -- is not empty and, after the old names are replaced, is the alias of that registered scenario, or is
  -- its id and no scenario's alias. A text that resolves to anything else is refused as not writable,
  -- and one that does not resolve is refused with the error of that.
  pub resolve_writable-NamedBy :
      (value : String)
      → ((s : RealScenarioRef)
          → ((resolve_writable registry value ≡ ok s)
              ↔ ((value ≢ "") × NamedBy (compatible value) s)))
        × ((ref : ScenarioRef)
            → resolve_key registry value ≡ ok ref
            → ((s : RealScenarioRef) → ref ≢ simple (real s))
            → resolve_writable registry value ≡ err non_writable)
        × ((raised : Error)
            → resolve_key registry value ≡ err raised
            → resolve_writable registry value ≡ err raised)
  unfolding resolve_writable
  resolve_writable-NamedBy value = (
    λ s. (
      λ h.
          let (ref, found, answer) = >>=-eq-ok (resolve_key registry value) _ h in
          resolve_key-NamedBy value s (found ∙ ap ok (writable-real ref s answer)),
      λ (not_empty, by_name). rw (resolve_key_of_NamedBy value s not_empty by_name) refl,
    ),
    (λ ref found generated. rw found (writable-generated ref generated)),
    (λ raised h. rw h refl),
  )
