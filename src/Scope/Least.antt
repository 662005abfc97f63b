-- ===== src/Scope/Least.antt =====
-- `union_read_member_sets` shows a member exactly when some readable scenario's read scope shows it.
use precis_finance_mcp.Common.{
  String, ◌≡◌, refl, Bool, true, false, ◌||◌, Option, none, some, List, [], ◌∷◌, arith, is_none,
  not, is_empty, any, lookup, values, Result, ok, err, >>=-eq-ok, ok-injective, ◌∙◌, inl, inr,
  Bool-cases,
}
use precis_finance_mcp.Catalogue.{Error, Catalogue, Client}
use precis_finance_mcp.Auth.{DimensionScope, ScenarioPermissions, UserPermissions}
use precis_finance_mcp.Scope.{resolve_dimension_scope}
use precis_finance_mcp.Scope.Resolve.{nonempty_or_none}
use precis_finance_mcp.Scope.Merge.{Filters, permits, permits?, permits-nonempty_or_none}
use precis_finance_mcp.Scope.Union.{
  restriction, read_dim_scopes, resolve_all, union_sets, union_resolved, union_read_member_sets,
  union_sets-permits,
}

module _ (catalogue : Catalogue) (client : Client) (leaf x : String) where
  abbrev resolved_shows : Result Error Filters → Bool
  resolved_shows (ok sets) = permits sets leaf x
  resolved_shows (err _) = false

  abbrev scope_shows : Option DimensionScope → Bool
  scope_shows none = true
  scope_shows (some dims) = resolved_shows (resolve_dimension_scope dims catalogue client)

  -- The scenario is readable, and its read scope leaves the member visible.
  abbrev pub shows : ScenarioPermissions → Bool
  shows sp = elim (lookup "read" sp.tool_scopes) [
    | none ↦ false
    | some scope ↦ scope_shows (restriction scope)
  ]

  abbrev pub readable : ScenarioPermissions → Bool
  readable sp = not (is_none (lookup "read" sp.tool_scopes))

  abbrev any_shows : List DimensionScope → Bool
  any_shows scopes = any (λ dims. scope_shows (some dims)) scopes

  -- Collecting the scopes loses nothing: either some scenario shows all, or the collected do.
  collected_shows :
      (scenarios : List ScenarioPermissions)
      → any shows scenarios
        ≡ elim (read_dim_scopes scenarios) [ none ↦ true | some scopes ↦ any_shows scopes ]
  unfolding read_dim_scopes
  collected_shows [] = refl
  collected_shows (sp ∷ scenarios) = ground (arith, collected_shows scenarios)

  empty_permits : (f : Filters) → is_empty f ≡ true → permits f leaf x ≡ true
  empty_permits [] h = refl
  empty_permits (e ∷ f) h = cc

  resolve_all-shows :
      (scopes : List DimensionScope) {more : Option (List Filters)}
      → resolve_all scopes catalogue client ≡ ok more
      → any_shows scopes
        ≡ elim more [ none ↦ true | some per_scope ↦ any (λ s. permits s leaf x) per_scope ]
  unfolding resolve_all
  resolve_all-shows [] h = rw (← ok-injective h) refl
  resolve_all-shows (dims ∷ scopes) h =
      let (resolved, own, h₁) = >>=-eq-ok (resolve_dimension_scope dims catalogue client) _ h in
      elim (Bool-cases (is_empty resolved)) [
        | inl empty ↦
            rw (← ok-injective (rw empty at h₁), own) (rw (empty_permits resolved empty) refl)
        | inr restricts ↦
            let (rest, made, answer) =
              >>=-eq-ok (resolve_all scopes catalogue client) _ (rw restricts at h₁) in
            rw (← ok-injective answer, own, resolve_all-shows scopes made) (ground arith)
      ]

  resolve_all-nonempty :
      (dims : DimensionScope) (scopes : List DimensionScope)
      → resolve_all (dims ∷ scopes) catalogue client ≡ ok (some [])
      → ⊥
  unfolding resolve_all
  resolve_all-nonempty dims scopes h =
      let (resolved, own, h₁) = >>=-eq-ok (resolve_dimension_scope dims catalogue client) _ h in
      elim (Bool-cases (is_empty resolved)) [
        | inl empty ↦ cc (rw empty at h₁)
        | inr restricts ↦
            let (rest, made, answer) =
              >>=-eq-ok (resolve_all scopes catalogue client) _ (rw restricts at h₁) in
            ground (arith, answer)
      ]

  union_more-shows :
      (dims : DimensionScope) (scopes : List DimensionScope) (more : Option (List Filters))
      → resolve_all (dims ∷ scopes) catalogue client ≡ ok more
      → permits?
          (elim more [ none ↦ none | some per_scope ↦ nonempty_or_none (union_sets per_scope) ])
          leaf
          x
        ≡ elim more [ none ↦ true | some per_scope ↦ any (λ s. permits s leaf x) per_scope ]
  union_more-shows dims scopes none h = refl
  union_more-shows dims scopes (some []) h = absurd (resolve_all-nonempty dims scopes h)
  union_more-shows dims scopes (some (r ∷ per_scope)) h =
      permits-nonempty_or_none (union_sets (r ∷ per_scope)) leaf x
      ∙ union_sets-permits leaf x r per_scope

  union_resolved-shows :
      (collected : Option (List DimensionScope)) {answer : Option Filters}
      → union_resolved collected catalogue client ≡ ok answer
      → elim collected [ none ↦ true | some scopes ↦ any_shows scopes || is_empty scopes ]
        ≡ permits? answer leaf x
  unfolding union_resolved
  union_resolved-shows none h = rw (← ok-injective h) refl
  union_resolved-shows (some []) h = rw (← ok-injective h) refl
  union_resolved-shows (some (dims ∷ scopes)) h =
      let (more, made, answer) = >>=-eq-ok (resolve_all (dims ∷ scopes) catalogue client) _ h in
      rw (← ok-injective answer) (
        ground
          (arith, resolve_all-shows (dims ∷ scopes) made, union_more-shows dims scopes more made))

  -- Nothing is collected exactly when no scenario is readable.
  collected_empty :
      (scenarios : List ScenarioPermissions)
      → elim (read_dim_scopes scenarios) [ none ↦ true | some scopes ↦ not (is_empty scopes) ]
        ≡ any readable scenarios
  unfolding read_dim_scopes
  collected_empty [] = refl
  collected_empty (sp ∷ scenarios) = ground (arith, collected_empty scenarios)

  -- For a user that is no administrator and can read some scenario: the answer passes a member
  -- exactly when the read scope of some readable scenario leaves it visible.
  pub union_read_member_sets-shows :
      (permissions : UserPermissions) {answer : Option Filters}
      → permissions.is_admin ≡ false
      → any readable (values permissions.scenarios) ≡ true
      → union_read_member_sets (some permissions) catalogue client ≡ ok answer
      → permits? answer leaf x ≡ any shows (values permissions.scenarios)
  unfolding union_read_member_sets
  union_read_member_sets-shows permissions plain some_readable h =
      let scenarios = values permissions.scenarios in
      ground (
        arith,
        union_resolved-shows (read_dim_scopes scenarios) (rw plain at h),
        collected_shows scenarios,
        collected_empty scenarios,
      )
