-- ===== src/Scope/Agree.antt =====
-- The guarantee of `enforce_cross_scenario_scope`: what it answers is the user's filters narrowed by
-- the scope of every single scenario of the query.
use precis_finance_mcp.Common.{
  String, ◌≡◌, refl, true, ◌&&◌, Option, none, some, [], ◌∷◌, ◌==◌, if◌then◌else◌, is_empty, Dict,
  lookup, ok, >>=-eq-ok, ap, ◌∙◌, sym, &&-eq-true, some-inj, ok-injective, Bool-cases, inl, inr,
  subst,
}
use precis_finance_mcp.Common.Sort.{sort_items}
use precis_finance_mcp.Catalogue.{Catalogue, Client}
use precis_finance_mcp.Auth.{ScopeSpec}
use precis_finance_mcp.Scope.{check_domain_access}
use precis_finance_mcp.Scope.Resolve.{resolve_scope_filters}
use precis_finance_mcp.Scope.Merge.{
  Filters, permits, permits?, merge_dimension_filters, merge_dimension_filters-permits,
  merge_dimension_filters-Distinct, DistinctFilters,
}
use precis_finance_mcp.Scope.Cross.{
  effective_filters, effective_per_scenario, normalise, same_items, all_agree, consistent_filters,
  enforce_cross_scenario_scope,
}
use precis_finance_mcp.Scope.Normal.{
  same_items_sound, permits-normalise, resolve_scope_filters-Distinct,
}

module _ (user_filters : Option Filters) (domain : String) (catalogue : Catalogue) (client : Client)
    (user_dict : DistinctFilters user_filters) where
  -- Filters that pass exactly what the user's filters and a scope both pass, in a domain that the
  -- scope opens.
  abbrev pub Narrows : Option ScopeSpec → Option Filters → Type 0
  Narrows none effective = (c x : String) → permits? effective c x ≡ permits? user_filters c x
  Narrows (some scope) effective =
      (scope_filters : Filters) × (check_domain_access (some scope) domain ≡ ok tt)
      × (resolve_scope_filters (some scope) catalogue client domain ≡ ok scope_filters)
      × ((c x : String)
          → permits? effective c x ≡ (permits? user_filters c x && permits scope_filters c x))

  -- The two branches of the loop's body give the merged filters.
  merge_or_user :
      (scope_filters : Filters)
      → (if is_empty scope_filters
          then user_filters
          else merge_dimension_filters user_filters scope_filters)
        ≡ merge_dimension_filters user_filters scope_filters
  unfolding merge_dimension_filters
  merge_or_user [] = refl
  merge_or_user (e ∷ scope_filters) = refl

  effective_filters-Narrows :
      (scope : Option ScopeSpec) {effective : Option Filters}
      → effective_filters scope user_filters domain catalogue client ≡ ok effective
      → Narrows scope effective × DistinctFilters effective
  unfolding effective_filters
  effective_filters-Narrows none {effective} h =
      let same : user_filters ≡ effective = ok-injective h in
      (
        λ c x. ap (λ (o : Option Filters). permits? o c x) (sym same),
        subst DistinctFilters same user_dict,
      )
  effective_filters-Narrows (some scope) {effective} h =
      let (_, opened, h₁) = >>=-eq-ok (check_domain_access (some scope) domain) _ h in
      let (f, resolved, answer) =
        >>=-eq-ok (resolve_scope_filters (some scope) catalogue client domain) _ h₁ in
      let f_dict = resolve_scope_filters-Distinct (some scope) catalogue client domain resolved in
      let same : merge_dimension_filters user_filters f ≡ effective =
        sym (merge_or_user f) ∙ ok-injective answer in
      (
        (
          f,
          opened,
          resolved,
          λ c x.
              ap (λ (o : Option Filters). permits? o c x) (sym same)
              ∙ merge_dimension_filters-permits user_filters f c x f_dict,
        ),
        subst DistinctFilters same
            (merge_dimension_filters-Distinct user_filters f user_dict f_dict),
      )

  all_agree-permits :
      (first : Option Filters) (rest : Dict (Option Filters)) (sid : String)
      {effective : Option Filters}
      → DistinctFilters first
      → DistinctFilters effective
      → all_agree first rest ≡ true
      → lookup sid rest ≡ some effective
      → (c x : String) → permits? first c x ≡ permits? effective c x
  unfolding all_agree
  all_agree-permits first [] sid hf he agree found c x = cc
  all_agree-permits first ((k, g) ∷ rest) sid {effective} hf he agree found c x =
      let (same, agree') =
        &&-eq-true (same_items (sort_items (normalise first)) (sort_items (normalise g))) _ agree in
      elim (Bool-cases (k == sid)) [
        | inl here ↦
            let is_g : effective ≡ g = sym (some-inj (rw here at found)) in
            sym (permits-normalise first c x hf)
            ∙ ap (λ (f : Filters). permits f c x) (same_items_sound _ _ same)
            ∙ ap (λ (o : Option Filters). permits (sort_items (normalise o)) c x) (sym is_g)
            ∙ permits-normalise effective c x he
        | inr past ↦ all_agree-permits first rest sid hf he agree' (rw past at found) c x
      ]

  -- A scenario of the query has effective filters of its own.
  effective_of_scenario :
      (scenarios : Dict (Option ScopeSpec)) (sid : String) (scope : Option ScopeSpec)
      {all : Dict (Option Filters)}
      → effective_per_scenario scenarios user_filters domain catalogue client ≡ ok all
      → lookup sid scenarios ≡ some scope
      → (effective : Option Filters) × (lookup sid all ≡ some effective)
        × (effective_filters scope user_filters domain catalogue client ≡ ok effective)
  unfolding effective_per_scenario
  effective_of_scenario [] sid scope h found = cc
  effective_of_scenario ((k, s) ∷ scenarios) sid scope h found =
      let (effective, first, h₁) =
        >>=-eq-ok (effective_filters s user_filters domain catalogue client) _ h in
      let (rest, later, answer) =
        >>=-eq-ok (effective_per_scenario scenarios user_filters domain catalogue client) _ h₁ in
      elim (Bool-cases (k == sid)) [
        | inl here ↦
            (effective, rw (← ok-injective answer, here) refl, cc (rw here at found, first))
        | inr past ↦
            let (e, there, made) =
              effective_of_scenario scenarios sid scope later (rw past at found) in
            (e, rw (← ok-injective answer, past) there, made)
      ]

  effective_filters-Narrows_of :
      (scope : Option ScopeSpec) (a b : Option Filters)
      → ((c x : String) → permits? a c x ≡ permits? b c x)
      → Narrows scope b
      → Narrows scope a
  effective_filters-Narrows_of none a b same h = λ c x. same c x ∙ h c x
  effective_filters-Narrows_of (some scope) a b same (f, opened, resolved, meaning) =
      (f, opened, resolved, λ c x. same c x ∙ meaning c x)

  -- Every scenario's filters mean what the first one's mean.
  consistent_filters-permits :
      (all : Dict (Option Filters)) (sid : String) {answer effective : Option Filters}
      → DistinctFilters answer
      → DistinctFilters effective
      → consistent_filters all ≡ ok answer
      → lookup sid all ≡ some effective
      → (c x : String) → permits? answer c x ≡ permits? effective c x
  unfolding consistent_filters
  consistent_filters-permits [] sid ha he h found c x = cc
  consistent_filters-permits ((k, first) ∷ rest) sid {answer} {effective} ha he h found c x =
      elim (Bool-cases (all_agree first rest)) [
        | inr disagree ↦ cc (rw disagree at h)
        | inl agree ↦
            let is_first : answer ≡ first = sym (ok-injective (rw agree at h)) in
            elim (Bool-cases (k == sid)) [
              | inl here ↦
                  ap (λ (o : Option Filters). permits? o c x)
                    (is_first ∙ some-inj (rw here at found))
              | inr past ↦
                  ap (λ (o : Option Filters). permits? o c x) is_first
                  ∙ all_agree-permits first rest sid (subst DistinctFilters is_first ha) he agree
                      (rw past at found) c x
            ]
      ]

  -- The first scenario's filters are the answer.
  answer_of_first :
      (scenarios : Dict (Option ScopeSpec)) {all : Dict (Option Filters)} {answer : Option Filters}
      → effective_per_scenario scenarios user_filters domain catalogue client ≡ ok all
      → consistent_filters all ≡ ok answer
      → DistinctFilters answer
  unfolding effective_per_scenario consistent_filters
  answer_of_first [] made h = cc (rw (← ok-injective made) at h)
  answer_of_first ((k, s) ∷ scenarios) made h =
      let (e, own, h₁) =
        >>=-eq-ok (effective_filters s user_filters domain catalogue client) _ made in
      let (rest, _, is_all) =
        >>=-eq-ok (effective_per_scenario scenarios user_filters domain catalogue client) _ h₁ in
      let agreed = rw (← ok-injective is_all) at h in
      elim (Bool-cases (all_agree e rest)) [
        | inr disagree ↦ cc (rw disagree at agreed)
        | inl agree ↦
            subst DistinctFilters (ok-injective (rw agree at agreed))
              (effective_filters-Narrows s own).1
      ]

  -- If the user's filters are a dict and the query is let through, then for every scenario in it: the
  -- scenario's scope opens the domain, its dimension scope resolves, and the answer passes exactly
  -- the IDs that the user's filters and that scope's filters pass; a scenario without a scope narrows
  -- nothing.
  pub enforce_cross_scenario_scope-Narrows :
      (scenarios : Dict (Option ScopeSpec)) (answer : Option Filters) (sid : String)
      (scope : Option ScopeSpec)
      → enforce_cross_scenario_scope scenarios user_filters domain catalogue client ≡ ok answer
      → lookup sid scenarios ≡ some scope
      → Narrows scope answer
  unfolding enforce_cross_scenario_scope
  enforce_cross_scenario_scope-Narrows scenarios answer sid scope h found =
      let (all, made, agreed) =
        >>=-eq-ok (effective_per_scenario scenarios user_filters domain catalogue client) _ h in
      let (effective, there, own) = effective_of_scenario scenarios sid scope made found in
      let (narrows, dict) = effective_filters-Narrows scope own in
      effective_filters-Narrows_of scope answer effective
        (consistent_filters-permits all sid (answer_of_first scenarios made agreed) dict agreed
          there)
        narrows
