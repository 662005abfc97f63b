-- ===== src/Scenarios/Visible.antt =====
-- What the filtered reporting vocabulary names depends on readable scenarios alone.
use precis_finance_mcp.Common.{
  String, ◌≡◌, refl, arith, Bool, true, false, not, none, some, List, [], ◌∷◌, ◌++◌, eq_iff, all,
  is_empty, mem, mem-append, keep, Dict, lookup, values, map, Result, ok, ◌>>=◌, >>=-eq-ok,
  ok-injective, subst, sym, ◌∙◌, ap, Bool-cases, inl, inr, text_cases, lookup-has_key, Distinct,
  &&-eq-true,
}
use precis_finance_mcp.Common.Sort.{
  mem-sort, sort_items, EachValue, sort_items-EachValue, EachValue-of_lookup,
}
use precis_finance_mcp.Catalogue.{Error}
use precis_finance_mcp.Auth.{UserPermissions, ScenarioPermissions}
use precis_finance_mcp.Resolver.Start.{each_of_all}
use precis_finance_mcp.Scenarios.{
  RealScenarioRef, real, shifted, ScenarioRef, simple, variance, variance_pct, ScenarioRegistry,
}
use precis_finance_mcp.Scenarios.Registry.{IsRegistry}
use precis_finance_mcp.Scenarios.Keys.{resolve_key-alias, resolve_key-public_key}
use precis_finance_mcp.Scenarios.Resolve.{resolve_key, expand_dependencies}
use precis_finance_mcp.Scenarios.Vocabulary.{
  RealRow, ShiftedRow, ComparisonRow, Vocabulary, real_metadata_row, shifted_metadata_row,
  comparison_metadata_row, row_of_each, real_scenarios, shifted_keys, comparison_keys,
  own_year_keys, to_reporting_vocabulary, can_read, readable_keys, readable_scenario_ids, within,
  filter_reporting_vocabulary,
}

abbrev pub Each : {A : Type 0} → (A → Type 0) → List A → Type 0
Each P [] = Unit
Each P (x ∷ xs) = P x × Each P xs

Each-keep :
    {A : Type 0} (P : A → Type 0) (p : A → Bool) (xs : List A)
    → Each P xs
    → Each (λ x. P x × (p x ≡ true)) (keep p xs)
Each-keep P p [] each = tt
Each-keep P p (x ∷ xs) (own, rest) = elim (Bool-cases (p x)) [
  | inl passes ↦ rw (passes, keep) ((own, passes), Each-keep P p xs rest)
  | inr fails ↦ rw (fails, keep) (Each-keep P p xs rest)
]

-- Every row that is made has what its maker guarantees.
row_of_each-Each :
    {Row : Type 0} (P : Row → Type 0) (row_at : String → Result Error Row) (ks : List String)
    {rows : List Row}
    → ((key : String) (row : Row) → row_at key ≡ ok row → P row)
    → row_of_each row_at ks ≡ ok rows
    → Each P rows
unfolding row_of_each
row_of_each-Each P row_at [] made h = subst (Each P) (ok-injective h) tt
row_of_each-Each P row_at (key ∷ ks) made h =
    let (row, one, h₁) = >>=-eq-ok (row_at key) _ h in
    let (rows, others, answer) = >>=-eq-ok (row_of_each row_at ks) _ h₁ in
    subst (Each P) (ok-injective answer)
      (made key row one, row_of_each-Each P row_at ks made others)

-- The texts that a vocabulary names scenarios by.
abbrev pub shown_rows : {Row : Type 0} → (Row → String) → List Row → List String
shown_rows name [] = []
shown_rows name (row ∷ rows) = name row ∷ shown_rows name rows

abbrev pub real_name : RealRow → String
real_name row = row.alias

abbrev pub shifted_name : ShiftedRow → String
shifted_name row = row.scenario

abbrev pub comparison_name : ComparisonRow → String
comparison_name row = row.scenario

abbrev pub shown : Vocabulary → List String
shown vocabulary =
    shown_rows real_name vocabulary.real_rows
    ++ (shown_rows shifted_name vocabulary.shifted_rows
        ++ shown_rows comparison_name vocabulary.comparisons)

module _ (registry : ScenarioRegistry) where
  -- A text stands for scenarios that are all in the set.
  abbrev pub StandsWithin : List String → String → Type 0
  StandsWithin allowed key =
      (ids : List String) × (expand_dependencies registry key ≡ ok ids)
      × ((d : String) → mem d ids ≡ true → mem d allowed ≡ true)

  -- A row names a text whose dependencies are those that it lists.
  abbrev Honest : {Row : Type 0} → (Row → String) → (Row → List String) → Row → Type 0
  Honest name ids row =
      (found : List String) × (expand_dependencies registry (name row) ≡ ok found)
      × ((d : String) → mem d found ≡ mem d (ids row))

  StandsWithin-of_shown :
      {Row : Type 0} (name : Row → String) (ids : Row → List String) (allowed : List String)
      (p : Row → Bool) (rows : List Row) (key : String)
      → ((row : Row) → p row ≡ true → (d : String) → mem d (ids row) ≡ true → mem d allowed ≡ true)
      → Each (λ row. Honest name ids row × (p row ≡ true)) rows
      → mem key (shown_rows name rows) ≡ true
      → StandsWithin allowed key
  StandsWithin-of_shown name ids allowed p [] key test each there = cc
  StandsWithin-of_shown name ids allowed p (row ∷ rows) key test (own, rest) there =
      elim (text_cases (name row) key) [
        | inl (e, _) ↦
            let ((found, stands, same), passes) = own in
            subst (StandsWithin allowed) e
              (found, stands, λ d named. test row passes d (sym (same d) ∙ named))
        | inr other ↦
            StandsWithin-of_shown name ids allowed p rows key test rest (rw other at there)
      ]

  abbrev real_ids : RealRow → List String
  real_ids row = row.scenario_id ∷ []

  abbrev shifted_ids : ShiftedRow → List String
  shifted_ids row = row.base_scenario_id ∷ []

  abbrev comparison_ids : ComparisonRow → List String
  comparison_ids row = row.scenario_ids

  comparison_metadata_row-Honest :
      (ref : ScenarioRef) (row : ComparisonRow)
      → comparison_metadata_row registry ref ≡ ok row
      → Honest comparison_name comparison_ids row
  unfolding comparison_metadata_row
  comparison_metadata_row-Honest (simple s) row h = cc
  comparison_metadata_row-Honest (variance s) row h =
      let (ids, found, answer) = >>=-eq-ok (expand_dependencies registry s.key) _ h in
      subst (Honest comparison_name comparison_ids) (ok-injective answer)
        (ids, found, λ d. sym (mem-sort d ids))
  comparison_metadata_row-Honest (variance_pct s) row h =
      let (ids, found, answer) = >>=-eq-ok (expand_dependencies registry s.key) _ h in
      subst (Honest comparison_name comparison_ids) (ok-injective answer)
        (ids, found, λ d. sym (mem-sort d ids))

  module _ (inv : IsRegistry registry) where
    shifted_metadata_row-Honest :
        (key : String) (ref : ScenarioRef) (row : ShiftedRow)
        → resolve_key registry key ≡ ok ref
        → shifted_metadata_row ref ≡ ok row
        → Honest shifted_name shifted_ids row
    unfolding shifted_metadata_row expand_dependencies
    shifted_metadata_row-Honest key (simple (real s)) row found h = cc
    shifted_metadata_row-Honest key (simple (shifted s)) row found h =
        subst (Honest shifted_name shifted_ids) (ok-injective h) (
          s.base.scenario_id ∷ [],
          rw (resolve_key-public_key registry inv key (shifted s) found) refl,
          λ d. refl,
        )
    shifted_metadata_row-Honest key (variance s) row found h = cc
    shifted_metadata_row-Honest key (variance_pct s) row found h = cc

    real_metadata_row-Honest :
        (s : RealScenarioRef)
        → lookup s.alias registry.aliases ≡ some s
        → Honest real_name real_ids (real_metadata_row s)
    unfolding real_metadata_row expand_dependencies
    real_metadata_row-Honest s known =
        (s.scenario_id ∷ [], rw (resolve_key-alias registry inv s.alias s known) refl, λ d. refl)

    real_rows-Honest :
        (d : Dict RealScenarioRef)
        → EachValue (λ s. lookup s.alias registry.aliases ≡ some s) d
        → Each (Honest real_name real_ids) (map real_metadata_row (values d))
    real_rows-Honest [] each = tt
    real_rows-Honest ((k, s) ∷ d) (own, rest) =
        (real_metadata_row-Honest s own, real_rows-Honest d rest)

    vocabulary-Honest :
        (vocabulary : Vocabulary)
        → to_reporting_vocabulary registry ≡ ok vocabulary
        → Each (Honest real_name real_ids) vocabulary.real_rows
          × Each (Honest shifted_name shifted_ids) vocabulary.shifted_rows
          × Each (Honest comparison_name comparison_ids) vocabulary.comparisons
    unfolding to_reporting_vocabulary
    vocabulary-Honest vocabulary h =
        let real_refs = real_scenarios registry in
        let comparison_at =
          λ (key : String). resolve_key registry key >>= comparison_metadata_row registry in
        let shifted_at = λ (key : String). resolve_key registry key >>= shifted_metadata_row in
        let (shifts, made, h₁) = >>=-eq-ok (row_of_each shifted_at (shifted_keys real_refs)) _ h in
        let (compares, made_too, answer) =
          >>=-eq-ok
            (row_of_each comparison_at
              (comparison_keys real_refs real_refs ++ own_year_keys real_refs))
            _ h₁ in
        subst
          (λ (v : Vocabulary).
            Each (Honest real_name real_ids) v.real_rows
            × Each (Honest shifted_name shifted_ids) v.shifted_rows
            × Each (Honest comparison_name comparison_ids) v.comparisons)
          (ok-injective answer)
          (
            real_rows-Honest (sort_items registry.aliases) (
                sort_items-EachValue (λ s. lookup s.alias registry.aliases ≡ some s)
                  registry.aliases
                  (EachValue-of_lookup (λ s. lookup s.alias registry.aliases ≡ some s)
                    registry.aliases inv.aliases_once
                    (λ k s found.
                      ap (λ (a : String). lookup a registry.aliases) (inv.valid k s found).0
                      ∙ found))),
            row_of_each-Each (Honest shifted_name shifted_ids) shifted_at (shifted_keys real_refs)
                (λ key row one.
                  let (ref, found, row_is) = >>=-eq-ok (resolve_key registry key) _ one in
                  shifted_metadata_row-Honest key ref row found row_is)
                made,
            row_of_each-Each (Honest comparison_name comparison_ids) comparison_at
                (comparison_keys real_refs real_refs ++ own_year_keys real_refs)
                (λ key row one.
                  let (ref, found, row_is) = >>=-eq-ok (resolve_key registry key) _ one in
                  comparison_metadata_row-Honest ref row row_is)
                made_too,
          )

    filter_reporting_vocabulary-StandsWithin :
        (vocabulary : Vocabulary) (allowed : List String) (key : String)
        → to_reporting_vocabulary registry ≡ ok vocabulary
        → mem key (shown (filter_reporting_vocabulary vocabulary (some allowed))) ≡ true
        → StandsWithin allowed key
    unfolding filter_reporting_vocabulary
    filter_reporting_vocabulary-StandsWithin vocabulary allowed key h there =
        let (reals, shifts, compares) = vocabulary-Honest vocabulary h in
        let p = λ (row : RealRow). mem row.scenario_id allowed in
        let q = λ (row : ShiftedRow). mem row.base_scenario_id allowed in
        let r = λ (row : ComparisonRow). within allowed row.scenario_ids in
        let a = shown_rows real_name (keep p vocabulary.real_rows) in
        let b = shown_rows shifted_name (keep q vocabulary.shifted_rows) in
        let c = shown_rows comparison_name (keep r vocabulary.comparisons) in
        elim (Bool-cases (mem key a)) [
          | inl in_a ↦
              StandsWithin-of_shown real_name real_ids allowed p (keep p vocabulary.real_rows) key
                (λ row passes d named. ground (arith, eq_iff row.scenario_id d))
                (Each-keep (Honest real_name real_ids) p vocabulary.real_rows reals) in_a
          | inr not_a ↦ elim (Bool-cases (mem key b)) [
            | inl in_b ↦
                StandsWithin-of_shown shifted_name shifted_ids allowed q
                  (keep q vocabulary.shifted_rows) key
                  (λ row passes d named. ground (arith, eq_iff row.base_scenario_id d))
                  (Each-keep (Honest shifted_name shifted_ids) q vocabulary.shifted_rows shifts)
                  in_b
            | inr not_b ↦
                StandsWithin-of_shown comparison_name comparison_ids allowed r
                  (keep r vocabulary.comparisons) key
                  (λ row passes d named.
                    each_of_all (λ x. mem x allowed) row.scenario_ids d
                      (&&-eq-true (not (is_empty row.scenario_ids))
                        (all (λ x. mem x allowed) row.scenario_ids) passes).1
                      named)
                  (Each-keep (Honest comparison_name comparison_ids) r vocabulary.comparisons
                    compares)
                  (ground
                    (arith, there, mem-append key a (b ++ c), mem-append key b c, not_a, not_b))
          ]
        ]

-- Whether a user has a read scope for a scenario.
abbrev pub has_read : UserPermissions → String → Bool
has_read user d = elim (lookup d user.scenarios) [ none ↦ false | some p ↦ can_read p ]

mem-readable_keys :
    (d : String) (scenarios : Dict ScenarioPermissions)
    → Distinct scenarios
    → mem d (readable_keys scenarios)
      ≡ elim (lookup d scenarios) [ none ↦ false | some p ↦ can_read p ]
mem-readable_keys d [] once = refl
mem-readable_keys d ((k, p) ∷ scenarios) once =
    ground (arith, eq_iff k d, mem-readable_keys d scenarios once.1, lookup-has_key d scenarios)

-- In a registry that was built, if its vocabulary is made and filtered for a user that is no
-- administrator: whatever scenario the user is shown, by a real alias, a shifted key or a
-- comparison's key, resolves, and the user has a read scope for every scenario it depends on.
pub reporting_vocabulary-readable :
    (registry : ScenarioRegistry) (vocabulary : Vocabulary) (user : UserPermissions) (key : String)
    → IsRegistry registry
    → to_reporting_vocabulary registry ≡ ok vocabulary
    → user.is_admin ≡ false
    → Distinct user.scenarios
    → mem key (shown (filter_reporting_vocabulary vocabulary (readable_scenario_ids (some user))))
      ≡ true
    → (ids : List String) × (expand_dependencies registry key ≡ ok ids)
      × ((d : String) → mem d ids ≡ true → has_read user d ≡ true)
unfolding readable_scenario_ids
reporting_vocabulary-readable registry vocabulary user key inv made plain once there =
    let allowed = readable_keys user.scenarios in
    let (ids, stands, inside) =
      filter_reporting_vocabulary-StandsWithin registry inv vocabulary allowed key made
        (rw (plain, readable_scenario_ids) at there) in
    (ids, stands, λ d named. sym (mem-readable_keys d user.scenarios once) ∙ inside d named)
