-- ===== src/Auth/Patterns.antt =====
-- Which entry of a profile applies to a scenario: the most specific pattern, whatever the order of
-- the entries.
use precis_finance_mcp.Common.{
  ℕ, String, ◌≡◌, refl, ◌≢◌, ◌&&◌, Bool, true, false, Option, none, some, List, [], ◌∷◌, ◌==◌,
  eq_iff, arith, if◌then◌else◌, ltb, mem, inl, inr, ◌∙◌, sym, subst, Dict, lookup, text_cases,
}
use precis_finance_mcp.Auth.{
  Best, better, best_entry, pattern_match_rank, resolve_profile_for_scenario,
}

abbrev is_fine : String → Bool
is_fine kind = mem kind ("ACTUAL" ∷ "BUDGET" ∷ "FORECAST" ∷ [])

abbrev is_plan : String → Bool
is_plan kind = mem kind ("BUDGET" ∷ "FORECAST" ∷ [])

-- The rank of a pattern, by its kind.
rank_by_kind : String → String → String → Option ℕ
rank_by_kind pattern scenario_id kind =
    if pattern == scenario_id
    then some 4
    else if pattern == "*"
    then some 1
    else if pattern == "PLAN"
    then (if is_plan kind then some 2 else none)
    else if is_fine kind && pattern == kind
    then some 3
    else none

pattern_match_rank-by_kind :
    (pattern scenario_id kind : String)
    → pattern_match_rank pattern scenario_id kind ≡ rank_by_kind pattern scenario_id kind
unfolding pattern_match_rank rank_by_kind
pattern_match_rank-by_kind pattern scenario_id kind =
    let P =
      λ (t : String). pattern_match_rank t scenario_id kind ≡ rank_by_kind t scenario_id kind in
    elim (text_cases "ACTUAL" pattern) [
      | inl (e, _) ↦ subst P e (ground arith)
      | inr a ↦ elim (text_cases "BUDGET" pattern) [
        | inl (e, _) ↦ subst P e (ground arith)
        | inr b ↦ elim (text_cases "FORECAST" pattern) [
          | inl (e, _) ↦ subst P e (ground arith)
          | inr f ↦ elim (text_cases "PLAN" pattern) [
            | inl (e, _) ↦ subst P e (ground arith)
            | inr p ↦
                rw (a, b, f, p)
                  (ground (
                    arith,
                    eq_iff pattern "PLAN",
                    eq_iff "PLAN" pattern,
                    eq_iff pattern kind,
                    eq_iff "ACTUAL" kind,
                    eq_iff "BUDGET" kind,
                    eq_iff "FORECAST" kind,
                    eq_iff "ACTUAL" pattern,
                    eq_iff "BUDGET" pattern,
                    eq_iff "FORECAST" pattern,
                  ))
          ]
        ]
      ]
    ]

-- A fine category is neither PLAN nor the wildcard.
fine_apart : (kind : String) → is_fine kind ≡ true → (kind ≢ "PLAN") × (kind ≢ "*")
fine_apart kind h = (λ e. cc (rw e at h), λ e. cc (rw e at h))

-- A profile's entries are of any type `A`.
module _ {A : Type 0} (scenario_id scenario_kind : String) where
  -- A category pattern, of a kind that it covers.
  abbrev covered : String → List String → Dict A → Option A
  covered token kinds profile = if mem scenario_kind kinds then lookup token profile else none

  abbrev or_else : Option A → Option A → Option A
  or_else none o = o
  or_else (some a) o = some a

  -- Literal id, then fine category, then PLAN, then the wildcard.
  abbrev pub most_specific : Dict A → Option A
  most_specific profile = or_else (lookup scenario_id profile) (
      or_else (covered scenario_kind ("ACTUAL" ∷ "BUDGET" ∷ "FORECAST" ∷ []) profile)
        (or_else (covered "PLAN" ("BUDGET" ∷ "FORECAST" ∷ []) profile) (lookup "*" profile)))

  tag : ℕ → Option A → Best A
  tag rank none = none
  tag rank (some a) = some (rank, a)

  merge : Best A → Best A → Best A
  merge none b = b
  merge (some a) none = some a
  merge (some (r, a)) (some (q, b)) = if ltb r q then some (q, b) else some (r, a)

  entry_rank : Option ℕ → A → Best A
  entry_rank none a = none
  entry_rank (some rank) a = some (rank, a)

  merge_assoc : (a b c : Best A) → merge (merge a b) c ≡ merge a (merge b c)
  unfolding merge
  merge_assoc a b c = ground arith

  better-merge : (o : Option ℕ) (a : A) (b : Best A) → better o a b ≡ merge b (entry_rank o a)
  unfolding better merge entry_rank
  better-merge none a none = refl
  better-merge none a (some b) = refl
  better-merge (some r) a none = refl
  better-merge (some r) a (some b) = refl

  -- The four lookups, and what one more entry makes of them.
  ranks : Option A → Option A → Option A → Option A → Best A
  unfolding tag merge
  ranks l f p w = merge (tag 4 l) (merge (tag 3 f) (merge (tag 2 p) (tag 1 w)))

  ranks_literal :
      (a : A) (l f p w f' p' w' : Option A)
      → ranks (some a) f' p' w' ≡ merge (some (4, a)) (ranks l f p w)
  unfolding ranks
  ranks_literal a l f p w f' p' w' = ground arith

  ranks_fine :
      (a : A) (l f p w : Option A) → ranks l (some a) p w ≡ merge (some (3, a)) (ranks l f p w)
  unfolding ranks
  ranks_fine a l f p w = ground arith

  ranks_plan :
      (a : A) (l f p w : Option A) → ranks l f (some a) w ≡ merge (some (2, a)) (ranks l f p w)
  unfolding ranks
  ranks_plan a l f p w = ground arith

  ranks_wildcard :
      (a : A) (l f p w : Option A) → ranks l f p (some a) ≡ merge (some (1, a)) (ranks l f p w)
  unfolding ranks
  ranks_wildcard a l f p w = ground arith

  ranked : Dict A → Best A
  unfolding ranks
  ranked profile =
      ranks (lookup scenario_id profile)
        (covered scenario_kind ("ACTUAL" ∷ "BUDGET" ∷ "FORECAST" ∷ []) profile)
        (covered "PLAN" ("BUDGET" ∷ "FORECAST" ∷ []) profile) (lookup "*" profile)

  -- One more entry, by the tests on its pattern.
  cons_by_kind :
      (literal wildcard plan fine planned same : Bool) (a : A) (l f p w : Option A)
      → (wildcard ≡ true → plan ≡ false)
      → (fine ≡ true → same ≡ true → plan ≡ false)
      → (fine ≡ true → same ≡ true → wildcard ≡ false)
      → ranks
          (if literal then some a else l)
          (if fine then (if same then some a else f) else none)
          (if planned then (if plan then some a else p) else none)
          (if wildcard then some a else w)
        ≡ merge
            (entry_rank
              (if literal
                then some 4
                else if wildcard
                then some 1
                else if plan
                then (if planned then some 2 else none)
                else if fine && same
                then some 3
                else none)
              a)
            (ranks l (if fine then f else none) (if planned then p else none) w)
  unfolding entry_rank merge
  cons_by_kind true wildcard plan fine planned same a l f p w h₁ h₂ h₃ =
      ranks_literal a l _ _ w _ _ _
  cons_by_kind false true plan fine planned same a l f p w h₁ h₂ h₃ =
      ground (arith, ranks_wildcard a l (if fine then f else none) (if planned then p else none) w)
  cons_by_kind false false true fine planned same a l f p w h₁ h₂ h₃ =
      ground (arith, ranks_plan a l (if fine then f else none) (if planned then p else none) w)
  cons_by_kind false false false fine planned same a l f p w h₁ h₂ h₃ =
      ground (arith, ranks_fine a l (if fine then f else none) (if planned then p else none) w)

  ranked-cons :
      (pattern : String) (a : A) (profile : Dict A)
      → ranked ((pattern, a) ∷ profile)
        ≡ merge
            (entry_rank (pattern_match_rank pattern scenario_id scenario_kind) a)
            (ranked profile)
  unfolding ranked rank_by_kind
  ranked-cons pattern a profile =
      rw (pattern_match_rank-by_kind pattern scenario_id scenario_kind) (
        cons_by_kind (pattern == scenario_id) (pattern == "*") (pattern == "PLAN")
          (is_fine scenario_kind) (is_plan scenario_kind) (pattern == scenario_kind) a
          (lookup scenario_id profile) (lookup scenario_kind profile) (lookup "PLAN" profile)
          (lookup "*" profile) (λ e. rw ((eq_iff pattern "*").0 e))
          (λ fine same.
            rw ((eq_iff pattern scenario_kind).0 same)
              (ground (arith, eq_iff scenario_kind "PLAN", fine_apart scenario_kind)))
          (λ fine same.
            rw ((eq_iff pattern scenario_kind).0 same)
              (ground (arith, eq_iff scenario_kind "*", fine_apart scenario_kind))))

  ranked-most_specific :
      (profile : Dict A)
      → elim (ranked profile) [ none ↦ none | some (_, a) ↦ some a ] ≡ most_specific profile
  unfolding ranked merge
  ranked-most_specific profile = ground arith

  merge-none : (b : Best A) → merge b none ≡ b
  unfolding merge
  merge-none none = refl
  merge-none (some b) = refl

  ranked-nil : ranked [] ≡ none
  unfolding ranked
  ranked-nil = ground arith

  best_entry-merge :
      (profile : Dict A) (b : Best A)
      → best_entry profile scenario_id scenario_kind b ≡ merge b (ranked profile)
  unfolding best_entry
  best_entry-merge [] b = sym (rw ranked-nil (merge-none b))
  best_entry-merge ((pattern, a) ∷ profile) b =
      let rank = pattern_match_rank pattern scenario_id scenario_kind in
      best_entry-merge profile (better rank a b)
      ∙ rw (better-merge rank a b, ranked-cons pattern a profile)
          (merge_assoc b (entry_rank rank a) (ranked profile))

  -- For every profile, scenario id and kind: the entry that is resolved is that of the literal id
  -- where the profile has one, else that of the scenario's fine category, else PLAN's for a budget
  -- or a forecast, else the wildcard's, and there is none where none of these is in the profile.
  pub resolve_profile_for_scenario-most_specific :
      (profile : Dict A)
      → resolve_profile_for_scenario profile scenario_id scenario_kind ≡ most_specific profile
  unfolding resolve_profile_for_scenario merge
  resolve_profile_for_scenario-most_specific profile =
      rw (best_entry-merge profile none, resolve_profile_for_scenario)
        (ranked-most_specific profile)
