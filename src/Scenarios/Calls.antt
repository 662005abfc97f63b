-- ===== src/Scenarios/Calls.antt =====
-- `resolve_key` ends: the sides of a comparison are shorter than it.
use Prim.Native.String.{◌++◌}
use precis_finance_mcp.Common.{
  ℕ, ◌+◌, ◌≤◌, ◌<◌, zero, suc, String, ◌≡◌, refl, arith, Bool, true, false, ◌==◌, if◌then◌else◌,
  Result, err, Option-cases, inl, inr, subst, text_cases, ◌∙◌, ap,
}
use precis_finance_mcp.Common.Texts.{
  text_size, text_size-append, strip_suffix, split_once, append_of_strip_suffix,
  append_of_split_once,
}
use precis_finance_mcp.Catalogue.{Error, unknown_scenario}
use precis_finance_mcp.Scenarios.{ScenarioRef, ScenarioRegistry, registered}
use precis_finance_mcp.Scenarios.Resolve.{
  compatible, compared_at, resolve_variance, first_found, resolve_key_with, resolve_key_within,
  resolve_key, resolve_shifted, shift_ops,
}

SameBelow : ℕ → (String → Result Error ScenarioRef) → (String → Result Error ScenarioRef) → Type 0
SameBelow n r q = (v : String) → text_size v < n → r v ≡ q v

compared_at-SameBelow :
    (r q : String → Result Error ScenarioRef) (is_pct : Bool) (body : String)
    → SameBelow (text_size body) r q
    → compared_at r is_pct body ≡ compared_at q is_pct body
unfolding SameBelow text_size
compared_at-SameBelow r q is_pct body same = elim (Option-cases (split_once "_vs_" body)) [
  | inl nothing ↦ rw (compared_at, nothing) refl
  | inr ((l, rest), found) ↦
      let pieces = append_of_split_once "_vs_" body found in
      let whole : text_size body ≡ text_size l + (text_size "_vs_" + text_size rest) =
        ap text_size pieces
        ∙ (text_size-append l ("_vs_" ++ rest) ∙ omega (arith, text_size-append "_vs_" rest)) in
      rw (compared_at, found, same l (omega arith), same rest (omega arith)) refl
]

resolve_variance-SameBelow :
    (r q : String → Result Error ScenarioRef) (key : String)
    → SameBelow (text_size key) r q
    → resolve_variance r key ≡ resolve_variance q key
unfolding resolve_variance SameBelow
resolve_variance-SameBelow r q key same = elim (Option-cases (strip_suffix "_pct" key)) [
  | inl signed ↦ rw (resolve_variance, signed) (compared_at-SameBelow r q false key same)
  | inr (body, percent) ↦
      let whole : text_size key ≡ text_size body + text_size "_pct" =
        ap text_size (append_of_strip_suffix "_pct" key percent) ∙ text_size-append body "_pct" in
      rw (resolve_variance, percent)
        (compared_at-SameBelow r q true body (λ v smaller. same v (omega arith)))
]

compatible-size : (value : String) → text_size (compatible value) ≤ text_size value
unfolding text_size
compatible-size value = elim (text_cases "prior_year" value) [
  | inl (e, _) ↦ subst (λ (v : String). text_size (compatible v) ≤ text_size v) e (omega arith)
  | inr a ↦ elim (text_cases "prior_period" value) [
    | inl (e, _) ↦ subst (λ (v : String). text_size (compatible v) ≤ text_size v) e (omega arith)
    | inr b ↦ ground (arith, a, b)
  ]
]

resolve_key_with-SameBelow :
    (r q : String → Result Error ScenarioRef) (registry : ScenarioRegistry) (key : String)
    → SameBelow (text_size key) r q
    → resolve_key_with r registry key ≡ resolve_key_with q registry key
resolve_key_with-SameBelow r q registry key same =
    ap (first_found (registered registry key) (resolve_shifted shift_ops registry key))
      (resolve_variance-SameBelow r q key same)

resolve_key_within-agree :
    (f g : ℕ) (registry : ScenarioRegistry) (value : String)
    → text_size value < f
    → text_size value < g
    → resolve_key_within f registry value ≡ resolve_key_within g registry value
unfolding resolve_key_within SameBelow
resolve_key_within-agree zero g registry value a b = absurd (omega arith)
resolve_key_within-agree (suc f) zero registry value a b = absurd (omega arith)
resolve_key_within-agree (suc f) (suc g) registry value a b =
    let deeper =
      resolve_key_with-SameBelow (resolve_key_within f registry) (resolve_key_within g registry)
        registry (compatible value)
        (λ v smaller.
          resolve_key_within-agree f g registry v (omega (arith, compatible-size value))
            (omega (arith, compatible-size value))) in
    ap (λ (r : Result Error ScenarioRef). if value == "" then err unknown_scenario else r) deeper

-- For every registry and text, the call of `resolve_key` is what its body makes of it with calls of
-- `resolve_key` itself: the fuel never runs out.
pub resolve_key_lem :
    (registry : ScenarioRegistry) (value : String)
    → resolve_key registry value ≡ (
        if value == ""
        then err unknown_scenario
        else resolve_key_with (resolve_key registry) registry (compatible value))
unfolding resolve_key resolve_key_within SameBelow
resolve_key_lem registry value =
    ap (λ (r : Result Error ScenarioRef). if value == "" then err unknown_scenario else r)
      (resolve_key_with-SameBelow (resolve_key_within (text_size value) registry)
        (resolve_key registry) registry (compatible value)
        (λ v smaller.
          resolve_key_within-agree (text_size value) (suc (text_size v)) registry v
            (omega (arith, compatible-size value)) (omega arith)))
