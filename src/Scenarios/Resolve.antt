-- ===== src/Scenarios/Resolve.antt =====
-- From a reference to a scenario: aliases and ids, generated keys, and what a reference stands for.
use Prim.Native.String.{◌++◌}
use precis_finance_mcp.Common.{
  ℕ, zero, suc, String, Bool, true, false, Option, none, some, List, [], ◌∷◌, ◌==◌, if◌then◌else◌,
  union, lookup, Result, ok, err, ◌>>=◌,
}
use precis_finance_mcp.Common.Texts.{text_size, strip_suffix, split_once}
use precis_finance_mcp.Catalogue.{Error, unknown_scenario, non_writable}
use precis_finance_mcp.Scenarios.{
  compatibility_aliases, RealScenarioRef, ShiftOp, year_shift, period_step, ShiftedScenarioRef,
  SimpleRef, real, shifted, VarianceScenarioRef, ScenarioRef, simple, variance, variance_pct,
  ScenarioRegistry, registered,
}

abbrev pub simple_key : SimpleRef → String
simple_key (real scenario) = scenario.key
simple_key (shifted ref) = ref.key

-- `ref.key`
abbrev pub key_of : ScenarioRef → String
key_of (simple ref) = simple_key ref
key_of (variance ref) = ref.key
key_of (variance_pct ref) = ref.key

-- `_label`
abbrev pub label_of : SimpleRef → String
label_of (real scenario) = scenario.name
label_of (shifted ref) = ref.label

abbrev pub offset_text : ShiftOp → String
offset_text year_shift = " shifted by -12 months."
offset_text period_step = " shifted by -1 month."

abbrev pub label_suffix : ShiftOp → String
label_suffix year_shift = " PY"
label_suffix period_step = " PP"

abbrev pub key_suffix : ShiftOp → String
key_suffix year_shift = "_py"
key_suffix period_step = "_pp"

abbrev pub months_of : ShiftOp → ℕ
months_of year_shift = 12
months_of period_step = 1

abbrev pub shifted_ref : ShiftOp → RealScenarioRef → ShiftedScenarioRef
shifted_ref shift_op base = record {
  key = base.alias ++ key_suffix shift_op;
  base = base;
  months_back = months_of shift_op;
  label = base.name ++ label_suffix shift_op;
  description = base.name ++ offset_text shift_op;
  shift_op = shift_op;
}

-- The loop of `_resolve_shifted`: the first suffix that is there decides.
unfoldable pub resolve_shifted :
    List ShiftOp → ScenarioRegistry → String → Option ShiftedScenarioRef
unfolding strip_suffix
resolve_shifted [] registry key = none
resolve_shifted (shift_op ∷ shift_ops) registry key =
    let later = resolve_shifted shift_ops registry key in
    elim (strip_suffix (key_suffix shift_op) key) [
      | none ↦ later
      | some base_key ↦ elim (lookup base_key registry.aliases) [
        | none ↦ none
        | some base ↦ some (shifted_ref shift_op base)
      ]
    ]

abbrev pub shift_ops : List ShiftOp
shift_ops = year_shift ∷ period_step ∷ []

abbrev pub variance_label : SimpleRef → SimpleRef → String
variance_label left right = label_of left ++ (" vs " ++ label_of right)

abbrev pub variance_description : SimpleRef → SimpleRef → String
variance_description left right =
    variance_label left right ++ (": " ++ (label_of left ++ (" minus " ++ (label_of right ++ "."))))

abbrev pub signed_ref : SimpleRef → SimpleRef → VarianceScenarioRef
signed_ref left right = record {
  key = simple_key left ++ ("_vs_" ++ simple_key right);
  left = left;
  right = right;
  label = variance_label left right;
  description = variance_description left right;
}

abbrev pub percent_ref : SimpleRef → SimpleRef → VarianceScenarioRef
percent_ref left right = record {
  key = (simple_key left ++ ("_vs_" ++ simple_key right)) ++ "_pct";
  left = left;
  right = right;
  label = variance_label left right ++ " %";
  description = variance_description left right ++ " Percentage variance vs comparator.";
}

-- Neither side may be unknown, or a comparison itself.
abbrev pub simple_side : Result Error ScenarioRef → Option SimpleRef
simple_side (err raised) = none
simple_side (ok (simple ref)) = some ref
simple_side (ok (variance ref)) = none
simple_side (ok (variance_pct ref)) = none

abbrev pub compared : Bool → Option SimpleRef → Option SimpleRef → Option ScenarioRef
compared is_pct none right = none
compared is_pct (some left) none = none
compared is_pct (some left) (some right) =
    some
      (if is_pct then variance_pct (percent_ref left right) else variance (signed_ref left right))

abbrev pub compared_at : (String → Result Error ScenarioRef) → Bool → String → Option ScenarioRef
compared_at resolve is_pct body = elim (split_once "_vs_" body) [
  | none ↦ none
  | some (left_key, right_key) ↦
      compared is_pct (simple_side (resolve left_key)) (simple_side (resolve right_key))
]

-- `_resolve_variance`, with `resolve_key` as it is called on the two sides.
unfoldable pub resolve_variance : (String → Result Error ScenarioRef) → String → Option ScenarioRef
unfolding split_once strip_suffix
resolve_variance resolve key = elim (strip_suffix "_pct" key) [
  | none ↦ compared_at resolve false key
  | some body ↦ compared_at resolve true body
]

-- `COMPATIBILITY_ALIASES.get(value, value)`
abbrev pub compatible : String → String
compatible value = elim (lookup value compatibility_aliases) [ none ↦ value | some key ↦ key ]

abbrev pub found_or_unknown : Option ScenarioRef → Result Error ScenarioRef
found_or_unknown none = err unknown_scenario
found_or_unknown (some ref) = ok ref

-- The first of the three that is found, in the order of `resolve_key`.
abbrev pub first_found :
    Option RealScenarioRef
    → Option ShiftedScenarioRef
    → Option ScenarioRef
    → Result Error ScenarioRef
first_found (some scenario) by_shift by_comparison = ok (simple (real scenario))
first_found none (some ref) by_comparison = ok (simple (shifted ref))
first_found none none by_comparison = found_or_unknown by_comparison

abbrev pub resolve_key_with :
    (String → Result Error ScenarioRef) → ScenarioRegistry → String → Result Error ScenarioRef
resolve_key_with resolve registry key =
    first_found (registered registry key) (resolve_shifted shift_ops registry key)
      (resolve_variance resolve key)

-- `resolve_key` on fuel: the sides of a comparison are shorter texts.
unfoldable pub resolve_key_within : ℕ → ScenarioRegistry → String → Result Error ScenarioRef
unfolding resolve_variance resolve_shifted
resolve_key_within zero registry value = err unknown_scenario
resolve_key_within (suc fuel) registry value =
    let deeper = resolve_key_with (resolve_key_within fuel registry) registry (compatible value) in
    if value == "" then err unknown_scenario else deeper

unfoldable pub resolve_key : ScenarioRegistry → String → Result Error ScenarioRef
unfolding resolve_key_within text_size
resolve_key registry value = resolve_key_within (suc (text_size value)) registry value

unfoldable pub normalize_key : ScenarioRegistry → String → Result Error String
unfolding resolve_key
normalize_key registry value = resolve_key registry value >>= λ ref. ok (key_of ref)

abbrev pub writable : ScenarioRef → Result Error RealScenarioRef
writable (simple (real scenario)) = ok scenario
writable (simple (shifted ref)) = err non_writable
writable (variance ref) = err non_writable
writable (variance_pct ref) = err non_writable

unfoldable pub resolve_writable : ScenarioRegistry → String → Result Error RealScenarioRef
unfolding resolve_key
resolve_writable registry value = resolve_key registry value >>= writable

abbrev pub simple_dependencies : SimpleRef → List String
simple_dependencies (real scenario) = scenario.scenario_id ∷ []
simple_dependencies (shifted ref) = ref.base.scenario_id ∷ []

-- `_dependencies`
abbrev pub dependencies : ScenarioRef → List String
dependencies (simple ref) = simple_dependencies ref
dependencies (variance ref) = union (simple_dependencies ref.left) (simple_dependencies ref.right)
dependencies (variance_pct ref) =
    union (simple_dependencies ref.left) (simple_dependencies ref.right)

unfoldable pub expand_dependencies : ScenarioRegistry → String → Result Error (List String)
unfolding resolve_key
expand_dependencies registry value = resolve_key registry value >>= λ ref. ok (dependencies ref)
