-- ===== src/Scenarios/Vocabulary.antt =====
-- The reporting vocabulary: a row for every scenario that may be named, and what of it a user sees.
use Prim.Native.String.{◌++◌ as append_text}
use precis_finance_mcp.Common.{
  ℕ, String, Bool, true, false, not, ◌&&◌, Option, none, some, List, [], ◌∷◌, ◌++◌, ◌==◌,
  if◌then◌else◌, all, is_empty, mem, keep, Dict, has_key, values, map, Result, ok, err, ◌>>=◌,
}
use precis_finance_mcp.Common.Sort.{sort, sort_items}
use precis_finance_mcp.Catalogue.{Error, type_error}
use precis_finance_mcp.Auth.{UserPermissions, ScenarioPermissions}
use precis_finance_mcp.Scenarios.{
  compatibility_aliases, RealScenarioRef, real, shifted, VarianceScenarioRef, ScenarioRef, simple,
  variance, variance_pct, ScenarioRegistry,
}
use precis_finance_mcp.Scenarios.Resolve.{simple_key, resolve_key, expand_dependencies}

pub record RealRow : Type 0 where
  pub scenario : String
  pub alias : String
  pub scenario_id : String
  pub label : String
  pub name : String
  pub description : String
  pub status : String
  pub kind : String
  pub base_scenario : Option String
  pub variant_of : Option String
  pub horizon_start : String
  pub horizon_end : String
  pub actuals_cutoff : Option String
  pub granularity : String
  pub owner_user_id : String
  pub updated_at : Option String

pub record ShiftedRow : Type 0 where
  pub scenario : String
  pub label : String
  pub description : String
  pub base : String
  pub base_scenario_id : String
  pub months_back : ℕ

-- A row's `type` says whether it is a percentage.
pub record ComparisonRow : Type 0 where
  pub scenario : String
  pub label : String
  pub description : String
  pub is_pct : Bool
  pub left : String
  pub right : String
  pub scenario_ids : List String
  pub color_code : Bool
  pub display_format : String

-- Each compatibility alias is a pair of its name and what it resolves to.
pub record Vocabulary : Type 0 where
  pub real_rows : List RealRow
  pub shifted_rows : List ShiftedRow
  pub comparisons : List ComparisonRow
  pub compatibility : Dict String

-- `_real_metadata_row`
unfoldable pub real_metadata_row : RealScenarioRef → RealRow
real_metadata_row s = record {
  scenario = s.key;
  alias = s.alias;
  scenario_id = s.scenario_id;
  label = s.name;
  name = s.name;
  description = s.description;
  status = s.status;
  kind = s.kind;
  base_scenario = s.base_scenario;
  variant_of = s.variant_of;
  horizon_start = s.horizon_start;
  horizon_end = s.horizon_end;
  actuals_cutoff = s.actuals_cutoff;
  granularity = s.granularity;
  owner_user_id = s.owner_user_id;
  updated_at = s.updated_at;
}

-- `_shifted_metadata_row`
unfoldable pub shifted_metadata_row : ScenarioRef → Result Error ShiftedRow
shifted_metadata_row (simple (shifted s)) = ok (record {
  scenario = s.key;
  label = s.label;
  description = s.description;
  base = s.base.alias;
  base_scenario_id = s.base.scenario_id;
  months_back = s.months_back;
})
shifted_metadata_row (simple (real s)) = err type_error
shifted_metadata_row (variance s) = err type_error
shifted_metadata_row (variance_pct s) = err type_error

abbrev pub comparison_row : Bool → VarianceScenarioRef → List String → ComparisonRow
comparison_row is_pct s ids = record {
  scenario = s.key;
  label = s.label;
  description = s.description;
  is_pct = is_pct;
  left = simple_key s.left;
  right = simple_key s.right;
  scenario_ids = sort ids;
  color_code = true;
  display_format = if is_pct then "percent" else "";
}

-- `_comparison_metadata_row`; it resolves the row's key once more.
unfoldable pub comparison_metadata_row : ScenarioRegistry → ScenarioRef → Result Error ComparisonRow
unfolding expand_dependencies
comparison_metadata_row registry (simple s) = err type_error
comparison_metadata_row registry (variance s) =
    expand_dependencies registry s.key >>= λ ids. ok (comparison_row false s ids)
comparison_metadata_row registry (variance_pct s) =
    expand_dependencies registry s.key >>= λ ids. ok (comparison_row true s ids)

-- A row for each key of a list, in its order.
unfoldable pub row_of_each :
    {Row : Type 0} → (String → Result Error Row) → List String → Result Error (List Row)
row_of_each row_at [] = ok []
row_of_each row_at (key ∷ ks) = do row ← row_at key; rows ← row_of_each row_at ks; ok (row ∷ rows)

-- `sorted(self._aliases.values(), key=lambda s: s.alias)`: every scenario stands under its alias.
unfoldable pub real_scenarios : ScenarioRegistry → List RealScenarioRef
unfolding sort_items
real_scenarios registry = values (sort_items registry.aliases)

abbrev pub shifted_keys : List RealScenarioRef → List String
shifted_keys [] = []
shifted_keys (s ∷ scenarios) =
    append_text s.alias "_py" ∷ append_text s.alias "_pp" ∷ shifted_keys scenarios

abbrev pub versus_key : String → String → String
versus_key left right = append_text left (append_text "_vs_" right)

abbrev pub keys_against : RealScenarioRef → List RealScenarioRef → List String
keys_against left [] = []
keys_against left (right ∷ scenarios) =
    let rest = keys_against left scenarios in
    let key = versus_key left.alias right.alias in
    if left.alias == right.alias then rest else key ∷ append_text key "_pct" ∷ rest

abbrev pub comparison_keys : List RealScenarioRef → List RealScenarioRef → List String
comparison_keys real_refs [] = []
comparison_keys real_refs (left ∷ scenarios) =
    keys_against left real_refs ++ comparison_keys real_refs scenarios

abbrev pub own_year_keys : List RealScenarioRef → List String
own_year_keys [] = []
own_year_keys (s ∷ scenarios) =
    versus_key s.alias (append_text s.alias "_py")
    ∷ versus_key s.alias (append_text s.alias "_py_pct")
    ∷ own_year_keys scenarios

unfoldable pub to_reporting_vocabulary : ScenarioRegistry → Result Error Vocabulary
unfolding real_scenarios row_of_each shifted_metadata_row comparison_metadata_row real_metadata_row
    resolve_key
to_reporting_vocabulary registry =
    let real_refs = real_scenarios registry in
    let comparison_at =
      λ (key : String). resolve_key registry key >>= comparison_metadata_row registry in
    do
      shifted_rows ←
          row_of_each (λ key. resolve_key registry key >>= shifted_metadata_row)
            (shifted_keys real_refs)
      comparisons ←
          row_of_each comparison_at (comparison_keys real_refs real_refs ++ own_year_keys real_refs)
      ok (record {
        real_rows = map real_metadata_row real_refs;
        shifted_rows = shifted_rows;
        comparisons = comparisons;
        compatibility = compatibility_aliases;
      })

-- The scenarios whose tool scopes have a read scope.
abbrev pub can_read : ScenarioPermissions → Bool
can_read permissions = has_key "read" permissions.tool_scopes

abbrev pub readable_keys : Dict ScenarioPermissions → List String
readable_keys [] = []
readable_keys ((scenario_id, permissions) ∷ scenarios) =
    let rest = readable_keys scenarios in if can_read permissions then scenario_id ∷ rest else rest

-- None is an unfiltered view: that of an administrator, or of no permissions at all.
unfoldable pub readable_scenario_ids : Option UserPermissions → Option (List String)
readable_scenario_ids none = none
readable_scenario_ids (some permissions) =
    if permissions.is_admin then none else some (readable_keys permissions.scenarios)

-- The texts of `visible_refs`, the empty ones left out.
abbrev pub real_refs_of : List RealRow → List String
real_refs_of [] = []
real_refs_of (row ∷ rows) = row.scenario ∷ row.alias ∷ row.scenario_id ∷ real_refs_of rows

abbrev pub shifted_refs_of : List ShiftedRow → List String
shifted_refs_of [] = []
shifted_refs_of (row ∷ rows) = row.scenario ∷ shifted_refs_of rows

abbrev pub visible_compatibility : List String → Dict String → Dict String
visible_compatibility visible_refs [] = []
visible_compatibility visible_refs ((name, resolves_to) ∷ rows) =
    let rest = visible_compatibility visible_refs rows in
    if mem resolves_to visible_refs then (name, resolves_to) ∷ rest else rest

-- The test on a comparison's row: it depends on something, and on allowed scenarios alone.
abbrev pub within : List String → List String → Bool
within allowed ids = not (is_empty ids) && all (λ d. mem d allowed) ids

unfoldable pub filter_reporting_vocabulary : Vocabulary → Option (List String) → Vocabulary
filter_reporting_vocabulary vocabulary none = vocabulary
filter_reporting_vocabulary vocabulary (some allowed) =
    let real_rows = keep (λ (row : RealRow). mem row.scenario_id allowed) vocabulary.real_rows in
    let shifted_rows =
      keep (λ (row : ShiftedRow). mem row.base_scenario_id allowed) vocabulary.shifted_rows in
    let visible_refs =
      keep (λ value. not (value == "")) (real_refs_of real_rows ++ shifted_refs_of shifted_rows) in
    record {
      real_rows = real_rows;
      shifted_rows = shifted_rows;
      comparisons =
          keep (λ (row : ComparisonRow). within allowed row.scenario_ids) vocabulary.comparisons;
      compatibility = visible_compatibility visible_refs vocabulary.compatibility;
    }
