-- ===== src/Tests/Naming.antt =====
-- The scenario registry at concrete inputs.
use precis_finance_mcp.Common.{
  String, ◌≡◌, ◌≢◌, ◌↔◌, refl, true, false, none, some, List, [], ◌∷◌, ◌==◌, ◌&&◌, all, is_set,
  if◌then◌else◌, mem, has_key, Result, ok, err,
}
use precis_finance_mcp.Common.Sort.{sort}
use precis_finance_mcp.Catalogue.{Error, unknown_scenario, invalid_alias, non_writable}
use precis_finance_mcp.Auth.{UserPermissions, ScenarioPermissions}
use precis_finance_mcp.Scenarios.{
  RealScenarioRef, year_shift, real, shifted, simple, variance, variance_pct, ScenarioRef,
  ScenarioRegistry, scenario_registry, from_rows,
}
use precis_finance_mcp.Scenarios.Registry.{IsRegistry, scenario_registry-IsRegistry}
use precis_finance_mcp.Scenarios.Accepted.{
  succeeds, aliases_of, ids_of, is_valid_alias, scenario_registry-succeeds, scenario_registry-error,
}
use precis_finance_mcp.Scenarios.Resolve.{
  compatible, shifted_ref, signed_ref, percent_ref, resolve_key, resolve_key_with, resolve_writable,
  expand_dependencies,
}
use precis_finance_mcp.Scenarios.Calls.{resolve_key_lem}
use precis_finance_mcp.Scenarios.Keys.{resolve_key-public_key}
use precis_finance_mcp.Scenarios.Compared.{resolve_key-signed_ref, resolve_key-percent_ref}
use precis_finance_mcp.Scenarios.Dependencies.{IsAbout, expand_dependencies-registered}
use precis_finance_mcp.Scenarios.Writable.{NamedBy, resolve_writable-NamedBy}
use precis_finance_mcp.Scenarios.Vocabulary.{
  Vocabulary, to_reporting_vocabulary, filter_reporting_vocabulary, readable_scenario_ids,
}
use precis_finance_mcp.Scenarios.Visible.{shown, has_read, reporting_vocabulary-readable}

abbrev scenario : String → String → RealScenarioRef
scenario scenario_id alias = record {
  key = alias;
  scenario_id = scenario_id;
  alias = alias;
  name = alias;
  description = "";
  kind = "";
  status = "open";
  base_scenario = none;
  variant_of = none;
  horizon_start = "";
  horizon_end = "";
  actuals_cutoff = none;
  granularity = "monthly";
  owner_user_id = "";
  locks = "[]";
  created_by = "";
  created_at = none;
  updated_at = none;
}

abbrev actuals : RealScenarioRef
actuals = scenario "ACTUALS" "actuals"

abbrev budget : RealScenarioRef
budget = scenario "BUDGET" "budget"

abbrev scenarios : List RealScenarioRef
scenarios = actuals ∷ budget ∷ []

abbrev registry : ScenarioRegistry
registry = record {
  aliases = ("actuals", actuals) ∷ ("budget", budget) ∷ [];
  ids = ("ACTUALS", actuals) ∷ ("BUDGET", budget) ∷ [];
}

builds : scenario_registry scenarios ≡ ok registry
unfolding scenario_registry
builds = refl

refuses :
    scenario_registry (scenario "A" "actuals" ∷ scenario "B" "actuals_py" ∷ []) ≡ err invalid_alias
unfolding scenario_registry
refuses = refl

reads_rows :
    from_rows (
      (("scenario_id", some "BUDGET")
        ∷ ("alias", some "budget")
        ∷ ("name", none)
        ∷ ("status", some "open")
        ∷ [])
      ∷ [])
    ≡ ok (record { aliases = ("budget", budget) ∷ []; ids = ("BUDGET", budget) ∷ [] })
unfolding from_rows
reads_rows = refl

scenario_registry-IsRegistry_example : IsRegistry registry
scenario_registry-IsRegistry_example = scenario_registry-IsRegistry scenarios registry builds

scenario_registry-succeeds_example : succeeds (scenario_registry scenarios) ≡ (
    all is_valid_alias (aliases_of scenarios)
    && (is_set (aliases_of scenarios) && is_set (ids_of scenarios)))
scenario_registry-succeeds_example = scenario_registry-succeeds scenarios

abbrev clashing : List RealScenarioRef
clashing = scenario "A" "actuals" ∷ scenario "B" "actuals_py" ∷ []

scenario_registry-error_example : invalid_alias ≡ invalid_alias
scenario_registry-error_example = scenario_registry-error clashing refuses

resolve_key_lem_example : resolve_key registry "actuals_vs_budget_py" ≡ (
    if "actuals_vs_budget_py" == ""
    then err unknown_scenario
    else resolve_key_with (resolve_key registry) registry (compatible "actuals_vs_budget_py"))
resolve_key_lem_example = resolve_key_lem registry "actuals_vs_budget_py"

old_name :
    resolve_key registry "prior_year" ≡ ok (simple (shifted (shifted_ref year_shift actuals)))
unfolding resolve_key
old_name = refl

resolve_key-public_key_example :
    resolve_key registry "actuals_py" ≡ ok (simple (shifted (shifted_ref year_shift actuals)))
resolve_key-public_key_example =
    resolve_key-public_key registry (scenario_registry-IsRegistry scenarios registry builds)
      "prior_year" (shifted (shifted_ref year_shift actuals)) old_name

by_alias : resolve_key registry "actuals" ≡ ok (simple (real actuals))
unfolding resolve_key
by_alias = refl

shifted_budget :
    resolve_key registry "budget_py" ≡ ok (simple (shifted (shifted_ref year_shift budget)))
unfolding resolve_key
shifted_budget = refl

resolve_key-signed_ref_example :
    resolve_key registry "actuals_vs_budget_py"
    ≡ ok (variance (signed_ref (real actuals) (shifted (shifted_ref year_shift budget))))
unfolding resolve_key
resolve_key-signed_ref_example =
    resolve_key-signed_ref registry "actuals" "budget_py" (real actuals)
      (shifted (shifted_ref year_shift budget)) by_alias shifted_budget refl refl refl refl

resolve_key-percent_ref_example :
    resolve_key registry "actuals_vs_budget_py_pct"
    ≡ ok (variance_pct (percent_ref (real actuals) (shifted (shifted_ref year_shift budget))))
unfolding resolve_key
resolve_key-percent_ref_example =
    resolve_key-percent_ref registry "actuals" "budget_py" (real actuals)
      (shifted (shifted_ref year_shift budget)) by_alias shifted_budget refl refl

-- An alias may end so that it runs into the separator: its comparisons cannot be named.
runs_into_separator :
    resolve_key
      (record {
        aliases = ("plan_vs", scenario "P" "plan_vs") ∷ ("budget", budget) ∷ [];
        ids = ("P", scenario "P" "plan_vs") ∷ ("BUDGET", budget) ∷ [];
      })
      "plan_vs_vs_budget"
    ≡ err unknown_scenario
unfolding resolve_key
runs_into_separator = refl

depends : expand_dependencies registry "actuals_vs_budget_py" ≡ ok ("ACTUALS" ∷ "BUDGET" ∷ [])
unfolding expand_dependencies
depends = refl

abbrev built : IsRegistry registry
built = scenario_registry-IsRegistry scenarios registry builds

expand_dependencies-registered_example :
    ((d : String) → mem d ("ACTUALS" ∷ "BUDGET" ∷ []) ≡ true → has_key d registry.ids ≡ true)
    × ((ref : ScenarioRef) (s : RealScenarioRef)
        → resolve_key registry "actuals_vs_budget_py" ≡ ok ref
        → IsAbout ref s
        → mem s.scenario_id ("ACTUALS" ∷ "BUDGET" ∷ []) ≡ true)
expand_dependencies-registered_example =
    expand_dependencies-registered registry built "actuals_vs_budget_py" ("ACTUALS" ∷ "BUDGET" ∷ [])
      depends

resolve_writable-NamedBy_example :
    ((s : RealScenarioRef)
      → ((resolve_writable registry "BUDGET" ≡ ok s)
          ↔ (◌≢◌ {A = String} "BUDGET" "" × NamedBy registry built (compatible "BUDGET") s)))
    × ((ref : ScenarioRef)
        → resolve_key registry "BUDGET" ≡ ok ref
        → ((s : RealScenarioRef) → ref ≢ simple (real s))
        → resolve_writable registry "BUDGET" ≡ err non_writable)
    × ((raised : Error)
        → resolve_key registry "BUDGET" ≡ err raised
        → resolve_writable registry "BUDGET" ≡ err raised)
resolve_writable-NamedBy_example = resolve_writable-NamedBy registry built "BUDGET"

writes_by_id : resolve_writable registry "BUDGET" ≡ ok budget
unfolding resolve_writable
writes_by_id = refl

writes_no_shift : resolve_writable registry "prior_year" ≡ err non_writable
unfolding resolve_writable
writes_no_shift = refl

writes_nothing : resolve_writable registry "forecast" ≡ err unknown_scenario
unfolding resolve_writable
writes_nothing = refl

abbrev reader : ScenarioPermissions
reader = record { effective_role = "analyst"; tool_scopes = ("read", none) ∷ [] }

abbrev nobody : ScenarioPermissions
nobody = record { effective_role = "analyst"; tool_scopes = [] }

abbrev user : UserPermissions
user = record {
  user_id = "ana";
  is_admin = false;
  scenarios = ("ACTUALS", reader) ∷ ("BUDGET", nobody) ∷ [];
}

abbrev vocabulary_or_none : Result Error Vocabulary → Vocabulary
vocabulary_or_none (ok vocabulary) = vocabulary
vocabulary_or_none (err raised) = record {
  real_rows = [];
  shifted_rows = [];
  comparisons = [];
  compatibility = [];
}

abbrev vocabulary : Vocabulary
vocabulary = vocabulary_or_none (to_reporting_vocabulary registry)

makes_vocabulary : to_reporting_vocabulary registry ≡ ok vocabulary
unfolding to_reporting_vocabulary sort
makes_vocabulary = refl

shows_readable :
    shown (filter_reporting_vocabulary vocabulary (readable_scenario_ids (some user)))
    ≡ "actuals" ∷ "actuals_py" ∷ "actuals_pp" ∷ "actuals_vs_actuals_py"
      ∷ "actuals_vs_actuals_py_pct" ∷ []
unfolding to_reporting_vocabulary filter_reporting_vocabulary readable_scenario_ids sort
shows_readable = refl

is_shown :
    mem "actuals_vs_actuals_py"
      (shown (filter_reporting_vocabulary vocabulary (readable_scenario_ids (some user))))
    ≡ true
is_shown = rw shows_readable refl

reporting_vocabulary-readable_example :
    (ids : List String) × (expand_dependencies registry "actuals_vs_actuals_py" ≡ ok ids)
    × ((d : String) → mem d ids ≡ true → has_read user d ≡ true)
reporting_vocabulary-readable_example =
    reporting_vocabulary-readable registry vocabulary user "actuals_vs_actuals_py"
      (scenario_registry-IsRegistry scenarios registry builds) makes_vocabulary refl
      (refl, (refl, tt)) is_shown
