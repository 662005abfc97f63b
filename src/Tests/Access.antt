-- ===== src/Tests/Access.antt =====
-- Permissions and scopes at concrete inputs.
use precis_finance_mcp.Common.{
  String, ◌≡◌, refl, false, none, some, List, [], ◌∷◌, inl, inr, text_cases, sym, ok, err, lookup,
  mem, ◌&&◌, Option, any, values,
}
use precis_finance_mcp.Common.Sort.{sort, sort_items}
use precis_finance_mcp.Catalogue.{scope_violation}
use precis_finance_mcp.Auth.{
  DimensionScope, ScopeSpec, UserPermissions, Profile, resolve_profile_blocks, compute_tool_scopes,
  resolve_profile_for_scenario,
}
use precis_finance_mcp.Auth.Roles.{AreNearest, tool_scopes_nearest}
use precis_finance_mcp.Auth.Patterns.{most_specific, resolve_profile_for_scenario-most_specific}
use precis_finance_mcp.Filters.Column.{map_to_view_column}
use precis_finance_mcp.Filters.{find_filter_target}
use precis_finance_mcp.Scope.{axis_leaf_key}
use precis_finance_mcp.Scope.Merge.{
  permits, permits?, merge_dimension_filters, merge_dimension_filters-permits,
}
use precis_finance_mcp.Scope.Resolve.{resolve_scope_filters, resolve_scope_leaf_sets}
use precis_finance_mcp.Scope.LeafSets.{resolve_scope_leaf_sets-visible}
use precis_finance_mcp.Scope.Effective.{visible}
use precis_finance_mcp.Scope.Visible.{OwnsColumn, resolve_scope_filters-visible}
use precis_finance_mcp.Scope.Cross.{enforce_cross_scenario_scope}
use precis_finance_mcp.Scope.Agree.{Narrows, enforce_cross_scenario_scope-Narrows}
use precis_finance_mcp.Scope.Union.{union_read_member_sets}
use precis_finance_mcp.Scope.Least.{shows, union_read_member_sets-shows}
use precis_finance_mcp.Tests.Sample.{catalogue, client, cost_centre}

-- The Cloud division without the second of its cost centres.
abbrev cloud_dims : DimensionScope
cloud_dims = record {
  allow = some (("division", "Cloud" ∷ []) ∷ []);
  deny = some (("cost_centre", "C2" ∷ []) ∷ []);
}

abbrev cloud_scope : ScopeSpec
cloud_scope = record { dimensions = some cloud_dims; domains = none }

abbrev cloud_filters : List (String × List String)
cloud_filters = ("cc", "C1" ∷ []) ∷ []

cloud_resolves : resolve_scope_filters (some cloud_scope) catalogue client "pnl" ≡ ok cloud_filters
unfolding resolve_scope_filters sort map_to_view_column
cloud_resolves = refl

-- The scope is of cost centres alone.
cost_centre_owns : OwnsColumn catalogue client cloud_dims "pnl" "cost_centre" cost_centre
unfolding find_filter_target axis_leaf_key
cost_centre_owns other d said found same = elim (text_cases "cost_centre" other) [
  | inl (e, _) ↦ sym e
  | inr a ↦ cc (rw a at said)
]

resolve_scope_filters-visible_example :
    (ids : List String) × (lookup (map_to_view_column cost_centre catalogue "pnl") cloud_filters
      ≡ some ids)
    × ((x : String) → mem x ids ≡ visible catalogue client cloud_dims "cost_centre" x)
unfolding find_filter_target axis_leaf_key
resolve_scope_filters-visible_example =
    resolve_scope_filters-visible catalogue client cloud_scope cloud_dims "pnl" "cost_centre"
      cost_centre cloud_filters refl refl cost_centre_owns cloud_resolves refl

-- Two scenarios under the same scope, with a filter of the user's on another column.
abbrev two_scenarios : List (String × Option ScopeSpec)
two_scenarios = ("actuals", some cloud_scope) ∷ ("budget", some cloud_scope) ∷ []

abbrev user_filters : List (String × List String)
user_filters = ("acct", "4100" ∷ []) ∷ ("cc", "C2" ∷ "C1" ∷ []) ∷ []

abbrev agreed_filters : List (String × List String)
agreed_filters = ("acct", "4100" ∷ []) ∷ ("cc", "C1" ∷ []) ∷ []

scenarios_agree :
    enforce_cross_scenario_scope two_scenarios (some user_filters) "pnl" catalogue client
    ≡ ok (some agreed_filters)
unfolding enforce_cross_scenario_scope sort sort_items map_to_view_column
scenarios_agree = refl

-- With a scenario that restricts nothing the filters differ, and the query is refused.
scenarios_differ :
    enforce_cross_scenario_scope (("forecast", none) ∷ two_scenarios) none "pnl" catalogue client
    ≡ err scope_violation
unfolding enforce_cross_scenario_scope sort sort_items map_to_view_column
scenarios_differ = refl

enforce_cross_scenario_scope-Narrows_example :
    Narrows
      (some user_filters)
      "pnl"
      catalogue
      client
      (refl, (refl, tt))
      (some cloud_scope)
      (some agreed_filters)
enforce_cross_scenario_scope-Narrows_example =
    enforce_cross_scenario_scope-Narrows (some user_filters) "pnl" catalogue client
      (refl, (refl, tt)) two_scenarios (some agreed_filters) "budget" (some cloud_scope)
      scenarios_agree refl

merge_dimension_filters-permits_example :
    permits? (merge_dimension_filters (some user_filters) cloud_filters) "cc" "C2"
    ≡ (permits? (some user_filters) "cc" "C2" && permits cloud_filters "cc" "C2")
merge_dimension_filters-permits_example =
    merge_dimension_filters-permits (some user_filters) cloud_filters "cc" "C2" (refl, tt)

abbrev reader : UserPermissions
reader = record {
  user_id = "u1";
  is_admin = false;
  scenarios =
      (
        "actuals",
        record { effective_role = "analyst"; tool_scopes = ("read", some cloud_scope) ∷ [] },
      )
      ∷ [];
}

reader_sees :
    union_read_member_sets (some reader) catalogue client
    ≡ ok (some (("cost_centre", "C1" ∷ []) ∷ []))
unfolding union_read_member_sets
reader_sees = refl

union_read_member_sets-shows_example :
    permits? (some (("cost_centre", "C1" ∷ []) ∷ [])) "cost_centre" "C2"
    ≡ any (shows catalogue client "cost_centre" "C2") (values reader.scenarios)
union_read_member_sets-shows_example =
    union_read_member_sets-shows catalogue client "cost_centre" "C2" reader refl refl reader_sees

-- A profile that lets planners of every scenario write, and analysts of budgets read the cloud.
abbrev profile : Profile
profile =
    ("*", ("planner", none) ∷ [])
    ∷ (
      "PLAN",
      ("manager", none)
          ∷ ("analyst", some (record { domains = none; dimensions = some cloud_dims }))
          ∷ [],
    )
    ∷ []

tool_scopes_nearest_example :
    let blocks = resolve_profile_blocks profile "b26" "BUDGET" in
    AreNearest blocks (compute_tool_scopes blocks).tool_scopes
tool_scopes_nearest_example = tool_scopes_nearest profile "b26" "BUDGET"

resolve_profile_for_scenario-most_specific_example :
    resolve_profile_for_scenario profile "b26" "BUDGET" ≡ most_specific "b26" "BUDGET" profile
resolve_profile_for_scenario-most_specific_example =
    resolve_profile_for_scenario-most_specific "b26" "BUDGET" profile

cloud_leaf_sets :
    resolve_scope_leaf_sets (some cloud_scope) catalogue client
    ≡ ok (some (("cost_centre", "C1" ∷ []) ∷ []))
unfolding resolve_scope_leaf_sets
cloud_leaf_sets = refl

resolve_scope_leaf_sets-visible_example :
    (ids : List String) × (lookup "cost_centre" (("cost_centre", "C1" ∷ []) ∷ []) ≡ some ids)
    × ((x : String) → mem x ids ≡ visible catalogue client cloud_dims "cost_centre" x)
unfolding find_filter_target axis_leaf_key
resolve_scope_leaf_sets-visible_example =
    resolve_scope_leaf_sets-visible catalogue client cloud_scope cloud_dims "cost_centre"
      (("cost_centre", "C1" ∷ []) ∷ []) refl cloud_leaf_sets refl
