-- ===== src/Locks.antt =====
-- Scenario locks (precis_mcp/scope_resolver.py): the conditions of a scenario's locks, resolved to
-- sets of leaf IDs, and whether a cell is locked. A condition's values are texts, or lists of
-- texts: what `str(value)` gives of the JSON values.
pub mod Ranges
pub mod Values
pub mod Conditions
pub mod Matching
pub mod Cells
use precis_finance_mcp.Common.{
  ℕ, ◌+◌, ◌-◌, ◌*◌, zero, suc, String, Bool, true, false, ◌&&◌, ◌||◌, Option, none, some, List, [],
  ◌∷◌, ◌==◌, if◌then◌else◌, ltb, leb, eqb, is_empty, mem, to_set, union, Dict, lookup, put, Result,
  ok, err, ◌>>=◌,
}
use precis_finance_mcp.Catalogue.{
  Error, filter_resolution, DimensionSource, Dimension, Catalogue, Query, Client,
}
use precis_finance_mcp.Filters.{resolve_single_value}
use precis_finance_mcp.Periods.{month_text, int_of, before, after}

-- `(year, month) <= (end_year, end_month)`
abbrev pub is_within : ℕ → ℕ → ℕ → ℕ → Bool
is_within year month end_year end_month =
    ltb year end_year || (eqb year end_year && leb month end_month)

-- The loop, on fuel.
unfoldable pub monthly_from : ℕ → ℕ → ℕ → ℕ → ℕ → List String
monthly_from zero year month end_year end_month = []
monthly_from (suc fuel) year month end_year end_month =
    let rest =
      if ltb 12 (month + 1)
      then monthly_from fuel (year + 1) 1 end_year end_month
      else monthly_from fuel year (month + 1) end_year end_month in
    if is_within year month end_year end_month then month_text year month ∷ rest else []

-- A year has at most the thirteen turns of the months from 0 to 12.
abbrev pub range_fuel : ℕ → ℕ → ℕ
range_fuel year end_year = 13 * (end_year + 1 - year)

-- `_generate_monthly_range`
unfoldable pub generate_monthly_range : String → String → Result Error (List String)
unfolding monthly_from
generate_monthly_range start end = do
  year ← int_of (before 4 start)
  month ← int_of (before 2 (after 5 start))
  end_year ← int_of (before 4 end)
  end_month ← int_of (before 2 (after 5 end))
  ok (monthly_from (range_fuel year end_year) year month end_year end_month)

-- The source of the period dimension, where the catalogue has both.
abbrev pub period_source : Catalogue → Option DimensionSource
period_source catalogue = elim (lookup "period" catalogue.dimensions) [
  | none ↦ none
  | some dim ↦ dim.source
]

-- `_expand_period_range`
unfoldable pub expand_period_range :
    String → String → Catalogue → Client → Result Error (List String)
unfolding generate_monthly_range
expand_period_range period_from period_to catalogue client = elim (period_source catalogue) [
  | none ↦ generate_monthly_range period_from period_to
  | some source ↦ client (Query.range source.key_column source.table period_from period_to)
]

pub data LockValue : Type 0 where
  one : String → LockValue
  many : List String → LockValue

-- A condition's keys: the two bounds, which are texts, and all other ones.
pub record LockCondition : Type 0 where
  pub period_from : Option String
  pub period_to : Option String
  pub entries : Dict LockValue

-- `period_from`, where it is there and not empty.
abbrev pub truthy : Option String → Option String
truthy none = none
truthy (some text) = if text == "" then none else some text

unfoldable pub period_set :
    Option String → Option String → Catalogue → Client → Result Error (Option (List String))
unfolding expand_period_range
period_set none none catalogue client = ok none
period_set (some p) none catalogue client = ok (some (p ∷ []))
period_set none (some p) catalogue client = ok (some (p ∷ []))
period_set (some period_from) (some period_to) catalogue client =
    expand_period_range period_from period_to catalogue client >>= λ periods.
    ok (some (to_set periods))

-- `resolved[leaf_dim_key] |= leaves`, or the leaves where there is no set yet.
unfoldable pub add_leaves : String → List String → Dict (List String) → Dict (List String)
add_leaves leaf_dim_key leaves resolved =
    put leaf_dim_key
      (elim (lookup leaf_dim_key resolved) [ none ↦ leaves | some ids ↦ union ids leaves ]) resolved

-- `try: resolve_single_value(...)`: a `FilterResolutionError` is logged and passed over.
unfoldable pub try_resolve :
    Result Error (String × List String) → Result Error (Option (String × List String))
try_resolve (ok r) = ok (some r)
try_resolve (err filter_resolution) = ok none
try_resolve (err e) = err e

-- The loop over a list of values: the leaf dimension that was reached last, and the union.
unfoldable pub collect_values :
    String
    → List String
    → Catalogue
    → Client
    → Option String
    → List String
    → Result Error (Option String × List String)
unfolding try_resolve
collect_values key [] catalogue client leaf_dim_key all_leaves = ok (leaf_dim_key, all_leaves)
collect_values key (v ∷ values) catalogue client leaf_dim_key all_leaves =
    try_resolve (resolve_single_value key v catalogue client) >>= λ found. elim found [
      | none ↦ collect_values key values catalogue client leaf_dim_key all_leaves
      | some r ↦ collect_values key values catalogue client (some r.0) (union all_leaves r.1)
    ]

-- `if leaf_dim_key and all_leaves`
unfoldable pub add_union : Option String → List String → Dict (List String) → Dict (List String)
unfolding add_leaves
add_union none all_leaves resolved = resolved
add_union (some leaf_dim_key) all_leaves resolved =
    if leaf_dim_key == "" || is_empty all_leaves
    then resolved
    else add_leaves leaf_dim_key all_leaves resolved

unfoldable pub add_found : Option (String × List String) → Dict (List String) → Dict (List String)
unfolding add_leaves
add_found none resolved = resolved
add_found (some r) resolved = add_leaves r.0 (to_set r.1) resolved

unfoldable pub resolve_entry :
    String → LockValue → Catalogue → Client → Dict (List String) → Result Error (Dict (List String))
unfolding collect_values add_union add_found
resolve_entry key (one value) catalogue client resolved =
    try_resolve (resolve_single_value key value catalogue client) >>= λ found.
    ok (add_found found resolved)
resolve_entry key (many values) catalogue client resolved =
    collect_values key values catalogue client none [] >>= λ collected.
    ok (add_union collected.0 collected.1 resolved)

-- The keys that the loop passes over.
abbrev pub is_special : String → Bool
is_special key = key == "period_from" || (key == "period_to" || key == "_type")

unfoldable pub resolve_entries :
    Dict LockValue → Catalogue → Client → Dict (List String) → Result Error (Dict (List String))
unfolding resolve_entry
resolve_entries [] catalogue client resolved = ok resolved
resolve_entries ((key, value) ∷ entries) catalogue client resolved =
    (if is_special key then ok resolved else resolve_entry key value catalogue client resolved)
    >>= resolve_entries entries catalogue client

abbrev pub with_periods : Option (List String) → Dict (List String)
with_periods none = []
with_periods (some ids) = ("period", ids) ∷ []

unfoldable pub resolve_lock_condition :
    LockCondition → Catalogue → Client → Result Error (Dict (List String))
unfolding period_set resolve_entries
resolve_lock_condition condition catalogue client =
    period_set (truthy condition.period_from) (truthy condition.period_to) catalogue client
    >>= λ periods. resolve_entries condition.entries catalogue client (with_periods periods)

-- `load_scenario_locks`, where the scenario store answers a query for the locks: an exception is
-- logged, and there are no locks.
unfoldable pub load_scenario_locks :
    (String → Result Error (Option (List LockCondition))) → String → List LockCondition
load_scenario_locks get_locks_metadata scenario_id = elim (get_locks_metadata scenario_id) [
  | err e ↦ []
  | ok none ↦ []
  | ok (some locks) ↦ locks
]

unfoldable pub resolve_conditions :
    List LockCondition → Catalogue → Client → Result Error (List (Dict (List String)))
unfolding resolve_lock_condition
resolve_conditions [] catalogue client = ok []
resolve_conditions (cond ∷ raw_locks) catalogue client = do
  r ← resolve_lock_condition cond catalogue client
  resolved ← resolve_conditions raw_locks catalogue client
  ok (if is_empty r then resolved else r ∷ resolved)

unfoldable pub resolve_scenario_locks :
    (String → Result Error (Option (List LockCondition)))
    → String
    → Catalogue
    → Client
    → Result Error (List (Dict (List String)))
unfolding load_scenario_locks resolve_conditions
resolve_scenario_locks get_locks_metadata scenario_id catalogue client =
    resolve_conditions (load_scenario_locks get_locks_metadata scenario_id) catalogue client

-- The inner loop: whether the cell has a locked value on every dimension of the condition.
unfoldable pub matches_all_dims : Dict String → Dict (List String) → Bool
matches_all_dims cell [] = true
matches_all_dims cell ((dim_key, locked_values) ∷ condition) = elim (lookup dim_key cell) [
  | none ↦ false
  | some cell_value ↦
      if mem cell_value locked_values then matches_all_dims cell condition else false
]

unfoldable pub is_cell_locked : Dict String → List (Dict (List String)) → Bool
unfolding matches_all_dims
is_cell_locked cell [] = false
is_cell_locked cell (condition ∷ resolved_locks) =
    if matches_all_dims cell condition then true else is_cell_locked cell resolved_locks
