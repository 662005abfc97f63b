-- ===== src/Tests/Locking.antt =====
-- Lock conditions and ranges of months at concrete inputs.
use precis_finance_mcp.Common.{
  String, ◌≡◌, refl, arith, true, false, ◌↔◌, Option, none, some, List, [], ◌∷◌, ◌==◌, Dict, lookup,
  has_key, mem, ok, Result, if◌then◌else◌,
}
use precis_finance_mcp.Catalogue.{Error}
use precis_finance_mcp.Filters.{resolve_single_value}
use precis_finance_mcp.Scope.{items_of}
use precis_finance_mcp.Periods.{month_at, month_text, months_from}
use precis_finance_mcp.Locks.{
  one, many, LockCondition, monthly_from, generate_monthly_range, resolve_lock_condition,
  load_scenario_locks, resolve_scenario_locks, is_cell_locked,
}
use precis_finance_mcp.Locks.Ranges.{generate_monthly_range-months, monthly_from-enough}
use precis_finance_mcp.Locks.Conditions.{
  condition_reaches, condition_lists, resolve_lock_condition-unites,
}
use precis_finance_mcp.Locks.Cells.{SomeCovers, is_cell_locked-SomeCovers}
use precis_finance_mcp.Tests.Sample.{catalogue, client}

-- The first quarter of a year, for a division and an unknown one.
abbrev first_quarter : LockCondition
first_quarter = record {
  period_from = some "2026-01";
  period_to = some "2026-03";
  entries =
      ("_type", one "hard") ∷ ("division", many ("Cloud" ∷ [])) ∷ ("region", one "North") ∷ [];
}

abbrev quarter_sets : Dict (List String)
quarter_sets =
    ("period", "2026-01" ∷ "2026-02" ∷ "2026-03" ∷ []) ∷ ("cost_centre", "C1" ∷ "C2" ∷ []) ∷ []

quarter_resolves : resolve_lock_condition first_quarter catalogue client ≡ ok quarter_sets
unfolding resolve_lock_condition resolve_single_value generate_monthly_range month_text
quarter_resolves = refl

resolve_lock_condition-unites_example :
    (has_key "cost_centre" quarter_sets
      ≡ condition_reaches catalogue client "cost_centre" first_quarter)
    × ((x : String)
        → mem x (items_of (lookup "cost_centre" quarter_sets))
          ≡ condition_lists catalogue client "cost_centre" first_quarter x)
resolve_lock_condition-unites_example =
    resolve_lock_condition-unites catalogue client "cost_centre" first_quarter refl quarter_resolves

-- The store has locks for one scenario.
abbrev get_locks : String → Result Error (Option (List LockCondition))
get_locks scenario_id = if scenario_id == "b26" then ok (some (first_quarter ∷ [])) else ok none

abbrev locked_cell : Dict String
locked_cell = ("account", "4100") ∷ ("cost_centre", "C1") ∷ ("period", "2026-02") ∷ []

abbrev open_cell : Dict String
open_cell = ("account", "4100") ∷ ("cost_centre", "C1") ∷ ("period", "2026-04") ∷ []

cells :
    (is_cell_locked locked_cell (quarter_sets ∷ []) ≡ true)
    × (is_cell_locked open_cell (quarter_sets ∷ []) ≡ false)
unfolding is_cell_locked
cells = (refl, refl)

locks_resolve : resolve_scenario_locks get_locks "b26" catalogue client ≡ ok (quarter_sets ∷ [])
unfolding resolve_scenario_locks resolve_single_value generate_monthly_range month_text
locks_resolve = refl

is_cell_locked-SomeCovers_example :
    (is_cell_locked locked_cell (quarter_sets ∷ []) ≡ true)
    ↔ SomeCovers catalogue client locked_cell (load_scenario_locks get_locks "b26")
unfolding load_scenario_locks resolve_single_value
is_cell_locked-SomeCovers_example =
    is_cell_locked-SomeCovers catalogue client get_locks "b26" locked_cell (refl, tt) locks_resolve

generate_monthly_range-months_example :
    generate_monthly_range (month_at 24314) (month_at 24317) ≡ ok (months_from 24314 4)
generate_monthly_range-months_example =
    generate_monthly_range-months 24314 24317 (omega arith) (omega arith)

monthly_from-enough_example : monthly_from 40 2025 11 2026 2 ≡ monthly_from 20 2025 11 2026 2
monthly_from-enough_example = monthly_from-enough 20 20 2025 11 2026 2 (omega arith)
