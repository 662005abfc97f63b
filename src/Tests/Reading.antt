-- ===== src/Tests/Reading.antt =====
-- Filters at concrete inputs.
use precis_finance_mcp.Common.{
  String, ◌≡◌, refl, true, some, List, [], ◌∷◌, ◌==◌, if◌then◌else◌, ok, ok-injective, eq_iff,
  arith, lookup, mem,
}
use precis_finance_mcp.Common.Sort.{sort}
use precis_finance_mcp.Filters.{find_filter_target, resolve_single_value}
use precis_finance_mcp.Filters.Column.{map_to_view_column}
use precis_finance_mcp.Filters.Resolve.{resolve_filters}
use precis_finance_mcp.Filters.Intersect.{AllMapTo, allowed, reached, resolve_filters-intersects}
use precis_finance_mcp.Tests.Sample.{catalogue, client}

-- A division and one of its cost centres: both reach the cost centres.
abbrev division_and_centre : List (String × String)
division_and_centre = ("division", "Cloud") ∷ ("cost_centre", "C2") ∷ []

abbrev column : String → String
column leaf = if leaf == "cost_centre" then "cc" else leaf

filters_resolve :
    resolve_filters division_and_centre catalogue client "pnl" ≡ ok (("cc", "C2" ∷ []) ∷ [])
unfolding resolve_filters sort map_to_view_column
filters_resolve = refl

apart :
    (other : String)
    → reached catalogue client other division_and_centre ≡ true
    → column other ≡ column "cost_centre"
    → other ≡ "cost_centre"
unfolding resolve_single_value
apart other there same = ground (arith, eq_iff "cost_centre" other)

filters_map : AllMapTo catalogue client "pnl" column division_and_centre
unfolding find_filter_target resolve_single_value map_to_view_column
filters_map = (
  λ target r found resolved. rw (← ok-injective found, ← ok-injective resolved) refl,
  (λ target r found resolved. rw (← ok-injective found, ← ok-injective resolved) refl, tt),
)

resolve_filters-intersects_example :
    (ids : List String) × (lookup "cc" (("cc", "C2" ∷ []) ∷ []) ≡ some ids)
    × ((x : String) → mem x ids ≡ allowed catalogue client "cost_centre" x division_and_centre)
unfolding resolve_single_value
resolve_filters-intersects_example =
    resolve_filters-intersects catalogue client "pnl" column "division" "Cloud"
      (("cost_centre", "C2") ∷ []) "cost_centre" apart filters_map filters_resolve refl
