-- ===== src/Scope/Cross.antt =====
-- `enforce_cross_scenario_scope`: each scenario's scope merged with the user's filters, and the one
-- filter set that all scenarios agree on. The message of a disagreement is not modelled.
use precis_finance_mcp.Common.{
  String, Bool, true, false, ◌&&◌, Option, none, some, List, [], ◌∷◌, ◌==◌, if◌then◌else◌, is_empty,
  Dict, Result, ok, err, ◌>>=◌, ◌>>◌,
}
use precis_finance_mcp.Common.Sort.{sort, sort_items}
use precis_finance_mcp.Catalogue.{Error, scope_violation, stop_iteration, Catalogue, Client}
use precis_finance_mcp.Auth.{ScopeSpec}
use precis_finance_mcp.Scope.{check_domain_access}
use precis_finance_mcp.Scope.Resolve.{resolve_scope_filters}
use precis_finance_mcp.Scope.Merge.{Filters, merge_dimension_filters}

-- The body of the loop over scenarios.
unfoldable pub effective_filters :
    Option ScopeSpec → Option Filters → String → Catalogue → Client → Result Error (Option Filters)
unfolding check_domain_access resolve_scope_filters merge_dimension_filters
effective_filters none user_filters domain catalogue client = ok user_filters
effective_filters (some scope) user_filters domain catalogue client = do
  check_domain_access (some scope) domain
  scope_dim_filters ← resolve_scope_filters (some scope) catalogue client domain
  ok (
      if is_empty scope_dim_filters
      then user_filters
      else merge_dimension_filters user_filters scope_dim_filters)

unfoldable pub effective_per_scenario :
    Dict (Option ScopeSpec)
    → Option Filters
    → String
    → Catalogue
    → Client
    → Result Error (Dict (Option Filters))
unfolding effective_filters
effective_per_scenario [] user_filters domain catalogue client = ok []
effective_per_scenario ((scenario_id, scope) ∷ scenarios) user_filters domain catalogue client = do
  effective ← effective_filters scope user_filters domain catalogue client
  rest ← effective_per_scenario scenarios user_filters domain catalogue client
  ok ((scenario_id, effective) ∷ rest)

unfoldable pub sort_values : Filters → Filters
sort_values [] = []
sort_values ((k, v) ∷ f) = (k, sort v) ∷ sort_values f

-- `_normalise`, and the sorted items of what it gives.
unfoldable pub normalise : Option Filters → Filters
unfolding sort_values
normalise none = []
normalise (some f) = sort_values f

-- `==` on tuples of texts, and on tuples of items.
abbrev pub same_texts : List String → List String → Bool
same_texts [] [] = true
same_texts (x ∷ xs) (y ∷ ys) = x == y && same_texts xs ys
same_texts _ _ = false

abbrev pub same_items : Filters → Filters → Bool
same_items [] [] = true
same_items ((k, v) ∷ f) ((j, w) ∷ g) = k == j && (same_texts v w && same_items f g)
same_items _ _ = false

-- Every scenario's filters are those of the first: the set of them has at most one element.
unfoldable pub all_agree : Option Filters → Dict (Option Filters) → Bool
unfolding normalise
all_agree first [] = true
all_agree first ((_, effective) ∷ rest) =
    same_items (sort_items (normalise first)) (sort_items (normalise effective))
    && all_agree first rest

-- With no scenario at all, `next(iter(...))` raises.
unfoldable pub consistent_filters : Dict (Option Filters) → Result Error (Option Filters)
unfolding all_agree
consistent_filters [] = err stop_iteration
consistent_filters ((_, effective) ∷ rest) =
    if all_agree effective rest then ok effective else err scope_violation

unfoldable pub enforce_cross_scenario_scope :
    Dict (Option ScopeSpec)
    → Option Filters
    → String
    → Catalogue
    → Client
    → Result Error (Option Filters)
unfolding effective_per_scenario consistent_filters
enforce_cross_scenario_scope per_scenario_scope user_filters domain catalogue client =
    effective_per_scenario per_scenario_scope user_filters domain catalogue client
    >>= consistent_filters
