-- ===== src/Scope/Resolve.antt =====
-- `resolve_scope_filters`, `resolve_scope_leaf_sets` and `resolve_write_scope`: a scope as filters on
-- view columns, and as sets per leaf dimension.
use precis_finance_mcp.Common.{
  String, Option, none, some, List, [], ◌==◌, if◌then◌else◌, is_empty, Dict, lookup, Result, ok,
  ◌>>=◌, ◌>>◌,
}
use precis_finance_mcp.Common.Sort.{sort}
use precis_finance_mcp.Catalogue.{Error, Catalogue, Client}
use precis_finance_mcp.Auth.{DimensionScope, ScopeSpec}
use precis_finance_mcp.Filters.Column.{map_to_view_column, assign_columns}
use precis_finance_mcp.Scope.{
  check_domain_access, reject_inline_dimension_scope, resolve_dimension_scope, is_silent,
}

abbrev pub dimensions_of : Option ScopeSpec → Option DimensionScope
dimensions_of none = none
dimensions_of (some scope) = scope.dimensions

-- A leaf dimension that the catalogue does not have is passed over.
unfoldable pub scope_entry :
    Catalogue → String → String → List String → Option (String × List String)
scope_entry catalogue domain leaf_dim_key effective =
    elim (lookup leaf_dim_key catalogue.dimensions) [
      | none ↦ none
      | some dim ↦ some (map_to_view_column dim catalogue domain, sort effective)
    ]

unfoldable pub filters_of_scope :
    Option DimensionScope → Catalogue → Client → String → Result Error (Dict (List String))
unfolding resolve_dimension_scope scope_entry assign_columns
filters_of_scope none catalogue client domain = ok []
filters_of_scope (some dims) catalogue client domain =
    if is_silent dims
    then ok []
    else (resolve_dimension_scope dims catalogue client >>= λ sets.
        ok (assign_columns (scope_entry catalogue domain) sets []))

unfoldable pub resolve_scope_filters :
    Option ScopeSpec → Catalogue → Client → String → Result Error (Dict (List String))
unfolding reject_inline_dimension_scope filters_of_scope
resolve_scope_filters scope catalogue client domain =
    reject_inline_dimension_scope (dimensions_of scope) catalogue domain
    >> filters_of_scope (dimensions_of scope) catalogue client domain

unfoldable pub leaf_sets_of_scope :
    Option DimensionScope → Catalogue → Client → Result Error (Option (Dict (List String)))
unfolding resolve_dimension_scope
leaf_sets_of_scope none catalogue client = ok none
leaf_sets_of_scope (some dims) catalogue client =
    if is_silent dims
    then ok none
    else (resolve_dimension_scope dims catalogue client >>= λ sets. ok (some sets))

unfoldable pub resolve_scope_leaf_sets :
    Option ScopeSpec → Catalogue → Client → Result Error (Option (Dict (List String)))
unfolding leaf_sets_of_scope
resolve_scope_leaf_sets scope catalogue client =
    leaf_sets_of_scope (dimensions_of scope) catalogue client

-- `x or None`
abbrev pub nonempty_or_none {ℓ} : {A : Type ℓ} → List A → Option (List A)
nonempty_or_none xs = if is_empty xs then none else some xs

check_dataset_domain : ScopeSpec → String → Result Error (Unit {0})
unfolding check_domain_access
check_dataset_domain scope domain =
    if domain == "" then ok tt else check_domain_access (some scope) domain

-- `domain` is the dataset's, which may be empty.
unfoldable pub resolve_write_scope :
    Option ScopeSpec → String → Catalogue → Client → Result Error (Option (Dict (List String)))
unfolding check_dataset_domain resolve_scope_filters
resolve_write_scope none domain catalogue client = ok none
resolve_write_scope (some scope) domain catalogue client = do
  check_dataset_domain scope domain
  filters ←
      resolve_scope_filters (some scope) catalogue client (if domain == "" then "pnl" else domain)
  ok (nonempty_or_none filters)
