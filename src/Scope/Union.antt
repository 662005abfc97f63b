-- ===== src/Scope/Union.antt =====
-- `union_read_member_sets`: the least restrictive read scope over the scenarios that a user can read.
use precis_finance_mcp.Common.{
  String, ◌≡◌, refl, true, Option, none, some, List, [], ◌∷◌, eq_iff, arith, if◌then◌else◌,
  is_empty, mem, keep, mem-keep, any, all, union, mem-union, lookup, has_key, lookup-has_key, keys,
  mem-keys, values, Result, ok, ◌>>=◌,
}
use precis_finance_mcp.Catalogue.{Error, Catalogue, Client}
use precis_finance_mcp.Auth.{DimensionScope, ScopeSpec, ScenarioPermissions, UserPermissions}
use precis_finance_mcp.Scope.{items_of, resolve_dimension_scope, is_silent}
use precis_finance_mcp.Scope.Resolve.{dimensions_of, nonempty_or_none}
use precis_finance_mcp.Scope.Merge.{Filters, permits}

-- The dimension scope of a readable scenario: `none` where it restricts nothing.
unfoldable pub restriction : Option ScopeSpec → Option DimensionScope
restriction scope = elim (dimensions_of scope) [
  | none ↦ none
  | some dims ↦ if is_silent dims then none else some dims
]

-- The loop that collects them: `none` where a readable scenario restricts nothing.
unfoldable pub read_dim_scopes : List ScenarioPermissions → Option (List DimensionScope)
unfolding restriction
read_dim_scopes [] = some []
read_dim_scopes (sp ∷ scenarios) =
    let rest = read_dim_scopes scenarios in
    elim (lookup "read" sp.tool_scopes) [
      | none ↦ rest
      | some scope ↦ elim (restriction scope) [
        | none ↦ none
        | some dims ↦ elim rest [ none ↦ none | some more ↦ some (dims ∷ more) ]
      ]
    ]

-- The loop that resolves them: `none` where one resolves to no restriction.
unfoldable pub resolve_all :
    List DimensionScope → Catalogue → Client → Result Error (Option (List Filters))
unfolding resolve_dimension_scope
resolve_all [] catalogue client = ok (some [])
resolve_all (dims ∷ scopes) catalogue client =
    resolve_dimension_scope dims catalogue client >>= λ resolved.
    let rest = resolve_all scopes catalogue client in
    if is_empty resolved
    then ok none
    else (rest >>= λ more.
        ok (elim more [ none ↦ none | some per_scope ↦ some (resolved ∷ per_scope) ]))

-- `set().union(*(r[key] for r in per_scope))`
unfoldable pub union_at : String → List Filters → List String
union_at key [] = []
union_at key (r ∷ per_scope) = union (items_of (lookup key r)) (union_at key per_scope)

entries_at : List String → List Filters → Filters
unfolding union_at
entries_at [] per_scope = []
entries_at (key ∷ ks) per_scope = (key, union_at key per_scope) ∷ entries_at ks per_scope

-- The keys that every scope restricts, each with the union of what the scopes leave visible.
unfoldable pub union_sets : List Filters → Filters
unfolding entries_at
union_sets [] = []
union_sets (r ∷ per_scope) =
    entries_at (keep (λ key. all (has_key key) per_scope) (keys r)) (r ∷ per_scope)

unfoldable pub union_resolved :
    Option (List DimensionScope) → Catalogue → Client → Result Error (Option Filters)
unfolding resolve_all union_sets
union_resolved none catalogue client = ok none
union_resolved (some []) catalogue client = ok none
union_resolved (some (dims ∷ scopes)) catalogue client =
    resolve_all (dims ∷ scopes) catalogue client >>= λ more.
    ok (elim more [ none ↦ none | some per_scope ↦ nonempty_or_none (union_sets per_scope) ])

unfoldable pub union_read_member_sets :
    Option UserPermissions → Catalogue → Client → Result Error (Option Filters)
unfolding union_resolved read_dim_scopes
union_read_member_sets none catalogue client = ok none
union_read_member_sets (some permissions) catalogue client =
    if permissions.is_admin
    then ok none
    else union_resolved (read_dim_scopes (values permissions.scenarios)) catalogue client

mem-union_at :
    (key x : String) (per_scope : List Filters)
    → mem x (union_at key per_scope) ≡ any (λ r. mem x (items_of (lookup key r))) per_scope
unfolding union_at
mem-union_at key x [] = refl
mem-union_at key x (r ∷ per_scope) = ground (
  arith,
  mem-union x (items_of (lookup key r)) (union_at key per_scope),
  mem-union_at key x per_scope,
)

lookup-entries_at :
    (key : String) (ks : List String) (per_scope : List Filters)
    → lookup key (entries_at ks per_scope)
      ≡ (if mem key ks then some (union_at key per_scope) else none)
unfolding entries_at
lookup-entries_at key [] per_scope = refl
lookup-entries_at key (k ∷ ks) per_scope =
    ground (arith, eq_iff k key, lookup-entries_at key ks per_scope)

-- Where every scope restricts the key, passing is being listed; where one does not, all pass.
any-permits :
    (key x : String) (per_scope : List Filters)
    → any (λ r. permits r key x) per_scope ≡ (
        if all (has_key key) per_scope
        then any (λ r. mem x (items_of (lookup key r))) per_scope
        else true)
any-permits key x [] = refl
any-permits key x (r ∷ per_scope) =
    ground (arith, any-permits key x per_scope, lookup-has_key key r)

pub union_sets-permits :
    (key x : String) (r : Filters) (per_scope : List Filters)
    → permits (union_sets (r ∷ per_scope)) key x ≡ any (λ s. permits s key x) (r ∷ per_scope)
unfolding union_sets
union_sets-permits key x r per_scope = ground (
  arith,
  lookup-entries_at key (keep (λ k. all (has_key k) per_scope) (keys r)) (r ∷ per_scope),
  mem-keep (λ k. all (has_key k) per_scope) key (keys r),
  mem-keys key r,
  mem-union_at key x (r ∷ per_scope),
  any-permits key x (r ∷ per_scope),
)
