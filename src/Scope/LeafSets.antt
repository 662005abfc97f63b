-- ===== src/Scope/LeafSets.antt =====
-- `resolve_scope_leaf_sets`: the sets that commits are compared with hold what is visible.
use precis_finance_mcp.Common.{
  String, ◌≡◌, true, Option, some, List, mem, Dict, lookup, ok, >>=-eq-ok, ok-injective, some-inj,
  inl, inr, Bool-cases, subst,
}
use precis_finance_mcp.Catalogue.{Catalogue, Client}
use precis_finance_mcp.Auth.{DimensionScope, ScopeSpec}
use precis_finance_mcp.Scope.{resolve_dimension_scope, is_silent}
use precis_finance_mcp.Scope.Resolve.{resolve_scope_leaf_sets, leaf_sets_of_scope}
use precis_finance_mcp.Scope.Visible.{mentioned}
use precis_finance_mcp.Scope.Effective.{visible, resolve_dimension_scope-visible}

module _ (catalogue : Catalogue) (client : Client) where
  sets_of_dims :
      (dims : DimensionScope) (leaf : String) {sets : Dict (List String)}
      → leaf_sets_of_scope (some dims) catalogue client ≡ ok (some sets)
      → resolve_dimension_scope dims catalogue client ≡ ok sets
  unfolding leaf_sets_of_scope
  sets_of_dims dims leaf h = elim (Bool-cases (is_silent dims)) [
    | inl silent ↦ cc (rw silent at h)
    | inr restricts ↦
        let (sets, made, answer) =
          >>=-eq-ok (resolve_dimension_scope dims catalogue client) _ (rw restricts at h) in
        rw (← some-inj (ok-injective answer)) made
  ]

  -- If a scope resolves to leaf sets, then every leaf dimension that its allow or deny side mentions has
  -- a set, of exactly the IDs that are visible.
  pub resolve_scope_leaf_sets-visible :
      (scope : ScopeSpec) (dims : DimensionScope) (leaf : String) (sets : Dict (List String))
      → scope.dimensions ≡ some dims
      → resolve_scope_leaf_sets (some scope) catalogue client ≡ ok (some sets)
      → mentioned catalogue client dims leaf ≡ true
      → (ids : List String) × (lookup leaf sets ≡ some ids)
        × ((x : String) → mem x ids ≡ visible catalogue client dims leaf x)
  unfolding resolve_scope_leaf_sets
  resolve_scope_leaf_sets-visible scope dims leaf sets has h said =
      resolve_dimension_scope-visible catalogue client dims leaf sets
        (sets_of_dims dims leaf (
          subst
            (λ (o : Option DimensionScope). leaf_sets_of_scope o catalogue client ≡ ok (some sets))
            has h))
        said
