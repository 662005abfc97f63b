-- ===== src/Scope/Visible.antt =====
-- The filters that a scope resolves to: each column lists exactly the IDs that the scope leaves
-- visible on its leaf dimension.
use precis_finance_mcp.Common.{
  String, ◌≡◌, refl, Bool, true, false, ◌||◌, Option, some, List, [], ◌∷◌, mem, is_empty, Dict,
  lookup, lookup-has_key, ok, >>=-eq-ok, ok-injective, sym, ◌∙◌, inl, inr, Bool-cases, Option-cases,
  subst, &&-eq-true,
}
use precis_finance_mcp.Common.Sort.{sort, mem-sort}
use precis_finance_mcp.Catalogue.{Dimension, Catalogue, Client}
use precis_finance_mcp.Auth.{DimensionScope, ScopeSpec}
use precis_finance_mcp.Filters.Column.{map_to_view_column, assign_columns_decides}
use precis_finance_mcp.Scope.{
  items_of, resolve_dimension_scope, is_silent, reject_inline_dimension_scope,
}
use precis_finance_mcp.Scope.Resolve.{scope_entry, filters_of_scope, resolve_scope_filters}
use precis_finance_mcp.Scope.Members.{mentions}
use precis_finance_mcp.Scope.Effective.{
  visible, resolve_dimension_scope-visible, resolve_dimension_scope-has_key,
  resolve_dimension_scope-Distinct,
}

module _ (catalogue : Catalogue) (client : Client) where
  unsaid_of_empty :
      (leaf : String) (members : Dict (List String))
      → is_empty members ≡ true
      → mentions catalogue client leaf members ≡ false
  unsaid_of_empty leaf [] h = refl
  unsaid_of_empty leaf (e ∷ members) h = cc

  -- An entry that writes a column is of a dimension that has this column.
  entry_column :
      (domain leaf column : String) (sets ids : List String)
      → scope_entry catalogue domain leaf sets ≡ some (column, ids)
      → (d : Dimension) × (lookup leaf catalogue.dimensions ≡ some d)
        × (map_to_view_column d catalogue domain ≡ column)
  unfolding scope_entry
  entry_column domain leaf column sets ids h =
      elim (Option-cases (lookup leaf catalogue.dimensions)) [
        | inl missing ↦ cc (rw (missing, scope_entry) at h)
        | inr (d, found) ↦ (d, found, cc (rw (found, scope_entry) at h))
      ]

  -- Some axis of the scope is of the leaf dimension.
  abbrev pub mentioned : DimensionScope → String → Bool
  mentioned dims leaf =
      mentions catalogue client leaf (items_of dims.allow)
      || mentions catalogue client leaf (items_of dims.deny)

  -- No other leaf dimension of the scope has the dimension's column in the domain.
  abbrev pub OwnsColumn : DimensionScope → String → String → Dimension → Type 0
  OwnsColumn dims domain leaf dim =
      (other : String) (d : Dimension)
      → mentioned dims other ≡ true
      → lookup other catalogue.dimensions ≡ some d
      → map_to_view_column d catalogue domain ≡ map_to_view_column dim catalogue domain
      → other ≡ leaf

  -- If a scope resolves to filters, then a leaf dimension that the scope mentions, that the catalogue
  -- has and whose view column no other leaf dimension of the scope has, is filtered, to exactly the
  -- IDs that are visible: those that every allow axis lists, or all where no allow axis is of the
  -- dimension, without those that some deny axis lists.
  pub resolve_scope_filters-visible :
      (scope : ScopeSpec) (dims : DimensionScope) (domain leaf : String) (dim : Dimension)
      (filters : Dict (List String))
      → scope.dimensions ≡ some dims
      → lookup leaf catalogue.dimensions ≡ some dim
      → OwnsColumn dims domain leaf dim
      → resolve_scope_filters (some scope) catalogue client domain ≡ ok filters
      → mentioned dims leaf ≡ true
      → (ids : List String) × (lookup (map_to_view_column dim catalogue domain) filters ≡ some ids)
        × ((x : String) → mem x ids ≡ visible catalogue client dims leaf x)
  unfolding resolve_scope_filters filters_of_scope scope_entry
  resolve_scope_filters-visible scope dims domain leaf dim filters has known own h said =
      let (_, _, h₁) =
        >>=-eq-ok (reject_inline_dimension_scope scope.dimensions catalogue domain) _ h in
      let h₂ : filters_of_scope (some dims) catalogue client domain ≡ ok filters =
        subst
          (λ (o : Option DimensionScope). filters_of_scope o catalogue client domain ≡ ok filters)
          has h₁ in
      elim (Bool-cases (is_silent dims)) [
        | inl silent ↦
            let (a, d) =
              &&-eq-true (is_empty (items_of dims.allow)) (is_empty (items_of dims.deny)) silent in
            cc (
              rw
                (
                  unsaid_of_empty leaf (items_of dims.allow) a,
                  unsaid_of_empty leaf (items_of dims.deny) d,
                )
                at said)
        | inr restricts ↦
            let (sets, made, answer) =
              >>=-eq-ok (resolve_dimension_scope dims catalogue client) _ (rw restricts at h₂) in
            let (ids, found, meaning) =
              resolve_dimension_scope-visible catalogue client dims leaf sets made said in
            (
              sort ids,
              rw (← ok-injective answer) (
                  assign_columns_decides (scope_entry catalogue domain)
                    (map_to_view_column dim catalogue domain) leaf ids (sort ids) sets []
                    (resolve_dimension_scope-Distinct catalogue client dims sets made) found
                    (rw (known, scope_entry))
                    (λ k v w there writes.
                      let (d, at_k, same) =
                        entry_column domain k (map_to_view_column dim catalogue domain) v w
                          writes in
                      own k d
                        (sym (resolve_dimension_scope-has_key catalogue client dims sets k made)
                          ∙ lookup-has_key k sets
                          ∙ rw there)
                        at_k same)),
              λ x. rw mem-sort (meaning x),
            )
      ]
