-- ===== src/Filters/Column.antt =====
-- From a leaf dimension to the column of a domain's source view (`_map_to_view_column`), and the
-- loop that fills a dict of columns, which `resolve_filters` and `resolve_scope_filters` share.
use precis_finance_mcp.Common.{
  String, ◌≡◌, refl, Option, none, some, List, [], ◌∷◌, ◌==◌, ◌||◌, if◌then◌else◌, Dict, lookup,
  put, lookup-put, put-Distinct, Distinct, text_cases, inl, inr, ◌∙◌, ap, lookup_cons_of_Distinct,
  eq_refl, sym, lookup-eq-none,
}
use precis_finance_mcp.Catalogue.{
  Dimension, is_leaf, is_derived, CubeDimension, DomainCatalogue, Catalogue,
}
use precis_finance_mcp.Filters.{first_resolution}

-- Which leaf dimension to look up in the domain.
unfoldable pub column_lookup_key : Dimension → String
column_lookup_key dim =
    if is_leaf dim
    then dim.key
    else if is_derived dim || dim.ragged
    then elim (first_resolution dim.transitive) [
      | some r ↦ r.leaf_dimension
      | none ↦ if dim.ragged then dim.leaf_dimension else dim.key
    ]
    else dim.key

-- The first cube dimension of that key.
unfoldable pub cube_source : String → List CubeDimension → Option String
cube_source k [] = none
cube_source k (cd ∷ cds) = if cd.key == k then some cd.source else cube_source k cds

domain_source : String → Option DomainCatalogue → Option String
unfolding cube_source
domain_source k none = none
domain_source k (some domain_cat) = cube_source k domain_cat.dimensions

-- The fallback: the leaf dimension's key column, or the key itself.
key_column_or : String → Option Dimension → String
key_column_or k none = k
key_column_or k (some dim) = elim dim.source [ none ↦ k | some source ↦ source.key_column ]

unfoldable pub map_to_view_column : Dimension → Catalogue → String → String
unfolding column_lookup_key domain_source key_column_or
map_to_view_column dim catalogue domain =
    let k = column_lookup_key dim in
    elim (domain_source k (lookup domain catalogue.domains)) [
      | some source ↦ source
      | none ↦ key_column_or k (lookup k catalogue.dimensions)
    ]

-- `for key, v in d.items(): result[column] = ids`, where `entry` gives the column and its IDs, or
-- nothing where the loop goes on.
module _ {V : Type 0} (entry : String → V → Option (String × List String)) where
  assign_entry : Option (String × List String) → Dict (List String) → Dict (List String)
  assign_entry none result = result
  assign_entry (some (column, ids)) result = put column ids result

  unfoldable pub assign_columns : Dict V → Dict (List String) → Dict (List String)
  unfolding assign_entry
  assign_columns [] result = result
  assign_columns ((k, v) ∷ d) result = assign_columns d (assign_entry (entry k v) result)

  assign_entry_spares :
      (c : String) (o : Option (String × List String)) (result : Dict (List String))
      → ((ids : List String) → o ≡ some (c, ids) → ⊥)
      → lookup c (assign_entry o result) ≡ lookup c result
  unfolding assign_entry
  assign_entry_spares c none result h = refl
  assign_entry_spares c (some (column, ids)) result h = elim (text_cases column c) [
    | inl (e, _) ↦ absurd (h ids (ap (λ (t : String). some (t, ids)) e))
    | inr ne ↦ lookup-put column c ids result ∙ rw ne
  ]

  assign_entry_writes :
      (c : String) (ids : List String) (o : Option (String × List String))
      (result : Dict (List String))
      → o ≡ some (c, ids)
      → lookup c (assign_entry o result) ≡ some ids
  unfolding assign_entry
  assign_entry_writes c ids o result h = rw h (lookup-put c c ids result ∙ rw (eq_refl c))

  -- A column that no entry writes stays as it was.
  pub assign_columns_spares :
      (c : String) (d : Dict V) (result : Dict (List String))
      → Distinct d
      → ((k : String) (v : V) (ids : List String)
          → lookup k d ≡ some v
          → entry k v ≡ some (c, ids)
          → ⊥)
      → lookup c (assign_columns d result) ≡ lookup c result
  unfolding assign_columns
  assign_columns_spares c [] result h no_write = refl
  assign_columns_spares c ((k, v) ∷ d) result h no_write =
      assign_columns_spares c d (assign_entry (entry k v) result) h.1
        (λ j w ids found. no_write j w ids (lookup_cons_of_Distinct k j v w d h found))
      ∙ assign_entry_spares c (entry k v) result
          (λ ids writes. no_write k v ids (simp eq_refl) writes)

  -- The one entry that writes a column decides it.
  pub assign_columns_decides :
      (c k₀ : String) (v₀ : V) (ids₀ : List String) (d : Dict V) (result : Dict (List String))
      → Distinct d
      → lookup k₀ d ≡ some v₀
      → entry k₀ v₀ ≡ some (c, ids₀)
      → ((k : String) (v : V) (ids : List String)
          → lookup k d ≡ some v
          → entry k v ≡ some (c, ids)
          → k ≡ k₀)
      → lookup c (assign_columns d result) ≡ some ids₀
  unfolding assign_columns
  assign_columns_decides c k₀ v₀ ids₀ [] result h found writes only = cc
  assign_columns_decides c k₀ v₀ ids₀ ((k, v) ∷ d) result h found writes only =
      elim (text_cases k k₀) [
        | inl (same, t) ↦
            let here : some v ≡ some v₀ = rw t at found in
            assign_columns_spares c d (assign_entry (entry k v) result) h.1 (λ j w ids later also.
              let twice : j ≡ k =
                only j w ids (lookup_cons_of_Distinct k j v w d h later) also ∙ sym same in
              let gone : lookup j d ≡ none = lookup-eq-none j d (rw twice h.0) in cc)
            ∙ assign_entry_writes c ids₀ (entry k v) result (cc (same, here, writes))
        | inr ne ↦
            assign_columns_decides c k₀ v₀ ids₀ d (assign_entry (entry k v) result) h.1
              (rw ne at found) writes
              (λ j w ids later. only j w ids (lookup_cons_of_Distinct k j v w d h later))
      ]

  assign_entry-Distinct :
      (o : Option (String × List String)) (result : Dict (List String))
      → Distinct result
      → Distinct (assign_entry o result)
  unfolding assign_entry
  assign_entry-Distinct none result h = h
  assign_entry-Distinct (some (column, ids)) result h = put-Distinct column ids result h

  pub assign_columns-Distinct :
      (d : Dict V) (result : Dict (List String))
      → Distinct result
      → Distinct (assign_columns d result)
  unfolding assign_columns
  assign_columns-Distinct [] result h = h
  assign_columns-Distinct ((k, v) ∷ d) result h =
      assign_columns-Distinct d (assign_entry (entry k v) result)
        (assign_entry-Distinct (entry k v) result h)
