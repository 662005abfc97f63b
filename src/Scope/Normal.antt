-- ===== src/Scope/Normal.antt =====
-- Filters that are normalised pass the same IDs, and filters that are made from a scope are dicts.
use precis_finance_mcp.Common.{
  String, ◌≡◌, refl, true, Option, none, some, List, [], ◌∷◌, eq_iff, arith, has_key, Distinct, ok,
  >>=-eq-ok, ◌∙◌, ok-injective, Bool-cases, inl, inr, subst,
}
use precis_finance_mcp.Common.Sort.{mem-sort, sort_items, lookup-sort_items}
use precis_finance_mcp.Catalogue.{Catalogue, Client}
use precis_finance_mcp.Auth.{ScopeSpec, DimensionScope}
use precis_finance_mcp.Filters.Column.{assign_columns-Distinct}
use precis_finance_mcp.Scope.{reject_inline_dimension_scope, resolve_dimension_scope, is_silent}
use precis_finance_mcp.Scope.Resolve.{
  resolve_scope_filters, filters_of_scope, scope_entry, dimensions_of,
}
use precis_finance_mcp.Scope.Merge.{Filters, permits, permits?, DistinctFilters}
use precis_finance_mcp.Scope.Cross.{sort_values, normalise, same_texts, same_items}

same_texts_sound : (xs ys : List String) → same_texts xs ys ≡ true → xs ≡ ys
same_texts_sound [] [] h = refl
same_texts_sound [] (y ∷ ys) h = cc
same_texts_sound (x ∷ xs) [] h = cc
same_texts_sound (x ∷ xs) (y ∷ ys) h = ground (arith, eq_iff x y, same_texts_sound xs ys)

pub same_items_sound : (f g : Filters) → same_items f g ≡ true → f ≡ g
same_items_sound [] [] h = refl
same_items_sound [] (y ∷ ys) h = cc
same_items_sound (x ∷ xs) [] h = cc
same_items_sound ((k, v) ∷ f) ((j, w) ∷ g) h =
    ground (arith, eq_iff k j, same_texts_sound v w, same_items_sound f g)

has_key-sort_values : (k : String) (f : Filters) → has_key k (sort_values f) ≡ has_key k f
unfolding sort_values
has_key-sort_values k [] = refl
has_key-sort_values k ((j, v) ∷ f) = ground (arith, has_key-sort_values k f)

sort_values-Distinct : (f : Filters) → Distinct f → Distinct (sort_values f)
unfolding sort_values
sort_values-Distinct [] h = tt
sort_values-Distinct ((k, v) ∷ f) h = (has_key-sort_values k f ∙ h.0, sort_values-Distinct f h.1)

permits-sort_values : (f : Filters) (c x : String) → permits (sort_values f) c x ≡ permits f c x
unfolding sort_values
permits-sort_values [] c x = refl
permits-sort_values ((k, v) ∷ f) c x = ground (arith, permits-sort_values f c x, mem-sort x v)

-- What is compared has the meaning of the filters.
pub permits-normalise :
    (o : Option Filters) (c x : String)
    → DistinctFilters o
    → permits (sort_items (normalise o)) c x ≡ permits? o c x
unfolding normalise
permits-normalise none c x h = rw (lookup-sort_items {V = List String} c [] tt)
permits-normalise (some f) c x h =
    rw (lookup-sort_items c (sort_values f) (sort_values-Distinct f h)) (permits-sort_values f c x)

filters_of_scope-Distinct :
    (dims : Option DimensionScope) (catalogue : Catalogue) (client : Client) (domain : String)
    {f : Filters}
    → filters_of_scope dims catalogue client domain ≡ ok f
    → Distinct f
unfolding filters_of_scope
filters_of_scope-Distinct none catalogue client domain h = subst Distinct (ok-injective h) tt
filters_of_scope-Distinct (some dims) catalogue client domain h =
    elim (Bool-cases (is_silent dims)) [
      | inl silent ↦ subst Distinct (ok-injective (rw silent at h)) tt
      | inr restricts ↦
          let (sets, _, answer) =
            >>=-eq-ok (resolve_dimension_scope dims catalogue client) _ (rw restricts at h) in
          subst Distinct (ok-injective answer)
            (assign_columns-Distinct (scope_entry catalogue domain) sets [] tt)
    ]

pub resolve_scope_filters-Distinct :
    (scope : Option ScopeSpec) (catalogue : Catalogue) (client : Client) (domain : String)
    {f : Filters}
    → resolve_scope_filters scope catalogue client domain ≡ ok f
    → Distinct f
unfolding resolve_scope_filters
resolve_scope_filters-Distinct scope catalogue client domain h =
    let (_, _, rest) =
      >>=-eq-ok (reject_inline_dimension_scope (dimensions_of scope) catalogue domain) _ h in
    filters_of_scope-Distinct (dimensions_of scope) catalogue client domain rest
