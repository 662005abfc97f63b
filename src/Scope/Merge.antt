-- ===== src/Scope/Merge.antt =====
-- `merge_dimension_filters`: the user's filters narrowed by the scope's. A filter set passes an ID on
-- a column when the column is not filtered or lists the ID.
use precis_finance_mcp.Common.{
  String, ◌≡◌, refl, Bool, true, ◌&&◌, Option, none, some, List, [], ◌∷◌, ◌==◌, eq_iff, arith,
  inter, mem, mem-inter, to_set, mem-to_set, if◌then◌else◌, is_empty, Dict, lookup, put, lookup-put,
  lookup-eq-none, Distinct, put-Distinct, ◌∙◌, Option-cases, inl, inr,
}
use precis_finance_mcp.Common.Sort.{sort, mem-sort}
use precis_finance_mcp.Scope.Resolve.{nonempty_or_none}

abbrev pub Filters : Type 0
Filters = Dict (List String)

abbrev pub passes_ids : Option (List String) → String → Bool
passes_ids none x = true
passes_ids (some ids) x = mem x ids

abbrev pub permits : Filters → String → String → Bool
permits filters column x = passes_ids (lookup column filters) x

abbrev pub permits? : Option Filters → String → String → Bool
permits? none column x = true
permits? (some filters) column x = permits filters column x

merge_column : String → List String → Filters → Filters
merge_column col scope_ids merged =
    put col
      (elim (lookup col merged) [
        | none ↦ scope_ids
        | some user_ids ↦ sort (inter (to_set user_ids) (to_set scope_ids))
      ])
      merged

unfoldable pub merge_columns : Filters → Filters → Filters
unfolding merge_column
merge_columns [] merged = merged
merge_columns ((col, scope_ids) ∷ scope_filters) merged =
    merge_columns scope_filters (merge_column col scope_ids merged)

merge_into : Option Filters → Filters → Option Filters
unfolding merge_columns
merge_into none scope_filters = some scope_filters
merge_into (some user_filters) scope_filters =
    nonempty_or_none (merge_columns scope_filters user_filters)

unfoldable pub merge_dimension_filters : Option Filters → Filters → Option Filters
unfolding merge_into
merge_dimension_filters user_filters scope_filters =
    if is_empty scope_filters then user_filters else merge_into user_filters scope_filters

passes_merged :
    (col c x : String) (scope_ids : List String) (merged : Filters)
    → permits (merge_column col scope_ids merged) c x
      ≡ (permits merged c x && (if col == c then mem x scope_ids else true))
unfolding merge_column
passes_merged col c x scope_ids merged = elim (Option-cases (lookup col merged)) [
  | inl free ↦ rw (free, merge_column, lookup-put) (ground (arith, eq_iff col c, free))
  | inr (user_ids, limited) ↦
      rw (limited, merge_column, lookup-put)
        (ground (
          arith,
          eq_iff col c,
          limited,
          mem-sort x (inter (to_set user_ids) (to_set scope_ids)),
          mem-inter x (to_set user_ids) (to_set scope_ids),
          mem-to_set x user_ids,
          mem-to_set x scope_ids,
        ))
]

merge_columns-permits :
    (scope_filters merged : Filters) (c x : String)
    → Distinct scope_filters
    → permits (merge_columns scope_filters merged) c x
      ≡ (permits merged c x && permits scope_filters c x)
unfolding merge_columns
merge_columns-permits [] merged c x h = ground arith
merge_columns-permits ((col, scope_ids) ∷ scope_filters) merged c x h = ground (
  arith,
  eq_iff col c,
  merge_columns-permits scope_filters (merge_column col scope_ids merged) c x,
  passes_merged col c x scope_ids merged,
  lookup-eq-none c scope_filters,
)

pub permits-nonempty_or_none :
    (f : Filters) (c x : String) → permits? (nonempty_or_none f) c x ≡ permits f c x
permits-nonempty_or_none [] c x = refl
permits-nonempty_or_none (e ∷ f) c x = refl

-- Whatever the user's filters, and the scope's where they are a dict: the merged filters pass exactly
-- the IDs that both pass.
pub merge_dimension_filters-permits :
    (user_filters : Option Filters) (scope_filters : Filters) (c x : String)
    → Distinct scope_filters
    → permits? (merge_dimension_filters user_filters scope_filters) c x
      ≡ (permits? user_filters c x && permits scope_filters c x)
unfolding merge_dimension_filters
merge_dimension_filters-permits user [] c x h = ground arith
merge_dimension_filters-permits none (e ∷ scope_filters) c x h = refl
merge_dimension_filters-permits (some user) (e ∷ scope_filters) c x h =
    permits-nonempty_or_none (merge_columns (e ∷ scope_filters) user) c x
    ∙ merge_columns-permits (e ∷ scope_filters) user c x h

-- The filters are those of a dict.
abbrev pub DistinctFilters : Option Filters → Type 0
DistinctFilters none = Unit
DistinctFilters (some f) = Distinct f

merge_columns-Distinct :
    (scope_filters merged : Filters)
    → Distinct merged
    → Distinct (merge_columns scope_filters merged)
unfolding merge_columns
merge_columns-Distinct [] merged h = h
merge_columns-Distinct ((col, scope_ids) ∷ scope_filters) merged h =
    merge_columns-Distinct scope_filters _ (put-Distinct col _ merged h)

nonempty_or_none-Distinct : (f : Filters) → Distinct f → DistinctFilters (nonempty_or_none f)
nonempty_or_none-Distinct [] h = tt
nonempty_or_none-Distinct (e ∷ f) h = h

pub merge_dimension_filters-Distinct :
    (user_filters : Option Filters) (scope_filters : Filters)
    → DistinctFilters user_filters
    → Distinct scope_filters
    → DistinctFilters (merge_dimension_filters user_filters scope_filters)
unfolding merge_dimension_filters
merge_dimension_filters-Distinct user [] hu hs = hu
merge_dimension_filters-Distinct none (e ∷ scope_filters) hu hs = hs
merge_dimension_filters-Distinct (some user) (e ∷ scope_filters) hu hs =
    nonempty_or_none-Distinct (merge_columns (e ∷ scope_filters) user)
      (merge_columns-Distinct (e ∷ scope_filters) user hu)
