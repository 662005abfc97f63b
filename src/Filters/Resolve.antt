-- ===== src/Filters/Resolve.antt =====
-- `resolve_filters`: every filter becomes a set of leaf IDs, filters that reach one leaf dimension
-- are intersected, and each leaf dimension is mapped to a column of the source view.
use precis_finance_mcp.Common.{
  String, Option, none, some, List, [], ◌∷◌, ◌++◌, if◌then◌else◌, is_empty, inter, to_set, has_key,
  Dict, lookup, put, Result, ok, ◌>>=◌, ◌>>◌, raise_if,
}
use precis_finance_mcp.Common.Sort.{sort}
use precis_finance_mcp.Catalogue.{Error, filter_resolution, Dimension, Catalogue, Client}
use precis_finance_mcp.Filters.{find_filter_target, resolve_target}
use precis_finance_mcp.Filters.Column.{map_to_view_column, assign_columns}

-- The two dicts that the loop fills.
pub record Collected : Type 0 where
  pub leaf_sets : Dict (List (List String))
  pub dim_for_mapping : Dict Dimension

abbrev pub collected_nothing : Collected
collected_nothing = record { leaf_sets = []; dim_for_mapping = [] }

abbrev pub sets_of : Option (List (List String)) → List (List String)
sets_of none = []
sets_of (some sets) = sets

-- The end of the loop's body: note the dimension for the mapping, append the set.
unfoldable pub collect_leaves : Dimension → String → List String → Collected → Collected
collect_leaves dim leaf_dim_key leaves st = record {
  leaf_sets =
      put leaf_dim_key (sets_of (lookup leaf_dim_key st.leaf_sets) ++ to_set leaves ∷ [])
        st.leaf_sets;
  dim_for_mapping =
      if has_key leaf_dim_key st.dim_for_mapping
      then st.dim_for_mapping
      else put leaf_dim_key dim st.dim_for_mapping;
}

unfoldable pub collect_filter :
    String → String → Catalogue → Client → Collected → Result Error Collected
unfolding find_filter_target resolve_target collect_leaves
collect_filter filter_key filter_value catalogue client st = do
  target ← find_filter_target filter_key catalogue
  resolved ← resolve_target target filter_value client
  raise_if (is_empty resolved.1) filter_resolution
  ok (collect_leaves target.dimension resolved.0 resolved.1 st)

unfoldable pub collect_filters :
    Dict String → Catalogue → Client → Collected → Result Error Collected
unfolding collect_filter
collect_filters [] catalogue client st = ok st
collect_filters ((k, v) ∷ filters) catalogue client st =
    collect_filter k v catalogue client st >>= collect_filters filters catalogue client

-- `sets[0] & sets[1] & ...`
abbrev pub intersect_all : List String → List (List String) → List String
intersect_all acc [] = acc
intersect_all acc (s ∷ sets) = intersect_all (inter acc s) sets

-- One leaf dimension of the second loop. The dict of dimensions has every key of the sets; where
-- it had not, Python would raise `KeyError`, and the model leaves the entry out.
unfoldable pub filter_entry :
    Dict Dimension
    → Catalogue
    → String
    → String
    → List (List String)
    → Option (String × List String)
filter_entry dims catalogue domain leaf_dim_key [] = none
filter_entry dims catalogue domain leaf_dim_key (s ∷ sets) = elim (lookup leaf_dim_key dims) [
  | none ↦ none
  | some dim ↦ some (map_to_view_column dim catalogue domain, sort (intersect_all s sets))
]

unfoldable pub resolve_filters :
    Dict String → Catalogue → Client → String → Result Error (Dict (List String))
unfolding collect_filters filter_entry assign_columns
resolve_filters [] catalogue client domain = ok []
resolve_filters filters catalogue client domain =
    collect_filters filters catalogue client collected_nothing >>= λ st.
    ok (assign_columns (filter_entry st.dim_for_mapping catalogue domain) st.leaf_sets [])
