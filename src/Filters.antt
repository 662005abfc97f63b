-- ===== src/Filters.antt =====
-- The filter resolver (precis_mcp/engine/filter_resolver.py): a filter names a dimension, at any
-- level of a hierarchy, and a member; it becomes a list of leaf IDs for a column of the source view.
pub mod Column
pub mod Resolve
pub mod Intersect
use Prim.Native.String.{◌++◌ as append_text}
use precis_finance_mcp.Common.{
  String, Bool, true, false, Option, none, some, List, [], ◌∷◌, ◌++◌, ◌==◌, if◌then◌else◌, is_empty,
  inter, to_set, Dict, lookup, put, Result, ok, err, ◌>>=◌, ◌>>◌, raise_if,
}
use precis_finance_mcp.Common.Sort.{sort}
use precis_finance_mcp.Catalogue.{
  Error, filter_resolution, assertion, DimensionSource, TransitiveResolution, Dimension, is_leaf,
  is_derived, CubeDimension, Catalogue, Query, Client,
}

pub data ResolutionType : Type 0 where
  leaf derived ragged : ResolutionType

pub record FilterTarget : Type 0 where
  pub dimension : Dimension
  pub resolution_type : ResolutionType

classify : Dimension → Result Error FilterTarget
classify dim =
    if is_leaf dim
    then ok (record { dimension = dim; resolution_type = leaf })
    else if is_derived dim
    then ok (record { dimension = dim; resolution_type = derived })
    else if dim.ragged
    then ok (record { dimension = dim; resolution_type = ragged })
    else err filter_resolution

unfoldable pub find_filter_target : String → Catalogue → Result Error FilterTarget
unfolding classify
find_filter_target filter_key catalogue = elim (lookup filter_key catalogue.dimensions) [
  | none ↦ err filter_resolution
  | some dim ↦ classify dim
]

unfoldable pub resolve_leaf_filter : Dimension → String → Client → Result Error (List String)
resolve_leaf_filter dim value client = elim dim.source [
  | none ↦ err assertion
  | some source ↦ client (Query.member source.table source.key_column value)
]

-- `next(iter(dim._transitive.values()))`, where there is one
abbrev pub first_resolution : Dict TransitiveResolution → Option TransitiveResolution
first_resolution [] = none
first_resolution ((_, resolution) ∷ _) = some resolution

unfoldable pub resolve_derived_filter : Dimension → String → Client → Result Error (List String)
resolve_derived_filter dim value client = elim (first_resolution dim.transitive) [
  | none ↦ err filter_resolution
  | some r ↦ client (Query.derived r.leaf_key_column r.source_table r.filter_column value)
]

rollup_view : Dimension → String
rollup_view dim =
    append_text "semantic.dim_"
      (append_text dim.leaf_dimension (append_text "_" (append_text dim.key "_rollup")))

unfoldable pub resolve_ragged_filter : Dimension → String → Client → Result Error (List String)
unfolding rollup_view
resolve_ragged_filter dim value client =
    if dim.leaf_dimension == ""
    then err filter_resolution
    else elim (lookup dim.leaf_dimension dim.transitive) [
      | none ↦ err filter_resolution
      | some r ↦ client (Query.rollup r.leaf_key_column (rollup_view dim) value)
    ]

-- The leaf dimension that a derived dimension reaches.
derived_leaf_key : Dimension → Result Error String
derived_leaf_key dim = elim (first_resolution dim.transitive) [
  | none ↦ err Error.stop_iteration
  | some r ↦ ok r.leaf_dimension
]

-- The three-way branch of `resolve_single_value` and of the loop of `resolve_filters`: the leaf
-- dimension's key and the leaf IDs.
unfoldable pub resolve_target : FilterTarget → String → Client → Result Error (String × List String)
unfolding resolve_leaf_filter resolve_derived_filter resolve_ragged_filter derived_leaf_key
resolve_target target value client =
    let dim = target.dimension in
    elim target.resolution_type [
      | leaf ↦ resolve_leaf_filter dim value client >>= λ leaves. ok (dim.key, leaves)
      | derived ↦ resolve_derived_filter dim value client >>= λ leaves.
          derived_leaf_key dim >>= λ leaf_dim_key. ok (leaf_dim_key, leaves)
      | ragged ↦
          resolve_ragged_filter dim value client >>= λ leaves. ok (dim.leaf_dimension, leaves)
    ]

unfoldable pub resolve_single_value :
    String → String → Catalogue → Client → Result Error (String × List String)
unfolding find_filter_target resolve_target
resolve_single_value filter_key filter_value catalogue client = do
  target ← find_filter_target filter_key catalogue
  resolved ← resolve_target target filter_value client
  raise_if (is_empty resolved.1) filter_resolution
  ok resolved
