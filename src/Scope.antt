-- ===== src/Scope.antt =====
-- The scope enforcer (precis_mcp/engine/scope_enforcer.py): which domains a scope opens, and the leaf
-- IDs that it leaves visible on each dimension. Sets of dimension keys are run through in the order
-- of the allow side and then of the deny side; Python leaves that order open.
pub mod Resolve
pub mod Members
pub mod Effective
pub mod Visible
pub mod LeafSets
pub mod Merge
pub mod Cross
pub mod Normal
pub mod Agree
pub mod Union
pub mod Least
use precis_finance_mcp.Common.{
  String, Bool, true, false, not, ◌&&◌, Option, none, some, List, [], ◌∷◌, ◌++◌, ◌==◌,
  if◌then◌else◌, is_empty, mem, any, keep, to_set, inter, diff, union, Dict, lookup, put, keys,
  Result, ok, err, ◌>>=◌, ◌>>◌, raise_if,
}
use precis_finance_mcp.Common.Sort.{sort}
use precis_finance_mcp.Catalogue.{
  Error, scope_violation, DimensionSource, TransitiveResolution, Dimension, CubeDimension,
  DomainCatalogue, Catalogue, Query, Client,
}
use precis_finance_mcp.Auth.{DimensionScope, DomainScope, ScopeSpec}
use precis_finance_mcp.Filters.{
  ResolutionType, FilterTarget, find_filter_target, first_resolution, resolve_target,
}
use precis_finance_mcp.Filters.Column.{map_to_view_column, assign_columns}

-- A list or dict that may be absent: `for x in xs or []`, and its truth.
abbrev pub items_of {ℓ} : {A : Type ℓ} → Option (List A) → List A
items_of none = []
items_of (some xs) = xs

denies : DomainScope → String → Bool
denies doms domain = mem domain (items_of doms.deny)

shuts : DomainScope → String → Bool
shuts doms domain = elim doms.allow [ none ↦ false | some allow ↦ not (mem domain allow) ]

check_domains : DomainScope → String → Result Error (Unit {0})
unfolding denies shuts
check_domains doms domain =
    raise_if (denies doms domain) scope_violation >> raise_if (shuts doms domain) scope_violation

unfoldable pub check_domain_access : Option ScopeSpec → String → Result Error (Unit {0})
unfolding check_domains
check_domain_access none domain = ok tt
check_domain_access (some scope) domain = elim scope.domains [
  | none ↦ ok tt
  | some doms ↦ check_domains doms domain
]

-- `_all_leaf_ids`
unfoldable pub all_leaf_ids : String → Catalogue → Client → Result Error (List String)
all_leaf_ids dim_key catalogue client = elim (lookup dim_key catalogue.dimensions) [
  | none ↦ ok []
  | some dim ↦ elim dim.source [
    | none ↦ ok []
    | some source ↦
        client (Query.universe source.key_column source.table) >>= λ rows. ok (to_set rows)
  ]
]

-- The leaf dimension that an axis of the scope restricts, before its members are resolved.
unfoldable pub axis_leaf_key : FilterTarget → Result Error String
axis_leaf_key target =
    let dim = target.dimension in
    elim target.resolution_type [
      | ResolutionType.leaf ↦ ok dim.key
      | ResolutionType.derived ↦ elim (first_resolution dim.transitive) [
        | none ↦ err scope_violation
        | some r ↦ ok r.leaf_dimension
      ]
      | ResolutionType.ragged ↦ ok dim.leaf_dimension
    ]

-- The loop over an axis's values. Each value sets `leaf_dim_key` again, to the same key.
unfoldable pub resolve_axis :
    FilterTarget → List String → Client → List String → Result Error (List String)
unfolding resolve_target
resolve_axis target [] client axis_members = ok axis_members
resolve_axis target (value ∷ values) client axis_members =
    resolve_target target value client >>= λ resolved.
    resolve_axis target values client (union axis_members resolved.1)

-- Allow axes of one leaf dimension are intersected, deny axes united.
unfoldable pub combine_axis : Bool → String → List String → Dict (List String) → Dict (List String)
combine_axis intersect_axes leaf_dim_key axis_members leaf_sets =
    put leaf_dim_key
      (elim (lookup leaf_dim_key leaf_sets) [
        | none ↦ axis_members
        | some ids ↦ if intersect_axes then inter ids axis_members else union ids axis_members
      ])
      leaf_sets

unfoldable pub resolve_scope_axis :
    Bool
    → String
    → List String
    → Catalogue
    → Client
    → Dict (List String)
    → Result Error (Dict (List String))
unfolding find_filter_target axis_leaf_key resolve_axis combine_axis
resolve_scope_axis intersect_axes dim_key values catalogue client leaf_sets = do
  target ← find_filter_target dim_key catalogue
  leaf_dim_key ← axis_leaf_key target
  axis_members ← resolve_axis target values client []
  ok (combine_axis intersect_axes leaf_dim_key axis_members leaf_sets)

unfoldable pub resolve_scope_members_from :
    Bool
    → Dict (List String)
    → Catalogue
    → Client
    → Dict (List String)
    → Result Error (Dict (List String))
unfolding resolve_scope_axis
resolve_scope_members_from intersect_axes [] catalogue client leaf_sets = ok leaf_sets
resolve_scope_members_from intersect_axes ((dim_key, values) ∷ members) catalogue client leaf_sets =
    resolve_scope_axis intersect_axes dim_key values catalogue client leaf_sets
    >>= resolve_scope_members_from intersect_axes members catalogue client

-- `_resolve_scope_members`, on the members of a side, which may be absent.
unfoldable pub resolve_scope_members :
    Bool → Option (Dict (List String)) → Catalogue → Client → Result Error (Dict (List String))
unfolding resolve_scope_members_from
resolve_scope_members intersect_axes members catalogue client =
    resolve_scope_members_from intersect_axes (items_of members) catalogue client []

is_inline : String → List CubeDimension → Bool
is_inline key cds = any (λ cd. cd.key == key && (cd.source_inline && not cd.filterable)) cds

abbrev pub scoped_keys : DimensionScope → List String
scoped_keys dims = union (keys (items_of dims.allow)) (keys (items_of dims.deny))

-- `_reject_inline_dimension_scope`
unfoldable pub reject_inline_dimension_scope :
    Option DimensionScope → Catalogue → String → Result Error (Unit {0})
unfolding is_inline
reject_inline_dimension_scope none catalogue domain = ok tt
reject_inline_dimension_scope (some dims) catalogue domain =
    elim (lookup domain catalogue.domains) [
      | none ↦ ok tt
      | some domain_cat ↦
          raise_if (any (λ key. is_inline key domain_cat.dimensions) (scoped_keys dims))
            scope_violation
    ]

-- The allow set of a leaf dimension: what the allow side resolves to, or all its leaf IDs.
unfoldable pub allow_set :
    Dict (List String) → String → Catalogue → Client → Result Error (List String)
unfolding all_leaf_ids
allow_set allow_resolved leaf_dim_key catalogue client = elim (lookup leaf_dim_key allow_resolved) [
  | none ↦ all_leaf_ids leaf_dim_key catalogue client
  | some ids ↦ ok ids
]

-- `for leaf_dim_key in keys: result[leaf_dim_key] = allow_set - deny_set`
unfoldable pub effective_sets :
    List String
    → Dict (List String)
    → Dict (List String)
    → Catalogue
    → Client
    → Result Error (Dict (List String))
unfolding allow_set
effective_sets [] allow_resolved deny_resolved catalogue client = ok []
effective_sets (leaf_dim_key ∷ leaf_dim_keys) allow_resolved deny_resolved catalogue client = do
  allow ← allow_set allow_resolved leaf_dim_key catalogue client
  rest ← effective_sets leaf_dim_keys allow_resolved deny_resolved catalogue client
  ok ((leaf_dim_key, diff allow (items_of (lookup leaf_dim_key deny_resolved))) ∷ rest)

-- Both sides of a dimension scope, resolved and combined: the common part of
-- `resolve_scope_filters`, `resolve_scope_leaf_sets` and `union_read_member_sets`.
unfoldable pub resolve_dimension_scope :
    DimensionScope → Catalogue → Client → Result Error (Dict (List String))
unfolding resolve_scope_members effective_sets
resolve_dimension_scope dims catalogue client = do
  allow_resolved ← resolve_scope_members true dims.allow catalogue client
  deny_resolved ← resolve_scope_members false dims.deny catalogue client
  effective_sets (union (keys allow_resolved) (keys deny_resolved)) allow_resolved deny_resolved
      catalogue client

-- `not dims.allow and not dims.deny`
abbrev pub is_silent : DimensionScope → Bool
is_silent dims = is_empty (items_of dims.allow) && is_empty (items_of dims.deny)
