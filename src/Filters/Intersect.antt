-- ===== src/Filters/Intersect.antt =====
-- What `resolve_filters` answers: for each leaf dimension that a filter reaches, the IDs that every
-- filter reaching it allows.
use precis_finance_mcp.Common.{
  String, ◌≡◌, Bool, true, false, some, List, [], ◌∷◌, ◌++◌, ◌==◌, eq_iff, arith, ◌&&◌, ◌||◌,
  if◌then◌else◌, mem, inter, mem-inter, mem-to_set, all, Dict, lookup, has_key, lookup-put,
  has_key-put, lookup-has_key, put-Distinct, Distinct, Result, ok, err, ◌>>=◌, >>=-eq-ok, raise_if,
  is_empty, ap, sym, ◌∙◌, to_set, Option-cases, inl, inr, subst, ok-injective,
}
use precis_finance_mcp.Common.Sort.{sort, mem-sort}
use precis_finance_mcp.Catalogue.{Error, filter_resolution, Dimension, Catalogue, Client}
use precis_finance_mcp.Filters.{
  FilterTarget, find_filter_target, resolve_target, resolve_single_value,
}
use precis_finance_mcp.Filters.Column.{map_to_view_column, assign_columns, assign_columns_decides}
use precis_finance_mcp.Filters.Resolve.{
  Collected, collected_nothing, sets_of, collect_leaves, collect_filter, collect_filters,
  intersect_all, filter_entry, resolve_filters,
}

module _ (catalogue : Catalogue) (client : Client) where
  -- A filter reaches a leaf dimension, or allows an ID of it, as `resolve_single_value` says.
  abbrev pub reaches_by : String → Result Error (String × List String) → Bool
  reaches_by leaf (ok (l, leaves)) = l == leaf
  reaches_by leaf (err _) = false

  abbrev pub allows_by : String → String → Result Error (String × List String) → Bool
  allows_by leaf x (ok (l, leaves)) = if l == leaf then mem x leaves else true
  allows_by leaf x (err _) = true

  abbrev pub reached : String → Dict String → Bool
  reached leaf [] = false
  reached leaf ((k, v) ∷ filters) =
      reaches_by leaf (resolve_single_value k v catalogue client) || reached leaf filters

  abbrev pub allowed : String → String → Dict String → Bool
  allowed leaf x [] = true
  allowed leaf x ((k, v) ∷ filters) =
      allows_by leaf x (resolve_single_value k v catalogue client) && allowed leaf x filters

  -- A collected filter resolved, and added its leaves.
  pub collect_filter-eq-ok :
      (k v : String) (st : Collected) {st' : Collected}
      → collect_filter k v catalogue client st ≡ ok st'
      → (target : FilterTarget) × (r : String × List String) × (find_filter_target k catalogue
          ≡ ok target)
        × (resolve_single_value k v catalogue client ≡ ok r)
        × (st' ≡ collect_leaves target.dimension r.0 r.1 st)
  unfolding collect_filter resolve_single_value
  collect_filter-eq-ok k v st h =
      let (target, found, h₁) = >>=-eq-ok (find_filter_target k catalogue) _ h in
      let (r, resolved, h₂) = >>=-eq-ok (resolve_target target v client) _ h₁ in
      let (_, checked, h₃) = >>=-eq-ok (raise_if (is_empty r.1) filter_resolution) _ h₂ in
      (target, r, found, rw (found, ◌>>=◌, resolved, ◌>>=◌, checked), cc)

  all-snoc :
      (p : List String → Bool) (xs : List (List String)) (y : List String)
      → all p (xs ++ y ∷ []) ≡ (all p xs && p y)
  all-snoc p [] y = ground arith
  all-snoc p (x ∷ xs) y = ground (arith, all-snoc p xs y)

  abbrev pub in_all : String → String → Collected → Bool
  in_all leaf x st = all (mem x) (sets_of (lookup leaf st.leaf_sets))

  in_all-collect_leaves :
      (dim : Dimension) (l : String) (leaves : List String) (st : Collected) (leaf x : String)
      → in_all leaf x (collect_leaves dim l leaves st)
        ≡ (in_all leaf x st && (if l == leaf then mem x leaves else true))
  unfolding collect_leaves
  in_all-collect_leaves dim l leaves st leaf x =
      let old = sets_of (lookup l st.leaf_sets) in
      ground (
        arith,
        eq_iff l leaf,
        lookup-put l leaf (old ++ to_set leaves ∷ []) st.leaf_sets,
        all-snoc (mem x) old (to_set leaves),
        mem-to_set x leaves,
      )

  in_all-collect_filters :
      (filters : Dict String) (st : Collected) {st' : Collected} (leaf x : String)
      → collect_filters filters catalogue client st ≡ ok st'
      → in_all leaf x st' ≡ (in_all leaf x st && allowed leaf x filters)
  unfolding collect_filters
  in_all-collect_filters [] st leaf x h = ground arith
  in_all-collect_filters ((k, v) ∷ filters) st leaf x h =
      let (st₁, first, rest) = >>=-eq-ok (collect_filter k v catalogue client st) _ h in
      let (target, r, _, resolved, step) = collect_filter-eq-ok k v st first in
      ground (
        arith,
        in_all-collect_filters filters st₁ leaf x rest,
        in_all-collect_leaves target.dimension r.0 r.1 st leaf x,
      )

  has_key-collect_filters :
      (filters : Dict String) (st : Collected) {st' : Collected} (leaf : String)
      → collect_filters filters catalogue client st ≡ ok st'
      → has_key leaf st'.leaf_sets ≡ (has_key leaf st.leaf_sets || reached leaf filters)
  unfolding collect_filters collect_leaves
  has_key-collect_filters [] st leaf h = ground arith
  has_key-collect_filters ((k, v) ∷ filters) st leaf h =
      let (st₁, first, rest) = >>=-eq-ok (collect_filter k v catalogue client st) _ h in
      let (target, r, _, resolved, step) = collect_filter-eq-ok k v st first in
      let old = sets_of (lookup r.0 st.leaf_sets) in
      ground (
        arith,
        has_key-collect_filters filters st₁ leaf rest,
        has_key-put r.0 leaf (old ++ to_set r.1 ∷ []) st.leaf_sets,
        step,
      )

  module _ (domain : String) (column : String → String) where
    -- A resolved filter is mapped to the column of its leaf dimension.
    abbrev pub MapsTo : String → String → Type 0
    MapsTo k v =
        (target : FilterTarget) (r : String × List String)
        → find_filter_target k catalogue ≡ ok target
        → resolve_single_value k v catalogue client ≡ ok r
        → map_to_view_column target.dimension catalogue domain ≡ column r.0

    abbrev pub AllMapTo : Dict String → Type 0
    AllMapTo [] = Unit
    AllMapTo ((k, v) ∷ filters) = MapsTo k v × AllMapTo filters

    -- Each leaf dimension that is there has sets, and a dimension for the mapping.
    record IsReady (st : Collected) : Type 0 where
      distinct : Distinct st.leaf_sets
      filled : (leaf : String) → lookup leaf st.leaf_sets ≡ some [] → ⊥
      known :
          (leaf : String)
          → has_key leaf st.leaf_sets ≡ true
          → has_key leaf st.dim_for_mapping ≡ true
      mapped :
          (leaf : String) (dim : Dimension)
          → lookup leaf st.dim_for_mapping ≡ some dim
          → map_to_view_column dim catalogue domain ≡ column leaf

    snoc-ne-nil {ℓ} : {A : Type ℓ} (xs : List A) (y : A) → xs ++ y ∷ [] ≡ [] → ⊥
    snoc-ne-nil [] y h = cc
    snoc-ne-nil (x ∷ xs) y h = cc

    collect_leaves-IsReady :
        (dim : Dimension) (l : String) (leaves : List String) (st : Collected)
        → map_to_view_column dim catalogue domain ≡ column l
        → IsReady st
        → IsReady (collect_leaves dim l leaves st)
    unfolding collect_leaves
    collect_leaves-IsReady dim l leaves st m h =
        let sets = sets_of (lookup l st.leaf_sets) ++ to_set leaves ∷ [] in
        record {
          distinct = put-Distinct l sets st.leaf_sets h.distinct;
          filled = λ leaf empty. ground (
            arith,
            lookup-put l leaf sets st.leaf_sets,
            snoc-ne-nil (sets_of (lookup l st.leaf_sets)) (to_set leaves),
            h.filled leaf,
          );
          known = λ leaf there. ground (
            arith,
            eq_iff l leaf,
            has_key-put l leaf sets st.leaf_sets,
            has_key-put l leaf dim st.dim_for_mapping,
            h.known leaf,
          );
          mapped = λ leaf d found.
              ground
                (arith, eq_iff l leaf, lookup-put l leaf dim st.dim_for_mapping, h.mapped leaf d);
        }

    nothing-IsReady : IsReady collected_nothing
    nothing-IsReady = record {
      distinct = tt;
      filled = λ leaf h. cc;
      known = λ leaf h. cc;
      mapped = λ leaf dim h. cc;
    }

    collect_filters-IsReady :
        (filters : Dict String) (st : Collected) {st' : Collected}
        → AllMapTo filters
        → IsReady st
        → collect_filters filters catalogue client st ≡ ok st'
        → IsReady st'
    unfolding collect_filters
    collect_filters-IsReady [] st maps ready h = subst IsReady (ok-injective h) ready
    collect_filters-IsReady ((k, v) ∷ filters) st maps ready h =
        let (st₁, first, rest) = >>=-eq-ok (collect_filter k v catalogue client st) _ h in
        let (target, r, found, resolved, step) = collect_filter-eq-ok k v st first in
        let ready₁ : IsReady st₁ = rw step (
          collect_leaves-IsReady target.dimension r.0 r.1 st (maps.0 target r found resolved)
            ready) in
        collect_filters-IsReady filters st₁ maps.1 ready₁ rest

    mem-intersect_all :
        (x : String) (acc : List String) (sets : List (List String))
        → mem x (intersect_all acc sets) ≡ (mem x acc && all (mem x) sets)
    mem-intersect_all x acc [] = ground arith
    mem-intersect_all x acc (s ∷ sets) =
        ground (arith, mem-intersect_all x (inter acc s) sets, mem-inter x acc s)

    -- An entry of the second loop, for a leaf dimension that is ready.
    entry_at :
        (st : Collected) (leaf : String) (s : List String) (sets : List (List String))
        → IsReady st
        → has_key leaf st.leaf_sets ≡ true
        → filter_entry st.dim_for_mapping catalogue domain leaf (s ∷ sets)
          ≡ some (column leaf, sort (intersect_all s sets))
    unfolding filter_entry
    entry_at st leaf s sets ready there = elim (Option-cases (lookup leaf st.dim_for_mapping)) [
      | inl missing ↦ ground (arith, ready.known leaf there, lookup-has_key leaf st.dim_for_mapping)
      | inr (dim, found) ↦
          rw (found, filter_entry)
            (ap (λ (c : String). some (c, sort (intersect_all s sets)))
              (ready.mapped leaf dim found))
    ]

    entry_column :
        (st : Collected) (leaf c : String) (sets : List (List String)) (ids : List String)
        → IsReady st
        → filter_entry st.dim_for_mapping catalogue domain leaf sets ≡ some (c, ids)
        → c ≡ column leaf
    unfolding filter_entry
    entry_column st leaf c [] ids ready h = cc
    entry_column st leaf c (s ∷ sets) ids ready h =
        elim (Option-cases (lookup leaf st.dim_for_mapping)) [
          | inl missing ↦ ground arith
          | inr (dim, found) ↦ ground (arith, ready.mapped leaf dim found)
        ]

    -- What a leaf dimension's column is in the answer.
    abbrev ColumnHolds : Collected → String → Type 0
    ColumnHolds st leaf =
        (ids : List String) × (lookup (column leaf)
            (assign_columns (filter_entry st.dim_for_mapping catalogue domain) st.leaf_sets [])
          ≡ some ids)
        × ((x : String) → mem x ids ≡ in_all leaf x st)

    column_of_sets :
        (st : Collected) (leaf : String) (sets : List (List String))
        → ((k : String) → has_key k st.leaf_sets ≡ true → column k ≡ column leaf → k ≡ leaf)
        → IsReady st
        → lookup leaf st.leaf_sets ≡ some sets
        → ColumnHolds st leaf
    column_of_sets st leaf [] apart ready found = absurd (ready.filled leaf found)
    column_of_sets st leaf (s ∷ sets) apart ready found = (
      sort (intersect_all s sets),
      assign_columns_decides (filter_entry st.dim_for_mapping catalogue domain) (column leaf) leaf
          (s ∷ sets) (sort (intersect_all s sets)) st.leaf_sets [] ready.distinct found
          (entry_at st leaf s sets ready (lookup-has_key leaf st.leaf_sets ∙ rw found))
          (λ k v ids there writes.
            apart k (lookup-has_key k st.leaf_sets ∙ rw there)
              (sym (entry_column st k (column leaf) v ids ready writes))),
      λ x. rw (mem-sort, found) (mem-intersect_all x s sets),
    )

    columns_of_ready :
        (st : Collected) (leaf : String)
        → ((k : String) → has_key k st.leaf_sets ≡ true → column k ≡ column leaf → k ≡ leaf)
        → IsReady st
        → has_key leaf st.leaf_sets ≡ true
        → ColumnHolds st leaf
    columns_of_ready st leaf apart ready there = elim (Option-cases (lookup leaf st.leaf_sets)) [
      | inl missing ↦ absurd (ground (arith, lookup-has_key leaf st.leaf_sets))
      | inr (sets, found) ↦ column_of_sets st leaf sets apart ready found
    ]

    -- If the filters resolve, each is mapped to the column of its leaf dimension, and a leaf dimension
    -- that some filter reaches shares its column with no other that is reached, then the answer
    -- filters that column, to exactly the IDs that all filters reaching the leaf dimension allow.
    pub resolve_filters-intersects :
        (k v : String) (filters : Dict String) {result : Dict (List String)} (leaf : String)
        → ((other : String)
            → reached other ((k, v) ∷ filters) ≡ true
            → column other ≡ column leaf
            → other ≡ leaf)
        → AllMapTo ((k, v) ∷ filters)
        → resolve_filters ((k, v) ∷ filters) catalogue client domain ≡ ok result
        → reached leaf ((k, v) ∷ filters) ≡ true
        → (ids : List String) × (lookup (column leaf) result ≡ some ids)
          × ((x : String) → mem x ids ≡ allowed leaf x ((k, v) ∷ filters))
    unfolding resolve_filters
    resolve_filters-intersects k v filters leaf apart maps h r =
        let (st, collected, answer) =
          >>=-eq-ok (collect_filters ((k, v) ∷ filters) catalogue client collected_nothing) _ h in
        let ready =
          collect_filters-IsReady ((k, v) ∷ filters) collected_nothing maps nothing-IsReady
            collected in
        let (ids, found, holds) =
          columns_of_ready st leaf
            (λ other there. apart other (
              sym (has_key-collect_filters ((k, v) ∷ filters) collected_nothing other collected)
              ∙ there))
            ready
            (has_key-collect_filters ((k, v) ∷ filters) collected_nothing leaf collected ∙ r) in
        (
          ids,
          rw (← ok-injective answer) found,
          λ x.
              holds x
              ∙ in_all-collect_filters ((k, v) ∷ filters) collected_nothing leaf x collected,
        )
