-- ===== src/Scope/Members.antt =====
-- What a side of a dimension scope resolves to: on the allow side the IDs that every axis of a leaf
-- dimension lists, on the deny side those that some axis lists.
use precis_finance_mcp.Common.{
  String, ◌≡◌, Bool, true, false, ◌&&◌, ◌||◌, List, [], ◌∷◌, ◌==◌, eq_iff, arith, if◌then◌else◌,
  mem, mem-inter, union, mem-union, Dict, lookup, has_key, lookup-put, has_key-put, Distinct,
  put-Distinct, Result, ok, err, ◌>>=◌, >>=-eq-ok, ok-injective, sym, inl, inr, Option-cases, subst,
}
use precis_finance_mcp.Catalogue.{Error, Catalogue, Client}
use precis_finance_mcp.Filters.{FilterTarget, find_filter_target, resolve_target}
use precis_finance_mcp.Scope.{
  items_of, axis_leaf_key, resolve_axis, combine_axis, resolve_scope_axis,
  resolve_scope_members_from,
}
use precis_finance_mcp.Scope.Merge.{passes_ids}

module _ (catalogue : Catalogue) (client : Client) where
  -- An ID is among the leaves of a value.
  abbrev pub leaf_of : String → Result Error (String × List String) → Bool
  leaf_of x (ok (_, leaves)) = mem x leaves
  leaf_of x (err _) = false

  -- An ID is among the leaves of some value of an axis.
  abbrev pub lists : FilterTarget → List String → String → Bool
  lists target [] x = false
  lists target (value ∷ values) x =
      leaf_of x (resolve_target target value client) || lists target values x

  resolve_axis-lists :
      (target : FilterTarget) (values acc : List String) (x : String) {ids : List String}
      → resolve_axis target values client acc ≡ ok ids
      → mem x ids ≡ (mem x acc || lists target values x)
  unfolding resolve_axis
  resolve_axis-lists target [] acc x h = ground arith
  resolve_axis-lists target (value ∷ values) acc x h =
      let (resolved, own, rest) = >>=-eq-ok (resolve_target target value client) _ h in
      ground (
        arith,
        resolve_axis-lists target values (union acc resolved.1) x rest,
        mem-union x acc resolved.1,
      )

  -- The leaf dimension of an axis, and the axis.
  abbrev pub axis_target : String → Result Error (FilterTarget × String)
  axis_target dim_key = find_filter_target dim_key catalogue >>= λ target.
      axis_leaf_key target >>= λ leaf_dim_key. ok (target, leaf_dim_key)

  abbrev pub reaches_by : String → Result Error (FilterTarget × String) → Bool
  reaches_by leaf (ok (_, l)) = l == leaf
  reaches_by leaf (err _) = false

  -- Some axis of the members is of the leaf dimension.
  abbrev pub mentions : String → Dict (List String) → Bool
  mentions leaf [] = false
  mentions leaf ((dim_key, _) ∷ members) =
      reaches_by leaf (axis_target dim_key) || mentions leaf members

  abbrev pub allows_by : String → String → List String → Result Error (FilterTarget × String) → Bool
  allows_by leaf x values (ok (target, l)) = if l == leaf then lists target values x else true
  allows_by leaf x values (err _) = true

  -- Every axis of the leaf dimension lists the ID.
  abbrev pub allows : String → String → Dict (List String) → Bool
  allows leaf x [] = true
  allows leaf x ((dim_key, values) ∷ members) =
      allows_by leaf x values (axis_target dim_key) && allows leaf x members

  abbrev pub denies_by : String → String → List String → Result Error (FilterTarget × String) → Bool
  denies_by leaf x values (ok (target, l)) = if l == leaf then lists target values x else false
  denies_by leaf x values (err _) = false

  -- Some axis of the leaf dimension lists the ID.
  abbrev pub denies : String → String → Dict (List String) → Bool
  denies leaf x [] = false
  denies leaf x ((dim_key, values) ∷ members) =
      denies_by leaf x values (axis_target dim_key) || denies leaf x members

  -- A resolved axis, taken apart.
  resolve_scope_axis-eq-ok :
      (b : Bool) (dim_key : String) (values : List String) (ls : Dict (List String))
      {ls' : Dict (List String)}
      → resolve_scope_axis b dim_key values catalogue client ls ≡ ok ls'
      → (target : FilterTarget) × (l : String) × (ids : List String) × (axis_target dim_key
          ≡ ok (target, l))
        × ((x : String) → mem x ids ≡ lists target values x)
        × (ls' ≡ combine_axis b l ids ls)
  unfolding resolve_scope_axis
  resolve_scope_axis-eq-ok b dim_key values ls h =
      let (target, found, h₁) = >>=-eq-ok (find_filter_target dim_key catalogue) _ h in
      let (l, key, h₂) = >>=-eq-ok (axis_leaf_key target) _ h₁ in
      let (ids, own, h₃) = >>=-eq-ok (resolve_axis target values client []) _ h₂ in
      (
        target,
        l,
        ids,
        rw (found, ◌>>=◌, key, ◌>>=◌),
        λ x. resolve_axis-lists target values [] x own,
        sym (ok-injective h₃),
      )

  passes-combine_axis :
      (l : String) (ids : List String) (ls : Dict (List String)) (leaf x : String)
      → passes_ids (lookup leaf (combine_axis true l ids ls)) x
        ≡ (passes_ids (lookup leaf ls) x && (if l == leaf then mem x ids else true))
  unfolding combine_axis
  passes-combine_axis l ids ls leaf x = elim (Option-cases (lookup l ls)) [
    | inl new ↦ rw (new, combine_axis, lookup-put) (ground (arith, eq_iff l leaf, new))
    | inr (old, known) ↦
        rw (known, combine_axis, lookup-put)
          (ground (arith, eq_iff l leaf, known, mem-inter x old ids))
  ]

  mem-combine_axis :
      (l : String) (ids : List String) (ls : Dict (List String)) (leaf x : String)
      → mem x (items_of (lookup leaf (combine_axis false l ids ls)))
        ≡ (mem x (items_of (lookup leaf ls)) || (if l == leaf then mem x ids else false))
  unfolding combine_axis
  mem-combine_axis l ids ls leaf x = elim (Option-cases (lookup l ls)) [
    | inl new ↦ rw (new, combine_axis, lookup-put) (ground (arith, eq_iff l leaf, new))
    | inr (old, known) ↦
        rw (known, combine_axis, lookup-put)
          (ground (arith, eq_iff l leaf, known, mem-union x old ids))
  ]

  has_key-combine_axis :
      (b : Bool) (l : String) (ids : List String) (ls : Dict (List String)) (leaf : String)
      → has_key leaf (combine_axis b l ids ls) ≡ (l == leaf || has_key leaf ls)
  unfolding combine_axis
  has_key-combine_axis b l ids ls leaf = has_key-put l leaf _ ls

  -- Allow axes: what passes is what passed before and every axis allows.
  pub resolve_scope_members-allows :
      (members ls : Dict (List String)) {ls' : Dict (List String)} (leaf x : String)
      → resolve_scope_members_from true members catalogue client ls ≡ ok ls'
      → passes_ids (lookup leaf ls') x ≡ (passes_ids (lookup leaf ls) x && allows leaf x members)
  unfolding resolve_scope_members_from
  resolve_scope_members-allows [] ls leaf x h = ground arith
  resolve_scope_members-allows ((dim_key, values) ∷ members) ls leaf x h =
      let (ls₁, first, rest) =
        >>=-eq-ok (resolve_scope_axis true dim_key values catalogue client ls) _ h in
      let (target, l, ids, axis, listed, step) =
        resolve_scope_axis-eq-ok true dim_key values ls first in
      rw axis (
        ground (
          arith,
          resolve_scope_members-allows members ls₁ leaf x rest,
          passes-combine_axis l ids ls leaf x,
          listed x,
        ))

  -- Deny axes: what is listed is what was listed before or some axis lists.
  pub resolve_scope_members-denies :
      (members ls : Dict (List String)) {ls' : Dict (List String)} (leaf x : String)
      → resolve_scope_members_from false members catalogue client ls ≡ ok ls'
      → mem x (items_of (lookup leaf ls'))
        ≡ (mem x (items_of (lookup leaf ls)) || denies leaf x members)
  unfolding resolve_scope_members_from
  resolve_scope_members-denies [] ls leaf x h = ground arith
  resolve_scope_members-denies ((dim_key, values) ∷ members) ls leaf x h =
      let (ls₁, first, rest) =
        >>=-eq-ok (resolve_scope_axis false dim_key values catalogue client ls) _ h in
      let (target, l, ids, axis, listed, step) =
        resolve_scope_axis-eq-ok false dim_key values ls first in
      rw axis (
        ground (
          arith,
          resolve_scope_members-denies members ls₁ leaf x rest,
          mem-combine_axis l ids ls leaf x,
          listed x,
        ))

  pub has_key-resolve_scope_members :
      (b : Bool) (members ls : Dict (List String)) {ls' : Dict (List String)} (leaf : String)
      → resolve_scope_members_from b members catalogue client ls ≡ ok ls'
      → has_key leaf ls' ≡ (has_key leaf ls || mentions leaf members)
  unfolding resolve_scope_members_from
  has_key-resolve_scope_members b [] ls leaf h = ground arith
  has_key-resolve_scope_members b ((dim_key, values) ∷ members) ls leaf h =
      let (ls₁, first, rest) =
        >>=-eq-ok (resolve_scope_axis b dim_key values catalogue client ls) _ h in
      let (target, l, ids, axis, listed, step) =
        resolve_scope_axis-eq-ok b dim_key values ls first in
      rw axis (
        ground (
          arith,
          has_key-resolve_scope_members b members ls₁ leaf rest,
          has_key-combine_axis b l ids ls leaf,
        ))

  pub resolve_scope_members-Distinct :
      (b : Bool) (members ls : Dict (List String)) {ls' : Dict (List String)}
      → Distinct ls
      → resolve_scope_members_from b members catalogue client ls ≡ ok ls'
      → Distinct ls'
  unfolding resolve_scope_members_from
  resolve_scope_members-Distinct b [] ls d h = subst Distinct (ok-injective h) d
  resolve_scope_members-Distinct b ((dim_key, values) ∷ members) ls d h =
      let (ls₁, first, rest) =
        >>=-eq-ok (resolve_scope_axis b dim_key values catalogue client ls) _ h in
      let (target, l, ids, axis, listed, step) =
        resolve_scope_axis-eq-ok b dim_key values ls first in
      resolve_scope_members-Distinct b members ls₁
        (rw step (unfold combine_axis in put-Distinct l _ ls d)) rest
