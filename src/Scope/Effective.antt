-- ===== src/Scope/Effective.antt =====
-- The effective sets of a dimension scope: allow side (or everything) without the deny side.
use precis_finance_mcp.Common.{
  String, ◌≡◌, refl, Bool, true, false, ◌&&◌, ◌||◌, not, some, List, [], ◌∷◌, ◌++◌, arith,
  if◌then◌else◌, mem, diff, mem-diff, union, mem-union, keep, mem-keep, mem-append, eq_refl,
  mem-keys, keys, Dict, lookup, has_key, lookup-has_key, Distinct, Result, ok, err, >>=-eq-ok,
  ok-injective, ap, sym, ◌∙◌, text_cases, inl, inr, Option-cases, subst,
}
use precis_finance_mcp.Catalogue.{Error, Catalogue, Client}
use precis_finance_mcp.Auth.{DimensionScope}
use precis_finance_mcp.Scope.{
  items_of, all_leaf_ids, allow_set, effective_sets, resolve_scope_members,
  resolve_scope_members_from, resolve_dimension_scope,
}
use precis_finance_mcp.Scope.Members.{
  mentions, allows, denies, resolve_scope_members-allows, resolve_scope_members-denies,
  has_key-resolve_scope_members, resolve_scope_members-Distinct,
}

module _ (catalogue : Catalogue) (client : Client) where
  -- The universe of a leaf dimension has the ID.
  abbrev pub answered : String → Result Error (List String) → Bool
  answered x (ok ids) = mem x ids
  answered x (err _) = false

  abbrev pub in_universe : String → String → Bool
  in_universe leaf x = answered x (all_leaf_ids leaf catalogue client)

  -- The meaning of the two sides for one leaf dimension that they mention: the allow side where it
  -- mentions the dimension, and everything where it is silent, without what the deny side lists.
  abbrev pub visible : DimensionScope → String → String → Bool
  visible dims leaf x =
      (if mentions catalogue client leaf (items_of dims.allow)
        then allows catalogue client leaf x (items_of dims.allow)
        else in_universe leaf x)
      && not (denies catalogue client leaf x (items_of dims.deny))

  effective_sets-lookup :
      (leaf_dim_keys : List String) (allow deny : Dict (List String)) {sets : Dict (List String)}
      (leaf : String)
      → effective_sets leaf_dim_keys allow deny catalogue client ≡ ok sets
      → mem leaf leaf_dim_keys ≡ true
      → (a : List String) × (allow_set allow leaf catalogue client ≡ ok a)
        × (lookup leaf sets ≡ some (diff a (items_of (lookup leaf deny))))
  unfolding effective_sets
  effective_sets-lookup [] allow deny leaf h m = cc
  effective_sets-lookup (k ∷ ks) allow deny leaf h m =
      let (a, own, h₁) = >>=-eq-ok (allow_set allow k catalogue client) _ h in
      let (rest, later, answer) = >>=-eq-ok (effective_sets ks allow deny catalogue client) _ h₁ in
      elim (text_cases k leaf) [
        | inl (e, t) ↦ (a, rw (← e) own, rw (← ok-injective answer, t) (rw (← e) refl))
        | inr ne ↦
            let (b, allowed, found) = effective_sets-lookup ks allow deny leaf later (rw ne at m) in
            (b, allowed, rw (← ok-injective answer, ne) found)
      ]

  effective_sets-has_key :
      (leaf_dim_keys : List String) (allow deny : Dict (List String)) {sets : Dict (List String)}
      (leaf : String)
      → effective_sets leaf_dim_keys allow deny catalogue client ≡ ok sets
      → has_key leaf sets ≡ mem leaf leaf_dim_keys
  unfolding effective_sets
  effective_sets-has_key [] allow deny leaf h = ground arith
  effective_sets-has_key (k ∷ ks) allow deny leaf h =
      let (a, own, h₁) = >>=-eq-ok (allow_set allow k catalogue client) _ h in
      let (rest, later, answer) = >>=-eq-ok (effective_sets ks allow deny catalogue client) _ h₁ in
      rw (← ok-injective answer) (ground (arith, effective_sets-has_key ks allow deny leaf later))

  module _ (dims : DimensionScope) (leaf : String) where
    allow_side :
        (resolved : Dict (List String)) (a : List String) (x : String)
        → resolve_scope_members_from true (items_of dims.allow) catalogue client [] ≡ ok resolved
        → allow_set resolved leaf catalogue client ≡ ok a
        → mem x a ≡ (
            if mentions catalogue client leaf (items_of dims.allow)
            then allows catalogue client leaf x (items_of dims.allow)
            else in_universe leaf x)
    unfolding allow_set
    allow_side resolved a x made own =
        let there =
          has_key-resolve_scope_members catalogue client true (items_of dims.allow) [] leaf made in
        let passed =
          resolve_scope_members-allows catalogue client (items_of dims.allow) [] leaf x made in
        elim (Option-cases (lookup leaf resolved)) [
          | inl silent ↦
              let everything : all_leaf_ids leaf catalogue client ≡ ok a =
                rw (silent, allow_set) at own in
              let unsaid : mentions catalogue client leaf (items_of dims.allow) ≡ false =
                sym there ∙ lookup-has_key leaf resolved ∙ rw silent in
              rw unsaid (ap (answered x) (sym everything))
          | inr (ids, found) ↦
              let said : mentions catalogue client leaf (items_of dims.allow) ≡ true =
                sym there ∙ lookup-has_key leaf resolved ∙ rw found in
              let same : ids ≡ a = ok-injective (rw (found, allow_set) at own) in
              rw (said, ← same) (rw found at passed)
        ]

    pub resolve_dimension_scope-visible :
        (sets : Dict (List String))
        → resolve_dimension_scope dims catalogue client ≡ ok sets
        → (mentions catalogue client leaf (items_of dims.allow)
            || mentions catalogue client leaf (items_of dims.deny))
          ≡ true
        → (ids : List String) × (lookup leaf sets ≡ some ids)
          × ((x : String) → mem x ids ≡ visible dims leaf x)
    unfolding resolve_dimension_scope
    resolve_dimension_scope-visible sets h said =
        let (allow, made_allow, h₁) =
          >>=-eq-ok (resolve_scope_members true dims.allow catalogue client) _ h in
        let (deny, made_deny, h₂) =
          >>=-eq-ok (resolve_scope_members false dims.deny catalogue client) _ h₁ in
        let a_there =
          has_key-resolve_scope_members catalogue client true (items_of dims.allow) [] leaf
            made_allow in
        let d_there =
          has_key-resolve_scope_members catalogue client false (items_of dims.deny) [] leaf
            made_deny in
        let among : mem leaf (union (keys allow) (keys deny)) ≡ true = ground (
          arith,
          mem-union leaf (keys allow) (keys deny),
          mem-keys leaf allow,
          mem-keys leaf deny,
          a_there,
          d_there,
          said,
        ) in
        let (a, own, found) =
          effective_sets-lookup (union (keys allow) (keys deny)) allow deny leaf h₂ among in
        (
          diff a (items_of (lookup leaf deny)),
          found,
          λ x. ground (
            arith,
            mem-diff x a (items_of (lookup leaf deny)),
            allow_side allow a x made_allow own,
            resolve_scope_members-denies catalogue client (items_of dims.deny) [] leaf x made_deny,
          ),
        )

  -- A list of keys in which none stands twice.
  abbrev NoRepeat : List String → Type 0
  NoRepeat [] = Unit
  NoRepeat (x ∷ xs) = (mem x xs ≡ false) × NoRepeat xs

  keys-NoRepeat : (d : Dict (List String)) → Distinct d → NoRepeat (keys d)
  keys-NoRepeat [] h = tt
  keys-NoRepeat ((k, v) ∷ d) h = (mem-keys k d ∙ h.0, keys-NoRepeat d h.1)

  keep-NoRepeat : (p : String → Bool) (xs : List String) → NoRepeat xs → NoRepeat (keep p xs)
  keep-NoRepeat p [] h = tt
  keep-NoRepeat p (x ∷ xs) h = ground (arith, mem-keep p x xs, keep-NoRepeat p xs h.1)

  append-NoRepeat :
      (xs ys : List String)
      → NoRepeat xs
      → NoRepeat ys
      → ((x : String) → mem x xs ≡ true → mem x ys ≡ false)
      → NoRepeat (xs ++ ys)
  append-NoRepeat [] ys hx hy apart = hy
  append-NoRepeat (x ∷ xs) ys hx hy apart = (
    mem-append x xs ys ∙ rw (hx.0, apart x (simp eq_refl)),
    append-NoRepeat xs ys hx.1 hy (λ z there. apart z (rw there (ground arith))),
  )

  union-NoRepeat : (xs ys : List String) → NoRepeat xs → NoRepeat ys → NoRepeat (union xs ys)
  union-NoRepeat xs ys hx hy =
      append-NoRepeat xs (diff ys xs) hx (keep-NoRepeat (λ x. not (mem x xs)) ys hy)
        (λ x there. mem-diff x ys xs ∙ rw there (ground arith))

  effective_sets-Distinct :
      (leaf_dim_keys : List String) (allow deny : Dict (List String)) {sets : Dict (List String)}
      → NoRepeat leaf_dim_keys
      → effective_sets leaf_dim_keys allow deny catalogue client ≡ ok sets
      → Distinct sets
  unfolding effective_sets
  effective_sets-Distinct [] allow deny h made = subst Distinct (ok-injective made) tt
  effective_sets-Distinct (k ∷ ks) allow deny h made =
      let (a, own, h₁) = >>=-eq-ok (allow_set allow k catalogue client) _ made in
      let (rest, later, answer) = >>=-eq-ok (effective_sets ks allow deny catalogue client) _ h₁ in
      subst Distinct (ok-injective answer) (
        effective_sets-has_key ks allow deny k later ∙ h.0,
        effective_sets-Distinct ks allow deny h.1 later,
      )

  pub resolve_dimension_scope-Distinct :
      (dims : DimensionScope) (sets : Dict (List String))
      → resolve_dimension_scope dims catalogue client ≡ ok sets
      → Distinct sets
  unfolding resolve_dimension_scope
  resolve_dimension_scope-Distinct dims sets h =
      let (allow, made_allow, h₁) =
        >>=-eq-ok (resolve_scope_members true dims.allow catalogue client) _ h in
      let (deny, made_deny, h₂) =
        >>=-eq-ok (resolve_scope_members false dims.deny catalogue client) _ h₁ in
      effective_sets-Distinct (union (keys allow) (keys deny)) allow deny
        (union-NoRepeat (keys allow) (keys deny)
          (keys-NoRepeat allow (
            resolve_scope_members-Distinct catalogue client true (items_of dims.allow) [] tt
              made_allow))
          (keys-NoRepeat deny (
            resolve_scope_members-Distinct catalogue client false (items_of dims.deny) [] tt
              made_deny)))
        h₂

  pub resolve_dimension_scope-has_key :
      (dims : DimensionScope) (sets : Dict (List String)) (leaf : String)
      → resolve_dimension_scope dims catalogue client ≡ ok sets
      → has_key leaf sets ≡ (
          mentions catalogue client leaf (items_of dims.allow)
          || mentions catalogue client leaf (items_of dims.deny))
  unfolding resolve_dimension_scope
  resolve_dimension_scope-has_key dims sets leaf h =
      let (allow, made_allow, h₁) =
        >>=-eq-ok (resolve_scope_members true dims.allow catalogue client) _ h in
      let (deny, made_deny, h₂) =
        >>=-eq-ok (resolve_scope_members false dims.deny catalogue client) _ h₁ in
      ground (
        arith,
        effective_sets-has_key (union (keys allow) (keys deny)) allow deny leaf h₂,
        mem-union leaf (keys allow) (keys deny),
        mem-keys leaf allow,
        mem-keys leaf deny,
        has_key-resolve_scope_members catalogue client true (items_of dims.allow) [] leaf
            made_allow,
        has_key-resolve_scope_members catalogue client false (items_of dims.deny) [] leaf made_deny,
      )
