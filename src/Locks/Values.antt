-- ===== src/Locks/Values.antt =====
-- The values of one key of a lock condition all reach the same leaf dimension.
use precis_finance_mcp.Common.{
  String, ◌≡◌, refl, arith, Bool, false, ◌&&◌, ◌||◌, Option, none, some, List, [], ◌∷◌, ◌==◌,
  is_empty, mem, any, union, mem-union, Result, ok, err, >>=-eq-ok, ok-injective, ◌∙◌, ap, inl, inr,
  Bool-cases, Option-cases,
}
use precis_finance_mcp.Catalogue.{
  Error, stop_iteration, TransitiveResolution, Dimension, Catalogue, Client,
}
use precis_finance_mcp.Filters.{
  ResolutionType, FilterTarget, find_filter_target, first_resolution, resolve_leaf_filter,
  resolve_derived_filter, resolve_ragged_filter, resolve_target, resolve_single_value,
}
use precis_finance_mcp.Locks.{try_resolve, collect_values}

-- The leaf dimension of a target, where it has one.
abbrev pub target_leaf : FilterTarget → String
target_leaf target = elim target.resolution_type [
  | ResolutionType.leaf ↦ target.dimension.key
  | ResolutionType.derived ↦ elim (first_resolution target.dimension.transitive) [
    | none ↦ ""
    | some r ↦ r.leaf_dimension
  ]
  | ResolutionType.ragged ↦ target.dimension.leaf_dimension
]

abbrev first_leaf : Option TransitiveResolution → Result Error String
first_leaf o = elim o [ none ↦ err stop_iteration | some r ↦ ok r.leaf_dimension ]

first_leaf-eq-ok :
    (o : Option TransitiveResolution) {l : String}
    → first_leaf o ≡ ok l
    → l ≡ elim o [ none ↦ "" | some r ↦ r.leaf_dimension ]
first_leaf-eq-ok none h = cc
first_leaf-eq-ok (some r) h = cc

resolve_target-target_leaf :
    (dim : Dimension) (type : ResolutionType) (v : String) (client : Client)
    {r : String × List String}
    → resolve_target (record { dimension = dim; resolution_type = type }) v client ≡ ok r
    → r.0 ≡ target_leaf (record { dimension = dim; resolution_type = type })
unfolding resolve_target
resolve_target-target_leaf dim ResolutionType.leaf v client h =
    let (_, _, answer) = >>=-eq-ok (resolve_leaf_filter dim v client) _ h in
    rw (← ok-injective answer) refl
resolve_target-target_leaf dim ResolutionType.derived v client h =
    let (_, _, h₁) = >>=-eq-ok (resolve_derived_filter dim v client) _ h in
    let (l, is_leaf, answer) = >>=-eq-ok (first_leaf (first_resolution dim.transitive)) _ h₁ in
    rw (← ok-injective answer) (first_leaf-eq-ok (first_resolution dim.transitive) is_leaf)
resolve_target-target_leaf dim ResolutionType.ragged v client h =
    let (_, _, answer) = >>=-eq-ok (resolve_ragged_filter dim v client) _ h in
    rw (← ok-injective answer) refl

module _ (catalogue : Catalogue) (client : Client) where
  abbrev pub leaf_of_found : Result Error FilterTarget → String
  leaf_of_found (ok target) = target_leaf target
  leaf_of_found (err _) = ""

  abbrev pub key_leaf : String → String
  key_leaf key = leaf_of_found (find_filter_target key catalogue)

  pub resolve_single_value-key_leaf :
      (key v : String) {r : String × List String}
      → resolve_single_value key v catalogue client ≡ ok r
      → (r.0 ≡ key_leaf key) × (is_empty r.1 ≡ false)
  unfolding resolve_single_value
  resolve_single_value-key_leaf key v h =
      let (target, found, h₁) = >>=-eq-ok (find_filter_target key catalogue) _ h in
      let (r, resolved, h₂) = >>=-eq-ok (resolve_target target v client) _ h₁ in
      elim (Bool-cases (is_empty r.1)) [
        | inl nothing ↦ cc (rw nothing at h₂)
        | inr full ↦
            let same = ok-injective (rw full at h₂) in
            (
              rw (found, ← same)
                  (resolve_target-target_leaf target.dimension target.resolution_type v client
                    resolved),
              rw (← same) full,
            )
      ]

  module _ (leaf : String) where
    -- One value reaches the leaf dimension, or lists an ID of it.
    abbrev pub value_reaches : Result Error (String × List String) → Bool
    value_reaches (ok r) = r.0 == leaf
    value_reaches (err _) = false

    abbrev pub value_lists : String → Result Error (String × List String) → Bool
    value_lists x (ok r) = r.0 == leaf && mem x r.1
    value_lists x (err _) = false

    pub passed_over :
        (tried : Result Error (String × List String))
        → try_resolve tried ≡ ok none
        → (value_reaches tried ≡ false) × ((x : String) → value_lists x tried ≡ false)
    unfolding try_resolve
    passed_over (ok r) h = cc
    passed_over (err e) h = (refl, λ x. refl)

    pub taken :
        (tried : Result Error (String × List String)) {r : String × List String}
        → try_resolve tried ≡ ok (some r)
        → tried ≡ ok r
    unfolding try_resolve
    taken (ok r) h = cc
    taken (err e) h = ground arith

    -- What adding a union of leaves makes of the leaf dimension.
    abbrev pub adds : Option String → List String → String → Bool
    adds none all x = false
    adds (some l) all x = l == leaf && mem x all

    abbrev pub adds_key : Option String → Bool
    adds_key none = false
    adds_key (some l) = l == leaf

    -- The loop's variables: no value has resolved, or some have.
    abbrev pub Agrees : String → Option String → List String → Type 0
    Agrees key none all = all ≡ []
    Agrees key (some l) all = (l ≡ key_leaf key) × (is_empty all ≡ false)

    nonempty_union : (xs ys : List String) → is_empty ys ≡ false → is_empty (union xs ys) ≡ false
    nonempty_union [] [] h = cc
    nonempty_union [] (y ∷ ys) h = ground arith
    nonempty_union (x ∷ xs) ys h = refl

    Agrees-union :
        (key : String) (found : Option String) (all : List String) (r : String × List String)
        → (r.0 ≡ key_leaf key) × (is_empty r.1 ≡ false)
        → Agrees key (some r.0) (union all r.1)
    Agrees-union key found all r h = (h.0, nonempty_union all r.1 h.1)

    adds_more :
        (key : String) (found : Option String) (all : List String) (r : String × List String)
        (x : String)
        → Agrees key found all
        → r.0 ≡ key_leaf key
        → adds (some r.0) (union all r.1) x ≡ (adds found all x || value_lists x (ok r))
    adds_more key none all r x a h = ground (arith, mem-union x all r.1)
    adds_more key (some l) all r x a h = ground (arith, mem-union x all r.1)

    adds_key_more :
        (key : String) (found : Option String) (all : List String) (r : String × List String)
        → Agrees key found all
        → r.0 ≡ key_leaf key
        → adds_key (some r.0) ≡ (adds_key found || value_reaches (ok r))
    adds_key_more key none all r a h = ground arith
    adds_key_more key (some l) all r a h = ground arith

    abbrev pub Collects :
        String → List String → Option String → List String → Option String × List String → Type 0
    Collects key values found all c =
        Agrees key c.0 c.1
        × (adds_key c.0 ≡ (
            adds_key found
            || any (λ v. value_reaches (resolve_single_value key v catalogue client)) values))
        × ((x : String)
            → adds c.0 c.1 x ≡ (
                adds found all x
                || any (λ v. value_lists x (resolve_single_value key v catalogue client)) values))

    pub collect_values-Collects :
        (key : String) (values : List String) (found : Option String) (all : List String)
        {c : Option String × List String}
        → Agrees key found all
        → collect_values key values catalogue client found all ≡ ok c
        → Collects key values found all c
    unfolding collect_values try_resolve
    collect_values-Collects key [] found all a h =
        rw (← ok-injective h) (a, ground arith, λ x. ground arith)
    collect_values-Collects key (v ∷ values) found all a h =
        let (tried, is_tried, rest) =
          >>=-eq-ok (try_resolve (resolve_single_value key v catalogue client)) _ h in
        elim (Option-cases tried) [
          | inl is_none ↦
              let (unreached, unlisted) =
                passed_over (resolve_single_value key v catalogue client)
                  (is_tried ∙ ap (λ (o : Option (String × List String)). ok o) is_none) in
              let (agrees, keyed, listed) =
                collect_values-Collects key values found all a (rw is_none at rest) in
              (agrees, ground (arith, keyed, unreached), λ x. ground (arith, listed x, unlisted x))
          | inr (r, is_some) ↦
              let resolved =
                taken (resolve_single_value key v catalogue client)
                  (is_tried ∙ ap (λ (o : Option (String × List String)). ok o) is_some) in
              let reached = resolve_single_value-key_leaf key v resolved in
              let (agrees, keyed, listed) =
                collect_values-Collects key values (some r.0) (union all r.1)
                  (Agrees-union key found all r reached) (rw is_some at rest) in
              (
                agrees,
                ground (arith, keyed, adds_key_more key found all r a reached.0, resolved),
                λ x. ground (arith, listed x, adds_more key found all r x a reached.0, resolved),
              )
        ]
