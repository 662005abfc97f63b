-- ===== src/Scenarios/Dependencies.antt =====
-- What a reference stands for is registered.
use precis_finance_mcp.Common.{
  ℕ, zero, suc, String, ◌≡◌, ◌⊎◌, inl, inr, refl, arith, Bool, true, false, Option, none, some,
  List, [], ◌∷◌, ◌==◌, eq_iff, eq_refl, union, mem, mem-union, lookup, lookup-has_key, has_key,
  Result, ok, err, >>=-eq-ok, Bool-cases, Option-cases, subst, sym, some-inj, ◌∙◌, ap, ok-injective,
}
use precis_finance_mcp.Common.Texts.{text_size, strip_suffix, split_once}
use precis_finance_mcp.Catalogue.{Error}
use precis_finance_mcp.Scenarios.{
  RealScenarioRef, ShiftOp, ShiftedScenarioRef, SimpleRef, real, shifted, ScenarioRef, simple,
  variance, variance_pct, ScenarioRegistry, registered,
}
use precis_finance_mcp.Scenarios.Registry.{IsRegistry}
use precis_finance_mcp.Scenarios.Keys.{registered-alias, first_found-cases}
use precis_finance_mcp.Scenarios.Resolve.{
  compatible, compared, simple_side, compared_at, resolve_variance, resolve_key_with,
  resolve_key_within, resolve_key, resolve_shifted, shift_ops, key_suffix, simple_dependencies,
  dependencies, expand_dependencies,
}

-- The real scenario that a simple reference is about.
abbrev pub scenario_of : SimpleRef → RealScenarioRef
scenario_of (real scenario) = scenario
scenario_of (shifted ref) = ref.base

-- The real scenarios that a reference is about: its own one, or those of both sides.
abbrev pub IsAbout : ScenarioRef → RealScenarioRef → Type 0
IsAbout (simple ref) s = scenario_of ref ≡ s
IsAbout (variance ref) s = (scenario_of ref.left ≡ s) ⊎ (scenario_of ref.right ≡ s)
IsAbout (variance_pct ref) s = (scenario_of ref.left ≡ s) ⊎ (scenario_of ref.right ≡ s)

mem-simple_dependencies :
    (ref : SimpleRef) → mem (scenario_of ref).scenario_id (simple_dependencies ref) ≡ true
mem-simple_dependencies (real s) = ground (arith, eq_refl s.scenario_id)
mem-simple_dependencies (shifted t) = ground (arith, eq_refl t.base.scenario_id)

mem-both :
    (left right : SimpleRef) (s : RealScenarioRef)
    → (scenario_of left ≡ s) ⊎ (scenario_of right ≡ s)
    → mem s.scenario_id (union (simple_dependencies left) (simple_dependencies right)) ≡ true
mem-both left right s side =
    let both = union (simple_dependencies left) (simple_dependencies right) in
    let within = λ (x : RealScenarioRef). mem x.scenario_id both ≡ true in
    elim side [
      | inl own ↦ subst within own (
          ground (
            arith,
            mem-union (scenario_of left).scenario_id (simple_dependencies left)
                (simple_dependencies right),
            mem-simple_dependencies left,
          ))
      | inr own ↦ subst within own (
          ground (
            arith,
            mem-union (scenario_of right).scenario_id (simple_dependencies left)
                (simple_dependencies right),
            mem-simple_dependencies right,
          ))
    ]

mem-dependencies :
    (ref : ScenarioRef) (s : RealScenarioRef)
    → IsAbout ref s
    → mem s.scenario_id (dependencies ref) ≡ true
mem-dependencies (simple ref) s own =
    subst (λ (x : RealScenarioRef). mem x.scenario_id (simple_dependencies ref) ≡ true) own
      (mem-simple_dependencies ref)
mem-dependencies (variance ref) s side = mem-both ref.left ref.right s side
mem-dependencies (variance_pct ref) s side = mem-both ref.left ref.right s side

module _ (registry : ScenarioRegistry) (inv : IsRegistry registry) where
  abbrev pub IsRegistered : RealScenarioRef → Type 0
  IsRegistered s = lookup s.alias registry.aliases ≡ some s

  abbrev pub IsKnown : ScenarioRef → Type 0
  IsKnown (simple ref) = IsRegistered (scenario_of ref)
  IsKnown (variance ref) =
      IsRegistered (scenario_of ref.left) × IsRegistered (scenario_of ref.right)
  IsKnown (variance_pct ref) =
      IsRegistered (scenario_of ref.left) × IsRegistered (scenario_of ref.right)

  abbrev KnownAnswers : (String → Result Error ScenarioRef) → Type 0
  KnownAnswers resolve = (v : String) (ref : ScenarioRef) → resolve v ≡ ok ref → IsKnown ref

  resolve_shifted-IsRegistered :
      (ops : List ShiftOp) (key : String) (ref : ShiftedScenarioRef)
      → resolve_shifted ops registry key ≡ some ref
      → IsRegistered ref.base
  unfolding resolve_shifted
  resolve_shifted-IsRegistered [] key ref h = cc
  resolve_shifted-IsRegistered (op ∷ ops) key ref h =
      elim (Option-cases (strip_suffix (key_suffix op) key)) [
        | inl other ↦ resolve_shifted-IsRegistered ops key ref (rw (other, resolve_shifted) at h)
        | inr (base_key, found) ↦ elim (Option-cases (lookup base_key registry.aliases)) [
          | inl unknown ↦ cc (rw (found, resolve_shifted, unknown) at h)
          | inr (base, known) ↦
              let is_ref = some-inj (rw (found, resolve_shifted, known) at h) in
              subst (λ (r : ShiftedScenarioRef). IsRegistered r.base) is_ref
                (ap (λ (k : String). lookup k registry.aliases) (inv.valid base_key base known).0
                  ∙ known)
        ]
      ]

  simple_side-IsRegistered :
      (answer : Result Error ScenarioRef) (ref : SimpleRef)
      → ((r : ScenarioRef) → answer ≡ ok r → IsKnown r)
      → simple_side answer ≡ some ref
      → IsRegistered (scenario_of ref)
  simple_side-IsRegistered (err raised) ref known h = cc
  simple_side-IsRegistered (ok (simple r)) ref known h =
      subst (λ (x : SimpleRef). IsRegistered (scenario_of x)) (some-inj h) (known (simple r) refl)
  simple_side-IsRegistered (ok (variance r)) ref known h = cc
  simple_side-IsRegistered (ok (variance_pct r)) ref known h = cc

  compared-IsKnown :
      (is_pct : Bool) (l r : Option SimpleRef) (ref : ScenarioRef)
      → ((x : SimpleRef) → l ≡ some x → IsRegistered (scenario_of x))
      → ((x : SimpleRef) → r ≡ some x → IsRegistered (scenario_of x))
      → compared is_pct l r ≡ some ref
      → IsKnown ref
  compared-IsKnown is_pct none r ref left right h = cc
  compared-IsKnown is_pct (some l) none ref left right h = cc
  compared-IsKnown true (some l) (some r) ref left right h =
      subst IsKnown (some-inj h) (left l refl, right r refl)
  compared-IsKnown false (some l) (some r) ref left right h =
      subst IsKnown (some-inj h) (left l refl, right r refl)

  compared_at-IsKnown :
      (resolve : String → Result Error ScenarioRef) (is_pct : Bool) (body : String)
      (ref : ScenarioRef)
      → KnownAnswers resolve
      → compared_at resolve is_pct body ≡ some ref
      → IsKnown ref
  compared_at-IsKnown resolve is_pct body ref known h =
      elim (Option-cases (split_once "_vs_" body)) [
        | inl nothing ↦ cc (rw (compared_at, nothing) at h)
        | inr ((l, r), found) ↦
            compared-IsKnown is_pct (simple_side (resolve l)) (simple_side (resolve r)) ref
              (λ x. simple_side-IsRegistered (resolve l) x (known l))
              (λ x. simple_side-IsRegistered (resolve r) x (known r)) (rw (compared_at, found) at h)
      ]

  resolve_key_with-IsKnown :
      (resolve : String → Result Error ScenarioRef)
      → KnownAnswers resolve
      → KnownAnswers (resolve_key_with resolve registry)
  unfolding resolve_variance
  resolve_key_with-IsKnown resolve known key ref h =
      elim (first_found-cases (registered registry key) (resolve_shifted shift_ops registry key)
        (resolve_variance resolve key) h) [
          | inl (s, found, e) ↦ subst IsKnown e (registered-alias registry inv key s found)
          | inr (inl (t, unknown, found, e)) ↦
              subst IsKnown e (resolve_shifted-IsRegistered shift_ops key t found)
          | inr (inr (unknown, unshifted, found)) ↦ elim (Option-cases (strip_suffix "_pct" key)) [
            | inl signed ↦
                compared_at-IsKnown resolve false key ref known
                  (rw (signed, resolve_variance) at found)
            | inr (body, percent) ↦
                compared_at-IsKnown resolve true body ref known
                  (rw (percent, resolve_variance) at found)
          ]
        ]

  resolve_key_within-IsKnown : (fuel : ℕ) → KnownAnswers (resolve_key_within fuel registry)
  unfolding resolve_key_within
  resolve_key_within-IsKnown zero value ref h = cc
  resolve_key_within-IsKnown (suc fuel) value ref h = elim (Bool-cases (value == "")) [
    | inl empty ↦ cc (rw (empty, resolve_key_within) at h)
    | inr there ↦
        resolve_key_with-IsKnown (resolve_key_within fuel registry)
          (resolve_key_within-IsKnown fuel) (compatible value) ref
          (rw (there, resolve_key_within) at h)
  ]

  pub resolve_key-IsKnown :
      (value : String) (ref : ScenarioRef) → resolve_key registry value ≡ ok ref → IsKnown ref
  unfolding resolve_key
  resolve_key-IsKnown value ref h = resolve_key_within-IsKnown (suc (text_size value)) value ref h

  has_id_of_registered :
      (s : RealScenarioRef) → IsRegistered s → has_key s.scenario_id registry.ids ≡ true
  has_id_of_registered s known =
      ground (arith, inv.has_id s.alias s known, lookup-has_key s.scenario_id registry.ids)

  simple_dependencies-registered :
      (ref : SimpleRef) (d : String)
      → IsRegistered (scenario_of ref)
      → mem d (simple_dependencies ref) ≡ true
      → has_key d registry.ids ≡ true
  simple_dependencies-registered (real s) d known there =
      ground (arith, has_id_of_registered s known, eq_iff s.scenario_id d)
  simple_dependencies-registered (shifted t) d known there =
      ground (arith, has_id_of_registered t.base known, eq_iff t.base.scenario_id d)

  pub dependencies-registered :
      (ref : ScenarioRef) (d : String)
      → IsKnown ref
      → mem d (dependencies ref) ≡ true
      → has_key d registry.ids ≡ true
  dependencies-registered (simple ref) d known there =
      simple_dependencies-registered ref d known there
  dependencies-registered (variance ref) d (l, r) there = ground (
    arith,
    mem-union d (simple_dependencies ref.left) (simple_dependencies ref.right),
    simple_dependencies-registered ref.left d l,
    simple_dependencies-registered ref.right d r,
  )
  dependencies-registered (variance_pct ref) d (l, r) there = ground (
    arith,
    mem-union d (simple_dependencies ref.left) (simple_dependencies ref.right),
    simple_dependencies-registered ref.left d l,
    simple_dependencies-registered ref.right d r,
  )

  -- In a registry that was built, the dependencies of whatever text resolves are scenario ids of the
  -- registry, and among them is the id of every scenario that the text is about: of the one that it
  -- names or shifts, or of both sides of a comparison.
  pub expand_dependencies-registered :
      (value : String) (ids : List String)
      → expand_dependencies registry value ≡ ok ids
      → ((d : String) → mem d ids ≡ true → has_key d registry.ids ≡ true)
        × ((ref : ScenarioRef) (s : RealScenarioRef)
            → resolve_key registry value ≡ ok ref
            → IsAbout ref s
            → mem s.scenario_id ids ≡ true)
  unfolding expand_dependencies
  expand_dependencies-registered value ids h =
      let (ref, found, answer) = >>=-eq-ok (resolve_key registry value) _ h in
      (
        λ d there.
            dependencies-registered ref d (resolve_key-IsKnown value ref found)
              (rw (ok-injective answer) there),
        λ other s resolved own. rw (sym (ok-injective answer)) (
            mem-dependencies ref s
              (subst (λ (r : ScenarioRef). IsAbout r s) (ok-injective (sym resolved ∙ found)) own)),
      )
