-- ===== src/Scenarios/Keys.antt =====
-- The public key of what `resolve_key` finds leads back to it.
use Prim.Native.String.{◌++◌, count}
use text.Mathlib.TextLemmas.{append_inj, length-nil, length-cons}
use precis_finance_mcp.Common.{
  suc, String, ◌≡◌, ◌≢◌, ◌⊎◌, refl, arith, Bool, true, false, Option, none, some, List, [], ◌∷◌,
  ◌==◌, eq_iff, if◌then◌else◌, lookup, Result, ok, Bool-cases, Option-cases, inl, inr, subst,
  some-inj, text_cases, sym, ◌∙◌, ap, ok-injective,
}
use precis_finance_mcp.Common.Texts.{
  text_size, text_size-append, strip_suffix, split_once, append_of_strip_suffix,
}
use precis_finance_mcp.Catalogue.{Error}
use precis_finance_mcp.Scenarios.{
  RealScenarioRef, ShiftOp, year_shift, period_step, ShiftedScenarioRef, SimpleRef, real, shifted,
  ScenarioRef, simple, ScenarioRegistry, registered,
}
use precis_finance_mcp.Scenarios.Registry.{IsRegistry}
use precis_finance_mcp.Scenarios.Accepted.{is_valid_alias, validate_alias_lem}
use precis_finance_mcp.Scenarios.Resolve.{
  compatible, compared, simple_side, compared_at, resolve_variance, first_found, resolve_key_with,
  resolve_key, resolve_shifted, shift_ops, key_suffix,
}
use precis_finance_mcp.Scenarios.Calls.{resolve_key_lem}

text_size-eq-count : (s : String) → text_size s ≡ count s
unfolding text_size
text_size-eq-count String.[] = sym length-nil
text_size-eq-count (String.◌∷◌ c s) = ap suc (text_size-eq-count s) ∙ sym (length-cons c s)

-- A text does not end in two different suffixes of one size.
pub other_suffix :
    (s x y : String) → text_size x ≡ text_size y → (x == y) ≡ false → strip_suffix x (s ++ y) ≡ none
other_suffix s x y same ne = elim (Option-cases (strip_suffix x (s ++ y))) [
  | inl nothing ↦ nothing
  | inr (rest, found) ↦
      let whole = append_of_strip_suffix x (s ++ y) found in
      let sizes : text_size s ≡ text_size rest =
        omega (arith, ap text_size whole, text_size-append s y, text_size-append rest x) in
      let (_, suffixes) =
        append_inj {s₁ = s} {s₂ = rest} whole
          (sym (text_size-eq-count s) ∙ (sizes ∙ text_size-eq-count rest)) in
      cc (rw ne at ((eq_iff x y).1 (sym suffixes)))
]

pub simple-inj : {a b : SimpleRef} → simple a ≡ simple b → a ≡ b
simple-inj h = cc

-- What was found, and where.
pub first_found-cases :
    (a : Option RealScenarioRef) (b : Option ShiftedScenarioRef) (c : Option ScenarioRef)
    {ref : ScenarioRef}
    → first_found a b c ≡ ok ref
    → ((s : RealScenarioRef) × (a ≡ some s) × (simple (real s) ≡ ref))
      ⊎ ((t : ShiftedScenarioRef) × (a ≡ none) × (b ≡ some t) × (simple (shifted t) ≡ ref))
      ⊎ ((a ≡ none) × (b ≡ none) × (c ≡ some ref))
first_found-cases (some s) b c h = inl (s, refl, ok-injective h)
first_found-cases none (some t) c h = inr (inl (t, refl, refl, ok-injective h))
first_found-cases none none (some r) h = inr (inr (refl, refl, ap some (ok-injective h)))
first_found-cases none none none h = cc

-- A key that is neither empty nor an old name is looked up as it is.
pub plain_of :
    (key : String)
    → key ≢ ""
    → key ≢ "prior_year"
    → key ≢ "prior_period"
    → (key == "" ≡ false) × (compatible key ≡ key)
plain_of key empty year period = elim (text_cases key "") [
  | inl (e, _) ↦ absurd (empty e)
  | inr there ↦ elim (text_cases "prior_year" key) [
    | inl (e, _) ↦ absurd (year (sym e))
    | inr a ↦ elim (text_cases "prior_period" key) [
      | inl (e, _) ↦ absurd (period (sym e))
      | inr b ↦ (there, ground (arith, a, b))
    ]
  ]
]

module _ (registry : ScenarioRegistry) (inv : IsRegistry registry) where
  -- What a valid alias is not.
  pub alias_lem :
      (k : String) (s : RealScenarioRef)
      → lookup k registry.aliases ≡ some s
      → (s.alias ≡ k) × (is_valid_alias k ≡ true)
  alias_lem k s h = elim (Bool-cases (is_valid_alias k)) [
    | inl fine ↦ ((inv.valid k s h).0, fine)
    | inr wrong ↦ cc (rw wrong at (sym (validate_alias_lem k) ∙ (inv.valid k s h).1))
  ]

  compatible-alias : (k : String) → is_valid_alias k ≡ true → compatible k ≡ k
  compatible-alias k fine = ground arith

  -- A scenario's alias, and a shifted scenario's key, lead to that scenario.
  abbrev pub public_key : SimpleRef → String
  public_key (real scenario) = scenario.alias
  public_key (shifted ref) = ref.key

  -- What `resolve_key` does with a key that is neither empty nor an old name.
  pub resolve_key_of_key :
      (key : String)
      → (key == "") ≡ false
      → compatible key ≡ key
      → resolve_key registry key ≡ resolve_key_with (resolve_key registry) registry key
  resolve_key_of_key key there same =
      resolve_key_lem registry key
      ∙ (rw (there, if◌then◌else◌) refl
          ∙ ap (resolve_key_with (resolve_key registry) registry) same)

  registered_alias :
      (k : String) (s : RealScenarioRef)
      → lookup k registry.aliases ≡ some s
      → registered registry k ≡ some s
  registered_alias k s h = ground (arith, h)

  pub resolve_key-alias :
      (k : String) (s : RealScenarioRef)
      → lookup k registry.aliases ≡ some s
      → resolve_key registry k ≡ ok (simple (real s))
  resolve_key-alias k s h =
      let (own, fine) = alias_lem k s h in
      resolve_key_of_key k (ground (arith, fine)) (compatible-alias k fine)
      ∙ ap
          (λ (o : Option RealScenarioRef).
            first_found o (resolve_shifted shift_ops registry k)
              (resolve_variance (resolve_key registry) k))
          (registered_alias k s h)

  -- A comparison is no simple reference.
  compared-not_simple :
      (is_pct : Bool) (l r : Option SimpleRef) (ref : SimpleRef)
      → compared is_pct l r ≢ some (simple ref)
  compared-not_simple is_pct none r ref h = cc
  compared-not_simple is_pct (some l) none ref h = cc
  compared-not_simple true (some l) (some r) ref h = cc
  compared-not_simple false (some l) (some r) ref h = cc

  compared_at-not_simple :
      (resolve : String → Result Error ScenarioRef) (is_pct : Bool) (body : String)
      (ref : SimpleRef)
      → compared_at resolve is_pct body ≢ some (simple ref)
  compared_at-not_simple resolve is_pct body ref h = elim (Option-cases (split_once "_vs_" body)) [
    | inl nothing ↦ cc (rw (compared_at, nothing) at h)
    | inr ((l, r), found) ↦
        compared-not_simple is_pct (simple_side (resolve l)) (simple_side (resolve r)) ref
          (rw (compared_at, found) at h)
  ]

  pub resolve_variance-not_simple :
      (resolve : String → Result Error ScenarioRef) (key : String) (ref : SimpleRef)
      → resolve_variance resolve key ≢ some (simple ref)
  unfolding resolve_variance
  resolve_variance-not_simple resolve key ref h = elim (Option-cases (strip_suffix "_pct" key)) [
    | inl signed ↦ compared_at-not_simple resolve false key ref (rw (signed, resolve_variance) at h)
    | inr (body, percent) ↦
        compared_at-not_simple resolve true body ref (rw (percent, resolve_variance) at h)
  ]

  suffixes_of_plain :
      (op : ShiftOp) (value base : String)
      → (value ≡ "") ⊎ (value ≡ "prior_year") ⊎ (value ≡ "prior_period")
      → strip_suffix (key_suffix op) value ≢ some base
  unfolding strip_suffix
  suffixes_of_plain year_shift value base (inl e) h = cc (rw e at h)
  suffixes_of_plain year_shift value base (inr (inl e)) h = cc (rw e at h)
  suffixes_of_plain year_shift value base (inr (inr e)) h = cc (rw e at h)
  suffixes_of_plain period_step value base (inl e) h = cc (rw e at h)
  suffixes_of_plain period_step value base (inr (inl e)) h = cc (rw e at h)
  suffixes_of_plain period_step value base (inr (inr e)) h = cc (rw e at h)

  -- A text with the suffix of a shift is neither empty nor an old name.
  suffixed_plain :
      (op : ShiftOp) (key base : String)
      → strip_suffix (key_suffix op) key ≡ some base
      → (key == "" ≡ false) × (compatible key ≡ key)
  suffixed_plain op key base h =
      plain_of key (λ e. suffixes_of_plain op key base (inl e) h)
        (λ e. suffixes_of_plain op key base (inr (inl e)) h)
        (λ e. suffixes_of_plain op key base (inr (inr e)) h)

  -- A shifted scenario's key is that of its alias and the suffix, and leads to it again.
  pub resolve_shifted-key :
      (ops : List ShiftOp) (key : String) {ref : ShiftedScenarioRef}
      → resolve_shifted ops registry key ≡ some ref
      → (ref.key ≡ key) × (key == "" ≡ false) × (compatible key ≡ key)
  unfolding resolve_shifted
  resolve_shifted-key [] key h = cc
  resolve_shifted-key (op ∷ ops) key h = elim (Option-cases (strip_suffix (key_suffix op) key)) [
    | inl other ↦ resolve_shifted-key ops key (rw (other, resolve_shifted) at h)
    | inr (base_key, found) ↦ elim (Option-cases (lookup base_key registry.aliases)) [
      | inl unknown ↦ cc (rw (found, resolve_shifted, unknown) at h)
      | inr (base, known) ↦
          let is_ref = some-inj (rw (found, resolve_shifted, known) at h) in
          let (there, plain) = suffixed_plain op key base_key found in
          (
            ap (λ (r : ShiftedScenarioRef). r.key) (sym is_ref)
                ∙ (ap (λ (a : String). a ++ key_suffix op) (inv.valid base_key base known).0
                    ∙ sym (append_of_strip_suffix (key_suffix op) key found)),
            there,
            plain,
          )
    ]
  ]

  pub registered-alias :
      (key : String) (s : RealScenarioRef)
      → registered registry key ≡ some s
      → lookup s.alias registry.aliases ≡ some s
  registered-alias key s h = elim (Option-cases (lookup key registry.aliases)) [
    | inr (t, found) ↦
        let same : t ≡ s = some-inj (rw (registered, found) at h) in
        subst (λ (x : RealScenarioRef). lookup x.alias registry.aliases ≡ some x) same
          (ap (λ (k : String). lookup k registry.aliases) (inv.valid key t found).0 ∙ found)
    | inl unknown ↦ inv.has_alias key s (rw (registered, unknown) at h)
  ]

  resolve_key_with-simple :
      (key : String) (ref : SimpleRef)
      → resolve_key_with (resolve_key registry) registry key ≡ ok (simple ref)
      → resolve_key registry (public_key ref) ≡ ok (simple ref)
  resolve_key_with-simple key ref h =
      elim (first_found-cases (registered registry key) (resolve_shifted shift_ops registry key)
        (resolve_variance (resolve_key registry) key) h) [
          | inl (s, found, e) ↦
              let is_ref : real s ≡ ref = simple-inj e in
              subst (λ (r : SimpleRef). resolve_key registry (public_key r) ≡ ok (simple r)) is_ref
                (resolve_key-alias s.alias s (registered-alias key s found))
          | inr (inl (t, unknown, found, e)) ↦
              let is_ref : shifted t ≡ ref = simple-inj e in
              let (own, there, plain) = resolve_shifted-key shift_ops key found in
              subst (λ (r : SimpleRef). resolve_key registry (public_key r) ≡ ok (simple r)) is_ref
                (ap (resolve_key registry) own
                  ∙ (resolve_key_of_key key there plain
                      ∙ (h ∙ ap (λ (r : SimpleRef). ok (simple r)) (sym is_ref))))
          | inr (inr (unknown, unshifted, found)) ↦
              absurd (resolve_variance-not_simple (resolve_key registry) key ref found)
        ]

  -- In a registry that was built: if a text resolves to a real or a shifted scenario, so does that
  -- scenario's alias, or its key, and to the same scenario.
  pub resolve_key-public_key :
      (value : String) (ref : SimpleRef)
      → resolve_key registry value ≡ ok (simple ref)
      → resolve_key registry (public_key ref) ≡ ok (simple ref)
  resolve_key-public_key value ref h = elim (Bool-cases (value == "")) [
    | inl empty ↦ cc (rw empty at (sym (resolve_key_lem registry value) ∙ h))
    | inr there ↦
        resolve_key_with-simple (compatible value) ref
          (rw there at (sym (resolve_key_lem registry value) ∙ h))
  ]
