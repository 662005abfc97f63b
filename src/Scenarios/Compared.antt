-- ===== src/Scenarios/Compared.antt =====
-- The generated keys of comparisons lead to the comparisons.
use Prim.Native.String.{◌++◌}
use text.Mathlib.TextLemmas.{append_assoc}
use precis_finance_mcp.Common.{
  String, ◌≡◌, refl, Bool, true, false, Option, none, some, ◌==◌, if◌then◌else◌, ok, subst, ◌∙◌, ap,
}
use precis_finance_mcp.Common.Texts.{
  text_size, strip_suffix, split_once, split_once-append, strip_suffix-append,
}
use precis_finance_mcp.Scenarios.{
  RealScenarioRef, SimpleRef, ScenarioRef, simple, variance, variance_pct, ScenarioRegistry,
  registered,
}
use precis_finance_mcp.Scenarios.Calls.{resolve_key_lem}
use precis_finance_mcp.Scenarios.Keys.{other_suffix, plain_of}
use precis_finance_mcp.Scenarios.Resolve.{
  compatible, compared, compared_at, resolve_variance, first_found, resolve_key_with, resolve_key,
  resolve_shifted, shift_ops, signed_ref, percent_ref,
}

abbrev pub versus : String → String → String
versus left_key right_key = left_key ++ ("_vs_" ++ right_key)

module _ (registry : ScenarioRegistry) where
  -- Where the key is no real scenario and no shifted one, a comparison that is found is the answer.
  answer_of_comparison :
      (key : String) (ref : ScenarioRef)
      → (key == "") ≡ false
      → compatible key ≡ key
      → registered registry key ≡ none
      → resolve_shifted shift_ops registry key ≡ none
      → resolve_variance (resolve_key registry) key ≡ some ref
      → resolve_key registry key ≡ ok ref
  answer_of_comparison key ref there plain unregistered unshifted found =
      resolve_key_lem registry key
      ∙ (rw (there, if◌then◌else◌) refl
          ∙ (ap (resolve_key_with (resolve_key registry) registry) plain
              ∙ (ap
                    (λ (o : Option RealScenarioRef).
                      first_found o (resolve_shifted shift_ops registry key)
                        (resolve_variance (resolve_key registry) key))
                    unregistered
                  ∙ rw (unshifted, found) refl)))

  module _ (left_key right_key : String) (left right : SimpleRef)
      (is_left : resolve_key registry left_key ≡ ok (simple left))
      (is_right : resolve_key registry right_key ≡ ok (simple right))
      (apart : split_once "_vs_" (left_key ++ "_vs") ≡ none) where
    splits : split_once "_vs_" (versus left_key right_key) ≡ some (left_key, right_key)
    splits = split_once-append "_" "_vs" left_key right_key apart

    compared_at_sides :
        (is_pct : Bool)
        → compared_at (resolve_key registry) is_pct (versus left_key right_key)
          ≡ compared is_pct (some left) (some right)
    compared_at_sides is_pct = rw (compared_at, splits, is_left, is_right) refl

    versus_plain :
        (versus left_key right_key == "" ≡ false)
        × (compatible (versus left_key right_key) ≡ versus left_key right_key)
    unfolding split_once
    versus_plain =
        plain_of (versus left_key right_key) (λ e. cc (rw e at splits)) (λ e. cc (rw e at splits))
          (λ e. cc (rw e at splits))

    percent_plain :
        (versus left_key right_key ++ "_pct" == "" ≡ false)
        × (compatible (versus left_key right_key ++ "_pct") ≡ versus left_key right_key ++ "_pct")
    unfolding strip_suffix
    percent_plain =
        let ends = strip_suffix-append (versus left_key right_key) "_pct" in
        plain_of (versus left_key right_key ++ "_pct") (λ e. cc (rw e at ends))
          (λ e. cc (rw e at ends)) (λ e. cc (rw e at ends))

    -- If two keys stand for simple scenarios and the first does not run into the separator, and their
    -- generated key is no real and no shifted scenario and does not end like a percentage, it stands
    -- for their signed comparison.
    pub resolve_key-signed_ref :
        registered registry (versus left_key right_key) ≡ none
        → resolve_shifted shift_ops registry (versus left_key right_key) ≡ none
        → strip_suffix "_pct" (versus left_key right_key) ≡ none
        → resolve_key registry (versus left_key right_key) ≡ ok (variance (signed_ref left right))
    unfolding resolve_variance
    resolve_key-signed_ref unregistered unshifted signed =
        let (there, plain) = versus_plain in
        answer_of_comparison (versus left_key right_key) (variance (signed_ref left right)) there
          plain unregistered unshifted (rw (resolve_variance, signed) (compared_at_sides false))

    unshifted_percent :
        resolve_shifted shift_ops registry (versus left_key right_key ++ "_pct") ≡ none
    unfolding resolve_shifted text_size
    unshifted_percent =
        let longer = versus left_key right_key ++ "_" in
        let pieces : longer ++ "pct" ≡ versus left_key right_key ++ "_pct" =
          append_assoc (versus left_key right_key) "_" "pct" in
        let year =
          subst (λ (t : String). strip_suffix "_py" t ≡ none) pieces
            (other_suffix longer "_py" "pct" refl refl) in
        let period =
          subst (λ (t : String). strip_suffix "_pp" t ≡ none) pieces
            (other_suffix longer "_pp" "pct" refl refl) in
        rw (resolve_shifted, year, period) refl

    -- If two keys stand for simple scenarios and the first does not run into the separator, and their
    -- generated key with the percentage's suffix is no real scenario, it stands for their percentage
    -- comparison.
    pub resolve_key-percent_ref :
        registered registry (versus left_key right_key ++ "_pct") ≡ none
        → resolve_key registry (versus left_key right_key ++ "_pct")
          ≡ ok (variance_pct (percent_ref left right))
    unfolding resolve_variance
    resolve_key-percent_ref unregistered =
        let (there, plain) = percent_plain in
        answer_of_comparison (versus left_key right_key ++ "_pct")
          (variance_pct (percent_ref left right)) there plain unregistered unshifted_percent
          (rw (resolve_variance, strip_suffix-append (versus left_key right_key) "_pct")
            (compared_at_sides true))
