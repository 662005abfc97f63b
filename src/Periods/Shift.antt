-- ===== src/Periods/Shift.antt =====
-- `shift_period` of the report resolver (precis_mcp/engine/resolver.py) beside `shift_month` of the
-- loads: two pieces of code for one rule, of which only the second checks the month.
use precis_finance_mcp.Common.{
  ℕ, ◌+◌, ◌-◌, ◌*◌, ◌≤◌, zero, suc, String, ◌≡◌, refl, arith, ap, ◌∙◌, ◌&&◌, leb, Result, ok, ◌>>=◌,
  >>=-eq-ok, ok-injective, Bool-cases, inl, inr,
}
use precis_finance_mcp.Catalogue.{Error}
use precis_finance_mcp.Periods.{int_of, before, after}
use precis_finance_mcp.Periods.Select.{
  ℤ, pos, negsuc, plus, month_of_total, text_length, is_shaped, parse_calendar_period, shift_month,
}

-- An integer less one.
abbrev pub pred : ℤ → ℤ
pred (pos zero) = negsuc 0
pred (pos (suc n)) = pos n
pred (negsuc n) = negsuc (suc n)

-- `int` reads ASCII digits here. The month may be zero, so that its index is below it.
unfoldable pub shift_period : String → ℤ → Result Error String
unfolding plus month_of_total
shift_period period months = do
  year ← int_of (before 4 period)
  month ← int_of (before 2 (after 5 period))
  ok (month_of_total (plus (year * 12 + month) (pred months)))

plus-pred : (n m : ℕ) (d : ℤ) → 1 ≤ m → plus (n + m) (pred d) ≡ plus (n + (m - 1)) d
unfolding plus
plus-pred n m (pos zero) h = ground arith
plus-pred n m (pos (suc d)) h = ground arith
plus-pred n m (negsuc d) h = ground arith

before_all : (n : ℕ) (s : String) → text_length s ≤ n → before n s ≡ s
before_all zero String.[] h = refl
before_all zero (String.◌∷◌ c s) h = absurd (omega arith)
before_all (suc n) String.[] h = refl
before_all (suc n) (String.◌∷◌ c s) h = ap (String.◌∷◌ c) (before_all n s (omega arith))

length-after : (n : ℕ) (s : String) → text_length (after n s) ≡ text_length s - n
length-after zero s = omega arith
length-after (suc n) String.[] = omega arith
length-after (suc n) (String.◌∷◌ c s) = omega (arith, length-after n s)

-- A calendar month has seven characters, a year, and a month from one on.
parts_of_parse :
    (period : String) (year month : ℕ)
    → parse_calendar_period period ≡ ok (year, month)
    → (text_length period ≡ 7)
      × (int_of (before 4 period) ≡ ok year)
      × (int_of (after 5 period) ≡ ok month)
      × (1 ≤ month)
unfolding parse_calendar_period
parts_of_parse period year month h = elim (Bool-cases (is_shaped period)) [
  | inr wrong ↦ cc (rw (wrong, parse_calendar_period, ◌>>=◌) at h)
  | inl shaped ↦
      let h₀ = rw (shaped, parse_calendar_period, ◌>>=◌) at h in
      let (y, is_y, h₁) = >>=-eq-ok (int_of (before 4 period)) _ h₀ in
      let (m, is_m, h₂) = >>=-eq-ok (int_of (after 5 period)) _ h₁ in
      elim (Bool-cases (leb 1 m && leb m 12)) [
        | inr out ↦ cc (rw (out, ◌>>=◌) at h₂)
        | inl fine ↦
            let pair = ok-injective (rw (fine, ◌>>=◌) at h₂) in
            (
              ground (arith, shaped),
              is_y ∙ ap (λ (p : ℕ × ℕ). ok p.0) pair,
              is_m ∙ ap (λ (p : ℕ × ℕ). ok p.1) pair,
              ground (arith, fine, ap (λ (p : ℕ × ℕ). p.1) pair),
            )
      ]
]

-- Where the loads can shift a month, the resolver shifts it alike.
pub shift_period-shift_month :
    (period : String) (delta : ℤ) (t : String)
    → shift_month period delta ≡ ok t
    → shift_period period delta ≡ ok t
unfolding shift_month parse_calendar_period shift_period
shift_period-shift_month period delta t h =
    let ((year, month), parsed, answer) = >>=-eq-ok (parse_calendar_period period) _ h in
    let (shaped, is_year, is_month, in_range) = parts_of_parse period year month parsed in
    let two_left : before 2 (after 5 period) ≡ after 5 period =
      before_all 2 (after 5 period) (ground (arith, length-after 5 period, shaped)) in
    rw (shift_period, is_year, two_left, is_month, ◌>>=◌)
      (ap (λ (k : ℤ). ok (month_of_total k)) (plus-pred (year * 12) month delta in_range) ∙ answer)
