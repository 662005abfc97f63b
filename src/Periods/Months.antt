-- ===== src/Periods/Months.antt =====
-- A printed month reads back, in the years of four digits.
use precis_finance_mcp.Common.{
  ℕ, ◌+◌, ◌*◌, ◌/◌, ◌%◌, ◌<◌, ◌≡◌, ap, ◌∙◌, arith, String, ok, true, ltb,
}
use precis_finance_mcp.Periods.{digit, padded_two, padded_four, month_text, before, after, int_of}

two_digits :
    (a b : ℕ) → int_of (String.◌∷◌ (digit a) (String.◌∷◌ (digit b) "")) ≡ ok (a % 10 * 10 + b % 10)
two_digits a b = ground arith

four_digits :
    (a b c d : ℕ)
    → int_of (
        String.◌∷◌
          (digit a)
          (String.◌∷◌ (digit b) (String.◌∷◌ (digit c) (String.◌∷◌ (digit d) ""))))
      ≡ ok (a % 10 * 1000 + b % 10 * 100 + c % 10 * 10 + d % 10)
four_digits a b c d = ground arith

pub year_reads : (y m : ℕ) → y < 10000 → int_of (before 4 (month_text y m)) ≡ ok y
unfolding month_text padded_four
year_reads y m hy =
    let four : ltb y 10000 ≡ true = ground arith in
    rw (month_text, padded_four, four)
      (four_digits (y / 1000) (y / 100) (y / 10) y ∙ ap (λ (n : ℕ). ok n) (omega arith))

pub month_reads :
    (y m : ℕ) → y < 10000 → m < 100 → int_of (before 2 (after 5 (month_text y m))) ≡ ok m
unfolding month_text padded_four padded_two
month_reads y m hy hm =
    let four : ltb y 10000 ≡ true = ground arith in
    let two : ltb m 100 ≡ true = ground arith in
    rw (month_text, padded_four, padded_two, four, two)
      (two_digits (m / 10) m ∙ ap (λ (n : ℕ). ok n) (omega arith))
