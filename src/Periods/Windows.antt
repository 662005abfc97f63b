-- ===== src/Periods/Windows.antt =====
-- Months move by their numbers, and the strategies select months in a row.
use precis_finance_mcp.Common.{
  ℕ, ◌+◌, ◌-◌, ◌*◌, ◌/◌, ◌%◌, ◌≤◌, ◌<◌, zero, suc, ◌≡◌, refl, arith, String, true, false, ltb, leb,
  eqb, if◌then◌else◌, ◌&&◌, ok, err, ◌>>=◌, ap, ◌∙◌, inl, inr, Bool-cases, Option, some, map,
}
use precis_finance_mcp.Catalogue.{period_selection}
use precis_finance_mcp.Periods.{digit, padded_two, padded_four, month_text, month_at, months_from}
use precis_finance_mcp.Periods.Select.{
  ℤ, pos, minus, plus, month_of_total, parse_calendar_period, period_to_first_of_month, shift_month,
  trailing_months, walk_forward, is_until, select_watermark, select_periods, Kind, Strategy,
}

digits_parse :
    (a b c d e f : ℕ)
    → parse_calendar_period (
        String.◌∷◌ (digit a) (
          String.◌∷◌ (digit b) (
            String.◌∷◌ (digit c) (
              String.◌∷◌
                (digit d)
                (String.◌∷◌ "-" (String.◌∷◌ (digit e) (String.◌∷◌ (digit f) "")))))))
      ≡ (if leb 1 (e % 10 * 10 + f % 10) && leb (e % 10 * 10 + f % 10) 12
          then ok (a % 10 * 1000 + b % 10 * 100 + c % 10 * 10 + d % 10, e % 10 * 10 + f % 10)
          else err period_selection)
unfolding parse_calendar_period
digits_parse a b c d e f = ground arith

pub parse-month_at :
    (n : ℕ) → n < 120000 → parse_calendar_period (month_at n) ≡ ok (n / 12, n % 12 + 1)
unfolding month_text padded_four padded_two
parse-month_at n h =
    let four : ltb (n / 12) 10000 ≡ true = ground arith in
    let two : ltb (n % 12 + 1) 100 ≡ true = ground arith in
    let y = n / 12 in
    let m = n % 12 + 1 in
    let year : y / 1000 % 10 * 1000 + y / 100 % 10 * 100 + y / 10 % 10 * 10 + y % 10 ≡ y =
      omega arith in
    let month : m / 10 % 10 * 10 + m % 10 ≡ m = omega arith in
    rw (month_text, padded_four, padded_two, four, two)
      (digits_parse (y / 1000) (y / 100) (y / 10) y (m / 10) m ∙ rw (year, month) (ground arith))

first-month_at :
    (n : ℕ) → 12 ≤ n → n < 120000 → period_to_first_of_month (month_at n) ≡ ok (n / 12, n % 12 + 1)
unfolding period_to_first_of_month
first-month_at n low high =
    let some_year : eqb (n / 12) 0 ≡ false = ground arith in
    rw (parse-month_at n high, ◌>>=◌, some_year) refl

-- A month of a year below ten thousand, shifted by a delta: its number plus the delta, printed.
shift-month_at :
    (n : ℕ) (delta : ℤ)
    → n < 120000
    → shift_month (month_at n) delta ≡ ok (month_of_total (plus n delta))
unfolding shift_month
shift-month_at n delta h =
    let number : n / 12 * 12 + (n % 12 + 1 - 1) ≡ n = omega arith in
    rw (parse-month_at n h, ◌>>=◌) (ap (λ (k : ℕ). ok (month_of_total (plus k delta))) number)

moved_back : (n d : ℕ) → d ≤ n → month_of_total (plus n (minus d)) ≡ month_at (n - d)
unfolding plus month_of_total
moved_back n zero h = ap month_at (omega arith)
moved_back n (suc i) h =
    let over : ltb i n ≡ true = ground arith in
    rw (over, plus, month_of_total) (ap month_at (omega arith))

-- A month of a year below ten thousand, by its number, and a count of months that is not above it:
-- shifted forward by the count it is the month that many later, and shifted back by the count the
-- month that many earlier.
pub shift_month-month_at :
    (n d : ℕ)
    → n < 120000
    → d ≤ n
    → (shift_month (month_at n) (pos d) ≡ ok (month_at (n + d)))
      × (shift_month (month_at n) (minus d) ≡ ok (month_at (n - d)))
unfolding plus month_of_total
shift_month-month_at n d h back = (
  shift-month_at n (pos d) h,
  shift-month_at n (minus d) h ∙ ap (λ (p : String). ok p) (moved_back n d back),
)

trailing-months_from :
    (t k : ℕ)
    → t < 120000
    → k ≤ t + 1
    → trailing_months (month_at t) k ≡ ok (months_from (t + 1 - k) k)
unfolding trailing_months
trailing-months_from t zero h within = refl
trailing-months_from t (suc i) h within =
    let here : t + 1 - suc i ≡ t - i = omega arith in
    let later : suc (t - i) ≡ t + 1 - i = omega arith in
    rw
      (
        (shift_month-month_at t i h (omega arith)).1,
        ◌>>=◌,
        trailing-months_from t i h (omega arith),
        here,
        later,
      )
      refl

-- The months from a cursor until the tick, as far as the counter goes.
abbrev reachable : ℕ → ℕ → ℕ → ℕ
reachable safety c t = if leb (t + 1 - c) safety then t + 1 - c else safety

until_number : (c t : ℕ) → is_until (c / 12, c % 12 + 1) (t / 12, t % 12 + 1) ≡ leb c t
until_number c t = ground arith

none_reachable : (c t : ℕ) → reachable zero c t ≡ 0
none_reachable c t = ground arith

one_reachable :
    (safety c t : ℕ) → c ≤ t → reachable (suc safety) c t ≡ suc (reachable safety (c + 1) t)
one_reachable safety c t h = ground arith

past_reachable : (safety c t : ℕ) → t < c → reachable safety c t ≡ 0
past_reachable safety c t h = ground arith

walk-months_from :
    (safety c t : ℕ)
    → 12 ≤ c
    → c ≤ t + 1
    → t < 119999
    → walk_forward safety (month_at c) (t / 12, t % 12 + 1)
      ≡ ok (months_from c (reachable safety c t))
unfolding walk_forward
walk-months_from zero c t low near high =
    rw (first-month_at c low (omega arith), ◌>>=◌, none_reachable c t) refl
walk-months_from (suc safety) c t low near high = elim (Bool-cases (leb c t)) [
  | inl more ↦
      let count = one_reachable safety c t (ground arith) in
      let next : suc c ≡ c + 1 = omega arith in
      rw
        (
          first-month_at c low (omega arith),
          ◌>>=◌,
          until_number,
          more,
          (shift_month-month_at c 1 (omega arith) (omega arith)).0,
          walk-months_from safety (c + 1) t (omega arith) (ground arith) high,
          count,
          next,
        )
        refl
  | inr past ↦
      rw
        (
          first-month_at c low (omega arith),
          ◌>>=◌,
          until_number,
          past,
          past_reachable (suc safety) c t (ground arith),
        )
        refl
]

-- For a tick in a month of a year below ten thousand, and a window that does not reach before the
-- year zero: the lookback strategy selects the months of the window, in a row, the tick's last.
pub select_periods-lookback :
    (k t : ℕ) (explicit latest : Option String) (fallback : ℕ)
    → t < 120000
    → k ≤ t + 1
    → select_periods
        (record { kind = Kind.period; strategy = Strategy.lookback; lookback_periods = k })
        (record {
          now = record { year = t / 12; month = t % 12 + 1 };
          explicit_period = explicit;
          latest_loaded_period = latest;
          watermark_fallback_periods = fallback;
        })
      ≡ ok (map (λ p. some p) (months_from (t + 1 - k) k))
unfolding select_periods
select_periods-lookback k t explicit latest fallback h within =
    rw (trailing-months_from t k h within) refl

-- For a tick in a month of a year from 1 to 9999, but not the very last, and a month from December
-- of the year zero up to the tick that was loaded last: the watermark strategy selects the
-- months after it up to the tick, in a row, but only the first 240 where there are more.
pub select_periods-watermark :
    (l t k : ℕ) (explicit : Option String) (fallback : ℕ)
    → 11 ≤ l
    → 12 ≤ t
    → l ≤ t
    → t < 119999
    → select_periods
        (record { kind = Kind.period; strategy = Strategy.watermark; lookback_periods = k })
        (record {
          now = record { year = t / 12; month = t % 12 + 1 };
          explicit_period = explicit;
          latest_loaded_period = some (month_at l);
          watermark_fallback_periods = fallback;
        })
      ≡ ok (map (λ p. some p) (months_from (l + 1) (if leb (t - l) 240 then t - l else 240)))
unfolding select_periods select_watermark
select_periods-watermark l t k explicit fallback low dated near high =
    let count : reachable 240 (l + 1) t ≡ (if leb (t - l) 240 then t - l else 240) = ground arith in
    rw
      (
        (shift_month-month_at l 1 (omega arith) (omega arith)).0,
        ◌>>=◌,
        first-month_at t (omega arith) (omega arith),
        walk-months_from 240 (l + 1) t (omega arith) (omega arith) high,
        count,
      )
      refl
