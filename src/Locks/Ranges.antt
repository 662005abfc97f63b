-- ===== src/Locks/Ranges.antt =====
-- A range of months is every month from its start to its end, and the fuel is enough for any range.
use precis_finance_mcp.Common.{
  ℕ, ◌+◌, ◌-◌, ◌/◌, ◌%◌, ◌≤◌, ◌<◌, zero, suc, ◌≡◌, refl, arith, String, List, [], ◌∷◌, false, ltb,
  leb, if◌then◌else◌, ok, ◌>>=◌, ap, ◌∙◌, inl, inr, Bool-cases,
}
use precis_finance_mcp.Periods.{month_at, months_from}
use precis_finance_mcp.Periods.Months.{year_reads, month_reads}
use precis_finance_mcp.Locks.{is_within, monthly_from, range_fuel, generate_monthly_range}

within_number : (s e : ℕ) → is_within (s / 12) (s % 12 + 1) (e / 12) (e % 12 + 1) ≡ leb s e
within_number s e = ground arith

-- The turn of the loop goes on with the next month's number.
next_month :
    {A : Type 0} (f : ℕ → ℕ → A) (s : ℕ)
    → (if ltb 12 (s % 12 + 1 + 1) then f (s / 12 + 1) 1 else f (s / 12) (s % 12 + 1 + 1))
      ≡ f (suc s / 12) (suc s % 12 + 1)
next_month f s = elim (Bool-cases (ltb 12 (s % 12 + 1 + 1))) [
  | inl late ↦
      let year : s / 12 + 1 ≡ suc s / 12 = ground arith in
      let month : 1 ≡ suc s % 12 + 1 = ground arith in
      rw (late, if◌then◌else◌, year) (ap (f (suc s / 12)) month)
  | inr early ↦
      let year : s / 12 ≡ suc s / 12 = ground arith in
      let month : s % 12 + 1 + 1 ≡ suc s % 12 + 1 = ground arith in
      rw (early, if◌then◌else◌, year) (ap (f (suc s / 12)) month)
]

months_from-more :
    (s e : ℕ) → s ≤ e → months_from s (e + 1 - s) ≡ month_at s ∷ months_from (suc s) (e + 1 - suc s)
months_from-more s e h = let more : e + 1 - s ≡ suc (e + 1 - suc s) = omega arith in rw more refl

months_from-none : (s e : ℕ) → e < s → months_from s (e + 1 - s) ≡ []
months_from-none s e h = let none_left : e + 1 - s ≡ 0 = omega arith in rw none_left refl

pub monthly_from-months_from :
    (fuel s e : ℕ)
    → e + 1 - s ≤ fuel
    → monthly_from fuel (s / 12) (s % 12 + 1) (e / 12) (e % 12 + 1) ≡ months_from s (e + 1 - s)
unfolding monthly_from
monthly_from-months_from zero s e enough =
    let none_left : e + 1 - s ≡ 0 = omega arith in rw none_left refl
monthly_from-months_from (suc fuel) s e enough =
    let rest = next_month (λ y m. monthly_from fuel y m (e / 12) (e % 12 + 1)) s in
    elim (Bool-cases (leb s e)) [
      | inl more ↦
          let further : e + 1 - suc s ≤ fuel = ground arith in
          rw (months_from-more s e (ground arith)) (
            rw (within_number, more, if◌then◌else◌)
              (ap (λ (months : List String). month_at s ∷ months)
                (rest ∙ monthly_from-months_from fuel (suc s) e further)))
      | inr over ↦ rw (months_from-none s e (ground arith)) (rw (within_number, over) refl)
    ]

-- For months of years below ten thousand, by their numbers: the range from a start to an end is
-- each month from the start to the end, in order, and empty where the end is before the start.
pub generate_monthly_range-months :
    (s e : ℕ)
    → s < 120000
    → e < 120000
    → generate_monthly_range (month_at s) (month_at e) ≡ ok (months_from s (e + 1 - s))
unfolding generate_monthly_range
generate_monthly_range-months s e hs he =
    rw
      (
        year_reads (s / 12) (s % 12 + 1) (omega arith),
        month_reads (s / 12) (s % 12 + 1) (omega arith) (omega arith),
        year_reads (e / 12) (e % 12 + 1) (omega arith),
        month_reads (e / 12) (e % 12 + 1) (omega arith) (omega arith),
        ◌>>=◌,
      )
      (ap (λ (months : List String). ok months)
        (monthly_from-months_from (range_fuel (s / 12) (e / 12)) s e (omega arith)))

-- Whatever the month the loop stands at, thirteen turns for each year that is left, less those for
-- the months of the year that are past, are enough: more fuel gives the same months.
pub monthly_from-enough :
    (fuel more year month end_year end_month : ℕ)
    → range_fuel year end_year ≤ fuel + (if leb month 12 then month else 12)
    → monthly_from (fuel + more) year month end_year end_month
      ≡ monthly_from fuel year month end_year end_month
unfolding monthly_from
monthly_from-enough zero zero y m ey em h = refl
monthly_from-enough zero (suc more) y m ey em h =
    let over : is_within y m ey em ≡ false = ground arith in
    let turn : zero + suc more ≡ suc more = omega arith in rw turn (rw over refl)
monthly_from-enough (suc fuel) more y m ey em h =
    let turn : suc fuel + more ≡ suc (fuel + more) = omega arith in
    ground (
      arith,
      turn,
      monthly_from-enough fuel more (y + 1) 1 ey em,
      monthly_from-enough fuel more y (m + 1) ey em,
    )
