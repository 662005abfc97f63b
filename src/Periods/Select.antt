-- ===== src/Periods/Select.antt =====
-- The choice of the periods to load (precis_mcp/ingestion/period_selection.py): arithmetic of months
-- on texts, and the three strategies. Of a binding and of a datetime the fields that are read here.
use precis_finance_mcp.Common.{
  ℕ, ◌+◌, ◌-◌, ◌*◌, ◌/◌, ◌%◌, zero, suc, String, Bool, true, false, not, ◌&&◌, ◌||◌, Option, none,
  some, List, [], ◌∷◌, map, ◌==◌, if◌then◌else◌, ltb, leb, eqb, Result, ok, err, ◌>>=◌, ◌>>◌,
  raise_if,
}
use precis_finance_mcp.Catalogue.{Error, value_error, period_selection}
use precis_finance_mcp.Periods.{
  digit, decimal_before, padded_two, month_text, month_at, isdigit, int_of, before, after,
}

-- `negsuc n` is -(n + 1).
pub data ℤ : Type 0 where
  negsuc : (below : ℕ) → ℤ
  pos : (number : ℕ) → ℤ

abbrev pub minus : ℕ → ℤ
minus zero = pos 0
minus (suc i) = negsuc i

-- A number plus an integer.
unfoldable pub plus : ℕ → ℤ → ℤ
plus n (pos d) = pos (n + d)
plus n (negsuc d) = if ltb d n then pos (n - (d + 1)) else negsuc (d - n)

-- `f"{year:04d}"` of a year below zero: the sign counts among the four.
negative_year : ℕ → String → String
unfolding decimal_before
negative_year n text = String.◌∷◌ "-" (
    if ltb n 1000
    then String.◌∷◌ (digit (n / 100)) (String.◌∷◌ (digit (n / 10)) (String.◌∷◌ (digit n) text))
    else decimal_before n n text)

-- `divmod(total, 12)`, rounding down, and the text of the month.
unfoldable pub month_of_total : ℤ → String
unfolding negative_year padded_two
month_of_total (pos n) = month_at n
month_of_total (negsuc n) =
    negative_year (n / 12 + 1) (String.◌∷◌ "-" (padded_two (11 - n % 12 + 1) ""))

abbrev pub text_length : String → ℕ
text_length String.[] = 0
text_length (String.◌∷◌ c text) = suc (text_length text)

-- The first guard of `_parse_calendar_period`.
abbrev pub is_shaped : String → Bool
is_shaped period =
    eqb (text_length period) 7
    && ((before 1 (after 4 period) == "-")
        && (isdigit (before 4 period) && isdigit (after 5 period)))

unfoldable pub parse_calendar_period : String → Result Error (ℕ × ℕ)
parse_calendar_period period = do
  raise_if (not (is_shaped period)) period_selection
  year ← int_of (before 4 period)
  month ← int_of (after 5 period)
  raise_if (not (leb 1 month && leb month 12)) period_selection
  ok (year, month)

-- `datetime(year, month, 1)` raises `ValueError` for the year zero.
unfoldable pub period_to_first_of_month : String → Result Error (ℕ × ℕ)
unfolding parse_calendar_period
period_to_first_of_month period = do
  first ← parse_calendar_period period
  raise_if (eqb first.0 0) value_error
  ok first

unfoldable pub shift_month : String → ℤ → Result Error String
unfolding parse_calendar_period plus month_of_total
shift_month period delta =
    parse_calendar_period period >>= λ p. ok (month_of_total (plus (p.0 * 12 + (p.1 - 1)) delta))

-- A datetime's year and month.
pub record Instant : Type 0 where
  pub year : ℕ
  pub month : ℕ

abbrev pub datetime_to_period : Instant → String
datetime_to_period dt = month_text dt.year dt.month

pub data Kind : Type 0 where
  period snapshot : Kind

pub data Strategy : Type 0 where
  lookback explicit watermark : Strategy

pub record Binding : Type 0 where
  pub kind : Kind
  pub strategy : Strategy
  pub lookback_periods : ℕ

pub record SelectionContext : Type 0 where
  pub now : Instant
  pub explicit_period : Option String
  pub latest_loaded_period : Option String
  pub watermark_fallback_periods : ℕ

-- `[shift_month(end, -i) for i in range(n - 1, -1, -1)]`
unfoldable pub trailing_months : String → ℕ → Result Error (List String)
unfolding shift_month
trailing_months end zero = ok []
trailing_months end (suc i) = do
  p ← shift_month end (minus i)
  rest ← trailing_months end i
  ok (p ∷ rest)

select_explicit : Option String → Result Error (List String)
select_explicit none = err period_selection
select_explicit (some p) = if p == "" then err period_selection else ok (p ∷ [])

-- `<=` on the first days of months.
abbrev pub is_until : ℕ × ℕ → ℕ × ℕ → Bool
is_until a b = ltb a.0 b.0 || (eqb a.0 b.0 && leb a.1 b.1)

-- The loop of the watermark strategy, by its safety counter. The cursor is read before the counter
-- is tested.
unfoldable pub walk_forward : ℕ → String → ℕ × ℕ → Result Error (List String)
unfolding period_to_first_of_month shift_month
walk_forward zero cursor end_idx = period_to_first_of_month cursor >>= λ _. ok []
walk_forward (suc safety) cursor end_idx = period_to_first_of_month cursor >>= λ first.
    elim (is_until first end_idx) [
      | false ↦ ok []
      | true ↦ shift_month cursor (pos 1) >>= λ next.
          walk_forward safety next end_idx >>= λ out. ok (cursor ∷ out)
    ]

unfoldable pub select_watermark : SelectionContext → Result Error (List String)
unfolding trailing_months walk_forward
select_watermark ctx =
    let tick_period = datetime_to_period ctx.now in
    elim ctx.latest_loaded_period [
      | none ↦ trailing_months tick_period ctx.watermark_fallback_periods
      | some latest ↦ do
        cursor ← shift_month latest (pos 1)
        end_idx ← period_to_first_of_month tick_period
        walk_forward 240 cursor end_idx
    ]

abbrev pub each_some : Result Error (List String) → Result Error (List (Option String))
each_some (ok periods) = ok (map (λ p. some p) periods)
each_some (err e) = err e

unfoldable pub select_periods : Binding → SelectionContext → Result Error (List (Option String))
unfolding trailing_months select_explicit select_watermark
select_periods binding ctx = elim binding.kind [
  | Kind.snapshot ↦ ok (none ∷ [])
  | Kind.period ↦ elim binding.strategy [
    | Strategy.lookback ↦
        each_some (trailing_months (datetime_to_period ctx.now) binding.lookback_periods)
    | Strategy.explicit ↦ each_some (select_explicit ctx.explicit_period)
    | Strategy.watermark ↦ each_some (select_watermark ctx)
  ]
]
