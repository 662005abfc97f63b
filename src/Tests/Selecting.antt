-- ===== src/Tests/Selecting.antt =====
-- Period selection at concrete inputs.
use precis_finance_mcp.Common.{◌+◌, ◌/◌, ◌%◌, ◌≡◌, refl, arith, some, none, [], ◌∷◌, map, ok, err}
use precis_finance_mcp.Catalogue.{period_selection}
use precis_finance_mcp.Periods.{month_text, month_at, months_from}
use precis_finance_mcp.Periods.Select.{
  pos, negsuc, minus, shift_month, select_periods, Binding, Kind, Strategy, SelectionContext,
}
use precis_finance_mcp.Periods.Windows.{
  shift_month-month_at, select_periods-lookback, select_periods-watermark,
}

across_a_year : shift_month "2026-01" (negsuc 0) ≡ ok "2025-12"
unfolding shift_month month_text
across_a_year = refl

below_zero : shift_month "0000-02" (negsuc 13) ≡ ok "-002-12"
unfolding shift_month month_text
below_zero = refl

no_calendar_month : shift_month "2026-13" (pos 1) ≡ err period_selection
unfolding shift_month
no_calendar_month = refl

abbrev april : SelectionContext
april = record {
  now = record { year = 24315 / 12; month = 24315 % 12 + 1 };
  explicit_period = none;
  latest_loaded_period = some (month_at 24313);
  watermark_fallback_periods = 3;
}

abbrev binding_of : Strategy → Binding
binding_of strategy = record { kind = Kind.period; strategy = strategy; lookback_periods = 3 }

trailing :
    select_periods (binding_of Strategy.lookback) april
    ≡ ok (some "2026-02" ∷ some "2026-03" ∷ some "2026-04" ∷ [])
unfolding select_periods month_text
trailing = refl

after_the_latest :
    select_periods (binding_of Strategy.watermark) april ≡ ok (some "2026-03" ∷ some "2026-04" ∷ [])
unfolding select_periods month_text
after_the_latest = refl

shift_month-month_at_example :
    (shift_month (month_at 24315) (pos 5) ≡ ok (month_at 24320))
    × (shift_month (month_at 24315) (minus 5) ≡ ok (month_at 24310))
shift_month-month_at_example = shift_month-month_at 24315 5 (omega arith) (omega arith)

select_periods-lookback_example :
    select_periods (binding_of Strategy.lookback) april
    ≡ ok (map (λ p. some p) (months_from 24313 3))
select_periods-lookback_example =
    select_periods-lookback 3 24315 none (some (month_at 24313)) 3 (omega arith) (omega arith)

select_periods-watermark_example :
    select_periods (binding_of Strategy.watermark) april
    ≡ ok (map (λ p. some p) (months_from 24314 2))
select_periods-watermark_example =
    select_periods-watermark 24313 24315 3 none 3 (omega arith) (omega arith) (omega arith)
      (omega arith)
