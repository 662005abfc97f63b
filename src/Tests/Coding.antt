-- ===== src/Tests/Coding.antt =====
-- Period codes and shifts at concrete inputs.
use precis_finance_mcp.Common.{◌≡◌, refl, arith, none, some, [], ◌∷◌, ok}
use precis_finance_mcp.Periods.{month_text}
use precis_finance_mcp.Periods.Select.{negsuc, shift_month}
use precis_finance_mcp.Periods.Codes.{
  date, week, matches, pattern_of, detect_grain, parse, is_grain, detect_grain-matches,
}
use precis_finance_mcp.Periods.Printed.{a_date, parse-code_text}
use precis_finance_mcp.Periods.Shift.{shift_period, shift_period-shift_month}

no_grain : detect_grain "2025-Q5" ≡ none
unfolding detect_grain
no_grain = refl

week_grain : detect_grain "2025-W37" ≡ some week
unfolding detect_grain
week_grain = refl

detect_grain-matches_example :
    is_grain week (detect_grain "2025-W37") ≡ matches (pattern_of week) "2025-W37"
detect_grain-matches_example = detect_grain-matches week "2025-W37"

parse-code_text_example :
    parse "2025-06-14"
    ≡ some (record { grain = date; raw = "2025-06-14"; components = 2025 ∷ 6 ∷ 14 ∷ [] })
parse-code_text_example = parse-code_text (a_date 2025 6 14) (omega arith)

shifts_back : shift_month "2025-01" (negsuc 12) ≡ ok "2023-12"
unfolding shift_month month_text
shifts_back = refl

shift_period-shift_month_example : shift_period "2025-01" (negsuc 12) ≡ ok "2023-12"
shift_period-shift_month_example =
    shift_period-shift_month "2025-01" (negsuc 12) "2023-12" shifts_back
