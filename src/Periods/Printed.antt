-- ===== src/Periods/Printed.antt =====
-- A period code in the canonical form parses to its grain and its components.
use precis_finance_mcp.Common.{
  ℕ, ◌+◌, ◌*◌, ◌/◌, ◌%◌, ◌<◌, ◌≤◌, String, ◌≡◌, refl, arith, ap, ◌∙◌, true, some, List, [], ◌∷◌,
}
use precis_finance_mcp.Periods.{digit}
use precis_finance_mcp.Periods.Codes.{
  Grain, date, week, month, quarter, year, parse, detect_grain, matches, components_of, Piece,
  any_digit, dash, four_digits, pattern_of,
}

abbrev pub four : ℕ → String → String
four n text =
    String.◌∷◌ (digit (n / 1000))
      (String.◌∷◌ (digit (n / 100)) (String.◌∷◌ (digit (n / 10)) (String.◌∷◌ (digit n) text)))

abbrev pub two : ℕ → String → String
two n text = String.◌∷◌ (digit (n / 10)) (String.◌∷◌ (digit n) text)

-- The components of a period, and the code that the conventions of the source give it.
pub data Period : Type 0 where
  a_date : (y m d : ℕ) → Period
  a_week : (y w : ℕ) → Period
  a_month : (y m : ℕ) → Period
  a_quarter : (y q : ℕ) → Period
  a_year : (y : ℕ) → Period

abbrev pub code_text : Period → String
code_text (a_date y m d) = four y (String.◌∷◌ "-" (two m (String.◌∷◌ "-" (two d ""))))
code_text (a_week y w) = four y (String.◌∷◌ "-" (String.◌∷◌ "W" (two w "")))
code_text (a_month y m) = four y (String.◌∷◌ "-" (two m ""))
code_text (a_quarter y q) = four y (String.◌∷◌ "-" (String.◌∷◌ "Q" (String.◌∷◌ (digit q) "")))
code_text (a_year y) = four y ""

abbrev pub grain_of : Period → Grain
grain_of (a_date y m d) = date
grain_of (a_week y w) = week
grain_of (a_month y m) = month
grain_of (a_quarter y q) = quarter
grain_of (a_year y) = year

abbrev pub numbers_of : Period → List ℕ
numbers_of (a_date y m d) = y ∷ m ∷ d ∷ []
numbers_of (a_week y w) = y ∷ w ∷ []
numbers_of (a_month y m) = y ∷ m ∷ []
numbers_of (a_quarter y q) = y ∷ q ∷ []
numbers_of (a_year y) = y ∷ []

-- The numbers have as many digits as the code has places for them.
abbrev pub FitsCode : Period → Type 0
FitsCode (a_date y m d) = (y < 10000) × (m < 100) × (d < 100)
FitsCode (a_week y w) = (y < 10000) × (w < 100)
FitsCode (a_month y m) = (y < 10000) × (m < 100)
FitsCode (a_quarter y q) = (y < 10000) × (1 ≤ q) × (q ≤ 4)
FitsCode (a_year y) = y < 10000

four_lem :
    (n : ℕ) → n < 10000 → n / 1000 % 10 * 1000 + n / 100 % 10 * 100 + n / 10 % 10 * 10 + n % 10 ≡ n
four_lem n h = omega arith

two_lem : (n : ℕ) → n < 100 → n / 10 % 10 * 10 + n % 10 ≡ n
two_lem n h = omega arith

matches-four :
    (ps : List Piece) (n : ℕ) (s : String) → matches (four_digits ps) (four n s) ≡ matches ps s
unfolding matches
matches-four ps n s = ground arith

matches-two :
    (ps : List Piece) (n : ℕ) (s : String)
    → matches (any_digit ∷ any_digit ∷ ps) (two n s) ≡ matches ps s
unfolding matches
matches-two ps n s = ground arith

detect_grain-code_text : (p : Period) → FitsCode p → detect_grain (code_text p) ≡ some (grain_of p)
unfolding detect_grain
detect_grain-code_text (a_date y m d) h =
    let days = dash ∷ any_digit ∷ any_digit ∷ [] in
    let shaped : matches (pattern_of date) (code_text (a_date y m d)) ≡ true =
      matches-four (dash ∷ any_digit ∷ any_digit ∷ days) y
        (String.◌∷◌ "-" (two m (String.◌∷◌ "-" (two d ""))))
      ∙ (matches-two days m (String.◌∷◌ "-" (two d "")) ∙ matches-two [] d "") in
    rw (detect_grain, shaped) refl
detect_grain-code_text (a_week y w) h = ground arith
detect_grain-code_text (a_month y m) h = ground arith
detect_grain-code_text (a_quarter y q) h = ground arith
detect_grain-code_text (a_year y) h = ground arith

components_of-code_text :
    (p : Period) → FitsCode p → components_of (grain_of p) (code_text p) ≡ numbers_of p
components_of-code_text (a_date y m d) h =
    ground (arith, four_lem y h.0, two_lem m h.1, two_lem d h.2)
components_of-code_text (a_week y w) h = ground (arith, four_lem y h.0, two_lem w h.1)
components_of-code_text (a_month y m) h = ground (arith, four_lem y h.0, two_lem m h.1)
components_of-code_text (a_quarter y q) h = ground (arith, four_lem y h.0)
components_of-code_text (a_year y) h = ground (arith, four_lem y h)

-- If the numbers of a date, a week, a month, a quarter or a year have no more digits than its code has
-- places, and a quarter is one of four, its code parses to its grain and to these numbers.
pub parse-code_text :
    (p : Period)
    → FitsCode p
    → parse (code_text p)
      ≡ some (record { grain = grain_of p; raw = code_text p; components = numbers_of p })
unfolding parse
parse-code_text p h =
    rw (parse, detect_grain-code_text p h)
      (ap
        (λ (ns : List ℕ). some (record { grain = grain_of p; raw = code_text p; components = ns }))
        (components_of-code_text p h))
