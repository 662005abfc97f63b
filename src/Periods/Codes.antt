-- ===== src/Periods/Codes.antt =====
-- Period codes (precis_mcp/engine/period_codes.py): the grain of a code is read off its shape. A digit
-- is an ASCII digit; as in the source's patterns, a line end may follow the code.
use Prim.Native.Char.{Char, code}
use precis_finance_mcp.Common.{
  ℕ, String, ◌≡◌, refl, arith, Bool, true, false, not, ◌&&◌, ◌||◌, Option, none, some, List, [],
  ◌∷◌, ◌==◌, if◌then◌else◌, eqb, leb,
}
use precis_finance_mcp.Periods.{is_digit, digits_value, before, after}

pub data Grain : Type 0 where
  date week month quarter year : Grain

-- What a pattern asks of one character.
pub data Piece : Type 0 where
  any_digit quarter_digit dash week_mark quarter_mark : Piece

abbrev pub fits : Piece → Char → Bool
fits any_digit c = is_digit c
fits quarter_digit c = leb 49 (code c) && leb (code c) 52
fits dash c = eqb (code c) 45
fits week_mark c = eqb (code c) 87
fits quarter_mark c = eqb (code c) 81

-- A pattern between `^` and `$`, which also stands before a last line end.
unfoldable pub matches : List Piece → String → Bool
matches [] String.[] = true
matches [] (String.◌∷◌ c s) = eqb (code c) 10 && s == ""
matches (piece ∷ pieces) String.[] = false
matches (piece ∷ pieces) (String.◌∷◌ c s) = fits piece c && matches pieces s

abbrev pub four_digits : List Piece → List Piece
four_digits pieces = any_digit ∷ any_digit ∷ any_digit ∷ any_digit ∷ pieces

-- `_GRAMMARS`, in the order in which they are tried.
abbrev pub pattern_of : Grain → List Piece
pattern_of date = four_digits (dash ∷ any_digit ∷ any_digit ∷ dash ∷ any_digit ∷ any_digit ∷ [])
pattern_of week = four_digits (dash ∷ week_mark ∷ any_digit ∷ any_digit ∷ [])
pattern_of month = four_digits (dash ∷ any_digit ∷ any_digit ∷ [])
pattern_of quarter = four_digits (dash ∷ quarter_mark ∷ quarter_digit ∷ [])
pattern_of year = four_digits []

abbrev pub grammars : List Grain
grammars = date ∷ week ∷ month ∷ quarter ∷ year ∷ []

unfoldable pub detect : List Grain → String → Option Grain
unfolding matches
detect [] text = none
detect (grain ∷ grains) text =
    let later = detect grains text in if matches (pattern_of grain) text then some grain else later

unfoldable pub detect_grain : String → Option Grain
unfolding detect
detect_grain text = detect grammars text

pub record PeriodCode : Type 0 where
  pub grain : Grain
  pub raw : String
  pub components : List ℕ

-- `int(m.group(f))`: a group is a part of the text, and has digits alone.
abbrev pub group : ℕ → ℕ → String → ℕ
group start size text = digits_value 0 (before size (after start text))

-- `_COMPONENTS`, with where each group stands.
abbrev pub components_of : Grain → String → List ℕ
components_of date text = group 0 4 text ∷ group 5 2 text ∷ group 8 2 text ∷ []
components_of week text = group 0 4 text ∷ group 6 2 text ∷ []
components_of month text = group 0 4 text ∷ group 5 2 text ∷ []
components_of quarter text = group 0 4 text ∷ group 6 1 text ∷ []
components_of year text = group 0 4 text ∷ []

unfoldable pub parse : String → Option PeriodCode
unfolding detect_grain
parse text = elim (detect_grain text) [
  | none ↦ none
  | some grain ↦ some (record { grain = grain; raw = text; components = components_of grain text })
]

abbrev kind : Piece → ℕ
kind any_digit = 0
kind quarter_digit = 0
kind dash = 1
kind week_mark = 2
kind quarter_mark = 3

-- Whether two patterns ask for different kinds of characters somewhere, or differ in length.
abbrev clash : List Piece → List Piece → Bool
clash [] [] = false
clash [] (q ∷ qs) = true
clash (p ∷ ps) [] = true
clash (p ∷ ps) (q ∷ qs) = not (eqb (kind p) (kind q)) || clash ps qs

fits_apart :
    (p q : Piece) (c : Char) → eqb (kind p) (kind q) ≡ false → fits p c ≡ true → fits q c ≡ false
fits_apart p q c differ h = ground arith

fits_line_end : (p : Piece) (c : Char) → fits p c ≡ true → eqb (code c) 10 ≡ false
fits_line_end p c h = ground arith

matches_apart :
    (ps qs : List Piece) (s : String)
    → clash ps qs ≡ true
    → matches ps s ≡ true
    → matches qs s ≡ false
unfolding matches
matches_apart [] [] s differ h = cc
matches_apart [] (q ∷ qs) String.[] differ h = refl
matches_apart [] (q ∷ qs) (String.◌∷◌ c s) differ h = ground (arith, fits_line_end q c)
matches_apart (p ∷ ps) qs String.[] differ h = cc
matches_apart (p ∷ ps) [] (String.◌∷◌ c s) differ h = ground (arith, fits_line_end p c)
matches_apart (p ∷ ps) (q ∷ qs) (String.◌∷◌ c s) differ h =
    ground (arith, fits_apart p q c, matches_apart ps qs s)

abbrev pub is_grain : Grain → Option Grain → Bool
is_grain g none = false
is_grain date (some g) = elim g [ date ↦ true | _ ↦ false ]
is_grain week (some g) = elim g [ week ↦ true | _ ↦ false ]
is_grain month (some g) = elim g [ month ↦ true | _ ↦ false ]
is_grain quarter (some g) = elim g [ quarter ↦ true | _ ↦ false ]
is_grain year (some g) = elim g [ year ↦ true | _ ↦ false ]

-- Whatever the text: the grain that is detected is the one whose pattern it matches, and there is
-- none only where it matches no pattern. So the order in which the patterns are tried is of no
-- account.
pub detect_grain-matches :
    (g : Grain) (text : String) → is_grain g (detect_grain text) ≡ matches (pattern_of g) text
unfolding detect_grain
detect_grain-matches g text = ground (
  arith,
  matches_apart (pattern_of week) (pattern_of date) text refl,
  matches_apart (pattern_of month) (pattern_of date) text refl,
  matches_apart (pattern_of month) (pattern_of week) text refl,
  matches_apart (pattern_of quarter) (pattern_of date) text refl,
  matches_apart (pattern_of quarter) (pattern_of week) text refl,
  matches_apart (pattern_of quarter) (pattern_of month) text refl,
  matches_apart (pattern_of year) (pattern_of date) text refl,
  matches_apart (pattern_of year) (pattern_of week) text refl,
  matches_apart (pattern_of year) (pattern_of month) text refl,
  matches_apart (pattern_of year) (pattern_of quarter) text refl,
)
