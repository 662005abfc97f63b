-- ===== src/Periods.antt =====
-- Calendar months as texts (precis_mcp/ingestion/period_selection.py and the monthly ranges of
-- precis_mcp/scope_resolver.py): the f-strings that print them and the slices that read them. Texts
-- are ASCII, and `int` is modelled on texts of digits: it raises `ValueError` on any other.
pub mod Months
pub mod Select
pub mod Windows
pub mod Codes
pub mod Printed
pub mod Shift
use Prim.Native.Nat.{compare, Ordering}
use Prim.Native.Char.{Char, code, IsScalar}
use precis_finance_mcp.Common.{
  ℕ, ◌+◌, ◌-◌, ◌*◌, ◌/◌, ◌%◌, String, Bool, true, false, ◌&&◌, if◌then◌else◌, ltb, leb, ◌≡◌, refl,
  arith, zero, suc, List, [], ◌∷◌, Result, ok, err, ◌>>=◌, ◌==◌,
}
use precis_finance_mcp.Catalogue.{Error, value_error}

pub ascii : (d : ℕ) → compare (48 + d % 10) 55296 ≡ Ordering.lt
ascii d = ground arith

pub digit_IsScalar : (d : ℕ) → compare (48 + d % 10) 55296 ≡ Ordering.lt → IsScalar (48 + d % 10)
digit_IsScalar d below = rw below tt

-- The last decimal digit of a number.
abbrev pub digit : ℕ → Char
digit n = Char.char (48 + n % 10) (digit_IsScalar n (ascii n))

-- `str(n)` in front of a text. A number has at most as many digits as its value and one more.
unfoldable pub decimal_before : ℕ → ℕ → String → String
decimal_before zero n text = text
decimal_before (suc fuel) n text =
    let more = String.◌∷◌ (digit n) text in
    elim (ltb n 10) [ true ↦ more | false ↦ decimal_before fuel (n / 10) more ]

-- `f"{n:02d}"` and `f"{n:04d}"` in front of a text, where zeros fill up short numbers.
unfoldable pub padded_two : ℕ → String → String
unfolding decimal_before
padded_two n text =
    if ltb n 100
    then String.◌∷◌ (digit (n / 10)) (String.◌∷◌ (digit n) text)
    else decimal_before n n text

unfoldable pub padded_four : ℕ → String → String
unfolding decimal_before
padded_four n text =
    if ltb n 10000
    then String.◌∷◌ (digit (n / 1000))
        (String.◌∷◌ (digit (n / 100)) (String.◌∷◌ (digit (n / 10)) (String.◌∷◌ (digit n) text)))
    else decimal_before n n text

-- `f"{year:04d}-{month:02d}"`
unfoldable pub month_text : ℕ → ℕ → String
unfolding padded_two padded_four
month_text year month = padded_four year (String.◌∷◌ "-" (padded_two month ""))

abbrev pub is_digit : Char → Bool
is_digit c = leb 48 (code c) && leb (code c) 57

-- `text.isdigit()`: there is a character, and all are digits.
abbrev pub all_digits : String → Bool
all_digits String.[] = true
all_digits (String.◌∷◌ c text) = is_digit c && all_digits text

abbrev pub digits_value : ℕ → String → ℕ
digits_value n String.[] = n
digits_value n (String.◌∷◌ c text) = digits_value (n * 10 + (code c - 48)) text

abbrev pub isdigit : String → Bool
isdigit String.[] = false
isdigit (String.◌∷◌ c text) = all_digits (String.◌∷◌ c text)

abbrev pub int_of : String → Result Error ℕ
int_of text = if isdigit text then ok (digits_value 0 text) else err value_error

-- `text[:n]` and `text[n:]`
abbrev pub before : ℕ → String → String
before zero text = ""
before (suc n) String.[] = ""
before (suc n) (String.◌∷◌ c text) = String.◌∷◌ c (before n text)

abbrev pub after : ℕ → String → String
after zero text = text
after (suc n) String.[] = ""
after (suc n) (String.◌∷◌ c text) = after n text

-- A month by its number: twelve times the year, and the month from zero.
abbrev pub month_at : ℕ → String
month_at n = month_text (n / 12) (n % 12 + 1)

-- So many months in a row.
abbrev pub months_from : ℕ → ℕ → List String
months_from n zero = []
months_from n (suc count) = month_at n ∷ months_from (suc n) count
