-- ===== src/Dates/Print.antt =====
-- `date.isoformat()`, `date.fromisoformat` and the `strptime` formats that the program reads. Digits
-- are the ASCII ones; the week forms of `fromisoformat`, which nothing here writes, are not read.
use china_a_share.Prelude.{
  ℕ, ◌+◌, ◌-◌, ◌*◌, ◌/◌, ◌%◌, ◌<◌, ◌≡◌, Bool, true, false, ◌&&◌, not, Option, none, some, leb,
  nat_beq, if◌then◌else◌, List, [], ◌∷◌, arith, Text,
}
use china_a_share.Prelude.Texts.{split_on}
use china_a_share.Dates.{Date, IsDate, make_date}
use china_a_share.Dates.Laws.{make_date_lem, days_in_month_bounds}

abbrev pub digit : ℕ → ℕ
digit n = n + b'0'

unfoldable pub is_digit : ℕ → Bool
is_digit c = leb b'0' c && leb c b'9'

-- Two and four digits, with leading zeros.
abbrev pub two_digits : ℕ → Text
two_digits n = digit (n / 10) ∷ digit (n % 10) ∷ []

unfoldable pub isoformat : Date → Text
isoformat d =
    digit (d.year / 1000)
    ∷ digit (d.year / 100 % 10)
    ∷ digit (d.year / 10 % 10)
    ∷ digit (d.year % 10)
    ∷ b'-'
    ∷ digit (d.month / 10)
    ∷ digit (d.month % 10)
    ∷ b'-'
    ∷ digit (d.day / 10)
    ∷ digit (d.day % 10)
    ∷ []

-- The value of one to four digits.
unfoldable pub number : Text → Option ℕ
number (a ∷ []) = if is_digit a then some (a - b'0') else none
number (a ∷ b ∷ []) = if is_digit a && is_digit b then some ((a - b'0') * 10 + (b - b'0')) else none
number (a ∷ b ∷ c ∷ d ∷ []) =
    if is_digit a && is_digit b && is_digit c && is_digit d
    then some ((a - b'0') * 1000 + (b - b'0') * 100 + (c - b'0') * 10 + (d - b'0'))
    else none
number _ = none

unfoldable pub date_of : Option ℕ → Option ℕ → Option ℕ → Option Date
date_of (some y) (some m) (some d) = make_date y m d
date_of _ _ _ = none

-- `date.fromisoformat`: `YYYY-MM-DD` and `YYYYMMDD`; `none` is the `ValueError`.
unfoldable pub from_isoformat : Text → Option Date
unfolding date_of
from_isoformat (a ∷ b ∷ c ∷ d ∷ e ∷ f ∷ g ∷ h ∷ i ∷ j ∷ []) =
    if nat_beq e b'-' && nat_beq h b'-'
    then date_of (number (a ∷ b ∷ c ∷ d ∷ [])) (number (f ∷ g ∷ [])) (number (i ∷ j ∷ []))
    else none
from_isoformat (a ∷ b ∷ c ∷ d ∷ e ∷ f ∷ g ∷ h ∷ []) =
    date_of (number (a ∷ b ∷ c ∷ d ∷ [])) (number (e ∷ f ∷ [])) (number (g ∷ h ∷ []))
from_isoformat _ = none

is_digit-digit : (n : ℕ) → n < 10 → is_digit (digit n) ≡ true
unfolding is_digit
is_digit-digit n h = ground arith

number_two : (n : ℕ) → n < 100 → number (two_digits n) ≡ some n
unfolding number
number_two n h = ground (arith, is_digit-digit (n / 10), is_digit-digit (n % 10))

number_four :
    (n : ℕ)
    → n < 10_000
    → number (digit (n / 1000) ∷ digit (n / 100 % 10) ∷ digit (n / 10 % 10) ∷ digit (n % 10) ∷ [])
      ≡ some n
unfolding number
number_four n h = ground (
  arith,
  is_digit-digit (n / 1000),
  is_digit-digit (n / 100 % 10),
  is_digit-digit (n / 10 % 10),
  is_digit-digit (n % 10),
)

-- What is printed is read back.
pub from_isoformat-isoformat : (d : Date) → IsDate d → from_isoformat (isoformat d) ≡ some d
unfolding from_isoformat isoformat date_of
from_isoformat-isoformat d v =
    let short = days_in_month_bounds d.year d.month in
    rw
      (
        number_four d.year (omega arith),
        number_two d.month (omega arith),
        number_two d.day (omega arith),
      )
      (make_date_lem d v)

-- `strptime` reads a field of one or two digits, a day also as a space and a digit.
unfoldable pub short_field : Text → Option ℕ
short_field (a ∷ []) = if is_digit a && not (nat_beq a b'0') then some (a - b'0') else none
short_field (a ∷ b ∷ []) =
    if is_digit a && is_digit b then some ((a - b'0') * 10 + (b - b'0')) else none
short_field _ = none

unfoldable pub day_field : Text → Option ℕ
day_field (a ∷ b ∷ []) = if nat_beq a b' ' then short_field (b ∷ []) else short_field (a ∷ b ∷ [])
day_field s = short_field s

unfoldable pub year_field : Text → Option ℕ
year_field (a ∷ b ∷ c ∷ d ∷ []) = number (a ∷ b ∷ c ∷ d ∷ [])
year_field _ = none

-- `strptime(s, "%Y-%m-%d").date()`, of the parts between the dashes.
unfoldable pub strptime_parts : List Text → Option Date
unfolding date_of day_field year_field
strptime_parts (y ∷ m ∷ d ∷ []) = date_of (year_field y) (short_field m) (day_field d)
strptime_parts _ = none

unfoldable pub strptime_dashed : Text → Option Date
unfolding strptime_parts
strptime_dashed s = strptime_parts (split_on b'-' s)

digit_ne_dash : (n : ℕ) → nat_beq (digit n) b'-' ≡ false
digit_ne_dash n = ground arith

split_on-isoformat :
    (d : Date)
    → split_on b'-' (isoformat d)
      ≡ (digit (d.year / 1000)
          ∷ digit (d.year / 100 % 10)
          ∷ digit (d.year / 10 % 10)
          ∷ digit (d.year % 10)
          ∷ [])
        ∷ two_digits d.month
        ∷ two_digits d.day
        ∷ []
unfolding split_on isoformat
split_on-isoformat d = simp digit_ne_dash

short_field_two : (n : ℕ) → n < 100 → short_field (two_digits n) ≡ some n
unfolding short_field
short_field_two n h = ground (arith, is_digit-digit (n / 10), is_digit-digit (n % 10))

-- A date in its ISO form is what `strptime` with `%Y-%m-%d` reads.
pub strptime_dashed-isoformat : (d : Date) → IsDate d → strptime_dashed (isoformat d) ≡ some d
unfolding strptime_dashed
strptime_dashed-isoformat d v =
    let short = days_in_month_bounds d.year d.month in
    rw split_on-isoformat (
      ground (
        arith,
        number_four d.year,
        short_field_two d.month,
        short_field_two d.day,
        make_date_lem d,
      ))
