-- ===== src/Dates.antt =====
-- The calendar dates and clock readings of Python's `datetime`, as far as the program uses them.
pub mod Laws
pub mod Print
use china_a_share.Prelude.{
  ℕ, zero, suc, ◌+◌, ◌-◌, ◌*◌, ◌/◌, ◌%◌, ◌≤◌, ◌≡◌, Bool, true, false, ◌&&◌, ◌||◌, not, Option, none,
  some, ltb, leb, nat_beq, if◌then◌else◌, List, [], ◌∷◌, Eq, arith, Text,
}

pub record Date : Type 0 where
  pub year : ℕ
  pub month : ℕ
  pub day : ℕ

unfoldable pub is_leap : ℕ → Bool
is_leap y = nat_beq (y % 4) 0 && (not (nat_beq (y % 100) 0) || nat_beq (y % 400) 0)

-- `calendar.monthrange(year, month)[1]`, for a month from 1 to 12.
unfoldable pub days_in_month : ℕ → ℕ → ℕ
unfolding is_leap
days_in_month y m =
    if nat_beq m 2
    then (if is_leap y then 29 else 28)
    else if nat_beq m 4 || nat_beq m 6 || nat_beq m 9 || nat_beq m 11
    then 30
    else 31

-- The dates that `date(year, month, day)` makes without `ValueError`.
pub record IsDate (d : Date) : Type 0 where
  pub year_pos : 1 ≤ d.year
  pub year_le : d.year ≤ 9999
  pub month_pos : 1 ≤ d.month
  pub month_le : d.month ≤ 12
  pub day_pos : 1 ≤ d.day
  pub day_le : d.day ≤ days_in_month d.year d.month

unfoldable pub make_date : ℕ → ℕ → ℕ → Option Date
make_date y m d =
    if leb 1 y && leb y 9999 && leb 1 m && leb m 12 && leb 1 d && leb d (days_in_month y m)
    then some (record { year = y; month = m; day = d })
    else none

abbrev pub date_beq : Date → Date → Bool
date_beq a b = nat_beq a.year b.year && nat_beq a.month b.month && nat_beq a.day b.day

-- `a < b` and `a <= b` on dates.
unfoldable pub date_lt : Date → Date → Bool
date_lt a b =
    ltb a.year b.year
    || (nat_beq a.year b.year
        && (ltb a.month b.month || (nat_beq a.month b.month && ltb a.day b.day)))

unfoldable pub date_le : Date → Date → Bool
unfolding date_lt
date_le a b = not (date_lt b a)

-- The days before January 1 of a year, and before the first of a month.
unfoldable pub days_before_year : ℕ → ℕ
days_before_year y = let p = y - 1 in p * 365 + p / 4 - p / 100 + p / 400

unfoldable pub days_before_month : ℕ → ℕ → ℕ
days_before_month y zero = 0
days_before_month y (suc zero) = 0
days_before_month y (suc (suc m)) = days_before_month y (suc m) + days_in_month y (suc m)

-- `toordinal()`: day 1 is January 1 of year 1.
unfoldable pub to_ordinal : Date → ℕ
to_ordinal d = days_before_year d.year + days_before_month d.year d.month + d.day

-- Monday is 0.
unfoldable pub weekday : Date → ℕ
weekday d = (to_ordinal d + 6) % 7

-- The day before; `none` is the `OverflowError` before year 1.
unfoldable pub day_before : Date → Option Date
day_before d =
    if ltb 1 d.day
    then some (record d { day = d.day - 1 })
    else if ltb 1 d.month
    then some
        (record { year = d.year; month = d.month - 1; day = days_in_month d.year (d.month - 1) })
    else if ltb 1 d.year
    then some (record { year = d.year - 1; month = 12; day = 31 })
    else none

-- `d - timedelta(days=n)`
unfoldable pub minus_days : Date → ℕ → Option Date
minus_days d zero = some d
minus_days d (suc n) = elim (day_before d) [ none ↦ none | some e ↦ minus_days e n ]

-- The day after; `none` is the `OverflowError` past year 9999.
unfoldable pub day_after : Date → Option Date
day_after d =
    if ltb d.day (days_in_month d.year d.month)
    then some (record d { day = d.day + 1 })
    else if ltb d.month 12
    then some (record { year = d.year; month = d.month + 1; day = 1 })
    else if ltb d.year 9999
    then some (record { year = d.year + 1; month = 1; day = 1 })
    else none

-- `d + timedelta(days=n)`
unfoldable pub plus_days : Date → ℕ → Option Date
plus_days d zero = some d
plus_days d (suc n) = elim (day_after d) [ none ↦ none | some e ↦ plus_days e n ]
