-- ===== src/Dates/Laws.antt =====
-- Ordinals of dates: a step of a day is a step of one, and the order of dates is that of ordinals.
use china_a_share.Prelude.{
  ℕ, zero, suc, ◌+◌, ◌-◌, ◌≤◌, ◌≡◌, refl, some, if◌then◌else◌, arith, Option-cases, inl, inr,
}
use native.Mathlib.Numerals.{add-one}
use china_a_share.Dates.{
  Date, is_leap, days_in_month, IsDate, make_date, days_before_year, days_before_month, to_ordinal,
  day_before, minus_days, day_after, plus_days,
}

pub make_date-IsDate :
    (y m d : ℕ) {r : Date}
    → make_date y m d ≡ some r
    → IsDate r × (r.year ≡ y) × (r.month ≡ m) × (r.day ≡ d)
unfolding make_date
make_date-IsDate y m d h = ground arith

pub make_date_lem : (d : Date) → IsDate d → make_date d.year d.month d.day ≡ some d
unfolding make_date
make_date_lem d v = ground arith

pub days_in_month_bounds : (y m : ℕ) → (28 ≤ days_in_month y m) × (days_in_month y m ≤ 31)
unfolding days_in_month
days_in_month_bounds y m = ground arith

-- The year's length is 366 in a leap year and 365 in the others.
days_before_year-suc :
    (y : ℕ)
    → 1 ≤ y
    → days_before_year (y + 1) ≡ days_before_year y + (if is_leap y then 366 else 365)
unfolding days_before_year is_leap
days_before_year-suc y h = ground arith

days_before_month-suc :
    (y m : ℕ) → 1 ≤ m → days_before_month y (m + 1) ≡ days_before_month y m + days_in_month y m
unfolding days_before_month
days_before_month-suc y zero h = omega arith
days_before_month-suc y (suc m) h = rw add-one refl

days_before_december : (y : ℕ) → days_before_month y 12 + 31 ≡ (if is_leap y then 366 else 365)
unfolding days_before_month days_in_month
days_before_december y = ground arith

december : (y : ℕ) → days_in_month y 12 ≡ 31
unfolding days_in_month
december y = refl

january : (y : ℕ) → days_before_month y 1 ≡ 0
unfolding days_before_month
january y = refl

-- The day before is a date whose ordinal is one less.
pub day_before-to_ordinal :
    (d : Date) {e : Date}
    → IsDate d
    → day_before d ≡ some e
    → (to_ordinal e + 1 ≡ to_ordinal d) × IsDate e
unfolding day_before to_ordinal
day_before-to_ordinal d v h = ground (
  arith,
  days_in_month_bounds d.year (d.month - 1),
  days_before_month-suc d.year (d.month - 1),
  days_before_year-suc (d.year - 1),
  days_before_december (d.year - 1),
  december (d.year - 1),
  january d.year,
)

pub day_after-to_ordinal :
    (d : Date) {e : Date}
    → IsDate d
    → day_after d ≡ some e
    → (to_ordinal e ≡ to_ordinal d + 1) × IsDate e
unfolding day_after to_ordinal
day_after-to_ordinal d v h = ground (
  arith,
  days_in_month_bounds d.year (d.month + 1),
  days_before_month-suc d.year d.month,
  days_before_year-suc d.year,
  days_before_december d.year,
  december d.year,
  january (d.year + 1),
  days_in_month_bounds (d.year + 1) 1,
)

-- `d - timedelta(days=n)`, where it does not overflow, is the date `n` days before `d`.
pub minus_days-to_ordinal :
    (d : Date) (n : ℕ) {e : Date}
    → IsDate d
    → minus_days d n ≡ some e
    → (to_ordinal e + n ≡ to_ordinal d) × IsDate e
unfolding minus_days
minus_days-to_ordinal d zero v h = ground arith
minus_days-to_ordinal d (suc n) {e} v h = elim (Option-cases (day_before d)) [
  | inl no_day ↦ ground arith
  | inr (b, step) ↦
      let (one, valid) = day_before-to_ordinal d v step in
      let (more, result) = minus_days-to_ordinal b n {e = e} valid (ground arith) in
      (omega arith, result)
]

pub plus_days-to_ordinal :
    (d : Date) (n : ℕ) {e : Date}
    → IsDate d
    → plus_days d n ≡ some e
    → (to_ordinal e ≡ to_ordinal d + n) × IsDate e
unfolding plus_days
plus_days-to_ordinal d zero v h = ground arith
plus_days-to_ordinal d (suc n) {e} v h = elim (Option-cases (day_after d)) [
  | inl no_day ↦ ground arith
  | inr (b, step) ↦
      let (one, valid) = day_after-to_ordinal d v step in
      let (more, result) = plus_days-to_ordinal b n {e = e} valid (ground arith) in
      (omega arith, result)
]
