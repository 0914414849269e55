-- ===== src/Vix/Source/Laws.antt =====
-- vix/source.py: what a parsed quote is, which attempt is used, and what the Eastern clock shows.
use china_a_share.Prelude.{
  ℕ, zero, suc, ◌+◌, ◌-◌, ◌*◌, ◌≤◌, ◌<◌, ◌≡◌, ◌↔◌, ◌⊎◌, inl, inr, true, false, Option, none, some,
  Text, text, text_eq, Result, ok, raised, arith, Fault, Option-cases, Result-cases, ◌>>=◌, List,
  [], ◌∷◌,
}
use native.Mathlib.Nat.{add-zero, add-suc, suc-add}
use china_a_share.Prelude.Texts.{strip, split_on}
use china_a_share.Floats.{Float}
use china_a_share.Dates.{Date, IsDate, date_beq, weekday, date_lt, day_before, to_ordinal}
use china_a_share.Dates.Laws.{make_date-IsDate, day_before-to_ordinal}
use china_a_share.Dates.Print.{
  isoformat, strptime_dashed, strptime_parts, date_of, strptime_dashed-isoformat,
}
use china_a_share.Vix.Source.{
  Moment, VixQuote, evaluable, Row, or_else, slash_parts, first_part, parse_slash_date,
  required_float, parse_vix_quote, fetch_from, fetch_quote, get_or_empty, nth_weekday, hour_lt,
  us_dst_active, minus_hours, eastern_wall_clock,
}

date_of-IsDate : (y m d : Option ℕ) {r : Date} → date_of y m d ≡ some r → IsDate r
unfolding date_of
date_of-IsDate none m d h = cc
date_of-IsDate (some y) none d h = cc
date_of-IsDate (some y) (some m) none h = cc
date_of-IsDate (some y) (some m) (some d) h = (make_date-IsDate y m d h).0

strptime_parts-IsDate : (ps : List Text) {r : Date} → strptime_parts ps ≡ some r → IsDate r
unfolding strptime_parts
strptime_parts-IsDate (y ∷ m ∷ d ∷ []) h = date_of-IsDate _ _ _ h
strptime_parts-IsDate _ h = cc

slash_parts-IsDate : (ps : List Text) {r : Date} → slash_parts ps ≡ some r → IsDate r
unfolding slash_parts
slash_parts-IsDate (m ∷ d ∷ y ∷ []) h = date_of-IsDate _ _ _ h
slash_parts-IsDate _ h = cc

or_else-IsDate :
    (s t : Text) {r : Date} → or_else (strptime_dashed s) (parse_slash_date t) ≡ some r → IsDate r
unfolding strptime_dashed parse_slash_date
or_else-IsDate s t h = elim (Option-cases (strptime_dashed s)) [
  | inl e ↦ slash_parts-IsDate (split_on b'/' (first_part (split_on b' ' t))) (ground arith)
  | inr (d, e) ↦ strptime_parts-IsDate (split_on b'-' s) (ground arith)
]

date_beq_iff : (a b : Date) → (date_beq a b ≡ true) ↔ (a ≡ b)
date_beq_iff a b = ground arith

module _ {F : Type 0} ⦃f : Float F⦄ where
  open f use {le, cents}

  required_float_pos :
      (row : Row) (k : Text) {x : F} → required_float row k ≡ ok x → le x (cents 0) ≡ false
  unfolding required_float
  required_float_pos row k h = ground arith

  -- A quote that parses has levels that are not at or below zero, and a date in its ISO form.
  pub record IsQuote (q : VixQuote F) : Type 0 where
    pub close_pos : le q.close (cents 0) ≡ false
    pub prev_pos : le q.prev_close (cents 0) ≡ false
    pub day : Date
    pub day_valid : IsDate day
    pub date_printed : q.date ≡ isoformat day

  -- A quote that parses has levels that are not at or below zero and as its date the ISO form of a
  -- valid date.
  pub parse_vix_quote-IsQuote :
      (rows : List Row) {q : VixQuote F} → parse_vix_quote rows ≡ ok q → IsQuote q
  unfolding parse_vix_quote
  parse_vix_quote-IsQuote [] h = cc
  parse_vix_quote-IsQuote (row ∷ rows) {q} h =
      let last = strip (get_or_empty (text "last_time") row) in
      let timed = get_or_empty (text "last_timedate") row in
      elim (Option-cases (or_else (strptime_dashed last) (parse_slash_date timed))) [
        | inl e ↦ ground arith
        | inr (d, e) ↦ record {
          close_pos = required_float_pos row (text "last") (ground arith);
          prev_pos = ground arith;
          day = d;
          day_valid = or_else-IsDate last timed e;
          date_printed = ground arith;
        }
      ]

  -- A quote with a valid printed date may drive alerts just on the Eastern day that is its own.
  pub evaluable_iff :
      (q : VixQuote F) (v : IsQuote q) (now : Moment)
      → (evaluable q now ≡ true) ↔ (v.day ≡ now.date)
  unfolding evaluable
  evaluable_iff q v now =
      rw (v.date_printed, strptime_dashed-isoformat v.day v.day_valid) (date_beq_iff v.day now.date)

  fetch_from-some :
      (get : ℕ → Result (List Row)) (left i : ℕ) {q : VixQuote F}
      → fetch_from get left i ≡ some q
      → (k : ℕ) × (k < left)
        × ((get (i + k) >>= parse_vix_quote) ≡ ok q)
        × ((j : ℕ) → j < k → (e : Fault) × ((get (i + j) >>= parse_vix_quote {F = F}) ≡ raised e))
  unfolding fetch_from
  fetch_from-some get zero i h = cc
  fetch_from-some get (suc left) i {q} h = elim (Result-cases (get i >>= parse_vix_quote {F = F})) [
    | inl (a, e) ↦ (0, omega arith, rw add-zero (ground arith), λ j n. absurd (omega arith))
    | inr (x, e) ↦
        let (k, lt, good, bad) = fetch_from-some get left (suc i) {q = q} (ground arith) in
        (suc k, omega arith, rw (add-suc, ← suc-add) good, earlier x e k bad)
  ]
    where
      earlier :
          (x : Fault)
          → (get i >>= parse_vix_quote {F = F}) ≡ raised x
          → (k : ℕ)
          → ((j : ℕ)
              → j < k
              → (e : Fault) × ((get (suc i + j) >>= parse_vix_quote {F = F}) ≡ raised e))
          → (j : ℕ) → j < suc k
          → (e : Fault) × ((get (i + j) >>= parse_vix_quote {F = F}) ≡ raised e)
      earlier x e k bad zero n = (x, rw add-zero e)
      earlier x e k bad (suc j) n = rw (add-suc, ← suc-add) (bad j (omega arith))

  fetch_from-none :
      (get : ℕ → Result (List Row)) (left i : ℕ)
      → fetch_from {F = F} get left i ≡ none
      → (j : ℕ) → j < left
      → (e : Fault) × ((get (i + j) >>= parse_vix_quote {F = F}) ≡ raised e)
  unfolding fetch_from
  fetch_from-none get zero i h j n = absurd (omega arith)
  fetch_from-none get (suc left) i h j n = elim (Result-cases (get i >>= parse_vix_quote {F = F})) [
    | inl (a, e) ↦ ground arith
    | inr (x, e) ↦ at x e (fetch_from-none get left (suc i) (ground arith)) j n
  ]
    where
      at :
          (x : Fault)
          → (get i >>= parse_vix_quote {F = F}) ≡ raised x
          → ((j : ℕ)
              → j < left
              → (e : Fault) × ((get (suc i + j) >>= parse_vix_quote {F = F}) ≡ raised e))
          → (j : ℕ) → j < suc left
          → (e : Fault) × ((get (i + j) >>= parse_vix_quote {F = F}) ≡ raised e)
      at x e bad zero n = (x, rw add-zero e)
      at x e bad (suc j) n = rw (add-suc, ← suc-add) (bad j (omega arith))

  -- A fetched quote is that of the first of three attempts whose payload parses, each attempt
  -- before it having raised; if there is none, all three attempts raised.
  pub fetch_quote_first :
      (get : ℕ → Result (List Row))
      → ((q : VixQuote F)
          → fetch_quote get ≡ some q
          → (k : ℕ) × (k < 3)
            × ((get (1 + k) >>= parse_vix_quote) ≡ ok q)
            × ((j : ℕ)
                → j < k
                → (e : Fault) × ((get (1 + j) >>= parse_vix_quote {F = F}) ≡ raised e)))
        × (fetch_quote {F = F} get ≡ none
            → (j : ℕ) → j < 3
            → (e : Fault) × ((get (1 + j) >>= parse_vix_quote {F = F}) ≡ raised e))
  unfolding fetch_quote
  fetch_quote_first get = (λ q h. fetch_from-some get 3 1 h, λ h. fetch_from-none get 3 1 h)

weekday_mod : (d : Date) → weekday d < 7
unfolding weekday
weekday_mod d = omega arith

-- For n from 1 and a weekday below 7, the n-th such day of a month falls on that weekday and in the
-- month's n-th seven days.
pub nth_weekday_lem :
    (y m w n : ℕ)
    → 1 ≤ n
    → w < 7
    → let d = nth_weekday y m w n in
      (weekday (record { year = y; month = m; day = d }) ≡ w) × (7 * (n - 1) < d) × (d ≤ 7 * n)
unfolding nth_weekday weekday to_ordinal
nth_weekday_lem y m w n h k = omega arith

-- Hours since the day before January 1 of year 1.
abbrev pub hours_of : Moment → ℕ
hours_of m = to_ordinal m.date * 24 + m.hour

minus_hours_lem :
    (m : Moment) (h : ℕ) {r : Moment}
    → IsDate m.date
    → h ≤ 24
    → m.hour < 24
    → minus_hours m h ≡ some r
    → (hours_of r + h ≡ hours_of m) × (r.hour < 24) × IsDate r.date × (r.seconds ≡ m.seconds)
unfolding minus_hours
minus_hours_lem m h v small fine e = elim (Option-cases (day_before m.date)) [
  | inl no_day ↦ ground arith
  | inr (d, step) ↦ ground (arith, day_before-to_ordinal m.date v step)
]

-- For a valid UTC date and an hour below 24, an Eastern clock that is given is four or five hours
-- behind UTC, has a valid date, an hour below 24 and the same seconds.
eastern_wall_clock_offset :
    (utc : Moment) {r : Moment}
    → IsDate utc.date
    → utc.hour < 24
    → eastern_wall_clock utc ≡ some r
    → ((hours_of r + 4 ≡ hours_of utc) ⊎ (hours_of r + 5 ≡ hours_of utc))
      × (r.hour < 24)
      × IsDate r.date
      × (r.seconds ≡ utc.seconds)
unfolding eastern_wall_clock
eastern_wall_clock_offset utc {r} v fine h = elim (Option-cases (minus_hours utc 5)) [
  | inl e ↦ ground arith
  | inr (local, e) ↦
      ground (arith, minus_hours_lem utc 5 {r = local} v, minus_hours_lem utc 4 {r = r} v)
]

nth_weekday_bounds :
    (y m w n : ℕ) → (7 * (n - 1) < nth_weekday y m w n) × (nth_weekday y m w n ≤ 7 * (n - 1) + 7)
unfolding nth_weekday
nth_weekday_bounds y m w n = ground arith

-- From March 15 to October 31, and from November 8 to March 7.
abbrev pub IsSummer : Date → Type 0
IsSummer d = ((4 ≤ d.month) × (d.month ≤ 10)) ⊎ ((d.month ≡ 3) × (15 ≤ d.day))

abbrev pub IsWinter : Date → Type 0
IsWinter d =
    ((d.month ≤ 2) ⊎ (12 ≤ d.month))
    ⊎ (((d.month ≡ 3) × (d.day ≤ 7)) ⊎ ((d.month ≡ 11) × (8 ≤ d.day)))

-- From 05:00 UTC on, the Eastern clock is on the same date four hours back from March 15 to October
-- 31, and five hours back from November 8 to March 7.
pub eastern_wall_clock_seasons :
    (utc : Moment)
    → 5 ≤ utc.hour
    → (IsSummer utc.date → eastern_wall_clock utc ≡ some (record utc { hour = utc.hour - 4 }))
      × (IsWinter utc.date → eastern_wall_clock utc ≡ some (record utc { hour = utc.hour - 5 }))
unfolding eastern_wall_clock minus_hours us_dst_active hour_lt date_lt
eastern_wall_clock_seasons utc late =
    let march = nth_weekday_bounds utc.date.year 3 6 2 in
    let november = nth_weekday_bounds utc.date.year 11 6 1 in
    (λ summer. ground arith, λ winter. ground arith)

-- On the first Sunday of November of any year, in the hour from 06:00 UTC, the Eastern clock of the
-- code shows 02:00 of that day, daylight time.
pub eastern_wall_clock_fall_back :
    (y s : ℕ)
    → let sunday : Date = record { year = y; month = 11; day = nth_weekday y 11 6 1 } in
      eastern_wall_clock (record { date = sunday; hour = 6; seconds = s })
      ≡ some (record { date = sunday; hour = 2; seconds = s })
unfolding eastern_wall_clock minus_hours us_dst_active hour_lt date_lt
eastern_wall_clock_fall_back y s = ground arith
