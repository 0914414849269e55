-- ===== src/Vix/Source.antt =====
-- vix/source.py: the quote of the day, its parsing, the retries of its fetch, and the Eastern clock.
pub mod Laws
use china_a_share.Prelude.{
  ℕ, zero, suc, ◌+◌, ◌-◌, ◌*◌, ◌/◌, ◌%◌, Bool, true, false, ◌&&◌, ◌||◌, not, Option, none, some,
  Text, text, ◌==◌, text_eq, leb, ltb, nat_beq, if◌then◌else◌, Result, ok, raised, value_error,
  runtime_error, require, ◌>>=◌, ◌>>◌, List, [], ◌∷◌,
}
use china_a_share.Prelude.Maps.{Dict, lookup}
use china_a_share.Prelude.Texts.{strip, rstrip, split_on}
use china_a_share.Floats.{Float}
use china_a_share.Dates.{Date, date_beq, weekday, date_lt, day_before}
use china_a_share.Dates.Print.{isoformat, strptime_dashed, date_of, short_field, day_field, number}

-- A naive `datetime`: its date, its hour, and the seconds within the hour.
pub record Moment : Type 0 where
  pub date : Date
  pub hour : ℕ
  pub seconds : ℕ

abbrev pub quote_attempts : ℕ
quote_attempts = 3

abbrev pub quote_refresh_minimum_hour : ℕ
quote_refresh_minimum_hour = 17

pub record VixQuote (F : Type 0) : Type 0 where
  pub date : Text
  pub close : F
  pub prev_close : F
  pub change_pct : F
  pub raw_last_time : Text

-- `parsed == now.date()`, of a date that may not have parsed.
abbrev pub same_day : Option Date → Date → Bool
same_day none today = false
same_day (some d) today = date_beq d today

module _ {F : Type 0} where
  unfoldable pub evaluable : VixQuote F → Moment → Bool
  evaluable q now = same_day (strptime_dashed q.date) now.date

  unfoldable pub settled : VixQuote F → Moment → Bool
  unfolding evaluable
  settled q now = evaluable q now && leb quote_refresh_minimum_hour now.hour

-- A quote row: the payload's fields as texts. The JSON of the payload is decoded outside.
abbrev pub Row : Type 0
Row = Dict Text Text

abbrev pub get_or_empty : Text → Row → Text
get_or_empty k row = elim (lookup k row) [ none ↦ [] | some v ↦ v ]

-- `%m/%d/%y` of the text before the first space; a year of two digits is in 1969 to 2068.
unfoldable pub slash_year : Text → Option ℕ
slash_year (a ∷ b ∷ []) = elim (number (a ∷ b ∷ [])) [
  | none ↦ none
  | some n ↦ some (if leb n 68 then 2000 + n else 1900 + n)
]
slash_year _ = none

unfoldable pub slash_parts : List Text → Option Date
unfolding slash_year
slash_parts (m ∷ d ∷ y ∷ []) = date_of (slash_year y) (short_field m) (day_field d)
slash_parts _ = none

unfoldable pub first_part : List Text → Text
first_part [] = []
first_part (p ∷ parts) = p

unfoldable pub parse_slash_date : Text → Option Date
unfolding slash_parts first_part
parse_slash_date s = slash_parts (split_on b'/' (first_part (split_on b' ' s)))

-- `a or b`, of two optional dates.
abbrev pub or_else : Option Date → Option Date → Option Date
or_else none b = b
or_else (some d) b = some d

module _ {F : Type 0} ⦃f : Float F⦄ where
  open f use {le, sub, mul, div, cents, of_text}

  -- A missing field is read as the text `None`, which is no number.
  unfoldable pub required_float : Row → Text → Result F
  required_float row key = elim (lookup key row) [
    | none ↦ raised value_error
    | some v ↦ elim (of_text (strip v)) [
      | none ↦ raised value_error
      | some x ↦ if le x (cents 0) then raised value_error else ok x
    ]
  ]

  unfoldable pub parse_percent : Text → Option F
  parse_percent v = of_text (rstrip b'%' (strip v))

  abbrev pub change_or : Option F → F → F → F
  change_or none close prev = mul (sub (div close prev) (cents 100)) (cents 10_000)
  change_or (some c) close prev = c

  abbrev pub finish_quote : Option Date → Row → F → F → Text → Result (VixQuote F)
  finish_quote none row close prev last_time = raised value_error
  finish_quote (some d) row close prev last_time = ok (record {
    date = isoformat d;
    close = close;
    prev_close = prev;
    change_pct = change_or (parse_percent (get_or_empty (text "change_pct") row)) close prev;
    raw_last_time = last_time;
  })

  unfoldable pub parse_vix_quote : List Row → Result (VixQuote F)
  unfolding parse_percent
  parse_vix_quote [] = raised value_error
  parse_vix_quote (row ∷ rows) = do
    close ← required_float row (text "last")
    prev ← required_float row (text "previous_day_closing")
    require (not (le prev (cents 0))) value_error
    let last_time = strip (get_or_empty (text "last_time") row)
    finish_quote
        (or_else (strptime_dashed last_time)
          (parse_slash_date (get_or_empty (text "last_timedate") row)))
        row close prev last_time

  -- The attempts from number `i` on, with `left` to go. What the getter gives for an attempt is an
  -- argument.
  unfoldable pub fetch_from : (ℕ → Result (List Row)) → ℕ → ℕ → Option (VixQuote F)
  fetch_from get zero i = none
  fetch_from get (suc left) i =
      let rest = fetch_from get left (suc i) in
      elim (get i >>= parse_vix_quote) [ ok q ↦ some q | raised e ↦ rest ]

  unfoldable pub fetch_quote : (ℕ → Result (List Row)) → Option (VixQuote F)
  unfolding fetch_from
  fetch_quote get = fetch_from get quote_attempts 1

-- The day of a month on which a weekday comes for the n-th time.
unfoldable pub nth_weekday : ℕ → ℕ → ℕ → ℕ → ℕ
nth_weekday y m w n =
    let first = weekday (record { year = y; month = m; day = 1 }) in
    1 + (w + 7 - first) % 7 + 7 * (n - 1)

-- `a <= b` and `a < b` on a date with an hour.
unfoldable pub hour_lt : Date → ℕ → Date → ℕ → Bool
hour_lt a h b k = date_lt a b || (date_beq a b && ltb h k)

unfoldable pub us_dst_active : Date → ℕ → Bool
us_dst_active d hour =
    let start : Date = record { year = d.year; month = 3; day = nth_weekday d.year 3 6 2 } in
    let end : Date = record { year = d.year; month = 11; day = nth_weekday d.year 11 6 1 } in
    not (hour_lt d hour start 2) && hour_lt d hour end 2

-- `utc - timedelta(hours=h)`, for h up to 24; `none` is the `OverflowError` before year 1.
unfoldable pub minus_hours : Moment → ℕ → Option Moment
minus_hours m h =
    if leb h m.hour then some (record m { hour = m.hour - h }) else elim (day_before m.date) [
      | none ↦ none
      | some d ↦ some (record m { date = d; hour = m.hour + 24 - h })
    ]

unfoldable pub eastern_wall_clock : Moment → Option Moment
eastern_wall_clock utc = elim (minus_hours utc 5) [
  | none ↦ none
  | some local ↦ if us_dst_active local.date local.hour then minus_hours utc 4 else some local
]
