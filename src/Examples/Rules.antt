-- ===== src/Examples/Rules.antt =====
-- vix/: the theorems on rules, quotes, the daily series and the commands, at concrete inputs.
use china_a_share.Prelude.{
  ℕ, ◌+◌, ◌≤◌, ◌<◌, ◌≡◌, refl, ◌⊎◌, true, false, none, some, Text, text, text_eq, text_beq, text_lt,
  List, [], ◌∷◌, All, filter, Fault, Result, ok, raised, value_error, arith, if◌then◌else◌, ◌>>=◌,
}
use china_a_share.Prelude.Maps.{lookup, insert}
use china_a_share.Prelude.Texts.{strip, rstrip, drop_while, split_on, push_char}
use china_a_share.Prelude.Int.{ℤ, pos}
use china_a_share.Dates.{Date, IsDate, is_leap, days_in_month, make_date}
use china_a_share.Dates.Print.{
  isoformat, from_isoformat, number, is_digit, strptime_dashed, strptime_parts, short_field,
  day_field, year_field,
}
use china_a_share.Vix.Rules.{
  VixRule, up, days, validate_direction, validate_threshold, validate_expected_return,
  validate_exit, new_vix_rule, hits,
}
use china_a_share.Vix.Rules.Laws.{IsAccepted, new_vix_rule_accepts}
use china_a_share.Vix.Source.{
  Moment, VixQuote, Row, nth_weekday, eastern_wall_clock, parse_vix_quote, fetch_quote,
  required_float, parse_percent, parse_slash_date, first_part, slash_parts, slash_year,
}
use china_a_share.Vix.Source.Laws.{
  IsQuote, parse_vix_quote-IsQuote, fetch_quote_first, IsSummer, IsWinter,
  eastern_wall_clock_seasons, eastern_wall_clock_fall_back,
}
use china_a_share.Vix.History.{
  History, Closes, record_settlement, load, current, keys, lookup_day, sort_items, insert_sorted,
  append_close, put_closes, not_newer, previous_key, max_of, max_text, greater,
}
use china_a_share.Vix.History.Greatest.{IsSeries}
use china_a_share.Vix.History.Laws.{record_settlement_appends}
use china_a_share.Vix.History.Lookup.{lookup_day_lem}
use china_a_share.Examples.Numbers.{cents_float}

abbrev rise_rule : VixRule ℤ
rise_rule = record {
  id = text "r1";
  direction = up;
  threshold_pct = pos 1500;
  created_by = text "ou_1";
  created_at = text "now";
  expected_return_pct = pos 300;
  exit_kind = days;
  exit_days = 3;
  exit_vix_below = pos 0;
}

built :
    new_vix_rule (text "now") up (pos 1500) (text "ou_1") (text "r1") (pos 300) days 3 (pos 0)
    ≡ ok rise_rule
unfolding new_vix_rule validate_direction validate_threshold validate_expected_return validate_exit
built = refl

new_vix_rule_accepts_example :
    (((r : VixRule ℤ) × (new_vix_rule
            (text "now")
            up
            (pos 1500)
            (text "ou_1")
            (text "r1")
            (pos 300)
            days
            41
            (pos 0)
          ≡ ok r))
      × IsAccepted up (pos 1500) (pos 300) days 41 (pos 0))
    ⊎ ((new_vix_rule (text "now") up (pos 1500) (text "ou_1") (text "r1") (pos 300) days 41 (pos 0)
          ≡ raised value_error)
        × (¬ IsAccepted up (pos 1500) (pos 300) days 41 (pos 0)))
new_vix_rule_accepts_example =
    new_vix_rule_accepts (text "now") up (pos 1500) (text "ou_1") (text "r1") (pos 300) days 41
      (pos 0)

fires : hits rise_rule (pos 1600) ≡ true
unfolding hits
fires = refl

thirty_one : 4 ≤ days_in_month 2025 7
unfolding days_in_month
thirty_one = omega arith

abbrev summer_day : Moment
summer_day = record { date = record { year = 2025; month = 7; day = 4 }; hour = 6; seconds = 30 }

eastern_wall_clock_seasons_example :
    (IsSummer summer_day.date
      → eastern_wall_clock summer_day ≡ some (record summer_day { hour = 2 }))
    × (IsWinter summer_day.date
        → eastern_wall_clock summer_day ≡ some (record summer_day { hour = 1 }))
eastern_wall_clock_seasons_example = eastern_wall_clock_seasons summer_day (omega arith)

eastern_wall_clock_fall_back_example :
    let sunday : Date = record { year = 2025; month = 11; day = nth_weekday 2025 11 6 1 } in
    eastern_wall_clock (record { date = sunday; hour = 6; seconds = 0 })
    ≡ some (record { date = sunday; hour = 2; seconds = 0 })
eastern_wall_clock_fall_back_example = eastern_wall_clock_fall_back 2025 0

abbrev no_quote : ℕ → Result (List Row)
no_quote i = ok []

fetch_quote_first_example :
    ((q : VixQuote ℤ)
      → fetch_quote no_quote ≡ some q
      → (k : ℕ) × (k < 3)
        × ((no_quote (1 + k) >>= parse_vix_quote) ≡ ok q)
        × ((j : ℕ)
            → j < k
            → (e : Fault) × ((no_quote (1 + j) >>= parse_vix_quote {F = ℤ}) ≡ raised e)))
    × (fetch_quote {F = ℤ} no_quote ≡ none
        → (j : ℕ) → j < 3
        → (e : Fault) × ((no_quote (1 + j) >>= parse_vix_quote {F = ℤ}) ≡ raised e))
fetch_quote_first_example = fetch_quote_first no_quote

abbrev quote_rows : List Row
quote_rows =
    ((text "last", text "18")
      ∷ (text "previous_day_closing", text "15")
      ∷ (text "last_time", text "2025-07-03")
      ∷ (text "last_timedate", text "")
      ∷ (text "change_pct", text "20%")
      ∷ [])
    ∷ []

abbrev quote_day : Date
quote_day = record { year = 2025; month = 7; day = 3 }

abbrev quote : VixQuote ℤ
quote = record {
  date = isoformat quote_day;
  close = pos 1800;
  prev_close = pos 1500;
  change_pct = pos 2000;
  raw_last_time = text "2025-07-03";
}

quote_found : parse_vix_quote quote_rows ≡ ok quote
unfolding parse_vix_quote required_float parse_percent strip rstrip drop_while split_on push_char
    strptime_dashed strptime_parts short_field day_field year_field make_date days_in_month is_leap
    number is_digit lookup parse_slash_date first_part slash_parts slash_year
quote_found = refl

parse_vix_quote-IsQuote_example : IsQuote quote
parse_vix_quote-IsQuote_example = parse_vix_quote-IsQuote quote_rows quote_found

abbrev no_history : History ℤ
no_history = record { stored = none; cached = none; seeded = false }

abbrev first_day : Date
first_day = record { year = 2025; month = 7; day = 3 }

first_day_valid : IsDate first_day
first_day_valid = record {
  year_pos = omega arith;
  year_le = omega arith;
  month_pos = omega arith;
  month_le = omega arith;
  day_pos = omega arith;
  day_le = omega (arith, thirty_one);
}

abbrev one_close : History ℤ
one_close = record {
  stored = some ((isoformat first_day, pos 1800) ∷ []);
  cached = some ((isoformat first_day, pos 1800) ∷ []);
  seeded = false;
}

first_recorded :
    record_settlement (isoformat first_day) (pos 1800) no_history ≡ (one_close, ok true)
unfolding record_settlement load not_newer append_close keys isoformat from_isoformat number
    is_digit make_date days_in_month is_leap sort_items insert_sorted put_closes insert
first_recorded = refl

no_history-IsSeries : IsSeries {F = ℤ} (current (load no_history))
unfolding load keys
no_history-IsSeries = tt

record_settlement_appends_example :
    All (λ k. text_lt k (isoformat first_day) ≡ true) (keys {F = ℤ} (current (load no_history)))
    × ((k : Text)
        → lookup k (current one_close) ≡ (
            if text_beq (isoformat first_day) k
            then some (pos 1800)
            else lookup k (current (load no_history))))
    × (one_close.stored ≡ some (sort_items (current one_close)))
    × IsSeries (current one_close)
record_settlement_appends_example =
    record_settlement_appends first_day (pos 1800) no_history first_day_valid no_history-IsSeries
      first_recorded

abbrev two_closes : Closes ℤ
two_closes = (text "2025-07-02", pos 1700) ∷ (text "2025-07-03", pos 1800) ∷ []

looked : lookup_day (text "2025-07-03") two_closes ≡ some (text "2025-07-02", pos 1700, pos 1800)
unfolding lookup_day lookup keys text_lt previous_key max_of max_text greater filter
looked = refl

lookup_day_lem_example :
    (lookup (text "2025-07-03") two_closes ≡ some (pos 1800))
    × (lookup (text "2025-07-02") two_closes ≡ some (pos 1700))
    × (text_lt (text "2025-07-02") (text "2025-07-03") ≡ true)
    × All
        (λ k. text_lt k (text "2025-07-03") ≡ true → text_lt (text "2025-07-02") k ≡ false)
        (keys two_closes)
lookup_day_lem_example = lookup_day_lem (text "2025-07-03") two_closes looked
