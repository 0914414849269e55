-- ===== src/Strategies/Scanner/Daily.antt =====
-- strategy_scanner.py: the daily scan, the manual preview and the rows of a trial. A data frame of
-- prices is a parameter with the latest trading date that it has.
use china_a_share.Prelude.{
  ℕ, zero, suc, ◌+◌, ◌-◌, ◌*◌, max, Bool, true, false, not, Option, none, some, Text, text_beq, ltb,
  List, [], ◌∷◌, any, filter, map, Result, ok, raised, value_error, runtime_error, overflow_error,
  if◌then◌else◌,
}
use china_a_share.Prelude.Texts.{delete_char}
use china_a_share.Dates.{Date, date_beq, to_ordinal, weekday, minus_days, day_after}
use china_a_share.Dates.Print.{isoformat}
use china_a_share.Strategies.Acts.{Action, ◌>>=◌, answer, attempt}
use china_a_share.Strategies.Models.{StrategyConfig, is_some, required_history_rows}
use china_a_share.Strategies.Scanner.{World, Chat, Row, row_identity, run_strategies}

-- `strftime("%Y%m%d")`
abbrev pub compact : Date → Text
compact d = delete_char b'-' (isoformat d)

-- The scanner's collaborators. `analyze` gives the rows of a frozen plan on a date, `trading_dates` is
-- the resolver that the service may have.
pub record Collaborators (F S Frame : Type 0) : Type 0 where
  pub clock_aware : Bool
  pub clock_date : Date
  pub load_qfq : (start end_date : Date) → Result Frame
  pub latest : Frame → Option Text
  pub evaluate : Frame → StrategyConfig F S → Text → Result (List Text)
  pub analyze : StrategyConfig F S → Text → Result (List Row)
  pub trading_dates : Option (Date → Date → Result (List Date))
  pub chat : Chat

abbrev pub or_overflow : Option Date → Result Date
or_overflow none = raised overflow_error
or_overflow (some d) = ok d

-- The days from a date on, as far as the calendar goes.
unfoldable pub days_from : ℕ → Option Date → List Date
days_from zero d = []
days_from (suc n) none = []
days_from (suc n) (some d) = d ∷ days_from n (day_after d)

abbrev pub is_compiled : {F S : Type 0} → StrategyConfig F S → Bool
is_compiled s = is_some s.compiled_rule

-- The calendar days before the end that hold the trading rows.
abbrev pub history_start : ℕ → Date → Option Date
history_start rows end_date = minus_days end_date (max (rows * 2) (rows + 30))

module _ {F S Frame : Type 0} (c : Collaborators F S Frame) where
  unfoldable pub scan_date : Result Date
  scan_date = if c.clock_aware then ok c.clock_date else raised value_error

  abbrev pub resolved :
      Option (Date → Date → Result (List Date)) → (start end_date : Date) → Result (List Date)
  resolved (some resolver) start end_date = resolver start end_date
  resolved none start end_date = ok (
      filter (λ d. ltb (weekday d) 5)
        (days_from (to_ordinal end_date - to_ordinal start + 1) (some start)))

  -- Without a resolver the weekdays stand for the trading dates.
  unfoldable pub trial_dates : (start end_date : Date) → Result (List Date)
  trial_dates start end_date = resolved c.trading_dates start end_date

  abbrev pub max_of : ℕ → List (StrategyConfig F S) → Result ℕ
  max_of n [] = ok n
  max_of n (s ∷ ss) = elim (required_history_rows s) [
    | ok m ↦ max_of (max n m) ss
    | raised e ↦ raised e
  ]

  unfoldable pub load_shared_history : List (StrategyConfig F S) → Date → Action World Frame
  load_shared_history strategies end_date = do
    rows ← attempt (max_of 0 strategies)
    start ← attempt (or_overflow (history_start rows end_date))
    attempt (c.load_qfq start end_date)

  abbrev pub identities : Result (List Row) → Result (List Text)
  identities (ok rows) = ok (map row_identity rows)
  identities (raised e) = raised e

  unfoldable pub run_legacy :
      Frame → Text → Bool → List (StrategyConfig F S) → Action World (Unit {0})
  run_legacy frame date preview = run_strategies c.chat (λ s. c.evaluate frame s date) date preview

  unfoldable pub run_compiled_strategies :
      Text → Bool → List (StrategyConfig F S) → Action World (Unit {0})
  run_compiled_strategies date preview =
      run_strategies c.chat (λ s. identities (c.analyze s date)) date preview

  abbrev pub is_latest : Option Text → Text → Bool
  is_latest none date = false
  is_latest (some latest) date = text_beq latest date

  -- The frame's latest date is the requested one, or it is no trading day.
  unfoldable pub scan_legacy : Date → List (StrategyConfig F S) → Action World (Unit {0})
  scan_legacy date [] = answer tt
  scan_legacy date (s ∷ ss) = do
    frame ← load_shared_history (s ∷ ss) date
    if is_latest (c.latest frame) (compact date)
        then run_legacy frame (compact date) false (s ∷ ss)
        else answer tt

  unfoldable pub scan_compiled : Date → List (StrategyConfig F S) → Action World (Unit {0})
  scan_compiled date [] = answer tt
  scan_compiled date (s ∷ ss) = do
    dates ← attempt (trial_dates date date)
    if any (date_beq date) dates
        then run_compiled_strategies (compact date) false (s ∷ ss)
        else answer tt

  -- The enabled strategies are those that the store lists.
  unfoldable pub run_daily_scan : List (StrategyConfig F S) → Action World (Unit {0})
  run_daily_scan [] = answer tt
  run_daily_scan (s ∷ ss) = do
    date ← attempt scan_date
    done ← scan_legacy date (filter (λ s. not (is_compiled s)) (s ∷ ss))
    scan_compiled date (filter is_compiled (s ∷ ss))

  abbrev pub or_no_data : Option Text → Result Text
  or_no_data none = raised runtime_error
  or_no_data (some date) = ok date

  unfoldable pub preview_legacy : Date → List (StrategyConfig F S) → Action World (Unit {0})
  preview_legacy date [] = answer tt
  preview_legacy date (s ∷ ss) = do
    frame ← load_shared_history (s ∷ ss) date
    latest ← attempt (or_no_data (c.latest frame))
    run_legacy frame latest true (s ∷ ss)

  unfoldable pub preview_compiled : Date → List (StrategyConfig F S) → Action World (Unit {0})
  preview_compiled date [] = answer tt
  preview_compiled date (s ∷ ss) = run_compiled_strategies (compact date) true (s ∷ ss)

  abbrev pub chosen : Option Text → List (StrategyConfig F S) → List (StrategyConfig F S)
  chosen none ss = ss
  chosen (some id) ss = filter (λ s. text_beq s.id id) ss

  abbrev pub preview_all : List (StrategyConfig F S) → Action World (Unit {0})
  preview_all [] = answer tt
  preview_all (s ∷ ss) = do
    date ← attempt scan_date
    done ← preview_legacy date (filter (λ s. not (is_compiled s)) (s ∷ ss))
    preview_compiled date (filter is_compiled (s ∷ ss))

  -- The owner's enabled strategies are those that the store lists.
  unfoldable pub run_manual_preview :
      Option Text → List (StrategyConfig F S) → Action World (Unit {0})
  run_manual_preview strategy_id ss = preview_all (chosen strategy_id ss)
