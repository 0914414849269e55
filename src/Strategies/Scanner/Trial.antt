-- ===== src/Strategies/Scanner/Trial.antt =====
-- strategy_scanner.py: `run_trial`, which replays a compiled strategy over a range of dates, up to the
-- card that shows the outcome.
use china_a_share.Prelude.{
  ℕ, ◌+◌, ◌-◌, ◌≤◌, ◌≡◌, refl, ap, true, not, Text, leb, List, [], ◌∷◌, ◌++◌, map, length,
  length-map, length-append, Result, ok, raised, value_error, Satisfies, returned, failed,
  Satisfies-bind, Satisfies-any, Satisfies-require, Satisfies-map, require, arith, ◌>>=◌, ◌>>◌,
}
use china_a_share.Dates.{Date, date_lt, to_ordinal}
use china_a_share.Strategies.Models.{StrategyConfig}
use china_a_share.Strategies.Scanner.{Row}
use china_a_share.Strategies.Scanner.Daily.{Collaborators, compact, is_compiled, trial_dates}

Satisfies-same : {A : Type 0} (r : Result A) → Satisfies (λ a. r ≡ ok a) (λ _. Unit {0}) r
Satisfies-same (ok a) = returned refl
Satisfies-same (raised e) = failed tt

module _ {F S Frame : Type 0} (c : Collaborators F S Frame) where
  abbrev pub counted :
      Text → List Row → List (Text × ℕ) × List (Text × Row) → List (Text × ℕ) × List (Text × Row)
  counted date rows (counts, all) =
      ((date, length rows) ∷ counts, map (λ row. (date, row)) rows ++ all)

  -- The counts of the days and the rows, each with its day.
  unfoldable pub trial_rows :
      StrategyConfig F S → List Date → Result (List (Text × ℕ) × List (Text × Row))
  trial_rows s [] = ok ([], [])
  trial_rows s (date ∷ dates) = do
    rows ← c.analyze s (compact date)
    rest ← trial_rows s dates
    ok (counted (compact date) rows rest)

  -- The part of `run_trial` before its card is sent.
  unfoldable pub run_trial_rows :
      StrategyConfig F S → (start end_date : Date) → Result (List (Text × ℕ) × List (Text × Row))
  run_trial_rows s start end_date = do
    require (is_compiled s) value_error
    require (not (date_lt end_date start)) value_error
    require (leb (to_ordinal end_date - to_ordinal start + 1) 31) value_error
    dates ← trial_dates c start end_date
    trial_rows s dates

  abbrev pub total : List (Text × ℕ) → ℕ
  total [] = 0
  total ((date, n) ∷ counts) = n + total counts

  abbrev Tally : List Date → List (Text × ℕ) × List (Text × Row) → Type 0
  Tally dates (counts, rows) =
      (map (λ k. k.0) counts ≡ map compact dates) × (length rows ≡ total counts)

  trial_rows-Tally :
      (s : StrategyConfig F S) (dates : List Date)
      → Satisfies (Tally dates) (λ _. Unit {0}) (trial_rows s dates)
  unfolding trial_rows
  trial_rows-Tally s [] = returned (refl, refl)
  trial_rows-Tally s (date ∷ dates) =
      Satisfies-bind (Satisfies-any (c.analyze s (compact date))) λ rows _.
        Satisfies-bind (trial_rows-Tally s dates) λ (counts, all) (days, sum). returned (
          ap (λ l. compact date ∷ l) days,
          omega (
            arith,
            length-append (map (λ row. (compact date, row)) rows) all,
            length-map {B = Text × Row} (λ row. (compact date, row)) rows,
            sum,
          ),
        )

  -- A trial that does not raise has a compiled strategy and a range of at most 31 days, counts each
  -- trading date of the range in its order, and has as many rows as it counts.
  pub run_trial_rows-Tally :
      (s : StrategyConfig F S) (start end_date : Date)
      → Satisfies
          (λ found.
            (dates : List Date) × (trial_dates c start end_date ≡ ok dates)
            × (map (λ k. k.0) found.0 ≡ map compact dates)
            × (length found.1 ≡ total found.0)
            × (to_ordinal end_date - to_ordinal start ≤ 30)
            × (is_compiled s ≡ true))
          (λ _. Unit {0})
          (run_trial_rows s start end_date)
  unfolding run_trial_rows
  run_trial_rows-Tally s start end_date =
      Satisfies-require (is_compiled s) value_error tt λ compiled.
        Satisfies-require (not (date_lt end_date start)) value_error tt λ _.
          Satisfies-require (leb (to_ordinal end_date - to_ordinal start + 1) 31) value_error tt
            λ short. Satisfies-bind (Satisfies-same (trial_dates c start end_date)) λ dates e.
              Satisfies-map (trial_rows-Tally s dates)
                λ found h. (dates, e, h.0, h.1, ground arith, compiled)
