-- ===== src/Examples/Scans.antt =====
-- strategy_scanner.py: the theorems on scans, at concrete inputs.
use china_a_share.Prelude.{
  ℕ, ◌-◌, ◌≡◌, ◌≤◌, refl, inl, true, false, none, some, Text, text, List, [], ◌∷◌, any, map, length,
  Result, ok, raised, runtime_error, external_error, Satisfies, arith,
}
use china_a_share.Prelude.Texts.{contains, starts_with}
use china_a_share.Prelude.Int.{ℤ}
use china_a_share.Cache.Record.{Instant}
use china_a_share.Dates.{Date, to_ordinal}
use china_a_share.Strategies.Json.{scalar}
use china_a_share.Strategies.Models.{buy, limit_up, StrategyConfig, CompiledStrategyRule}
use china_a_share.Strategies.Store.{
  notification, is_marked, validate_identifier, validate_notification, is_notification_sent,
  mark_notification_sent,
}
use china_a_share.Strategies.Scanner.{
  World, Chat, Row, run_strategies, collect_failures, run_strategy, deliver, unsent, is_sent,
  mark_all, mark_sent, send_with_at_all_fallback, retried, send_chat_card,
}
use china_a_share.Strategies.Scanner.Unique.{IsHonest, times_announced}
use china_a_share.Strategies.Scanner.Complete.{run_strategies-is_marked}
use china_a_share.Strategies.Scanner.Skipped.{run_strategies_skip}
use china_a_share.Strategies.Scanner.Daily.{
  Collaborators, compact, is_compiled, trial_dates, run_daily_scan, run_manual_preview,
}
use china_a_share.Strategies.Scanner.Trial.{total, run_trial_rows, run_trial_rows-Tally}
use china_a_share.Strategies.Scanner.Reliable.{run_daily_scan-IsHonest, run_manual_preview-IsHonest}

abbrev friday : Date
friday = record { year = 2026; month = 1; day = 2 }

abbrev then_ : Instant
then_ = record { aware = true; time = 100 }

abbrev open_chat : Chat
open_chat delivered d = none

abbrev one_match : StrategyConfig ℤ ℕ → Result (List Text)
one_match s = ok (text "600000.SH" ∷ [])

abbrev no_match : StrategyConfig ℤ ℕ → Result (List Text)
no_match s = raised external_error

abbrev strategy : StrategyConfig ℤ ℕ
strategy = record {
  id = text "s1";
  name = text "m";
  direction = buy;
  rules = limit_up 1 ∷ [];
  compiled_rule = none;
  creator_open_id = text "ou_1";
  enabled = true;
  notification_chat_id = text "oc_1";
  created_at = then_;
  updated_at = then_;
}

abbrev frozen_plan : CompiledStrategyRule ℕ
frozen_plan = record {
  source_text = text "x";
  interpretation = text "x";
  plan = scalar 0;
  anchor_date = text "20260102";
  plan_fingerprint = text "f";
}

abbrev compiled_strategy : StrategyConfig ℤ ℕ
compiled_strategy = record strategy { rules = []; compiled_rule = some frozen_plan }

abbrev quiet : World
quiet = record { marks = []; delivered = [] }

quiet-IsHonest : IsHonest quiet
unfolding is_marked times_announced
quiet-IsHonest = record { same = λ n. refl; once = λ n. omega arith; full = tt }

abbrev one_row : StrategyConfig ℤ ℕ → Text → Result (List Row)
one_row s date = ok (record { ts_code = text "600000.SH"; digest = text "0" } ∷ [])

abbrev collaborators : Collaborators ℤ ℕ Text
collaborators = record {
  clock_aware = true;
  clock_date = friday;
  load_qfq = λ start end_date. ok (compact end_date);
  latest = λ frame. some frame;
  evaluate = λ frame s date. one_match s;
  analyze = one_row;
  trading_dates = none;
  chat = open_chat;
}

run_daily_scan-IsHonest_example :
    IsHonest (run_daily_scan collaborators (strategy ∷ compiled_strategy ∷ []) quiet).1
run_daily_scan-IsHonest_example =
    run_daily_scan-IsHonest collaborators quiet (strategy ∷ compiled_strategy ∷ []) quiet-IsHonest

run_manual_preview-IsHonest_example :
    IsHonest (run_manual_preview collaborators none (strategy ∷ []) quiet).1
    × ((run_manual_preview collaborators none (strategy ∷ []) quiet).1.marks ≡ [])
run_manual_preview-IsHonest_example =
    run_manual_preview-IsHonest collaborators quiet none (strategy ∷ []) quiet-IsHonest

one_match-done :
    (run_strategies open_chat one_match (text "20260102") false (strategy ∷ []) quiet).0 ≡ ok tt
unfolding run_strategies collect_failures run_strategy deliver unsent is_sent is_notification_sent
    validate_notification validate_identifier any contains starts_with send_with_at_all_fallback
    send_chat_card retried mark_all mark_sent mark_notification_sent is_marked
one_match-done = refl

run_strategies-is_marked_example :
    is_marked
      (notification (text "s1") (text "600000.SH") (text "20260102") buy)
      (run_strategies open_chat one_match (text "20260102") false (strategy ∷ []) quiet).1.marks
    ≡ true
run_strategies-is_marked_example =
    run_strategies-is_marked open_chat one_match (text "20260102") (strategy ∷ []) quiet strategy
      (text "600000.SH" ∷ []) (text "600000.SH") one_match-done (inl refl) refl (inl refl)

run_strategies_skip_example :
    run_strategies open_chat no_match
      (text "20260102")
      false
      (strategy ∷ compiled_strategy ∷ [])
      quiet
    ≡ (
      raised runtime_error,
      (run_strategies open_chat no_match (text "20260102") false (strategy ∷ []) quiet).1,
    )
run_strategies_skip_example =
    run_strategies_skip open_chat no_match (text "20260102") (strategy ∷ []) [] false
      compiled_strategy external_error quiet refl

run_trial_rows-Tally_example :
    Satisfies
      (λ found.
        (dates : List Date) × (trial_dates collaborators friday friday ≡ ok dates)
        × (map (λ k. k.0) found.0 ≡ map compact dates)
        × (length found.1 ≡ total collaborators found.0)
        × (to_ordinal friday - to_ordinal friday ≤ 30)
        × (is_compiled compiled_strategy ≡ true))
      (λ _. Unit {0})
      (run_trial_rows collaborators compiled_strategy friday friday)
run_trial_rows-Tally_example = run_trial_rows-Tally collaborators compiled_strategy friday friday
