-- ===== src/Strategies/Scanner/Reliable.antt =====
-- strategy_scanner.py: the daily scan keeps the markers honest, and a preview leaves them alone.
use china_a_share.Prelude.{
  ℕ, ◌≡◌, refl, ap, ◌∙◌, inl, inr, Bool, true, false, Option, Text, List, [], ◌∷◌, any, length,
  Result, Result-cases, Satisfies-any, ok, raised,
}
use china_a_share.Dates.{Date, date_beq}
use china_a_share.Strategies.Acts.{proceed, answer, Keeps}
use china_a_share.Strategies.Acts.Keeping.{Keeps-bind, Keeps-answer, Keeps-attempt, Keeps-if}
use china_a_share.Strategies.Models.{StrategyConfig}
use china_a_share.Strategies.Store.{Notification}
use china_a_share.Strategies.Scanner.{
  World, Chat, result_card, deliver, run_strategy, note_failure, collect_failures, failed_or_done,
  run_strategies,
}
use china_a_share.Strategies.Scanner.Unique.{IsHonest, run_strategies-IsHonest}
use china_a_share.Strategies.Scanner.Sending.{IsSending, send_with_at_all_fallback-IsSending}
use china_a_share.Strategies.Scanner.Daily.{
  Collaborators, compact, scan_date, max_of, or_overflow, history_start, load_shared_history,
  run_legacy, run_compiled_strategies, is_latest, scan_legacy, trial_dates, scan_compiled,
  run_daily_scan, or_no_data, preview_legacy, preview_compiled, chosen, preview_all,
  run_manual_preview,
}

module _ {F S : Type 0} (chat : Chat) (matches : StrategyConfig F S → Result (List Text))
    (date : Text) where
  preview_sent-marks :
      (s : StrategyConfig F S) (codes : List Text) (count : ℕ) (w : World)
      (r : Result (Unit {0}) × World)
      → IsSending (result_card s date codes count true) w r
      → (proceed r (λ _. answer {A = Unit {0}} tt)).1.marks ≡ w.marks
  unfolding IsSending
  preview_sent-marks s codes count w r (inl (e, _, _, eq)) = rw eq refl
  preview_sent-marks s codes count w (raised f, v) (inr (eq, bad)) = ap (λ w. w.marks) eq
  preview_sent-marks s codes count w (ok u, v) (inr (eq, bad)) = absurd (bad u refl)

  run_strategy-marks_same :
      (s : StrategyConfig F S) (w : World)
      → (run_strategy chat matches date true s w).1.marks ≡ w.marks
  unfolding run_strategy deliver
  run_strategy-marks_same s w = elim (Result-cases (matches s)) [
    | inl (codes, e) ↦ rw e (
        preview_sent-marks s codes (length codes) w _ (
          send_with_at_all_fallback-IsSending chat (result_card s date codes (length codes) true)
            w))
    | inr (f, e) ↦ rw e refl
  ]

  note_failure-marks :
      (id : Text) (r : Result (Unit {0}) × World) (rest : World → List Text × World)
      → ((w : World) → (rest w).1.marks ≡ w.marks)
      → (note_failure id r rest).1.marks ≡ r.1.marks
  note_failure-marks id (ok u, w) rest h = h w
  note_failure-marks id (raised e, w) rest h = h w

  collect_failures-marks_same :
      (ss : List (StrategyConfig F S)) (w : World)
      → (collect_failures chat matches date true ss w).1.marks ≡ w.marks
  unfolding collect_failures
  collect_failures-marks_same [] w = refl
  collect_failures-marks_same (s ∷ ss) w =
      note_failure-marks s.id (run_strategy chat matches date true s w) _
        (collect_failures-marks_same ss)
      ∙ run_strategy-marks_same s w

  failed_or_done-marks : (r : List Text × World) → (failed_or_done r).1.marks ≡ r.1.marks
  failed_or_done-marks ([], w) = refl
  failed_or_done-marks (id ∷ ids, w) = refl

  run_strategies-marks_same :
      (ss : List (StrategyConfig F S)) (w : World)
      → (run_strategies chat matches date true ss w).1.marks ≡ w.marks
  unfolding run_strategies
  run_strategies-marks_same ss w =
      failed_or_done-marks (collect_failures chat matches date true ss w)
      ∙ collect_failures-marks_same ss w

module _ {F S Frame : Type 0} (c : Collaborators F S Frame) (I : World → Type 0) (preview : Bool)
    (keeps : (matches : StrategyConfig F S → Result (List Text)) (date : Text)
        (ss : List (StrategyConfig F S)) (w : World)
      → I w
      → I (run_strategies c.chat matches date preview ss w).1) where
  runs-Keeps :
      (matches : StrategyConfig F S → Result (List Text)) (date : Text)
      (ss : List (StrategyConfig F S))
      → Keeps I (λ _. Unit {0}) (run_strategies c.chat matches date preview ss)
  runs-Keeps matches date ss = record { runs = λ w i. (Satisfies-any _, keeps matches date ss w i) }

  load_shared_history-Keeps :
      (ss : List (StrategyConfig F S)) (d : Date)
      → Keeps I (λ _. Unit {0}) (load_shared_history c ss d)
  unfolding load_shared_history
  load_shared_history-Keeps ss d =
      Keeps-bind (Keeps-attempt (Satisfies-any (max_of c 0 ss))) λ rows _.
        Keeps-bind (Keeps-attempt (Satisfies-any (or_overflow (history_start rows d))))
          λ start _. Keeps-attempt (Satisfies-any (c.load_qfq start d))

  run_legacy-Keeps :
      (frame : Frame) (date : Text) (ss : List (StrategyConfig F S))
      → Keeps I (λ _. Unit {0}) (run_legacy c frame date preview ss)
  unfolding run_legacy
  run_legacy-Keeps frame date ss = runs-Keeps _ date ss

  run_compiled-Keeps :
      (date : Text) (ss : List (StrategyConfig F S))
      → Keeps I (λ _. Unit {0}) (run_compiled_strategies c date preview ss)
  unfolding run_compiled_strategies
  run_compiled-Keeps date ss = runs-Keeps _ date ss

module _ {F S Frame : Type 0} (c : Collaborators F S Frame) where
  -- Nothing but the scan itself changes the markers or the cards.
  honest :
      (matches : StrategyConfig F S → Result (List Text)) (date : Text)
      (ss : List (StrategyConfig F S)) (w : World)
      → IsHonest w
      → IsHonest (run_strategies c.chat matches date false ss w).1
  honest matches date ss w h = run_strategies-IsHonest c.chat matches date false ss w h

  scan_legacy-Keeps :
      (d : Date) (ss : List (StrategyConfig F S))
      → Keeps IsHonest (λ _. Unit {0}) (scan_legacy c d ss)
  unfolding scan_legacy
  scan_legacy-Keeps d [] = Keeps-answer tt
  scan_legacy-Keeps d (s ∷ ss) =
      Keeps-bind (load_shared_history-Keeps c IsHonest false honest (s ∷ ss) d) λ frame _.
        Keeps-if (is_latest c (c.latest frame) (compact d))
          (λ _. run_legacy-Keeps c IsHonest false honest frame (compact d) (s ∷ ss))
          (λ _. Keeps-answer tt)

  scan_compiled-Keeps :
      (d : Date) (ss : List (StrategyConfig F S))
      → Keeps IsHonest (λ _. Unit {0}) (scan_compiled c d ss)
  unfolding scan_compiled
  scan_compiled-Keeps d [] = Keeps-answer tt
  scan_compiled-Keeps d (s ∷ ss) =
      Keeps-bind (Keeps-attempt (Satisfies-any (trial_dates c d d))) λ dates _.
        Keeps-if (any (date_beq d) dates)
          (λ _. run_compiled-Keeps c IsHonest false honest (compact d) (s ∷ ss))
          (λ _. Keeps-answer tt)

  pub run_daily_scan-Keeps :
      (ss : List (StrategyConfig F S)) → Keeps IsHonest (λ _. Unit {0}) (run_daily_scan c ss)
  unfolding run_daily_scan
  run_daily_scan-Keeps [] = Keeps-answer tt
  run_daily_scan-Keeps (s ∷ ss) =
      Keeps-bind (Keeps-attempt (Satisfies-any (scan_date c)))
        λ d _. Keeps-bind (scan_legacy-Keeps d _) λ _ _. scan_compiled-Keeps d _

module _ {F S Frame : Type 0} (c : Collaborators F S Frame) (marks : List Notification) where
  -- Honest, with the markers as they were.
  abbrev pub IsUntouched : World → Type 0
  IsUntouched w = IsHonest w × (w.marks ≡ marks)

  untouched :
      (matches : StrategyConfig F S → Result (List Text)) (date : Text)
      (ss : List (StrategyConfig F S)) (w : World)
      → IsUntouched w
      → IsUntouched (run_strategies c.chat matches date true ss w).1
  untouched matches date ss w (h, same) = (
    run_strategies-IsHonest c.chat matches date true ss w h,
    run_strategies-marks_same c.chat matches date ss w ∙ same,
  )

  preview_legacy-Keeps :
      (d : Date) (ss : List (StrategyConfig F S))
      → Keeps IsUntouched (λ _. Unit {0}) (preview_legacy c d ss)
  unfolding preview_legacy
  preview_legacy-Keeps d [] = Keeps-answer tt
  preview_legacy-Keeps d (s ∷ ss) =
      Keeps-bind (load_shared_history-Keeps c IsUntouched true untouched (s ∷ ss) d) λ frame _.
        Keeps-bind (Keeps-attempt (Satisfies-any (or_no_data c (c.latest frame))))
          λ latest _. run_legacy-Keeps c IsUntouched true untouched frame latest (s ∷ ss)

  preview_compiled-Keeps :
      (d : Date) (ss : List (StrategyConfig F S))
      → Keeps IsUntouched (λ _. Unit {0}) (preview_compiled c d ss)
  unfolding preview_compiled
  preview_compiled-Keeps d [] = Keeps-answer tt
  preview_compiled-Keeps d (s ∷ ss) =
      run_compiled-Keeps c IsUntouched true untouched (compact d) (s ∷ ss)

  preview_all-Keeps :
      (ss : List (StrategyConfig F S)) → Keeps IsUntouched (λ _. Unit {0}) (preview_all c ss)
  preview_all-Keeps [] = Keeps-answer tt
  preview_all-Keeps (s ∷ ss) =
      Keeps-bind (Keeps-attempt (Satisfies-any (scan_date c)))
        λ d _. Keeps-bind (preview_legacy-Keeps d _) λ _ _. preview_compiled-Keeps d _

  pub run_manual_preview-Keeps :
      (strategy_id : Option Text) (ss : List (StrategyConfig F S))
      → Keeps IsUntouched (λ _. Unit {0}) (run_manual_preview c strategy_id ss)
  unfolding run_manual_preview
  run_manual_preview-Keeps strategy_id ss = preview_all-Keeps (chosen c strategy_id ss)

module _ {F S Frame : Type 0} (c : Collaborators F S Frame) (w : World) where
  -- If a notification has a marker just where a card of a scan that was built from it has gone out,
  -- no notification has had two such cards, and each card that has gone out lists the first of the
  -- notifications that it was built from and counts the rest, with a rest only after thirty, this
  -- is so after a daily scan too, whatever the chat refuses and whichever strategies fail.
  pub run_daily_scan-IsHonest :
      (ss : List (StrategyConfig F S)) → IsHonest w → IsHonest (run_daily_scan c ss w).1
  run_daily_scan-IsHonest ss h = ((run_daily_scan-Keeps c ss).runs w h).1

  -- A preview keeps the markers true to the cards of the scans, as above, and leaves them as they
  -- were.
  pub run_manual_preview-IsHonest :
      (strategy_id : Option Text) (ss : List (StrategyConfig F S))
      → IsHonest w
      → IsHonest (run_manual_preview c strategy_id ss w).1
        × ((run_manual_preview c strategy_id ss w).1.marks ≡ w.marks)
  run_manual_preview-IsHonest strategy_id ss h =
      ((run_manual_preview-Keeps c w.marks strategy_id ss).runs w (h, refl)).1
