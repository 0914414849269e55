-- ===== src/Strategies/Scanner/Complete.antt =====
-- strategy_scanner.py: what a scan that reports no failure has announced.
use china_a_share.Prelude.{
  ℕ, ◌≡◌, refl, sym, ap, ◌∙◌, ◌⊎◌, inl, inr, Bool, true, false, ◌||◌, Text, List, [], ◌∷◌, All,
  All-map, Elem, map, length, Result, Result-cases, Satisfies, returned, failed, ok, raised, arith,
  if◌then◌else◌,
}
use china_a_share.Strategies.Acts.{proceed, answer}
use china_a_share.Strategies.Models.{StrategyConfig}
use china_a_share.Strategies.Store.{
  Notification, notification, notification_eq, is_marked, validate_notification,
  is_notification_sent,
}
use china_a_share.Strategies.Scanner.{
  World, Chat, is_sent, unsent, mark_all, result_card, announce, deliver, run_strategy,
  note_failure, collect_failures, failed_or_done, run_strategies,
}
use china_a_share.Strategies.Scanner.Unique.{
  IsFresh, named, unsent-IsFresh, add_marks, mark_all-add_marks, is_marked-add_marks,
}
use china_a_share.Strategies.Scanner.Sending.{IsSending, send_with_at_all_fallback-IsSending}
use mathlib.Core.Path.{subst}

ok_inj : {A : Type 0} {a b : A} → ok a ≡ ok b → a ≡ b
ok_inj h = cc

module _ {F S : Type 0} (s : StrategyConfig F S) (date : Text) where
  covers : Text → List Notification → List Text → Bool
  covers code marks fresh =
      is_marked (named s date code) (map (named s date) fresh)
      || is_marked (named s date code) marks

  covered :
      (b : Bool) (c code : Text) (codes fresh : List Text) (v : Result (List Text)) (u w : World)
      → is_marked (named s date c) w.marks ≡ b
      → ((rest : List Text) → v ≡ ok rest → Elem code codes → covers code w.marks rest ≡ true)
      → (proceed (v, u) (λ rest. answer (if b then rest else c ∷ rest))).0 ≡ ok fresh
      → Elem code (c ∷ codes)
      → covers code w.marks fresh ≡ true
  unfolding covers is_marked
  covered b c code codes fresh (raised e) u w q k h m = absurd (cc)
  covered true c code codes fresh (ok rest) u w q k h (inl e) =
      let marked = subst (λ i. is_marked (named s date i) w.marks ≡ true) e q in ground arith
  covered true c code codes fresh (ok rest) u w q k h (inr m) = k fresh h m
  covered false c code codes fresh (ok rest) u w q k h (inl e) =
      let hit : notification_eq.beq (named s date c) (named s date code) ≡ true =
        (notification_eq.beq_iff _ _).1 (ap (named s date) e) in
      subst (λ l. covers code w.marks l ≡ true) (ok_inj h) (ground arith)
  covered false c code codes fresh (ok rest) u w q k h (inr m) =
      let later = k rest refl m in
      subst (λ l. covers code w.marks l ≡ true) (ok_inj h) (ground arith)

  -- Each match either has a marker or is kept.
  unsent-covers :
      (codes fresh : List Text) (w : World) (code : Text)
      → (unsent s date codes w).0 ≡ ok fresh
      → Elem code codes
      → covers code w.marks fresh ≡ true
  unfolding unsent is_sent is_notification_sent
  unsent-covers [] fresh w code h m = absurd m
  unsent-covers (c ∷ codes) fresh w code h m =
      elim (Result-cases (validate_notification s.id c date s.direction)) [
        | inr (e, f) ↦ absurd (let h' = rw f at h in cc)
        | inl (u, f) ↦
            covered (is_marked (named s date c) w.marks) c code codes fresh
              (unsent s date codes w).0 (unsent s date codes w).1 w refl
              (λ rest e k. unsent-covers codes rest w code e k) (rw f at h) m
      ]

  -- The outcome of one delivery.
  IsOutcome : List Text → World → Result (Unit {0}) × World → Type 0
  IsOutcome codes w r =
      ((fresh : List Text) × ((unsent s date codes w).0 ≡ ok fresh)
        × (r.1.marks ≡ add_marks s date fresh w.marks))
      ⊎ ((u : Unit {0}) → ¬ (r.0 ≡ ok u)) × (r.1.marks ≡ w.marks)

  sent-IsOutcome :
      (codes fresh : List Text) (count : ℕ) (w : World) (r : Result (Unit {0}) × World)
      → (unsent s date codes w).0 ≡ ok fresh
      → All (IsFresh s date w.marks) fresh
      → IsSending (result_card s date fresh count false) w r
      → IsOutcome codes w (proceed r (λ _. mark_all s date fresh))
  unfolding IsOutcome IsSending
  sent-IsOutcome codes fresh count w r e p (inl (d, _, _, eq)) =
      let valid =
        All-map _ (λ code. validate_notification s.id code date s.direction ≡ ok tt) fresh
          (λ code q. q.valid) p in
      let written =
        mark_all-add_marks s date fresh (record w { delivered = d ∷ w.delivered }) valid in
      rw (eq, written) (inl (fresh, e, refl))
  sent-IsOutcome codes fresh count w (raised f, v) e p (inr (eq, bad)) =
      inr ((λ u h. cc), ap (λ w. w.marks) eq)
  sent-IsOutcome codes fresh count w (ok u, v) e p (inr (eq, bad)) = absurd (bad u refl)

  announce-IsOutcome :
      (chat : Chat) (codes : List Text) (count : ℕ) (v : Result (List Text)) (w : World)
      → (unsent s date codes w).0 ≡ v
      → Satisfies (All (IsFresh s date w.marks)) (λ _. Unit {0}) v
      → IsOutcome codes w (proceed (v, w) (announce chat s date false count))
  unfolding IsOutcome
  announce-IsOutcome chat codes count v w e (failed {e = f} p) = inr ((λ u h. cc), refl)
  announce-IsOutcome chat codes count v w e (returned {a = fresh} p) =
      sent-IsOutcome codes fresh count w _ e p
        (send_with_at_all_fallback-IsSending chat (result_card s date fresh count false) w)

  deliver-IsOutcome :
      (chat : Chat) (codes : List Text) (w : World)
      → IsOutcome codes w (deliver chat s date false codes w)
  unfolding deliver
  deliver-IsOutcome chat codes w =
      let (fresh, still) = unsent-IsFresh s date codes w in
      subst
        (λ v.
          IsOutcome codes w
            (proceed ((unsent s date codes w).0, v) (announce chat s date false (length codes))))
        (sym still)
        (announce-IsOutcome chat codes (length codes) (unsent s date codes w).0 w refl fresh)

  -- A delivery that does not raise has marked every match.
  deliver-marks :
      (chat : Chat) (codes : List Text) (w : World) (code : Text)
      → (deliver chat s date false codes w).0 ≡ ok tt
      → Elem code codes
      → is_marked (named s date code) (deliver chat s date false codes w).1.marks ≡ true
  unfolding IsOutcome covers
  deliver-marks chat codes w code h m = elim (deliver-IsOutcome chat codes w) [
    | inl (fresh, e, eq) ↦
        ap (is_marked (named s date code)) eq
        ∙ is_marked-add_marks s date (named s date code) fresh w.marks
        ∙ unsent-covers codes fresh w code e m
    | inr (bad, eq) ↦ absurd (bad tt h)
  ]

  -- No delivery takes a marker away.
  deliver-keeps :
      (chat : Chat) (codes : List Text) (w : World) (n : Notification)
      → is_marked n w.marks ≡ true
      → is_marked n (deliver chat s date false codes w).1.marks ≡ true
  unfolding IsOutcome
  deliver-keeps chat codes w n h = elim (deliver-IsOutcome chat codes w) [
    | inl (fresh, e, eq) ↦
        ap (is_marked n) eq
        ∙ is_marked-add_marks s date n fresh w.marks
        ∙ (let marked = h in ground arith)
    | inr (bad, eq) ↦ ap (is_marked n) eq ∙ h
  ]

module _ {F S : Type 0} (chat : Chat) (matches : StrategyConfig F S → Result (List Text))
    (date : Text) where
  -- What a strategy's run without an exception has marked.
  run_strategy-marks :
      (s : StrategyConfig F S) (codes : List Text) (w : World) (code : Text)
      → (run_strategy chat matches date false s w).0 ≡ ok tt
      → matches s ≡ ok codes
      → Elem code codes
      → is_marked (named s date code) (run_strategy chat matches date false s w).1.marks ≡ true
  unfolding run_strategy
  run_strategy-marks s codes w code h e m =
      rw e (deliver-marks s date chat codes w code (rw e at h) m)

  run_strategy-keeps :
      (s : StrategyConfig F S) (w : World) (n : Notification)
      → is_marked n w.marks ≡ true
      → is_marked n (run_strategy chat matches date false s w).1.marks ≡ true
  unfolding run_strategy
  run_strategy-keeps s w n h = elim (Result-cases (matches s)) [
    | inl (codes, e) ↦ rw e (deliver-keeps s date chat codes w n h)
    | inr (f, e) ↦ rw e h
  ]

  note_failure-keeps :
      (id : Text) (r : Result (Unit {0}) × World) (rest : World → List Text × World)
      (n : Notification)
      → is_marked n r.1.marks ≡ true
      → ((w : World) → is_marked n w.marks ≡ true → is_marked n (rest w).1.marks ≡ true)
      → is_marked n (note_failure id r rest).1.marks ≡ true
  note_failure-keeps id (ok u, w) rest n h k = k w h
  note_failure-keeps id (raised e, w) rest n h k = k w h

  collect_failures-keeps :
      (ss : List (StrategyConfig F S)) (w : World) (n : Notification)
      → is_marked n w.marks ≡ true
      → is_marked n (collect_failures chat matches date false ss w).1.marks ≡ true
  unfolding collect_failures
  collect_failures-keeps [] w n h = h
  collect_failures-keeps (s ∷ ss) w n h =
      note_failure-keeps s.id _ _ n (run_strategy-keeps s w n h)
        (λ v k. collect_failures-keeps ss v n k)

  -- Where there is no failure the run has not raised, and the rest has no failure.
  note_failure-nil :
      (id : Text) (r : Result (Unit {0}) × World) (rest : World → List Text × World)
      → (note_failure id r rest).0 ≡ []
      → (r.0 ≡ ok tt) × ((rest r.1).0 ≡ []) × ((note_failure id r rest).1 ≡ (rest r.1).1)
  note_failure-nil id (ok u, w) rest h = (refl, h, refl)
  note_failure-nil id (raised e, w) rest h = absurd (cc)

  collect_failures-marks :
      (ss : List (StrategyConfig F S)) (w : World) (s : StrategyConfig F S) (codes : List Text)
      (code : Text)
      → (collect_failures chat matches date false ss w).0 ≡ []
      → Elem s ss
      → matches s ≡ ok codes
      → Elem code codes
      → is_marked (named s date code) (collect_failures chat matches date false ss w).1.marks ≡ true
  unfolding collect_failures
  collect_failures-marks [] w s codes code h m e k = absurd m
  collect_failures-marks (t ∷ ss) w s codes code h (inl same) e k =
      let (done, rest, now) =
        note_failure-nil t.id (run_strategy chat matches date false t w)
          (collect_failures chat matches date false ss) h in
      let marked = run_strategy-marks t codes w code done (ap matches same ∙ e) k in
      let kept = collect_failures-keeps ss _ _ marked in
      subst
        (λ i.
          is_marked (named i date code)
            (collect_failures chat matches date false (t ∷ ss) w).1.marks
          ≡ true)
        same (ap (λ v. is_marked (named t date code) v.marks) now ∙ kept)
  collect_failures-marks (t ∷ ss) w s codes code h (inr later) e k =
      let (done, rest, now) =
        note_failure-nil t.id (run_strategy chat matches date false t w)
          (collect_failures chat matches date false ss) h in
      ap (λ v. is_marked (named s date code) v.marks) now
      ∙ collect_failures-marks ss (run_strategy chat matches date false t w).1 s codes code rest
          later e k

  failed_or_done-ok :
      (r : List Text × World)
      → (failed_or_done r).0 ≡ ok tt
      → (r.0 ≡ []) × ((failed_or_done r).1 ≡ r.1)
  failed_or_done-ok ([], w) h = (refl, refl)
  failed_or_done-ok (id ∷ ids, w) h = absurd (cc)

  -- A scan that does not raise has left a marker for every match of every one of its strategies.
  pub run_strategies-is_marked :
      (ss : List (StrategyConfig F S)) (w : World) (s : StrategyConfig F S) (codes : List Text)
      (code : Text)
      → (run_strategies chat matches date false ss w).0 ≡ ok tt
      → Elem s ss
      → matches s ≡ ok codes
      → Elem code codes
      → is_marked
          (notification s.id code date s.direction)
          (run_strategies chat matches date false ss w).1.marks
        ≡ true
  unfolding run_strategies
  run_strategies-is_marked ss w s codes code h m e k =
      let (none_failed, now) =
        failed_or_done-ok (collect_failures chat matches date false ss w) h in
      ap (λ v. is_marked (named s date code) v.marks) now
      ∙ collect_failures-marks ss w s codes code none_failed m e k
