-- ===== src/Strategies/Scanner/Unique.antt =====
-- strategy_scanner.py: no notification goes out twice, and a marker stands for a card that went out.
use china_a_share.Prelude.{
  ℕ, ◌+◌, ◌≤◌, ◌≡◌, refl, sym, inl, inr, Bool, true, false, ◌||◌, Text, List, [], ◌∷◌, All, All-map,
  map, ltb, length, Result, Result-cases, Satisfies, returned, failed, ok, raised, arith,
  if◌then◌else◌, Bool-cases,
}
use china_a_share.Strategies.Acts.{proceed, answer}
use china_a_share.Strategies.Models.{StrategyConfig}
use china_a_share.Strategies.Store.{
  Notification, notification, notification_eq, is_marked, validate_notification,
  is_notification_sent, mark_notification_sent,
}
use china_a_share.Strategies.Scanner.{
  World, Delivery, Chat, is_sent, mark_sent, unsent, mark_all, result_card, announce, deliver,
  run_strategy, note_failure, collect_failures, failed_or_done, run_strategies,
}
use china_a_share.Strategies.Scanner.Listed.{result_card-IsFull}
use china_a_share.Strategies.Scanner.Sending.{
  IsFull, announces, IsSending, send_with_at_all_fallback-IsSending,
}
use mathlib.Core.Path.{subst}

-- How many cards have gone out with a notification.
unfoldable pub times_announced : Notification → List Delivery → ℕ
times_announced n [] = 0
times_announced n (d ∷ ds) =
    let rest = times_announced n ds in if announces n d then rest + 1 else rest

-- A marker is there just where a card built from its notification has gone out, and there is one such
-- card; each card that went out lists the first of what it is built from and counts the rest, and
-- there is a rest only after thirty.
pub record IsHonest (w : World) : Type 0 where
  pub same : (n : Notification) → is_marked n w.marks ≡ ltb 0 (times_announced n w.delivered)
  pub once : (n : Notification) → times_announced n w.delivered ≤ 1
  pub full : All (λ d. IsFull d.card) w.delivered

module _ {F S : Type 0} (s : StrategyConfig F S) (date : Text) where
  abbrev pub named : Text → Notification
  named code = notification s.id code date s.direction

  pub record IsFresh (marks : List Notification) (code : Text) : Type 0 where
    pub valid : validate_notification s.id code date s.direction ≡ ok tt
    pub unmarked : is_marked (named code) marks ≡ false

  kept :
      (b : Bool) (code : Text) (w : World) (r : Result (List Text)) (v : World)
      → validate_notification s.id code date s.direction ≡ ok tt
      → is_marked (named code) w.marks ≡ b
      → Satisfies (All (IsFresh w.marks)) (λ _. Unit {0}) r
      → v ≡ w
      → Satisfies
          (All (IsFresh w.marks))
          (λ _. Unit {0})
          (proceed (r, v) (λ rest. answer (if b then rest else code ∷ rest))).0
        × ((proceed (r, v) (λ rest. answer (if b then rest else code ∷ rest))).1 ≡ w)
  kept true code w r v h e (returned p) k = (returned p, k)
  kept false code w r v h e (returned p) k = (returned (record { valid = h; unmarked = e }, p), k)
  kept b code w r v h e (failed p) k = (failed p, k)

  -- What `unsent` keeps is valid and has no marker, and the world is as before.
  pub unsent-IsFresh :
      (codes : List Text) (w : World)
      → Satisfies (All (IsFresh w.marks)) (λ _. Unit {0}) (unsent s date codes w).0
        × ((unsent s date codes w).1 ≡ w)
  unfolding unsent is_sent is_notification_sent
  unsent-IsFresh [] w = (returned tt, refl)
  unsent-IsFresh (code ∷ codes) w =
      elim (Result-cases (validate_notification s.id code date s.direction)) [
        | inr (e, h) ↦ rw h (failed tt, refl)
        | inl (u, h) ↦ rw h (
            let (rest, still) = unsent-IsFresh codes w in
            kept (is_marked (named code) w.marks) code w (unsent s date codes w).0
              (unsent s date codes w).1 h refl rest still)
      ]

  abbrev pub add_marks : List Text → List Notification → List Notification
  add_marks [] marks = marks
  add_marks (code ∷ codes) marks =
      add_marks codes (if is_marked (named code) marks then marks else named code ∷ marks)

  -- Of valid codes every marker is written.
  pub mark_all-add_marks :
      (codes : List Text) (w : World)
      → All (λ code. validate_notification s.id code date s.direction ≡ ok tt) codes
      → mark_all s date codes w ≡ (ok tt, record w { marks = add_marks codes w.marks })
  unfolding mark_all mark_sent mark_notification_sent
  mark_all-add_marks [] w h = refl
  mark_all-add_marks (code ∷ codes) w (h, hs) = rw h (mark_all-add_marks codes _ hs)

  is_marked-add :
      (n m : Notification) (marks : List Notification)
      → is_marked n (if is_marked m marks then marks else m ∷ marks)
        ≡ (notification_eq.beq m n || is_marked n marks)
  unfolding is_marked
  is_marked-add n m marks = elim (Bool-cases (is_marked m marks)) [
    | inr e ↦ rw e
    | inl e ↦ elim (Bool-cases (notification_eq.beq m n)) [
      | inr f ↦ rw (e, f)
      | inl f ↦
          rw (e, f) (subst (λ k. is_marked k marks ≡ true) ((notification_eq.beq_iff m n).0 f) e)
    ]
  ]

  pub is_marked-add_marks :
      (n : Notification) (codes : List Text) (marks : List Notification)
      → is_marked n (add_marks codes marks) ≡ (is_marked n (map named codes) || is_marked n marks)
  unfolding is_marked
  is_marked-add_marks n [] marks = refl
  is_marked-add_marks n (code ∷ codes) marks =
      let rest =
        is_marked-add_marks n codes
          (if is_marked (named code) marks then marks else named code ∷ marks) in
      let one = is_marked-add n (named code) marks in ground arith

  -- A notification of fresh codes has no marker.
  fresh-unmarked :
      (n : Notification) (codes : List Text) (marks : List Notification)
      → All (IsFresh marks) codes
      → is_marked n (map named codes) ≡ true
      → is_marked n marks ≡ false
  unfolding is_marked
  fresh-unmarked n [] marks h e = absurd (cc)
  fresh-unmarked n (code ∷ codes) marks (h, hs) e =
      elim (Bool-cases (notification_eq.beq (named code) n)) [
        | inl f ↦
            subst (λ k. is_marked k marks ≡ false) ((notification_eq.beq_iff (named code) n).0 f)
              h.unmarked
        | inr f ↦ fresh-unmarked n codes marks hs (rw f at e)
      ]

module _ {F S : Type 0} (s : StrategyConfig F S) (date : Text) where
  -- A preview that went out announces nothing.
  preview-IsHonest :
      (w : World) (codes : List Text) (count : ℕ) (r : Result (Unit {0}) × World)
      → IsHonest w
      → IsSending (result_card s date codes count true) w r
      → IsHonest (proceed r (λ _. answer {A = Unit {0}} tt)).1
  unfolding IsSending times_announced
  preview-IsHonest w codes count r h (inl (e, quiet, full, eq)) = rw eq (record {
    same = λ n. rw quiet (h.same n);
    once = λ n. rw quiet (h.once n);
    full = (full (result_card-IsFull s date codes count true), h.full);
  })
  preview-IsHonest w codes count (raised f, v) h (inr (eq, bad)) = subst IsHonest (sym eq) h
  preview-IsHonest w codes count (ok u, v) h (inr (eq, bad)) = absurd (bad u refl)

  marked-IsHonest :
      (w : World) (codes : List Text) (e : Delivery)
      → IsHonest w
      → All (IsFresh s date w.marks) codes
      → ((n : Notification) → announces n e ≡ is_marked n (map (named s date) codes))
      → IsFull e.card
      → IsHonest (record { marks = add_marks s date codes w.marks; delivered = e ∷ w.delivered })
  unfolding times_announced
  marked-IsHonest w codes e h fresh loud full = record {
    same = λ n.
        let same = h.same n in
        let once = h.once n in
        let heard = loud n in
        let added = is_marked-add_marks s date n codes w.marks in
        elim (Bool-cases (is_marked n (map (named s date) codes))) [
          | inl hit ↦ rw (added, heard, hit) (ground arith)
          | inr miss ↦ rw (added, heard, miss) same
        ];
    once = λ n.
        let same = h.same n in
        let once = h.once n in
        let heard = loud n in
        elim (Bool-cases (is_marked n (map (named s date) codes))) [
          | inl hit ↦
              let unmarked = fresh-unmarked s date n codes w.marks fresh hit in
              rw (heard, hit) (ground arith)
          | inr miss ↦ rw (heard, miss) once
        ];
    full = (full, h.full);
  }

  scan-IsHonest :
      (w : World) (codes : List Text) (count : ℕ) (r : Result (Unit {0}) × World)
      → IsHonest w
      → All (IsFresh s date w.marks) codes
      → IsSending (result_card s date codes count false) w r
      → IsHonest (proceed r (λ _. mark_all s date codes)).1
  unfolding IsSending times_announced
  scan-IsHonest w codes count r h fresh (inl (e, loud, full, eq)) =
      let valid =
        All-map _ (λ code. validate_notification s.id code date s.direction ≡ ok tt) codes
          (λ code fresh. fresh.valid) fresh in
      let written =
        mark_all-add_marks s date codes (record w { delivered = e ∷ w.delivered }) valid in
      rw (eq, written)
        (marked-IsHonest w codes e h fresh loud
          (full (result_card-IsFull s date codes count false)))
  scan-IsHonest w codes count (raised f, v) h fresh (inr (eq, bad)) = subst IsHonest (sym eq) h
  scan-IsHonest w codes count (ok u, v) h fresh (inr (eq, bad)) = absurd (bad u refl)

  announce-IsHonest :
      (chat : Chat) (count : ℕ) (r : Result (List Text)) (w : World)
      → IsHonest w
      → Satisfies (All (IsFresh s date w.marks)) (λ _. Unit {0}) r
      → IsHonest (proceed (r, w) (announce chat s date false count)).1
  announce-IsHonest chat count r w h (returned {a = codes} fresh) =
      scan-IsHonest w codes count _ h fresh
        (send_with_at_all_fallback-IsSending chat (result_card s date codes count false) w)
  announce-IsHonest chat count r w h (failed p) = h

  deliver-IsHonest :
      (chat : Chat) (preview : Bool) (codes : List Text) (w : World)
      → IsHonest w
      → IsHonest (deliver chat s date preview codes w).1
  unfolding deliver
  deliver-IsHonest chat true codes w h =
      preview-IsHonest w codes (length codes) _ h
        (send_with_at_all_fallback-IsSending chat (result_card s date codes (length codes) true) w)
  deliver-IsHonest chat false codes w h =
      let (fresh, still) = unsent-IsFresh s date codes w in
      subst
        (λ v.
          IsHonest
            (proceed ((unsent s date codes w).0, v) (announce chat s date false (length codes))).1)
        (sym still) (announce-IsHonest chat (length codes) (unsent s date codes w).0 w h fresh)

module _ {F S : Type 0} (chat : Chat) (matches : StrategyConfig F S → Result (List Text))
    (date : Text) (preview : Bool) where
  run_strategy-IsHonest :
      (s : StrategyConfig F S) (w : World)
      → IsHonest w
      → IsHonest (run_strategy chat matches date preview s w).1
  unfolding run_strategy
  run_strategy-IsHonest s w h = elim (Result-cases (matches s)) [
    | inl (codes, e) ↦ rw e (deliver-IsHonest s date chat preview codes w h)
    | inr (f, e) ↦ rw e h
  ]

  note_failure-IsHonest :
      (id : Text) (r : Result (Unit {0}) × World) (rest : World → List Text × World)
      → IsHonest r.1
      → ((w : World) → IsHonest w → IsHonest (rest w).1)
      → IsHonest (note_failure id r rest).1
  note_failure-IsHonest id (ok u, w) rest h k = k w h
  note_failure-IsHonest id (raised e, w) rest h k = k w h

  collect_failures-IsHonest :
      (ss : List (StrategyConfig F S)) (w : World)
      → IsHonest w
      → IsHonest (collect_failures chat matches date preview ss w).1
  unfolding collect_failures
  collect_failures-IsHonest [] w h = h
  collect_failures-IsHonest (s ∷ ss) w h =
      note_failure-IsHonest s.id _ _ (run_strategy-IsHonest s w h) (collect_failures-IsHonest ss)

  failed_or_done-same : (r : List Text × World) → (failed_or_done r).1 ≡ r.1
  failed_or_done-same ([], w) = refl
  failed_or_done-same (id ∷ ids, w) = refl

  -- Whatever the chat accepts and whatever the strategies match or fail with.
  pub run_strategies-IsHonest :
      (ss : List (StrategyConfig F S)) (w : World)
      → IsHonest w
      → IsHonest (run_strategies chat matches date preview ss w).1
  unfolding run_strategies
  run_strategies-IsHonest ss w h =
      subst IsHonest (sym (failed_or_done-same (collect_failures chat matches date preview ss w)))
        (collect_failures-IsHonest ss w h)
