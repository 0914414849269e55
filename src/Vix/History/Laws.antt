-- ===== src/Vix/History/Laws.antt =====
-- vix/history.py: recording a settlement appends at the end of the series, and is idempotent.
use china_a_share.Prelude.{
  ◌≡◌, refl, ap, ◌∙◌, Bool, true, false, not, some, Text, text_lt, text_eq, text_beq, if◌then◌else◌,
  List, [], ◌∷◌, ok, All, All-map, Elem, All-Elem, arith,
}
use china_a_share.Prelude.Maps.{lookup, insert, lookup-insert}
use china_a_share.Floats.{Float}
use china_a_share.Dates.{Date, IsDate, date_le, date_lt}
use china_a_share.Dates.Print.{isoformat, from_isoformat-isoformat}
use china_a_share.Vix.History.{
  Closes, History, keys, not_newer_than, load, current, put_closes, sort_items, max_text, not_newer,
  append_close, record_settlement,
}
use china_a_share.Vix.History.Order.{text_lt-isoformat}
use china_a_share.Vix.History.Greatest.{
  IsKey, IsSeries, max_text-All, NotAbove, max_text-NotAbove, above_of_NotAbove, All-keys-insert,
  Elem-keys-insert,
}

-- The greatest key of a series is a date, and decides whether another is newer.
not_newer_lem :
    (d : Date) (k : Text) (ks : List Text)
    → All IsKey (k ∷ ks)
    → (e : Date) × (max_text k ks ≡ isoformat e) × (not_newer d (k ∷ ks) ≡ ok (date_le d e))
unfolding not_newer not_newer_than
not_newer_lem d k ks (c, cs) =
    let (e, valid, printed) = max_text-All IsKey k ks c cs in
    (e, printed, rw (printed, from_isoformat-isoformat e valid))

-- A date that is newer than the latest key is newer than every key.
not_newer-false :
    (d : Date) (ks : List Text)
    → All IsKey ks
    → not_newer d ks ≡ ok false
    → All (λ k. text_lt k (isoformat d) ≡ true) ks
unfolding date_le
not_newer-false d [] c h = tt
not_newer-false d (k ∷ ks) c h =
    let m = max_text k ks in
    let (e, printed, decided) = not_newer_lem d k ks c in
    let older : text_lt m (isoformat d) ≡ true = rw (printed, text_lt-isoformat) (ground arith) in
    let (top, rest) = max_text-NotAbove k ks in
    (
      above_of_NotAbove m k _ top older,
      All-map (NotAbove m) (λ j. text_lt j (isoformat d) ≡ true) ks
          (λ j p. above_of_NotAbove m j _ p older) rest,
    )

-- A date that is a key is not newer.
not_newer-true :
    (d : Date) (ks : List Text) → All IsKey ks → Elem (isoformat d) ks → not_newer d ks ≡ ok true
unfolding date_le
not_newer-true d [] c h = absurd h
not_newer-true d (k ∷ ks) c h =
    let m = max_text k ks in
    let (e, printed, decided) = not_newer_lem d k ks c in
    let top = All-Elem (NotAbove m) (isoformat d) (k ∷ ks) (max_text-NotAbove k ks) h in
    let not_before : date_lt e d ≡ false = rw (← text_lt-isoformat, ← printed) top in
    rw (decided, not_before) refl

module _ {F : Type 0} ⦃f : Float F⦄ where
  open f use {le, cents}

  abbrev series : History F → Closes F
  series h = current (load h)

  -- Its three outcomes, by whether the date is newer than the series.
  settled_true :
      (d : Date) (close : F) (h : History F)
      → IsDate d
      → le close (cents 0) ≡ false
      → not_newer d (keys (series h)) ≡ ok true
      → record_settlement (isoformat d) close h ≡ (load h, ok false)
  unfolding record_settlement
  settled_true d close h v pos e = rw (pos, from_isoformat-isoformat d v, e) refl

  settled_false :
      (d : Date) (close : F) (h : History F)
      → IsDate d
      → le close (cents 0) ≡ false
      → not_newer d (keys (series h)) ≡ ok false
      → record_settlement (isoformat d) close h
        ≡ (append_close (isoformat d) close (load h), ok true)
  unfolding record_settlement
  settled_false d close h v pos e = rw (pos, from_isoformat-isoformat d v, e) refl

  settled_inv :
      (d : Date) (close : F) (h : History F) {h' : History F} {b : Bool}
      → IsDate d
      → record_settlement (isoformat d) close h ≡ (h', ok b)
      → (le close (cents 0) ≡ false) × (not_newer d (keys (series h)) ≡ ok (not b))
  unfolding record_settlement
  settled_inv d close h v e = ground (arith, from_isoformat-isoformat d v)

  load_load : (h : History F) → load (load h) ≡ load h
  unfolding load
  load_load h = ground arith

  load-append_close :
      (k : Text) (close : F) (h : History F)
      → load (append_close k close h) ≡ append_close k close h
  unfolding append_close load put_closes
  load-append_close k close h = refl

  current-append_close :
      (k : Text) (close : F) (h : History F)
      → current (append_close k close h) ≡ insert k close (current h)
  unfolding append_close put_closes
  current-append_close k close h = refl

  stored-append_close :
      (k : Text) (close : F) (h : History F)
      → (append_close k close h).stored ≡ some (sort_items (insert k close (current h)))
  unfolding append_close put_closes
  stored-append_close k close h = refl

  -- With a valid date and a series of dated closes, a settlement that is recorded is later than
  -- every day of the series; the series then has its close at that date and the old closes at all
  -- other days, is of dated closes still, and the store has it sorted.
  pub record_settlement_appends :
      (d : Date) (close : F) (h : History F) {h' : History F}
      → IsDate d
      → IsSeries (current (load h))
      → record_settlement (isoformat d) close h ≡ (h', ok true)
      → All (λ k. text_lt k (isoformat d) ≡ true) (keys (current (load h)))
        × ((k : Text)
            → lookup k (current h')
              ≡ (if text_beq (isoformat d) k then some close else lookup k (current (load h))))
        × (h'.stored ≡ some (sort_items (current h')))
        × IsSeries (current h')
  record_settlement_appends d close h {h'} v s e =
      let (pos, newer) = settled_inv d close h v e in
      let same : append_close (isoformat d) close (load h) ≡ h' =
        cc (settled_false d close h v pos newer) in
      rw (← same, current-append_close)
        (
          not_newer-false d (keys (series h)) s newer,
          (λ k. lookup-insert (isoformat d) k close (series h)),
          stored-append_close (isoformat d) close (load h),
          All-keys-insert IsKey (isoformat d) close (series h) (d, v, refl) s,
        )

  -- With a valid date and a series of dated closes, once a recording of a date has returned,
  -- recording that date again with a close that is not at or below zero returns false and changes
  -- nothing.
  pub record_settlement_again :
      (d : Date) (close again : F) (h : History F) (b : Bool) {h' : History F}
      → IsDate d
      → IsSeries (current (load h))
      → le again (cents 0) ≡ false
      → record_settlement (isoformat d) close h ≡ (h', ok b)
      → record_settlement (isoformat d) again h' ≡ (h', ok false)
  record_settlement_again d close again h true {h'} v s pos e =
      let (pos', newer) = settled_inv d close h v e in
      let after = append_close (isoformat d) close (load h) in
      let same : after ≡ h' = cc (settled_false d close h v pos' newer) in
      let found =
        not_newer-true d (keys (insert (isoformat d) close (series h)))
          (All-keys-insert IsKey (isoformat d) close (series h) (d, v, refl) s)
          (Elem-keys-insert (isoformat d) close (series h)) in
      rw (← same) (
        settled_true d again after v pos (rw (load-append_close, current-append_close) found)
        ∙ ap (λ x. (x, ok false)) (load-append_close _ _ _))
  record_settlement_again d close again h false {h'} v s pos e =
      let (pos', older) = settled_inv d close h v e in
      let same : load h ≡ h' = cc (settled_true d close h v pos' older) in
      rw (← same) (
        settled_true d again (load h) v pos (rw load_load older)
        ∙ ap (λ x. (x, ok false)) (load_load h))
