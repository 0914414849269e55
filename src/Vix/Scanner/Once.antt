-- ===== src/Vix/Scanner/Once.antt =====
-- vix/scanner.py: no rule is alerted twice for one chat and date, and a claim stands for an alert.
use china_a_share.Prelude.{
  ◌≡◌, refl, ◌∙◌, ℕ, inl, inr, Bool, true, false, Option, none, some, Text, List, [], ◌∷◌, arith,
  Bool-cases, Result, ok, raised,
}
use china_a_share.Prelude.Maps.{Dict}
use china_a_share.Floats.{Float}
use china_a_share.Vix.Rules.{VixRule}
use china_a_share.Vix.Source.{VixQuote, Moment, evaluable, settled, eastern_wall_clock}
use china_a_share.Vix.Claims.{Key, key_eq, has}
use china_a_share.Vix.History.{History, FredFile}
use china_a_share.Vix.Positions.{VixPosition, CloseReason}
use china_a_share.Vix.Scanner.{
  run_hourly_scan, scan_at, after_recording, scan_quote, deliver_and_close, record_quote,
}
use china_a_share.Vix.Scanner.World.{Message, alert, Outside, Service, send}
use china_a_share.Vix.Scanner.Deliver.{
  Alerts, claim_rules, send_claimed, send_if_any, deliver_chat, deliver_chats, deliver_new_alerts,
}
use china_a_share.Vix.Scanner.Close.{
  close_position, send_report, close_if_due, close_positions, close_due_positions,
  compose_closing_message,
}
use china_a_share.Vix.Scanner.Claiming.{
  Unique, has-append, Unique-append, keys_of, alerted_by, alerted, Claimed, claim_rules_lem,
  release_rules_lem,
}

-- What one scan is given: the world outside, the FRED download, the quote and the clock.
pub record Hour (F : Type 0) : Type 0 where
  pub out : Outside F
  pub fetched : Result FredFile
  pub quote : Option (VixQuote F)
  pub utc : Moment

module _ {F : Type 0} where
  -- What holds between two scans: a key is claimed just when it has been alerted, and none twice.
  pub record IsOnce (s : Service F) : Type 0 where
    pub claimed_iff_alerted : (k : Key) → has k s.claims ≡ has k (alerted s.log)
    pub once : Unique (alerted s.log)

  send_claimed-IsOnce :
      (out : Outside F) (q : VixQuote F) (index : Option F) (chat : Text) (mine : List (VixRule F))
      (s : Service F) (a : Alerts) (c : List Key)
      → ((k : Key) → has k c ≡ has k (alerted s.log))
      → Unique (alerted s.log)
      → Claimed c s.claims (keys_of chat q mine)
      → IsOnce (send_claimed out q index chat mine (s, a)).0
  unfolding send_claimed send
  send_claimed-IsOnce out q index chat mine s a c same once m =
      elim (Bool-cases (out.accepts s.log chat (alert q mine index))) [
        | inl yes' ↦ rw yes' (record {
          claimed_iff_alerted = λ k.
              ground (
                arith,
                has-append k (keys_of chat q mine) (alerted s.log),
                m.all_claimed k,
                same k,
              );
          once = Unique-append _ _ m.unique once (λ k h. ground (arith, m.were_free k, same k));
        })
        | inr no' ↦ rw no' (record {
          claimed_iff_alerted = λ k. ground (
            arith,
            release_rules_lem chat q mine s.claims k,
            m.all_claimed k,
            same k,
            m.were_free k,
          );
          once = once;
        })
      ]

  send_if_any-IsOnce :
      (out : Outside F) (q : VixQuote F) (index : Option F) (chat : Text) (mine : List (VixRule F))
      (s : Service F) (a : Alerts) (c : List Key)
      → ((k : Key) → has k c ≡ has k (alerted s.log))
      → Unique (alerted s.log)
      → Claimed c s.claims (keys_of chat q mine)
      → IsOnce (send_if_any out q index chat mine (s, a)).0
  unfolding send_if_any has
  send_if_any-IsOnce out q index chat [] s a c same once m = record {
    claimed_iff_alerted = λ k. m.all_claimed k ∙ same k;
    once = once;
  }
  send_if_any-IsOnce out q index chat (rule ∷ rules) s a c same once m =
      send_claimed-IsOnce out q index chat (rule ∷ rules) s a c same once m

  deliver_chats-IsOnce :
      (out : Outside F) (q : VixQuote F) (index : Option F) (d : Dict Text (List (VixRule F)))
      (sa : Service F × Alerts)
      → IsOnce sa.0
      → IsOnce (deliver_chats out q index d sa).0
  unfolding deliver_chats deliver_chat
  deliver_chats-IsOnce out q index [] sa v = v
  deliver_chats-IsOnce out q index ((chat, hit_rules) ∷ rest) (s, a) v =
      let (c, mine) = claim_rules chat q hit_rules s.claims in
      let s' = record s { claims = c } in
      deliver_chats-IsOnce out q index rest (send_if_any out q index chat mine (s', a)) (
        send_if_any-IsOnce out q index chat mine s' a s.claims v.claimed_iff_alerted v.once
          (claim_rules_lem chat q hit_rules s.claims))

module _ {F : Type 0} ⦃f : Float F⦄ where
  deliver_new_alerts-IsOnce :
      (out : Outside F) (q : VixQuote F) (s : Service F)
      → IsOnce s
      → IsOnce (deliver_new_alerts out q s).0
  unfolding deliver_new_alerts
  deliver_new_alerts-IsOnce out q s v = deliver_chats-IsOnce out q _ _ _ v

  -- A closing report alerts no rule.
  alerted_by-compose :
      (chat : Text) (p : VixPosition F) (q : VixQuote F) (exit : Option F) (r : CloseReason F)
      {m : Message F}
      → compose_closing_message p q exit r ≡ ok m
      → alerted_by chat m ≡ []
  unfolding compose_closing_message
  alerted_by-compose chat p q exit r e = ground arith

  send_report-IsOnce :
      (out : Outside F) (p : VixPosition F) (m : Result (Message F)) (sn : Service F × ℕ)
      → ((x : Message F) → m ≡ ok x → alerted_by p.chat_id x ≡ [])
      → IsOnce sn.0
      → IsOnce (send_report out p m sn).0
  unfolding send_report send
  send_report-IsOnce out p (raised e) sn quiet v = v
  send_report-IsOnce out p (ok m) (s, n) quiet v =
      elim (Bool-cases (out.accepts s.log p.chat_id m)) [
        | inl e ↦ rw e (record {
          claimed_iff_alerted = λ k. rw (quiet m refl) (v.claimed_iff_alerted k);
          once = rw (quiet m refl) v.once;
        })
        | inr e ↦ rw e (record { claimed_iff_alerted = v.claimed_iff_alerted; once = v.once })
      ]

  close_if_due-IsOnce :
      (out : Outside F) (q : VixQuote F) (p : VixPosition F) (r : Option (CloseReason F))
      (sn : Service F × ℕ)
      → IsOnce sn.0
      → IsOnce (close_if_due out q p r sn).0
  unfolding close_if_due
  close_if_due-IsOnce out q p none sn v = v
  close_if_due-IsOnce out q p (some reason) (s, n) v =
      send_report-IsOnce out p _ (s, n) (λ x e. alerted_by-compose p.chat_id p q _ reason e) v

  close_position-IsOnce :
      (out : Outside F) (q : VixQuote F) (p : VixPosition F) (sn : Service F × ℕ)
      → IsOnce sn.0
      → IsOnce (close_position out q p sn).0
  unfolding close_position
  close_position-IsOnce out q p (s, n) v =
      close_if_due-IsOnce out q p _ _
        (record { claimed_iff_alerted = v.claimed_iff_alerted; once = v.once })

  close_positions-IsOnce :
      (out : Outside F) (q : VixQuote F) (ps : List (VixPosition F)) (sn : Service F × ℕ)
      → IsOnce sn.0
      → IsOnce (close_positions out q ps sn).0
  unfolding close_positions
  close_positions-IsOnce out q [] sn v = v
  close_positions-IsOnce out q (p ∷ ps) sn v =
      close_positions-IsOnce out q ps (close_position out q p sn)
        (close_position-IsOnce out q p sn v)

  deliver_and_close-IsOnce :
      (out : Outside F) (q : VixQuote F) (b : Bool) (s : Service F)
      → IsOnce s
      → IsOnce (deliver_and_close out q b s).0
  unfolding deliver_and_close close_due_positions
  deliver_and_close-IsOnce out q b s v =
      deliver_new_alerts-IsOnce out q _ (close_positions-IsOnce out q _ (s, 0) v)

  after_recording-IsOnce :
      (out : Outside F) (q : VixQuote F) (s : Service F) (r : History F × Result Bool)
      → IsOnce s
      → IsOnce (after_recording out q s r).0
  unfolding after_recording
  after_recording-IsOnce out q s (h, raised e) v = record {
    claimed_iff_alerted = v.claimed_iff_alerted;
    once = v.once;
  }
  after_recording-IsOnce out q s (h, ok b) v =
      deliver_and_close-IsOnce out q true (record s { history = h })
        (record { claimed_iff_alerted = v.claimed_iff_alerted; once = v.once })

  scan_quote-IsOnce :
      (out : Outside F) (fetched : Result FredFile) (q : VixQuote F) (now : Moment) (s : Service F)
      → IsOnce s
      → IsOnce (scan_quote out fetched q now s).0
  unfolding scan_quote
  scan_quote-IsOnce out fetched q now s v = elim (Bool-cases (evaluable q now)) [
    | inr stale ↦ rw stale v
    | inl fresh ↦ elim (Bool-cases (settled q now)) [
      | inl e ↦ rw (fresh, e) (after_recording-IsOnce out q s (record_quote fetched q s.history) v)
      | inr e ↦ rw (fresh, e) (deliver_and_close-IsOnce out q false s v)
    ]
  ]

  scan_at-IsOnce :
      (out : Outside F) (fetched : Result FredFile) (quote : Option (VixQuote F))
      (now : Option Moment) (s : Service F)
      → IsOnce s
      → IsOnce (scan_at out fetched quote now s).0
  unfolding scan_at
  scan_at-IsOnce out fetched quote none s v = v
  scan_at-IsOnce out fetched none (some now) s v = v
  scan_at-IsOnce out fetched (some q) (some now) s v = scan_quote-IsOnce out fetched q now s v

  abbrev pub run_scans : List (Hour F) → Service F → Service F
  run_scans [] s = s
  run_scans (h ∷ hours) s = run_scans hours (run_hourly_scan h.out h.fetched h.quote h.utc s).0

  -- From a service that satisfies it, scans keep it, whatever the quotes, the clocks and the world outside do.
  pub run_scans-IsOnce :
      (hours : List (Hour F)) (s : Service F) → IsOnce s → IsOnce (run_scans hours s)
  unfolding run_hourly_scan
  run_scans-IsOnce [] s v = v
  run_scans-IsOnce (h ∷ hours) s v =
      run_scans-IsOnce hours (run_hourly_scan h.out h.fetched h.quote h.utc s).0
        (scan_at-IsOnce h.out h.fetched h.quote (eastern_wall_clock h.utc) s v)

  -- After any list of hourly scans that starts with an empty log and no claims, no chat has been
  -- sent a delivered alert twice for one rule on one date, and the claims that stand are just those
  -- of the delivered alerts.
  pub run_scans_once :
      (hours : List (Hour F)) (s : Service F)
      → s.claims ≡ []
      → s.log ≡ []
      → let t = run_scans hours s in
        Unique (alerted t.log) × ((k : Key) → has k t.claims ≡ has k (alerted t.log))
  unfolding has
  run_scans_once hours s c l =
      let v =
        run_scans-IsOnce hours s
          (record { claimed_iff_alerted = λ k. rw (c, l) refl; once = rw l tt }) in
      (v.once, v.claimed_iff_alerted)
