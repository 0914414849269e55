-- ===== src/Vix/Scanner/Events.antt =====
-- vix/scanner.py: which rules a delivery alerts, and that every one of them then has an open position.
use china_a_share.Prelude.{
  ◌≡◌, refl, sym, ◌⊎◌, inl, inr, true, false, ◌&&◌, not, Option, Text, text_eq, text_beq,
  text_beq_iff, List, [], ◌∷◌, All, All-append, All-map, Elem, arith, Bool-cases,
}
use mathlib.Core.Path.{subst}
use china_a_share.Prelude.Maps.{Dict, lookup, insert}
use china_a_share.Floats.{Float}
use china_a_share.Vix.Rules.{VixRule, hits}
use china_a_share.Vix.Source.{VixQuote}
use china_a_share.Vix.Claims.{Key, key_eq, claim}
use china_a_share.Vix.Positions.{PositionStore, position_key_eq}
use china_a_share.Vix.Scanner.World.{alert, Outside, Service, send, load_rules, chat_ids}
use china_a_share.Vix.Scanner.Deliver.{
  Alerts, no_alerts, alert_key, claim_rules, send_claimed, send_if_any, deliver_chat, deliver_chats,
  deliver_new_alerts, is_open, append_hit, collect_rules, collect_chats,
}
use china_a_share.Vix.Scanner.Claiming.{keys_of, alerted}

pub Elem-self : {A : Type 0} (xs : List A) → All (λ x. Elem x xs) xs
Elem-self [] = tt
Elem-self (x ∷ xs) = (inl refl, All-map _ _ xs (λ y e. inr e) (Elem-self xs))

module _ {F : Type 0} where
  -- A predicate of the rules collected under each chat.
  abbrev pub AllHits : (Text → VixRule F → Type 0) → Dict Text (List (VixRule F)) → Type 0
  AllHits Q = All (λ e. All (Q e.0) e.1)

  pub load_rules-All :
      (Q : Text → VixRule F → Type 0) (chat : Text) (d : Dict Text (List (VixRule F)))
      → AllHits Q d
      → All (Q chat) (load_rules chat d)
  unfolding load_rules lookup
  load_rules-All Q chat [] h = tt
  load_rules-All Q chat ((j, rules) ∷ d) (h, hs) = elim (Bool-cases (text_beq j chat)) [
    | inl e ↦ rw (All, e) (subst (λ c. All (Q c) rules) ((text_beq_iff j chat).0 e) h)
    | inr e ↦ rw (All, e) (load_rules-All Q chat d hs)
  ]

  pub insert-AllHits :
      (Q : Text → VixRule F → Type 0) (chat : Text) (rules : List (VixRule F))
      (d : Dict Text (List (VixRule F)))
      → AllHits Q d
      → All (Q chat) rules
      → AllHits Q (insert chat rules d)
  unfolding insert
  insert-AllHits Q chat rules [] h p = (p, tt)
  insert-AllHits Q chat rules ((j, old) ∷ d) (h, hs) p = elim (Bool-cases (text_beq j chat)) [
    | inl e ↦ rw e (subst (λ c. All (Q c) rules) (sym ((text_beq_iff j chat).0 e)) p, hs)
    | inr e ↦ rw e (h, insert-AllHits Q chat rules d hs p)
  ]

  claim_rules-All :
      (P : VixRule F → Type 0) (chat : Text) (q : VixQuote F) (rules : List (VixRule F))
      (c : List Key)
      → All P rules
      → All P (claim_rules chat q rules c).1
  unfolding claim_rules
  claim_rules-All P chat q [] c h = tt
  claim_rules-All P chat q (rule ∷ rules) c (h, hs) =
      elim (Bool-cases (claim (alert_key chat q rule) c).1) [
        | inl e ↦ rw e (h, claim_rules-All P chat q rules _ hs)
        | inr e ↦ rw e (claim_rules-All P chat q rules _ hs)
      ]

  keys_of-All :
      (P : Key → Type 0) (chat : Text) (q : VixQuote F) (rules : List (VixRule F))
      → All (λ r. P (alert_key chat q r)) rules
      → All P (keys_of chat q rules)
  keys_of-All P chat q [] h = tt
  keys_of-All P chat q (rule ∷ rules) (h, hs) = (h, keys_of-All P chat q rules hs)

  send_if_any-All :
      (P : Key → Type 0) (out : Outside F) (q : VixQuote F) (index : Option F) (chat : Text)
      (mine : List (VixRule F)) (s : Service F) (a : Alerts)
      → All P (keys_of chat q mine)
      → All P (alerted s.log)
      → All P (alerted (send_if_any out q index chat mine (s, a)).0.log)
  unfolding send_if_any send_claimed send
  send_if_any-All P out q index chat [] s a h p = p
  send_if_any-All P out q index chat (rule ∷ rules) s a h p =
      elim (Bool-cases (out.accepts s.log chat (alert q (rule ∷ rules) index))) [
        | inl e ↦ rw e (All-append P (keys_of chat q (rule ∷ rules)) (alerted s.log) h p)
        | inr e ↦ rw e p
      ]

  deliver_chats-All :
      (P : Key → Type 0) (out : Outside F) (q : VixQuote F) (index : Option F)
      (d : Dict Text (List (VixRule F))) (sa : Service F × Alerts)
      → AllHits (λ chat r. P (alert_key chat q r)) d
      → All P (alerted sa.0.log)
      → All P (alerted (deliver_chats out q index d sa).0.log)
  unfolding deliver_chats deliver_chat
  deliver_chats-All P out q index [] sa h p = p
  deliver_chats-All P out q index ((chat, hit_rules) ∷ rest) (s, a) (h, hs) p =
      let claimed = claim_rules-All (λ r. P (alert_key chat q r)) chat q hit_rules s.claims h in
      let (c, mine) = claim_rules chat q hit_rules s.claims in
      deliver_chats-All P out q index rest _ hs (
        send_if_any-All P out q index chat mine (record s { claims = c }) a
          (keys_of-All P chat q mine claimed) p)

module _ {F : Type 0} ⦃f : Float F⦄ where
  abbrev Hit :
      VixQuote F
      → Option (PositionStore F)
      → (Text → VixRule F → Type 0)
      → Text
      → VixRule F
      → Type 0
  Hit q positions Q chat r =
      hits r q.change_pct ≡ true → is_open positions chat r.id ≡ false → Q chat r

  collect_rules-AllHits :
      (Q : Text → VixRule F → Type 0) (q : VixQuote F) (positions : Option (PositionStore F))
      (chat : Text) (rules : List (VixRule F)) (d : Dict Text (List (VixRule F)))
      → All (Hit q positions Q chat) rules
      → AllHits Q d
      → AllHits Q (collect_rules q positions chat rules d)
  unfolding collect_rules append_hit
  collect_rules-AllHits Q q positions chat [] d h p = p
  collect_rules-AllHits Q q positions chat (r ∷ rules) d (h, hs) p =
      collect_rules-AllHits Q q positions chat rules _ hs
        (elim (Bool-cases (hits r q.change_pct && not (is_open positions chat r.id))) [
          | inl e ↦ rw e (
              insert-AllHits Q chat _ d p (
                All-append (Q chat) (load_rules chat d) (r ∷ []) (load_rules-All Q chat d p)
                  (h (ground arith) (ground arith), tt)))
          | inr e ↦ rw e p
        ])

  collect_chats-AllHits :
      (Q : Text → VixRule F → Type 0) (q : VixQuote F) (positions : Option (PositionStore F))
      (rules : Dict Text (List (VixRule F))) (chats : List Text) (d : Dict Text (List (VixRule F)))
      → ((chat : Text) → All (Hit q positions Q chat) (load_rules chat rules))
      → AllHits Q d
      → AllHits Q (collect_chats q positions rules chats d)
  unfolding collect_chats
  collect_chats-AllHits Q q positions rules [] d h p = p
  collect_chats-AllHits Q q positions rules (chat ∷ chats) d h p =
      collect_chats-AllHits Q q positions rules chats _ h
        (collect_rules-AllHits Q q positions chat (load_rules chat rules) d (h chat) p)

  -- The rule behind a key, one of the chat's that the quote hits and that has no open position.
  abbrev pub IsDue : VixQuote F → Service F → Key → Type 0
  IsDue q s k =
      (r : VixRule F) × Elem r (load_rules k.0 s.rules)
      × (k ≡ alert_key k.0 q r)
      × (hits r q.change_pct ≡ true)
      × (is_open s.positions k.0 r.id ≡ false)

  -- Every alert that is in the log after a delivery was there before it, or is of a rule of its
  -- chat that the quote hits, that has no open position, and at the quote's date.
  pub deliver_new_alerts-IsDue :
      (out : Outside F) (q : VixQuote F) (s : Service F)
      → All (λ k. Elem k (alerted s.log) ⊎ IsDue q s k) (alerted (deliver_new_alerts out q s).0.log)
  unfolding deliver_new_alerts alert_key
  deliver_new_alerts-IsDue out q s =
      let P : Key → Type 0 = λ k. Elem k (alerted s.log) ⊎ IsDue q s k in
      deliver_chats-All P out q _ _ (s, no_alerts)
        (collect_chats-AllHits (λ chat r. P (alert_key chat q r)) q s.positions s.rules
          (chat_ids s.rules) []
          (λ chat.
            All-map _ _ (load_rules chat s.rules) (λ r e hit shut. inr (r, e, refl, hit, shut))
              (Elem-self (load_rules chat s.rules)))
          tt)
        (All-map _ _ (alerted s.log) (λ k e. inl e) (Elem-self (alerted s.log)))
