-- ===== src/Vix/Scanner/Opened.antt =====
-- vix/scanner.py: with a position store, every rule that is alerted has an open position afterwards.
use china_a_share.Prelude.{
  ◌≡◌, ◌⊎◌, inl, inr, true, ◌||◌, Option, some, Text, text_eq, List, [], ◌∷◌, All, All-append,
  All-map, Elem, arith, Bool-cases,
}
use china_a_share.Prelude.Maps.{Dict, lookup-insert}
use china_a_share.Floats.{Float}
use china_a_share.Vix.Rules.{VixRule}
use china_a_share.Vix.Source.{VixQuote}
use china_a_share.Vix.Claims.{Key}
use china_a_share.Vix.Positions.{PositionStore, position_key_eq, from_rule, get, put}
use china_a_share.Vix.Scanner.World.{
  alert, Outside, Service, send, best_effort_index_level, chat_ids,
}
use china_a_share.Vix.Scanner.Deliver.{
  Alerts, no_alerts, alert_key, claim_rules, send_claimed, send_if_any, deliver_chat, deliver_chats,
  deliver_new_alerts, is_open, open_positions, collect_chats,
}
use china_a_share.Vix.Scanner.Claiming.{keys_of, alerted}
use china_a_share.Vix.Scanner.Events.{Elem-self}

module _ {F : Type 0} where
  is_open-put :
      (rule : VixRule F) (chat : Text) (q : VixQuote F) (index : Option F) (s : PositionStore F)
      (c i : Text)
      → is_open (some (put (from_rule rule chat q index) s)) c i
        ≡ (position_key_eq.beq (chat, rule.id) (c, i) || is_open (some s) c i)
  unfolding is_open put get from_rule
  is_open-put rule chat q index s c i =
      ground (arith, lookup-insert (chat, rule.id) (c, i) (from_rule rule chat q index) s)

  open_positions_mono :
      (chat : Text) (q : VixQuote F) (index : Option F) (rules : List (VixRule F))
      (s : PositionStore F) (c i : Text)
      → is_open (some s) c i ≡ true
      → is_open (some (open_positions chat q index rules s)) c i ≡ true
  unfolding open_positions
  open_positions_mono chat q index [] s c i h = h
  open_positions_mono chat q index (rule ∷ rules) s c i h =
      open_positions_mono chat q index rules _ c i
        (rw (is_open-put rule chat q index s c i) (ground arith))

  open_positions-All :
      (chat : Text) (q : VixQuote F) (index : Option F) (rules : List (VixRule F))
      (s : PositionStore F)
      → All
          (λ k. is_open (some (open_positions chat q index rules s)) k.0 k.1.0 ≡ true)
          (keys_of chat q rules)
  unfolding open_positions alert_key
  open_positions-All chat q index [] s = tt
  open_positions-All chat q index (rule ∷ rules) s = (
    open_positions_mono chat q index rules _ chat rule.id (
        rw (is_open-put rule chat q index s chat rule.id)
          (ground (arith, position_key_eq.beq_iff (chat, rule.id) (chat, rule.id)))),
    open_positions-All chat q index rules _,
  )

  record IsOpened (base : List Key) (s : Service F) : Type 0 where
    store : PositionStore F
    has_store : s.positions ≡ some store
    opened : All (λ k. Elem k base ⊎ is_open (some store) k.0 k.1.0 ≡ true) (alerted s.log)

  send_if_any-IsOpened :
      (base : List Key) (out : Outside F) (q : VixQuote F) (index : Option F) (chat : Text)
      (mine : List (VixRule F)) (s : Service F) (a : Alerts)
      → IsOpened base s
      → IsOpened base (send_if_any out q index chat mine (s, a)).0
  unfolding send_if_any send_claimed send
  send_if_any-IsOpened base out q index chat [] s a v = v
  send_if_any-IsOpened base out q index chat (rule ∷ rules) s a v =
      let mine = rule ∷ rules in
      let now_open = open_positions chat q index mine v.store in
      elim (Bool-cases (out.accepts s.log chat (alert q mine index))) [
        | inl e ↦ rw e (record {
          store = now_open;
          has_store = ground (arith, v.has_store);
          opened =
              All-append _ (keys_of chat q mine) (alerted s.log)
                (All-map _ _ (keys_of chat q mine) (λ k o. inr o)
                  (open_positions-All chat q index mine v.store))
                (All-map _ _ (alerted s.log)
                  (λ k. elim [
                    | inl o ↦ inl o
                    | inr o ↦ inr (open_positions_mono chat q index mine v.store k.0 k.1.0 o)
                  ])
                  v.opened);
        })
        | inr e ↦ rw e (record { store = v.store; has_store = v.has_store; opened = v.opened })
      ]

  deliver_chats-IsOpened :
      (base : List Key) (out : Outside F) (q : VixQuote F) (index : Option F)
      (d : Dict Text (List (VixRule F))) (sa : Service F × Alerts)
      → IsOpened base sa.0
      → IsOpened base (deliver_chats out q index d sa).0
  unfolding deliver_chats deliver_chat
  deliver_chats-IsOpened base out q index [] sa v = v
  deliver_chats-IsOpened base out q index ((chat, hit_rules) ∷ rest) (s, a) v =
      let (c, mine) = claim_rules chat q hit_rules s.claims in
      deliver_chats-IsOpened base out q index rest _ (
        send_if_any-IsOpened base out q index chat mine (record s { claims = c }) a
          (record { store = v.store; has_store = v.has_store; opened = v.opened }))

module _ {F : Type 0} ⦃f : Float F⦄ where
  -- With a position store, every delivered alert that is in the log after a delivery was there
  -- before it, or its rule has an open position after it.
  pub deliver_new_alerts_opened :
      (out : Outside F) (q : VixQuote F) (s : Service F) (store : PositionStore F)
      → s.positions ≡ some store
      → let t = (deliver_new_alerts out q s).0 in
        All (λ k. Elem k (alerted s.log) ⊎ (is_open t.positions k.0 k.1.0 ≡ true)) (alerted t.log)
  unfolding deliver_new_alerts
  deliver_new_alerts_opened out q s store e =
      let v =
        deliver_chats-IsOpened (alerted s.log) out q (best_effort_index_level out s.log)
          (collect_chats q s.positions s.rules (chat_ids s.rules) []) (s, no_alerts)
          (record {
            store = store;
            has_store = e;
            opened = All-map _ _ (alerted s.log) (λ k o. inl o) (Elem-self (alerted s.log));
          }) in
      rw v.has_store v.opened
