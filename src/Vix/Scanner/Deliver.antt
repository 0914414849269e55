-- ===== src/Vix/Scanner/Deliver.antt =====
-- vix/scanner.py: the delivery of new alerts.
use china_a_share.Prelude.{
  ℕ, ◌+◌, Bool, true, false, ◌&&◌, not, Option, none, some, Text, text_eq, if◌then◌else◌, List, [],
  ◌∷◌, ◌++◌, length,
}
use china_a_share.Prelude.Maps.{Dict, insert}
use china_a_share.Floats.{Float}
use china_a_share.Vix.Rules.{VixRule, hits}
use china_a_share.Vix.Source.{VixQuote}
use china_a_share.Vix.Claims.{Key, claim, release}
use china_a_share.Vix.Positions.{VixPosition, CloseReason, PositionStore, close_reason, from_rule}
use china_a_share.Vix.Positions as Positions
use china_a_share.Vix.Scanner.World.{
  alert, Outside, Service, load_rules, chat_ids, send, best_effort_index_level,
}

module _ {F : Type 0} where
  -- Whether a rule has an open position; without a position store none has.
  unfoldable pub is_open : Option (PositionStore F) → Text → Text → Bool
  is_open none chat rule_id = false
  is_open (some s) chat rule_id = elim (Positions.get chat rule_id s) [
    | none ↦ false
    | some p ↦ true
  ]

  -- `hits_by_chat.setdefault(chat_id, []).append(rule)`
  unfoldable pub append_hit :
      Text → VixRule F → Dict Text (List (VixRule F)) → Dict Text (List (VixRule F))
  unfolding load_rules
  append_hit chat rule d = insert chat (load_rules chat d ++ (rule ∷ [])) d

  unfoldable pub alert_key : Text → VixQuote F → VixRule F → Key
  alert_key chat q rule = (chat, (rule.id, q.date))

  -- The comprehension that claims: the new claims, and the rules whose claim was free.
  unfoldable pub claim_rules :
      Text → VixQuote F → List (VixRule F) → List Key → List Key × List (VixRule F)
  unfolding alert_key claim
  claim_rules chat q [] c = (c, [])
  claim_rules chat q (rule ∷ rules) c =
      let (c', free) = claim (alert_key chat q rule) c in
      let (last, claimed) = claim_rules chat q rules c' in
      (last, if free then rule ∷ claimed else claimed)

  unfoldable pub release_rules : Text → VixQuote F → List (VixRule F) → List Key → List Key
  unfolding alert_key release
  release_rules chat q [] c = c
  release_rules chat q (rule ∷ rules) c =
      release_rules chat q rules (release (alert_key chat q rule) c)

  unfoldable pub open_positions :
      Text → VixQuote F → Option F → List (VixRule F) → PositionStore F → PositionStore F
  open_positions chat q index [] s = s
  open_positions chat q index (rule ∷ rules) s =
      open_positions chat q index rules (Positions.put (from_rule rule chat q index) s)

-- What the delivery loop counts, and the rules that it alerted, chat by chat.
pub record Alerts : Type 0 where
  pub sent : ℕ
  pub failed : ℕ
  pub opened : ℕ
  pub delivered : List (Text × List Text)

abbrev pub no_alerts : Alerts
no_alerts = record { sent = 0; failed = 0; opened = 0; delivered = [] }

module _ {F : Type 0} where
  abbrev pub ids : List (VixRule F) → List Text
  ids [] = []
  ids (rule ∷ rules) = rule.id ∷ ids rules

  abbrev pub open_all :
      Text
      → VixQuote F
      → Option F
      → List (VixRule F)
      → Option (PositionStore F)
      → Option (PositionStore F)
  open_all chat q index rules none = none
  open_all chat q index rules (some s) = some (open_positions chat q index rules s)

  abbrev pub opened_by : List (VixRule F) → Option (PositionStore F) → ℕ
  opened_by rules none = 0
  opened_by rules (some s) = length rules

  -- One chat of the delivery loop, its claims taken: a failed send releases them, a delivered one
  -- opens the positions.
  unfoldable pub send_claimed :
      Outside F
      → VixQuote F
      → Option F
      → Text
      → List (VixRule F)
      → Service F × Alerts
      → Service F × Alerts
  unfolding send release_rules open_positions
  send_claimed out q index chat claimed (s, a) =
      let (log, done) = send out chat (alert q claimed index) s.log in
      if done
      then (
        record s { log = log; positions = open_all chat q index claimed s.positions },
        record a {
          sent = a.sent + 1;
          opened = a.opened + opened_by claimed s.positions;
          delivered = a.delivered ++ ((chat, ids claimed) ∷ []);
        },
      )
      else (
        record s { log = log; claims = release_rules chat q claimed s.claims },
        record a { failed = a.failed + 1 },
      )

  -- `if not claimed: continue`
  unfoldable pub send_if_any :
      Outside F
      → VixQuote F
      → Option F
      → Text
      → List (VixRule F)
      → Service F × Alerts
      → Service F × Alerts
  send_if_any out q index chat [] sa = sa
  send_if_any out q index chat (rule ∷ rules) sa = send_claimed out q index chat (rule ∷ rules) sa

  unfoldable pub deliver_chat :
      Outside F
      → VixQuote F
      → Option F
      → Text
      → List (VixRule F)
      → Service F × Alerts
      → Service F × Alerts
  deliver_chat out q index chat hit_rules (s, a) =
      let (claims, claimed) = claim_rules chat q hit_rules s.claims in
      send_if_any out q index chat claimed (record s { claims = claims }, a)

  unfoldable pub deliver_chats :
      Outside F
      → VixQuote F
      → Option F
      → Dict Text (List (VixRule F))
      → Service F × Alerts
      → Service F × Alerts
  deliver_chats out q index [] sa = sa
  deliver_chats out q index ((chat, hit_rules) ∷ rest) sa =
      deliver_chats out q index rest (deliver_chat out q index chat hit_rules sa)

module _ {F : Type 0} ⦃f : Float F⦄ where
  -- The rules of one chat that are hit and have no open position, put under the chat.
  unfoldable pub collect_rules :
      VixQuote F
      → Option (PositionStore F)
      → Text
      → List (VixRule F)
      → Dict Text (List (VixRule F))
      → Dict Text (List (VixRule F))
  unfolding is_open append_hit
  collect_rules q positions chat [] d = d
  collect_rules q positions chat (rule ∷ rules) d = collect_rules q positions chat rules (
      if hits rule q.change_pct && not (is_open positions chat rule.id)
      then append_hit chat rule d
      else d)

  unfoldable pub collect_chats :
      VixQuote F
      → Option (PositionStore F)
      → Dict Text (List (VixRule F))
      → List Text
      → Dict Text (List (VixRule F))
      → Dict Text (List (VixRule F))
  unfolding collect_rules load_rules
  collect_chats q positions rules [] d = d
  collect_chats q positions rules (chat ∷ chats) d =
      collect_chats q positions rules chats
        (collect_rules q positions chat (load_rules chat rules) d)

  unfoldable pub deliver_new_alerts : Outside F → VixQuote F → Service F → Service F × Alerts
  deliver_new_alerts out q s =
      let hits_by_chat = collect_chats q s.positions s.rules (chat_ids s.rules) [] in
      deliver_chats out q (best_effort_index_level out s.log) hits_by_chat (s, no_alerts)
