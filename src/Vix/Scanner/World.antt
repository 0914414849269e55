-- ===== src/Vix/Scanner/World.antt =====
-- vix/scanner.py: the service's state, its messages and the world outside, which answers a send or an
-- index request by what was sent before it.
use china_a_share.Prelude.{
  Bool, Option, none, some, Text, text_eq, List, [], ◌∷◌, Result, ok, raised,
}
use china_a_share.Prelude.Maps.{Dict, lookup}
use china_a_share.Vix.Rules.{VixRule}
use china_a_share.Vix.Source.{VixQuote}
use china_a_share.Vix.Claims.{Key}
use china_a_share.Vix.Positions.{VixPosition, CloseReason, PositionStore}
use china_a_share.Vix.History.{History}

-- The two messages, as the values that are printed into them. A closing report has the actual return
-- and whether it reached the expected one, where both index levels are known.
pub data Message (F : Type 0) : Type 0 where
  alert : VixQuote F → List (VixRule F) → Option F → Message F
  closing : VixPosition F → VixQuote F → Option F → CloseReason F → Option (F × Bool) → Message F

pub record Attempt (F : Type 0) : Type 0 where
  pub chat : Text
  pub message : Message F
  pub delivered : Bool

-- Sends, newest first.
abbrev pub Log : Type 0 → Type 0
Log F = List (Attempt F)

-- Whether a send is accepted or raises, and the close of the index quote, at a moment given by the log.
pub record Outside (F : Type 0) : Type 0 where
  pub accepts : Log F → Text → Message F → Bool
  pub index_close : Log F → Result (Option F)

pub record Service (F : Type 0) : Type 0 where
  pub history : History F
  pub rules : Dict Text (List (VixRule F))
  pub claims : List Key
  pub positions : Option (PositionStore F)
  pub log : Log F

module _ {F : Type 0} where
  abbrev pub or_no_rules : Option (List (VixRule F)) → List (VixRule F)
  or_no_rules none = []
  or_no_rules (some rules) = rules

  -- `rules.load`
  unfoldable pub load_rules : Text → Dict Text (List (VixRule F)) → List (VixRule F)
  load_rules chat d = or_no_rules (lookup chat d)

  unfoldable pub chat_ids : Dict Text (List (VixRule F)) → List Text
  chat_ids [] = []
  chat_ids ((chat, rules) ∷ d) = chat ∷ chat_ids d

  unfoldable pub send : Outside F → Text → Message F → Log F → Log F × Bool
  send out chat m log =
      let done = out.accepts log chat m in
      (record { chat = chat; message = m; delivered = done } ∷ log, done)

  unfoldable pub best_effort_index_level : Outside F → Log F → Option F
  best_effort_index_level out log = elim (out.index_close log) [
    | raised e ↦ none
    | ok none ↦ none
    | ok (some x) ↦ some x
  ]
