-- ===== src/Strategies/Scanner.antt =====
-- strategy_scanner.py: `StrategyScanner`. The price loader, the rule engine, the analysis service and
-- the chat are parameters; a card is the value that it is built from.
pub mod Sending
pub mod Listed
pub mod Unique
pub mod Complete
pub mod Skipped
pub mod Daily
pub mod Trial
pub mod Reliable
use china_a_share.Prelude.{
  ℕ, zero, suc, ◌+◌, ◌-◌, ◌*◌, max, Bool, true, false, not, ◌&&◌, ◌||◌, Option, none, some, Text,
  text, text_eq, text_beq, Eq, ◌==◌, List, [], ◌∷◌, ◌++◌, any, filter, is_nil, map, length, Fault,
  Result, ok, raised, value_error, runtime_error, if◌then◌else◌,
}
use china_a_share.Prelude.Texts.{strip}
use china_a_share.Strategies.Acts.{Action, ◌>>=◌, answer, attempt, reading}
use china_a_share.Strategies.Models.{StrategyConfig, is_some, required_history_rows}
use china_a_share.Strategies.Store.{
  Notification, notification, is_marked, is_notification_sent, mark_notification_sent,
}

abbrev pub max_card_result_rows : ℕ
max_card_result_rows = 30

-- `build_strategy_result_card`, and whether it mentions everyone: the notifications that it is built
-- from, those that it lists, and the number of those that it only counts.
pub record Card : Type 0 where
  pub at_all : Bool
  pub preview : Bool
  pub raw_match_count : ℕ
  pub notices : List Notification
  pub listed : List Notification
  pub further : ℕ

-- A card that a chat has accepted.
pub record Delivery : Type 0 where
  pub chat : Text
  pub card : Card

-- The markers of the store, and the cards that were delivered, the last one first.
pub record World : Type 0 where
  pub marks : List Notification
  pub delivered : List Delivery

-- A failure to send, of which the permission to mention everyone is told apart by its code.
pub data SendError : Type 0 where
  at_all_denied other_error : SendError

-- `codes[:n]`
unfoldable pub take : {A : Type 0} → ℕ → List A → List A
take zero l = []
take (suc n) [] = []
take (suc n) (a ∷ l) = a ∷ take n l

-- A row of a compiled plan's result, with the digest of its JSON.
pub record Row : Type 0 where
  pub ts_code : Text
  pub digest : Text

abbrev pub Chat : Type 0
Chat = List Delivery → Delivery → Option SendError

-- `_row_identity`
unfoldable pub row_identity : Row → Text
row_identity row =
    if is_nil (strip row.ts_code) then text "row-" ++ row.digest else strip row.ts_code

abbrev pub accept : Option SendError → Delivery → World → Option SendError × World
accept none d w = (none, record w { delivered = d ∷ w.delivered })
accept (some e) d w = (some e, w)

unfoldable pub send_chat_card : Chat → Delivery → World → Option SendError × World
send_chat_card chat d w = accept (chat w.delivered d) d w

abbrev pub sent_or_raised : Option SendError × World → Result (Unit {0}) × World
sent_or_raised (none, w) = (ok tt, w)
sent_or_raised (some e, w) = (raised runtime_error, w)

-- `fallback`: the same card with nobody mentioned.
abbrev pub fallback : Delivery → Delivery
fallback d = record d { card = record (d.card) { at_all = false } }

unfoldable pub retried : Chat → Delivery → Option SendError × World → Result (Unit {0}) × World
retried chat d (none, w) = (ok tt, w)
retried chat d (some other_error, w) = (raised runtime_error, w)
retried chat d (some at_all_denied, w) = sent_or_raised (send_chat_card chat (fallback d) w)

unfoldable pub send_with_at_all_fallback : Chat → Delivery → Action World (Unit {0})
send_with_at_all_fallback chat d w = retried chat d (send_chat_card chat d w)

abbrev pub marked : Result (List Notification × Bool) → Action World (Unit {0})
marked (ok (marks, b)) w = (ok tt, record w { marks = marks })
marked (raised e) w = (raised e, w)

abbrev pub note_failure :
    Text → Result (Unit {0}) × World → (World → List Text × World) → List Text × World
note_failure id (ok u, w) rest = rest w
note_failure id (raised e, w) rest = let (failures, v) = rest w in (id ∷ failures, v)

abbrev pub failed_or_done : List Text × World → Result (Unit {0}) × World
failed_or_done ([], w) = (ok tt, w)
failed_or_done (id ∷ ids, w) = (raised runtime_error, w)

module _ {F S : Type 0} where
  unfoldable pub is_sent : StrategyConfig F S → Text → Text → Action World Bool
  is_sent s date code = reading λ w. is_notification_sent s.id code date s.direction w.marks

  unfoldable pub mark_sent : StrategyConfig F S → Text → Text → Action World (Unit {0})
  mark_sent s date code w = marked (mark_notification_sent s.id code date s.direction w.marks) w

  -- The matches with no marker, in their order.
  unfoldable pub unsent : StrategyConfig F S → Text → List Text → Action World (List Text)
  unsent s date [] = answer []
  unsent s date (code ∷ codes) = do
    done ← is_sent s date code
    rest ← unsent s date codes
    answer (if done then rest else code ∷ rest)

  unfoldable pub mark_all : StrategyConfig F S → Text → List Text → Action World (Unit {0})
  mark_all s date [] = answer tt
  mark_all s date (code ∷ codes) = do done ← mark_sent s date code; mark_all s date codes

  -- The codes of a strategy with rules are listed in full, of the rows of a plan the first thirty.
  unfoldable pub listed_codes : StrategyConfig F S → List Text → List Text
  listed_codes s codes = if is_some s.compiled_rule then take max_card_result_rows codes else codes

  unfoldable pub further_codes : StrategyConfig F S → List Text → ℕ
  further_codes s codes = if is_some s.compiled_rule then length codes - max_card_result_rows else 0

  abbrev pub result_card : StrategyConfig F S → Text → List Text → ℕ → Bool → Delivery
  result_card s date codes count preview = record {
    chat = s.notification_chat_id;
    card = record {
      at_all = true;
      preview = preview;
      raw_match_count = count;
      notices = map (λ code. notification s.id code date s.direction) codes;
      listed = map (λ code. notification s.id code date s.direction) (listed_codes s codes);
      further = further_codes s codes;
    };
  }

  abbrev pub deliverable : Bool → StrategyConfig F S → Text → List Text → Action World (List Text)
  deliverable preview s date codes = if preview then answer codes else unsent s date codes

  -- The markers are written after the card has gone out.
  abbrev pub announce :
      Chat → StrategyConfig F S → Text → Bool → ℕ → List Text → Action World (Unit {0})
  announce chat s date preview count fresh = do
    done ← send_with_at_all_fallback chat (result_card s date fresh count preview)
    if preview then answer tt else mark_all s date fresh

  -- The part of `_run_strategy` after the evaluation, and of `_run_compiled_strategies` after the plan.
  unfoldable pub deliver :
      Chat → StrategyConfig F S → Text → Bool → List Text → Action World (Unit {0})
  deliver chat s date preview codes = do
    fresh ← deliverable preview s date codes
    announce chat s date preview (length codes) fresh

  -- One strategy, whose matches are found first.
  unfoldable pub run_strategy :
      Chat
      → (StrategyConfig F S → Result (List Text))
      → Text
      → Bool
      → StrategyConfig F S
      → Action World (Unit {0})
  run_strategy chat matches date preview s = do
    codes ← attempt (matches s)
    deliver chat s date preview codes

  -- Every strategy is run; the identifiers of those that raise are collected.
  unfoldable pub collect_failures :
      Chat
      → (StrategyConfig F S → Result (List Text))
      → Text
      → Bool
      → List (StrategyConfig F S)
      → World
      → List Text × World
  collect_failures chat matches date preview [] w = ([], w)
  collect_failures chat matches date preview (s ∷ ss) w =
      note_failure s.id (run_strategy chat matches date preview s w)
        (collect_failures chat matches date preview ss)

  unfoldable pub run_strategies :
      Chat
      → (StrategyConfig F S → Result (List Text))
      → Text
      → Bool
      → List (StrategyConfig F S)
      → Action World (Unit {0})
  run_strategies chat matches date preview ss w =
      failed_or_done (collect_failures chat matches date preview ss w)
