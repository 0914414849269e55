-- ===== src/Vix/Positions.antt =====
-- vix/positions.py: the open position of a rule, and when a scan closes it. The store is a dict keyed
-- by chat and rule.
use china_a_share.Prelude.{
  ℕ, Bool, ◌&&◌, not, Option, none, some, Text, text_lt, text_eq, ◌==◌, pair_eq, Eq, leb,
  if◌then◌else◌,
}
use china_a_share.Prelude.Maps.{Dict, lookup, insert, remove}
use china_a_share.Floats.{Float}
use china_a_share.Vix.Rules.{VixRule, up, days, vix_below}
use china_a_share.Vix.Source.{VixQuote}

pub record VixPosition (F : Type 0) : Type 0 where
  pub rule_id : Text
  pub chat_id : Text
  pub entry_date : Text
  pub entry_vix : F
  pub entry_index : Option F
  pub expected_return_pct : F
  pub exit_kind : Text
  pub exit_days : ℕ
  pub exit_vix_below : F
  pub direction : Text
  pub threshold_pct : F

-- The text of a reason, with the number that is printed into it.
pub data CloseReason (F : Type 0) : Type 0 where
  held : ℕ → CloseReason F
  broke_below : F → CloseReason F
  faded : CloseReason F

abbrev pub PositionKey : Type 0
PositionKey = Text × Text

instance abbrev pub position_key_eq : Eq PositionKey
position_key_eq = pair_eq

abbrev pub PositionStore : Type 0 → Type 0
PositionStore F = Dict PositionKey (VixPosition F)

module _ {F : Type 0} where
  unfoldable pub from_rule : VixRule F → Text → VixQuote F → Option F → VixPosition F
  from_rule rule chat_id quote entry_index = record {
    rule_id = rule.id;
    chat_id = chat_id;
    entry_date = quote.date;
    entry_vix = quote.close;
    entry_index = entry_index;
    expected_return_pct = rule.expected_return_pct;
    exit_kind = rule.exit_kind;
    exit_days = rule.exit_days;
    exit_vix_below = rule.exit_vix_below;
    direction = rule.direction;
    threshold_pct = rule.threshold_pct;
  }

  unfoldable pub get : Text → Text → PositionStore F → Option (VixPosition F)
  get chat_id rule_id s = lookup (chat_id, rule_id) s

  unfoldable pub put : VixPosition F → PositionStore F → PositionStore F
  put p s = insert (p.chat_id, p.rule_id) p s

  unfoldable pub delete : Text → Text → PositionStore F → PositionStore F
  delete chat_id rule_id s = remove (chat_id, rule_id) s

module _ {F : Type 0} ⦃f : Float F⦄ where
  open f use {le, lt, neg}

  unfoldable pub condition_holds : VixPosition F → VixQuote F → Bool
  condition_holds p q =
      if p.direction == up
      then le p.threshold_pct q.change_pct
      else le q.change_pct (neg p.threshold_pct)

  -- `none` keeps the position open.
  unfoldable pub close_reason : VixPosition F → VixQuote F → ℕ → Option (CloseReason F)
  unfolding condition_holds
  close_reason p q trading_days =
      if p.exit_kind == days
      then (if leb p.exit_days trading_days then some (held p.exit_days) else none)
      else if p.exit_kind == vix_below
      then (if lt q.close p.exit_vix_below then some (broke_below p.exit_vix_below) else none)
      else if text_lt p.entry_date q.date && not (condition_holds p q)
      then some faded
      else none
