-- ===== src/Strategies/Models.antt =====
-- strategy_models.py: the rules, the strategies and the drafts with their validators, and the history
-- that a strategy needs. An integer field comes as a signed number, as `int(...)` gives it.
pub mod History
use china_a_share.Prelude.{
  ℕ, ◌+◌, max, Bool, true, false, not, ◌&&◌, ◌||◌, Option, none, some, Text, leb, ltb, List, [],
  ◌∷◌, is_nil, Result, ok, raised, value_error, require, ◌>>=◌, ◌>>◌, if◌then◌else◌,
}
use china_a_share.Prelude.Int.{ℤ, pos, negsuc}
use china_a_share.Floats.{Float}
use china_a_share.Cache.Record.{Instant}
use china_a_share.Strategies.Json.{Json}

pub data SignalDirection : Type 0 where
  buy sell : SignalDirection

pub data DraftState : Type 0 where
  awaiting_name awaiting_direction awaiting_rules ready : DraftState

pub data Rule (F : Type 0) : Type 0 where
  drawdown : (window : ℕ) (threshold : F) → Rule F
  cumulative_return : (window : ℕ) (min_return max_return : F) → Rule F
  first_bullish_ma : (fast_window slow_window : ℕ) → Rule F
  limit_up : (window : ℕ) → Rule F

pub record CompiledStrategyRule (S : Type 0) : Type 0 where
  pub source_text : Text
  pub interpretation : Text
  pub plan : Json S
  pub anchor_date : Text
  pub plan_fingerprint : Text

pub record StrategyConfig (F S : Type 0) : Type 0 where
  pub id : Text
  pub name : Text
  pub direction : SignalDirection
  pub rules : List (Rule F)
  pub compiled_rule : Option (CompiledStrategyRule S)
  pub creator_open_id : Text
  pub enabled : Bool
  pub notification_chat_id : Text
  pub created_at : Instant
  pub updated_at : Instant

pub record StrategyDraft (F S : Type 0) : Type 0 where
  pub draft_id : Text
  pub owner_open_id : Text
  pub chat_id : Text
  pub state : DraftState
  pub name : Option Text
  pub direction : Option SignalDirection
  pub rules : List (Rule F)
  pub compiled_rule : Option (CompiledStrategyRule S)
  pub created_at : Instant
  pub updated_at : Instant

-- `Field(gt=0)`
abbrev pub positive : ℤ → Result ℕ
positive (negsuc n) = raised value_error
positive (pos n) = if ltb 0 n then ok n else raised value_error

abbrev pub is_some : {A : Type 0} → Option A → Bool
is_some none = false
is_some (some a) = true

-- The timestamps have a time zone and are in order.
abbrev pub check_times : Instant → Instant → Result (Unit {0})
check_times created updated = do
  require created.aware value_error
  require updated.aware value_error
  require (leb created.time updated.time) value_error
  ok tt

module _ {F : Type 0} ⦃f : Float F⦄ where
  open f use {le, lt, cents}

  unfoldable pub drawdown_rule : ℤ → F → Result (Rule F)
  drawdown_rule window threshold = do
    n ← positive window
    require (lt (cents 0) threshold && lt threshold (cents 100)) value_error
    ok (drawdown n threshold)

  -- `validate_bounds`: only `min > max` is refused.
  unfoldable pub cumulative_return_rule : ℤ → F → F → Result (Rule F)
  cumulative_return_rule window min_return max_return = do
    n ← positive window
    require (not (lt max_return min_return)) value_error
    ok (cumulative_return n min_return max_return)

module _ {F : Type 0} where
  unfoldable pub first_bullish_ma_rule : ℤ → ℤ → Result (Rule F)
  first_bullish_ma_rule fast slow = do
    m ← positive fast
    n ← positive slow
    require (ltb m n) value_error
    ok (first_bullish_ma m n)

  unfoldable pub limit_up_rule : ℤ → Result (Rule F)
  limit_up_rule window = do n ← positive window; ok (limit_up n)

  -- The trading rows that one rule reads.
  unfoldable pub rule_rows : Rule F → ℕ
  rule_rows (drawdown window threshold) = window
  rule_rows (cumulative_return window low high) = window + 1
  rule_rows (first_bullish_ma fast slow) = slow + 2
  rule_rows (limit_up window) = window + 1

  -- `max(requirements)`, of a list that is not empty.
  unfoldable pub max_rows : ℕ → List (Rule F) → ℕ
  max_rows n [] = n
  max_rows n (r ∷ rs) = max_rows (max n (rule_rows r)) rs

  unfoldable pub rows_of : List (Rule F) → Result ℕ
  rows_of [] = raised value_error
  rows_of (r ∷ rs) = ok (max_rows (rule_rows r) rs)

module _ {F S : Type 0} where
  unfoldable pub required_history_rows : StrategyConfig F S → Result ℕ
  required_history_rows s = if is_some s.compiled_rule then ok 0 else rows_of s.rules

  -- A strategy that its model accepts: the fields that may not be empty, and `validate_timestamps`.
  unfoldable pub strategy_config : StrategyConfig F S → Result (StrategyConfig F S)
  strategy_config s = do
    require (not (is_nil s.id) && not (is_nil s.name)) value_error
    require (not (is_nil s.creator_open_id) && not (is_nil s.notification_chat_id)) value_error
    check_times s.created_at s.updated_at
    require
        ((is_nil s.rules && is_some s.compiled_rule)
          || (not (is_nil s.rules) && not (is_some s.compiled_rule)))
        value_error
    ok s

  unfoldable pub strategy_draft : StrategyDraft F S → Result (StrategyDraft F S)
  strategy_draft d = do
    require (not (is_nil d.draft_id) && not (is_nil d.owner_open_id) && not (is_nil d.chat_id))
        value_error
    check_times d.created_at d.updated_at
    require (is_nil d.rules || not (is_some d.compiled_rule)) value_error
    ok d
