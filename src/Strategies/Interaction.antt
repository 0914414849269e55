-- ===== src/Strategies/Interaction.antt =====
-- strategy_interaction.py: `StrategyInteractionCoordinator`. A card is the value that it is built from;
-- the compiler of rules, the scanner and the clock are parameters.
pub mod Editing
pub mod Commands
pub mod Dispatch
pub mod Sound
pub mod Kept
pub mod Stepped
pub mod Steps
pub mod Answered
pub mod Dispatched
pub mod Named
pub mod Saved
use china_a_share.Prelude.{
  ℕ, Bool, true, false, not, ◌&&◌, ◌||◌, Option, none, some, Text, text, text_beq, ltb, nat_beq,
  List, [], ◌∷◌, any, filter, is_nil, Fault, Result, ok, raised, value_error, type_error,
  rule_spec_error, if◌then◌else◌,
}
use china_a_share.Prelude.Int.{ℤ}
use china_a_share.Prelude.Texts.{strip, drop_while, is_space, delete_char}
use china_a_share.Floats.{Float}
use china_a_share.Cache.Record.{Instant}
use china_a_share.Strategies.Models.{
  SignalDirection, buy, sell, DraftState, awaiting_name, awaiting_direction, awaiting_rules, ready,
  Rule, CompiledStrategyRule, StrategyConfig, StrategyDraft, is_some, strategy_config,
  strategy_draft,
}
use china_a_share.Strategies.RuleSpec.{parse_rule_spec}
use china_a_share.Strategies.Desk.{
  Act, find_strategy, all_strategies, save_strategy, drop_strategy, find_draft, all_drafts,
  save_draft_of, drop_draft,
}
use china_a_share.Strategies.Acts.{◌>>=◌, answer, attempt}

-- What the compiler answers for a text.
pub record RuleCompileResult (S : Type 0) : Type 0 where
  pub compiled_rule : Option (CompiledStrategyRule S)
  pub clarification_options : List Text
  pub limitations : List Text

pub data Notice : Type 0 where
  chat_missing draft_none draft_missing draft_cancelled no_draft_to_cancel : Notice
  strategies_none strategy_missing target_missing scanner_missing : Notice
  trial_format trial_target trial_draft none_enabled strategy_disabled unknown_command : Notice

pub data DraftError : Type 0 where
  not_naming not_directing direction_invalid not_ruling incomplete chat_lost : DraftError

-- The card of a reply; `no_card` where the coordinator returns None.
pub data Reply (F S : Type 0) : Type 0 where
  no_card menu_card : Reply F S
  notice_card : Notice → Reply F S
  draft_card : (draft : StrategyDraft F S) → (error : Option DraftError) → Reply F S
  issue_card :
      (draft : StrategyDraft F S)
      → (spec : Text) → (found : Option (RuleCompileResult S)) → Reply F S
  list_card : List (StrategyConfig F S) → Reply F S
  saved_card deleted_card : StrategyConfig F S → Reply F S
  ambiguous_card : List (StrategyConfig F S) → Reply F S
  trial_refused : Fault → Reply F S

-- The scanner's calls, by what they return.
pub record ScannerCalls (F S : Type 0) : Type 0 where
  pub run_trial : StrategyConfig F S → (start end_date : Text) → Result (Unit {0})
  pub run_manual_preview : (owner : Text) → (strategy_id : Option Text) → Result (Unit {0})

abbrev pub or_else : {A : Type 0} → Option A → A → A
or_else none a = a
or_else (some b) a = b

abbrev pub alike : Bool → Bool → Bool
alike true b = b
alike false b = not b

abbrev pub text_of : Option Text → Text
text_of none = []
text_of (some s) = s

-- `name or None`
abbrev pub non_empty : Text → Option Text
non_empty [] = none
non_empty (c ∷ s) = some (c ∷ s)

abbrev pub state_eq : DraftState → DraftState → Bool
state_eq awaiting_name awaiting_name = true
state_eq awaiting_direction awaiting_direction = true
state_eq awaiting_rules awaiting_rules = true
state_eq ready ready = true
state_eq awaiting_name awaiting_direction = false
state_eq awaiting_name awaiting_rules = false
state_eq awaiting_name ready = false
state_eq awaiting_direction awaiting_name = false
state_eq awaiting_direction awaiting_rules = false
state_eq awaiting_direction ready = false
state_eq awaiting_rules awaiting_name = false
state_eq awaiting_rules awaiting_direction = false
state_eq awaiting_rules ready = false
state_eq ready awaiting_name = false
state_eq ready awaiting_direction = false
state_eq ready awaiting_rules = false

-- `SignalDirection(direction)`
abbrev pub parse_direction : Text → Option SignalDirection
parse_direction s =
    if text_beq s (text "buy")
    then some buy
    else if text_beq s (text "sell")
    then some sell
    else none

-- `except Exception`
abbrev pub forgiven : {A : Type 0} → Result (Option A) → Option A
forgiven (ok a) = a
forgiven (raised e) = none

-- What the compiler found: an exception of it counts as nothing.
abbrev pub compiled_by :
    {S : Type 0}
    → Option (Text → Result (Option (RuleCompileResult S)))
    → Text
    → Option (RuleCompileResult S)
compiled_by none spec = none
compiled_by (some compile) spec = forgiven (compile spec)

abbrev pub compiled_rule_of :
    {S : Type 0} → Option (RuleCompileResult S) → Option (CompiledStrategyRule S)
compiled_rule_of none = none
compiled_rule_of (some r) = r.compiled_rule

-- `datetime.now(SHANGHAI_TIME_ZONE)`
abbrev pub zoned : Instant → Instant
zoned now = record now { aware = true }

module _ {F S : Type 0} where
  -- `draft_strategy_view`: its time is not that of the coordinator's clock, and has a time zone.
  unfoldable pub draft_strategy_view : Instant → StrategyDraft F S → Result (StrategyConfig F S)
  draft_strategy_view now d = strategy_config (record {
    id = d.draft_id;
    name = or_else (non_empty (text_of d.name)) (text "未命名策略");
    direction = or_else d.direction buy;
    rules = d.rules;
    compiled_rule = d.compiled_rule;
    creator_open_id = d.owner_open_id;
    enabled = false;
    notification_chat_id = d.chat_id;
    created_at = zoned now;
    updated_at = zoned now;
  })

  abbrev pub the_card :
      StrategyDraft F S → Option DraftError → Result (StrategyConfig F S) → Result (Reply F S)
  the_card d error (ok view) = ok (draft_card d error)
  the_card d error (raised e) = raised e

  -- `build_draft_card`: the card of a ready draft renders its rules.
  unfoldable pub build_draft_card :
      Instant → StrategyDraft F S → Option DraftError → Result (Reply F S)
  build_draft_card now d error =
      if state_eq d.state ready
      then the_card d error (draft_strategy_view now d)
      else ok (draft_card d error)

  -- `max(drafts, key=lambda draft: draft.updated_at)`: the first of the latest. A time with a zone and
  -- one without are not compared.
  unfoldable pub latest_of :
      StrategyDraft F S → List (StrategyDraft F S) → Result (StrategyDraft F S)
  latest_of best [] = ok best
  latest_of best (d ∷ ds) =
      let rest = latest_of (if ltb best.updated_at.time d.updated_at.time then d else best) ds in
      if alike best.updated_at.aware d.updated_at.aware then rest else raised type_error

  abbrev pub one_found : Result (StrategyDraft F S) → Result (Option (StrategyDraft F S))
  one_found (ok d) = ok (some d)
  one_found (raised e) = raised e

  abbrev pub latest_in : List (StrategyDraft F S) → Result (Option (StrategyDraft F S))
  latest_in [] = ok none
  latest_in (d ∷ ds) = one_found (latest_of d ds)

  unfoldable pub latest_draft : Text → Act F S (Option (StrategyDraft F S))
  latest_draft owner = do drafts ← all_drafts owner; attempt (latest_in drafts)

  -- The rest of the code after a value that was found, or the notice that it was not.
  abbrev pub found :
      {A : Type 0} → Option A → Notice → (A → Act F S (Reply F S)) → Act F S (Reply F S)
  found none notice next = answer (notice_card notice)
  found (some a) notice next = next a

  -- `draft.model_copy(update=...)` without validation.
  abbrev pub revise :
      StrategyDraft F S
      → Option Text
      → Option SignalDirection
      → List (Rule F)
      → Option (CompiledStrategyRule S)
      → DraftState
      → Instant
      → StrategyDraft F S
  revise d name direction rules compiled state now = record d {
    state = state;
    name = name;
    direction = direction;
    rules = rules;
    compiled_rule = compiled;
    updated_at = now;
  }

  -- A draft is saved and its card is shown.
  abbrev pub store_draft : Instant → StrategyDraft F S → Text → Act F S (Reply F S)
  store_draft now d owner = do done ← save_draft_of d owner; attempt (build_draft_card now d none)

  abbrev pub show_draft : Instant → StrategyDraft F S → DraftError → Act F S (Reply F S)
  show_draft now d error = attempt (build_draft_card now d (some error))
