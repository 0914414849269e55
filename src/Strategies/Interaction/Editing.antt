-- ===== src/Strategies/Interaction/Editing.antt =====
-- strategy_interaction.py: the steps of the guided draft, which ask for a name, a direction and rules,
-- and the strategy that it is saved as.
use china_a_share.Prelude.{
  true, not, ◌||◌, Option, none, some, Text, List, [], is_nil, Result, if◌then◌else◌,
}
use china_a_share.Cache.Record.{Instant}
use china_a_share.Strategies.Models.{
  SignalDirection, buy, awaiting_name, awaiting_direction, awaiting_rules, ready, Rule,
  CompiledStrategyRule, StrategyConfig, StrategyDraft, is_some, strategy_config, strategy_draft,
}
use china_a_share.Strategies.Desk.{Act, save_strategy, find_draft, drop_draft}
use china_a_share.Strategies.Acts.{◌>>=◌, answer, attempt}
use china_a_share.Strategies.Interaction.{
  RuleCompileResult, chat_missing, draft_none, draft_missing, not_naming, not_directing,
  direction_invalid, incomplete, chat_lost, Reply, notice_card, issue_card, saved_card, or_else,
  text_of, state_eq, parse_direction, latest_draft, found, revise, store_draft, show_draft,
  compiled_by, compiled_rule_of,
}

module _ {F S : Type 0} where
  abbrev pub new_draft : Instant → (new_id owner chat : Text) → Option Text → StrategyDraft F S
  new_draft now new_id owner chat name = record {
    draft_id = new_id;
    owner_open_id = owner;
    chat_id = chat;
    state = if is_some name then awaiting_direction else awaiting_name;
    name = name;
    direction = none;
    rules = [];
    compiled_rule = none;
    created_at = now;
    updated_at = now;
  }

  unfoldable pub create_draft :
      Instant → (new_id owner chat : Text) → Option Text → Act F S (Reply F S)
  create_draft now new_id owner chat name =
      if is_nil chat then answer (notice_card chat_missing) else (do
        draft ← attempt (strategy_draft (new_draft now new_id owner chat name))
        store_draft now draft owner)

  unfoldable pub apply_name : Instant → (owner name : Text) → Act F S (Reply F S)
  apply_name now owner name = do
    latest ← latest_draft owner
    found latest draft_none λ d.
        if state_eq d.state awaiting_name
        then store_draft now
            (revise d (some name) d.direction d.rules d.compiled_rule awaiting_direction now) owner
        else show_draft now d not_naming

  abbrev pub with_direction :
      Option SignalDirection → Instant → StrategyDraft F S → Text → Act F S (Reply F S)
  with_direction none now d owner = show_draft now d direction_invalid
  with_direction (some direction) now d owner =
      store_draft now (revise d d.name (some direction) d.rules d.compiled_rule awaiting_rules now)
        owner

  unfoldable pub apply_direction : Instant → (owner draft_id direction : Text) → Act F S (Reply F S)
  apply_direction now owner draft_id direction = do
    draft ← find_draft draft_id owner
    found draft draft_missing λ d.
        if state_eq d.state awaiting_direction
        then with_direction (parse_direction direction) now d owner
        else show_draft now d not_directing

  unfoldable pub store_rules : Instant → StrategyDraft F S → List (Rule F) → Act F S (Reply F S)
  store_rules now d rules =
      store_draft now (revise d d.name d.direction rules none ready now) d.owner_open_id

  unfoldable pub store_compiled_rule :
      Instant → StrategyDraft F S → CompiledStrategyRule S → Act F S (Reply F S)
  store_compiled_rule now d compiled =
      store_draft now (revise d d.name d.direction [] (some compiled) ready now) d.owner_open_id

  abbrev pub compiled_or_issue :
      Option (CompiledStrategyRule S)
      → Option (RuleCompileResult S)
      → Instant
      → StrategyDraft F S
      → Text
      → Act F S (Reply F S)
  compiled_or_issue none result now d spec = answer (issue_card d spec result)
  compiled_or_issue (some c) result now d spec = store_compiled_rule now d c

  unfoldable pub compile_or_suggest :
      Option (Text → Result (Option (RuleCompileResult S)))
      → Instant
      → StrategyDraft F S
      → Text
      → Act F S (Reply F S)
  compile_or_suggest compiler now d spec =
      let result = compiled_by compiler spec in
      compiled_or_issue (compiled_rule_of result) result now d spec

  -- The strategy that a finished draft becomes.
  abbrev pub strategy_of : Instant → (new_id owner : Text) → StrategyDraft F S → StrategyConfig F S
  strategy_of now new_id owner d = record {
    id = new_id;
    name = text_of d.name;
    direction = or_else d.direction buy;
    rules = d.rules;
    compiled_rule = d.compiled_rule;
    creator_open_id = owner;
    enabled = true;
    notification_chat_id = d.chat_id;
    created_at = now;
    updated_at = now;
  }

  unfoldable pub save_draft : Instant → (new_id owner draft_id : Text) → Act F S (Reply F S)
  save_draft now new_id owner draft_id = do
    draft ← find_draft draft_id owner
    found draft draft_missing λ d.
        if not (state_eq d.state ready) || is_nil (text_of d.name) || not (is_some d.direction)
        then show_draft now d incomplete
        else if is_nil d.chat_id
        then show_draft now d chat_lost
        else (do
          strategy ← attempt (strategy_config (strategy_of now new_id owner d))
          done ← save_strategy strategy owner
          gone ← drop_draft draft_id owner
          answer (saved_card strategy))
