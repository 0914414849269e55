-- ===== src/Strategies/Interaction/Dispatch.antt =====
-- strategy_interaction.py: `_apply_rules`, `handle_message` and `handle_card_action`.
use china_a_share.Prelude.{
  value_error, runtime_error, permission_error, key_error, type_error, zero_division_error,
  overflow_error, external_error, index_error, Fault, rule_spec_error, Bool, true, false, not, ◌&&◌,
  ◌||◌, Option, none, some, Text, text, text_beq, nat_beq, List, [], ◌∷◌, any, is_nil, Result, ok,
  raised, if◌then◌else◌,
}
use china_a_share.Prelude.Int.{ℤ}
use china_a_share.Prelude.Texts.{strip, drop_while, is_space}
use china_a_share.Floats.{Float}
use china_a_share.Cache.Record.{Instant}
use china_a_share.Strategies.Models.{awaiting_rules, ready, Rule, StrategyDraft}
use china_a_share.Strategies.RuleSpec.{parse_rule_spec}
use china_a_share.Strategies.Desk.{Act}
use china_a_share.Strategies.Acts.{◌>>=◌, answer, attempt}
use china_a_share.Strategies.Interaction.{
  Reply, no_card, menu_card, notice_card, draft_none, unknown_command, not_ruling, non_empty,
  state_eq, latest_draft, found, show_draft,
}
use china_a_share.Strategies.Interaction.Editing.{
  create_draft, apply_name, apply_direction, store_rules, compile_or_suggest, save_draft,
}
use china_a_share.Strategies.Interaction.Commands.{
  Ports, cancel_latest_draft, cancel_draft_by_id, show_strategies, toggle_strategy, remove_strategy,
  delete_by_target, run_all, run_one, run_trial,
}

-- A text command, with what its pattern has matched.
pub data Command : Type 0 where
  menu_command list_command run_command cancel_command unknown : Command
  create_command : (name : Text) → Command
  delete_command : (target : Text) → Command
  trial_command : (body : Text) → Command
  name_command : (name : Text) → Command
  rules_command : (spec : Text) → Command

-- What follows a prefix.
unfoldable pub after_prefix : Text → Text → Option Text
after_prefix [] s = some s
after_prefix (p ∷ ps) [] = none
after_prefix (p ∷ ps) (c ∷ s) = let rest = after_prefix ps s in if nat_beq p c then rest else none

abbrev pub starts_with_space : Text → Bool
starts_with_space [] = false
starts_with_space (c ∷ s) = is_space c

-- `\s+(?P<name>.+)$`, and the group stripped: the group is one line.
unfoldable pub group_of : Text → Option Text
group_of s =
    let group = drop_while is_space s in
    if starts_with_space s && not (is_nil group) && not (any (nat_beq 10) group)
    then some (strip group)
    else none

abbrev pub argument_from : Option Text → Option Text
argument_from none = none
argument_from (some rest) = group_of rest

-- A command with one argument.
unfoldable pub argument_of : Text → Text → Option Text
argument_of name s = argument_from (after_prefix name s)

-- A command with an argument that may be left out.
unfoldable pub optional_argument : Text → Text → Option Text
optional_argument name s = if text_beq s name then some [] else argument_of name s

abbrev pub or_command : Option Text → (Text → Command) → Command → Command
or_command none make rest = rest
or_command (some s) make rest = make s

unfoldable pub read_command : Text → Command
read_command s =
    if text_beq s (text "策略菜单") || text_beq s (text "策略")
    then menu_command
    else or_command (optional_argument (text "新建策略") s) create_command (
        if text_beq s (text "策略列表")
        then list_command
        else if text_beq s (text "运行规则")
        then run_command
        else or_command (argument_of (text "删除规则") s) delete_command (
            or_command (optional_argument (text "试算规则") s) trial_command (
              if text_beq s (text "取消草稿")
              then cancel_command
              else or_command (argument_of (text "策略名称") s) name_command
                  (or_command (argument_of (text "规则") s) rules_command unknown))))

unfoldable pub is_command : Command → Bool
is_command unknown = false
is_command menu_command = true
is_command list_command = true
is_command run_command = true
is_command cancel_command = true
is_command (create_command name) = true
is_command (delete_command target) = true
is_command (trial_command body) = true
is_command (name_command name) = true
is_command (rules_command spec) = true

unfoldable pub handles_prompt : Text → Bool
handles_prompt prompt = is_command (read_command (strip prompt))

-- What `str(value.get(key, ""))` gives for the keys of a button's value, and whether it is enabled.
pub record ButtonValue : Type 0 where
  pub strategy_id : Text
  pub draft_id : Text
  pub direction : Text
  pub enabled : Bool

abbrev pub is_spec_error : Fault → Bool
is_spec_error rule_spec_error = true
is_spec_error value_error = false
is_spec_error runtime_error = false
is_spec_error permission_error = false
is_spec_error key_error = false
is_spec_error type_error = false
is_spec_error zero_division_error = false
is_spec_error overflow_error = false
is_spec_error external_error = false
is_spec_error index_error = false

module _ {F S : Type 0} ⦃f : Float F⦄ (truncate : F → Result ℤ) (ports : Ports F S) where
  -- Text that is no shorthand goes to the compiler; another exception is raised.
  unfoldable pub rules_or_compile :
      Result (List (Rule F)) → Instant → StrategyDraft F S → Text → Act F S (Reply F S)
  rules_or_compile (ok rules) now d spec = store_rules now d rules
  rules_or_compile (raised e) now d spec =
      if is_spec_error e then compile_or_suggest ports.compiler now d spec else attempt (raised e)

  unfoldable pub apply_rules : Instant → (owner spec : Text) → Act F S (Reply F S)
  apply_rules now owner spec = do
    latest ← latest_draft owner
    found latest draft_none λ d.
        if state_eq d.state awaiting_rules || state_eq d.state ready
        then rules_or_compile (parse_rule_spec truncate spec) now d spec
        else show_draft now d not_ruling

  unfoldable pub run_message : Instant → (new_id sender chat : Text) → Command → Act F S (Reply F S)
  run_message now new_id sender chat menu_command = answer menu_card
  run_message now new_id sender chat (create_command name) =
      create_draft now new_id sender chat (non_empty name)
  run_message now new_id sender chat list_command = show_strategies sender
  run_message now new_id sender chat run_command = run_all ports sender
  run_message now new_id sender chat (delete_command target) = delete_by_target sender target
  run_message now new_id sender chat (trial_command body) = run_trial now ports sender body
  run_message now new_id sender chat cancel_command = cancel_latest_draft sender
  run_message now new_id sender chat (name_command name) = apply_name now sender name
  run_message now new_id sender chat (rules_command spec) = apply_rules now sender spec
  run_message now new_id sender chat unknown = answer (notice_card unknown_command)

  unfoldable pub handle_message : Instant → (new_id sender chat prompt : Text) → Act F S (Reply F S)
  handle_message now new_id sender chat prompt =
      run_message now new_id sender chat (read_command (strip prompt))

  unfoldable pub handle_card_action :
      Instant → (new_id operator chat action : Text) → ButtonValue → Act F S (Reply F S)
  handle_card_action now new_id operator chat action value =
      if text_beq action (text "strategy_menu")
      then answer menu_card
      else if text_beq action (text "strategy_create_draft")
      then create_draft now new_id operator chat none
      else if text_beq action (text "strategy_list")
      then show_strategies operator
      else if text_beq action (text "strategy_run_all")
      then run_all ports operator
      else if text_beq action (text "strategy_run")
      then run_one ports operator value.strategy_id
      else if text_beq action (text "strategy_draft_direction")
      then apply_direction now operator value.draft_id value.direction
      else if text_beq action (text "strategy_draft_cancel")
      then cancel_draft_by_id operator value.draft_id
      else if text_beq action (text "strategy_draft_save")
      then save_draft now new_id operator value.draft_id
      else if text_beq action (text "strategy_toggle")
      then toggle_strategy now operator value.strategy_id value.enabled
      else if text_beq action (text "strategy_delete")
      then remove_strategy operator value.strategy_id
      else answer no_card
