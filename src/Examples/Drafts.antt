-- ===== src/Examples/Drafts.antt =====
-- strategy_interaction.py: the theorems on rules, drafts and commands, at concrete inputs.
use china_a_share.Prelude.{
  ℕ, ◌/◌, ◌<◌, ◌≡◌, refl, true, false, none, some, Text, text, text_eq, pair_eq, [], ◌∷◌, length,
  any, filter, All, Fault, Result, ok, raised, index_error, rule_spec_error, Satisfies, returned,
  arith,
}
use china_a_share.Prelude.Maps.{lookup, insert, remove}
use china_a_share.Prelude.Texts.{contains, starts_with, strip, drop_while, is_space, lower}
use china_a_share.Prelude.Int.{ℤ, pos, negsuc}
use china_a_share.Cache.Record.{Instant}
use china_a_share.Examples.Numbers.{cents_float}
use china_a_share.Strategies.Models.{
  buy, ready, drawdown, limit_up, drawdown_rule, limit_up_rule, StrategyConfig, StrategyDraft,
}
use china_a_share.Strategies.RuleSpec.{
  segments_of, tokens_of, split_where, parse_rule_spec, parse_segments, parse_tokens,
  parameter_values, parse_number, key_value, longer_key, last_of_key, field_of, kind_of,
  rule_of_values, missing_fields,
}
use china_a_share.Dates.Print.{number, is_digit}
use china_a_share.Strategies.RuleSpec.Checked.{IsBounded, parse_rule_spec-Satisfies}
use china_a_share.Strategies.Store.{MemoryStore, validate_identifier}
use china_a_share.Strategies.Interaction.{saved_card}
use china_a_share.Strategies.Interaction.Editing.{save_draft}
use china_a_share.Strategies.Interaction.Commands.{Ports}
use china_a_share.Strategies.Interaction.Dispatch.{
  handles_prompt, is_command, read_command, rules_command, optional_argument, argument_of,
  after_prefix, group_of, ButtonValue, handle_message, handle_card_action,
}
use china_a_share.Strategies.Interaction.Sound.{IsDraft, IsDesk}
use china_a_share.Strategies.Interaction.Dispatched.{
  handle_message-IsDesk, handle_card_action-IsDesk,
}
use china_a_share.Strategies.Interaction.Saved.{IsDescribed, save_draft_saves}

-- `int(value)` of hundredths.
abbrev whole : ℤ → Result ℤ
whole (pos n) = ok (pos (n / 100))
whole (negsuc n) = ok (negsuc (n / 100))

abbrev IsSpecError : Fault → Type 0
IsSpecError e = e ≡ rule_spec_error

whole-Satisfies : (v : ℤ) → Satisfies (λ _. Unit {0}) IsSpecError (whole v)
whole-Satisfies (pos n) = returned tt
whole-Satisfies (negsuc n) = returned tt

abbrev drawdown_text : Text
drawdown_text = text "回撤 窗口=60 阈值=15%；涨停"

-- Both segments have a token.
drawdown_text-tokens :
    All (λ s. tokens_of s ≡ [] → IsSpecError index_error) (segments_of drawdown_text)
unfolding segments_of tokens_of split_where strip filter drop_while is_space
drawdown_text-tokens = (λ h. absurd (cc), (λ h. absurd (cc), tt))

parse_rule_spec-Satisfies_example :
    Satisfies
      (λ rules.
        (0 < length rules)
        × (length rules ≡ length (segments_of drawdown_text))
        × All IsBounded rules)
      IsSpecError
      (parse_rule_spec whole drawdown_text)
parse_rule_spec-Satisfies_example =
    parse_rule_spec-Satisfies whole IsSpecError refl whole-Satisfies drawdown_text
      drawdown_text-tokens

abbrev ports : Ports ℤ ℕ
ports = record { scanner = none; compiler = none; trial_dates = λ body. none }

abbrev empty_store : MemoryStore ℤ ℕ
empty_store = record { strategies = []; drafts = []; notifications = [] }

abbrev now : Instant
now = record { aware = true; time = 100 }

abbrev me : Text
me = text "ou_1"

empty_store-IsDesk : IsDesk empty_store me empty_store
empty_store-IsDesk = record {
  drafts = tt;
  strategies = tt;
  other_drafts = λ o i h. refl;
  other_strategies = λ o i h. refl;
  notifications = refl;
}

handle_message-IsDesk_example :
    IsDesk empty_store me
      (handle_message whole ports now (text "d1") me (text "oc_1") (text "新建策略 动量") empty_store).1
handle_message-IsDesk_example =
    handle_message-IsDesk whole ports me empty_store now (text "d1") (text "oc_1") (text "新建策略 动量")
      empty_store-IsDesk

abbrev no_value : ButtonValue
no_value = record { strategy_id = []; draft_id = []; direction = []; enabled = false }

handle_card_action-IsDesk_example :
    IsDesk empty_store me
      (handle_card_action whole ports now
        (text "d1")
        me
        (text "oc_1")
        (text "strategy_create_draft")
        no_value
        empty_store).1
handle_card_action-IsDesk_example =
    handle_card_action-IsDesk whole ports me empty_store now (text "d1") (text "oc_1")
      (text "strategy_create_draft") no_value empty_store-IsDesk

abbrev finished_draft : StrategyDraft ℤ ℕ
finished_draft = record {
  draft_id = text "d1";
  owner_open_id = me;
  chat_id = text "oc_1";
  state = ready;
  name = some (text "m");
  direction = some buy;
  rules = limit_up 1 ∷ [];
  compiled_rule = none;
  created_at = now;
  updated_at = now;
}

abbrev draft_store : MemoryStore ℤ ℕ
draft_store = record {
  strategies = [];
  drafts = ((me, text "d1"), finished_draft) ∷ [];
  notifications = [];
}

finished_draft-IsDraft : IsDraft me finished_draft
finished_draft-IsDraft = record {
  owned = refl;
  chat = refl;
  step = (refl, refl, refl, (omega arith, tt));
}

finished_draft-found : lookup (me, text "d1") draft_store.drafts ≡ some finished_draft
unfolding lookup
finished_draft-found = refl

new_id-valid : validate_identifier (text "s1") ≡ ok tt
unfolding validate_identifier any contains starts_with
new_id-valid = refl

me-valid : validate_identifier me ≡ ok tt
unfolding validate_identifier any contains starts_with
me-valid = refl

draft_id-valid : validate_identifier (text "d1") ≡ ok tt
unfolding validate_identifier any contains starts_with
draft_id-valid = refl

save_draft_saves_example :
    (t : StrategyConfig ℤ ℕ) × IsDescribed now (text "s1") me finished_draft t
    × (save_draft now (text "s1") me (text "d1") draft_store ≡ (
      ok (saved_card t),
      record {
        strategies = insert (me, text "s1") t [];
        drafts = remove (me, text "d1") draft_store.drafts;
        notifications = [];
      },
    ))
save_draft_saves_example =
    save_draft_saves now (text "s1") me (text "d1") finished_draft draft_store refl new_id-valid
      me-valid draft_id-valid finished_draft-IsDraft refl finished_draft-found

drawdown_text-parses :
    parse_rule_spec whole drawdown_text ≡ ok (drawdown 60 (pos 15) ∷ limit_up 1 ∷ [])
unfolding parse_rule_spec parse_segments parse_tokens parameter_values parse_number key_value
    longer_key last_of_key field_of kind_of rule_of_values missing_fields segments_of tokens_of
    split_where strip filter drop_while is_space lookup insert lower any drawdown_rule limit_up_rule
    number is_digit
drawdown_text-parses = refl

-- A segment of separators alone has no first token.
comma-raises : parse_rule_spec whole (text "，") ≡ raised index_error
unfolding parse_rule_spec parse_segments parse_tokens segments_of tokens_of split_where strip filter
    drop_while is_space
comma-raises = refl

-- The pattern of a parameter's name has no underscore, so that the alias `min_return` is not read.
underscore-refused : key_value (text "min_return=5") ≡ none
unfolding key_value longer_key last_of_key
underscore-refused = refl

not_a_command : handles_prompt (text "规则") ≡ false
unfolding handles_prompt is_command read_command optional_argument argument_of after_prefix group_of
    strip drop_while is_space any
not_a_command = refl

rules_are_read : read_command (text "规则  涨停 ") ≡ rules_command (text "涨停")
unfolding read_command optional_argument argument_of after_prefix group_of strip drop_while is_space
    any
rules_are_read = refl
