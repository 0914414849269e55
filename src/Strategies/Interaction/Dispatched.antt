-- ===== src/Strategies/Interaction/Dispatched.antt =====
-- strategy_interaction.py: whatever message or button comes, the store keeps sound records, and other
-- owners' records and the markers of notifications are not touched.
use china_a_share.Prelude.{
  ◌≡◌, refl, true, false, ◌||◌, none, Text, text, text_beq, List, [], ◌∷◌, All, is_nil, Result,
  Satisfies, returned, failed, arith, Satisfies-any, Satisfies-map, length, ◌<◌,
}
use china_a_share.Prelude.Int.{ℤ}
use china_a_share.Prelude.Texts.{strip}
use china_a_share.Floats.{Float}
use china_a_share.Cache.Record.{Instant}
use china_a_share.Strategies.Models.{awaiting_rules, ready, Rule, StrategyDraft, is_some}
use china_a_share.Strategies.RuleSpec.{parse_rule_spec, segments_of}
use china_a_share.Strategies.RuleSpec.Checked.{IsBounded, parse_rule_spec-Satisfies}
use china_a_share.Strategies.Store.{MemoryStore}
use china_a_share.Strategies.Acts.Keeping.{Keeps-bind, Keeps-answer, Keeps-attempt, Keeps-if}
use china_a_share.Strategies.Interaction.{non_empty, state_eq}
use china_a_share.Strategies.Interaction.Commands.{Ports}
use china_a_share.Strategies.Interaction.Dispatch.{
  Command, menu_command, create_command, list_command, run_command, delete_command, trial_command,
  cancel_command, name_command, rules_command, unknown, ButtonValue, is_spec_error,
  rules_or_compile, apply_rules, run_message, read_command, handle_message, handle_card_action,
}
use china_a_share.Strategies.Interaction.Answered.{
  cancel_latest_draft-Safe, cancel_draft_by_id-Safe, show_strategies-Safe, toggle_strategy-Safe,
  remove_strategy-Safe, delete_by_target-Safe, run_all-Safe, run_one-Safe, run_trial-Safe,
}
use china_a_share.Strategies.Interaction.Named.{IsNamed, read_command-IsNamed}
use china_a_share.Strategies.Interaction.Sound.{IsDraft, IsDesk, is_named}
use china_a_share.Strategies.Interaction.Steps.{
  Safe, found-Safe, latest_draft-Keeps, show_draft-Safe, apply_name-Safe, apply_direction-Safe,
  store_rules-Safe, compile_or_suggest-Safe, create_draft-Safe, save_draft-Safe, IsEditable,
  editable,
}

All-any : (P : Text → Type 0) (xs : List Text) → All (λ s. P s → Unit {0}) xs
All-any P [] = tt
All-any P (x ∷ xs) = (λ _. tt, All-any P xs)

not-nil : {A : Type 0} (xs : List A) → 0 < length xs → is_nil xs ≡ false
not-nil [] h = absurd (omega arith)
not-nil (x ∷ xs) h = refl

non_empty-named : (name : Text) → is_some (non_empty name) ≡ true → is_named (non_empty name) ≡ true
non_empty-named [] h = absurd (cc)
non_empty-named (c ∷ s) h = refl

module _ {F S : Type 0} ⦃f : Float F⦄ (before : MemoryStore F S) (me : Text) where
  module _ (truncate : F → Result ℤ) (ports : Ports F S) where
    rules_or_compile-Safe :
        (r : Result (List (Rule F))) (now : Instant) (d : StrategyDraft F S) (spec : Text)
        → Satisfies (λ rules. (is_nil rules ≡ false) × All IsBounded rules) (λ _. Unit {0}) r
        → IsDraft me d
        → IsEditable before me d
        → Safe before me (rules_or_compile truncate ports r now d spec)
    unfolding rules_or_compile
    rules_or_compile-Safe r now d spec (returned {a = rules} (some_rule, bounded)) h e =
        store_rules-Safe before me now d rules h e some_rule bounded
    rules_or_compile-Safe r now d spec (failed {e = fault} _) h e =
        Keeps-if (is_spec_error fault)
          (λ _. compile_or_suggest-Safe before me ports.compiler now d spec h e)
          (λ _. Keeps-attempt (failed tt))

    parsed :
        (spec : Text)
        → Satisfies
            (λ rules. (is_nil rules ≡ false) × All IsBounded rules)
            (λ _. Unit {0})
            (parse_rule_spec truncate spec)
    parsed spec =
        Satisfies-map
          (parse_rule_spec-Satisfies truncate (λ _. Unit {0}) tt (λ v. Satisfies-any (truncate v))
            spec (All-any _ (segments_of spec)))
          λ rules (some_rule, _, bounded). (not-nil rules some_rule, bounded)

    apply_rules-Safe :
        (now : Instant) (spec : Text) → Safe before me (apply_rules truncate ports now me spec)
    unfolding apply_rules
    apply_rules-Safe now spec = Keeps-bind (latest_draft-Keeps before me) λ v h.
        found-Safe before me v _ _ h λ d k.
          Keeps-if (state_eq d.state awaiting_rules || state_eq d.state ready)
            (λ e.
              rules_or_compile-Safe (parse_rule_spec truncate spec) now d spec (parsed spec) k
                (editable before me d k e))
            (λ _. show_draft-Safe before me now d _)

    run_message-Safe :
        (now : Instant) (new_id chat : Text) (command : Command)
        → IsNamed command
        → Safe before me (run_message truncate ports now new_id me chat command)
    unfolding run_message
    run_message-Safe now new_id chat menu_command h = Keeps-answer tt
    run_message-Safe now new_id chat (create_command name) h =
        create_draft-Safe before me now new_id chat (non_empty name) (non_empty-named name)
    run_message-Safe now new_id chat list_command h = show_strategies-Safe before me
    run_message-Safe now new_id chat run_command h = run_all-Safe before me ports
    run_message-Safe now new_id chat (delete_command target) h =
        delete_by_target-Safe before me target
    run_message-Safe now new_id chat (trial_command body) h =
        run_trial-Safe before me now ports body
    run_message-Safe now new_id chat cancel_command h = cancel_latest_draft-Safe before me
    run_message-Safe now new_id chat (name_command name) h =
        apply_name-Safe before me now name (let named = h.holds in ground arith)
    run_message-Safe now new_id chat (rules_command spec) h = apply_rules-Safe now spec
    run_message-Safe now new_id chat unknown h = Keeps-answer tt

    handle_card_action-Safe :
        (now : Instant) (new_id chat action : Text) (value : ButtonValue)
        → Safe before me (handle_card_action truncate ports now new_id me chat action value)
    unfolding handle_card_action
    handle_card_action-Safe now new_id chat action value =
        Keeps-if (text_beq action (text "strategy_menu")) (λ _. Keeps-answer tt)
          λ _.
            Keeps-if (text_beq action (text "strategy_create_draft"))
              (λ _. create_draft-Safe before me now new_id chat none (λ h. absurd (cc)))
              λ _.
                Keeps-if (text_beq action (text "strategy_list"))
                  (λ _. show_strategies-Safe before me)
                  λ _.
                    Keeps-if (text_beq action (text "strategy_run_all"))
                      (λ _. run_all-Safe before me ports)
                      λ _.
                        Keeps-if (text_beq action (text "strategy_run"))
                          (λ _. run_one-Safe before me ports value.strategy_id)
                          λ _.
                            Keeps-if (text_beq action (text "strategy_draft_direction"))
                              (λ _.
                                apply_direction-Safe before me now value.draft_id value.direction)
                              λ _.
                                Keeps-if (text_beq action (text "strategy_draft_cancel"))
                                  (λ _. cancel_draft_by_id-Safe before me value.draft_id)
                                  λ _.
                                    Keeps-if (text_beq action (text "strategy_draft_save"))
                                      (λ _. save_draft-Safe before me now new_id value.draft_id)
                                      λ _.
                                        Keeps-if (text_beq action (text "strategy_toggle"))
                                          (λ _.
                                            toggle_strategy-Safe before me now value.strategy_id
                                              value.enabled)
                                          λ _.
                                            Keeps-if (text_beq action (text "strategy_delete"))
                                              (λ _.
                                                remove_strategy-Safe before me value.strategy_id)
                                              λ _. Keeps-answer tt

    handle_message-Safe :
        (now : Instant) (new_id chat prompt : Text)
        → Safe before me (handle_message truncate ports now new_id me chat prompt)
    unfolding handle_message
    handle_message-Safe now new_id chat prompt =
        run_message-Safe now new_id chat (read_command (strip prompt))
          (read_command-IsNamed (strip prompt))

module _ {F S : Type 0} ⦃f : Float F⦄ (truncate : F → Result ℤ) (ports : Ports F S) (me : Text)
    (s : MemoryStore F S) where
  -- If every stored strategy has a name, a chat and either rules within the bounds of their models
  -- or a compiled rule, not both, and every stored draft has what its step of the editing asks for
  -- and nothing of a later step, each under its own owner, then after any message, whether it is
  -- answered or raises, this still holds, and neither another owner's drafts and strategies nor the
  -- markers have changed.
  pub handle_message-IsDesk :
      (now : Instant) (new_id chat prompt : Text)
      → IsDesk s me s
      → IsDesk s me (handle_message truncate ports now new_id me chat prompt s).1
  handle_message-IsDesk now new_id chat prompt sound =
      ((handle_message-Safe s me truncate ports now new_id chat prompt).runs s sound).1

  -- With such a store, after any button, with any value, whether it is answered or raises, every
  -- strategy and every draft is still such, and neither another owner's drafts and strategies nor
  -- the markers have changed.
  pub handle_card_action-IsDesk :
      (now : Instant) (new_id chat action : Text) (value : ButtonValue)
      → IsDesk s me s
      → IsDesk s me (handle_card_action truncate ports now new_id me chat action value s).1
  handle_card_action-IsDesk now new_id chat action value sound =
      ((handle_card_action-Safe s me truncate ports now new_id chat action value).runs s sound).1
