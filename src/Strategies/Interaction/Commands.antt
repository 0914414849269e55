-- ===== src/Strategies/Interaction/Commands.antt =====
-- strategy_interaction.py: the commands of the coordinator that do not edit a draft.
use china_a_share.Prelude.{
  Bool, true, ◌||◌, Option, none, some, Text, text_beq, List, [], ◌∷◌, filter, is_nil, Result, ok,
  raised, value_error, if◌then◌else◌,
}
use china_a_share.Prelude.Texts.{strip, delete_char}
use china_a_share.Cache.Record.{Instant}
use china_a_share.Strategies.Models.{StrategyConfig, StrategyDraft, is_some}
use china_a_share.Strategies.Desk.{
  Act, find_strategy, all_strategies, save_strategy, drop_strategy, find_draft, drop_draft,
}
use china_a_share.Strategies.Acts.{◌>>=◌, answer, attempt}
use china_a_share.Strategies.Interaction.{
  RuleCompileResult, Reply, no_card, notice_card, list_card, deleted_card, ambiguous_card,
  trial_refused, draft_missing, draft_cancelled, no_draft_to_cancel, strategies_none,
  strategy_missing, target_missing, scanner_missing, trial_format, trial_target, trial_draft,
  none_enabled, strategy_disabled, ScannerCalls, draft_strategy_view, latest_draft, found,
}

-- What the coordinator is built with: the scanner and the compiler, where there is one, and the pattern
-- of a trial's body, with its name and its dates.
pub record Ports (F S : Type 0) : Type 0 where
  pub scanner : Option (ScannerCalls F S)
  pub compiler : Option (Text → Result (Option (RuleCompileResult S)))
  pub trial_dates : Text → Option (Text × (Text × Text))

module _ {F S : Type 0} where
  unfoldable pub cancel_draft : Option (StrategyDraft F S) → Text → Act F S (Reply F S)
  cancel_draft none owner = answer (notice_card no_draft_to_cancel)
  cancel_draft (some d) owner = do
    gone ← drop_draft d.draft_id owner
    answer (notice_card draft_cancelled)

  unfoldable pub cancel_latest_draft : Text → Act F S (Reply F S)
  cancel_latest_draft owner = do latest ← latest_draft owner; cancel_draft latest owner

  unfoldable pub cancel_draft_by_id : (owner draft_id : Text) → Act F S (Reply F S)
  cancel_draft_by_id owner draft_id = do
    draft ← find_draft draft_id owner
    found draft draft_missing
        λ d. do gone ← drop_draft draft_id owner; answer (notice_card draft_cancelled)

  abbrev pub card_of_list : List (StrategyConfig F S) → Reply F S
  card_of_list [] = notice_card strategies_none
  card_of_list (s ∷ ss) = list_card (s ∷ ss)

  unfoldable pub show_strategies : Text → Act F S (Reply F S)
  show_strategies owner = do
    strategies ← all_strategies owner none
    answer (card_of_list strategies)

  abbrev pub toggled : StrategyConfig F S → Bool → Instant → StrategyConfig F S
  toggled s enabled now = record s { enabled = enabled; updated_at = now }

  unfoldable pub toggle_strategy : Instant → (owner strategy_id : Text) → Bool → Act F S (Reply F S)
  toggle_strategy now owner strategy_id enabled = do
    strategy ← find_strategy strategy_id owner
    found strategy strategy_missing
        λ s. do done ← save_strategy (toggled s enabled now) owner; show_strategies owner

  unfoldable pub remove_strategy : (owner strategy_id : Text) → Act F S (Reply F S)
  remove_strategy owner strategy_id = do
    strategy ← find_strategy strategy_id owner
    found strategy strategy_missing
        λ s. do gone ← drop_strategy strategy_id owner; answer (deleted_card s)

  abbrev pub first_of : List (StrategyConfig F S) → Option (StrategyConfig F S)
  first_of [] = none
  first_of (s ∷ ss) = some s

  -- One match is deleted; of none and of several the caller is told.
  unfoldable pub delete_only : Text → List (StrategyConfig F S) → Act F S (Reply F S)
  delete_only owner [] = answer (notice_card target_missing)
  delete_only owner (s ∷ []) = remove_strategy owner s.id
  delete_only owner (s ∷ t ∷ ss) = answer (ambiguous_card (s ∷ t ∷ ss))

  unfoldable pub delete_direct :
      Option (StrategyConfig F S) → Text → List (StrategyConfig F S) → Act F S (Reply F S)
  delete_direct (some s) owner matches = remove_strategy owner s.id
  delete_direct none owner matches = delete_only owner matches

  -- An identifier goes before a name.
  unfoldable pub delete_by_target : (owner target : Text) → Act F S (Reply F S)
  delete_by_target owner target = do
    strategies ← all_strategies owner none
    delete_direct (first_of (filter (λ s. text_beq s.id target) strategies)) owner
        (filter (λ s. text_beq s.name target) strategies)

  abbrev pub with_scanner :
      Option (ScannerCalls F S) → (ScannerCalls F S → Act F S (Reply F S)) → Act F S (Reply F S)
  with_scanner none next = answer (notice_card scanner_missing)
  with_scanner (some calls) next = next calls

  unfoldable pub run_all : Ports F S → Text → Act F S (Reply F S)
  run_all ports owner = with_scanner ports.scanner λ calls. do
    enabled ← all_strategies owner (some true)
    if is_nil enabled
        then answer (notice_card none_enabled)
        else (do done ← attempt (calls.run_manual_preview owner none); answer no_card)

  unfoldable pub run_one : Ports F S → (owner strategy_id : Text) → Act F S (Reply F S)
  run_one ports owner strategy_id = with_scanner ports.scanner λ calls. do
    strategy ← find_strategy strategy_id owner
    found strategy strategy_missing λ s.
        if s.enabled
        then (do done ← attempt (calls.run_manual_preview owner (some s.id)); answer no_card)
        else answer (notice_card strategy_disabled)

  -- `except ValueError`
  abbrev pub trial_reply : Result (Unit {0}) → Result (Reply F S)
  trial_reply (ok u) = ok no_card
  trial_reply (raised value_error) = ok (trial_refused value_error)
  trial_reply (raised e) = raised e

  -- The strategy that a trial replays: the one with the name or the identifier, or the latest draft's.
  unfoldable pub the_only : List (StrategyConfig F S) → Option (StrategyConfig F S)
  the_only [] = none
  the_only (s ∷ []) = some s
  the_only (s ∷ t ∷ ss) = none

  abbrev pub compiled_draft : Option (StrategyDraft F S) → Option (StrategyDraft F S)
  compiled_draft none = none
  compiled_draft (some d) = if is_some d.compiled_rule then some d else none

  unfoldable pub run_trial : Instant → Ports F S → (owner body : Text) → Act F S (Reply F S)
  run_trial now ports owner body = with_scanner ports.scanner λ calls.
      found (ports.trial_dates body) trial_format λ (name, (start, end_date)).
        let first = delete_char b'-' start in
        let last = delete_char b'-' end_date in
        if is_nil (strip name)
        then (do
          latest ← latest_draft owner
          found (compiled_draft latest) trial_draft λ d. do
            view ← attempt (draft_strategy_view now d)
            attempt (trial_reply (calls.run_trial view first last)))
        else (do
          strategies ← all_strategies owner none
          found
              (the_only (
                filter (λ s. text_beq s.name (strip name) || text_beq s.id (strip name))
                  strategies))
              trial_target λ s. attempt (trial_reply (calls.run_trial s first last)))
