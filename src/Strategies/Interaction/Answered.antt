-- ===== src/Strategies/Interaction/Answered.antt =====
-- strategy_interaction.py: each command keeps the store sound, beside those that edit a draft.
use china_a_share.Prelude.{
  Bool, true, Option, none, some, Text, List, [], ◌∷◌, is_nil, Satisfies-any,
}
use china_a_share.Prelude.Texts.{strip}
use china_a_share.Floats.{Float}
use china_a_share.Cache.Record.{Instant}
use china_a_share.Strategies.Models.{StrategyConfig, StrategyDraft}
use china_a_share.Strategies.Store.{MemoryStore}
use china_a_share.Strategies.Desk.{Act}
use china_a_share.Strategies.Acts.Keeping.{Keeps-bind, Keeps-answer, Keeps-attempt, Keeps-if}
use china_a_share.Strategies.Desk.Entries.{Possibly}
use china_a_share.Strategies.Interaction.{Reply, ScannerCalls, draft_strategy_view}
use china_a_share.Strategies.Interaction.Commands.{
  Ports, cancel_draft, cancel_latest_draft, cancel_draft_by_id, show_strategies, toggled,
  toggle_strategy, remove_strategy, delete_only, delete_direct, delete_by_target, with_scanner,
  run_all, run_one, the_only, compiled_draft, run_trial,
}
use china_a_share.Strategies.Interaction.Kept.{
  find_draft-Keeps, find_strategy-Keeps, all_strategies-Keeps, save_strategy-Keeps,
  drop_strategy-Keeps, drop_draft-Keeps,
}
use china_a_share.Strategies.Interaction.Steps.{Safe, found-Safe, latest_draft-Keeps}

Possibly-any : {A : Type 0} (v : Option A) → Possibly (λ _. Unit {0}) v
Possibly-any none = tt
Possibly-any (some a) = tt

module _ {F S : Type 0} ⦃f : Float F⦄ (before : MemoryStore F S) (me : Text) where
  pub cancel_draft-Safe : (v : Option (StrategyDraft F S)) → Safe before me (cancel_draft v me)
  unfolding cancel_draft
  cancel_draft-Safe none = Keeps-answer tt
  cancel_draft-Safe (some d) =
      Keeps-bind (drop_draft-Keeps before me d.draft_id) λ _ _. Keeps-answer tt

  pub cancel_latest_draft-Safe : Safe before me (cancel_latest_draft me)
  unfolding cancel_latest_draft
  cancel_latest_draft-Safe = Keeps-bind (latest_draft-Keeps before me) λ v _. cancel_draft-Safe v

  pub cancel_draft_by_id-Safe : (id : Text) → Safe before me (cancel_draft_by_id me id)
  unfolding cancel_draft_by_id
  cancel_draft_by_id-Safe id = Keeps-bind (find_draft-Keeps before me id) λ v h.
      found-Safe before me v _ _ h
        λ d k. Keeps-bind (drop_draft-Keeps before me id) λ _ _. Keeps-answer tt

  pub show_strategies-Safe : Safe before me (show_strategies me)
  unfolding show_strategies
  show_strategies-Safe = Keeps-bind (all_strategies-Keeps before me none) λ _ _. Keeps-answer tt

  pub toggle_strategy-Safe :
      (now : Instant) (id : Text) (enabled : Bool)
      → Safe before me (toggle_strategy now me id enabled)
  unfolding toggle_strategy
  toggle_strategy-Safe now id enabled = Keeps-bind (find_strategy-Keeps before me id) λ v h.
      found-Safe before me v _ _ h λ s k.
        Keeps-bind
          (save_strategy-Keeps before me (toggled s enabled now) (record {
            owned = k.owned;
            named = k.named;
            chat = k.chat;
            source = k.source;
            bounded = k.bounded;
          }))
          λ _ _. show_strategies-Safe

  pub remove_strategy-Safe : (id : Text) → Safe before me (remove_strategy me id)
  unfolding remove_strategy
  remove_strategy-Safe id = Keeps-bind (find_strategy-Keeps before me id) λ v h.
      found-Safe before me v _ _ h
        λ s k. Keeps-bind (drop_strategy-Keeps before me id) λ _ _. Keeps-answer tt

  pub delete_only-Safe :
      (matches : List (StrategyConfig F S)) → Safe before me (delete_only me matches)
  unfolding delete_only
  delete_only-Safe [] = Keeps-answer tt
  delete_only-Safe (s ∷ []) = remove_strategy-Safe s.id
  delete_only-Safe (s ∷ t ∷ ss) = Keeps-answer tt

  pub delete_direct-Safe :
      (v : Option (StrategyConfig F S)) (matches : List (StrategyConfig F S))
      → Safe before me (delete_direct v me matches)
  unfolding delete_direct
  delete_direct-Safe none matches = delete_only-Safe matches
  delete_direct-Safe (some s) matches = remove_strategy-Safe s.id

  pub delete_by_target-Safe : (target : Text) → Safe before me (delete_by_target me target)
  unfolding delete_by_target
  delete_by_target-Safe target =
      Keeps-bind (all_strategies-Keeps before me none) λ ss _. delete_direct-Safe _ _

  pub with_scanner-Safe :
      (v : Option (ScannerCalls F S)) (next : ScannerCalls F S → Act F S (Reply F S))
      → ((calls : ScannerCalls F S) → Safe before me (next calls))
      → Safe before me (with_scanner v next)
  with_scanner-Safe none next h = Keeps-answer tt
  with_scanner-Safe (some calls) next h = h calls

  pub run_all-Safe : (ports : Ports F S) → Safe before me (run_all ports me)
  unfolding run_all
  run_all-Safe ports = with_scanner-Safe ports.scanner _ λ calls.
      Keeps-bind (all_strategies-Keeps before me (some true)) λ ss _.
        Keeps-if (is_nil ss) (λ _. Keeps-answer tt)
          λ _.
            Keeps-bind (Keeps-attempt (Satisfies-any (calls.run_manual_preview me none)))
              λ _ _. Keeps-answer tt

  pub run_one-Safe : (ports : Ports F S) (id : Text) → Safe before me (run_one ports me id)
  unfolding run_one
  run_one-Safe ports id = with_scanner-Safe ports.scanner _ λ calls.
      Keeps-bind (find_strategy-Keeps before me id) λ v h. found-Safe before me v _ _ h λ s k.
        Keeps-if s.enabled
          (λ _.
            Keeps-bind (Keeps-attempt (Satisfies-any (calls.run_manual_preview me (some s.id))))
              λ _ _. Keeps-answer tt)
          (λ _. Keeps-answer tt)

  pub run_trial-Safe :
      (now : Instant) (ports : Ports F S) (body : Text)
      → Safe before me (run_trial now ports me body)
  unfolding run_trial
  run_trial-Safe now ports body = with_scanner-Safe ports.scanner _ λ calls.
      found-Safe before me {P = λ _. Unit {0}} (ports.trial_dates body) _ _
        (Possibly-any (ports.trial_dates body))
        λ (name, (start, end_date)) _.
          Keeps-if (is_nil (strip name))
            (λ _. Keeps-bind (latest_draft-Keeps before me) λ v _.
              found-Safe before me {P = λ _. Unit {0}} (compiled_draft v) _ _
                (Possibly-any (compiled_draft v))
                λ d _.
                  Keeps-bind (Keeps-attempt (Satisfies-any (draft_strategy_view now d)))
                    λ _ _. Keeps-attempt (Satisfies-any _))
            (λ _. Keeps-bind (all_strategies-Keeps before me none) λ ss _.
              found-Safe before me {P = λ _. Unit {0}} (the_only _) _ _ (Possibly-any (the_only _))
                λ s _. Keeps-attempt (Satisfies-any _))
