-- ===== src/Strategies/Interaction/Steps.antt =====
-- strategy_interaction.py: the steps of the guided draft, from its creation to the saved strategy.
use china_a_share.Prelude.{
  ◌≡◌, refl, sym, ap, inl, inr, true, false, not, ◌||◌, Option, none, some, Text, text_beq_iff,
  List, All, is_nil, text_eq, ==_refl, Result, arith, Satisfies-any, Bool-cases,
}
use china_a_share.Floats.{Float}
use china_a_share.Cache.Record.{Instant}
use china_a_share.Strategies.Models.{
  SignalDirection, awaiting_name, awaiting_direction, awaiting_rules, ready, Rule,
  CompiledStrategyRule, StrategyDraft, is_some,
}
use china_a_share.Strategies.RuleSpec.Checked.{IsBounded}
use china_a_share.Strategies.Store.{MemoryStore}
use china_a_share.Strategies.Desk.{Act}
use china_a_share.Strategies.Acts.{Keeps}
use china_a_share.Strategies.Acts.Keeping.{Keeps-bind, Keeps-answer, Keeps-attempt, Keeps-if}
use china_a_share.Strategies.Desk.Entries.{Possibly}
use china_a_share.Strategies.Interaction.{
  Notice, DraftError, Reply, text_of, state_eq, parse_direction, latest_draft, found, store_draft,
  show_draft, RuleCompileResult,
}
use china_a_share.Strategies.Interaction.Editing.{
  create_draft, apply_name, with_direction, apply_direction, store_rules, store_compiled_rule,
  compiled_or_issue, compile_or_suggest, save_draft, new_draft, strategy_of,
}
use china_a_share.Strategies.Interaction.Sound.{IsDraft, IsStrategy, IsDesk, is_named}
use china_a_share.Strategies.Interaction.Kept.{
  find_draft-Keeps, all_drafts-Keeps, save_draft_of-Keeps, drop_draft-Keeps, save_strategy-Keeps,
}
use china_a_share.Strategies.Interaction.Stepped.{
  IsDraft-IsStep, latest_in-IsDraft, strategy_config-Satisfies, strategy_draft-Satisfies,
}
use mathlib.Core.Path.{subst}

module _ {F S : Type 0} ⦃f : Float F⦄ (before : MemoryStore F S) (me : Text) where
  -- An act that keeps the desk.
  abbrev pub Safe : {A : Type 0} → Act F S A → Type 0
  Safe act = Keeps (IsDesk before me) (λ _. Unit {0}) act

  pub found-Safe :
      {A : Type 0} {P : A → Type 0} (v : Option A) (notice : Notice)
      (next : A → Act F S (Reply F S))
      → Possibly P v
      → ((a : A) → P a → Safe (next a))
      → Safe (found v notice next)
  found-Safe none notice next h g = Keeps-answer tt
  found-Safe (some a) notice next h g = g a h

  pub latest_draft-Keeps : Keeps (IsDesk before me) (Possibly (IsDraft me)) (latest_draft me)
  unfolding latest_draft
  latest_draft-Keeps =
      Keeps-bind (all_drafts-Keeps before me) λ ds h. Keeps-attempt (latest_in-IsDraft me ds h)

  store_draft-Safe :
      (now : Instant) (d : StrategyDraft F S) → IsDraft me d → Safe (store_draft now d me)
  store_draft-Safe now d h =
      Keeps-bind (save_draft_of-Keeps before me d h) λ _ _. Keeps-attempt (Satisfies-any _)

  pub show_draft-Safe :
      (now : Instant) (d : StrategyDraft F S) (e : DraftError) → Safe (show_draft now d e)
  show_draft-Safe now d e = Keeps-attempt (Satisfies-any _)

  pub apply_name-Safe :
      (now : Instant) (name : Text) → is_nil name ≡ false → Safe (apply_name now me name)
  unfolding apply_name
  apply_name-Safe now name named = Keeps-bind latest_draft-Keeps λ v h. found-Safe v _ _ h λ d k.
      Keeps-if (state_eq d.state awaiting_name)
        (λ e. store_draft-Safe now _ (
          let (_, directed, ruled, compiled) = IsDraft-IsStep awaiting_name me d k e in
          record {
            owned = k.owned;
            chat = k.chat;
            step = (ap not named, directed, ruled, compiled);
          }))
        (λ _. show_draft-Safe now d _)

  with_direction-Safe :
      (v : Option SignalDirection) (now : Instant) (d : StrategyDraft F S)
      → IsDraft me d
      → state_eq d.state awaiting_direction ≡ true
      → Safe (with_direction v now d me)
  with_direction-Safe none now d k e = show_draft-Safe now d _
  with_direction-Safe (some direction) now d k e = store_draft-Safe now _ (
      let (named, _, ruled, compiled) = IsDraft-IsStep awaiting_direction me d k e in
      record { owned = k.owned; chat = k.chat; step = (named, refl, ruled, compiled) })

  pub apply_direction-Safe :
      (now : Instant) (id direction : Text) → Safe (apply_direction now me id direction)
  unfolding apply_direction
  apply_direction-Safe now id direction = Keeps-bind (find_draft-Keeps before me id) λ v h.
      found-Safe v _ _ h λ d k.
        Keeps-if (state_eq d.state awaiting_direction)
          (λ e. with_direction-Safe (parse_direction direction) now d k e)
          (λ _. show_draft-Safe now d _)

  -- The draft's own owner is the one who sent the rules.
  store_own-Safe :
      (now : Instant) (d e : StrategyDraft F S)
      → IsDraft me d
      → IsDraft me e
      → Safe (store_draft now e d.owner_open_id)
  store_own-Safe now d e h k =
      subst (λ o. Safe (store_draft now e o)) (sym ((text_beq_iff d.owner_open_id me).0 h.owned))
        (store_draft-Safe now e k)

  abbrev pub IsEditable : StrategyDraft F S → Type 0
  IsEditable d = (is_named d.name ≡ true) × (is_some d.direction ≡ true)

  pub store_rules-Safe :
      (now : Instant) (d : StrategyDraft F S) (rules : List (Rule F))
      → IsDraft me d
      → IsEditable d
      → is_nil rules ≡ false
      → All IsBounded rules
      → Safe (store_rules now d rules)
  unfolding store_rules
  store_rules-Safe now d rules h (named, directed) some_rule bounded =
      store_own-Safe now d _ h (record {
        owned = h.owned;
        chat = h.chat;
        step = (named, directed, rw some_rule refl, bounded);
      })

  store_compiled_rule-Safe :
      (now : Instant) (d : StrategyDraft F S) (c : CompiledStrategyRule S)
      → IsDraft me d
      → IsEditable d
      → Safe (store_compiled_rule now d c)
  unfolding store_compiled_rule
  store_compiled_rule-Safe now d c h (named, directed) =
      store_own-Safe now d _ h
        (record { owned = h.owned; chat = h.chat; step = (named, directed, refl, tt) })

  compiled_or_issue-Safe :
      (v : Option (CompiledStrategyRule S)) (r : Option (RuleCompileResult S)) (now : Instant)
      (d : StrategyDraft F S) (spec : Text)
      → IsDraft me d
      → IsEditable d
      → Safe (compiled_or_issue v r now d spec)
  compiled_or_issue-Safe none r now d spec h e = Keeps-answer tt
  compiled_or_issue-Safe (some c) r now d spec h e = store_compiled_rule-Safe now d c h e

  pub compile_or_suggest-Safe :
      (compiler : Option (Text → Result (Option (RuleCompileResult S)))) (now : Instant)
      (d : StrategyDraft F S) (spec : Text)
      → IsDraft me d
      → IsEditable d
      → Safe (compile_or_suggest compiler now d spec)
  unfolding compile_or_suggest
  compile_or_suggest-Safe compiler now d spec h e = compiled_or_issue-Safe _ _ now d spec h e

  pub editable :
      (d : StrategyDraft F S)
      → IsDraft me d
      → state_eq d.state awaiting_rules || state_eq d.state ready ≡ true
      → IsEditable d
  editable d h e = elim (Bool-cases (state_eq d.state awaiting_rules)) [
    | inl t ↦
        let (named, directed, _, _) = IsDraft-IsStep awaiting_rules me d h t in (named, directed)
    | inr t ↦
        let (named, directed, _, _) = IsDraft-IsStep ready me d h (rw t at e) in (named, directed)
  ]

  new_draft-IsDraft :
      (now : Instant) (new_id chat : Text) (name : Option Text)
      → is_nil chat ≡ false
      → (is_some name ≡ true → is_named name ≡ true)
      → IsDraft {F = F} {S = S} me (new_draft now new_id me chat name)
  new_draft-IsDraft now new_id chat none c named = record {
    owned = ==_refl me;
    chat = c;
    step = (refl, refl, refl, refl);
  }
  new_draft-IsDraft now new_id chat (some s) c named = record {
    owned = ==_refl me;
    chat = c;
    step = (named refl, refl, refl, refl);
  }

  pub create_draft-Safe :
      (now : Instant) (new_id chat : Text) (name : Option Text)
      → (is_some name ≡ true → is_named name ≡ true)
      → Safe (create_draft now new_id me chat name)
  unfolding create_draft
  create_draft-Safe now new_id chat name named =
      Keeps-if (is_nil chat) (λ _. Keeps-answer tt)
        λ some_chat.
          Keeps-bind
            (Keeps-attempt (
              strategy_draft-Satisfies (IsDraft {F = F} {S = S} me)
                (new_draft now new_id me chat name)
                (new_draft-IsDraft now new_id chat name some_chat named)))
            λ d h. store_draft-Safe now d h

  strategy_of-IsStrategy :
      (now : Instant) (new_id : Text) (d : StrategyDraft F S)
      → IsDraft me d
      → not (state_eq d.state ready) || is_nil (text_of d.name) || not (is_some d.direction) ≡ false
      → is_nil d.chat_id ≡ false
      → IsStrategy me (strategy_of now new_id me d)
  strategy_of-IsStrategy now new_id d k e chat =
      let (named, _, source, bounded) = IsDraft-IsStep ready me d k (ground arith) in
      record {
        owned = ==_refl me;
        named = ground arith;
        chat = chat;
        source = source;
        bounded = bounded;
      }

  pub save_draft-Safe :
      (now : Instant) (new_id draft_id : Text) → Safe (save_draft now new_id me draft_id)
  unfolding save_draft
  save_draft-Safe now new_id draft_id = Keeps-bind (find_draft-Keeps before me draft_id) λ v h.
      found-Safe v _ _ h λ d k.
        Keeps-if
          (not (state_eq d.state ready) || is_nil (text_of d.name) || not (is_some d.direction))
          (λ _. show_draft-Safe now d _)
          (λ e.
            Keeps-if (is_nil d.chat_id) (λ _. show_draft-Safe now d _)
              (λ chat.
                Keeps-bind
                  (Keeps-attempt (
                    strategy_config-Satisfies (IsStrategy me) (strategy_of now new_id me d)
                      (strategy_of-IsStrategy now new_id d k e chat)))
                  λ s r.
                    Keeps-bind (save_strategy-Keeps before me s r) λ _ _.
                      Keeps-bind (drop_draft-Keeps before me draft_id) λ _ _. Keeps-answer tt))
