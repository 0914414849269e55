-- ===== src/Strategies/Interaction/Sound.antt =====
-- strategy_interaction.py: the drafts and the strategies that the coordinator leaves in the store.
use china_a_share.Prelude.{
  ◌≡◌, Bool, true, false, not, ◌&&◌, ◌||◌, Option, none, Text, text_beq, text_eq, pair_eq, List, [],
  All, is_nil,
}
use china_a_share.Prelude.Maps.{lookup}
use china_a_share.Floats.{Float}
use china_a_share.Strategies.Models.{
  SignalDirection, DraftState, awaiting_name, awaiting_direction, awaiting_rules, ready, Rule,
  CompiledStrategyRule, StrategyConfig, StrategyDraft, is_some,
}
use china_a_share.Strategies.RuleSpec.Checked.{IsBounded}
use china_a_share.Strategies.Store.{MemoryStore}
use china_a_share.Strategies.Interaction.{text_of}

-- A strategy is judged by rules or by a compiled rule, and not by both.
abbrev pub one_source : {F S : Type 0} → List (Rule F) → Option (CompiledStrategyRule S) → Bool
one_source rules compiled =
    (is_nil rules && is_some compiled) || (not (is_nil rules) && not (is_some compiled))

abbrev pub is_named : Option Text → Bool
is_named name = not (is_nil (text_of name))

module _ {F S : Type 0} ⦃f : Float F⦄ where
  -- What a draft has at each step of its editing, and what it has not yet.
  abbrev pub IsStep :
      DraftState
      → Option Text
      → Option SignalDirection
      → List (Rule F)
      → Option (CompiledStrategyRule S)
      → Type 0
  IsStep awaiting_name name direction rules compiled =
      (name ≡ none) × (direction ≡ none) × (rules ≡ []) × (compiled ≡ none)
  IsStep awaiting_direction name direction rules compiled =
      (is_named name ≡ true) × (direction ≡ none) × (rules ≡ []) × (compiled ≡ none)
  IsStep awaiting_rules name direction rules compiled =
      (is_named name ≡ true) × (is_some direction ≡ true) × (rules ≡ []) × (compiled ≡ none)
  IsStep ready name direction rules compiled =
      (is_named name ≡ true)
      × (is_some direction ≡ true)
      × (one_source rules compiled ≡ true)
      × All IsBounded rules

  pub record IsDraft (owner : Text) (d : StrategyDraft F S) : Type 0 where
    pub owned : text_beq d.owner_open_id owner ≡ true
    pub chat : is_nil d.chat_id ≡ false
    pub step : IsStep d.state d.name d.direction d.rules d.compiled_rule

  pub record IsStrategy (owner : Text) (s : StrategyConfig F S) : Type 0 where
    pub owned : text_beq s.creator_open_id owner ≡ true
    pub named : is_nil s.name ≡ false
    pub chat : is_nil s.notification_chat_id ≡ false
    pub source : one_source s.rules s.compiled_rule ≡ true
    pub bounded : All IsBounded s.rules

  abbrev pub IsDraftEntry : (Text × Text) × StrategyDraft F S → Type 0
  IsDraftEntry ((o, i), d) = IsDraft o d

  abbrev pub IsStrategyEntry : (Text × Text) × StrategyConfig F S → Type 0
  IsStrategyEntry ((o, i), s) = IsStrategy o s

  -- Every record is sound, and what other owners have is as it was.
  pub record IsDesk (before : MemoryStore F S) (me : Text) (s : MemoryStore F S) : Type 0 where
    pub drafts : All IsDraftEntry s.drafts
    pub strategies : All IsStrategyEntry s.strategies
    pub other_drafts :
        (o i : Text) → text_beq o me ≡ false → lookup (o, i) s.drafts ≡ lookup (o, i) before.drafts
    pub other_strategies :
        (o i : Text)
        → text_beq o me ≡ false
        → lookup (o, i) s.strategies ≡ lookup (o, i) before.strategies
    pub notifications : s.notifications ≡ before.notifications
