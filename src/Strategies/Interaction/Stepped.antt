-- ===== src/Strategies/Interaction/Stepped.antt =====
-- strategy_interaction.py: what a draft at a step has, and what a model that accepts gives back.
use china_a_share.Prelude.{
  ◌≡◌, refl, inl, inr, true, not, ◌&&◌, ◌||◌, Text, List, [], ◌∷◌, All, is_nil, ltb, text_eq,
  Satisfies, returned, failed, Result, value_error, Satisfies-any, Satisfies-bind,
  Satisfies-require, Bool-cases,
}
use china_a_share.Floats.{Float}
use china_a_share.Strategies.Models.{
  DraftState, awaiting_name, awaiting_direction, awaiting_rules, ready, StrategyConfig,
  StrategyDraft, is_some, check_times, strategy_config, strategy_draft,
}
use china_a_share.Strategies.Desk.Entries.{Possibly}
use china_a_share.Strategies.Interaction.{state_eq, alike, latest_of, one_found, latest_in}
use china_a_share.Strategies.Interaction.Sound.{IsStep, IsDraft, one_source}
use mathlib.Core.Path.{subst}

state_eq-true : (a b : DraftState) → state_eq a b ≡ true → a ≡ b
state_eq-true awaiting_name awaiting_name h = refl
state_eq-true awaiting_direction awaiting_direction h = refl
state_eq-true awaiting_rules awaiting_rules h = refl
state_eq-true ready ready h = refl
state_eq-true awaiting_name awaiting_direction h = absurd (cc)
state_eq-true awaiting_name awaiting_rules h = absurd (cc)
state_eq-true awaiting_name ready h = absurd (cc)
state_eq-true awaiting_direction awaiting_name h = absurd (cc)
state_eq-true awaiting_direction awaiting_rules h = absurd (cc)
state_eq-true awaiting_direction ready h = absurd (cc)
state_eq-true awaiting_rules awaiting_name h = absurd (cc)
state_eq-true awaiting_rules awaiting_direction h = absurd (cc)
state_eq-true awaiting_rules ready h = absurd (cc)
state_eq-true ready awaiting_name h = absurd (cc)
state_eq-true ready awaiting_direction h = absurd (cc)
state_eq-true ready awaiting_rules h = absurd (cc)

module _ {F S : Type 0} ⦃f : Float F⦄ where
  -- What a draft in a state has.
  pub IsDraft-IsStep :
      (state : DraftState) (me : Text) (d : StrategyDraft F S)
      → IsDraft me d
      → state_eq d.state state ≡ true
      → IsStep state d.name d.direction d.rules d.compiled_rule
  IsDraft-IsStep state me d h e =
      subst (λ s. IsStep s d.name d.direction d.rules d.compiled_rule)
        (state_eq-true d.state state e) h.step

  latest_of-IsDraft :
      (me : Text) (d : StrategyDraft F S) (ds : List (StrategyDraft F S))
      → IsDraft me d
      → All (IsDraft me) ds
      → Satisfies (IsDraft me) (λ _. Unit {0}) (latest_of d ds)
  unfolding latest_of
  latest_of-IsDraft me d [] h hs = returned h
  latest_of-IsDraft me d (e ∷ es) h (k, ks) =
      elim (Bool-cases (alike d.updated_at.aware e.updated_at.aware)) [
        | inr apart ↦ rw apart (failed tt)
        | inl same ↦ elim (Bool-cases (ltb d.updated_at.time e.updated_at.time)) [
          | inl t ↦ rw (same, t) (latest_of-IsDraft me e es k ks)
          | inr t ↦ rw (same, t) (latest_of-IsDraft me d es h ks)
        ]
      ]

  one_found-IsDraft :
      (me : Text) {r : Result (StrategyDraft F S)}
      → Satisfies (IsDraft me) (λ _. Unit {0}) r
      → Satisfies (Possibly (IsDraft me)) (λ _. Unit {0}) (one_found r)
  one_found-IsDraft me (returned h) = returned h
  one_found-IsDraft me (failed h) = failed h

  pub latest_in-IsDraft :
      (me : Text) (ds : List (StrategyDraft F S))
      → All (IsDraft me) ds
      → Satisfies (Possibly (IsDraft me)) (λ _. Unit {0}) (latest_in ds)
  latest_in-IsDraft me [] h = returned tt
  latest_in-IsDraft me (d ∷ ds) (h, hs) = one_found-IsDraft me (latest_of-IsDraft me d ds h hs)

module _ {F S : Type 0} where
  -- A model that accepts its fields gives them back.
  pub strategy_config-Satisfies :
      (P : StrategyConfig F S → Type 0) (s : StrategyConfig F S)
      → P s
      → Satisfies P (λ _. Unit {0}) (strategy_config s)
  unfolding strategy_config
  strategy_config-Satisfies P s p =
      Satisfies-require (not (is_nil s.id) && not (is_nil s.name)) value_error tt λ _.
        Satisfies-require (not (is_nil s.creator_open_id) && not (is_nil s.notification_chat_id))
          value_error tt
          λ _. Satisfies-bind (Satisfies-any (check_times s.created_at s.updated_at)) λ _ _.
            Satisfies-require (one_source s.rules s.compiled_rule) value_error tt λ _. returned p

  pub strategy_draft-Satisfies :
      (P : StrategyDraft F S → Type 0) (d : StrategyDraft F S)
      → P d
      → Satisfies P (λ _. Unit {0}) (strategy_draft d)
  unfolding strategy_draft
  strategy_draft-Satisfies P d p =
      Satisfies-require
        (not (is_nil d.draft_id) && not (is_nil d.owner_open_id) && not (is_nil d.chat_id))
        value_error tt
        λ _. Satisfies-bind (Satisfies-any (check_times d.created_at d.updated_at)) λ _ _.
          Satisfies-require (is_nil d.rules || not (is_some d.compiled_rule)) value_error tt
            λ _. returned p
