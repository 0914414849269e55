-- ===== src/Strategies/Interaction/Saved.antt =====
-- strategy_interaction.py: a finished draft can be saved, and then is the strategy that it described.
use china_a_share.Prelude.{
  ◌≡◌, refl, inl, inr, true, false, Option, none, some, Text, text_eq, ==_refl, pair_eq, is_nil,
  leb, ok, arith, Bool-cases,
}
use china_a_share.Prelude.Maps.{lookup, insert, remove}
use china_a_share.Floats.{Float}
use china_a_share.Cache.Record.{Instant}
use china_a_share.Strategies.Models.{
  ready, buy, SignalDirection, StrategyConfig, StrategyDraft, is_some, strategy_config,
}
use china_a_share.Strategies.Store.{
  MemoryStore, validate_identifier, get_owned, put_owned, delete_owned, get_draft, put_strategy,
  delete_draft,
}
use china_a_share.Strategies.Interaction.{saved_card, state_eq, text_of, or_else}
use china_a_share.Strategies.Interaction.Editing.{save_draft, strategy_of}
use china_a_share.Strategies.Interaction.Sound.{IsDraft, is_named}
use china_a_share.Strategies.Interaction.Stepped.{IsDraft-IsStep}

pub validate_identifier-some : (s : Text) → validate_identifier s ≡ ok tt → is_nil s ≡ false
unfolding validate_identifier
validate_identifier-some s h = elim (Bool-cases (is_nil s)) [
  | inl e ↦ absurd (let h' = rw e at h in cc)
  | inr e ↦ e
]

named-some : (name : Option Text) → is_named name ≡ true → name ≡ some (text_of name)
named-some none h = absurd (cc)
named-some (some s) h = refl

directed-some :
    (direction : Option SignalDirection)
    → is_some direction ≡ true
    → direction ≡ some (or_else direction buy)
directed-some none h = absurd (cc)
directed-some (some s) h = refl

-- The strategy that a draft describes: its name, direction, rules and chat, enabled, its owner's and
-- new at the time.
pub record IsDescribed {F S : Type 0} (now : Instant) (new_id me : Text) (d : StrategyDraft F S)
    (t : StrategyConfig F S) : Type 0 where
  pub id : t.id ≡ new_id
  pub name : d.name ≡ some t.name
  pub direction : d.direction ≡ some t.direction
  pub rules : t.rules ≡ d.rules
  pub compiled_rule : t.compiled_rule ≡ d.compiled_rule
  pub creator : t.creator_open_id ≡ me
  pub enabled : t.enabled ≡ true
  pub chat : t.notification_chat_id ≡ d.chat_id
  pub created : t.created_at ≡ now
  pub updated : t.updated_at ≡ now

module _ {F S : Type 0} ⦃f : Float F⦄ (now : Instant) (new_id me draft_id : Text)
    (d : StrategyDraft F S) (s : MemoryStore F S) (aware : now.aware ≡ true)
    (valid : validate_identifier new_id ≡ ok tt) (owner : validate_identifier me ≡ ok tt)
    (draft : validate_identifier draft_id ≡ ok tt) (sound : IsDraft me d)
    (finished : state_eq d.state ready ≡ true) where
  strategy_config-ok :
      strategy_config (strategy_of now new_id me d) ≡ ok (strategy_of now new_id me d)
  unfolding strategy_config
  strategy_config-ok =
      let (named, _, source, _) = IsDraft-IsStep ready me d sound finished in
      let name : is_nil (text_of d.name) ≡ false = ground arith in
      let order : leb now.time now.time ≡ true = ground arith in
      rw
        (
          validate_identifier-some new_id valid,
          validate_identifier-some me owner,
          name,
          sound.chat,
          aware,
          order,
          source,
        )
        refl

  put_strategy-ok :
      put_strategy (strategy_of now new_id me d) me s.strategies
      ≡ ok (insert (me, new_id) (strategy_of now new_id me d) s.strategies)
  unfolding put_strategy put_owned
  put_strategy-ok = rw (valid, owner, ==_refl me) refl

  delete_draft-ok : delete_draft draft_id me s.drafts ≡ ok (remove (me, draft_id) s.drafts)
  unfolding delete_draft delete_owned
  delete_draft-ok = rw (draft, owner) refl

  get_draft-ok :
      lookup (me, draft_id) s.drafts ≡ some d → get_draft draft_id me s.drafts ≡ ok (some d)
  unfolding get_draft get_owned
  get_draft-ok h = rw (draft, owner, h) refl

  -- What it has is what the draft has.
  strategy_of-IsDescribed : IsDescribed now new_id me d (strategy_of now new_id me d)
  strategy_of-IsDescribed =
      let (named, directed, _, _) = IsDraft-IsStep ready me d sound finished in
      record {
        id = refl;
        name = named-some d.name named;
        direction = directed-some d.direction directed;
        rules = refl;
        compiled_rule = refl;
        creator = refl;
        enabled = refl;
        chat = refl;
        created = refl;
        updated = refl;
      }

  -- A draft that is found, is in its last step with what that asks for, and has valid identifiers
  -- can be saved with an aware clock: a strategy with the draft's name, direction, rules and chat,
  -- the new identifier and its owner, enabled, is stored and answered with its card, the draft is
  -- gone and nothing else has changed.
  pub save_draft_saves :
      lookup (me, draft_id) s.drafts ≡ some d
      → (t : StrategyConfig F S) × IsDescribed now new_id me d t
        × (save_draft now new_id me draft_id s ≡ (
          ok (saved_card t),
          record {
            strategies = insert (me, new_id) t s.strategies;
            drafts = remove (me, draft_id) s.drafts;
            notifications = s.notifications;
          },
        ))
  unfolding save_draft
  save_draft_saves found =
      let (named, directed, _, _) = IsDraft-IsStep ready me d sound finished in
      let name : is_nil (text_of d.name) ≡ false = ground arith in
      (
        strategy_of now new_id me d,
        strategy_of-IsDescribed,
        rw
            (
              get_draft-ok found,
              finished,
              name,
              directed,
              sound.chat,
              strategy_config-ok,
              put_strategy-ok,
              delete_draft-ok,
            )
            refl,
      )
