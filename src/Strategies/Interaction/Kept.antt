-- ===== src/Strategies/Interaction/Kept.antt =====
-- strategy_interaction.py: each call of the store keeps its records sound and other owners' as they are.
use china_a_share.Prelude.{
  ◌≡◌, ◌∙◌, Bool, true, Option, Text, text_beq, text_beq_iff, text_eq, pair_eq, All,
  All-filter_of_All, Result, Satisfies, returned, failed, Satisfies-any, Satisfies-bind,
}
use china_a_share.Floats.{Float}
use china_a_share.Strategies.Models.{StrategyConfig, StrategyDraft}
use china_a_share.Strategies.Sorting.{All-sort_by}
use china_a_share.Strategies.Store.{
  Owned, MemoryStore, get_strategy, put_strategy, delete_strategy, list_strategies, get_draft,
  put_draft, delete_draft, list_drafts, strategy_id_of, matches_enabled, validate_identifier,
}
use china_a_share.Strategies.Desk.{
  set_drafts, set_strategies, find_strategy, all_strategies, save_strategy, drop_strategy,
  find_draft, all_drafts, save_draft_of, drop_draft,
}
use china_a_share.Strategies.Acts.{Keeps}
use china_a_share.Strategies.Desk.Entries.{
  All-insert, All-remove, All-owned_by, Possibly, get_owned-Satisfies, put_owned-Satisfies,
  delete_owned-Satisfies, lookup-insert_other, lookup-remove_other,
}
use china_a_share.Strategies.Interaction.Sound.{
  IsDraft, IsStrategy, IsDraftEntry, IsStrategyEntry, IsDesk,
}
use mathlib.Core.Path.{subst}

module _ {F S : Type 0} ⦃f : Float F⦄ (before : MemoryStore F S) (me : Text) where
  owner-IsDraft :
      (o : Text) (d : StrategyDraft F S) → text_beq o me ≡ true → IsDraft o d → IsDraft me d
  owner-IsDraft o d e h = subst (λ p. IsDraft p d) ((text_beq_iff o me).0 e) h

  owner-IsStrategy :
      (o : Text) (s : StrategyConfig F S) → text_beq o me ≡ true → IsStrategy o s → IsStrategy me s
  owner-IsStrategy o s e h = subst (λ p. IsStrategy p s) ((text_beq_iff o me).0 e) h

  set_drafts-keeps :
      (r : Result (Owned (StrategyDraft F S))) (s : MemoryStore F S)
      → Satisfies
          (λ d.
            IsDesk before me
              (record { strategies = s.strategies; drafts = d; notifications = s.notifications }))
          (λ _. Unit {0})
          r
      → IsDesk before me s
      → Satisfies (λ _. Unit {0}) (λ _. Unit {0}) (set_drafts r s).0
        × IsDesk before me (set_drafts r s).1
  set_drafts-keeps r s (returned p) i = (returned tt, p)
  set_drafts-keeps r s (failed p) i = (failed tt, i)

  set_strategies-keeps :
      (r : Result (Owned (StrategyConfig F S))) (s : MemoryStore F S)
      → Satisfies
          (λ d.
            IsDesk before me
              (record { strategies = d; drafts = s.drafts; notifications = s.notifications }))
          (λ _. Unit {0})
          r
      → IsDesk before me s
      → Satisfies (λ _. Unit {0}) (λ _. Unit {0}) (set_strategies r s).0
        × IsDesk before me (set_strategies r s).1
  set_strategies-keeps r s (returned p) i = (returned tt, p)
  set_strategies-keeps r s (failed p) i = (failed tt, i)

  pub find_draft-Keeps :
      (id : Text) → Keeps (IsDesk before me) (Possibly (IsDraft me)) (find_draft id me)
  unfolding get_draft
  find_draft-Keeps id = record {
    runs = λ s i.
        (get_owned-Satisfies IsDraftEntry (IsDraft me) id me s.drafts i.drafts (λ a h. h), i);
  }

  pub find_strategy-Keeps :
      (id : Text) → Keeps (IsDesk before me) (Possibly (IsStrategy me)) (find_strategy id me)
  unfolding get_strategy
  find_strategy-Keeps id = record {
    runs = λ s i. (
      get_owned-Satisfies IsStrategyEntry (IsStrategy me) id me s.strategies i.strategies
          (λ a h. h),
      i,
    );
  }

  pub all_drafts-Keeps : Keeps (IsDesk before me) (All (IsDraft me)) (all_drafts me)
  unfolding list_drafts
  all_drafts-Keeps = record {
    runs = λ s i. (
      Satisfies-bind (Satisfies-any (validate_identifier me)) λ _ _. returned (
          All-owned_by IsDraftEntry (IsDraft me) me s.drafts (λ o _ a e h. owner-IsDraft o a e h)
            i.drafts),
      i,
    );
  }

  pub all_strategies-Keeps :
      (enabled : Option Bool)
      → Keeps (IsDesk before me) (All (IsStrategy me)) (all_strategies me enabled)
  unfolding list_strategies
  all_strategies-Keeps enabled = record {
    runs = λ s i. (
      Satisfies-bind (Satisfies-any (validate_identifier me)) λ _ _. returned (
          All-sort_by strategy_id_of (IsStrategy me) _ (
            All-filter_of_All (IsStrategy me) (matches_enabled enabled) _ (
              All-owned_by IsStrategyEntry (IsStrategy me) me s.strategies
                (λ o _ a e h. owner-IsStrategy o a e h) i.strategies))),
      i,
    );
  }

  pub save_draft_of-Keeps :
      (d : StrategyDraft F S)
      → IsDraft me d
      → Keeps (IsDesk before me) (λ _. Unit {0}) (save_draft_of d me)
  unfolding put_draft
  save_draft_of-Keeps d h = record {
    runs = λ s i.
        set_drafts-keeps _ s
          (put_owned-Satisfies _ _ _ d me s.drafts (record {
            drafts = All-insert IsDraftEntry (me, d.draft_id) d s.drafts h i.drafts;
            strategies = i.strategies;
            other_drafts =
                λ o k e. lookup-insert_other o k me d.draft_id d s.drafts e ∙ i.other_drafts o k e;
            other_strategies = i.other_strategies;
            notifications = i.notifications;
          }))
          i;
  }

  pub drop_draft-Keeps : (id : Text) → Keeps (IsDesk before me) (λ _. Unit {0}) (drop_draft id me)
  unfolding delete_draft
  drop_draft-Keeps id = record {
    runs = λ s i.
        set_drafts-keeps _ s
          (delete_owned-Satisfies _ id me s.drafts (record {
            drafts = All-remove IsDraftEntry (me, id) s.drafts i.drafts;
            strategies = i.strategies;
            other_drafts = λ o k e. lookup-remove_other o k me id s.drafts e ∙ i.other_drafts o k e;
            other_strategies = i.other_strategies;
            notifications = i.notifications;
          }))
          i;
  }

  pub save_strategy-Keeps :
      (a : StrategyConfig F S)
      → IsStrategy me a
      → Keeps (IsDesk before me) (λ _. Unit {0}) (save_strategy a me)
  unfolding put_strategy
  save_strategy-Keeps a h = record {
    runs = λ s i.
        set_strategies-keeps _ s
          (put_owned-Satisfies _ _ _ a me s.strategies (record {
            drafts = i.drafts;
            strategies = All-insert IsStrategyEntry (me, a.id) a s.strategies h i.strategies;
            other_drafts = i.other_drafts;
            other_strategies = λ o k e.
                lookup-insert_other o k me a.id a s.strategies e ∙ i.other_strategies o k e;
            notifications = i.notifications;
          }))
          i;
  }

  pub drop_strategy-Keeps :
      (id : Text) → Keeps (IsDesk before me) (λ _. Unit {0}) (drop_strategy id me)
  unfolding delete_strategy
  drop_strategy-Keeps id = record {
    runs = λ s i.
        set_strategies-keeps _ s
          (delete_owned-Satisfies _ id me s.strategies (record {
            drafts = i.drafts;
            strategies = All-remove IsStrategyEntry (me, id) s.strategies i.strategies;
            other_drafts = i.other_drafts;
            other_strategies =
                λ o k e. lookup-remove_other o k me id s.strategies e ∙ i.other_strategies o k e;
            notifications = i.notifications;
          }))
          i;
  }
