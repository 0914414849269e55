-- ===== src/Strategies/Desk.antt =====
-- strategy_interaction.py: the calls of the coordinator on its store, which is `MemoryStrategyStore`.
pub mod Entries
use china_a_share.Prelude.{
  ◌≡◌, refl, Bool, true, false, Option, none, some, List, Text, Fault, Result, ok, raised,
  Satisfies, returned, failed,
}
use china_a_share.Strategies.Acts.{Action, reading}
use china_a_share.Strategies.Models.{StrategyConfig, StrategyDraft}
use china_a_share.Strategies.Store.{
  Owned, Notification, MemoryStore, get_strategy, put_strategy, delete_strategy, list_strategies,
  get_draft, put_draft, delete_draft, list_drafts,
}

abbrev pub Act : (F S A : Type 0) → Type 0
Act F S A = Action (MemoryStore F S) A

module _ {F S : Type 0} where
  abbrev pub set_strategies : Result (Owned (StrategyConfig F S)) → Act F S (Unit {0})
  set_strategies (ok d) s =
      (ok tt, record { strategies = d; drafts = s.drafts; notifications = s.notifications })
  set_strategies (raised e) s = (raised e, s)

  abbrev pub set_drafts : Result (Owned (StrategyDraft F S)) → Act F S (Unit {0})
  set_drafts (ok d) s =
      (ok tt, record { strategies = s.strategies; drafts = d; notifications = s.notifications })
  set_drafts (raised e) s = (raised e, s)

  abbrev pub find_strategy : Text → Text → Act F S (Option (StrategyConfig F S))
  find_strategy id owner = reading λ s. get_strategy id owner s.strategies

  abbrev pub all_strategies : Text → Option Bool → Act F S (List (StrategyConfig F S))
  all_strategies owner enabled = reading λ s. list_strategies owner enabled s.strategies

  abbrev pub save_strategy : StrategyConfig F S → Text → Act F S (Unit {0})
  save_strategy a owner s = set_strategies (put_strategy a owner s.strategies) s

  abbrev pub drop_strategy : Text → Text → Act F S (Unit {0})
  drop_strategy id owner s = set_strategies (delete_strategy id owner s.strategies) s

  abbrev pub find_draft : Text → Text → Act F S (Option (StrategyDraft F S))
  find_draft id owner = reading λ s. get_draft id owner s.drafts

  abbrev pub all_drafts : Text → Act F S (List (StrategyDraft F S))
  all_drafts owner = reading λ s. list_drafts owner s.drafts

  abbrev pub save_draft_of : StrategyDraft F S → Text → Act F S (Unit {0})
  save_draft_of d owner s = set_drafts (put_draft d owner s.drafts) s

  abbrev pub drop_draft : Text → Text → Act F S (Unit {0})
  drop_draft id owner s = set_drafts (delete_draft id owner s.drafts) s
