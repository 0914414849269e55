-- ===== src/Strategies/Scanner/Skipped.antt =====
-- strategy_scanner.py: what a strategy that fails changes for the others.
use china_a_share.Prelude.{
  ◌≡◌, refl, sym, ap, ◌∙◌, inl, inr, Bool, Text, List, [], ◌∷◌, ◌++◌, Elem, Fault, Result, ok,
  raised, runtime_error,
}
use china_a_share.Strategies.Models.{StrategyConfig}
use china_a_share.Strategies.Store.{notification_eq}
use china_a_share.Strategies.Scanner.{
  World, Chat, run_strategy, note_failure, collect_failures, failed_or_done, run_strategies,
}

module _ {F S : Type 0} (chat : Chat) (matches : StrategyConfig F S → Result (List Text))
    (date : Text) where
  note_failure-world :
      (id : Text) (r : Result (Unit {0}) × World) (k l : World → List Text × World)
      → ((w : World) → (k w).1 ≡ (l w).1)
      → (note_failure id r k).1 ≡ (note_failure id r l).1
  note_failure-world id (ok u, w) k l h = h w
  note_failure-world id (raised e, w) k l h = h w

  note_failure-Elem :
      (id : Text) (r : Result (Unit {0}) × World) (rest : World → List Text × World) (i : Text)
      → ((w : World) → Elem i (rest w).0)
      → Elem i (note_failure id r rest).0
  note_failure-Elem id (ok u, w) rest i h = h w
  note_failure-Elem id (raised e, w) rest i h = inr (h w)

  collect_failures_skip :
      (ss ts : List (StrategyConfig F S)) (preview : Bool) (s : StrategyConfig F S) (f : Fault)
      (w : World)
      → matches s ≡ raised f
      → (collect_failures chat matches date preview (ss ++ s ∷ ts) w).1
        ≡ (collect_failures chat matches date preview (ss ++ ts) w).1
  unfolding collect_failures run_strategy
  collect_failures_skip [] ts preview s f w e = rw e refl
  collect_failures_skip (t ∷ ss) ts preview s f w e =
      note_failure-world t.id _ _ _ (λ v. collect_failures_skip ss ts preview s f v e)

  collect_failures-Elem :
      (ss ts : List (StrategyConfig F S)) (preview : Bool) (s : StrategyConfig F S) (f : Fault)
      (w : World)
      → matches s ≡ raised f
      → Elem s.id (collect_failures chat matches date preview (ss ++ s ∷ ts) w).0
  unfolding collect_failures run_strategy
  collect_failures-Elem [] ts preview s f w e = rw e (inl refl)
  collect_failures-Elem (t ∷ ss) ts preview s f w e =
      note_failure-Elem t.id _ _ s.id (λ v. collect_failures-Elem ss ts preview s f v e)

  failed_or_done-raised :
      (r : List Text × World) (i : Text)
      → Elem i r.0
      → failed_or_done r ≡ (raised runtime_error, r.1)
  failed_or_done-raised ([], w) i m = absurd m
  failed_or_done-raised (id ∷ ids, w) i m = refl

  failed_or_done-world : (r : List Text × World) → (failed_or_done r).1 ≡ r.1
  failed_or_done-world ([], w) = refl
  failed_or_done-world (id ∷ ids, w) = refl

  -- A strategy whose evaluation raises makes the run raise, and leaves the markers and the cards
  -- just as the run of the other strategies alone leaves them.
  pub run_strategies_skip :
      (ss ts : List (StrategyConfig F S)) (preview : Bool) (s : StrategyConfig F S) (f : Fault)
      (w : World)
      → matches s ≡ raised f
      → run_strategies chat matches date preview (ss ++ s ∷ ts) w
        ≡ (raised runtime_error, (run_strategies chat matches date preview (ss ++ ts) w).1)
  unfolding run_strategies
  run_strategies_skip ss ts preview s f w e =
      let all = collect_failures chat matches date preview (ss ++ s ∷ ts) w in
      failed_or_done-raised all s.id (collect_failures-Elem ss ts preview s f w e)
      ∙ ap (λ v. (raised runtime_error, v))
          (collect_failures_skip ss ts preview s f w e
            ∙ sym (failed_or_done-world (collect_failures chat matches date preview (ss ++ ts) w)))
