-- ===== src/Strategies/Store/Lists.antt =====
-- strategy_store.py: what `MemoryStrategyStore.list_strategies` lists, and in which order.
use china_a_share.Prelude.{
  ◌≡◌, sym, ap, ◌∙◌, inl, inr, Bool, true, Option, Text, text_beq, text_beq_iff, List, [], ◌∷◌,
  Elem, filter, ok, Result-cases, Bool-cases,
}
use china_a_share.Strategies.Models.{StrategyConfig}
use china_a_share.Strategies.Sorting.{
  sort_by, IsSorted, sort_by-IsSorted, sort_by-Elem, Elem-of_sort_by,
}
use china_a_share.Strategies.Store.{
  Owned, owned_by, validate_identifier, list_strategies, strategy_id_of, matches_enabled,
}
use mathlib.Core.Path.{subst}

module _ {A : Type 0} where
  Elem-filter : (p : A → Bool) (a : A) (xs : List A) → Elem a xs → p a ≡ true → Elem a (filter p xs)
  unfolding filter
  Elem-filter p a [] m h = absurd m
  Elem-filter p a (x ∷ xs) (inl e) h = let hit = ap p e ∙ h in rw hit (inl e)
  Elem-filter p a (x ∷ xs) (inr m) h = elim (Bool-cases (p x)) [
    | inl e ↦ rw e (inr (Elem-filter p a xs m h))
    | inr e ↦ rw e (Elem-filter p a xs m h)
  ]

  Elem-of_filter :
      (p : A → Bool) (a : A) (xs : List A) → Elem a (filter p xs) → Elem a xs × (p a ≡ true)
  unfolding filter
  Elem-of_filter p a [] m = absurd m
  Elem-of_filter p a (x ∷ xs) m = elim (Bool-cases (p x)) [
    | inl e ↦ elim (rw e at m) [
      | inl same ↦ (inl same, ap p (sym same) ∙ e)
      | inr later ↦ let (here, hit) = Elem-of_filter p a xs later in (inr here, hit)
    ]
    | inr e ↦ let (here, hit) = Elem-of_filter p a xs (rw e at m) in (inr here, hit)
  ]

  Elem-owned_by :
      (owner id : Text) (a : A) (d : Owned A) → Elem ((owner, id), a) d → Elem a (owned_by owner d)
  unfolding owned_by
  Elem-owned_by owner id a [] m = absurd m
  Elem-owned_by owner id a (((o, i), b) ∷ d) (inl e) =
      let mine = (text_beq_iff o owner).1 (ap (λ k. k.0.0) e) in rw mine (inl (ap (λ k. k.1) e))
  Elem-owned_by owner id a (((o, i), b) ∷ d) (inr m) = elim (Bool-cases (text_beq o owner)) [
    | inl e ↦ rw e (inr (Elem-owned_by owner id a d m))
    | inr e ↦ rw e (Elem-owned_by owner id a d m)
  ]

  Elem-of_owned_by :
      (owner : Text) (a : A) (d : Owned A)
      → Elem a (owned_by owner d)
      → (id : Text) × Elem ((owner, id), a) d
  unfolding owned_by
  Elem-of_owned_by owner a [] m = absurd m
  Elem-of_owned_by owner a (((o, i), b) ∷ d) m = elim (Bool-cases (text_beq o owner)) [
    | inr e ↦ let (id, later) = Elem-of_owned_by owner a d (rw e at m) in (id, inr later)
    | inl e ↦ elim (rw e at m) [
      | inr later ↦ let (id, there) = Elem-of_owned_by owner a d later in (id, inr there)
      | inl same ↦ let mine = (text_beq_iff o owner).0 e in (i, inl (cc))
    ]
  ]

module _ {F S : Type 0} (owner : Text) (enabled : Option Bool)
    (d : Owned (StrategyConfig F S)) where
  -- A listing that does not raise has just the owner's strategies with the wanted flag, and none
  -- with an identifier below that of one before it.
  pub list_strategies_lem :
      {out : List (StrategyConfig F S)}
      → list_strategies owner enabled d ≡ ok out
      → IsSorted strategy_id_of out
        × ((s : StrategyConfig F S) (id : Text)
            → Elem ((owner, id), s) d
            → matches_enabled enabled s ≡ true
            → Elem s out)
        × ((s : StrategyConfig F S)
            → Elem s out
            → ((id : Text) × Elem ((owner, id), s) d) × (matches_enabled enabled s ≡ true))
  unfolding list_strategies
  list_strategies_lem {out} h = elim (Result-cases (validate_identifier owner)) [
    | inr (e, f) ↦ absurd (let h' = rw f at h in cc)
    | inl (u, f) ↦
        let mine = filter (matches_enabled enabled) (owned_by owner d) in
        let same : sort_by strategy_id_of mine ≡ out = (let h' = rw f at h in cc) in
        subst
          (λ out.
            IsSorted strategy_id_of out
            × ((s : StrategyConfig F S) (id : Text)
                → Elem ((owner, id), s) d
                → matches_enabled enabled s ≡ true
                → Elem s out)
            × ((s : StrategyConfig F S)
                → Elem s out
                → ((id : Text) × Elem ((owner, id), s) d) × (matches_enabled enabled s ≡ true)))
          same
          (
            sort_by-IsSorted strategy_id_of mine,
            (λ s id m hit.
                sort_by-Elem strategy_id_of s mine
                  (Elem-filter _ s _ (Elem-owned_by owner id s d m) hit)),
            (λ s m.
                let (here, hit) =
                  Elem-of_filter (matches_enabled enabled) s _
                    (Elem-of_sort_by strategy_id_of s mine m) in
                (Elem-of_owned_by owner s d here, hit)),
          )
  ]
