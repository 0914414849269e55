-- ===== src/Cache/Layered/Outcomes.antt =====
-- cache.py: what a query logs and counts, whatever it finds, with no other thread at work.
use china_a_share.Prelude.{
  ℕ, suc, ◌≡◌, refl, ap, ◌∙◌, ◌⊎◌, inl, inr, true, none, some, Text, text_eq, ◌∷◌, Result, ok,
  raised, arith, Option-cases, Result-cases,
}
use china_a_share.Cache.Record.{
  Frame, Pandas, DataCacheRecord, validate_record, record_to_frame, require_aware,
}
use china_a_share.Cache.Layered.{
  Layer, no_layer, Outcome, bypass, hit, miss, PersistentStore, LayeredCache, Request,
  get_with_layer, put_layers, new_record, key_of, answer_locked, answer_first, answer_stored,
  store_valid, log_lookup, get_or_fetch, Found, fetch_provider,
}
use china_a_share.Cache.Layered.Laws.{get_with_layer-counts}
use china_a_share.Cache.Layered.Query.{alone}

module _ {C P : Type 0} (size_of : DataCacheRecord C → ℕ) (store : PersistentStore C P)
    (pandas : Pandas C) where
  abbrev pub IsHit : LayeredCache C P → LayeredCache C P → Type 0
  IsHit c c' = (l : Layer) × (c'.lookups ≡ (hit, l) ∷ c.lookups) × (c'.fetches ≡ c.fetches)

  abbrev pub IsFetched : Outcome → LayeredCache C P → LayeredCache C P → Type 0
  IsFetched o c c' = (c'.lookups ≡ (o, no_layer) ∷ c.lookups) × (c'.fetches ≡ suc c.fetches)

  -- From one state to another: an answer logged one hit and called nobody, or logged one miss or one
  -- bypass and called the provider once; an exception logged nothing and called nobody, or logged and
  -- called as a hit, a miss or a bypass does.
  abbrev pub IsCounted : LayeredCache C P → LayeredCache C P × Result (Frame C) → Type 0
  IsCounted c (c', raised x) =
      ((c'.lookups ≡ c.lookups) × (c'.fetches ≡ c.fetches))
      ⊎ (IsHit c c' ⊎ (IsFetched miss c c' ⊎ IsFetched bypass c c'))
  IsCounted c (c', ok frame) = IsHit c c' ⊎ (IsFetched miss c c' ⊎ IsFetched bypass c c')

  put_layers-counts :
      (k : Text) (r : DataCacheRecord C) (c : LayeredCache C P)
      → let c' = (put_layers size_of store k r c).0 in
        (c'.lookups ≡ c.lookups) × (c'.fetches ≡ c.fetches)
  unfolding put_layers
  put_layers-counts k r c = ground (arith, Result-cases (store.save k r c.persistent).1)

  answer_stored-IsCounted :
      (c : LayeredCache C P) (frame : Frame C) (stored : LayeredCache C P × Result (Unit {0}))
      → IsFetched miss c stored.0
      → IsCounted c (answer_stored size_of store frame stored)
  answer_stored-IsCounted c frame (c', raised x) f = inr (inr (inl f))
  answer_stored-IsCounted c frame (c', ok u) f = inr (inl f)

  store_valid-IsCounted :
      (k : Text) (frame : Frame C) (r : DataCacheRecord C) (c c' : LayeredCache C P)
      (valid : Result (Unit {0}))
      → IsFetched miss c c'
      → IsCounted c (store_valid size_of store k frame r c' valid)
  store_valid-IsCounted k frame r c c' (raised x) f = inr (inr (inl f))
  store_valid-IsCounted k frame r c c' (ok u) (n, m) =
      let (n', m') = put_layers-counts k r c' in
      answer_stored-IsCounted c frame (put_layers size_of store k r c') (n' ∙ n, m' ∙ m)

  hit-IsCounted :
      (c c' : LayeredCache C P) (answer : Result (Frame C)) → IsHit c c' → IsCounted c (c', answer)
  hit-IsCounted c c' (raised x) h = inr (inl h)
  hit-IsCounted c c' (ok frame) h = inl h

  locked-IsCounted :
      (q : Request) (fetched : Result (Frame C)) (k : Text) (t1 e : ℕ) (c : LayeredCache C P)
      (found : Found size_of store)
      → found.0.lookups ≡ c.lookups
      → found.0.fetches ≡ c.fetches
      → IsCounted c (answer_locked size_of store pandas (λ s. s) q fetched k t1 e found)
  locked-IsCounted q fetched k t1 e c (c', raised x) n m = inl (n, m)
  locked-IsCounted q fetched k t1 e c (c', ok (some r, l)) n m =
      hit-IsCounted c (log_lookup size_of store hit l c') (record_to_frame pandas r)
        (l, ap (λ x. (hit, l) ∷ x) n, m)
  locked-IsCounted q (raised x) k t1 e c (c', ok (none, l)) n m =
      inr (inr (inl (ap (λ x. (miss, no_layer) ∷ x) n, ap suc m)))
  locked-IsCounted q (ok frame) k t1 e c (c', ok (none, l)) n m =
      let r = new_record size_of store pandas q frame t1 e in
      store_valid-IsCounted k frame r c _ (validate_record r)
        (ap (λ x. (miss, no_layer) ∷ x) n, ap suc m)

  first-IsCounted :
      (q : Request) (fetched : Result (Frame C)) (k : Text) (t1 e : ℕ) (c : LayeredCache C P)
      (found : Found size_of store)
      → found.0.lookups ≡ c.lookups
      → found.0.fetches ≡ c.fetches
      → IsCounted c (
          answer_first size_of store pandas
            (λ s. s)
            (λ s. s)
            q
            fetched
            k
            e
            (record { aware = true; time = t1 })
            found)
  unfolding require_aware
  first-IsCounted q fetched k t1 e c (c', raised x) n m = inl (n, m)
  first-IsCounted q fetched k t1 e c (c', ok (some r, l)) n m =
      hit-IsCounted c (log_lookup size_of store hit l c') (record_to_frame pandas r)
        (l, ap (λ x. (hit, l) ∷ x) n, m)
  first-IsCounted q fetched k t1 e c (c', ok (none, l)) n m =
      let again = get_with_layer-counts size_of store k t1 c' in
      locked-IsCounted q fetched k t1 e c (get_with_layer size_of store k t1 c') (again.0 ∙ n)
        (again.1 ∙ m)

  bypassed-IsCounted :
      (fetched : Result (Frame C)) (c : LayeredCache C P)
      → IsCounted c
          (fetch_provider size_of store fetched (log_lookup size_of store bypass no_layer c))
  bypassed-IsCounted (raised x) c = inr (inr (inr (refl, refl)))
  bypassed-IsCounted (ok frame) c = inr (inr (refl, refl))

  -- With no other thread, a query that answers logged one hit and called no provider, or logged one
  -- miss or one bypass and called it once; one that raises did as a hit, a miss or a bypass does,
  -- or neither logged nor called.
  pub get_or_fetch-IsCounted :
      (q : Request) (fetched : Result (Frame C)) (t0 t1 : ℕ) (c : LayeredCache C P)
      → IsCounted c (alone size_of store pandas q fetched t0 t1 c)
  unfolding get_or_fetch require_aware
  get_or_fetch-IsCounted q fetched t0 t1 c =
      elim (Option-cases (q.resolve q.operation q.params t0)) [
        | inl p ↦ rw p (bypassed-IsCounted fetched c)
        | inr (e, p) ↦ elim (Result-cases (key_of q)) [
          | inr (x, no_key) ↦ rw (p, no_key) (inl (refl, refl))
          | inl (k, key) ↦
              let counts = get_with_layer-counts size_of store k t0 c in
              rw (p, key)
                (first-IsCounted q fetched k t1 e c (get_with_layer size_of store k t0 c) counts.0
                  counts.1)
        ]
      ]
