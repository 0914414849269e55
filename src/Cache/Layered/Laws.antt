-- ===== src/Cache/Layered/Laws.antt =====
-- cache.py: what a lookup through the two layers finds after a write of both.
use china_a_share.Prelude.{
  ℕ, ◌≤◌, ◌<◌, ◌≡◌, refl, ap, ◌∙◌, inl, inr, true, false, Option, none, some, Text, text_eq, Result,
  ok, raised, leb, ltb, arith, Bool-cases, Option-cases, Result-cases,
}
use china_a_share.Prelude.Maps.{lookup}
use china_a_share.Cache.Record.{DataCacheRecord, is_valid}
use china_a_share.Cache.Memory.{MemoryStore, get, put}
use china_a_share.Cache.Memory.Laws.{IsBounded}
use china_a_share.Cache.Memory.Put.{
  put-IsBounded, lookup-put, put_too_large, get-IsBounded, get-lookup,
}
use china_a_share.Cache.Layered.{
  Layer, l1, l2, PersistentStore, LayeredCache, get_with_layer, put_layers, from_persistent,
}

-- A save that returns is seen by the next load.
abbrev pub IsReliable : {C P : Type 0} → PersistentStore C P → Type 0
IsReliable {C} {P} store =
    (k : Text) (r : DataCacheRecord C) (p : P)
    → (store.save k r p).1 ≡ ok tt
    → store.load k (store.save k r p).0 ≡ ok (some r)

-- The memory has no record under the key that is valid at the instant.
abbrev pub IsStale : {C P : Type 0} → Text → ℕ → LayeredCache C P → Type 0
IsStale {C} {P} k now c =
    (r : DataCacheRecord C) (n : ℕ) → lookup k c.memory.entries ≡ some (r, n) → r.expires_at ≤ now

module _ {C P : Type 0} (size_of : DataCacheRecord C → ℕ) (store : PersistentStore C P) where
  get_found :
      (k : Text) (s : MemoryStore (DataCacheRecord C)) {r : DataCacheRecord C} {n : ℕ}
      → lookup k s.entries ≡ some (r, n)
      → (get k s).1 ≡ some r
  unfolding get
  get_found k s {r} {n} h = rw h refl

  get_absent :
      (k : Text) (s : MemoryStore (DataCacheRecord C))
      → lookup k s.entries ≡ none
      → (get k s).1 ≡ none
  unfolding get
  get_absent k s h = rw h refl

  -- The lookup in memory alone decides, where that is valid.
  pub get_with_layer_memory :
      (k : Text) (now : ℕ) (c : LayeredCache C P) {r : DataCacheRecord C} {n : ℕ}
      → lookup k c.memory.entries ≡ some (r, n)
      → now < r.expires_at
      → get_with_layer size_of store k now c
        ≡ (record c { memory = (get k c.memory).0 }, ok (some r, l1))
  unfolding get_with_layer is_valid
  get_with_layer_memory k now c {r} {n} h v =
      let valid : ltb now r.expires_at ≡ true = ground arith in
      rw (get_found k c.memory h) (rw valid refl)

  -- The other one, where that is not.
  pub get_with_layer_persistent :
      (k : Text) (now : ℕ) (c : LayeredCache C P)
      → IsStale k now c
      → get_with_layer size_of store k now c
        ≡ from_persistent size_of store k now
            (record c { memory = (get k c.memory).0 })
            (store.load k c.persistent)
  unfolding get_with_layer is_valid
  get_with_layer_persistent k now c stale = elim (Option-cases (lookup k c.memory.entries)) [
    | inl e ↦ rw (get_absent k c.memory e) refl
    | inr ((r, n), e) ↦
        let old : ltb now r.expires_at ≡ false = ground (arith, stale r n e) in
        rw (get_found k c.memory e) (rw old refl)
  ]

  -- A lookup that finds nothing leaves a memory with nothing valid.
  pub get_with_layer_misses :
      (k : Text) (now : ℕ) (c : LayeredCache C P) {l : Layer}
      → (get_with_layer size_of store k now c).1 ≡ ok (none, l)
      → IsStale k now c
  unfolding get_with_layer is_valid
  get_with_layer_misses k now c {l} h r n e = elim (Bool-cases (ltb now r.expires_at)) [
    | inr old ↦ ground arith
    | inl fresh ↦
        let found : (get k c.memory).1 ≡ some r = get_found k c.memory e in
        let h = rw found at h in let h = rw fresh at h in absurd (ground arith)
  ]

  -- With a reliable persistent store, a bounded memory and no valid record in memory under the key,
  -- a record that both layers are given and that has not expired is what a lookup then finds.
  pub put_layers_get :
      (k : Text) (r : DataCacheRecord C) (now : ℕ) (c : LayeredCache C P)
      → IsReliable store
      → IsBounded c.memory
      → IsStale k now c
      → now < r.expires_at
      → (put_layers size_of store k r c).1 ≡ ok tt
      → (l : Layer) × ((get_with_layer size_of store k now (put_layers size_of store k r c).0).1
          ≡ ok (some r, l))
  unfolding put_layers is_valid
  put_layers_get k r now c reliable b stale v h =
      elim (Result-cases (store.save k r c.persistent).1) [
        | inr (e, p) ↦ absurd (ground (arith, p, h))
        | inl (u, p) ↦
            let load = reliable k r c.persistent p in
            let after : LayeredCache C P = record c {
              persistent = (store.save k r c.persistent).0;
              memory = put size_of k r c.memory;
            } in
            rw p (elim (Bool-cases (leb (size_of r) c.memory.max_bytes)) [
              | inl fits ↦ (
                l1,
                ap (λ x. x.1)
                    (get_with_layer_memory k now after
                      (lookup-put size_of k r c.memory b (ground arith)) v),
              )
              | inr large ↦
                  let same : put size_of k r c.memory ≡ c.memory =
                    put_too_large size_of k r c.memory (ground arith) in
                  let stale_after : IsStale k now after =
                    λ r2 n e. let e2 = rw same at e in stale r2 n e2 in
                  let valid : ltb now r.expires_at ≡ true = ground arith in
                  (
                    l2,
                    ap (λ x. x.1) (get_with_layer_persistent k now after stale_after)
                        ∙ rw load (rw valid refl),
                  )
            ])
      ]

  from_persistent-IsBounded :
      (k : Text) (now : ℕ) (c : LayeredCache C P) (loaded : Result (Option (DataCacheRecord C)))
      → IsBounded c.memory
      → IsBounded (from_persistent size_of store k now c loaded).0.memory
  unfolding is_valid
  from_persistent-IsBounded k now c (raised e) b = b
  from_persistent-IsBounded k now c (ok none) b = b
  from_persistent-IsBounded k now c (ok (some r)) b = elim (Bool-cases (ltb now r.expires_at)) [
    | inl e ↦ rw e (put-IsBounded size_of k r c.memory b)
    | inr e ↦ rw e b
  ]

  pub get_with_layer-IsBounded :
      (k : Text) (now : ℕ) (c : LayeredCache C P)
      → IsBounded c.memory
      → IsBounded (get_with_layer size_of store k now c).0.memory
  unfolding get_with_layer
  get_with_layer-IsBounded k now c b = elim (Bool-cases (is_valid (get k c.memory).1 now)) [
    | inl e ↦ rw e (get-IsBounded k c.memory b)
    | inr e ↦
        rw e (
          from_persistent-IsBounded k now _ (store.load k c.persistent)
            (get-IsBounded k c.memory b))
  ]

  pub put_layers-IsBounded :
      (k : Text) (r : DataCacheRecord C) (c : LayeredCache C P)
      → IsBounded c.memory
      → IsBounded (put_layers size_of store k r c).0.memory
  unfolding put_layers
  put_layers-IsBounded k r c b = elim (Result-cases (store.save k r c.persistent).1) [
    | inl (u, e) ↦ rw e (put-IsBounded size_of k r c.memory b)
    | inr (f, e) ↦ rw e b
  ]

  -- A lookup changes neither the log nor the count of fetches.
  pub get_with_layer-counts :
      (k : Text) (now : ℕ) (c : LayeredCache C P)
      → let c' = (get_with_layer size_of store k now c).0 in
        (c'.lookups ≡ c.lookups) × (c'.fetches ≡ c.fetches) × (c'.persistent ≡ c.persistent)
  unfolding get_with_layer is_valid
  get_with_layer-counts k now c =
      ground (arith, Option-cases (get k c.memory).1, Result-cases (store.load k c.persistent))

  from_persistent_miss :
      (k : Text) (now : ℕ) (c : LayeredCache C P) (loaded : Result (Option (DataCacheRecord C)))
      {l : Layer}
      → (from_persistent size_of store k now c loaded).1 ≡ ok (none, l)
      → (from_persistent size_of store k now c loaded).0 ≡ c
  unfolding is_valid
  from_persistent_miss k now c (raised e) h = refl
  from_persistent_miss k now c (ok none) h = refl
  from_persistent_miss k now c (ok (some r)) h = elim (Bool-cases (ltb now r.expires_at)) [
    | inl e ↦ absurd (let h = rw e at h in ground arith)
    | inr e ↦ rw e refl
  ]

  pub get_with_layer_miss :
      (k : Text) (now : ℕ) (c : LayeredCache C P) {l : Layer}
      → (get_with_layer size_of store k now c).1 ≡ ok (none, l)
      → (get_with_layer size_of store k now c).0 ≡ record c { memory = (get k c.memory).0 }
  get_with_layer_miss k now c {l} h =
      let path = get_with_layer_persistent k now c (get_with_layer_misses k now c h) in
      let h = rw path at h in rw path (from_persistent_miss k now _ (store.load k c.persistent) h)

  -- A lookup that finds nothing leaves nothing valid in memory, then or later.
  pub get_with_layer_leaves-IsStale :
      (k : Text) (now later : ℕ) (c : LayeredCache C P) {l : Layer}
      → now ≤ later
      → (get_with_layer size_of store k now c).1 ≡ ok (none, l)
      → IsStale k later (get_with_layer size_of store k now c).0
  get_with_layer_leaves-IsStale k now later c {l} le h r n e =
      let same = get_with_layer_miss k now c h in
      let e = rw same at e in
      let kept = get-lookup k k c.memory in
      let e = rw kept at e in omega (arith, le, get_with_layer_misses k now c h r n e)
