-- ===== src/Cache/Layered/Query.antt =====
-- cache.py: what a query of the cache answers, and when it calls the provider.
use china_a_share.Prelude.{
  ℕ, suc, ◌≤◌, ◌<◌, ◌≡◌, refl, ◌∙◌, inl, inr, true, Option, none, some, Text, text_eq, Result, ok,
  raised, arith, Result-cases,
}
use china_a_share.Cache.Record.{
  Frame, Pandas, DataCacheRecord, validate_record, record_to_frame, safe_rows, require_aware,
}
use china_a_share.Cache.Memory.Laws.{IsBounded}
use china_a_share.Cache.Layered.{
  Layer, no_layer, hit, miss, PersistentStore, LayeredCache, Request, get_with_layer, put_layers,
  new_record, key_of, answer_first, answer_stored, store_valid, log_lookup, count_fetch,
  get_or_fetch,
}
use china_a_share.Cache.Layered.Laws.{
  IsReliable, IsStale, get_with_layer_leaves-IsStale, get_with_layer-IsBounded,
  get_with_layer-counts, put_layers_get,
}

module _ {C P : Type 0} (size_of : DataCacheRecord C → ℕ) (store : PersistentStore C P)
    (pandas : Pandas C) where
  -- A query with no other thread at work, at instants that have a time zone.
  abbrev pub alone :
      Request → Result (Frame C) → ℕ → ℕ → LayeredCache C P → LayeredCache C P × Result (Frame C)
  alone q fetched first second =
      get_or_fetch size_of store pandas (λ c. c) (λ c. c) q fetched
        (record { aware = true; time = first }) (record { aware = true; time = second })

  abbrev pub look :
      Text → ℕ → LayeredCache C P → LayeredCache C P × Result (Option (DataCacheRecord C) × Layer)
  look = get_with_layer size_of store

  -- What a query does once its policy has an expiration and its key is built.
  pub alone_cached :
      (q : Request) (fetched : Result (Frame C)) (t0 t1 : ℕ) (c : LayeredCache C P) {k : Text}
      {e : ℕ}
      → key_of q ≡ ok k
      → q.resolve q.operation q.params t0 ≡ some e
      → alone q fetched t0 t1 c
        ≡ answer_first size_of store pandas
            (λ c. c)
            (λ c. c)
            q
            fetched
            k
            e
            (record { aware = true; time = t1 })
            (look k t0 c)
  unfolding get_or_fetch require_aware
  alone_cached q fetched t0 t1 c key policy = rw policy (rw key refl)

  pub alone_hit :
      (q : Request) (fetched : Result (Frame C)) (t0 t1 : ℕ) (c : LayeredCache C P) {k : Text}
      {e : ℕ} {r : DataCacheRecord C} {l : Layer}
      → key_of q ≡ ok k
      → q.resolve q.operation q.params t0 ≡ some e
      → (look k t0 c).1 ≡ ok (some r, l)
      → alone q fetched t0 t1 c
        ≡ (log_lookup size_of store hit l (look k t0 c).0, record_to_frame pandas r)
  alone_hit q fetched t0 t1 c {k} {e} {r} {l} key policy found =
      alone_cached q fetched t0 t1 c key policy ∙ rw found refl

  abbrev after_misses :
      Request → Text → ℕ → ℕ → ℕ → Frame C → LayeredCache C P → LayeredCache C P × Result (Frame C)
  after_misses q k t0 t1 e frame c =
      let c2 = (look k t1 (look k t0 c).0).0 in
      let r = new_record size_of store pandas q frame t1 e in
      store_valid size_of store k frame r
        (count_fetch size_of store (log_lookup size_of store miss no_layer c2)) (validate_record r)

  alone_miss :
      (q : Request) (frame : Frame C) (t0 t1 : ℕ) (c : LayeredCache C P) {k : Text} {e : ℕ}
      {l l' : Layer}
      → key_of q ≡ ok k
      → q.resolve q.operation q.params t0 ≡ some e
      → (look k t0 c).1 ≡ ok (none, l)
      → (look k t1 (look k t0 c).0).1 ≡ ok (none, l')
      → alone q (ok frame) t0 t1 c ≡ after_misses q k t0 t1 e frame c
  unfolding require_aware
  alone_miss q frame t0 t1 c {k} {e} {l} {l'} key policy m0 m1 =
      alone_cached q (ok frame) t0 t1 c key policy ∙ rw m0 (rw m1 refl)

  -- The first lookup missed, if the query called the provider once and answered.
  fetched_first :
      (q : Request) (frame : Frame C) (t0 t1 : ℕ) (c : LayeredCache C P) {k : Text} {e : ℕ}
      → key_of q ≡ ok k
      → q.resolve q.operation q.params t0 ≡ some e
      → (alone q (ok frame) t0 t1 c).0.fetches ≡ suc c.fetches
      → (l : Layer) × ((look k t0 c).1 ≡ ok (none, l))
  fetched_first q frame t0 t1 c {k} {e} key policy f =
      let path = alone_cached q (ok frame) t0 t1 c key policy in
      let f = rw path at f in
      elim (Result-cases (look k t0 c).1) [
        | inr (x, p) ↦
            absurd (let f = rw p at f in omega (arith, get_with_layer-counts size_of store k t0 c))
        | inl ((some r, l), p) ↦
            absurd (let f = rw p at f in omega (arith, get_with_layer-counts size_of store k t0 c))
        | inl ((none, l), p) ↦ (l, p)
      ]

  fetched_second :
      (q : Request) (frame : Frame C) (t0 t1 : ℕ) (c : LayeredCache C P) {k : Text} {e : ℕ}
      {l : Layer}
      → key_of q ≡ ok k
      → q.resolve q.operation q.params t0 ≡ some e
      → (look k t0 c).1 ≡ ok (none, l)
      → (alone q (ok frame) t0 t1 c).0.fetches ≡ suc c.fetches
      → (l' : Layer) × ((look k t1 (look k t0 c).0).1 ≡ ok (none, l'))
  unfolding require_aware
  fetched_second q frame t0 t1 c {k} {e} key policy m0 f =
      let path = alone_cached q (ok frame) t0 t1 c key policy in
      let f = rw path at f in
      let f = rw m0 at f in
      let n0 = get_with_layer-counts size_of store k t0 c in
      let n1 = get_with_layer-counts size_of store k t1 (look k t0 c).0 in
      elim (Result-cases (look k t1 (look k t0 c).0).1) [
        | inr (x, p) ↦ absurd (let f = rw p at f in omega (arith, n0, n1))
        | inl ((some r, l), p) ↦ absurd (let f = rw p at f in omega (arith, n0, n1))
        | inl ((none, l), p) ↦ (l, p)
      ]

  answer_stored_ok :
      (frame : Frame C) (stored : LayeredCache C P × Result (Unit {0}))
      → (answer_stored size_of store frame stored).1 ≡ ok frame
      → (answer_stored size_of store frame stored ≡ (stored.0, ok frame)) × (stored.1 ≡ ok tt)
  answer_stored_ok frame (c, raised x) h = absurd (ground arith)
  answer_stored_ok frame (c, ok u) h = (refl, refl)

  store_valid_ok :
      (k : Text) (frame : Frame C) (r : DataCacheRecord C) (c : LayeredCache C P)
      (valid : Result (Unit {0}))
      → (store_valid size_of store k frame r c valid).1 ≡ ok frame
      → (store_valid size_of store k frame r c valid
          ≡ ((put_layers size_of store k r c).0, ok frame))
        × ((put_layers size_of store k r c).1 ≡ ok tt)
  store_valid_ok k frame r c (raised x) h = absurd (ground arith)
  store_valid_ok k frame r c (ok u) h = answer_stored_ok frame (put_layers size_of store k r c) h

  -- With a reliable persistent store, a bounded memory and no other thread: after a query that
  -- called the provider once and answered, a later query of the same key before the expiration,
  -- whose policy has an expiration too, gives what pandas builds of the provider's columns and
  -- null-safe rows and calls the provider no more.
  pub get_or_fetch_again :
      (q : Request) (frame : Frame C) (later : Result (Frame C)) (t0 t1 t2 t3 : ℕ)
      (c : LayeredCache C P) {k : Text} {e e' : ℕ}
      → IsReliable store
      → IsBounded c.memory
      → key_of q ≡ ok k
      → q.resolve q.operation q.params t0 ≡ some e
      → q.resolve q.operation q.params t2 ≡ some e'
      → t1 ≤ t2
      → t2 < e
      → (alone q (ok frame) t0 t1 c).0.fetches ≡ suc c.fetches
      → (alone q (ok frame) t0 t1 c).1 ≡ ok frame
      → let again = alone q later t2 t3 (alone q (ok frame) t0 t1 c).0 in
        (again.1 ≡ pandas.data_frame frame.columns (safe_rows pandas.null_safe frame.rows))
        × (again.0.fetches ≡ suc c.fetches)
  unfolding record_to_frame
  get_or_fetch_again q frame later t0 t1 t2 t3 c {k} {e} {e'} reliable b key policy policy' le v f
        answered =
      let (first, m0) = fetched_first q frame t0 t1 c key policy f in
      let (second, m1) = fetched_second q frame t0 t1 c key policy m0 f in
      let path = alone_miss q frame t0 t1 c key policy m0 m1 in
      let r = new_record size_of store pandas q frame t1 e in
      let c1 = (look k t0 c).0 in
      let c3 =
        count_fetch size_of store (log_lookup size_of store miss no_layer (look k t1 c1).0) in
      let answered = rw path at answered in
      let (same, saved) = store_valid_ok k frame r c3 (validate_record r) answered in
      let stale : IsStale k t2 c3 = get_with_layer_leaves-IsStale size_of store k t1 t2 c1 le m1 in
      let bounded : IsBounded c3.memory =
        get_with_layer-IsBounded size_of store k t1 c1
          (get_with_layer-IsBounded size_of store k t0 c b) in
      let (l, found) = put_layers_get size_of store k r t2 c3 reliable bounded stale v saved in
      let stored : alone q (ok frame) t0 t1 c ≡ ((put_layers size_of store k r c3).0, ok frame) =
        path ∙ same in
      let counts = get_with_layer-counts size_of store k t2 (put_layers size_of store k r c3).0 in
      let f = rw stored at f in
      rw stored (
        rw (alone_hit q later t2 t3 (put_layers size_of store k r c3).0 key policy' found)
          (refl, omega (arith, counts, f)))
