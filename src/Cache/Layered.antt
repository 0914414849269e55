-- ===== src/Cache/Layered.antt =====
-- cache.py: the cache of two layers, the one in memory before a persistent one, and the query that
-- fetches from a provider on a miss. The persistent store, the policy of expiration and the provider
-- are arguments, as is what other threads do while a query waits for its lock or its provider.
pub mod Laws
pub mod Query
pub mod Outcomes
use china_a_share.Prelude.{
  ℕ, suc, Bool, true, false, Option, none, some, Text, List, [], ◌∷◌, Result, ok, raised,
  if◌then◌else◌,
}
use china_a_share.Cache.Record.{
  Instant, Frame, Pandas, DataCacheRecord, is_valid, validate_record, record_to_frame, safe_rows,
  require_aware, build_data_cache_key,
}
use china_a_share.Cache.Memory.{MemoryStore, get, put}

pub data Layer : Type 0 where
  l1 l2 no_layer : Layer

pub data Outcome : Type 0 where
  bypass hit miss : Outcome

-- A persistent store of states `P`: either of its calls may raise.
pub record PersistentStore (C P : Type 0) : Type 0 where
  pub load : Text → P → Result (Option (DataCacheRecord C))
  pub save : Text → DataCacheRecord C → P → P × Result (Unit {0})

-- The two layers, with the lookups logged, the newest first, and the number of calls of a provider.
pub record LayeredCache (C P : Type 0) : Type 0 where
  pub memory : MemoryStore (DataCacheRecord C)
  pub persistent : P
  pub lookups : List (Outcome × Layer)
  pub fetches : ℕ

-- What a query asks: `digest` and `version` are of its key, `resolve` is the policy's.
pub record Request : Type 0 where
  pub version : Text
  pub provider : Text
  pub operation : Text
  pub params : Text
  pub fields : List Text
  pub digest : Text → Text → Text → List Text → Result Text
  pub resolve : Text → Text → ℕ → Option ℕ

abbrev pub key_of : Request → Result Text
key_of q = build_data_cache_key q.digest q.version q.provider q.operation q.params q.fields

module _ {C P : Type 0} (size_of : DataCacheRecord C → ℕ) (store : PersistentStore C P) where
  abbrev pub Found : Type 0
  Found = LayeredCache C P × Result (Option (DataCacheRecord C) × Layer)

  abbrev pub from_persistent :
      Text → ℕ → LayeredCache C P → Result (Option (DataCacheRecord C)) → Found
  from_persistent k now c (raised e) = (c, raised e)
  from_persistent k now c (ok none) = (c, ok (none, no_layer))
  from_persistent k now c (ok (some r)) =
      if is_valid (some r) now
      then (record c { memory = put size_of k r c.memory }, ok (some r, l2))
      else (c, ok (none, no_layer))

  abbrev pub from_memory : Text → ℕ → LayeredCache C P → Option (DataCacheRecord C) → Found
  from_memory k now c found =
      if is_valid found now
      then (c, ok (found, l1))
      else from_persistent k now c (store.load k c.persistent)

  -- `_get_with_layer`, at an instant that has a time zone.
  unfoldable pub get_with_layer : Text → ℕ → LayeredCache C P → Found
  get_with_layer k now c =
      let (memory, found) = get k c.memory in from_memory k now (record c { memory = memory }) found

  abbrev pub published :
      Text
      → DataCacheRecord C
      → LayeredCache C P
      → Result (Unit {0})
      → LayeredCache C P × Result (Unit {0})
  published k r c (raised e) = (c, raised e)
  published k r c (ok u) = (record c { memory = put size_of k r c.memory }, ok tt)

  -- `put`: the persistent layer before the one in memory.
  unfoldable pub put_layers :
      Text → DataCacheRecord C → LayeredCache C P → LayeredCache C P × Result (Unit {0})
  put_layers k r c =
      let (persistent, saved) = store.save k r c.persistent in
      published k r (record c { persistent = persistent }) saved

  abbrev pub log_lookup : Outcome → Layer → LayeredCache C P → LayeredCache C P
  log_lookup o l c = record c { lookups = (o, l) ∷ c.lookups }

  abbrev pub count_fetch : LayeredCache C P → LayeredCache C P
  count_fetch c = record c { fetches = suc c.fetches }

  abbrev pub Answer : Type 0
  Answer = LayeredCache C P × Result (Frame C)

  -- `_fetch_provider`
  abbrev pub fetch_provider : Result (Frame C) → LayeredCache C P → Answer
  fetch_provider fetched c = (count_fetch c, fetched)

  abbrev pub new_record : Pandas C → Request → Frame C → ℕ → ℕ → DataCacheRecord C
  new_record pandas q frame now expires_at = record {
    provider = q.provider;
    operation = q.operation;
    params = q.params;
    fields = q.fields;
    fetched_at = now;
    expires_at = expires_at;
    columns = frame.columns;
    rows = safe_rows pandas.null_safe frame.rows;
  }

  abbrev pub answer_stored : Frame C → LayeredCache C P × Result (Unit {0}) → Answer
  answer_stored frame (c, raised e) = (c, raised e)
  answer_stored frame (c, ok u) = (c, ok frame)

  -- A record that the model refuses is not stored.
  abbrev pub store_valid :
      Text → Frame C → DataCacheRecord C → LayeredCache C P → Result (Unit {0}) → Answer
  store_valid k frame r c (raised e) = (c, raised e)
  store_valid k frame r c (ok u) = answer_stored frame (put_layers k r c)

  abbrev pub store_fetched :
      Pandas C → Request → Text → ℕ → ℕ → LayeredCache C P × Result (Frame C) → Answer
  store_fetched pandas q k now expires_at (c, raised e) = (c, raised e)
  store_fetched pandas q k now expires_at (c, ok frame) =
      let r = new_record pandas q frame now expires_at in
      store_valid k frame r c (validate_record r)

  -- The lookup after the lock is taken, and the fetch where that misses too.
  abbrev pub answer_locked :
      Pandas C
      → (LayeredCache C P → LayeredCache C P)
      → Request
      → Result (Frame C)
      → Text
      → ℕ
      → ℕ
      → Found
      → Answer
  answer_locked pandas during q fetched k now expires_at (c, raised e) = (c, raised e)
  answer_locked pandas during q fetched k now expires_at (c, ok (some r, l)) =
      (log_lookup hit l c, record_to_frame pandas r)
  answer_locked pandas during q fetched k now expires_at (c, ok (none, l)) =
      store_fetched pandas q k now expires_at
        (fetch_provider fetched (during (log_lookup miss no_layer c)))

  abbrev pub locked :
      Pandas C
      → (LayeredCache C P → LayeredCache C P)
      → Request
      → Result (Frame C)
      → Text
      → ℕ
      → LayeredCache C P
      → Result ℕ
      → Answer
  locked pandas during q fetched k expires_at c (raised e) = (c, raised e)
  locked pandas during q fetched k expires_at c (ok now) =
      answer_locked pandas during q fetched k now expires_at (get_with_layer k now c)

  abbrev pub answer_first :
      Pandas C
      → (waiting during : LayeredCache C P → LayeredCache C P) → Request
      → Result (Frame C)
      → Text
      → ℕ
      → Instant
      → Found
      → Answer
  answer_first pandas waiting during q fetched k expires_at second (c, raised e) = (c, raised e)
  answer_first pandas waiting during q fetched k expires_at second (c, ok (some r, l)) =
      (log_lookup hit l c, record_to_frame pandas r)
  answer_first pandas waiting during q fetched k expires_at second (c, ok (none, l)) =
      locked pandas during q fetched k expires_at (waiting c) (require_aware second)

  abbrev pub cached :
      Pandas C
      → (waiting during : LayeredCache C P → LayeredCache C P) → Request
      → Result (Frame C)
      → ℕ
      → ℕ
      → Instant
      → LayeredCache C P
      → Result Text
      → Answer
  cached pandas waiting during q fetched now expires_at second c (raised e) = (c, raised e)
  cached pandas waiting during q fetched now expires_at second c (ok k) =
      answer_first pandas waiting during q fetched k expires_at second (get_with_layer k now c)

  abbrev pub resolved :
      Pandas C
      → (waiting during : LayeredCache C P → LayeredCache C P) → Request
      → Result (Frame C)
      → ℕ
      → Instant
      → LayeredCache C P
      → Option ℕ
      → Answer
  resolved pandas waiting during q fetched now second c none =
      fetch_provider fetched (during (log_lookup bypass no_layer c))
  resolved pandas waiting during q fetched now second c (some expires_at) =
      cached pandas waiting during q fetched now expires_at second c (key_of q)

  abbrev pub at_instant :
      Pandas C
      → (waiting during : LayeredCache C P → LayeredCache C P) → Request
      → Result (Frame C)
      → Instant
      → LayeredCache C P
      → Result ℕ
      → Answer
  at_instant pandas waiting during q fetched second c (raised e) = (c, raised e)
  at_instant pandas waiting during q fetched second c (ok now) =
      resolved pandas waiting during q fetched now second c (q.resolve q.operation q.params now)

  -- `get_or_fetch`: the clock is read first and, after the lock is taken, a second time.
  unfoldable pub get_or_fetch :
      Pandas C
      → (waiting during : LayeredCache C P → LayeredCache C P) → Request
      → Result (Frame C)
      → (first second : Instant) → LayeredCache C P
      → Answer
  get_or_fetch pandas waiting during q fetched first second c =
      at_instant pandas waiting during q fetched second c (require_aware first)
