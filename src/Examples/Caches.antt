-- ===== src/Examples/Caches.antt =====
-- cache.py: the theorems on the two layers, at concrete inputs.
use china_a_share.Prelude.{
  ℕ, ◌+◌, ◌≡◌, refl, ap, some, Text, text, text_eq, [], ◌∷◌, ok, raised, external_error, arith,
}
use china_a_share.Prelude.Maps.{Dict, lookup, insert, remove, lookup-insert_self}
use china_a_share.Cache.Record.{
  Frame, Pandas, DataCacheRecord, is_valid, validate_record, safe_rows, require_aware,
  is_provider_name, is_operation_name, build_data_cache_key,
}
use china_a_share.Cache.Memory.{MemoryStore, get, put, evict}
use china_a_share.Cache.Memory.Laws.{IsBounded}
use china_a_share.Cache.Memory.Put.{put-IsBounded, lookup-put}
use china_a_share.Cache.Layered.{
  PersistentStore, LayeredCache, Request, key_of, get_with_layer, put_layers, get_or_fetch,
}
use china_a_share.Cache.Layered.Laws.{IsReliable, IsStale}
use china_a_share.Cache.Layered.Query.{alone, get_or_fetch_again}
use china_a_share.Cache.Layered.Outcomes.{IsCounted, get_or_fetch-IsCounted}

abbrev Saved : Type 0
Saved = Dict Text (DataCacheRecord ℕ)

abbrev saved_records : PersistentStore ℕ Saved
saved_records = record { load = λ k d. ok (lookup k d); save = λ k r d. (insert k r d, ok tt) }

saved_records-IsReliable : IsReliable saved_records
saved_records-IsReliable k r d h = ap ok (lookup-insert_self k r d)

abbrev small_memory : MemoryStore (DataCacheRecord ℕ)
small_memory = record { max_entries = 2; max_bytes = 100; entries = []; current_bytes = 0 }

small_memory-IsBounded : IsBounded small_memory
small_memory-IsBounded = record {
  some_entries = omega arith;
  counted = refl;
  unique = tt;
  entries_le = omega arith;
  bytes_le = omega arith;
}

abbrev size_of : DataCacheRecord ℕ → ℕ
size_of r = 60

abbrev record_until : ℕ → DataCacheRecord ℕ
record_until t = record {
  provider = text "tushare";
  operation = text "daily";
  params = text "p";
  fields = [];
  fetched_at = 0;
  expires_at = t;
  columns = text "close" ∷ [];
  rows = (7 ∷ []) ∷ [];
}

put-IsBounded_example : IsBounded (put size_of (text "a") (record_until 9) small_memory)
put-IsBounded_example =
    put-IsBounded size_of (text "a") (record_until 9) small_memory small_memory-IsBounded

lookup-put_example :
    lookup (text "a") (put size_of (text "a") (record_until 9) small_memory).entries
    ≡ some (record_until 9, 60)
lookup-put_example =
    lookup-put size_of (text "a") (record_until 9) small_memory small_memory-IsBounded (omega arith)

abbrev with_a : MemoryStore (DataCacheRecord ℕ)
with_a = record {
  max_entries = 2;
  max_bytes = 200;
  entries = (text "a", (record_until 9, 60)) ∷ [];
  current_bytes = 60;
}

with_a-IsBounded : IsBounded with_a
unfolding lookup
with_a-IsBounded = record {
  some_entries = omega arith;
  counted = refl;
  unique = (refl, tt);
  entries_le = omega arith;
  bytes_le = omega arith;
}

kept_a :
    lookup (text "a") (put size_of (text "b") (record_until 9) with_a).entries
    ≡ some (record_until 9, 60)
unfolding put evict lookup remove
kept_a = refl

abbrev empty_cache : LayeredCache ℕ Saved
empty_cache = record { memory = small_memory; persistent = []; lookups = []; fetches = 0 }

empty_cache-IsStale : IsStale (text "a") 5 empty_cache
unfolding lookup
empty_cache-IsStale r n h = absurd (ground arith)

saved_now : (put_layers size_of saved_records (text "a") (record_until 9) empty_cache).1 ≡ ok tt
unfolding put_layers
saved_now = refl

-- Tables that keep every cell as it is.
abbrev plain_cells : Pandas ℕ
plain_cells = record {
  null_safe = λ c. c;
  data_frame = λ columns rows. ok (record { columns = columns; rows = rows });
}

abbrev daily_request : Request
daily_request = record {
  version = text "1";
  provider = text "tushare";
  operation = text "daily";
  params = text "p";
  fields = [];
  digest = λ p o a f. ok (text "d");
  resolve = λ o a now. some (now + 10);
}

abbrev daily_frame : Frame ℕ
daily_frame = record { columns = text "close" ∷ []; rows = (7 ∷ []) ∷ [] }

daily_key : key_of daily_request ≡ ok (text "v1/tushare/daily/d")
unfolding build_data_cache_key is_provider_name is_operation_name
daily_key = refl

first_fetch :
    (alone size_of saved_records plain_cells daily_request
      (ok daily_frame)
      0
      1
      empty_cache).0.fetches
    ≡ 1
unfolding get_or_fetch require_aware build_data_cache_key is_provider_name is_operation_name
    get_with_layer get put evict lookup is_valid put_layers safe_rows validate_record remove insert
first_fetch = refl

first_answer :
    (alone size_of saved_records plain_cells daily_request (ok daily_frame) 0 1 empty_cache).1
    ≡ ok daily_frame
unfolding get_or_fetch require_aware build_data_cache_key is_provider_name is_operation_name
    get_with_layer get put evict lookup is_valid put_layers safe_rows validate_record remove insert
first_answer = refl

get_or_fetch_again_example :
    let again =
      alone size_of saved_records plain_cells daily_request
        (raised external_error)
        4
        5
        (alone size_of saved_records plain_cells daily_request
          (ok daily_frame)
          0
          1
          empty_cache).0 in
    (again.1 ≡ plain_cells.data_frame daily_frame.columns (safe_rows (λ c. c) daily_frame.rows))
    × (again.0.fetches ≡ 1)
get_or_fetch_again_example =
    get_or_fetch_again size_of saved_records plain_cells daily_request daily_frame
      (raised external_error) 0 1 4 5 empty_cache saved_records-IsReliable small_memory-IsBounded
      daily_key refl refl (omega arith) (omega arith) first_fetch first_answer

get_or_fetch-IsCounted_example :
    IsCounted size_of saved_records plain_cells empty_cache
      (alone size_of saved_records plain_cells daily_request (ok daily_frame) 0 1 empty_cache)
get_or_fetch-IsCounted_example =
    get_or_fetch-IsCounted size_of saved_records plain_cells daily_request (ok daily_frame) 0 1
      empty_cache
