-- ===== src/Cache/Memory.antt =====
-- cache.py: the bounded store in memory, its entries from the least to the most recently used. The
-- size of a record's JSON is an argument.
pub mod Laws
pub mod Put
use china_a_share.Prelude.{
  ℕ, zero, suc, ◌+◌, ◌-◌, Bool, true, false, ◌&&◌, ◌||◌, not, Option, none, some, Text, text,
  text_eq, Eq, ◌==◌, leb, ltb, nat_beq, List, [], ◌∷◌, ◌++◌, Result, ok, raised, value_error,
  require, ◌>>=◌, ◌>>◌, length, if◌then◌else◌,
}
use china_a_share.Prelude.Maps.{Dict, lookup, remove}

abbrev pub Entries : Type 0 → Type 0
Entries R = Dict Text (R × ℕ)

pub record MemoryStore (R : Type 0) : Type 0 where
  pub max_entries : ℕ
  pub max_bytes : ℕ
  pub entries : Entries R
  pub current_bytes : ℕ

-- A limit that is not positive raises `ValueError`; a negative one is none here.
unfoldable pub new_memory_store : {R : Type 0} → ℕ → ℕ → Result (MemoryStore R)
new_memory_store max_entries max_bytes = do
  require (not (leb max_entries 0)) value_error
  require (not (leb max_bytes 0)) value_error
  ok (record { max_entries = max_entries; max_bytes = max_bytes; entries = []; current_bytes = 0 })

abbrev pub is_over : ℕ → ℕ → ℕ → ℕ → Bool
is_over max_entries max_bytes count bytes = ltb max_entries count || ltb max_bytes bytes

module _ {R : Type 0} where
  -- `entries.move_to_end(key)`, and the record there.
  abbrev pub touch : Text → Option (R × ℕ) → MemoryStore R → MemoryStore R × Option R
  touch k none s = (s, none)
  touch k (some (r, size)) s =
      (record s { entries = remove k s.entries ++ ((k, (r, size)) ∷ []) }, some r)

  unfoldable pub get : Text → MemoryStore R → MemoryStore R × Option R
  get k s = touch k (lookup k s.entries) s

  -- The loop that evicts from the front. An empty store is over no limit.
  unfoldable pub evict : ℕ → ℕ → Entries R → ℕ → Entries R × ℕ
  evict max_entries max_bytes [] bytes = ([], bytes)
  evict max_entries max_bytes ((k, (r, size)) ∷ es) bytes =
      let rest = evict max_entries max_bytes es (bytes - size) in
      if is_over max_entries max_bytes (suc (length es)) bytes
      then rest
      else ((k, (r, size)) ∷ es, bytes)

  abbrev pub old_size : Option (R × ℕ) → ℕ
  old_size none = 0
  old_size (some (r, size)) = size

  -- The entries and bytes before the eviction.
  abbrev pub with_new : Text → R → ℕ → MemoryStore R → Entries R
  with_new k r size s = remove k s.entries ++ ((k, (r, size)) ∷ [])

  abbrev pub bytes_with_new : Text → ℕ → MemoryStore R → ℕ
  bytes_with_new k size s = s.current_bytes - old_size (lookup k s.entries) + size

  unfoldable pub put : (R → ℕ) → Text → R → MemoryStore R → MemoryStore R
  put size_of k r s =
      let size = size_of r in
      if ltb s.max_bytes size
      then s
      else let (es, bytes) =
          evict s.max_entries s.max_bytes (with_new k r size s) (bytes_with_new k size s) in
        record s { entries = es; current_bytes = bytes }
