-- ===== src/Cache/Memory/Put.antt =====
-- cache.py: what `put` and `get` of the store in memory do to its limits and to its records.
use china_a_share.Prelude.{
  ℕ, suc, ◌+◌, ◌≤◌, ◌<◌, ◌≡◌, ◌≢◌, refl, inl, inr, false, Option, none, some, Text, text_eq,
  text_beq, text_beq_iff, ltb, [], ◌∷◌, ◌++◌, length, length-append, arith, Bool-cases,
  Option-cases,
}
use china_a_share.Prelude.Maps.{lookup, remove, lookup-remove, lookup-remove_self}
use china_a_share.Cache.Memory.{Entries, MemoryStore, touch, get, with_new, bytes_with_new, put}
use china_a_share.Cache.Memory.Laws.{
  total, IsUnique, IsBounded, total-append, total-remove, length-remove-le, remove-IsUnique,
  lookup-append, IsUnique-append, evict_bounds, evict-IsUnique, evict_newest, evict-lookup,
}

module _ {R : Type 0} where
  total_new :
      (k : Text) (r : R) (size : ℕ) (s : MemoryStore R)
      → s.current_bytes ≡ total s.entries
      → IsUnique s.entries
      → bytes_with_new k size s ≡ total (remove k s.entries) + size
  total_new k r size s c u = omega (arith, total-remove k s.entries u)

  total-with_new :
      (k : Text) (r : R) (size : ℕ) (s : MemoryStore R)
      → s.current_bytes ≡ total s.entries
      → IsUnique s.entries
      → bytes_with_new k size s ≡ total (with_new k r size s)
  total-with_new k r size s c u =
      omega
        (arith, total_new k r size s c u, total-append (remove k s.entries) ((k, (r, size)) ∷ []))

  with_new-IsUnique :
      (k : Text) (r : R) (size : ℕ) (s : MemoryStore R)
      → IsUnique s.entries
      → IsUnique (with_new k r size s)
  with_new-IsUnique k r size s u =
      IsUnique-append (remove k s.entries) k (r, size) (remove-IsUnique k s.entries u)
        (lookup-remove_self k s.entries)

  -- A put keeps the store in memory bounded: within both its limits, its bytes counted exactly,
  -- each key once.
  pub put-IsBounded :
      (size_of : R → ℕ) (k : Text) (r : R) (s : MemoryStore R)
      → IsBounded s
      → IsBounded (put size_of k r s)
  unfolding put
  put-IsBounded size_of k r s b = elim (Bool-cases (ltb s.max_bytes (size_of r))) [
    | inl e ↦ rw e b
    | inr e ↦
        let es = with_new k r (size_of r) s in
        let n = bytes_with_new k (size_of r) s in
        let (le, c, m) =
          evict_bounds s.max_entries s.max_bytes es n
            (total-with_new k r (size_of r) s b.counted b.unique) in
        rw e (record {
          some_entries = b.some_entries;
          counted = c;
          unique =
              evict-IsUnique s.max_entries s.max_bytes es n
                (with_new-IsUnique k r (size_of r) s b.unique);
          entries_le = le;
          bytes_le = m;
        })
  ]

  -- After a put into a bounded store of a record that fits its bytes, the key has that record with
  -- its size.
  pub lookup-put :
      (size_of : R → ℕ) (k : Text) (r : R) (s : MemoryStore R)
      → IsBounded s
      → size_of r ≤ s.max_bytes
      → lookup k (put size_of k r s).entries ≡ some (r, size_of r)
  unfolding put
  lookup-put size_of k r s b h =
      let fits : ltb s.max_bytes (size_of r) ≡ false = ground arith in
      rw fits (
        evict_newest s.max_entries s.max_bytes (remove k s.entries) (bytes_with_new k (size_of r) s)
          k r (size_of r) b.some_entries h (lookup-remove_self k s.entries)
          (total_new k r (size_of r) s b.counted b.unique))

  -- What a bounded store has under another key after a put, it had before it.
  pub put-lookup_other :
      (size_of : R → ℕ) (k j : Text) (r : R) (s : MemoryStore R) {v : R × ℕ}
      → IsBounded s
      → k ≢ j
      → lookup j (put size_of k r s).entries ≡ some v
      → lookup j s.entries ≡ some v
  unfolding put lookup
  put-lookup_other size_of k j r s {v} b ne h = elim (Bool-cases (ltb s.max_bytes (size_of r))) [
    | inl e ↦ rw e at h
    | inr e ↦
        let found =
          evict-lookup s.max_entries s.max_bytes (with_new k r (size_of r) s)
            (bytes_with_new k (size_of r) s) j {v = v}
            (with_new-IsUnique k r (size_of r) s b.unique) (rw e at h) in
        ground (
          arith,
          lookup-append j (remove k s.entries) ((k, (r, size_of r)) ∷ []),
          lookup-remove k j s.entries,
          text_beq_iff k j,
        )
  ]

  pub put_too_large :
      (size_of : R → ℕ) (k : Text) (r : R) (s : MemoryStore R)
      → s.max_bytes < size_of r
      → put size_of k r s ≡ s
  unfolding put
  put_too_large size_of k r s h = ground arith

  length-remove_found :
      (k : Text) (es : Entries R) {v : R × ℕ}
      → lookup k es ≡ some v
      → suc (length (remove k es)) ≤ length es
  unfolding lookup remove
  length-remove_found k [] h = ground arith
  length-remove_found k ((j, w) ∷ es) {v} h = elim (Bool-cases (text_beq j k)) [
    | inl e ↦ rw e (omega (arith, length-remove-le k es))
    | inr e ↦ rw e (omega (arith, length-remove_found k es {v = v} (rw e at h)))
  ]

  touch-IsBounded :
      (k : Text) (s : MemoryStore R) {v : Option (R × ℕ)}
      → IsBounded s
      → lookup k s.entries ≡ v
      → IsBounded (touch k v s).0
  touch-IsBounded k s {v = none} b h = b
  touch-IsBounded k s {v = some (r, size)} b h =
      let sum = total-remove k s.entries b.unique in
      let sum = rw h at sum in
      record {
        some_entries = b.some_entries;
        counted =
            omega (arith, b.counted, sum, total-append (remove k s.entries) ((k, (r, size)) ∷ []));
        unique = with_new-IsUnique k r size s b.unique;
        entries_le =
            rw length-append
              (omega (arith, b.entries_le, length-remove_found k s.entries {v = (r, size)} h));
        bytes_le = b.bytes_le;
      }

  pub get-IsBounded : (k : Text) (s : MemoryStore R) → IsBounded s → IsBounded (get k s).0
  unfolding get
  get-IsBounded k s b = touch-IsBounded k s b refl

  lookup_touched :
      (k j : Text) (s : MemoryStore R) {v : R × ℕ}
      → lookup k s.entries ≡ some v
      → lookup j (remove k s.entries ++ ((k, v) ∷ [])) ≡ lookup j s.entries
  unfolding lookup
  lookup_touched k j s {v} h = elim (Bool-cases (text_beq k j)) [
    | inl e ↦
        let same = (text_beq_iff k j).0 e in
        ground
          (arith, lookup-append j (remove k s.entries) ((k, v) ∷ []), lookup-remove k j s.entries)
    | inr e ↦ ground (
      arith,
      lookup-append j (remove k s.entries) ((k, v) ∷ []),
      lookup-remove k j s.entries,
      Option-cases (lookup j s.entries),
    )
  ]

  pub get-lookup :
      (k j : Text) (s : MemoryStore R) → lookup j (get k s).0.entries ≡ lookup j s.entries
  unfolding get
  get-lookup k j s = elim (Option-cases (lookup k s.entries)) [
    | inl e ↦ rw e refl
    | inr ((r, size), e) ↦ rw e (lookup_touched k j s e)
  ]
