-- ===== src/Cache/Memory/Laws.antt =====
-- cache.py: the store in memory stays within both limits, counts its bytes exactly, and has what was put.
use china_a_share.Prelude.{
  ℕ, suc, ◌+◌, ◌-◌, ◌≤◌, ◌<◌, ◌≡◌, refl, inl, inr, none, some, Text, text_eq, text_beq,
  text_beq_iff, [], ◌∷◌, ◌++◌, length, arith, Bool-cases, ==_refl,
}
use mathlib.Core.Path.{subst}
use china_a_share.Prelude.Maps.{lookup, remove, lookup-remove}
use china_a_share.Cache.Memory.{Entries, MemoryStore, is_over, evict, old_size}

module _ {R : Type 0} where
  abbrev pub total : Entries R → ℕ
  total [] = 0
  total ((k, (r, size)) ∷ es) = size + total es

  -- Every key once.
  abbrev pub IsUnique : Entries R → Type 0
  IsUnique [] = Unit
  IsUnique ((k, v) ∷ es) = (lookup k es ≡ none) × IsUnique es

  pub record IsBounded (s : MemoryStore R) : Type 0 where
    pub some_entries : 0 < s.max_entries
    pub counted : s.current_bytes ≡ total s.entries
    pub unique : IsUnique s.entries
    pub entries_le : length s.entries ≤ s.max_entries
    pub bytes_le : s.current_bytes ≤ s.max_bytes

  pub total-append : (xs ys : Entries R) → total (xs ++ ys) ≡ total xs + total ys
  total-append [] ys = omega arith
  total-append ((k, (r, size)) ∷ xs) ys = omega (arith, total-append xs ys)

  pub remove_absent : (k : Text) (es : Entries R) → lookup k es ≡ none → remove k es ≡ es
  unfolding lookup remove
  remove_absent k [] h = refl
  remove_absent k ((j, v) ∷ es) h = ground (arith, remove_absent k es)

  pub total-remove :
      (k : Text) (es : Entries R)
      → IsUnique es
      → total (remove k es) + old_size (lookup k es) ≡ total es
  unfolding lookup remove
  total-remove k [] u = refl
  total-remove k ((j, (r, size)) ∷ es) (n, u) = elim (Bool-cases (text_beq j k)) [
    | inl e ↦
        let absent : lookup k es ≡ none =
          subst (λ i. lookup i es ≡ none) ((text_beq_iff j k).0 e) n in
        rw (e, remove_absent k es absent) (omega arith)
    | inr e ↦ rw e (omega (arith, total-remove k es u))
  ]

  pub length-remove-le : (k : Text) (es : Entries R) → length (remove k es) ≤ length es
  unfolding remove
  length-remove-le k [] = omega arith
  length-remove-le k ((j, v) ∷ es) = ground (arith, length-remove-le k es)

  pub remove-IsUnique : (k : Text) (es : Entries R) → IsUnique es → IsUnique (remove k es)
  unfolding remove
  remove-IsUnique k [] u = tt
  remove-IsUnique k ((j, v) ∷ es) (n, u) = elim (Bool-cases (text_beq j k)) [
    | inl e ↦ rw e (remove-IsUnique k es u)
    | inr e ↦ rw e (rw (lookup-remove k j es) (ground (arith, n)), remove-IsUnique k es u)
  ]

  pub lookup-append :
      (k : Text) (xs ys : Entries R)
      → lookup k (xs ++ ys) ≡ (elim (lookup k xs) [ none ↦ lookup k ys | some v ↦ some v ])
  unfolding lookup
  lookup-append k [] ys = refl
  lookup-append k ((j, v) ∷ xs) ys = ground (arith, lookup-append k xs ys)

  pub IsUnique-append :
      (es : Entries R) (k : Text) (v : R × ℕ)
      → IsUnique es
      → lookup k es ≡ none
      → IsUnique (es ++ ((k, v) ∷ []))
  unfolding lookup
  IsUnique-append [] k v u h = (refl, tt)
  IsUnique-append ((j, w) ∷ es) k v (n, u) h = (
    rw (lookup-append j es ((k, v) ∷ []))
        (rw n (ground (arith, text_beq_iff j k, text_beq_iff k j, h))),
    IsUnique-append es k v u (ground arith),
  )

  -- The loop ends within both limits, with the bytes of what it leaves.
  pub evict_bounds :
      (me mb : ℕ) (es : Entries R) (bytes : ℕ)
      → bytes ≡ total es
      → let (left, b) = evict me mb es bytes in (length left ≤ me) × (b ≡ total left) × (b ≤ mb)
  unfolding evict
  evict_bounds me mb [] bytes h = ground arith
  evict_bounds me mb ((k, (r, size)) ∷ es) bytes h =
      ground (arith, evict_bounds me mb es (bytes - size))

  pub evict-IsUnique :
      (me mb : ℕ) (es : Entries R) (bytes : ℕ) → IsUnique es → IsUnique (evict me mb es bytes).0
  unfolding evict
  evict-IsUnique me mb [] bytes u = tt
  evict-IsUnique me mb ((k, (r, size)) ∷ es) bytes (n, u) =
      elim (Bool-cases (is_over me mb (suc (length es)) bytes)) [
        | inl e ↦ rw e (evict-IsUnique me mb es (bytes - size) u)
        | inr e ↦ rw e (n, u)
      ]

  -- It leaves the newest entry, if that fits alone.
  pub evict_newest :
      (me mb : ℕ) (es : Entries R) (bytes : ℕ) (k : Text) (r : R) (size : ℕ)
      → 0 < me
      → size ≤ mb
      → lookup k es ≡ none
      → bytes ≡ total es + size
      → lookup k (evict me mb (es ++ ((k, (r, size)) ∷ [])) bytes).0 ≡ some (r, size)
  unfolding evict lookup
  evict_newest me mb [] bytes k r size m b n h = ground (arith, ==_refl {A = Text} k)
  evict_newest me mb ((j, (x, w)) ∷ es) bytes k r size m b n h =
      elim (Bool-cases (is_over me mb (suc (length (es ++ ((k, (r, size)) ∷ [])))) bytes)) [
        | inl e ↦ rw e (evict_newest me mb es (bytes - w) k r size m b (ground arith) (omega arith))
        | inr e ↦
            rw e (ground (arith, lookup-append k es ((k, (r, size)) ∷ []), ==_refl {A = Text} k))
      ]

  -- What is left was there.
  pub evict-lookup :
      (me mb : ℕ) (es : Entries R) (bytes : ℕ) (k : Text) {v : R × ℕ}
      → IsUnique es
      → lookup k (evict me mb es bytes).0 ≡ some v
      → lookup k es ≡ some v
  unfolding evict lookup
  evict-lookup me mb [] bytes k u h = h
  evict-lookup me mb ((j, (x, w)) ∷ es) bytes k {v} (n, u) h =
      elim (Bool-cases (is_over me mb (suc (length es)) bytes)) [
        | inl e ↦
            let found = evict-lookup me mb es (bytes - w) k {v = v} u (rw e at h) in
            ground (arith, text_beq_iff j k)
        | inr e ↦ rw e at h
      ]
