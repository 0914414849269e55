-- ===== src/Strategies/Models/History.antt =====
-- strategy_models.py: the required history covers each rule, and no more than one of them needs.
use china_a_share.Prelude.{
  ℕ, ◌≤◌, max, ◌≡◌, refl, ◌⊎◌, inl, inr, List, [], ◌∷◌, All, Elem, ok, arith, Bool-cases, leb,
}
use china_a_share.Strategies.Models.{Rule, rule_rows, max_rows, rows_of}

module _ {F : Type 0} where
  max_rows-le :
      (n : ℕ) (rs : List (Rule F)) → (n ≤ max_rows n rs) × All (λ r. rule_rows r ≤ max_rows n rs) rs
  unfolding max_rows
  max_rows-le n [] = (omega arith, tt)
  max_rows-le n (r ∷ rs) =
      let (low, covered) = max_rows-le (max n (rule_rows r)) rs in
      (omega (arith, low), (omega (arith, low), covered))

  max_rows-attained :
      (n : ℕ) (rs : List (Rule F))
      → (max_rows n rs ≡ n) ⊎ ((r : Rule F) × Elem r rs × (max_rows n rs ≡ rule_rows r))
  unfolding max_rows
  max_rows-attained n [] = inl refl
  max_rows-attained n (r ∷ rs) = elim (max_rows-attained (max n (rule_rows r)) rs) [
    | inr (x, e, h) ↦ inr (x, inr e, h)
    | inl h ↦ elim (Bool-cases (leb (rule_rows r) n)) [
      | inl low ↦ inl (ground (arith, h))
      | inr high ↦ inr (r, inl refl, ground (arith, h))
    ]
  ]

  -- The required history of a list of rules is at least what each rule reads, and just what some
  -- rule reads.
  rows_of_bounds :
      (rs : List (Rule F)) {n : ℕ}
      → rows_of rs ≡ ok n
      → All (λ r. rule_rows r ≤ n) rs × ((r : Rule F) × Elem r rs × (n ≡ rule_rows r))
  unfolding rows_of
  rows_of_bounds [] {n} h = cc
  rows_of_bounds (r ∷ rs) {n} h =
      let same : max_rows (rule_rows r) rs ≡ n = ground arith in
      let (low, covered) = max_rows-le (rule_rows r) rs in
      let covered = rw same at covered in
      (
        (omega (arith, low, same), covered),
        elim (max_rows-attained (rule_rows r) rs) [
          | inl e ↦ (r, inl refl, ground arith)
          | inr (x, i, e) ↦ (x, inr i, ground arith)
        ],
      )
