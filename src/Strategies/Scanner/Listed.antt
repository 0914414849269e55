-- ===== src/Strategies/Scanner/Listed.antt =====
-- strategy_scanner.py: what a result card lists of the notifications that it is built from.
use china_a_share.Prelude.{
  ℕ, zero, suc, ◌-◌, ◌≡◌, refl, sym, ap, ◌⊎◌, inl, inr, Bool, Text, List, [], ◌∷◌, ◌++◌, map,
  length, length-map, arith, Bool-cases,
}
use china_a_share.Strategies.Models.{StrategyConfig, is_some}
use china_a_share.Strategies.Store.{Notification}
use china_a_share.Strategies.Scanner.{take, listed_codes, further_codes, result_card}
use china_a_share.Strategies.Scanner.Sending.{IsFull}

append_nil : {A : Type 0} (l : List A) → l ++ [] ≡ l
append_nil [] = refl
append_nil (a ∷ l) = ap (λ k. a ∷ k) (append_nil l)

-- What is listed of a list, and the rest of it.
take-rest :
    {A : Type 0} (f : A → Notification) (n : ℕ) (l : List A)
    → (rest : List Notification) × (map f l ≡ map f (take n l) ++ rest)
      × (length rest ≡ length l - n)
      × ((rest ≡ []) ⊎ (length (map f (take n l)) ≡ n))
unfolding take
take-rest f zero l = (map f l, refl, rw (length-map f l) (omega arith), inr refl)
take-rest f (suc n) [] = ([], refl, omega arith, inl refl)
take-rest f (suc n) (a ∷ l) =
    let (rest, whole, counted, few) = take-rest f n l in
    (
      rest,
      ap (λ k. f a ∷ k) whole,
      omega (arith, counted),
      elim few [ inl none_left ↦ inl none_left | inr many ↦ inr (ap suc many) ],
    )

module _ {F S : Type 0} (s : StrategyConfig F S) (date : Text) where
  -- Every card lists the first of its notifications and counts the rest.
  pub result_card-IsFull :
      (codes : List Text) (count : ℕ) (preview : Bool)
      → IsFull (result_card s date codes count preview).card
  unfolding listed_codes further_codes
  result_card-IsFull codes count preview = elim (Bool-cases (is_some s.compiled_rule)) [
    | inl compiled ↦ rw compiled (take-rest _ 30 codes)
    | inr ruled ↦ rw ruled ([], sym (append_nil _), refl, inl refl)
  ]
