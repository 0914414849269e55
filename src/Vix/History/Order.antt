-- ===== src/Vix/History/Order.antt =====
-- The order of dates is the order of their ISO forms, so that the greatest key is the latest date.
use china_a_share.Prelude.{
  ℕ, ◌/◌, ◌%◌, ◌≡◌, refl, false, ◌&&◌, ◌||◌, Text, text_lt, ltb, nat_beq, [], ◌∷◌, arith,
}
use china_a_share.Dates.{Date, date_lt}
use china_a_share.Dates.Print.{isoformat, digit}

-- Two digits in front of two rests compare as their numbers.
two_digits-text_lt :
    (a b : ℕ) (s t : Text)
    → text_lt (digit (a / 10) ∷ digit (a % 10) ∷ s) (digit (b / 10) ∷ digit (b % 10) ∷ t)
      ≡ (ltb a b || (nat_beq a b && text_lt s t))
unfolding text_lt
two_digits-text_lt a b s t = ground arith

-- Four digits, likewise.
four_digits-text_lt :
    (a b : ℕ) (s t : Text)
    → text_lt
        (digit (a / 1000) ∷ digit (a / 100 % 10) ∷ digit (a / 10 % 10) ∷ digit (a % 10) ∷ s)
        (digit (b / 1000) ∷ digit (b / 100 % 10) ∷ digit (b / 10 % 10) ∷ digit (b % 10) ∷ t)
      ≡ (ltb a b || (nat_beq a b && text_lt s t))
four_digits-text_lt a b s t =
    let split : (n : ℕ)
        → (n / 1000 ≡ n / 100 / 10) × (n / 10 % 10 ≡ n % 100 / 10) × (n % 10 ≡ n % 100 % 10) =
      λ n. omega arith in
    rw ((split a).0, (split a).1, (split a).2, (split b).0, (split b).1, (split b).2)
      (rw (two_digits-text_lt (a / 100) (b / 100))
        (rw (two_digits-text_lt (a % 100) (b % 100)) (ground arith)))

-- A separator on both sides changes nothing.
dash-text_lt : (s t : Text) → text_lt (b'-' ∷ s) (b'-' ∷ t) ≡ text_lt s t
unfolding text_lt
dash-text_lt s t = refl

nil-text_lt : text_lt [] [] ≡ false
unfolding text_lt
nil-text_lt = refl

pub text_lt-isoformat : (a b : Date) → text_lt (isoformat a) (isoformat b) ≡ date_lt a b
unfolding isoformat date_lt
text_lt-isoformat a b =
    rw
      (
        four_digits-text_lt a.year b.year,
        dash-text_lt,
        two_digits-text_lt a.month b.month,
        dash-text_lt,
        two_digits-text_lt a.day b.day,
        nil-text_lt,
      )
      (ground arith)
