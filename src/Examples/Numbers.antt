-- ===== src/Examples/Numbers.antt =====
-- Hundredths as whole numbers, which meet the interface of floats.
use china_a_share.Prelude.{
  ℕ, ◌+◌, ◌*◌, ◌/◌, ◌≡◌, Bool, true, false, not, ◌&&◌, Option, none, some, arith,
}
use china_a_share.Prelude.Int.{ℤ, pos, negsuc, pos_part, neg_part, leb_ℤ, negate, ◌-ℤ◌}
use china_a_share.Floats.{Float, IsOrderedFloat}
use china_a_share.Dates.Print.{number}

abbrev size_ℤ : ℤ → ℕ
size_ℤ a = pos_part a + neg_part a

abbrev signed : Bool → ℕ → ℤ
signed true n = pos n
signed false n = negate (pos n)

abbrev same_sign : ℤ → ℤ → Bool
same_sign (pos a) (pos b) = true
same_sign (pos a) (negsuc b) = false
same_sign (negsuc a) (pos b) = false
same_sign (negsuc a) (negsuc b) = true

abbrev text_cents : Option ℕ → Option ℤ
text_cents none = none
text_cents (some n) = some (pos (n * 100))

instance abbrev pub cents_float : Float ℤ
cents_float = record {
  le = leb_ℤ;
  lt = λ a b. not (leb_ℤ b a);
  eq = λ a b. leb_ℤ a b && leb_ℤ b a;
  neg = negate;
  sub = λ a b. a -ℤ b;
  mul = λ a b. signed (same_sign a b) (size_ℤ a * size_ℤ b / 100);
  div = λ a b. signed (same_sign a b) (size_ℤ a * 100 / size_ℤ b);
  abs = λ a. pos (size_ℤ a);
  cents = pos;
  of_text = λ t. text_cents (number t);
}

lt_le : (a b c : ℤ) → not (leb_ℤ b a) ≡ true → leb_ℤ b c ≡ true → not (leb_ℤ c a) ≡ true
lt_le a b c p q = ground arith

below :
    (a b : ℤ)
    → not (leb_ℤ a (pos 0)) ≡ true
    → leb_ℤ b (negate a) ≡ true
    → not (leb_ℤ (pos 0) b) ≡ true
below (pos a) b p q = ground arith
below (negsuc a) b p q = ground arith

asym : (a b : ℤ) → not (leb_ℤ b a) ≡ true → not (leb_ℤ a b) ≡ false
asym a b p = ground arith

pub cents_float-IsOrderedFloat : IsOrderedFloat ℤ
cents_float-IsOrderedFloat = record { lt_le_trans = lt_le; neg_below = below; lt_asym = asym }
