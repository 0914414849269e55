-- ===== src/Floats.antt =====
-- What the program does with Python floats: comparisons, arithmetic, literals in hundredths, and
-- `float(text)`. The type is a parameter; the laws are those of the IEEE comparisons, NaN included.
use china_a_share.Prelude.{ℕ, ◌≡◌, Bool, false, true, Option, Text}

pub record Float (F : Type 0) : Type 0 where
  pub le : F → F → Bool
  pub lt : F → F → Bool
  pub eq : F → F → Bool
  pub neg : F → F
  pub sub : F → F → F
  pub mul : F → F → F
  pub div : F → F → F
  pub abs : F → F
  pub cents : ℕ → F
  pub of_text : Text → Option F

pub record IsOrderedFloat (F : Type 0) ⦃f : Float F⦄ : Type 0 where
  pub lt_le_trans : (a b c : F) → f.lt a b ≡ true → f.le b c ≡ true → f.lt a c ≡ true
  pub neg_below :
      (a b : F) → f.lt (f.cents 0) a ≡ true → f.le b (f.neg a) ≡ true → f.lt b (f.cents 0) ≡ true
  pub lt_asym : (a b : F) → f.lt a b ≡ true → f.lt b a ≡ false
