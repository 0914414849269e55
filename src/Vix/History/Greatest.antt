-- ===== src/Vix/History/Greatest.antt =====
-- The greatest key of a series of closes, and the keys after an assignment.
use china_a_share.Prelude.{
  ◌≡◌, refl, inl, inr, true, false, Text, text_lt, text_eq, text_beq, text_beq_iff, List, [], ◌∷◌,
  All, Elem, arith, Bool-cases, text_lt_cotrans, text_lt_asym, text_lt_irrefl,
}
use china_a_share.Prelude.Maps.{insert}
use china_a_share.Dates.{Date, IsDate}
use china_a_share.Dates.Print.{isoformat}
use china_a_share.Vix.History.{Closes, keys, greater, max_text}

abbrev pub IsKey : Text → Type 0
IsKey k = (d : Date) × IsDate d × (k ≡ isoformat d)

-- Every key of the series is a date in its ISO form.
abbrev pub IsSeries : {F : Type 0} → Closes F → Type 0
IsSeries d = All IsKey (keys d)

pub greater-All : (P : Text → Type 0) (a b : Text) → P a → P b → P (greater a b)
unfolding greater
greater-All P a b p q = elim (Bool-cases (text_lt a b)) [ inl e ↦ rw e q | inr e ↦ rw e p ]

pub max_text-All :
    (P : Text → Type 0) (best : Text) (ks : List Text) → P best → All P ks → P (max_text best ks)
unfolding max_text
max_text-All P best [] b _ = b
max_text-All P best (k ∷ ks) b (p, ps) =
    max_text-All P (greater best k) ks (greater-All P best k b p) ps

abbrev pub NotAbove : Text → Text → Type 0
NotAbove m k = text_lt m k ≡ false

pub greater-NotAbove : (a b : Text) → NotAbove (greater a b) a × NotAbove (greater a b) b
unfolding greater
greater-NotAbove a b = ground (arith, text_lt_asym a b, text_lt_irrefl a, text_lt_irrefl b)

pub max_text-NotAbove :
    (best : Text) (ks : List Text)
    → NotAbove (max_text best ks) best × All (NotAbove (max_text best ks)) ks
unfolding max_text
max_text-NotAbove best [] = (text_lt_irrefl best, tt)
max_text-NotAbove best (k ∷ ks) =
    let b = greater best k in
    let (over_best, over_k) = greater-NotAbove best k in
    let (top, rest) = max_text-NotAbove b ks in
    (text_lt_cotrans _ b best top over_best, (text_lt_cotrans _ b k top over_k, rest))

pub above_of_NotAbove : (m k t : Text) → NotAbove m k → text_lt m t ≡ true → text_lt k t ≡ true
above_of_NotAbove m k t h lt = ground (arith, text_lt_cotrans m k t)

module _ {F : Type 0} where
  pub All-keys-insert :
      (P : Text → Type 0) (k : Text) (v : F) (d : Closes F)
      → P k
      → All P (keys d)
      → All P (keys (insert k v d))
  unfolding keys insert
  All-keys-insert P k v [] p _ = (p, tt)
  All-keys-insert P k v ((j, w) ∷ d) p (q, qs) = elim (Bool-cases (text_beq j k)) [
    | inl e ↦ rw e (q, qs)
    | inr e ↦ rw e (q, All-keys-insert P k v d p qs)
  ]

  pub Elem-keys-insert : (k : Text) (v : F) (d : Closes F) → Elem k (keys (insert k v d))
  unfolding keys insert
  Elem-keys-insert k v [] = inl refl
  Elem-keys-insert k v ((j, w) ∷ d) = elim (Bool-cases (text_beq j k)) [
    | inl e ↦ rw e (inl ((text_beq_iff j k).0 e))
    | inr e ↦ rw e (inr (Elem-keys-insert k v d))
  ]
