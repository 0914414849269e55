-- ===== src/Vix/Rules/Laws.antt =====
-- vix/rules.py: what validation lets through, and when a rule fires.
use china_a_share.Prelude.{
  ℕ, ◌≤◌, ◌≡◌, ◌↔◌, ◌⊎◌, inl, inr, true, false, Text, text_eq, text_beq_iff, text_beq, Result-cases,
  ok, raised, value_error, arith,
}
use china_a_share.Floats.{Float, IsOrderedFloat}
use china_a_share.Vix.Rules.{
  up, down, days, vix_below, no_exit, VixRule, ExitFields, hits, new_vix_rule, validate_exit,
}

module _ {F : Type 0} ⦃f : Float F⦄ where
  open f use {le, lt, neg, cents}

  -- The exits that a rule may have, each with its unused fields at their defaults.
  abbrev pub IsExit : Text → ℕ → F → Type 0
  IsExit k n x =
      ((k ≡ days) × (1 ≤ n) × (n ≤ 40) × (x ≡ cents 0))
      ⊎ ((k ≡ vix_below) × (n ≡ 1) × (le x (cents 0) ≡ false))
      ⊎ ((k ≡ no_exit) × (n ≡ 1) × (x ≡ cents 0))

  pub record IsValid (r : VixRule F) : Type 0 where
    pub direction_known : (r.direction ≡ up) ⊎ (r.direction ≡ down)
    pub threshold_pos : lt (cents 0) r.threshold_pct ≡ true
    pub threshold_le : le r.threshold_pct (cents 10_000) ≡ true
    pub expected_ge : le (neg (cents 10_000)) r.expected_return_pct ≡ true
    pub expected_le : le r.expected_return_pct (cents 10_000) ≡ true
    pub exit_valid : IsExit r.exit_kind r.exit_days r.exit_vix_below

  validate_exit-IsExit :
      (k : Text) (n : ℕ) (x : F) {e : ExitFields F}
      → validate_exit k n x ≡ ok e
      → IsExit e.exit_kind e.exit_days e.exit_vix_below
  unfolding validate_exit
  validate_exit-IsExit k n x h =
      ground (arith, text_beq_iff k days, text_beq_iff k vix_below, text_beq_iff k no_exit)

  -- A rule that is built is valid and has the identifier, direction, threshold, expected return,
  -- exit kind, creator and time that it was given.
  pub new_vix_rule-IsValid :
      (now direction : Text) (threshold : F) (created_by rule_id : Text) (expected : F)
      (kind : Text) (n : ℕ) (level : F) {r : VixRule F}
      → new_vix_rule now direction threshold created_by rule_id expected kind n level ≡ ok r
      → IsValid r
        × (r.id ≡ rule_id)
        × (r.direction ≡ direction)
        × (r.threshold_pct ≡ threshold)
        × (r.expected_return_pct ≡ expected)
        × (r.exit_kind ≡ kind)
        × (r.created_by ≡ created_by)
        × (r.created_at ≡ now)
  unfolding new_vix_rule
  new_vix_rule-IsValid now direction threshold created_by rule_id expected kind n level h = ground (
    arith,
    text_beq_iff direction up,
    text_beq_iff direction down,
    text_beq_iff kind days,
    text_beq_iff kind vix_below,
    text_beq_iff kind no_exit,
  )

  -- The arguments from which a rule can be built.
  pub record IsAccepted (direction : Text) (threshold expected : F) (kind : Text) (n : ℕ)
      (level : F) : Type 0 where
    pub direction_known : (direction ≡ up) ⊎ (direction ≡ down)
    pub threshold_pos : lt (cents 0) threshold ≡ true
    pub threshold_le : le threshold (cents 10_000) ≡ true
    pub expected_ge : le (neg (cents 10_000)) expected ≡ true
    pub expected_le : le expected (cents 10_000) ≡ true
    pub exit_known :
        (kind ≡ days) × (1 ≤ n) × (n ≤ 40)
        ⊎ ((kind ≡ vix_below) × (le level (cents 0) ≡ false))
        ⊎ (kind ≡ no_exit)

  -- A rule is built just if its arguments are accepted: a known direction, a threshold above 0 and
  -- up to 100, an expected return from -100 to 100, and an exit that is known and within its
  -- limits; else a ValueError is raised.
  pub new_vix_rule_accepts :
      (now direction : Text) (threshold : F) (created_by rule_id : Text) (expected : F)
      (kind : Text) (n : ℕ) (level : F)
      → (((r : VixRule F) × (new_vix_rule now direction threshold created_by rule_id expected kind n
                level
              ≡ ok r))
          × IsAccepted direction threshold expected kind n level)
        ⊎ ((new_vix_rule now direction threshold created_by rule_id expected kind n level
              ≡ raised value_error)
            × (¬ IsAccepted direction threshold expected kind n level))
  unfolding new_vix_rule
  new_vix_rule_accepts now direction threshold created_by rule_id expected kind n level =
      elim (Result-cases
        (new_vix_rule now direction threshold created_by rule_id expected kind n level)) [
          | inl built ↦ inl (built, accepted built.1)
          | inr (x, e) ↦ inr (ground arith, ground (arith, texts))
        ]
    where
      texts :
          ((text_beq direction up ≡ true) ↔ (direction ≡ up))
          × ((text_beq direction down ≡ true) ↔ (direction ≡ down))
          × ((text_beq kind days ≡ true) ↔ (kind ≡ days))
          × ((text_beq kind vix_below ≡ true) ↔ (kind ≡ vix_below))
          × ((text_beq kind no_exit ≡ true) ↔ (kind ≡ no_exit))
      texts =
          (text_beq_iff _ _, text_beq_iff _ _, text_beq_iff _ _, text_beq_iff _ _, text_beq_iff _ _)

      accepted :
          {r : VixRule F}
          → new_vix_rule now direction threshold created_by rule_id expected kind n level ≡ ok r
          → IsAccepted direction threshold expected kind n level
      accepted h = ground (arith, texts)

  module _ (laws : IsOrderedFloat F) where
    -- With the order laws of floats, a valid rule that a change hits is one for rises and the
    -- change is above zero, or one for falls and the change is below zero.
    pub hits_sign :
        (r : VixRule F) (change : F)
        → IsValid r
        → hits r change ≡ true
        → ((r.direction ≡ up) × (lt (cents 0) change ≡ true))
          ⊎ ((r.direction ≡ down) × (lt change (cents 0) ≡ true))
    unfolding hits
    hits_sign r change v h = ground (
      arith,
      text_beq_iff r.direction up,
      laws.lt_le_trans (cents 0) r.threshold_pct change,
      laws.neg_below r.threshold_pct change,
    )
