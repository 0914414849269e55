-- ===== src/Vix/Commands/ZeroDays.antt =====
-- vix/commands.py: an exit after zero days, which an addition reads as one day and a modification refuses.
use china_a_share.Prelude.{ℕ, ◌≡◌, refl, some, Text, text_eq, arith, ok, raised, value_error}
use china_a_share.Floats.{Float}
use china_a_share.Vix.Rules.{VixRule, days, new_vix_rule}
use china_a_share.Vix.Commands.Optionals.{Word, OptionalFields, merged_rule, merged_build}
use china_a_share.Vix.Commands.{asked_rule}

module _ {F : Type 0} ⦃f : Float F⦄ where
  open f use {eq, cents}

  days-new_vix_rule :
      (now direction : Text) (threshold : F) (created_by rule_id : Text) (expected : F) (n : ℕ)
      (level : F) {r : VixRule F}
      → new_vix_rule now direction threshold created_by rule_id expected days n level ≡ ok r
      → r.exit_days ≡ n
  unfolding new_vix_rule
  days-new_vix_rule now direction threshold created_by rule_id expected n level h = ground arith

  no_days-new_vix_rule :
      (now direction : Text) (threshold : F) (created_by rule_id : Text) (expected : F) (level : F)
      → new_vix_rule now direction threshold created_by rule_id expected days 0 level
        ≡ raised value_error
  unfolding new_vix_rule
  no_days-new_vix_rule now direction threshold created_by rule_id expected level = refl

  zero_days-merged_build :
      (now : Text) (rule : VixRule F) (o : OptionalFields F)
      → o.exit_kind ≡ some days
      → o.exit_days ≡ some 0
      → merged_build now rule o ≡ raised value_error
  unfolding merged_build
  zero_days-merged_build now rule o k z = rw (k, z) (no_days-new_vix_rule _ _ _ _ _ _ _)

  -- Where the options ask for a sale after zero days, any rule that an addition builds has one day,
  -- and a modification raises a ValueError.
  pub zero_days :
      (now new_id sender : Text) (w : Word) (t : F) (rule : VixRule F) (o : OptionalFields F)
      → o.exit_kind ≡ some days
      → o.exit_days ≡ some 0
      → ((x : VixRule F) → asked_rule now new_id sender w t o ≡ ok x → x.exit_days ≡ 1)
        × (merged_rule now rule o ≡ raised value_error)
  unfolding asked_rule merged_rule
  zero_days now new_id sender w t rule o k z = (
    (λ x h. days-new_vix_rule _ _ _ _ _ _ _ _ (rw (k, z) at h)),
    ground (arith, zero_days-merged_build now rule o k z),
  )
