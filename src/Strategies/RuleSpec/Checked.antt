-- ===== src/Strategies/RuleSpec/Checked.antt =====
-- strategy_interaction.py: what `parse_rule_spec` promises of the rules that it returns and of the
-- errors that it raises.
use china_a_share.Prelude.{
  ◌≡◌, ◌<◌, refl, inl, inr, true, not, ◌&&◌, Option, none, some, Text, text, text_eq, ltb, List, [],
  ◌∷◌, is_nil, length, All, Fault, Result, Satisfies, Satisfies-bind, Satisfies-map,
  Satisfies-require, Satisfies-any, returned, failed, value_error, index_error, rule_spec_error,
  arith, Bool-cases,
}
use china_a_share.Prelude.Int.{ℤ, pos, negsuc}
use china_a_share.Prelude.Maps.{Dict, lookup}
use china_a_share.Prelude.Texts.{lower}
use china_a_share.Prelude.Texts.{lower}
use china_a_share.Floats.{Float}
use china_a_share.Strategies.Models.{
  Rule, drawdown, cumulative_return, first_bullish_ma, limit_up, positive, is_some, drawdown_rule,
  cumulative_return_rule, first_bullish_ma_rule, limit_up_rule,
}
use china_a_share.Strategies.RuleSpec.{
  RuleKind, drawdown_kind, cumulative_return_kind, first_bullish_ma_kind, limit_up_kind, rule_keys,
  segments_of, tokens_of, kind_of, key_value, field_of, or_spec_error, validated, parse_number,
  parameter_values, missing_of, missing_fields, value_at, window_or_one, rule_of_values,
  parse_tokens, parse_segments, parse_rule_spec,
}

positive-Satisfies :
    (E : Fault → Type 0) (z : ℤ) → E value_error → Satisfies (λ n. 0 < n) E (positive z)
positive-Satisfies E (negsuc z) h = failed h
positive-Satisfies E (pos z) h = elim (Bool-cases (ltb 0 z)) [
  | inl e ↦ rw e (returned (ground arith))
  | inr e ↦ rw e (failed h)
]

validated-Satisfies :
    {A : Type 0} (P : A → Type 0) (E E' : Fault → Type 0) (x : Result A)
    → E' rule_spec_error
    → Satisfies P E x
    → Satisfies P E' (validated x)
validated-Satisfies P E E' x h (returned p) = returned p
validated-Satisfies P E E' x h (failed p) = failed h

abbrev Any : Fault → Type 0
Any e = Unit

positive_length :
    {A B : Type 0} (xs : List A) (ys : List B)
    → not (is_nil xs) ≡ true
    → length ys ≡ length xs
    → 0 < length ys
positive_length [] ys h e = absurd (cc)
positive_length (x ∷ xs) ys h e = omega (arith, e)

module _ {F : Type 0} ⦃f : Float F⦄ where
  open f use {lt, cents}

  -- The bounds of the rule models.
  abbrev pub IsBounded : Rule F → Type 0
  IsBounded (drawdown window threshold) =
      (0 < window) × (lt (cents 0) threshold && lt threshold (cents 100) ≡ true)
  IsBounded (cumulative_return window low high) = (0 < window) × (not (lt high low) ≡ true)
  IsBounded (first_bullish_ma fast slow) = (0 < fast) × (ltb fast slow ≡ true)
  IsBounded (limit_up window) = 0 < window

  drawdown_rule-IsBounded : (z : ℤ) (t : F) → Satisfies IsBounded Any (drawdown_rule z t)
  unfolding drawdown_rule
  drawdown_rule-IsBounded z t =
      Satisfies-bind (positive-Satisfies Any z tt)
        λ n p. Satisfies-require _ value_error tt λ q. returned {a = drawdown n t} (p, q)

  cumulative_return_rule-IsBounded :
      (z : ℤ) (low high : F) → Satisfies IsBounded Any (cumulative_return_rule z low high)
  unfolding cumulative_return_rule
  cumulative_return_rule-IsBounded z low high = Satisfies-bind (positive-Satisfies Any z tt) λ n p.
      Satisfies-require _ value_error tt λ q. returned {a = cumulative_return n low high} (p, q)

first_bullish_ma_rule-IsBounded :
    (F : Type 0) ⦃f : Float F⦄ (a b : ℤ)
    → Satisfies IsBounded Any (first_bullish_ma_rule {F = F} a b)
unfolding first_bullish_ma_rule
first_bullish_ma_rule-IsBounded F a b = Satisfies-bind (positive-Satisfies Any a tt) λ m p.
    Satisfies-bind (positive-Satisfies Any b tt)
      λ n _. Satisfies-require _ value_error tt λ q. returned {a = first_bullish_ma m n} (p, q)

limit_up_rule-IsBounded :
    (F : Type 0) ⦃f : Float F⦄ (z : ℤ) → Satisfies IsBounded Any (limit_up_rule {F = F} z)
unfolding limit_up_rule
limit_up_rule-IsBounded F z = Satisfies-bind (positive-Satisfies Any z tt) λ n p. returned p

module _ {F : Type 0} ⦃f : Float F⦄ where
  module _ (truncate : F → Result ℤ) (E : Fault → Type 0) where
    value_at-Satisfies :
        (v : Option F) → is_some v ≡ true → Satisfies (λ _. Unit {0}) E (value_at truncate v)
    value_at-Satisfies none h = absurd (cc)
    value_at-Satisfies (some v) h = returned tt

    missing_of-nil :
        (keys : Dict Text (List Text)) (values : Dict Text F)
        → is_nil (missing_of truncate keys values) ≡ true
        → All (λ k. is_some (lookup k.0 values) ≡ true) keys
    missing_of-nil [] values h = tt
    missing_of-nil ((name, aliases) ∷ keys) values h =
        elim (Bool-cases (is_some (lookup name values))) [
          | inl e ↦ (e, missing_of-nil keys values (rw e at h))
          | inr e ↦ absurd (let h' = rw e at h in cc)
        ]

    module _ (spec : E rule_spec_error)
        (converts : (v : F) → Satisfies (λ _. Unit {0}) E (truncate v)) where
      window_or_one-Satisfies :
          (v : Option F) → Satisfies (λ _. Unit {0}) E (window_or_one truncate v)
      window_or_one-Satisfies none = returned tt
      window_or_one-Satisfies (some v) = converts v

      rule_of_values-Satisfies :
          (kind : RuleKind) (values : Dict Text F)
          → is_nil (missing_fields truncate kind values) ≡ true
          → Satisfies IsBounded E (rule_of_values truncate kind values)
      unfolding rule_of_values missing_fields
      rule_of_values-Satisfies drawdown_kind values h =
          let (window, (threshold, _)) = missing_of-nil (rule_keys drawdown_kind) values h in
          Satisfies-bind (value_at-Satisfies _ window) λ w _. Satisfies-bind (converts w) λ z _.
            Satisfies-bind (value_at-Satisfies _ threshold)
              λ t _. validated-Satisfies IsBounded Any E _ spec (drawdown_rule-IsBounded z t)
      rule_of_values-Satisfies cumulative_return_kind values h =
          let (window, (low, (high, _))) =
            missing_of-nil (rule_keys cumulative_return_kind) values h in
          Satisfies-bind (value_at-Satisfies _ window) λ w _. Satisfies-bind (converts w) λ z _.
            Satisfies-bind (value_at-Satisfies _ low) λ l _.
              Satisfies-bind (value_at-Satisfies _ high) λ u _.
                validated-Satisfies IsBounded Any E _ spec (cumulative_return_rule-IsBounded z l u)
      rule_of_values-Satisfies limit_up_kind values h =
          Satisfies-bind (window_or_one-Satisfies (lookup (text "window") values))
            λ z _. validated-Satisfies IsBounded Any E _ spec (limit_up_rule-IsBounded F z)
      rule_of_values-Satisfies first_bullish_ma_kind values h =
          let (fast, (slow, _)) = missing_of-nil (rule_keys first_bullish_ma_kind) values h in
          Satisfies-bind (value_at-Satisfies _ fast) λ v _. Satisfies-bind (converts v) λ y _.
            Satisfies-bind (value_at-Satisfies _ slow) λ w _. Satisfies-bind (converts w) λ z _.
              validated-Satisfies IsBounded Any E _ spec (first_bullish_ma_rule-IsBounded F y z)

      or_spec_error-Satisfies :
          {A : Type 0} (v : Option A) → Satisfies (λ _. Unit {0}) E (or_spec_error v)
      or_spec_error-Satisfies none = failed spec
      or_spec_error-Satisfies (some a) = returned tt

      parameter_values-Satisfies :
          (kind : RuleKind) (tokens : List Text) (values : Dict Text F)
          → Satisfies (λ _. Unit {0}) E (parameter_values truncate kind tokens values)
      unfolding parameter_values
      parameter_values-Satisfies kind [] values = returned tt
      parameter_values-Satisfies kind (token ∷ tokens) values =
          Satisfies-bind (or_spec_error-Satisfies (key_value token)) λ pair _.
            Satisfies-bind (or_spec_error-Satisfies (field_of (lower pair.0) (rule_keys kind)))
              λ field _.
                Satisfies-bind
                  (validated-Satisfies _ Any E (parse_number truncate pair.1) spec
                    (Satisfies-any (parse_number truncate pair.1)))
                  λ number _. parameter_values-Satisfies kind tokens _

      -- A segment with no token between its separators is the one way to an index error.
      parse_tokens-Satisfies :
          (tokens : List Text)
          → (tokens ≡ [] → E index_error)
          → Satisfies IsBounded E (parse_tokens truncate tokens)
      unfolding parse_tokens
      parse_tokens-Satisfies [] empty = failed (empty refl)
      parse_tokens-Satisfies (head ∷ tokens) empty =
          Satisfies-bind (or_spec_error-Satisfies (kind_of head)) λ kind _.
            Satisfies-bind (parameter_values-Satisfies kind tokens []) λ values _.
              Satisfies-require _ rule_spec_error spec λ h. rule_of_values-Satisfies kind values h

      parse_segments-Satisfies :
          (segments : List Text)
          → All (λ s. tokens_of s ≡ [] → E index_error) segments
          → Satisfies
              (λ rules. (length rules ≡ length segments) × All IsBounded rules)
              E
              (parse_segments truncate segments)
      unfolding parse_segments
      parse_segments-Satisfies [] empty = returned (refl, tt)
      parse_segments-Satisfies (segment ∷ segments) (e, es) =
          Satisfies-bind (parse_tokens-Satisfies (tokens_of segment) e) λ rule h.
            Satisfies-bind (parse_segments-Satisfies segments es)
              λ rules hs. returned (omega (arith, hs.0), (h, hs.1))

      -- A rule text either gives one rule for each of its segments, at least one and each within
      -- the bounds of its model, or raises the rule error, or what the conversion of a float to an
      -- integer raises, or an index error, the last only if some segment has no token.
      pub parse_rule_spec-Satisfies :
          (spec : Text)
          → All (λ s. tokens_of s ≡ [] → E index_error) (segments_of spec)
          → Satisfies
              (λ rules.
                (0 < length rules)
                × (length rules ≡ length (segments_of spec))
                × All IsBounded rules)
              E
              (parse_rule_spec truncate spec)
      unfolding parse_rule_spec
      parse_rule_spec-Satisfies s empty = Satisfies-require _ rule_spec_error spec λ some_segment.
          Satisfies-map (parse_segments-Satisfies (segments_of s) empty)
            λ rules h. (positive_length (segments_of s) rules some_segment h.0, h.0, h.1)
