-- ===== src/Vix/Commands/Optionals.antt =====
-- vix/commands.py: the optional suffixes of a command, and the rule that a modification merges.
use china_a_share.Prelude.{
  ℕ, ◌+◌, Bool, true, false, not, Option, none, some, Text, text_eq, text_beq, ltb, nat_beq,
  if◌then◌else◌, Result, ok, raised, value_error, ◌>>◌, require,
}
use china_a_share.Floats.{Float}
use china_a_share.Vix.Rules.{
  VixRule, up, down, days, vix_below, no_exit, suggest_expected_return_pct, new_vix_rule,
}

-- The words 上涨, 涨, 下跌 and 跌.
pub data Word : Type 0 where
  rises rise falls fall : Word

-- `_WORD_DIRECTIONS`
unfoldable pub word_direction : Word → Text
word_direction rises = up
word_direction rise = up
word_direction falls = down
word_direction fall = down

-- What the five searches find in the rest of a prompt.
pub record Tokens (F : Type 0) : Type 0 where
  pub trigger : Option (Word × F)
  pub expected : Option F
  pub after_days : Option ℕ
  pub vix_under : Option F
  pub no_sale : Bool

pub record OptionalFields (F : Type 0) : Type 0 where
  pub direction : Option Text
  pub threshold : Option F
  pub expected : Option F
  pub exit_kind : Option Text
  pub exit_days : Option ℕ
  pub exit_vix_below : Option F

module _ {A : Type 0} where
  abbrev pub count_some : Option A → ℕ
  count_some none = 0
  count_some (some a) = 1

abbrev pub count_true : Bool → ℕ
count_true true = 1
count_true false = 0

module _ {F : Type 0} where
  unfoldable pub any_exit : OptionalFields F → Bool
  any_exit o = ltb 0 (count_some o.exit_kind + count_some o.exit_days + count_some o.exit_vix_below)

  abbrev pub trigger_direction : Option (Word × F) → Option Text
  trigger_direction none = none
  trigger_direction (some (w, x)) = some (word_direction w)

  abbrev pub trigger_threshold : Option (Word × F) → Option F
  trigger_threshold none = none
  trigger_threshold (some (w, x)) = some x

  -- The kind of exit that the tokens name: days before a level before none.
  abbrev pub kind_of : Option ℕ → Option F → Bool → Option Text
  kind_of (some n) x b = some days
  kind_of none (some x) b = some vix_below
  kind_of none none true = some no_exit
  kind_of none none false = none

  abbrev pub level_of : Option ℕ → Option F → Option F
  level_of (some n) x = none
  level_of none x = x

  unfoldable pub parse_optionals : Tokens F → Result (OptionalFields F)
  unfolding word_direction
  parse_optionals t = do
    require (not (ltb 1 (count_some t.after_days + count_some t.vix_under + count_true t.no_sale)))
        value_error
    ok (record {
      direction = trigger_direction t.trigger;
      threshold = trigger_threshold t.trigger;
      expected = t.expected;
      exit_kind = kind_of t.after_days t.vix_under t.no_sale;
      exit_days = t.after_days;
      exit_vix_below = level_of t.after_days t.vix_under;
    })

abbrev pub or_else : {A : Type 0} → Option A → A → A
or_else none d = d
or_else (some a) d = a

-- `n or d`, of an optional count.
abbrev pub count_or : Option ℕ → ℕ → ℕ
count_or none d = d
count_or (some n) d = if nat_beq n 0 then d else n

module _ {F : Type 0} ⦃f : Float F⦄ where
  open f use {eq, cents}

  -- `x or d`, of an optional level: 0.0 is false.
  abbrev pub level_or : Option F → F → F
  level_or none d = d
  level_or (some x) d = if eq x (cents 0) then d else x

  abbrev pub merged_expected : OptionalFields F → VixRule F → Text → F → F
  merged_expected o rule direction threshold = elim o.expected [
    | some x ↦ x
    | none ↦ elim o.direction [
      | none ↦ rule.expected_return_pct
      | some d ↦ suggest_expected_return_pct direction threshold
    ]
  ]

  abbrev pub days_asked : OptionalFields F → Bool
  days_asked o = elim o.exit_kind [ none ↦ false | some k ↦ text_beq k days ]

  abbrev pub level_asked : OptionalFields F → Bool
  level_asked o = elim o.exit_kind [ none ↦ false | some k ↦ text_beq k vix_below ]

  -- With the kind `days` the count is that of the tokens, which is there; likewise the level.
  abbrev pub merged_days : OptionalFields F → VixRule F → ℕ
  merged_days o rule =
      if days_asked o
      then or_else o.exit_days rule.exit_days
      else if level_asked o
      then rule.exit_days
      else count_or o.exit_days rule.exit_days

  abbrev pub merged_level : OptionalFields F → VixRule F → F
  merged_level o rule =
      if days_asked o
      then rule.exit_vix_below
      else if level_asked o
      then or_else o.exit_vix_below rule.exit_vix_below
      else level_or o.exit_vix_below rule.exit_vix_below

  unfoldable pub merged_build : Text → VixRule F → OptionalFields F → Result (VixRule F)
  merged_build now rule o =
      let direction = or_else o.direction rule.direction in
      let threshold = or_else o.threshold rule.threshold_pct in
      new_vix_rule now direction threshold rule.created_by rule.id
        (merged_expected o rule direction threshold) (or_else o.exit_kind rule.exit_kind)
        (merged_days o rule) (merged_level o rule)

  abbrev pub keep_time : Text → Result (VixRule F) → Result (VixRule F)
  keep_time time (raised e) = raised e
  keep_time time (ok built) = ok (record built { created_at = time })

  -- The replacement keeps the id, the creator and the time of creation.
  unfoldable pub merged_rule : Text → VixRule F → OptionalFields F → Result (VixRule F)
  merged_rule now rule o = do
    require (nat_beq (count_some o.direction) (count_some o.threshold)) value_error
    keep_time rule.created_at (merged_build now rule o)
