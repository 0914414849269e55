-- ===== src/Vix/Rules.antt =====
-- vix/rules.py: a chat's alert rule, its validation and the test that fires it.
pub mod Laws
use china_a_share.Prelude.{
  ℕ, Bool, true, false, ◌&&◌, ◌||◌, not, Option, none, some, Text, text, ◌==◌, text_eq, leb,
  if◌then◌else◌, Result, ok, raised, value_error, require, ◌>>=◌, ◌>>◌,
}
use china_a_share.Floats.{Float}

abbrev pub up : Text
up = text "up"

abbrev pub down : Text
down = text "down"

abbrev pub days : Text
days = text "days"

abbrev pub vix_below : Text
vix_below = text "vix_below"

abbrev pub no_exit : Text
no_exit = text "none"

abbrev pub default_exit_days : ℕ
default_exit_days = 1

abbrev pub max_exit_days : ℕ
max_exit_days = 40

pub record VixRule (F : Type 0) : Type 0 where
  pub id : Text
  pub direction : Text
  pub threshold_pct : F
  pub created_by : Text
  pub created_at : Text
  pub expected_return_pct : F
  pub exit_kind : Text
  pub exit_days : ℕ
  pub exit_vix_below : F

-- The dict that `validate_exit` returns.
pub record ExitFields (F : Type 0) : Type 0 where
  pub exit_kind : Text
  pub exit_days : ℕ
  pub exit_vix_below : F

unfoldable pub validate_direction : Text → Result Text
validate_direction d = if d == up || d == down then ok d else raised value_error

module _ {F : Type 0} ⦃f : Float F⦄ where
  open f use {le, lt, neg, sub, abs, cents}

  unfoldable pub hits : VixRule F → F → Bool
  hits rule change =
      if rule.direction == up
      then le rule.threshold_pct change
      else le change (neg rule.threshold_pct)

  -- 10.0, 2.0 and 0.46 are the research context's threshold, band and expected return.
  unfoldable pub suggest_expected_return_pct : Text → F → F
  suggest_expected_return_pct direction threshold =
      if direction == up && le (abs (sub threshold (cents 1000))) (cents 200)
      then cents 46
      else cents 0

  unfoldable pub validate_threshold : F → Result F
  validate_threshold v =
      if not (lt (cents 0) v && le v (cents 10_000)) then raised value_error else ok v

  unfoldable pub validate_expected_return : F → Result F
  validate_expected_return v =
      if not (le (neg (cents 10_000)) v && le v (cents 10_000)) then raised value_error else ok v

  unfoldable pub validate_exit : Text → ℕ → F → Result (ExitFields F)
  validate_exit kind n level =
      if not (kind == days || kind == vix_below || kind == no_exit)
      then raised value_error
      else if kind == days
      then (if not (leb 1 n && leb n max_exit_days)
          then raised value_error
          else ok (record { exit_kind = kind; exit_days = n; exit_vix_below = cents 0 }))
      else if kind == vix_below
      then (if le level (cents 0)
          then raised value_error
          else ok
              (record { exit_kind = kind; exit_days = default_exit_days; exit_vix_below = level }))
      else ok (record { exit_kind = kind; exit_days = default_exit_days; exit_vix_below = cents 0 })

  -- The clock's reading `now` is an argument.
  unfoldable pub new_vix_rule :
      (now direction : Text) (threshold : F) (created_by rule_id : Text) (expected : F)
      (exit_kind : Text) (exit_days : ℕ) (exit_vix_below : F)
      → Result (VixRule F)
  unfolding validate_direction validate_threshold validate_expected_return validate_exit
  new_vix_rule now direction threshold created_by rule_id expected kind n level = do
    exit ← validate_exit kind n level
    d ← validate_direction direction
    t ← validate_threshold threshold
    e ← validate_expected_return expected
    ok (record {
      id = rule_id;
      direction = d;
      threshold_pct = t;
      created_by = created_by;
      created_at = now;
      expected_return_pct = e;
      exit_kind = exit.exit_kind;
      exit_days = exit.exit_days;
      exit_vix_below = exit.exit_vix_below;
    })
