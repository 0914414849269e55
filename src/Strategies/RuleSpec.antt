-- ===== src/Strategies/RuleSpec.antt =====
-- strategy_interaction.py: `parse_rule_spec`, which compiles the text of a rule into rule models.
pub mod Checked
use china_a_share.Prelude.{
  ℕ, ◌+◌, Bool, true, false, not, ◌&&◌, ◌||◌, Option, none, some, Text, text, text_eq, text_beq, Eq,
  ◌==◌, leb, nat_beq, List, [], ◌∷◌, ◌++◌, any, filter, is_nil, map, Fault, Result, ok, raised,
  value_error, key_error, index_error, rule_spec_error, require, ◌>>=◌, ◌>>◌, if◌then◌else◌,
}
use china_a_share.Prelude.Int.{ℤ, pos}
use china_a_share.Prelude.Maps.{Dict, lookup, insert}
use china_a_share.Prelude.Texts.{strip, lower, is_space}
use china_a_share.Floats.{Float}
use china_a_share.Strategies.Models.{
  Rule, drawdown_rule, cumulative_return_rule, first_bullish_ma_rule, limit_up_rule, is_some,
}
use mathlib.Core.List.{reverse}

pub data RuleKind : Type 0 where
  drawdown_kind cumulative_return_kind first_bullish_ma_kind limit_up_kind : RuleKind

abbrev pub rule_type_aliases : Dict Text RuleKind
rule_type_aliases =
    (text "回撤", drawdown_kind)
    ∷ (text "drawdown", drawdown_kind)
    ∷ (text "涨幅", cumulative_return_kind)
    ∷ (text "return", cumulative_return_kind)
    ∷ (text "cumulative_return", cumulative_return_kind)
    ∷ (text "金叉", first_bullish_ma_kind)
    ∷ (text "ma", first_bullish_ma_kind)
    ∷ (text "first_bullish_ma", first_bullish_ma_kind)
    ∷ (text "涨停", limit_up_kind)
    ∷ (text "limit_up", limit_up_kind)
    ∷ (text "limitup", limit_up_kind)
    ∷ []

-- The fields of each kind with the names that stand for them.
abbrev pub rule_keys : RuleKind → Dict Text (List Text)
rule_keys drawdown_kind =
    (text "window", text "window" ∷ text "窗口" ∷ text "w" ∷ [])
    ∷ (text "threshold", text "threshold" ∷ text "阈值" ∷ text "t" ∷ [])
    ∷ []
rule_keys cumulative_return_kind =
    (text "window", text "window" ∷ text "窗口" ∷ text "w" ∷ [])
    ∷ (text "min_return", text "min" ∷ text "min_return" ∷ text "下限" ∷ [])
    ∷ (text "max_return", text "max" ∷ text "max_return" ∷ text "上限" ∷ [])
    ∷ []
rule_keys first_bullish_ma_kind =
    (text "fast_window", text "fast" ∷ text "fast_window" ∷ text "快线" ∷ [])
    ∷ (text "slow_window", text "slow" ∷ text "slow_window" ∷ text "慢线" ∷ [])
    ∷ []
rule_keys limit_up_kind = (text "window", text "window" ∷ text "窗口" ∷ text "w" ∷ []) ∷ []

abbrev pub is_optional : RuleKind → Bool
is_optional limit_up_kind = true
is_optional drawdown_kind = false
is_optional cumulative_return_kind = false
is_optional first_bullish_ma_kind = false

-- `re.split` on a class of characters: a run of separators gives empty parts, which are dropped.
abbrev pub is_rule_separator : ℕ → Bool
is_rule_separator c = nat_beq c b';' || nat_beq c 0xff1b

abbrev pub is_token_separator : ℕ → Bool
is_token_separator c = is_space c || nat_beq c b',' || nat_beq c 0xff0c || nat_beq c 0x3001

abbrev pub put_first : ℕ → List Text → List Text
put_first c [] = (c ∷ []) ∷ []
put_first c (part ∷ parts) = (c ∷ part) ∷ parts

unfoldable pub split_where : (ℕ → Bool) → Text → List Text
split_where p [] = [] ∷ []
split_where p (c ∷ s) = let rest = split_where p s in if p c then [] ∷ rest else put_first c rest

unfoldable pub segments_of : Text → List Text
segments_of spec = filter (λ s. not (is_nil s)) (map strip (split_where is_rule_separator spec))

unfoldable pub tokens_of : Text → List Text
tokens_of segment = filter (λ s. not (is_nil s)) (split_where is_token_separator segment)

unfoldable pub kind_of : Text → Option RuleKind
kind_of head =
    let lowered = lookup (lower head) rule_type_aliases in
    if is_some (lookup head rule_type_aliases) then lookup head rule_type_aliases else lowered

abbrev pub is_key_char : ℕ → Bool
is_key_char c =
    (leb b'A' c && leb c b'Z') || (leb b'a' c && leb c b'z') || (leb 0x4e00 c && leb c 0x9fff)

-- `_KEY_VALUE`: key characters, one equals sign, and a value. A token has no line break.
-- The last character of the key: an equals sign and a value follow.
unfoldable pub last_of_key : ℕ → Text → Option (Text × Text)
last_of_key c [] = none
last_of_key c (d ∷ []) = none
last_of_key c (d ∷ e ∷ rest) =
    if nat_beq d b'=' || nat_beq d 0xff1d then some (c ∷ [], e ∷ rest) else none

unfoldable pub longer_key : ℕ → Text → Option (Text × Text) → Option (Text × Text)
longer_key c rest none = last_of_key c rest
longer_key c rest (some (key, value)) = some (c ∷ key, value)

unfoldable pub key_value : Text → Option (Text × Text)
key_value [] = none
key_value (c ∷ s) =
    let longer = key_value s in if is_key_char c then longer_key c s longer else none

-- The first field that has the alias.
unfoldable pub field_of : Text → Dict Text (List Text) → Option Text
field_of alias [] = none
field_of alias ((name, aliases) ∷ keys) =
    let rest = field_of alias keys in if any (text_beq alias) aliases then some name else rest

abbrev pub or_spec_error : {A : Type 0} → Option A → Result A
or_spec_error none = raised rule_spec_error
or_spec_error (some a) = ok a

-- `except ValidationError`: what a model's validation raises becomes a rule error.
abbrev pub validated : {A : Type 0} → Result A → Result A
validated (ok a) = ok a
validated (raised e) = raised rule_spec_error

module _ {F : Type 0} ⦃f : Float F⦄ (truncate : F → Result ℤ) where
  open f use {of_text, div, cents}

  -- `float(text)` raises where the text is not a number.
  abbrev pub or_value_error : Option F → Result F
  or_value_error none = raised value_error
  or_value_error (some v) = ok v

  abbrev pub is_percent : Text → Bool
  is_percent [] = false
  is_percent (c ∷ s) = nat_beq c b'%' || nat_beq c 0xff05

  abbrev pub rest_of : Text → Text
  rest_of [] = []
  rest_of (c ∷ s) = s

  unfoldable pub parse_number : Text → Result F
  parse_number raw =
      let s = reverse (strip raw) in
      if is_percent s
      then (or_value_error (of_text (strip (reverse (rest_of s)))) >>= λ v.
          ok (div v (cents 10000)))
      else or_value_error (of_text (strip raw))

  -- The values of the parameters of one rule; a later one with the same field replaces an earlier one.
  unfoldable pub parameter_values : RuleKind → List Text → Dict Text F → Result (Dict Text F)
  parameter_values kind [] values = ok values
  parameter_values kind (token ∷ tokens) values = do
    (key, value) ← or_spec_error (key_value token)
    field ← or_spec_error (field_of (lower key) (rule_keys kind))
    number ← validated (parse_number value)
    parameter_values kind tokens (insert field number values)

  -- `set(_RULE_KEYS[canonical]) - set(values)`
  abbrev pub missing_of : Dict Text (List Text) → Dict Text F → List Text
  missing_of [] values = []
  missing_of ((name, aliases) ∷ keys) values =
      let rest = missing_of keys values in
      if is_some (lookup name values) then rest else name ∷ rest

  unfoldable pub missing_fields : RuleKind → Dict Text F → List Text
  missing_fields kind values = if is_optional kind then [] else missing_of (rule_keys kind) values

  -- `values[name]`
  abbrev pub value_at : Option F → Result F
  value_at none = raised key_error
  value_at (some v) = ok v

  -- `int(values.get("window", 1))`
  abbrev pub window_or_one : Option F → Result ℤ
  window_or_one none = ok (pos 1)
  window_or_one (some v) = truncate v

  unfoldable pub rule_of_values : RuleKind → Dict Text F → Result (Rule F)
  rule_of_values drawdown_kind values = do
    window ← value_at (lookup (text "window") values)
    window ← truncate window
    threshold ← value_at (lookup (text "threshold") values)
    validated (drawdown_rule window threshold)
  rule_of_values cumulative_return_kind values = do
    window ← value_at (lookup (text "window") values)
    window ← truncate window
    min_return ← value_at (lookup (text "min_return") values)
    max_return ← value_at (lookup (text "max_return") values)
    validated (cumulative_return_rule window min_return max_return)
  rule_of_values limit_up_kind values = do
    window ← window_or_one (lookup (text "window") values)
    validated (limit_up_rule window)
  rule_of_values first_bullish_ma_kind values = do
    fast ← value_at (lookup (text "fast_window") values)
    fast ← truncate fast
    slow ← value_at (lookup (text "slow_window") values)
    slow ← truncate slow
    validated (first_bullish_ma_rule fast slow)

  -- `tokens[0]` of no tokens is an index error.
  unfoldable pub parse_tokens : List Text → Result (Rule F)
  parse_tokens [] = raised index_error
  parse_tokens (head ∷ tokens) = do
    kind ← or_spec_error (kind_of head)
    values ← parameter_values kind tokens []
    require (is_nil (missing_fields kind values)) rule_spec_error
    rule_of_values kind values

  unfoldable pub parse_segments : List Text → Result (List (Rule F))
  parse_segments [] = ok []
  parse_segments (segment ∷ segments) = do
    rule ← parse_tokens (tokens_of segment)
    rules ← parse_segments segments
    ok (rule ∷ rules)

  unfoldable pub parse_rule_spec : Text → Result (List (Rule F))
  parse_rule_spec spec = do
    require (not (is_nil (segments_of spec))) rule_spec_error
    parse_segments (segments_of spec)
