-- ===== src/Vix/Commands.antt =====
-- vix/commands.py: the chat commands over a chat's rules. What the regular expressions find in a
-- prompt is an argument; a reply is the value that its text shows.
pub mod Optionals
pub mod Laws
pub mod Removal
pub mod ZeroDays
use china_a_share.Prelude.{
  ℕ, suc, Bool, true, false, ◌&&◌, ◌||◌, not, Option, none, some, Text, text, text_eq, text_beq,
  ◌==◌, nat_beq, if◌then◌else◌, List, [], ◌∷◌, ◌++◌, Result, ok, raised, Fault, filter, any, is_nil,
  length,
}
use china_a_share.Prelude.Maps.{Dict, insert}
use china_a_share.Prelude.Texts.{strip, lower}
use china_a_share.Floats.{Float}
use china_a_share.Vix.Rules.{VixRule, suggest_expected_return_pct, new_vix_rule}
use china_a_share.Vix.Positions.{PositionStore}
use china_a_share.Vix.Positions as Positions
use china_a_share.Vix.Scanner.World.{load_rules}
use china_a_share.Vix.Scanner.Deliver.{is_open}
use china_a_share.Vix.Commands.Optionals.{
  Word, word_direction, Tokens, OptionalFields, parse_optionals, any_exit, merged_rule,
}

-- The part of the service that the rule commands read and write.
pub record Store (F : Type 0) : Type 0 where
  pub rules : Dict Text (List (VixRule F))
  pub positions : Option (PositionStore F)

pub data Command (F : Type 0) : Type 0 where
  list_rules : Command F
  add : Word → F → Tokens F → Command F
  modify : Text → Tokens F → Command F
  remove_rule : Text → Command F

-- `added` shows whether the expectation and the exit were filled in.
pub data Reply (F : Type 0) : Type 0 where
  no_rules : Reply F
  listing : List (VixRule F × Bool) → Reply F
  cannot_add : Fault → Reply F
  already_there : VixRule F → Reply F
  added : VixRule F → ℕ → Bool → Bool → Reply F
  not_found : Text → Reply F
  cannot_modify : Fault → Reply F
  modified : VixRule F → VixRule F → Reply F
  nothing_to_remove : Reply F
  removed_all : ℕ → Reply F
  removed : Text → ℕ → Reply F

abbrev pub or_value : {A : Type 0} → Option A → A → A
or_value none d = d
or_value (some a) d = a

-- `n or 1`, of an optional count.
abbrev pub or_one : Option ℕ → ℕ
or_one none = 1
or_one (some n) = if nat_beq n 0 then 1 else n

abbrev pub is_some : {A : Type 0} → Option A → Bool
is_some none = false
is_some (some a) = true

-- The word for all rules.
abbrev pub every : Text
every = text "全部"

module _ {F : Type 0} where
  unfoldable pub list_entries :
      Option (PositionStore F) → Text → List (VixRule F) → List (VixRule F × Bool)
  list_entries positions chat [] = []
  list_entries positions chat (rule ∷ rules) =
      (rule, is_open positions chat rule.id) ∷ list_entries positions chat rules

  unfoldable pub rules_reply : Text → Store F → Reply F
  unfolding list_entries
  rules_reply chat s =
      let rules = load_rules chat s.rules in
      if is_nil rules then no_rules else listing (list_entries s.positions chat rules)

  unfoldable pub save : Text → List (VixRule F) → Store F → Store F
  save chat rules s = record s { rules = insert chat rules s.rules }

  unfoldable pub same_id : Text → VixRule F → Bool
  same_id target rule = text_beq (lower rule.id) (lower target)

  -- The first rule with an id, and the rules before and after it.
  unfoldable pub find_rule :
      Text → List (VixRule F) → Option (List (VixRule F) × VixRule F × List (VixRule F))
  unfolding same_id
  find_rule target [] = none
  find_rule target (rule ∷ rules) =
      let rest = find_rule target rules in
      if same_id target rule then some ([], rule, rules) else elim rest [
        | none ↦ none
        | some (before, found, after) ↦ some (rule ∷ before, found, after)
      ]

  unfoldable pub delete_each : Text → List (VixRule F) → PositionStore F → PositionStore F
  delete_each chat [] s = s
  delete_each chat (rule ∷ rules) s = delete_each chat rules (Positions.delete chat rule.id s)

  abbrev pub on_positions :
      (PositionStore F → PositionStore F) → Option (PositionStore F) → Option (PositionStore F)
  on_positions g none = none
  on_positions g (some p) = some (g p)

  unfoldable pub remove_rule_reply : Text → Text → Store F → Store F × Reply F
  remove_rule_reply chat target s =
      let rules = load_rules chat s.rules in
      let remaining = filter (λ rule. not (same_id target rule)) rules in
      if is_nil rules
      then (s, nothing_to_remove)
      else if text_beq target every
      then (
        save chat [] (record s { positions = on_positions (delete_each chat rules) s.positions }),
        removed_all (length rules),
      )
      else if nat_beq (length remaining) (length rules)
      then (s, not_found target)
      else (
        save chat remaining
            (record s { positions = on_positions (Positions.delete chat target) s.positions }),
        removed target (length remaining),
      )

module _ {F : Type 0} ⦃f : Float F⦄ where
  open f use {eq, cents}

  unfoldable pub same_trigger : VixRule F → VixRule F → Bool
  same_trigger rule existing =
      text_beq existing.direction rule.direction && eq existing.threshold_pct rule.threshold_pct

  unfoldable pub first_same : VixRule F → List (VixRule F) → Option (VixRule F)
  unfolding same_trigger
  first_same rule [] = none
  first_same rule (r ∷ rules) =
      let rest = first_same rule rules in if same_trigger rule r then some r else rest

  unfoldable pub store_new :
      Text → VixRule F → Bool → Bool → Option (VixRule F) → Store F → Store F × Reply F
  unfolding save
  store_new chat rule filled_expected filled_exit (some existing) s = (s, already_there existing)
  store_new chat rule filled_expected filled_exit none s =
      let rules = load_rules chat s.rules ++ (rule ∷ []) in
      (save chat rules s, added rule (length rules) filled_expected filled_exit)

  unfoldable pub store_built : Text → Bool → Bool → Result (VixRule F) → Store F → Store F × Reply F
  unfolding store_new first_same
  store_built chat filled_expected filled_exit (raised e) s = (s, cannot_add e)
  store_built chat filled_expected filled_exit (ok rule) s =
      store_new chat rule filled_expected filled_exit (first_same rule (load_rules chat s.rules)) s

  -- The rule that an addition asks for; the clock, the new id and the sender are arguments.
  unfoldable pub asked_rule :
      (now new_id sender : Text) → Word → F → OptionalFields F → Result (VixRule F)
  asked_rule now new_id sender word threshold o =
      let direction = word_direction word in
      new_vix_rule now direction threshold sender new_id
        (or_value o.expected (suggest_expected_return_pct direction threshold))
        (or_value o.exit_kind (text "days")) (or_one o.exit_days)
        (or_value o.exit_vix_below (cents 0))

  unfoldable pub add_parsed :
      (now new_id sender chat : Text)
      → Word
      → F
      → Result (OptionalFields F)
      → Store F
      → Store F × Reply F
  unfolding store_built asked_rule
  add_parsed now new_id sender chat word threshold (raised e) s = (s, cannot_add e)
  add_parsed now new_id sender chat word threshold (ok o) s =
      store_built chat (not (is_some o.expected)) (not (any_exit o))
        (asked_rule now new_id sender word threshold o) s

  unfoldable pub add_rule_reply :
      (now new_id sender chat : Text) → Word → F → Tokens F → Store F → Store F × Reply F
  unfolding add_parsed
  add_rule_reply now new_id sender chat word threshold tokens s =
      add_parsed now new_id sender chat word threshold (parse_optionals tokens) s

  unfoldable pub replace_rule :
      Text
      → List (VixRule F)
      → VixRule F
      → List (VixRule F)
      → Result (VixRule F)
      → Store F
      → Store F × Reply F
  unfolding save
  replace_rule chat before rule after (raised e) s = (s, cannot_modify e)
  replace_rule chat before rule after (ok replacement) s =
      (save chat (before ++ (replacement ∷ after)) s, modified rule replacement)

  unfoldable pub modify_parsed :
      (now chat : Text)
      → List (VixRule F)
      → VixRule F
      → List (VixRule F)
      → Result (OptionalFields F)
      → Store F
      → Store F × Reply F
  modify_parsed now chat before rule after (raised e) s = (s, cannot_modify e)
  modify_parsed now chat before rule after (ok o) s =
      replace_rule chat before rule after (merged_rule now rule o) s

  unfoldable pub modify_found :
      (now chat target : Text)
      → Tokens F
      → Option (List (VixRule F) × VixRule F × List (VixRule F))
      → Store F
      → Store F × Reply F
  modify_found now chat target tokens none s = (s, not_found target)
  modify_found now chat target tokens (some (before, rule, after)) s =
      modify_parsed now chat before rule after (parse_optionals tokens) s

  unfoldable pub modify_rule_reply :
      (now chat target : Text) → Tokens F → Store F → Store F × Reply F
  modify_rule_reply now chat target tokens s =
      modify_found now chat target tokens (find_rule (strip target) (load_rules chat s.rules)) s

  -- One command of a sender in a chat.
  unfoldable pub handle_command :
      (now new_id sender chat : Text) → Command F → Store F → Store F × Reply F
  handle_command now new_id sender chat list_rules s = (s, rules_reply chat s)
  handle_command now new_id sender chat (add word threshold tokens) s =
      add_rule_reply now new_id sender chat word threshold tokens s
  handle_command now new_id sender chat (modify target tokens) s =
      modify_rule_reply now chat target tokens s
  handle_command now new_id sender chat (remove_rule target) s = remove_rule_reply chat target s
