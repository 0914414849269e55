-- ===== src/Strategies/Interaction/Named.antt =====
-- strategy_interaction.py: the text that a command's pattern matches is not empty.
use china_a_share.Prelude.{
  ℕ, ◌≡◌, refl, ap, ◌∙◌, inl, inr, Bool, true, false, not, ◌&&◌, ◌||◌, Option, none, some, Text,
  text, text_beq, [], ◌∷◌, ◌++◌, is_nil, any, nat_beq, arith, if◌then◌else◌, Bool-cases,
}
use china_a_share.Prelude.Texts.{strip, drop_while, is_space}
use china_a_share.Strategies.Interaction.Dispatch.{
  Command, menu_command, create_command, list_command, run_command, delete_command, trial_command,
  cancel_command, name_command, rules_command, unknown, starts_with_space, group_of, argument_from,
  argument_of, after_prefix, optional_argument, or_command, read_command,
}
use mathlib.Core.List.{reverse, reverse-cons}

any_append : (p : ℕ → Bool) (s t : Text) → any p (s ++ t) ≡ (any p s || any p t)
unfolding any
any_append p [] t = refl
any_append p (c ∷ s) t = ground (arith, any_append p s t)

any-reverse : (p : ℕ → Bool) (s : Text) → any p (reverse s) ≡ any p s
unfolding any
any-reverse p [] = refl
any-reverse p (c ∷ s) =
    let rest = any-reverse p s in
    let parts = ap (any p) (reverse-cons c s) ∙ any_append p (reverse s) (c ∷ []) in ground arith

-- A character that the test refuses stops the dropping.
drop_while-stops :
    (p : ℕ → Bool) (s : Text)
    → any (λ c. not (p c)) s ≡ true
    → any (λ c. not (p c)) (drop_while p s) ≡ true
unfolding any drop_while
drop_while-stops p [] h = h
drop_while-stops p (c ∷ s) h = ground (arith, drop_while-stops p s)

drop_while-first :
    (p : ℕ → Bool) (s : Text) → is_nil (drop_while p s) ≡ false → any (λ c. not (p c)) s ≡ true
unfolding any drop_while
drop_while-first p [] h = absurd (cc)
drop_while-first p (c ∷ s) h = ground (arith, drop_while-first p s)

any-some : (p : ℕ → Bool) (s : Text) → any p s ≡ true → is_nil s ≡ false
unfolding any
any-some p [] h = absurd (cc)
any-some p (c ∷ s) h = refl

strip-some : (s : Text) → any (λ c. not (is_space c)) s ≡ true → is_nil (strip s) ≡ false
unfolding strip
strip-some s h =
    let left = drop_while-stops is_space s h in
    let turned = any-reverse (λ c. not (is_space c)) (drop_while is_space s) ∙ left in
    let right = drop_while-stops is_space (reverse (drop_while is_space s)) turned in
    any-some (λ c. not (is_space c)) _ (any-reverse (λ c. not (is_space c)) _ ∙ right)

group_of-some : (s n : Text) → group_of s ≡ some n → is_nil n ≡ false
unfolding group_of
group_of-some s n h =
    elim (Bool-cases (
      starts_with_space s
      && not (is_nil (drop_while is_space s))
      && not (any (nat_beq 10) (drop_while is_space s)))) [
        | inr e ↦ absurd (let h' = rw e at h in cc)
        | inl e ↦
            let h' = rw e at h in
            let first = drop_while-first is_space s (ground arith) in
            let whole = strip-some (drop_while is_space s) (drop_while-stops is_space s first) in cc
      ]

argument_from-some : (v : Option Text) (n : Text) → argument_from v ≡ some n → is_nil n ≡ false
argument_from-some none n h = absurd (cc)
argument_from-some (some rest) n h = group_of-some rest n h

argument_of-some : (name s n : Text) → argument_of name s ≡ some n → is_nil n ≡ false
unfolding argument_of
argument_of-some name s n h = argument_from-some (after_prefix name s) n h

-- The command that sets a name has one.
abbrev pub has_name : Command → Bool
has_name (name_command name) = not (is_nil name)
has_name menu_command = true
has_name list_command = true
has_name run_command = true
has_name cancel_command = true
has_name unknown = true
has_name (create_command name) = true
has_name (delete_command target) = true
has_name (trial_command body) = true
has_name (rules_command spec) = true

pub record IsNamed (c : Command) : Type 0 where
  pub holds : has_name c ≡ true

or_command-IsNamed :
    {v : Option Text} {make : Text → Command} {rest : Command}
    → ((n : Text) → v ≡ some n → IsNamed (make n))
    → IsNamed rest
    → IsNamed (or_command v make rest)
or_command-IsNamed {v = none} h k = k
or_command-IsNamed {v = some n} h k = h n refl

if-IsNamed : (t : Bool) (c d : Command) → IsNamed c → IsNamed d → IsNamed (if t then c else d)
if-IsNamed true c d h k = h
if-IsNamed false c d h k = k

other : {c : Command} → has_name c ≡ true → IsNamed c
other h = record { holds = h }

pub read_command-IsNamed : (s : Text) → IsNamed (read_command s)
unfolding read_command
read_command-IsNamed s =
    if-IsNamed (text_beq s (text "策略菜单") || text_beq s (text "策略")) menu_command _ (other refl) (
      or_command-IsNamed {v = optional_argument (text "新建策略") s} (λ n h. other refl)
        (if-IsNamed (text_beq s (text "策略列表")) list_command _ (other refl) (
          if-IsNamed (text_beq s (text "运行规则")) run_command _ (other refl) (
            or_command-IsNamed {v = argument_of (text "删除规则") s} (λ n h. other refl)
              (or_command-IsNamed {v = optional_argument (text "试算规则") s} (λ n h. other refl)
                (if-IsNamed (text_beq s (text "取消草稿")) cancel_command _ (other refl) (
                  or_command-IsNamed {v = argument_of (text "策略名称") s}
                    (λ n h. other (ap not (argument_of-some (text "策略名称") s n h)))
                    (or_command-IsNamed {v = argument_of (text "规则") s} (λ n h. other refl)
                      (other refl)))))))))
