-- ===== src/Vix/Commands/Laws.antt =====
-- vix/commands.py: every stored rule stays valid, and what an addition and a modification store.
use china_a_share.Prelude.{
  ◌≡◌, refl, inl, inr, Bool, true, not, Option, none, some, Text, text_eq, text_beq, nat_beq, List,
  [], ◌∷◌, ◌++◌, All, All-append, All-append_inv, All-filter_of_All, arith, Bool-cases,
  Option-cases, Result, ok, raised, Result-cases, filter, is_nil, length,
}
use china_a_share.Prelude.Texts.{strip}
use mathlib.Core.Path.{subst}
use china_a_share.Floats.{Float}
use china_a_share.Vix.Rules.{VixRule}
use china_a_share.Vix.Rules.Laws.{IsValid, new_vix_rule-IsValid}
use china_a_share.Vix.Positions as Positions
use china_a_share.Vix.Scanner.World.{load_rules}
use china_a_share.Vix.Scanner.Events.{AllHits, load_rules-All, insert-AllHits}
use china_a_share.Vix.Commands.Optionals.{
  Word, Tokens, OptionalFields, parse_optionals, merged_rule, merged_build,
}
use china_a_share.Vix.Commands.{
  Store, every, on_positions, delete_each, Command, add, modify, remove_rule, list_rules, save,
  same_id, first_same, find_rule, remove_rule_reply, store_new, store_built, asked_rule, add_parsed,
  add_rule_reply, replace_rule, modify_parsed, modify_found, modify_rule_reply, handle_command,
}

module _ {F : Type 0} ⦃f : Float F⦄ where
  open f use {eq, cents}

  -- Every stored rule of every chat is valid.
  abbrev pub AllValid : Store F → Type 0
  AllValid s = AllHits (λ chat r. IsValid r) s.rules

  save-AllValid :
      (chat : Text) (rules : List (VixRule F)) (s : Store F)
      → AllValid s
      → All IsValid rules
      → AllValid (save chat rules s)
  unfolding save
  save-AllValid chat rules s v h = insert-AllHits (λ c r. IsValid r) chat rules s.rules v h

  loaded-All : (chat : Text) (s : Store F) → AllValid s → All IsValid (load_rules chat s.rules)
  loaded-All chat s v = load_rules-All (λ c r. IsValid r) chat s.rules v

  store_new-AllValid :
      (chat : Text) (x : VixRule F) (a b : Bool) (same : Option (VixRule F)) (s : Store F)
      → IsValid x
      → AllValid s
      → AllValid (store_new chat x a b same s).0
  unfolding store_new
  store_new-AllValid chat x a b (some y) s h v = v
  store_new-AllValid chat x a b none s h v =
      save-AllValid chat _ s v
        (All-append IsValid (load_rules chat s.rules) (x ∷ []) (loaded-All chat s v) (h, tt))

  store_built-AllValid :
      (chat : Text) (a b : Bool) (r : Result (VixRule F)) (s : Store F)
      → ((x : VixRule F) → r ≡ ok x → IsValid x)
      → AllValid s
      → AllValid (store_built chat a b r s).0
  unfolding store_built
  store_built-AllValid chat a b (raised e) s h v = v
  store_built-AllValid chat a b (ok x) s h v =
      store_new-AllValid chat x a b (first_same x (load_rules chat s.rules)) s (h x refl) v

  add_parsed-AllValid :
      (now new_id sender chat : Text) (w : Word) (t : F) (o : Result (OptionalFields F))
      (s : Store F)
      → AllValid s
      → AllValid (add_parsed now new_id sender chat w t o s).0
  unfolding add_parsed asked_rule
  add_parsed-AllValid now new_id sender chat w t (raised e) s v = v
  add_parsed-AllValid now new_id sender chat w t (ok o) s v =
      store_built-AllValid chat _ _ _ s (λ x e. (new_vix_rule-IsValid _ _ _ _ _ _ _ _ _ e).0) v

  merged_build-IsValid :
      (now : Text) (rule : VixRule F) (o : OptionalFields F) {x : VixRule F}
      → merged_build now rule o ≡ ok x
      → IsValid x × (x.id ≡ rule.id) × (x.created_by ≡ rule.created_by)
  unfolding merged_build
  merged_build-IsValid now rule o {x} h =
      let v = new_vix_rule-IsValid _ _ _ _ _ _ _ _ _ h in (v.0, v.1, v.6)

  IsValid-created_at :
      (r : VixRule F) (time : Text) → IsValid r → IsValid (record r { created_at = time })
  IsValid-created_at r time v = record {
    direction_known = v.direction_known;
    threshold_pos = v.threshold_pos;
    threshold_le = v.threshold_le;
    expected_ge = v.expected_ge;
    expected_le = v.expected_le;
    exit_valid = v.exit_valid;
  }

  -- A modification that succeeds gives a valid rule with the id, the creator and the time of the old one.
  pub merged_rule-IsValid :
      (now : Text) (rule : VixRule F) (o : OptionalFields F) {x : VixRule F}
      → merged_rule now rule o ≡ ok x
      → IsValid x
        × (x.id ≡ rule.id)
        × (x.created_by ≡ rule.created_by)
        × (x.created_at ≡ rule.created_at)
  unfolding merged_rule
  merged_rule-IsValid now rule o {x} h = elim (Result-cases (merged_build now rule o)) [
    | inr (e, failed) ↦ ground arith
    | inl (b, built) ↦
        let (v, same_id, same_creator) = merged_build-IsValid now rule o built in
        let kept : record b { created_at = rule.created_at } ≡ x = ground arith in
        subst
          (λ y.
            IsValid y
            × (y.id ≡ rule.id)
            × (y.created_by ≡ rule.created_by)
            × (y.created_at ≡ rule.created_at))
          kept (IsValid-created_at b rule.created_at v, same_id, same_creator, refl)
  ]

  find_rule-split :
      (target : Text) (rules : List (VixRule F)) {before after : List (VixRule F)} {r : VixRule F}
      → find_rule target rules ≡ some (before, r, after)
      → (rules ≡ before ++ (r ∷ after)) × (same_id target r ≡ true)
  unfolding find_rule
  find_rule-split target [] h = cc
  find_rule-split target (x ∷ rules) {before} {after} {r} h = elim (Bool-cases (same_id target x)) [
    | inl e ↦ ground arith
    | inr e ↦ elim (Option-cases (find_rule target rules)) [
      | inl e' ↦ ground arith
      | inr ((b, y, a), e') ↦ ground (arith, find_rule-split target rules e')
    ]
  ]

  replace_rule-AllValid :
      (chat : Text) (before : List (VixRule F)) (rule : VixRule F) (after : List (VixRule F))
      (r : Result (VixRule F)) (s : Store F)
      → ((x : VixRule F) → r ≡ ok x → IsValid x)
      → All IsValid before
      → All IsValid after
      → AllValid s
      → AllValid (replace_rule chat before rule after r s).0
  unfolding replace_rule
  replace_rule-AllValid chat before rule after (raised e) s h b a v = v
  replace_rule-AllValid chat before rule after (ok x) s h b a v =
      save-AllValid chat _ s v (All-append IsValid before (x ∷ after) b (h x refl, a))

  modify_parsed-AllValid :
      (now chat : Text) (before : List (VixRule F)) (rule : VixRule F) (after : List (VixRule F))
      (o : Result (OptionalFields F)) (s : Store F)
      → All IsValid before
      → All IsValid after
      → AllValid s
      → AllValid (modify_parsed now chat before rule after o s).0
  unfolding modify_parsed
  modify_parsed-AllValid now chat before rule after (raised e) s b a v = v
  modify_parsed-AllValid now chat before rule after (ok o) s b a v =
      replace_rule-AllValid chat before rule after _ s (λ x e. (merged_rule-IsValid now rule o e).0)
        b a v

  modify_found-AllValid :
      (now chat target sought : Text) (t : Tokens F) (rules : List (VixRule F))
      (found : Option (List (VixRule F) × VixRule F × List (VixRule F))) (s : Store F)
      → find_rule sought rules ≡ found
      → All IsValid rules
      → AllValid s
      → AllValid (modify_found now chat target t found s).0
  unfolding modify_found
  modify_found-AllValid now chat target sought t rules none s e h v = v
  modify_found-AllValid now chat target sought t rules (some (before, r, after)) s e h v =
      let parts =
        All-append_inv IsValid before (r ∷ after) (rw (find_rule-split sought rules e).0 at h) in
      modify_parsed-AllValid now chat before r after (parse_optionals t) s parts.0 parts.1.1 v

  remove_rule-AllValid :
      (chat target : Text) (s : Store F) → AllValid s → AllValid (remove_rule_reply chat target s).0
  unfolding remove_rule_reply
  remove_rule-AllValid chat target s v =
      let rules = load_rules chat s.rules in
      let left = filter (λ r. not (same_id target r)) rules in
      elim (Bool-cases (is_nil rules)) [
        | inl e ↦ rw e v
        | inr e ↦ elim (Bool-cases (text_beq target every)) [
          | inl e' ↦
              rw (e, e')
                (save-AllValid chat []
                  (record s { positions = on_positions (delete_each chat rules) s.positions }) v tt)
          | inr e' ↦ elim (Bool-cases (nat_beq (length left) (length rules))) [
            | inl e'' ↦ rw (e, e', e'') v
            | inr e'' ↦
                rw (e, e', e'')
                  (save-AllValid chat left
                    (record s {
                      positions = on_positions (Positions.delete chat target) s.positions;
                    })
                    v (All-filter_of_All IsValid _ rules (loaded-All chat s v)))
          ]
        ]
      ]

  -- If every stored rule of every chat is valid, it is so after any command.
  pub handle_command-AllValid :
      (now new_id sender chat : Text) (c : Command F) (s : Store F)
      → AllValid s
      → AllValid (handle_command now new_id sender chat c s).0
  unfolding handle_command add_rule_reply modify_rule_reply
  handle_command-AllValid now new_id sender chat list_rules s v = v
  handle_command-AllValid now new_id sender chat (add word threshold tokens) s v =
      add_parsed-AllValid now new_id sender chat word threshold (parse_optionals tokens) s v
  handle_command-AllValid now new_id sender chat (modify target tokens) s v =
      let rules = load_rules chat s.rules in
      modify_found-AllValid now chat target (strip target) tokens rules _ s refl
        (loaded-All chat s v) v
  handle_command-AllValid now new_id sender chat (remove_rule target) s v =
      remove_rule-AllValid chat target s v
