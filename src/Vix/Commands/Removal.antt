-- ===== src/Vix/Commands/Removal.antt =====
-- vix/commands.py: what a removal takes away, and what an addition appends.
use china_a_share.Prelude.{
  ℕ, ◌≡◌, ◌≢◌, refl, Bool, true, false, not, Option, none, some, Text, text_eq, text_beq,
  if◌then◌else◌, pair_eq, List, [], ◌∷◌, ◌++◌, All, All-filter, arith, Result, ok, raised, filter,
  length, ==_refl,
}
use china_a_share.Prelude.Maps.{lookup-insert, lookup-remove}
use china_a_share.Floats.{Float}
use china_a_share.Vix.Rules.{VixRule}
use china_a_share.Vix.Rules.Laws.{IsValid, new_vix_rule-IsValid}
use china_a_share.Vix.Positions.{PositionStore, position_key_eq, get, delete}
use china_a_share.Vix.Scanner.World.{load_rules}
use china_a_share.Vix.Commands.Optionals.{Word, Tokens, OptionalFields, parse_optionals}
use china_a_share.Vix.Commands.{
  Store, on_positions, removed, added, save, same_id, same_trigger, first_same, remove_rule_reply,
  store_new, store_built, asked_rule, add_parsed, add_rule_reply,
}

module _ {F : Type 0} where
  load_rules-save :
      (chat c : Text) (rules : List (VixRule F)) (s : Store F)
      → load_rules c (save chat rules s).rules
        ≡ (if text_beq chat c then rules else load_rules c s.rules)
  unfolding load_rules save
  load_rules-save chat c rules s = ground (arith, lookup-insert chat c rules s.rules)

  remove_rule_reply_inv :
      (chat target named : Text) (n : ℕ) (s : Store F) {s' : Store F}
      → remove_rule_reply chat target s ≡ (s', removed named n)
      → let left = filter (λ r. not (same_id target r)) (load_rules chat s.rules) in
        (save chat left (record s { positions = on_positions (delete chat target) s.positions })
          ≡ s')
        × (length left ≡ n)
  unfolding remove_rule_reply
  remove_rule_reply_inv chat target named n s h = ground arith

  positions-save :
      (chat : Text) (rules : List (VixRule F)) (s : Store F)
      → (save chat rules s).positions ≡ s.positions
  unfolding save
  positions-save chat rules s = refl

  -- A removal by id that is confirmed leaves just the chat's rules with another id, in their order,
  -- counts them, leaves the rules of other chats, and deletes of the positions the one under the id
  -- as typed.
  remove_rule_reply_removes :
      (chat target named : Text) (n : ℕ) (s : Store F) {s' : Store F}
      → remove_rule_reply chat target s ≡ (s', removed named n)
      → (load_rules chat s'.rules ≡ filter (λ r. not (same_id target r)) (load_rules chat s.rules))
        × All (λ r. not (same_id target r) ≡ true) (load_rules chat s'.rules)
        × (length (load_rules chat s'.rules) ≡ n)
        × ((c : Text) → text_beq chat c ≡ false → load_rules c s'.rules ≡ load_rules c s.rules)
        × (s'.positions ≡ on_positions (delete chat target) s.positions)
  remove_rule_reply_removes chat target named n s {s'} h =
      let (same, count) = remove_rule_reply_inv chat target named n s h in
      let left = filter (λ r. not (same_id target r)) (load_rules chat s.rules) in
      let s0 = record s { positions = on_positions (delete chat target) s.positions } in
      let own : load_rules chat (save chat left s0).rules ≡ left =
        rw (load_rules-save chat chat left s0, ==_refl {A = Text} chat) refl in
      rw (← same) (
        own,
        rw own (All-filter (λ r. not (same_id target r)) (load_rules chat s.rules)),
        rw own count,
        (λ c other. rw (load_rules-save chat c left s0, other) refl),
        positions-save chat left s0,
      )

  -- With a position store, a confirmed removal leaves the position under every id that differs from
  -- the target as typed, be it only in the case of its letters.
  pub remove_rule_reply_leaves :
      (chat target named rule_id : Text) (n : ℕ) (s : Store F) (store : PositionStore F)
      {s' : Store F}
      → s.positions ≡ some store
      → remove_rule_reply chat target s ≡ (s', removed named n)
      → target ≢ rule_id
      → (after : PositionStore F) × (s'.positions ≡ some after)
        × (get chat rule_id after ≡ get chat rule_id store)
  unfolding get delete
  remove_rule_reply_leaves chat target named rule_id n s store e h ne =
      let kept = (remove_rule_reply_removes chat target named n s h).4 in
      (
        delete chat target store,
        rw kept (rw e refl),
        ground (
          arith,
          lookup-remove (chat, target) (chat, rule_id) store,
          position_key_eq.beq_iff (chat, target) (chat, rule_id),
        ),
      )

module _ {F : Type 0} ⦃f : Float F⦄ where
  open f use {eq, cents}

  first_same-none :
      (r : VixRule F) (rules : List (VixRule F))
      → first_same r rules ≡ none
      → All (λ x. same_trigger r x ≡ false) rules
  unfolding first_same
  first_same-none r [] h = tt
  first_same-none r (x ∷ rules) h = (ground arith, first_same-none r rules (ground arith))

  store_new_inv :
      (chat : Text) (x : VixRule F) (a b : Bool) (same : Option (VixRule F)) (s : Store F)
      {s' : Store F} {r : VixRule F} {n : ℕ} {c d : Bool}
      → store_new chat x a b same s ≡ (s', added r n c d)
      → (same ≡ none)
        × (x ≡ r)
        × (save chat (load_rules chat s.rules ++ (x ∷ [])) s ≡ s')
        × (length (load_rules chat s.rules ++ (x ∷ [])) ≡ n)
  unfolding store_new
  store_new_inv chat x a b (some y) s h = cc
  store_new_inv chat x a b none s h = ground arith

  asked_rule-IsValid :
      (now new_id sender : Text) (w : Word) (t : F) (o : OptionalFields F) {x : VixRule F}
      → asked_rule now new_id sender w t o ≡ ok x
      → IsValid x × (x.id ≡ new_id)
  unfolding asked_rule
  asked_rule-IsValid now new_id sender w t o h =
      let v = new_vix_rule-IsValid _ _ _ _ _ _ _ _ _ h in (v.0, v.1)

  -- What an addition that is confirmed has done to the store.
  pub record Appended (chat new_id : Text) (s s' : Store F) (r : VixRule F) (n : ℕ) : Type 0 where
    pub valid : IsValid r
    pub has_id : r.id ≡ new_id
    pub last : load_rules chat s'.rules ≡ load_rules chat s.rules ++ (r ∷ [])
    pub counted : length (load_rules chat s'.rules) ≡ n
    pub fresh : All (λ x. same_trigger r x ≡ false) (load_rules chat s.rules)
    pub others : (c : Text) → text_beq chat c ≡ false → load_rules c s'.rules ≡ load_rules c s.rules
    pub positions : s'.positions ≡ s.positions

  store_built-Appended :
      (chat new_id : Text) (a b : Bool) (built : Result (VixRule F)) (s : Store F) {s' : Store F}
      {r : VixRule F} {n : ℕ} {c d : Bool}
      → ((x : VixRule F) → built ≡ ok x → IsValid x × (x.id ≡ new_id))
      → store_built chat a b built s ≡ (s', added r n c d)
      → Appended chat new_id s s' r n
  unfolding store_built
  store_built-Appended chat new_id a b (raised e) s v h = cc
  store_built-Appended chat new_id a b (ok x) s {s'} {r} {n} v h =
      let old = load_rules chat s.rules in
      let (alone, same, after, count) = store_new_inv chat x a b (first_same x old) s h in
      let (valid, id) = v x refl in
      let own : load_rules chat (save chat (old ++ (x ∷ [])) s).rules ≡ old ++ (x ∷ []) =
        rw (load_rules-save chat chat (old ++ (x ∷ [])) s, ==_refl {A = Text} chat) refl in
      rw (← same, ← after)
        (record {
          valid = valid;
          has_id = id;
          last = own;
          counted = rw own count;
          fresh = first_same-none x old alone;
          others = λ c other. rw (load_rules-save chat c (old ++ (x ∷ [])) s, other) refl;
          positions = positions-save chat (old ++ (x ∷ [])) s;
        })

  add_parsed-Appended :
      (now new_id sender chat : Text) (w : Word) (t : F) (o : Result (OptionalFields F))
      (s : Store F) {s' : Store F} {r : VixRule F} {n : ℕ} {c d : Bool}
      → add_parsed now new_id sender chat w t o s ≡ (s', added r n c d)
      → Appended chat new_id s s' r n
  unfolding add_parsed
  add_parsed-Appended now new_id sender chat w t (raised e) s h = cc
  add_parsed-Appended now new_id sender chat w t (ok o) s h =
      store_built-Appended chat new_id _ _ _ s (λ x e. asked_rule-IsValid now new_id sender w t o e)
        h

  -- An addition that is confirmed has put a valid rule with the new id last among the chat's rules,
  -- none of which had its trigger, has counted them, and has changed no other chat's rules and no
  -- position.
  pub add_rule_reply_appends :
      (now new_id sender chat : Text) (w : Word) (t : F) (tokens : Tokens F) (s : Store F)
      {s' : Store F} {r : VixRule F} {n : ℕ} {c d : Bool}
      → add_rule_reply now new_id sender chat w t tokens s ≡ (s', added r n c d)
      → Appended chat new_id s s' r n
  unfolding add_rule_reply
  add_rule_reply_appends now new_id sender chat w t tokens s h =
      add_parsed-Appended now new_id sender chat w t (parse_optionals tokens) s h
