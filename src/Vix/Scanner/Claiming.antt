-- ===== src/Vix/Scanner/Claiming.antt =====
-- vix/scanner.py: what claiming and releasing the rules of one chat does to the set of claims.
use china_a_share.Prelude.{
  ◌≡◌, refl, inl, inr, true, false, ◌&&◌, ◌||◌, not, Text, if◌then◌else◌, List, [], ◌∷◌, ◌++◌,
  arith, Bool-cases,
}
use china_a_share.Vix.Rules.{VixRule}
use china_a_share.Vix.Source.{VixQuote}
use china_a_share.Vix.Claims.{Key, key_eq, has, claim, release, has-release}
use china_a_share.Vix.Scanner.World.{Message, alert, closing, Log}
use china_a_share.Vix.Scanner.Deliver.{alert_key, claim_rules, release_rules}

-- No key stands twice in a list.
abbrev pub Unique : List Key → Type 0
Unique [] = Unit
Unique (k ∷ ks) = (has k ks ≡ false) × Unique ks

pub has-append : (k : Key) (xs ys : List Key) → has k (xs ++ ys) ≡ (has k xs || has k ys)
unfolding has
has-append k [] ys = refl
has-append k (x ∷ xs) ys = ground (arith, has-append k xs ys)

pub Unique-append :
    (xs ys : List Key)
    → Unique xs
    → Unique ys
    → ((k : Key) → has k xs ≡ true → has k ys ≡ false)
    → Unique (xs ++ ys)
unfolding has
Unique-append [] ys u v apart = v
Unique-append (x ∷ xs) ys (n, u) v apart = (
  ground (arith, has-append x xs ys, apart x, key_eq.beq_iff x x),
  Unique-append xs ys u v (λ k h. apart k (ground arith)),
)

-- What `claim_rules` gives: the keys that it claimed, each once and none of them claimed before.
pub record Claimed (c last : List Key) (mine : List Key) : Type 0 where
  pub all_claimed : (k : Key) → has k last ≡ (has k mine || has k c)
  pub unique : Unique mine
  pub were_free : (k : Key) → has k mine ≡ true → has k c ≡ false

module _ {F : Type 0} where
  abbrev pub keys_of : Text → VixQuote F → List (VixRule F) → List Key
  keys_of chat q [] = []
  keys_of chat q (rule ∷ rules) = alert_key chat q rule ∷ keys_of chat q rules

  -- The keys of the alerts that were delivered.
  abbrev pub alerted_by : Text → Message F → List Key
  alerted_by chat (alert q rules index) = keys_of chat q rules
  alerted_by chat (closing p q index reason result) = []

  abbrev pub alerted : Log F → List Key
  alerted [] = []
  alerted (a ∷ log) = (if a.delivered then alerted_by a.chat a.message else []) ++ alerted log

  pub claim_rules_lem :
      (chat : Text) (q : VixQuote F) (rules : List (VixRule F)) (c : List Key)
      → Claimed c (claim_rules chat q rules c).0 (keys_of chat q (claim_rules chat q rules c).1)
  unfolding claim_rules claim has
  claim_rules_lem chat q [] c = record {
    all_claimed = λ k. refl;
    unique = tt;
    were_free = λ k h. cc;
  }
  claim_rules_lem chat q (rule ∷ rules) c =
      let key = alert_key chat q rule in
      elim (Bool-cases (has key c)) [
        | inl taken ↦ rw taken (claim_rules_lem chat q rules c)
        | inr free ↦ rw free (
            let rest = claim_rules_lem chat q rules (key ∷ c) in
            record {
              all_claimed = λ k. ground (arith, rest.all_claimed k);
              unique = (ground (arith, rest.were_free key, key_eq.beq_iff key key), rest.unique);
              were_free = λ k h. ground (arith, rest.were_free k, key_eq.beq_iff key k, free);
            })
      ]

  pub release_rules_lem :
      (chat : Text) (q : VixQuote F) (rules : List (VixRule F)) (c : List Key) (k : Key)
      → has k (release_rules chat q rules c) ≡ (has k c && not (has k (keys_of chat q rules)))
  unfolding release_rules has
  release_rules_lem chat q [] c k = ground arith
  release_rules_lem chat q (rule ∷ rules) c k =
      let key = alert_key chat q rule in
      ground (arith, release_rules_lem chat q rules (release key c) k, has-release k key c)
