-- ===== src/Strategies/Desk/Entries.antt =====
-- strategy_store.py: a property of the entries of a dictionary, kept by its operations.
use china_a_share.Prelude.{
  ◌≡◌, refl, sym, inl, inr, true, false, Option, none, some, Text, text_beq, pair_eq, pair_beq, Eq,
  ◌==◌, [], ◌∷◌, All, Bool-cases, text_beq_iff, text_eq, arith, Satisfies, returned, Satisfies-bind,
  Satisfies-require, Satisfies-any, permission_error,
}
use china_a_share.Prelude.Maps.{Dict, lookup, insert, remove, lookup-insert, lookup-remove}
use china_a_share.Strategies.Store.{
  Owned, owned_by, get_owned, put_owned, delete_owned, validate_identifier,
}
use mathlib.Core.Path.{subst}

module _ {K A : Type 0} ⦃e : Eq K⦄ (P : K × A → Type 0) where
  pub All-insert : (k : K) (a : A) (d : Dict K A) → P (k, a) → All P d → All P (insert k a d)
  unfolding insert
  All-insert k a [] p h = (p, tt)
  All-insert k a ((j, b) ∷ d) p (q, h) = elim (Bool-cases (j == k)) [
    | inl t ↦ rw t (subst (λ i. P (i, a)) (sym ((e.beq_iff j k).0 t)) p, h)
    | inr t ↦ rw t (q, All-insert k a d p h)
  ]

  pub All-remove : (k : K) (d : Dict K A) → All P d → All P (remove k d)
  unfolding remove
  All-remove k [] h = tt
  All-remove k ((j, b) ∷ d) (q, h) = elim (Bool-cases (j == k)) [
    | inl t ↦ rw t (All-remove k d h)
    | inr t ↦ rw t (q, All-remove k d h)
  ]

  pub All-lookup : (k : K) (a : A) (d : Dict K A) → All P d → lookup k d ≡ some a → P (k, a)
  unfolding lookup
  All-lookup k a [] h f = absurd (cc)
  All-lookup k a ((j, b) ∷ d) (q, h) f = elim (Bool-cases (j == k)) [
    | inl t ↦ let same = (e.beq_iff j k).0 t in let value = rw t at f in subst P (cc) q
    | inr t ↦ All-lookup k a d h (rw t at f)
  ]

pub All-owned_by :
    {A : Type 0} (P : (Text × Text) × A → Type 0) (Q : A → Type 0) (owner : Text) (d : Owned A)
    → ((o i : Text) → (a : A) → text_beq o owner ≡ true → P ((o, i), a) → Q a)
    → All P d
    → All Q (owned_by owner d)
unfolding owned_by
All-owned_by P Q owner [] f h = tt
All-owned_by P Q owner (((o, i), a) ∷ d) f (p, h) = elim (Bool-cases (text_beq o owner)) [
  | inl t ↦ rw t (f o i a t p, All-owned_by P Q owner d f h)
  | inr t ↦ rw t (All-owned_by P Q owner d f h)
]

abbrev pub Possibly : {A : Type 0} → (A → Type 0) → Option A → Type 0
Possibly P none = Unit
Possibly P (some a) = P a

pub Possibly-lookup :
    {A : Type 0} (P : (Text × Text) × A → Type 0) (Q : A → Type 0) (k : Text × Text) (d : Owned A)
    → All P d
    → ((a : A) → P (k, a) → Q a)
    → (v : Option A) → lookup k d ≡ v
    → Possibly Q v
Possibly-lookup P Q k d h g none e = tt
Possibly-lookup P Q k d h g (some a) e = g a (All-lookup P k a d h e)

pub get_owned-Satisfies :
    {A : Type 0} (P : (Text × Text) × A → Type 0) (Q : A → Type 0) (id owner : Text) (d : Owned A)
    → All P d
    → ((a : A) → P ((owner, id), a) → Q a)
    → Satisfies (Possibly Q) (λ _. Unit {0}) (get_owned id owner d)
unfolding get_owned
get_owned-Satisfies P Q id owner d h g =
    Satisfies-bind (Satisfies-any (validate_identifier id)) λ _ _.
      Satisfies-bind (Satisfies-any (validate_identifier owner))
        λ _ _. returned (Possibly-lookup P Q (owner, id) d h g (lookup (owner, id) d) refl)

pub put_owned-Satisfies :
    {A : Type 0} (owner_of id_of : A → Text) (P : Owned A → Type 0) (a : A) (owner : Text)
    (d : Owned A)
    → P (insert (owner, id_of a) a d)
    → Satisfies P (λ _. Unit {0}) (put_owned owner_of id_of a owner d)
unfolding put_owned
put_owned-Satisfies owner_of id_of P a owner d h =
    Satisfies-bind (Satisfies-any (validate_identifier (id_of a))) λ _ _.
      Satisfies-bind (Satisfies-any (validate_identifier owner)) λ _ _.
        Satisfies-bind (Satisfies-any (validate_identifier (owner_of a)))
          λ _ _. Satisfies-require (text_beq (owner_of a) owner) permission_error tt λ _. returned h

pub delete_owned-Satisfies :
    {A : Type 0} (P : Owned A → Type 0) (id owner : Text) (d : Owned A)
    → P (remove (owner, id) d)
    → Satisfies P (λ _. Unit {0}) (delete_owned id owner d)
unfolding delete_owned
delete_owned-Satisfies P id owner d h =
    Satisfies-bind (Satisfies-any (validate_identifier id))
      λ _ _. Satisfies-bind (Satisfies-any (validate_identifier owner)) λ _ _. returned h

-- Another owner's records are not those that change.
pub lookup-insert_other :
    {A : Type 0} (o i owner id : Text) (a : A) (d : Owned A)
    → text_beq o owner ≡ false
    → lookup (o, i) (insert (owner, id) a d) ≡ lookup (o, i) d
lookup-insert_other o i owner id a d h =
    let other : pair_beq (owner, id) (o, i) ≡ false =
      ground (arith, text_beq_iff owner o, text_beq_iff o owner) in
    rw (lookup-insert, other)

pub lookup-remove_other :
    {A : Type 0} (o i owner id : Text) (d : Owned A)
    → text_beq o owner ≡ false
    → lookup (o, i) (remove (owner, id) d) ≡ lookup (o, i) d
lookup-remove_other o i owner id d h =
    let other : pair_beq (owner, id) (o, i) ≡ false =
      ground (arith, text_beq_iff owner o, text_beq_iff o owner) in
    rw (lookup-remove, other)
