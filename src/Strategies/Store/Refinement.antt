-- ===== src/Strategies/Store/Refinement.antt =====
-- strategy_store.py: `CloudStorageStrategyStore` does what `MemoryStrategyStore` does.
use china_a_share.Prelude.{
  ◌≡◌, refl, sym, ap, ◌∙◌, inl, inr, Bool, true, false, Option, none, some, Text, text_eq, text_beq,
  text_beq_iff, pair_beq, pair_beq_iff, pair_eq, ◌==◌, ==_ne, Fault, Result, ok, raised,
  permission_error, require, ◌>>=◌, if◌then◌else◌, Bool-cases,
}
use china_a_share.Prelude.Maps.{lookup, insert, remove, lookup-insert, lookup-remove}
use china_a_share.Strategies.Store.{validate_identifier, Owned, get_owned, put_owned, delete_owned}
use china_a_share.Strategies.Store.Names.{
  has_slash, validate_identifier-slash, owned_name, owned_name_inj,
}
use china_a_share.Strategies.Store.Cloud.{
  Bucket, Codec, check_owned, cloud_get, cloud_put, cloud_delete, erase_found,
}

-- What the bucket's calls promise: an upload and a deletion change their own object only, and a
-- creation succeeds just where there is no object.
pub record IsBucket {B : Type 0} (bucket : Bucket B) : Type 0 where
  pub download-upload :
      (m n content : Text) (b : B)
      → bucket.download n (bucket.upload m content b)
        ≡ (if m == n then some content else bucket.download n b)
  pub download-erase :
      (m n : Text) (b : B)
      → bucket.download n (bucket.erase m b) ≡ (if m == n then none else bucket.download n b)
  pub create_only-absent :
      (n content : Text) (b : B)
      → bucket.download n b ≡ none
      → bucket.create_only n content b ≡ some (bucket.upload n content b)
  pub create_only-present :
      (n content found : Text) (b : B)
      → bucket.download n b ≡ some found
      → bucket.create_only n content b ≡ none

-- What is dumped loads back.
abbrev pub IsCodec : {A : Type 0} → Codec A → Type 0
IsCodec codec = (a : _) → codec.load (codec.dump a) ≡ ok a

-- Two ways on from the same check.
pub bind-cong :
    {X : Type 0} (c : Result (Unit {0})) (x y : Result X)
    → (c ≡ ok tt → x ≡ y)
    → (c >>= λ _. x) ≡ (c >>= λ _. y)
bind-cong (ok u) x y h = h refl
bind-cong (raised e) x y h = refl

pub require-true : (t : Bool) (e : Fault) → require t e ≡ ok tt → t ≡ true
require-true true e h = refl
require-true false e h = absurd (cc)

module _ {A B : Type 0} (bucket : Bucket B) (codec : Codec A) (owner_of id_of : A → Text)
    (prefix : Text) where
  abbrev pub dumped : Option A → Option Text
  dumped none = none
  dumped (some a) = some (codec.dump a)

  -- The bucket has under the name of each key what the dictionary has, and each record is under its
  -- own owner.
  pub record IsRepresented (d : Owned A) (b : B) : Type 0 where
    pub same :
        (owner id : Text)
        → has_slash owner ≡ false
        → bucket.download (owned_name prefix owner id) b ≡ dumped (lookup (owner, id) d)
    pub owned :
        (owner id : Text) (a : A)
        → lookup (owner, id) d ≡ some a
        → text_beq (owner_of a) owner ≡ true

  -- Both raise alike, or both go on with a dictionary and the bucket that represents it.
  abbrev pub IsSimulated : Result (Owned A) → Result B → Type 0
  IsSimulated (ok d) (ok b) = IsRepresented d b
  IsSimulated (raised e) (raised f) = e ≡ f
  IsSimulated (ok d) (raised f) = ⊥
  IsSimulated (raised e) (ok b) = ⊥

  IsSimulated-check :
      (c : Result (Unit {0})) (x : Result (Owned A)) (y : Result B)
      → (c ≡ ok tt → IsSimulated x y)
      → IsSimulated (c >>= λ _. x) (c >>= λ _. y)
  IsSimulated-check (ok u) x y h = h refl
  IsSimulated-check (raised e) x y h = refl

  -- The names of the objects are as different as the keys.
  owned_name-beq :
      (owner id owner' id' : Text)
      → has_slash owner ≡ false
      → has_slash owner' ≡ false
      → text_beq (owned_name prefix owner id) (owned_name prefix owner' id')
        ≡ pair_beq (owner, id) (owner', id')
  owned_name-beq owner id owner' id' p q = elim (Bool-cases (pair_beq (owner, id) (owner', id'))) [
    | inl e ↦
        let keys = (pair_beq_iff (owner, id) (owner', id')).0 e in
        let names : owned_name prefix owner id ≡ owned_name prefix owner' id' =
          ap (λ k. owned_name prefix k.0 k.1) keys in
        (text_beq_iff _ _).1 names ∙ sym e
    | inr e ↦
        ==_ne _ _ (λ names.
          let (same_owner, same_id) = owned_name_inj prefix owner id owner' id' p q names in
          let hit = (pair_beq_iff (owner, id) (owner', id')).1 (cc) in cc)
        ∙ sym e
  ]

  dumped-if :
      (t : Bool) (v w : Option A) → dumped (if t then v else w) ≡ (if t then dumped v else dumped w)
  dumped-if true v w = refl
  dumped-if false v w = refl

  module _ (laws : IsBucket bucket) (law : IsCodec codec) where
    check_owned-dumped :
        (owner : Text) (v : Option A)
        → ((a : A) → v ≡ some a → text_beq (owner_of a) owner ≡ true)
        → check_owned bucket codec owner_of id_of prefix owner (dumped v) ≡ ok v
    unfolding check_owned
    check_owned-dumped owner none h = refl
    check_owned-dumped owner (some a) h = rw (law a, h a refl)

    -- A found record passes the owner's check.
    check_owned-found :
        (owner id : Text) (d : Owned A) (b : B)
        → IsRepresented d b
        → has_slash owner ≡ false
        → check_owned bucket codec owner_of id_of prefix owner
            (bucket.download (owned_name prefix owner id) b)
          ≡ ok (lookup (owner, id) d)
    check_owned-found owner id d b r h =
        rw (r.same owner id h) (check_owned-dumped owner (lookup (owner, id) d) (r.owned owner id))

    pub cloud_get-get_owned :
        (id owner : Text) (d : Owned A) (b : B)
        → IsRepresented d b
        → cloud_get bucket codec owner_of id_of prefix id owner b ≡ get_owned id owner d
    unfolding cloud_get get_owned
    cloud_get-get_owned id owner d b r = bind-cong (validate_identifier id) _ _ λ _.
        bind-cong (validate_identifier owner) _ _
          λ h. check_owned-found owner id d b r (validate_identifier-slash owner h)

    upload-IsRepresented :
        (a : A) (owner : Text) (d : Owned A) (b : B)
        → IsRepresented d b
        → has_slash owner ≡ false
        → text_beq (owner_of a) owner ≡ true
        → IsRepresented
            (insert (owner, id_of a) a d)
            (bucket.upload (owned_name prefix owner (id_of a)) (codec.dump a) b)
    upload-IsRepresented a owner d b r h q = record {
      same = λ owner' id' h'.
          let names = owned_name-beq owner (id_of a) owner' id' h h' in
          rw (laws.download-upload, lookup-insert, names, dumped-if, r.same owner' id' h');
      owned = λ owner' id' a' found. elim (Bool-cases (pair_beq (owner, id_of a) (owner', id'))) [
        | inl e ↦
            let new = rw (lookup-insert, e) at found in
            let same = ap (λ k. k.0) ((pair_beq_iff (owner, id_of a) (owner', id')).0 e) in cc
        | inr e ↦ let old = rw (lookup-insert, e) at found in r.owned owner' id' a' old
      ];
    }

    -- What is there is erased, and what is not is not there to be removed.
    erase_found-same :
        (v : Option A) (id owner id' owner' : Text) (d : Owned A) (b : B)
        → IsRepresented d b
        → has_slash owner ≡ false
        → has_slash owner' ≡ false
        → lookup (owner, id) d ≡ v
        → bucket.download
            (owned_name prefix owner' id')
            (erase_found bucket codec owner_of id_of prefix v (owned_name prefix owner id) b)
          ≡ dumped (lookup (owner', id') (remove (owner, id) d))
    unfolding erase_found
    erase_found-same none id owner id' owner' d b r h h' e =
        elim (Bool-cases (pair_beq (owner, id) (owner', id'))) [
          | inl f ↦
              let keys = (pair_beq_iff (owner, id) (owner', id')).0 f in
              let absent : lookup (owner', id') d ≡ none = ap (λ k. lookup k d) (sym keys) ∙ e in
              rw (lookup-remove, f, r.same owner' id' h', absent)
          | inr f ↦ rw (lookup-remove, f) (r.same owner' id' h')
        ]
    erase_found-same (some a) id owner id' owner' d b r h h' e =
        let names = owned_name-beq owner id owner' id' h h' in
        rw (laws.download-erase, lookup-remove, names, dumped-if, r.same owner' id' h')

    erase-IsRepresented :
        (id owner : Text) (d : Owned A) (b : B)
        → IsRepresented d b
        → has_slash owner ≡ false
        → IsRepresented (remove (owner, id) d) (
            erase_found bucket codec owner_of id_of prefix
              (lookup (owner, id) d)
              (owned_name prefix owner id)
              b)
    erase-IsRepresented id owner d b r h = record {
      same = λ owner' id' h'.
          erase_found-same (lookup (owner, id) d) id owner id' owner' d b r h h' refl;
      owned = λ owner' id' a found. elim (Bool-cases (pair_beq (owner, id) (owner', id'))) [
        | inl e ↦ absurd (let gone = rw (lookup-remove, e) at found in cc)
        | inr e ↦ let old = rw (lookup-remove, e) at found in r.owned owner' id' a old
      ];
    }

    pub cloud_put-put_owned :
        (a : A) (owner : Text) (d : Owned A) (b : B)
        → IsRepresented d b
        → IsSimulated
            (put_owned owner_of id_of a owner d)
            (cloud_put bucket codec owner_of id_of prefix a owner b)
    unfolding cloud_put put_owned
    cloud_put-put_owned a owner d b r = IsSimulated-check (validate_identifier (id_of a)) _ _ λ _.
        IsSimulated-check (validate_identifier owner) _ _ λ h.
          IsSimulated-check (validate_identifier (owner_of a)) _ _ λ _.
            IsSimulated-check (require (text_beq (owner_of a) owner) permission_error) _ _ λ q.
              let slash = validate_identifier-slash owner h in
              let found = check_owned-found owner (id_of a) d b r slash in
              rw found (upload-IsRepresented a owner d b r slash (require-true _ _ q))

    pub cloud_delete-delete_owned :
        (id owner : Text) (d : Owned A) (b : B)
        → IsRepresented d b
        → IsSimulated
            (delete_owned id owner d)
            (cloud_delete bucket codec owner_of id_of prefix id owner b)
    unfolding cloud_delete delete_owned
    cloud_delete-delete_owned id owner d b r = IsSimulated-check (validate_identifier id) _ _ λ _.
        IsSimulated-check (validate_identifier owner) _ _ λ h.
          let slash = validate_identifier-slash owner h in
          let found = check_owned-found owner id d b r slash in
          rw found (erase-IsRepresented id owner d b r slash)
