-- ===== src/Prelude/Results.antt =====
-- Python's exceptions as values: a result, the kinds of exception that the program raises, and bind.
use mathlib.Core.Bool.{Bool, true, false}
use mathlib.Core.Path.{◌≡◌, refl}
use mathlib.Core.Logic.{◌⊎◌, inl, inr}

pub data Fault : Type 0 where
  value_error runtime_error permission_error key_error type_error : Fault
  zero_division_error overflow_error external_error index_error rule_spec_error : Fault

pub data Result {ℓ} (A : Type ℓ) : Type ℓ where
  ok : A → Result A
  raised : Fault → Result A

infixl 5 ◌>>=◌ ◌>>◌
-- The rest of the code after a value.
abbrev pub ◌>>=◌ {κ μ} : {X : Type κ} {Y : Type μ} → Result X → (X → Result Y) → Result Y
raised fault >>= next = raised fault
ok x >>= next = next x

-- The rest of the code after a check.
abbrev pub ◌>>◌ {κ} : {Y : Type κ} → Result (Unit {0}) → Result Y → Result Y
check >> rest = check >>= λ _. rest

-- `if not test: raise fault`
abbrev pub require : Bool → Fault → Result (Unit {0})
require true e = ok tt
require false e = raised e

pub Result-cases {ℓ} :
    {A : Type ℓ} (r : Result A) → ((a : A) × (r ≡ ok a)) ⊎ ((e : Fault) × (r ≡ raised e))
Result-cases (ok a) = inl (a, refl)
Result-cases (raised e) = inr (e, refl)

-- A result whose value, or else whose fault, has a property.
pub data Satisfies {A : Type 0} (P : A → Type 0) (E : Fault → Type 0) : Result A → Type 0 where
  returned : {a : A} → P a → Satisfies P E (ok a)
  failed : {e : Fault} → E e → Satisfies P E (raised e)

pub Satisfies-bind :
    {A B : Type 0} {P : A → Type 0} {Q : B → Type 0} {E : Fault → Type 0} {x : Result A}
    {k : A → Result B}
    → Satisfies P E x
    → ((a : A) → P a → Satisfies Q E (k a))
    → Satisfies Q E (x >>= k)
Satisfies-bind (returned p) h = h _ p
Satisfies-bind (failed p) h = failed p

pub Satisfies-map :
    {A : Type 0} {P Q : A → Type 0} {E : Fault → Type 0} {x : Result A}
    → Satisfies P E x
    → ((a : A) → P a → Q a)
    → Satisfies Q E x
Satisfies-map (returned p) h = returned (h _ p)
Satisfies-map (failed p) h = failed p

pub Satisfies-require :
    {B : Type 0} {Q : B → Type 0} {E : Fault → Type 0} {rest : Result B}
    → (t : Bool) (e : Fault) → E e
    → (t ≡ true → Satisfies Q E rest)
    → Satisfies Q E (require t e >> rest)
Satisfies-require true e p h = h refl
Satisfies-require false e p h = failed p

pub Satisfies-any : {A : Type 0} (x : Result A) → Satisfies (λ _. Unit {0}) (λ _. Unit {0}) x
Satisfies-any (ok a) = returned tt
Satisfies-any (raised e) = failed tt
