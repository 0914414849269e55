-- ===== src/Strategies/Acts.antt =====
-- Calls that read and change a state and may raise. What a call has changed before it raises stays
-- changed.
pub mod Keeping
use china_a_share.Prelude.{Result, ok, raised, Satisfies}

abbrev pub Action : (W A : Type 0) → Type 0
Action W A = W → Result A × W

module _ {W : Type 0} where
  abbrev pub proceed : {A B : Type 0} → Result A × W → (A → Action W B) → Result B × W
  proceed (ok a, s) next = next a s
  proceed (raised e, s) next = (raised e, s)

  infixl 5 ◌>>=◌
  abbrev pub ◌>>=◌ : {A B : Type 0} → Action W A → (A → Action W B) → Action W B
  (act >>= next) s = proceed (act s) next

  abbrev pub answer : {A : Type 0} → A → Action W A
  answer a s = (ok a, s)

  -- A call that does not touch the state.
  abbrev pub attempt : {A : Type 0} → Result A → Action W A
  attempt r s = (r, s)

  -- A call that reads the state.
  abbrev pub reading : {A : Type 0} → (W → Result A) → Action W A
  reading f s = (f s, s)

  -- An act that keeps a property of the state, raise or not, and whose answer has a property.
  pub record Keeps {A : Type 0} (I : W → Type 0) (Q : A → Type 0) (act : Action W A) : Type 0 where
    pub runs : (s : W) → I s → Satisfies Q (λ _. Unit {0}) (act s).0 × I (act s).1
