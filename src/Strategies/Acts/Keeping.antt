-- ===== src/Strategies/Acts/Keeping.antt =====
-- How calls keep a property of the state, step by step.
use china_a_share.Prelude.{
  ◌≡◌, refl, Bool, true, false, Result, Satisfies, returned, failed, if◌then◌else◌,
}
use china_a_share.Strategies.Acts.{Action, ◌>>=◌, answer, attempt, proceed, Keeps}

module _ {W : Type 0} {I : W → Type 0} where
  proceed-Keeps :
      {A B : Type 0} (P : A → Type 0) (Q : B → Type 0) (r : Result A) (s : W) (k : A → Action W B)
      → Satisfies P (λ _. Unit {0}) r
      → I s
      → ((a : A) → P a → Keeps I Q (k a))
      → Satisfies Q (λ _. Unit {0}) (proceed (r, s) k).0 × I (proceed (r, s) k).1
  proceed-Keeps P Q r s k (returned p) i h = (h _ p).runs s i
  proceed-Keeps P Q r s k (failed p) i h = (failed p, i)

  pub Keeps-bind :
      {A B : Type 0} {P : A → Type 0} {Q : B → Type 0} {x : Action W A} {k : A → Action W B}
      → Keeps I P x
      → ((a : A) → P a → Keeps I Q (k a))
      → Keeps I Q (x >>= k)
  Keeps-bind {P = P} {Q = Q} {x = x} {k = k} p h = record {
    runs = λ s i. let (r, j) = p.runs s i in proceed-Keeps P Q (x s).0 (x s).1 k r j h;
  }

  pub Keeps-answer : {A : Type 0} {Q : A → Type 0} {a : A} → Q a → Keeps I Q (answer a)
  Keeps-answer q = record { runs = λ s i. (returned q, i) }

  pub Keeps-attempt :
      {A : Type 0} {Q : A → Type 0} {r : Result A}
      → Satisfies Q (λ _. Unit {0}) r
      → Keeps I Q (attempt r)
  Keeps-attempt q = record { runs = λ s i. (q, i) }

  pub Keeps-if :
      {A : Type 0} {Q : A → Type 0} (t : Bool) {x y : Action W A}
      → (t ≡ true → Keeps I Q x)
      → (t ≡ false → Keeps I Q y)
      → Keeps I Q (if t then x else y)
  Keeps-if true p q = p refl
  Keeps-if false p q = q refl
