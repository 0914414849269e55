-- ===== src/Tasks/Throttle/Laws.antt =====
-- tasks.py: the writes of one object are a second apart.
use china_a_share.Prelude.{
  ℕ, ◌+◌, ◌≤◌, inl, inr, Option, none, some, Text, text_eq, text_beq, text_beq_iff, List, [], ◌∷◌,
  arith, Bool-cases, if◌then◌else◌,
}
use mathlib.Core.Path.{subst}
use china_a_share.Prelude.Maps.{Dict, lookup, insert, lookup-insert}
use china_a_share.Tasks.Throttle.{
  min_object_write_interval, scheduled, wait_for_write_slot, write_times,
}

-- The times of one object.
abbrev pub times_of : Text → List (Text × ℕ) → List ℕ
times_of name [] = []
times_of name ((j, t) ∷ ws) =
    let rest = times_of name ws in if text_beq j name then t ∷ rest else rest

-- Each time at least the bound, and the interval between each and the next.
abbrev pub IsSpaced : ℕ → List ℕ → Type 0
IsSpaced bound [] = Unit
IsSpaced bound (t ∷ ts) = (bound ≤ t) × IsSpaced (t + min_object_write_interval) ts

abbrev pub bound_of : Option ℕ → ℕ
bound_of none = 0
bound_of (some t) = t

bound_le : (now : ℕ) (o : Option ℕ) → bound_of o ≤ scheduled now o
bound_le now none = omega arith
bound_le now (some t) = omega arith

write_times-IsSpaced_from :
    (name : Text) (requests : List (Text × ℕ)) (schedule : Dict Text ℕ)
    → IsSpaced (bound_of (lookup name schedule)) (times_of name (write_times requests schedule))
unfolding write_times wait_for_write_slot
write_times-IsSpaced_from name [] schedule = tt
write_times-IsSpaced_from name ((j, now) ∷ requests) schedule =
    let next = insert j (scheduled now (lookup j schedule) + min_object_write_interval) schedule in
    let later = write_times-IsSpaced_from name requests next in
    let looked =
      lookup-insert j name (scheduled now (lookup j schedule) + min_object_write_interval)
        schedule in
    elim (Bool-cases (text_beq j name)) [
      | inl e ↦
          let le : bound_of (lookup name schedule) ≤ scheduled now (lookup j schedule) =
            subst (λ i. bound_of (lookup i schedule) ≤ scheduled now (lookup j schedule))
              ((text_beq_iff j name).0 e) (bound_le now (lookup j schedule)) in
          let later = rw (looked, e) at later in rw e (le, later)
      | inr e ↦ rw e (let later = rw (looked, e) at later in later)
    ]

-- Whatever slots are requested from an empty schedule and at whatever times, the writes of any one
-- object are at least one second apart.
pub write_times-IsSpaced :
    (name : Text) (requests : List (Text × ℕ))
    → IsSpaced 0 (times_of name (write_times requests []))
unfolding lookup
write_times-IsSpaced name requests = write_times-IsSpaced_from name requests []
