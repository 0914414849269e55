-- ===== src/Vix/History/Lookup.antt =====
-- vix/history.py: a lookup finds the nearest earlier day.
use china_a_share.Prelude.{
  ◌≡◌, inl, inr, true, false, Option, some, Text, text_lt, text_eq, text_beq, List, [], ◌∷◌, filter,
  All, All-map, All-of_filter, ==_refl, arith, Bool-cases, Option-cases, All-filter,
  All-filter_of_All,
}
use china_a_share.Prelude.Maps.{lookup}
use mathlib.Core.Option.{some-injective}
use mathlib.Core.Path.{subst}
use china_a_share.Vix.History.{Closes, keys, max_text, previous_key, max_of, lookup_day, value_at}
use china_a_share.Vix.History.Greatest.{max_text-All, NotAbove, max_text-NotAbove}

previous_key_lem :
    (P : Text → Type 0) (date : Text) (ks : List Text) {m : Text}
    → All P ks
    → previous_key date ks ≡ some m
    → P m × (text_lt m date ≡ true) × All (λ k. text_lt k date ≡ true → text_lt m k ≡ false) ks
unfolding previous_key max_of
previous_key_lem P date ks h e =
    go (filter (λ k. text_lt k date) ks) (All-filter_of_All P _ ks h) (All-filter _ ks)
      (λ m top. All-of_filter (NotAbove m) _ ks top) e
  where
    go :
        (earlier : List Text) {m : Text}
        → All P earlier
        → All (λ k. text_lt k date ≡ true) earlier
        → ((m : Text)
            → All (NotAbove m) earlier
            → All (λ k. text_lt k date ≡ true → text_lt m k ≡ false) ks)
        → max_of earlier ≡ some m
        → P m × (text_lt m date ≡ true) × All (λ k. text_lt k date ≡ true → text_lt m k ≡ false) ks
    go [] p below up e = cc
    go (k ∷ rest) (p, ps) (b, bs) up e =
        let same = some-injective _ _ e in
        subst
          (λ m.
            P m
            × (text_lt m date ≡ true)
            × All (λ k. text_lt k date ≡ true → text_lt m k ≡ false) ks)
          same
          (
            max_text-All P k rest p ps,
            max_text-All (λ j. text_lt j date ≡ true) k rest b bs,
            up (max_text k rest) (max_text-NotAbove k rest),
          )

module _ {F : Type 0} where
  keys-lookup : (d : Closes F) → All (λ k. (v : F) × (lookup k d ≡ some v)) (keys d)
  unfolding keys lookup
  keys-lookup [] = tt
  keys-lookup ((j, w) ∷ d) = (
    (w, rw (==_refl j)),
    All-map _ _ (keys d)
        (λ k h. elim (Bool-cases (text_beq j k)) [ inl e ↦ (w, rw e) | inr e ↦ (h.0, rw e h.1) ])
        (keys-lookup d),
  )

  -- A lookup that finds something gives the close of the date and the greatest earlier day of the
  -- series with its close.
  pub lookup_day_lem :
      (date : Text) (d : Closes F) {prev : Text} {was now : F}
      → lookup_day date d ≡ some (prev, was, now)
      → (lookup date d ≡ some now)
        × (lookup prev d ≡ some was)
        × (text_lt prev date ≡ true)
        × All (λ k. text_lt k date ≡ true → text_lt prev k ≡ false) (keys d)
  unfolding lookup_day
  lookup_day_lem date d {prev} {was} {now} h = elim (Option-cases (lookup date d)) [
    | inl e ↦ ground arith
    | inr (x, e) ↦ elim (Option-cases (previous_key date (keys d))) [
      | inl e' ↦ ground arith
      | inr (m, e') ↦
          let ((v, found), before, nearest) = previous_key_lem _ date (keys d) (keys-lookup d) e' in
          let given : ◌≡◌ {A = Option (Text × F × F)} (some (m, value_at m d x, x))
              (some (prev, was, now)) =
            ground arith in
          let same : m ≡ prev = ground arith in
          (
            ground arith,
            ground arith,
            ground arith,
            subst (λ n. All (λ k. text_lt k date ≡ true → text_lt n k ≡ false) (keys d)) same
                nearest,
          )
    ]
  ]
