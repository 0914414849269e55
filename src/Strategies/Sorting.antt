-- ===== src/Strategies/Sorting.antt =====
-- `sorted(xs, key=...)` by a text: the elements of the list, in the order of their keys.
use china_a_share.Prelude.{
  ◌≡◌, refl, ◌⊎◌, inl, inr, false, Text, text_lt, text_lt_asym, text_lt_cotrans, List, [], ◌∷◌, All,
  All-map, Elem, Bool-cases, if◌then◌else◌,
}
use mathlib.Core.Path.{subst}

module _ {A : Type 0} (key : A → Text) where
  -- An element comes in before those with its own key, so that the sort is stable.
  unfoldable pub insert_by : A → List A → List A
  insert_by x [] = x ∷ []
  insert_by x (y ∷ ys) =
      let rest = insert_by x ys in if text_lt (key y) (key x) then y ∷ rest else x ∷ y ∷ ys

  unfoldable pub sort_by : List A → List A
  sort_by [] = []
  sort_by (x ∷ xs) = insert_by x (sort_by xs)

  -- No element is below one before it.
  abbrev pub IsSorted : List A → Type 0
  IsSorted [] = Unit
  IsSorted (x ∷ xs) = All (λ y. text_lt (key y) (key x) ≡ false) xs × IsSorted xs

  All-insert_by : (P : A → Type 0) (x : A) (xs : List A) → P x → All P xs → All P (insert_by x xs)
  unfolding insert_by
  All-insert_by P x [] p h = (p, h)
  All-insert_by P x (y ∷ ys) p (q, h) = elim (Bool-cases (text_lt (key y) (key x))) [
    | inl e ↦ rw e (q, All-insert_by P x ys p h)
    | inr e ↦ rw e (p, (q, h))
  ]

  pub All-sort_by : (P : A → Type 0) (xs : List A) → All P xs → All P (sort_by xs)
  unfolding sort_by
  All-sort_by P [] h = tt
  All-sort_by P (x ∷ xs) (p, h) = All-insert_by P x (sort_by xs) p (All-sort_by P xs h)

  insert_by-IsSorted : (x : A) (xs : List A) → IsSorted xs → IsSorted (insert_by x xs)
  unfolding insert_by
  insert_by-IsSorted x [] a = (tt, tt)
  insert_by-IsSorted x (y ∷ ys) (a, as') = elim (Bool-cases (text_lt (key y) (key x))) [
    | inl e ↦ rw e (
      All-insert_by (λ z. text_lt (key z) (key y) ≡ false) x ys (text_lt_asym (key y) (key x) e) a,
      insert_by-IsSorted x ys as',
    )
    | inr e ↦
        rw e ((e, All-map _ _ ys (λ z h. text_lt_cotrans (key z) (key y) (key x) h e) a), (a, as'))
  ]

  pub sort_by-IsSorted : (xs : List A) → IsSorted (sort_by xs)
  unfolding sort_by
  sort_by-IsSorted [] = tt
  sort_by-IsSorted (x ∷ xs) = insert_by-IsSorted x (sort_by xs) (sort_by-IsSorted xs)

  Elem-insert_by_self : (x : A) (xs : List A) → Elem x (insert_by x xs)
  unfolding insert_by
  Elem-insert_by_self x [] = inl refl
  Elem-insert_by_self x (y ∷ ys) = elim (Bool-cases (text_lt (key y) (key x))) [
    | inl e ↦ rw e (inr (Elem-insert_by_self x ys))
    | inr e ↦ rw e (inl refl)
  ]

  Elem-insert_by : (a x : A) (xs : List A) → Elem a xs → Elem a (insert_by x xs)
  unfolding insert_by
  Elem-insert_by a x [] m = absurd m
  Elem-insert_by a x (y ∷ ys) m = elim (Bool-cases (text_lt (key y) (key x))) [
    | inl e ↦ rw e (elim m [ inl h ↦ inl h | inr h ↦ inr (Elem-insert_by a x ys h) ])
    | inr e ↦ rw e (inr m)
  ]

  Elem-of_insert_by : (a x : A) (xs : List A) → Elem a (insert_by x xs) → (x ≡ a) ⊎ Elem a xs
  unfolding insert_by
  Elem-of_insert_by a x [] m = m
  Elem-of_insert_by a x (y ∷ ys) m = elim (Bool-cases (text_lt (key y) (key x))) [
    | inr e ↦ rw e at m
    | inl e ↦ elim (rw e at m) [
      | inl h ↦ inr (inl h)
      | inr h ↦ elim (Elem-of_insert_by a x ys h) [ inl p ↦ inl p | inr p ↦ inr (inr p) ]
    ]
  ]

  pub sort_by-Elem : (a : A) (xs : List A) → Elem a xs → Elem a (sort_by xs)
  unfolding sort_by
  sort_by-Elem a [] m = m
  sort_by-Elem a (x ∷ xs) (inl e) =
      subst (λ i. Elem i (insert_by x (sort_by xs))) e (Elem-insert_by_self x (sort_by xs))
  sort_by-Elem a (x ∷ xs) (inr m) = Elem-insert_by a x (sort_by xs) (sort_by-Elem a xs m)

  pub Elem-of_sort_by : (a : A) (xs : List A) → Elem a (sort_by xs) → Elem a xs
  unfolding sort_by
  Elem-of_sort_by a [] m = m
  Elem-of_sort_by a (x ∷ xs) m = elim (Elem-of_insert_by a x (sort_by xs) m) [
    | inl e ↦ inl e
    | inr h ↦ inr (Elem-of_sort_by a xs h)
  ]
