-- ===== src/Text/Order.antt =====
-- The order of Go's strings, and `sort.Strings`.
use sshhub.Base.{
  ◌≡◌, refl, Bool, true, false, List, [], ◌∷◌, ltb, if◌then◌else◌, ◌==◌, nat_eq, arith, Bool-cases,
  In, ◌⊎◌, inl, inr, ◌↔◌,
}
use sshhub.Text.{Str}

-- Go's `<` on strings.
unfoldable pub less : Str → Str → Bool
less [] [] = false
less [] (d ∷ t) = true
less (c ∷ s) [] = false
less (c ∷ s) (d ∷ t) = if ltb c d then true else if c == d then less s t else false

pub less_asymm : (s t : Str) → less s t ≡ true → less t s ≡ false
unfolding less
less_asymm [] [] h = cc
less_asymm [] (d ∷ t) h = refl
less_asymm (c ∷ s) [] h = cc
less_asymm (c ∷ s) (d ∷ t) h = ground (arith, less_asymm s t)

module _ {A : Type 0} (key : A → Str) where
  -- An entry among those that are sorted by their keys.
  unfoldable pub place_in : A → List A → List A
  place_in x [] = x ∷ []
  place_in x (y ∷ ys) =
      let rest = place_in x ys in if less (key y) (key x) then y ∷ rest else x ∷ y ∷ ys

  -- `sort.Slice` by the keys.
  unfoldable pub sort_by : List A → List A
  sort_by [] = []
  sort_by (x ∷ xs) = place_in x (sort_by xs)

  -- The first entry, if there is one, does not come before `x`.
  abbrev pub Behind : A → List A → Type 0
  Behind x [] = Unit
  Behind x (y ∷ ys) = less (key y) (key x) ≡ false

  abbrev pub InOrder : List A → Type 0
  InOrder [] = Unit
  InOrder (x ∷ xs) = Behind x xs × InOrder xs

  Behind-place_in :
      (x y : A) (ys : List A) → less (key y) (key x) ≡ true → Behind y ys → Behind y (place_in x ys)
  unfolding place_in
  Behind-place_in x y [] h b = less_asymm (key y) (key x) h
  Behind-place_in x y (z ∷ zs) h b = elim (Bool-cases (less (key z) (key x))) [
    | inl earlier ↦ rw earlier b
    | inr later ↦ rw later (less_asymm (key y) (key x) h)
  ]

  pub place_in-InOrder : (x : A) (ys : List A) → InOrder ys → InOrder (place_in x ys)
  unfolding place_in
  place_in-InOrder x [] h = (tt, tt)
  place_in-InOrder x (y ∷ ys) (b, h) = elim (Bool-cases (less (key y) (key x))) [
    | inl earlier ↦ rw earlier (Behind-place_in x y ys earlier b, place_in-InOrder x ys h)
    | inr later ↦ rw later (later, (b, h))
  ]

  pub place_in-In : (x s : A) (ys : List A) → In s (place_in x ys) ↔ ((s ≡ x) ⊎ In s ys)
  unfolding place_in
  place_in-In x s [] = (λ i. i, λ i. i)
  place_in-In x s (y ∷ ys) = elim (Bool-cases (less (key y) (key x))) [
    | inr later ↦ rw later (λ i. i, λ i. i)
    | inl earlier ↦ rw earlier (
      elim [
        | inl e ↦ inr (inl e)
        | inr i ↦ elim ((place_in-In x s ys).0 i) [ inl e ↦ inl e | inr j ↦ inr (inr j) ]
      ],
      elim [
        | inl e ↦ inr ((place_in-In x s ys).1 (inl e))
        | inr i ↦ elim i [ inl e ↦ inl e | inr j ↦ inr ((place_in-In x s ys).1 (inr j)) ]
      ],
    )
  ]

  -- Sorting puts the entries in order, and keeps them.
  pub sort_by-InOrder :
      (xs : List A) → InOrder (sort_by xs) × ((s : A) → In s (sort_by xs) ↔ In s xs)
  unfolding sort_by
  sort_by-InOrder [] = (tt, λ s. (λ i. i, λ i. i))
  sort_by-InOrder (x ∷ xs) =
      let (sorted, same) = sort_by-InOrder xs in
      (
        place_in-InOrder x (sort_by xs) sorted,
        λ s. (
          λ i. elim ((place_in-In x s (sort_by xs)).0 i) [
            | inl e ↦ inl e
            | inr j ↦ inr ((same s).0 j)
          ],
          λ i.
              (place_in-In x s (sort_by xs)).1
                (elim i [ inl e ↦ inl e | inr j ↦ inr ((same s).1 j) ]),
        ),
      )

-- `sort.Strings`
unfoldable pub sort_strings : List Str → List Str
unfolding sort_by
sort_strings xs = sort_by (λ s. s) xs
