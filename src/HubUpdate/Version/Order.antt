-- ===== src/HubUpdate/Version/Order.antt =====
-- `IsNewer` of internal/hubupdate/update.go compares by components, and is a strict order.
use sshhub.Base.{
  ℕ, ◌<◌, ◌≡◌, ◌≢◌, ◌↔◌, ◌⊎◌, inl, inr, refl, sym, ◌∙◌, true, false, List, arith, Bool-cases, subst,
}
use sshhub.Text.{Str, is_empty}
use sshhub.HubUpdate.Version.{
  Comparison, newer, older, same, is_newer_sign, parts, compare_versions, clean, is_newer,
}
use sshhub.HubUpdate.Version.Lexicographic.{component, Exceeds, Agree, Says, compare_parts-Says}

three_ways : (i j : ℕ) → (i < j) ⊎ ((i ≡ j) ⊎ (j < i))
three_ways i j = grind arith

Exceeds-irrefl : (xs ys : List Str) → Agree xs ys → ¬ Exceeds xs ys
Exceeds-irrefl xs ys agree (i, (h, gt)) = omega (arith, agree i)

Exceeds-asymm : (xs ys : List Str) → Exceeds xs ys → ¬ Exceeds ys xs
Exceeds-asymm xs ys (i, (h, gt)) (j, (h', gt')) = elim (three_ways i j) [
  | inl lt ↦ omega (arith, h' i lt)
  | inr (inl e) ↦ omega (arith, subst (λ k. component xs k < component ys k) (sym e) gt')
  | inr (inr lt) ↦ omega (arith, h j lt)
]

Exceeds-trans : (xs ys zs : List Str) → Exceeds xs ys → Exceeds ys zs → Exceeds xs zs
Exceeds-trans xs ys zs (i, (h, gt)) (j, (h', gt')) = elim (three_ways i j) [
  | inl lt ↦ (i, (λ k l. h k l ∙ h' k (omega arith), omega (arith, h' i lt)))
  | inr (inl e) ↦ (
    i,
    (
      λ k l. h k l ∙ h' k (omega arith),
      omega (arith, subst (λ k. component zs k < component ys k) (sym e) gt'),
    ),
  )
  | inr (inr lt) ↦ (j, (λ k l. h k (omega arith) ∙ h' k l, omega (arith, h j lt)))
]

decided :
    (xs ys : List Str) (c : Comparison) → Says xs ys c → (is_newer_sign c ≡ true) ↔ Exceeds xs ys
decided xs ys newer says = (λ e. says, λ x. refl)
decided xs ys older says = (λ e. cc, λ x. absurd (Exceeds-asymm xs ys x says))
decided xs ys same says = (λ e. cc, λ x. absurd (Exceeds-irrefl xs ys says x))

-- Neither version is empty, and the first exceeds the second at the first component in which they
-- differ.
abbrev pub IsLater : Str → Str → Type 0
IsLater latest current =
    (is_empty (clean latest) ≡ false)
    × (is_empty (clean current) ≡ false)
    × Exceeds (parts (clean latest)) (parts (clean current))

pub is_newer_iff :
    (latest current : Str) → (is_newer latest current ≡ true) ↔ IsLater latest current
unfolding is_newer compare_versions
is_newer_iff latest current =
    let e =
      decided (parts (clean latest)) (parts (clean current)) _
        (compare_parts-Says (parts (clean latest)) (parts (clean current))) in
    elim (Bool-cases (is_empty (clean latest))) [
      | inl l ↦ (λ h. ground arith, λ h. ground arith)
      | inr l ↦ elim (Bool-cases (is_empty (clean current))) [
        | inl c ↦ (λ h. ground arith, λ h. ground arith)
        | inr c ↦ rw (l, c) (λ h. (refl, refl, e.0 h), λ h. e.1 h.2)
      ]
    ]

-- `IsNewer` is true of two versions exactly if both are not empty and, at the first dotted component in
-- which their numbers differ, that of the first version is the larger one, where a missing component
-- counts as 0. And it is a strict order: no version is newer than itself, of two versions at most one is
-- newer than the other, and what is newer than a newer version is newer.
pub is_newer_strict :
    (a b c : Str)
    → ((is_newer a b ≡ true) ↔ IsLater a b)
      × (is_newer a a ≢ true)
      × (is_newer a b ≡ true → is_newer b a ≢ true)
      × (is_newer a b ≡ true → is_newer b c ≡ true → is_newer a c ≡ true)
is_newer_strict a b c = (
  is_newer_iff a b,
  λ h. Exceeds-irrefl _ _ (λ i. refl) ((is_newer_iff a a).0 h).2,
  λ h h'. Exceeds-asymm _ _ ((is_newer_iff a b).0 h).2 ((is_newer_iff b a).0 h').2,
  λ h h'.
      let (l, m, x) = (is_newer_iff a b).0 h in
      let (m', n, y) = (is_newer_iff b c).0 h' in
      (is_newer_iff a c).1 (l, n, Exceeds-trans _ _ _ x y),
)
