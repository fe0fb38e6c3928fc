-- ===== src/HubUpdate/Version/Lexicographic.antt =====
-- What the comparison of versions in internal/hubupdate/update.go means: the first component in which
-- they differ decides.
use sshhub.Base.{
  ℕ, zero, suc, ◌<◌, ◌≡◌, refl, sym, List, [], ◌∷◌, arith, ltb, ltb→lt, Bool-cases, inl, inr,
}
use sshhub.Text.{Str}
use sshhub.HubUpdate.Version.{Comparison, newer, older, same, atoi, decide_part, compare_parts}

-- A component as a number, and 0 past the end.
unfoldable pub component : List Str → ℕ → ℕ
component [] i = 0
component (a ∷ xs) zero = atoi a
component (a ∷ xs) (suc i) = component xs i

-- The versions agree below component `i`, and there the first is the larger one.
abbrev pub ExceedsAt : List Str → List Str → ℕ → Type 0
ExceedsAt xs ys i =
    ((j : ℕ) → j < i → component xs j ≡ component ys j) × (component ys i < component xs i)

abbrev pub Exceeds : List Str → List Str → Type 0
Exceeds xs ys = (i : ℕ) × ExceedsAt xs ys i

abbrev pub Agree : List Str → List Str → Type 0
Agree xs ys = (i : ℕ) → component xs i ≡ component ys i

-- What each answer of the loop says.
abbrev pub Says : List Str → List Str → Comparison → Type 0
Says xs ys newer = Exceeds xs ys
Says xs ys older = Exceeds ys xs
Says xs ys same = Agree xs ys

abbrev tail_of : List Str → List Str
tail_of [] = []
tail_of (a ∷ xs) = xs

component-tail : (xs : List Str) (i : ℕ) → component xs (suc i) ≡ component (tail_of xs) i
unfolding component
component-tail [] i = refl
component-tail (a ∷ xs) i = refl

below_suc :
    (xs ys : List Str)
    → component xs 0 ≡ component ys 0
    → (i : ℕ) → ((j : ℕ) → j < i → component (tail_of xs) j ≡ component (tail_of ys) j)
    → (j : ℕ) → j < suc i
    → component xs j ≡ component ys j
below_suc xs ys e i h zero lt = e
below_suc xs ys e i h (suc j) lt = cc (component-tail xs j, component-tail ys j, h j (omega arith))

Agree-cons :
    (xs ys : List Str)
    → component xs 0 ≡ component ys 0
    → Agree (tail_of xs) (tail_of ys)
    → Agree xs ys
Agree-cons xs ys e h zero = e
Agree-cons xs ys e h (suc j) = cc (component-tail xs j, component-tail ys j, h j)

Says-cons :
    (xs ys : List Str) (c : Comparison)
    → component xs 0 ≡ component ys 0
    → Says (tail_of xs) (tail_of ys) c
    → Says xs ys c
Says-cons xs ys newer e (i, (h, gt)) =
    (suc i, (below_suc xs ys e i h, omega (arith, component-tail xs i, component-tail ys i, gt)))
Says-cons xs ys older e (i, (h, gt)) = (
  suc i,
  (below_suc ys xs (sym e) i h, omega (arith, component-tail xs i, component-tail ys i, gt)),
)
Says-cons xs ys same e h = Agree-cons xs ys e h

decide_part-Says :
    (xs ys : List Str) (rest : Comparison)
    → Says (tail_of xs) (tail_of ys) rest
    → Says xs ys (decide_part (component xs 0) (component ys 0) rest)
decide_part-Says xs ys rest h = elim (Bool-cases (ltb (component ys 0) (component xs 0))) [
  | inl e ↦ rw e (0, (λ j lt. absurd (omega arith), ltb→lt _ _ e))
  | inr e ↦ elim (Bool-cases (ltb (component xs 0) (component ys 0))) [
    | inl e' ↦ rw (e, e') (0, (λ j lt. absurd (omega arith), ltb→lt _ _ e'))
    | inr e' ↦ rw (e, e') (Says-cons xs ys rest (ground arith) h)
  ]
]

pub compare_parts-Says : (xs ys : List Str) → Says xs ys (compare_parts xs ys)
unfolding compare_parts component
compare_parts-Says [] [] = λ i. refl
compare_parts-Says (x ∷ xs) [] =
    decide_part-Says (x ∷ xs) [] (compare_parts xs []) (compare_parts-Says xs [])
compare_parts-Says [] (y ∷ ys) =
    decide_part-Says [] (y ∷ ys) (compare_parts [] ys) (compare_parts-Says [] ys)
compare_parts-Says (x ∷ xs) (y ∷ ys) =
    decide_part-Says (x ∷ xs) (y ∷ ys) (compare_parts xs ys) (compare_parts-Says xs ys)
