-- ===== src/Routing/Glob.antt =====
-- `globMatch` of internal/routing/routing.go: a matcher over two indices that goes back to the last
-- star only.
pub mod Suffix
pub mod Meaning
use sshhub.Base.{
  ℕ, zero, suc, ◌+◌, ◌*◌, Bool, true, false, List, [], ◌∷◌, Option, none, some, get_elem?, drop,
  length, if◌then◌else◌, ◌==◌, nat_eq,
}
use sshhub.Text.{Str}

abbrev pub star : ℕ
star = b'*'

-- `i < len(s) && s[i] == c`
unfoldable pub byte_is : Str → ℕ → ℕ → Bool
byte_is s i c = elim (get_elem? s i) [ none ↦ false | some d ↦ d == c ]

-- The second loop and its final test, on what is left of the pattern.
unfoldable pub only_stars : Str → Bool
only_stars [] = true
only_stars (c ∷ p) = if c == star then only_stars p else false

-- `star` and `mark`, present where `star >= 0`.
abbrev pub Mark : Type 0
Mark = Option (ℕ × ℕ)

-- The last two branches of the first loop.
unfoldable pub retry : Mark → (ℕ → ℕ → Mark → Option Bool) → Option Bool
retry none next = some false
retry (some (s, mark)) next = next (s + 1) (mark + 1) (some (s, mark + 1))

-- The first loop. `none` is fuel run out.
unfoldable pub loop : ℕ → Str → Str → ℕ → ℕ → Mark → Option Bool
loop zero pattern value p v back = none
loop (suc f) pattern value p v back = elim (get_elem? value v) [
  | none ↦ some (only_stars (drop p pattern))
  | some c ↦
      let at_star = loop f pattern value (p + 1) v (some (p, v)) in
      let onward = loop f pattern value (p + 1) (v + 1) back in
      let again = retry back (loop f pattern value) in
      if byte_is pattern p star then at_star else if byte_is pattern p c then onward else again
]

abbrev pub fuel : Str → Str → ℕ
fuel pattern value = (length value + 1) * (length pattern + 1)

unfoldable pub glob_match : Str → Str → Bool
glob_match pattern value = elim (loop (fuel pattern value) pattern value 0 0 none) [
  | none ↦ false
  | some b ↦ b
]
