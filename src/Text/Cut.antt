-- ===== src/Text/Cut.antt =====
-- Cutting a text at a byte: `strings.Split`, `strings.SplitN(s, sep, 2)[0]`, `strings.LastIndex`.
use sshhub.Base.{
  ℕ, zero, suc, ◌≡◌, refl, ap, Bool, false, ◌||◌, List, [], ◌∷◌, ◌++◌, Option, none, some,
  if◌then◌else◌, ◌==◌, nat_eq, arith, drop, length,
}
use sshhub.Text.Bytes.{Str}

-- The parts between the separators; one part more than there are separators.
abbrev onto_first : ℕ → List Str → List Str
onto_first c [] = (c ∷ []) ∷ []
onto_first c (w ∷ ws) = (c ∷ w) ∷ ws

unfoldable pub split : Str → ℕ → List Str
split [] sep = [] ∷ []
split (c ∷ s) sep = if c == sep then [] ∷ split s sep else onto_first c (split s sep)

-- The text before the first separator, all of it where there is none.
unfoldable pub before : Str → ℕ → Str
before [] sep = []
before (c ∷ s) sep = if c == sep then [] else c ∷ before s sep

-- The place of the last, or of the first, byte `c`.
unfoldable pub last_index : Str → ℕ → Option ℕ
last_index [] c = none
last_index (d ∷ s) c = elim (last_index s c) [
  | some i ↦ some (suc i)
  | none ↦ if d == c then some 0 else none
]

unfoldable pub index : Str → ℕ → Option ℕ
index [] c = none
index (d ∷ s) c =
    let later : Option ℕ = elim (index s c) [ some i ↦ some (suc i) | none ↦ none ] in
    if d == c then some 0 else later

-- `s[:i]`
unfoldable pub take : ℕ → Str → Str
take zero s = []
take (suc i) [] = []
take (suc i) (c ∷ s) = c ∷ take i s

unfoldable pub has_byte : Str → ℕ → Bool
has_byte [] c = false
has_byte (d ∷ s) c = d == c || has_byte s c

pub last_index-none : (s : Str) (c : ℕ) → has_byte s c ≡ false → last_index s c ≡ none
unfolding last_index has_byte
last_index-none [] c h = refl
last_index-none (d ∷ s) c h = ground (arith, last_index-none s c)

pub index-none : (s : Str) (c : ℕ) → has_byte s c ≡ false → index s c ≡ none
unfolding index has_byte
index-none [] c h = refl
index-none (d ∷ s) c h = ground (arith, index-none s c)

-- The last separator is found behind any text, if no other follows it.
pub last_index-append :
    (s t : Str) (c : ℕ) → has_byte t c ≡ false → last_index (s ++ c ∷ t) c ≡ some (length s)
unfolding last_index
last_index-append [] t c h = ground (arith, last_index-none t c h)
last_index-append (d ∷ s) t c h = ground (arith, last_index-append s t c h)

pub index-append :
    (s t : Str) (c : ℕ) → has_byte s c ≡ false → index (s ++ c ∷ t) c ≡ some (length s)
unfolding index has_byte
index-append [] t c h = ground arith
index-append (d ∷ s) t c h = ground (arith, index-append s t c)

pub take-length-append : (s t : Str) → take (length s) (s ++ t) ≡ s
unfolding take
take-length-append [] t = refl
take-length-append (c ∷ s) t = ap (◌∷◌ c) (take-length-append s t)

pub drop-length-append : (s t : Str) (c : ℕ) → drop (suc (length s)) (s ++ c ∷ t) ≡ t
drop-length-append [] t c = refl
drop-length-append (d ∷ s) t c = drop-length-append s t c

pub has_byte-append : (s t : Str) (c : ℕ) → has_byte (s ++ t) c ≡ (has_byte s c || has_byte t c)
unfolding has_byte
has_byte-append [] t c = refl
has_byte-append (d ∷ s) t c = ground (arith, has_byte-append s t c)
