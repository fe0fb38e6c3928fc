-- ===== src/HubUpdate/Version.antt =====
-- `IsNewer` and `compareVersions` of internal/hubupdate/update.go.
pub mod Lexicographic
pub mod Order
mod Examples
use sshhub.Base.{
  ℕ, suc, ◌+◌, ◌-◌, ◌*◌, ◌^◌, Bool, true, false, ◌&&◌, ◌||◌, List, [], ◌∷◌, Option, none, some, min,
  leb, ltb, if◌then◌else◌,
}
use sshhub.Text.{Str, codes, is_empty, trim_space, trim_prefix}
use sshhub.Text.Cut.{split, before}

abbrev pub max_int : ℕ
max_int = 2 ^ 63 - 1

unfoldable pub is_digit : ℕ → Bool
is_digit c = leb b'0' c && leb c b'9'

abbrev max_uint : ℕ
max_uint = 2 ^ 64 - 1

-- The bytes after a number that is too large are not looked at.
digits : ℕ → Str → Option ℕ
unfolding is_digit
digits acc [] = some acc
digits acc (c ∷ s) =
    let n = acc * 10 + (c - b'0') in
    let rest = digits n s in if is_digit c then if ltb max_uint n then some n else rest else none

unsigned : Str → Option ℕ
unfolding digits
unsigned [] = none
unsigned (c ∷ s) = digits 0 (c ∷ s)

plus_sign : Str → Str
plus_sign [] = []
plus_sign (c ∷ s) = if leb c b'+' && leb b'+' c then s else c ∷ s

-- The number that `strconv.Atoi` returns beside its error, on a text without `-`: 0 for a text that
-- is no number, and the largest `int` for one that begins with a number of more than 64 bits or is one
-- of more than 63.
unfoldable pub atoi : Str → ℕ
unfolding unsigned plus_sign
atoi s = elim (unsigned (plus_sign s)) [ none ↦ 0 | some n ↦ min n max_int ]

-- The sign of the result.
pub data Comparison : Type 0 where
  newer older same : Comparison

-- One round of the loop, and what follows.
abbrev pub decide_part : ℕ → ℕ → Comparison → Comparison
decide_part a b rest = if ltb b a then newer else if ltb a b then older else rest

-- The loop: the shorter version goes on with zeros.
unfoldable pub compare_parts : List Str → List Str → Comparison
compare_parts [] [] = same
compare_parts (a ∷ xs) [] = decide_part (atoi a) 0 (compare_parts xs [])
compare_parts [] (b ∷ ys) = decide_part 0 (atoi b) (compare_parts [] ys)
compare_parts (a ∷ xs) (b ∷ ys) = decide_part (atoi a) (atoi b) (compare_parts xs ys)

-- The dotted components, without what follows a `-`.
unfoldable pub parts : Str → List Str
parts v = split (before v b'-') b'.'

unfoldable pub compare_versions : Str → Str → Comparison
compare_versions a b = compare_parts (parts a) (parts b)

unfoldable pub clean : Str → Str
clean v = trim_prefix (trim_space v) (codes "v")

abbrev pub is_newer_sign : Comparison → Bool
is_newer_sign newer = true
is_newer_sign _ = false

unfoldable pub is_newer : Str → Str → Bool
is_newer latest current =
    let l = clean latest in
    let c = clean current in
    if is_empty l || is_empty c then false else is_newer_sign (compare_versions l c)
