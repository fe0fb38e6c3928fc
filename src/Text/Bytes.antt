-- ===== src/Text/Bytes.antt =====
-- Texts, their equality, and the tests and trims of the package `strings`.
use Prim.Native.Char.{code}
use Prim.Native.String.{String}
use mathlib.Core.Logic.{dite}
use sshhub.Base.{
  ℕ, ◌+◌, refl, Bool, true, false, ◌&&◌, ◌||◌, List, [], ◌∷◌, ◌++◌, Option, none, some, leb,
  if◌then◌else◌, Eq, ◌==◌, nat_eq, ℕ_discrete, arith,
}

abbrev pub Str : Type 0
Str = List ℕ

Str-discrete : Discrete Str
Str-discrete [] [] = yes refl
Str-discrete [] (y ∷ ys) = no (λ e. ground arith)
Str-discrete (x ∷ xs) [] = no (λ e. ground arith)
Str-discrete (x ∷ xs) (y ∷ ys) =
    dite (ℕ_discrete x y)
      (λ h. dite (Str-discrete xs ys) (λ t. yes (cc)) (λ n. no (λ e. n (ground arith))))
      (λ n. no (λ e. n (ground arith)))

instance unfoldable pub str_eq : Eq Str
unfolding Str-discrete ℕ_discrete
str_eq = record { dec = Str-discrete }

-- `s == ""`
abbrev pub is_empty : Str → Bool
is_empty [] = true
is_empty (c ∷ s) = false

-- The bytes of a literal.
abbrev pub codes : String → Str
codes String.[] = []
codes (String.◌∷◌ c s) = code c ∷ codes s

-- `strings.HasPrefix`
unfoldable pub has_prefix : Str → Str → Bool
has_prefix s [] = true
has_prefix [] (p ∷ ps) = false
has_prefix (c ∷ s) (p ∷ ps) = c == p && has_prefix s ps

-- `strings.TrimPrefix`
strip : Str → Str → Option Str
strip s [] = some s
strip [] (p ∷ ps) = none
strip (c ∷ s) (p ∷ ps) = if c == p then strip s ps else none

unfoldable pub trim_prefix : Str → Str → Str
unfolding strip
trim_prefix s p = elim (strip s p) [ none ↦ s | some r ↦ r ]

unfoldable pub is_space : ℕ → Bool
is_space c = c == 32 || (leb 9 c && leb c 13)

-- `strings.TrimSpace`
unfoldable pub trim_left : Str → Str
unfolding is_space
trim_left [] = []
trim_left (c ∷ s) = if is_space c then trim_left s else c ∷ s

unfoldable pub trim_right : Str → Str
unfolding is_space
trim_right [] = []
trim_right (c ∷ s) = drop_space c (trim_right s)
  where
    drop_space : ℕ → Str → Str
    drop_space c [] = if is_space c then [] else c ∷ []
    drop_space c (d ∷ r) = c ∷ d ∷ r

unfoldable pub trim_space : Str → Str
unfolding trim_left trim_right
trim_space s = trim_right (trim_left s)

-- `strings.Fields`: the words between runs of white space. The first argument is the word so far.
abbrev emit : Str → List Str → List Str
emit [] rest = rest
emit (c ∷ w) rest = (c ∷ w) ∷ rest

unfoldable pub fields_from : Str → Str → List Str
unfolding is_space
fields_from w [] = emit w []
fields_from w (c ∷ s) =
    let break = emit w (fields_from [] s) in
    let more = fields_from (w ++ c ∷ []) s in if is_space c then break else more

unfoldable pub fields : Str → List Str
unfolding fields_from
fields = fields_from []

-- `strings.ContainsAny`
unfoldable pub contains_any : Str → Str → Bool
contains_any [] chars = false
contains_any (c ∷ s) chars = has chars || contains_any s chars
  where
    has : Str → Bool
    has [] = false
    has (d ∷ ds) = c == d || has ds

-- `strings.ToLower`
unfoldable pub to_lower : Str → Str
to_lower [] = []
to_lower (c ∷ s) = (if leb b'A' c && leb c b'Z' then c + 32 else c) ∷ to_lower s
