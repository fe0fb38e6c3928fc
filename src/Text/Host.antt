-- ===== src/Text/Host.antt =====
-- `net.SplitHostPort`, with its errors as `none`.
use sshhub.Base.{
  ℕ, suc, ◌≡◌, Bool, false, ◌||◌, [], ◌∷◌, ◌++◌, Option, none, some, if◌then◌else◌, ◌==◌, nat_eq,
  arith, drop, length,
}
use sshhub.Text.Bytes.{Str}
use sshhub.Text.Cut.{
  last_index, index, take, has_byte, last_index-append, take-length-append, drop-length-append,
  has_byte-append,
}

-- The host that begins with a bracket: what follows the bracket, and the place of the last colon.
unfoldable pub bracketed : Str → ℕ → Option (Str × Str)
bracketed s i = elim (index s b']') [
  | none ↦ none
  | some end ↦
      if suc end == i
      then if has_byte (drop 1 s) b'[' || has_byte (drop (suc end) s) b']'
        then none
        else some (drop 1 (take end s), drop (suc i) s)
      else none
]

unfoldable pub plain : Str → ℕ → Option (Str × Str)
plain s i =
    if has_byte (take i s) b':' || (has_byte s b'[' || has_byte s b']')
    then none
    else some (take i s, drop (suc i) s)

unfoldable pub starts_bracket : Str → Bool
starts_bracket [] = false
starts_bracket (c ∷ s) = c == b'['

unfoldable pub split_host_port : Str → Option (Str × Str)
unfolding bracketed plain starts_bracket
split_host_port s = elim (last_index s b':') [
  | none ↦ none
  | some i ↦ if starts_bracket s then bracketed s i else plain s i
]

-- No byte that `split_host_port` gives a meaning to.
abbrev pub IsPlain : Str → Type 0
IsPlain s = (has_byte s b':' ≡ false) × (has_byte s b'[' ≡ false) × (has_byte s b']' ≡ false)

starts_bracket-append :
    (s t : Str) → has_byte s b'[' ≡ false → starts_bracket (s ++ b':' ∷ t) ≡ false
unfolding starts_bracket has_byte
starts_bracket-append [] t h = ground arith
starts_bracket-append (c ∷ s) t h = ground arith

plain-append : (h p : Str) → IsPlain h → IsPlain p → plain (h ++ b':' ∷ p) (length h) ≡ some (h, p)
unfolding plain has_byte
plain-append h p (hc, ho, he) (pc, po, pe) = ground (
  arith,
  take-length-append h (b':' ∷ p),
  drop-length-append h p b':',
  has_byte-append h (b':' ∷ p) b'[',
  has_byte-append h (b':' ∷ p) b']',
)

-- A host name or an IPv4 address, with a port.
pub split_host_port-append :
    (h p : Str) → IsPlain h → IsPlain p → split_host_port (h ++ b':' ∷ p) ≡ some (h, p)
unfolding split_host_port
split_host_port-append h p ih ip =
    rw (last_index-append h p b':' ip.0, split_host_port)
      (rw (starts_bracket-append h p ih.1) (plain-append h p ih ip))
