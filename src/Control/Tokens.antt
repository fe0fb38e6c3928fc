-- ===== src/Control/Tokens.antt =====
-- Which tokens of internal/config the resolver of cmd/sshhub/main.go takes.
use mathlib.Core.Option.{some-injective}
use sshhub.Base.{
  contains, ◌≡◌, sym, subst, List, [], ◌∷◌, some, In, inl, inr, arith, Bool-cases, ◌==◌, ◌&&◌,
  Option-cases,
}
use sshhub.Text.{Str, str_eq}
use sshhub.Config.{Config, Backend}
use sshhub.Config.Lookup.{find_token, backend_by_token, reverse}
use sshhub.Control.Server.{resolve_token}

-- The backend whose token it is.
abbrev pub OwnToken : List Backend → Str → Str → Type 0
OwnToken bs token id = (b : Backend) × In b bs × (b.token ≡ token) × (b.id ≡ id)

find_token-In :
    (bs : List Backend) (token : Str) (b : Backend)
    → find_token bs token ≡ some b
    → In b bs × (b.token ≡ token)
unfolding find_token
find_token-In [] token b h = absurd (cc)
find_token-In (c ∷ bs) token b h = elim (Bool-cases (c.mode == reverse && c.token == token)) [
  | inl this ↦
      let same : c ≡ b = some-injective c b (rw this at h) in
      let own : c.token ≡ token = ground arith in
      (inl (sym same), subst (λ (x : Backend). x.token ≡ token) same own)
  | inr other ↦ let (i, own) = find_token-In bs token b (rw other at h) in (inr i, own)
]

pub resolve_token-OwnToken :
    (cfg : Config) (token requested id : Str)
    → cfg.control_tokens ≡ []
    → resolve_token cfg token requested ≡ some id
    → OwnToken cfg.backends token id
unfolding resolve_token backend_by_token contains
resolve_token-OwnToken cfg token requested id no_tokens h =
    elim (Option-cases (backend_by_token cfg.backends token)) [
      | inl unknown ↦ absurd (ground arith)
      | inr (b, known) ↦
          let found : find_token cfg.backends token ≡ some b = ground arith in
          let (i, own) = find_token-In cfg.backends token b found in
          (b, i, own, some-injective b.id id (rw (known, resolve_token) at h))
    ]
