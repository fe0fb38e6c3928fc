-- ===== src/Release/Key.antt =====
-- Trusted keys: `ParsePublicKey` of internal/release/release.go and internal/release/trustedkey.go.
use sshhub.Base.Results.{ok, err}
use sshhub.Base.{
  ◌≡◌, ◌↔◌, Bool, false, not, Option, none, some, arith, length, ◌==◌, nat_eq, if◌then◌else◌,
}
use sshhub.Text.{Str, codes, is_empty, trim_space, to_lower, str_eq}
use sshhub.Release.{Codec, Result, no_key, bad_key, public_key_size}

-- The bytes, if they are a key's worth of them.
abbrev sized : Option Str → Option Str
sized none = none
sized (some raw) = if length raw == public_key_size then some raw else none

module _ (c : Codec) where
  open c use {decode64, decode_hex}

  unfoldable pub parse_public_key : Str → Result Str
  parse_public_key text =
      let s = trim_space text in
      let try_hex : Result Str = elim (sized (decode_hex s)) [
        | none ↦ err bad_key
        | some k ↦ ok k
      ] in
      if is_empty s
      then err no_key
      else elim (sized (decode64 s)) [ some k ↦ ok k | none ↦ try_hex ]

  -- The first argument is `SSHHUB_RELEASE_KEY`, the second the key that was compiled in.
  unfoldable pub trusted_key : Str → Str → Option Str
  trusted_key env compiled =
      let pin = trim_space env in
      let pinned : Option Str = elim (parse_public_key pin) [ ok k ↦ some k | err e ↦ none ] in
      let built_in : Option Str = elim (parse_public_key compiled) [
        | ok k ↦ some k
        | err e ↦ none
      ] in
      if not (is_empty pin) then pinned else if is_empty compiled then none else built_in

-- `strings.EqualFold(strings.TrimSpace(RequireSignature), "true")`
unfoldable pub signature_required : Str → Bool
signature_required flag = to_lower (trim_space flag) == codes "true"

sized-size : (o : Option Str) (k : Str) → sized o ≡ some k → length k ≡ public_key_size
sized-size none k h = cc
sized-size (some raw) k h = ground arith

parse_public_key-size :
    (c : Codec) (text k : Str) → parse_public_key c text ≡ ok k → length k ≡ public_key_size
unfolding parse_public_key
parse_public_key-size c text k h = ground (
  arith,
  sized-size (c.decode64 (trim_space text)) k,
  sized-size (c.decode_hex (trim_space text)) k,
)

-- The key that updates are checked against is a full Ed25519 public key. If the operator pins a key
-- that cannot be parsed there is no trusted key at all: the compiled-in key is not fallen back to.
trusted_key-size :
    (c : Codec) (env compiled : Str)
    → ((k : Str) → trusted_key c env compiled ≡ some k → length k ≡ public_key_size)
      × (is_empty (trim_space env) ≡ false
          → (k : Str)
          → (trusted_key c env compiled ≡ some k) ↔ (parse_public_key c (trim_space env) ≡ ok k))
unfolding trusted_key
trusted_key-size c env compiled = (
  λ k h.
      ground
        (arith, parse_public_key-size c (trim_space env) k, parse_public_key-size c compiled k),
  λ pinned k. (λ h. ground arith, λ h. ground arith),
)
