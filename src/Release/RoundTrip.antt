-- ===== src/Release/RoundTrip.antt =====
-- `Sign` and then `Verify` in internal/release/release.go.
use sshhub.Base.Results.{ok}
use sshhub.Base.{◌≡◌, true, false, some, arith, subst, length, nat_eq}
use sshhub.Base.Int.{int_eq}
use sshhub.Text.{Str, is_empty}
use sshhub.Release.{
  Manifest, SignedManifest, Codec, no_entries, public_key_size, manifest_version, sign, verify,
}

-- What is relied on of the encodings and of Ed25519, for one manifest and one key pair.
pub record CodecLaws (c : Codec) (m : Manifest) (priv key : Str) : Type 0 where
  -- JSON gives back the manifest that it wrote, and writes something.
  pub json : (body : Str) → c.encode_manifest m ≡ some body → c.decode_manifest body ≡ some m
  pub json_full : (body : Str) → c.encode_manifest m ≡ some body → is_empty body ≡ false
  -- Base64 gives back the bytes that it wrote, and no text only for no bytes.
  pub base64 : (s : Str) → c.decode64 (c.encode64 s) ≡ some s
  pub base64_full : (s : Str) → is_empty s ≡ false → is_empty (c.encode64 s) ≡ false
  -- A signature is not empty, and is good under the public key of the pair.
  pub signature_full : (body : Str) → is_empty (c.signs priv body) ≡ false
  pub signature_good : (body : Str) → c.verifies key body (c.signs priv body) ≡ true
  pub key_size : length key ≡ public_key_size

sign-parts :
    (c : Codec) (m : Manifest) (priv : Str) (sm : SignedManifest)
    → sign c m priv ≡ ok sm
    → (body : Str) × (c.encode_manifest m ≡ some body)
      × (sm ≡ record { manifest = c.encode64 body; signature = c.encode64 (c.signs priv body) })
unfolding sign
sign-parts c m priv sm h = ground arith

verify-parts :
    (c : Codec) (m : Manifest) (input key body sig : Str) (sm : SignedManifest)
    → c.decode_signed input ≡ some sm
    → is_empty sm.manifest ≡ false
    → is_empty sm.signature ≡ false
    → c.decode64 sm.manifest ≡ some body
    → c.decode64 sm.signature ≡ some sig
    → c.verifies key body sig ≡ true
    → c.decode_manifest body ≡ some m
    → length key ≡ public_key_size
    → m.schema_version ≡ manifest_version
    → no_entries m.artifacts ≡ false
    → verify c input key ≡ ok m
unfolding verify
verify-parts c m input key body sig sm d fm fs eb es g em size schema full = ground arith

-- A manifest of the known schema that covers something, signed with a private key, is accepted with
-- the matching public key, and comes back as it was signed.
pub verify-sign :
    (c : Codec) (m : Manifest) (priv key input : Str) (sm : SignedManifest)
    → CodecLaws c m priv key
    → m.schema_version ≡ manifest_version
    → no_entries m.artifacts ≡ false
    → sign c m priv ≡ ok sm
    → c.decode_signed input ≡ some sm
    → verify c input key ≡ ok m
verify-sign c m priv key input sm laws schema full signed sent =
    let (body, e, same) = sign-parts c m priv sm signed in
    let sig = c.signs priv body in
    verify-parts c m input key body sig
      (record { manifest = c.encode64 body; signature = c.encode64 sig })
      (subst (λ (x : SignedManifest). c.decode_signed input ≡ some x) same sent)
      (laws.base64_full body (laws.json_full body e))
      (laws.base64_full sig (laws.signature_full body)) (laws.base64 body) (laws.base64 sig)
      (laws.signature_good body) (laws.json body e) laws.key_size schema full
