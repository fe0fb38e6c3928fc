-- ===== src/Release.antt =====
-- internal/release/release.go: signed release manifests. JSON, base64, Ed25519 and SHA-256 are a
-- parameter, `Codec`: an error of theirs is `none`, and what is relied on is a law of it.
pub mod Trust
pub mod RoundTrip
pub mod Key
pub mod Names
mod Examples
use sshhub.Base.Results.{ok, err, ◌>>=◌, ◌>>◌, reject_if, or_fail}
use sshhub.Base.Results
use sshhub.Base.{
  ℕ, ◌≡◌, Bool, true, false, ◌||◌, not, List, [], ◌∷◌, Option, none, some, if◌then◌else◌, ◌==◌,
  nat_eq, length,
}
use sshhub.Base.Dict.{Dict, lookup}
use sshhub.Base.Int.{ℤ, pos, int_eq}
use sshhub.Text.{Str, is_empty, to_lower, str_eq}

pub record Manifest : Type 0 where
  pub schema_version : ℤ
  pub version : Str
  pub published_at : ℕ
  pub artifacts : Dict Str Str
  pub urgent : Bool
  pub urgent_reason : Str

pub record SignedManifest : Type 0 where
  pub manifest : Str
  pub signature : Str

pub record Codec : Type 0 where
  -- `json.Unmarshal` into the two structs, and `json.Marshal` of a manifest.
  pub decode_signed : Str → Option SignedManifest
  pub decode_manifest : Str → Option Manifest
  pub encode_manifest : Manifest → Option Str
  -- `base64.StdEncoding`
  pub decode64 : Str → Option Str
  pub encode64 : Str → Str
  -- `hex.DecodeString`
  pub decode_hex : Str → Option Str
  -- `ed25519.Verify pub body sig` and `ed25519.Sign priv body`
  pub verifies : Str → Str → Str → Bool
  pub signs : Str → Str → Str
  -- `hex.EncodeToString` of `sha256.Sum256`
  pub sha256_hex : Str → Str

abbrev pub public_key_size : ℕ
public_key_size = 32

abbrev pub private_key_size : ℕ
private_key_size = 64

abbrev pub manifest_version : ℤ
manifest_version = pos 1

-- The reasons of `ErrUntrusted`, and the errors of `Sign` and `ParsePublicKey`.
pub data Error : Type 0 where
  bad_key_size not_json missing_part bad_manifest64 bad_signature64 bad_signature : Error
  bad_manifest bad_schema no_artifacts not_covered digest_mismatch bad_private_key cannot_encode :
      Error
  no_key bad_key : Error

abbrev pub Result {ℓ} : Type ℓ → Type ℓ
Result A = Results.Result Error A

abbrev pub no_entries : Dict Str Str → Bool
no_entries [] = true
no_entries (_ ∷ _) = false

-- The digest in lower case, and whether there is one.
unfoldable pub digest_for : Manifest → Str → Option Str
digest_for m asset = elim (lookup asset m.artifacts) [ none ↦ none | some d ↦ some (to_lower d) ]

module _ (c : Codec) where
  open c use {
    decode_signed, decode_manifest, encode_manifest, decode64, encode64, decode_hex, verifies,
    signs, sha256_hex,
  }

  unfoldable pub sign : Manifest → Str → Result SignedManifest
  sign m priv = do
    reject_if (not (length priv == private_key_size)) bad_private_key
    body ← or_fail (encode_manifest m) cannot_encode
    let sig = signs priv body
    ok (record { manifest = encode64 body; signature = encode64 sig })

  unfoldable pub verify : Str → Str → Result Manifest
  verify input key = do
    reject_if (not (length key == public_key_size)) bad_key_size
    sm ← or_fail (decode_signed input) not_json
    reject_if (is_empty sm.manifest || is_empty sm.signature) missing_part
    body ← or_fail (decode64 sm.manifest) bad_manifest64
    sig ← or_fail (decode64 sm.signature) bad_signature64
    reject_if (not (verifies key body sig)) bad_signature
    m ← or_fail (decode_manifest body) bad_manifest
    reject_if (not (m.schema_version == manifest_version)) bad_schema
    reject_if (no_entries m.artifacts) no_artifacts
    ok m

  unfoldable pub verify_artifact : Manifest → Str → Str → Result (Unit {0})
  verify_artifact m asset payload = do
    want ← or_fail (digest_for m asset) not_covered
    reject_if (not (sha256_hex payload == want)) digest_mismatch
