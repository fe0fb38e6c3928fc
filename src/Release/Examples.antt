-- ===== src/Release/Examples.antt =====
-- A codec in which texts stand for themselves, and the theorems on signed manifests at it.
use sshhub.Base.Results.{ok, err}
use sshhub.Base.{ℕ, zero, suc, ◌≡◌, refl, false, [], ◌∷◌, none, some, ◌==◌, ℕ_discrete}
use sshhub.Base.Int.{pos, int_eq}
use sshhub.Text.{Str, codes, str_eq, trim_space}
use sshhub.Release.{Manifest, SignedManifest, Codec, bad_signature, sign, verify}
use sshhub.Release.Trust.{Attested, verify-Attested}
use sshhub.Release.RoundTrip.{CodecLaws}
use sshhub.Release.Key.{parse_public_key, trusted_key}

repeat : ℕ → Str
repeat zero = []
repeat (suc n) = b'k' ∷ repeat n

abbrev sample : Manifest
sample = record {
  schema_version = pos 1;
  version = codes "0.9.1";
  published_at = 1;
  artifacts = (codes "hub.tar.gz", codes "ABC") ∷ [];
  urgent = false;
  urgent_reason = [];
}

abbrev envelope : SignedManifest
envelope = record { manifest = codes "body"; signature = codes "sig" }

abbrev plain : Codec
plain = record {
  decode_signed = λ s. some envelope;
  decode_manifest = λ s. some sample;
  encode_manifest = λ m. some (codes "body");
  decode64 = λ s. some s;
  encode64 = λ s. s;
  decode_hex = λ s. none;
  verifies = λ key body sig. sig == codes "sig";
  signs = λ priv body. codes "sig";
  sha256_hex = λ s. s;
}

accepted : verify plain (codes "input") (repeat 32) ≡ ok sample
unfolding verify repeat str_eq int_eq ℕ_discrete
accepted = refl

wrong_signature :
    verify (record plain { verifies = λ key body sig. false }) (codes "input") (repeat 32)
    ≡ err bad_signature
unfolding verify repeat str_eq int_eq ℕ_discrete
wrong_signature = refl

verify-Attested_example : Attested plain (codes "input") (repeat 32) sample
verify-Attested_example = verify-Attested plain (codes "input") (repeat 32) sample accepted

plain-CodecLaws : CodecLaws plain sample (repeat 64) (repeat 32)
unfolding str_eq repeat
plain-CodecLaws = record {
  json = λ body e. refl;
  json_full = λ body e. cc;
  base64 = λ s. refl;
  base64_full = λ s h. h;
  signature_full = λ body. refl;
  signature_good = λ body. refl;
  key_size = refl;
}

signed : sign plain sample (repeat 64) ≡ ok envelope
unfolding sign repeat ℕ_discrete
signed = refl

bad_pin_is_no_key : trusted_key plain (codes "zz") (repeat 32) ≡ none
unfolding trusted_key parse_public_key trim_space repeat ℕ_discrete
bad_pin_is_no_key = refl
