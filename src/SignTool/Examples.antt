-- ===== src/SignTool/Examples.antt =====
-- Signing a directory with one archive, and the theorem on the manifest there.
use sshhub.Base.Results.{ok, err, from_ok}
use sshhub.Base.{
  ℕ, zero, suc, ◌≡◌, refl, sym, ap, subst, ◌∙◌, true, false, ◌&&◌, List, [], ◌∷◌, Option, none,
  some, if◌then◌else◌, ◌==◌, ==_iff, ℕ_discrete, arith, inl, inr,
}
use sshhub.Base.Dict.{Dict, insert}
use sshhub.Base.Int.{pos}
use sshhub.Text.{Str, codes, str_eq, trim_space, trim_left, trim_right, trim_prefix, to_lower}
use sshhub.Release.{Manifest, SignedManifest, Codec, sign}
use sshhub.Release.RoundTrip.{CodecLaws}
use sshhub.SignTool.{
  Options, Entry, missing_value, parse, set_option, has_suffix, is_artifact, collect,
  load_private_key, raw_key, decode_key, signed, manifest_of, make_manifest,
}
use sshhub.SignTool.Written.{Distinct, Good}
use sshhub.SignTool.Keygen.{keygen, PairLaws, keygen-Good}
use sshhub.Release.Key.{trusted_key}

repeat : ℕ → Str
repeat zero = []
repeat (suc n) = b'k' ∷ repeat n

abbrev options : Options
options = record {
  version = codes "v0.9.1";
  dir = codes "dist";
  urgent = codes "fix";
  key_file = [];
  out = [];
}

parsed :
    parse
      (codes "--version"
        ∷ codes "v0.9.1"
        ∷ codes "--dir"
        ∷ codes "dist"
        ∷ codes "--urgent"
        ∷ codes "fix"
        ∷ [])
      (record { version = []; dir = []; urgent = []; key_file = []; out = [] })
    ≡ ok options
unfolding parse set_option str_eq ℕ_discrete
parsed = refl

no_value : parse (codes "--dir" ∷ []) options ≡ err missing_value
unfolding parse set_option str_eq ℕ_discrete
no_value = refl

abbrev archive : Entry
archive = record { name = codes "a.tar.gz"; is_dir = false; content = some (codes "data") }

abbrev notes : Entry
notes = record { name = codes "notes"; is_dir = false; content = none }

abbrev entries : List Entry
entries = notes ∷ archive ∷ []

abbrev artifacts : Dict Str Str
artifacts = (codes "a.tar.gz", []) ∷ []

abbrev sample : Manifest
sample = record {
  schema_version = pos 1;
  version = codes "0.9.1";
  published_at = 5;
  artifacts = artifacts;
  urgent = true;
  urgent_reason = codes "fix";
}

abbrev envelope : SignedManifest
envelope = record { manifest = codes "body"; signature = codes "sig" }

abbrev plain : Codec
plain = record {
  decode_signed = λ s. some envelope;
  decode_manifest = λ s. some sample;
  encode_manifest = λ m. some (codes "body");
  decode64 = λ s. some s;
  encode64 = λ s. s;
  decode_hex = λ s. none;
  verifies = λ key body sig. sig == codes "sig";
  signs = λ priv body. codes "sig";
  sha256_hex = λ s. [];
}

abbrev encode : SignedManifest → Option Str
encode sm =
    if (sm.manifest == codes "body") && (sm.signature == codes "sig")
    then some (codes "out")
    else none

encode-read : (sm : SignedManifest) (t : Str) → encode sm ≡ some t → some envelope ≡ some sm
encode-read sm t h =
    let body = (==_iff sm.manifest (codes "body")).0 (ground arith) in
    let sig = (==_iff sm.signature (codes "sig")).0 (ground arith) in cc

collected : collect plain entries [] ≡ ok artifacts
unfolding collect is_artifact has_suffix insert str_eq ℕ_discrete
collected = refl

sample-CodecLaws :
    (found : Dict Str Str)
    → collect plain entries [] ≡ ok found
    → CodecLaws plain (manifest_of plain options 5 found) (repeat 64) (repeat 32)
unfolding manifest_of trim_prefix str_eq ℕ_discrete repeat
sample-CodecLaws found h =
    let same : artifacts ≡ found = from_ok (sym collected ∙ h) in
    subst (λ a. CodecLaws plain (manifest_of plain options 5 a) (repeat 64) (repeat 32)) same
      (record {
        json = λ body e. refl;
        json_full = λ body e. cc;
        base64 = λ s. refl;
        base64_full = λ s h. h;
        signature_full = λ body. refl;
        signature_good = λ body. refl;
        key_size = refl;
      })

loaded : load_private_key plain [] (repeat 64) none ≡ ok (repeat 64)
unfolding load_private_key raw_key decode_key trim_space trim_left trim_right repeat ℕ_discrete
loaded = refl

made : make_manifest plain encode options (repeat 64) none (some entries) 5 ≡ ok (codes "out")
unfolding make_manifest load_private_key raw_key decode_key collect is_artifact has_suffix insert
    signed sign manifest_of trim_space trim_left trim_right trim_prefix repeat str_eq ℕ_discrete
made = refl

entries-Distinct : Distinct entries
entries-Distinct = (
  λ e' i. elim i [
    | inl same ↦ λ e. ground (arith, ap (λ (x : Entry). x.name) same)
    | inr j ↦ absurd j
  ],
  (λ e' i. absurd i, tt),
)

pair-PairLaws : PairLaws plain (repeat 32) (repeat 64)
unfolding trim_space trim_left trim_right repeat ℕ_discrete
pair-PairLaws = record {
  base64 = λ s. refl;
  private_spaceless = refl;
  public_spaceless = refl;
  private_full = refl;
  public_full = refl;
  private_size = refl;
  public_size = refl;
}

keygen-Good_example :
    (load_private_key plain [] (repeat 64) none ≡ ok (repeat 64))
    × (trusted_key plain [] (repeat 32) ≡ some (repeat 32))
    × ((compiled : Str) → trusted_key plain (repeat 32) compiled ≡ some (repeat 32))
    × Good plain options entries (codes "out") (repeat 32)
unfolding to_lower keygen
keygen-Good_example =
    keygen-Good plain encode options (repeat 32) (repeat 64) (repeat 64) (repeat 32) (codes "out")
      none entries 5 refl refl made pair-PairLaws entries-Distinct (λ s. refl) encode-read
      sample-CodecLaws
