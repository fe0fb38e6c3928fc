-- ===== src/Release/Trust.antt =====
-- What a manifest accepted by `Verify` in internal/release/release.go carries, and which artifact
-- bytes `VerifyArtifact` accepts.
use sshhub.Base.Results.{ok, from_ok, reject_if_inv, or_fail_inv, not-false}
use sshhub.Base.{◌≡◌, ◌↔◌, ap, subst, ◌∙◌, true, false, some, arith, length, nat_eq, ==_iff}
use sshhub.Base.Dict.{lookup}
use sshhub.Base.Int.{int_eq}
use sshhub.Text.{Str, to_lower, str_eq}
use sshhub.Release.{
  Manifest, SignedManifest, Codec, no_entries, public_key_size, manifest_version, digest_for,
  verify, verify_artifact,
}

-- The bytes are a signed manifest whose signature under `key` is good for the very bytes that `m`
-- was decoded from, and `m` has the known schema and covers something.
pub record Attested (c : Codec) (input key : Str) (m : Manifest) : Type 0 where
  pub signed : SignedManifest
  pub body : Str
  pub sig : Str
  pub key_size : length key ≡ public_key_size
  pub is_signed : c.decode_signed input ≡ some signed
  pub has_body : c.decode64 signed.manifest ≡ some body
  pub has_sig : c.decode64 signed.signature ≡ some sig
  pub good : c.verifies key body sig ≡ true
  pub decoded : c.decode_manifest body ≡ some m
  pub schema : m.schema_version ≡ manifest_version
  pub covers : no_entries m.artifacts ≡ false

-- `Verify` fails closed: a manifest that it returns is attested by a signature under the trusted key.
pub verify-Attested :
    (c : Codec) (input key : Str) (m : Manifest)
    → verify c input key ≡ ok m
    → Attested c input key m
unfolding verify
verify-Attested c input key m h =
    let (size, h1) = reject_if_inv _ _ _ h in
    let (sm, e1, h2) = or_fail_inv _ _ _ h1 in
    let (full, h3) = reject_if_inv _ _ _ h2 in
    let (body, e2, h4) = or_fail_inv _ _ _ h3 in
    let (sig, e3, h5) = or_fail_inv _ _ _ h4 in
    let (good, h6) = reject_if_inv _ _ _ h5 in
    let (m', e4, h7) = or_fail_inv _ _ _ h6 in
    let (schema, h8) = reject_if_inv _ _ _ h7 in
    let (covers, h9) = reject_if_inv _ _ _ h8 in
    record {
      signed = sm;
      body = body;
      sig = sig;
      key_size = (==_iff (length key) public_key_size).0 (not-false _ size);
      is_signed = e1;
      has_body = e2;
      has_sig = e3;
      good = not-false _ good;
      decoded = e4 ∙ ap some (from_ok h9);
      schema =
          subst (λ (x : Manifest). x.schema_version ≡ manifest_version) (from_ok h9)
            ((==_iff m'.schema_version manifest_version).0 (not-false _ schema));
      covers = subst (λ (x : Manifest). no_entries x.artifacts ≡ false) (from_ok h9) covers;
    }

-- `VerifyArtifact` accepts bytes exactly if the manifest covers the asset and their SHA-256 digest is
-- the one that it states, in lower case.
verify_artifact_iff :
    (c : Codec) (m : Manifest) (asset payload : Str)
    → (verify_artifact c m asset payload ≡ ok tt)
      ↔ ((d : Str) × (lookup asset m.artifacts ≡ some d) × (c.sha256_hex payload ≡ to_lower d))
unfolding verify_artifact digest_for
verify_artifact_iff c m asset payload = (forth, back)
  where
    forth :
        verify_artifact c m asset payload ≡ ok tt
        → (d : Str) × (lookup asset m.artifacts ≡ some d) × (c.sha256_hex payload ≡ to_lower d)
    forth h = ground arith

    back :
        (d : Str) × (lookup asset m.artifacts ≡ some d) × (c.sha256_hex payload ≡ to_lower d)
        → verify_artifact c m asset payload ≡ ok tt
    back (d, e, s) = ground arith
