-- ===== src/SignTool/Written.antt =====
-- A manifest that cmd/sshhub-sign/main.go writes, at a hub that checks it (internal/release/release.go).
use sshhub.Base.Results
use sshhub.Base.Results.{ok, err, or_fail, err-ne-ok, from_ok, bind_inv, reject_if_inv, or_fail-ok}
use sshhub.Base.{
  ℕ, ◌≡◌, ◌≢◌, refl, sym, ap, subst, ◌∙◌, true, false, not, List, [], ◌∷◌, Option, some, arith,
  eq_self, Bool-cases, Option-cases, inl, inr, In,
}
use sshhub.Base.Dict.{Dict, lookup, insert, lookup-insert}
use sshhub.Text.{Str, codes, trim_prefix, to_lower, str_eq, is_empty}
use sshhub.Release.{
  Manifest, SignedManifest, Codec, Error, no_entries, sign, verify, verify_artifact, digest_for,
}
use sshhub.Release.RoundTrip.{CodecLaws, verify-sign}
use sshhub.SignTool.{
  Options, Entry, is_artifact, collect, signed, manifest_of, make_manifest, load_private_key,
  required, no_files,
}

-- No two entries have one name.
abbrev pub Distinct : List Entry → Type 0
Distinct [] = Unit
Distinct (e ∷ es) = ((e' : Entry) → In e' es → e'.name ≢ e.name) × Distinct es

-- What later entries leave alone.
collect-keeps :
    (c : Codec) (es : List Entry) (m m' : Dict Str Str) (name d : Str)
    → collect c es m ≡ ok m'
    → lookup name m ≡ some d
    → ((e : Entry) → In e es → e.name ≢ name)
    → lookup name m' ≡ some d
unfolding collect
collect-keeps c [] m m' name d h has other = subst (λ x. lookup name x ≡ some d) (from_ok h) has
collect-keeps c (e ∷ es) m m' name d h has other = elim (Bool-cases (is_artifact e)) [
  | inr skipped ↦
      collect-keeps c es m m' name d (rw (skipped, collect) at h) has (λ e' i. other e' (inr i))
  | inl taken ↦ elim (Option-cases e.content) [
    | inl unread ↦ absurd (err-ne-ok (rw (taken, unread, collect) at h))
    | inr (bytes, read) ↦
        collect-keeps c es (insert e.name (c.sha256_hex bytes) m) m' name d
          (rw (taken, read, collect) at h)
          (ground (arith, lookup-insert name e.name (c.sha256_hex bytes) m, other e (inl refl)))
          (λ e' i. other e' (inr i))
  ]
]

-- Each artifact of the directory is in the manifest with its digest.
collect-digest :
    (c : Codec) (es : List Entry) (m m' : Dict Str Str) (e : Entry) (bytes : Str)
    → Distinct es
    → collect c es m ≡ ok m'
    → In e es
    → is_artifact e ≡ true
    → e.content ≡ some bytes
    → lookup e.name m' ≡ some (c.sha256_hex bytes)
unfolding collect
collect-digest c [] m m' e bytes d h i art read = absurd i
collect-digest c (x ∷ es) m m' e bytes (apart, d) h i art read = elim i [
  | inl same ↦
      let art_x = subst (λ y. is_artifact y ≡ true) same art in
      let read_x = subst (λ (y : Entry). y.content ≡ some bytes) same read in
      subst (λ (y : Entry). lookup y.name m' ≡ some (c.sha256_hex bytes)) (sym same)
        (collect-keeps c es (insert x.name (c.sha256_hex bytes) m) m' x.name (c.sha256_hex bytes)
          (rw (art_x, read_x, collect) at h)
          (ground (arith, lookup-insert x.name x.name (c.sha256_hex bytes) m, eq_self x.name))
          apart)
  | inr j ↦ elim (Bool-cases (is_artifact x)) [
    | inr skipped ↦ collect-digest c es m m' e bytes d (rw (skipped, collect) at h) j art read
    | inl taken ↦ elim (Option-cases x.content) [
      | inl unread ↦ absurd (err-ne-ok (rw (taken, unread, collect) at h))
      | inr (others, found) ↦
          collect-digest c es (insert x.name (c.sha256_hex others) m) m' e bytes d
            (rw (taken, found, collect) at h) j art read
    ]
  ]
]

digest-verify_artifact :
    (c : Codec) (m : Manifest) (name bytes : Str)
    → ((s : Str) → to_lower (c.sha256_hex s) ≡ c.sha256_hex s)
    → lookup name m.artifacts ≡ some (c.sha256_hex bytes)
    → verify_artifact c m name bytes ≡ ok tt
unfolding verify_artifact digest_for
digest-verify_artifact c m name bytes lower has =
    ground (arith, lower bytes, eq_self (c.sha256_hex bytes))

signed-ok :
    (c : Codec) (r : Results.Result Error SignedManifest) (sm : SignedManifest)
    → signed c r ≡ ok sm
    → r ≡ ok sm
unfolding signed
signed-ok c (err e) sm h = absurd (err-ne-ok h)
signed-ok c (ok sm') sm h = ap ok (from_ok h)

-- What the manifest is good for: hubs with the public key accept it, it has the version of the release
-- without a leading "v", and every artifact of the directory passes by it.
pub record Good (c : Codec) (o : Options) (es : List Entry) (text key : Str) : Type 0 where
  pub manifest : Manifest
  pub accepted : verify c text key ≡ ok manifest
  pub same_version : manifest.version ≡ trim_prefix o.version (codes "v")
  pub marked : manifest.urgent ≡ not (is_empty o.urgent)
  pub covers :
      (e : Entry) (bytes : Str)
      → In e es
      → is_artifact e ≡ true
      → e.content ≡ some bytes
      → verify_artifact c manifest e.name bytes ≡ ok tt

signed-Good :
    (c : Codec) (o : Options) (text priv key : Str) (es : List Entry) (now : ℕ)
    (artifacts : Dict Str Str) (sm : SignedManifest)
    → Distinct es
    → ((s : Str) → to_lower (c.sha256_hex s) ≡ c.sha256_hex s)
    → collect c es [] ≡ ok artifacts
    → no_entries artifacts ≡ false
    → sign c (manifest_of c o now artifacts) priv ≡ ok sm
    → c.decode_signed text ≡ some sm
    → CodecLaws c (manifest_of c o now artifacts) priv key
    → Good c o es text key
unfolding manifest_of
signed-Good c o text priv key es now artifacts sm apart lower found full sealed read laws =
    let m = manifest_of c o now artifacts in
    record {
      manifest = m;
      accepted = verify-sign c m priv key text sm laws refl full sealed read;
      same_version = refl;
      marked = refl;
      covers = λ e bytes i art content.
          digest-verify_artifact c m e.name bytes lower
            (collect-digest c es [] artifacts e bytes apart found i art content);
    }

-- A manifest that the tool makes is good: hubs that trust the public key of the signing key accept it,
-- with the version and the urgent marker that were asked for, and accept every archive of the directory
-- by its digest there. The names in the directory are different; digests are in lower case, the encoder
-- of the signed manifest is read back, and the codec's laws hold for the manifest and the key pair.
pub make_manifest-Good :
    (c : Codec) (encode : SignedManifest → Option Str) (o : Options) (env text priv key : Str)
    (key_content : Option Str) (es : List Entry) (now : ℕ)
    → make_manifest c encode o env key_content (some es) now ≡ ok text
    → load_private_key c o.key_file env key_content ≡ ok priv
    → Distinct es
    → ((s : Str) → to_lower (c.sha256_hex s) ≡ c.sha256_hex s)
    → ((sm : SignedManifest) (t : Str) → encode sm ≡ some t → c.decode_signed t ≡ some sm)
    → ((artifacts : Dict Str Str)
        → collect c es [] ≡ ok artifacts
        → CodecLaws c (manifest_of c o now artifacts) priv key)
    → Good c o es text key
unfolding make_manifest
make_manifest-Good c encode o env text priv key key_content es now h loaded apart lower reads laws =
    let (_, h1) = reject_if_inv _ required _ h in
    let (priv', loaded', h2) = bind_inv (load_private_key c o.key_file env key_content) _ h1 in
    let (artifacts, found, h3) = bind_inv (collect c es []) _ h2 in
    let (full, h4) = reject_if_inv (no_entries artifacts) no_files _ h3 in
    let (sm, sealed, h5) =
      bind_inv (signed c (sign c (manifest_of c o now artifacts) priv')) _ h4 in
    let encoded = or_fail-ok (encode sm) _ h5 in
    let same_key : priv' ≡ priv = from_ok (sym loaded' ∙ loaded) in
    let sealed_by =
      subst (λ k. sign c (manifest_of c o now artifacts) k ≡ ok sm) same_key
        (signed-ok c (sign c (manifest_of c o now artifacts) priv') sm sealed) in
    signed-Good c o text priv key es now artifacts sm apart lower found full sealed_by
      (reads sm text encoded) (laws artifacts found)
