-- ===== src/SignTool.antt =====
-- cmd/sshhub-sign/main.go: making the signed manifest of a release. The directory, the key file and the
-- environment are arguments, and so is the JSON encoder of the signed manifest.
pub mod Written
pub mod Keygen
pub mod Command
mod Examples
use sshhub.Base.Results.{ok, err, ◌>>=◌, ◌>>◌, reject_if, or_fail}
use sshhub.Base.Results
use sshhub.Base.{
  ℕ, Bool, true, false, not, ◌&&◌, ◌||◌, List, [], ◌∷◌, ◌++◌, Option, none, some, if◌then◌else◌,
  ◌==◌, nat_eq, length,
}
use sshhub.Base.Dict.{Dict, insert}
use sshhub.Text.{Str, codes, is_empty, trim_prefix, trim_space, str_eq}
use sshhub.Release.{
  Manifest, SignedManifest, Codec, Error, no_entries, manifest_version, private_key_size, sign,
}

pub data SignError : Type 0 where
  missing_value required no_key unreadable_key bad_key bad_key_size unreadable_dir no_files :
      SignError
  cannot_hash : Str → SignError
  cannot_sign : Error → SignError
  cannot_encode cannot_write : SignError

abbrev pub Result {ℓ} : Type ℓ → Type ℓ
Result A = Results.Result SignError A

pub record Options : Type 0 where
  pub version : Str
  pub dir : Str
  pub urgent : Str
  pub key_file : Str
  pub out : Str

-- The switch at one argument, with the value that `next` gives: `none` where it is no flag.
unfoldable pub set_option : Str → Str → Options → Option Options
set_option arg v o =
    if arg == codes "--version"
    then some (record o { version = v })
    else if arg == codes "--dir"
    then some (record o { dir = v })
    else if arg == codes "--urgent"
    then some (record o { urgent = v })
    else if arg == codes "--key"
    then some (record o { key_file = v })
    else if arg == codes "--out"
    then some (record o { out = v })
    else none

unfoldable pub parse : List Str → Options → Result Options
parse [] o = ok o
parse (arg ∷ []) o = elim (set_option arg [] o) [ none ↦ ok o | some _ ↦ err missing_value ]
parse (arg ∷ v ∷ rest) o = elim (set_option arg v o) [
  | none ↦ parse (v ∷ rest) o
  | some o' ↦ parse rest o'
]

-- An entry of the directory, with its content if it can be read.
pub record Entry : Type 0 where
  pub name : Str
  pub is_dir : Bool
  pub content : Option Str

-- `strings.HasSuffix`
unfoldable pub has_suffix : Str → Str → Bool
has_suffix [] p = is_empty p
has_suffix (c ∷ s) p = (c ∷ s) == p || has_suffix s p

unfoldable pub is_artifact : Entry → Bool
is_artifact e = not e.is_dir && has_suffix e.name (codes ".tar.gz")

module _ (c : Codec) where
  -- The loop over the directory.
  unfoldable pub collect : List Entry → Dict Str Str → Result (Dict Str Str)
  collect [] m = ok m
  collect (e ∷ es) m =
      if is_artifact e
      then elim e.content [
        | none ↦ err (cannot_hash e.name)
        | some bytes ↦ collect es (insert e.name (c.sha256_hex bytes) m)
      ]
      else collect es m

  -- `loadPrivateKey`, of the environment's text and the content of the key file, `none` where it
  -- cannot be read.
  unfoldable pub raw_key : Str → Str → Option Str → Result Str
  raw_key file env content =
      if is_empty file
      then ok (trim_space env)
      else (do text ← or_fail content unreadable_key; ok (trim_space text))

  unfoldable pub decode_key : Str → Option Str
  decode_key raw = elim (c.decode64 raw) [ some bytes ↦ some bytes | none ↦ c.decode_hex raw ]

  unfoldable pub load_private_key : Str → Str → Option Str → Result Str
  load_private_key file env content = do
    raw ← raw_key file env content
    reject_if (is_empty raw) no_key
    key ← or_fail (decode_key raw) bad_key
    reject_if (not (length key == private_key_size)) bad_key_size
    ok key

  unfoldable pub signed : Results.Result Error SignedManifest → Result SignedManifest
  signed (err e) = err (cannot_sign e)
  signed (ok sm) = ok sm

  unfoldable pub manifest_of : Options → ℕ → Dict Str Str → Manifest
  manifest_of o now artifacts = record {
    schema_version = manifest_version;
    version = trim_prefix o.version (codes "v");
    published_at = now;
    artifacts = artifacts;
    urgent = not (is_empty o.urgent);
    urgent_reason = o.urgent;
  }

  -- `manifest` without the writing of the file: the text that is written. The time `now` is cut to
  -- seconds already.
  unfoldable pub make_manifest :
      (SignedManifest → Option Str)
      → Options
      → Str
      → Option Str
      → Option (List Entry)
      → ℕ
      → Result Str
  make_manifest encode o env key_content entries now = do
    reject_if (is_empty o.version || is_empty o.dir) required
    priv ← load_private_key o.key_file env key_content
    es ← or_fail entries unreadable_dir
    artifacts ← collect es []
    reject_if (no_entries artifacts) no_files
    sm ← signed (sign c (manifest_of o now artifacts) priv)
    or_fail (encode sm) cannot_encode
