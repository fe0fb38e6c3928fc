-- ===== src/HubUpdate/Download.antt =====
-- `DownloadAndApplyHubUpdate` of internal/hubupdate/update.go. The network, the lock, the archive reader
-- and the renaming of files are arguments; the installed binaries are a map from names to contents.
pub mod Archive
pub mod Entries
pub mod Installed
use sshhub.Base.Results.{ok, err, ◌>>=◌, ◌>>◌, reject_if, or_fail}
use sshhub.Base.{
  ℕ, ◌+◌, ◌≡◌, Bool, true, false, not, ◌||◌, List, [], ◌∷◌, ◌++◌, Option, none, some, leb, length,
  if◌then◌else◌, ◌==◌, nat_eq,
}
use sshhub.Base.Dict.{Map, put}
use sshhub.Base.Int.{ℤ, pos, negsuc}
use sshhub.Text.{Str, codes, is_empty, has_prefix, trim_prefix, str_eq}
use sshhub.Text.Cut.{split, last_index, take}
use sshhub.Release.{Manifest, Codec, verify_artifact}
use sshhub.Release
use sshhub.HubUpdate.Version.{is_digit, is_newer}
use sshhub.HubUpdate.Manifest.{Http, Response, asset_url, fetch_verified_manifest}
use Archive.{
  Failure, Result, Entry, Files, no_files, extract, hub, ctl, max_artifact_bytes, invalid_version,
  not_newer, locked, no_manifest, no_response, bad_status, too_large, bad_artifact, bad_gzip,
  bad_tar, no_temp_dir, missing_binary, cannot_replace,
}

all_digits : Str → Bool
all_digits [] = true
all_digits (c ∷ s) = if is_digit c then all_digits s else false

is_number : Str → Bool
unfolding all_digits
is_number [] = false
is_number (c ∷ s) = all_digits (c ∷ s)

-- The regular expression `^v?[0-9]+\.[0-9]+\.[0-9]+$`
unfoldable pub is_release_version : Str → Bool
unfolding is_number
is_release_version v = three_numbers (split (trim_prefix v (codes "v")) b'.')
  where
    three_numbers : List Str → Bool
    three_numbers (a ∷ b ∷ c ∷ []) =
        if is_number a then if is_number b then is_number c else false else false
    three_numbers _ = false

pub record Machine : Type 0 where
  pub http : Http
  pub trusted : Option Str
  pub version : Str
  pub goos : Str
  pub goarch : Str
  pub lock_taken : Bool
  -- The entries that the archive reader gives, and whether it came to the end of the archive.
  pub unpack : Str → Option (List Entry × Bool)
  pub temp_dir : Bool
  -- Whether `os.Rename` of this binary succeeds.
  pub renames : Str → Bool

unfoldable pub asset_name : Machine → Str
asset_name w = codes "sshhub-" ++ (w.goos ++ (codes "-" ++ (w.goarch ++ codes ".tar.gz")))

unfoldable pub release_tag : Str → Str
release_tag target = if has_prefix target (codes "v") then target else codes "v" ++ target

unfoldable pub lift {ℓ} : {A : Type ℓ} → Release.Result A → Failure → Result A
lift (ok a) e = ok a
lift (err _) e = err e

module _ (c : Codec) (w : Machine) where
  -- The artifact's bytes, checked against the signed manifest.
  unfoldable pub fetch_artifact : Str → Result Str
  unfolding lift
  fetch_artifact tag = do
    m ← or_fail (fetch_verified_manifest c w.http w.trusted tag) no_manifest
    resp ← or_fail (w.http (asset_url tag (asset_name w))) no_response
    reject_if (not (resp.status == 200)) bad_status
    let payload = take max_artifact_bytes resp.body
    reject_if (length payload == max_artifact_bytes) too_large
    lift (verify_artifact c m (asset_name w) payload) bad_artifact
    ok payload

  -- The binaries of the archive, in the temporary directory.
  unfoldable pub unpack_artifact : Str → Result Files
  unpack_artifact payload = do
    (entries, complete) ← or_fail (w.unpack payload) bad_gzip
    reject_if (not w.temp_dir) no_temp_dir
    (files, found) ← extract entries no_files 0
    reject_if (not complete) bad_tar
    reject_if (not (found == 2)) missing_binary
    ok files

  unfoldable pub prepare : Str → Result Files
  prepare target = do
    reject_if (not (is_release_version target)) invalid_version
    reject_if (not (is_newer target w.version)) not_newer
    reject_if w.lock_taken locked
    payload ← fetch_artifact (release_tag target)
    unpack_artifact payload

  -- `replaceBinary` for each of the names, in order: what is installed after it, and the error.
  unfoldable pub replace_all : List Str → Files → Files → Files × Option Failure
  replace_all [] files installed = (installed, none)
  replace_all (b ∷ bs) files installed = elim (files b) [
    | none ↦ replace_all bs files installed
    | some content ↦
        let rest = replace_all bs files (put b content installed) in
        if w.renames b then rest else (installed, some (cannot_replace b))
  ]

  unfoldable pub download_and_apply : Str → Files → Files × Option Failure
  download_and_apply target installed = elim (prepare target) [
    | err e ↦ (installed, some e)
    | ok files ↦ replace_all (hub ∷ ctl ∷ []) files installed
  ]
