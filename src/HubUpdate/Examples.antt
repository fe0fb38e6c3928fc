-- ===== src/HubUpdate/Examples.antt =====
-- An update from a release server that answers every request the same way, with a codec in which texts
-- stand for themselves.
use sshhub.Base.Results.{ok}
use sshhub.Base.{
  ap, Option, ℕ, zero, suc, ◌≡◌, ◌↔◌, ◌⊎◌, refl, true, false, [], ◌∷◌, none, some, ◌==◌, ℕ_discrete,
}
use sshhub.Base.Dict.{put}
use sshhub.Base.Int.{pos, int_eq}
use sshhub.Text.{Str, codes, str_eq, has_prefix, trim_prefix, trim_space, to_lower}
use sshhub.Text.Cut.{split, take, before, last_index}
use sshhub.Release.{Manifest, Codec, verify, verify_artifact, digest_for}
use sshhub.Base.Dict.{lookup}
use sshhub.HubUpdate.Version.{
  is_newer, clean, compare_versions, parts, compare_parts, atoi, is_digit,
}
use sshhub.HubUpdate.Manifest.{
  Http, accept_manifest, fetch_verified_manifest, signed_urgent, urgent_marker,
}
use sshhub.HubUpdate.AutoUpdate.{
  World, applied, attempted, Installable, apply_if_due_with, apply_if_due_with-Installable, poll,
  act_on, consider, must_wait, try_install,
}
use sshhub.HubUpdate.AutoUpdate.Loop.{Fails, poll-applies}
use sshhub.HubUpdate.Download.{
  Machine, prepare, replace_all, download_and_apply, is_release_version, release_tag, asset_name,
  lift, fetch_artifact, unpack_artifact,
}
use sshhub.HubUpdate.Download.Archive.{
  Failure, Entry, Files, hub, ctl, no_files, extract, extract_entry, add_file, is_binary, bad_size,
  base_name,
}
use sshhub.HubUpdate.Download.Installed.{Prepared, After, download_and_apply-After}
use sshhub.HubUpdate.Latest.{
  GithubRelease, redirected_tag, tag_of_location, last_part, query_api, fetch_latest_release,
  default_checker, hub_world, apply_if_due, Updated, apply_if_due-Updated,
}

repeat : ℕ → Str
repeat zero = []
repeat (suc n) = b'k' ∷ repeat n

abbrev sample : Manifest
sample = record {
  schema_version = pos 1;
  version = codes "0.9.1";
  published_at = 1;
  artifacts = (codes "sshhub-linux-amd64.tar.gz", codes "DATA") ∷ [];
  urgent = true;
  urgent_reason = [];
}

abbrev plain : Codec
plain = record {
  decode_signed = λ s. some (record { manifest = codes "body"; signature = codes "sig" });
  decode_manifest = λ s. some sample;
  encode_manifest = λ m. some (codes "body");
  decode64 = λ s. some s;
  encode64 = λ s. s;
  decode_hex = λ s. none;
  verifies = λ key body sig. sig == codes "sig";
  signs = λ priv body. codes "sig";
  sha256_hex = λ s. s;
}

abbrev server : Http
server url = some (record { status = 200; body = codes "data" })

urgent_release : (signed_urgent plain server (some (repeat 32)) (codes "v0.9.1")).0 ≡ true
unfolding signed_urgent urgent_marker fetch_verified_manifest accept_manifest verify repeat str_eq
    int_eq ℕ_discrete trim_prefix
urgent_release = refl

abbrev one_day : World
one_day = record {
  check = λ soak. some (codes "v0.9.1", 100);
  urgent = λ tag. false;
  install = λ tag. true;
  current = codes "0.9.0";
  now = 200;
}

apply_if_due_with-Installable_example :
    (attempted (apply_if_due_with (pos 100) one_day) ≡ some (codes "v0.9.1"))
    ↔ Installable one_day 100 (some (codes "v0.9.1", 100)) (codes "v0.9.1")
apply_if_due_with-Installable_example = apply_if_due_with-Installable one_day 100 (codes "v0.9.1")

installs : apply_if_due_with (pos 100) one_day ≡ applied (codes "v0.9.1")
unfolding apply_if_due_with act_on consider must_wait try_install is_newer clean trim_space
    trim_prefix compare_versions parts split before compare_parts atoi is_digit ℕ_discrete
installs = refl

poll_installs : poll (pos 100) (one_day ∷ []) ≡ applied (codes "v0.9.1") ∷ []
unfolding poll apply_if_due_with act_on consider must_wait try_install is_newer clean trim_space
    trim_prefix compare_versions parts split before compare_parts atoi is_digit ℕ_discrete
poll_installs = refl

one_day_due : Installable one_day 100 (some (codes "v0.9.1", 100)) (codes "v0.9.1")
one_day_due = (apply_if_due_with-Installable one_day 100 (codes "v0.9.1")).0 (ap attempted installs)

-- The installer fails at a first check.
abbrev broken : World
broken = record one_day { install = λ tag. false }

broken-Fails : Fails 100 broken
broken-Fails tag due = refl

-- The release is applied at the second check, and the third is not made.
poll-applies_example :
    poll (pos 100) (broken ∷ one_day ∷ broken ∷ [])
    ≡ apply_if_due_with (pos 100) broken ∷ applied (codes "v0.9.1") ∷ []
poll-applies_example =
    poll-applies 100 (broken ∷ []) (broken ∷ []) one_day (codes "v0.9.1") (broken-Fails, tt)
      one_day_due refl

regular : Str → Str → Entry
regular name content = record {
  name = name;
  is_regular = true;
  size = pos 3;
  content = some content;
}

abbrev machine : Machine
machine = record {
  http = server;
  trusted = some (repeat 32);
  version = codes "0.9.0";
  goos = codes "linux";
  goarch = codes "amd64";
  lock_taken = false;
  unpack = λ payload. some (regular hub (codes "new") ∷ regular ctl (codes "NEW") ∷ [], true);
  temp_dir = true;
  renames = λ name. name == hub;
}

download_and_apply-After_example :
    let r = download_and_apply plain machine (codes "0.9.1") no_files in
    ((r.0 ≡ no_files) × ((e : Failure) × (r.1 ≡ some e)))
    ⊎ ((files : Files) × (new : Prepared plain machine (codes "0.9.1") files) × After machine
          new.unpacked.new_hub new.unpacked.new_ctl no_files r.0 r.1)
download_and_apply-After_example = download_and_apply-After plain machine (codes "0.9.1") no_files

abbrev new_files : Files
new_files = put ctl (codes "NEW") (put hub (codes "new") no_files)

prepared : prepare plain machine (codes "0.9.1") ≡ ok new_files
unfolding prepare fetch_artifact unpack_artifact lift release_tag asset_name is_release_version
    is_newer clean trim_space trim_prefix compare_versions parts split before compare_parts atoi
    is_digit fetch_verified_manifest accept_manifest verify verify_artifact digest_for lookup
    to_lower repeat regular extract extract_entry add_file is_binary bad_size base_name last_index
    take str_eq int_eq ℕ_discrete has_prefix
prepared = refl

abbrev locate : Str → Option Str
locate url = some (codes "https://github.com/Trickhish/sshhub/releases/tag/v0.9.1")

abbrev decode : Str → Option GithubRelease
decode body = some (record { tag_name = codes "v0.9.1"; published_at = 100 })

redirected : redirected_tag locate server decode ≡ some (codes "v0.9.1")
unfolding redirected_tag tag_of_location last_part split str_eq ℕ_discrete
redirected = refl

abbrev both_rename : Machine
both_rename = record machine { renames = λ name. true }

updates :
    apply_if_due plain both_rename locate decode 200 no_files (pos 100) ≡ applied (codes "v0.9.1")
unfolding apply_if_due hub_world default_checker fetch_latest_release query_api apply_if_due_with
    act_on consider must_wait try_install download_and_apply replace_all prepare fetch_artifact
    unpack_artifact lift release_tag asset_name is_release_version is_newer clean trim_space
    trim_prefix compare_versions parts split before compare_parts atoi is_digit
    fetch_verified_manifest accept_manifest verify verify_artifact digest_for lookup to_lower repeat
    regular extract extract_entry add_file is_binary bad_size base_name last_index take str_eq
    int_eq ℕ_discrete has_prefix signed_urgent urgent_marker
updates = refl

apply_if_due-Updated_example :
    (n : ℕ) × (pos 100 ≡ pos n)
    × Installable
        (hub_world plain both_rename locate decode 200 no_files)
        n
        (default_checker locate both_rename.http decode (pos n))
        (codes "v0.9.1")
    × Updated plain both_rename
        (codes "v0.9.1")
        no_files
        (download_and_apply plain both_rename (codes "v0.9.1") no_files).0
apply_if_due-Updated_example =
    apply_if_due-Updated plain both_rename locate decode 200 no_files (pos 100) (codes "v0.9.1")
      updates
