-- ===== src/HubUpdate/Latest.antt =====
-- `FetchLatestVersion`, `FetchLatestRelease` and `applyIfDue` of internal/hubupdate/update.go: what the
-- latest release is, and one check of the updater as it is put together. The decoder of GitHub's answer
-- is a parameter, `none` where it fails.
use sshhub.Base.{
  ℕ, suc, ◌≡◌, inl, inr, refl, ap, Bool, true, false, not, ◌||◌, List, [], ◌∷◌, ◌++◌, Option, none,
  some, arith, if◌then◌else◌, ◌==◌, nat_eq,
}
use sshhub.Base.Dict.{put}
use sshhub.Base.Int.{ℤ, pos, negsuc}
use sshhub.Text.{Str, codes, is_empty, str_eq}
use sshhub.Text.Cut.{split}
use sshhub.Release.{Codec}
use sshhub.HubUpdate.Manifest.{Http, github_repo, signed_urgent}
use sshhub.HubUpdate.AutoUpdate.{
  World, Outcome, applied, try_install, consider, act_on, apply_if_due_with, Installable,
  apply_if_due_with-Installable, attempted,
}
use sshhub.HubUpdate.Download.{Machine, download_and_apply}
use sshhub.HubUpdate.Download.Archive.{Files, Failure, hub, ctl}
use sshhub.HubUpdate.Download.Installed.{
  Prepared, After, replaced, first_only, untouched, download_and_apply-After,
}

-- The fields of GitHub's answer that are read.
pub record GithubRelease : Type 0 where
  pub tag_name : Str
  pub published_at : ℕ

abbrev pub latest_url : Str
latest_url = codes "https://github.com/" ++ (github_repo ++ codes "/releases/latest")

abbrev pub api_url : Str
api_url = codes "https://api.github.com/repos/" ++ (github_repo ++ codes "/releases/latest")

-- `parts[len(parts)-1]`
unfoldable pub last_part : List Str → Str
last_part [] = []
last_part (p ∷ []) = p
last_part (p ∷ q ∷ ps) = last_part (q ∷ ps)

-- The tag at the end of a redirection, if it has one.
unfoldable pub tag_of_location : Str → Option Str
tag_of_location loc =
    let tag = last_part (split loc b'/') in
    if is_empty loc || (is_empty tag || tag == codes "latest") then none else some tag

-- `locate` is the header "Location" of the answer to a request that follows no redirection: `none` for
-- a failure, and empty where there is no such header.
module _ (locate : Str → Option Str) (http : Http) (decode : Str → Option GithubRelease) where
  -- The fallback to GitHub's interface.
  unfoldable pub query_api : Option GithubRelease
  query_api = elim (http api_url) [
    | none ↦ none
    | some resp ↦ if not (resp.status == 200) then none else decode resp.body
  ]

  unfoldable pub redirected_tag : Option Str
  redirected_tag = elim (locate latest_url) [ none ↦ none | some loc ↦ tag_of_location loc ]

  unfoldable pub fetch_latest_version : Option Str
  fetch_latest_version = elim redirected_tag [
    | some tag ↦ some tag
    | none ↦ elim query_api [ none ↦ none | some rel ↦ some rel.tag_name ]
  ]

  unfoldable pub fetch_latest_release : Option (Str × ℕ)
  fetch_latest_release = elim query_api [
    | none ↦ none
    | some rel ↦ if is_empty rel.tag_name then none else some (rel.tag_name, rel.published_at)
  ]

  unfoldable pub default_checker : ℤ → Option (Str × ℕ)
  default_checker (pos (suc n)) = fetch_latest_release
  default_checker _ = elim fetch_latest_version [ none ↦ none | some tag ↦ some (tag, 0) ]

abbrev pub is_success : Option Failure → Bool
is_success none = true
is_success (some e) = false

module _ (c : Codec) (w : Machine) (locate : Str → Option Str) (decode : Str → Option GithubRelease)
    (now : ℕ) (installed : Files) where
  -- What `applyIfDue` hands to `applyIfDueWith`.
  unfoldable pub hub_world : World
  hub_world = record {
    check = default_checker locate w.http decode;
    urgent = λ tag. (signed_urgent c w.http w.trusted tag).0;
    install = λ tag. is_success (download_and_apply c w tag installed).1;
    current = w.version;
    now = now;
  }

  unfoldable pub apply_if_due : ℤ → Outcome
  apply_if_due soak = apply_if_due_with soak hub_world

consider-applied :
    (w : World) (soak : ℕ) (latest : Str) (published : ℕ) (tag : Str)
    → consider w soak latest published ≡ applied tag
    → w.install tag ≡ true
unfolding consider try_install
consider-applied w soak latest published tag h = ground arith

act_on-applied :
    (w : World) (soak : ℕ) (found : Option (Str × ℕ)) (tag : Str)
    → act_on w soak found ≡ applied tag
    → w.install tag ≡ true
unfolding act_on
act_on-applied w soak none tag h = cc
act_on-applied w soak (some (latest, published)) tag h =
    consider-applied w soak latest published tag h

apply_if_due_with-applied :
    (w : World) (soak : ℤ) (tag : Str)
    → apply_if_due_with soak w ≡ applied tag
    → (n : ℕ) × (soak ≡ pos n) × Installable w n (w.check (pos n)) tag × (w.install tag ≡ true)
unfolding apply_if_due_with
apply_if_due_with-applied w (negsuc n) tag h = absurd (cc)
apply_if_due_with-applied w (pos n) tag h = (
  n,
  refl,
  (apply_if_due_with-Installable w n tag).0 (ap attempted h),
  act_on-applied w n (w.check (pos n)) tag h,
)

-- The disk after an attempt without an error.
success-replaced :
    (w : Machine) (new_hub new_ctl : Str) (before after : Files) (e : Option Failure)
    → After w new_hub new_ctl before after e
    → is_success e ≡ true
    → after ≡ put ctl new_ctl (put hub new_hub before)
success-replaced w new_hub new_ctl before after none (replaced same) h = same
success-replaced w new_hub new_ctl before after (some e) (first_only x y) h = absurd (cc)
success-replaced w new_hub new_ctl before after (some e) (untouched x y) h = absurd (cc)

-- Both binaries are replaced by those of a release that was prepared.
abbrev pub Updated : Codec → Machine → Str → Files → Files → Type 0
Updated c w tag before after =
    (files : Files) × ((new : Prepared c w tag files) × (after
        ≡ put ctl new.unpacked.new_ctl (put hub new.unpacked.new_hub before)))

pub success-Updated :
    (c : Codec) (w : Machine) (tag : Str) (before : Files)
    → is_success (download_and_apply c w tag before).1 ≡ true
    → Updated c w tag before (download_and_apply c w tag before).0
success-Updated c w tag before h = elim (download_and_apply-After c w tag before) [
  | inl (same, (e, failure)) ↦ absurd (ground arith)
  | inr (files, new, result) ↦ (
    files,
    (
      new,
      success-replaced w new.unpacked.new_hub new.unpacked.new_ctl before
          (download_and_apply c w tag before).0 (download_and_apply c w tag before).1 result h,
    ),
  )
]

-- When one check of the running hub reports an update, both binaries have been replaced by those of a
-- newer release: the one that GitHub names the latest, due by its publication time or by a verified
-- marker, downloaded with the digest of its verified manifest. Updates are not switched off then.
pub apply_if_due-Updated :
    (c : Codec) (w : Machine) (locate : Str → Option Str) (decode : Str → Option GithubRelease)
    (now : ℕ) (installed : Files) (soak : ℤ) (tag : Str)
    → apply_if_due c w locate decode now installed soak ≡ applied tag
    → (n : ℕ) × (soak ≡ pos n)
      × Installable
          (hub_world c w locate decode now installed)
          n
          (default_checker locate w.http decode (pos n))
          tag
      × Updated c w tag installed (download_and_apply c w tag installed).0
unfolding apply_if_due hub_world
apply_if_due-Updated c w locate decode now installed soak tag h =
    let (n, e, due, done) =
      apply_if_due_with-applied (hub_world c w locate decode now installed) soak tag h in
    (n, e, due, success-Updated c w tag installed done)
