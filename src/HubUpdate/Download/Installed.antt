-- ===== src/HubUpdate/Download/Installed.antt =====
-- What `DownloadAndApplyHubUpdate` of internal/hubupdate/update.go installs, and what a failure leaves.
use sshhub.Base.Results.{
  ok, err, err-ne-ok, from_ok, bind_inv, reject_if_inv, or_fail_inv, not-false,
}
use sshhub.Base.{
  ℕ, ◌+◌, ◌≡◌, refl, Bool, true, false, not, List, [], ◌∷◌, Option, none, some, arith, length, ◌==◌,
  nat_eq, ◌⊎◌, inl, inr, sym, ap, subst, ◌∙◌, ==_iff, if◌then◌else◌,
}
use sshhub.Base.Dict.{put}
use sshhub.Text.{Str, str_eq}
use sshhub.Text.Cut.{take}
use sshhub.Release.{Manifest, Codec, verify_artifact}
use sshhub.Release
use sshhub.HubUpdate.Version.{is_newer}
use sshhub.HubUpdate.Manifest.{asset_url, fetch_verified_manifest}
use sshhub.HubUpdate.Download.Archive.{
  Failure, Result, Entry, Files, no_files, extract, hub, ctl, cannot_replace, max_artifact_bytes,
  bad_status, too_large, bad_artifact,
}
use sshhub.HubUpdate.Download.Entries.{FromEntry, present, extract-Counted, extract-FromEntry}
use sshhub.HubUpdate.Download.{
  Machine, is_release_version, release_tag, asset_name, lift, fetch_artifact, unpack_artifact,
  prepare, replace_all, download_and_apply,
}

lift_inv : {A : Type 0} {a : A} (r : Release.Result A) (e : Failure) → lift r e ≡ ok a → r ≡ ok a
unfolding lift
lift_inv (ok x) e h = ap ok (from_ok h)
lift_inv (err x) e h = absurd (err-ne-ok h)

-- Where the bytes come from that the hub unpacks.
pub record Attested (c : Codec) (w : Machine) (tag payload : Str) : Type 0 where
  pub manifest : Manifest
  pub fetched : fetch_verified_manifest c w.http w.trusted tag ≡ some manifest
  pub covered : verify_artifact c manifest (asset_name w) payload ≡ ok tt

fetch_artifact-Attested :
    (c : Codec) (w : Machine) (tag payload : Str)
    → fetch_artifact c w tag ≡ ok payload
    → Attested c w tag payload
unfolding fetch_artifact
fetch_artifact-Attested c w tag payload h =
    let (m, got, h1) = or_fail_inv (fetch_verified_manifest c w.http w.trusted tag) _ _ h in
    let (resp, _, h2) = or_fail_inv (w.http (asset_url tag (asset_name w))) _ _ h1 in
    let payload' = take max_artifact_bytes resp.body in
    let (_, h3) = reject_if_inv (not (resp.status == 200)) bad_status _ h2 in
    let (_, h4) = reject_if_inv (length payload' == max_artifact_bytes) too_large _ h3 in
    let (_, checked, h5) =
      bind_inv (lift (verify_artifact c m (asset_name w) payload') bad_artifact) _ h4 in
    record {
      manifest = m;
      fetched = got;
      covered =
          subst (λ p. verify_artifact c m (asset_name w) p ≡ ok tt) (from_ok h5)
            (lift_inv _ _ checked);
    }

-- Both binaries are there, each with the bytes of a regular entry of its name.
pub record Unpacked (w : Machine) (payload : Str) (files : Files) : Type 0 where
  pub entries : List Entry
  pub complete : w.unpack payload ≡ some (entries, true)
  pub new_hub : Str
  pub new_ctl : Str
  pub has_hub : files hub ≡ some new_hub
  pub has_ctl : files ctl ≡ some new_ctl
  pub from_hub : FromEntry entries hub new_hub
  pub from_ctl : FromEntry entries ctl new_ctl

both_present :
    (a b : Option Str)
    → 2 ≡ present a + present b
    → ((x : Str) × (a ≡ some x)) × ((y : Str) × (b ≡ some y))
both_present none none h = absurd (omega (arith, h))
both_present none (some y) h = absurd (omega (arith, h))
both_present (some x) none h = absurd (omega (arith, h))
both_present (some x) (some y) h = ((x, refl), (y, refl))

new_entry :
    (es : List Entry) (files : Files) (found : ℕ) (name content : Str)
    → extract es no_files 0 ≡ ok (files, found)
    → files name ≡ some content
    → FromEntry es name content
new_entry es files found name content h here =
    elim (extract-FromEntry es no_files files 0 found name content h here) [
      | inl none_before ↦ absurd (cc)
      | inr e ↦ e
    ]

unpack_artifact-Unpacked :
    (c : Codec) (w : Machine) (payload : Str) (files : Files)
    → unpack_artifact c w payload ≡ ok files
    → Unpacked w payload files
unfolding unpack_artifact
unpack_artifact-Unpacked c w payload files h =
    let ((es, complete), got, h1) = or_fail_inv (w.unpack payload) _ _ h in
    let (_, h2) = reject_if_inv _ _ _ h1 in
    let ((new, found), out, h3) = bind_inv (extract es no_files 0) _ h2 in
    let (ended, h4) = reject_if_inv _ _ _ h3 in
    let (two, h5) = reject_if_inv _ _ _ h4 in
    let same : new ≡ files = from_ok h5 in
    let count : found ≡ 2 = (==_iff found 2).0 (not-false _ two) in
    let ((x, at_hub), (y, at_ctl)) =
      both_present (new hub) (new ctl)
        (sym count ∙ extract-Counted es no_files new 0 found out refl) in
    record {
      entries = es;
      complete = got ∙ ap (λ b. some (es, b)) (not-false _ ended);
      new_hub = x;
      new_ctl = y;
      has_hub = sym (ap (λ (f : Files). f hub) same) ∙ at_hub;
      has_ctl = sym (ap (λ (f : Files). f ctl) same) ∙ at_ctl;
      from_hub = new_entry es new found hub x out at_hub;
      from_ctl = new_entry es new found ctl y out at_ctl;
    }

pub record Prepared (c : Codec) (w : Machine) (target : Str) (files : Files) : Type 0 where
  pub is_release : is_release_version target ≡ true
  pub later : is_newer target w.version ≡ true
  pub lock_free : w.lock_taken ≡ false
  pub payload : Str
  pub attested : Attested c w (release_tag target) payload
  pub unpacked : Unpacked w payload files

-- What the hub is about to install it downloaded for a release version that is newer than the running
-- one, holding the lock; the downloaded bytes have the digest of a verified manifest of that very
-- release, and both binaries are regular entries of the complete archive in them.
prepare-Prepared :
    (c : Codec) (w : Machine) (target : Str) (files : Files)
    → prepare c w target ≡ ok files
    → Prepared c w target files
unfolding prepare
prepare-Prepared c w target files h =
    let (release, h1) = reject_if_inv _ _ _ h in
    let (later, h2) = reject_if_inv _ _ _ h1 in
    let (free, h3) = reject_if_inv _ _ _ h2 in
    let (payload, got, h4) = bind_inv (fetch_artifact c w (release_tag target)) _ h3 in
    record {
      is_release = not-false _ release;
      later = not-false _ later;
      lock_free = free;
      payload = payload;
      attested = fetch_artifact-Attested c w (release_tag target) payload got;
      unpacked = unpack_artifact-Unpacked c w payload files h4;
    }

-- What can be on the disk after an attempt.
pub data After (w : Machine) (new_hub new_ctl : Str) (before after : Files)
    : Option Failure → Type 0 where
  replaced :
      after ≡ put ctl new_ctl (put hub new_hub before) → After w new_hub new_ctl before after none
  first_only :
      w.renames ctl ≡ false
      → after ≡ put hub new_hub before
      → After w new_hub new_ctl before after (some (cannot_replace ctl))
  untouched :
      w.renames hub ≡ false
      → after ≡ before
      → After w new_hub new_ctl before after (some (cannot_replace hub))

replace_all-cases :
    (w : Machine) (c : Codec) (files before : Files) (x y : Str)
    → files hub ≡ some x
    → files ctl ≡ some y
    → replace_all c w (hub ∷ ctl ∷ []) files before ≡ (
        if w.renames hub
        then if w.renames ctl
          then (put ctl y (put hub x before), none)
          else (put hub x before, some (cannot_replace ctl))
        else (before, some (cannot_replace hub)))
unfolding replace_all
replace_all-cases w c files before x y h k = ground arith

replace_all-After :
    (w : Machine) (c : Codec) (files before : Files) (x y : Str)
    → files hub ≡ some x
    → files ctl ≡ some y
    → After w x y before
        (replace_all c w (hub ∷ ctl ∷ []) files before).0
        (replace_all c w (hub ∷ ctl ∷ []) files before).1
replace_all-After w c files before x y h k =
    subst (λ (r : Files × Option Failure). After w x y before r.0 r.1)
      (sym (replace_all-cases w c files before x y h k)) (go _ refl _ refl)
  where
    go :
        (a : Bool)
        → w.renames hub ≡ a
        → (b : Bool) → w.renames ctl ≡ b
        → let r : Files × Option Failure =
            if a
            then if b
              then (put ctl y (put hub x before), none)
              else (put hub x before, some (cannot_replace ctl))
            else (before, some (cannot_replace hub)) in
          After w x y before r.0 r.1
    go true e true f = replaced refl
    go true e false f = first_only f refl
    go false e b f = untouched e refl

-- An attempt either leaves what is installed as it was and reports an error, or it prepared two
-- binaries as `Prepared` says and then replaced both, or only the hub where the renaming of the second
-- fails, or none where the renaming of the first fails.
pub download_and_apply-After :
    (c : Codec) (w : Machine) (target : Str) (before : Files)
    → let r = download_and_apply c w target before in
      ((r.0 ≡ before) × ((e : Failure) × (r.1 ≡ some e)))
      ⊎ ((files : Files) × (new : Prepared c w target files) × After w new.unpacked.new_hub
            new.unpacked.new_ctl before r.0 r.1)
unfolding download_and_apply
download_and_apply-After c w target before = go (prepare c w target) refl
  where
    go :
        (p : Result Files)
        → prepare c w target ≡ p
        → let r : Files × Option Failure = elim p [
          | err e ↦ (before, some e)
          | ok files ↦ replace_all c w (hub ∷ ctl ∷ []) files before
        ] in
          ((r.0 ≡ before) × ((e : Failure) × (r.1 ≡ some e)))
          ⊎ ((files : Files) × (new : Prepared c w target files) × After w new.unpacked.new_hub
                new.unpacked.new_ctl before r.0 r.1)
    go (err e) h = inl (refl, (e, refl))
    go (ok files) h =
        let new = prepare-Prepared c w target files h in
        inr (
          files,
          new,
          replace_all-After w c files before new.unpacked.new_hub new.unpacked.new_ctl
              new.unpacked.has_hub new.unpacked.has_ctl,
        )
