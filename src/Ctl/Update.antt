-- ===== src/Ctl/Update.antt =====
-- The command "update" of cmd/sshhub-ctl/main.go, on the update of internal/hubupdate/update.go.
use sshhub.Base.{
  ◌≡◌, refl, sym, subst, true, false, not, ◌&&◌, Option, none, some, if◌then◌else◌, Bool-cases, inl,
  inr, arith,
}
use sshhub.Text.{Str, is_empty}
use sshhub.Release.{Codec}
use sshhub.HubUpdate.Version.{is_newer}
use sshhub.HubUpdate.Download.{Machine, download_and_apply}
use sshhub.HubUpdate.Download.Archive.{Failure, Files}
use sshhub.HubUpdate.Latest.{
  GithubRelease, fetch_latest_version, is_success, Updated, success-Updated,
}
use sshhub.Ctl.Args.{UpdateArgs}

pub data UpdateResult : Type 0 where
  lookup_failed up_to_date : UpdateResult
  available : Str → UpdateResult
  update_failed : Failure → UpdateResult
  updated : Str → UpdateResult

unfoldable pub result_of : Str → Option Failure → UpdateResult
result_of v none = updated v
result_of v (some e) = update_failed e

-- `verToInstall`
unfoldable pub to_install : UpdateArgs → Str → Str
to_install a latest = if is_empty a.target then latest else a.target

result_of-updated :
    (v v' : Str) (e : Option Failure)
    → result_of v e ≡ updated v'
    → (v ≡ v') × (is_success e ≡ true)
unfolding result_of
result_of-updated v v' none h = (ground arith, refl)
result_of-updated v v' (some e) h = absurd (cc)

module _ (c : Codec) (w : Machine) (locate : Str → Option Str)
    (decode : Str → Option GithubRelease) where
  unfoldable pub install : Str → Files → Files × UpdateResult
  install v files = let (files', e) = download_and_apply c w v files in (files', result_of v e)

  -- The command, once the latest version is looked up.
  unfoldable pub update_to : UpdateArgs → Option Str → Files → Files × UpdateResult
  update_to a none files = (files, lookup_failed)
  update_to a (some latest) files =
      if not (is_newer latest w.version) && is_empty a.target
      then (files, up_to_date)
      else if a.check_only
      then (files, available latest)
      else install (to_install a latest) files

  unfoldable pub update : UpdateArgs → Files → Files × UpdateResult
  update a files = update_to a (fetch_latest_version locate w.http decode) files

  install-Updated :
      (v v' : Str) (files : Files)
      → (install v files).1 ≡ updated v'
      → (v ≡ v') × Updated c w v files (install v files).0
  unfolding install
  install-Updated v v' files h =
      let (same, success) = result_of-updated v v' (download_and_apply c w v files).1 h in
      (same, success-Updated c w v files success)

  -- What may be installed: an update was not only asked about, and the version is the one that the
  -- operator named or else the latest.
  pub record Wanted (a : UpdateArgs) (latest v : Str) : Type 0 where
    pub not_only_checked : a.check_only ≡ false
    pub named_or_latest : to_install a latest ≡ v

  checked :
      (found : Option Str) (a : UpdateArgs) (files : Files)
      → a.check_only ≡ true
      → (update_to a found files).0 ≡ files
  unfolding update_to
  checked none a files h = refl
  checked (some latest) a files h = ground (arith, h)

  install_if_wanted :
      (a : UpdateArgs) (latest v : Str) (files : Files)
      → (update_to a (some latest) files).1 ≡ updated v
      → (a.check_only ≡ false)
        × Path
            (Files × UpdateResult)
            (update_to a (some latest) files)
            (install (to_install a latest) files)
  unfolding update_to
  install_if_wanted a latest v files h =
      elim (Bool-cases (not (is_newer latest w.version) && is_empty a.target)) [
        | inl same ↦ absurd (ground (arith, rw (same, update_to) at h))
        | inr apart ↦ elim (Bool-cases a.check_only) [
          | inl checks ↦ absurd (ground (arith, rw (apart, checks, update_to) at h))
          | inr acts ↦ (acts, rw (apart, acts, update_to) refl)
        ]
      ]

  done :
      (found : Option Str) (a : UpdateArgs) (files : Files) (v : Str)
      → (update_to a found files).1 ≡ updated v
      → (latest : Str) × (found ≡ some latest)
        × Wanted a latest v
        × Updated c w v files (update_to a found files).0
  unfolding update_to
  done none a files v h = absurd (cc)
  done (some latest) a files v h =
      let (acts, result) = install_if_wanted a latest v files h in
      let asked : (install (to_install a latest) files).1 ≡ updated v =
        subst (λ (r : Files × UpdateResult). r.1 ≡ updated v) result h in
      let (same, new) = install-Updated (to_install a latest) v files asked in
      (
        latest,
        refl,
        record { not_only_checked = acts; named_or_latest = same },
        subst (λ (r : Files × UpdateResult). Updated c w v files r.0) (sym result)
            (subst (λ x. Updated c w x files (install (to_install a latest) files).0) same new),
      )

  -- The command reports success only if both binaries are replaced by those of a release that is
  -- attested and newer than the running version, also where the operator names an older one. Where it is
  -- only to check it changes nothing.
  pub update-Updated :
      (a : UpdateArgs) (files : Files)
      → (a.check_only ≡ true → (update a files).0 ≡ files)
        × ((v : Str)
            → (update a files).1 ≡ updated v
            → (latest : Str) × (fetch_latest_version locate w.http decode ≡ some latest)
              × Wanted a latest v
              × Updated c w v files (update a files).0)
  unfolding update
  update-Updated a files = (
    checked (fetch_latest_version locate w.http decode) a files,
    done (fetch_latest_version locate w.http decode) a files,
  )
