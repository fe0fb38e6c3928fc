-- ===== src/AgentUpdate/Install.antt =====
-- What the helper of cmd/sshhub-agent-update/main.go hands to the installer.
use sshhub.Base.Results.{ok, err}
use sshhub.Base.{
  ℕ, ◌+◌, ◌≤◌, ◌≡◌, ◌≢◌, refl, Bool, true, false, List, [], ◌∷◌, ◌++◌, Option, none, some, arith,
  nat_eq, Bool-cases, Option-cases, ◌⊎◌, inl, inr,
}
use sshhub.Base.Int.{ℤ, pos, negsuc}
use sshhub.Text.{Str, codes, str_eq}
use sshhub.Release.{Manifest}
use sshhub.HubUpdate.Manifest.{fetch_verified_manifest, Fetched, fetch_verified_manifest-Fetched}
use sshhub.HubUpdate.Version.{is_newer}
use sshhub.AgentUpdate.{
  Result, current_agent_args, Machine, Outcome, failed, updated, held_back, run_installer, consider,
  update_agent,
}
use sshhub.AgentUpdate.Carried.{FromUnit, current_agent_args-FromUnit}

-- What the installer was called with, if it was.
abbrev pub called : Outcome → Option (List Str)
called (failed args) = some args
called (updated args) = some args
called _ = none

-- The release may be installed by its age.
abbrev pub Aged : ℤ → ℕ → ℕ → Type 0
Aged (negsuc n) published now = Unit
Aged (pos soak) published now = (soak ≡ 0) ⊎ ((published ≢ 0) × (published + soak ≤ now))

held_back-Aged :
    (soak : ℤ) (published now : ℕ) → held_back soak published now ≡ false → Aged soak published now
unfolding held_back
held_back-Aged (negsuc n) published now h = tt
held_back-Aged (pos soak) published now h = ground arith

-- A call of the installer that is in order.
pub record InOrder (w : Machine) (soak : ℤ) (args : List Str) : Type 0 where
  pub latest : Str
  pub published : ℕ
  pub found : w.latest ≡ some (latest, published)
  pub newer : is_newer latest w.version ≡ true
  pub aged : Aged soak published w.now
  pub manifest : Manifest
  pub fetched : Fetched w.codec w.http w.trusted latest manifest
  pub settings : List Str
  pub kept : FromUnit w.unit settings
  pub shape : args ≡ settings ++ codes "--version" ∷ latest ∷ []

run_installer-args :
    (w : Machine) (latest : Str) (r : Result (List Str)) (args : List Str)
    → called (run_installer w latest r) ≡ some args
    → (kept : List Str) × (r ≡ ok kept) × (args ≡ kept ++ codes "--version" ∷ latest ∷ [])
unfolding run_installer
run_installer-args w latest (err e) args h = absurd (cc)
run_installer-args w latest (ok kept) args h = (kept, refl, ground arith)

consider-InOrder :
    (w : Machine) (soak : ℤ) (dry_run : Bool) (latest : Str) (published : ℕ) (args : List Str)
    → w.latest ≡ some (latest, published)
    → called (consider w soak dry_run latest published) ≡ some args
    → (dry_run ≡ false) × InOrder w soak args
unfolding consider
consider-InOrder w soak dry_run latest published args found h =
    elim (Bool-cases (is_newer latest w.version)) [
      | inr old ↦ absurd (ground (arith, rw (old, consider) at h))
      | inl newer ↦ elim (Bool-cases (held_back soak published w.now)) [
        | inl held ↦ absurd (ground (arith, rw (newer, held, consider) at h))
        | inr aged ↦ elim (Option-cases (fetch_verified_manifest w.codec w.http w.trusted latest)) [
          | inl unverified ↦ absurd (ground (arith, rw (newer, aged, unverified, consider) at h))
          | inr (m, e) ↦ elim (Bool-cases dry_run) [
            | inl dry ↦ absurd (ground (arith, rw (newer, aged, e, dry, consider) at h))
            | inr acts ↦
                let (kept, read, shape) =
                  run_installer-args w latest (current_agent_args w.unit) args
                    (rw (newer, aged, e, acts, consider) at h) in
                (
                  acts,
                  record {
                    latest = latest;
                    published = published;
                    found = found;
                    newer = newer;
                    aged = held_back-Aged soak published w.now aged;
                    manifest = m;
                    fetched = fetch_verified_manifest-Fetched w.codec w.http w.trusted latest m e;
                    settings = kept;
                    kept = current_agent_args-FromUnit w.unit kept read;
                    shape = shape;
                  },
                )
          ]
        ]
      ]
    ]

-- The helper calls the installer only with a release in order: the latest one, newer than the running
-- version, past the soak period, with a manifest that is verified under the trusted key and names the
-- release; and not where it is only to report. The arguments are those that `CarriedFrom` takes from the
-- fields of what systemd says of the unit: the flags for the hub, its pin, the ssh server and the token
-- file, in their order, each with its value there, but for a token file in the unit's credentials
-- directory, which becomes the durable one; and then that very release.
pub update_agent-InOrder :
    (w : Machine) (soak : ℤ) (dry_run : Bool) (args : List Str)
    → called (update_agent w soak dry_run) ≡ some args
    → (dry_run ≡ false) × InOrder w soak args
unfolding update_agent
update_agent-InOrder w soak dry_run args h = elim (Option-cases w.trusted) [
  | inl none_there ↦ absurd (ground (arith, rw (none_there, update_agent) at h))
  | inr (key, e) ↦ elim (Option-cases w.latest) [
    | inl unknown ↦ absurd (ground (arith, rw (e, unknown, update_agent) at h))
    | inr ((latest, published), found) ↦
        consider-InOrder w soak dry_run latest published args found
          (rw (e, found, update_agent) at h)
  ]
]
