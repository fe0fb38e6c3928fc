-- ===== src/HubUpdate/Manifest.antt =====
-- `fetchVerifiedManifest` and the urgent marker of internal/hubupdate/update.go. The HTTP client is a
-- parameter: what it returns for a request is `none` for a failure, or a status with the body.
use sshhub.Base.Results.{ok, err}
use sshhub.Base.{
  ℕ, ◌≡◌, ◌↔◌, refl, Bool, true, false, not, ◌||◌, [], ◌++◌, Option, none, some, arith,
  if◌then◌else◌, ◌==◌, nat_eq, Option-cases, inl, inr,
}
use sshhub.Text.{Str, codes, is_empty, trim_prefix, str_eq}
use sshhub.Text.Cut.{take}
use sshhub.Release.{Manifest, Codec, verify}

pub record Response : Type 0 where
  pub status : ℕ
  pub body : Str

-- The answer to a GET of the URL.
abbrev pub Http : Type 0
Http = Str → Option Response

abbrev pub github_repo : Str
github_repo = codes "Trickhish/sshhub"

abbrev pub manifest_asset_name : Str
manifest_asset_name = codes "sshhub-manifest.json"

abbrev pub max_manifest_bytes : ℕ
max_manifest_bytes = 1_048_576

-- The URL of an asset of the release `tag`, or of the latest release for an empty tag.
unfoldable pub asset_url : Str → Str → Str
asset_url tag asset =
    codes "https://github.com/"
    ++ (github_repo
        ++ ((if is_empty tag
              then codes "/releases/latest/download/"
              else codes "/releases/download/" ++ (tag ++ codes "/"))
            ++ asset))

-- The marker and the reason to log. What cannot be verified is not urgent.
unfoldable pub urgent_marker : Option Manifest → Bool × Str
urgent_marker none = (false, [])
urgent_marker (some m) =
    if not m.urgent
    then (false, [])
    else (true, if is_empty m.urgent_reason then codes "no reason given" else m.urgent_reason)

urgent_marker_iff :
    (o : Option Manifest)
    → ((urgent_marker o).0 ≡ true) ↔ ((m : Manifest) × (o ≡ some m) × (m.urgent ≡ true))
unfolding urgent_marker
urgent_marker_iff none = (λ h. cc, λ (m, e, u). cc)
urgent_marker_iff (some x) = (λ h. (x, refl, ground arith), λ (m, e, u). ground arith)

module _ (c : Codec) (http : Http) (trusted : Option Str) where
  -- What follows the download.
  unfoldable pub accept_manifest : Str → Str → Response → Option Manifest
  accept_manifest key tag resp =
      if not (resp.status == 200)
      then none
      else elim (verify c (take max_manifest_bytes resp.body) key) [
        | err e ↦ none
        | ok m ↦
            if is_empty tag || not (trim_prefix tag (codes "v") == m.version) then none else some m
      ]

  unfoldable pub fetch_verified_manifest : Str → Option Manifest
  fetch_verified_manifest tag = elim trusted [
    | none ↦ none
    | some key ↦ elim (http (asset_url tag manifest_asset_name)) [
      | none ↦ none
      | some resp ↦ accept_manifest key tag resp
    ]
  ]

  unfoldable pub signed_urgent : Str → Bool × Str
  signed_urgent tag = urgent_marker (fetch_verified_manifest tag)

  -- Where a manifest comes from that the updater acts on.
  pub record Fetched (tag : Str) (m : Manifest) : Type 0 where
    pub key : Str
    pub resp : Response
    pub has_key : trusted ≡ some key
    pub has_response : http (asset_url tag manifest_asset_name) ≡ some resp
    pub verified : verify c (take max_manifest_bytes resp.body) key ≡ ok m
    pub same_version : trim_prefix tag (codes "v") ≡ m.version

  pub fetch_verified_manifest-Fetched :
      (tag : Str) (m : Manifest) → fetch_verified_manifest tag ≡ some m → Fetched tag m
  unfolding fetch_verified_manifest accept_manifest
  fetch_verified_manifest-Fetched tag m h = elim (Option-cases trusted) [
    | inl e ↦ absurd (ground arith)
    | inr (key, e) ↦ elim (Option-cases (http (asset_url tag manifest_asset_name))) [
      | inl e' ↦ absurd (ground arith)
      | inr (resp, e') ↦ record {
        key = key;
        resp = resp;
        has_key = e;
        has_response = e';
        verified = ground arith;
        same_version = ground arith;
      }
    ]
  ]

  -- A release counts as urgent only by a manifest that was fetched for it, is verified under the
  -- trusted key, names the release's own version and has the marker set.
  signed_urgent-Fetched :
      (tag : Str)
      → (signed_urgent tag).0 ≡ true
      → (m : Manifest) × Fetched tag m × (m.urgent ≡ true)
  unfolding signed_urgent
  signed_urgent-Fetched tag h =
      let (m, e, u) = (urgent_marker_iff (fetch_verified_manifest tag)).0 h in
      (m, fetch_verified_manifest-Fetched tag m e, u)
