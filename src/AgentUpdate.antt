-- ===== src/AgentUpdate.antt =====
-- cmd/sshhub-agent-update/main.go: the helper that updates an agent. The release server, the time, what
-- systemd says of the agent's unit, and whether the installer succeeds are arguments.
pub mod Carried
pub mod Install
mod Examples
use sshhub.Base.Results.{ok, err, ◌>>=◌, ◌>>◌, reject_if}
use sshhub.Base.Results
use sshhub.Base.{
  ℕ, ◌+◌, Bool, true, false, not, ◌||◌, List, [], ◌∷◌, ◌++◌, Option, none, some, if◌then◌else◌,
  ◌==◌, nat_eq, ltb,
}
use sshhub.Base.Int.{ℤ, pos, negsuc}
use sshhub.Text.{Str, codes, fields, has_prefix, str_eq}
use sshhub.Release.{Codec}
use sshhub.HubUpdate.Manifest.{Http, fetch_verified_manifest}
use sshhub.HubUpdate.Version.{is_newer}

pub data ArgsError : Type 0 where
  no_unit malformed no_flags : ArgsError

abbrev pub Result {ℓ} : Type ℓ → Type ℓ
Result A = Results.Result ArgsError A

-- `strings.Contains`
unfoldable pub has_text : Str → Str → Bool
has_text [] t = has_prefix [] t
has_text (c ∷ s) t = has_prefix (c ∷ s) t || has_text s t

abbrev pub durable_token : Str
durable_token = codes "/etc/sshhub-agent/token"

unfoldable pub token_path : Str → Str
token_path p = if has_text p (codes "/credentials/") then durable_token else p

-- The switch at one field: whether it is a flag that is carried over, and its value as it is carried.
unfoldable pub carried : Str → Str → Option Str
carried flag v =
    if flag == codes "--hub" || (flag == codes "--hub-pin" || flag == codes "--sshd")
    then some v
    else if flag == codes "--token-file"
    then some (token_path v)
    else none

-- The loop over the fields of the unit's command line.
unfoldable pub flags_of : List Str → List Str → Result (List Str)
flags_of [] args = ok args
flags_of (f ∷ []) args = elim (carried f []) [ none ↦ ok args | some _ ↦ err malformed ]
flags_of (f ∷ v ∷ rest) args = elim (carried f v) [
  | none ↦ flags_of (v ∷ rest) args
  | some v' ↦ flags_of rest (args ++ f ∷ v' ∷ [])
]

abbrev pub no_args : List Str → Bool
no_args [] = true
no_args (a ∷ args) = false

-- `currentAgentArgs`, of the output of `systemctl show`; its last check only logs.
unfoldable pub current_agent_args : Option Str → Result (List Str)
current_agent_args none = err no_unit
current_agent_args (some out) = do
  args ← flags_of (fields out) []
  reject_if (no_args args) no_flags
  ok args

pub record Machine : Type 0 where
  pub codec : Codec
  pub http : Http
  pub trusted : Option Str
  -- `hubupdate.FetchLatestRelease`
  pub latest : Option (Str × ℕ)
  pub version : Str
  pub now : ℕ
  pub unit : Option Str
  -- Whether the installer succeeds with these arguments.
  pub installs : List Str → Bool

pub data Outcome : Type 0 where
  no_trusted_key no_release up_to_date waiting refused would_install : Outcome
  bad_unit : ArgsError → Outcome
  failed : List Str → Outcome
  updated : List Str → Outcome

-- A soak period holds the release back.
unfoldable pub held_back : ℤ → ℕ → ℕ → Bool
held_back (negsuc n) published now = false
held_back (pos soak) published now =
    if ltb 0 soak then (if published == 0 then true else ltb now (published + soak)) else false

module _ (w : Machine) where
  unfoldable pub run_installer : Str → Result (List Str) → Outcome
  run_installer latest (err e) = bad_unit e
  run_installer latest (ok args) =
      let all = args ++ codes "--version" ∷ latest ∷ [] in
      if w.installs all then updated all else failed all

  unfoldable pub consider : ℤ → Bool → Str → ℕ → Outcome
  consider soak dry_run latest published =
      if not (is_newer latest w.version)
      then up_to_date
      else if held_back soak published w.now
      then waiting
      else elim (fetch_verified_manifest w.codec w.http w.trusted latest) [
        | none ↦ refused
        | some m ↦
            if dry_run then would_install else run_installer latest (current_agent_args w.unit)
      ]

  -- `main`
  unfoldable pub update_agent : ℤ → Bool → Outcome
  update_agent soak dry_run = elim w.trusted [
    | none ↦ no_trusted_key
    | some key ↦ elim w.latest [
      | none ↦ no_release
      | some (latest, published) ↦ consider soak dry_run latest published
    ]
  ]
