-- ===== src/Control/Registry.antt =====
-- internal/control/registry.go: which backend is reached over which session. A yamux session is a
-- number; the registry's mutex makes each operation one step.
use sshhub.Base.{ℕ, Bool, true, List, [], ◌∷◌, Option, none, some, if◌then◌else◌, ◌==◌, nat_eq}
use sshhub.Base.Dict.{Dict, lookup, insert, erase}
use sshhub.Text.{Str, str_eq}
use sshhub.Text.Order.{place_in}

pub record RegisterRequest : Type 0 where
  pub transport : Str
  pub backend : Str
  pub token : Str
  pub version : Str
  pub os : Str
  pub arch : Str
  pub host_key : Str

pub record Connection : Type 0 where
  pub session : ℕ
  pub host_key : Str
  pub version : Str
  pub os : Str
  pub arch : Str
  pub connected_at : ℕ
  pub remote_addr : Str

abbrev pub Registry : Type 0
Registry = Dict Str Connection

abbrev pub new_registry : Registry
new_registry = []

pub record BackendStatus : Type 0 where
  pub backend : Str
  pub online : Bool
  pub version : Str
  pub os : Str
  pub arch : Str
  pub connected_at : ℕ
  pub remote_addr : Str
  pub host_key : Str

unfoldable pub status_of : Str → Connection → BackendStatus
status_of id c = record {
  backend = id;
  online = true;
  version = c.version;
  os = c.os;
  arch = c.arch;
  connected_at = c.connected_at;
  remote_addr = c.remote_addr;
  host_key = c.host_key;
}

-- The entries are sorted by their backends, which are all different.
unfoldable pub status : Registry → List BackendStatus
unfolding status_of
status [] = []
status ((id, c) ∷ r) = place_in (λ (s : BackendStatus). s.backend) (status_of id c) (status r)

-- `registerConn`, at the time `now`: `none` is the error that the id is registered already.
unfoldable pub register_conn :
    ℕ → Str → ℕ → Str → RegisterRequest → Str → Registry → Option Registry
register_conn now backend s host_key req remote_addr r = elim (lookup backend r) [
  | some _ ↦ none
  | none ↦ some (
      insert backend
        (record {
          session = s;
          host_key = host_key;
          version = req.version;
          os = req.os;
          arch = req.arch;
          connected_at = now;
          remote_addr = remote_addr;
        })
        r)
]

unfoldable pub host_key : Registry → Str → Str
host_key r backend = elim (lookup backend r) [ none ↦ [] | some c ↦ c.host_key ]

unfoldable pub unregister : Str → ℕ → Registry → Registry
unregister backend s r = elim (lookup backend r) [
  | none ↦ r
  | some cur ↦ if cur.session == s then erase backend r else r
]

pub data OpenError : Type 0 where
  cancelled not_connected : OpenError
  no_stream : ℕ → OpenError

pub data Opened : Type 0 where
  stream : ℕ → Opened
  failed : OpenError → Opened

-- `Open`: a stream over the session of the backend. Whether the context is cancelled, and whether yamux
-- opens a stream over a session, are arguments.
unfoldable pub open_stream : Bool → (ℕ → Bool) → Registry → Str → Opened
open_stream done opens r backend = if done then failed cancelled else elim (lookup backend r) [
  | none ↦ failed not_connected
  | some c ↦ if opens c.session then stream c.session else failed (no_stream c.session)
]
