-- ===== src/Gateway/Examples.antt =====
-- A hub with one backend and one user, and the theorems on the user's channels at it.
use sshhub.Base.Results.{ok}
use sshhub.Base.{
  ℕ, ◌≤◌, ◌≡◌, ◌↔◌, refl, ◌∙◌, true, false, List, [], ◌∷◌, Option, none, some, length, nat_eq,
  ℕ_discrete, contains,
}
use sshhub.Base.Dict.{lookup, insert}
use sshhub.Base.Int.{ℤ}
use sshhub.Text.{Str, codes, is_empty, str_eq, trim_space, trim_left, trim_right}
use sshhub.Config.{Backend, JumpUser, Config}
use sshhub.Config.Lookup.{backend_by_id, backend_by_name}
use sshhub.Config.Validate.{
  ParsedKey, validate, check_users, check_keys, check_grants, good_key, check_wait, check_backends,
  check_backend, check_token, check_mode, check_names, check_routes,
}
use sshhub.RateLimit.{Limiter, Handle, new, default_config}
use sshhub.Control.Registry.{RegisterRequest}
use sshhub.Control.Server.{resolve_token}
use sshhub.Control.Listener.{accepts, registers, enters, idle}
use sshhub.Control.Listener
use sshhub.Control.Server
use sshhub.Control.Registry
use sshhub.Config.Lookup
use sshhub.Proxy
use sshhub.Proxy.Channels
use sshhub.Gateway.System
use sshhub.Proxy.{Payload, forward, bridged}
use sshhub.Gateway.Reach.{Serves, forward-Serves}
use sshhub.Proxy.{authorize, any_key, key_matches, passes_gate, handle}
use sshhub.Proxy.Access.{FromCallback, MayEnter, Granted}
use sshhub.Proxy.Channels.{copying, channel_slots, opens, decides}
use sshhub.Gateway.System.{Event, agent, user, run, fresh}
use sshhub.Gateway.EndToEnd.{Presented, channels-Authorized}
use sshhub.Control.Tokens.{OwnToken}

abbrev web : Backend
web = record {
  aliases = [];
  id = codes "web";
  mode = codes "reverse";
  token = codes "t1";
  username = [];
  host_key = [];
  host_key_file = [];
}

abbrev ann : JumpUser
ann = record { name = codes "ann"; keys = codes "k" ∷ []; backends = codes "web" ∷ [] }

abbrev pub config : Config
config = record {
  listen = record { ssh = codes ":22"; control = codes ":7000" };
  public_host = codes "hub";
  auto_update_wait = none;
  host_key = codes "key";
  tls_cert = [];
  tls_key = [];
  control_tokens = [];
  backends = web ∷ [];
  routes = [];
  jump_users = ann ∷ [];
}

abbrev pub parse_key : Str → Option ParsedKey
parse_key text = some (record { wire = text; options = []; rest = [] })

abbrev pub parse_duration : Str → Option ℤ
parse_duration text = none

config_is_valid : validate parse_key parse_duration config ≡ ok config
unfolding validate check_users check_keys check_grants good_key backend_by_id check_wait
    check_backends check_backend check_token check_mode check_names check_routes contains lookup
    insert trim_space trim_left trim_right str_eq ℕ_discrete
config_is_valid = refl

Holds : Str → Type 0
Holds key = key ≡ codes "k"

with_key : authorize parse_key config.jump_users (codes "ann") (codes "k") ≡ some (codes "ann")
unfolding authorize any_key key_matches trim_space trim_left trim_right str_eq ℕ_discrete
with_key = refl

ann-FromCallback :
    FromCallback parse_key config.jump_users (codes "ann") Holds (some (some (codes "ann")))
unfolding Holds
ann-FromCallback = record { given = λ p e. (codes "k", refl, with_key ∙ same p e) }
  where
    same : (p : Str) → some (some (codes "ann")) ≡ some (some p) → some (codes "ann") ≡ some p
    same p e = cc

abbrev pub limiter : Limiter
limiter = new default_config

abbrev handshake : Handle
handshake = record { owner = codes "10.0.0.1"; done = false }

abbrev request : RegisterRequest
request = record {
  transport = codes "openssh-forward-v1";
  backend = [];
  token = codes "t1";
  version = [];
  os = codes "linux";
  arch = codes "amd64";
  host_key = codes "hk";
}

-- The agent registers while the client's channel waits to be decided.
abbrev traffic : List Event
traffic =
    agent accepts
    ∷ agent (registers 0 (some request) true)
    ∷ user (λ s. true)
        (opens (codes "direct-tcpip") (some (record { dest_addr = codes "web"; dest_port = 22 })))
    ∷ agent (enters 0 5 (codes "10.0.0.2:9"))
    ∷ user (λ s. true) (decides 0 true)
    ∷ []

-- The channel is bridged over the agent's session.
channel_copies :
    lookup 0 (run config (codes "1.0.0") traffic (fresh (codes "ann"))).client.channels
    ≡ some (copying (codes "web") 0)
unfolding run lookup insert System.step Listener.step Listener.accept Listener.answer
    Listener.answer_at Listener.enter_at Listener.place Server.register resolve_token
    Lookup.backend_by_token Lookup.find_token Registry.register_conn Registry.open_stream
    Channels.step Channels.decide Channels.admit Channels.dispatch Channels.settle forward
    backend_by_name backend_by_id Proxy.is_granted contains str_eq ℕ_discrete
channel_copies = refl

channels-Authorized_example :
    MayEnter parse_key config.jump_users (codes "ann") Holds
    × ((n : ℕ) (id : Str) (s : ℕ)
        → lookup n (run config (codes "1.0.0") traffic (fresh (codes "ann"))).client.channels
          ≡ some (copying id s)
        → Granted config.jump_users (codes "ann") id
          × ((req : RegisterRequest) × Presented traffic s req
              × (is_empty req.token ≡ false)
              × OwnToken config.backends req.token id))
    × (length (run config (codes "1.0.0") traffic (fresh (codes "ann"))).client.channels
        ≤ channel_slots)
unfolding handle passes_gate
channels-Authorized_example =
    channels-Authorized parse_key parse_duration config config (codes "1.0.0") (codes "ann") Holds
      (some (some (codes "ann"))) handshake (codes "10.0.0.1") 1 limiter traffic config_is_valid
      ann-FromCallback refl

abbrev to_web : Payload
to_web = record { dest_addr = codes "web"; dest_port = 22 }

abbrev agents : List Listener.Event
agents = accepts ∷ registers 0 (some request) true ∷ enters 0 5 (codes "10.0.0.2:9") ∷ []

forward-Serves_example :
    (forward config
        (λ s. true)
        (Listener.run (resolve_token config) (codes "1.0.0") agents idle).registry
        (codes "ann")
        (some to_web)
        true
      ≡ bridged (codes "web") 0)
    ↔ ((to_web.dest_port ≡ 22)
        × ((b : Backend) × (backend_by_name config.backends (codes "web") ≡ some b)
            × (b.id ≡ codes "web")
            × Granted config.jump_users (codes "ann") (codes "web"))
        × Serves
            (λ s. true)
            (Listener.run (resolve_token config) (codes "1.0.0") agents idle)
            (codes "web")
            0
        × (true ≡ true))
forward-Serves_example =
    forward-Serves config (resolve_token config) (codes "1.0.0") agents (λ s. true) (codes "ann")
      to_web true (codes "web") 0
