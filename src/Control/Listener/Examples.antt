-- ===== src/Control/Listener/Examples.antt =====
-- Two agents with the token of one backend, whose connections interleave.
use sshhub.Base.{
  ℕ, Bool, false, ◌≡◌, refl, true, false, List, [], ◌∷◌, none, some, nat_eq, ℕ_discrete,
}
use sshhub.Base.Dict.{lookup, insert, erase}
use sshhub.Text.{Str, codes, is_empty, str_eq}
use sshhub.Control.Registry.{RegisterRequest, Connection, register_conn}
use sshhub.Control.Server.{TokenResolver, register, transport_name, Hub, empty_hub}
use sshhub.Control.Server
use sshhub.Control.Registry.{open_stream}
use sshhub.Control.Refinement.{owners, claims_of, decide_all, reach}
use sshhub.Control.Listener.{
  registering, answered, Event, accepts, registers, enters, idle, accept, answer, answer_at, place,
  enter_at, drop, step, run,
}
use sshhub.Control.Listener.Steps.{InRun}
use sshhub.Control.Listener.Silent.{IsExact}
use sshhub.Control.Listener.Exact.{run-IsExact}
use sshhub.Control.Listener.Authority.{idle-IsExact, run-authorized}
use sshhub.Control.Listener.Commits.{commits, run-commits}
use sshhub.Control.Listener.Life.{Life, phases}

abbrev request : RegisterRequest
request = record {
  transport = codes "openssh-forward-v1";
  backend = [];
  token = codes "t1";
  version = [];
  os = codes "linux";
  arch = codes "amd64";
  host_key = codes "hk";
}

abbrev resolver : TokenResolver
resolver token requested = some (codes "web")

abbrev version : Str
version = codes "1.0.0"

-- Both are answered before either is in the registry.
abbrev race : List Event
race =
    accepts
    ∷ accepts
    ∷ registers 0 (some request) true
    ∷ registers 1 (some request) true
    ∷ enters 1 5 (codes "10.0.0.2:9")
    ∷ enters 0 6 (codes "10.0.0.1:9")
    ∷ []

abbrev tunnel : Connection
tunnel = record {
  session = 1;
  host_key = codes "hk";
  version = [];
  os = codes "linux";
  arch = codes "amd64";
  connected_at = 5;
  remote_addr = codes "10.0.0.2:9";
}

-- The first to reach `registerConn` has the tunnel.
has_tunnel : lookup (codes "web") (run resolver version race idle).registry ≡ some tunnel
unfolding run step accept answer answer_at place enter_at drop register register_conn lookup insert
    erase str_eq ℕ_discrete
has_tunnel = refl

-- The other was told that it is accepted, and its connection is closed.
turned_away : lookup 0 (run resolver version race idle).conns ≡ none
unfolding run step accept answer answer_at place enter_at drop register register_conn lookup insert
    erase str_eq ℕ_discrete
turned_away = refl

run-IsExact_example : IsExact (run resolver version race idle)
run-IsExact_example = run-IsExact resolver version race idle idle-IsExact

run-authorized_example :
    (req : RegisterRequest) × InRun race 1 req
    × (is_empty req.token ≡ false)
    × (req.transport ≡ transport_name)
    × (resolver req.token req.backend ≡ some (codes "web"))
run-authorized_example = run-authorized resolver version race (codes "web") tunnel has_tunnel

run-commits_example :
    let cs = commits resolver version race idle in
    ((run resolver version race idle).registry
      ≡ (Server.run resolver version cs empty_hub).registry)
    × ((opens : ℕ → Bool) (id : Str)
        → open_stream false opens (run resolver version race idle).registry id
          ≡ reach opens (decide_all (claims_of resolver cs) (owners empty_hub.registry) id))
run-commits_example = run-commits resolver version race

-- The first connection is accepted, then answered, and at last turned away.
its_phases :
    phases resolver version race idle 0
    ≡ some registering
      ∷ some registering
      ∷ some (answered (codes "web") request)
      ∷ some (answered (codes "web") request)
      ∷ some (answered (codes "web") request)
      ∷ none
      ∷ []
unfolding phases run step accept answer answer_at place enter_at drop register register_conn lookup
    insert erase str_eq ℕ_discrete
its_phases = refl
