-- ===== src/Control/Examples.antt =====
-- Two agents with the token of one backend, and the theorems on tunnels at their connections.
use sshhub.Base.Results.{ok}
use sshhub.Base.{
  ◌==◌, Bool, ℕ, ◌≡◌, ◌↔◌, refl, true, false, List, [], ◌∷◌, Option, some, arith, ℕ_discrete,
}
use sshhub.Base.Dict.{lookup, insert}
use sshhub.Text.{Str, codes, str_eq}
use sshhub.Control.Registry.{RegisterRequest, Connection, register_conn, open_stream}
use sshhub.Control.Server.{
  TokenResolver, sent, register, Hub, Arrival, Event, arrives, closes, enter, begin_conn, step, run,
  empty_hub,
}
use sshhub.Control.Tunnels.{run-lookup}
use sshhub.Control.Refinement.{owners, claims_of, decide_all, reach, run-refines}
use sshhub.Control.Client.{Platform, request_of, connect, is_local_sshd}
use sshhub.Base.Dict.{erase}
use sshhub.Text.Host.{split_host_port}
use sshhub.Text.Cut.{last_index, has_byte, take}
use sshhub.Control.Client.Exchange.{granted_id}
use sshhub.Control.Client.Streams.{opens, returns, serve, AllLocal, serve-AllLocal}
use sshhub.Control.Client.Streams
use sshhub.Control.Client.Wire.{
  Json, JsonLaws, wire_link, read_register, write_register, connect-granted,
}
use sshhub.Control.Server.{RegisterResponse}

abbrev request : RegisterRequest
request = record {
  transport = codes "openssh-forward-v1";
  backend = [];
  token = codes "t1";
  version = [];
  os = codes "linux";
  arch = codes "amd64";
  host_key = codes "hk";
}

abbrev resolver : TokenResolver
resolver token requested = some (codes "web")

arrival : ℕ → Arrival
arrival n = record {
  session = n;
  now = n;
  remote_addr = codes "10.0.0.1:5";
  request = some request;
  writes = true;
}

abbrev events : List Event
events = arrives (arrival 1) ∷ arrives (arrival 2) ∷ closes 2 (codes "web") ∷ []

abbrev tunnel : Connection
tunnel = record {
  session = 1;
  host_key = codes "hk";
  version = [];
  os = codes "linux";
  arch = codes "amd64";
  connected_at = 1;
  remote_addr = codes "10.0.0.1:5";
}

abbrev one_tunnel : Hub
one_tunnel = record { registry = (codes "web", tunnel) ∷ []; waiting = (1, codes "web") ∷ [] }

first_is_registered : run resolver (codes "1.0.0") (arrives (arrival 1) ∷ []) empty_hub ≡ one_tunnel
unfolding run step begin_conn enter register register_conn arrival lookup insert str_eq ℕ_discrete
first_is_registered = refl

has_tunnel : lookup (codes "web") one_tunnel.registry ≡ some tunnel
unfolding lookup str_eq ℕ_discrete
has_tunnel = refl

abbrev later : List Event
later = arrives (arrival 2) ∷ closes 2 (codes "web") ∷ []

run-lookup_example :
    lookup (codes "web") (run resolver (codes "1.0.0") later one_tunnel).registry ≡ some tunnel
run-lookup_example =
    run-lookup resolver (codes "1.0.0") later one_tunnel (codes "web") tunnel has_tunnel
      (λ e. omega arith, tt)

abbrev platform : Platform
platform = record { version = []; goos = codes "linux"; goarch = codes "amd64" }

abbrev accepted : RegisterResponse
accepted = record {
  good = true;
  backend = codes "web";
  error = [];
  update_available = false;
  latest_version = codes "1.0.0";
}

-- Both messages are one byte.
abbrev json : Json
json = record {
  encode_request = λ req. codes "q";
  decode_request = λ s. some (sent (request_of platform [] (codes "t1") (codes "hk")));
  encode_response = λ resp. codes "a";
  decode_response = λ s. some accepted;
}

json-JsonLaws :
    JsonLaws json resolver (codes "1.0.0") (request_of platform [] (codes "t1") (codes "hk"))
unfolding register sent request_of str_eq ℕ_discrete
json-JsonLaws = record {
  request = refl;
  request_small = omega arith;
  response = λ r e. e;
  response_small = λ r e. omega arith;
}

connect-granted_example :
    ((connect (wire_link json resolver (codes "1.0.0")) platform [] (codes "t1") (codes "hk")
        ≡ ok (codes "web"))
      ↔ (granted_id resolver (codes "t1") [] ≡ some (codes "web")))
    × ((register resolver (codes "1.0.0") true (
          read_register json
            (write_register json (request_of platform [] (codes "t1") (codes "hk"))))).1
        ≡ granted_id resolver (codes "t1") [])
connect-granted_example =
    connect-granted json resolver (codes "1.0.0") platform [] (codes "t1") (codes "hk")
      (codes "web") (λ e. ground arith) json-JsonLaws

run-refines_example :
    (owners (run resolver (codes "1.0.0") events empty_hub).registry
      ≡ decide_all (claims_of resolver events) (owners empty_hub.registry))
    × ((opens : ℕ → Bool) (id : Str)
        → open_stream false opens (run resolver (codes "1.0.0") events empty_hub).registry id
          ≡ reach opens (decide_all (claims_of resolver events) (owners empty_hub.registry) id))
run-refines_example = run-refines resolver (codes "1.0.0") events empty_hub

abbrev loopback : Str → Option Bool
loopback host = some (host == codes "127.0.0.1")

abbrev sshd : Str
sshd = codes "127.0.0.1:22"

-- Two streams, of which the first ends.
abbrev streams : List Streams.Event
streams = opens ∷ opens ∷ returns 0 ∷ []

one_stream : (serve loopback sshd streams true).0.streams ≡ (1, sshd) ∷ []
unfolding serve Streams.run Streams.step is_local_sshd split_host_port last_index has_byte take
    insert erase str_eq ℕ_discrete
one_stream = refl

serve-AllLocal_example : AllLocal loopback (serve loopback sshd streams true).0
serve-AllLocal_example = serve-AllLocal loopback sshd streams true
