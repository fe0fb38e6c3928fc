-- ===== src/Control/Server.antt =====
-- internal/control/server.go: what the hub does with an agent's connection. What the agent sends, the
-- resolver of tokens and whether the answer can be written are arguments.
use sshhub.Base.{
  ℕ, Bool, true, false, not, ◌&&◌, List, [], ◌∷◌, Option, none, some, if◌then◌else◌, ◌==◌, nat_eq,
  contains,
}
use sshhub.Text.{Str, codes, is_empty, str_eq}
use sshhub.Config.{Config}
use sshhub.Config.Lookup.{backend_by_id, backend_by_token, reverse}
use sshhub.HubUpdate.Version.{is_newer}
use sshhub.Control.Registry.{Registry, RegisterRequest, register_conn, unregister}

pub record RegisterResponse : Type 0 where
  pub good : Bool
  pub backend : Str
  pub error : Str
  pub update_available : Bool
  pub latest_version : Str

abbrev pub transport_name : Str
transport_name = codes "openssh-forward-v1"

-- `WriteRegister`: the request as it is sent.
unfoldable pub sent : RegisterRequest → RegisterRequest
sent req = record req { transport = transport_name }

refusal : Str → RegisterResponse
refusal message = record {
  good = false;
  backend = [];
  error = message;
  update_available = false;
  latest_version = [];
}

-- Tokens, with the backend that the agent asks for.
abbrev pub TokenResolver : Type 0
TokenResolver = Str → Str → Option Str

-- The closure of cmd/sshhub/main.go: the backend of the token, or, for a global token, the backend that
-- the agent asks for.
unfoldable pub resolve_token : Config → TokenResolver
resolve_token cfg token requested = elim (backend_by_token cfg.backends token) [
  | some b ↦ some b.id
  | none ↦
      if not (is_empty requested) && contains cfg.control_tokens token
      then elim (backend_by_id cfg.backends requested) [
        | none ↦ none
        | some b ↦ if b.mode == reverse then some b.id else none
      ]
      else none
]

-- `register`: the answer that is written, if there is one, and the backend if it is accepted.
unfoldable pub register :
    TokenResolver → Str → Bool → Option RegisterRequest → Option RegisterResponse × Option Str
unfolding refusal
register resolve version writes none = (none, none)
register resolve version writes (some req) =
    if is_empty req.token
    then (some (refusal (codes "token is required")), none)
    else if not (req.transport == transport_name)
    then (
      some (
          refusal
            (codes "legacy embedded agents are not supported; migrate to OpenSSH forwarding")),
      none,
    )
    else elim (resolve req.token req.backend) [
      | none ↦ (some (refusal (codes "invalid token")), none)
      | some id ↦ (
        some (record {
          good = true;
          backend = id;
          error = [];
          update_available = not (is_empty req.version) && is_newer version req.version;
          latest_version = version;
        }),
        if writes then some id else none,
      )
    ]

-- The registry, and the connections whose goroutine waits for its session to close.
pub record Hub : Type 0 where
  pub registry : Registry
  pub waiting : List (ℕ × Str)

abbrev pub empty_hub : Hub
empty_hub = record { registry = []; waiting = [] }

-- One connection of an agent: its session, its time and address, and its first message.
pub record Arrival : Type 0 where
  pub session : ℕ
  pub now : ℕ
  pub remote_addr : Str
  pub request : Option RegisterRequest
  pub writes : Bool

pub data Event : Type 0 where
  arrives : Arrival → Event
  -- The session of a registered connection closes.
  closes : ℕ → Str → Event

unfoldable pub enter : Arrival → Option RegisterRequest → Option Str → Hub → Hub
enter a (some req) (some id) h =
    elim (register_conn a.now id a.session req.host_key req a.remote_addr h.registry) [
      | none ↦ h
      | some r ↦ record { registry = r; waiting = (a.session, id) ∷ h.waiting }
    ]
enter a _ _ h = h

-- The first part of `handleConn`.
unfoldable pub begin_conn : TokenResolver → Str → Arrival → Hub → Hub
unfolding enter
begin_conn resolve version a h = enter a a.request (register resolve version a.writes a.request).1 h

unfoldable pub stop_waiting : ℕ → Str → List (ℕ × Str) → List (ℕ × Str)
stop_waiting s id [] = []
stop_waiting s id ((t, other) ∷ ws) =
    let rest = stop_waiting s id ws in if (t == s) && (other == id) then rest else (t, other) ∷ rest

-- What follows `<-session.CloseChan()`.
unfoldable pub end_conn : ℕ → Str → Hub → Hub
end_conn s id h = record {
  registry = unregister id s h.registry;
  waiting = stop_waiting s id h.waiting;
}

unfoldable pub step : TokenResolver → Str → Event → Hub → Hub
step resolve version (arrives a) h = begin_conn resolve version a h
step resolve version (closes s id) h = end_conn s id h

unfoldable pub run : TokenResolver → Str → List Event → Hub → Hub
run resolve version [] h = h
run resolve version (e ∷ es) h = run resolve version es (step resolve version e h)
