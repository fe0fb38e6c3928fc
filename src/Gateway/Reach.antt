-- ===== src/Gateway/Reach.antt =====
-- Where internal/proxy leads while internal/control serves agents: the connections behind the registry.
use sshhub.Base.{ℕ, ◌≡◌, ◌↔◌, subst, Bool, true, List, some, nat_eq}
use sshhub.Base.Dict.{lookup}
use sshhub.Text.{Str, str_eq}
use sshhub.Config.{Config, Backend}
use sshhub.Config.Lookup.{backend_by_name}
use sshhub.Control.Registry.{RegisterRequest}
use sshhub.Control.Server.{TokenResolver}
use sshhub.Control.Listener.{Listener, Event, serving, idle, run}
use sshhub.Control.Listener.Silent.{IsExact}
use sshhub.Control.Listener.Exact.{run-IsExact}
use sshhub.Control.Listener.Authority.{idle-IsExact}
use sshhub.Proxy.{Payload, forward, bridged}
use sshhub.Proxy.Access.{Granted, Reachable, forward_iff}

-- The session's own connection serves the backend at this moment, and yamux opens a stream on it.
abbrev pub Serves : (ℕ → Bool) → Listener → Str → ℕ → Type 0
Serves yamux_opens l id s =
    ((req : RegisterRequest) × (lookup s l.conns ≡ some (serving id req))) × (yamux_opens s ≡ true)

Reachable-Serves :
    (yamux_opens : ℕ → Bool) (l : Listener) (id : Str) (s : ℕ)
    → IsExact l
    → Reachable yamux_opens l.registry id s ↔ Serves yamux_opens l id s
Reachable-Serves yamux_opens l id s exact = (
  λ (c, found, same, fine).
      let (req, serves) = exact.owned id c found in
      ((req, subst (λ n. lookup n l.conns ≡ some (serving id req)) same serves), fine),
  λ ((req, serves), fine).
      let (c, found, same) = exact.entered s id req serves in (c, found, same, fine),
)

-- At every moment of a hub that started with no agents, whatever its agents do: a channel of a client
-- is bridged to a backend over a session exactly if it asks for port 22 of a name that the
-- configuration resolves to this backend, the user was granted it, the connection of this very session
-- serves it now, yamux opens a stream on the session, and the client takes the channel.
pub forward-Serves :
    (cfg : Config) (resolve : TokenResolver) (version : Str) (es : List Event)
    (yamux_opens : ℕ → Bool) (user : Str) (p : Payload) (takes : Bool) (id : Str) (s : ℕ)
    → (forward cfg yamux_opens (run resolve version es idle).registry user (some p) takes
        ≡ bridged id s)
      ↔ ((p.dest_port ≡ 22)
          × ((b : Backend) × (backend_by_name cfg.backends p.dest_addr ≡ some b)
              × (b.id ≡ id)
              × Granted cfg.jump_users user id)
          × Serves yamux_opens (run resolve version es idle) id s
          × (takes ≡ true))
forward-Serves cfg resolve version es yamux_opens user p takes id s =
    let l = run resolve version es idle in
    let reach =
      Reachable-Serves yamux_opens l id s (run-IsExact resolve version es idle idle-IsExact) in
    let whole = forward_iff cfg yamux_opens l.registry user p takes id s in
    (
      λ h. let (port, named, tunnel, taken) = whole.0 h in (port, named, reach.0 tunnel, taken),
      λ (port, named, serves, taken). whole.1 (port, named, reach.1 serves, taken),
    )
