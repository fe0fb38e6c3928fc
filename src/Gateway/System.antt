-- ===== src/Gateway/System.antt =====
-- The running hub of cmd/sshhub/main.go: the control plane of internal/control and a client of
-- internal/proxy, which share the registry.
use sshhub.Base.{ℕ, Bool, List, [], ◌∷◌}
use sshhub.Text.{Str}
use sshhub.Config.{Config}
use sshhub.Control.Server.{resolve_token}
use sshhub.Control.Listener.{Listener, idle}
use sshhub.Control.Listener
use sshhub.Proxy.Channels.{Client}
use sshhub.Proxy.Channels

-- The client is one that passed `handle`'s check; that others come and go is in no state that it uses.
pub record System : Type 0 where
  pub agents : Listener
  pub client : Client

pub data Event : Type 0 where
  agent : Listener.Event → Event
  -- Which sessions yamux opens a stream on is told.
  user : (ℕ → Bool) → Channels.Event → Event

unfoldable pub step : Config → Str → Event → System → System
step cfg version (agent e) s = record s {
  agents = Listener.step (resolve_token cfg) version e s.agents;
}
step cfg version (user yamux_opens e) s = record s {
  client = Channels.step cfg yamux_opens s.agents.registry e s.client;
}

unfoldable pub run : Config → Str → List Event → System → System
run cfg version [] s = s
run cfg version (e ∷ es) s = run cfg version es (step cfg version e s)

abbrev pub new_client : Str → Client
new_client name = record { user = name; channels = []; next = 0 }

-- A hub with no agents yet, and a client with no channels.
abbrev pub fresh : Str → System
fresh name = record { agents = idle; client = new_client name }
