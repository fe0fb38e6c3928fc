-- ===== src/Proxy/Channels.antt =====
-- The loop over a client's channels in `handle` of internal/proxy/proxy.go, with the goroutine that each
-- channel is forwarded by.
pub mod Bounds
use sshhub.Base.{
  ℕ, suc, Bool, true, false, not, List, [], ◌∷◌, Option, none, some, ltb, length, if◌then◌else◌,
  ◌==◌, nat_eq,
}
use sshhub.Base.Dict.{Dict, lookup, insert, erase}
use sshhub.Text.{Str, codes, str_eq}
use sshhub.Config.{Config}
use sshhub.Control.Registry.{Registry}
use sshhub.Proxy.{
  Forwarded, Payload, forward, only_port_22, destination_denied, unavailable, not_accepted, bridged,
}

-- `make(chan struct{}, 16)`
abbrev pub channel_slots : ℕ
channel_slots = 16

-- What a channel that holds a slot has come to: its goroutine has not yet decided, or copies bytes to a
-- backend over a session.
pub data Channel : Type 0 where
  undecided : Option Payload → Channel
  copying : Str → ℕ → Channel

pub record Client : Type 0 where
  pub user : Str
  pub channels : Dict ℕ Channel
  pub next : ℕ

pub data Dispatch : Type 0 where
  not_direct channel_limit taken : Dispatch

-- What the loop makes of a channel of this type, with the number of those that hold a slot.
unfoldable pub dispatch : Str → ℕ → Dispatch
dispatch channel_type busy =
    if not (channel_type == codes "direct-tcpip")
    then not_direct
    else if ltb busy channel_slots
    then taken
    else channel_limit

pub data Event : Type 0 where
  -- The client asks for a channel of this type, with this payload if it parses.
  opens : Str → Option Payload → Event
  -- `forward` of the channel decides; whether the client takes the channel is told.
  decides : ℕ → Bool → Event
  -- `bridge` of the channel returns.
  ends : ℕ → Event

unfoldable pub admit : Dispatch → Option Payload → Client → Client
admit taken p c = record {
  user = c.user;
  channels = insert c.next (undecided p) c.channels;
  next = suc c.next;
}
admit _ p c = c

-- The channel is bridged, or the goroutine returns and frees the slot.
unfoldable pub settle : ℕ → Forwarded → Client → Client
settle n (bridged id s) c = record c { channels = insert n (copying id s) c.channels }
settle n _ c = record c { channels = erase n c.channels }

-- The slot of a bridge that has returned.
unfoldable pub finish : ℕ → Option Channel → Client → Client
finish n (some (copying id s)) c = record c { channels = erase n c.channels }
finish n _ c = c

module _ (cfg : Config) (yamux_opens : ℕ → Bool) (registry : Registry) where
  unfoldable pub decide : ℕ → Bool → Option Channel → Client → Client
  decide n accepts (some (undecided p)) c =
      settle n (forward cfg yamux_opens registry c.user p accepts) c
  decide n accepts _ c = c

  unfoldable pub step : Event → Client → Client
  step (opens channel_type p) c = admit (dispatch channel_type (length c.channels)) p c
  step (decides n accepts) c = decide n accepts (lookup n c.channels) c
  step (ends n) c = finish n (lookup n c.channels) c
