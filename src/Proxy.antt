-- ===== src/Proxy.antt =====
-- internal/proxy/proxy.go: who may open tunnels through the hub, and to where. The parser of authorized
-- keys is a parameter, as are what a client offers, and what yamux and the channel answer.
pub mod Access
pub mod Serve
pub mod New
pub mod Channels
mod Examples
use sshhub.Base.{
  ℕ, ◌+◌, ◌≡◌, Bool, true, false, not, ◌&&◌, ◌||◌, List, [], ◌∷◌, Option, none, some, ltb,
  if◌then◌else◌, ◌==◌, nat_eq, contains,
}
use sshhub.Base.Dict.{lookup}
use sshhub.Text.{Str, codes, is_empty, trim_space, str_eq}
use sshhub.Config.{JumpUser, Backend, Config}
use sshhub.Config.Lookup.{backend_by_name}
use sshhub.Config.Validate.{ParsedKey, no_items}
use sshhub.RateLimit.{Limiter, Handle, release_once, record_failure, record_success}
use sshhub.Control.Registry.{Registry, Opened, stream, failed, open_stream}

unfoldable pub has_open_jump_user : List JumpUser → Bool
has_open_jump_user [] = false
has_open_jump_user (u ∷ us) = no_items u.keys || has_open_jump_user us

-- The first user of that name decides.
unfoldable pub is_open_jump_user : List JumpUser → Str → Bool
is_open_jump_user [] name = false
is_open_jump_user (u ∷ us) name =
    if u.name == name then no_items u.keys else is_open_jump_user us name

module _ (parse_key : Str → Option ParsedKey) where
  -- The configured text stands for the key that is offered, in its wire form.
  unfoldable pub key_matches : Str → Str → Bool
  key_matches key text = elim (parse_key text) [
    | none ↦ false
    | some k ↦ no_items k.options && (is_empty (trim_space k.rest) && k.wire == key)
  ]

  unfoldable pub any_key : Str → List Str → Bool
  any_key key [] = false
  any_key key (text ∷ keys) = key_matches key text || any_key key keys

  -- The value of the extension "jump_user" in the permissions, `none` for an error.
  unfoldable pub authorize : List JumpUser → Str → Str → Option Str
  authorize [] user key = none
  authorize (u ∷ us) user key =
      if u.name == user
      then if no_items u.keys || any_key key u.keys then some u.name else authorize us user key
      else authorize us user key

-- The check in `handle` that follows the handshake. The second text is the value of the extension
-- "jump_user", `none` where there are no permissions.
unfoldable pub passes_gate : List JumpUser → Str → Option Str → Bool
passes_gate us user perms =
    let open_user = is_open_jump_user us user in
    elim perms [ none ↦ open_user | some p ↦ if is_empty p then open_user else true ]

-- `handle` up to the channels, given what `ssh.NewServerConn` returns: `none` for an error, and otherwise
-- the permissions. It says whether the client's channels are served, and leaves the limiter.
unfoldable pub handle :
    List JumpUser → Str → Option (Option Str) → Handle → Str → ℕ → Limiter → Bool × Limiter
handle us user outcome release k now l =
    let l' = (release_once release l).1 in
    elim outcome [
      | none ↦ (false, record_failure l' k now)
      | some perms ↦
          if passes_gate us user perms then (true, record_success l' k now) else (false, l')
    ]

-- What becomes of a channel that `forward` takes.
pub data Forwarded : Type 0 where
  only_port_22 destination_denied unavailable not_accepted : Forwarded
  bridged : Str → ℕ → Forwarded

-- The payload of a "direct-tcpip" channel, as far as it is used.
pub record Payload : Type 0 where
  pub dest_addr : Str
  pub dest_port : ℕ

unfoldable pub is_granted : List JumpUser → Str → Str → Bool
is_granted [] user id = false
is_granted (u ∷ us) user id = u.name == user && contains u.backends id || is_granted us user id

module _ (cfg : Config) (opens : ℕ → Bool) (registry : Registry) where
  open_backend : Str → Bool → Forwarded
  open_backend id accepts = elim (open_stream false opens registry id) [
    | failed _ ↦ unavailable
    | stream s ↦ if accepts then bridged id s else not_accepted
  ]

  unfoldable pub forward : Str → Option Payload → Bool → Forwarded
  unfolding open_backend
  forward user none accepts = only_port_22
  forward user (some p) accepts =
      if not (p.dest_port == 22)
      then only_port_22
      else elim (backend_by_name cfg.backends p.dest_addr) [
        | none ↦ destination_denied
        | some b ↦
            if is_granted cfg.jump_users user b.id
            then open_backend b.id accepts
            else destination_denied
      ]
