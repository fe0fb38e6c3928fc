-- ===== src/Gateway/EndToEnd.antt =====
-- From a client of the hub to the agent at the other end: internal/proxy, internal/control and
-- internal/config together, as cmd/sshhub/main.go connects them.
use sshhub.Base.Results.{ok}
use sshhub.Base.{
  ℕ, ◌≤◌, ◌≡◌, refl, sym, subst, ◌∙◌, Bool, true, false, List, [], ◌∷◌, Option, none, some, In, inl,
  inr, arith, nat_eq, length,
}
use sshhub.Base.Dict.{lookup}
use sshhub.Base.Int.{ℤ}
use sshhub.Text.{Str, is_empty, str_eq}
use sshhub.Config.{Config}
use sshhub.Config.Validate.{ParsedKey, validate}
use sshhub.Config.Validate.Names.{validate-no_tokens}
use sshhub.RateLimit.{Limiter, Handle}
use sshhub.Control.Registry.{RegisterRequest}
use sshhub.Control.Server.{register, resolve_token}
use sshhub.Control.Tunnels.{register_iff}
use sshhub.Control.Tokens.{OwnToken, resolve_token-OwnToken}
use sshhub.Control.Listener.{Listener, registers, idle, accepts, no_session, enters, closes}
use sshhub.Control.Listener
use sshhub.Control.Listener.Steps.{Brings, step-Step}
use sshhub.Control.Listener.Silent.{IsExact}
use sshhub.Control.Listener.Exact.{Step-IsExact}
use sshhub.Control.Listener.Authority.{AllLicensed, Step-AllLicensed, tunnel-Licensed, idle-IsExact}
use sshhub.Proxy.{Payload, forward, bridged, handle}
use sshhub.Proxy.Access.{Granted, forward_iff, MayEnter, FromCallback, handle-MayEnter}
use sshhub.Proxy.Channels.{copying, channel_slots}
use sshhub.Proxy.Channels.Bounds.{Within, step-Within, step-user}
use sshhub.Gateway.System.{System, Event, agent, user, step, run, fresh}

-- The requests that agents send in a run.
abbrev pub Presented : List Event → ℕ → RegisterRequest → Type 0
Presented es s req = (writes : Bool) × In (agent (registers s (some req) writes)) es

module _ (Sent : ℕ → RegisterRequest → Type 0) (cfg : Config) (version name : Str) where
  -- The backend is granted to the user, and the session's own request was accepted for it.
  abbrev Leads : Str → ℕ → Type 0
  Leads id s =
      Granted cfg.jump_users name id
      × (req : RegisterRequest) × Sent s req
      × ((register (resolve_token cfg) version true (some req)).1 ≡ some id)

  record Sound (s : System) : Type 0 where
    pub exact : IsExact s.agents
    pub licensed : AllLicensed Sent (resolve_token cfg) version s.agents.conns
    pub same_user : s.client.user ≡ name
    pub within : Within Leads s.client

  forward-Leads :
      (l : Listener) (yamux_opens : ℕ → Bool) (p : Option Payload) (takes : Bool) (id : Str) (t : ℕ)
      → IsExact l
      → AllLicensed Sent (resolve_token cfg) version l.conns
      → forward cfg yamux_opens l.registry name p takes ≡ bridged id t
      → Leads id t
  unfolding forward
  forward-Leads l yamux_opens none takes id t exact licensed h = absurd (cc)
  forward-Leads l yamux_opens (some p) takes id t exact licensed h =
      let (_, (b, _, _, granted), (c, found, same, _), _) =
        (forward_iff cfg yamux_opens l.registry name p takes id t).0 h in
      let (req, (sent, good)) =
        tunnel-Licensed Sent (resolve_token cfg) version l id c exact licensed found in
      (granted, req, subst (λ n. Sent n req) same sent, good)

  step-Sound :
      (e : Event) (s : System)
      → ((x : Listener.Event) → e ≡ agent x → Brings Sent x)
      → Sound s
      → Sound (step cfg version e s)
  unfolding step
  step-Sound (agent x) s b h =
      let l' = Listener.step (resolve_token cfg) version x s.agents in
      let rule = step-Step Sent (resolve_token cfg) version s.agents x (b x refl) in
      record {
        exact = Step-IsExact s.agents l' rule h.exact;
        licensed = Step-AllLicensed Sent (resolve_token cfg) version s.agents l' rule h.licensed;
        same_user = h.same_user;
        within = h.within;
      }
  step-Sound (user yamux_opens x) s b h = record {
    exact = h.exact;
    licensed = h.licensed;
    same_user = step-user cfg yamux_opens s.agents.registry x s.client ∙ h.same_user;
    within =
        step-Within Leads cfg yamux_opens s.agents.registry x s.client
          (λ p takes id t e. forward-Leads s.agents yamux_opens p takes id t h.exact h.licensed (
            subst (λ n. forward cfg yamux_opens s.agents.registry n p takes ≡ bridged id t)
              h.same_user e))
          h.within;
  }

  run-Sound :
      (es : List Event) (s : System)
      → ((x : Listener.Event) → In (agent x) es → Brings Sent x)
      → Sound s
      → Sound (run cfg version es s)
  unfolding run
  run-Sound [] s b h = h
  run-Sound (e ∷ es) s b h =
      run-Sound es (step cfg version e s) (λ x i. b x (inr i))
        (step-Sound e s (λ x same. b x (inl (sym same))) h)

  fresh-Sound : Sound (fresh name)
  unfolding lookup
  fresh-Sound = record {
    exact = idle-IsExact;
    licensed = λ s p e. absurd (cc);
    same_user = refl;
    within = record { leads = λ n id s e. absurd (cc); bounded = omega arith };
  }

Presented-Brings :
    (es : List Event) (x : Listener.Event) → In (agent x) es → Brings (Presented es) x
Presented-Brings es accepts i = tt
Presented-Brings es (no_session s) i = tt
Presented-Brings es (registers s req writes) i =
    λ q e. (writes, subst (λ r. In (agent (registers s r writes)) es) e i)
Presented-Brings es (enters s now remote) i = tt
Presented-Brings es (closes s) i = tt

-- In a hub with a configuration that `Validate` accepted and with no agents at first, whatever agents
-- and a client do and in whatever order: if `handle` serves the client, then it names a user that is
-- open or holds a key of a user of that name; every channel of it that copies bytes leads to a backend
-- that the user was granted, over a session on which an agent itself sent this backend's own token,
-- which is not empty; and it has at most 16 channels. The permissions of the client's handshake, if it
-- has any, come from the callback for public keys.
pub channels-Authorized :
    (parse_key : Str → Option ParsedKey) (parse_duration : Str → Option ℤ) (raw cfg : Config)
    (version name : Str) (holds : Str → Type 0) (outcome : Option (Option Str)) (release : Handle)
    (source : Str) (now : ℕ) (limiter : Limiter) (es : List Event)
    → validate parse_key parse_duration raw ≡ ok cfg
    → FromCallback parse_key cfg.jump_users name holds outcome
    → (handle cfg.jump_users name outcome release source now limiter).0 ≡ true
    → MayEnter parse_key cfg.jump_users name holds
      × ((n : ℕ) (id : Str) (s : ℕ)
          → lookup n (run cfg version es (fresh name)).client.channels ≡ some (copying id s)
          → Granted cfg.jump_users name id
            × ((req : RegisterRequest) × Presented es s req
                × (is_empty req.token ≡ false)
                × OwnToken cfg.backends req.token id))
      × (length (run cfg version es (fresh name)).client.channels ≤ channel_slots)
channels-Authorized parse_key parse_duration raw cfg version name holds outcome release source now
      limiter es valid law served =
    let sound =
      run-Sound (Presented es) cfg version name es (fresh name) (Presented-Brings es)
        (fresh-Sound (Presented es) cfg version name) in
    (
      handle-MayEnter parse_key cfg.jump_users name holds outcome release source now limiter law
          served,
      λ n id s e.
          let (granted, req, sent, good) = sound.within.leads n id s e in
          let (full, _, resolves, _) =
            (register_iff (resolve_token cfg) version true req id).0 good in
          (
            granted,
            (
              req,
              sent,
              full,
              resolve_token-OwnToken cfg req.token req.backend id
                  (validate-no_tokens parse_key parse_duration raw cfg valid) resolves,
            ),
          ),
      sound.within.bounded,
    )
