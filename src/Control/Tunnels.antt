-- ===== src/Control/Tunnels.antt =====
-- The registry of internal/control over any run of the hub's connections.
use mathlib.Core.Option.{none-ne-some}
use sshhub.Base.{
  ℕ, ◌≡◌, ◌≢◌, refl, sym, ap, subst, ◌∙◌, Bool, true, false, ◌&&◌, List, [], ◌∷◌, Option, none,
  some, arith, ◌==◌, ==_iff, nat_eq, Bool-cases, Option-cases, In, ◌⊎◌, inl, inr, ◌↔◌, contains,
}
use sshhub.Base.Dict.{lookup, insert, lookup-insert, lookup-erase}
use sshhub.Base.Results.{ok}
use sshhub.Base.Int.{ℤ}
use sshhub.Text.{Str, is_empty, str_eq}
use sshhub.Config.{Backend, Config}
use sshhub.Config.Lookup.{backend_by_token}
use sshhub.Config.Validate.{ParsedKey, validate}
use sshhub.Config.Validate.Names.{validate-no_tokens, backend_by_token-validate}
use sshhub.Control.Registry.{Registry, RegisterRequest, Connection, register_conn, unregister}
use sshhub.Control.Server.{
  TokenResolver, register, Hub, Arrival, Event, arrives, closes, enter, begin_conn, stop_waiting,
  end_conn, step, run, transport_name, resolve_token,
}

-- What `register_conn` does to the entry of every backend.
pub register_conn-lookup :
    (now s : ℕ) (backend host_key remote : Str) (req : RegisterRequest) (r r' : Registry)
    → register_conn now backend s host_key req remote r ≡ some r'
    → (lookup backend r ≡ none)
      × ((id : Str) (c : Connection)
          → lookup id r' ≡ some c
          → ((id ≡ backend) × (c.session ≡ s)) ⊎ (lookup id r ≡ some c))
      × ((id : Str) (c : Connection) → lookup id r ≡ some c → lookup id r' ≡ some c)
unfolding register_conn
register_conn-lookup now s backend host_key remote req r r' h =
    elim (Option-cases (lookup backend r)) [
      | inr (c, taken) ↦ absurd (none-ne-some r' (rw (taken, register_conn) at h))
      | inl free ↦
          let entry : Connection = record {
            session = s;
            host_key = host_key;
            version = req.version;
            os = req.os;
            arch = req.arch;
            connected_at = now;
            remote_addr = remote;
          } in
          let same : some (insert backend entry r) ≡ some r' = rw (free, register_conn) at h in
          let result : insert backend entry r ≡ r' = cc in
          (
            free,
            λ id c e. new_entry id c entry (subst (λ x. lookup id x ≡ some c) (sym result) e) refl,
            λ id c e. subst (λ x. lookup id x ≡ some c) result (old_entry id c entry free e),
          )
    ]
  where
    new_entry :
        (id : Str) (c entry : Connection)
        → lookup id (insert backend entry r) ≡ some c
        → entry.session ≡ s
        → ((id ≡ backend) × (c.session ≡ s)) ⊎ (lookup id r ≡ some c)
    new_entry id c entry e here = elim (Bool-cases (id == backend)) [
      | inr other ↦ inr (ground (arith, lookup-insert id backend entry r))
      | inl same ↦
          let it : some entry ≡ some c = rw same at (sym (lookup-insert id backend entry r) ∙ e) in
          inl ((==_iff id backend).0 same, ground (arith, it))
    ]

    old_entry :
        (id : Str) (c entry : Connection)
        → lookup backend r ≡ none
        → lookup id r ≡ some c
        → lookup id (insert backend entry r) ≡ some c
    old_entry id c entry free e = ground (arith, lookup-insert id backend entry r)

-- What `unregister` does to the entry of every backend.
pub unregister-lookup :
    (backend id : Str) (s : ℕ) (r : Registry) (c : Connection)
    → (lookup id (unregister backend s r) ≡ some c)
      ↔ ((lookup id r ≡ some c) × ((id ≡ backend) → c.session ≢ s))
unfolding unregister
unregister-lookup backend id s r c = (
  λ h. ground (arith, lookup-erase id backend r),
  λ (e, n). ground (arith, lookup-erase id backend r),
)

-- Every tunnel of the registry has its own goroutine, which takes it down when the session closes.
abbrev pub HasWaiter : Hub → Type 0
HasWaiter h =
    (id : Str) (c : Connection) → lookup id h.registry ≡ some c → In (c.session, id) h.waiting

stop_waiting-keeps :
    (s t : ℕ) (id other : Str) (ws : List (ℕ × Str))
    → ((t ≡ s) × (other ≡ id) → ⊥)
    → In (t, other) ws
    → In (t, other) (stop_waiting s id ws)
unfolding stop_waiting
stop_waiting-keeps s t id other [] n i = absurd i
stop_waiting-keeps s t id other ((u, o) ∷ ws) n (inl e) =
    let same_session : t ≡ u = ap (λ (x : ℕ × Str). x.0) e in
    let same_id : other ≡ o = ap (λ (x : ℕ × Str). x.1) e in
    elim (Bool-cases ((u == s) && (o == id))) [
      | inl both ↦ absurd (n (ground arith, ground arith))
      | inr apart ↦ rw apart (inl e)
    ]
stop_waiting-keeps s t id other ((u, o) ∷ ws) n (inr i) =
    elim (Bool-cases ((u == s) && (o == id))) [
      | inl both ↦ rw both (stop_waiting-keeps s t id other ws n i)
      | inr apart ↦ rw apart (inr (stop_waiting-keeps s t id other ws n i))
    ]

pub enter-cases :
    (a : Arrival) (req : Option RegisterRequest) (to : Option Str) (h : Hub)
    → (enter a req to h ≡ h)
      ⊎ ((id : Str) × (q : RegisterRequest) × (r : Registry) × (to ≡ some id)
          × (req ≡ some q)
          × (register_conn a.now id a.session q.host_key q a.remote_addr h.registry ≡ some r)
          × (enter a req to h ≡ record { registry = r; waiting = (a.session, id) ∷ h.waiting }))
unfolding enter
enter-cases a none to h = inl refl
enter-cases a (some q) none h = inl refl
enter-cases a (some q) (some id) h =
    elim (Option-cases (register_conn a.now id a.session q.host_key q a.remote_addr h.registry)) [
      | inl e ↦ inl (rw (e, enter) refl)
      | inr (r, e) ↦ inr (id, q, r, refl, refl, e, rw (e, enter) refl)
    ]

begin_conn-HasWaiter :
    (resolve : TokenResolver) (version : Str) (a : Arrival) (h : Hub)
    → HasWaiter h
    → HasWaiter (begin_conn resolve version a h)
unfolding begin_conn
begin_conn-HasWaiter resolve version a h wait =
    elim (enter-cases a a.request (register resolve version a.writes a.request).1 h) [
      | inl same ↦ subst HasWaiter (sym same) wait
      | inr (id, q, r, _, _, e, new) ↦
          let (_, entries, _) =
            register_conn-lookup a.now a.session id q.host_key a.remote_addr q h.registry r e in
          subst HasWaiter (sym new) (λ other c here. elim (entries other c here) [
            | inl (same, own) ↦ inl (ground (arith, same, own))
            | inr old ↦ inr (wait other c old)
          ])
    ]

end_conn-HasWaiter : (s : ℕ) (id : Str) (h : Hub) → HasWaiter h → HasWaiter (end_conn s id h)
unfolding end_conn
end_conn-HasWaiter s id h wait other c here =
    let (old, still) = (unregister-lookup id other s h.registry c).0 here in
    stop_waiting-keeps s c.session id other h.waiting (λ (e, f). still f e) (wait other c old)

-- Whatever agents connect and disconnect: every tunnel in the registry has a goroutine of its own that
-- waits for the tunnel's session to close, and then takes it down.
pub run-HasWaiter :
    (resolve : TokenResolver) (version : Str) (es : List Event) (h : Hub)
    → HasWaiter h
    → HasWaiter (run resolve version es h)
unfolding run step
run-HasWaiter resolve version [] h wait = wait
run-HasWaiter resolve version (arrives a ∷ es) h wait =
    run-HasWaiter resolve version es (begin_conn resolve version a h)
      (begin_conn-HasWaiter resolve version a h wait)
run-HasWaiter resolve version (closes s id ∷ es) h wait =
    run-HasWaiter resolve version es (end_conn s id h) (end_conn-HasWaiter s id h wait)

begin_conn-lookup :
    (resolve : TokenResolver) (version : Str) (a : Arrival) (h : Hub) (id : Str) (c : Connection)
    → lookup id h.registry ≡ some c
    → lookup id (begin_conn resolve version a h).registry ≡ some c
unfolding begin_conn
begin_conn-lookup resolve version a h id c here =
    elim (enter-cases a a.request (register resolve version a.writes a.request).1 h) [
      | inl same ↦ subst (λ (x : Hub). lookup id x.registry ≡ some c) (sym same) here
      | inr (new_id, q, r, _, _, e, new) ↦
          let (_, _, keeps) =
            register_conn-lookup a.now a.session new_id q.host_key a.remote_addr q h.registry r e in
          subst (λ (x : Hub). lookup id x.registry ≡ some c) (sym new) (keeps id c here)
    ]

-- No event of the list is the end of this tunnel's session.
abbrev pub NotClosed : Str → ℕ → List Event → Type 0
NotClosed id s [] = Unit
NotClosed id s (arrives a ∷ es) = NotClosed id s es
NotClosed id s (closes t other ∷ es) = ((id ≡ other) → s ≢ t) × NotClosed id s es

-- A tunnel stays, with everything recorded about it, until its own session closes: no other agent
-- displaces it, also not one that presents the token of the same backend, and no other session's end
-- removes it.
pub run-lookup :
    (resolve : TokenResolver) (version : Str) (es : List Event) (h : Hub) (id : Str)
    (c : Connection)
    → lookup id h.registry ≡ some c
    → NotClosed id c.session es
    → lookup id (run resolve version es h).registry ≡ some c
unfolding run step end_conn
run-lookup resolve version [] h id c here alive = here
run-lookup resolve version (arrives a ∷ es) h id c here alive =
    run-lookup resolve version es (begin_conn resolve version a h) id c
      (begin_conn-lookup resolve version a h id c here) alive
run-lookup resolve version (closes t other ∷ es) h id c here (n, alive) =
    run-lookup resolve version es (end_conn t other h) id c
      ((unregister-lookup other id t h.registry c).1 (here, n)) alive

-- An agent is accepted exactly if it presents a token, speaks the transport, the token resolves to the
-- backend, and the answer reaches it; the answer then names that backend.
pub register_iff :
    (resolve : TokenResolver) (version : Str) (writes : Bool) (req : RegisterRequest) (id : Str)
    → ((register resolve version writes (some req)).1 ≡ some id) ↔ (
        (is_empty req.token ≡ false)
        × (req.transport ≡ transport_name)
        × (resolve req.token req.backend ≡ some id)
        × (writes ≡ true))
unfolding register
register_iff resolve version writes req id = (λ h. ground arith, λ h. ground arith)

-- In a hub whose configuration passed `Validate`, a registration token gives exactly the backend that
-- has it, whatever backend the agent asks for: the branch for global tokens is never taken.
pub resolve_token-validate :
    (parse_key : Str → Option ParsedKey) (parse_duration : Str → Option ℤ) (c c' : Config)
    (b : Backend) (requested : Str)
    → validate parse_key parse_duration c ≡ ok c'
    → In b c'.backends
    → is_empty b.token ≡ false
    → (resolve_token c' b.token requested ≡ some b.id)
      × ((token : Str)
          → backend_by_token c'.backends token ≡ none
          → resolve_token c' token requested ≡ none)
unfolding resolve_token contains
resolve_token-validate parse_key parse_duration c c' b requested h i full =
    let found = backend_by_token-validate parse_key parse_duration c c' b h i full in
    let no_tokens : c'.control_tokens ≡ [] = validate-no_tokens parse_key parse_duration c c' h in
    (rw (found, resolve_token) refl, λ token e. ground arith)
