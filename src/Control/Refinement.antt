-- ===== src/Control/Refinement.antt =====
-- What internal/control promises to its users, and that the registry of internal/control/registry.go and
-- the connections of internal/control/server.go keep it: a backend has at most one owner, a session, and
-- the first to claim it keeps it until it leaves.
use std.Path.{fun_ext}
use sshhub.Base.{
  ℕ, ◌≡◌, refl, ap, subst, ◌∙◌, Bool, false, not, ◌&&◌, List, [], ◌∷◌, Option, none, some,
  if◌then◌else◌, ◌==◌, nat_eq, Option-cases, inl, inr, arith,
}
use sshhub.Base.Dict.{lookup, lookup-insert, lookup-erase}
use sshhub.Text.{Str, is_empty, str_eq}
use sshhub.Control.Registry.{
  RegisterRequest, Connection, Registry, register_conn, unregister, Opened, stream, failed,
  not_connected, no_stream, open_stream,
}
use sshhub.Control.Server.{
  TokenResolver, transport_name, register, Hub, Arrival, Event, arrives, closes, enter, begin_conn,
  end_conn, step, run,
}

-- The abstract state: who owns which backend.
abbrev pub Owners : Type 0
Owners = Str → Option ℕ

pub data Claim : Type 0 where
  ignored : Claim
  claims : Str → ℕ → Claim
  leaves : Str → ℕ → Claim

-- A free backend goes to who claims it.
unfoldable pub take_over : Option ℕ → ℕ → Option ℕ
take_over none s = some s
take_over (some owner) s = some owner

-- An owner that leaves frees its backend; others cannot.
unfoldable pub give_up : Option ℕ → ℕ → Option ℕ
give_up none s = none
give_up (some owner) s = if owner == s then none else some owner

unfoldable pub decide : Claim → Owners → Owners
decide ignored o id = o id
decide (claims b s) o id = if id == b then take_over (o id) s else o id
decide (leaves b s) o id = if id == b then give_up (o id) s else o id

unfoldable pub decide_all : List Claim → Owners → Owners
decide_all [] o = o
decide_all (c ∷ cs) o = decide_all cs (decide c o)

-- What an agent claims by its first message: the backend that its token is good for, if it speaks the
-- protocol and is there for the answer.
unfoldable pub asks : TokenResolver → ℕ → Bool → Option RegisterRequest → Claim
asks resolve s writes none = ignored
asks resolve s writes (some req) =
    if not (is_empty req.token) && (req.transport == transport_name && writes)
    then elim (resolve req.token req.backend) [ none ↦ ignored | some id ↦ claims id s ]
    else ignored

unfoldable pub claim_of : TokenResolver → Event → Claim
claim_of resolve (closes s id) = leaves id s
claim_of resolve (arrives a) = asks resolve a.session a.writes a.request

unfoldable pub claims_of : TokenResolver → List Event → List Claim
claims_of resolve [] = []
claims_of resolve (e ∷ es) = claim_of resolve e ∷ claims_of resolve es

unfoldable pub session_of : Option Connection → Option ℕ
session_of none = none
session_of (some c) = some c.session

unfoldable pub owners : Registry → Owners
owners r id = session_of (lookup id r)

-- A stream to the owner.
unfoldable pub reach : (ℕ → Bool) → Option ℕ → Opened
reach opens none = failed not_connected
reach opens (some s) = if opens s then stream s else failed (no_stream s)

open_stream-reach :
    (opens : ℕ → Bool) (r : Registry) (id : Str)
    → open_stream false opens r id ≡ reach opens (owners r id)
unfolding open_stream reach owners session_of
open_stream-reach opens r id = elim (Option-cases (lookup id r)) [
  | inl e ↦ rw (e, open_stream, owners) refl
  | inr (c, e) ↦ rw (e, open_stream, owners) refl
]

register_conn-claim :
    (a : Arrival) (req : RegisterRequest) (b : Str) (h : Hub) (id : Str)
    → owners (enter a (some req) (some b) h).registry id
      ≡ decide (claims b a.session) (owners h.registry) id
unfolding enter register_conn decide owners session_of take_over
register_conn-claim a req b h id = elim (Option-cases (lookup b h.registry)) [
  | inr (c, taken) ↦ ground (arith, taken)
  | inl free ↦
      let entry : Connection = record {
        session = a.session;
        host_key = req.host_key;
        version = req.version;
        os = req.os;
        arch = req.arch;
        connected_at = a.now;
        remote_addr = a.remote_addr;
      } in
      ground (arith, free, lookup-insert id b entry h.registry)
]

claim_for : ℕ → Option Str → Claim
claim_for s none = ignored
claim_for s (some id) = claims id s

register-asks :
    (resolve : TokenResolver) (version : Str) (s : ℕ) (writes : Bool) (req : RegisterRequest)
    → claim_for s (register resolve version writes (some req)).1 ≡ asks resolve s writes (some req)
unfolding asks register claim_for
register-asks resolve version s writes req = ground arith

enter-claim :
    (a : Arrival) (req : Option RegisterRequest) (to : Option Str) (h : Hub) (id : Str)
    → (req ≡ none → to ≡ none)
    → owners (enter a req to h).registry id ≡ decide (claim_for a.session to) (owners h.registry) id
unfolding enter claim_for decide
enter-claim a none to h id asked = rw (asked refl) refl
enter-claim a (some req) none h id asked = refl
enter-claim a (some req) (some b) h id asked = register_conn-claim a req b h id

enter-asks :
    (resolve : TokenResolver) (version : Str) (a : Arrival) (h : Hub) (req : Option RegisterRequest)
    (id : Str)
    → owners (enter a req (register resolve version a.writes req).1 h).registry id
      ≡ decide (asks resolve a.session a.writes req) (owners h.registry) id
unfolding asks register enter decide
enter-asks resolve version a h none id = refl
enter-asks resolve version a h (some req) id =
    subst
      (λ c.
        owners (enter a (some req) (register resolve version a.writes (some req)).1 h).registry id
        ≡ decide c (owners h.registry) id)
      (register-asks resolve version a.session a.writes req)
      (enter-claim a (some req) (register resolve version a.writes (some req)).1 h id
        (λ e. absurd (cc)))

end_conn-leave :
    (s : ℕ) (b : Str) (h : Hub) (id : Str)
    → owners (end_conn s b h).registry id ≡ decide (leaves b s) (owners h.registry) id
unfolding end_conn unregister owners decide give_up session_of
end_conn-leave s b h id = elim (Option-cases (lookup b h.registry)) [
  | inl e ↦ ground (arith, e)
  | inr (c, e) ↦ ground (arith, e, lookup-erase id b h.registry)
]

step-decide :
    (resolve : TokenResolver) (version : Str) (e : Event) (h : Hub)
    → owners (step resolve version e h).registry ≡ decide (claim_of resolve e) (owners h.registry)
unfolding step claim_of begin_conn
step-decide resolve version (arrives a) h = fun_ext (enter-asks resolve version a h a.request)
step-decide resolve version (closes s id) h = fun_ext (end_conn-leave s id h)

run-decide_all :
    (resolve : TokenResolver) (version : Str) (es : List Event) (h : Hub)
    → owners (run resolve version es h).registry
      ≡ decide_all (claims_of resolve es) (owners h.registry)
unfolding run decide_all claims_of
run-decide_all resolve version [] h = refl
run-decide_all resolve version (e ∷ es) h =
    run-decide_all resolve version es (step resolve version e h)
    ∙ ap (decide_all (claims_of resolve es)) (step-decide resolve version e h)

-- The hub refines the abstract account of ownership: over any run of its connections the registry's
-- sessions are the owners that follow from the agents' claims alone, and `Open` gives a stream over the
-- session of the owner, or the error that there is none.
pub run-refines :
    (resolve : TokenResolver) (version : Str) (es : List Event) (h : Hub)
    → (owners (run resolve version es h).registry
        ≡ decide_all (claims_of resolve es) (owners h.registry))
      × ((opens : ℕ → Bool) (id : Str)
          → open_stream false opens (run resolve version es h).registry id
            ≡ reach opens (decide_all (claims_of resolve es) (owners h.registry) id))
run-refines resolve version es h =
    let same = run-decide_all resolve version es h in
    (
      same,
      λ opens id.
          open_stream-reach opens (run resolve version es h).registry id
          ∙ ap (λ (o : Owners). reach opens (o id)) same,
    )
