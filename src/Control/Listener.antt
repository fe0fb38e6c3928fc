-- ===== src/Control/Listener.antt =====
-- `ListenAndServe` and `handleConn` of internal/control/server.go, at the grain of their goroutines: a
-- connection that is accepted, answered, registered and closed, with other connections in between.
pub mod Steps
pub mod Silent
pub mod Exact
pub mod Authority
pub mod Commits
pub mod Life
mod Examples
use sshhub.Base.{
  ℕ, suc, Bool, List, [], ◌∷◌, Option, none, some, ltb, length, if◌then◌else◌, nat_eq,
}
use sshhub.Base.Dict.{Dict, lookup, insert, erase}
use sshhub.Text.{Str}
use sshhub.Control.Registry.{Registry, RegisterRequest, register_conn, unregister, new_registry}
use sshhub.Control.Server.{TokenResolver, register}

-- `make(chan struct{}, 256)`
abbrev pub slots : ℕ
slots = 256

-- How far the goroutine of a connection has come: it waits for `register`, it has written the answer
-- that accepts the request for a backend, or it waits for the session to close.
pub data Phase : Type 0 where
  registering : Phase
  answered serving : Str → RegisterRequest → Phase

-- The connections that hold a slot, by the number of their session.
pub record Listener : Type 0 where
  pub registry : Registry
  pub conns : Dict ℕ Phase
  pub next : ℕ

abbrev pub idle : Listener
idle = record { registry = new_registry; conns = []; next = 0 }

pub data Event : Type 0 where
  accepts : Event
  -- `yamux.Server` fails.
  no_session : ℕ → Event
  -- `register` returns: what was read, and whether the answer could be written.
  registers : ℕ → Option RegisterRequest → Bool → Event
  -- `registerConn`, at this time, from this address.
  enters : ℕ → ℕ → Str → Event
  -- The session closes.
  closes : ℕ → Event

-- A free slot is taken, or the connection is closed.
unfoldable pub accept : Listener → Listener
accept l =
    if ltb (length l.conns) slots
    then record {
      registry = l.registry;
      conns = insert l.next registering l.conns;
      next = suc l.next;
    }
    else record l { next = suc l.next }

-- The goroutine returns, and its slot is free.
unfoldable pub drop : ℕ → Listener → Listener
drop s l = record l { conns = erase s l.conns }

unfoldable pub fail : ℕ → Option Phase → Listener → Listener
unfolding drop
fail s (some registering) l = drop s l
fail s _ l = l

-- What follows `s.register(session)`, with the backend that it returns.
unfoldable pub answer : ℕ → Option RegisterRequest → Option Str → Listener → Listener
unfolding drop
answer s (some req) (some id) l = record l { conns = insert s (answered id req) l.conns }
answer s _ _ l = drop s l

unfoldable pub answer_at :
    TokenResolver → Str → ℕ → Option RegisterRequest → Bool → Option Phase → Listener → Listener
answer_at resolve version s req writes (some registering) l =
    answer s req (register resolve version writes req).1 l
answer_at resolve version s req writes _ l = l

-- What follows `registerConn`, with the registry if there is no error.
unfoldable pub place : ℕ → Str → RegisterRequest → Option Registry → Listener → Listener
unfolding drop
place s id req none l = drop s l
place s id req (some r) l = record {
  registry = r;
  conns = insert s (serving id req) l.conns;
  next = l.next;
}

unfoldable pub enter_at : ℕ → ℕ → Str → Option Phase → Listener → Listener
enter_at s now remote (some (answered id req)) l =
    place s id req (register_conn now id s req.host_key req remote l.registry) l
enter_at s now remote _ l = l

-- What follows `<-session.CloseChan()`.
unfoldable pub close_at : ℕ → Option Phase → Listener → Listener
close_at s (some (serving id req)) l = record {
  registry = unregister id s l.registry;
  conns = erase s l.conns;
  next = l.next;
}
close_at s _ l = l

unfoldable pub step : TokenResolver → Str → Event → Listener → Listener
step resolve version accepts l = accept l
step resolve version (no_session s) l = fail s (lookup s l.conns) l
step resolve version (registers s req writes) l =
    answer_at resolve version s req writes (lookup s l.conns) l
step resolve version (enters s now remote) l = enter_at s now remote (lookup s l.conns) l
step resolve version (closes s) l = close_at s (lookup s l.conns) l

unfoldable pub run : TokenResolver → Str → List Event → Listener → Listener
run resolve version [] l = l
run resolve version (e ∷ es) l = run resolve version es (step resolve version e l)
