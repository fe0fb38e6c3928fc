-- ===== src/Proxy/Serve.antt =====
-- The accept loop `Serve` of internal/proxy/proxy.go, with the limiter of internal/ratelimit: the
-- connections that hold one of the slots, and what each event does to them.
pub mod Slots
use sshhub.Base.{
  ℕ, suc, ◌+◌, Bool, true, false, not, ◌&&◌, List, [], ◌∷◌, ◌++◌, Option, none, some, ltb, length,
  if◌then◌else◌, ◌==◌, nat_eq,
}
use sshhub.Text.{Str}
use sshhub.Config.{JumpUser}
use sshhub.RateLimit.{Limiter, Reason, allowed, acquire, handle_of, release_once}
use sshhub.Proxy.{handle}

-- `make(chan struct{}, 256)`
abbrev pub slots : ℕ
slots = 256

-- A connection that holds a slot, in its handshake or behind it.
pub record Conn : Type 0 where
  pub id : ℕ
  pub source : Str
  pub serving : Bool

pub record Front : Type 0 where
  pub limiter : Limiter
  pub conns : List Conn
  pub next_id : ℕ

abbrev pub is_allowed : Reason → Bool
is_allowed allowed = true
is_allowed _ = false

-- What follows the answer of the limiter to a connection from the source `k`.
unfoldable pub place : Str → Reason → Limiter → Front → Front
place k reason l f =
    if not (is_allowed reason)
    then record f { limiter = l }
    else if ltb (length f.conns) slots
    then record {
      limiter = l;
      conns = record { id = f.next_id; source = k; serving = false } ∷ f.conns;
      next_id = suc f.next_id;
    }
    else record f { limiter = (release_once (handle_of reason k) l).1 }

unfoldable pub accept : Str → ℕ → Front → Front
accept k now f = let (reason, l) = acquire f.limiter k now in place k reason l f

-- The handshake of one connection ends: the connection, if it goes on, and the limiter.
unfoldable pub shake_one :
    List JumpUser → Str → Option (Option Str) → ℕ → Conn → Limiter → List Conn × Limiter
shake_one us user outcome now c l =
    let (served, l') = handle us user outcome (handle_of allowed c.source) c.source now l in
    (if served then record c { serving = true } ∷ [] else [], l')

unfoldable pub shake :
    List JumpUser → ℕ → Str → Option (Option Str) → ℕ → List Conn → Limiter → List Conn × Limiter
shake us id user outcome now [] l = ([], l)
shake us id user outcome now (c ∷ cs) l =
    let rest = shake us id user outcome now cs l in
    let here = shake_one us user outcome now c l in
    if (c.id == id) && not c.serving then (here.0 ++ cs, here.1) else (c ∷ rest.0, rest.1)

-- A connection behind its handshake ends, and its slot is free.
unfoldable pub finish : ℕ → List Conn → List Conn
finish id [] = []
finish id (c ∷ cs) = let rest = finish id cs in if (c.id == id) && c.serving then cs else c ∷ rest

pub data Event : Type 0 where
  connects : Str → ℕ → Event
  -- The handshake of the connection ends, for the user and with this outcome, at this time.
  shakes_hands : ℕ → Str → Option (Option Str) → ℕ → Event
  ends : ℕ → Event

unfoldable pub step : List JumpUser → Event → Front → Front
step us (connects k now) f = accept k now f
step us (shakes_hands id user outcome now) f =
    let (cs, l) = shake us id user outcome now f.conns f.limiter in
    record f { limiter = l; conns = cs }
step us (ends id) f = record f { conns = finish id f.conns }

unfoldable pub run : List JumpUser → List Event → Front → Front
run us [] f = f
run us (e ∷ es) f = run us es (step us e f)
