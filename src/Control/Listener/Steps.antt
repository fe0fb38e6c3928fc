-- ===== src/Control/Listener/Steps.antt =====
-- The events of internal/control/server.go as rules: what a step needs, and what it leaves.
use sshhub.Base.{
  ℕ, suc, ◌≡◌, refl, Bool, true, false, List, [], ◌∷◌, Option, none, some, ltb, length, nat_eq,
  Bool-cases, inl, inr, In,
}
use sshhub.Base.Dict.{lookup, insert, erase}
use sshhub.Text.{Str}
use sshhub.Control.Registry.{Registry, RegisterRequest, register_conn, unregister}
use sshhub.Control.Server.{TokenResolver, register}
use sshhub.Control.Tunnels.{register_iff}
use sshhub.Control.Listener.{
  slots, Phase, registering, answered, serving, Listener, Event, accepts, no_session, registers,
  enters, closes, accept, drop, fail, answer, answer_at, place, enter_at, close_at, step, run,
}

-- One step of one goroutine, with the requests that agents send given by `Sent`.
pub data Step (Sent : ℕ → RegisterRequest → Type 0) (resolve : TokenResolver) (version : Str)
    (l : Listener) : Listener → Type 0 where
  waits : Step Sent resolve version l l
  crowded :
      ltb (length l.conns) slots ≡ false
      → Step Sent resolve version l (record l { next = suc l.next })
  accepted :
      ltb (length l.conns) slots ≡ true
      → Step Sent resolve version l (record {
        registry = l.registry;
        conns = insert l.next registering l.conns;
        next = suc l.next;
      })
  refused :
      (s : ℕ)
      → lookup s l.conns ≡ some registering
      → Step Sent resolve version l (record l { conns = erase s l.conns })
  granted :
      (s : ℕ) (id : Str) (req : RegisterRequest)
      → lookup s l.conns ≡ some registering
      → Sent s req
      → (register resolve version true (some req)).1 ≡ some id
      → Step Sent resolve version l (record l { conns = insert s (answered id req) l.conns })
  taken :
      (s now : ℕ) (remote id : Str) (req : RegisterRequest)
      → lookup s l.conns ≡ some (answered id req)
      → register_conn now id s req.host_key req remote l.registry ≡ none
      → Step Sent resolve version l (record l { conns = erase s l.conns })
  placed :
      (s now : ℕ) (remote id : Str) (req : RegisterRequest) (r : Registry)
      → lookup s l.conns ≡ some (answered id req)
      → register_conn now id s req.host_key req remote l.registry ≡ some r
      → Step Sent resolve version l
          (record { registry = r; conns = insert s (serving id req) l.conns; next = l.next })
  closed :
      (s : ℕ) (id : Str) (req : RegisterRequest)
      → lookup s l.conns ≡ some (serving id req)
      → Step Sent resolve version l
          (record { registry = unregister id s l.registry; conns = erase s l.conns; next = l.next })

-- The event brings no request but those of `Sent`.
abbrev pub Brings : (ℕ → RegisterRequest → Type 0) → Event → Type 0
Brings Sent (registers s req writes) = (q : RegisterRequest) → req ≡ some q → Sent s q
Brings Sent _ = Unit

module _ (Sent : ℕ → RegisterRequest → Type 0) (resolve : TokenResolver) (version : Str)
    (l : Listener) where
  accept-Step : Step Sent resolve version l (accept l)
  unfolding accept
  accept-Step = elim (Bool-cases (ltb (length l.conns) slots)) [
    | inl free ↦ rw free (accepted free)
    | inr full ↦ rw full (crowded full)
  ]

  fail-Step :
      (s : ℕ) (p : Option Phase) → lookup s l.conns ≡ p → Step Sent resolve version l (fail s p l)
  unfolding fail drop
  fail-Step s none e = waits
  fail-Step s (some registering) e = refused s e
  fail-Step s (some (answered id req)) e = waits
  fail-Step s (some (serving id req)) e = waits

  answer-Step :
      (s : ℕ) (req : Option RegisterRequest) (to : Option Str) (writes : Bool)
      → lookup s l.conns ≡ some registering
      → ((q : RegisterRequest) → req ≡ some q → Sent s q)
      → (register resolve version writes req).1 ≡ to
      → Step Sent resolve version l (answer s req to l)
  unfolding answer drop
  answer-Step s none to writes here brings e = refused s here
  answer-Step s (some req) none writes here brings e = refused s here
  answer-Step s (some req) (some id) writes here brings e =
      let (full, speaks, good, _) = (register_iff resolve version writes req id).0 e in
      granted s id req here (brings req refl)
        ((register_iff resolve version true req id).1 (full, speaks, good, refl))

  answer_at-Step :
      (s : ℕ) (req : Option RegisterRequest) (writes : Bool) (p : Option Phase)
      → ((q : RegisterRequest) → req ≡ some q → Sent s q)
      → lookup s l.conns ≡ p
      → Step Sent resolve version l (answer_at resolve version s req writes p l)
  unfolding answer_at
  answer_at-Step s req writes none brings e = waits
  answer_at-Step s req writes (some registering) brings e =
      answer-Step s req (register resolve version writes req).1 writes e brings refl
  answer_at-Step s req writes (some (answered id q)) brings e = waits
  answer_at-Step s req writes (some (serving id q)) brings e = waits

  place-Step :
      (s now : ℕ) (remote id : Str) (req : RegisterRequest) (r : Option Registry)
      → lookup s l.conns ≡ some (answered id req)
      → register_conn now id s req.host_key req remote l.registry ≡ r
      → Step Sent resolve version l (place s id req r l)
  unfolding place drop
  place-Step s now remote id req none here e = taken s now remote id req here e
  place-Step s now remote id req (some r) here e = placed s now remote id req r here e

  enter_at-Step :
      (s now : ℕ) (remote : Str) (p : Option Phase)
      → lookup s l.conns ≡ p
      → Step Sent resolve version l (enter_at s now remote p l)
  unfolding enter_at
  enter_at-Step s now remote none e = waits
  enter_at-Step s now remote (some registering) e = waits
  enter_at-Step s now remote (some (answered id req)) e =
      place-Step s now remote id req (register_conn now id s req.host_key req remote l.registry) e
        refl
  enter_at-Step s now remote (some (serving id req)) e = waits

  close_at-Step :
      (s : ℕ) (p : Option Phase)
      → lookup s l.conns ≡ p
      → Step Sent resolve version l (close_at s p l)
  unfolding close_at
  close_at-Step s none e = waits
  close_at-Step s (some registering) e = waits
  close_at-Step s (some (answered id req)) e = waits
  close_at-Step s (some (serving id req)) e = closed s id req e

  -- The code's step is one of the rules.
  pub step-Step :
      (e : Event) → Brings Sent e → Step Sent resolve version l (step resolve version e l)
  unfolding step
  step-Step accepts b = accept-Step
  step-Step (no_session s) b = fail-Step s (lookup s l.conns) refl
  step-Step (registers s req writes) b = answer_at-Step s req writes (lookup s l.conns) b refl
  step-Step (enters s now remote) b = enter_at-Step s now remote (lookup s l.conns) refl
  step-Step (closes s) b = close_at-Step s (lookup s l.conns) refl

-- No event brings a request but those of `Sent`.
abbrev pub AllBring : (ℕ → RegisterRequest → Type 0) → List Event → Type 0
AllBring Sent [] = Unit
AllBring Sent (e ∷ es) = Brings Sent e × AllBring Sent es

-- A property that every rule keeps holds at the end of a run.
pub run-keeps :
    (Sent : ℕ → RegisterRequest → Type 0) (resolve : TokenResolver) (version : Str)
    (P : Listener → Type 0)
    → ((l l' : Listener) → Step Sent resolve version l l' → P l → P l')
    → (es : List Event) (l : Listener) → AllBring Sent es
    → P l
    → P (run resolve version es l)
unfolding run
run-keeps Sent resolve version P keep [] l b h = h
run-keeps Sent resolve version P keep (e ∷ es) l (b, bs) h =
    run-keeps Sent resolve version P keep es (step resolve version e l) bs
      (keep l (step resolve version e l) (step-Step Sent resolve version l e b) h)

-- The requests that the events bring.
abbrev pub InRun : List Event → ℕ → RegisterRequest → Type 0
InRun es s req = (writes : Bool) × In (registers s (some req) writes) es

pub Brings-any : (e : Event) → Brings (λ s req. Unit) e
Brings-any accepts = tt
Brings-any (no_session s) = tt
Brings-any (registers s req writes) = λ q e. tt
Brings-any (enters s now remote) = tt
Brings-any (closes s) = tt

pub AllBring-any : (es : List Event) → AllBring (λ s req. Unit) es
AllBring-any [] = tt
AllBring-any (e ∷ es) = (Brings-any e, AllBring-any es)
