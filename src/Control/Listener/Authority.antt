-- ===== src/Control/Listener/Authority.antt =====
-- Who stands behind the tunnels of internal/control: the requests that internal/control/server.go
-- answered.
use mathlib.Core.Option.{some-injective}
use sshhub.Base.{
  ℕ, ◌≡◌, refl, sym, subst, ◌∙◌, true, false, List, [], ◌∷◌, some, ◌==◌, ==_iff, nat_eq, Bool-cases,
  In, inl, inr, arith,
}
use sshhub.Base.Dict.{Dict, lookup, insert, erase, lookup-insert, lookup-erase}
use sshhub.Text.{Str, is_empty, str_eq}
use sshhub.Control.Registry.{RegisterRequest, Connection}
use sshhub.Control.Server.{TokenResolver, register, transport_name}
use sshhub.Control.Tunnels.{register_iff}
use sshhub.Control.Listener.{
  Phase, registering, answered, serving, Listener, Event, accepts, no_session, registers, enters,
  closes, idle, run,
}
use sshhub.Control.Listener.Steps.{
  Step, waits, crowded, accepted, refused, granted, taken, placed, closed, AllBring, InRun,
  run-keeps,
}
use sshhub.Control.Listener.Silent.{IsExact}
use sshhub.Control.Listener.Exact.{run-IsExact}

module _ (Sent : ℕ → RegisterRequest → Type 0) (resolve : TokenResolver) (version : Str) where
  -- A connection is past its registration by a request of its own that `register` accepts.
  abbrev pub Licensed : ℕ → Phase → Type 0
  Licensed s registering = Unit
  Licensed s (answered id req) =
      Sent s req × ((register resolve version true (some req)).1 ≡ some id)
  Licensed s (serving id req) =
      Sent s req × ((register resolve version true (some req)).1 ≡ some id)

  abbrev pub AllLicensed : Dict ℕ Phase → Type 0
  AllLicensed cs = (s : ℕ) (p : Phase) → lookup s cs ≡ some p → Licensed s p

  insert-AllLicensed :
      (cs : Dict ℕ Phase) (s : ℕ) (p : Phase)
      → Licensed s p
      → AllLicensed cs
      → AllLicensed (insert s p cs)
  insert-AllLicensed cs s p new h t q e = elim (Bool-cases (t == s)) [
    | inr other ↦ h t q (ground (arith, lookup-insert t s p cs))
    | inl same ↦
        let it : p ≡ q = some-injective p q (rw same at (sym (lookup-insert t s p cs) ∙ e)) in
        subst (λ x. Licensed x q) (sym ((==_iff t s).0 same)) (subst (Licensed s) it new)
  ]

  erase-AllLicensed : (cs : Dict ℕ Phase) (s : ℕ) → AllLicensed cs → AllLicensed (erase s cs)
  erase-AllLicensed cs s h t q e = h t q (ground (arith, lookup-erase t s cs))

  pub Step-AllLicensed :
      (l l' : Listener)
      → Step Sent resolve version l l'
      → AllLicensed l.conns
      → AllLicensed l'.conns
  Step-AllLicensed l l' waits h = h
  Step-AllLicensed l l' (crowded full) h = h
  Step-AllLicensed l l' (accepted free) h = insert-AllLicensed l.conns l.next registering tt h
  Step-AllLicensed l l' (refused s here) h = erase-AllLicensed l.conns s h
  Step-AllLicensed l l' (granted s id req here sent good) h =
      insert-AllLicensed l.conns s (answered id req) (sent, good) h
  Step-AllLicensed l l' (taken s now remote id req here full) h = erase-AllLicensed l.conns s h
  Step-AllLicensed l l' (placed s now remote id req r here e) h =
      insert-AllLicensed l.conns s (serving id req) (h s (answered id req) here) h
  Step-AllLicensed l l' (closed s id req here) h = erase-AllLicensed l.conns s h

  -- A tunnel's connection serves, and is licensed.
  pub tunnel-Licensed :
      (l : Listener) (id : Str) (c : Connection)
      → IsExact l
      → AllLicensed l.conns
      → lookup id l.registry ≡ some c
      → (req : RegisterRequest) × Licensed c.session (serving id req)
  tunnel-Licensed l id c exact h found =
      let (req, serves) = exact.owned id c found in (req, h c.session (serving id req) serves)

pub idle-IsExact : IsExact idle
unfolding lookup
idle-IsExact = record {
  owned = λ id c e. absurd (cc);
  entered = λ s id req e. absurd (cc);
  fresh = λ s p e. absurd (cc);
  bounded = omega arith;
}

AllBring-InRun :
    (es all : List Event) → ((e : Event) → In e es → In e all) → AllBring (InRun all) es
AllBring-InRun [] all part = tt
AllBring-InRun (accepts ∷ es) all part = (tt, AllBring-InRun es all (λ e i. part e (inr i)))
AllBring-InRun (no_session s ∷ es) all part = (tt, AllBring-InRun es all (λ e i. part e (inr i)))
AllBring-InRun (registers s req writes ∷ es) all part = (
  λ q e. (
    writes,
    part (registers s (some q) writes)
        (inl (subst (λ x. registers s (some q) writes ≡ registers s x writes) (sym e) refl)),
  ),
  AllBring-InRun es all (λ e i. part e (inr i)),
)
AllBring-InRun (enters s now remote ∷ es) all part =
    (tt, AllBring-InRun es all (λ e i. part e (inr i)))
AllBring-InRun (closes s ∷ es) all part = (tt, AllBring-InRun es all (λ e i. part e (inr i)))

-- However the goroutines interleave, a hub that starts with no tunnel has a tunnel for a backend only
-- over a session on which an agent itself sent a request with a token, in the hub's transport, that the
-- resolver gives this backend for.
pub run-authorized :
    (resolve : TokenResolver) (version : Str) (es : List Event) (id : Str) (c : Connection)
    → lookup id (run resolve version es idle).registry ≡ some c
    → (req : RegisterRequest) × InRun es c.session req
      × (is_empty req.token ≡ false)
      × (req.transport ≡ transport_name)
      × (resolve req.token req.backend ≡ some id)
unfolding lookup
run-authorized resolve version es id c found =
    let exact = run-IsExact resolve version es idle idle-IsExact in
    let licensed =
      run-keeps (InRun es) resolve version
        (λ (l : Listener). AllLicensed (InRun es) resolve version l.conns)
        (Step-AllLicensed (InRun es) resolve version) es idle (AllBring-InRun es es (λ e i. i))
        (λ s p e. absurd (cc)) in
    let (req, (sent, good)) =
      tunnel-Licensed (InRun es) resolve version (run resolve version es idle) id c exact licensed
        found in
    let (full, speaks, resolves, _) = (register_iff resolve version true req id).0 good in
    (req, sent, full, speaks, resolves)
