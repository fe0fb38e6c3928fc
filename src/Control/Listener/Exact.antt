-- ===== src/Control/Listener/Exact.antt =====
-- The registry of internal/control over any interleaving of the goroutines of internal/control/server.go.
use mathlib.Core.Option.{none-ne-some, some-injective}
use sshhub.Base.{
  ℕ, suc, ◌≤◌, ◌<◌, ◌≡◌, refl, sym, subst, ◌∙◌, List, none, some, ◌==◌, ==_iff, nat_eq, eq_self,
  Bool-cases, Option-cases, inl, inr, arith,
}
use sshhub.Base.Dict.{
  lookup, insert, erase, lookup-insert, lookup-erase, length-insert, length-insert_old,
  length-erase,
}
use sshhub.Text.{Str, str_eq}
use sshhub.Control.Registry.{Registry, RegisterRequest, Connection, register_conn, unregister}
use sshhub.Control.Server.{TokenResolver}
use sshhub.Control.Tunnels.{register_conn-lookup, unregister-lookup}
use sshhub.Control.Listener.{slots, Phase, registering, answered, serving, Listener, Event, run}
use sshhub.Control.Listener.Steps.{
  Step, waits, crowded, accepted, refused, granted, taken, placed, closed, AllBring-any, run-keeps,
}
use sshhub.Control.Listener.Silent.{IsExact, erase-IsExact, insert-IsExact}

register_conn-owner :
    (now s : ℕ) (backend host_key remote : Str) (req : RegisterRequest) (r r' : Registry)
    → register_conn now backend s host_key req remote r ≡ some r'
    → (c : Connection) × (lookup backend r' ≡ some c) × (c.session ≡ s)
unfolding register_conn
register_conn-owner now s backend host_key remote req r r' h =
    elim (Option-cases (lookup backend r)) [
      | inr (c, e) ↦ absurd (none-ne-some r' (rw (e, register_conn) at h))
      | inl free ↦
          let entry : Connection = record {
            session = s;
            host_key = host_key;
            version = req.version;
            os = req.os;
            arch = req.arch;
            connected_at = now;
            remote_addr = remote;
          } in
          let result : insert backend entry r ≡ r' =
            some-injective _ r' (rw (free, register_conn) at h) in
          (
            entry,
            subst (λ x. lookup backend x ≡ some entry) result
                (lookup-insert backend backend entry r ∙ rw (eq_self backend) refl),
            refl,
          )
    ]

-- The backend and the request of a connection that serves.
serving-same : (a b : Str) (p q : RegisterRequest) → some (serving a p) ≡ some (serving b q) → a ≡ b
serving-same a b p q e = cc

placed-IsExact :
    (l : Listener) (s now : ℕ) (remote id : Str) (req : RegisterRequest) (r : Registry)
    → lookup s l.conns ≡ some (answered id req)
    → register_conn now id s req.host_key req remote l.registry ≡ some r
    → IsExact l
    → IsExact (record { registry = r; conns = insert s (serving id req) l.conns; next = l.next })
placed-IsExact l s now remote id req r here e h =
    let (free, entries, keeps) =
      register_conn-lookup now s id req.host_key remote req l.registry r e in
    record {
      owned = λ other c found. elim (entries other c found) [
        | inl (same, own) ↦
            (req, ground (arith, same, own, lookup-insert c.session s (serving id req) l.conns))
        | inr old ↦
            let (q, serves) = h.owned other c old in
            (q, ground (arith, here, serves, lookup-insert c.session s (serving id req) l.conns))
      ];
      entered = λ t other q found. elim (Bool-cases (t == s)) [
        | inl same ↦
            let it : some (serving id req) ≡ some (serving other q) =
              rw same at (sym (lookup-insert t s (serving id req) l.conns) ∙ found) in
            let (c, owner, own) =
              register_conn-owner now s id req.host_key remote req l.registry r e in
            (
              c,
              subst (λ x. lookup x r ≡ some c) (serving-same id other req q it) owner,
              own ∙ sym ((==_iff t s).0 same),
            )
        | inr apart ↦
            let (c, old, own) =
              h.entered t other q (ground (arith, lookup-insert t s (serving id req) l.conns)) in
            (c, keeps other c old, own)
      ];
      fresh = λ t p found. elim (Bool-cases (t == s)) [
        | inl same ↦
            subst (λ x. x < l.next) (sym ((==_iff t s).0 same)) (h.fresh s (answered id req) here)
        | inr apart ↦ h.fresh t p (ground (arith, lookup-insert t s (serving id req) l.conns))
      ];
      bounded =
          subst (λ n. n ≤ slots)
            (sym (length-insert_old s (serving id req) (answered id req) l.conns here)) h.bounded;
    }

closed-IsExact :
    (l : Listener) (s : ℕ) (id : Str) (req : RegisterRequest)
    → lookup s l.conns ≡ some (serving id req)
    → IsExact l
    → IsExact
        (record { registry = unregister id s l.registry; conns = erase s l.conns; next = l.next })
closed-IsExact l s id req here h = record {
  owned = λ other c found.
      let (old, apart) = (unregister-lookup id other s l.registry c).0 found in
      let (q, serves) = h.owned other c old in
      elim (Bool-cases (c.session == s)) [
        | inr elsewhere ↦ (q, ground (arith, lookup-erase c.session s l.conns))
        | inl own ↦
            let same : c.session ≡ s = (==_iff c.session s).0 own in
            absurd (
              apart
                (serving-same other id q req (
                  sym serves
                  ∙ subst (λ x. lookup x l.conns ≡ some (serving id req)) (sym same) here))
                same)
      ];
  entered = λ t other q found. elim (Bool-cases (t == s)) [
    | inl same ↦ absurd (none-ne-some (serving other q) (ground (arith, lookup-erase t s l.conns)))
    | inr apart ↦
        let (c, old, own) = h.entered t other q (ground (arith, lookup-erase t s l.conns)) in
        (c, (unregister-lookup id other s l.registry c).1 (old, λ e f. ground (arith, own)), own)
  ];
  fresh = λ t p found. h.fresh t p (ground (arith, lookup-erase t s l.conns));
  bounded = omega (arith, length-erase s l.conns, h.bounded);
}

pub Step-IsExact :
    {Sent : ℕ → RegisterRequest → Type 0} {resolve : TokenResolver} {version : Str}
    (l l' : Listener)
    → Step Sent resolve version l l'
    → IsExact l
    → IsExact l'
Step-IsExact l l' waits h = h
Step-IsExact l l' (crowded full) h = record {
  owned = h.owned;
  entered = h.entered;
  fresh = λ t p e. older t p e;
  bounded = h.bounded;
}
  where
    older : (t : ℕ) (p : Phase) → lookup t l.conns ≡ some p → t < suc l.next
    older t p e = omega (arith, h.fresh t p e)
Step-IsExact l l' (accepted free) h =
    insert-IsExact l.registry l.conns l.next (suc l.next) l.next registering
      (λ id req e. absurd (omega (arith, h.fresh l.next (serving id req) e))) tt (omega arith)
      (omega arith) (ground (arith, free, length-insert l.next registering l.conns)) h
Step-IsExact l l' (refused s here) h =
    erase-IsExact l.registry l.conns l.next s registering here tt h
Step-IsExact l l' (granted s id req here sent speaks) h =
    insert-IsExact l.registry l.conns l.next l.next s (answered id req) (λ other q e. cc) tt
      (h.fresh s registering here) (omega arith)
      (subst (λ n. n ≤ slots) (sym (length-insert_old s (answered id req) registering l.conns here))
        h.bounded)
      h
Step-IsExact l l' (taken s now remote id req here full) h =
    erase-IsExact l.registry l.conns l.next s (answered id req) here tt h
Step-IsExact l l' (placed s now remote id req r here e) h =
    placed-IsExact l s now remote id req r here e h
Step-IsExact l l' (closed s id req here) h = closed-IsExact l s id req here h

pub next-fresh : (l : Listener) → IsExact l → lookup l.next l.conns ≡ none
next-fresh l h = elim (Option-cases (lookup l.next l.conns)) [
  | inl free ↦ free
  | inr (p, e) ↦ absurd (omega (arith, h.fresh l.next p e))
]

-- However the goroutines of the hub's connections interleave: the tunnels of the registry are exactly
-- the connections that wait for their session to close, each under the backend that it serves; no
-- session is given twice; and there are not more connections than the 256 slots.
pub run-IsExact :
    (resolve : TokenResolver) (version : Str) (es : List Event) (l : Listener)
    → IsExact l
    → IsExact (run resolve version es l)
run-IsExact resolve version es l h =
    run-keeps (λ s req. Unit) resolve version IsExact Step-IsExact es l (AllBring-any es) h
