-- ===== src/Control/Distinct.antt =====
-- One tunnel for each backend: the registry of internal/control/registry.go over any run of the hub.
use mathlib.Core.Option.{none-ne-some, some-injective}
use sshhub.Base.{
  ℕ, ◌≡◌, sym, subst, List, [], ◌∷◌, Option, some, ◌==◌, nat_eq, Bool-cases, Option-cases, inl, inr,
}
use sshhub.Base.Dict.{lookup, Distinct, Distinct-insert, Distinct-erase}
use sshhub.Text.{Str, str_eq}
use sshhub.Control.Registry.{Registry, RegisterRequest, register_conn, unregister}
use sshhub.Control.Server.{
  TokenResolver, Hub, Arrival, Event, arrives, closes, enter, begin_conn, end_conn, step, run,
  register,
}
use sshhub.Control.Tunnels.{enter-cases}

register_conn-Distinct :
    (now s : ℕ) (backend host_key remote : Str) (req : RegisterRequest) (r r' : Registry)
    → register_conn now backend s host_key req remote r ≡ some r'
    → Distinct r
    → Distinct r'
unfolding register_conn
register_conn-Distinct now s backend host_key remote req r r' h d =
    elim (Option-cases (lookup backend r)) [
      | inr (c, taken) ↦ absurd (none-ne-some r' (rw (taken, register_conn) at h))
      | inl free ↦
          subst Distinct (some-injective _ r' (rw (free, register_conn) at h))
            (Distinct-insert backend _ r d)
    ]

enter-Distinct :
    (a : Arrival) (req : Option RegisterRequest) (to : Option Str) (h : Hub)
    → Distinct h.registry
    → Distinct (enter a req to h).registry
enter-Distinct a req to h d = elim (enter-cases a req to h) [
  | inl same ↦ subst (λ (x : Hub). Distinct x.registry) (sym same) d
  | inr (id, q, r, _, _, e, new) ↦
      subst (λ (x : Hub). Distinct x.registry) (sym new)
        (register_conn-Distinct a.now a.session id q.host_key a.remote_addr q h.registry r e d)
]

unregister-Distinct : (id : Str) (s : ℕ) (r : Registry) → Distinct r → Distinct (unregister id s r)
unfolding unregister
unregister-Distinct id s r d = elim (Option-cases (lookup id r)) [
  | inl e ↦ rw (e, unregister) d
  | inr (cur, e) ↦ elim (Bool-cases (cur.session == s)) [
    | inl own ↦ rw (e, own, unregister) (Distinct-erase id r d)
    | inr other ↦ rw (e, other, unregister) d
  ]
]

-- A backend has one tunnel at most, in any run of the hub.
pub run-Distinct :
    (resolve : TokenResolver) (version : Str) (es : List Event) (h : Hub)
    → Distinct h.registry
    → Distinct (run resolve version es h).registry
unfolding run step begin_conn end_conn
run-Distinct resolve version [] h d = d
run-Distinct resolve version (arrives a ∷ es) h d =
    run-Distinct resolve version es (begin_conn resolve version a h)
      (enter-Distinct a a.request (register resolve version a.writes a.request).1 h d)
run-Distinct resolve version (closes s id ∷ es) h d =
    run-Distinct resolve version es (end_conn s id h) (unregister-Distinct id s h.registry d)
