-- ===== src/Control/Listener/Silent.antt =====
-- Steps of internal/control/server.go that touch no tunnel: the connection neither begins nor ends to
-- serve.
use mathlib.Core.Option.{some-injective}
use sshhub.Base.{
  ℕ, ◌≤◌, ◌<◌, ◌≡◌, ◌↔◌, sym, subst, ◌∙◌, some, length, ◌==◌, ==_iff, nat_eq, Bool-cases, inl, inr,
  arith,
}
use sshhub.Base.Dict.{Dict, lookup, insert, erase, lookup-insert, lookup-erase, length-erase}
use sshhub.Text.{Str, str_eq}
use sshhub.Control.Registry.{Registry, RegisterRequest, Connection}
use sshhub.Control.Listener.{slots, Phase, registering, answered, serving, Listener}

-- The tunnels are those of the connections that serve; a connection that comes has a new session, and
-- not more connections than slots are there.
pub record IsExact (l : Listener) : Type 0 where
  pub owned :
      (id : Str) (c : Connection)
      → lookup id l.registry ≡ some c
      → (req : RegisterRequest) × (lookup c.session l.conns ≡ some (serving id req))
  pub entered :
      (s : ℕ) (id : Str) (req : RegisterRequest)
      → lookup s l.conns ≡ some (serving id req)
      → (c : Connection) × (lookup id l.registry ≡ some c) × (c.session ≡ s)
  pub fresh : (s : ℕ) (p : Phase) → lookup s l.conns ≡ some p → s < l.next
  pub bounded : length l.conns ≤ slots

-- Where no connection begins or ends to serve.
still :
    (r : Registry) (cs cs' : Dict ℕ Phase) (n n' : ℕ)
    → ((s : ℕ) (id : Str) (req : RegisterRequest)
        → (lookup s cs' ≡ some (serving id req)) ↔ (lookup s cs ≡ some (serving id req)))
    → ((s : ℕ) (p : Phase) → lookup s cs' ≡ some p → s < n')
    → length cs' ≤ slots
    → IsExact (record { registry = r; conns = cs; next = n })
    → IsExact (record { registry = r; conns = cs'; next = n' })
still r cs cs' n n' same young few h = record {
  owned = λ id c e. let (req, here) = h.owned id c e in (req, (same c.session id req).1 here);
  entered = λ s id req e. h.entered s id req ((same s id req).0 e);
  fresh = young;
  bounded = few;
}

-- Phases in which a connection does not serve.
abbrev pub NotServing : Phase → Type 0
NotServing (serving id req) = ⊥
NotServing _ = Unit

serving_apart :
    (p : Phase) (id : Str) (req : RegisterRequest) → NotServing p → p ≡ serving id req → ⊥
serving_apart registering id req n e = cc
serving_apart (answered a q) id req n e = cc
serving_apart (serving a q) id req n e = n

pub erase-IsExact :
    (r : Registry) (cs : Dict ℕ Phase) (n s : ℕ) (p : Phase)
    → lookup s cs ≡ some p
    → NotServing p
    → IsExact (record { registry = r; conns = cs; next = n })
    → IsExact (record { registry = r; conns = erase s cs; next = n })
erase-IsExact r cs n s p here idle h =
    still r cs (erase s cs) n n
      (λ t id req. (
        λ e. ground (arith, lookup-erase t s cs),
        λ e. elim (Bool-cases (t == s)) [
          | inr other ↦ ground (arith, lookup-erase t s cs)
          | inl same ↦ absurd (
              serving_apart p id req idle (
                some-injective p (serving id req) (
                  sym here
                  ∙ subst (λ x. lookup x cs ≡ some (serving id req)) ((==_iff t s).0 same) e)))
        ],
      ))
      (λ t q e. h.fresh t q (ground (arith, lookup-erase t s cs)))
      (omega (arith, length-erase s cs, h.bounded)) h

-- A connection goes from a phase to another, and serves in neither.
pub insert-IsExact :
    (r : Registry) (cs : Dict ℕ Phase) (n n' s : ℕ) (p : Phase)
    → ((id : Str) (req : RegisterRequest) → lookup s cs ≡ some (serving id req) → ⊥)
    → NotServing p
    → s < n'
    → n ≤ n'
    → length (insert s p cs) ≤ slots
    → IsExact (record { registry = r; conns = cs; next = n })
    → IsExact (record { registry = r; conns = insert s p cs; next = n' })
insert-IsExact r cs n n' s p before after young grows few h =
    still r cs (insert s p cs) n n'
      (λ t id req. elim (Bool-cases (t == s)) [
        | inr other ↦ (
          λ e. ground (arith, lookup-insert t s p cs),
          λ e. ground (arith, lookup-insert t s p cs),
        )
        | inl same ↦ (
          λ e. absurd (
              serving_apart p id req after (
                some-injective p (serving id req) (rw same at (sym (lookup-insert t s p cs) ∙ e)))),
          λ e. absurd (
              before id req
                (subst (λ x. lookup x cs ≡ some (serving id req)) ((==_iff t s).0 same) e)),
        )
      ])
      (λ t q e. elim (Bool-cases (t == s)) [
        | inl same ↦ ground (arith, young)
        | inr other ↦
            let old : t < n = h.fresh t q (ground (arith, lookup-insert t s p cs)) in omega arith
      ])
      few h
