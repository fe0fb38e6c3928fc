-- ===== src/Config/Validate/Grants.antt =====
-- The ids that a configuration accepted by `Config.Validate` of internal/config/config.go refers to.
use sshhub.Base.Results.{ok, err-ne-ok, from_ok, bind_inv, reject_if_inv, not-false}
use sshhub.Base.{
  ℕ, suc, ◌≡◌, sym, subst, true, not, ◌&&◌, ◌||◌, List, [], ◌∷◌, Option, some, arith, ◌==◌, ==_iff,
  contains, Bool-cases, Option-cases, In, ◌⊎◌, inl, inr,
}
use sshhub.Base.Int.{ℤ}
use sshhub.Text.{Str, codes, is_empty, contains_any, has_prefix, str_eq}
use sshhub.Config.{Backend, Config, Route, JumpUser}
use sshhub.Config.Lookup.{backend_by_id}
use sshhub.Config.Validate.{
  Seen, none_seen, ParsedKey, no_items, check_routes, check_route, check_grants, check_keys,
  check_users, normalize, validate, no_route_backend, unknown_route_backend, bad_end_user,
  user_needs_name,
}
use sshhub.Config.Validate.Backends.{Checked}
use sshhub.Config.Validate.Entries.{contains-more}
use sshhub.Config.Validate.Names.{validate-Accepted}

-- Some backend has the id.
abbrev pub Resolves : List Backend → Str → Type 0
Resolves bs id = (b : Backend) × (backend_by_id bs id ≡ some b)

Resolves-cons : (x : Backend) (bs : List Backend) (id : Str) → Resolves bs id → Resolves (x ∷ bs) id
unfolding backend_by_id
Resolves-cons x bs id (b, e) = elim (Bool-cases (x.id == id)) [
  | inl same ↦ (x, ground arith)
  | inr other ↦ (b, ground arith)
]

Checked-Resolves :
    (bs : List Backend) (s s' : Seen) (id : Str)
    → Checked bs s s'
    → contains s'.ids id ≡ true
    → (contains s.ids id ≡ true) ⊎ Resolves bs id
unfolding Checked backend_by_id
Checked-Resolves [] s s' id h e = inl (subst (λ (x : Seen). contains x.ids id ≡ true) (sym h) e)
Checked-Resolves (x ∷ bs) s s' id (mid, p, rest) e = elim (Checked-Resolves bs mid s' id rest e) [
  | inr later ↦ inr (Resolves-cons x bs id later)
  | inl known ↦ elim (Bool-cases (id == x.id)) [
    | inl same ↦ inr (x, ground (arith, (==_iff id x.id).0 same))
    | inr other ↦ inl (ground (arith, contains-more x s mid p id))
  ]
]

-- A route that passes keeps its backend, which is known, and has its match filled in.
check_route-known :
    (i : ℕ) (r r' : Route) (ids : List Str)
    → check_route i r ids ≡ ok r'
    → (contains ids r'.backend ≡ true) × (r' ≡ normalize r)
unfolding check_route normalize
check_route-known i r r' ids h =
    let (_, h1) = reject_if_inv (is_empty r.backend) (no_route_backend i) _ h in
    let (known, h2) =
      reject_if_inv (not (contains ids r.backend)) (unknown_route_backend i r.backend) _ h1 in
    let (_, h3) =
      reject_if_inv
        (not (is_empty r.end_user)
          && (contains_any r.end_user (codes " \t\n/:,") || has_prefix r.end_user (codes "-")))
        (bad_end_user i r.end_user) _ h2 in
    let same : normalize r ≡ r' = from_ok h3 in
    (subst (λ (x : Route). contains ids x.backend ≡ true) same (not-false _ known), sym same)

check_routes-known :
    (i : ℕ) (rs rs' : List Route) (ids : List Str) (r : Route)
    → check_routes i rs ids ≡ ok rs'
    → In r rs'
    → contains ids r.backend ≡ true
unfolding check_routes
check_routes-known i [] rs' ids r h here = absurd (subst (In r) (sym (from_ok h)) here)
check_routes-known i (x ∷ rs) rs' ids r h here =
    let (x', one, h1) = bind_inv (check_route i x ids) _ h in
    let (more, rest, h2) = bind_inv (check_routes (suc i) rs ids) _ h1 in
    elim (subst (In r) (sym (from_ok h2)) here) [
      | inl e ↦
          subst (λ (y : Route). contains ids y.backend ≡ true) (sym e)
            (check_route-known i x x' ids one).0
      | inr later ↦ check_routes-known (suc i) rs more ids r rest later
    ]

check_grants-Resolves :
    (bs : List Backend) (name : Str) (ids : List Str) (id : Str)
    → check_grants bs name ids ≡ ok tt
    → contains ids id ≡ true
    → Resolves bs id
unfolding check_grants contains
check_grants-Resolves bs name [] id h e = absurd (cc)
check_grants-Resolves bs name (x ∷ ids) id h e = elim (Option-cases (backend_by_id bs x)) [
  | inl unknown ↦ absurd (err-ne-ok (rw (unknown, check_grants) at h))
  | inr (b, found) ↦ elim (Bool-cases (id == x)) [
    | inl same ↦ (b, subst (λ y. backend_by_id bs y ≡ some b) (sym ((==_iff id x).0 same)) found)
    | inr other ↦
        check_grants-Resolves bs name ids id (rw (found, check_grants) at h) (rw other at e)
  ]
]

check_users-Resolves :
    (parse_key : Str → Option ParsedKey) (parse_duration : Str → Option ℤ) (bs : List Backend)
    (us : List JumpUser) (seen : List Str) (u : JumpUser) (id : Str)
    → check_users parse_key parse_duration bs us seen ≡ ok tt
    → In u us
    → contains u.backends id ≡ true
    → Resolves bs id
unfolding check_users
check_users-Resolves pk pd bs [] seen u id h here e = absurd here
check_users-Resolves pk pd bs (x ∷ us) seen u id h here e =
    let (_, h1) =
      reject_if_inv (is_empty x.name || (contains seen x.name || no_items x.backends))
        user_needs_name _ h in
    let (_, _, h2) = bind_inv (check_keys pk pd x.name x.keys) _ h1 in
    let (_, granted, h3) = bind_inv (check_grants bs x.name x.backends) _ h2 in
    elim here [
      | inl same ↦
          check_grants-Resolves bs x.name x.backends id granted
            (subst (λ (y : JumpUser). contains y.backends id ≡ true) same e)
      | inr later ↦ check_users-Resolves pk pd bs us (x.name ∷ seen) u id h3 later e
    ]

-- A configuration that `Validate` accepts refers to no backend that is not there: the backend of each
-- route, and each grant of a jump user, is the id of a configured backend.
pub validate-Resolves :
    (parse_key : Str → Option ParsedKey) (parse_duration : Str → Option ℤ) (c c' : Config)
    → validate parse_key parse_duration c ≡ ok c'
    → ((r : Route) → In r c'.routes → Resolves c'.backends r.backend)
      × ((u : JumpUser) (id : Str)
          → In u c'.jump_users
          → contains u.backends id ≡ true
          → Resolves c'.backends id)
unfolding contains
validate-Resolves pk pd c c' h =
    let a = validate-Accepted pk pd c c' h in
    subst
      (λ (x : Config).
        ((r : Route) → In r x.routes → Resolves x.backends r.backend)
        × ((u : JumpUser) (id : Str)
            → In u x.jump_users
            → contains u.backends id ≡ true
            → Resolves x.backends id))
      a.result
      (
        λ r here.
            elim (Checked-Resolves c.backends none_seen a.seen r.backend a.checked
              (check_routes-known 0 c.routes a.new_routes a.seen.ids r a.routes here)) [
                | inl e ↦ absurd (cc)
                | inr found ↦ found
              ],
        λ u id here e. check_users-Resolves pk pd c.backends c.jump_users [] u id a.users here e,
      )
