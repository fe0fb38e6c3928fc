-- ===== src/Proxy/Access.antt =====
-- Who gets through internal/proxy/proxy.go, and where to.
use sshhub.Base.{
  ℕ, ◌≡◌, refl, sym, ap, subst, ◌∙◌, Bool, true, ◌&&◌, List, [], ◌∷◌, Option, none, some, arith,
  ◌==◌, ==_iff, nat_eq, contains, Bool-cases, Option-cases, In, ◌⊎◌, inl, inr, ◌↔◌,
}
use sshhub.Base.Dict.{lookup}
use sshhub.Text.{Str, str_eq}
use sshhub.Config.{JumpUser, Backend, Config}
use sshhub.Config.Lookup.{backend_by_name}
use sshhub.Config.Validate.{ParsedKey, no_items}
use sshhub.RateLimit.{Limiter, Handle}
use sshhub.Control.Registry.{Registry, Connection, open_stream}
use sshhub.Proxy.{
  is_open_jump_user, key_matches, any_key, authorize, passes_gate, handle, bridged, Payload,
  is_granted, open_backend, forward,
}

-- The key is the one of an entry of the user's list.
abbrev pub HasKey : (Str → Option ParsedKey) → JumpUser → Str → Type 0
HasKey parse_key u key =
    (text : Str) × (k : ParsedKey) × In text u.keys × (parse_key text ≡ some k) × (k.wire ≡ key)

key_matches-inv :
    (parse_key : Str → Option ParsedKey) (key text : Str)
    → key_matches parse_key key text ≡ true
    → (k : ParsedKey) × (parse_key text ≡ some k) × (k.wire ≡ key)
unfolding key_matches
key_matches-inv parse_key key text h = elim (Option-cases (parse_key text)) [
  | inl e ↦ absurd (ground arith)
  | inr (k, e) ↦ (k, e, ground arith)
]

any_key-inv :
    (parse_key : Str → Option ParsedKey) (key : Str) (keys : List Str)
    → any_key parse_key key keys ≡ true
    → (text : Str) × (k : ParsedKey) × In text keys × (parse_key text ≡ some k) × (k.wire ≡ key)
unfolding any_key
any_key-inv parse_key key [] h = absurd (cc)
any_key-inv parse_key key (text ∷ keys) h = elim (Bool-cases (key_matches parse_key key text)) [
  | inl this ↦ let (k, e, w) = key_matches-inv parse_key key text this in (text, k, inl refl, e, w)
  | inr other ↦
      let (t, k, i, e, w) = any_key-inv parse_key key keys (ground arith) in (t, k, inr i, e, w)
]

-- What is relied on of `ssh.NewServerConn`: the permissions that it returns are those that the callback
-- for public keys gave for a key that the client holds.
pub record FromCallback (parse_key : Str → Option ParsedKey) (us : List JumpUser) (user : Str)
    (holds : Str → Type 0) (outcome : Option (Option Str)) : Type 0 where
  pub given :
      (p : Str)
      → outcome ≡ some (some p)
      → (key : Str) × holds key × (authorize parse_key us user key ≡ some p)

-- A user of the name that is open, or whose list has a key that the client holds.
abbrev pub MayEnter : (Str → Option ParsedKey) → List JumpUser → Str → (Str → Type 0) → Type 0
MayEnter parse_key us user holds =
    (u : JumpUser) × In u us
    × (u.name ≡ user)
    × ((u.keys ≡ []) ⊎ ((key : Str) × holds key × HasKey parse_key u key))

no_items-nil : {A : Type 0} (xs : List A) → no_items xs ≡ true → xs ≡ []
no_items-nil [] h = refl
no_items-nil (x ∷ xs) h = cc

authorize-MayEnter :
    (parse_key : Str → Option ParsedKey) (us : List JumpUser) (user key p : Str)
    (holds : Str → Type 0)
    → holds key
    → authorize parse_key us user key ≡ some p
    → MayEnter parse_key us user holds
unfolding authorize
authorize-MayEnter parse_key [] user key p holds held h = absurd (cc)
authorize-MayEnter parse_key (u ∷ us) user key p holds held h = elim (Bool-cases (u.name == user)) [
  | inr other ↦
      let (v, i, e, c) = authorize-MayEnter parse_key us user key p holds held (rw other at h) in
      (v, inr i, e, c)
  | inl same ↦ elim (Bool-cases (no_items u.keys)) [
    | inl none_needed ↦
        (u, inl refl, (==_iff u.name user).0 same, inl (no_items-nil u.keys none_needed))
    | inr needed ↦ elim (Bool-cases (any_key parse_key key u.keys)) [
      | inl has ↦ (
        u,
        inl refl,
        (==_iff u.name user).0 same,
        inr (key, held, any_key-inv parse_key key u.keys has),
      )
      | inr has_not ↦
          let (v, i, e, c) = authorize-MayEnter parse_key us user key p holds held (ground arith) in
          (v, inr i, e, c)
    ]
  ]
]

is_open_jump_user-MayEnter :
    (parse_key : Str → Option ParsedKey) (us : List JumpUser) (user : Str) (holds : Str → Type 0)
    → is_open_jump_user us user ≡ true
    → MayEnter parse_key us user holds
unfolding is_open_jump_user
is_open_jump_user-MayEnter parse_key [] user holds h = absurd (cc)
is_open_jump_user-MayEnter parse_key (u ∷ us) user holds h = elim (Bool-cases (u.name == user)) [
  | inr other ↦
      let (v, i, e, c) = is_open_jump_user-MayEnter parse_key us user holds (rw other at h) in
      (v, inr i, e, c)
  | inl same ↦ (u, inl refl, (==_iff u.name user).0 same, inl (no_items-nil u.keys (rw same at h)))
]

-- The hub serves a client's channels only if the client names a jump user that needs no key, or holds
-- a key that stands in the list of a user of that name: that another user is open does not help. It is
-- so for every handshake whose permissions, if it has any, come from the callback.
pub handle-MayEnter :
    (parse_key : Str → Option ParsedKey) (us : List JumpUser) (user : Str) (holds : Str → Type 0)
    (outcome : Option (Option Str)) (release : Handle) (k : Str) (now : ℕ) (l : Limiter)
    → FromCallback parse_key us user holds outcome
    → (handle us user outcome release k now l).0 ≡ true
    → MayEnter parse_key us user holds
unfolding handle passes_gate
handle-MayEnter parse_key us user holds none release k now l law h = absurd (cc)
handle-MayEnter parse_key us user holds (some none) release k now l law h =
    is_open_jump_user-MayEnter parse_key us user holds (ground arith)
handle-MayEnter parse_key us user holds (some (some p)) release k now l law h =
    let (key, held, e) = law.given p refl in authorize-MayEnter parse_key us user key p holds held e

-- Some jump user of the name was granted the backend.
abbrev pub Granted : List JumpUser → Str → Str → Type 0
Granted us user id = (u : JumpUser) × In u us × (u.name ≡ user) × (contains u.backends id ≡ true)

is_granted_iff :
    (us : List JumpUser) (user id : Str) → (is_granted us user id ≡ true) ↔ Granted us user id
unfolding is_granted
is_granted_iff [] user id = (λ h. absurd (cc), λ (u, i, _, _). absurd i)
is_granted_iff (u ∷ us) user id = (
  λ h. elim (Bool-cases (u.name == user && contains u.backends id)) [
    | inl this ↦ (u, inl refl, ground arith, ground arith)
    | inr other ↦
        let (v, i, n, c) = (is_granted_iff us user id).0 (ground arith) in (v, inr i, n, c)
  ],
  λ (v, i, n, c). elim i [
    | inl e ↦
        let named : u.name ≡ user = sym (ap (λ (x : JumpUser). x.name) e) ∙ n in
        let has : contains u.backends id ≡ true =
          subst (λ (x : JumpUser). contains x.backends id ≡ true) e c in
        ground (arith, named, has)
    | inr later ↦ ground (arith, (is_granted_iff us user id).1 (v, later, n, c))
  ],
)

-- The backend has a tunnel, and a stream of it.
abbrev pub Reachable : (ℕ → Bool) → Registry → Str → ℕ → Type 0
Reachable opens registry id s =
    (c : Connection) × (lookup id registry ≡ some c) × (c.session ≡ s) × (opens s ≡ true)

open_backend_iff :
    (cfg : Config) (opens : ℕ → Bool) (registry : Registry) (to : Str) (accepts : Bool) (id : Str)
    (s : ℕ)
    → (open_backend cfg opens registry to accepts ≡ bridged id s)
      ↔ ((to ≡ id) × Reachable opens registry to s × (accepts ≡ true))
unfolding open_backend open_stream
open_backend_iff cfg opens registry to accepts id s = (
  λ h. elim (Option-cases (lookup to registry)) [
    | inl e ↦ absurd (ground arith)
    | inr (c, e) ↦ (ground arith, (c, e, ground arith, ground arith), ground arith)
  ],
  λ (same, (c, e, session, fine), taken). ground arith,
)

-- The client reaches a backend exactly over port 22 of a name that the configuration resolves to a
-- backend that was granted to the client's user, if that backend has a tunnel, yamux opens a stream on
-- it, and the client's channel is accepted; the stream is on that backend's own session.
pub forward_iff :
    (cfg : Config) (opens : ℕ → Bool) (registry : Registry) (user : Str) (p : Payload)
    (accepts : Bool) (id : Str) (s : ℕ)
    → (forward cfg opens registry user (some p) accepts ≡ bridged id s) ↔ (
        (p.dest_port ≡ 22)
        × ((b : Backend) × (backend_by_name cfg.backends p.dest_addr ≡ some b)
            × (b.id ≡ id)
            × Granted cfg.jump_users user id)
        × Reachable opens registry id s
        × (accepts ≡ true))
unfolding forward
forward_iff cfg opens registry user p accepts id s = (
  λ h. elim (Option-cases (backend_by_name cfg.backends p.dest_addr)) [
    | inl e ↦ absurd (ground arith)
    | inr (b, e) ↦ elim (Bool-cases (is_granted cfg.jump_users user b.id)) [
      | inr g ↦ absurd (ground arith)
      | inl g ↦
          let opened : open_backend cfg opens registry b.id accepts ≡ bridged id s = ground arith in
          let (same, tunnel, taken) =
            (open_backend_iff cfg opens registry b.id accepts id s).0 opened in
          (
            ground arith,
            (
              b,
              e,
              same,
              subst (Granted cfg.jump_users user) same
                  ((is_granted_iff cfg.jump_users user b.id).0 g),
            ),
            subst (λ x. Reachable opens registry x s) same tunnel,
            taken,
          )
    ]
  ],
  λ (port, (b, e, same, g), tunnel, taken).
      let granted : is_granted cfg.jump_users user b.id ≡ true =
        (is_granted_iff cfg.jump_users user b.id).1
          (subst (Granted cfg.jump_users user) (sym same) g) in
      let opened : open_backend cfg opens registry b.id accepts ≡ bridged id s =
        (open_backend_iff cfg opens registry b.id accepts id s).1
          (same, subst (λ x. Reachable opens registry x s) (sym same) tunnel, taken) in
      ground arith,
)
