-- ===== src/Ctl/Add/Token.antt =====
-- The token that `sshhub-ctl add` prints (cmd/sshhub-ctl/main.go), at a hub that is started with the
-- file that it wrote (cmd/sshhub/main.go, internal/control/server.go).
use mathlib.Core.Option.{some-injective}
use sshhub.Base.Results.{ok, err}
use sshhub.Base.{
  ◌≡◌, refl, sym, ap, subst, ◌∙◌, true, false, List, [], ◌∷◌, Option, some, ◌==◌, Bool-cases, inl,
  inr, In, arith,
}
use sshhub.Base.Int.{ℤ}
use sshhub.Text.{Str, is_empty, str_eq}
use sshhub.Config.{Backend, Config}
use sshhub.Config.Load.{load, load_inv}
use sshhub.Config.Lookup.{backend_by_id}
use sshhub.Config.Manage.{Disk, Result, new_backend, add_backend}
use sshhub.Config.Manage.Changes.{add_backend-Rewritten}
use sshhub.Config.Validate.{ParsedKey, validate}
use sshhub.Config.Validate.Names.{validate-Accepted}
use sshhub.Control.Registry.{RegisterRequest}
use sshhub.Control.Server.{resolve_token, register, sent}
use sshhub.Control.Tunnels.{resolve_token-validate, register_iff}
use sshhub.Ctl.Args.{AddArgs}
use sshhub.Ctl.Add.{AddResult, added, outcome, report, add}

backend_by_id-In :
    (bs : List Backend) (id : Str) (b : Backend) → backend_by_id bs id ≡ some b → In b bs
unfolding backend_by_id
backend_by_id-In [] id b h = absurd (cc)
backend_by_id-In (x ∷ bs) id b h = elim (Bool-cases (x.id == id)) [
  | inl same ↦ inl (ground arith)
  | inr other ↦ inr (backend_by_id-In bs id b (rw other at h))
]

module _ (decode : Str → Option Config) (encode : Config → Option Str) (random : Option Str)
    (encode64 : Str → Str) (parse_key : Str → Option ParsedKey) (parse_duration : Str → Option ℤ)
    (fqdn : Str) where
  outcome-added :
      (a : AddArgs) (d : Disk) (r : Result (Str × Disk)) (token hub domain : Str)
      → (outcome decode encode random encode64 parse_key parse_duration fqdn a d r).1
        ≡ added token hub domain
      → r
        ≡ ok (token, (outcome decode encode random encode64 parse_key parse_duration fqdn a d r).0)
  unfolding outcome report
  outcome-added a d (err e) token hub domain h = absurd (cc)
  outcome-added a d (ok (token', d')) token hub domain h = cc

  -- A report of success comes from a backend that was added.
  add-added :
      (a : AddArgs) (d : Disk) (token hub domain : Str)
      → (add decode encode random encode64 parse_key parse_duration fqdn a d).1
        ≡ added token hub domain
      → add_backend decode encode random encode64 a.id a.token a.end_user d
        ≡ ok (token, (add decode encode random encode64 parse_key parse_duration fqdn a d).0)
  unfolding add
  add-added a d token hub domain h = elim (Bool-cases (is_empty a.id)) [
    | inl unnamed ↦ absurd (ground (arith, rw (unnamed, add) at h))
    | inr named ↦
        let result =
          outcome-added a d (add_backend decode encode random encode64 a.id a.token a.end_user d)
            token hub domain in
        rw named (result (rw (named, add) at h))
  ]

-- What is documented of YAML: the backends, which are made of texts, are read as they were written.
abbrev pub KeepsBackends : (Str → Option Config) → (Config → Option Str) → Type 0
KeepsBackends decode encode =
    (cfg raw : Config) (out : Str)
    → encode cfg ≡ some out
    → decode out ≡ some raw
    → raw.backends ≡ cfg.backends

token-register :
    (parse_key : Str → Option ParsedKey) (parse_duration : Str → Option ℤ) (raw cfg : Config)
    (id token version : Str) (req : RegisterRequest)
    → validate parse_key parse_duration raw ≡ ok cfg
    → In (new_backend id token) cfg.backends
    → is_empty token ≡ false
    → req.token ≡ token
    → (register (resolve_token cfg) version true (some (sent req))).1 ≡ some id
unfolding sent new_backend
token-register pk pd raw cfg id token version req accepted there full same =
    let resolved =
      (resolve_token-validate pk pd raw cfg (new_backend id token) req.backend accepted there
        full).0 in
    (register_iff (resolve_token cfg) version true (sent req) id).1 (
      subst (λ t. is_empty t ≡ false) (sym same) full,
      refl,
      subst (λ t. resolve_token cfg t req.backend ≡ some id) (sym same) resolved,
      refl,
    )

-- The token that "add" prints is good for the new backend. At a hub that is started with the file that
-- "add" wrote, which then loads, an agent that presents the token, whatever backend it asks for, is
-- accepted as that backend, if the answer reaches it. The token is not empty, and YAML gives back the
-- backends that it wrote.
pub add-register :
    (decode : Str → Option Config) (encode : Config → Option Str) (random : Option Str)
    (encode64 : Str → Str) (parse_key : Str → Option ParsedKey) (parse_duration : Str → Option ℤ)
    (fqdn : Str) (a : AddArgs) (d d' : Disk) (token hub domain version : Str) (cfg : Config)
    (req : RegisterRequest)
    → KeepsBackends decode encode
    → add decode encode random encode64 parse_key parse_duration fqdn a d
      ≡ (d', added token hub domain)
    → is_empty token ≡ false
    → load decode parse_key parse_duration d'.content ≡ ok cfg
    → req.token ≡ token
    → (register (resolve_token cfg) version true (some (sent req))).1 ≡ some a.id
add-register decode encode random encode64 pk pd fqdn a d d' token hub domain version cfg req keeps
      h full loads same =
    let result =
      add-added decode encode random encode64 pk pd fqdn a d token hub domain
        (ap (λ (x : Disk × AddResult). x.1) h) in
    let disk = ap (λ (x : Disk × AddResult). x.0) h in
    let (before, after, written, _, named, _) =
      add_backend-Rewritten decode encode random encode64 a.id a.token a.end_user token d d' (
        subst
          (λ x. add_backend decode encode random encode64 a.id a.token a.end_user d ≡ ok (token, x))
          disk result) in
    let (text, raw, has, parsed, accepted) = load_inv decode pk pd d'.content cfg loads in
    let same_text = some-injective text written.out (sym has ∙ written.has) in
    let decoded = subst (λ t. decode t ≡ some raw) same_text parsed in
    let kept : raw.backends ≡ after.backends =
      keeps after raw written.out written.encoded decoded in
    let checked : raw.backends ≡ cfg.backends =
      ap (λ (x : Config). x.backends) (validate-Accepted pk pd raw cfg accepted).result in
    let new = new_backend a.id token in
    let there : In new cfg.backends =
      subst (In new) (sym kept ∙ checked) (backend_by_id-In after.backends a.id new named) in
    token-register pk pd raw cfg a.id token version req accepted there full same
