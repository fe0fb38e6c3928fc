-- ===== src/Control/Client/Exchange.antt =====
-- The registration as a whole: internal/control/client.go against internal/control/server.go.
use sshhub.Base.Results.{ok, err-ne-ok, from_ok}
use sshhub.Base.{
  ◌≡◌, ◌↔◌, refl, sym, ap, subst, ◌∙◌, true, false, [], ◌∷◌, Option, none, some, arith,
  if◌then◌else◌, eq_self, Bool-cases, Option-cases, inl, inr,
}
use sshhub.Text.{Str, is_empty, str_eq}
use sshhub.Control.Registry.{RegisterRequest}
use sshhub.Control.Server.{TokenResolver, RegisterResponse, sent, register, transport_name}
use sshhub.Control.Client.{Platform, Link, request_of, take_answer, client_register, connect}

-- A link on which everything works, to a hub with this resolver and version.
unfoldable pub hub_link : TokenResolver → Str → Link
hub_link resolve version = record {
  dials = true;
  opens_session = true;
  opens_stream = true;
  writes = true;
  answer = λ req. (register resolve version true (some req)).0;
}

-- What the hub makes of a request: refused with an answer that says so, or accepted as `id` with an
-- answer that names it.
data Verdict (r : Option RegisterResponse × Option Str) : Option Str → Type 0 where
  refused : (resp : RegisterResponse) → r ≡ (some resp, none) → resp.good ≡ false → Verdict r none
  accepted :
      (resp : RegisterResponse) (id : Str)
      → r ≡ (some resp, some id)
      → resp.good ≡ true
      → resp.backend ≡ id
      → Verdict r (some id)

-- The backend that a token is good for.
unfoldable pub granted_id : TokenResolver → Str → Str → Option Str
granted_id resolve token backend = if is_empty token then none else resolve token backend

register-Verdict :
    (resolve : TokenResolver) (version : Str) (req : RegisterRequest)
    → Verdict
        (register resolve version true (some (sent req)))
        (granted_id resolve req.token req.backend)
unfolding register sent granted_id
register-Verdict resolve version req = elim (Bool-cases (is_empty req.token)) [
  | inl no_token ↦ rw no_token (refused _ refl refl)
  | inr token ↦ elim (Option-cases (resolve req.token req.backend)) [
    | inl unknown ↦ rw (token, eq_self transport_name, unknown) (refused _ refl refl)
    | inr (id, known) ↦ rw (token, eq_self transport_name, known) (accepted _ id refl refl refl)
  ]
]

not_empty : (s : Str) → (some s ≡ some [] → ⊥) → is_empty s ≡ false
not_empty [] n = absurd (n refl)
not_empty (c ∷ s) n = refl

take_answer-Verdict :
    (r : Option RegisterResponse × Option Str) (granted : Option Str) (backend id : Str)
    → Verdict r granted
    → (granted ≡ some [] → ⊥)
    → ((take_answer backend r.0 ≡ ok id) ↔ (granted ≡ some id)) × (r.1 ≡ granted)
unfolding take_answer
take_answer-Verdict r none backend id (refused resp e bad) named = (
  (λ h. absurd (err-ne-ok (rw (e, bad, take_answer) at h)), λ h. absurd (ground arith)),
  rw e refl,
)
take_answer-Verdict r (some to) backend id (accepted resp to' e good same) named =
    let full : is_empty resp.backend ≡ false =
      subst (λ s. is_empty s ≡ false) (sym same) (not_empty to named) in
    let taken : take_answer backend r.0 ≡ ok to = rw (e, good, full) (ap ok same) in
    ((λ h. ap some (from_ok (sym taken ∙ h)), λ h. taken ∙ ap ok (ground (arith, h))), rw e refl)

-- Agent and hub agree on a registration. On a link that works, an agent with a token that the hub
-- resolves to `id` takes itself for the backend `id`, and the hub's `register` accepts it as `id`; one
-- with no token, or another, fails, and the hub's `register` refuses it. The hub's resolver gives no
-- empty id. What the registry makes of an accepted agent is not said here.
pub connect-register :
    (resolve : TokenResolver) (version : Str) (p : Platform) (backend token host_key id : Str)
    → (resolve token backend ≡ some [] → ⊥)
    → ((connect (hub_link resolve version) p backend token host_key ≡ ok id)
        ↔ (granted_id resolve token backend ≡ some id))
      × ((register resolve version true (some (sent (request_of p backend token host_key)))).1
          ≡ granted_id resolve token backend)
unfolding connect client_register hub_link granted_id request_of
connect-register resolve version p backend token host_key id no_empty =
    take_answer-Verdict
      (register resolve version true (some (sent (request_of p backend token host_key))))
      (granted_id resolve token backend) backend id
      (register-Verdict resolve version (request_of p backend token host_key)) (λ e. ground arith)
