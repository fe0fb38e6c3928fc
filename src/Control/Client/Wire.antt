-- ===== src/Control/Client/Wire.antt =====
-- internal/control/protocol.go: registration requests and responses as bytes, and the registration over
-- them. JSON is an argument.
use sshhub.Base.{
  ℕ, zero, suc, ◌≤◌, ◌≡◌, ◌↔◌, refl, sym, ap, ◌∙◌, true, [], ◌∷◌, Option, none, some, length, arith,
}
use sshhub.Text.{Str}
use sshhub.Text.Cut.{take}
use sshhub.Control.Registry.{RegisterRequest}
use sshhub.Control.Server.{TokenResolver, RegisterResponse, sent, register}
use sshhub.Control.Client.{Platform, Link, request_of, take_answer, client_register, connect}
use sshhub.Control.Client.Exchange.{hub_link, granted_id, connect-register}
use sshhub.Base.Results.{ok}

-- `io.LimitReader(r, 65536)`
abbrev pub read_limit : ℕ
read_limit = 65536

pub record Json : Type 0 where
  pub encode_request : RegisterRequest → Str
  pub decode_request : Str → Option RegisterRequest
  pub encode_response : RegisterResponse → Str
  pub decode_response : Str → Option RegisterResponse

module _ (j : Json) where
  unfoldable pub write_register : RegisterRequest → Str
  write_register req = j.encode_request (sent req)

  unfoldable pub read_register : Str → Option RegisterRequest
  read_register bytes = j.decode_request (take read_limit bytes)

  unfoldable pub write_response : RegisterResponse → Str
  write_response resp = j.encode_response resp

  unfoldable pub read_response : Str → Option RegisterResponse
  read_response bytes = j.decode_response (take read_limit bytes)

  unfoldable pub reply : Option RegisterResponse → Option RegisterResponse
  reply none = none
  reply (some resp) = read_response (write_response resp)

  -- What an agent reads of a hub's answer, where both ends go through bytes.
  unfoldable pub wire_answer : TokenResolver → Str → RegisterRequest → Option RegisterResponse
  wire_answer resolve version req =
      reply (register resolve version true (read_register (write_register req))).0

-- A link on which everything works, over bytes.
unfoldable pub wire_link : Json → TokenResolver → Str → Link
wire_link j resolve version = record {
  dials = true;
  opens_session = true;
  opens_stream = true;
  writes = true;
  answer = wire_answer j resolve version;
}

-- JSON gives back what it wrote of one request and of the hub's answer to it, and neither is longer
-- than what is read of it.
pub record JsonLaws (j : Json) (resolve : TokenResolver) (version : Str) (req : RegisterRequest)
    : Type 0 where
  pub request : j.decode_request (j.encode_request (sent req)) ≡ some (sent req)
  pub request_small : length (j.encode_request (sent req)) ≤ read_limit
  pub response :
      (r : RegisterResponse)
      → (register resolve version true (some (sent req))).0 ≡ some r
      → j.decode_response (j.encode_response r) ≡ some r
  pub response_small :
      (r : RegisterResponse)
      → (register resolve version true (some (sent req))).0 ≡ some r
      → length (j.encode_response r) ≤ read_limit

take-all : (n : ℕ) (s : Str) → length s ≤ n → take n s ≡ s
unfolding take
take-all zero [] h = refl
take-all (suc n) [] h = refl
take-all zero (c ∷ s) h = absurd (omega arith)
take-all (suc n) (c ∷ s) h = ap (◌∷◌ c) (take-all n s (omega arith))

reply-same :
    (j : Json) (resp : Option RegisterResponse)
    → ((r : RegisterResponse) → resp ≡ some r → j.decode_response (j.encode_response r) ≡ some r)
    → ((r : RegisterResponse) → resp ≡ some r → length (j.encode_response r) ≤ read_limit)
    → reply j resp ≡ resp
unfolding reply read_response write_response
reply-same j none reads small = refl
reply-same j (some r) reads small =
    ap j.decode_response (take-all read_limit (j.encode_response r) (small r refl)) ∙ reads r refl

wire_answer-hub_link :
    (j : Json) (resolve : TokenResolver) (version : Str) (req : RegisterRequest)
    → JsonLaws j resolve version req
    → wire_answer j resolve version req ≡ (hub_link resolve version).answer (sent req)
unfolding wire_answer hub_link read_register write_register
wire_answer-hub_link j resolve version req laws =
    let read : read_register j (write_register j req) ≡ some (sent req) =
      ap j.decode_request (take-all read_limit (j.encode_request (sent req)) laws.request_small)
      ∙ laws.request in
    ap (λ r. reply j (register resolve version true r).0) read
    ∙ reply-same j (register resolve version true (some (sent req))).0 laws.response
        laws.response_small

connect-wire :
    (j : Json) (resolve : TokenResolver) (version : Str) (p : Platform)
    (backend token host_key : Str)
    → JsonLaws j resolve version (request_of p backend token host_key)
    → connect (wire_link j resolve version) p backend token host_key
      ≡ connect (hub_link resolve version) p backend token host_key
unfolding connect client_register wire_link hub_link sent request_of wire_answer write_register
connect-wire j resolve version p backend token host_key laws =
    ap (take_answer backend)
      (wire_answer-hub_link j resolve version (request_of p backend token host_key) laws)

-- Agent and hub agree on a registration that goes over bytes. On a link that works, an agent takes
-- itself for the backend `id` exactly if its token is not empty and the hub's resolver gives `id` for
-- it, and the hub's `register` accepts it as exactly what the resolver gives. The resolver gives no
-- empty id, JSON gives back the request and the answer, and neither is longer than the 65536 bytes that
-- are read of it. What the registry makes of an accepted agent is not said here.
pub connect-granted :
    (j : Json) (resolve : TokenResolver) (version : Str) (p : Platform)
    (backend token host_key id : Str)
    → (resolve token backend ≡ some [] → ⊥)
    → JsonLaws j resolve version (request_of p backend token host_key)
    → ((connect (wire_link j resolve version) p backend token host_key ≡ ok id)
        ↔ (granted_id resolve token backend ≡ some id))
      × ((register resolve version true
            (read_register j (write_register j (request_of p backend token host_key)))).1
          ≡ granted_id resolve token backend)
unfolding read_register write_register
connect-granted j resolve version p backend token host_key id no_empty laws =
    let req = request_of p backend token host_key in
    let same = connect-wire j resolve version p backend token host_key laws in
    let (agent, hub) = connect-register resolve version p backend token host_key id no_empty in
    let read : read_register j (write_register j req) ≡ some (sent req) =
      ap j.decode_request (take-all read_limit (j.encode_request (sent req)) laws.request_small)
      ∙ laws.request in
    (
      (λ h. agent.0 (sym same ∙ h), λ g. same ∙ agent.1 g),
      ap (λ r. (register resolve version true r).1) read ∙ hub,
    )
