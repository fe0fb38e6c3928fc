-- ===== src/Control/Client.antt =====
-- internal/control/client.go: the agent's end of the control plane. Whether the hub is reached, what it
-- answers, and the addresses are arguments.
pub mod Exchange
pub mod Streams
pub mod Wire
use sshhub.Base.Results.{ok, err, ◌>>=◌, ◌>>◌, reject_if, or_fail}
use sshhub.Base.Results
use sshhub.Base.{
  ℕ, Bool, true, false, not, ◌&&◌, ◌||◌, List, [], ◌∷◌, Option, none, some, ltb, if◌then◌else◌,
  ◌==◌,
}
use sshhub.Text.{Str, codes, is_empty, str_eq}
use sshhub.Text.Host.{split_host_port}
use sshhub.Control.Registry.{RegisterRequest}
use sshhub.Control.Server.{RegisterResponse, sent}

pub data ClientError : Type 0 where
  cannot_dial no_session no_stream cannot_write cannot_read : ClientError
  registration_failed : Str → ClientError

abbrev pub Result {ℓ} : Type ℓ → Type ℓ
Result A = Results.Result ClientError A

-- What an agent says about itself.
pub record Platform : Type 0 where
  pub version : Str
  pub goos : Str
  pub goarch : Str

unfoldable pub request_of : Platform → Str → Str → Str → RegisterRequest
request_of p backend token host_key = record {
  transport = [];
  backend = backend;
  token = token;
  version = p.version;
  os = p.goos;
  arch = p.goarch;
  host_key = host_key;
}

-- The way to the hub: which steps succeed, and the answer to a request, `none` where none is read.
pub record Link : Type 0 where
  pub dials : Bool
  pub opens_session : Bool
  pub opens_stream : Bool
  pub writes : Bool
  pub answer : RegisterRequest → Option RegisterResponse

-- What the agent makes of the answer: the backend that is assigned.
unfoldable pub take_answer : Str → Option RegisterResponse → Result Str
take_answer backend answer = do
  resp ← or_fail answer cannot_read
  reject_if (not resp.good) (registration_failed resp.error)
  ok (if is_empty resp.backend then backend else resp.backend)

-- `register`
unfoldable pub client_register : Link → Platform → Str → Str → Str → Result Str
client_register link p backend token host_key = do
  reject_if (not link.opens_stream) no_stream
  reject_if (not link.writes) cannot_write
  take_answer backend (link.answer (sent (request_of p backend token host_key)))

-- `ConnectWithHostKey`
unfoldable pub connect : Link → Platform → Str → Str → Str → Result Str
connect link p backend token host_key = do
  reject_if (not link.dials) cannot_dial
  reject_if (not link.opens_session) no_session
  client_register link p backend token host_key

-- The address of a fixed local sshd: a literal loopback address with a port. `net.ParseIP` followed by
-- `IsLoopback` is the argument.
unfoldable pub is_local_sshd : (Str → Option Bool) → Str → Bool
is_local_sshd loopback addr = elim (split_host_port addr) [
  | none ↦ false
  | some (host, port) ↦ elim (loopback host) [ none ↦ false | some b ↦ b ]
]
