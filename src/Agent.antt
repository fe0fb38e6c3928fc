-- ===== src/Agent.antt =====
-- cmd/sshhub-agent/main.go: what an agent starts with, and how it stays connected to its hub. The token
-- file, the parser of addresses and the cryptography are arguments.
pub mod Start
pub mod Backoff
mod Examples
use sshhub.Base.Results.{ok, err, ◌>>=◌, ◌>>◌, reject_if, or_fail}
use sshhub.Base.Results
use sshhub.Base.{
  ℕ, ◌*◌, Bool, true, false, not, ◌&&◌, ◌||◌, List, [], ◌∷◌, Option, none, some, ltb, if◌then◌else◌,
  ◌==◌, nat_eq, bit_and,
}
use sshhub.Text.{Str, is_empty, trim_space}
use sshhub.Text.Host.{split_host_port}
use sshhub.HubTls.{Crypto, TlsConfig, client_config}
use sshhub.Control.Client.{is_local_sshd}

pub record Flags : Type 0 where
  pub hub : Str
  pub token_file : Str
  pub backend : Str
  pub sshd : Str
  pub pin : Str
  pub insecure : Bool

-- What `os.Lstat` says of the token file: whether it is a regular file, and its permission bits.
pub record FileInfo : Type 0 where
  pub is_regular : Bool
  pub perm : ℕ

pub data StartError : Type 0 where
  flags_required bad_token_file cannot_read empty_token not_loopback pin_required bad_pin :
      StartError

abbrev pub Result {ℓ} : Type ℓ → Type ℓ
Result A = Results.Result StartError A

-- The TLS configuration: without any check, or the one of `hubtls.ClientConfig`.
pub data Tls : Type 0 where
  unchecked : Tls
  checked : TlsConfig → Tls

pub record Settings : Type 0 where
  pub token : Str
  pub server_name : Str
  pub tls : Tls

-- 0007 and 0020
abbrev pub world_bits : ℕ
world_bits = 7

abbrev pub group_write : ℕ
group_write = 16

unfoldable pub is_private : FileInfo → Bool
is_private st =
    st.is_regular && (bit_and st.perm world_bits == 0 && bit_and st.perm group_write == 0)

unfoldable pub has_private_file : Option FileInfo → Bool
has_private_file none = false
has_private_file (some st) = is_private st

unfoldable pub server_name_of : Str → Str
server_name_of hub = elim (split_host_port hub) [ none ↦ hub | some (host, port) ↦ host ]

unfoldable pub choose_tls : Crypto → Flags → Result Tls
choose_tls c f =
    if f.insecure then ok unchecked else elim (client_config c (server_name_of f.hub) f.pin) [
      | err e ↦ err bad_pin
      | ok cfg ↦ ok (checked cfg)
    ]

-- `main` up to the loop, given the state of the token file and its content.
unfoldable pub start :
    Crypto → (Str → Option Bool) → Option FileInfo → Option Str → Flags → Result Settings
start c loopback st content f = do
  reject_if (is_empty f.hub || is_empty f.token_file) flags_required
  reject_if (not (has_private_file st)) bad_token_file
  text ← or_fail content cannot_read
  reject_if (is_empty (trim_space text)) empty_token
  reject_if (not (is_local_sshd loopback f.sshd)) not_loopback
  reject_if (is_empty f.pin && not f.insecure) pin_required
  tls ← choose_tls c f
  ok (record { token = trim_space text; server_name = server_name_of f.hub; tls = tls })

abbrev pub second : ℕ
second = 1_000_000_000

abbrev pub min_backoff : ℕ
min_backoff = 2 * second

abbrev pub max_backoff : ℕ
max_backoff = 60 * second

-- The variables of `run`.
pub record Loop : Type 0 where
  pub backoff : ℕ
  pub logged_down : Bool

abbrev pub first_loop : Loop
first_loop = record { backoff = min_backoff; logged_down = false }

-- What one round of the loop meets: the context is cancelled at its start, or the hub is not reached, or
-- the agent is served and the tunnel drops. The first flag says that the context is cancelled by then,
-- the second that the wait that follows is not interrupted.
pub data Round : Type 0 where
  cancelled : Round
  unreachable : Bool → Bool → Round
  served : Bool → Bool → Round

-- The waits and the lines about an unreachable hub that a run leaves, and the loop unless it returned.
pub record Trace : Type 0 where
  pub waits : List ℕ
  pub complaints : List ℕ
  pub still : Option Loop

unfoldable pub next_backoff : ℕ → ℕ
next_backoff b = if ltb max_backoff (b * 2) then max_backoff else b * 2

abbrev pub returned : Trace
returned = record { waits = []; complaints = []; still = none }

-- The rest of the run, or none of it after an interrupted wait of `d`.
unfoldable pub after_wait : ℕ → Bool → Trace → Trace
after_wait d true rest = record rest { waits = d ∷ rest.waits }
after_wait d false rest = record { waits = d ∷ []; complaints = []; still = none }

unfoldable pub complain : Bool → ℕ → Trace → Trace
complain true d t = t
complain false d t = record t { complaints = d ∷ t.complaints }

unfoldable pub run : List Round → Loop → Trace
run [] s = record { waits = []; complaints = []; still = some s }
run (cancelled ∷ rs) s = returned
run (unreachable stop waits ∷ rs) s =
    let rest = run rs (record { backoff = next_backoff s.backoff; logged_down = true }) in
    if stop then returned else complain s.logged_down s.backoff (after_wait s.backoff waits rest)
run (served stop waits ∷ rs) s =
    let rest = run rs first_loop in if stop then returned else after_wait min_backoff waits rest
