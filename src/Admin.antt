-- ===== src/Admin.antt =====
-- internal/admin/admin.go: the hub's status on a Unix socket, which only its owner can open. What the
-- system calls answer, and JSON, are arguments.
pub mod Private
use sshhub.Base.Results.{ok, err, ◌>>=◌, ◌>>◌, reject_if, or_fail}
use sshhub.Base.Results
use sshhub.Base.{ℕ, ◌*◌, Bool, true, false, not, List, [], ◌∷◌, Option, none, some, if◌then◌else◌}
use sshhub.Text.{Str, codes}
use sshhub.Control.Registry.{Registry, BackendStatus, status}

abbrev pub default_socket_path : Str
default_socket_path = codes "/run/sshhub/admin.sock"

pub record Status : Type 0 where
  pub hub_version : Str
  pub started_at : ℕ
  pub backends : List BackendStatus

-- What `Server.handle` sends.
unfoldable pub answer_status : Str → ℕ → Registry → Status
answer_status version started r = record {
  hub_version = version;
  started_at = started;
  backends = status r;
}

pub data AdminError : Type 0 where
  cannot_make_dir cannot_remove cannot_listen cannot_chmod cannot_accept : AdminError
  cannot_dial cannot_decode : AdminError

abbrev pub Result {ℓ} : Type ℓ → Type ℓ
Result A = Results.Result AdminError A

-- Read and write for the owner.
abbrev pub owner_only : ℕ
owner_only = 6 * 64

-- Which system calls succeed; the mode that a socket is made with, and what is left of its file when
-- the listener is closed.
pub record Host : Type 0 where
  pub makes_dir : Bool
  pub removes : Bool
  pub binds : Bool
  pub chmods : Bool
  pub made_mode : ℕ
  pub left_closed : Option ℕ

-- `os.Remove` of the file's mode, if there is a file; that there is none is no error.
unfoldable pub remove_stale : Host → Option ℕ → Result (Option ℕ)
remove_stale host none = ok none
remove_stale host (some mode) = if host.removes then ok none else err cannot_remove

unfoldable pub chmod : Host → ℕ → Option ℕ × Result (Unit {0})
chmod host made =
    if host.chmods then (some owner_only, ok tt) else (host.left_closed, err cannot_chmod)

unfoldable pub bind : Host → Option ℕ → Result (Option ℕ) → Option ℕ × Result (Unit {0})
bind host file (err e) = (file, err e)
bind host file (ok free) =
    if host.binds then chmod host host.made_mode else (free, err cannot_listen)

-- `ListenAndServe` up to its loop: the mode of the socket's file before and after.
unfoldable pub listen : Host → Option ℕ → Option ℕ × Result (Unit {0})
listen host file =
    if host.makes_dir then bind host file (remove_stale host file) else (file, err cannot_make_dir)

-- How the loop ends when `Accept` fails.
unfoldable pub stop : Bool → Result (Unit {0})
stop cancelled = if cancelled then ok tt else err cannot_accept

-- `Query`: what is read from the socket, if it can be dialled.
unfoldable pub query : (Str → Option Status) → Bool → Str → Result Status
query decode dials reply = do
  reject_if (not dials) cannot_dial
  or_fail (decode reply) cannot_decode
