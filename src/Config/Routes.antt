-- ===== src/Config/Routes.antt =====
-- Routes in internal/config/config.go: both spellings of a route, and the account of its sessions.
use sshhub.Base.{◌≡◌, ◌⊎◌, not, ◌&&◌, [], arith, if◌then◌else◌}
use sshhub.Text.{Str, codes, is_empty}
use sshhub.Config.{Match, Route}

-- The text of the first field, or of the second where the first is empty.
abbrev or_else : Str → Str → Str
or_else a b = if not (is_empty a) then a else b

-- The struct that `Route.UnmarshalYAML` decodes into. The decoding itself is the YAML library's.
pub record RawRoute : Type 0 where
  pub match : Match
  pub backend : Str
  pub username : Str
  pub hostname : Str
  pub end_user : Str

unfoldable pub unmarshal : RawRoute → Route
unmarshal raw =
    let u =
      if not (is_empty raw.username) && is_empty raw.match.username
      then raw.username
      else raw.match.username in
    let h =
      if not (is_empty raw.hostname) && is_empty raw.match.hostname
      then raw.hostname
      else raw.match.hostname in
    record {
      match = record { username = u; hostname = h };
      backend = raw.backend;
      username = if is_empty raw.username && not (is_empty u) then u else raw.username;
      hostname = if is_empty raw.hostname && not (is_empty h) then h else raw.hostname;
      end_user = raw.end_user;
    }

-- What `Route.MarshalYAML` writes: the flat syntax.
pub record FlatRoute : Type 0 where
  pub username : Str
  pub hostname : Str
  pub end_user : Str
  pub backend : Str

unfoldable pub marshal : Route → FlatRoute
marshal r = record {
  username =
      if is_empty r.username && not (is_empty r.match.username)
      then r.match.username
      else r.username;
  hostname =
      if is_empty r.hostname && not (is_empty r.match.hostname)
      then r.match.hostname
      else r.hostname;
  end_user = r.end_user;
  backend = r.backend;
}

-- The flat syntax as the decoder reads it: the fields that `omitempty` left out are empty.
abbrev pub reread : FlatRoute → RawRoute
reread f = record {
  match = record { username = []; hostname = [] };
  backend = f.backend;
  username = f.username;
  hostname = f.hostname;
  end_user = f.end_user;
}

abbrev pub default_end_user : Str
default_end_user = codes "root"

unfoldable pub resolved_end_user : Route → Str
resolved_end_user r = or_else r.end_user default_end_user

-- A route in one spelling only: what it matches stands in both places.
abbrev pub IsSettled : Route → Type 0
IsSettled r = (r.username ≡ r.match.username) × (r.hostname ≡ r.match.hostname)

-- Writing a decoded route and reading it again gives the route back, if the file did not give two
-- different values in its two spellings.
pub unmarshal-marshal : (r : Route) → IsSettled r → unmarshal (reread (marshal r)) ≡ r
unfolding unmarshal marshal
unmarshal-marshal r h = ground arith

-- A decoded route has settled fields, whichever spelling the file uses, if it uses one for each field.
unmarshal-IsSettled :
    (raw : RawRoute)
    → (raw.username ≡ []) ⊎ (raw.match.username ≡ [])
    → (raw.hostname ≡ []) ⊎ (raw.match.hostname ≡ [])
    → IsSettled (unmarshal raw)
unfolding unmarshal
unmarshal-IsSettled raw u h = ground arith
