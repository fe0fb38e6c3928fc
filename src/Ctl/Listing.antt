-- ===== src/Ctl/Listing.antt =====
-- The command "list" of cmd/sshhub-ctl/main.go: the rows for the configured backends. The rendering of a time span is an argument.
pub mod Users
pub mod Live
pub mod Duration
pub mod Table
use sshhub.Base.{
  ℕ, zero, suc, ◌+◌, Bool, true, false, not, ◌&&◌, List, [], ◌∷◌, ◌++◌, Option, none, some,
  if◌then◌else◌, ◌==◌, contains,
}
use sshhub.Base.Dict.{Map, put}
use sshhub.Text.{Str, codes, is_empty, str_eq}
use sshhub.Config.{Backend, Route, Config}
use sshhub.Config.Routes.{resolved_end_user}
use sshhub.Control.Registry.{BackendStatus}
use sshhub.Admin.{Status}

-- The users that a route adds to those of its backend.
unfoldable pub add_user : Str → List Str → List Str
add_user u us =
    let u' = if contains us u then [] else u in if is_empty u' then us else us ++ u' ∷ []

-- `endUsers[id]`
unfoldable pub end_users : Str → List Route → List Str → List Str
end_users id [] us = us
end_users id (r ∷ rs) us =
    if r.backend == id
    then end_users id rs (add_user (resolved_end_user r) us)
    else end_users id rs us

-- `live`
unfoldable pub live_from : List BackendStatus → Map Str BackendStatus → Map Str BackendStatus
live_from [] m = m
live_from (b ∷ bs) m = live_from bs (put b.backend b m)

unfoldable pub live : Option Status → Map Str BackendStatus
live none id = none
live (some s) id = live_from s.backends (λ i. none) id

pub record Row : Type 0 where
  pub id : Str
  pub end_users : List Str
  pub online : Bool
  pub version : Str
  pub platform : Str
  pub uptime : Str
  pub remote : Str

-- `since` renders the time since then.
module _ (since : ℕ → Str) where
  unfoldable pub row_of : Str → List Str → Option BackendStatus → Row
  row_of id users none = record {
    id = id;
    end_users = users;
    online = false;
    version = [];
    platform = [];
    uptime = [];
    remote = [];
  }
  row_of id users (some l) = record {
    id = id;
    end_users = users;
    online = true;
    version = l.version;
    platform = if is_empty l.os then [] else l.os ++ (codes "/" ++ l.arch);
    uptime = since l.connected_at;
    remote = l.remote_addr;
  }

  -- `list --json`
  unfoldable pub rows : List Route → Option Status → List Backend → List Row
  rows routes st [] = []
  rows routes st (b ∷ bs) =
      row_of b.id (end_users b.id routes []) (live st b.id) ∷ rows routes st bs

-- "online", "offline", and "unknown" without a status.
unfoldable pub state_text : Option Status → Option BackendStatus → Str
state_text st (some l) = codes "online"
state_text (some s) none = codes "offline"
state_text none none = codes "unknown"

abbrev pub one_if_some : {A : Type 0} → Option A → ℕ
one_if_some none = 0
one_if_some (some l) = 1

unfoldable pub count_online : Option Status → List Backend → ℕ
count_online st [] = 0
count_online st (b ∷ bs) = one_if_some (live st b.id) + count_online st bs
