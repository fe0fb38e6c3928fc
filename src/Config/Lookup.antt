-- ===== src/Config/Lookup.antt =====
-- `BackendByID`, `BackendByName` and `BackendByToken` of internal/config/config.go, over the backends.
use sshhub.Base.{◌&&◌, List, [], ◌∷◌, Option, none, some, if◌then◌else◌, ◌==◌, contains}
use sshhub.Text.{Str, codes, is_empty, fields, str_eq}
use sshhub.Config.{Backend}

abbrev pub reverse : Str
reverse = codes "reverse"

unfoldable pub backend_by_id : List Backend → Str → Option Backend
backend_by_id [] id = none
backend_by_id (b ∷ bs) id = if b.id == id then some b else backend_by_id bs id

unfoldable pub backend_by_alias : List Backend → Str → Option Backend
backend_by_alias [] name = none
backend_by_alias (b ∷ bs) name =
    if contains (fields b.aliases) name then some b else backend_by_alias bs name

-- Exact ids come first.
unfoldable pub backend_by_name : List Backend → Str → Option Backend
backend_by_name bs name = elim (backend_by_id bs name) [
  | some b ↦ some b
  | none ↦ backend_by_alias bs name
]

unfoldable pub find_token : List Backend → Str → Option Backend
find_token [] token = none
find_token (b ∷ bs) token =
    if b.mode == reverse && b.token == token then some b else find_token bs token

unfoldable pub backend_by_token : List Backend → Str → Option Backend
backend_by_token bs token = if is_empty token then none else find_token bs token
