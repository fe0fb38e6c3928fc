-- ===== src/Config/Validate.antt =====
-- `Config.Validate` and the update wait of internal/config/config.go. The parser of authorized keys and
-- the one of Go durations are parameters. The text of an error is a constructor with its values.
pub mod Backends
pub mod Entries
pub mod Names
pub mod Grants
use sshhub.Base.Results.{ok, err, ◌>>=◌, ◌>>◌, reject_if, or_fail}
use sshhub.Base.Results
use sshhub.Base.{
  ℕ, suc, ◌+◌, ◌*◌, ◌≡◌, Bool, true, false, not, ◌&&◌, ◌||◌, List, [], ◌∷◌, Option, none, some,
  if◌then◌else◌, ◌==◌, contains,
}
use sshhub.Base.Dict.{Dict, lookup, insert}
use sshhub.Base.Int.{ℤ, pos, negsuc}
use sshhub.Text.{
  Str, codes, is_empty, fields, trim_space, to_lower, contains_any, has_prefix, str_eq,
}
use sshhub.Config.{Match, Route, Backend, JumpUser, Config}
use sshhub.Config.Lookup.{backend_by_id, reverse}

pub data Invalid : Type 0 where
  control_tokens_removed user_needs_name no_ssh no_control no_host_key bad_wait : Invalid
  bad_user_key : Str → Invalid
  unknown_user_backend : Str → Str → Invalid
  no_backend_id : ℕ → Invalid
  duplicate_id : Str → Invalid
  bad_alias : Str → Str → Invalid
  alias_conflict : Str → Str → Invalid
  duplicate_token : Str → Str → Invalid
  direct_mode : Str → Invalid
  bad_mode : Str → Invalid
  username_removed : Str → Str → Invalid
  alias_is_id : Str → Str → Invalid
  no_route_backend : ℕ → Invalid
  unknown_route_backend : ℕ → Str → Invalid
  bad_end_user : ℕ → Str → Invalid

abbrev pub Result {ℓ} : Type ℓ → Type ℓ
Result A = Results.Result Invalid A

abbrev pub no_items {ℓ} : {A : Type ℓ} → List A → Bool
no_items [] = true
no_items (_ ∷ _) = false

-- What `ssh.ParseAuthorizedKey` gives: the key's wire form, its options and the rest of the input.
pub record ParsedKey : Type 0 where
  pub wire : Str
  pub options : List Str
  pub rest : Str

-- The maps that the loop over the backends fills.
pub record Seen : Type 0 where
  pub ids : List Str
  pub names : Dict Str Str
  pub tokens : Dict Str Str

abbrev pub none_seen : Seen
none_seen = record { ids = []; names = []; tokens = [] }

unfoldable pub check_aliases : Str → List Str → Dict Str Str → Result (Dict Str Str)
check_aliases id [] names = ok names
check_aliases id (alias ∷ more) names = do
  reject_if (contains_any alias (codes "@:/\\\t\n") || alias == codes "*") (bad_alias id alias)
  elim (lookup alias names) [
    | some owner ↦ err (alias_conflict alias owner)
    | none ↦ reject_if (alias == id) (alias_conflict alias id)
  ]
  check_aliases id more (insert alias id names)

unfoldable pub check_token : Backend → Dict Str Str → Result (Dict Str Str)
check_token b tokens = if is_empty b.token then ok tokens else elim (lookup b.token tokens) [
  | some existing ↦ err (duplicate_token existing b.id)
  | none ↦ ok (insert b.token b.id tokens)
]

unfoldable pub check_mode : Backend → Result (Unit {0})
check_mode b =
    if b.mode == reverse
    then ok tt
    else err (if b.mode == codes "direct" then direct_mode b.id else bad_mode b.id)

-- One round of the loop over the backends.
unfoldable pub check_backend : ℕ → Backend → Seen → Result Seen
check_backend i b seen = do
  reject_if (is_empty b.id) (no_backend_id i)
  reject_if (contains seen.ids b.id) (duplicate_id b.id)
  names ←
      (if is_empty (trim_space b.aliases)
        then ok seen.names
        else check_aliases b.id (fields b.aliases) seen.names)
  tokens ← check_token b seen.tokens
  check_mode b
  reject_if (not (is_empty b.username)) (username_removed b.id b.username)
  ok (record { ids = b.id ∷ seen.ids; names = names; tokens = tokens })

unfoldable pub check_backends : ℕ → List Backend → Seen → Result Seen
check_backends i [] seen = ok seen
check_backends i (b ∷ bs) seen = do seen' ← check_backend i b seen; check_backends (suc i) bs seen'

-- No alias is an id. Which of several conflicts is reported is Go's choice; here it is the first.
unfoldable pub check_names : Dict Str Str → List Str → Result (Unit {0})
check_names [] ids = ok tt
check_names ((alias, owner) ∷ names) ids = do
  reject_if (contains ids alias) (alias_is_id alias owner)
  check_names names ids

unfoldable pub normalize : Route → Route
normalize r = record r {
  match = record {
    username =
        if not (is_empty r.username) && is_empty r.match.username
        then r.username
        else r.match.username;
    hostname =
        if not (is_empty r.hostname) && is_empty r.match.hostname
        then r.hostname
        else r.match.hostname;
  };
}

unfoldable pub check_route : ℕ → Route → List Str → Result Route
check_route i r ids = do
  reject_if (is_empty r.backend) (no_route_backend i)
  reject_if (not (contains ids r.backend)) (unknown_route_backend i r.backend)
  reject_if
      (not (is_empty r.end_user)
        && (contains_any r.end_user (codes " \t\n/:,") || has_prefix r.end_user (codes "-")))
      (bad_end_user i r.end_user)
  ok (normalize r)

unfoldable pub check_routes : ℕ → List Route → List Str → Result (List Route)
check_routes i [] ids = ok []
check_routes i (r ∷ rs) ids = do
  r' ← check_route i r ids
  rs' ← check_routes (suc i) rs ids
  ok (r' ∷ rs')

unfoldable pub check_grants : List Backend → Str → List Str → Result (Unit {0})
check_grants bs name [] = ok tt
check_grants bs name (id ∷ ids) = elim (backend_by_id bs id) [
  | none ↦ err (unknown_user_backend name id)
  | some _ ↦ check_grants bs name ids
]

-- 48 hours, in nanoseconds
abbrev pub default_auto_update_wait : ℤ
default_auto_update_wait = pos (48 * 3600 * 1_000_000_000)

abbrev pub auto_update_disabled : ℤ
auto_update_disabled = negsuc 0

module _ (parse_key : Str → Option ParsedKey) (parse_duration : Str → Option ℤ) where
  unfoldable pub good_key : Str → Bool
  good_key text = elim (parse_key text) [
    | none ↦ false
    | some k ↦ no_items k.options && is_empty (trim_space k.rest)
  ]

  unfoldable pub check_keys : Str → List Str → Result (Unit {0})
  check_keys name [] = ok tt
  check_keys name (text ∷ keys) = do
    reject_if (not (good_key text)) (bad_user_key name)
    check_keys name keys

  unfoldable pub check_users : List Backend → List JumpUser → List Str → Result (Unit {0})
  check_users bs [] seen = ok tt
  check_users bs (u ∷ us) seen = do
    reject_if (is_empty u.name || (contains seen u.name || no_items u.backends)) user_needs_name
    check_keys u.name u.keys
    check_grants bs u.name u.backends
    check_users bs us (u.name ∷ seen)

  -- `none` is an error.
  unfoldable pub parse_auto_update_wait : Str → Option ℤ
  parse_auto_update_wait s =
      let raw = trim_space s in
      if contains (codes "false" ∷ codes "no" ∷ codes "off" ∷ codes "never" ∷ codes "disabled" ∷ [])
        (to_lower raw)
      then some auto_update_disabled
      else if is_empty raw
      then none
      else if raw == codes "0"
      then some (pos 0)
      else elim (parse_duration raw) [
        | none ↦ none
        | some (negsuc n) ↦ none
        | some (pos n) ↦ some (pos n)
      ]

  unfoldable pub check_wait : Option Str → Result (Unit {0})
  check_wait none = ok tt
  check_wait (some raw) = elim (parse_auto_update_wait raw) [ none ↦ err bad_wait | some _ ↦ ok tt ]

  unfoldable pub resolved_auto_update_wait : Config → ℤ
  resolved_auto_update_wait c = elim c.auto_update_wait [
    | none ↦ default_auto_update_wait
    | some raw ↦ elim (parse_auto_update_wait raw) [ none ↦ default_auto_update_wait | some d ↦ d ]
  ]

  unfoldable pub validate : Config → Result Config
  validate c = do
    reject_if (not (no_items c.control_tokens)) control_tokens_removed
    check_users c.backends c.jump_users []
    reject_if (is_empty c.listen.ssh) no_ssh
    reject_if (is_empty c.listen.control) no_control
    reject_if (is_empty c.host_key) no_host_key
    check_wait c.auto_update_wait
    seen ← check_backends 0 c.backends none_seen
    check_names seen.names seen.ids
    routes ← check_routes 0 c.routes seen.ids
    ok (record c { routes = routes })
