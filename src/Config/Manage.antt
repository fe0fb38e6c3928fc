-- ===== src/Config/Manage.antt =====
-- internal/config/manage.go: adding and removing a backend in the configuration file. The YAML codec,
-- the random source and base64 are parameters; where an operation fails the file is as it was.
pub mod Changes
use sshhub.Base.Results.{
  ok, err, ◌>>=◌, ◌>>◌, reject_if, or_fail, err-ne-ok, from_ok, bind_inv, reject_if_inv,
  or_fail_inv, not-false,
}
use sshhub.Base.Results
use sshhub.Base.{
  ℕ, ◌≡◌, ◌≢◌, refl, sym, ap, subst, ◌∙◌, Bool, true, false, not, ◌&&◌, ◌||◌, List, [], ◌∷◌, ◌++◌,
  Option, none, some, arith, keep, map, if◌then◌else◌, ◌==◌, ==_iff, eq_self, contains, Bool-cases,
  Option-cases, ◌⊎◌, inl, inr,
}
use sshhub.Text.{Str, codes, is_empty, contains_any, has_prefix, str_eq}
use sshhub.Config.{Backend, JumpUser, Config}
use sshhub.Config.Lookup.{backend_by_id, reverse}

pub data ManageError : Type 0 where
  end_user_removed empty_id bad_end_user unreadable unparsable no_random cannot_encode cannot_save :
      ManageError
  exists : Str → ManageError
  not_found : Str → ManageError

abbrev pub Result {ℓ} : Type ℓ → Type ℓ
Result A = Results.Result ManageError A

-- The configuration file, and which of the calls that `Save` makes succeed.
pub record Disk : Type 0 where
  pub content : Option Str
  pub creates_temp : Bool
  pub writes : Bool
  pub syncs : Bool
  pub closes : Bool
  pub renames : Bool

unfoldable pub new_backend : Str → Str → Backend
new_backend id token = record {
  aliases = [];
  id = id;
  mode = reverse;
  token = token;
  username = [];
  host_key = [];
  host_key_file = [];
}

abbrev pub is_some : Option Backend → Bool
is_some none = false
is_some (some b) = true

-- The configuration without the backend: also the grants of it are gone.
unfoldable pub other_than : Str → Str → Bool
other_than id x = not (x == id)

unfoldable pub revoke : Str → List JumpUser → List JumpUser
unfolding other_than
revoke id [] = []
revoke id (u ∷ us) = record u { backends = keep (other_than id) u.backends } ∷ revoke id us

unfoldable pub without_backend : Str → Config → Config
without_backend id cfg = record cfg {
  backends = keep (λ (b : Backend). not (b.id == id)) cfg.backends;
  jump_users = revoke id cfg.jump_users;
}

module _ (decode : Str → Option Config) (encode : Config → Option Str) (random : Option Str)
    (encode64 : Str → Str) where
  unfoldable pub generate_token : Result Str
  generate_token = do bytes ← or_fail random no_random; ok (encode64 bytes)

  unfoldable pub save : Config → Disk → Result Disk
  save cfg d = do
    out ← or_fail (encode cfg) cannot_encode
    reject_if (not d.creates_temp) cannot_save
    reject_if (not d.writes) cannot_save
    reject_if (not d.syncs) cannot_save
    reject_if (not d.closes) cannot_save
    reject_if (not d.renames) cannot_save
    ok (record d { content = some out })

  unfoldable pub read_config : Disk → Result Config
  read_config d = do text ← or_fail d.content unreadable; or_fail (decode text) unparsable

  unfoldable pub add_backend : Str → Str → Str → Disk → Result (Str × Disk)
  add_backend id token end_user d = do
    reject_if (not (is_empty end_user)) end_user_removed
    reject_if (is_empty id) empty_id
    reject_if (contains_any end_user (codes " \t\n/:,") || has_prefix end_user (codes "-"))
        bad_end_user
    cfg ← read_config d
    reject_if (is_some (backend_by_id cfg.backends id)) (exists id)
    token' ← (if is_empty token then generate_token else ok token)
    d' ← save (record cfg { backends = cfg.backends ++ new_backend id token' ∷ [] }) d
    ok (token', d')

  unfoldable pub remove_backend : Str → Disk → Result Disk
  remove_backend id d = do
    cfg ← read_config d
    reject_if (not (is_some (backend_by_id cfg.backends id))) (not_found id)
    save (without_backend id cfg) d
