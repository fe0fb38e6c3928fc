-- ===== src/Config/Examples.antt =====
-- A small configuration, the theorems on configurations at it, and what removing a backend leaves.
use sshhub.Base.Results.{ok, err}
use sshhub.Base.{
  In, ◌≡◌, ◌≢◌, refl, true, false, [], ◌∷◌, Option, none, some, All, inl, inr, contains, ℕ_discrete,
  keep,
}
use sshhub.Base.Dict.{lookup, insert}
use sshhub.Base.Int.{ℤ, pos}
use sshhub.Text.{
  Str, codes, str_eq, fields, fields_from, trim_space, trim_left, trim_right, is_space,
  contains_any, has_prefix,
}
use sshhub.Config.{Route, Backend, JumpUser, Config}
use sshhub.Config.Lookup.{backend_by_id, backend_by_name}
use sshhub.Config.Validate.{
  ParsedKey, check_users, check_keys, check_grants, check_wait, check_backends, check_backend,
  check_aliases, check_token, check_mode, check_names, check_routes, check_route, normalize,
  validate, good_key, unknown_route_backend, alias_is_id,
}
use sshhub.Config.Validate.Grants.{Resolves, validate-Resolves}
use sshhub.Config.Validate.Names.{backend_by_name-validate}
use sshhub.Config.Manage.{
  Disk, add_backend, remove_backend, save, read_config, generate_token, new_backend,
  without_backend, revoke,
}
use sshhub.Config.Manage.Changes.{Rewritten, add_backend-Rewritten, remove_backend-Rewritten}

abbrev to_web : Route
to_web = record {
  match = record { username = codes "web"; hostname = [] };
  backend = codes "web";
  username = codes "web";
  hostname = [];
  end_user = [];
}

abbrev web : Backend
web = record {
  aliases = codes "www";
  id = codes "web";
  mode = codes "reverse";
  token = codes "t1";
  username = [];
  host_key = [];
  host_key_file = [];
}

abbrev user : JumpUser
user = record { name = codes "ann"; keys = codes "k" ∷ []; backends = codes "web" ∷ [] }

abbrev sample : Config
sample = record {
  listen = record { ssh = codes ":22"; control = codes ":7000" };
  public_host = [];
  auto_update_wait = none;
  host_key = codes "key";
  tls_cert = [];
  tls_key = [];
  control_tokens = [];
  backends = web ∷ [];
  routes = to_web ∷ [];
  jump_users = user ∷ [];
}

abbrev parse_key : Str → Option ParsedKey
parse_key text = some (record { wire = text; options = []; rest = [] })

abbrev parse_duration : Str → Option ℤ
parse_duration text = some (pos 1)

sample_is_valid : validate parse_key parse_duration sample ≡ ok sample
unfolding validate check_users check_keys check_grants good_key backend_by_id check_wait
    check_backends check_backend check_aliases check_token check_mode check_names check_routes
    check_route normalize contains lookup insert trim_space trim_left trim_right fields fields_from
    is_space contains_any str_eq ℕ_discrete
sample_is_valid = refl

backend_by_name-validate_example : backend_by_name sample.backends (codes "www") ≡ some web
unfolding contains fields fields_from is_space str_eq ℕ_discrete
backend_by_name-validate_example =
    backend_by_name-validate parse_key parse_duration sample sample web (codes "www")
      sample_is_valid (inl refl) (inr refl)

abbrev decode : Str → Option Config
decode text = some sample

abbrev encode : Config → Option Str
encode cfg = some (codes "written")

abbrev disk : Disk
disk = record {
  content = some (codes "file");
  creates_temp = true;
  writes = true;
  syncs = true;
  closes = true;
  renames = true;
}

abbrev disk_after : Disk
disk_after = record disk { content = some (codes "written") }

added :
    add_backend decode encode (some (codes "rnd")) (λ s. s) (codes "db") [] [] disk
    ≡ ok (codes "rnd", disk_after)
unfolding add_backend save read_config generate_token backend_by_id contains_any has_prefix str_eq
    ℕ_discrete
added = refl

add_backend-Rewritten_example :
    (cfg : Config) × (cfg' : Config) × Rewritten decode encode
      (some (codes "rnd"))
      (λ s. s)
      disk
      disk_after
      cfg
      cfg'
    × (backend_by_id cfg.backends (codes "db") ≡ none)
    × (backend_by_id cfg'.backends (codes "db") ≡ some (new_backend (codes "db") (codes "rnd")))
    × ((other : Str)
        → other ≢ codes "db"
        → backend_by_id cfg'.backends other ≡ backend_by_id cfg.backends other)
add_backend-Rewritten_example =
    add_backend-Rewritten decode encode (some (codes "rnd")) (λ s. s) (codes "db") [] []
      (codes "rnd") disk disk_after added

removed : remove_backend decode encode none (λ s. s) (codes "web") disk ≡ ok disk_after
unfolding remove_backend save read_config backend_by_id str_eq ℕ_discrete
removed = refl

remove_backend-Rewritten_example :
    (cfg : Config) × (cfg' : Config) × Rewritten decode encode none
      (λ s. s)
      disk
      disk_after
      cfg
      cfg'
    × (backend_by_id cfg'.backends (codes "web") ≡ none)
    × All (λ (u : JumpUser). contains u.backends (codes "web") ≡ false) cfg'.jump_users
    × ((other : Str)
        → other ≢ codes "web"
        → backend_by_id cfg'.backends other ≡ backend_by_id cfg.backends other)
remove_backend-Rewritten_example =
    remove_backend-Rewritten decode encode none (λ s. s) (codes "web") disk disk_after removed

-- The route of a backend that was removed stays, and what is written is refused when it is loaded.
abbrev keyless : Config
keyless = record sample { jump_users = [] }

removed_is_refused :
    validate parse_key parse_duration (without_backend (codes "web") keyless)
    ≡ err (unknown_route_backend 0 (codes "web"))
unfolding without_backend revoke keep validate check_users check_wait check_backends check_names
    check_routes check_route contains str_eq ℕ_discrete
removed_is_refused = refl

-- An id that is an alias already is added, and what is written is refused when it is loaded.
alias_added_is_refused :
    validate parse_key parse_duration
      (record keyless { backends = web ∷ new_backend (codes "www") (codes "t2") ∷ [] })
    ≡ err (alias_is_id (codes "www") (codes "web"))
unfolding new_backend validate check_users check_wait check_backends check_backend check_aliases
    check_token check_mode check_names contains lookup insert trim_space trim_left trim_right fields
    fields_from is_space contains_any str_eq ℕ_discrete
alias_added_is_refused = refl

validate-Resolves_example :
    ((r : Route) → In r sample.routes → Resolves sample.backends r.backend)
    × ((u : JumpUser) (id : Str)
        → In u sample.jump_users
        → contains u.backends id ≡ true
        → Resolves sample.backends id)
validate-Resolves_example = validate-Resolves parse_key parse_duration sample sample sample_is_valid
