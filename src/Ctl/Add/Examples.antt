-- ===== src/Ctl/Add/Examples.antt =====
-- Adding the backend "db", and the theorem on its token there.
use mathlib.Core.Option.{some-injective}
use sshhub.Base.Results.{ok}
use sshhub.Base.{
  ◌≡◌, refl, sym, ap, subst, ◌∙◌, Bool, true, false, ◌&&◌, List, [], ◌∷◌, Option, none, some,
  if◌then◌else◌, ◌==◌, ==_iff, Bool-cases, ℕ_discrete, arith, contains, inl, inr,
}
use sshhub.Base.Dict.{lookup, insert}
use sshhub.Base.Int.{ℤ}
use sshhub.Text.{
  Str, codes, str_eq, has_prefix, trim_prefix, trim_space, trim_left, trim_right, contains_any,
}
use sshhub.Text.Cut.{take, has_byte, last_index}
use sshhub.Text.Host.{split_host_port, bracketed, plain, starts_bracket}
use sshhub.Config.{Backend, Config}
use sshhub.Config.Load.{load, or_invalid}
use sshhub.Config.Lookup.{backend_by_id}
use sshhub.Config.Manage.{Disk, add_backend, save, read_config, generate_token, new_backend}
use sshhub.Config.Validate.{
  ParsedKey, validate, check_users, check_wait, check_backends, check_backend, check_token,
  check_mode, check_names, check_routes,
}
use sshhub.Control.Registry.{RegisterRequest}
use sshhub.Control.Server.{register, resolve_token, sent}
use sshhub.Ctl.Args.{AddArgs}
use sshhub.Ctl.Add.{
  add, added, outcome, report, loaded, hub_address, or_unknown, configured_hub, control_port,
  join_host_port, domain_of,
}
use sshhub.Ctl.Add.Token.{KeepsBackends, add-register}

abbrev no_args : AddArgs
no_args = record {
  config = codes "/etc/sshhub/sshhub.yaml";
  hub = [];
  token = [];
  end_user = [];
  no_restart = false;
  id = [];
}

-- A codec for configurations with the one backend "db", which keeps its token.
abbrev base : Config
base = record {
  listen = record { ssh = codes ":22"; control = codes ":7000" };
  public_host = codes "hub";
  auto_update_wait = none;
  host_key = codes "key";
  tls_cert = [];
  tls_key = [];
  control_tokens = [];
  backends = [];
  routes = [];
  jump_users = [];
}

is_db : Backend → Bool
is_db b =
    (b.aliases == [])
    && ((b.id == codes "db")
        && ((b.mode == codes "reverse")
            && ((b.username == []) && ((b.host_key == []) && (b.host_key_file == [])))))

encode_backends : List Backend → Option Str
unfolding is_db
encode_backends [] = none
encode_backends (b ∷ []) = if is_db b then some (b'W' ∷ b.token) else none
encode_backends (b ∷ b' ∷ bs) = none

encode : Config → Option Str
unfolding encode_backends
encode cfg = encode_backends cfg.backends

decode : Str → Option Config
unfolding new_backend
decode [] = some base
decode (c ∷ t) = some (record base { backends = new_backend (codes "db") t ∷ [] })

is_db-new_backend : (b : Backend) → is_db b ≡ true → b ≡ new_backend (codes "db") b.token
unfolding is_db new_backend
is_db-new_backend b h =
    let aliases = (==_iff b.aliases []).0 (ground arith) in
    let id = (==_iff b.id (codes "db")).0 (ground arith) in
    let mode = (==_iff b.mode (codes "reverse")).0 (ground arith) in
    let username = (==_iff b.username []).0 (ground arith) in
    let host_key = (==_iff b.host_key []).0 (ground arith) in
    let host_key_file = (==_iff b.host_key_file []).0 (ground arith) in cc

encode_backends-decode :
    (bs : List Backend) (raw : Config) (out : Str)
    → encode_backends bs ≡ some out
    → decode out ≡ some raw
    → raw.backends ≡ bs
unfolding encode_backends decode
encode_backends-decode [] raw out h e = absurd (cc)
encode_backends-decode (b ∷ b' ∷ bs) raw out h e = absurd (cc)
encode_backends-decode (b ∷ []) raw out h e = elim (Bool-cases (is_db b)) [
  | inr other ↦ absurd (ground arith)
  | inl db ↦
      let same : b'W' ∷ b.token ≡ out = some-injective _ out (rw db at h) in
      let read : decode (b'W' ∷ b.token) ≡ some raw =
        subst (λ o. decode o ≡ some raw) (sym same) e in
      let backends = ap (λ (x : Config). x.backends) (some-injective _ raw read) in
      sym backends ∙ ap (λ x. x ∷ []) (sym (is_db-new_backend b db))
]

db-KeepsBackends : KeepsBackends decode encode
unfolding encode
db-KeepsBackends cfg raw out h e = encode_backends-decode cfg.backends raw out h e

abbrev disk : Disk
disk = record {
  content = some [];
  creates_temp = true;
  writes = true;
  syncs = true;
  closes = true;
  renames = true;
}

abbrev disk_after : Disk
disk_after = record disk { content = some (codes "Wt1") }

abbrev db_args : AddArgs
db_args = record no_args { id = codes "db"; token = codes "t1" }

abbrev parse_key : Str → Option ParsedKey
parse_key text = none

abbrev parse_duration : Str → Option ℤ
parse_duration text = none

abbrev with_db : Config
with_db = record base { backends = new_backend (codes "db") (codes "t1") ∷ [] }

db_added :
    add decode encode none (λ s. s) parse_key parse_duration [] db_args disk
    ≡ (disk_after, added (codes "t1") (codes "hub:7000") (codes "hub"))
unfolding add outcome report add_backend contains_any has_prefix read_config decode backend_by_id
    save encode str_eq hub_address domain_of or_unknown configured_hub loaded load or_invalid
    validate check_users ℕ_discrete insert lookup contains generate_token new_backend check_backend
    check_backends check_mode check_names check_routes check_token check_wait control_port
    join_host_port encode_backends is_db trim_left trim_prefix trim_right trim_space has_byte
    last_index take bracketed plain split_host_port starts_bracket
db_added = refl

db_loaded : load decode parse_key parse_duration disk_after.content ≡ ok with_db
unfolding load decode or_invalid validate check_users check_wait check_backends check_backend
    contains trim_space trim_left trim_right ℕ_discrete check_token lookup insert check_mode str_eq
    check_names check_routes
db_loaded = refl

abbrev db_request : RegisterRequest
db_request = record {
  transport = [];
  backend = codes "other";
  token = codes "t1";
  version = codes "0.9.0";
  os = codes "linux";
  arch = codes "amd64";
  host_key = [];
}

add-register_example :
    (register (resolve_token with_db) (codes "0.9.0") true (some (sent db_request))).1
    ≡ some (codes "db")
unfolding sent
add-register_example =
    add-register decode encode none (λ s. s) parse_key parse_duration [] db_args disk disk_after
      (codes "t1") (codes "hub:7000") (codes "hub") (codes "0.9.0") with_db db_request
      db-KeepsBackends db_added refl db_loaded refl
