-- ===== src/Gateway/Boot/Examples.antt =====
-- The start of a hub that has no certificate yet, and its second start.
use sshhub.Base.Results.{ok}
use sshhub.Base.Results
use sshhub.Base.{
  refl, true, false, Option, none, some, nat_eq, ◌==◌, if◌then◌else◌, ℕ_discrete, arith, contains,
}
use sshhub.Base.Dict.{lookup, insert}
use sshhub.Text.{Str, codes, str_eq, trim_space, trim_left, trim_right}
use sshhub.Config.{Config}
use sshhub.Config.Lookup.{backend_by_id}
use sshhub.Config.Load.{load, or_invalid}
use sshhub.Config.Validate.{
  validate, check_users, check_keys, check_grants, good_key, check_wait, check_backends,
  check_backend, check_token, check_mode, check_names, check_routes,
}
use sshhub.HubTls.{
  Crypto, Files, Disk, write_file, read_file, file_exists, load_or_create, persist,
  generate_self_signed, template_for, subject_names, or_localhost,
}
use sshhub.Proxy.{has_open_jump_user}
use sshhub.Proxy.New.{Server, new_server}
use sshhub.Gateway.{
  control_tls, tls_paths, tls_hosts, host_part, default_tls_cert_path, default_tls_key_path,
}
use sshhub.Gateway.Boot.{BootError, Running, running, with_proxy, with_tls, with_config, boot}
use sshhub.Gateway.Boot.Ready.{Ready, boot-Ready}
use sshhub.Gateway.Boot.Again.{boot-again}
use sshhub.Gateway.Examples.{config, parse_key, parse_duration, limiter}

abbrev crypto : Crypto
crypto = record {
  sha256 = λ s. s;
  encode64 = λ s. s;
  decode64 = λ s. some s;
  decode_pem = λ s. none;
  encode_pem = λ b. b.bytes;
  parse_certificate = λ s. some (record { raw_public_key_info = s });
  parse_ip = λ s. none;
  generate_key = some (codes "key");
  random_serial = some 1;
  create_certificate = λ t key. some (codes "cert");
  marshal_key = λ key. some key;
  key_pair = λ cert key. some (record { certificate = cert; key = key });
  now = 5;
  ten_years_on = λ n. n;
}

abbrev disk : Disk
disk = record {
  readable = λ p. true;
  make_dir = λ p. true;
  writable = λ p. true;
  partial = λ p. none;
  dir = λ p. p;
}

-- The configuration and the host key, and no certificate yet.
abbrev installed : Files
installed p =
    if p == codes "hub.yaml"
    then some (codes "yaml")
    else if p == codes "key"
    then some (codes "host key")
    else none

abbrev decode : Str → Option Config
decode text = some config

abbrev parse_private_key : Str → Option Str
parse_private_key text = some text

first_files : Files
unfolding write_file
first_files =
    (write_file disk default_tls_cert_path (codes "cert")
      (write_file disk default_tls_key_path (codes "key") installed).0).0

abbrev proxy : Server Str
proxy = record {
  config = config;
  ssh_config = record { max_auth_tries = 24; no_client_auth = false; host_key = codes "host key" };
  limiter = limiter;
}

hub : Running Str
unfolding running
hub =
    running parse_key parse_duration config
      (record { certificate = codes "cert"; key = codes "key" }) proxy

first_boot :
    Path
      (Files × Results.Result BootError (Running Str))
      (boot parse_key parse_duration parse_private_key disk decode crypto none
        (codes "hub.yaml")
        installed)
      (first_files, ok hub)
unfolding boot with_config with_tls with_proxy running load or_invalid validate check_users
    check_keys check_grants good_key backend_by_id check_wait check_backends check_backend
    check_token check_mode check_names check_routes contains lookup insert trim_space trim_left
    trim_right str_eq ℕ_discrete control_tls tls_paths tls_hosts host_part load_or_create
    generate_self_signed template_for subject_names or_localhost persist write_file file_exists
    read_file new_server has_open_jump_user first_files hub
first_boot = refl

boot-Ready_example :
    Ready decode parse_key parse_duration parse_private_key crypto disk none
      (codes "hub.yaml")
      installed
      first_files
      hub
boot-Ready_example =
    boot-Ready decode parse_key parse_duration parse_private_key crypto disk none (codes "hub.yaml")
      installed first_files hub first_boot

boot-again_example :
    Path
      (Files × Results.Result BootError (Running Str))
      (boot parse_key parse_duration parse_private_key disk decode crypto
        (some (codes "box"))
        (codes "hub.yaml")
        first_files)
      (first_files, ok hub)
unfolding hub running tls_paths
boot-again_example =
    boot-again parse_key parse_duration parse_private_key disk decode crypto none
      (some (codes "box")) (codes "hub.yaml") installed first_files hub (λ e. ground (arith, e))
      (λ e. ground (arith, e)) (λ e. ground (arith, e)) refl refl first_boot
