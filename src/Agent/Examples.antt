-- ===== src/Agent/Examples.antt =====
-- An agent at its start and through an outage, and the theorems on it there.
use sshhub.Base.Results.{ok}
use sshhub.Base.{
  All, Bool, ◌≡◌, refl, true, false, [], ◌∷◌, Option, none, some, arith, length, ◌==◌, ℕ_discrete,
  List,
}
use sshhub.Text.{Str, codes, str_eq, trim_space, trim_left, trim_right}
use sshhub.Text.Host.{split_host_port, bracketed, plain, starts_bracket}
use sshhub.Text.Cut.{last_index, take, has_byte}
use sshhub.HubTls.{Crypto, client_config, verify_pin, parse_pin, tls12, TlsConfig}
use sshhub.Control.Client.{is_local_sshd}
use sshhub.Agent.{
  Flags, FileInfo, first_loop, Round, unreachable, served, Settings, checked, choose_tls, start,
  run, server_name_of, has_private_file, is_private,
}
use sshhub.Agent.Start.{Sound, start-Sound}
use sshhub.Agent.Backoff.{Alive, Bounded, run-Alive}

abbrev crypto : Crypto
crypto = record {
  sha256 = λ s. s;
  encode64 = λ s. s;
  decode64 = λ s. some s;
  decode_pem = λ s. none;
  encode_pem = λ b. b.bytes;
  parse_certificate = λ s. none;
  parse_ip = λ s. none;
  generate_key = none;
  random_serial = none;
  create_certificate = λ t key. none;
  marshal_key = λ key. none;
  key_pair = λ cert key. none;
  now = 5;
  ten_years_on = λ n. n;
}

abbrev flags : Flags
flags = record {
  hub = codes "hub:7000";
  token_file = codes "/t";
  backend = [];
  sshd = codes "127.0.0.1:22";
  pin = codes "sha256:kkkkkkkkkkkkkkkkkkkkkkkkkkkkkkkk";
  insecure = false;
}

abbrev info : FileInfo
info = record { is_regular = true; perm = 384 }

abbrev loopback : Str → Option Bool
loopback host = some (host == codes "127.0.0.1")

abbrev pinned : TlsConfig
pinned = record {
  server_name = codes "hub";
  min_version = tls12;
  insecure_skip_verify = true;
  verify_peer_certificate = some (verify_pin crypto flags.pin);
}

abbrev settings : Settings
settings = record { token = codes "tok"; server_name = codes "hub"; tls = checked pinned }

starts : start crypto loopback (some info) (some (codes " tok\n")) flags ≡ ok settings
unfolding start has_private_file is_private is_local_sshd choose_tls client_config parse_pin
    server_name_of split_host_port bracketed plain starts_bracket has_byte last_index take
    trim_space trim_left trim_right str_eq ℕ_discrete
starts = refl

start-Sound_example : Sound crypto loopback (some info) (some (codes " tok\n")) flags settings
start-Sound_example =
    start-Sound crypto loopback (some info) (some (codes " tok\n")) flags settings starts

abbrev rounds : List Round
rounds = unreachable false true ∷ served false true ∷ unreachable false true ∷ []

run-Alive_example :
    Alive (length rounds) (run rounds first_loop) × All Bounded (run rounds first_loop).waits
run-Alive_example =
    run-Alive rounds first_loop ((refl, refl), ((refl, refl), ((refl, refl), tt)))
      (omega arith, omega arith)
