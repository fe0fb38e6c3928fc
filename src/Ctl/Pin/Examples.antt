-- ===== src/Ctl/Pin/Examples.antt =====
-- A hub with a certificate of its own, and the pin that is shown for it.
use sshhub.Base.Results.{ok}
use sshhub.Base.{
  ℕ, zero, suc, ◌≡◌, ◌≢◌, refl, ap, true, List, [], ◌∷◌, Option, none, some, if◌then◌else◌, ◌==◌,
  ℕ_discrete, arith,
}
use sshhub.Text.{Str, codes, str_eq}
use sshhub.Config.{Config}
use sshhub.HubTls.{
  Crypto, KeyPair, TlsConfig, load_or_create, file_exists, load_key_pair, read_file,
  fingerprint_from_pem, fingerprint, client_config,
}
use sshhub.HubTls
use sshhub.Gateway.{
  control_tls, tls_paths, tls_hosts, host_part, default_tls_cert_path, default_tls_key_path,
}
use sshhub.Ctl.Pin.{CryptoLaws, control_plane_pin, cert_path, shown_of, pin, shown-accepted}

abbrev with_db : Config
with_db = record {
  listen = record { ssh = codes ":22"; control = codes ":7000" };
  public_host = codes "hub";
  auto_update_wait = none;
  host_key = codes "key";
  tls_cert = [];
  tls_key = [];
  control_tokens = [];
  backends = [];
  routes = [];
  jump_users = [];
}

repeat : ℕ → Str
repeat zero = []
repeat (suc n) = b'k' ∷ repeat n

abbrev crypto : Crypto
unfolding repeat
crypto = record {
  sha256 = λ s. repeat 32;
  encode64 = λ s. s;
  decode64 = λ s. some s;
  decode_pem = λ s. some (record { kind = codes "CERTIFICATE"; bytes = s });
  encode_pem = λ b. b.bytes;
  parse_certificate = λ s. some (record { raw_public_key_info = s });
  parse_ip = λ s. none;
  generate_key = some (codes "key");
  random_serial = some 1;
  create_certificate = λ t key. some (codes "cert");
  marshal_key = λ key. some key;
  key_pair = λ cert key. some (record { certificate = cert; key = key });
  now = 5;
  ten_years_on = λ n. n;
}

crypto-CryptoLaws : CryptoLaws crypto
unfolding crypto repeat
crypto-CryptoLaws = record {
  leaf = λ cert key p b pair block kind. ground (arith, ap (λ (o : Option KeyPair). o) pair);
  sum_size = λ s. refl;
  decode_encode = λ s. refl;
  encodes_something = λ s h. h;
}

abbrev tls_disk : HubTls.Disk
tls_disk = record {
  readable = λ p. true;
  make_dir = λ p. true;
  writable = λ p. true;
  partial = λ p. none;
  dir = λ p. p;
}

tls_files : HubTls.Files
tls_files p =
    if p == default_tls_cert_path
    then some (codes "cert")
    else if p == default_tls_key_path
    then some (codes "key")
    else none

abbrev hub_pair : KeyPair
hub_pair = record { certificate = codes "cert"; key = codes "key" }

hub_started : control_tls crypto tls_disk with_db none tls_files ≡ (tls_files, ok hub_pair)
unfolding control_tls tls_paths tls_hosts host_part load_or_create file_exists load_key_pair
    read_file tls_files str_eq ℕ_discrete crypto
hub_started = refl

abbrev hub_pin : Str
hub_pin = codes "sha256:kkkkkkkkkkkkkkkkkkkkkkkkkkkkkkkk"

hub_pin_shown : control_plane_pin crypto tls_disk (some with_db) tls_files ≡ pin hub_pin
unfolding control_plane_pin cert_path read_file tls_files shown_of fingerprint_from_pem fingerprint
    str_eq ℕ_discrete crypto repeat
hub_pin_shown = refl

different_paths : (tls_paths with_db).0 ≢ (tls_paths with_db).1
unfolding tls_paths
different_paths e = ground (arith, e)

shown-accepted_example :
    (tls : TlsConfig) × (client_config crypto (codes "hub") hub_pin ≡ ok tls)
    × ((check_certificates : List Str → HubTls.Result (Unit {0})) × (tls.verify_peer_certificate
          ≡ some check_certificates)
        × (check_certificates (hub_pair.certificate ∷ []) ≡ ok tt))
shown-accepted_example =
    shown-accepted crypto tls_disk with_db none tls_files tls_files hub_pair hub_pin (codes "hub")
      crypto-CryptoLaws refl different_paths hub_started hub_pin_shown

-- With a certificate but no key configured, the tool shows the pin of the configured certificate, and the
-- hub takes the default pair.
abbrev half : Config
half = record with_db { tls_cert = codes "/etc/own.pem" }

half_paths :
    (cert_path (some half) ≡ codes "/etc/own.pem") × ((tls_paths half).0 ≡ default_tls_cert_path)
unfolding cert_path tls_paths
half_paths = (refl, refl)
