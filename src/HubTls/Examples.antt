-- ===== src/HubTls/Examples.antt =====
-- A hub that makes its certificate and an agent that pins it, with keys that stand for themselves.
use sshhub.Base.Results.{ok}
use sshhub.Base.{
  ℕ, zero, suc, ◌≡◌, ◌↔◌, ◌⊎◌, refl, true, false, List, [], ◌∷◌, none, some, ◌==◌, ℕ_discrete, ◌||◌,
  ◌++◌, if◌then◌else◌,
}
use sshhub.Text.{Str, codes, str_eq}
use sshhub.Text.Cut.{take}
use sshhub.HubTls.{
  Crypto, KeyPair, TlsConfig, Files, Disk, Result, file_exists, write_file, persist,
  generate_self_signed, template_for, subject_names, or_localhost, load_or_create, client_config,
  verify_pin, parse_pin, tls12,
}
use sshhub.HubTls.Pin.{HasPin, client_config-HasPin}
use sshhub.HubTls.Identity.{load_or_create-existing}

repeat : ℕ → Str
repeat zero = []
repeat (suc n) = b'k' ∷ repeat n

abbrev crypto : Crypto
crypto = record {
  sha256 = λ s. s;
  encode64 = λ s. s;
  decode64 = λ s. some s;
  decode_pem = λ s. none;
  encode_pem = λ b. b.bytes;
  parse_certificate = λ s. some (record { raw_public_key_info = s });
  parse_ip = λ s. none;
  generate_key = some (codes "key");
  random_serial = some 1;
  create_certificate = λ t key. some (codes "cert");
  marshal_key = λ key. some key;
  key_pair = λ cert key. some (record { certificate = cert; key = key });
  now = 5;
  ten_years_on = λ n. n;
}

abbrev disk : Disk
disk = record {
  readable = λ p. true;
  make_dir = λ p. true;
  writable = λ p. true;
  partial = λ p. none;
  dir = λ p. p;
}

abbrev none_yet : Files
none_yet p = none

abbrev pair : KeyPair
pair = record { certificate = codes "cert"; key = codes "key" }

first_files : Files
unfolding write_file
first_files =
    (write_file disk (codes "c") (codes "cert")
      (write_file disk (codes "k") (codes "key") none_yet).0).0

first_start :
    load_or_create crypto disk (codes "c") (codes "k") (codes "hub" ∷ []) none_yet
    ≡ (first_files, ok pair)
unfolding load_or_create generate_self_signed template_for subject_names or_localhost persist
    write_file file_exists first_files
first_start = refl

abbrev only_key : Files
only_key p = if p == codes "k" then some (codes "old") else none

one_exists : file_exists only_key (codes "c") || file_exists only_key (codes "k") ≡ true
unfolding file_exists str_eq ℕ_discrete
one_exists = refl

load_or_create-existing_example :
    ((load_or_create crypto disk (codes "c") (codes "k") [] only_key).0 ≡ only_key)
    × ((p : KeyPair)
        → (load_or_create crypto disk (codes "c") (codes "k") [] only_key).1 ≡ ok p
        → (file_exists only_key (codes "c") ≡ true) × (file_exists only_key (codes "k") ≡ true))
load_or_create-existing_example =
    load_or_create-existing crypto disk (codes "c") (codes "k") [] only_key one_exists

pin : Str
unfolding repeat
pin = codes "sha256:" ++ repeat 32

pinned : TlsConfig
unfolding pin
pinned = record {
  server_name = codes "hub";
  min_version = tls12;
  insecure_skip_verify = true;
  verify_peer_certificate = some (verify_pin crypto pin);
}

has_config : client_config crypto (codes "hub") pin ≡ ok pinned
unfolding client_config parse_pin pin pinned repeat take str_eq ℕ_discrete
has_config = refl

client_config-HasPin_example :
    ((pin ≡ []) × (pinned.insecure_skip_verify ≡ false) × (pinned.verify_peer_certificate ≡ none))
    ⊎ ((raw : Str) × (parse_pin crypto pin ≡ ok raw)
        × (pinned.insecure_skip_verify ≡ true)
        × ((check : List Str → Result (Unit {0})) × (pinned.verify_peer_certificate ≡ some check)
            × ((certs : List Str) → (check certs ≡ ok tt) ↔ HasPin crypto pin certs)))
client_config-HasPin_example = client_config-HasPin crypto (codes "hub") pin pinned has_config
