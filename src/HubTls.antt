-- ===== src/HubTls.antt =====
-- internal/hubtls/hubtls.go: the hub's TLS identity, and how an agent pins it. X.509, PEM, SHA-256,
-- base64 and the key generation are a parameter, `Crypto`; an error of theirs is `none`.
pub mod Pin
pub mod Origin
pub mod Identity
mod Examples
use sshhub.Base.Results.{ok, err, ◌>>=◌, ◌>>◌, reject_if, or_fail}
use sshhub.Base.Results
use sshhub.Base.{
  ℕ, suc, ◌+◌, ◌-◌, ◌*◌, Bool, true, false, not, ◌&&◌, ◌||◌, List, [], ◌∷◌, ◌++◌, Option, none,
  some, leb, drop, length, if◌then◌else◌, ◌==◌, nat_eq, bit_or, bit_xor,
}
use sshhub.Base.Dict.{Map, put}
use sshhub.Text.{Str, codes, is_empty, str_eq}
use sshhub.Text.Cut.{take}

-- A certificate, as far as it is read: the raw SubjectPublicKeyInfo.
pub record Certificate : Type 0 where
  pub raw_public_key_info : Str

pub record PemBlock : Type 0 where
  pub kind : Str
  pub bytes : Str

-- The parts of the certificate template that depend on something.
pub record Template : Type 0 where
  pub serial : ℕ
  pub not_before : ℕ
  pub not_after : ℕ
  pub ip_addresses : List Str
  pub dns_names : List Str

-- The pair that `tls.X509KeyPair` makes of the two PEM texts.
pub record KeyPair : Type 0 where
  pub certificate : Str
  pub key : Str

pub record Crypto : Type 0 where
  pub sha256 : Str → Str
  pub encode64 : Str → Str
  pub decode64 : Str → Option Str
  pub decode_pem : Str → Option PemBlock
  pub encode_pem : PemBlock → Str
  pub parse_certificate : Str → Option Certificate
  pub parse_ip : Str → Option Str
  pub generate_key : Option Str
  pub random_serial : Option ℕ
  pub create_certificate : Template → Str → Option Str
  pub marshal_key : Str → Option Str
  pub key_pair : Str → Str → Option KeyPair
  -- `time.Now`, and `AddDate(10, 0, 0)`
  pub now : ℕ
  pub ten_years_on : ℕ → ℕ

pub data TlsError : Type 0 where
  no_pem bad_certificate no_paths bad_pair incomplete_pair no_key no_serial no_certificate
        no_key_der :
      TlsError
  cannot_create cannot_write_key cannot_write_certificate bad_generated_pair : TlsError
  pin_prefix pin_base64 pin_size no_peer_certificate bad_peer_certificate pin_mismatch : TlsError

abbrev pub Result {ℓ} : Type ℓ → Type ℓ
Result A = Results.Result TlsError A

abbrev pub hour : ℕ
hour = 3600 * 1_000_000_000

abbrev pub sha256_size : ℕ
sha256_size = 32

abbrev pub prefix : Str
prefix = codes "sha256:"

abbrev pub tls12 : ℕ
tls12 = 771

-- `diff |= a[i] ^ b[i]`, over texts of the same length.
unfoldable pub differences : ℕ → Str → Str → ℕ
differences diff [] b = diff
differences diff (x ∷ a) [] = diff
differences diff (x ∷ a) (y ∷ b) = differences (bit_or diff (bit_xor x y)) a b

unfoldable pub constant_time_equal : Str → Str → Bool
constant_time_equal a b = if not (length a == length b) then false else differences 0 a b == 0

pub record TlsConfig : Type 0 where
  pub server_name : Str
  pub min_version : ℕ
  pub insecure_skip_verify : Bool
  pub verify_peer_certificate : Option (List Str → Result (Unit {0}))

module _ (c : Crypto) where
  unfoldable pub fingerprint : Certificate → Str
  fingerprint cert = prefix ++ c.encode64 (c.sha256 cert.raw_public_key_info)

  unfoldable pub fingerprint_from_pem : Str → Result Str
  fingerprint_from_pem pem = do
    block ← or_fail (c.decode_pem pem) no_pem
    reject_if (not (block.kind == codes "CERTIFICATE")) no_pem
    cert ← or_fail (c.parse_certificate block.bytes) bad_certificate
    ok (fingerprint cert)

  unfoldable pub parse_pin : Str → Result Str
  parse_pin pin = do
    reject_if (leb (length pin) (length prefix) || not (take (length prefix) pin == prefix))
        pin_prefix
    raw ← or_fail (c.decode64 (drop (length prefix) pin)) pin_base64
    reject_if (not (length raw == sha256_size)) pin_size
    ok raw

  -- The closure `VerifyPeerCertificate`, over the raw certificates that the hub presents.
  unfoldable pub verify_pin : Str → List Str → Result (Unit {0})
  verify_pin pin [] = err no_peer_certificate
  verify_pin pin (raw ∷ more) = do
    cert ← or_fail (c.parse_certificate raw) bad_peer_certificate
    reject_if (not (constant_time_equal (fingerprint cert) pin)) pin_mismatch

  unfoldable pub client_config : Str → Str → Result TlsConfig
  client_config server_name pin =
      if is_empty pin
      then ok (record {
        server_name = server_name;
        min_version = tls12;
        insecure_skip_verify = false;
        verify_peer_certificate = none;
      })
      else (do
        parse_pin pin
        ok (record {
          server_name = server_name;
          min_version = tls12;
          insecure_skip_verify = true;
          verify_peer_certificate = some (verify_pin pin);
        }))

  -- The loop over the hosts: addresses, and names that are not empty.
  unfoldable pub subject_names : List Str → List Str → List Str → List Str × List Str
  subject_names [] ips names = (ips, names)
  subject_names (h ∷ hosts) ips names = elim (c.parse_ip h) [
    | some ip ↦ subject_names hosts (ips ++ ip ∷ []) names
    | none ↦
        let rest = subject_names hosts ips (names ++ h ∷ []) in
        let same = subject_names hosts ips names in if is_empty h then same else rest
  ]

  -- Without any name the certificate is for the local host.
  unfoldable pub or_localhost : List Str × List Str → List Str × List Str
  or_localhost ([], []) = (
    elim (c.parse_ip (codes "127.0.0.1")) [ none ↦ [] ∷ [] | some ip ↦ ip ∷ [] ],
    codes "localhost" ∷ [],
  )
  or_localhost ([], n ∷ ns) = ([], n ∷ ns)
  or_localhost (ip ∷ ips, ns) = (ip ∷ ips, ns)

  unfoldable pub template_for : ℕ → List Str → Template
  template_for serial hosts =
      let (ips, names) = or_localhost (subject_names hosts [] []) in
      record {
        serial = serial;
        not_before = c.now - hour;
        not_after = c.ten_years_on c.now;
        ip_addresses = ips;
        dns_names = names;
      }

  -- The PEM texts of the certificate and of its key.
  unfoldable pub generate_self_signed : List Str → Result (Str × Str)
  generate_self_signed hosts = do
    key ← or_fail c.generate_key no_key
    serial ← or_fail c.random_serial no_serial
    der ← or_fail (c.create_certificate (template_for serial hosts) key) no_certificate
    key_der ← or_fail (c.marshal_key key) no_key_der
    ok (
      c.encode_pem (record { kind = codes "CERTIFICATE"; bytes = der }),
      c.encode_pem (record { kind = codes "EC PRIVATE KEY"; bytes = key_der }),
    )

-- What `ServerConfig` gives the control plane's listener.
pub record ServerTls : Type 0 where
  pub certificates : List KeyPair
  pub min_version : ℕ

unfoldable pub server_config : KeyPair → ServerTls
server_config pair = record { certificates = pair ∷ []; min_version = tls12 }

-- The files that are no directories, and which operations on them succeed. A write that fails leaves
-- what `partial` says.
abbrev pub Files : Type 0
Files = Map Str Str

pub record Disk : Type 0 where
  pub readable : Str → Bool
  pub make_dir : Str → Bool
  pub writable : Str → Bool
  pub partial : Str → Option Str
  -- `filepath.Dir`
  pub dir : Str → Str

unfoldable pub file_exists : Files → Str → Bool
file_exists files p = elim (files p) [ none ↦ false | some _ ↦ true ]

-- `os.WriteFile`, and whether it succeeds.
unfoldable pub write_file : Disk → Str → Str → Files → Files × Bool
write_file d p text files =
    if d.writable p
    then (put p text files, true)
    else ((λ q. if q == p then d.partial p else files q), false)

unfoldable pub read_file : Disk → Files → Str → Option Str
read_file d files p = if d.readable p then files p else none

module _ (c : Crypto) (d : Disk) where
  -- `tls.LoadX509KeyPair`
  unfoldable pub load_key_pair : Files → Str → Str → Option KeyPair
  load_key_pair files cert_path key_path = elim (read_file d files cert_path) [
    | none ↦ none
    | some cert ↦ elim (read_file d files key_path) [ none ↦ none | some key ↦ c.key_pair cert key ]
  ]

  -- The new pair, written: the key first.
  unfoldable pub persist : Str → Str → Str → Str → Files → Files × Result KeyPair
  persist cert_path key_path cert key files =
      if not (d.make_dir (d.dir cert_path) && d.make_dir (d.dir key_path))
      then (files, err cannot_create)
      else let (files', key_written) = write_file d key_path key files in
        let (files'', cert_written) = write_file d cert_path cert files' in
        if not key_written
        then (files', err cannot_write_key)
        else if not cert_written
        then (files'', err cannot_write_certificate)
        else (files'', or_fail (c.key_pair cert key) bad_generated_pair)

  unfoldable pub load_or_create : Str → Str → List Str → Files → Files × Result KeyPair
  load_or_create cert_path key_path hosts files =
      if is_empty cert_path || is_empty key_path
      then (files, err no_paths)
      else if file_exists files cert_path && file_exists files key_path
      then (files, or_fail (load_key_pair files cert_path key_path) bad_pair)
      else if file_exists files cert_path || file_exists files key_path
      then (files, err incomplete_pair)
      else elim (generate_self_signed c hosts) [
        | err e ↦ (files, err e)
        | ok (cert, key) ↦ persist cert_path key_path cert key files
      ]
