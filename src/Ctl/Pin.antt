-- ===== src/Ctl/Pin.antt =====
-- The pin that `sshhub-ctl pin` and `sshhub-ctl add` show (cmd/sshhub-ctl/main.go), against the identity
-- that the hub has (cmd/sshhub/main.go) and the check that the agent makes (internal/hubtls/hubtls.go).
mod Examples
use mathlib.Core.Option.{some-injective}
use sshhub.Base.Results.{
  ok, err, ◌>>=◌, ◌>>◌, reject_if, or_fail, err-ne-ok, from_ok, bind_inv, reject_if_inv,
  or_fail_inv, not-false,
}
use sshhub.Base.{
  Option-cases, ℕ_discrete, ◌≡◌, ◌≢◌, refl, sym, ap, subst, ◌∙◌, Bool, true, false, not, ◌||◌, List,
  [], ◌∷◌, ◌++◌, Option, none, some, arith, length, drop, leb, if◌then◌else◌, ◌==◌, ==_iff, nat_eq,
  Bool-cases, ◌⊎◌, inl, inr, ℕ,
}
use sshhub.Text.{Str, codes, is_empty, str_eq}
use sshhub.Text.Cut.{take}
use sshhub.Config.{Config}
use sshhub.HubTls.{
  Crypto, Certificate, PemBlock, KeyPair, Files, Disk, TlsConfig, TlsError, Result, read_file,
  fingerprint, fingerprint_from_pem, parse_pin, verify_pin, client_config, tls12, prefix,
  sha256_size, no_pem,
}
use sshhub.HubTls.Pin.{HasPin, verify_pin_iff}
use sshhub.HubTls.Origin.{Stored}
use sshhub.HubTls.Identity.{load_or_create-Stored}
use sshhub.Gateway.{default_tls_cert_path, tls_paths, tls_hosts, control_tls}

-- The text that is shown: a pin, or a placeholder that says what is wrong.
pub data Shown : Type 0 where
  not_started : Shown
  unreadable : TlsError → Shown
  pin : Str → Shown

-- The path of the certificate, given what `config.Load` gives.
unfoldable pub cert_path : Option Config → Str
cert_path none = default_tls_cert_path
cert_path (some cfg) = if is_empty cfg.tls_cert then default_tls_cert_path else cfg.tls_cert

unfoldable pub shown_of : Result Str → Shown
shown_of (err e) = unreadable e
shown_of (ok p) = pin p

unfoldable pub control_plane_pin : Crypto → Disk → Option Config → Files → Shown
control_plane_pin c d cfg files = elim (read_file d files (cert_path cfg)) [
  | none ↦ not_started
  | some data_read ↦ shown_of (fingerprint_from_pem c data_read)
]

-- What is documented of the cryptography: the leaf of a key pair is the first block of its certificate
-- file where that is a certificate, a SHA-256 sum has its size, and base64 gives back what it encodes.
pub record CryptoLaws (c : Crypto) : Type 0 where
  pub leaf :
      (cert key : Str) (p : KeyPair) (b : PemBlock)
      → c.key_pair cert key ≡ some p
      → c.decode_pem cert ≡ some b
      → b.kind ≡ codes "CERTIFICATE"
      → p.certificate ≡ b.bytes
  pub sum_size : (s : Str) → length (c.sha256 s) ≡ sha256_size
  pub decode_encode : (s : Str) → c.decode64 (c.encode64 s) ≡ some s
  pub encodes_something : (s : Str) → is_empty s ≡ false → is_empty (c.encode64 s) ≡ false

-- The hub and the tool take the same file where a certificate and a key are configured, or neither.
cert_path-tls_paths :
    (cfg : Config)
    → is_empty cfg.tls_cert ≡ is_empty cfg.tls_key
    → cert_path (some cfg) ≡ (tls_paths cfg).0
unfolding cert_path tls_paths
cert_path-tls_paths cfg h = ground (arith, h)

long_pin : (s : Str) → is_empty s ≡ false → leb (length (prefix ++ s)) (length prefix) ≡ false
long_pin [] h = cc
long_pin (b ∷ s) h = ground arith

sum_not_empty : (s : Str) → length s ≡ sha256_size → is_empty s ≡ false
sum_not_empty [] h = ground (arith, h)
sum_not_empty (b ∷ s) h = refl

fingerprint-parse_pin :
    (c : Crypto) (cert : Certificate)
    → CryptoLaws c
    → parse_pin c (fingerprint c cert) ≡ ok (c.sha256 cert.raw_public_key_info)
unfolding parse_pin fingerprint take str_eq ℕ_discrete
fingerprint-parse_pin c cert laws =
    let sum = c.sha256 cert.raw_public_key_info in
    let long =
      long_pin (c.encode64 sum)
        (laws.encodes_something sum (sum_not_empty sum (laws.sum_size cert.raw_public_key_info))) in
    rw (long, laws.decode_encode sum, laws.sum_size cert.raw_public_key_info, parse_pin) refl

read_file-some :
    (d : Disk) (files : Files) (path text : Str)
    → read_file d files path ≡ some text
    → files path ≡ some text
unfolding read_file
read_file-some d files path text h = ground arith

shown_of-pin : (r : Result Str) (p : Str) → shown_of r ≡ pin p → r ≡ ok p
unfolding shown_of
shown_of-pin (err e) p h = absurd (cc)
shown_of-pin (ok q) p h = ground arith

-- What a shown pin is the fingerprint of.
record Source (c : Crypto) (files : Files) (path p : Str) : Type 0 where
  text : Str
  block : PemBlock
  cert : Certificate
  has_text : files path ≡ some text
  decoded : c.decode_pem text ≡ some block
  is_certificate : block.kind ≡ codes "CERTIFICATE"
  parsed : c.parse_certificate block.bytes ≡ some cert
  same_pin : fingerprint c cert ≡ p

fingerprint_from_pem-Source :
    (c : Crypto) (files : Files) (path p text : Str)
    → files path ≡ some text
    → fingerprint_from_pem c text ≡ ok p
    → Source c files path p
unfolding fingerprint_from_pem
fingerprint_from_pem-Source c files path p text there h =
    let (block, decoded, h1) = or_fail_inv (c.decode_pem text) _ _ h in
    let (kind, h2) = reject_if_inv (not (block.kind == codes "CERTIFICATE")) no_pem _ h1 in
    let (cert, parsed, h3) = or_fail_inv (c.parse_certificate block.bytes) _ _ h2 in
    record {
      text = text;
      block = block;
      cert = cert;
      has_text = there;
      decoded = decoded;
      is_certificate = (==_iff block.kind (codes "CERTIFICATE")).0 (not-false _ kind);
      parsed = parsed;
      same_pin = from_ok h3;
    }

control_plane_pin-Source :
    (c : Crypto) (d : Disk) (cfg : Option Config) (files : Files) (p : Str)
    → control_plane_pin c d cfg files ≡ pin p
    → Source c files (cert_path cfg) p
unfolding control_plane_pin
control_plane_pin-Source c d cfg files p h =
    elim (Option-cases (read_file d files (cert_path cfg))) [
      | inl e ↦ absurd (ground (arith, rw (e, control_plane_pin) at h))
      | inr (text, e) ↦
          fingerprint_from_pem-Source c files (cert_path cfg) p text
            (read_file-some d files _ text e)
            (shown_of-pin (fingerprint_from_pem c text) p (rw (e, control_plane_pin) at h))
    ]

abbrev pinned : Crypto → Str → Str → TlsConfig
pinned c server_name p = record {
  server_name = server_name;
  min_version = tls12;
  insecure_skip_verify = true;
  verify_peer_certificate = some (verify_pin c p);
}

client_config-pinned :
    (c : Crypto) (server_name p raw : Str)
    → parse_pin c p ≡ ok raw
    → client_config c server_name p ≡ ok (pinned c server_name p)
unfolding client_config parse_pin
client_config-pinned c server_name [] raw h = absurd (err-ne-ok h)
client_config-pinned c server_name (b ∷ p) raw h = rw (h, client_config) refl

Source-HasPin :
    (c : Crypto) (d : Disk) (files : Files) (path key_path p : Str) (pair : KeyPair)
    → CryptoLaws c
    → Source c files path p
    → Stored c d path key_path files pair
    → HasPin c p (pair.certificate ∷ [])
Source-HasPin c d files path key_path p pair laws source stored =
    let same : source.text ≡ stored.cert =
      some-injective source.text stored.cert (sym source.has_text ∙ stored.has_cert) in
    let decoded = subst (λ t. c.decode_pem t ≡ some source.block) same source.decoded in
    let leaf =
      laws.leaf stored.cert stored.key pair source.block stored.parses decoded
        source.is_certificate in
    (
      source.cert,
      subst (λ b. c.parse_certificate b ≡ some source.cert) (sym leaf) source.parsed,
      source.same_pin,
    )

-- The pin that the tool shows is the one that agents need: where the hub came up with the key pair
-- `pair`, and the tool then shows a pin, an agent that is given the pin has a TLS configuration with a
-- check of certificates, and the check accepts the hub's certificate. The configuration names both a
-- certificate and a key, or neither, the two files of the hub are different, and the cryptography has
-- the laws of `CryptoLaws`.
pub shown-accepted :
    (c : Crypto) (d : Disk) (cfg : Config) (hostname : Option Str) (files files' : Files)
    (pair : KeyPair) (p server_name : Str)
    → CryptoLaws c
    → is_empty cfg.tls_cert ≡ is_empty cfg.tls_key
    → (tls_paths cfg).0 ≢ (tls_paths cfg).1
    → control_tls c d cfg hostname files ≡ (files', ok pair)
    → control_plane_pin c d (some cfg) files' ≡ pin p
    → (tls : TlsConfig) × (client_config c server_name p ≡ ok tls)
      × ((check : List Str → Result (Unit {0})) × (tls.verify_peer_certificate ≡ some check)
          × (check (pair.certificate ∷ []) ≡ ok tt))
unfolding control_tls
shown-accepted c d cfg hostname files files' pair p server_name laws both apart started shown =
    let source = control_plane_pin-Source c d (some cfg) files' p shown in
    let (_, stored) =
      load_or_create-Stored c d (tls_paths cfg).0 (tls_paths cfg).1 (tls_hosts cfg hostname) files
        files' pair apart started in
    let same_file = cert_path-tls_paths cfg both in
    let at_hub = subst (λ path. Source c files' path p) same_file source in
    let has_pin =
      Source-HasPin c d files' (tls_paths cfg).0 (tls_paths cfg).1 p pair laws at_hub stored in
    let parsed =
      subst (λ q. parse_pin c q ≡ ok (c.sha256 source.cert.raw_public_key_info)) source.same_pin
        (fingerprint-parse_pin c source.cert laws) in
    (
      pinned c server_name p,
      client_config-pinned c server_name p _ parsed,
      (verify_pin c p, refl, (verify_pin_iff c p (pair.certificate ∷ [])).1 has_pin),
    )
