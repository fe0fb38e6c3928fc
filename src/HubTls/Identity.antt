-- ===== src/HubTls/Identity.antt =====
-- The hub's certificate over restarts: `LoadOrCreate` of internal/hubtls/hubtls.go.
use sshhub.Base.Results.{ok}
use sshhub.Base.{
  ◌≡◌, ◌≢◌, refl, sym, ap, subst, ◌∙◌, true, false, ◌||◌, List, some, arith, eq_self, inl, inr,
}
use sshhub.Text.{Str, is_empty, str_eq}
use sshhub.HubTls.{
  Crypto, KeyPair, Files, Disk, file_exists, read_file, load_key_pair, load_or_create,
}
use sshhub.HubTls.Origin.{Stored, Origin, load_or_create-Origin}

module _ (c : Crypto) (d : Disk) (cert_path key_path : Str) where
  file_exists-true :
      (files : Files) (p text : Str) → files p ≡ some text → file_exists files p ≡ true
  unfolding file_exists
  file_exists-true files p text h = ground arith

  -- With both files there and readable, they are what counts.
  Stored-load :
      (hosts : List Str) (files : Files) (pair : KeyPair)
      → is_empty cert_path || is_empty key_path ≡ false
      → d.readable cert_path ≡ true
      → d.readable key_path ≡ true
      → Stored c d cert_path key_path files pair
      → load_or_create c d cert_path key_path hosts files ≡ (files, ok pair)
  unfolding load_or_create load_key_pair read_file
  Stored-load hosts files pair named rc rk s =
      let has_cert = file_exists-true files cert_path s.cert s.has_cert in
      let has_key = file_exists-true files key_path s.key s.has_key in
      ground (arith, s.has_cert, s.has_key, s.parses)

  Origin-Stored :
      (hosts : List Str) (files files' : Files) (pair : KeyPair)
      → cert_path ≢ key_path
      → Origin c d cert_path key_path hosts files files' pair
      → Stored c d cert_path key_path files' pair
  Origin-Stored hosts files files' pair apart (inl (same, s)) =
      subst (λ (f : Files). Stored c d cert_path key_path f pair) (sym same) s
  Origin-Stored hosts files files' pair apart (inr g) = record {
    cert = g.cert;
    key = g.key;
    has_cert = ap (λ (f : Files). f cert_path) g.written ∙ rw (eq_self cert_path) refl;
    has_key = ap (λ (f : Files). f key_path) g.written ∙ ground (arith, eq_self key_path);
    parses = g.parses;
  }

  -- Both texts of a success are in the files that it leaves, if these are different.
  pub load_or_create-Stored :
      (hosts : List Str) (files files' : Files) (pair : KeyPair)
      → cert_path ≢ key_path
      → load_or_create c d cert_path key_path hosts files ≡ (files', ok pair)
      → (is_empty cert_path || is_empty key_path ≡ false)
        × Stored c d cert_path key_path files' pair
  load_or_create-Stored hosts files files' pair apart h =
      let (named, origin) =
        load_or_create-Origin c d cert_path key_path hosts files files' pair h in
      (named, Origin-Stored hosts files files' pair apart origin)

-- The hub keeps its identity: once `LoadOrCreate` gives a key pair, whether it loaded or generated it,
-- every later call gives the same pair and leaves the files as they are, whatever host names it has.
-- The two paths are different, and both files can be read.
pub load_or_create-again :
    (c : Crypto) (d : Disk) (cert_path key_path : Str) (hosts later_hosts : List Str)
    (files files' : Files) (pair : KeyPair)
    → cert_path ≢ key_path
    → d.readable cert_path ≡ true
    → d.readable key_path ≡ true
    → load_or_create c d cert_path key_path hosts files ≡ (files', ok pair)
    → load_or_create c d cert_path key_path later_hosts files' ≡ (files', ok pair)
load_or_create-again c d cert_path key_path hosts later_hosts files files' pair apart rc rk h =
    let (named, stored) =
      load_or_create-Stored c d cert_path key_path hosts files files' pair apart h in
    Stored-load c d cert_path key_path later_hosts files' pair named rc rk stored

-- Nothing that is on the disk is overwritten: where one of the two files exists the files stay as they
-- are, and where only one of them does the answer is an error.
pub load_or_create-existing :
    (c : Crypto) (d : Disk) (cert_path key_path : Str) (hosts : List Str) (files : Files)
    → file_exists files cert_path || file_exists files key_path ≡ true
    → ((load_or_create c d cert_path key_path hosts files).0 ≡ files)
      × ((pair : KeyPair)
          → (load_or_create c d cert_path key_path hosts files).1 ≡ ok pair
          → (file_exists files cert_path ≡ true) × (file_exists files key_path ≡ true))
unfolding load_or_create
load_or_create-existing c d cert_path key_path hosts files h =
    (ground arith, λ pair e. ground arith)
