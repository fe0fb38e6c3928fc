-- ===== src/HubTls/Origin.antt =====
-- Where the key pair of `LoadOrCreate` in internal/hubtls/hubtls.go is from.
use sshhub.Base.Results.{ok, err, or_fail, err-ne-ok, or_fail-ok}
use sshhub.Base.{
  ◌≡◌, refl, sym, ap, ◌∙◌, false, ◌&&◌, ◌||◌, List, some, arith, Bool-cases, Option-cases, ◌⊎◌, inl,
  inr,
}
use sshhub.Base.Dict.{put}
use sshhub.Text.{Str, is_empty, str_eq}
use sshhub.HubTls.{
  Crypto, KeyPair, Result, Files, Disk, file_exists, load_key_pair, read_file, write_file, persist,
  generate_self_signed, load_or_create, bad_pair, bad_generated_pair,
}

module _ (c : Crypto) (d : Disk) (cert_path key_path : Str) where
  -- The texts that a success leaves in the two files.
  pub record Stored (files : Files) (pair : KeyPair) : Type 0 where
    pub cert : Str
    pub key : Str
    pub has_cert : files cert_path ≡ some cert
    pub has_key : files key_path ≡ some key
    pub parses : c.key_pair cert key ≡ some pair

  new_files : Str → Str → Files → Files
  new_files cert key files = put cert_path cert (put key_path key files)

  -- A success has written both files.
  persist-new_files :
      (cert key : Str) (files files' : Files) (pair : KeyPair)
      → persist c d cert_path key_path cert key files ≡ (files', ok pair)
      → persist c d cert_path key_path cert key files
        ≡ (new_files cert key files, or_fail (c.key_pair cert key) bad_generated_pair)
  unfolding persist write_file new_files
  persist-new_files cert key files files' pair h =
      elim (Bool-cases (d.make_dir (d.dir cert_path) && d.make_dir (d.dir key_path))) [
        | inr no_dirs ↦ absurd (ground arith)
        | inl dirs ↦ elim (Bool-cases (d.writable key_path)) [
          | inr no_key ↦ absurd (ground arith)
          | inl key_written ↦ elim (Bool-cases (d.writable cert_path)) [
            | inr no_cert ↦ absurd (ground arith)
            | inl cert_written ↦ ground arith
          ]
        ]
      ]

  load-Stored :
      (files : Files) (pair : KeyPair)
      → load_key_pair c d files cert_path key_path ≡ some pair
      → Stored files pair
  unfolding load_key_pair read_file
  load-Stored files pair h = elim (Option-cases (files cert_path)) [
    | inl e ↦ absurd (ground arith)
    | inr (cert, e) ↦ elim (Option-cases (files key_path)) [
      | inl e' ↦ absurd (ground arith)
      | inr (key, e') ↦ record {
        cert = cert;
        key = key;
        has_cert = e;
        has_key = e';
        parses = ground arith;
      }
    ]
  ]

module _ (c : Crypto) (d : Disk) (cert_path key_path : Str) (hosts : List Str) where
  -- Neither file was there, and a new pair has been written: the key first, then the certificate.
  pub record Generated (files files' : Files) (pair : KeyPair) : Type 0 where
    pub cert : Str
    pub key : Str
    pub absent : file_exists files cert_path || file_exists files key_path ≡ false
    pub made : generate_self_signed c hosts ≡ ok (cert, key)
    pub written : files' ≡ put cert_path cert (put key_path key files)
    pub parses : c.key_pair cert key ≡ some pair

  -- The pair is that of the texts found in the two files, which stay as they are, or a new one.
  abbrev pub Origin : Files → Files → KeyPair → Type 0
  Origin files files' pair =
      ((files' ≡ files) × Stored c d cert_path key_path files pair) ⊎ Generated files files' pair

  generated :
      (files files' : Files) (pair : KeyPair) (r : Result (Str × Str))
      → file_exists files cert_path || file_exists files key_path ≡ false
      → generate_self_signed c hosts ≡ r
      → (elim r [
        | err e ↦ (files, err e)
        | ok (cert, key) ↦ persist c d cert_path key_path cert key files
      ])
        ≡ (files', ok pair)
      → Generated files files' pair
  unfolding new_files
  generated files files' pair (err e) absent g h =
      absurd (err-ne-ok (ap (λ (x : Files × Result KeyPair). x.1) h))
  generated files files' pair (ok (cert, key)) absent g h =
      let both = sym (persist-new_files c d cert_path key_path cert key files files' pair h) ∙ h in
      record {
        cert = cert;
        key = key;
        absent = absent;
        made = g;
        written = sym (ap (λ (x : Files × Result KeyPair). x.0) both);
        parses =
            or_fail-ok (c.key_pair cert key) bad_generated_pair
              (ap (λ (x : Files × Result KeyPair). x.1) both);
      }

  loaded :
      (files files' : Files) (pair : KeyPair)
      → Path
          (Files × Result KeyPair)
          (files, or_fail (load_key_pair c d files cert_path key_path) bad_pair)
          (files', ok pair)
      → (files' ≡ files) × Stored c d cert_path key_path files pair
  loaded files files' pair h = (
    sym (ap (λ (x : Files × Result KeyPair). x.0) h),
    load-Stored c d cert_path key_path files pair (
        or_fail-ok (load_key_pair c d files cert_path key_path) bad_pair
          (ap (λ (x : Files × Result KeyPair). x.1) h)),
  )

  Origin-named :
      (files files' : Files) (pair : KeyPair)
      → is_empty cert_path || is_empty key_path ≡ false
      → load_or_create c d cert_path key_path hosts files ≡ (files', ok pair)
      → Origin files files' pair
  unfolding load_or_create
  Origin-named files files' pair named h =
      elim (Bool-cases (file_exists files cert_path && file_exists files key_path)) [
        | inl both ↦ inl (loaded files files' pair (rw (named, both, load_or_create) at h))
        | inr lacking ↦
            elim (Bool-cases (file_exists files cert_path || file_exists files key_path)) [
              | inl one ↦ absurd (ground arith)
              | inr neither ↦ inr (
                  generated files files' pair (generate_self_signed c hosts) neither refl
                    (rw (named, lacking, neither, load_or_create) at h))
            ]
      ]

  pub load_or_create-Origin :
      (files files' : Files) (pair : KeyPair)
      → load_or_create c d cert_path key_path hosts files ≡ (files', ok pair)
      → (is_empty cert_path || is_empty key_path ≡ false) × Origin files files' pair
  unfolding load_or_create
  load_or_create-Origin files files' pair h =
      elim (Bool-cases (is_empty cert_path || is_empty key_path)) [
        | inl unnamed ↦ absurd (ground arith)
        | inr named ↦ (named, Origin-named files files' pair named h)
      ]
