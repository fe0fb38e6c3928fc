-- ===== src/Gateway/Boot/Again.antt =====
-- A second start of cmd/sshhub/main.go.
use sshhub.Base.Results.{ok, err, or_fail}
use sshhub.Base.Results
use sshhub.Base.{◌≡◌, ◌≢◌, refl, sym, ap, subst, ◌∙◌, true, List, Option, arith}
use sshhub.Base.Int.{ℤ}
use sshhub.Text.{Str, str_eq}
use sshhub.Config.{Config}
use sshhub.Config.Load.{load}
use sshhub.Config.Validate.{ParsedKey}
use sshhub.HubTls.{
  Crypto, KeyPair, Files, Disk, read_file, write_file, persist, load_or_create,
  generate_self_signed,
}
use sshhub.HubTls
use sshhub.HubTls.Identity.{load_or_create-again}
use sshhub.Proxy.New.{Server, new_server}
use sshhub.Gateway.{control_tls, tls_paths, tls_hosts}
use sshhub.Gateway.Boot.{BootError, Running, running, with_proxy, with_tls, with_config, boot}
use sshhub.Gateway.Boot.Stages.{boot_inv}

write_file-elsewhere :
    (d : Disk) (p text q : Str) (files : Files) → q ≢ p → (write_file d p text files).0 q ≡ files q
unfolding write_file
write_file-elsewhere d p text q files apart = ground arith

persist-elsewhere :
    (c : Crypto) (d : Disk) (cert_path key_path cert key q : Str) (files : Files)
    → q ≢ cert_path
    → q ≢ key_path
    → (persist c d cert_path key_path cert key files).0 q ≡ files q
unfolding persist
persist-elsewhere c d cert_path key_path cert key q files not_cert not_key =
    let on_key = write_file-elsewhere d key_path key q files not_key in
    let on_cert =
      write_file-elsewhere d cert_path cert q (write_file d key_path key files).0 not_cert in
    ground (arith, on_key, on_cert)

-- Only the two files of the pair are ever written.
load_or_create-elsewhere :
    (c : Crypto) (d : Disk) (cert_path key_path q : Str) (hosts : List Str) (files : Files)
    → q ≢ cert_path
    → q ≢ key_path
    → (load_or_create c d cert_path key_path hosts files).0 q ≡ files q
unfolding load_or_create
load_or_create-elsewhere c d cert_path key_path q hosts files not_cert not_key =
    from_pair (generate_self_signed c hosts) refl
  where
    from_pair :
        (g : HubTls.Result (Str × Str))
        → generate_self_signed c hosts ≡ g
        → (load_or_create c d cert_path key_path hosts files).0 q ≡ files q
    from_pair (err e) made = ground (arith, made)
    from_pair (ok (cert, key)) made =
        ground
          (arith, made, persist-elsewhere c d cert_path key_path cert key q files not_cert not_key)

module _ {Key : Type 0} (parse_key : Str → Option ParsedKey) (parse_duration : Str → Option ℤ)
    (parse_private_key : Str → Option Key) (d : Disk) (decode : Str → Option Config) (c : Crypto)
    (hostname : Option Str) where
  boot-stages :
      (path : Str) (files files' : Files) (cfg : Config) (pair : KeyPair) (proxy : Server Key)
      → load decode parse_key parse_duration (read_file d files path) ≡ ok cfg
      → Path (Files × HubTls.Result KeyPair) (control_tls c d cfg hostname files) (files', ok pair)
      → new_server (read_file d files') parse_private_key cfg ≡ ok proxy
      → Path
          (Files × Results.Result BootError (Running Key))
          (boot parse_key parse_duration parse_private_key d decode c hostname path files)
          (files', ok (running parse_key parse_duration cfg pair proxy))
  unfolding boot with_config with_tls with_proxy
  boot-stages path files files' cfg pair proxy loads identity ssh = rw (loads, identity, ssh) refl

-- A hub that has started starts again, also under another host name, and to the same state: with the
-- configuration, the control plane's key pair and the host key it had, and it leaves every file as it
-- is. The certificate's and the key's path are different from each other and from the configuration's,
-- and both files can be read.
pub boot-again :
    {Key : Type 0} (parse_key : Str → Option ParsedKey) (parse_duration : Str → Option ℤ)
    (parse_private_key : Str → Option Key) (d : Disk) (decode : Str → Option Config) (c : Crypto)
    (hostname later_hostname : Option Str) (path : Str) (files files' : Files) (r : Running Key)
    → (tls_paths r.config).0 ≢ (tls_paths r.config).1
    → path ≢ (tls_paths r.config).0
    → path ≢ (tls_paths r.config).1
    → d.readable (tls_paths r.config).0 ≡ true
    → d.readable (tls_paths r.config).1 ≡ true
    → Path
        (Files × Results.Result BootError (Running Key))
        (boot parse_key parse_duration parse_private_key d decode c hostname path files)
        (files', ok r)
    → Path
        (Files × Results.Result BootError (Running Key))
        (boot parse_key parse_duration parse_private_key d decode c later_hostname path files')
        (files', ok r)
unfolding control_tls read_file running
boot-again parse_key parse_duration parse_private_key d decode c hostname later_hostname path files
      files' r apart not_cert not_key rc rk h =
    let s =
      boot_inv decode parse_key parse_duration parse_private_key c d hostname path files files' r
        h in
    let same : r.config ≡ s.cfg = ap (λ (x : Running _). x.config) s.result in
    let cert = (tls_paths s.cfg).0 in
    let key = (tls_paths s.cfg).1 in
    let untouched : files' path ≡ files path =
      sym (ap (λ (x : Files × HubTls.Result KeyPair). x.0 path) s.identity)
      ∙ load_or_create-elsewhere c d cert key path (tls_hosts s.cfg hostname) files
          (subst (λ x. path ≢ (tls_paths x).0) same not_cert)
          (subst (λ x. path ≢ (tls_paths x).1) same not_key) in
    let read : read_file d files' path ≡ read_file d files path = rw untouched refl in
    let identity =
      load_or_create-again c d cert key (tls_hosts s.cfg hostname) (tls_hosts s.cfg later_hostname)
        files files' s.pair (subst (λ x. (tls_paths x).0 ≢ (tls_paths x).1) same apart)
        (subst (λ x. d.readable (tls_paths x).0 ≡ true) same rc)
        (subst (λ x. d.readable (tls_paths x).1 ≡ true) same rk) s.identity in
    subst
      (λ (x : Running _).
        Path (Files × Results.Result BootError (Running _))
          (boot parse_key parse_duration parse_private_key d decode c later_hostname path files')
          (files', ok x))
      (sym s.result)
      (boot-stages parse_key parse_duration parse_private_key d decode c later_hostname path files'
        files' s.cfg s.pair s.proxy
        (subst (λ t. load decode parse_key parse_duration t ≡ ok s.cfg) (sym read) s.loads) identity
        s.ssh)
