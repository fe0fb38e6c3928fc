-- ===== src/Gateway/Boot/Stages.antt =====
-- The stages of a start of cmd/sshhub/main.go that succeeds.
use sshhub.Base.Results.{ok, err, or_fail, or_fail_inv, from_ok, err-ne-ok}
use sshhub.Base.Results
use sshhub.Base.{◌≡◌, refl, sym, ap, subst, Option}
use sshhub.Base.Int.{ℤ}
use sshhub.Text.{Str, str_eq}
use sshhub.Config.{Config}
use sshhub.Config.Load.{LoadError, load}
use sshhub.Config.Validate.{ParsedKey}
use sshhub.HubTls.{Crypto, KeyPair, Files, Disk, TlsError, read_file, server_config}
use sshhub.HubTls
use sshhub.Proxy.New.{NewError, Server, new_server}
use sshhub.Gateway.{control_tls}
use sshhub.Gateway.Boot.{BootError, Running, running, with_proxy, with_tls, with_config, boot}

module _ {Key : Type 0} (parse_key : Str → Option ParsedKey) (parse_duration : Str → Option ℤ)
    (r : Running Key) where
  from_proxy :
      (cfg : Config) (pair : KeyPair) (p : Results.Result NewError (Server Key))
      → with_proxy parse_key parse_duration cfg pair p ≡ ok r
      → (proxy : Server Key) × (p ≡ ok proxy)
        × (r ≡ running parse_key parse_duration cfg pair proxy)
  unfolding with_proxy
  from_proxy cfg pair (err e) h = absurd (err-ne-ok h)
  from_proxy cfg pair (ok proxy) h = (proxy, refl, sym (from_ok h))

  from_tls :
      (parse_private_key : Str → Option Key) (d : Disk) (cfg : Config)
      (t : Files × HubTls.Result KeyPair)
      → with_tls parse_key parse_duration parse_private_key d cfg t.0 t.1 ≡ ok r
      → (pair : KeyPair) × (proxy : Server Key) × (t.1 ≡ ok pair)
        × (new_server (read_file d t.0) parse_private_key cfg ≡ ok proxy)
        × (r ≡ running parse_key parse_duration cfg pair proxy)
  unfolding with_tls
  from_tls parse_private_key d cfg (fs, err e) h = absurd (err-ne-ok h)
  from_tls parse_private_key d cfg (fs, ok pair) h =
      let (proxy, made, e) =
        from_proxy cfg pair (new_server (read_file d fs) parse_private_key cfg) h in
      (pair, proxy, refl, made, e)

module _ {Key : Type 0} (decode : Str → Option Config) (parse_key : Str → Option ParsedKey)
    (parse_duration : Str → Option ℤ) (parse_private_key : Str → Option Key) (c : Crypto) (d : Disk)
    (hostname : Option Str) (path : Str) (files files' : Files) (r : Running Key) where
  -- The stages of a start that succeeds.
  pub record Stages : Type 0 where
    pub cfg : Config
    pub pair : KeyPair
    pub proxy : Server Key
    pub loads : load decode parse_key parse_duration (read_file d files path) ≡ ok cfg
    pub identity :
        Path (Files × HubTls.Result KeyPair) (control_tls c d cfg hostname files) (files', ok pair)
    pub ssh : new_server (read_file d files') parse_private_key cfg ≡ ok proxy
    pub result : r ≡ running parse_key parse_duration cfg pair proxy

  from_load :
      (l : Results.Result LoadError Config)
      → load decode parse_key parse_duration (read_file d files path) ≡ l
      → Path
          (Files × Results.Result BootError (Running Key))
          (with_config parse_key parse_duration parse_private_key d decode c hostname files l)
          (files', ok r)
      → Stages
  unfolding with_config
  from_load (err e) loaded h =
      absurd (err-ne-ok (ap (λ (x : Files × Results.Result BootError (Running Key)). x.1) h))
  from_load (ok cfg) loaded h =
      let after : (control_tls c d cfg hostname files).0 ≡ files' =
        ap (λ (x : Files × Results.Result BootError (Running Key)). x.0) h in
      let (pair, proxy, paired, made, e) =
        from_tls parse_key parse_duration r parse_private_key d cfg
          (control_tls c d cfg hostname files)
          (ap (λ (x : Files × Results.Result BootError (Running Key)). x.1) h) in
      record {
        cfg = cfg;
        pair = pair;
        proxy = proxy;
        loads = loaded;
        identity = λ i. (after i, paired i);
        ssh = subst (λ fs. new_server (read_file d fs) parse_private_key cfg ≡ ok proxy) after made;
        result = e;
      }

  pub boot_inv :
      Path
        (Files × Results.Result BootError (Running Key))
        (boot parse_key parse_duration parse_private_key d decode c hostname path files)
        (files', ok r)
      → Stages
  unfolding boot
  boot_inv h = from_load (load decode parse_key parse_duration (read_file d files path)) refl h
