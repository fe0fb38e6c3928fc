-- ===== src/Gateway/Boot/Ready.antt =====
-- What holds of a hub that cmd/sshhub/main.go has started.
use sshhub.Base.Results.{ok, err, or_fail, or_fail_inv, from_ok, err-ne-ok}
use sshhub.Base.Results
use sshhub.Base.{
  ℕ, zero, suc, ◌≤◌, ◌≡◌, ◌↔◌, refl, sym, ap, subst, ◌∙◌, true, [], ◌∷◌, Option, none, some, arith,
  Option-cases, inl, inr, ◌⊎◌,
}
use sshhub.Base.Int.{ℤ, pos, negsuc}
use sshhub.Text.{Str, str_eq}
use sshhub.Config.{Config}
use sshhub.Config.Load.{load, load_inv}
use sshhub.Config.Validate.{
  ParsedKey, validate, resolved_auto_update_wait, parse_auto_update_wait, auto_update_disabled,
}
use sshhub.HubUpdate.AutoUpdate.{start_auto_updater, urgent_check_interval}
use sshhub.HubTls.{tls12, Crypto, KeyPair, Files, Disk, TlsError, read_file, server_config}
use sshhub.HubTls
use sshhub.Proxy.New.{Server, new_server, SomeOpen, has_open_jump_user_iff}
use sshhub.Proxy.{has_open_jump_user}
use sshhub.Gateway.{control_tls, tls_paths, tls_hosts}
use sshhub.HubTls.Origin.{Origin, load_or_create-Origin}
use sshhub.Gateway.Boot.{
  BootError, updates_disabled, announce, Running, running, boot, update_interval,
}
use sshhub.Gateway.Boot.Stages.{boot_inv}

module _ (parse_key : Str → Option ParsedKey) (parse_duration : Str → Option ℤ) where
  -- The settings mean that there are no updates, or a wait that is not negative.
  abbrev IsWait : ℤ → Type 0
  IsWait d = (d ≡ auto_update_disabled) ⊎ ((n : ℕ) × (d ≡ pos n))

  parse_auto_update_wait-IsWait :
      (s : Str) (d : ℤ) → parse_auto_update_wait parse_key parse_duration s ≡ some d → IsWait d
  unfolding parse_auto_update_wait
  parse_auto_update_wait-IsWait s (pos n) h = inr (n, refl)
  parse_auto_update_wait-IsWait s (negsuc n) h = inl (ground arith)

  resolved_auto_update_wait-IsWait :
      (cfg : Config) → IsWait (resolved_auto_update_wait parse_key parse_duration cfg)
  unfolding resolved_auto_update_wait
  resolved_auto_update_wait-IsWait cfg = elim (Option-cases cfg.auto_update_wait) [
    | inl unset ↦ rw (unset, resolved_auto_update_wait) (inr (_, refl))
    | inr (raw, set) ↦ elim (Option-cases (parse_auto_update_wait parse_key parse_duration raw)) [
      | inl bad ↦ rw (set, bad, resolved_auto_update_wait) (inr (_, refl))
      | inr (d, good) ↦
          rw (set, good, resolved_auto_update_wait) (parse_auto_update_wait-IsWait raw d good)
    ]
  ]

  -- The log says that there are no updates exactly where the updater is not started.
  announce-IsWait :
      (d : ℤ)
      → IsWait d
      → ((announce d ≡ updates_disabled) ↔ (start_auto_updater update_interval d ≡ none))
        × ((p : ℕ) → start_auto_updater update_interval d ≡ some p → p ≤ urgent_check_interval)
  unfolding announce start_auto_updater
  announce-IsWait (pos zero) w = ((λ e. absurd (cc), λ e. absurd (cc)), λ p e. ground arith)
  announce-IsWait (pos (suc n)) w = ((λ e. absurd (cc), λ e. absurd (cc)), λ p e. ground arith)
  announce-IsWait (negsuc zero) w = ((λ e. refl, λ e. refl), λ p e. absurd (cc))
  announce-IsWait (negsuc (suc n)) (inl e) = absurd (ground arith)
  announce-IsWait (negsuc (suc n)) (inr (m, e)) = absurd (cc)

-- What a hub has when it starts, with the files that it finds and those that it leaves.
pub record Ready {Key : Type 0} (decode : Str → Option Config) (parse_key : Str → Option ParsedKey)
    (parse_duration : Str → Option ℤ) (parse_private_key : Str → Option Key) (c : Crypto) (d : Disk)
    (hostname : Option Str) (path : Str) (files files' : Files) (r : Running Key) : Type 0 where
  -- The configuration is the one of the file, and passed `Validate`.
  pub configured :
      (text : Str) × (raw : Config) × (read_file d files path ≡ some text)
      × (decode text ≡ some raw)
      × (validate parse_key parse_duration raw ≡ ok r.config)
  -- The key pair is that of the texts in the two files of the configuration, and no file has changed; or
  -- neither file was there, and the pair is that of texts generated for the hub's names and written to
  -- the two files, the key first.
  pub identity :
      Origin c d
        (tls_paths r.config).0
        (tls_paths r.config).1
        (tls_hosts r.config hostname)
        files
        files'
        r.pair
  -- The control plane speaks TLS 1.2 at least, with this pair.
  pub control_plane : r.tls ≡ record { certificates = r.pair ∷ []; min_version = tls12 }
  -- Clients come without a key only if some user needs none.
  pub gate : (r.proxy.ssh_config.no_client_auth ≡ true) ↔ SomeOpen r.config.jump_users
  pub host_key :
      (content : Str) × (read_file d files' r.config.host_key ≡ some content)
      × (parse_private_key content ≡ some r.proxy.ssh_config.host_key)
  -- Updates are off exactly if the log says so, and are looked for every five minutes or less if on.
  pub updates : (r.announced ≡ updates_disabled) ↔ (r.update_pause ≡ none)
  pub pauses : (p : ℕ) → r.update_pause ≡ some p → p ≤ urgent_check_interval

module _ {Key : Type 0} (decode : Str → Option Config) (parse_key : Str → Option ParsedKey)
    (parse_duration : Str → Option ℤ) (parse_private_key : Str → Option Key) (c : Crypto) (d : Disk)
    (hostname : Option Str) (path : Str) (files files' : Files) where
  new_server_inv :
      (cfg : Config) (proxy : Server Key)
      → new_server (read_file d files') parse_private_key cfg ≡ ok proxy
      → (proxy.ssh_config.no_client_auth ≡ has_open_jump_user cfg.jump_users)
        × ((content : Str) × (read_file d files' cfg.host_key ≡ some content)
            × (parse_private_key content ≡ some proxy.ssh_config.host_key))
  unfolding new_server
  new_server_inv cfg proxy h =
      let (content, read, h1) = or_fail_inv (read_file d files' cfg.host_key) _ _ h in
      let (key, parsed, h2) = or_fail_inv (parse_private_key content) _ _ h1 in
      (
        sym (ap (λ (x : Server Key). x.ssh_config.no_client_auth) (from_ok h2)),
        (content, read, parsed ∙ ap (λ (x : Server Key). some x.ssh_config.host_key) (from_ok h2)),
      )

  Ready-running :
      (cfg : Config) (pair : KeyPair) (proxy : Server Key)
      → load decode parse_key parse_duration (read_file d files path) ≡ ok cfg
      → Path (Files × HubTls.Result KeyPair) (control_tls c d cfg hostname files) (files', ok pair)
      → new_server (read_file d files') parse_private_key cfg ≡ ok proxy
      → Ready decode parse_key parse_duration parse_private_key c d hostname path files files'
          (running parse_key parse_duration cfg pair proxy)
  unfolding running server_config control_tls
  Ready-running cfg pair proxy loads identity ssh =
      let (text, raw, read, decoded, valid) =
        load_inv decode parse_key parse_duration (read_file d files path) cfg loads in
      let (gate, key) = new_server_inv cfg proxy ssh in
      let wait = resolved_auto_update_wait parse_key parse_duration cfg in
      let (updates, pauses) =
        announce-IsWait parse_key parse_duration wait
          (resolved_auto_update_wait-IsWait parse_key parse_duration cfg) in
      record {
        configured = (text, raw, read, decoded, valid);
        identity =
            (load_or_create-Origin c d (tls_paths cfg).0 (tls_paths cfg).1 (tls_hosts cfg hostname)
              files files' pair identity).1;
        control_plane = refl;
        gate =
            subst (λ b. (b ≡ true) ↔ SomeOpen cfg.jump_users) (sym gate)
              (has_open_jump_user_iff cfg.jump_users);
        host_key = key;
        updates = updates;
        pauses = pauses;
      }

-- A hub that starts serves the configuration of its file, which passed `Validate`; its control plane has
-- TLS 1.2 at least and the key pair of the texts found in the certificate and key files, with no file
-- changed, or, where neither of them exists, of texts generated for the hub's names, of which the key and
-- then the certificate were written to these files; its ssh endpoint has the host key of the configured
-- file, and lets clients without a key through the handshake exactly if some jump user needs none; and
-- updates are looked for, every five minutes at most, exactly if the log does not say that they are off.
pub boot-Ready :
    {Key : Type 0} (decode : Str → Option Config) (parse_key : Str → Option ParsedKey)
    (parse_duration : Str → Option ℤ) (parse_private_key : Str → Option Key) (c : Crypto) (d : Disk)
    (hostname : Option Str) (path : Str) (files files' : Files) (r : Running Key)
    → Path
        (Files × Results.Result BootError (Running Key))
        (boot parse_key parse_duration parse_private_key d decode c hostname path files)
        (files', ok r)
    → Ready decode parse_key parse_duration parse_private_key c d hostname path files files' r
boot-Ready decode parse_key parse_duration parse_private_key c d hostname path files files' r h =
    let s =
      boot_inv decode parse_key parse_duration parse_private_key c d hostname path files files' r
        h in
    subst (Ready decode parse_key parse_duration parse_private_key c d hostname path files files')
      (sym s.result)
      (Ready-running decode parse_key parse_duration parse_private_key c d hostname path files
        files' s.cfg s.pair s.proxy s.loads s.identity s.ssh)
