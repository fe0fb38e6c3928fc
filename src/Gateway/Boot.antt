-- ===== src/Gateway/Boot.antt =====
-- `main` of cmd/sshhub/main.go up to the goroutines that serve: what the hub makes of its files. The
-- decoders of files and the host name are arguments.
pub mod Stages
pub mod Ready
pub mod Again
mod Examples
use sshhub.Base.Results.{ok, err}
use sshhub.Base.Results
use sshhub.Base.{
  ℕ, zero, ◌*◌, Bool, true, false, List, [], ◌∷◌, Option, none, some, ltb, if◌then◌else◌,
}
use sshhub.Base.Int.{ℤ, pos, negsuc}
use sshhub.Text.{Str}
use sshhub.Config.{Config}
use sshhub.Config.Load.{LoadError, load}
use sshhub.Config.Validate.{ParsedKey, resolved_auto_update_wait}
use sshhub.HubUpdate.AutoUpdate.{start_auto_updater}
use sshhub.HubTls.{Crypto, KeyPair, Files, Disk, TlsError, ServerTls, server_config, read_file}
use sshhub.Control.Registry.{Registry, new_registry}
use sshhub.Proxy.New.{NewError, Server, new_server}
use sshhub.Gateway.{control_tls}

pub data BootError : Type 0 where
  config_error : LoadError → BootError
  tls_error : TlsError → BootError
  proxy_error : NewError → BootError

-- What the log says about updates.
pub data Announced : Type 0 where
  updates_disabled updates_at_once : Announced
  updates_after : ℤ → Announced

unfoldable pub announce : ℤ → Announced
announce (negsuc zero) = updates_disabled
announce (pos zero) = updates_at_once
announce wait = updates_after wait

-- 6 hours, in nanoseconds
abbrev pub update_interval : ℕ
update_interval = 6 * 3600 * 1_000_000_000

-- The hub as its goroutines start: the control plane with its resolver of tokens, which is
-- `resolve_token config`, the ssh endpoint, and the updater, by the pause between its checks.
pub record Running (Key : Type 0) : Type 0 where
  pub config : Config
  pub registry : Registry
  pub pair : KeyPair
  pub tls : ServerTls
  pub proxy : Server Key
  pub announced : Announced
  pub update_pause : Option ℕ

module _ {Key : Type 0} (parse_key : Str → Option ParsedKey) (parse_duration : Str → Option ℤ) where
  unfoldable pub running : Config → KeyPair → Server Key → Running Key
  running cfg pair proxy =
      let wait = resolved_auto_update_wait parse_key parse_duration cfg in
      record {
        config = cfg;
        registry = new_registry;
        pair = pair;
        tls = server_config pair;
        proxy = proxy;
        announced = announce wait;
        update_pause = start_auto_updater update_interval wait;
      }

  unfoldable pub with_proxy :
      Config
      → KeyPair
      → Results.Result NewError (Server Key)
      → Results.Result BootError (Running Key)
  with_proxy cfg pair (err e) = err (proxy_error e)
  with_proxy cfg pair (ok proxy) = ok (running cfg pair proxy)

  module _ (parse_private_key : Str → Option Key) (d : Disk) where
    unfoldable pub with_tls :
        Config → Files → Results.Result TlsError KeyPair → Results.Result BootError (Running Key)
    with_tls cfg files (err e) = err (tls_error e)
    with_tls cfg files (ok pair) =
        with_proxy cfg pair (new_server (read_file d files) parse_private_key cfg)

    module _ (decode : Str → Option Config) (c : Crypto) (hostname : Option Str) where
      unfoldable pub with_config :
          Files → Results.Result LoadError Config → Files × Results.Result BootError (Running Key)
      with_config files (err e) = (files, err (config_error e))
      with_config files (ok cfg) =
          let (files', pair) = control_tls c d cfg hostname files in
          (files', with_tls cfg files' pair)

      -- `main`, with the path of the configuration; an error is the end of the process.
      unfoldable pub boot : Str → Files → Files × Results.Result BootError (Running Key)
      boot path files =
          with_config files (load decode parse_key parse_duration (read_file d files path))
