-- ===== src/Ctl/Add.antt =====
-- The commands "add" and "remove" of cmd/sshhub-ctl/main.go: the change of the configuration file, and
-- what an operator is told to do on the node. The host name of the hub is an argument.
pub mod Token
mod Examples
use sshhub.Base.Results.{ok, err}
use sshhub.Base.{
  Bool, true, false, not, ◌&&◌, ◌||◌, List, [], ◌∷◌, ◌++◌, Option, none, some, if◌then◌else◌, ◌==◌,
}
use sshhub.Base.Int.{ℤ}
use sshhub.Text.{Str, codes, is_empty, has_prefix, trim_prefix, trim_space, str_eq}
use sshhub.Text.Cut.{has_byte}
use sshhub.Text.Host.{split_host_port}
use sshhub.Config.{Config}
use sshhub.Config.Load.{load}
use sshhub.Config.Manage.{Disk, ManageError, Result, add_backend, remove_backend}
use sshhub.Config.Validate.{ParsedKey}
use sshhub.Ctl.Args.{AddArgs, RemoveArgs}

abbrev pub standard_config : Str
standard_config = codes "/etc/sshhub/sshhub.yaml"

-- `defaultConfigPath`, given which files there are.
unfoldable pub default_config_path : (Str → Bool) → Str
default_config_path exists =
    if exists standard_config
    then standard_config
    else if exists (codes "sshhub.yaml")
    then codes "sshhub.yaml"
    else standard_config

-- `getFQDN`, of the output of `hostname -f` and the host name.
unfoldable pub get_fqdn : Option Str → Str → Str
get_fqdn none hostname = hostname
get_fqdn (some out) hostname = if is_empty (trim_space out) then hostname else trim_space out

-- `net.JoinHostPort`
unfoldable pub join_host_port : Str → Str → Str
join_host_port host port =
    if has_byte host b':' || has_byte host b'%'
    then codes "[" ++ (host ++ (codes "]:" ++ port))
    else host ++ (codes ":" ++ port)

-- The port of the control listener, 7000 where none is given.
unfoldable pub control_port : Str → Str
control_port listen = if is_empty listen then codes "7000" else elim (split_host_port listen) [
  | some (host, port) ↦ port
  | none ↦ if has_prefix listen (codes ":") then trim_prefix listen (codes ":") else codes "7000"
]

-- The address of the hub by its configuration.
unfoldable pub configured_hub : Str → Option Config → Str
configured_hub fqdn none = []
configured_hub fqdn (some cfg) =
    if not (is_empty cfg.public_host)
    then if has_byte cfg.public_host b':'
      then cfg.public_host
      else join_host_port cfg.public_host (control_port cfg.listen.control)
    else if not (is_empty cfg.listen.control)
    then if has_prefix cfg.listen.control (codes ":")
      then fqdn ++ cfg.listen.control
      else cfg.listen.control
    else []

abbrev pub unknown_hub : Str
unknown_hub = codes "<hub-host>:7000"

unfoldable pub or_unknown : Str → Str
or_unknown hub = if is_empty hub then unknown_hub else hub

unfoldable pub hub_address : Str → Str → Option Config → Str
hub_address flag fqdn cfg = or_unknown (if is_empty flag then configured_hub fqdn cfg else flag)

-- The host that clients are told to jump through.
unfoldable pub domain_of : Str → Str
domain_of hub =
    if not (is_empty hub) && not (hub == unknown_hub)
    then elim (split_host_port hub) [ none ↦ hub | some (host, port) ↦ host ]
    else codes "<hub-domain>"

-- What "add" prints, or why it fails.
pub data AddResult : Type 0 where
  usage : AddResult
  failed : ManageError → AddResult
  added : (token : Str) (hub : Str) (domain : Str) → AddResult

unfoldable pub loaded :
    (Str → Option Config) → (Str → Option ParsedKey) → (Str → Option ℤ) → Disk → Option Config
loaded decode parse_key parse_duration d = elim (load decode parse_key parse_duration d.content) [
  | err e ↦ none
  | ok cfg ↦ some cfg
]

module _ (decode : Str → Option Config) (encode : Config → Option Str) (random : Option Str)
    (encode64 : Str → Str) (parse_key : Str → Option ParsedKey) (parse_duration : Str → Option ℤ)
    (fqdn : Str) where
  unfoldable pub report : AddArgs → Str → Disk → AddResult
  report a token d =
      let hub = hub_address a.hub fqdn (loaded decode parse_key parse_duration d) in
      added token hub (domain_of hub)

  unfoldable pub outcome : AddArgs → Disk → Result (Str × Disk) → Disk × AddResult
  outcome a d (err e) = (d, failed e)
  outcome a d (ok (token, d')) = (d', report a token d')

  -- On the file at the path `a.config`.
  unfoldable pub add : AddArgs → Disk → Disk × AddResult
  add a d =
      if is_empty a.id
      then (d, usage)
      else outcome a d (add_backend decode encode random encode64 a.id a.token a.end_user d)

  -- "remove": `none` where it prints how it is used.
  unfoldable pub remove : RemoveArgs → Disk → Disk × Option (Option ManageError)
  remove a d =
      if is_empty a.id
      then (d, none)
      else elim (remove_backend decode encode random encode64 a.id d) [
        | err e ↦ (d, some (some e))
        | ok d' ↦ (d', some none)
      ]
