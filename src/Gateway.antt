-- ===== src/Gateway.antt =====
-- cmd/sshhub/main.go: the TLS identity of the hub's control plane, `controlTLS`; its children put the
-- hub together.
pub mod System
pub mod EndToEnd
pub mod Reach
pub mod Boot
mod Examples
use sshhub.Base.{◌||◌, List, [], ◌∷◌, ◌++◌, Option, none, some, if◌then◌else◌}
use sshhub.Text.{Str, codes, is_empty}
use sshhub.Text.Host.{split_host_port}
use sshhub.Config.{Config}
use sshhub.HubTls.{Crypto, KeyPair, Files, Disk, Result, load_or_create}

abbrev pub default_tls_cert_path : Str
default_tls_cert_path = codes "/etc/sshhub/control-cert.pem"

abbrev pub default_tls_key_path : Str
default_tls_key_path = codes "/etc/sshhub/control-key.pem"

-- The paths of the certificate and the key.
unfoldable pub tls_paths : Config → Str × Str
tls_paths cfg =
    if is_empty cfg.tls_cert || is_empty cfg.tls_key
    then (default_tls_cert_path, default_tls_key_path)
    else (cfg.tls_cert, cfg.tls_key)

unfoldable pub host_part : Str → Str
host_part host = elim (split_host_port host) [ none ↦ host | some (h, port) ↦ h ]

-- The names of the hub: its public host, and its host name if that is known.
unfoldable pub tls_hosts : Config → Option Str → List Str
tls_hosts cfg hostname =
    (if is_empty cfg.public_host then [] else host_part cfg.public_host ∷ [])
    ++ elim hostname [ none ↦ [] | some h ↦ if is_empty h then [] else h ∷ [] ]

unfoldable pub control_tls : Crypto → Disk → Config → Option Str → Files → Files × Result KeyPair
control_tls c d cfg hostname files =
    load_or_create c d (tls_paths cfg).0 (tls_paths cfg).1 (tls_hosts cfg hostname) files
