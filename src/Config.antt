-- ===== src/Config.antt =====
-- internal/config/config.go: the types of the configuration file.
pub mod Routes
pub mod Lookup
pub mod Validate
pub mod Load
pub mod Manage
mod Examples
use sshhub.Base.{List, Option}
use sshhub.Text.{Str}

-- The predicates of a route. An empty text is a wildcard.
pub record Match : Type 0 where
  pub username : Str
  pub hostname : Str

pub record Route : Type 0 where
  pub match : Match
  pub backend : Str
  pub username : Str
  pub hostname : Str
  pub end_user : Str

pub record Backend : Type 0 where
  pub aliases : Str
  pub id : Str
  pub mode : Str
  pub token : Str
  pub username : Str
  pub host_key : Str
  pub host_key_file : Str

pub record JumpUser : Type 0 where
  pub name : Str
  pub keys : List Str
  pub backends : List Str

pub record Listen : Type 0 where
  pub ssh : Str
  pub control : Str

-- `auto_update_wait` is the raw scalar, `none` where the field is absent.
pub record Config : Type 0 where
  pub listen : Listen
  pub public_host : Str
  pub auto_update_wait : Option Str
  pub host_key : Str
  pub tls_cert : Str
  pub tls_key : Str
  pub control_tokens : List Str
  pub backends : List Backend
  pub routes : List Route
  pub jump_users : List JumpUser
