-- ===== src/Proxy/New.antt =====
-- `New` of internal/proxy/proxy.go: the hub's ssh endpoint, from its configuration. The host key's file and
-- its parser are arguments.
use sshhub.Base.Results.{ok, err, ◌>>=◌, or_fail, bind_inv, or_fail_inv, from_ok}
use sshhub.Base.Results
use sshhub.Base.{
  ℕ, ◌≡◌, ◌↔◌, refl, sym, ap, ◌∙◌, Bool, true, List, [], ◌∷◌, Option, arith, In, inl, inr,
  Bool-cases,
}
use sshhub.Text.{Str}
use sshhub.Config.{Config, JumpUser}
use sshhub.Config.Validate.{no_items}
use sshhub.RateLimit.{Limiter, new, default_config}
use sshhub.Proxy.{has_open_jump_user}

-- `ssh.ServerConfig`, less the callback, which is `authorize`.
pub record ServerConfig (Key : Type 0) : Type 0 where
  pub max_auth_tries : ℕ
  pub no_client_auth : Bool
  pub host_key : Key

-- `Server`, less the registry, which `forward` is given.
pub record Server (Key : Type 0) : Type 0 where
  pub config : Config
  pub ssh_config : ServerConfig Key
  pub limiter : Limiter

pub data NewError : Type 0 where
  cannot_read_key cannot_parse_key : NewError

module _ {Key : Type 0} (read_file : Str → Option Str) (parse_private_key : Str → Option Key) where
  unfoldable pub new_server : Config → Results.Result NewError (Server Key)
  new_server cfg = do
    content ← or_fail (read_file cfg.host_key) cannot_read_key
    key ← or_fail (parse_private_key content) cannot_parse_key
    ok (record {
      config = cfg;
      ssh_config = record {
        max_auth_tries = 24;
        no_client_auth = has_open_jump_user cfg.jump_users;
        host_key = key;
      };
      limiter = new default_config;
    })

-- Some jump user needs no key.
abbrev pub SomeOpen : List JumpUser → Type 0
SomeOpen us = (u : JumpUser) × In u us × (u.keys ≡ [])

no_items_iff : {A : Type 0} (xs : List A) → (no_items xs ≡ true) ↔ (xs ≡ [])
no_items_iff [] = (λ e. refl, λ e. refl)
no_items_iff (x ∷ xs) = (λ e. absurd (cc), λ e. absurd (ground arith))

pub has_open_jump_user_iff : (us : List JumpUser) → (has_open_jump_user us ≡ true) ↔ SomeOpen us
unfolding has_open_jump_user
has_open_jump_user_iff [] = (λ h. absurd (cc), λ (u, i, _). absurd i)
has_open_jump_user_iff (u ∷ us) = (
  λ h. elim (Bool-cases (no_items u.keys)) [
    | inl open_user ↦ (u, inl refl, (no_items_iff u.keys).0 open_user)
    | inr needs_key ↦
        let (v, i, e) = (has_open_jump_user_iff us).0 (rw needs_key at h) in (v, inr i, e)
  ],
  λ (v, i, e). elim i [
    | inl same ↦
        let nothing : no_items u.keys ≡ true =
          (no_items_iff u.keys).1 (sym (ap (λ (x : JumpUser). x.keys) same) ∙ e) in
        rw nothing refl
    | inr later ↦ let rest = (has_open_jump_user_iff us).1 (v, later, e) in ground (arith, rest)
  ],
)
