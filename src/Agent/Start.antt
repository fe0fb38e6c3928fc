-- ===== src/Agent/Start.antt =====
-- What cmd/sshhub-agent/main.go makes sure of before it connects.
use sshhub.Base.Results.{
  ok, err, err-ne-ok, from_ok, bind_inv, reject_if_inv, or_fail_inv, not-false,
}
use sshhub.Base.{
  ◌≡◌, refl, sym, subst, Bool, true, false, not, ◌&&◌, ◌||◌, Option, none, some, arith, nat_eq,
  ==_iff, bit_and, Bool-cases, ◌⊎◌, inl, inr,
}
use sshhub.Text.{Str, is_empty, trim_space}
use sshhub.HubTls
use sshhub.HubTls.{Crypto, TlsConfig, client_config}
use sshhub.Control.Client.{is_local_sshd}
use sshhub.Agent.{
  Flags, FileInfo, Tls, unchecked, checked, Settings, world_bits, group_write, is_private,
  has_private_file, server_name_of, choose_tls, start, bad_pin, flags_required, bad_token_file,
  empty_token, not_loopback, pin_required,
}

-- An agent that may connect.
pub record Sound (c : Crypto) (loopback : Str → Option Bool) (st : Option FileInfo)
    (content : Option Str) (f : Flags) (s : Settings) : Type 0 where
  pub named_hub : s.server_name ≡ server_name_of f.hub
  pub info : FileInfo
  pub has_file : st ≡ some info
  pub regular : info.is_regular ≡ true
  pub no_world : bit_and info.perm world_bits ≡ 0
  pub no_group_write : bit_and info.perm group_write ≡ 0
  -- The token is the text of the file, without the white space around it.
  pub text : Str
  pub from_file : content ≡ some text
  pub token_of_file : s.token ≡ trim_space text
  pub has_token : is_empty s.token ≡ false
  pub local_sshd : is_local_sshd loopback f.sshd ≡ true
  pub hub_checked :
      ((f.insecure ≡ true) × (s.tls ≡ unchecked))
      ⊎ ((f.insecure ≡ false)
          × (is_empty f.pin ≡ false)
          × ((cfg : TlsConfig) × (client_config c s.server_name f.pin ≡ ok cfg)
              × (s.tls ≡ checked cfg)))

has_private_file-inv :
    (st : Option FileInfo)
    → has_private_file st ≡ true
    → (info : FileInfo) × (st ≡ some info)
      × (info.is_regular ≡ true)
      × (bit_and info.perm world_bits ≡ 0)
      × (bit_and info.perm group_write ≡ 0)
unfolding has_private_file is_private
has_private_file-inv none h = cc
has_private_file-inv (some st) h = (
  st,
  refl,
  ground arith,
  (==_iff (bit_and st.perm world_bits) 0).0 (ground arith),
  (==_iff (bit_and st.perm group_write) 0).0 (ground arith),
)

choose_tls-inv :
    (c : Crypto) (f : Flags) (tls : Tls)
    → choose_tls c f ≡ ok tls
    → is_empty f.pin && not f.insecure ≡ false
    → ((f.insecure ≡ true) × (tls ≡ unchecked))
      ⊎ ((f.insecure ≡ false)
          × (is_empty f.pin ≡ false)
          × ((cfg : TlsConfig) × (client_config c (server_name_of f.hub) f.pin ≡ ok cfg)
              × (tls ≡ checked cfg)))
unfolding choose_tls
choose_tls-inv c f tls h pinned = elim (Bool-cases f.insecure) [
  | inl e ↦ inl (e, sym (from_ok (rw (e, choose_tls) at h)))
  | inr e ↦
      inr (
        e,
        ground arith,
        go (client_config c (server_name_of f.hub) f.pin) (rw (e, choose_tls) at h),
      )
]
  where
    go :
        (r : HubTls.Result TlsConfig)
        → (elim r [ err e ↦ err bad_pin | ok cfg ↦ ok (checked cfg) ]) ≡ ok tls
        → (cfg : TlsConfig) × (r ≡ ok cfg) × (tls ≡ checked cfg)
    go (err e) h = absurd (err-ne-ok h)
    go (ok cfg) h = (cfg, refl, sym (from_ok h))

-- An agent that starts has as its token the text of the token file less the white space around it,
-- which is not empty; the file is regular, with no access for the world and no group write; the agent
-- forwards to a loopback address only; and it checks the hub of its flags, by the pin that it was given
-- and the name in the hub's address, unless its operator explicitly asked for no check.
pub start-Sound :
    (c : Crypto) (loopback : Str → Option Bool) (st : Option FileInfo) (content : Option Str)
    (f : Flags) (s : Settings)
    → start c loopback st content f ≡ ok s
    → Sound c loopback st content f s
unfolding start
start-Sound c loopback st content f s h =
    let (_, h1) = reject_if_inv (is_empty f.hub || is_empty f.token_file) flags_required _ h in
    let (file, h2) = reject_if_inv (not (has_private_file st)) bad_token_file _ h1 in
    let (text, read, h3) = or_fail_inv content _ _ h2 in
    let (token, h4) = reject_if_inv (is_empty (trim_space text)) empty_token _ h3 in
    let (local, h5) = reject_if_inv (not (is_local_sshd loopback f.sshd)) not_loopback _ h4 in
    let (pinned, h6) = reject_if_inv (is_empty f.pin && not f.insecure) pin_required _ h5 in
    let (tls, chosen, h7) = bind_inv (choose_tls c f) _ h6 in
    let (info, has_file, regular, world, group) = has_private_file-inv st (not-false _ file) in
    subst (Sound c loopback st content f) (from_ok h7) (record {
      info = info;
      has_file = has_file;
      regular = regular;
      no_world = world;
      no_group_write = group;
      text = text;
      from_file = read;
      token_of_file = refl;
      has_token = token;
      named_hub = refl;
      local_sshd = not-false _ local;
      hub_checked = choose_tls-inv c f tls chosen pinned;
    })
