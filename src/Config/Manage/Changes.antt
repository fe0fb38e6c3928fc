-- ===== src/Config/Manage/Changes.antt =====
-- What the operations of internal/config/manage.go change in the configuration.
use sshhub.Base.Results.{ok, from_ok, bind_inv, reject_if_inv, or_fail_inv}
use sshhub.Base.{
  ◌≡◌, ◌≢◌, refl, sym, ap, subst, false, not, ◌||◌, List, [], ◌∷◌, ◌++◌, Option, none, some, arith,
  keep, if◌then◌else◌, ◌==◌, eq_self, contains, All,
}
use sshhub.Text.{Str, codes, is_empty, contains_any, has_prefix, str_eq}
use sshhub.Config.{Backend, JumpUser, Config}
use sshhub.Config.Lookup.{backend_by_id}
use sshhub.Config.Manage.{
  Disk, new_backend, is_some, other_than, revoke, without_backend, save, read_config, add_backend,
  remove_backend, generate_token, bad_end_user, exists, not_found, empty_id, cannot_save,
}

backend_by_id-append :
    (bs : List Backend) (id token : Str)
    → backend_by_id bs id ≡ none
    → backend_by_id (bs ++ new_backend id token ∷ []) id ≡ some (new_backend id token)
unfolding backend_by_id new_backend
backend_by_id-append [] id token h = ground (arith, eq_self id)
backend_by_id-append (b ∷ bs) id token h = ground (arith, backend_by_id-append bs id token)

backend_by_id-keep :
    (bs : List Backend) (id other : Str)
    → backend_by_id (keep (λ (b : Backend). not (b.id == id)) bs) other
      ≡ (if other == id then none else backend_by_id bs other)
unfolding backend_by_id keep
backend_by_id-keep [] id other = ground arith
backend_by_id-keep (b ∷ bs) id other = ground (arith, backend_by_id-keep bs id other)

contains-keep :
    (ids : List Str) (id other : Str)
    → contains (keep (other_than id) ids) other
      ≡ (if other == id then false else contains ids other)
unfolding contains keep other_than
contains-keep [] id other = ground arith
contains-keep (x ∷ ids) id other = ground (arith, contains-keep ids id other)

revoke-none :
    (id : Str) (us : List JumpUser)
    → All (λ (u : JumpUser). contains u.backends id ≡ false) (revoke id us)
unfolding revoke
revoke-none id [] = tt
revoke-none id (u ∷ us) =
    (ground (arith, contains-keep u.backends id id, eq_self id), revoke-none id us)

removed_id :
    (bs : List Backend) (id : Str)
    → backend_by_id (keep (λ (b : Backend). not (b.id == id)) bs) id ≡ none
removed_id bs id = ground (arith, backend_by_id-keep bs id id, eq_self id)

other_id :
    (bs : List Backend) (id other : Str)
    → other ≢ id
    → backend_by_id (keep (λ (b : Backend). not (b.id == id)) bs) other ≡ backend_by_id bs other
other_id bs id other n = ground (arith, backend_by_id-keep bs id other)

other_id-append :
    (bs : List Backend) (id token other : Str)
    → other ≢ id
    → backend_by_id (bs ++ new_backend id token ∷ []) other ≡ backend_by_id bs other
unfolding backend_by_id new_backend
other_id-append [] id token other n = ground arith
other_id-append (b ∷ bs) id token other n = ground (arith, other_id-append bs id token other n)

is_some-false : (o : Option Backend) → is_some o ≡ false → o ≡ none
is_some-false none h = refl
is_some-false (some b) h = cc

module _ (decode : Str → Option Config) (encode : Config → Option Str) (random : Option Str)
    (encode64 : Str → Str) where
  read_config-inv :
      (d : Disk) (cfg : Config)
      → read_config decode encode random encode64 d ≡ ok cfg
      → (text : Str) × (d.content ≡ some text) × (decode text ≡ some cfg)
  unfolding read_config
  read_config-inv d cfg h =
      let (text, here, h1) = or_fail_inv d.content _ _ h in (text, here, ground arith)

  save-inv :
      (cfg : Config) (d d' : Disk)
      → save decode encode random encode64 cfg d ≡ ok d'
      → (out : Str) × (encode cfg ≡ some out) × (d'.content ≡ some out)
  unfolding save
  save-inv cfg d d' h =
      let (out, here, h1) = or_fail_inv (encode cfg) _ _ h in
      let (_, h2) = reject_if_inv (not d.creates_temp) cannot_save _ h1 in
      let (_, h3) = reject_if_inv (not d.writes) cannot_save _ h2 in
      let (_, h4) = reject_if_inv (not d.syncs) cannot_save _ h3 in
      let (_, h5) = reject_if_inv (not d.closes) cannot_save _ h4 in
      let (_, h6) = reject_if_inv (not d.renames) cannot_save _ h5 in
      (out, here, sym (ap (λ (x : Disk). x.content) (from_ok h6)))

  -- The configurations before and after an operation, as the file had and has them.
  pub record Rewritten (d d' : Disk) (cfg cfg' : Config) : Type 0 where
    pub text : Str
    pub out : Str
    pub had : d.content ≡ some text
    pub decoded : decode text ≡ some cfg
    pub encoded : encode cfg' ≡ some out
    pub has : d'.content ≡ some out

-- A backend that was added is found in the written configuration under its id, with the token that is
-- returned and in the mode "reverse", and no backend had the id before. Every other id names what it
-- named.
pub add_backend-Rewritten :
    (decode : Str → Option Config) (encode : Config → Option Str) (random : Option Str)
    (encode64 : Str → Str) (id token end_user token' : Str) (d d' : Disk)
    → add_backend decode encode random encode64 id token end_user d ≡ ok (token', d')
    → (cfg : Config) × (cfg' : Config) × Rewritten decode encode random encode64 d d' cfg cfg'
      × (backend_by_id cfg.backends id ≡ none)
      × (backend_by_id cfg'.backends id ≡ some (new_backend id token'))
      × ((other : Str)
          → other ≢ id
          → backend_by_id cfg'.backends other ≡ backend_by_id cfg.backends other)
unfolding add_backend
add_backend-Rewritten decode encode random encode64 id token end_user token' d d' h =
    let (_, h1) = reject_if_inv _ _ _ h in
    let (_, h2) = reject_if_inv (is_empty id) empty_id _ h1 in
    let (_, h3) =
      reject_if_inv (contains_any end_user (codes " \t\n/:,") || has_prefix end_user (codes "-"))
        bad_end_user _ h2 in
    let (cfg, got, h4) = bind_inv (read_config decode encode random encode64 d) _ h3 in
    let (free, h5) = reject_if_inv (is_some (backend_by_id cfg.backends id)) (exists id) _ h4 in
    let (new, _, h6) =
      bind_inv (if is_empty token then generate_token decode encode random encode64 else ok token) _
        h5 in
    let after : Str → Config =
      λ t. record cfg { backends = cfg.backends ++ new_backend id t ∷ [] } in
    let (disk, saved, h7) = bind_inv (save decode encode random encode64 (after new) d) _ h6 in
    let same_token : new ≡ token' = ap (λ (x : Str × Disk). x.0) (from_ok h7) in
    let same_disk : disk ≡ d' = ap (λ (x : Str × Disk). x.1) (from_ok h7) in
    let (text, had, decoded) = read_config-inv decode encode random encode64 d cfg got in
    let (out, encoded, has) = save-inv decode encode random encode64 (after new) d disk saved in
    let none_before = is_some-false (backend_by_id cfg.backends id) free in
    (
      cfg,
      after new,
      record {
        text = text;
        out = out;
        had = had;
        decoded = decoded;
        encoded = encoded;
        has = subst (λ (x : Disk). x.content ≡ some out) same_disk has;
      },
      none_before,
      subst (λ t. backend_by_id (after new).backends id ≡ some (new_backend id t)) same_token
          (backend_by_id-append cfg.backends id new none_before),
      λ other n. other_id-append cfg.backends id new other n,
    )

-- A backend that was removed is not found any more in the written configuration, and no jump user has a
-- grant of its id; every other id names what it named.
pub remove_backend-Rewritten :
    (decode : Str → Option Config) (encode : Config → Option Str) (random : Option Str)
    (encode64 : Str → Str) (id : Str) (d d' : Disk)
    → remove_backend decode encode random encode64 id d ≡ ok d'
    → (cfg : Config) × (cfg' : Config) × Rewritten decode encode random encode64 d d' cfg cfg'
      × (backend_by_id cfg'.backends id ≡ none)
      × All (λ (u : JumpUser). contains u.backends id ≡ false) cfg'.jump_users
      × ((other : Str)
          → other ≢ id
          → backend_by_id cfg'.backends other ≡ backend_by_id cfg.backends other)
unfolding remove_backend without_backend keep
remove_backend-Rewritten decode encode random encode64 id d d' h =
    let (cfg, got, h1) = bind_inv (read_config decode encode random encode64 d) _ h in
    let (_, h2) =
      reject_if_inv (not (is_some (backend_by_id cfg.backends id))) (not_found id) _ h1 in
    let (text, had, decoded) = read_config-inv decode encode random encode64 d cfg got in
    let (out, encoded, has) =
      save-inv decode encode random encode64 (without_backend id cfg) d d' h2 in
    (
      cfg,
      without_backend id cfg,
      record { text = text; out = out; had = had; decoded = decoded; encoded = encoded; has = has },
      removed_id cfg.backends id,
      revoke-none id cfg.jump_users,
      λ other n. other_id cfg.backends id other n,
    )
