-- ===== src/Config/Validate/Names.antt =====
-- Names, tokens and grants in a configuration that `Config.Validate` of internal/config/config.go accepts.
use sshhub.Base.Results.{ok, from_ok, bind_inv, reject_if_inv, not-false}
use sshhub.Base.{
  ◌≡◌, refl, sym, ap, subst, ◌∙◌, true, false, List, [], ◌∷◌, Option, some, ◌==◌, ==_iff, contains,
  Bool-cases, In, ◌⊎◌, inl, inr,
}
use sshhub.Base.Dict.{Dict, lookup}
use sshhub.Base.Int.{ℤ}
use sshhub.Text.{Str, is_empty, fields, str_eq}
use sshhub.Config.{Backend, Config, Route}
use sshhub.Config.Lookup.{backend_by_name, backend_by_token, find_token}
use sshhub.Config.Validate.{
  no_items, Seen, none_seen, no_ssh, no_control, no_host_key, ParsedKey, check_backends,
  check_names, check_routes, check_users, check_wait, validate,
}
use sshhub.Config.Validate.Backends.{Checked, check_backends-Checked}
use sshhub.Config.Validate.Entries.{
  Checked-backend_by_id, Checked-no_backend, Checked-alias, Checked-backend_by_alias,
  Checked-find_token,
}

check_names-free :
    (names : Dict Str Str) (ids : List Str) (a o : Str)
    → check_names names ids ≡ ok tt
    → lookup a names ≡ some o
    → contains ids a ≡ false
unfolding check_names lookup
check_names-free [] ids a o h e = absurd (cc)
check_names-free ((alias, owner) ∷ names) ids a o h e =
    let (free, rest) = reject_if_inv _ _ _ h in
    elim (Bool-cases (a == alias)) [
      | inl same ↦ subst (λ x. contains ids x ≡ false) (sym ((==_iff a alias).0 same)) free
      | inr other ↦ check_names-free names ids a o rest (rw other at e)
    ]

-- The passes of a validation that succeeds.
pub record Accepted (parse_key : Str → Option ParsedKey) (parse_duration : Str → Option ℤ)
    (c c' : Config) : Type 0 where
  pub seen : Seen
  pub users : check_users parse_key parse_duration c.backends c.jump_users [] ≡ ok tt
  pub wait : check_wait parse_key parse_duration c.auto_update_wait ≡ ok tt
  pub checked : Checked c.backends none_seen seen
  pub names : check_names seen.names seen.ids ≡ ok tt
  pub new_routes : List Route
  pub routes : check_routes 0 c.routes seen.ids ≡ ok new_routes
  pub result : record c { routes = new_routes } ≡ c'

pub validate-Accepted :
    (parse_key : Str → Option ParsedKey) (parse_duration : Str → Option ℤ) (c c' : Config)
    → validate parse_key parse_duration c ≡ ok c'
    → Accepted parse_key parse_duration c c'
unfolding validate
validate-Accepted pk pd c c' h =
    let (_, h1) = reject_if_inv _ _ _ h in
    let (_, users, h2) = bind_inv (check_users pk pd c.backends c.jump_users []) _ h1 in
    let (_, h3) = reject_if_inv (is_empty c.listen.ssh) no_ssh _ h2 in
    let (_, h4) = reject_if_inv (is_empty c.listen.control) no_control _ h3 in
    let (_, h5) = reject_if_inv (is_empty c.host_key) no_host_key _ h4 in
    let (_, wait, h6) = bind_inv (check_wait pk pd c.auto_update_wait) _ h5 in
    let (seen, pass, h7) = bind_inv (check_backends 0 c.backends none_seen) _ h6 in
    let (_, names, h8) = bind_inv (check_names seen.names seen.ids) _ h7 in
    let (routes, read, h9) = bind_inv (check_routes 0 c.routes seen.ids) _ h8 in
    record {
      seen = seen;
      users = users;
      wait = wait;
      checked = check_backends-Checked 0 c.backends none_seen seen pass;
      names = names;
      new_routes = routes;
      routes = read;
      result = from_ok h9;
    }

no_items-nil : {A : Type 0} (xs : List A) → no_items xs ≡ true → xs ≡ []
no_items-nil [] h = refl
no_items-nil (x ∷ xs) h = cc

pub validate-no_tokens :
    (parse_key : Str → Option ParsedKey) (parse_duration : Str → Option ℤ) (c c' : Config)
    → validate parse_key parse_duration c ≡ ok c'
    → c'.control_tokens ≡ []
unfolding validate
validate-no_tokens pk pd c c' h =
    let (none_given, _) = reject_if_inv _ _ _ h in
    let a = validate-Accepted pk pd c c' h in
    sym (ap (λ (x : Config). x.control_tokens) a.result)
    ∙ no_items-nil c.control_tokens (not-false _ none_given)

Checked-backend_by_name :
    (bs : List Backend) (seen : Seen) (b : Backend) (name : Str)
    → Checked bs none_seen seen
    → check_names seen.names seen.ids ≡ ok tt
    → In b bs
    → (name ≡ b.id) ⊎ (contains (fields b.aliases) name ≡ true)
    → backend_by_name bs name ≡ some b
unfolding backend_by_name
Checked-backend_by_name bs seen b name h free i (inl e) =
    rw e (rw (Checked-backend_by_id bs none_seen seen b h i, backend_by_name) refl)
Checked-backend_by_name bs seen b name h free i (inr a) =
    let entered = Checked-alias bs none_seen seen b name h i a in
    let no_id = check_names-free seen.names seen.ids name b.id free entered in
    rw (Checked-no_backend bs none_seen seen name h no_id, backend_by_name)
      (Checked-backend_by_alias bs none_seen seen b name h i a)

-- In a configuration that `Validate` accepts, names are unambiguous: each backend is what
-- `BackendByName` finds under its id and under each of its aliases.
pub backend_by_name-validate :
    (parse_key : Str → Option ParsedKey) (parse_duration : Str → Option ℤ) (c c' : Config)
    (b : Backend) (name : Str)
    → validate parse_key parse_duration c ≡ ok c'
    → In b c'.backends
    → (name ≡ b.id) ⊎ (contains (fields b.aliases) name ≡ true)
    → backend_by_name c'.backends name ≡ some b
backend_by_name-validate pk pd c c' b name h i n =
    let a = validate-Accepted pk pd c c' h in
    let same : c.backends ≡ c'.backends = ap (λ (x : Config). x.backends) a.result in
    subst (λ bs. backend_by_name bs name ≡ some b) same
      (Checked-backend_by_name c.backends a.seen b name a.checked a.names
        (subst (In b) (sym same) i) n)

-- In a configuration that `Validate` accepts, a token that is not empty identifies its backend:
-- `BackendByToken` finds exactly the backend that has it.
pub backend_by_token-validate :
    (parse_key : Str → Option ParsedKey) (parse_duration : Str → Option ℤ) (c c' : Config)
    (b : Backend)
    → validate parse_key parse_duration c ≡ ok c'
    → In b c'.backends
    → is_empty b.token ≡ false
    → backend_by_token c'.backends b.token ≡ some b
unfolding backend_by_token
backend_by_token-validate pk pd c c' b h i full =
    let a = validate-Accepted pk pd c c' h in
    let same : c.backends ≡ c'.backends = ap (λ (x : Config). x.backends) a.result in
    rw full (
      subst (λ bs. find_token bs b.token ≡ some b) same
        (Checked-find_token c.backends none_seen a.seen b a.checked (subst (In b) (sym same) i)
          full))
