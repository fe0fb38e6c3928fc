-- ===== src/Config/Validate/Backends.antt =====
-- What a pass of `Config.Validate` in internal/config/config.go over the backends leaves in its maps.
use sshhub.Base.Results.{
  ok, err, ◌>>◌, reject_if, err-ne-ok, from_ok, bind_inv, reject_if_inv, not-false,
}
use sshhub.Base.{
  ℕ, suc, ◌≡◌, refl, sym, ap, subst, true, false, List, [], ◌∷◌, none, some, arith, if◌then◌else◌,
  ◌==◌, ==_iff, contains, Bool-cases, Option-cases, inl, inr,
}
use sshhub.Base.Dict.{Dict, lookup, insert, lookup-insert}
use sshhub.Text.{
  Str, is_empty, fields, fields_from, trim_space, trim_left, trim_right, is_space, str_eq,
}
use sshhub.Config.{Backend}
use sshhub.Config.Lookup.{reverse}
use sshhub.Config.Validate.{
  Result, Seen, check_aliases, check_token, check_mode, check_backend, check_backends,
  alias_conflict,
}

-- Every entry of the first map is in the second one.
abbrev pub Extends : Dict Str Str → Dict Str Str → Type 0
Extends d d' = (k o : Str) → lookup k d ≡ some o → lookup k d' ≡ some o

Extends-insert : (k o : Str) (d : Dict Str Str) → lookup k d ≡ none → Extends d (insert k o d)
Extends-insert k o d free j p h = ground (arith, lookup-insert j k o d)

lookup-insert_same : (k o : Str) (d : Dict Str Str) → lookup k (insert k o d) ≡ some o
lookup-insert_same k o d = ground (arith, lookup-insert k k o d)

-- The aliases of one backend are entered under its id.
free_alias :
    (id alias : Str) (names names' : Dict Str Str) (k : Result (Dict Str Str))
    → ((elim (lookup alias names) [
      | some owner ↦ err (alias_conflict alias owner)
      | none ↦ reject_if (alias == id) (alias_conflict alias id)
    ])
        >> k)
      ≡ ok names'
    → (lookup alias names ≡ none) × (k ≡ ok names')
free_alias id alias names names' k h = elim (Option-cases (lookup alias names)) [
  | inr (o, taken) ↦ absurd (err-ne-ok (rw taken at h))
  | inl free ↦ (free, (reject_if_inv _ _ k (rw free at h)).1)
]

check_aliases-enters :
    (id : Str) (aliases : List Str) (names names' : Dict Str Str)
    → check_aliases id aliases names ≡ ok names'
    → Extends names names' × ((a : Str) → contains aliases a ≡ true → lookup a names' ≡ some id)
unfolding check_aliases contains
check_aliases-enters id [] names names' h =
    (λ k o e. subst (λ d. lookup k d ≡ some o) (from_ok h) e, λ a e. absurd (cc))
check_aliases-enters id (alias ∷ more) names names' h =
    let (_, h1) = reject_if_inv _ _ _ h in
    let (free, h2) = free_alias id alias names names' _ h1 in
    let (grows, enters) = check_aliases-enters id more (insert alias id names) names' h2 in
    (
      λ k o e. grows k o (Extends-insert alias id names free k o e),
      λ a e. elim (Bool-cases (a == alias)) [
        | inl same ↦
            subst (λ x. lookup x names' ≡ some id) (sym ((==_iff a alias).0 same))
              (grows alias id (lookup-insert_same alias id names))
        | inr other ↦ enters a (rw other at e)
      ],
    )

trim_right-word : (c : ℕ) (s : Str) → is_space c ≡ false → is_empty (trim_right (c ∷ s)) ≡ false
unfolding trim_right
trim_right-word c s h = ground arith

fields_from-blank : (s : Str) → is_empty (trim_right (trim_left s)) ≡ true → fields_from [] s ≡ []
unfolding trim_left fields_from
fields_from-blank [] h = refl
fields_from-blank (c ∷ s) h = elim (Bool-cases (is_space c)) [
  | inl blank ↦ ground (arith, fields_from-blank s)
  | inr word ↦ absurd (ground (arith, trim_right-word c s word))
]

fields-blank : (s : Str) → is_empty (trim_space s) ≡ true → fields s ≡ []
unfolding trim_space fields
fields-blank s h = fields_from-blank s h

check_token-enters :
    (b : Backend) (tokens tokens' : Dict Str Str)
    → check_token b tokens ≡ ok tokens'
    → Extends tokens tokens'
      × (is_empty b.token ≡ false
          → (lookup b.token tokens ≡ none) × (lookup b.token tokens' ≡ some b.id))
unfolding check_token
check_token-enters b tokens tokens' h = elim (Bool-cases (is_empty b.token)) [
  | inl empty ↦
      (λ k o e. subst (λ d. lookup k d ≡ some o) (from_ok (rw empty at h)) e, λ full. absurd (cc))
  | inr full ↦ elim (Option-cases (lookup b.token tokens)) [
    | inr (o, taken) ↦ absurd (err-ne-ok (rw taken at (rw full at h)))
    | inl free ↦
        let same : insert b.token b.id tokens ≡ tokens' = from_ok (rw free at (rw full at h)) in
        (
          λ k o e.
              subst (λ d. lookup k d ≡ some o) same (Extends-insert b.token b.id tokens free k o e),
          λ _. (
            free,
            subst (λ d. lookup b.token d ≡ some b.id) same (lookup-insert_same b.token b.id tokens),
          ),
        )
  ]
]

check_mode-reverse : (b : Backend) → check_mode b ≡ ok tt → b.mode ≡ reverse
unfolding check_mode
check_mode-reverse b h = elim (Bool-cases (b.mode == reverse)) [
  | inl same ↦ (==_iff b.mode reverse).0 same
  | inr other ↦ absurd (err-ne-ok (rw other at h))
]

-- The step of the round that reads the aliases.
aliases_step : Backend → Dict Str Str → Result (Dict Str Str)
aliases_step b names =
    if is_empty (trim_space b.aliases)
    then ok names
    else check_aliases b.id (fields b.aliases) names

aliases_step-enters :
    (b : Backend) (names names' : Dict Str Str)
    → aliases_step b names ≡ ok names'
    → Extends names names'
      × ((a : Str) → contains (fields b.aliases) a ≡ true → lookup a names' ≡ some b.id)
unfolding aliases_step contains
aliases_step-enters b names names' h = elim (Bool-cases (is_empty (trim_space b.aliases))) [
  | inl blank ↦ (
    λ k o e. subst (λ d. lookup k d ≡ some o) (from_ok (rw blank at h)) e,
    λ a e. absurd (ground (arith, fields-blank b.aliases blank)),
  )
  | inr some_aliases ↦
      check_aliases-enters b.id (fields b.aliases) names names' (rw some_aliases at h)
]

-- What one round leaves.
pub record Passed (b : Backend) (s s' : Seen) : Type 0 where
  pub has_id : is_empty b.id ≡ false
  pub new_id : contains s.ids b.id ≡ false
  pub ids : s'.ids ≡ b.id ∷ s.ids
  pub names_grow : Extends s.names s'.names
  pub aliases : (a : Str) → contains (fields b.aliases) a ≡ true → lookup a s'.names ≡ some b.id
  pub tokens_grow : Extends s.tokens s'.tokens
  pub token :
      is_empty b.token ≡ false
      → (lookup b.token s.tokens ≡ none) × (lookup b.token s'.tokens ≡ some b.id)
  pub mode : b.mode ≡ reverse
  pub no_username : is_empty b.username ≡ true

pub check_backend-Passed :
    (i : ℕ) (b : Backend) (s s' : Seen) → check_backend i b s ≡ ok s' → Passed b s s'
unfolding check_backend aliases_step
check_backend-Passed i b s s' h =
    let (has_id, h1) = reject_if_inv _ _ _ h in
    let (new_id, h2) = reject_if_inv _ _ _ h1 in
    let (names, named, h3) = bind_inv (aliases_step b s.names) _ h2 in
    let (tokens, known, h4) = bind_inv (check_token b s.tokens) _ h3 in
    let (_, mode, h5) = bind_inv (check_mode b) _ h4 in
    let (old, h6) = reject_if_inv _ _ _ h5 in
    let last : record { ids = b.id ∷ s.ids; names = names; tokens = tokens } ≡ s' = from_ok h6 in
    let (grows, enters) = aliases_step-enters b s.names names named in
    let (more, token) = check_token-enters b s.tokens tokens known in
    record {
      has_id = has_id;
      new_id = new_id;
      ids = sym (ap (λ (x : Seen). x.ids) last);
      names_grow = subst (λ (x : Seen). Extends s.names x.names) last grows;
      aliases = λ a e. subst (λ (x : Seen). lookup a x.names ≡ some b.id) last (enters a e);
      tokens_grow = subst (λ (x : Seen). Extends s.tokens x.tokens) last more;
      token =
          subst
            (λ (x : Seen).
              is_empty b.token ≡ false
              → (lookup b.token s.tokens ≡ none) × (lookup b.token x.tokens ≡ some b.id))
            last token;
      mode = check_mode-reverse b mode;
      no_username = not-false _ old;
    }

-- What the whole pass leaves about a list of backends.
unfoldable pub Checked : List Backend → Seen → Seen → Type 0
Checked [] s s' = s ≡ s'
Checked (b ∷ bs) s s' = (mid : Seen) × Passed b s mid × Checked bs mid s'

pub check_backends-Checked :
    (i : ℕ) (bs : List Backend) (s s' : Seen) → check_backends i bs s ≡ ok s' → Checked bs s s'
unfolding check_backends Checked
check_backends-Checked i [] s s' h = from_ok h
check_backends-Checked i (b ∷ bs) s s' h =
    let (mid, one, rest) = bind_inv (check_backend i b s) _ h in
    (mid, check_backend-Passed i b s mid one, check_backends-Checked (suc i) bs mid s' rest)
