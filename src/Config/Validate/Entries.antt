-- ===== src/Config/Validate/Entries.antt =====
-- The backends of a configuration that passed the loop of `Config.Validate` in
-- internal/config/config.go: ids, aliases and tokens are entered once.
use sshhub.Base.{
  ◌≡◌, refl, sym, ap, subst, true, false, ◌||◌, List, [], ◌∷◌, none, some, arith, ◌==◌, ==_iff,
  eq_self, contains, Bool-cases, Option-cases, In, inl, inr,
}
use sshhub.Base.Dict.{lookup}
use sshhub.Text.{Str, is_empty, fields, str_eq}
use sshhub.Config.{Backend}
use sshhub.Config.Lookup.{backend_by_id, backend_by_alias, find_token, reverse}
use sshhub.Config.Validate.{Seen}
use sshhub.Config.Validate.Backends.{Extends, Passed, Checked}

pub Checked-names : (bs : List Backend) (s s' : Seen) → Checked bs s s' → Extends s.names s'.names
unfolding Checked
Checked-names [] s s' h k o e = subst (λ (x : Seen). lookup k x.names ≡ some o) h e
Checked-names (b ∷ bs) s s' (mid, p, rest) k o e =
    Checked-names bs mid s' rest k o (p.names_grow k o e)

pub Checked-tokens :
    (bs : List Backend) (s s' : Seen) → Checked bs s s' → Extends s.tokens s'.tokens
unfolding Checked
Checked-tokens [] s s' h k o e = subst (λ (x : Seen). lookup k x.tokens ≡ some o) h e
Checked-tokens (b ∷ bs) s s' (mid, p, rest) k o e =
    Checked-tokens bs mid s' rest k o (p.tokens_grow k o e)

pub contains-more :
    (b : Backend) (s s' : Seen) (p : Passed b s s') (id : Str)
    → contains s'.ids id ≡ (id == b.id || contains s.ids id)
unfolding contains
contains-more b s s' p id = ap (λ xs. contains xs id) p.ids

pub Checked-ids :
    (bs : List Backend) (s s' : Seen) (id : Str)
    → Checked bs s s'
    → contains s.ids id ≡ true
    → contains s'.ids id ≡ true
unfolding Checked
Checked-ids [] s s' id h e = subst (λ (x : Seen). contains x.ids id ≡ true) h e
Checked-ids (b ∷ bs) s s' id (mid, p, rest) e =
    Checked-ids bs mid s' id rest (ground (arith, contains-more b s mid p id))

pub Checked-has_id :
    (bs : List Backend) (s s' : Seen) (b : Backend)
    → Checked bs s s'
    → In b bs
    → contains s'.ids b.id ≡ true
unfolding Checked
Checked-has_id [] s s' b h i = absurd i
Checked-has_id (x ∷ bs) s s' b (mid, p, rest) (inl e) =
    subst (λ (y : Backend). contains s'.ids y.id ≡ true) (sym e)
      (Checked-ids bs mid s' x.id rest (ground (arith, contains-more x s mid p x.id, eq_self x.id)))
Checked-has_id (x ∷ bs) s s' b (mid, p, rest) (inr i) = Checked-has_id bs mid s' b rest i

pub Checked-new_id :
    (bs : List Backend) (s s' : Seen) (b : Backend)
    → Checked bs s s'
    → In b bs
    → contains s.ids b.id ≡ false
unfolding Checked
Checked-new_id [] s s' b h i = absurd i
Checked-new_id (x ∷ bs) s s' b (mid, p, rest) (inl e) =
    subst (λ (y : Backend). contains s.ids y.id ≡ false) (sym e) p.new_id
Checked-new_id (x ∷ bs) s s' b (mid, p, rest) (inr i) =
    ground (arith, contains-more x s mid p b.id, Checked-new_id bs mid s' b rest i)

-- A later backend has another id.
pub other_id :
    (bs : List Backend) (s mid s' : Seen) (x b : Backend)
    → Passed x s mid
    → Checked bs mid s'
    → In b bs
    → (b.id == x.id) ≡ false
other_id bs s mid s' x b p rest i =
    ground (arith, contains-more x s mid p b.id, Checked-new_id bs mid s' b rest i)

pub Checked-backend_by_id :
    (bs : List Backend) (s s' : Seen) (b : Backend)
    → Checked bs s s'
    → In b bs
    → backend_by_id bs b.id ≡ some b
unfolding Checked backend_by_id
Checked-backend_by_id [] s s' b h i = absurd i
Checked-backend_by_id (x ∷ bs) s s' b (mid, p, rest) (inl e) = rw e (rw (eq_self x.id) refl)
Checked-backend_by_id (x ∷ bs) s s' b (mid, p, rest) (inr i) =
    ground (arith, Checked-backend_by_id bs mid s' b rest i, other_id bs s mid s' x b p rest i)

pub Checked-no_backend :
    (bs : List Backend) (s s' : Seen) (name : Str)
    → Checked bs s s'
    → contains s'.ids name ≡ false
    → backend_by_id bs name ≡ none
unfolding Checked backend_by_id
Checked-no_backend [] s s' name h e = refl
Checked-no_backend (x ∷ bs) s s' name (mid, p, rest) e =
    let has = Checked-has_id (x ∷ bs) s s' x (mid, p, rest) (inl refl) in
    let fresh : (x.id == name) ≡ false = elim (Bool-cases (x.id == name)) [
      | inr other ↦ other
      | inl same ↦ absurd (ground (arith, (==_iff x.id name).0 same, has))
    ] in
    rw fresh (Checked-no_backend bs mid s' name rest e)

pub Checked-alias :
    (bs : List Backend) (s s' : Seen) (b : Backend) (name : Str)
    → Checked bs s s'
    → In b bs
    → contains (fields b.aliases) name ≡ true
    → lookup name s'.names ≡ some b.id
unfolding Checked
Checked-alias [] s s' b name h i a = absurd i
Checked-alias (x ∷ bs) s s' b name (mid, p, rest) (inl e) a =
    subst (λ (y : Backend). lookup name s'.names ≡ some y.id) (sym e)
      (Checked-names bs mid s' rest name x.id
        (p.aliases name (subst (λ (y : Backend). contains (fields y.aliases) name ≡ true) e a)))
Checked-alias (x ∷ bs) s s' b name (mid, p, rest) (inr i) a =
    Checked-alias bs mid s' b name rest i a

pub Checked-backend_by_alias :
    (bs : List Backend) (s s' : Seen) (b : Backend) (name : Str)
    → Checked bs s s'
    → In b bs
    → contains (fields b.aliases) name ≡ true
    → backend_by_alias bs name ≡ some b
unfolding Checked backend_by_alias
Checked-backend_by_alias [] s s' b name h i a = absurd i
Checked-backend_by_alias (x ∷ bs) s s' b name (mid, p, rest) (inl e) a =
    rw (subst (λ (y : Backend). contains (fields y.aliases) name ≡ true) e a) (ap some (sym e))
Checked-backend_by_alias (x ∷ bs) s s' b name (mid, p, rest) (inr i) a =
    elim (Bool-cases (contains (fields x.aliases) name)) [
      | inr other ↦ rw other (Checked-backend_by_alias bs mid s' b name rest i a)
      | inl also ↦
          let mine = Checked-alias (x ∷ bs) s s' b name (mid, p, rest) (inr i) a in
          let theirs = Checked-alias (x ∷ bs) s s' x name (mid, p, rest) (inl refl) also in
          absurd (ground (arith, mine, theirs, other_id bs s mid s' x b p rest i))
    ]

pub Checked-new_token :
    (bs : List Backend) (s s' : Seen) (b : Backend)
    → Checked bs s s'
    → In b bs
    → is_empty b.token ≡ false
    → lookup b.token s.tokens ≡ none
unfolding Checked
Checked-new_token [] s s' b h i full = absurd i
Checked-new_token (x ∷ bs) s s' b (mid, p, rest) (inl e) full =
    subst (λ (y : Backend). lookup y.token s.tokens ≡ none) (sym e)
      (p.token (subst (λ (y : Backend). is_empty y.token ≡ false) e full)).0
Checked-new_token (x ∷ bs) s s' b (mid, p, rest) (inr i) full =
    elim (Option-cases (lookup b.token s.tokens)) [
      | inl free ↦ free
      | inr (o, taken) ↦
          absurd (
            ground
              (arith, p.tokens_grow b.token o taken, Checked-new_token bs mid s' b rest i full))
    ]

-- A backend found under the token before the one that has it.
pub not_same_token :
    (bs : List Backend) (s mid s' : Seen) (x b : Backend)
    → Passed x s mid
    → Checked bs mid s'
    → In b bs
    → is_empty b.token ≡ false
    → (x.token == b.token) ≡ false
not_same_token bs s mid s' x b p rest i full = elim (Bool-cases (x.token == b.token)) [
  | inr other ↦ other
  | inl same ↦
      let e : x.token ≡ b.token = (==_iff x.token b.token).0 same in
      let known = (p.token (subst (λ t. is_empty t ≡ false) (sym e) full)).1 in
      absurd (
        ground (
          arith,
          subst (λ t. lookup t mid.tokens ≡ some x.id) e known,
          Checked-new_token bs mid s' b rest i full,
        ))
]

pub Checked-find_token :
    (bs : List Backend) (s s' : Seen) (b : Backend)
    → Checked bs s s'
    → In b bs
    → is_empty b.token ≡ false
    → find_token bs b.token ≡ some b
unfolding Checked find_token
Checked-find_token [] s s' b h i full = absurd i
Checked-find_token (x ∷ bs) s s' b (mid, p, rest) (inl e) full =
    rw e (rw ((==_iff x.mode reverse).1 p.mode, eq_self x.token) refl)
Checked-find_token (x ∷ bs) s s' b (mid, p, rest) (inr i) full = ground (
  arith,
  not_same_token bs s mid s' x b p rest i full,
  Checked-find_token bs mid s' b rest i full,
)
