-- ===== src/HubUpdate/Download/Entries.antt =====
-- What the archive loop of internal/hubupdate/update.go leaves in the temporary directory.
use sshhub.Base.Results.{ok, err-ne-ok, from_ok, bind_inv, reject_if_inv}
use sshhub.Base.{
  ℕ, ◌+◌, ◌≡◌, ◌≢◌, refl, Bool, true, false, not, ◌||◌, List, [], ◌∷◌, Option, none, some, arith,
  ◌==◌, ◌⊎◌, inl, inr, In, Bool-cases, Option-cases, sym, ap, subst, ◌∙◌, ℕ_discrete, ==_iff,
}
use sshhub.Base.Dict.{put}
use sshhub.Text.{Str, str_eq}
use sshhub.HubUpdate.Download.Archive.{
  Entry, Files, hub, ctl, base_name, bad_size, is_binary, add_file, extract_entry, extract,
}

abbrev pub present : Option Str → ℕ
present none = 0
present (some content) = 1

-- The count of the loop is the number of the two binaries that are there.
abbrev pub Counted : Files → ℕ → Type 0
Counted files found = found ≡ present (files hub) + present (files ctl)

hub-ne-ctl : hub ≢ ctl
hub-ne-ctl = λ e. ground arith

not_or_false : (a b : Bool) → (not a || b) ≡ false → a ≡ true
not_or_false true b h = refl
not_or_false false b h = cc

-- A file that was added, and where it came from.
record Added (e : Entry) (files files' : Files) : Type 0 where
  text : Str
  was_free : files e.name ≡ none
  has_content : e.content ≡ some text
  is_put : files' ≡ put e.name text files

add_file-Added :
    (e : Entry) (files files' : Files) → add_file e files ≡ ok files' → Added e files files'
unfolding add_file
add_file-Added e files files' h = elim (Option-cases (files e.name)) [
  | inr (old, taken) ↦ absurd (err-ne-ok (rw (taken, add_file) at h))
  | inl free ↦ elim (Option-cases e.content) [
    | inl broken ↦ absurd (err-ne-ok (rw (broken, add_file) at (rw (free, add_file) at h)))
    | inr (text, full) ↦ record {
      text = text;
      was_free = free;
      has_content = full;
      is_put = from_ok (sym (rw (full, add_file) at (rw (free, add_file) at h)));
    }
  ]
]

binary_name :
    (e : Entry) → is_binary e ≡ true → e.name ≡ base_name e.name → (e.name ≡ hub) ⊎ (e.name ≡ ctl)
unfolding is_binary
binary_name e b s = ground arith

-- One round adds a binary under its own name, or nothing.
extract_entry-cases :
    (e : Entry) (files files' : Files) (found found' : ℕ)
    → extract_entry e files found ≡ ok (files', found')
    → ((files' ≡ files) × (found' ≡ found))
      ⊎ (((e.name ≡ hub) ⊎ (e.name ≡ ctl)) × Added e files files' × (found' ≡ found + 1))
unfolding extract_entry
extract_entry-cases e files files' found found' h = elim (Bool-cases (is_binary e)) [
  | inr other ↦
      let same = from_ok (rw (other, extract_entry) at h) in
      inl (sym (ap (λ (x : Files × ℕ). x.0) same), sym (ap (λ (x : Files × ℕ). x.1) same))
  | inl bin ↦
      let (named, h1) = reject_if_inv _ _ _ (rw (bin, extract_entry) at h) in
      let (new, added, h2) = bind_inv _ _ h1 in
      let same = from_ok h2 in
      inr (
        binary_name e bin
            ((==_iff e.name (base_name e.name)).0 (not_or_false _ (bad_size e.size) named)),
        subst (Added e files) (ap (λ (x : Files × ℕ). x.0) same) (add_file-Added e files new added),
        sym (ap (λ (x : Files × ℕ). x.1) same),
      )
]

present-put-hub :
    (files : Files) (text : Str)
    → files hub ≡ none
    → present (put hub text files hub) + present (put hub text files ctl)
      ≡ present (files hub) + present (files ctl) + 1
unfolding str_eq ℕ_discrete
present-put-hub files text free = omega (arith, ap present free)

present-put-ctl :
    (files : Files) (text : Str)
    → files ctl ≡ none
    → present (put ctl text files hub) + present (put ctl text files ctl)
      ≡ present (files hub) + present (files ctl) + 1
unfolding str_eq ℕ_discrete
present-put-ctl files text free = omega (arith, ap present free)

present-put :
    (name : Str) (files : Files) (text : Str)
    → (name ≡ hub) ⊎ (name ≡ ctl)
    → files name ≡ none
    → present (put name text files hub) + present (put name text files ctl)
      ≡ present (files hub) + present (files ctl) + 1
present-put name files text (inl n) =
    subst
      (λ n.
        files n ≡ none
        → present (put n text files hub) + present (put n text files ctl)
          ≡ present (files hub) + present (files ctl) + 1)
      (sym n) (present-put-hub files text)
present-put name files text (inr n) =
    subst
      (λ n.
        files n ≡ none
        → present (put n text files hub) + present (put n text files ctl)
          ≡ present (files hub) + present (files ctl) + 1)
      (sym n) (present-put-ctl files text)

Counted-put :
    (e : Entry) (files files' : Files) (found : ℕ)
    → (e.name ≡ hub) ⊎ (e.name ≡ ctl)
    → Added e files files'
    → Counted files found
    → Counted files' (found + 1)
Counted-put e files files' found name a n =
    let at_hub : files' hub ≡ put e.name a.text files hub = ap (λ (f : Files). f hub) a.is_put in
    let at_ctl : files' ctl ≡ put e.name a.text files ctl = ap (λ (f : Files). f ctl) a.is_put in
    omega
      (arith, present-put e.name files a.text name a.was_free, ap present at_hub, ap present at_ctl)

extract_entry-Counted :
    (e : Entry) (files files' : Files) (found found' : ℕ)
    → extract_entry e files found ≡ ok (files', found')
    → Counted files found
    → Counted files' found'
extract_entry-Counted e files files' found found' h n =
    elim (extract_entry-cases e files files' found found' h) [
      | inl (same, same') ↦ rw (same, same') n
      | inr (name, a, more) ↦ rw more (Counted-put e files files' found name a n)
    ]

pub extract-Counted :
    (es : List Entry) (files files' : Files) (found found' : ℕ)
    → extract es files found ≡ ok (files', found')
    → Counted files found
    → Counted files' found'
unfolding extract
extract-Counted [] files files' found found' h n =
    let same = from_ok h in subst (λ (x : Files × ℕ). Counted x.0 x.1) same n
extract-Counted (e ∷ es) files files' found found' h n =
    let ((mid, count), one, rest) = bind_inv (extract_entry e files found) _ h in
    extract-Counted es mid files' count found' rest
      (extract_entry-Counted e files mid found count one n)

-- Every file comes from a regular entry of that very name, with its bytes.
abbrev pub FromEntry : List Entry → Str → Str → Type 0
FromEntry es name content = (e : Entry) × In e es × (e.name ≡ name) × (e.content ≡ some content)

Added-name :
    (es : List Entry) (e : Entry) (files files' : Files) (name content : Str)
    → Added e files files'
    → files' name ≡ some content
    → (files name ≡ some content) ⊎ FromEntry (e ∷ es) name content
Added-name es e files files' name content a here =
    let there : put e.name a.text files name ≡ some content =
      sym (ap (λ (f : Files). f name) a.is_put) ∙ here in
    elim (Bool-cases (name == e.name)) [
      | inl same ↦
          inr (e, inl refl, sym ((==_iff name e.name).0 same), a.has_content ∙ (rw same at there))
      | inr other ↦ inl (rw other at there)
    ]

pub extract-FromEntry :
    (es : List Entry) (files files' : Files) (found found' : ℕ) (name content : Str)
    → extract es files found ≡ ok (files', found')
    → files' name ≡ some content
    → (files name ≡ some content) ⊎ FromEntry es name content
unfolding extract
extract-FromEntry [] files files' found found' name content h here =
    inl (ap (λ (x : Files × ℕ). x.0 name) (from_ok h) ∙ here)
extract-FromEntry (e ∷ es) files files' found found' name content h here =
    let ((mid, count), one, rest) = bind_inv (extract_entry e files found) _ h in
    elim (extract-FromEntry es mid files' count found' name content rest here) [
      | inr (x, later, e1, e2) ↦ inr (x, inr later, e1, e2)
      | inl before ↦ elim (extract_entry-cases e files mid found count one) [
        | inl (same, _) ↦ inl (sym (ap (λ (f : Files). f name) same) ∙ before)
        | inr (_, a, _) ↦ Added-name es e files mid name content a before
      ]
    ]
