-- ===== src/Ctl/Args/Words.antt =====
-- The arguments of `sshhub-ctl add` (cmd/sshhub-ctl/main.go) as an operator writes them, and that they are
-- read as they are meant.
use sshhub.Base.{
  ◌≡◌, refl, ap, ◌∙◌, Bool, true, false, List, [], ◌∷◌, ◌++◌, Option, none, some, if◌then◌else◌,
  ◌==◌, arith, All, ℕ_discrete,
}
use sshhub.Text.{Str, codes, is_empty, has_prefix, trim_prefix, str_eq}
use sshhub.Ctl.Args.{AddArgs, read_add, read_all, parse_add}

-- The flags with a value, which stands in the same argument or in the next one.
pub data Flag : Type 0 where
  hub token end_user config : Flag

pub data Item : Type 0 where
  joined : Flag → Str → Item
  separate : Flag → Str → Item
  no_restart : Item
  name : Str → Item

unfoldable pub flag_text : Flag → Str
flag_text hub = codes "--hub"
flag_text token = codes "--token"
flag_text end_user = codes "--end-user"
flag_text config = codes "--config"

unfoldable pub words : List Item → List Str
words [] = []
words (joined f v ∷ items) = (flag_text f ++ b'=' ∷ v) ∷ words items
words (separate f v ∷ items) = flag_text f ∷ v ∷ words items
words (no_restart ∷ items) = codes "--no-restart" ∷ words items
words (name n ∷ items) = n ∷ words items

unfoldable pub set_flag : Flag → Str → AddArgs → AddArgs
set_flag hub v s = record s { hub = v }
set_flag token v s = record s { token = v }
set_flag end_user v s = record s { end_user = v }
set_flag config v s = record s { config = v }

-- What an item means: the last value of a flag counts, and the first name.
unfoldable pub mean : Item → AddArgs → AddArgs
mean (joined f v) s = set_flag f v s
mean (separate f v) s = set_flag f v s
mean no_restart s = record s { no_restart = true }
mean (name n) s = if is_empty s.id then record s { id = n } else s

unfoldable pub mean_all : List Item → AddArgs → AddArgs
mean_all [] s = s
mean_all (i ∷ items) s = mean_all items (mean i s)

-- A name does not begin with a dash. A value may be anything.
abbrev pub Plain : Item → Type 0
Plain (name n) = has_prefix n (codes "-") ≡ false
Plain (joined f v) = Unit
Plain (separate f v) = Unit
Plain no_restart = Unit

read_all-one :
    {A : Type 0} (read : Str → Option Str → A → A × Bool) (arg : Str) (rest : List Str) (s s' : A)
    → ((next : Option Str) → Path (A × Bool) (read arg next s) (s', false))
    → read_all read (arg ∷ rest) s ≡ read_all read rest s'
unfolding read_all
read_all-one read arg [] s s' h = rw (h none, read_all) refl
read_all-one {A} read arg (next ∷ rest) s s' h =
    let value = ap (λ (r : A × Bool). r.0) (h (some next)) in
    let skip = ap (λ (r : A × Bool). r.1) (h (some next)) in rw (skip, value, read_all) refl

read_all-two :
    {A : Type 0} (read : Str → Option Str → A → A × Bool) (arg next : Str) (rest : List Str)
    (s s' : A)
    → Path (A × Bool) (read arg (some next) s) (s', true)
    → read_all read (arg ∷ next ∷ rest) s ≡ read_all read rest s'
unfolding read_all
read_all-two {A} read arg next rest s s' h =
    let value = ap (λ (r : A × Bool). r.0) h in
    let skip = ap (λ (r : A × Bool). r.1) h in rw (skip, value, read_all) refl

name-eq : (n x : Str) → has_prefix n (codes "-") ≡ false → (n == (b'-' ∷ x)) ≡ false
unfolding has_prefix
name-eq [] x h = ground arith
name-eq (c ∷ n) x h = ground arith

name-prefix : (n x : Str) → has_prefix n (codes "-") ≡ false → has_prefix n (b'-' ∷ x) ≡ false
unfolding has_prefix
name-prefix [] x h = refl
name-prefix (c ∷ n) x h = ground arith

joined-read :
    (f : Flag) (v : Str) (s : AddArgs) (next : Option Str)
    → Path (AddArgs × Bool) (read_add (flag_text f ++ b'=' ∷ v) next s) (set_flag f v s, false)
unfolding read_add flag_text set_flag has_prefix trim_prefix str_eq ℕ_discrete
joined-read hub v s next = refl
joined-read token v s next = refl
joined-read end_user v s next = refl
joined-read config v s next = refl

separate-read :
    (f : Flag) (v : Str) (s : AddArgs)
    → Path (AddArgs × Bool) (read_add (flag_text f) (some v) s) (set_flag f v s, true)
unfolding read_add flag_text set_flag has_prefix trim_prefix str_eq ℕ_discrete
separate-read hub v s = refl
separate-read token v s = refl
separate-read end_user v s = refl
separate-read config v s = refl

no_restart-read :
    (s : AddArgs) (next : Option Str)
    → Path
        (AddArgs × Bool)
        (read_add (codes "--no-restart") next s)
        (record s { no_restart = true }, false)
unfolding read_add has_prefix trim_prefix str_eq ℕ_discrete
no_restart-read s next = refl

name-read :
    (n : Str) (s : AddArgs) (next : Option Str)
    → has_prefix n (codes "-") ≡ false
    → Path (AddArgs × Bool) (read_add n next s) (mean (name n) s, false)
unfolding read_add mean
name-read n s next h =
    rw
      (
        name-eq n (codes "-hub") h,
        name-eq n (codes "-token") h,
        name-eq n (codes "-end-user") h,
        name-eq n (codes "-config") h,
        name-eq n (codes "-no-restart") h,
        name-prefix n (codes "-hub=") h,
        name-prefix n (codes "-token=") h,
        name-prefix n (codes "-end-user=") h,
        name-prefix n (codes "-config=") h,
        h,
      )
      (ground arith)

-- The arguments of `add` are read as they are meant, in any order and in either spelling of a flag: the
-- value of a flag is never taken for a name or for another flag, whatever it looks like, and a name is
-- never taken for a value.
pub parse_add-words :
    (items : List Item) (s : AddArgs)
    → All Plain items
    → parse_add (words items) s ≡ mean_all items s
unfolding parse_add words mean_all mean read_all
parse_add-words [] s h = refl
parse_add-words (joined f v ∷ items) s (_, h) =
    read_all-one read_add (flag_text f ++ b'=' ∷ v) (words items) s (set_flag f v s)
      (joined-read f v s)
    ∙ parse_add-words items (set_flag f v s) h
parse_add-words (separate f v ∷ items) s (_, h) =
    read_all-two read_add (flag_text f) v (words items) s (set_flag f v s) (separate-read f v s)
    ∙ parse_add-words items (set_flag f v s) h
parse_add-words (no_restart ∷ items) s (_, h) =
    read_all-one read_add (codes "--no-restart") (words items) s _ (no_restart-read s)
    ∙ parse_add-words items (record s { no_restart = true }) h
parse_add-words (name n ∷ items) s (p, h) =
    read_all-one read_add n (words items) s (mean (name n) s) (λ next. name-read n s next p)
    ∙ parse_add-words items (mean (name n) s) h
