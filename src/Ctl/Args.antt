-- ===== src/Ctl/Args.antt =====
-- How the commands of cmd/sshhub-ctl/main.go read their arguments. In each loop a flag that takes a value
-- skips it; `read_…` is the switch at one argument, with the argument that follows, and says whether that
-- is skipped.
pub mod Words
use sshhub.Base.{
  Bool, true, false, not, ◌&&◌, ◌||◌, List, [], ◌∷◌, Option, none, some, if◌then◌else◌, ◌==◌,
}
use sshhub.Text.{Str, codes, is_empty, has_prefix, trim_prefix, str_eq}

pub record AddArgs : Type 0 where
  pub config : Str
  pub hub : Str
  pub token : Str
  pub end_user : Str
  pub no_restart : Bool
  pub id : Str

abbrev pub has_next : Option Str → Bool
has_next none = false
has_next (some next) = true

abbrev pub or_empty : Option Str → Str
or_empty none = []
or_empty (some next) = next

unfoldable pub read_add : Str → Option Str → AddArgs → AddArgs × Bool
read_add arg next s =
    if (arg == codes "--hub") && has_next next
    then (record s { hub = or_empty next }, true)
    else if has_prefix arg (codes "--hub=")
    then (record s { hub = trim_prefix arg (codes "--hub=") }, false)
    else if (arg == codes "--token") && has_next next
    then (record s { token = or_empty next }, true)
    else if has_prefix arg (codes "--token=")
    then (record s { token = trim_prefix arg (codes "--token=") }, false)
    else if (arg == codes "--end-user") && has_next next
    then (record s { end_user = or_empty next }, true)
    else if has_prefix arg (codes "--end-user=")
    then (record s { end_user = trim_prefix arg (codes "--end-user=") }, false)
    else if (arg == codes "--config") && has_next next
    then (record s { config = or_empty next }, true)
    else if has_prefix arg (codes "--config=")
    then (record s { config = trim_prefix arg (codes "--config=") }, false)
    else if arg == codes "--no-restart"
    then (record s { no_restart = true }, false)
    else if not (has_prefix arg (codes "-")) && is_empty s.id
    then (record s { id = arg }, false)
    else (s, false)

-- The loop of "remove" and its flags.
pub record RemoveArgs : Type 0 where
  pub config : Str
  pub no_restart : Bool
  pub id : Str

unfoldable pub read_remove : Str → Option Str → RemoveArgs → RemoveArgs × Bool
read_remove arg next s =
    if (arg == codes "--config") && has_next next
    then (record s { config = or_empty next }, true)
    else if has_prefix arg (codes "--config=")
    then (record s { config = trim_prefix arg (codes "--config=") }, false)
    else if arg == codes "--no-restart"
    then (record s { no_restart = true }, false)
    else if not (has_prefix arg (codes "-")) && is_empty s.id
    then (record s { id = arg }, false)
    else (s, false)

-- "list", and "pin", which has no flag "--json".
pub record ListArgs : Type 0 where
  pub config : Str
  pub json : Bool

unfoldable pub read_pin : Str → Option Str → ListArgs → ListArgs × Bool
read_pin arg next s =
    if (arg == codes "--config") && has_next next
    then (record s { config = or_empty next }, true)
    else if has_prefix arg (codes "--config=")
    then (record s { config = trim_prefix arg (codes "--config=") }, false)
    else (s, false)

unfoldable pub read_list : Str → Option Str → ListArgs → ListArgs × Bool
unfolding read_pin
read_list arg next s =
    if arg == codes "--json" then (record s { json = true }, false) else read_pin arg next s

pub record UpdateArgs : Type 0 where
  pub target : Str
  pub check_only : Bool

unfoldable pub read_update : Str → Option Str → UpdateArgs → UpdateArgs × Bool
read_update arg next s =
    if arg == codes "--check"
    then (record s { check_only = true }, false)
    else if (arg == codes "--version") && has_next next
    then (record s { target = or_empty next }, true)
    else if has_prefix arg (codes "--version=")
    then (record s { target = trim_prefix arg (codes "--version=") }, false)
    else (s, false)

-- The loop over the arguments.
unfoldable pub read_all : {A : Type 0} → (Str → Option Str → A → A × Bool) → List Str → A → A
read_all read [] s = s
read_all read (arg ∷ []) s = (read arg none s).0
read_all read (arg ∷ next ∷ rest) s =
    let (s', skip) = read arg (some next) s in
    elim skip [ true ↦ read_all read rest s' | false ↦ read_all read (next ∷ rest) s' ]

unfoldable pub parse_add : List Str → AddArgs → AddArgs
parse_add args s = read_all read_add args s

unfoldable pub parse_remove : List Str → RemoveArgs → RemoveArgs
parse_remove args s = read_all read_remove args s

unfoldable pub parse_list : List Str → ListArgs → ListArgs
parse_list args s = read_all read_list args s

unfoldable pub parse_pin : List Str → ListArgs → ListArgs
parse_pin args s = read_all read_pin args s

unfoldable pub parse_update : List Str → UpdateArgs → UpdateArgs
parse_update args s = read_all read_update args s
