-- ===== src/HubUpdate/Download/Archive.antt =====
-- The loop over the release archive in `DownloadAndApplyHubUpdate` of internal/hubupdate/update.go.
use sshhub.Base.Results.{ok, err, ◌>>=◌, ◌>>◌, reject_if, or_fail}
use sshhub.Base.Results
use sshhub.Base.{
  ℕ, suc, ◌+◌, Bool, true, not, ◌&&◌, ◌||◌, List, [], ◌∷◌, Option, none, some, ltb, drop,
  if◌then◌else◌, ◌==◌, nat_eq,
}
use sshhub.Base.Dict.{Map, put}
use sshhub.Base.Int.{ℤ, pos, negsuc}
use sshhub.Text.{Str, codes, is_empty, str_eq}
use sshhub.Text.Cut.{last_index}

pub data Failure : Type 0 where
  invalid_version not_newer locked no_manifest no_response bad_status too_large bad_artifact :
      Failure
  bad_gzip bad_tar no_temp_dir bad_entry cannot_create cannot_extract missing_binary : Failure
  cannot_replace : Str → Failure

abbrev pub Result {ℓ} : Type ℓ → Type ℓ
Result A = Results.Result Failure A

-- A header with the bytes that follow it, `none` where copying them out fails.
pub record Entry : Type 0 where
  pub name : Str
  pub is_regular : Bool
  pub size : ℤ
  pub content : Option Str

-- Files of one directory, by their names.
abbrev pub Files : Type 0
Files = Map Str Str

abbrev pub no_files : Files
no_files name = none

abbrev pub hub : Str
hub = codes "sshhub"

abbrev pub ctl : Str
ctl = codes "sshhub-ctl"

-- 256 MiB
abbrev pub max_artifact_bytes : ℕ
max_artifact_bytes = 268_435_456

strip_slashes : Str → Str
strip_slashes [] = []
strip_slashes (c ∷ s) = onto c (strip_slashes s)
  where
    onto : ℕ → Str → Str
    onto c [] = if c == b'/' then [] else c ∷ []
    onto c (d ∷ r) = c ∷ d ∷ r

-- `filepath.Base`
unfoldable pub base_name : Str → Str
unfolding strip_slashes
base_name s =
    let t = strip_slashes s in
    if is_empty s
    then codes "."
    else if is_empty t
    then codes "/"
    else elim (last_index t b'/') [ none ↦ t | some i ↦ drop (suc i) t ]

unfoldable pub bad_size : ℤ → Bool
bad_size (negsuc n) = true
bad_size (pos n) = n == 0 || ltb max_artifact_bytes n

unfoldable pub is_binary : Entry → Bool
is_binary e = e.is_regular && (base_name e.name == hub || base_name e.name == ctl)

-- `os.O_EXCL`: the file must not be there yet.
unfoldable pub add_file : Entry → Files → Result Files
add_file e files = elim (files e.name) [
  | some _ ↦ err cannot_create
  | none ↦ elim e.content [
    | none ↦ err cannot_extract
    | some content ↦ ok (put e.name content files)
  ]
]

-- One round: the files, and the count of binaries found.
unfoldable pub extract_entry : Entry → Files → ℕ → Result (Files × ℕ)
extract_entry e files found =
    if is_binary e
    then (do
      reject_if (not (e.name == base_name e.name) || bad_size e.size) bad_entry
      files' ← add_file e files
      ok (files', found + 1))
    else ok (files, found)

unfoldable pub extract : List Entry → Files → ℕ → Result (Files × ℕ)
extract [] files found = ok (files, found)
extract (e ∷ es) files found = do
  (files', found') ← extract_entry e files found
  extract es files' found'
