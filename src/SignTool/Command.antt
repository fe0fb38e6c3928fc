-- ===== src/SignTool/Command.antt =====
-- The commands of cmd/sshhub-sign/main.go as a whole: what `main` calls, and what `manifest` writes and
-- prints. `filepath.Join` is an argument, and so is whether the file can be written.
use sshhub.Base.Results.{ok, ◌>>=◌, ◌>>◌, reject_if}
use sshhub.Base.{ℕ, Bool, not, List, [], ◌∷◌, Option, if◌then◌else◌, ◌==◌}
use sshhub.Text.{Str, codes, is_empty, str_eq}
use sshhub.Release.{Codec, SignedManifest, Manifest}
use sshhub.Release.Names.{artifact_names}
use sshhub.Base.Dict.{lookup}
use sshhub.Base.{◌++◌, none, some}
use sshhub.SignTool.{Options, Entry, Result, cannot_write, parse, make_manifest}

pub data Command : Type 0 where
  usage run_keygen : Command
  run_manifest : List Str → Command

-- `main`, over the arguments behind the program's name.
unfoldable pub command : List Str → Command
command [] = usage
command (name ∷ args) =
    if name == codes "keygen"
    then run_keygen
    else if name == codes "manifest"
    then run_manifest args
    else usage

abbrev pub no_options : Options
no_options = record { version = []; dir = []; urgent = []; key_file = []; out = [] }

-- Where the signed manifest goes.
unfoldable pub out_path : (Str → Str → Str) → Options → Str
out_path join o = if is_empty o.out then join o.dir (codes "sshhub-manifest.json") else o.out

-- `manifest`: the path that is written, and its content. The key file's content and the directory's
-- are those of the paths in the options.
unfoldable pub manifest :
    Codec
    → (SignedManifest → Option Str)
    → (Str → Str → Str)
    → (Str → Option Str)
    → (Str → Option (List Entry))
    → (Str → Bool)
    → Str
    → ℕ
    → List Str
    → Result (Str × Str)
manifest c encode join read_file read_dir writes env now args = do
  o ← parse args no_options
  text ← make_manifest c encode o env (read_file o.key_file) (read_dir o.dir) now
  reject_if (not (writes (out_path join o))) cannot_write
  ok (out_path join o, text)

-- The lines that `manifest` prints of the artifacts, each with its digest.
unfoldable pub report : Manifest → List Str → List Str
report m [] = []
report m (name ∷ names) =
    (codes "  "
      ++ (elim (lookup name m.artifacts) [ none ↦ [] | some d ↦ d ] ++ (codes "  " ++ name)))
    ∷ report m names

-- What is said of a release that is marked.
unfoldable pub urgent_lines : Manifest → List Str
urgent_lines m =
    if m.urgent
    then []
      ∷ (codes "Marked URGENT: " ++ m.urgent_reason)
      ∷ codes "Hubs will install this release immediately, bypassing auto_update_wait."
      ∷ []
    else []

-- The end of `manifest`: what it prints.
unfoldable pub printed : Str → Manifest → List Str
printed path m =
    (codes "Signed manifest written to " ++ path) ∷ (report m (artifact_names m) ++ urgent_lines m)
