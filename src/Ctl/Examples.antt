-- ===== src/Ctl/Examples.antt =====
-- The commands of an operator at a small hub, and the theorems on them there.
use sshhub.Base.Int.{negsuc, pos}
use sshhub.Base.{
  ℕ, ◌+◌, ◌*◌, ◌≤◌, ◌<◌, map, arith, contains, ◌≡◌, refl, true, false, List, [], ◌∷◌, Option, none,
  some, ℕ_discrete,
}
use sshhub.Text.{Str, codes, str_eq, trim_prefix, trim_space}
use sshhub.Text.Cut.{split, before}
use sshhub.Config.{Backend, Route}
use sshhub.Config.Routes.{resolved_end_user}
use sshhub.Config.Manage.{new_backend}
use sshhub.Control.Registry.{status_of}
use sshhub.Control.Server.{Arrival, arrives, TokenResolver, run, empty_hub}
use sshhub.Release.{Codec}
use sshhub.HubUpdate.Version.{
  is_newer, clean, compare_versions, parts, compare_parts, atoi, is_digit,
}
use sshhub.HubUpdate.Download.{Machine}
use sshhub.HubUpdate.Download.Archive.{no_files}
use sshhub.HubUpdate.Latest.{
  GithubRelease, fetch_latest_version, redirected_tag, tag_of_location, last_part, Updated,
}
use sshhub.Ctl.Args.{UpdateArgs}
use sshhub.Ctl.Update.{update, update_to, available, updated, Wanted, update-Updated}
use sshhub.Admin.{Status, answer_status}
use sshhub.Ctl.Listing.{rows, count_online, end_users, add_user, live, live_from}
use sshhub.Ctl.Listing.Table.{
  lines, shown, online_rows, stale_rows, stale_texts, stale_text, stale_line, summary, join,
  lines-rows,
}
use sshhub.Ctl.Listing.Duration.{second, short_duration, Says, short_duration-Says, unit_for}
use sshhub.Text.Decimal.{decimal, digits}
use sshhub.Ctl.Listing.Users.{Once, leads}
use sshhub.Ctl.Listing.Live.{expected_rows, count_tunnels, run-rows}

abbrev codec : Codec
codec = record {
  decode_signed = λ s. none;
  decode_manifest = λ s. none;
  encode_manifest = λ m. none;
  decode64 = λ s. some s;
  encode64 = λ s. s;
  decode_hex = λ s. none;
  verifies = λ key body sig. false;
  signs = λ priv body. codes "sig";
  sha256_hex = λ s. s;
}

abbrev machine : Machine
machine = record {
  http = λ url. none;
  trusted = none;
  version = codes "0.9.0";
  goos = codes "linux";
  goarch = codes "amd64";
  lock_taken = false;
  unpack = λ payload. none;
  temp_dir = true;
  renames = λ file. true;
}

abbrev locate : Str → Option Str
locate url = some (codes "https://github.com/Trickhish/sshhub/releases/tag/v0.9.1")

abbrev no_release : Str → Option GithubRelease
no_release body = none

abbrev check : UpdateArgs
check = record { target = []; check_only = true }

checks :
    update codec machine locate no_release check no_files ≡ (no_files, available (codes "v0.9.1"))
unfolding update update_to fetch_latest_version redirected_tag tag_of_location last_part split
    before is_newer clean trim_space trim_prefix compare_versions parts compare_parts atoi is_digit
    str_eq ℕ_discrete
checks = refl

-- Asked for a version it has, "update --check" still says that an update is available, from the running
-- version to the latest, which is the same.
same_version_is_available :
    (update codec
      (record machine { version = codes "v0.9.1" })
      locate
      no_release
      (record check { target = codes "v0.9.1" })
      no_files).1
    ≡ available (codes "v0.9.1")
unfolding update update_to fetch_latest_version redirected_tag tag_of_location last_part split
    before is_newer clean trim_space trim_prefix compare_versions parts compare_parts atoi is_digit
    str_eq ℕ_discrete
same_version_is_available = refl

update-Updated_example :
    (true ≡ true → (update codec machine locate no_release check no_files).0 ≡ no_files)
    × ((v : Str)
        → (update codec machine locate no_release check no_files).1 ≡ updated v
        → (latest : Str) × (fetch_latest_version locate machine.http no_release ≡ some latest)
          × Wanted codec machine locate no_release check latest v
          × Updated codec machine v no_files
              (update codec machine locate no_release check no_files).0)
update-Updated_example = update-Updated codec machine locate no_release check no_files

abbrev resolver : TokenResolver
resolver t requested = some (codes "web")

abbrev arrival : Arrival
arrival = record {
  session = 1;
  now = 5;
  remote_addr = codes "10.0.0.1:5";
  request = some (record {
    transport = codes "openssh-forward-v1";
    backend = [];
    token = codes "t1";
    version = codes "0.9.0";
    os = codes "linux";
    arch = codes "amd64";
    host_key = [];
  });
  writes = true;
}

abbrev web : Backend
web = new_backend (codes "web") (codes "t1")

abbrev route : Str → Route
route user = record {
  match = record { username = codes "w"; hostname = [] };
  backend = codes "web";
  username = codes "w";
  hostname = [];
  end_user = user;
}

abbrev routes : List Route
routes = route [] ∷ route (codes "ann") ∷ route (codes "root") ∷ []

its_users : end_users (codes "web") routes [] ≡ codes "root" ∷ codes "ann" ∷ []
unfolding end_users add_user resolved_end_user contains str_eq ℕ_discrete
its_users = refl

run-rows_example :
    let r = (run resolver (codes "0.9.0") (arrives arrival ∷ []) empty_hub).registry in
    (rows (λ t. codes "3s") routes (some (answer_status (codes "0.9.0") 1 r)) (web ∷ [])
      ≡ expected_rows (λ t. codes "3s") routes r (web ∷ []))
    × (count_online (some (answer_status (codes "0.9.0") 1 r)) (web ∷ [])
        ≡ count_tunnels r (web ∷ []))
    × ((id : Str)
        → Once (end_users id routes [])
          × ((u : Str) → contains (end_users id routes []) u ≡ leads id u routes))
run-rows_example =
    run-rows resolver (codes "0.9.0") (arrives arrival ∷ []) 1 (λ t. codes "3s") routes (web ∷ [])

abbrev with_web : Status
with_web = record {
  hub_version = codes "1.0.0";
  started_at = 1;
  backends =
      status_of (codes "web") (record {
        session = 1;
        host_key = [];
        version = codes "0.9.0";
        os = codes "linux";
        arch = codes "amd64";
        connected_at = 5;
        remote_addr = codes "10.0.0.1:5";
      })
      ∷ [];
}

agents_are_named :
    summary (λ t. codes "3s") [] (some with_web) (web ∷ [])
    ≡ codes "1/1 online. Hub 1.0.0, up 3s." ∷ codes "Agents not on 1.0.0: web (0.9.0)" ∷ []
unfolding summary stale_line stale_texts stale_text join count_online live live_from decimal digits
    status_of str_eq ℕ_discrete new_backend
agents_are_named = refl

lines-rows_example :
    ((st : Option Status)
      → lines (λ t. codes "3s") routes st (web ∷ [])
        ≡ map (shown st) (rows (λ t. codes "3s") routes st (web ∷ [])))
    × (count_online (some with_web) (web ∷ [])
        ≡ online_rows (rows (λ t. codes "3s") routes (some with_web) (web ∷ [])))
    × (stale_texts with_web (web ∷ [])
        ≡ stale_rows (codes "1.0.0") (rows (λ t. codes "3s") routes (some with_web) (web ∷ [])))
lines-rows_example = lines-rows (λ t. codes "3s") routes with_web (web ∷ [])

-- 26 hours, 5 minutes and 1 second
abbrev up_time : ℕ
up_time = 93901 * second

day_and_hours : short_duration (pos up_time) ≡ codes "1d2h"
unfolding short_duration decimal digits ℕ_discrete
day_and_hours = refl

short_duration-Says_example :
    ((low : ℕ) × Says (short_duration (pos up_time)) low (unit_for up_time)
      × (low ≤ up_time)
      × (up_time < low + unit_for up_time))
    × (short_duration (negsuc up_time) ≡ codes "-")
short_duration-Says_example = short_duration-Says up_time (omega arith)
