-- ===== src/Ctl/Listing/Table.antt =====
-- The table that "list" of cmd/sshhub-ctl/main.go prints, and the lines under it. A line is its columns;
-- the padding between them is left out.
use mathlib.Core.Path.{ap₂}
use sshhub.Base.{
  ℕ, ◌+◌, ◌≡◌, refl, false, not, ◌&&◌, List, [], ◌∷◌, ◌++◌, map, length, Option, none, some,
  if◌then◌else◌, ◌==◌, Bool-cases, inl, inr,
}
use sshhub.Text.{Str, codes, is_empty, str_eq}
use sshhub.Text.Decimal.{decimal}
use sshhub.Config.{Backend, Route}
use sshhub.Control.Registry.{BackendStatus}
use sshhub.Admin.{Status}
use sshhub.Ctl.Listing.{Row, row_of, rows, end_users, live, state_text, count_online, one_if_some}

pub record Line : Type 0 where
  pub id : Str
  pub status : Str
  pub version : Str
  pub platform : Str
  pub connected : Str
  pub users : Str

-- `strings.Join`
unfoldable pub join : Str → List Str → Str
join sep [] = []
join sep (x ∷ []) = x
join sep (x ∷ y ∷ ys) = x ++ (sep ++ join sep (y ∷ ys))

unfoldable pub users_text : List Str → Str
users_text [] = codes "-"
users_text (u ∷ us) = join (codes ",") (u ∷ us)

abbrev pub or_dash : Str → Str
or_dash s = if is_empty s then codes "-" else s

unfoldable pub stale_text : Str → Str → Option BackendStatus → List Str
stale_text hub id none = []
stale_text hub id (some l) =
    if not (is_empty l.version) && not (l.version == hub)
    then (id ++ (codes " (" ++ (l.version ++ codes ")"))) ∷ []
    else []

-- The agents that are named as of another version.
unfoldable pub stale_texts : Status → List Backend → List Str
stale_texts s [] = []
stale_texts s (b ∷ bs) = stale_text s.hub_version b.id (live (some s) b.id) ++ stale_texts s bs

unfoldable pub stale_line : Str → List Str → List Str
stale_line hub [] = []
stale_line hub (x ∷ xs) =
    (codes "Agents not on " ++ (hub ++ (codes ": " ++ join (codes ", ") (x ∷ xs)))) ∷ []

module _ (since : ℕ → Str) where
  unfoldable pub line_of : Option Status → Str → List Str → Option BackendStatus → Line
  line_of st id users none = record {
    id = id;
    status = state_text st none;
    version = codes "-";
    platform = codes "-";
    connected = codes "-";
    users = users_text users;
  }
  line_of st id users (some l) = record {
    id = id;
    status = state_text st (some l);
    version = or_dash l.version;
    platform = if is_empty l.os then codes "-" else l.os ++ (codes "/" ++ l.arch);
    connected = since l.connected_at;
    users = users_text users;
  }

  unfoldable pub lines : List Route → Option Status → List Backend → List Line
  lines routes st [] = []
  lines routes st (b ∷ bs) =
      line_of st b.id (end_users b.id routes []) (live st b.id) ∷ lines routes st bs

  -- What follows the table. The text of the error is an argument.
  unfoldable pub summary : Str → Option Status → List Backend → List Str
  summary why none bs =
      (codes "Live status unavailable (" ++ (why ++ codes ")."))
      ∷ codes "Showing configuration only; run on the hub host as root for agent status."
      ∷ []
  summary why (some s) bs =
      (decimal (count_online (some s) bs)
        ++ (codes "/"
            ++ (decimal (length bs)
                ++ (codes " online. Hub "
                    ++ (s.hub_version ++ (codes ", up " ++ (since s.started_at ++ codes ".")))))))
      ∷ stale_line s.hub_version (stale_texts s bs)

-- A row of the JSON list as a line of the table.
unfoldable pub shown : Option Status → Row → Line
shown st r = record {
  id = r.id;
  status =
      if r.online
      then codes "online"
      else elim st [ none ↦ codes "unknown" | some s ↦ codes "offline" ];
  version = or_dash r.version;
  platform = or_dash r.platform;
  connected = if r.online then r.uptime else codes "-";
  users = users_text r.end_users;
}

-- The rows that are online.
unfoldable pub online_rows : List Row → ℕ
online_rows [] = 0
online_rows (r ∷ rs) = (if r.online then 1 else 0) + online_rows rs

-- The texts for the rows with a version that is not the hub's.
unfoldable pub stale_rows : Str → List Row → List Str
stale_rows hub [] = []
stale_rows hub (r ∷ rs) =
    (if not (is_empty r.version) && not (r.version == hub)
      then (r.id ++ (codes " (" ++ (r.version ++ codes ")"))) ∷ []
      else [])
    ++ stale_rows hub rs

full_text : (s t : Str) → is_empty s ≡ false → is_empty (s ++ t) ≡ false
full_text [] t h = cc
full_text (c ∷ s) t h = refl

shown-row_of :
    (since : ℕ → Str) (st : Option Status) (id : Str) (users : List Str) (l : Option BackendStatus)
    → line_of since st id users l ≡ shown st (row_of since id users l)
unfolding line_of shown row_of state_text
shown-row_of since none id users none = refl
shown-row_of since (some s) id users none = refl
shown-row_of since st id users (some l) = elim (Bool-cases (is_empty l.os)) [
  | inl unknown ↦ rw (unknown) refl
  | inr known ↦ rw (known, full_text l.os (codes "/" ++ l.arch) known) refl
]

-- The table that "list" prints says what its JSON says: its lines are the JSON's rows, each with its
-- state and with dashes for what is not known; its count of backends that are online is the number of
-- online rows; and the agents that it names as of another version are those rows with a version that is
-- not the hub's.
pub lines-rows :
    (since : ℕ → Str) (routes : List Route) (s : Status) (bs : List Backend)
    → ((st : Option Status) → lines since routes st bs ≡ map (shown st) (rows since routes st bs))
      × (count_online (some s) bs ≡ online_rows (rows since routes (some s) bs))
      × (stale_texts s bs ≡ stale_rows s.hub_version (rows since routes (some s) bs))
unfolding lines rows count_online stale_texts stale_text row_of online_rows stale_rows
lines-rows since routes s [] = (λ st. refl, refl, refl)
lines-rows since routes s (b ∷ bs) =
    let (table, count, named) = lines-rows since routes s bs in
    (
      λ st.
          ap₂ ◌∷◌ (shown-row_of since st b.id (end_users b.id routes []) (live st b.id)) (table st),
      ap₂ ◌+◌ (counted b.id (end_users b.id routes []) (live (some s) b.id)) count,
      ap₂ ◌++◌ (text b.id (end_users b.id routes []) (live (some s) b.id)) named,
    )
  where
    counted :
        (id : Str) (users : List Str) (l : Option BackendStatus)
        → one_if_some l ≡ (if (row_of since id users l).online then 1 else 0)
    counted id users none = refl
    counted id users (some l) = refl

    text :
        (id : Str) (users : List Str) (l : Option BackendStatus)
        → stale_text s.hub_version id l ≡ (
            let r = row_of since id users l in
            if not (is_empty r.version) && not (r.version == s.hub_version)
            then (r.id ++ (codes " (" ++ (r.version ++ codes ")"))) ∷ []
            else [])
    text id users none = refl
    text id users (some l) = refl
