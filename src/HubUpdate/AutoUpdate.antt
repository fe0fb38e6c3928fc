-- ===== src/HubUpdate/AutoUpdate.antt =====
-- `applyIfDueWith` and `StartAutoUpdater` of internal/hubupdate/update.go. A duration is nanoseconds,
-- negative where updates are disabled; a time is nanoseconds since the zero time, which is 0. What the
-- check, the urgent marker, the installer and the clock answer are arguments.
pub mod Loop
use sshhub.Base.{
  ℕ, ◌+◌, ◌-◌, ◌*◌, ◌≤◌, ◌≡◌, ◌≢◌, ◌↔◌, ◌⊎◌, inl, inr, refl, sym, ap, ◌∙◌, Bool, true, false, List,
  [], ◌∷◌, Option, none, some, arith, ltb, if◌then◌else◌, ◌==◌, nat_eq, All, Bool-cases, subst,
  ◌++◌, map,
}
use sshhub.Base.Int.{ℤ, pos, negsuc}
use sshhub.Text.{Str}
use sshhub.HubUpdate.Version.{is_newer}

-- What one check does: nothing, an installation that fails, or one after which the service restarts.
pub data Outcome : Type 0 where
  nothing : Outcome
  failed : Str → Outcome
  applied : Str → Outcome

-- The answer of `applyIfDueWith`.
abbrev pub reports : Outcome → Bool
reports (applied tag) = true
reports _ = false

-- The release that was handed to the installer.
abbrev pub attempted : Outcome → Option Str
attempted nothing = none
attempted (failed tag) = some tag
attempted (applied tag) = some tag

pub record World : Type 0 where
  -- The latest release and its publication time.
  pub check : ℤ → Option (Str × ℕ)
  pub urgent : Str → Bool
  pub install : Str → Bool
  pub current : Str
  pub now : ℕ

-- `time.Since(published) < soak`, also for a time that is still to come.
abbrev too_young : World → ℕ → ℕ → Bool
too_young w published soak = ltb (w.now - published) soak

-- The soak period has to be waited for, or cannot be measured.
unfoldable pub must_wait : World → ℕ → Str → ℕ → Bool
must_wait w soak latest published =
    if ltb 0 soak
    then if w.urgent latest
      then false
      else if published == 0
      then true
      else too_young w published soak
    else false

unfoldable pub try_install : World → Str → Outcome
try_install w latest = if w.install latest then applied latest else failed latest

unfoldable pub consider : World → ℕ → Str → ℕ → Outcome
consider w soak latest published =
    if is_newer latest w.current
    then if must_wait w soak latest published then nothing else try_install w latest
    else nothing

-- What follows the check.
unfoldable pub act_on : World → ℕ → Option (Str × ℕ) → Outcome
act_on w soak none = nothing
act_on w soak (some (latest, published)) = consider w soak latest published

unfoldable pub apply_if_due_with : ℤ → World → Outcome
apply_if_due_with (negsuc n) w = nothing
apply_if_due_with (pos soak) w = act_on w soak (w.check (pos soak))

-- A release may be installed: it is newer, and there is no soak period, or it is over, or the release
-- is urgent.
pub record IsDue (w : World) (soak : ℕ) (latest : Str) (published : ℕ) : Type 0 where
  pub later : is_newer latest w.current ≡ true
  pub soaked :
      (soak ≡ 0) ⊎ ((w.urgent latest ≡ true) ⊎ ((published ≢ 0) × (published + soak ≤ w.now)))

pub must_wait-false :
    (w : World) (soak : ℕ) (latest : Str) (published : ℕ)
    → (must_wait w soak latest published ≡ false)
      ↔ ((soak ≡ 0) ⊎ ((w.urgent latest ≡ true) ⊎ ((published ≢ 0) × (published + soak ≤ w.now))))
unfolding must_wait
must_wait-false w soak latest published = (λ h. ground arith, λ h. ground arith)

attempted-try_install : (w : World) (latest : Str) → attempted (try_install w latest) ≡ some latest
unfolding try_install
attempted-try_install w latest = ground arith

consider-IsDue :
    (w : World) (soak : ℕ) (latest : Str) (published : ℕ) (tag : Str)
    → (attempted (consider w soak latest published) ≡ some tag)
      ↔ ((tag ≡ latest) × IsDue w soak latest published)
unfolding consider
consider-IsDue w soak latest published tag = (
  λ h. (
    ground (arith, attempted-try_install w latest),
    record {
      later = ground arith;
      soaked = (must_wait-false w soak latest published).0 (ground arith);
    },
  ),
  λ (e, due). ground (
    arith,
    attempted-try_install w latest,
    due.later,
    (must_wait-false w soak latest published).1 due.soaked,
  ),
)

-- The releases that a check found and that may be installed now.
abbrev pub Installable : World → ℕ → Option (Str × ℕ) → Str → Type 0
Installable w soak none tag = ⊥
Installable w soak (some (latest, published)) tag = (tag ≡ latest) × IsDue w soak latest published

act_on-Installable :
    (w : World) (soak : ℕ) (found : Option (Str × ℕ)) (tag : Str)
    → (attempted (act_on w soak found) ≡ some tag) ↔ Installable w soak found tag
unfolding act_on
act_on-Installable w soak none tag = (λ h. cc, λ h. absurd h)
act_on-Installable w soak (some (latest, published)) tag =
    consider-IsDue w soak latest published tag

-- A check hands a release to the installer exactly if it is the one that the check found, it is newer
-- than the running version, and there is no soak period, or the signed manifest marks it urgent, or
-- its publication time is known and the soak period after it is over.
pub apply_if_due_with-Installable :
    (w : World) (soak : ℕ) (tag : Str)
    → (attempted (apply_if_due_with (pos soak) w) ≡ some tag)
      ↔ Installable w soak (w.check (pos soak)) tag
unfolding apply_if_due_with
apply_if_due_with-Installable w soak tag = act_on-Installable w soak (w.check (pos soak)) tag

-- `StartAutoUpdater`: the pause between two checks, if the updater is started at all.
abbrev pub urgent_check_interval : ℕ
urgent_check_interval = 5 * 60 * 1_000_000_000

unfoldable pub start_auto_updater : ℕ → ℤ → Option ℕ
start_auto_updater interval (negsuc n) = none
start_auto_updater interval (pos soak) =
    some (if ltb urgent_check_interval interval then urgent_check_interval else interval)

-- The loop of the goroutine, over the worlds that its checks meet: it ends with the first update that
-- is applied. The attempts come back in order.
unfoldable pub poll : ℤ → List World → List Outcome
poll soak [] = []
poll soak (w ∷ ws) =
    let rest = poll soak ws in
    let this = apply_if_due_with soak w in if reports this then this ∷ [] else this ∷ rest
