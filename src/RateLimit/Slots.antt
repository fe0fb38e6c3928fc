-- ===== src/RateLimit/Slots.antt =====
-- The concurrency slots of internal/ratelimit/ratelimit.go: what `Acquire` takes and `release` gives
-- back.
use sshhub.Base.{
  ℕ, zero, suc, ◌+◌, ◌-◌, ◌<◌, ◌≡◌, refl, List, [], ◌∷◌, Option, none, some, arith, true,
  if◌then◌else◌, ◌==◌,
}
use sshhub.Text.{Str, str_eq}
use sshhub.RateLimit.{
  Config, Source, Limiter, Reason, allowed, Op, acquires, releases, fails, succeeds, get, fresh,
  store, is_retained, evict_locked, admit, refill, acquire, release, note_failure, record_failure,
  record_success, step, run, Handle, handle_of, release_once,
}
use sshhub.RateLimit.Admissions.{one_if, admits, admissions}

abbrev pub in_flight_of : Option Source → ℕ
in_flight_of none = 0
in_flight_of (some s) = s.in_flight

-- A handshake is released only while one is under way, as the contract of `Acquire` asks.
abbrev MayCall : Limiter → ℕ × Op → Type 0
MayCall l (now, releases k) = 0 < in_flight_of (l.sources k)
MayCall l (now, op) = Unit

unfoldable pub Paired : Limiter → List (ℕ × Op) → Type 0
Paired l [] = Unit
Paired l (op ∷ ops) = MayCall l op × Paired (step l op) ops

abbrev released : Str → ℕ × Op → ℕ
released k (now, releases j) = if k == j then 1 else 0
released k (now, op) = 0

-- The handshakes of source `k` that the calls release.
unfoldable pub releases_of : Str → List (ℕ × Op) → ℕ
releases_of k [] = 0
releases_of k (op ∷ ops) = released k op + releases_of k ops

admit-in_flight :
    (cfg : Config) (now : ℕ) (s : Source)
    → (admit cfg now s).1.in_flight ≡ s.in_flight + one_if (admit cfg now s).0
unfolding admit refill
admit-in_flight cfg now s = ground arith

get-in_flight :
    (l : Limiter) (k : Str) (now : ℕ) → (get l k now).in_flight ≡ in_flight_of (l.sources k)
unfolding get fresh
get-in_flight l k now = ground arith

note_failure-in_flight :
    (cfg : Config) (now : ℕ) (s : Source) → (note_failure cfg now s).in_flight ≡ s.in_flight
unfolding note_failure
note_failure-in_flight cfg now s = ground arith

-- Eviction forgets no handshake that is under way.
evict_locked-in_flight :
    (l : Limiter) (now : ℕ) (k : Str)
    → in_flight_of ((evict_locked l now).sources k) ≡ in_flight_of (l.sources k)
unfolding evict_locked is_retained
evict_locked-in_flight l now k = ground arith

pub step-in_flight :
    (l : Limiter) (op : ℕ × Op) (k : Str)
    → MayCall l op
    → in_flight_of ((step l op).sources k) + released k op
      ≡ in_flight_of (l.sources k) + admits k l op
unfolding step acquire record_failure record_success release store
step-in_flight l (now, acquires j) k h =
    let l' = evict_locked l now in
    ground (
      arith,
      evict_locked-in_flight l now k,
      evict_locked-in_flight l now j,
      get-in_flight l' j now,
      admit-in_flight l.cfg now (get l' j now),
    )
step-in_flight l (now, releases j) k h = ground arith
step-in_flight l (now, fails j) k h =
    ground (arith, get-in_flight l j now, note_failure-in_flight l.cfg now (get l j now))
step-in_flight l (now, succeeds j) k h = ground (arith, get-in_flight l j now)

-- The count of slots in use is exact. Over any calls in which no handshake is released that is not
-- under way, a source's `in_flight` grows by the handshakes of it that were admitted and shrinks by
-- those released: eviction, failures and successes lose none, and no slot is freed twice.
run-in_flight :
    (l : Limiter) (ops : List (ℕ × Op)) (k : Str)
    → Paired l ops
    → in_flight_of ((run l ops).sources k) + releases_of k ops
      ≡ in_flight_of (l.sources k) + admissions k l ops
unfolding run releases_of admissions Paired
run-in_flight l [] k h = refl
run-in_flight l (op ∷ ops) k h =
    omega (arith, step-in_flight l op k h.0, run-in_flight (step l op) ops k h.1)

-- Firing a handle `n` times.
unfoldable pub fire : ℕ → Handle → Limiter → Limiter
fire zero h l = l
fire (suc n) h l = let (h', l') = release_once h l in fire n h' l'

fire-done : (n : ℕ) (k : Str) (l : Limiter) → fire n (record { owner = k; done = true }) l ≡ l
unfolding fire release_once
fire-done zero k l = refl
fire-done (suc n) k l = fire-done n k l

pub release-in_flight :
    (l : Limiter) (k j : Str)
    → in_flight_of ((release l k).sources j)
      ≡ in_flight_of (l.sources j) - (if j == k then 1 else 0)
unfolding release store
release-in_flight l k j = ground arith

fire_refused :
    (n : ℕ) (k j : Str) (l : Limiter)
    → in_flight_of ((fire n (record { owner = k; done = true }) l).sources j)
      ≡ in_flight_of (l.sources j) - (if j == k then 0 else 0)
fire_refused n k j l = rw (fire-done n k l) (ground arith)

-- The closure that `Acquire` returns for an admitted connection frees one slot of its source, however
-- often it is called, and no slot of another source; the one returned for a refusal frees none.
fire-in_flight :
    (n : ℕ) (r : Reason) (k j : Str) (l : Limiter)
    → in_flight_of ((fire (suc n) (handle_of r k) l).sources j)
      ≡ in_flight_of (l.sources j) - (if j == k then one_if r else 0)
unfolding fire release_once handle_of
fire-in_flight n allowed k j l = rw (fire-done n k (release l k)) (release-in_flight l k j)
fire-in_flight n r k j l = fire_refused n k j l
