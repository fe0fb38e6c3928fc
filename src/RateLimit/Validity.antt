-- ===== src/RateLimit/Validity.antt =====
-- What holds of every source that internal/ratelimit/ratelimit.go keeps, after any calls.
use sshhub.Base.{ℕ, ◌≤◌, ◌<◌, ◌≡◌, refl, List, [], ◌∷◌, Option, none, some, arith, length}
use sshhub.Text.{Str, str_eq}
use sshhub.RateLimit.{
  Config, Source, Limiter, Op, acquires, releases, fails, succeeds, new, fresh, get, store,
  evict_locked, admit, refill, acquire, release, note_failure, record_failure, record_success, step,
  run,
}

pub record IsValidSource (cfg : Config) (s : Source) : Type 0 where
  pub within_burst : s.tokens ≤ cfg.burst
  pub within_slots : s.in_flight ≤ cfg.max_concurrent
  pub below_limit : length s.failures < cfg.max_failures

abbrev pub ValidAt : Config → Option Source → Type 0
ValidAt cfg none = Unit
ValidAt cfg (some s) = IsValidSource cfg s

-- Every source is within the configured limits.
abbrev pub IsValid : Limiter → Type 0
IsValid l = (k : Str) → ValidAt l.cfg (l.sources k)

pub new-IsValid : (cfg : Config) → IsValid (new cfg)
unfolding new
new-IsValid cfg k = tt

module _ (cfg : Config) (some_limit : 0 < cfg.max_failures) where
  admit-IsValidSource :
      (now : ℕ) (s : Source) → IsValidSource cfg s → IsValidSource cfg (admit cfg now s).1
  unfolding admit refill
  admit-IsValidSource now s v = ground arith

  note_failure-IsValidSource :
      (now : ℕ) (s : Source) → IsValidSource cfg s → IsValidSource cfg (note_failure cfg now s)
  unfolding note_failure
  note_failure-IsValidSource now s v = ground arith

get-IsValidSource :
    (l : Limiter) (k : Str) (now : ℕ)
    → 0 < l.cfg.max_failures
    → ValidAt l.cfg (l.sources k)
    → IsValidSource l.cfg (get l k now)
unfolding get fresh
get-IsValidSource l k now pos v = ground arith

store-IsValid :
    (l : Limiter) (k : Str) (s : Source) → IsValidSource l.cfg s → IsValid l → IsValid (store l k s)
unfolding store
store-IsValid l k s vs v j = ground (arith, v j)

evict_locked-IsValid : (l : Limiter) (now : ℕ) → IsValid l → IsValid (evict_locked l now)
unfolding evict_locked
evict_locked-IsValid l now v j = ground (arith, v j)

acquire-IsValid :
    (l : Limiter) (k : Str) (now : ℕ)
    → 0 < l.cfg.max_failures
    → IsValid l
    → IsValid (acquire l k now).1
unfolding acquire evict_locked
acquire-IsValid l k now pos v =
    let kept = evict_locked-IsValid l now v in
    store-IsValid (evict_locked l now) k _
      (admit-IsValidSource l.cfg pos now _
        (get-IsValidSource (evict_locked l now) k now pos (kept k)))
      kept

release-IsValid : (l : Limiter) (k : Str) → IsValid l → IsValid (release l k)
unfolding release store
release-IsValid l k v j = ground (arith, v j, v k)

record_success-IsValid :
    (l : Limiter) (k : Str) (now : ℕ)
    → 0 < l.cfg.max_failures
    → IsValid l
    → IsValid (record_success l k now)
unfolding record_success store get fresh
record_success-IsValid l k now pos v j = ground (arith, v j, v k)

pub step-cfg : (l : Limiter) (op : ℕ × Op) → (step l op).cfg ≡ l.cfg
unfolding step acquire record_failure record_success release store evict_locked
step-cfg l (now, acquires k) = refl
step-cfg l (now, releases k) = ground arith
step-cfg l (now, fails k) = refl
step-cfg l (now, succeeds k) = refl

step-IsValid :
    (l : Limiter) (op : ℕ × Op) → 0 < l.cfg.max_failures → IsValid l → IsValid (step l op)
unfolding step record_failure
step-IsValid l (now, acquires k) pos v = acquire-IsValid l k now pos v
step-IsValid l (now, releases k) pos v = release-IsValid l k v
step-IsValid l (now, fails k) pos v =
    store-IsValid l k _
      (note_failure-IsValidSource l.cfg pos now _ (get-IsValidSource l k now pos (v k))) v
step-IsValid l (now, succeeds k) pos v = record_success-IsValid l k now pos v

-- Where a limit on failures is configured, each call of the limiter's methods, whatever its time,
-- leaves every source within its limits: tokens at most the burst, connections in flight at most
-- `max_concurrent`, fewer remembered failures than `max_failures`. So does any sequence of calls.
run-IsValid :
    (l : Limiter) (ops : List (ℕ × Op)) → 0 < l.cfg.max_failures → IsValid l → IsValid (run l ops)
unfolding run
run-IsValid l [] pos v = v
run-IsValid l (op ∷ ops) pos v =
    run-IsValid (step l op) ops (rw (step-cfg l op) pos) (step-IsValid l op pos v)
