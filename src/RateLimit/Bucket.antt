-- ===== src/RateLimit/Bucket.antt =====
-- The token bucket of internal/ratelimit/ratelimit.go as a bound on admitted connections.
use sshhub.Base.{
  ℕ, ◌+◌, ◌-◌, ◌*◌, ◌≤◌, ◌≡◌, refl, Option, none, some, arith, ltb, min, if◌then◌else◌, false,
}
use sshhub.Text.{Str, str_eq}
use sshhub.RateLimit.{
  Config, Source, Limiter, Reason, allowed, get, fresh, store, is_retained, evict_locked, refill,
  admit, note_failure,
}

-- The tokens that a source would have after a refill at time `t`.
abbrev pub credit_of : Config → Source → ℕ → ℕ
credit_of cfg s t = min cfg.burst (s.tokens + (t - s.last_refill) * cfg.rate)

abbrev pub credit_at : Config → Option Source → ℕ → ℕ
credit_at cfg none t = cfg.burst
credit_at cfg (some s) t = credit_of cfg s t

-- An unknown source has a full bucket.
abbrev pub credit : Limiter → Str → ℕ → ℕ
credit l k t = credit_at l.cfg (l.sources k) t

-- By time `t` on a clock that does not go back: the source was refilled and seen before, and its
-- bucket is not over-full.
abbrev pub SoundAt : Config → ℕ → Option Source → Type 0
SoundAt cfg t none = Unit
SoundAt cfg t (some s) = (s.last_refill ≤ s.last_seen) × (s.last_seen ≤ t) × (s.tokens ≤ cfg.burst)

abbrev pub IsSound : ℕ → Limiter → Type 0
IsSound t l = (k : Str) → SoundAt l.cfg t (l.sources k)

abbrev pub cost : Config → Reason → ℕ
cost cfg allowed = cfg.unit
cost cfg _ = 0

pub mul_grow : (a b c r : ℕ) → a ≤ b → b ≤ c → (c - a) * r ≡ (b - a) * r + (c - b) * r
mul_grow a b c r h k = grind arith

-- Waiting earns at most `rate` a nanosecond.
pub credit_wait :
    (cfg : Config) (o : Option Source) (t u : ℕ)
    → SoundAt cfg t o
    → t ≤ u
    → credit_at cfg o u ≤ credit_at cfg o t + (u - t) * cfg.rate
credit_wait cfg none t u s h = omega arith
credit_wait cfg (some s) t u (r, e, _) h =
    omega (arith, mul_grow s.last_refill t u cfg.rate (omega arith) h)

mul_self_sub : (n r : ℕ) → (n - n) * r ≡ 0
mul_self_sub n r = grind arith

eq_of_le_of_not_lt : (a b : ℕ) → a ≤ b → ltb a b ≡ false → a ≡ b
eq_of_le_of_not_lt a b h e = ground arith

refill-credit :
    (cfg : Config) (now : ℕ) (s : Source)
    → s.last_refill ≤ now
    → s.tokens ≤ cfg.burst
    → ((refill cfg now s).tokens ≡ credit_of cfg s now) × ((refill cfg now s).last_refill ≡ now)
unfolding refill
refill-credit cfg now s h b =
    ground (arith, mul_self_sub now cfg.rate, eq_of_le_of_not_lt s.last_refill now h)

-- An admitted connection is paid for.
pub admit-credit :
    (cfg : Config) (now : ℕ) (s : Source)
    → s.last_refill ≤ now
    → s.tokens ≤ cfg.burst
    → credit_of cfg (admit cfg now s).1 now + cost cfg (admit cfg now s).0 ≤ credit_of cfg s now
unfolding admit
admit-credit cfg now s h b = ground (arith, refill-credit cfg now s h b, mul_self_sub now cfg.rate)

pub get-credit :
    (l : Limiter) (k : Str) (now : ℕ) → credit_of l.cfg (get l k now) now ≡ credit l k now
unfolding get fresh
get-credit l k now = ground (arith, mul_self_sub now l.cfg.rate)

pub get-SoundAt :
    (l : Limiter) (k : Str) (t now : ℕ)
    → SoundAt l.cfg t (l.sources k)
    → t ≤ now
    → SoundAt l.cfg now (some (get l k now))
unfolding get fresh
get-SoundAt l k t now s h = ground arith

pub get-last_seen : (l : Limiter) (k : Str) (now : ℕ) → (get l k now).last_seen ≡ now
unfolding get fresh
get-last_seen l k now = ground arith

-- What `evict_locked` does to the entry of one source.
abbrev pub evicted : Config → ℕ → Option Source → Option Source
evicted cfg now none = none
evicted cfg now (some s) = if is_retained cfg now s then some s else none

full_again : (cfg : Config) (a b : ℕ) → cfg.burst ≤ a * cfg.rate → a ≤ b → cfg.burst ≤ b * cfg.rate
full_again cfg a b h k = grind arith

-- With a long enough `idle_ttl` a forgotten source had a full bucket.
pub evicted-credit :
    (cfg : Config) (o : Option Source) (t now : ℕ)
    → cfg.burst ≤ cfg.idle_ttl * cfg.rate
    → SoundAt cfg t o
    → t ≤ now
    → credit_at cfg (evicted cfg now o) now ≡ credit_at cfg o now
unfolding is_retained
evicted-credit cfg none t now long s h = refl
evicted-credit cfg (some s) t now long (r, e, b) h =
    ground (arith, full_again cfg cfg.idle_ttl (now - s.last_refill) long)

pub evicted-SoundAt :
    (cfg : Config) (o : Option Source) (t now : ℕ)
    → SoundAt cfg t o
    → SoundAt cfg t (evicted cfg now o)
evicted-SoundAt cfg none t now s = tt
evicted-SoundAt cfg (some x) t now s = ground arith

pub evict_locked-evicted :
    (l : Limiter) (now : ℕ) (k : Str)
    → (evict_locked l now).sources k ≡ evicted l.cfg now (l.sources k)
unfolding evict_locked
evict_locked-evicted l now k = ground arith

pub admit-SoundAt :
    (cfg : Config) (now : ℕ) (s : Source)
    → SoundAt cfg now (some s)
    → s.last_seen ≡ now
    → SoundAt cfg now (some (admit cfg now s).1)
unfolding admit refill
admit-SoundAt cfg now s v e = ground arith

pub note_failure-bucket :
    (cfg : Config) (now : ℕ) (s : Source)
    → ((note_failure cfg now s).tokens ≡ s.tokens)
      × ((note_failure cfg now s).last_refill ≡ s.last_refill)
      × ((note_failure cfg now s).last_seen ≡ s.last_seen)
unfolding note_failure
note_failure-bucket cfg now s = ground arith

pub SoundAt-later :
    (cfg : Config) (o : Option Source) (t now : ℕ) → t ≤ now → SoundAt cfg t o → SoundAt cfg now o
SoundAt-later cfg none t now h s = tt
SoundAt-later cfg (some x) t now h (r, e, b) = (r, omega arith, b)

pub store-IsSound :
    (l : Limiter) (k : Str) (s : Source) (t : ℕ)
    → SoundAt l.cfg t (some s)
    → IsSound t l
    → IsSound t (store l k s)
unfolding store
store-IsSound l k s t vs v j = ground (arith, v j)
