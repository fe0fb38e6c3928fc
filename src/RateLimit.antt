-- ===== src/RateLimit.antt =====
-- internal/ratelimit/ratelimit.go: the limiter of the hub's public SSH listener.
-- Times and durations are nanoseconds since Go's zero time, `now` is an argument, and the mutex
-- makes each method one step. The source's float tokens are counted in a fixed part of a token:
-- `unit` parts make one token, and `rate` parts come back in a nanosecond.
pub mod Validity
pub mod Bucket
pub mod Admissions
pub mod Blocking
pub mod Penalty
pub mod Slots
pub mod Keys
mod Examples
use sshhub.Base.{
  ℕ, ◌+◌, ◌-◌, ◌*◌, ◌<◌, ◌≤◌, Bool, true, false, not, ◌&&◌, ◌||◌, List, [], ◌∷◌, ◌++◌, Option, none,
  some, ltb, leb, if◌then◌else◌, ◌==◌, keep, length,
}
use sshhub.Base.Dict.{Map, put}
use sshhub.Text.{Str, codes, str_eq}
use sshhub.Text.Host.{split_host_port}

pub record Config : Type 0 where
  pub unit : ℕ
  pub rate : ℕ
  pub burst : ℕ
  pub max_concurrent : ℕ
  pub max_failures : ℕ
  pub failure_window : ℕ
  pub block_duration : ℕ
  pub idle_ttl : ℕ

abbrev pub second : ℕ
second = 1_000_000_000

abbrev pub minute : ℕ
minute = 60 * second

-- Half a token in a second: with 2e9 parts in a token, one part in a nanosecond.
abbrev pub default_config : Config
default_config = record {
  unit = 2 * second;
  rate = 1;
  burst = 10 * (2 * second);
  max_concurrent = 8;
  max_failures = 10;
  failure_window = 5 * minute;
  block_duration = 15 * minute;
  idle_ttl = 30 * minute;
}

pub data Reason : Type 0 where
  allowed reason_rate reason_concurrent reason_blocked : Reason

-- The zero time of `blocked_til` is 0.
pub record Source : Type 0 where
  pub tokens : ℕ
  pub last_refill : ℕ
  pub in_flight : ℕ
  pub failures : List ℕ
  pub blocked_til : ℕ
  pub last_seen : ℕ

pub record Limiter : Type 0 where
  pub cfg : Config
  pub sources : Map Str Source

unfoldable pub new : Config → Limiter
new cfg = record { cfg = cfg; sources = λ k. none }

-- An address is the text of a `net.Addr`, `none` for a nil one.
unfoldable pub key : Option Str → Str
key none = codes "unknown"
key (some addr) = elim (split_host_port addr) [ none ↦ addr | some (host, port) ↦ host ]

unfoldable pub fresh : Config → ℕ → Source
fresh cfg now = record {
  tokens = cfg.burst;
  last_refill = now;
  in_flight = 0;
  failures = [];
  blocked_til = 0;
  last_seen = now;
}

-- The source that the methods work on. They write it back by `store`, also where they refuse.
unfoldable pub get : Limiter → Str → ℕ → Source
unfolding fresh
get l k now = elim (l.sources k) [ none ↦ fresh l.cfg now | some s ↦ record s { last_seen = now } ]

unfoldable pub store : Limiter → Str → Source → Limiter
store l k s = record l { sources = put k s l.sources }

unfoldable pub is_retained : Config → ℕ → Source → Bool
is_retained cfg now s =
    (ltb 0 s.in_flight || ltb now s.blocked_til) || not (ltb cfg.idle_ttl (now - s.last_seen))

unfoldable pub evict_locked : Limiter → ℕ → Limiter
evict_locked l now = record l {
  sources = λ k. elim (l.sources k) [
    | none ↦ none
    | some s ↦ if is_retained l.cfg now s then some s else none
  ];
}

unfoldable pub refill : Config → ℕ → Source → Source
refill cfg now s =
    if ltb s.last_refill now
    then (let t = s.tokens + (now - s.last_refill) * cfg.rate in
        record s { tokens = if ltb cfg.burst t then cfg.burst else t; last_refill = now })
    else s

-- `Acquire` below its lookup: the answer, and the source as it leaves it.
unfoldable pub admit : Config → ℕ → Source → Reason × Source
admit cfg now s =
    if ltb now s.blocked_til
    then (reason_blocked, s)
    else if leb cfg.max_concurrent s.in_flight
    then (reason_concurrent, s)
    else let r = refill cfg now s in
      if ltb r.tokens cfg.unit
      then (reason_rate, r)
      else (allowed, record r { tokens = r.tokens - cfg.unit; in_flight = r.in_flight + 1 })

unfoldable pub acquire : Limiter → Str → ℕ → Reason × Limiter
acquire l k now =
    let l' = evict_locked l now in
    let (reason, s) = admit l.cfg now (get l' k now) in (reason, store l' k s)

-- The body of the closure that `Acquire` returns.
unfoldable pub release : Limiter → Str → Limiter
release l k = elim (l.sources k) [
  | none ↦ l
  | some cur ↦
      if ltb 0 cur.in_flight then store l k (record cur { in_flight = cur.in_flight - 1 }) else l
]

-- The closure with its `sync.Once`. That of a refusal does nothing.
pub record Handle : Type 0 where
  pub owner : Str
  pub done : Bool

unfoldable pub handle_of : Reason → Str → Handle
handle_of allowed k = record { owner = k; done = false }
handle_of _ k = record { owner = k; done = true }

unfoldable pub release_once : Handle → Limiter → Handle × Limiter
release_once h l = if h.done then (h, l) else (record h { done = true }, release l h.owner)

-- `RecordFailure` below its lookup. `f.After(now - window)`, with the window on the other side.
unfoldable pub note_failure : Config → ℕ → Source → Source
note_failure cfg now s =
    let failures = keep (λ f. ltb now (f + cfg.failure_window)) s.failures ++ now ∷ [] in
    if leb cfg.max_failures (length failures)
    then record s { blocked_til = now + cfg.block_duration; failures = [] }
    else record s { failures = failures }

unfoldable pub record_failure : Limiter → Str → ℕ → Limiter
record_failure l k now = store l k (note_failure l.cfg now (get l k now))

unfoldable pub record_success : Limiter → Str → ℕ → Limiter
record_success l k now = store l k (record (get l k now) { failures = [] })

unfoldable pub blocked : Limiter → Str → ℕ → Bool
blocked l k now = elim (l.sources k) [ none ↦ false | some s ↦ ltb now s.blocked_til ]

-- What the hub's connections do to the limiter, one method call at a time.
pub data Op : Type 0 where
  acquires releases fails succeeds : Str → Op

unfoldable pub step : Limiter → ℕ × Op → Limiter
step l (now, acquires k) = (acquire l k now).1
step l (now, releases k) = release l k
step l (now, fails k) = record_failure l k now
step l (now, succeeds k) = record_success l k now

unfoldable pub run : Limiter → List (ℕ × Op) → Limiter
run l [] = l
run l (op ∷ ops) = run (step l op) ops
