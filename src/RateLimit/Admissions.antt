-- ===== src/RateLimit/Admissions.antt =====
-- How many connections internal/ratelimit/ratelimit.go admits of one source in a stretch of time.
use sshhub.Base.{
  ℕ, ◌+◌, ◌-◌, ◌*◌, ◌≤◌, ◌≡◌, subst, sym, List, [], ◌∷◌, Option, none, some, arith, if◌then◌else◌,
  ◌==◌,
}
use sshhub.Text.{Str, str_eq}
use sshhub.RateLimit.{
  Config, Source, Limiter, Reason, allowed, Op, acquires, releases, fails, succeeds, get, store,
  evict_locked, admit, acquire, release, record_failure, record_success, step,
}
use sshhub.RateLimit.Validity.{step-cfg}
use sshhub.RateLimit.Bucket.{
  credit, credit_at, credit_of, SoundAt, IsSound, cost, credit_wait, admit-credit, get-credit,
  get-SoundAt, get-last_seen, evicted-credit, evicted-SoundAt, evict_locked-evicted, admit-SoundAt,
  note_failure-bucket, SoundAt-later, store-IsSound, mul_grow,
}

evict_locked-IsSound : (l : Limiter) (t now : ℕ) → IsSound t l → IsSound t (evict_locked l now)
unfolding evict_locked
evict_locked-IsSound l t now v k =
    rw (evict_locked-evicted l now k) (evicted-SoundAt l.cfg (l.sources k) t now (v k))

acquire-IsSound :
    (l : Limiter) (k : Str) (t now : ℕ) → t ≤ now → IsSound t l → IsSound now (acquire l k now).1
unfolding acquire evict_locked
acquire-IsSound l k t now h v =
    let kept = evict_locked-IsSound l t now v in
    let l' = evict_locked l now in
    store-IsSound l' k _ now
      (admit-SoundAt l.cfg now (get l' k now) (get-SoundAt l' k t now (kept k) h)
        (get-last_seen l' k now))
      (λ j. SoundAt-later l.cfg _ t now h (kept j))

step-IsSound :
    (l : Limiter) (t now : ℕ) (op : Op) → t ≤ now → IsSound t l → IsSound now (step l (now, op))
unfolding step record_failure record_success release store
step-IsSound l t now (acquires k) h v j = acquire-IsSound l k t now h v j
step-IsSound l t now (releases k) h v j =
    ground (arith, SoundAt-later l.cfg (l.sources j) t now h (v j), v k)
step-IsSound l t now (fails k) h v j = ground (
  arith,
  SoundAt-later l.cfg (l.sources j) t now h (v j),
  note_failure-bucket l.cfg now (get l k now),
  get-SoundAt l k t now (v k) h,
)
step-IsSound l t now (succeeds k) h v j =
    ground (arith, SoundAt-later l.cfg (l.sources j) t now h (v j), get-SoundAt l k t now (v k) h)

-- The connections of source `k` that a call admits: one or none.
abbrev pub one_if : Reason → ℕ
one_if allowed = 1
one_if _ = 0

abbrev pub admits : Str → Limiter → ℕ × Op → ℕ
admits k l (now, acquires j) = if k == j then one_if (acquire l j now).0 else 0
admits k l (now, op) = 0

unfoldable pub admissions : Str → Limiter → List (ℕ × Op) → ℕ
admissions k l [] = 0
admissions k l (op ∷ ops) = admits k l op + admissions k (step l op) ops

-- The clock of the calls does not go back, from `t` on, and ends at `u`.
abbrev pub InOrder : ℕ → List (ℕ × Op) → ℕ → Type 0
InOrder t [] u = t ≤ u
InOrder t ((now, op) ∷ ops) u = (t ≤ now) × InOrder now ops u

cost-one_if : (cfg : Config) (r : Reason) → cost cfg r ≡ one_if r * cfg.unit
cost-one_if cfg r = grind arith

evict_locked-credit :
    (l : Limiter) (k : Str) (t now : ℕ)
    → l.cfg.burst ≤ l.cfg.idle_ttl * l.cfg.rate
    → t ≤ now
    → IsSound t l
    → credit_at l.cfg ((evict_locked l now).sources k) now ≡ credit l k now
evict_locked-credit l k t now long h v =
    rw (evict_locked-evicted l now k) (evicted-credit l.cfg (l.sources k) t now long (v k) h)

-- What `Acquire` leaves of the source that it works on.
admitted-credit :
    (l : Limiter) (j : Str) (t now : ℕ)
    → l.cfg.burst ≤ l.cfg.idle_ttl * l.cfg.rate
    → t ≤ now
    → IsSound t l
    → let (reason, s) = admit l.cfg now (get (evict_locked l now) j now) in
      credit_of l.cfg s now + one_if reason * l.cfg.unit ≤ credit l j now
unfolding evict_locked
admitted-credit l j t now long h v =
    let l' = evict_locked l now in
    let sound : SoundAt l.cfg now (some (get l' j now)) =
      get-SoundAt l' j t now (evict_locked-IsSound l t now v j) h in
    omega (
      arith,
      evict_locked-credit l j t now long h v,
      get-credit l' j now,
      admit-credit l.cfg now (get l' j now) (omega arith) sound.2,
      cost-one_if l.cfg (admit l.cfg now (get l' j now)).0,
    )

acquire-credit :
    (l : Limiter) (k j : Str) (t now : ℕ)
    → l.cfg.burst ≤ l.cfg.idle_ttl * l.cfg.rate
    → t ≤ now
    → IsSound t l
    → credit_at l.cfg ((acquire l j now).1.sources k) now
        + admits k l (now, acquires j) * l.cfg.unit
      ≤ credit l k now
unfolding acquire store
acquire-credit l k j t now long h v =
    ground (arith, evict_locked-credit l k t now long h v, admitted-credit l j t now long h v)

step-credit :
    (l : Limiter) (k : Str) (t now : ℕ) (op : Op)
    → l.cfg.burst ≤ l.cfg.idle_ttl * l.cfg.rate
    → t ≤ now
    → IsSound t l
    → credit_at l.cfg ((step l (now, op)).sources k) now + admits k l (now, op) * l.cfg.unit
      ≤ credit l k now
unfolding step record_failure record_success release store
step-credit l k t now (acquires j) long h v = acquire-credit l k j t now long h v
step-credit l k t now (releases j) long h v = ground arith
step-credit l k t now (fails j) long h v =
    ground (arith, note_failure-bucket l.cfg now (get l j now), get-credit l j now)
step-credit l k t now (succeeds j) long h v = ground (arith, get-credit l j now)

pub InOrder-le : (t u : ℕ) (ops : List (ℕ × Op)) → InOrder t ops u → t ≤ u
InOrder-le t u [] o = o
InOrder-le t u ((now, op) ∷ ops) o = omega (arith, InOrder-le now u ops o.1)

add_mul : (a b n : ℕ) → (a + b) * n ≡ a * n + b * n
add_mul a b n = grind arith

admissions-nil : (l : Limiter) (k : Str) (n : ℕ) → admissions k l [] * n ≡ 0
unfolding admissions
admissions-nil l k n = omega arith

admissions-cons :
    (l : Limiter) (k : Str) (op : ℕ × Op) (ops : List (ℕ × Op)) (n : ℕ)
    → admissions k l (op ∷ ops) * n ≡ admits k l op * n + admissions k (step l op) ops * n
unfolding admissions
admissions-cons l k op ops n = add_mul (admits k l op) (admissions k (step l op) ops) n

admissions-credit :
    (l : Limiter) (k : Str) (t u : ℕ) (ops : List (ℕ × Op))
    → l.cfg.burst ≤ l.cfg.idle_ttl * l.cfg.rate
    → IsSound t l
    → InOrder t ops u
    → admissions k l ops * l.cfg.unit ≤ credit l k t + (u - t) * l.cfg.rate
admissions-credit l k t u [] long v o = omega (arith, admissions-nil l k l.cfg.unit)
admissions-credit l k t u ((now, op) ∷ ops) long v o =
    let l' = step l (now, op) in
    let same = step-cfg l (now, op) in
    let rest : admissions k l' ops * l.cfg.unit
        ≤ credit_at l.cfg (l'.sources k) now + (u - now) * l.cfg.rate =
      subst
        (λ (c : Config).
          admissions k l' ops * c.unit ≤ credit_at c (l'.sources k) now + (u - now) * c.rate)
        same
        (admissions-credit l' k now u ops
          (subst (λ (c : Config). c.burst ≤ c.idle_ttl * c.rate) (sym same) long)
          (step-IsSound l t now op o.0 v) o.1) in
    omega (
      arith,
      admissions-cons l k (now, op) ops l.cfg.unit,
      step-credit l k t now op long o.0 v,
      credit_wait l.cfg (l.sources k) t now (v k) o.0,
      mul_grow t now u l.cfg.rate o.0 (InOrder-le now u ops o.1),
    )

credit-le-burst : (cfg : Config) (o : Option Source) (t : ℕ) → credit_at cfg o t ≤ cfg.burst
credit-le-burst cfg none t = omega arith
credit-le-burst cfg (some s) t = omega arith

-- A source is admitted at most `burst` connections and `rate` more for each nanosecond that goes by,
-- whatever calls are made for it and for others from any sound state at time `t` up to time `u`.
-- It is so if the clock does not go back and a bucket is full again within `idle_ttl`, so that
-- forgetting an idle source gives nothing away.
pub admissions_bound :
    (l : Limiter) (k : Str) (t u : ℕ) (ops : List (ℕ × Op))
    → l.cfg.burst ≤ l.cfg.idle_ttl * l.cfg.rate
    → IsSound t l
    → InOrder t ops u
    → admissions k l ops * l.cfg.unit ≤ l.cfg.burst + (u - t) * l.cfg.rate
admissions_bound l k t u ops long v o =
    omega (arith, admissions-credit l k t u ops long v o, credit-le-burst l.cfg (l.sources k) t)
