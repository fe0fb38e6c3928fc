-- ===== src/RateLimit/Penalty.antt =====
-- A block in internal/ratelimit/ratelimit.go, through whatever calls are made while it lasts.
use sshhub.Base.{ℕ, ◌+◌, ◌≤◌, ◌<◌, ◌≡◌, List, [], ◌∷◌, arith, subst, sym}
use sshhub.Text.{Str, str_eq}
use sshhub.RateLimit.{
  Config, Source, Limiter, reason_blocked, Op, acquires, releases, fails, succeeds, get, fresh,
  store, is_retained, evict_locked, admit, refill, acquire, release, note_failure, record_failure,
  record_success, step, run,
}
use sshhub.RateLimit.Validity.{step-cfg}
use sshhub.RateLimit.Admissions.{InOrder, InOrder-le}
use sshhub.RateLimit.Blocking.{block_end, acquire-block}

admit-blocked_til :
    (cfg : Config) (now : ℕ) (s : Source) → (admit cfg now s).1.blocked_til ≡ s.blocked_til
unfolding admit refill
admit-blocked_til cfg now s = ground arith

note_failure-until :
    (cfg : Config) (now until : ℕ) (s : Source)
    → until ≤ now + cfg.block_duration
    → until ≤ s.blocked_til
    → until ≤ (note_failure cfg now s).blocked_til
unfolding note_failure
note_failure-until cfg now until s short h = ground arith

get-until :
    (l : Limiter) (k : Str) (now until : ℕ)
    → until ≤ block_end (l.sources k)
    → until ≤ (get l k now).blocked_til
unfolding get fresh
get-until l k now until h = ground arith

evict_locked-until :
    (l : Limiter) (k : Str) (now until : ℕ)
    → now < until
    → until ≤ block_end (l.sources k)
    → until ≤ block_end ((evict_locked l now).sources k)
unfolding evict_locked is_retained
evict_locked-until l k now until early h = ground arith

acquire-until :
    (l : Limiter) (k j : Str) (now until : ℕ)
    → now < until
    → until ≤ block_end (l.sources k)
    → until ≤ block_end ((acquire l j now).1.sources k)
unfolding acquire store
acquire-until l k j now until early h =
    let l' = evict_locked l now in
    ground (
      arith,
      evict_locked-until l k now until early h,
      get-until l' k now until,
      admit-blocked_til l.cfg now (get l' j now),
    )

step-until :
    (l : Limiter) (k : Str) (now until : ℕ) (op : Op)
    → now < until
    → until ≤ now + l.cfg.block_duration
    → until ≤ block_end (l.sources k)
    → until ≤ block_end ((step l (now, op)).sources k)
unfolding step record_failure record_success release store
step-until l k now until (acquires j) early short h = acquire-until l k j now until early h
step-until l k now until (releases j) early short h = ground arith
step-until l k now until (fails j) early short h =
    ground (arith, get-until l k now until h, note_failure-until l.cfg now until (get l j now))
step-until l k now until (succeeds j) early short h = ground (arith, get-until l k now until h)

run-until :
    (l : Limiter) (k : Str) (t u until : ℕ) (ops : List (ℕ × Op))
    → InOrder t ops u
    → u < until
    → until ≤ t + l.cfg.block_duration
    → until ≤ block_end (l.sources k)
    → until ≤ block_end ((run l ops).sources k)
unfolding run
run-until l k t u until [] o early short h = h
run-until l k t u until ((now, op) ∷ ops) o early short h =
    run-until (step l (now, op)) k now u until ops o.1 early
      (subst (λ (c : Config). until ≤ now + c.block_duration) (sym (step-cfg l (now, op)))
        (omega arith))
      (step-until l k now until op (omega (arith, InOrder-le now u ops o.1)) (omega arith) h)

-- A source that is blocked until `until` stays refused for any connection before that time, whatever
-- calls are made in between on a clock that does not go back: no success, release, eviction or
-- further failure ends the block early. (`until` is at most `block_duration` after the time `t`
-- from which the calls are counted, as it is for a block set at or before `t`.)
pub acquire-run_blocked :
    (l : Limiter) (k : Str) (t u until : ℕ) (ops : List (ℕ × Op))
    → InOrder t ops u
    → u < until
    → until ≤ t + l.cfg.block_duration
    → until ≤ block_end (l.sources k)
    → (acquire (run l ops) k u).0 ≡ reason_blocked
acquire-run_blocked l k t u until ops o early short h =
    (acquire-block (run l ops) k u (omega (arith, run-until l k t u until ops o early short h))).0
