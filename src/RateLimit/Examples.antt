-- ===== src/RateLimit/Examples.antt =====
-- Runs of the limiter, and its theorems at concrete calls.
use sshhub.Base.{
  ℕ, ◌+◌, ◌-◌, ◌*◌, ◌≤◌, ◌≡◌, refl, List, [], ◌∷◌, some, arith, false, true, keep, ℕ_discrete,
}
use sshhub.Text.{Str, codes, str_eq}
use sshhub.Text.Host.{split_host_port}
use sshhub.Text.Cut.{last_index, index, has_byte, take}
use sshhub.RateLimit.{
  Config, Limiter, reason_concurrent, reason_blocked, Op, acquires, releases, fails, succeeds, new,
  key, get, store, is_retained, evict_locked, refill, admit, acquire, release, note_failure,
  record_failure, step, run, blocked, default_config,
}
use sshhub.RateLimit.Admissions.{admissions, admissions_bound}
use sshhub.RateLimit.Blocking.{fail_all, acquire-fail_all}
use sshhub.RateLimit.Penalty.{acquire-run_blocked}
use sshhub.RateLimit.Slots.{Paired}

-- Two parts in a token, one back in a nanosecond, two tokens at most.
abbrev small : Config
small = record {
  unit = 2;
  rate = 1;
  burst = 4;
  max_concurrent = 2;
  max_failures = 2;
  failure_window = 10;
  block_duration = 20;
  idle_ttl = 10;
}

abbrev peer : Str
peer = codes "10.0.0.1"

abbrev other : Str
other = codes "10.0.0.2"

abbrev calls : List (ℕ × Op)
calls =
    (5, acquires peer)
    ∷ (5, acquires peer)
    ∷ (6, acquires other)
    ∷ (7, releases peer)
    ∷ (8, acquires peer)
    ∷ []

admissions_bound_example : admissions peer (new small) calls * 2 ≤ 4 + (9 - 5) * 1
unfolding new
admissions_bound_example =
    admissions_bound (new small) peer 5 9 calls (omega arith) (λ k. tt) (omega arith)

three_admitted : admissions peer (new small) calls ≡ 3
unfolding admissions step acquire release evict_locked get store admit refill new str_eq is_retained
three_admitted = refl

rate_exceeded : (acquire (run (new small) calls) peer 8).0 ≡ reason_concurrent
unfolding run step acquire release evict_locked get store admit refill new str_eq is_retained
rate_exceeded = refl

acquire-fail_all_example :
    (acquire (fail_all (new small) peer (3 ∷ 9 ∷ [])) peer 28).0 ≡ reason_blocked
unfolding new
acquire-fail_all_example =
    acquire-fail_all (new small) peer (3 ∷ []) 9 28 refl (omega arith) refl (omega arith)

-- Two failures at time 9 apart by 6: the block runs to 29.
abbrev punished : Limiter
punished = fail_all (new small) peer (3 ∷ 9 ∷ [])

block_runs : blocked punished peer 28 ≡ true
unfolding blocked fail_all record_failure note_failure get store new str_eq keep ℕ_discrete
block_runs = refl

block_over : blocked punished peer 29 ≡ false
unfolding blocked fail_all record_failure note_failure get store new str_eq keep ℕ_discrete
block_over = refl

acquire-run_blocked_example :
    (acquire
      (run punished ((10, succeeds peer) ∷ (15, fails peer) ∷ (20, acquires other) ∷ []))
      peer
      28).0
    ≡ reason_blocked
unfolding fail_all record_failure note_failure get store new str_eq keep
acquire-run_blocked_example =
    acquire-run_blocked punished peer 9 28 29
      ((10, succeeds peer) ∷ (15, fails peer) ∷ (20, acquires other) ∷ []) (omega arith)
      (omega arith) (omega arith) (omega arith)

calls-Paired : Paired (new small) calls
unfolding Paired step acquire release evict_locked get store admit refill new str_eq is_retained
calls-Paired = omega arith

key_of_ipv6 : key (some (codes "[::1]:22")) ≡ codes "::1"
unfolding key split_host_port last_index index has_byte take ℕ_discrete
key_of_ipv6 = refl

default_bucket_refills : default_config.burst ≤ default_config.idle_ttl * default_config.rate
default_bucket_refills = omega arith
