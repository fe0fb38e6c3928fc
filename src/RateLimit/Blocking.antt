-- ===== src/RateLimit/Blocking.antt =====
-- Failed authentications in internal/ratelimit/ratelimit.go: when a source is blocked, and that
-- nothing ends the block early.
use sshhub.Base.{
  ℕ, ◌+◌, ◌≤◌, ◌<◌, ◌≡◌, refl, List, [], ◌∷◌, ◌++◌, Option, none, some, arith, ltb, All, length,
  length-append, keep, append_assoc, ap, ◌∙◌, All-append, subst, sym, append-nil,
}
use sshhub.Text.{Str, str_eq}
use sshhub.RateLimit.{
  Config, Source, Limiter, reason_blocked, get, fresh, store, is_retained, evict_locked, admit,
  acquire, note_failure, record_failure,
}

-- `RecordFailure` at each of the times, for one source.
unfoldable pub fail_all : Limiter → Str → List ℕ → Limiter
fail_all l k [] = l
fail_all l k (t ∷ ts) = fail_all (record_failure l k t) k ts

-- The remembered failures and the end of the block, of an unknown source too.
abbrev pub remembered : Option Source → List ℕ
remembered none = []
remembered (some s) = s.failures

abbrev pub block_end : Option Source → ℕ
block_end none = 0
block_end (some s) = s.blocked_til

-- The times lie before `t` and within `window` of it.
abbrev pub RecentAt : ℕ → ℕ → List ℕ → Type 0
RecentAt window t = All (λ f. (f ≤ t) × (t < f + window))

keep-recent :
    (window now t : ℕ) (fs : List ℕ)
    → now ≤ t
    → RecentAt window t fs
    → keep (λ f. ltb now (f + window)) fs ≡ fs
unfolding keep
keep-recent window now t [] h w = refl
keep-recent window now t (f ∷ fs) h w = ground (arith, keep-recent window now t fs h w.1)

record_failure-source :
    (l : Limiter) (k : Str) (t : ℕ)
    → (record_failure l k t).sources k ≡ some (note_failure l.cfg t (get l k t))
unfolding record_failure store
record_failure-source l k t = ground arith

get-failures : (l : Limiter) (k : Str) (t : ℕ) → (get l k t).failures ≡ remembered (l.sources k)
unfolding get fresh
get-failures l k t = ground arith

note_failure-remembers :
    (cfg : Config) (now t : ℕ) (s : Source)
    → now ≤ t
    → RecentAt cfg.failure_window t s.failures
    → length s.failures + 1 < cfg.max_failures
    → (note_failure cfg now s).failures ≡ s.failures ++ now ∷ []
unfolding note_failure
note_failure-remembers cfg now t s h w few = ground (
  arith,
  keep-recent cfg.failure_window now t s.failures h w,
  length-append s.failures (now ∷ []),
)

note_failure-blocks :
    (cfg : Config) (t : ℕ) (s : Source)
    → RecentAt cfg.failure_window t s.failures
    → length s.failures + 1 ≡ cfg.max_failures
    → (note_failure cfg t s).blocked_til ≡ t + cfg.block_duration
unfolding note_failure
note_failure-blocks cfg t s w enough = ground (
  arith,
  keep-recent cfg.failure_window t t s.failures (omega arith) w,
  length-append s.failures (t ∷ []),
)

record_failure-remembers :
    (l : Limiter) (k : Str) (now t : ℕ) (fs : List ℕ)
    → remembered (l.sources k) ≡ fs
    → now ≤ t
    → RecentAt l.cfg.failure_window t fs
    → length fs + 1 < l.cfg.max_failures
    → remembered ((record_failure l k now).sources k) ≡ fs ++ now ∷ []
record_failure-remembers l k now t fs e h w few =
    let same = get-failures l k now ∙ e in
    rw (record_failure-source l k now) (
      note_failure-remembers l.cfg now t (get l k now) h (rw same w) (rw same few)
      ∙ ap (λ xs. xs ++ now ∷ []) same)

fail_all-remembers :
    (l : Limiter) (k : Str) (t : ℕ) (fs ts : List ℕ)
    → remembered (l.sources k) ≡ fs
    → RecentAt l.cfg.failure_window t fs
    → RecentAt l.cfg.failure_window t ts
    → length fs + length ts < l.cfg.max_failures
    → remembered ((fail_all l k ts).sources k) ≡ fs ++ ts
unfolding fail_all record_failure store
fail_all-remembers l k t fs [] e old new few = rw append-nil e
fail_all-remembers l k t fs (x ∷ ts) e old new few =
    fail_all-remembers (record_failure l k x) k t (fs ++ x ∷ []) ts
      (record_failure-remembers l k x t fs e new.0.0 old (omega arith))
      (All-append _ fs (x ∷ []) old (new.0, tt)) new.1 (omega (arith, length-append fs (x ∷ [])))
    ∙ append_assoc fs (x ∷ []) ts

fail_all-cfg : (l : Limiter) (k : Str) (ts : List ℕ) → (fail_all l k ts).cfg ≡ l.cfg
unfolding fail_all record_failure store
fail_all-cfg l k [] = refl
fail_all-cfg l k (t ∷ ts) = fail_all-cfg (record_failure l k t) k ts

-- A block that runs past `t` is kept by eviction, and refuses the connection.
pub acquire-block :
    (l : Limiter) (k : Str) (now : ℕ)
    → now < block_end (l.sources k)
    → ((acquire l k now).0 ≡ reason_blocked)
      × (block_end ((acquire l k now).1.sources k) ≡ block_end (l.sources k))
unfolding acquire evict_locked is_retained get store admit fresh
acquire-block l k now h = ground arith

fail_all-append :
    (l : Limiter) (k : Str) (ts : List ℕ) (t : ℕ)
    → fail_all l k (ts ++ t ∷ []) ≡ record_failure (fail_all l k ts) k t
unfolding fail_all
fail_all-append l k [] t = refl
fail_all-append l k (x ∷ ts) t = fail_all-append (record_failure l k x) k ts t

last_failure-blocks :
    (l : Limiter) (k : Str) (t : ℕ) (fs : List ℕ)
    → remembered (l.sources k) ≡ fs
    → RecentAt l.cfg.failure_window t fs
    → length fs + 1 ≡ l.cfg.max_failures
    → block_end ((record_failure l k t).sources k) ≡ t + l.cfg.block_duration
last_failure-blocks l k t fs e w enough =
    let same = get-failures l k t ∙ e in
    rw (record_failure-source l k t)
      (note_failure-blocks l.cfg t (get l k t) (rw same w) (rw same enough))

-- A source with no remembered failures that then fails `max_failures` times, each time at or before
-- the last, `t`, and within `failure_window` of it, is refused as blocked by `Acquire` at any time
-- before `t + block_duration`.
pub acquire-fail_all :
    (l : Limiter) (k : Str) (ts : List ℕ) (t now : ℕ)
    → remembered (l.sources k) ≡ []
    → RecentAt l.cfg.failure_window t ts
    → length ts + 1 ≡ l.cfg.max_failures
    → now < t + l.cfg.block_duration
    → (acquire (fail_all l k (ts ++ t ∷ [])) k now).0 ≡ reason_blocked
acquire-fail_all l k ts t now e w enough early =
    let before = fail_all l k ts in
    let same = fail_all-cfg l k ts in
    let ends : block_end ((record_failure before k t).sources k) ≡ t + l.cfg.block_duration =
      last_failure-blocks before k t ts (fail_all-remembers l k t [] ts e tt w (omega arith))
        (subst (λ (c : Config). RecentAt c.failure_window t ts) (sym same) w)
        (subst (λ (c : Config). length ts + 1 ≡ c.max_failures) (sym same) enough)
      ∙ ap (λ (c : Config). t + c.block_duration) same in
    rw (fail_all-append l k ts t) (acquire-block (record_failure before k t) k now (omega arith)).0
