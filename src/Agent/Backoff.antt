-- ===== src/Agent/Backoff.antt =====
-- The waits of the loop `run` of cmd/sshhub-agent/main.go, and that it goes on.
use sshhub.Base.{
  ℕ, zero, suc, ◌*◌, ◌^◌, ◌≤◌, ◌≡◌, refl, sym, ap, subst, ◌∙◌, Bool, true, false, List, [], ◌∷◌,
  some, arith, ltb, length, All, min, Bool-cases, inl, inr,
}
use native.Mathlib.Nat.{mul_assoc, pow-succ', one-le-pow, le-mul_of_pos_right}
use sshhub.Agent.{
  min_backoff, max_backoff, Loop, first_loop, Round, cancelled, unreachable, served, Trace,
  next_backoff, after_wait, complain, run,
}

-- The wait is one that the loop may make.
abbrev pub Bounded : ℕ → Type 0
Bounded d = (min_backoff ≤ d) × (d ≤ max_backoff)

next_backoff-Bounded : (b : ℕ) → Bounded b → Bounded (next_backoff b)
unfolding next_backoff
next_backoff-Bounded b h = ground arith

-- The context is not cancelled, and no wait is interrupted.
abbrev pub Undisturbed : Round → Type 0
Undisturbed cancelled = ⊥
Undisturbed (unreachable stop waits) = (stop ≡ false) × (waits ≡ true)
Undisturbed (served stop waits) = (stop ≡ false) × (waits ≡ true)

-- The loop is still there, after as many waits as rounds.
abbrev pub Alive : ℕ → Trace → Type 0
Alive n t = (length t.waits ≡ n) × ((s : Loop) × (t.still ≡ some s))

complain-waits : (b : Bool) (d : ℕ) (t : Trace) → (complain b d t).waits ≡ t.waits
unfolding complain
complain-waits true d t = refl
complain-waits false d t = refl

complain-still : (b : Bool) (d : ℕ) (t : Trace) → (complain b d t).still ≡ t.still
unfolding complain
complain-still true d t = refl
complain-still false d t = refl

complain-Alive : (n : ℕ) (b : Bool) (d : ℕ) (t : Trace) → Alive n t → Alive n (complain b d t)
complain-Alive n b d t (k, (s, e)) = rw (complain-waits b d t, complain-still b d t) (k, (s, e))

stays-Alive : (rs : List Round) (s : Loop) → All Undisturbed rs → Alive (length rs) (run rs s)
unfolding run after_wait
stays-Alive [] s h = (refl, (s, refl))
stays-Alive (cancelled ∷ rs) s (h, hs) = absurd h
stays-Alive (unreachable stop waits ∷ rs) s ((go, slept), hs) =
    let next : Loop = record { backoff = next_backoff s.backoff; logged_down = true } in
    let (n, (t, e)) = stays-Alive rs next hs in
    rw (go, slept)
      (complain-Alive (suc (length rs)) s.logged_down s.backoff
        (after_wait s.backoff true (run rs next)) (ap suc n, (t, e)))
stays-Alive (served stop waits ∷ rs) s ((go, slept), hs) =
    let (n, (t, e)) = stays-Alive rs first_loop hs in rw (go, slept) (ap suc n, (t, e))

after_wait-Bounded :
    (d : ℕ) (slept : Bool) (t : Trace)
    → Bounded d
    → All Bounded t.waits
    → All Bounded (after_wait d slept t).waits
unfolding after_wait
after_wait-Bounded d true t b h = (b, h)
after_wait-Bounded d false t b h = (b, tt)

run-Bounded : (rs : List Round) (s : Loop) → Bounded s.backoff → All Bounded (run rs s).waits
unfolding run
run-Bounded [] s b = tt
run-Bounded (cancelled ∷ rs) s b = tt
run-Bounded (unreachable true waits ∷ rs) s b = tt
run-Bounded (unreachable false waits ∷ rs) s b =
    let next : Loop = record { backoff = next_backoff s.backoff; logged_down = true } in
    subst (All Bounded)
      (sym (complain-waits s.logged_down s.backoff (after_wait s.backoff waits (run rs next))))
      (after_wait-Bounded s.backoff waits (run rs next) b
        (run-Bounded rs next (next_backoff-Bounded s.backoff b)))
run-Bounded (served true waits ∷ rs) s b = tt
run-Bounded (served false waits ∷ rs) s b =
    after_wait-Bounded min_backoff waits (run rs first_loop) (omega arith, omega arith)
      (run-Bounded rs first_loop (omega arith, omega arith))

-- The agent never gives up: as long as its context is not cancelled it goes on, however often the hub
-- cannot be reached and however often the tunnel drops, with one wait after each round, of 2 seconds at
-- least and 60 at most. The wait that it starts with is within these limits.
pub run-Alive :
    (rs : List Round) (s : Loop)
    → All Undisturbed rs
    → Bounded s.backoff
    → Alive (length rs) (run rs s) × All Bounded (run rs s).waits
run-Alive rs s h b = (stays-Alive rs s h, run-Bounded rs s b)

-- The hub stays unreachable for `n` rounds.
abbrev pub outage : ℕ → List Round
outage zero = []
outage (suc n) = unreachable false true ∷ outage n

-- Capping before or after a further growth by `p` is the same.
min-grow : (x p m : ℕ) → 1 ≤ p → min (min x m * p) m ≡ min (x * p) m
min-grow x p m h = elim (Bool-cases (ltb m x)) [
  | inr small ↦ let e : min x m ≡ x = ground (arith, small) in rw e refl
  | inl large ↦
      let over_cap : m ≤ x = ground (arith, large) in
      let e : min x m ≡ m = ground (arith, large) in
      rw e (omega (arith, le-mul_of_pos_right m h, le-mul_of_pos_right x h, over_cap))
]

next_backoff-min : (b : ℕ) → next_backoff b ≡ min (b * 2) max_backoff
unfolding next_backoff
next_backoff-min b = ground arith

pow-positive : (n : ℕ) → 1 ≤ 2 ^ n
pow-positive n = one-le-pow n 2 (omega arith)

-- While the hub stays unreachable, and no wait is interrupted, the wait doubles with each round, up to
-- the maximum: after `n` rounds from a wait of at most the maximum, the next wait is `2 ^ n` times the
-- first or the maximum, whichever is less.
pub outage-backoff :
    (n b : ℕ) (logged : Bool)
    → b ≤ max_backoff
    → (s : Loop) × ((run (outage n) (record { backoff = b; logged_down = logged })).still ≡ some s)
      × (s.backoff ≡ min (b * 2 ^ n) max_backoff)
unfolding run after_wait
outage-backoff zero b logged h =
    (record { backoff = b; logged_down = logged }, refl, omega (arith, h))
outage-backoff (suc n) b logged h =
    let (s, still, e) =
      outage-backoff n (next_backoff b) true (omega (arith, next_backoff-min b)) in
    let next : Loop = record { backoff = next_backoff b; logged_down = true } in
    let grown : b * 2 * 2 ^ n ≡ b * 2 ^ suc n =
      mul_assoc b 2 (2 ^ n) ∙ ap (λ x. b * x) (sym (pow-succ' 2 n)) in
    (
      s,
      complain-still logged b (after_wait b true (run (outage n) next)) ∙ still,
      omega (
        arith,
        e,
        ap (λ x. min (x * 2 ^ n) max_backoff) (next_backoff-min b),
        min-grow (b * 2) (2 ^ n) max_backoff (pow-positive n),
        grown,
      ),
    )
