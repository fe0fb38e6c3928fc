-- ===== src/Proxy/Serve/Slots.antt =====
-- The slots of the accept loop of internal/proxy/proxy.go and those of the limiter.
use sshhub.Base.{
  ℕ, suc, ◌+◌, ◌-◌, ◌≤◌, ◌≡◌, refl, sym, ◌∙◌, true, not, ◌&&◌, List, [], ◌∷◌, ◌++◌, Option, none,
  some, arith, ltb, length, if◌then◌else◌, ◌==◌, nat_eq, Bool-cases, inl, inr,
}
use sshhub.Text.{Str, str_eq}
use sshhub.Config.{JumpUser}
use sshhub.RateLimit.{
  Limiter, Reason, allowed, handle_of, acquire, acquires, fails, succeeds, release_once,
  record_failure, record_success, step,
}
use sshhub.RateLimit.Admissions.{one_if}
use sshhub.RateLimit.Slots.{in_flight_of, step-in_flight, release-in_flight}
use sshhub.Proxy.{handle}
use sshhub.Proxy.Serve.{
  slots, Conn, Front, is_allowed, place, accept, shake_one, shake, finish, Event, connects,
  shakes_hands, ends, run,
}
use sshhub.Proxy.Serve

-- The handshakes of the source that are under way.
unfoldable pub pending : Str → List Conn → ℕ
pending k [] = 0
pending k (c ∷ cs) = (if not c.serving && k == c.source then 1 else 0) + pending k cs

-- The limiter's count of each source is the number of its handshakes under way, and no more
-- connections are open than there are slots.
pub record Balanced (f : Front) : Type 0 where
  pub exact : (k : Str) → in_flight_of (f.limiter.sources k) ≡ pending k f.conns
  pub bounded : length f.conns ≤ slots

acquire-in_flight :
    (l : Limiter) (j k : Str) (now : ℕ)
    → in_flight_of ((acquire l j now).1.sources k)
      ≡ in_flight_of (l.sources k) + (if k == j then one_if (acquire l j now).0 else 0)
unfolding step
acquire-in_flight l j k now = omega (arith, step-in_flight l (now, acquires j) k tt)

refused-Balanced :
    (l : Limiter) (f : Front)
    → ((j : Str) → in_flight_of (l.sources j) ≡ in_flight_of (f.limiter.sources j))
    → Balanced f
    → Balanced (record f { limiter = l })
refused-Balanced l f same b = record { exact = λ j. same j ∙ b.exact j; bounded = b.bounded }

-- A connection for which there is no slot gives its place in the limiter back.
released-in_flight :
    (l : Limiter) (k j : Str)
    → in_flight_of ((release_once (handle_of allowed k) l).1.sources j)
      ≡ in_flight_of (l.sources j) - (if j == k then 1 else 0)
unfolding release_once handle_of
released-in_flight l k j = release-in_flight l k j

allowed-Balanced :
    (k : Str) (l : Limiter) (f : Front)
    → ((j : Str)
        → in_flight_of (l.sources j)
          ≡ in_flight_of (f.limiter.sources j) + (if j == k then 1 else 0))
    → Balanced f
    → Balanced (place k allowed l f)
unfolding place pending
allowed-Balanced k l f more b = elim (Bool-cases (ltb (length f.conns) slots)) [
  | inl room ↦
      rw room (record { exact = λ j. omega (arith, more j, b.exact j); bounded = ground arith })
  | inr full ↦ rw full (
      refused-Balanced (release_once (handle_of allowed k) l).1 f
        (λ j. ground (arith, more j, released-in_flight l k j)) b)
]

place-Balanced :
    (k : Str) (r : Reason) (l : Limiter) (f : Front)
    → ((j : Str)
        → in_flight_of (l.sources j)
          ≡ in_flight_of (f.limiter.sources j) + (if j == k then one_if r else 0))
    → Balanced f
    → Balanced (place k r l f)
unfolding place
place-Balanced k allowed l f more b = allowed-Balanced k l f more b
place-Balanced k r l f more b = refused-Balanced l f (λ j. ground (arith, more j)) b

accept-Balanced : (k : Str) (now : ℕ) (f : Front) → Balanced f → Balanced (accept k now f)
unfolding accept
accept-Balanced k now f b =
    place-Balanced k (acquire f.limiter k now).0 (acquire f.limiter k now).1 f
      (λ j. acquire-in_flight f.limiter k j now) b

record_failure-in_flight :
    (l : Limiter) (k j : Str) (now : ℕ)
    → in_flight_of ((record_failure l k now).sources j) ≡ in_flight_of (l.sources j)
unfolding step
record_failure-in_flight l k j now = omega (arith, step-in_flight l (now, fails k) j tt)

record_success-in_flight :
    (l : Limiter) (k j : Str) (now : ℕ)
    → in_flight_of ((record_success l k now).sources j) ≡ in_flight_of (l.sources j)
unfolding step
record_success-in_flight l k j now = omega (arith, step-in_flight l (now, succeeds k) j tt)

-- However the handshake ends, the source has one handshake less under way.
handle-in_flight :
    (us : List JumpUser) (user : Str) (outcome : Option (Option Str)) (k j : Str) (now : ℕ)
    (l : Limiter)
    → in_flight_of ((handle us user outcome (handle_of allowed k) k now l).1.sources j)
      ≡ in_flight_of (l.sources j) - (if j == k then 1 else 0)
unfolding handle
handle-in_flight us user none k j now l =
    record_failure-in_flight (release_once (handle_of allowed k) l).1 k j now
    ∙ released-in_flight l k j
handle-in_flight us user (some perms) k j now l = ground (
  arith,
  released-in_flight l k j,
  record_success-in_flight (release_once (handle_of allowed k) l).1 k j now,
)

-- The handshakes of a source that a connection counts for.
abbrev counts_for : Str → Conn → ℕ
counts_for k c = if not c.serving && k == c.source then 1 else 0

shake_one-pending :
    (us : List JumpUser) (user : Str) (outcome : Option (Option Str)) (now : ℕ) (c : Conn)
    (l : Limiter) (k : Str) (cs : List Conn)
    → (pending k ((shake_one us user outcome now c l).0 ++ cs) ≡ pending k cs)
      × (length ((shake_one us user outcome now c l).0 ++ cs) ≤ suc (length cs))
unfolding shake_one pending
shake_one-pending us user outcome now c l k cs =
    elim (Bool-cases (handle us user outcome (handle_of allowed c.source) c.source now l).0) [
      | inl served ↦ rw served (omega arith, omega arith)
      | inr dropped ↦ rw dropped (omega arith, omega arith)
    ]

shake_one-in_flight :
    (us : List JumpUser) (user : Str) (outcome : Option (Option Str)) (now : ℕ) (c : Conn)
    (l : Limiter) (k : Str)
    → in_flight_of ((shake_one us user outcome now c l).1.sources k)
      ≡ in_flight_of (l.sources k) - (if k == c.source then 1 else 0)
unfolding shake_one
shake_one-in_flight us user outcome now c l k = handle-in_flight us user outcome c.source k now l

-- Ending a handshake keeps the limiter's count in step, whatever else it counts.
shake-pending :
    (us : List JumpUser) (id : ℕ) (user : Str) (outcome : Option (Option Str)) (now : ℕ)
    (cs : List Conn) (l : Limiter) (k : Str) (others : ℕ)
    → in_flight_of (l.sources k) ≡ pending k cs + others
    → in_flight_of ((shake us id user outcome now cs l).1.sources k)
      ≡ pending k (shake us id user outcome now cs l).0 + others
unfolding shake pending
shake-pending us id user outcome now [] l k others h = h
shake-pending us id user outcome now (c ∷ cs) l k others h =
    elim (Bool-cases ((c.id == id) && not c.serving)) [
      | inr other ↦ rw other (
          omega (
            arith,
            shake-pending us id user outcome now cs l k (counts_for k c + others)
                (omega (arith, h)),
          ))
      | inl it ↦
          let waits : not c.serving ≡ true = ground arith in
          let one : counts_for k c ≡ (if k == c.source then 1 else 0) = rw waits refl in
          rw it (
            omega (
              arith,
              h,
              one,
              (shake_one-pending us user outcome now c l k cs).0,
              shake_one-in_flight us user outcome now c l k,
            ))
    ]

shake-length :
    (us : List JumpUser) (id : ℕ) (user : Str) (outcome : Option (Option Str)) (now : ℕ)
    (cs : List Conn) (l : Limiter)
    → length (shake us id user outcome now cs l).0 ≤ length cs
unfolding shake
shake-length us id user outcome now [] l = omega arith
shake-length us id user outcome now (c ∷ cs) l = elim (Bool-cases ((c.id == id) && not c.serving)) [
  | inr other ↦ rw other (omega (arith, shake-length us id user outcome now cs l))
  | inl it ↦ rw it (shake_one-pending us user outcome now c l [] cs).1
]

finish-pending :
    (id : ℕ) (cs : List Conn) (k : Str)
    → (pending k (finish id cs) ≡ pending k cs) × (length (finish id cs) ≤ length cs)
unfolding finish pending
finish-pending id [] k = (refl, omega arith)
finish-pending id (c ∷ cs) k = ground (arith, finish-pending id cs k)

step-Balanced :
    (us : List JumpUser) (e : Event) (f : Front) → Balanced f → Balanced (Serve.step us e f)
unfolding Serve.step
step-Balanced us (connects k now) f b = accept-Balanced k now f b
step-Balanced us (shakes_hands id user outcome now) f b = record {
  exact = λ k. omega (
    arith,
    shake-pending us id user outcome now f.conns f.limiter k 0 (omega (arith, b.exact k)),
  );
  bounded = omega (arith, b.bounded, shake-length us id user outcome now f.conns f.limiter);
}
step-Balanced us (ends id) f b = record {
  exact = λ k. b.exact k ∙ sym (finish-pending id f.conns k).0;
  bounded = omega (arith, b.bounded, (finish-pending id f.conns []).1);
}

-- The accept loop and the limiter stay in step over any events. For each source the limiter counts
-- exactly the handshakes of it that are under way: also a connection that finds no free slot, and one
-- whose handshake fails, give theirs back, so no source is locked out by connections that are gone. And
-- never more connections hold a slot than there are slots.
pub run-Balanced :
    (us : List JumpUser) (es : List Event) (f : Front) → Balanced f → Balanced (run us es f)
unfolding run
run-Balanced us [] f b = b
run-Balanced us (e ∷ es) f b = run-Balanced us es (Serve.step us e f) (step-Balanced us e f b)
