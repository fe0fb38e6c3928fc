-- ===== src/Control/Client/Streams.antt =====
-- `Serve` of internal/control/client.go: the agent's loop over the streams that the hub opens, with the
-- goroutine that bridges each to the local sshd.
use sshhub.Base.Results.{ok, err}
use sshhub.Base.Results
use sshhub.Base.{
  ℕ, suc, ◌≤◌, ◌≡◌, Bool, true, not, List, [], ◌∷◌, Option, some, ltb, length, if◌then◌else◌,
  nat_eq, Bool-cases, inl, inr, arith,
}
use sshhub.Base.Dict.{
  Dict, lookup, insert, erase, lookup-insert, lookup-erase, length-insert, length-erase,
}
use sshhub.Text.{Str}
use sshhub.Control.Client.{is_local_sshd}

-- `make(chan struct{}, 64)`
abbrev pub serve_slots : ℕ
serve_slots = 64

-- The streams that are bridged, each with the address that is dialled for it.
pub record Bridges : Type 0 where
  pub streams : Dict ℕ Str
  pub next : ℕ

abbrev pub no_bridges : Bridges
no_bridges = record { streams = []; next = 0 }

pub data Event : Type 0 where
  -- The hub opens a stream.
  opens : Event
  -- `bridge` of the stream returns.
  returns : ℕ → Event

unfoldable pub step : Str → Event → Bridges → Bridges
step addr opens b =
    if ltb (length b.streams) serve_slots
    then record { streams = insert b.next addr b.streams; next = suc b.next }
    else record b { next = suc b.next }
step addr (returns n) b = record b { streams = erase n b.streams }

unfoldable pub run : Str → List Event → Bridges → Bridges
run addr [] b = b
run addr (e ∷ es) b = run addr es (step addr e b)

pub data ServeError : Type 0 where
  not_literal_loopback cannot_accept : ServeError

-- The loop ends when no stream can be accepted, without an error if the context is cancelled.
unfoldable pub serve :
    (Str → Option Bool) → Str → List Event → Bool → Bridges × Results.Result ServeError (Unit {0})
serve loopback addr es cancelled =
    if not (is_local_sshd loopback addr)
    then (no_bridges, err not_literal_loopback)
    else (run addr es no_bridges, if cancelled then ok tt else err cannot_accept)

-- Only the local sshd is dialled, for no more streams than there are slots.
pub record AllLocal (loopback : Str → Option Bool) (b : Bridges) : Type 0 where
  pub local : (n : ℕ) (a : Str) → lookup n b.streams ≡ some a → is_local_sshd loopback a ≡ true
  pub bounded : length b.streams ≤ serve_slots

module _ (loopback : Str → Option Bool) (addr : Str)
    (is_local : is_local_sshd loopback addr ≡ true) where
  opens-AllLocal : (b : Bridges) → AllLocal loopback b → AllLocal loopback (step addr opens b)
  unfolding step
  opens-AllLocal b h = elim (Bool-cases (ltb (length b.streams) serve_slots)) [
    | inr full ↦ rw full (record { local = h.local; bounded = h.bounded })
    | inl free ↦ rw free (record {
      local = λ n a e. ground (arith, lookup-insert n b.next addr b.streams, h.local n a, is_local);
      bounded = ground (arith, free, length-insert b.next addr b.streams);
    })
  ]

  run-AllLocal :
      (es : List Event) (b : Bridges) → AllLocal loopback b → AllLocal loopback (run addr es b)
  unfolding run step
  run-AllLocal [] b h = h
  run-AllLocal (opens ∷ es) b h = run-AllLocal es (step addr opens b) (opens-AllLocal b h)
  run-AllLocal (returns n ∷ es) b h = run-AllLocal es (step addr (returns n) b) (record {
    local = λ m a e. h.local m a (ground (arith, lookup-erase m n b.streams));
    bounded = omega (arith, length-erase n b.streams, h.bounded);
  })

-- Whatever streams the hub opens, in whatever order they end: the agent connects them to nothing but a
-- literal loopback address, and not more than 64 of them at a time.
pub serve-AllLocal :
    (loopback : Str → Option Bool) (addr : Str) (es : List Event) (cancelled : Bool)
    → AllLocal loopback (serve loopback addr es cancelled).0
unfolding serve lookup
serve-AllLocal loopback addr es cancelled = elim (Bool-cases (is_local_sshd loopback addr)) [
  | inr other ↦ rw other (record { local = λ n a e. absurd (cc); bounded = omega arith })
  | inl here ↦ rw here (
      run-AllLocal loopback addr here es no_bridges
        (record { local = λ n a e. absurd (cc); bounded = omega arith }))
]
