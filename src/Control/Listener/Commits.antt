-- ===== src/Control/Listener/Commits.antt =====
-- The goroutines of internal/control/server.go against its events taken one whole connection at a time.
use sshhub.Base.{
  ℕ, false, ◌≡◌, refl, sym, ap, subst, ◌∙◌, Bool, true, List, [], ◌∷◌, Option, none, some, nat_eq,
  ltb, length, Bool-cases, Option-cases, inl, inr,
}
use sshhub.Base.Dict.{lookup}
use sshhub.Text.{Str, str_eq}
use sshhub.Control.Registry.{RegisterRequest, register_conn, unregister}
use sshhub.Control.Server.{TokenResolver, Hub, register, enter, begin_conn, end_conn}
use sshhub.Control.Server
use sshhub.Control.Listener.{
  slots, Phase, registering, answered, serving, Listener, Event, accepts, no_session, registers,
  enters, closes, accept, drop, fail, answer, answer_at, place, enter_at, close_at, step, run,
}
use sshhub.Control.Registry.{open_stream}
use sshhub.Control.Refinement.{owners, claims_of, decide_all, reach, run-refines}
use sshhub.Control.Server.{empty_hub}
use sshhub.Control.Listener.{idle}
use sshhub.Control.Listener.Steps.{AllBring-any, step-Step, AllBring}
use sshhub.Control.Listener.Authority.{AllLicensed, Step-AllLicensed}

-- A connection counts where `registerConn` runs, and where its session closes.
unfoldable pub commit_enter : ℕ → ℕ → Str → Option Phase → Option Server.Event
commit_enter s now remote (some (answered id req)) = some (
    Server.arrives
      (record { session = s; now = now; remote_addr = remote; request = some req; writes = true }))
commit_enter s now remote _ = none

unfoldable pub commit_close : ℕ → Option Phase → Option Server.Event
commit_close s (some (serving id req)) = some (Server.closes s id)
commit_close s _ = none

unfoldable pub commit : Event → Listener → Option Server.Event
commit (enters s now remote) l = commit_enter s now remote (lookup s l.conns)
commit (closes s) l = commit_close s (lookup s l.conns)
commit _ l = none

unfoldable pub push : Option Server.Event → List Server.Event → List Server.Event
push none es = es
push (some e) es = e ∷ es

unfoldable pub commits : TokenResolver → Str → List Event → Listener → List Server.Event
commits resolve version [] l = []
commits resolve version (e ∷ es) l =
    let rest = commits resolve version es (step resolve version e l) in push (commit e l) rest

module _ (resolve : TokenResolver) (version : Str) where
  after : Option Server.Event → Hub → Hub
  after none h = h
  after (some e) h = Server.step resolve version e h

  run-push :
      (e : Option Server.Event) (es : List Server.Event) (h : Hub)
      → Server.run resolve version (push e es) h ≡ Server.run resolve version es (after e h)
  unfolding push Server.run after
  run-push none es h = refl
  run-push (some e) es h = refl

  fail-registry : (s : ℕ) (p : Option Phase) (l : Listener) → (fail s p l).registry ≡ l.registry
  unfolding fail drop
  fail-registry s none l = refl
  fail-registry s (some registering) l = refl
  fail-registry s (some (answered id req)) l = refl
  fail-registry s (some (serving id req)) l = refl

  accept-registry : (l : Listener) → (accept l).registry ≡ l.registry
  unfolding accept
  accept-registry l = elim (Bool-cases (ltb (length l.conns) slots)) [
    | inl free ↦ rw free refl
    | inr full ↦ rw full refl
  ]

  answer-registry :
      (s : ℕ) (req : Option RegisterRequest) (to : Option Str) (l : Listener)
      → (answer s req to l).registry ≡ l.registry
  unfolding answer drop
  answer-registry s none to l = refl
  answer-registry s (some req) none l = refl
  answer-registry s (some req) (some id) l = refl

  answer_at-registry :
      (s : ℕ) (req : Option RegisterRequest) (writes : Bool) (p : Option Phase) (l : Listener)
      → (answer_at resolve version s req writes p l).registry ≡ l.registry
  unfolding answer_at
  answer_at-registry s req writes none l = refl
  answer_at-registry s req writes (some registering) l =
      answer-registry s req (register resolve version writes req).1 l
  answer_at-registry s req writes (some (answered id q)) l = refl
  answer_at-registry s req writes (some (serving id q)) l = refl

  -- The code's `registerConn` is the one of the whole connection, if its request is one that `register`
  -- accepts for the backend.
  place-registry :
      (s now : ℕ) (remote id : Str) (req : RegisterRequest) (l : Listener) (h : Hub)
      → (register resolve version true (some req)).1 ≡ some id
      → h.registry ≡ l.registry
      → (place s id req (register_conn now id s req.host_key req remote l.registry) l).registry
        ≡ (after (commit_enter s now remote (some (answered id req))) h).registry
  unfolding after commit_enter Server.step begin_conn enter place drop
  place-registry s now remote id req l h good same =
      elim (Option-cases (register_conn now id s req.host_key req remote l.registry)) [
        | inl e ↦
            let e' : register_conn now id s req.host_key req remote h.registry ≡ none =
              subst (λ r. register_conn now id s req.host_key req remote r ≡ none) (sym same) e in
            rw (good, e, e', enter) (sym same)
        | inr (r, e) ↦
            let e' : register_conn now id s req.host_key req remote h.registry ≡ some r =
              subst (λ x. register_conn now id s req.host_key req remote x ≡ some r) (sym same) e in
            rw (good, e, e', enter) refl
      ]

  enter_at-registry :
      (s now : ℕ) (remote : Str) (p : Option Phase) (l : Listener) (h : Hub)
      → ((id : Str) (req : RegisterRequest)
          → p ≡ some (answered id req)
          → (register resolve version true (some req)).1 ≡ some id)
      → h.registry ≡ l.registry
      → (enter_at s now remote p l).registry ≡ (after (commit_enter s now remote p) h).registry
  unfolding enter_at commit_enter after
  enter_at-registry s now remote none l h good same = sym same
  enter_at-registry s now remote (some registering) l h good same = sym same
  enter_at-registry s now remote (some (answered id req)) l h good same =
      place-registry s now remote id req l h (good id req refl) same
  enter_at-registry s now remote (some (serving id req)) l h good same = sym same

  close_at-registry :
      (s : ℕ) (p : Option Phase) (l : Listener) (h : Hub)
      → h.registry ≡ l.registry
      → (close_at s p l).registry ≡ (after (commit_close s p) h).registry
  unfolding close_at commit_close after Server.step end_conn
  close_at-registry s none l h same = sym same
  close_at-registry s (some registering) l h same = sym same
  close_at-registry s (some (answered id req)) l h same = sym same
  close_at-registry s (some (serving id req)) l h same = ap (unregister id s) (sym same)

  step-commit :
      (Sent : ℕ → RegisterRequest → Type 0) (e : Event) (l : Listener) (h : Hub)
      → AllLicensed Sent resolve version l.conns
      → h.registry ≡ l.registry
      → (step resolve version e l).registry ≡ (after (commit e l) h).registry
  unfolding step commit after
  step-commit Sent accepts l h licensed same = accept-registry l ∙ sym same
  step-commit Sent (no_session s) l h licensed same =
      fail-registry s (lookup s l.conns) l ∙ sym same
  step-commit Sent (registers s req writes) l h licensed same =
      answer_at-registry s req writes (lookup s l.conns) l ∙ sym same
  step-commit Sent (enters s now remote) l h licensed same =
      enter_at-registry s now remote (lookup s l.conns) l h
        (λ id req e. (licensed s (answered id req) e).1) same
  step-commit Sent (closes s) l h licensed same = close_at-registry s (lookup s l.conns) l h same

-- From any state whose connections have requests that `register` accepts for their backends.
commits-registry :
    (Sent : ℕ → RegisterRequest → Type 0) (resolve : TokenResolver) (version : Str)
    (es : List Event) (l : Listener) (h : Hub)
    → AllBring Sent es
    → AllLicensed Sent resolve version l.conns
    → h.registry ≡ l.registry
    → (run resolve version es l).registry
      ≡ (Server.run resolve version (commits resolve version es l) h).registry
unfolding run commits Server.run
commits-registry Sent resolve version [] l h bring licensed same = sym same
commits-registry Sent resolve version (e ∷ es) l h (b, bs) licensed same =
    let l' = step resolve version e l in
    commits-registry Sent resolve version es l' (after resolve version (commit e l) h) bs
      (Step-AllLicensed Sent resolve version l l' (step-Step Sent resolve version l e b) licensed)
      (sym (step-commit resolve version Sent e l h licensed same))
    ∙ ap (λ (x : Hub). x.registry)
        (sym (run-push resolve version (commit e l) (commits resolve version es l') h))

-- The goroutines of different connections may interleave in every way: the registry of a hub that
-- starts with no agents is the one that results if each connection is handled at one blow where it
-- registers, and taken down at one blow where its session closes. So `Open` gives a stream over the
-- session of the owner, or the error that there is none, by the account of ownership that follows from
-- the agents' claims in the order in which they reach the registry.
pub run-commits :
    (resolve : TokenResolver) (version : Str) (es : List Event)
    → let cs = commits resolve version es idle in
      ((run resolve version es idle).registry ≡ (Server.run resolve version cs empty_hub).registry)
      × ((opens : ℕ → Bool) (id : Str)
          → open_stream false opens (run resolve version es idle).registry id
            ≡ reach opens (decide_all (claims_of resolve cs) (owners empty_hub.registry) id))
unfolding lookup
run-commits resolve version es =
    let same =
      commits-registry (λ s req. Unit) resolve version es idle empty_hub (AllBring-any es)
        (λ s p e. absurd (cc)) refl in
    (
      same,
      λ opens id.
          ap (λ r. open_stream false opens r id) same
          ∙ (run-refines resolve version (commits resolve version es idle) empty_hub).1 opens id,
    )
