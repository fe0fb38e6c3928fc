-- ===== src/Control/Listener/Life.antt =====
-- What the goroutine of one connection of internal/control/server.go goes through, whatever the others
-- do.
use sshhub.Base.{ℕ, ◌≡◌, true, List, [], ◌∷◌, Option, none, some, nat_eq, ◌⊎◌}
use sshhub.Base.Dict.{lookup}
use sshhub.Text.{Str}
use sshhub.Control.Registry.{RegisterRequest}
use sshhub.Control.Server.{TokenResolver, register}
use sshhub.Control.Listener.{Phase, registering, answered, serving, Listener, Event, step}

-- One move of a connection: it is accepted, refused, or answered with the backend that its request is
-- good for; it is turned away or put in the registry under that backend; and it goes.
pub data Move (resolve : TokenResolver) (version : Str) : Option Phase → Option Phase → Type 0 where
  comes : Move resolve version none (some registering)
  fails : Move resolve version (some registering) none
  is_granted :
      (id : Str) (req : RegisterRequest)
      → (register resolve version true (some req)).1 ≡ some id
      → Move resolve version (some registering) (some (answered id req))
  turned_away :
      (id : Str) (req : RegisterRequest) → Move resolve version (some (answered id req)) none
  serves :
      (id : Str) (req : RegisterRequest)
      → Move resolve version (some (answered id req)) (some (serving id req))
  goes : (id : Str) (req : RegisterRequest) → Move resolve version (some (serving id req)) none

-- Phases that follow a first one, in order: each is the one before it or one move on from it.
pub data Life (resolve : TokenResolver) (version : Str)
    : Option Phase → List (Option Phase) → Type 0 where
  ends : (p : Option Phase) → Life resolve version p []
  rests :
      (p : Option Phase) (ps : List (Option Phase))
      → Life resolve version p ps
      → Life resolve version p (p ∷ ps)
  goes_on :
      (p q : Option Phase) (ps : List (Option Phase))
      → Move resolve version p q
      → Life resolve version q ps
      → Life resolve version p (q ∷ ps)

-- The phase of a session after each event of a run.
unfoldable pub phases : TokenResolver → Str → List Event → Listener → ℕ → List (Option Phase)
phases resolve version [] l s = []
phases resolve version (e ∷ es) l s =
    let l' = step resolve version e l in lookup s l'.conns ∷ phases resolve version es l' s

-- The last phase, or the first one where none follows.
unfoldable pub last_phase : Option Phase → List (Option Phase) → Option Phase
last_phase p [] = p
last_phase p (q ∷ ps) = last_phase q ps

module _ (Sent : ℕ → RegisterRequest → Type 0) (resolve : TokenResolver) (version : Str) where
  -- What an entry of the connections becomes.
  abbrev Moved : Option Phase → Option Phase → Type 0
  Moved p q = (q ≡ p) ⊎ Move resolve version p q
