-- ===== src/Proxy/Examples.antt =====
-- A hub with an open user and one that needs a key, and the theorems on access at it.
use sshhub.Base.{◌≡◌, refl, false, List, [], ◌∷◌, Option, none, some, ℕ_discrete, arith}
use sshhub.Text.{Str, codes, str_eq, trim_space, trim_left, trim_right}
use sshhub.Config.{JumpUser}
use sshhub.Config.Validate.{ParsedKey}
use sshhub.RateLimit.{Limiter, Handle, new, default_config}
use sshhub.Proxy.{is_open_jump_user, key_matches, any_key, authorize, passes_gate, handle}
use sshhub.Proxy.Serve.{Front, Event, connects, shakes_hands, ends, run}
use sshhub.Proxy.Serve.Slots.{Balanced, pending, run-Balanced}

abbrev open_user : JumpUser
open_user = record { name = codes "any"; keys = []; backends = codes "web" ∷ [] }

abbrev ann : JumpUser
ann = record { name = codes "ann"; keys = codes "k" ∷ []; backends = codes "web" ∷ [] }

abbrev users : List JumpUser
users = open_user ∷ ann ∷ []

abbrev parse_key : Str → Option ParsedKey
parse_key text = some (record { wire = text; options = []; rest = [] })

with_key : authorize parse_key users (codes "ann") (codes "k") ≡ some (codes "ann")
unfolding authorize any_key key_matches trim_space trim_left trim_right str_eq ℕ_discrete
with_key = refl

abbrev limiter : Limiter
limiter = new default_config

abbrev first : Handle
first = record { owner = codes "10.0.0.1"; done = false }

-- Without a key the handshake can complete, since another user is open, but the gate stays shut.
without_key : (handle users (codes "ann") (some none) first (codes "10.0.0.1") 1 limiter).0 ≡ false
unfolding handle passes_gate is_open_jump_user str_eq ℕ_discrete
without_key = refl

abbrev idle : Front
idle = record { limiter = limiter; conns = []; next_id = 0 }

idle-Balanced : Balanced idle
unfolding pending new
idle-Balanced = record { exact = λ k. refl; bounded = omega arith }

-- Two connections of one source: the first serves, and the handshake of the second fails.
abbrev traffic : List Event
traffic =
    connects (codes "10.0.0.1") 1
    ∷ connects (codes "10.0.0.1") 2
    ∷ shakes_hands 0 (codes "any") (some none) 3
    ∷ shakes_hands 1 (codes "ann") none 4
    ∷ ends 0
    ∷ []

run-Balanced_example : Balanced (run users traffic idle)
run-Balanced_example = run-Balanced users traffic idle idle-Balanced
