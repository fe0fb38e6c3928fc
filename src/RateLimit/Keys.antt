-- ===== src/RateLimit/Keys.antt =====
-- The key under which internal/ratelimit/ratelimit.go keeps a source.
use sshhub.Base.{◌≡◌, ◌++◌, ◌∷◌, some}
use sshhub.Text.{Str}
use sshhub.Text.Host.{split_host_port-append, IsPlain}
use sshhub.RateLimit.{key}

-- A peer's key is its host, whatever port it connects from, so that it cannot evade its limits by
-- taking another port. The host and the port hold no colon and no bracket.
key-port : (h p : Str) → IsPlain h → IsPlain p → key (some (h ++ b':' ∷ p)) ≡ h
unfolding key
key-port h p ih ip = rw (split_host_port-append h p ih ip, key)
