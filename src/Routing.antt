-- ===== src/Routing.antt =====
-- internal/routing/routing.go: which backend a login `user@host` goes to.
pub mod Glob
pub mod Order
mod Examples
use sshhub.Base.{
  ℕ, suc, Bool, true, false, ◌&&◌, List, [], ◌∷◌, Option, none, some, drop, if◌then◌else◌,
}
use sshhub.Text.{Str, codes, is_empty}
use sshhub.Text.Cut.{last_index, take}
use sshhub.Config.{Route}
use Glob.{glob_match}

pub record Rule : Type 0 where
  pub username_pattern : Str
  pub hostname_pattern : Str
  pub route : Route

unfoldable pub normalize : Str → Str
normalize p = if is_empty p then codes "*" else p

unfoldable pub new : List Route → List Rule
unfolding normalize
new [] = []
new (rt ∷ rts) =
    record {
      username_pattern = normalize rt.match.username;
      hostname_pattern = normalize rt.match.hostname;
      route = rt;
    }
    ∷ new rts

pub record Request : Type 0 where
  pub username : Str
  pub hostname : Str

unfoldable pub parse_request : Str → Request
parse_request user = elim (last_index user b'@') [
  | none ↦ record { username = user; hostname = [] }
  | some i ↦ record { username = take i user; hostname = drop (suc i) user }
]

unfoldable pub rule_matches : Rule → Request → Bool
rule_matches rl req =
    glob_match rl.username_pattern req.username && glob_match rl.hostname_pattern req.hostname

unfoldable pub resolve_route : List Rule → Request → Option Route
resolve_route [] req = none
resolve_route (rl ∷ rls) req = if rule_matches rl req then some rl.route else resolve_route rls req

unfoldable pub resolve : List Rule → Request → Option Str
resolve rules req = elim (resolve_route rules req) [ none ↦ none | some rt ↦ some rt.backend ]
