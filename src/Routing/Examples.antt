-- ===== src/Routing/Examples.antt =====
-- Runs of the router, and its theorems at concrete logins.
use Prim.Native.String.{String}
use sshhub.Base.{◌≡◌, refl, true, List, [], ◌∷◌, none, some, ◌↔◌, ℕ_discrete, Bool}
use sshhub.Text.{Str, codes}
use sshhub.Text.Cut.{last_index, take}
use sshhub.Config.{Route}
use sshhub.Routing.{Rule, new, parse_request, rule_matches, resolve_route, resolve}
use sshhub.Routing.Glob.{glob_match, loop, retry, byte_is, only_stars, fuel}
use sshhub.Routing.Glob.Meaning.{Matches, glob_match_iff, loop-total}

abbrev route_to : String → String → String → Route
route_to user host backend = record {
  match = record { username = codes user; hostname = codes host };
  backend = codes backend;
  username = codes user;
  hostname = codes host;
  end_user = [];
}

abbrev rules : List Rule
rules =
    new (route_to "alice" "web*" "node1" ∷ route_to "" "db" "node2" ∷ route_to "*" "" "node3" ∷ [])

abbrev login : Str
login = codes "alice@web12"

first_rule : resolve rules (parse_request login) ≡ some (codes "node1")
unfolding resolve resolve_route rule_matches glob_match loop retry byte_is only_stars new
    parse_request last_index take ℕ_discrete
first_rule = refl

empty_pattern : resolve rules (parse_request (codes "bob@db")) ≡ some (codes "node2")
unfolding resolve resolve_route rule_matches glob_match loop retry byte_is only_stars new
    parse_request last_index take ℕ_discrete
empty_pattern = refl

goes_back : glob_match (codes "a*bc*d") (codes "abbcbcxd") ≡ true
unfolding glob_match loop retry byte_is only_stars ℕ_discrete
goes_back = refl

glob_match_iff_example :
    (glob_match (codes "web*") (codes "web12") ≡ true) ↔ Matches (codes "web*") (codes "web12")
glob_match_iff_example = glob_match_iff (codes "web*") (codes "web12")

loop-total_example :
    (b : Bool) × (loop (fuel (codes "*a") (codes "ba")) (codes "*a") (codes "ba") 0 0 none ≡ some b)
loop-total_example = loop-total (codes "*a") (codes "ba")
