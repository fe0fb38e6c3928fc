-- ===== src/Routing/Order.antt =====
-- Which route internal/routing/routing.go chooses for a login.
use sshhub.Base.{
  ◌≡◌, refl, ap, true, false, List, [], ◌∷◌, ◌++◌, Option, none, some, arith, All, ◌↔◌, ◌⊎◌, inl,
  inr, Bool-cases, ◌≢◌,
}
use sshhub.Text.{Str, codes}
use sshhub.Text.Cut.{
  has_byte, last_index-none, last_index-append, take-length-append, drop-length-append,
}
use sshhub.Config.{Route}
use sshhub.Routing.{Rule, Request, normalize, parse_request, rule_matches, resolve_route}
use sshhub.Routing.Glob.Meaning.{Matches, ends, skip_star, feed_star, glob_match_iff}

-- A login `user@host` is split at its last `@`, and one without `@` is all user name.
parse_request-append :
    (u h : Str)
    → has_byte h b'@' ≡ false
    → (parse_request (u ++ b'@' ∷ h) ≡ record { username = u; hostname = h })
      × (parse_request h ≡ record { username = h; hostname = [] })
unfolding parse_request
parse_request-append u h none_left = (
  rw (last_index-append u h b'@' none_left, parse_request)
      (ground (arith, take-length-append u (b'@' ∷ h), drop-length-append u h b'@')),
  rw (last_index-none h b'@' none_left, parse_request),
)

-- Both patterns of the rule match the login.
abbrev pub Applies : Rule → Request → Type 0
Applies rl req = Matches rl.username_pattern req.username × Matches rl.hostname_pattern req.hostname

rule_matches_iff : (rl : Rule) (req : Request) → (rule_matches rl req ≡ true) ↔ Applies rl req
unfolding rule_matches
rule_matches_iff rl req =
    let u = glob_match_iff rl.username_pattern req.username in
    let h = glob_match_iff rl.hostname_pattern req.hostname in
    (λ e. (u.0 (ground arith), h.0 (ground arith)), λ a. ground (arith, u.1 a.0, h.1 a.1))

-- What a search in order is to find.
abbrev pub FirstMatch : List Rule → Request → Option Route → Type 0
FirstMatch rules req none = All (λ rl. ¬ Applies rl req) rules
FirstMatch rules req (some rt) =
    (earlier : List Rule) × (rl : Rule) × (later : List Rule) × (rules ≡ earlier ++ rl ∷ later)
    × (rl.route ≡ rt)
    × Applies rl req
    × All (λ r. ¬ Applies r req) earlier

FirstMatch-cons :
    (rl : Rule) (rules : List Rule) (req : Request) (found : Option Route)
    → ¬ Applies rl req
    → FirstMatch rules req found
    → FirstMatch (rl ∷ rules) req found
FirstMatch-cons rl rules req none n f = (n, f)
FirstMatch-cons rl rules req (some rt) n (earlier, r, later, e, same, a, others) =
    (rl ∷ earlier, r, later, ap (◌∷◌ rl) e, same, a, (n, others))

-- `ResolveRoute` returns the route of the first rule whose two patterns match the login, and nothing
-- only if no rule's patterns do.
pub resolve_route-FirstMatch :
    (rules : List Rule) (req : Request) → FirstMatch rules req (resolve_route rules req)
unfolding resolve_route
resolve_route-FirstMatch [] req = tt
resolve_route-FirstMatch (rl ∷ rules) req = elim (Bool-cases (rule_matches rl req)) [
  | inl e ↦ rw e ([], rl, rules, refl, refl, (rule_matches_iff rl req).0 e, tt)
  | inr e ↦ rw e (
      FirstMatch-cons rl rules req (resolve_route rules req)
        (λ a. ground (arith, (rule_matches_iff rl req).1 a)) (resolve_route-FirstMatch rules req))
]

Matches-star : (s : Str) → Matches (codes "*") s
Matches-star [] = skip_star refl ends
Matches-star (c ∷ s) = feed_star refl (Matches-star s)

-- A pattern of a route that is left empty matches every text; another matches as it is written.
normalize-Matches : (p s : Str) → Matches (normalize p) s ↔ ((p ≡ []) ⊎ ((p ≢ []) × Matches p s))
unfolding normalize
normalize-Matches [] s = (λ m. inl refl, λ _. Matches-star s)
normalize-Matches (c ∷ p) s = (λ m. inr (λ e. cc, m), elim [ inl e ↦ cc | inr (n, m) ↦ m ])
