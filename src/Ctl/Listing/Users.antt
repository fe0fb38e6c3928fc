-- ===== src/Ctl/Listing/Users.antt =====
-- The end users that "list" of cmd/sshhub-ctl/main.go shows for a backend.
use sshhub.Base.{
  ◌≡◌, refl, Bool, false, ◌&&◌, ◌||◌, List, [], ◌∷◌, ◌++◌, arith, ◌==◌, contains, Bool-cases, inl,
  inr,
}
use sshhub.Text.{Str, is_empty, str_eq}
use sshhub.Config.{Route}
use sshhub.Config.Routes.{resolved_end_user}
use sshhub.Ctl.Listing.{add_user, end_users}

-- Some route leads to the backend as this user.
unfoldable pub leads : Str → Str → List Route → Bool
leads id u [] = false
leads id u (r ∷ rs) = (r.backend == id && u == resolved_end_user r) || leads id u rs

-- No entry stands twice.
abbrev pub Once : List Str → Type 0
Once [] = Unit
Once (x ∷ xs) = (contains xs x ≡ false) × Once xs

contains-append :
    (us : List Str) (v u : Str) → contains (us ++ v ∷ []) u ≡ (contains us u || u == v)
unfolding contains
contains-append [] v u = ground arith
contains-append (x ∷ us) v u = ground (arith, contains-append us v u)

Once-append : (us : List Str) (v : Str) → Once us → contains us v ≡ false → Once (us ++ v ∷ [])
unfolding contains
Once-append [] v h n = (refl, tt)
Once-append (x ∷ us) v (fresh, h) n =
    (ground (arith, contains-append us v x), Once-append us v h (ground arith))

add_user-contains :
    (v u : Str) (us : List Str)
    → is_empty v ≡ false
    → contains (add_user v us) u ≡ (contains us u || u == v)
unfolding add_user
add_user-contains v u us full = elim (Bool-cases (contains us v)) [
  | inl there ↦ rw there (ground arith)
  | inr new ↦ rw (new, full) (contains-append us v u)
]

add_user-Once : (v : Str) (us : List Str) → is_empty v ≡ false → Once us → Once (add_user v us)
unfolding add_user
add_user-Once v us full h = elim (Bool-cases (contains us v)) [
  | inl there ↦ rw there h
  | inr new ↦ rw (new, full) (Once-append us v h new)
]

resolved_end_user-full : (r : Route) → is_empty (resolved_end_user r) ≡ false
unfolding resolved_end_user
resolved_end_user-full r = ground arith

-- The users that are shown for a backend are those that some route to it leads to, each once.
pub end_users-leads :
    (id : Str) (rs : List Route) (us : List Str)
    → Once us
    → Once (end_users id rs us)
      × ((u : Str) → contains (end_users id rs us) u ≡ (contains us u || leads id u rs))
unfolding end_users leads
end_users-leads id [] us h = (h, λ u. ground arith)
end_users-leads id (r ∷ rs) us h = elim (Bool-cases (r.backend == id)) [
  | inl here ↦
      let full = resolved_end_user-full r in
      let (once, same) =
        end_users-leads id rs (add_user (resolved_end_user r) us)
          (add_user-Once (resolved_end_user r) us full h) in
      rw here (once, λ u. ground (arith, same u, add_user-contains (resolved_end_user r) u us full))
  | inr elsewhere ↦ rw elsewhere (end_users-leads id rs us h)
]
