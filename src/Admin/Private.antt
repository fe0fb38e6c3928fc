-- ===== src/Admin/Private.antt =====
-- What the socket of internal/admin/admin.go lets see, and whom.
use sshhub.Base.Results.{ok}
use sshhub.Base.{ℕ, ◌≡◌, ◌↔◌, ◌⊎◌, refl, true, Option, none, some, inl, inr, arith}
use sshhub.Text.{Str}
use sshhub.Control.Registry.{Registry}
use sshhub.Admin.{Status, answer_status, owner_only, Host, remove_stale, chmod, bind, listen, query}

-- The hub serves its status exactly if the directory can be made, the socket bound and its mode set,
-- and no file of an earlier run stands in the way that cannot be removed; only the socket's owner can
-- then open it. A program that can dial the socket reads the state of the registry, if what JSON wrote
-- is read back.
pub listen-Private :
    (host : Host) (file : Option ℕ)
    → (((listen host file).1 ≡ ok tt) ↔ (
        (host.makes_dir ≡ true)
        × ((file ≡ none) ⊎ (host.removes ≡ true))
        × (host.binds ≡ true)
        × (host.chmods ≡ true)))
      × ((listen host file).1 ≡ ok tt → (listen host file).0 ≡ some owner_only)
      × ((encode : Status → Str) (decode : Str → Option Status) (version : Str) (started : ℕ)
            (r : Registry)
          → ((s : Status) → decode (encode s) ≡ some s)
          → query decode true (encode (answer_status version started r))
            ≡ ok (answer_status version started r))
unfolding listen bind chmod remove_stale query
listen-Private host none = (
  (λ h. (ground arith, inl refl, ground arith, ground arith), λ (d, f, b, c). ground arith),
  λ h. ground arith,
  λ encode decode version started r back. rw (back (answer_status version started r)) refl,
)
listen-Private host (some mode) = (
  (
    λ h. (ground arith, inr (ground arith), ground arith, ground arith),
    λ (d, f, b, c). elim f [ inl e ↦ absurd (cc) | inr removable ↦ ground arith ],
  ),
  λ h. ground arith,
  λ encode decode version started r back. rw (back (answer_status version started r)) refl,
)
