-- ===== src/HubUpdate/Version/Examples.antt =====
-- Versions compared, and the theorems on `IsNewer` at concrete versions.
use sshhub.Base.{◌≡◌, ◌≢◌, ◌↔◌, refl, true, false, ℕ_discrete}
use sshhub.Text.{codes, trim_space, trim_prefix}
use sshhub.Text.Cut.{split, before}
use sshhub.HubUpdate.Version.{
  atoi, compare_parts, parts, compare_versions, clean, is_newer, is_digit, max_int,
}
use sshhub.HubUpdate.Version.Order.{IsLater, is_newer_strict}

ten_after_nine : is_newer (codes "v0.10.0") (codes "0.9.1") ≡ true
unfolding is_newer clean trim_space trim_prefix compare_versions parts split before compare_parts
    atoi is_digit ℕ_discrete
ten_after_nine = refl

pre_release_ignored : is_newer (codes "1.0.0-rc1") (codes "1.0.0") ≡ false
unfolding is_newer clean trim_space trim_prefix compare_versions parts split before compare_parts
    atoi is_digit ℕ_discrete
pre_release_ignored = refl

-- A version with a component that is no number can be newer than a proper one.
malformed_is_newer : is_newer (codes "1.x.0") (codes "0.9.0") ≡ true
unfolding is_newer clean trim_space trim_prefix compare_versions parts split before compare_parts
    atoi is_digit ℕ_discrete
malformed_is_newer = refl

-- What comes after a number that is too large does not make it a malformed one.
too_large : atoi (codes "99999999999999999999x") ≡ max_int
unfolding atoi is_digit
too_large = refl

is_newer_strict_example :
    ((is_newer (codes "3.0") (codes "2.0") ≡ true) ↔ IsLater (codes "3.0") (codes "2.0"))
    × (is_newer (codes "3.0") (codes "3.0") ≢ true)
    × (is_newer (codes "3.0") (codes "2.0") ≡ true → is_newer (codes "2.0") (codes "3.0") ≢ true)
    × (is_newer (codes "3.0") (codes "2.0") ≡ true
        → is_newer (codes "2.0") (codes "1.0") ≡ true
        → is_newer (codes "3.0") (codes "1.0") ≡ true)
is_newer_strict_example = is_newer_strict (codes "3.0") (codes "2.0") (codes "1.0")
