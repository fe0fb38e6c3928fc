-- ===== src/Release/Names.antt =====
-- `ArtifactNames` of internal/release/release.go.
use mathlib.Core.Option.{none-ne-some}
use sshhub.Base.{
  ◌≡◌, ◌↔◌, refl, List, [], ◌∷◌, some, In, inl, inr, arith, ◌==◌, ==_iff, eq_self, Bool-cases,
  Option-cases,
}
use sshhub.Base.Dict.{Dict, lookup}
use sshhub.Text.{Str, str_eq, to_lower}
use sshhub.Text.Order.{sort_strings, sort_by-InOrder, InOrder}
use sshhub.Release.{Manifest, digest_for}

-- The loop over the map.
unfoldable pub keys : Dict Str Str → List Str
keys [] = []
keys ((name, digest) ∷ d) = name ∷ keys d

unfoldable pub artifact_names : Manifest → List Str
artifact_names m = sort_strings (keys m.artifacts)

names-lookup :
    (d : Dict Str Str) (s : Str) → In s (keys d) ↔ ((digest : Str) × (lookup s d ≡ some digest))
unfolding lookup keys
names-lookup [] s = (λ i. absurd i, λ (d, e). absurd (cc))
names-lookup ((name, digest) ∷ d) s = elim (Bool-cases (s == name)) [
  | inl same ↦ (λ i. (digest, rw same refl), λ h. inl ((==_iff s name).0 same))
  | inr other ↦ (
    λ i. elim i [
      | inl e ↦ absurd (ground (arith, e, eq_self s))
      | inr j ↦ let (w, e) = (names-lookup d s).0 j in (w, rw other e)
    ],
    λ (w, e). inr ((names-lookup d s).1 (w, rw other at e)),
  )
]

-- `ArtifactNames` lists exactly the names that the manifest has a digest for, in the order of the
-- names.
pub artifact_names-InOrder :
    (m : Manifest)
    → InOrder (λ (s : Str). s) (artifact_names m)
      × ((s : Str) → In s (artifact_names m) ↔ ((digest : Str) × (digest_for m s ≡ some digest)))
unfolding artifact_names sort_strings digest_for
artifact_names-InOrder m =
    let (sorted, same) = sort_by-InOrder (λ (s : Str). s) (keys m.artifacts) in
    (
      sorted,
      λ s. (
        λ i.
            let (d, e) = (names-lookup m.artifacts s).0 ((same s).0 i) in
            (to_lower d, rw (e, digest_for) refl),
        λ (w, e). elim (Option-cases (lookup s m.artifacts)) [
          | inl none_there ↦ absurd (none-ne-some w (rw (none_there, digest_for) at e))
          | inr (d, found) ↦ (same s).1 ((names-lookup m.artifacts s).1 (d, found))
        ],
      ),
    )
