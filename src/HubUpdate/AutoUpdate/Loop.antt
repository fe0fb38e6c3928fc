-- ===== src/HubUpdate/AutoUpdate/Loop.antt =====
-- What the loop of `StartAutoUpdater` in internal/hubupdate/update.go comes to.
use sshhub.Base.{
  ℕ, ◌≡◌, inl, inr, refl, sym, ap, ◌∙◌, true, false, List, [], ◌∷◌, Option, none, some, arith,
  nat_eq, All, Bool-cases, subst, ◌++◌, map,
}
use sshhub.Base.Int.{pos}
use sshhub.Text.{Str}
use sshhub.HubUpdate.AutoUpdate.{
  Outcome, nothing, failed, applied, reports, attempted, World, try_install, consider, act_on,
  apply_if_due_with, must_wait-false, Installable, apply_if_due_with-Installable, poll,
}

reports-try_install :
    (w : World) (latest : Str) → w.install latest ≡ true → try_install w latest ≡ applied latest
unfolding try_install
reports-try_install w latest h = rw h refl

-- A release that may be installed, and that the installer installs, is applied.
applies :
    (w : World) (soak : ℕ) (found : Option (Str × ℕ)) (tag : Str)
    → Installable w soak found tag
    → w.install tag ≡ true
    → act_on w soak found ≡ applied tag
unfolding act_on consider
applies w soak none tag i h = absurd i
applies w soak (some (latest, published)) tag (e, due) h =
    let soaked = (must_wait-false w soak latest published).1 due.soaked in
    let done = reports-try_install w latest (subst (λ t. w.install t ≡ true) e h) in
    rw (due.later, soaked) (done ∙ ap applied (sym e))

apply_if_due_with-applied :
    (w : World) (soak : ℕ) (tag : Str)
    → Installable w soak (w.check (pos soak)) tag
    → w.install tag ≡ true
    → apply_if_due_with (pos soak) w ≡ applied tag
unfolding apply_if_due_with
apply_if_due_with-applied w soak tag = applies w soak (w.check (pos soak)) tag

-- Nothing that may be installed at a check would be installed.
abbrev pub Fails : ℕ → World → Type 0
Fails soak w = (tag : Str) → Installable w soak (w.check (pos soak)) tag → w.install tag ≡ false

reports-applied : (o : Outcome) → reports o ≡ true → (tag : Str) × (o ≡ applied tag)
reports-applied nothing h = absurd (cc)
reports-applied (failed tag) h = absurd (cc)
reports-applied (applied tag) h = (tag, refl)

try_install-applied :
    (w : World) (latest tag : Str) → try_install w latest ≡ applied tag → w.install tag ≡ true
unfolding try_install
try_install-applied w latest tag h = ground arith

act_on-applied :
    (w : World) (soak : ℕ) (found : Option (Str × ℕ)) (tag : Str)
    → act_on w soak found ≡ applied tag
    → w.install tag ≡ true
unfolding act_on consider
act_on-applied w soak none tag h = absurd (cc)
act_on-applied w soak (some (latest, published)) tag h =
    try_install-applied w latest tag (ground arith)

Fails-reports :
    (soak : ℕ) (w : World) → Fails soak w → reports (apply_if_due_with (pos soak) w) ≡ false
unfolding apply_if_due_with
Fails-reports soak w fails =
    let o = act_on w soak (w.check (pos soak)) in
    elim (Bool-cases (reports o)) [
      | inr e ↦ e
      | inl e ↦
          let (tag, is) = reports-applied o e in
          let due = (apply_if_due_with-Installable w soak tag).0 (ap attempted is) in
          let installs = act_on-applied w soak (w.check (pos soak)) tag is in
          absurd (ground (arith, fails tag due))
    ]

-- The loop of the updater installs the first release that it can, and ends there: where a check finds
-- a release that may be installed, the installer installs it, and at each of the checks before it the
-- installer fails for what may be installed, if there is something, the outcomes of the loop are those
-- of the earlier checks, in order and each made, and then that this release is applied; no later check
-- is made.
pub poll-applies :
    (soak : ℕ) (before after : List World) (w : World) (tag : Str)
    → All (Fails soak) before
    → Installable w soak (w.check (pos soak)) tag
    → w.install tag ≡ true
    → poll (pos soak) (before ++ w ∷ after)
      ≡ map (apply_if_due_with (pos soak)) before ++ applied tag ∷ []
unfolding poll
poll-applies soak [] after w tag all due installs =
    rw (apply_if_due_with-applied w soak tag due installs) refl
poll-applies soak (v ∷ before) after w tag (fails, all) due installs =
    rw (Fails-reports soak v fails) (
      ap (λ os. apply_if_due_with (pos soak) v ∷ os)
        (poll-applies soak before after w tag all due installs))
