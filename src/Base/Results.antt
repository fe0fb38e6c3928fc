-- ===== src/Base/Results.antt =====
-- Results with an error, the two shapes of an early return, and how a run that succeeds is taken apart.
use mathlib.Core.Path.{ap, ◌≡◌, refl}
use mathlib.Core.Logic.{◌≢◌}
use mathlib.Core.Bool.{Bool, true, false, not}
use mathlib.Core.Option.{Option, none, some}

pub data Result {ℓ κ} (E : Type ℓ) (A : Type κ) : Type (ℓ ⊔ κ) where
  ok : A → Result E A
  err : E → Result E A

module _ {ε} {E : Type ε} where
  infixl 5 ◌>>=◌ ◌>>◌
  abbrev pub ◌>>=◌ {ℓ κ} : {A : Type ℓ} {B : Type κ} → Result E A → (A → Result E B) → Result E B
  ok a >>= f = f a
  err e >>= f = err e

  abbrev pub ◌>>◌ {ℓ κ} : {A : Type ℓ} {B : Type κ} → Result E A → Result E B → Result E B
  m >> k = m >>= λ _. k

  -- `if bad { return err }`
  abbrev pub reject_if : Bool → E → Result E (Unit {0})
  reject_if true e = err e
  reject_if false e = ok tt

  abbrev pub or_fail {ℓ} : {A : Type ℓ} → Option A → E → Result E A
  or_fail none e = err e
  or_fail (some a) e = ok a

  pub err-ne-ok {ℓ} : {A : Type ℓ} {x : E} {a : A} → err x ≢ ok a
  err-ne-ok h = cc

  pub from_ok {ℓ} : {A : Type ℓ} {a b : A} → Path (Result E A) (ok a) (ok b) → a ≡ b
  from_ok h = cc

  pub bind_inv {ℓ κ} :
      {A : Type ℓ} {B : Type κ} {b : B} (m : Result E A) (f : A → Result E B)
      → (m >>= f) ≡ ok b
      → (a : A) × (m ≡ ok a) × (f a ≡ ok b)
  bind_inv (ok a) f h = (a, refl, h)
  bind_inv (err e) f h = absurd (err-ne-ok h)

  pub reject_if_inv {ℓ} :
      {A : Type ℓ} {a : A} (b : Bool) (e : E) (k : Result E A)
      → (reject_if b e >> k) ≡ ok a
      → (b ≡ false) × (k ≡ ok a)
  reject_if_inv true e k h = absurd (err-ne-ok h)
  reject_if_inv false e k h = (refl, h)

  pub or_fail_inv {ℓ κ} :
      {A : Type ℓ} {B : Type κ} {b : B} (o : Option A) (e : E) (k : A → Result E B)
      → (or_fail o e >>= k) ≡ ok b
      → (a : A) × (o ≡ some a) × (k a ≡ ok b)
  or_fail_inv none e k h = absurd (err-ne-ok h)
  or_fail_inv (some a) e k h = (a, refl, h)

  pub or_fail-ok {ℓ} : {A : Type ℓ} {a : A} (o : Option A) (e : E) → or_fail o e ≡ ok a → o ≡ some a
  or_fail-ok none e h = absurd (err-ne-ok h)
  or_fail-ok (some a) e h = ap some (from_ok h)

pub not-false : (b : Bool) → not b ≡ false → b ≡ true
not-false true h = refl
not-false false h = cc
