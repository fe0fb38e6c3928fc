-- ===== src/Base/Int.antt =====
-- Go's signed `int` and `time.Duration` as integers; `negsuc n` is -(n + 1).
use Prim.Native.Nat.{ℕ}
use mathlib.Core.Path.{ap}
use mathlib.Core.Logic.{dite}
use native.Mathlib.Omega.{arith}
use sshhub.Base.Tests.{Eq}
use native.Mathlib.Decide.{ℕ_discrete}

pub data ℤ : Type 0 where
  pos : ℕ → ℤ
  negsuc : ℕ → ℤ

ℤ-discrete : Discrete ℤ
ℤ-discrete (pos m) (pos n) =
    dite (ℕ_discrete m n) (λ e. yes (ap pos e)) (λ d. no (λ e. d (ground arith)))
ℤ-discrete (pos m) (negsuc n) = no (λ e. ground arith)
ℤ-discrete (negsuc m) (pos n) = no (λ e. ground arith)
ℤ-discrete (negsuc m) (negsuc n) =
    dite (ℕ_discrete m n) (λ e. yes (ap negsuc e)) (λ d. no (λ e. d (ground arith)))

instance unfoldable pub int_eq : Eq ℤ
unfolding ℤ-discrete ℕ_discrete
int_eq = record { dec = ℤ-discrete }
