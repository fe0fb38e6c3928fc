-- ===== src/Text/Decimal.antt =====
-- `%d` of a number that is not negative.
use sshhub.Base.{
  ℕ, zero, suc, ◌+◌, ◌-◌, ◌*◌, ◌/◌, ◌%◌, ◌<◌, ◌≡◌, ◌∙◌, ap, true, false, [], ◌∷◌, if◌then◌else◌,
  ◌==◌, nat_eq, arith, Bool-cases, inl, inr,
}
use sshhub.Text.{Str}

-- The last digit.
abbrev pub digit : ℕ → ℕ
digit n = 48 + n % 10

-- The digits of `n` in front of `acc`; a number has no more digits than it is large.
unfoldable pub digits : ℕ → ℕ → Str → Str
digits zero n acc = acc
digits (suc fuel) n acc =
    let longer = digits fuel (n / 10) (digit n ∷ acc) in
    if n / 10 == 0 then digit n ∷ acc else longer

unfoldable pub decimal : ℕ → Str
decimal n = digits (suc n) n []

-- The number that digits stand for, behind those that make `n`.
abbrev pub value : ℕ → Str → ℕ
value n [] = n
value n (c ∷ s) = value (n * 10 + (c - 48)) s

digits-value : (fuel n : ℕ) (acc : Str) → n < fuel → value 0 (digits fuel n acc) ≡ value n acc
unfolding digits
digits-value zero n acc h = absurd (omega arith)
digits-value (suc fuel) n acc h = elim (Bool-cases (n / 10 == 0)) [
  | inl last ↦ rw last (ap (λ m. value m acc) (one_digit last))
  | inr more ↦
      rw more
        (digits-value fuel (n / 10) (digit n ∷ acc) (shorter more) ∙ ap (λ m. value m acc) joined)
]
  where
    one_digit : (n / 10 == 0) ≡ true → 0 * 10 + (48 + n % 10 - 48) ≡ n
    one_digit e = ground arith

    shorter : (n / 10 == 0) ≡ false → n / 10 < fuel
    shorter e = ground arith

    joined : n / 10 * 10 + (48 + n % 10 - 48) ≡ n
    joined = omega arith

-- The digits that are printed stand for the number.
pub decimal-value : (n : ℕ) → value 0 (decimal n) ≡ n
unfolding decimal
decimal-value n = digits-value (suc n) n [] (omega arith)
