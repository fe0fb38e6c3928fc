-- ===== src/HubTls/Pin.antt =====
-- Which hub an agent accepts that pins a key by internal/hubtls/hubtls.go.
use sshhub.Base.Results.{ok, err-ne-ok, from_ok, bind_inv, or_fail_inv}
use sshhub.Base.{
  ℕ, ◌≡◌, ◌↔◌, refl, sym, ap, true, false, List, [], ◌∷◌, none, some, arith, length, ◌==◌, ==_iff,
  nat_eq, Bool-cases, ◌⊎◌, inl, inr, bit_or, bit_xor,
}
use sshhub.Base.Bits.{bit_or-zero, bit_xor-zero}
use sshhub.Text.{Str, str_eq}
use sshhub.HubTls.{
  Crypto, Certificate, TlsConfig, Result, differences, constant_time_equal, fingerprint, parse_pin,
  verify_pin, client_config,
}

differences-zero :
    (diff : ℕ) (a b : Str)
    → length a ≡ length b
    → (differences diff a b ≡ 0) ↔ ((diff ≡ 0) × (a ≡ b))
unfolding differences
differences-zero diff [] [] e = (λ h. (h, refl), λ (h, _). h)
differences-zero diff [] (y ∷ b) e = absurd (omega (arith, e))
differences-zero diff (x ∷ a) [] e = absurd (omega (arith, e))
differences-zero diff (x ∷ a) (y ∷ b) e =
    let tail = differences-zero (bit_or diff (bit_xor x y)) a b (omega (arith, e)) in
    let head = bit_or-zero diff (bit_xor x y) in
    let bytes = bit_xor-zero x y in
    (
      λ h.
          let (clear, same) = tail.0 h in
          let (before, now) = head.0 clear in let same_byte = bytes.0 now in (before, cc),
      λ (before, same). tail.1 (head.1 (before, bytes.1 (ground arith)), ground arith),
    )

-- The comparison without early exit is equality of texts.
constant_time_equal_iff : (a b : Str) → (constant_time_equal a b ≡ true) ↔ (a ≡ b)
unfolding constant_time_equal
constant_time_equal_iff a b = (
  λ h. elim (Bool-cases (length a == length b)) [
    | inr other ↦ absurd (ground arith)
    | inl same ↦
        ((differences-zero 0 a b ((==_iff (length a) (length b)).0 same)).0
          ((==_iff (differences 0 a b) 0).0 (ground arith))).1
  ],
  λ e.
      let zero_diff = (differences-zero 0 a b (ap length e)).1 (refl, e) in
      ground (arith, zero_diff, ap length e),
)

-- The first certificate that is presented has the pinned key.
abbrev pub HasPin : Crypto → Str → List Str → Type 0
HasPin c pin [] = ⊥
HasPin c pin (raw ∷ more) =
    (cert : Certificate) × (c.parse_certificate raw ≡ some cert) × (fingerprint c cert ≡ pin)

pub verify_pin_iff :
    (c : Crypto) (pin : Str) (certs : List Str)
    → (verify_pin c pin certs ≡ ok tt) ↔ HasPin c pin certs
unfolding verify_pin
verify_pin_iff c pin [] = (λ h. absurd (err-ne-ok h), λ h. absurd h)
verify_pin_iff c pin (raw ∷ more) = (
  λ h.
      let (cert, parsed, h1) = or_fail_inv (c.parse_certificate raw) _ _ h in
      elim (Bool-cases (constant_time_equal (fingerprint c cert) pin)) [
        | inl same ↦ (cert, parsed, (constant_time_equal_iff (fingerprint c cert) pin).0 same)
        | inr other ↦ absurd (err-ne-ok (rw other at h1))
      ],
  λ (cert, parsed, same).
      rw (parsed, (constant_time_equal_iff (fingerprint c cert) pin).1 same) refl,
)

-- An agent that is given a pin has a TLS configuration only for a well-formed pin, and then accepts
-- exactly the connections on which the first certificate parses and its key has that pin; the usual
-- checks are off. Without a pin they are on, and there is no check of a pin.
pub client_config-HasPin :
    (c : Crypto) (server_name pin : Str) (cfg : TlsConfig)
    → client_config c server_name pin ≡ ok cfg
    → ((pin ≡ []) × (cfg.insecure_skip_verify ≡ false) × (cfg.verify_peer_certificate ≡ none))
      ⊎ ((raw : Str) × (parse_pin c pin ≡ ok raw)
          × (cfg.insecure_skip_verify ≡ true)
          × ((check : List Str → Result (Unit {0})) × (cfg.verify_peer_certificate ≡ some check)
              × ((certs : List Str) → (check certs ≡ ok tt) ↔ HasPin c pin certs)))
unfolding client_config
client_config-HasPin c server_name [] cfg h =
    let same = from_ok h in
    inl (
      refl,
      sym (ap (λ (x : TlsConfig). x.insecure_skip_verify) same),
      sym (ap (λ (x : TlsConfig). x.verify_peer_certificate) same),
    )
client_config-HasPin c server_name (b ∷ pin) cfg h =
    let (raw, parsed, h1) = bind_inv (parse_pin c (b ∷ pin)) _ h in
    let same = from_ok h1 in
    inr (
      raw,
      parsed,
      sym (ap (λ (x : TlsConfig). x.insecure_skip_verify) same),
      (
        verify_pin c (b ∷ pin),
        sym (ap (λ (x : TlsConfig). x.verify_peer_certificate) same),
        verify_pin_iff c (b ∷ pin),
      ),
    )
