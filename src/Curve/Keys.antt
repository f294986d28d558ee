-- ===== src/Curve/Keys.antt =====
-- curve.rs, `scalar_multiply` and `generate_keypair`: what they refuse.
use oktz_signal.Base.{ℕ, zero, suc, ◌≡◌, ◌≢◌, refl, ap, ◌∙◌, false, List, [], ◌∷◌, arith}
use oktz_signal.Base.{Bool-cases, inl, inr, ◌⊎◌, length, ◌==◌, ==_iff, bit_or, replicate}
use oktz_signal.Base.{ok, err, wrong_length, non_contributory}
use oktz_signal.Crates.{Crates}
use oktz_signal.Curve.{check_len, scalar_multiply, or_fold}
use oktz_signal.Ratchet.Cbc.Padding.{bit_or_zero}

or_fold_zero :
    (acc : ℕ) (bytes : List ℕ)
    → or_fold acc bytes ≡ 0
    → (acc ≡ 0) × (bytes ≡ replicate (length bytes) 0)
or_fold_zero acc [] h = (h, refl)
or_fold_zero acc (b ∷ bytes) h =
    (let (p, q) = or_fold_zero (bit_or acc b) bytes h in
      let (a, z) = bit_or_zero acc b p in (a, ap (λ x. x ∷ bytes) z ∙ ap (◌∷◌ 0) q))

or_fold-zeros : (n : ℕ) → or_fold 0 (replicate n 0) ≡ 0
or_fold-zeros zero = refl
or_fold-zeros (suc n) = or_fold-zeros n

other : (a : ℕ) → a ≢ 32 → (a == 32) ≡ false
other a h = ground (arith, h)

module _ (c : Crates) where
  -- For a secret and a public key: a key whose length is not 32 is refused, the secret key
  -- first; with both of 32 bytes, the call fails as non-contributory when the shared secret
  -- consists of zeros, and otherwise returns the shared secret.
  pub scalar_multiply_cases :
      (secret_key public_key : List ℕ)
      → (length secret_key ≢ 32
          → scalar_multiply c secret_key public_key
            ≡ err (wrong_length "secret key" (length secret_key) 32))
        × (length secret_key ≡ 32
            → length public_key ≢ 32
            → scalar_multiply c secret_key public_key
              ≡ err (wrong_length "public key" (length public_key) 32))
        × (length secret_key ≡ 32
            → length public_key ≡ 32
            → ((n : ℕ) × (c.mul_clamped public_key secret_key ≡ replicate n 0)
                × (scalar_multiply c secret_key public_key ≡ err non_contributory))
              ⊎ (((n : ℕ) → c.mul_clamped public_key secret_key ≢ replicate n 0)
                  × (scalar_multiply c secret_key public_key
                      ≡ ok (c.mul_clamped public_key secret_key))))
  unfolding scalar_multiply check_len
  scalar_multiply_cases secret_key public_key = (
    λ n. rw (other (length secret_key) n, scalar_multiply, check_len) refl,
    λ l n. rw (l, scalar_multiply, check_len, other (length public_key) n) refl,
    λ l m. elim (Bool-cases (or_fold 0 (c.mul_clamped public_key secret_key) == 0)) [
      | inl z ↦ inl (
        length (c.mul_clamped public_key secret_key),
        (or_fold_zero 0 (c.mul_clamped public_key secret_key) ((==_iff _ 0).0 z)).1,
        rw (l, scalar_multiply, check_len, m, z) refl,
      )
      | inr z ↦ inr (
        λ n e. ground (arith, z, ap (or_fold 0) e ∙ or_fold-zeros n),
        rw (l, scalar_multiply, check_len, m, z) refl,
      )
    ],
  )
