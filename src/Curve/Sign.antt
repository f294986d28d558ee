-- ===== src/Curve/Sign.antt =====
-- curve.rs, `sign_internal` and `verify`: the sign bit of the public key on its way through the
-- last byte of the signature.
use oktz_signal.Base.{ℕ, ◌+◌, ◌/◌, ◌*◌, ◌<◌, ◌≡◌, refl, ap, arith}
use oktz_signal.Base.{List, ◌++◌, length, length-append, some, ok, bit_and, bit_or}
use oktz_signal.Base.Bits.{bit_or_high, bit_and_80, bit_and_7f}
use oktz_signal.Curve.{Dalek, check_len, modify, byte_at, clamp_scalar, base_mult_scalar}
use oktz_signal.Curve.{challenge, nonce_rnd, sign_internal, verify}
use oktz_signal.Curve.Bytes.{length-modify, byte_at-modify, modify-modify, byte_at-append}

sum_of : (b x : ℕ) → b < 128 → x < 256 → bit_or b (bit_and x 128) ≡ b + x / 128 * 128
sum_of b x hb hx = rw (bit_and_80 x hx) (bit_or_high 7 (x / 128) b hb)

keeps_sign : (b x : ℕ) → b < 128 → x < 256 → bit_and (bit_or b (bit_and x 128)) 128 / 128 ≡ x / 128
keeps_sign b x hb hx =
    rw (sum_of b x hb hx) (omega (arith, bit_and_80 (b + x / 128 * 128) (omega arith)))

keeps_byte : (b x : ℕ) → b < 128 → x < 256 → bit_and (bit_or b (bit_and x 128)) 127 ≡ b
keeps_byte b x hb hx = rw (sum_of b x hb hx) (omega (arith, bit_and_7f (b + x / 128 * 128)))

-- What curve25519-dalek says of its encodings: 32 bytes each, and a scalar is below 2 ^ 253.
pub record IsEncoded (d : Dalek) : Type 0 where
  pub length-compress : (p : d.EdwardsPoint) → length (d.compress p) ≡ 32
  pub last_byte : (p : d.EdwardsPoint) → byte_at 31 (d.compress p) < 256
  pub length-to_bytes : (s : d.Scalar) → length (d.to_bytes s) ≡ 32
  pub scalar_reduced : (s : d.Scalar) → byte_at 31 (d.to_bytes s) < 128

module _ (d : Dalek) where
  -- The signature before the sign bit is put into it.
  abbrev pub plain : List ℕ → List ℕ → List ℕ → List ℕ
  plain sk_raw msg rnd = do
    let sk = clamp_scalar sk_raw
    let a = d.from_bytes_mod_order sk
    let r = nonce_rnd d sk msg rnd
    let h = challenge d (base_mult_scalar d r) (base_mult_scalar d a) msg
    base_mult_scalar d r ++ d.to_bytes (d.add r (d.mul h a))

  -- The Edwards point of the public key.
  abbrev pub signer : List ℕ → d.EdwardsPoint
  signer sk_raw = d.base_mul (d.from_bytes_mod_order (clamp_scalar sk_raw))

module _ (d : Dalek) (encoded : IsEncoded d) where
  length-halves : (p : d.EdwardsPoint) (s : d.Scalar) → length (d.compress p ++ d.to_bytes s) ≡ 64
  length-halves p s = omega (
    arith,
    length-append (d.compress p) (d.to_bytes s),
    encoded.length-compress p,
    encoded.length-to_bytes s,
  )

  last_reduced :
      (p : d.EdwardsPoint) (s : d.Scalar) → byte_at 63 (d.compress p ++ d.to_bytes s) < 128
  last_reduced p s =
      rw (← (ap (λ n. byte_at (n + 31) (d.compress p ++ d.to_bytes s)) (encoded.length-compress p)))
        (rw (byte_at-append (d.compress p) (d.to_bytes s) 31) (encoded.scalar_reduced s))

  -- On 64 bytes the last of which is below 128, `verify` finds the sign that was put in, and hands
  -- on the bytes without it.
  verify_signed :
      (public_key msg sig : List ℕ) (x : ℕ) (p : d.EdwardsPoint) (vk : d.VerifyingKey)
      → length public_key ≡ 32
      → length sig ≡ 64
      → byte_at 63 sig < 128
      → x < 256
      → d.to_edwards public_key (x / 128) ≡ some p
      → d.verifying_key (d.compress p) ≡ some vk
      → verify d public_key msg (modify 63 (λ b. bit_or b (bit_and x 128)) sig)
        ≡ ok (d.verify_strict vk msg sig)
  unfolding verify check_len
  verify_signed public_key msg sig x p vk lp ls low hx point key =
      rw
        (
          lp,
          length-modify 63 (λ b. bit_or b (bit_and x 128)) sig,
          ls,
          byte_at-modify 63 (λ b. bit_or b (bit_and x 128)) sig (omega (arith, ls)),
          keeps_sign (byte_at 63 sig) x low hx,
          point,
          key,
          modify-modify 63 (λ b. bit_or b (bit_and x 128)) (λ b. bit_and b 127) sig
              (keeps_byte (byte_at 63 sig) x low hx),
        )
        refl

  -- For every secret key, message and random data, and a public key of 32 bytes from which
  -- `to_edwards` gives back the signer's point when it is told that point's sign, provided that
  -- the point is a verifying key: `verify` of what `sign_internal` made returns the strict check,
  -- under that key, of the nonce's point followed by the scalar, as they were before the sign bit
  -- was put into them.
  pub verify-sign_internal :
      (public_key sk_raw msg rnd : List ℕ) (vk : d.VerifyingKey)
      → length public_key ≡ 32
      → d.to_edwards public_key (byte_at 31 (d.compress (signer d sk_raw)) / 128)
        ≡ some (signer d sk_raw)
      → d.verifying_key (d.compress (signer d sk_raw)) ≡ some vk
      → verify d public_key msg (sign_internal d sk_raw msg rnd)
        ≡ ok (d.verify_strict vk msg (plain d sk_raw msg rnd))
  unfolding sign_internal base_mult_scalar
  verify-sign_internal public_key sk_raw msg rnd vk lp point key =
      verify_signed public_key msg (plain d sk_raw msg rnd)
        (byte_at 31 (d.compress (signer d sk_raw))) (signer d sk_raw) vk lp (length-halves _ _)
        (last_reduced _ _) (encoded.last_byte (signer d sk_raw)) point key
