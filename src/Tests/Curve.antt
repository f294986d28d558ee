-- ===== src/Tests/Curve.antt =====
-- curve.rs, `clamp_scalar`, `sign_internal` and `verify` at concrete inputs.
use oktz_signal.Base.{ℕ, ◌+◌, ◌*◌, ◌/◌, ◌%◌, ◌<◌, ◌≡◌, ◌≢◌, refl, arith, List, [], ◌∷◌, ◌++◌}
use oktz_signal.Base.{length, replicate, some, ok, ◌==◌}
use oktz_signal.Curve.{Dalek, byte_at, clamp_scalar, sign_internal, verify}
use oktz_signal.Curve.Clamp.{clamp_scalar-clamps}
use oktz_signal.Curve.Sign.{IsEncoded, signer, plain, verify-sign_internal}
use oktz_signal.Tests.Toy.{sum}

-- Scalars and points are numbers; a point's sign is the top bit of its last byte.
abbrev pub numbers : Dalek
numbers = record {
  Scalar = ℕ;
  EdwardsPoint = ℕ;
  VerifyingKey = List ℕ;
  sha512 = λ b. replicate 64 (sum b % 256);
  from_bytes_mod_order = λ b. sum b;
  from_bytes_mod_order_wide = λ b. sum b;
  to_bytes = λ s. replicate 31 3 ++ s % 128 ∷ [];
  add = λ a b. a + b;
  mul = λ a b. a * b;
  base_mul = λ s. s % 256;
  compress = λ p. replicate 31 7 ++ p % 256 ∷ [];
  to_edwards = λ b sign. some (byte_at 31 b + sign * 128);
  verifying_key = λ b. some b;
  verify_strict = λ key msg sig. length sig == 64;
}

rest_of : (p : ℕ) → p % 256 < 256
rest_of p = omega arith

low_rest_of : (s : ℕ) → s % 128 < 128
low_rest_of s = omega arith

numbers-IsEncoded : IsEncoded numbers
unfolding byte_at
numbers-IsEncoded = record {
  length-compress = λ p. refl;
  last_byte = rest_of;
  length-to_bytes = λ s. refl;
  scalar_reduced = low_rest_of;
}

abbrev secret : List ℕ
secret = replicate 32 3

abbrev message : List ℕ
message = 1 ∷ 2 ∷ []

abbrev random : List ℕ
random = replicate 64 9

abbrev public : List ℕ
public = replicate 31 0 ++ 29 ∷ []

signer-value : signer numbers secret ≡ 157
unfolding clamp_scalar
signer-value = refl

verify-sign_internal_example :
    verify numbers public message (sign_internal numbers secret message random)
    ≡ ok (
        numbers.verify_strict
          (numbers.compress (signer numbers secret))
          message
          (plain numbers secret message random))
unfolding byte_at clamp_scalar
verify-sign_internal_example =
    verify-sign_internal numbers numbers-IsEncoded public secret message random
      (numbers.compress (signer numbers secret)) refl refl refl

secret-low : byte_at 0 secret < 256
unfolding byte_at
secret-low = omega arith

clamp_scalar-clamps_example :
    (length (clamp_scalar secret) ≡ 32)
    × (byte_at 0 (clamp_scalar secret) ≡ byte_at 0 secret / 8 * 8)
    × (byte_at 31 (clamp_scalar secret) ≡ byte_at 31 secret % 64 + 64)
    × ((i : ℕ) → i ≢ 0 → i ≢ 31 → byte_at i (clamp_scalar secret) ≡ byte_at i secret)
clamp_scalar-clamps_example = clamp_scalar-clamps secret refl secret-low
