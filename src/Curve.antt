-- ===== src/Curve.antt =====
-- curve.rs: X25519 and XEdDSA on top of curve25519-dalek, ed25519-dalek and sha2.
pub mod Keys
pub mod Bytes
pub mod Clamp
pub mod Sign
use oktz_signal.Base.{
  ℕ, zero, suc, ◌+◌, ◌/◌, ◌%◌, String, List, [], ◌∷◌, ◌++◌, Bool, true, false, not, ◌||◌, leb, ◌==◌,
}
use oktz_signal.Base.{length, take, replicate, bit_and, bit_or, Option, none, some}
use oktz_signal.Base.{
  Result, ok, ◌>>=◌, ◌>>◌, bail_if, wrong_length, degenerate_seed, non_contributory,
}
use oktz_signal.Crates.{Crates}

-- The crates below XEdDSA: scalars modulo the group order, points of the Edwards curve, SHA-512
-- and the strict verification of Ed25519.
pub record Dalek : Type 1 where
  pub Scalar : Type 0
  pub EdwardsPoint : Type 0
  pub VerifyingKey : Type 0
  pub sha512 : List ℕ → List ℕ
  pub from_bytes_mod_order : List ℕ → Scalar
  pub from_bytes_mod_order_wide : List ℕ → Scalar
  pub to_bytes : Scalar → List ℕ
  pub add : Scalar → Scalar → Scalar
  pub mul : Scalar → Scalar → Scalar
  -- the base point times a scalar
  pub base_mul : Scalar → EdwardsPoint
  pub compress : EdwardsPoint → List ℕ
  -- `MontgomeryPoint(u).to_edwards(sign)`
  pub to_edwards : List ℕ → ℕ → Option EdwardsPoint
  pub verifying_key : List ℕ → Option VerifyingKey
  pub verify_strict : VerifyingKey → List ℕ → List ℕ → Bool

unfoldable pub check_len : List ℕ → ℕ → String → Result (Unit {0})
check_len v n what = bail_if (not (length v == n)) (wrong_length what (length v) n)

-- `v[i] = f(v[i])`
unfoldable pub modify : ℕ → (ℕ → ℕ) → List ℕ → List ℕ
modify i f [] = []
modify zero f (x ∷ xs) = f x ∷ xs
modify (suc i) f (x ∷ xs) = x ∷ modify i f xs

unfoldable pub byte_at : ℕ → List ℕ → ℕ
byte_at i [] = 0
byte_at zero (x ∷ xs) = x
byte_at (suc i) (x ∷ xs) = byte_at i xs

unfoldable pub clamp_scalar : List ℕ → List ℕ
unfolding modify
clamp_scalar sk = do
  let a0 = modify 0 (λ b. bit_and b 248) sk
  let a1 = modify 31 (λ b. bit_and b 127) a0
  modify 31 (λ b. bit_or b 64) a1

module _ (d : Dalek) where
  unfoldable pub nonce_rnd : List ℕ → List ℕ → List ℕ → d.Scalar
  nonce_rnd sk msg rnd =
      d.from_bytes_mod_order_wide (d.sha512 (254 ∷ (replicate 31 255 ++ sk ++ msg ++ rnd)))

  unfoldable pub base_mult_scalar : d.Scalar → List ℕ
  base_mult_scalar a = d.compress (d.base_mul a)

  unfoldable pub challenge : List ℕ → List ℕ → List ℕ → d.Scalar
  challenge r a msg = d.from_bytes_mod_order_wide (d.sha512 (r ++ a ++ msg))

  unfoldable pub sign_internal : List ℕ → List ℕ → List ℕ → List ℕ
  unfolding clamp_scalar nonce_rnd base_mult_scalar challenge modify byte_at
  sign_internal sk_raw msg rnd = do
    let sk = clamp_scalar sk_raw
    let a = d.from_bytes_mod_order sk
    let a_bytes = base_mult_scalar a
    let sign_bit = bit_and (byte_at 31 a_bytes) 128
    let r = nonce_rnd sk msg rnd
    let r_bytes = base_mult_scalar r
    let h = challenge r_bytes a_bytes msg
    let s = d.add r (d.mul h a)
    modify 63 (λ b. bit_or b sign_bit) (r_bytes ++ d.to_bytes s)

  abbrev pub pubkey_montgomery_to_edwards : List ℕ → ℕ → Option d.EdwardsPoint
  pubkey_montgomery_to_edwards pk sign_bit = d.to_edwards pk sign_bit

  -- The last argument is what the random number generator fills in.
  unfoldable pub sign : List ℕ → List ℕ → Option (List ℕ) → List ℕ → Result (List ℕ)
  unfolding check_len sign_internal
  sign secret_key msg opt_random generated = do
    check_len secret_key 32 "secret key"
    rnd ← elim opt_random [
      | some r ↦ (do check_len r 64 "random data"; ok (take 64 r))
      | none ↦ ok generated
    ]
    ok (sign_internal (take 32 secret_key) msg rnd)

  unfoldable pub verify : List ℕ → List ℕ → List ℕ → Result Bool
  unfolding check_len byte_at modify
  verify public_key msg signature = do
    check_len public_key 32 "public key"
    check_len signature 64 "signature"
    let sign_bit = bit_and (byte_at 63 signature) 128
    let sig_clean = modify 63 (λ b. bit_and b 127) signature
    ok (elim (pubkey_montgomery_to_edwards public_key (sign_bit / 128)) [
      | none ↦ false
      | some p ↦ elim (d.verifying_key (d.compress p)) [
        | none ↦ false
        | some vk ↦ d.verify_strict vk msg sig_clean
      ]
    ])

-- `count_ones` of a byte.
abbrev ones : ℕ → ℕ → ℕ
ones zero b = 0
ones (suc bits) b = b % 2 + ones bits (b / 2)

abbrev pub count_ones : List ℕ → ℕ
count_ones [] = 0
count_ones (b ∷ bytes) = ones 8 b + count_ones bytes

unfoldable pub seed_is_degenerate : List ℕ → Bool
seed_is_degenerate seed = (let bits = count_ones seed in leb bits 32 || (bits == 256))

-- The loop `acc |= *b`.
abbrev pub or_fold : ℕ → List ℕ → ℕ
or_fold acc [] = acc
or_fold acc (b ∷ bytes) = or_fold (bit_or acc b) bytes

module _ (c : Crates) where
  -- The public key and the secret key.
  unfoldable pub generate_keypair : List ℕ → Result (List ℕ × List ℕ)
  unfolding check_len seed_is_degenerate
  generate_keypair seed = do
    check_len seed 32 "seed"
    bail_if (seed_is_degenerate seed) degenerate_seed
    ok (c.mul_base_clamped seed, seed)

  unfoldable pub scalar_multiply : List ℕ → List ℕ → Result (List ℕ)
  unfolding check_len
  scalar_multiply secret_key public_key = do
    check_len secret_key 32 "secret key"
    check_len public_key 32 "public key"
    let bytes = c.mul_clamped public_key secret_key
    bail_if (or_fold 0 bytes == 0) non_contributory
    ok bytes
