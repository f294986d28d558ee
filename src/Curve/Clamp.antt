-- ===== src/Curve/Clamp.antt =====
-- curve.rs, `clamp_scalar`: the scalar of RFC 7748.
use oktz_signal.Base.{ℕ, ◌+◌, ◌*◌, ◌/◌, ◌%◌, ◌<◌, ◌≡◌, ◌≢◌, ap, ◌∙◌, arith}
use oktz_signal.Base.{List, length, bit_and, bit_or}
use oktz_signal.Base.Bits.{bit_or_step, bit_and_step, bit_and_7f, bit_and_0f}
use oktz_signal.Curve.{modify, byte_at, clamp_scalar}
use oktz_signal.Curve.Bytes.{length-modify, byte_at-modify, byte_at-modify_other}

bit_and_1f : (v : ℕ) → bit_and v 0x1f ≡ v % 32
bit_and_1f v = omega (arith, bit_and_step v 0x1f, bit_and_0f (v / 2))

-- `b & 248`
bit_and_f8 : (b : ℕ) → b < 256 → bit_and b 248 ≡ b / 8 * 8
bit_and_f8 b h = omega (
  arith,
  bit_and_step b 248,
  bit_and_step (b / 2) 124,
  bit_and_step (b / 2 / 2) 62,
  bit_and_1f (b / 2 / 2 / 2),
)

bit_or_one : (v : ℕ) → v < 2 → bit_or v 1 ≡ 1
bit_or_one v h = omega (arith, bit_or_step v 1, ap (λ x. bit_or x 0) (halved v h))
  where
    halved : (v : ℕ) → v < 2 → v / 2 ≡ 0
    halved v h = omega arith

-- `b | 64`
bit_or_40 : (b : ℕ) → b < 128 → bit_or b 64 ≡ b % 64 + 64
bit_or_40 b h = omega (
  arith,
  bit_or_step b 64,
  bit_or_step (b / 2) 32,
  bit_or_step (b / 2 / 2) 16,
  bit_or_step (b / 2 / 2 / 2) 8,
  bit_or_step (b / 2 / 2 / 2 / 2) 4,
  bit_or_step (b / 2 / 2 / 2 / 2 / 2) 2,
  bit_or_one (b / 2 / 2 / 2 / 2 / 2 / 2) (omega arith),
)

last_bits : (b : ℕ) → bit_or (bit_and b 127) 64 ≡ b % 64 + 64
last_bits b = rw (bit_and_7f b) (bit_or_40 (b % 128) (omega arith) ∙ low b)
  where
    low : (b : ℕ) → b % 128 % 64 + 64 ≡ b % 64 + 64
    low b = omega arith

-- What the three assignments do to the byte at i.
at_0 : (sk : List ℕ) → 0 < length sk → byte_at 0 (clamp_scalar sk) ≡ bit_and (byte_at 0 sk) 248
unfolding clamp_scalar
at_0 sk h =
    byte_at-modify_other 0 31 _ _ (λ e. omega (arith, e))
    ∙ byte_at-modify_other 0 31 _ _ (λ e. omega (arith, e))
    ∙ byte_at-modify 0 (λ b. bit_and b 248) sk h

at_31 :
    (sk : List ℕ)
    → 31 < length sk
    → byte_at 31 (clamp_scalar sk) ≡ bit_or (bit_and (byte_at 31 sk) 127) 64
unfolding clamp_scalar
at_31 sk h =
    (let a0 = modify 0 (λ b. bit_and b 248) sk in
      let l = length-modify 0 (λ b. bit_and b 248) sk in
      let m = length-modify 31 (λ b. bit_and b 127) a0 in
      byte_at-modify 31 (λ b. bit_or b 64) (modify 31 (λ b. bit_and b 127) a0)
        (omega (arith, l, m, h))
      ∙ ap (λ b. bit_or b 64)
          (byte_at-modify 31 (λ b. bit_and b 127) a0 (omega (arith, l, h))
            ∙ ap (λ b. bit_and b 127) (byte_at-modify_other 31 0 _ sk (λ e. omega (arith, e)))))

-- For 32 bytes, of which the first is below 256, `clamp_scalar` gives 32 bytes: the lowest three
-- bits of the first are cleared, of the last the top bit is cleared and the one below it set, and
-- all others stay.
pub clamp_scalar-clamps :
    (sk : List ℕ)
    → length sk ≡ 32
    → byte_at 0 sk < 256
    → (length (clamp_scalar sk) ≡ 32)
      × (byte_at 0 (clamp_scalar sk) ≡ byte_at 0 sk / 8 * 8)
      × (byte_at 31 (clamp_scalar sk) ≡ byte_at 31 sk % 64 + 64)
      × ((i : ℕ) → i ≢ 0 → i ≢ 31 → byte_at i (clamp_scalar sk) ≡ byte_at i sk)
unfolding clamp_scalar
clamp_scalar-clamps sk l h = (
  length-modify 31 _ _ ∙ length-modify 31 _ _ ∙ length-modify 0 _ sk ∙ l,
  at_0 sk (omega (arith, l)) ∙ bit_and_f8 (byte_at 0 sk) h,
  at_31 sk (omega (arith, l)) ∙ last_bits (byte_at 31 sk),
  λ i n m.
      byte_at-modify_other i 31 _ _ m
      ∙ byte_at-modify_other i 31 _ _ m
      ∙ byte_at-modify_other i 0 _ sk n,
)
