-- ===== src/Ratchet/Cbc/Xor.antt =====
-- ratchet.rs, the xor of two blocks: it undoes itself.
use Prim.Native.Nat.{ℕ, zero, suc, ◌+◌, ◌*◌, ◌/◌, ◌%◌, ◌^◌, ◌<◌, bit_xor, differ, bit_xor-bitwise}
use mathlib.Core.WellFounded
use native.Mathlib.Nat.{pow-suc}
use oktz_signal.Base.{◌≡◌, refl, sym, ap, ◌∙◌, List, [], ◌∷◌, length, arith, All}
use oktz_signal.Base.Order.{lt_wf}
use oktz_signal.Base.Bits.{low_digit}
use oktz_signal.Ratchet.Cbc.{xor_block}

bit_xor_step : (a b : ℕ) → bit_xor a b ≡ bit_xor (a / 2) (b / 2) * 2 + differ (a % 2) (b % 2)
bit_xor_step a b = omega (
  arith,
  low_digit (λ y. y) differ (λ y. omega arith) a b,
  bit_xor-bitwise a b,
  bit_xor-bitwise (a / 2) (b / 2),
)

differ_bits : (x y : ℕ) → x < 2 → y < 2 → differ x y ≡ (x + y) % 2
differ_bits zero y h k = omega arith
differ_bits (suc zero) zero h k = omega arith
differ_bits (suc zero) (suc zero) h k = omega arith
differ_bits (suc zero) (suc (suc y)) h k = ground arith
differ_bits (suc (suc x)) y h k = ground arith

xor_step : (a b : ℕ) → bit_xor a b ≡ bit_xor (a / 2) (b / 2) * 2 + (a % 2 + b % 2) % 2
xor_step a b =
    omega (arith, bit_xor_step a b, differ_bits (a % 2) (b % 2) (omega arith) (omega arith))

xor_half : (a b : ℕ) → bit_xor a b / 2 ≡ bit_xor (a / 2) (b / 2)
xor_half a b = omega (arith, xor_step a b)

zero-xor : (b : ℕ) → bit_xor 0 b ≡ b
zero-xor b = omega (arith, bit_xor-bitwise 0 b)

pub xor_self : (a : ℕ) → bit_xor a a ≡ 0
xor_self a = WellFounded.induction lt_wf {C = λ n. bit_xor n n ≡ 0} a λ n ih. halve n ih
  where
    halve : (n : ℕ) → ((m : ℕ) → m < n → bit_xor m m ≡ 0) → bit_xor n n ≡ 0
    halve zero ih = omega (arith, zero-xor 0)
    halve (suc n) ih = omega (arith, xor_step (suc n) (suc n), ih (suc n / 2) (omega arith))

pub xor-xor : (a b : ℕ) → bit_xor (bit_xor a b) b ≡ a
xor-xor a =
    WellFounded.induction lt_wf {C = λ n. (b : ℕ) → bit_xor (bit_xor n b) b ≡ n} a
      λ n ih. halve n ih
  where
    halve :
        (n : ℕ)
        → ((m : ℕ) → m < n → (b : ℕ) → bit_xor (bit_xor m b) b ≡ m)
        → (b : ℕ) → bit_xor (bit_xor n b) b ≡ n
    halve zero ih b = ap (λ x. bit_xor x b) (zero-xor b) ∙ xor_self b
    halve (suc n) ih b = omega (
      arith,
      xor_step (suc n) b,
      xor_step (bit_xor (suc n) b) b,
      ap (λ x. bit_xor x (b / 2)) (xor_half (suc n) b),
      ih (suc n / 2) (omega arith) (b / 2),
    )

-- Only equal numbers differ in nothing.
pub xor_zero : (a b : ℕ) → bit_xor a b ≡ 0 → a ≡ b
xor_zero a b h = sym (xor-xor a b) ∙ ap (λ x. bit_xor x b) h ∙ zero-xor b

xor_bound : (n a b : ℕ) → a < 2 ^ n → b < 2 ^ n → bit_xor a b < 2 ^ n
xor_bound zero zero b h k = omega (arith, zero-xor b)
xor_bound zero (suc a) b h k = ground arith
xor_bound (suc n) a b h k = omega (
  arith,
  xor_step a b,
  xor_bound n (a / 2) (b / 2) (omega (arith, pow-suc 2 n)) (omega (arith, pow-suc 2 n)),
  pow-suc 2 n,
)

pub xor_byte : (a b : ℕ) → a < 256 → b < 256 → bit_xor a b < 256
xor_byte a b h k = xor_bound 8 a b h k

-- A block of the cipher: 16 bytes.
abbrev pub IsBlock : List ℕ → Type 0
IsBlock b = (length b ≡ 16) × All (λ x. x < 256) b

pub length-xor_block : (xs ys : List ℕ) → length (xor_block xs ys) ≡ length xs
unfolding xor_block
length-xor_block [] ys = refl
length-xor_block (x ∷ xs) [] = refl
length-xor_block (x ∷ xs) (y ∷ ys) = ap suc (length-xor_block xs ys)

xor_block_bytes :
    (xs ys : List ℕ)
    → All (λ x. x < 256) xs
    → All (λ x. x < 256) ys
    → All (λ x. x < 256) (xor_block xs ys)
unfolding xor_block
xor_block_bytes [] ys h k = tt
xor_block_bytes (x ∷ xs) [] h k = h
xor_block_bytes (x ∷ xs) (y ∷ ys) (h, hs) (k, ks) = (xor_byte x y h k, xor_block_bytes xs ys hs ks)

pub xor_block-IsBlock : (xs ys : List ℕ) → IsBlock xs → IsBlock ys → IsBlock (xor_block xs ys)
xor_block-IsBlock xs ys (l, h) (m, k) = (length-xor_block xs ys ∙ l, xor_block_bytes xs ys h k)

pub xor_block-xor_block : (xs ys : List ℕ) → xor_block (xor_block xs ys) ys ≡ xs
unfolding xor_block
xor_block-xor_block [] ys = refl
xor_block-xor_block (x ∷ xs) [] = refl
xor_block-xor_block (x ∷ xs) (y ∷ ys) = rw (xor-xor x y, xor_block-xor_block xs ys) refl
