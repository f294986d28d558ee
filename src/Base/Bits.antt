-- ===== src/Base/Bits.antt =====
-- The masks and shifts that the wire format uses, as arithmetic.
use Prim.Native.Nat.{ℕ, zero, suc, ◌+◌, ◌*◌, ◌/◌, ◌%◌, ◌^◌, ◌≤◌, ◌<◌, min, max}
use Prim.Native.Nat.{bit_and, bit_or, digits, bit_and-bitwise, bit_or-bitwise}
use mathlib.Core.Path.{◌≡◌, refl, ap, ◌∙◌}
use mathlib.Core.Logic.{inl, inr}
use mathlib.Core.WellFounded
use native.Mathlib.Nat.{pow-suc}
use native.Mathlib.Omega.{arith}
use oktz_signal.Base.Tests.{leb, Bool-cases}
use oktz_signal.Base.Order.{lt_wf}

-- The digits of an operation come off one at a time, for any fuel that is enough.
module _ (z : ℕ → ℕ) (f : ℕ → ℕ → ℕ) where
  one_spare : (fuel x y : ℕ) → x ≤ fuel → digits z f (suc fuel) x y ≡ digits z f fuel x y
  one_spare zero zero y h = refl
  one_spare zero (suc x) y h = ground arith
  one_spare (suc fuel) zero y h = refl
  one_spare (suc fuel) (suc x) y h =
      ap (λ d. d * 2 + f (suc x % 2) (y % 2)) (one_spare fuel (suc x / 2) (y / 2) (omega arith))

  enough : (fuel x y : ℕ) → x ≤ fuel → digits z f fuel x y ≡ digits z f x x y
  enough zero zero y h = refl
  enough zero (suc x) y h = ground arith
  enough (suc fuel) x y h = elim (Bool-cases (leb x fuel)) [
    | inl e ↦ (let l : (x ≤ fuel) = ground (arith, e) in one_spare fuel x y l ∙ enough fuel x y l)
    | inr e ↦ (let same : (suc fuel ≡ x) = ground (arith, e, h) in ap (λ k. digits z f k x y) same)
  ]

  pub low_digit :
      ((y : ℕ) → z y ≡ z (y / 2) * 2 + f 0 (y % 2))
      → (x y : ℕ) → digits z f x x y ≡ digits z f (x / 2) (x / 2) (y / 2) * 2 + f (x % 2) (y % 2)
  low_digit law zero y = law y
  low_digit law (suc x) y =
      ap (λ d. d * 2 + f (suc x % 2) (y % 2)) (enough x (suc x / 2) (y / 2) (omega arith))

pub bit_or_step : (a b : ℕ) → bit_or a b ≡ bit_or (a / 2) (b / 2) * 2 + max (a % 2) (b % 2)
bit_or_step a b = omega (
  arith,
  low_digit (λ y. y) max (λ y. omega arith) a b,
  bit_or-bitwise a b,
  bit_or-bitwise (a / 2) (b / 2),
)

pub bit_and_step : (a b : ℕ) → bit_and a b ≡ bit_and (a / 2) (b / 2) * 2 + min (a % 2) (b % 2)
bit_and_step a b = omega (
  arith,
  low_digit (λ y. 0) min (λ y. omega arith) a b,
  bit_and-bitwise a b,
  bit_and-bitwise (a / 2) (b / 2),
)

bit_and-zero : (a : ℕ) → bit_and a 0 ≡ 0
bit_and-zero a = WellFounded.induction lt_wf {C = λ n. bit_and n 0 ≡ 0} a λ n ih. halve n ih
  where
    halve : (n : ℕ) → ((m : ℕ) → m < n → bit_and m 0 ≡ 0) → bit_and n 0 ≡ 0
    halve zero ih = refl
    halve (suc n) ih = omega (arith, bit_and_step (suc n) 0, ih (suc n / 2) (omega arith))

pub bit_or-zero : (a : ℕ) → bit_or a 0 ≡ a
bit_or-zero a = WellFounded.induction lt_wf {C = λ n. bit_or n 0 ≡ n} a λ n ih. halve n ih
  where
    halve : (n : ℕ) → ((m : ℕ) → m < n → bit_or m 0 ≡ m) → bit_or n 0 ≡ n
    halve zero ih = refl
    halve (suc n) ih = omega (arith, bit_or_step (suc n) 0, ih (suc n / 2) (omega arith))

pub zero-bit_or : (b : ℕ) → bit_or 0 b ≡ b
zero-bit_or b = bit_or-bitwise 0 b

bit_and-one : (a : ℕ) → bit_and a 1 ≡ a % 2
bit_and-one a = omega (arith, bit_and_step a 1, bit_and-zero (a / 2))

-- `v & 0x07`
pub bit_and_07 : (v : ℕ) → bit_and v 0x07 ≡ v % 8
bit_and_07 v = omega (arith, bit_and_step v 7, bit_and_step (v / 2) 3, bit_and-one (v / 2 / 2))

pub bit_and_0f : (v : ℕ) → bit_and v 0x0f ≡ v % 16
bit_and_0f v = omega (arith, bit_and_step v 0x0f, bit_and_07 (v / 2))

-- `v & 0x7f`
pub bit_and_7f : (v : ℕ) → bit_and v 0x7f ≡ v % 128
bit_and_7f v = omega (
  arith,
  bit_and_step v 0x7f,
  bit_and_step (v / 2) 0x3f,
  bit_and_step (v / 2 / 2) 0x1f,
  bit_and_0f (v / 2 / 2 / 2),
)

double_shift : (q k : ℕ) → q * 2 ^ suc k ≡ 2 * (q * 2 ^ k)
double_shift q k = omega (arith, ap (λ (t : ℕ). q * t) (pow-suc 2 k))

-- `r | (q << k)` is a sum when `r` fits in k bits.
pub bit_or_high : (k q r : ℕ) → r < 2 ^ k → bit_or r (q * 2 ^ k) ≡ r + q * 2 ^ k
bit_or_high zero q r fits = ground (arith, zero-bit_or q)
bit_or_high (suc k) q r fits = ground (
  arith,
  bit_or_step r (q * 2 ^ suc k),
  double_shift q k,
  pow-suc 2 k,
  bit_or_high k q (r / 2) (omega (arith, pow-suc 2 k)),
)

-- `(q << k) | r`
pub bit_or_low : (k q r : ℕ) → r < 2 ^ k → bit_or (q * 2 ^ k) r ≡ q * 2 ^ k + r
bit_or_low zero q r fits = ground (arith, bit_or-zero q)
bit_or_low (suc k) q r fits = ground (
  arith,
  bit_or_step (q * 2 ^ suc k) r,
  double_shift q k,
  pow-suc 2 k,
  bit_or_low k q (r / 2) (omega (arith, pow-suc 2 k)),
)

bit_and_10 : (v : ℕ) → bit_and v 0x10 ≡ v / 16 % 2 * 16
bit_and_10 v = omega (
  arith,
  bit_and_step v 0x10,
  bit_and_step (v / 2) 8,
  bit_and_step (v / 2 / 2) 4,
  bit_and_step (v / 2 / 2 / 2) 2,
  bit_and-one (v / 2 / 2 / 2 / 2),
)

-- `b & 0x80`
pub bit_and_80 : (b : ℕ) → b < 256 → bit_and b 0x80 ≡ b / 128 * 128
bit_and_80 b h = omega (
  arith,
  bit_and_step b 0x80,
  bit_and_step (b / 2) 0x40,
  bit_and_step (b / 2 / 2) 0x20,
  bit_and_10 (b / 2 / 2 / 2),
)

bit_or_10 : (v : ℕ) → v < 16 → bit_or v 0x10 ≡ v + 16
bit_or_10 v h = omega (
  arith,
  bit_or_step v 0x10,
  bit_or_step (v / 2) 8,
  bit_or_step (v / 2 / 2) 4,
  bit_or_step (v / 2 / 2 / 2) 2,
  ap (λ x. bit_or x 1) (nothing_left v h),
  zero-bit_or 1,
)
  where
    nothing_left : (v : ℕ) → v < 16 → v / 2 / 2 / 2 / 2 ≡ 0
    nothing_left v h = omega arith

-- `byte | 0x80`
pub bit_or_80 : (b : ℕ) → b < 128 → bit_or b 0x80 ≡ b + 128
bit_or_80 b h = omega (
  arith,
  bit_or_step b 0x80,
  bit_or_step (b / 2) 0x40,
  bit_or_step (b / 2 / 2) 0x20,
  bit_or_10 (b / 2 / 2 / 2) (omega arith),
)
