-- ===== src/Proto/Varint/Bounds.antt =====
-- What `read_varint` accepts: at most ten bytes, a u64, and no bit lost by a shift.
use oktz_signal.Base.{ℕ, zero, suc, ◌+◌, ◌*◌, ◌%◌, ◌^◌, ◌<◌, ◌≤◌, ◌≡◌, ◌≢◌, sym, ap, ◌∙◌}
use oktz_signal.Base.{List, [], ◌∷◌, length, All, arith, ok, err, out_of_fuel}
use oktz_signal.Base.{true, false, ltb}
use oktz_signal.Base.Bits.{bit_and_80}
use oktz_signal.Proto.Varint.{Cursor, at, IsByte, IsU64, or_group, read_varint_loop, read_varint}
use oktz_signal.Proto.Varint.RoundTrip.{pow_seven, or_group-add, group_fits}
use native.Mathlib.Decide.{dec_le, dec_lt}
use native.Mathlib.Nat.{pow-suc}
use mathlib.Core.Path.{subst}

-- The groups of a varint, lowest first, up to the first byte without the top bit.
unfoldable pub value : List ℕ → ℕ
value [] = 0
value (b ∷ rest) =
    let more = value rest in elim (ltb b 128) [ true ↦ b | false ↦ b % 128 + 128 * more ]

-- `rest` bytes are left, and the cursor moved over what was read.
pub read_varint_loop-shrinks :
    (bytes : List ℕ) (pos result shift v : ℕ) (c : Cursor)
    → read_varint_loop bytes pos result shift ≡ ok (v, c)
    → (length c.rest < length bytes) × (c.pos + length c.rest ≡ pos + length bytes)
unfolding read_varint_loop
read_varint_loop-shrinks [] pos result shift v c e = cc
read_varint_loop-shrinks (b ∷ rest) pos result shift v c e =
    ground
      (arith, read_varint_loop-shrinks rest (pos + 1) (or_group result b shift) (shift + 7) v c)

pub read_varint_loop-terminates :
    (bytes : List ℕ) (pos result shift : ℕ)
    → read_varint_loop bytes pos result shift ≢ err out_of_fuel
unfolding read_varint_loop
read_varint_loop-terminates [] pos result shift e = cc
read_varint_loop-terminates (b ∷ rest) pos result shift e =
    ground (arith, read_varint_loop-terminates rest (pos + 1) (or_group result b shift) (shift + 7))

pow_le : (s t : ℕ) → s ≤ t → 2 ^ s ≤ 2 ^ t
pow_le s zero h = let e : s ≡ 0 = omega arith in rw e (omega arith)
pow_le s (suc t) h = elim (dec_le s t) [
  | yes p ↦ omega (arith, pow_le s t p, pow-suc 2 t)
  | no p ↦ let e : s ≡ suc t = omega arith in rw e (omega arith)
]

-- Before the tenth byte a group stays below bit 63.
group_below : (g s : ℕ) → s ≤ 56 → g < 128 → g * 2 ^ s < 2 ^ 63
group_below g s h hg = grind (arith, pow_le s 56 h)

value_last : (b : ℕ) (rest : List ℕ) → b < 128 → value (b ∷ rest) ≡ b
unfolding value
value_last b rest h = ground arith

value_more : (b : ℕ) (rest : List ℕ) → 128 ≤ b → value (b ∷ rest) ≡ b % 128 + 128 * value rest
unfolding value
value_more b rest h = ground arith

read_on_last :
    (b : ℕ) (rest : List ℕ) (pos result shift : ℕ)
    → shift < 63
    → b < 128
    → read_varint_loop (b ∷ rest) pos result shift ≡ ok (or_group result b shift, at rest (pos + 1))
unfolding read_varint_loop
read_on_last b rest pos result shift hs hb = ground (arith, bit_and_80 b)

read_on_more :
    (b : ℕ) (rest : List ℕ) (pos result shift : ℕ)
    → shift < 63
    → b < 256
    → 128 ≤ b
    → read_varint_loop (b ∷ rest) pos result shift
      ≡ read_varint_loop rest (pos + 1) (or_group result b shift) (shift + 7)
unfolding read_varint_loop
read_on_more b rest pos result shift hs hb hm = ground (arith, bit_and_80 b)

-- `k` groups are left before the last of the ten.
read_varint_loop-value :
    (k : ℕ) (bytes : List ℕ) (pos result shift v : ℕ) (c : Cursor)
    → All IsByte bytes
    → shift + 7 * k ≡ 63
    → result < 2 ^ shift
    → read_varint_loop bytes pos result shift ≡ ok (v, c)
    → (v ≡ result + value bytes * 2 ^ shift) × IsU64 v × (length bytes ≤ length c.rest + (k + 1))
unfolding read_varint_loop value
read_varint_loop-value k [] pos result shift v c hb hs low e = cc
read_varint_loop-value zero (b ∷ rest) pos result shift v c (hb, hr) hs low e =
    let s : shift ≡ 63 = omega arith in
    let low' : result < 2 ^ 63 = subst (λ (t : ℕ). result < 2 ^ t) s low in
    rw s (ground (arith, rw s at e, bit_and_80 b hb, or_group-add result b 63 low'))
read_varint_loop-value (suc k) (b ∷ rest) pos result shift v c (hb, hr) hs low e =
    elim (dec_lt b 128) [
      | yes last ↦
          let m : b % 128 ≡ b = omega arith in
          let small = group_below b shift (omega arith) last in
          let added : or_group result b shift ≡ result + b * 2 ^ shift =
            or_group-add result b shift low (rw m (omega arith))
            ∙ ap (λ (t : ℕ). result + t * 2 ^ shift) m in
          let got = sym (read_on_last b rest pos result shift (omega arith) last) ∙ e in
          let below = pow_le shift 56 (omega arith) in
          rw (value_last b rest last) (ground (arith, got, added, small, below))
      | no more ↦
          let hm : 128 ≤ b = omega arith in
          let g : b % 128 < 128 = omega arith in
          let small = group_below (b % 128) shift (omega arith) g in
          let added = or_group-add result b shift low (omega arith) in
          let (sum, fits, long) =
            read_varint_loop-value k rest (pos + 1) (or_group result b shift) (shift + 7) v c hr
              (omega arith) (rw added (group_fits result (b % 128) shift low g))
              (sym (read_on_more b rest pos result shift (omega arith) hb hm) ∙ e) in
          (
            rw (value_more b rest hm)
                (omega (arith, sum, added, ap (λ (t : ℕ). value rest * t) (pow_seven shift))),
            fits,
            omega arith,
          )
    ]

-- A varint that is accepted has the value of its groups, which is a u64, and is one to ten bytes
-- long; the cursor moved over just these.
pub read_varint-value :
    (c c' : Cursor) (v : ℕ)
    → All IsByte c.rest
    → read_varint c ≡ ok (v, c')
    → (v ≡ value c.rest)
      × IsU64 v
      × (length c'.rest < length c.rest)
      × (length c.rest ≤ length c'.rest + 10)
      × (c'.pos + length c'.rest ≡ c.pos + length c.rest)
unfolding read_varint
read_varint-value c c' v h e = ground (
  arith,
  read_varint_loop-value 9 c.rest c.pos 0 0 v c' h (omega arith) (omega arith) e,
  read_varint_loop-shrinks c.rest c.pos 0 0 v c' e,
)

-- A longer form than the shortest is accepted: a value below 128 with its top bit set and a zero
-- byte behind it is read as that value.
pub read_varint_padded :
    (v : ℕ) (rest : List ℕ) (pos : ℕ)
    → v < 128
    → read_varint (at ((v + 128) ∷ 0 ∷ rest) pos) ≡ ok (v, at rest (pos + 1 + 1))
unfolding read_varint read_varint_loop
read_varint_padded v rest pos h =
    ground (arith, bit_and_80 (v + 128), or_group-add 0 (v + 128) 0, or_group-add v 0 7)
