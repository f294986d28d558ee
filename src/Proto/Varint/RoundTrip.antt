-- ===== src/Proto/Varint/RoundTrip.antt =====
-- What `write_varint` writes, and that `read_varint` reads it back.
use mathlib.Core.WellFounded.{Acc}
use native.Mathlib.Nat.{div-add-mod}
use native.Mathlib.Numerals.{towards_suc}
use oktz_signal.Base.{
  ℕ, zero, suc, ◌+◌, ◌*◌, ◌/◌, ◌%◌, ◌^◌, ◌<◌, ◌≤◌, ◌≡◌, ap, Bool-cases, inl, inr,
}
use mathlib.Core.Path.{subst}
use oktz_signal.Base.{
  List, [], ◌∷◌, ◌++◌, append_assoc, length, arith, ltb, if◌then◌else◌, bit_and, bit_or,
}
use oktz_signal.Base.{ok, All}
use oktz_signal.Base.Order.{lt_wf}
use oktz_signal.Base.Bits.{bit_and_7f, bit_and_80, bit_or_80, bit_or_high}
use oktz_signal.Proto.Varint.{at, IsByte, IsU64, or_group, read_varint_loop, read_varint}
use oktz_signal.Proto.Varint.{write_varint_loop, write_varint}

-- The seven-bit groups of `v` in plain arithmetic, at most `k` of them before the last.
unfoldable pub groups : ℕ → ℕ → List ℕ
groups zero v = v ∷ []
groups (suc k) v =
    let tail = groups k (v / 128) in if ltb v 128 then v ∷ [] else (v % 128 + 128) ∷ tail

low_byte : (v : ℕ) → bit_and v 0x7f % 256 ≡ v % 128
low_byte v = omega (arith, bit_and_7f v)

high_byte : (v : ℕ) → bit_or (bit_and v 0x7f % 256) 0x80 ≡ v % 128 + 128
high_byte v = ground (arith, low_byte v, bit_or_80 (v % 128))

write_varint_loop-groups :
    (k : ℕ) (buf : List ℕ) (v : ℕ) (w : Acc ◌<◌ v)
    → v < 128 ^ suc k
    → write_varint_loop buf v w ≡ buf ++ groups k v
unfolding write_varint_loop groups
write_varint_loop-groups zero buf v (Acc.intro _ smaller) h = ground (arith, low_byte v)
write_varint_loop-groups (suc k) buf v (Acc.intro _ smaller) h =
    let first : List ℕ = (v % 128 + 128) ∷ [] in
    grind (
      arith,
      low_byte v,
      high_byte v,
      λ (w : Acc ◌<◌ (v / 128)).
          write_varint_loop-groups k (buf ++ first) (v / 128) w (omega arith),
      append_assoc buf first (groups k (v / 128)),
    )

pub write_varint-groups : (buf : List ℕ) (v : ℕ) → IsU64 v → write_varint buf v ≡ buf ++ groups 9 v
unfolding write_varint
write_varint-groups buf v h = write_varint_loop-groups 9 buf v (lt_wf.apply v) (omega arith)

pub length-groups : (k v : ℕ) → 1 ≤ length (groups k v)
unfolding groups
length-groups zero v = omega arith
length-groups (suc k) v = ground (arith, length-groups k (v / 128))

pub groups-IsByte : (k v : ℕ) → v < 128 ^ suc k → All IsByte (groups k v)
unfolding groups
groups-IsByte zero v h = omega arith
groups-IsByte (suc k) v h = ground (arith, groups-IsByte k (v / 128) (omega arith))

pub pow_seven : (s : ℕ) → 2 ^ (s + 7) ≡ 128 * 2 ^ s
pow_seven s = simp towards_suc (omega arith)

-- A group whose bits lie above those of `result`, and below bit 64, is added.
pub or_group-add :
    (result b shift : ℕ)
    → result < 2 ^ shift
    → b % 128 * 2 ^ shift < 2 ^ 64
    → or_group result b shift ≡ result + b % 128 * 2 ^ shift
unfolding or_group
or_group-add result b shift low fits =
    ground (arith, bit_and_7f b, bit_or_high shift (b % 128) result)

-- One round of the loop, on a last byte and on one that says there is more.
read_last :
    (b : ℕ) (rest : List ℕ) (pos result shift : ℕ)
    → b < 128
    → result < 2 ^ shift
    → IsU64 (result + b * 2 ^ shift)
    → (63 ≤ shift → b ≤ 1)
    → read_varint_loop (b ∷ rest) pos result shift ≡ ok (result + b * 2 ^ shift, at rest (pos + 1))
unfolding read_varint_loop
read_last b rest pos result shift hb low fits top =
    ground (arith, bit_and_80 b, or_group-add result b shift)

read_more :
    (g : ℕ) (rest : List ℕ) (pos result shift : ℕ)
    → g < 128
    → shift < 63
    → result < 2 ^ shift
    → IsU64 (result + g * 2 ^ shift)
    → read_varint_loop ((g + 128) ∷ rest) pos result shift
      ≡ read_varint_loop rest (pos + 1) (result + g * 2 ^ shift) (shift + 7)
unfolding read_varint_loop
read_more g rest pos result shift hg hs low fits =
    ground (arith, bit_and_80 (g + 128), or_group-add result (g + 128) shift)

split_value : (w s : ℕ) → w * 2 ^ s ≡ w % 128 * 2 ^ s + w / 128 * 2 ^ (s + 7)
split_value w s = omega (
  arith,
  ap (λ (t : ℕ). t * 2 ^ s) (div-add-mod w 128),
  ap (λ (t : ℕ). w / 128 * t) (pow_seven s),
)

-- At the last shift only the values 0 and 1 stay below bit 64.
top_group : (w s : ℕ) → s ≤ 63 → w * 2 ^ s < 2 ^ 64 → 63 ≤ s → w ≤ 1
top_group w s hs fits hi =
    let e : s ≡ 63 = omega arith in
    let fits' : w * 2 ^ 63 < 2 ^ 64 = subst (λ (t : ℕ). w * 2 ^ t < 2 ^ 64) e fits in omega arith

pub group_fits : (result g s : ℕ) → result < 2 ^ s → g < 128 → result + g * 2 ^ s < 2 ^ (s + 7)
group_fits result g s low hg = grind (arith, pow_seven s)

-- `k` more groups fit: together with those read so far they are the ten of a u64.
pub read_varint_loop-groups :
    (k w : ℕ) (rest : List ℕ) (pos result shift : ℕ)
    → w < 128 ^ suc k
    → shift + 7 * k ≤ 63
    → result < 2 ^ shift
    → IsU64 (result + w * 2 ^ shift)
    → read_varint_loop (groups k w ++ rest) pos result shift
      ≡ ok (result + w * 2 ^ shift, at rest (pos + length (groups k w)))
unfolding groups
read_varint_loop-groups zero w rest pos result shift hw hs low fits =
    ground (arith, read_last w rest pos result shift, top_group w shift)
read_varint_loop-groups (suc k) w rest pos result shift hw hs low fits =
    elim (Bool-cases (ltb w 128)) [
      | inl small ↦ rw small (ground (arith, read_last w rest pos result shift, top_group w shift))
      | inr big ↦ rw big (
          ground (
            arith,
            split_value w shift,
            group_fits result (w % 128) shift,
            read_more (w % 128) (groups k (w / 128) ++ rest) pos result shift,
            read_varint_loop-groups k (w / 128) rest (pos + 1) (result + w % 128 * 2 ^ shift)
                (shift + 7) (omega arith),
          ))
    ]

-- `read_varint` reads back what `write_varint` wrote, and stops where the next field begins.
pub read_varint-groups :
    (v : ℕ) (rest : List ℕ) (pos : ℕ)
    → IsU64 v
    → read_varint (at (groups 9 v ++ rest) pos) ≡ ok (v, at rest (pos + length (groups 9 v)))
unfolding read_varint
read_varint-groups v rest pos h = ground (arith, read_varint_loop-groups 9 v rest pos 0 0)

-- Reading a u64 that was written, with any bytes behind it, gives the value and the cursor
-- behind its last byte.
pub read_varint-write_varint :
    (v : ℕ) (rest : List ℕ) (pos : ℕ)
    → IsU64 v
    → read_varint (at (write_varint [] v ++ rest) pos)
      ≡ ok (v, at rest (pos + length (write_varint [] v)))
read_varint-write_varint v rest pos h =
    rw (write_varint-groups [] v h) (read_varint-groups v rest pos h)
