-- ===== src/Proto/Varint.antt =====
-- proto.rs, `read_varint` and `write_varint`: little-endian groups of seven bits.
-- `bytes` with `pos` is a cursor: what is left from `pos` on, and `pos` itself, which the
-- messages print. A buffer that is written to is the list of its bytes.
pub mod Bounds
pub mod RoundTrip
use mathlib.Core.Logic.{dite}
use mathlib.Core.WellFounded.{Acc}
use native.Mathlib.Decide.{dec_lt}
use oktz_signal.Base.{ℕ, ◌+◌, ◌*◌, ◌/◌, ◌%◌, ◌^◌, ◌<◌, bit_and, bit_or, List, [], ◌∷◌, ◌++◌}
use oktz_signal.Base.{Result, ok, err, varint_truncated, varint_too_long, arith}
use oktz_signal.Base.{ltb, leb, ◌==◌, if◌then◌else◌, ◌&&◌}
use oktz_signal.Base.Order.{lt_wf}

pub record Cursor : Type 0 where
  pub rest : List ℕ
  pub pos : ℕ

abbrev pub at : List ℕ → ℕ → Cursor
at rest pos = record { rest = rest; pos = pos }

abbrev pub IsByte : ℕ → Type 0
IsByte b = b < 256

abbrev pub IsU32 : ℕ → Type 0
IsU32 v = v < 2 ^ 32

abbrev pub IsU64 : ℕ → Type 0
IsU64 v = v < 2 ^ 64

-- `result |= ((b & 0x7f) as u64) << shift`
pub or_group : ℕ → ℕ → ℕ → ℕ
or_group result b shift = bit_or result (bit_and b 0x7f * 2 ^ shift % 2 ^ 64)

-- The shift stays at 63 or below: at 63 every byte ends the loop.
pub read_varint_loop : List ℕ → ℕ → ℕ → ℕ → Result (ℕ × Cursor)
read_varint_loop [] pos result shift = err (varint_truncated pos)
read_varint_loop (b ∷ rest) pos result shift =
    let result' = or_group result b shift in
    let more = read_varint_loop rest (pos + 1) result' (shift + 7) in
    if leb 63 shift && ltb 1 b
    then err varint_too_long
    else if bit_and b 0x80 == 0
    then ok (result', at rest (pos + 1))
    else more

unfoldable pub read_varint : Cursor → Result (ℕ × Cursor)
unfolding read_varint_loop or_group
read_varint c = read_varint_loop c.rest c.pos 0 0

shift_shrinks : (v : ℕ) → 0 < v / 128 → v / 128 < v
shift_shrinks v h = omega arith

-- `(v & 0x7f) as u8` and `v >>= 7`; the loop goes on while the shifted value is not 0.
pub write_varint_loop : List ℕ → (v : ℕ) → Acc ◌<◌ v → List ℕ
write_varint_loop buf v (Acc.intro _ smaller) =
    let byte = bit_and v 0x7f % 256 in
    dite (dec_lt 0 (v / 128))
      (λ more.
        write_varint_loop (buf ++ (bit_or byte 0x80 ∷ [])) (v / 128)
          (smaller _ (shift_shrinks v more)))
      (λ _. buf ++ (byte ∷ []))

unfoldable pub write_varint : List ℕ → ℕ → List ℕ
unfolding write_varint_loop shift_shrinks lt_wf dec_lt
write_varint buf value = write_varint_loop buf value (lt_wf.apply value)
