-- ===== src/Proto/Fields.antt =====
-- proto.rs, the other wire helpers: byte fields, u32 fields, tags, unknown fields.
pub mod Progress
pub mod RoundTrip
use oktz_signal.Base.{
  ℕ, zero, suc, ◌+◌, ◌-◌, ◌*◌, ◌/◌, ◌%◌, ◌^◌, bit_and, bit_or, String, List, ◌++◌,
}
use oktz_signal.Base.{
  Bool, true, false, not, ◌||◌, ltb, ◌==◌, if◌then◌else◌, length, take, drop, is_empty,
}
use oktz_signal.Base.{
  Result, ok, err, ◌>>=◌, ◌>>◌, bail_if, bytes_truncated, beyond_u32, tag_overflow,
}
use oktz_signal.Base.{invalid_field_number, fixed64_truncated, fixed32_truncated, group_wire_type}
use oktz_signal.Base.{unsupported_wire_type, wrong_wire_type, out_of_fuel}
use oktz_signal.Proto.Varint.{Cursor, at, read_varint, write_varint}

-- `pos += n`
abbrev pub advance : ℕ → Cursor → Cursor
advance n c = at (drop n c.rest) (c.pos + n)

-- `usize` has the width of u64 on every target that is built.
unfoldable pub read_bytes : Cursor → Result (List ℕ × Cursor)
read_bytes c = do
  (len, c') ← read_varint c
  bail_if (ltb (length c'.rest) len) (bytes_truncated c'.pos)
  ok (take len c'.rest, advance len c')

unfoldable pub read_varint_u32 : Cursor → String → Result (ℕ × Cursor)
read_varint_u32 c name = do
  (value, c') ← read_varint c
  if ltb value (2 ^ 32) then ok (value, c') else err (beyond_u32 name value)

unfoldable pub write_bytes : List ℕ → List ℕ → List ℕ
write_bytes buf bytes = write_varint buf (length bytes) ++ bytes

-- The field number and the wire type.
unfoldable pub read_tag : Cursor → Result ((ℕ × ℕ) × Cursor)
read_tag c = do
  (tag, c') ← read_varint c
  bail_if (ltb (2 ^ 32 - 1) tag) tag_overflow
  let field = tag % 2 ^ 32 / 2 ^ 3
  let wire = bit_and tag 0x07 % 2 ^ 32
  bail_if ((field == 0) || ltb 0x1fff_ffff field) invalid_field_number
  ok ((field, wire), c')

unfoldable pub write_tag : List ℕ → ℕ → ℕ → List ℕ
write_tag buf field wire = write_varint buf (bit_or (field * 2 ^ 3 % 2 ^ 64) wire)

unfoldable pub skip_field : Cursor → ℕ → Result Cursor
skip_field c wire =
    if wire == 0
    then (do (_, c') ← read_varint c; ok c')
    else if wire == 1
    then (do bail_if (ltb (length c.rest) 8) fixed64_truncated; ok (advance 8 c))
    else if wire == 2
    then (do (_, c') ← read_bytes c; ok c')
    else if (wire == 3) || (wire == 4)
    then err group_wire_type
    else if wire == 5
    then (do bail_if (ltb (length c.rest) 4) fixed32_truncated; ok (advance 4 c))
    else err (unsupported_wire_type wire)

unfoldable pub expect_wire : ℕ → String → ℕ → ℕ → Result (Unit {0})
expect_wire field name got want = bail_if (not (got == want)) (wrong_wire_type field name got want)

-- `while pos < bytes.len() { let (field, wire) = read_tag(...)?; match field { ... } }`, the loop
-- of both decoders, over what the arms of its match do to the state of the decoder.
module _ {S : Type 0} (arms : ℕ → ℕ → Cursor → S → Result (S × Cursor)) where
  pub field_loop : ℕ → Cursor → S → Result S
  field_loop zero c s = if is_empty c.rest then ok s else err out_of_fuel
  field_loop (suc fuel) c s = elim (is_empty c.rest) [
    | true ↦ ok s
    | false ↦ do
      ((field, wire), c') ← read_tag c
      (s', c'') ← arms field wire c' s
      field_loop fuel c'' s'
  ]

  -- A tag takes a byte at least, so a round for each byte is enough.
  unfoldable pub decode_fields : List ℕ → S → Result S
  unfolding field_loop
  decode_fields bytes s = field_loop (length bytes) (at bytes 0) s
