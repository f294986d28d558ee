-- ===== src/Proto/Fields/RoundTrip.antt =====
-- One written field, read back: tags, byte fields, u32 fields, and a round of the field loop.
use oktz_signal.Base.{ℕ, zero, suc, ◌+◌, ◌-◌, ◌*◌, ◌%◌, ◌^◌, ◌<◌, ◌≤◌, ◌≡◌, bit_or, String}
use oktz_signal.Base.{List, [], ◌∷◌, ◌++◌, append_assoc, length, length-append, arith, refl, ap}
use oktz_signal.Base.{take-length_append, drop-length_append, false, lt→ltb, is_empty}
use oktz_signal.Base.{Error, Result, ok, err}
use oktz_signal.Base.Bits.{bit_and_07, bit_or_low}
use oktz_signal.Proto.Varint.{Cursor, at, IsU32, IsU64, write_varint}
use oktz_signal.Proto.Varint.RoundTrip.{
  groups, length-groups, write_varint-groups, read_varint-groups,
}
use oktz_signal.Proto.Fields.{
  read_bytes, read_varint_u32, write_bytes, read_tag, write_tag, field_loop,
}

-- The bytes of a varint, of a tag and of a byte field.
unfoldable pub varint : ℕ → List ℕ
varint v = groups 9 v

unfoldable pub tag : ℕ → ℕ → List ℕ
tag field wire = groups 9 (field * 8 + wire)

unfoldable pub sized : List ℕ → List ℕ
sized bytes = varint (length bytes) ++ bytes

abbrev pub IsField : ℕ → ℕ → Type 0
IsField field wire = (1 ≤ field) × (field ≤ 0x1fff_ffff) × (wire < 8)

pub length-varint : (v : ℕ) → 1 ≤ length (varint v)
unfolding varint
length-varint v = length-groups 9 v

pub length-tag : (field wire : ℕ) → 1 ≤ length (tag field wire)
unfolding tag
length-tag field wire = length-groups 9 _

pub length-sized : (bytes : List ℕ) → 1 ≤ length (sized bytes)
unfolding sized
length-sized bytes = simp (length-append {0}) (omega (arith, length-varint (length bytes)))

tag_value :
    (field wire : ℕ) → IsField field wire → bit_or (field * 8 % 2 ^ 64) wire ≡ field * 8 + wire
tag_value field wire h = ground (arith, bit_or_low 3 field wire)

pub write_varint-varint : (v : ℕ) → IsU64 v → (buf : List ℕ) → write_varint buf v ≡ buf ++ varint v
unfolding varint
write_varint-varint v h buf = write_varint-groups buf v h

pub write_tag-tag :
    (field wire : ℕ)
    → IsField field wire
    → (buf : List ℕ) → write_tag buf field wire ≡ buf ++ tag field wire
unfolding write_tag tag
write_tag-tag field wire h buf =
    rw (tag_value field wire h) (write_varint-groups buf (field * 8 + wire) (omega arith))

pub write_bytes-sized :
    (bytes : List ℕ)
    → IsU64 (length bytes)
    → (buf : List ℕ) → write_bytes buf bytes ≡ buf ++ sized bytes
unfolding write_bytes sized
write_bytes-sized bytes h buf =
    rw (write_varint-varint (length bytes) h buf) (append_assoc buf (varint (length bytes)) bytes)

pub read_tag-tag :
    (field wire : ℕ) (rest : List ℕ) (pos : ℕ)
    → IsField field wire
    → read_tag (at (tag field wire ++ rest) pos)
      ≡ ok ((field, wire), at rest (pos + length (tag field wire)))
unfolding read_tag tag
read_tag-tag field wire rest pos h =
    rw (read_varint-groups (field * 8 + wire) rest pos (omega arith))
      (ground (arith, bit_and_07 (field * 8 + wire)))

pub read_varint_u32-varint :
    (v : ℕ) (name : String) (rest : List ℕ) (pos : ℕ)
    → IsU32 v
    → read_varint_u32 (at (varint v ++ rest) pos) name ≡ ok (v, at rest (pos + length (varint v)))
unfolding read_varint_u32 varint
read_varint_u32-varint v name rest pos h =
    rw (read_varint-groups v rest pos (omega arith), lt→ltb v (2 ^ 32) h)

pub read_bytes-sized :
    (bytes rest : List ℕ) (pos : ℕ)
    → IsU64 (length bytes)
    → read_bytes (at (sized bytes ++ rest) pos)
      ≡ ok (bytes, at rest (pos + length (varint (length bytes)) + length bytes))
unfolding read_bytes sized varint
read_bytes-sized bytes rest pos h =
    rw
      (
        append_assoc (groups 9 (length bytes)) bytes rest,
        read_varint-groups (length bytes) (bytes ++ rest) pos h,
      )
      (ground (
        arith,
        length-append bytes rest,
        take-length_append bytes rest,
        drop-length_append bytes rest,
      ))

nonempty : (xs ys : List ℕ) → 1 ≤ length xs → is_empty (xs ++ ys) ≡ false
nonempty [] ys h = absurd (omega arith)
nonempty (x ∷ xs) ys h = refl

module _ {S : Type 0} (arms : ℕ → ℕ → Cursor → S → Result (S × Cursor)) where
  -- A round of the loop on a written field, with fuel for it.
  pub field_loop_round :
      (fuel field wire : ℕ) (rest : List ℕ) (pos : ℕ) (s s' : S) (c : Cursor)
      → IsField field wire
      → 0 < fuel
      → arms field wire (at rest (pos + length (tag field wire))) s ≡ ok (s', c)
      → field_loop arms fuel (at (tag field wire ++ rest) pos) s ≡ field_loop arms (fuel - 1) c s'
  unfolding field_loop
  field_loop_round zero field wire rest pos s s' c h f e = elim f [ ]
  field_loop_round (suc fuel) field wire rest pos s s' c h f e =
      rw (nonempty (tag field wire) rest (length-tag field wire), field_loop)
        (rw (read_tag-tag field wire rest pos h)
          (rw e (ap (λ n. field_loop arms n c s') (omega arith))))

  pub field_loop_end : (fuel pos : ℕ) (s : S) → field_loop arms fuel (at [] pos) s ≡ ok s
  unfolding field_loop
  field_loop_end zero pos s = refl
  field_loop_end (suc fuel) pos s = refl

  -- An arm that fails ends the loop with its error.
  pub field_loop_stop :
      (fuel field wire : ℕ) (rest : List ℕ) (pos : ℕ) (s : S) (x : Error)
      → IsField field wire
      → 0 < fuel
      → arms field wire (at rest (pos + length (tag field wire))) s ≡ err x
      → field_loop arms fuel (at (tag field wire ++ rest) pos) s ≡ err x
  unfolding field_loop
  field_loop_stop zero field wire rest pos s x h f e = elim f [ ]
  field_loop_stop (suc fuel) field wire rest pos s x h f e =
      rw (nonempty (tag field wire) rest (length-tag field wire), field_loop)
        (rw (read_tag-tag field wire rest pos h) (rw e))
