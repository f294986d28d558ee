-- ===== src/Proto/Whisper/Written.antt =====
-- proto.rs: fields that a `WhisperMessage` may hold, in any order, and the decoder on them.
use oktz_signal.Base.{ℕ, ◌+◌, ◌-◌, ◌<◌, ◌≤◌, ◌≡◌, sym, ◌∙◌, List, [], ◌∷◌, ◌++◌, length, arith}
use oktz_signal.Base.{append_assoc, append-nil, length-append, Error, ok, err}
use oktz_signal.Proto.Varint.{Cursor, at, IsU32, IsU64, write_varint}
use oktz_signal.Proto.Fields.{write_tag, write_bytes, field_loop}
use oktz_signal.Proto.Fields.RoundTrip.{
  IsField, tag, varint, sized, write_tag-tag, write_varint-varint, write_bytes-sized, length-tag,
  field_loop_round, field_loop_stop,
}
use oktz_signal.Proto.Whisper.{Partial, whisper_arms}
use oktz_signal.Proto.Whisper.RoundTrip.{
  read_ephemeral_key, read_counter, read_previous_counter, read_ciphertext,
}
use oktz_signal.Proto.Whisper.Unknown.{skip_varint}

pub data Field : Type 0 where
  key_field : List ℕ → Field
  counter_field : ℕ → Field
  previous_field : ℕ → Field
  text_field : List ℕ → Field
  unknown_field : ℕ → ℕ → Field

-- What the writers make of a field.
abbrev pub write_field : List ℕ → Field → List ℕ
write_field buf (key_field v) = write_bytes (write_tag buf 1 2) v
write_field buf (counter_field v) = write_varint (write_tag buf 2 0) v
write_field buf (previous_field v) = write_varint (write_tag buf 3 0) v
write_field buf (text_field v) = write_bytes (write_tag buf 4 2) v
write_field buf (unknown_field n v) = write_varint (write_tag buf n 0) v

abbrev pub write_fields : List ℕ → List Field → List ℕ
write_fields buf [] = buf
write_fields buf (f ∷ fs) = write_fields (write_field buf f) fs

-- The writers keep it and the decoder accepts it.
abbrev pub IsWritable : Field → Type 0
IsWritable (key_field v) = IsU64 (length v)
IsWritable (counter_field v) = IsU32 v
IsWritable (previous_field v) = IsU32 v
IsWritable (text_field v) = IsU64 (length v)
IsWritable (unknown_field n v) = (5 ≤ n) × (n ≤ 0x1fff_ffff) × IsU64 v

abbrev pub AllWritable : List Field → Type 0
AllWritable [] = Unit
AllWritable (f ∷ fs) = IsWritable f × AllWritable fs

abbrev number : Field → ℕ
number (key_field v) = 1
number (counter_field v) = 2
number (previous_field v) = 3
number (text_field v) = 4
number (unknown_field n v) = n

abbrev wire_type : Field → ℕ
wire_type (key_field v) = 2
wire_type (counter_field v) = 0
wire_type (previous_field v) = 0
wire_type (text_field v) = 2
wire_type (unknown_field n v) = 0

abbrev payload : Field → List ℕ
payload (key_field v) = sized v
payload (counter_field v) = varint v
payload (previous_field v) = varint v
payload (text_field v) = sized v
payload (unknown_field n v) = varint v

abbrev field_bytes : Field → List ℕ
unfolding tag
field_bytes f = tag (number f) (wire_type f) ++ payload f

unfoldable pub fields_bytes : List Field → List ℕ
unfolding field_bytes
fields_bytes [] = []
fields_bytes (f ∷ fs) = field_bytes f ++ fields_bytes fs

number-IsField : (f : Field) → IsWritable f → IsField (number f) (wire_type f)
number-IsField (key_field v) h = (omega arith, omega arith, omega arith)
number-IsField (counter_field v) h = (omega arith, omega arith, omega arith)
number-IsField (previous_field v) h = (omega arith, omega arith, omega arith)
number-IsField (text_field v) h = (omega arith, omega arith, omega arith)
number-IsField (unknown_field n v) (lo, hi, u) = (omega arith, omega arith, omega arith)

write_varint_field :
    (n v : ℕ) (buf : List ℕ)
    → IsField n 0
    → IsU64 v
    → write_varint (write_tag buf n 0) v ≡ buf ++ (tag n 0 ++ varint v)
write_varint_field n v buf h u =
    rw (write_tag-tag n 0 h buf, write_varint-varint v u) (append_assoc buf (tag n 0) (varint v))

write_bytes_field :
    (n : ℕ) (v buf : List ℕ)
    → IsField n 2
    → IsU64 (length v)
    → write_bytes (write_tag buf n 2) v ≡ buf ++ (tag n 2 ++ sized v)
write_bytes_field n v buf h u =
    rw (write_tag-tag n 2 h buf, write_bytes-sized v u) (append_assoc buf (tag n 2) (sized v))

write_field-bytes :
    (f : Field) → IsWritable f → (buf : List ℕ) → write_field buf f ≡ buf ++ field_bytes f
unfolding field_bytes
write_field-bytes (key_field v) h buf = write_bytes_field 1 v buf (number-IsField (key_field v) h) h
write_field-bytes (counter_field v) h buf =
    write_varint_field 2 v buf (number-IsField (counter_field v) h) (omega arith)
write_field-bytes (previous_field v) h buf =
    write_varint_field 3 v buf (number-IsField (previous_field v) h) (omega arith)
write_field-bytes (text_field v) h buf =
    write_bytes_field 4 v buf (number-IsField (text_field v) h) h
write_field-bytes (unknown_field n v) h buf =
    write_varint_field n v buf (number-IsField (unknown_field n v) h) h.2

pub write_fields-bytes :
    (fs : List Field)
    → AllWritable fs
    → (buf : List ℕ) → write_fields buf fs ≡ buf ++ fields_bytes fs
unfolding fields_bytes
write_fields-bytes [] h buf = sym (append-nil buf)
write_fields-bytes (f ∷ fs) (h, hs) buf =
    write_fields-bytes fs hs (write_field buf f)
    ∙ rw (write_field-bytes f h buf) (append_assoc buf (field_bytes f) (fields_bytes fs))

-- The arm of a written field takes it off the input.
takes :
    (f : Field) (rest : List ℕ) (pos : ℕ) (s : Partial)
    → IsWritable f
    → (s' : Partial) × (end : ℕ) × (whisper_arms
          (number f)
          (wire_type f)
          (at (payload f ++ rest) pos)
          s
        ≡ ok (s', at rest end))
takes (key_field v) rest pos s h = (_, _, read_ephemeral_key rest pos s v h)
takes (counter_field v) rest pos s h = (_, _, read_counter rest pos s v h)
takes (previous_field v) rest pos s h = (_, _, read_previous_counter rest pos s v h)
takes (text_field v) rest pos s h = (_, _, read_ciphertext rest pos s v h)
takes (unknown_field n v) rest pos s (lo, hi, u) = (_, _, skip_varint n v rest pos s lo u)

-- A field whose arm fails, behind written fields, ends the loop with its error.
pub fields_stop :
    (fs : List Field) (field wire : ℕ) (rest : List ℕ) (fuel pos : ℕ) (s : Partial) (x : Error)
    → AllWritable fs
    → IsField field wire
    → ((c : Cursor) (t : Partial) → whisper_arms field wire c t ≡ err x)
    → length fs < fuel
    → field_loop whisper_arms fuel (at (fields_bytes fs ++ (tag field wire ++ rest)) pos) s ≡ err x
unfolding fields_bytes
fields_stop [] field wire rest fuel pos s x h is_field fails room =
    field_loop_stop whisper_arms fuel field wire rest pos s x is_field (omega arith) (fails _ s)
fields_stop (f ∷ fs) field wire rest fuel pos s x (h, hs) is_field fails room =
    (let more = fields_bytes fs ++ (tag field wire ++ rest) in
      let (s', end, e) = takes f more (pos + length (tag (number f) (wire_type f))) s h in
      rw
        (
          append_assoc (field_bytes f) (fields_bytes fs) (tag field wire ++ rest),
          append_assoc (tag (number f) (wire_type f)) (payload f) more,
        )
        (field_loop_round whisper_arms fuel (number f) (wire_type f) (payload f ++ more) pos s s'
            (at more end) (number-IsField f h) (omega arith) e
          ∙ fields_stop fs field wire rest (fuel - 1) end s' x hs is_field fails (omega arith)))

-- Each field takes a byte at least.
pub room_for :
    (fs : List Field) (more : List ℕ)
    → 1 ≤ length more
    → length fs < length (fields_bytes fs ++ more)
unfolding fields_bytes
room_for [] more h = omega arith
room_for (f ∷ fs) more h = omega (
  arith,
  length-append (field_bytes f ++ fields_bytes fs) more,
  length-append (field_bytes f) (fields_bytes fs),
  length-append (tag (number f) (wire_type f)) (payload f),
  length-tag (number f) (wire_type f),
  length-append (fields_bytes fs) more,
  room_for fs more h,
)
