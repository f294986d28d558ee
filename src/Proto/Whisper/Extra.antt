-- ===== src/Proto/Whisper/Extra.antt =====
-- proto.rs: an unknown field behind a message is skipped, and a known one at the wrong wire type is
-- refused wherever it stands.
use oktz_signal.Base.{
  ℕ, ◌+◌, ◌-◌, ◌<◌, ◌≤◌, ◌≡◌, ◌≢◌, List, [], ◌++◌, length, arith, append_assoc, append-nil,
}
use oktz_signal.Base.{ok, err, ◌>>=◌, wrong_wire_type, String, ◌==◌}
use oktz_signal.Base.{length-append, if◌then◌else◌}
use oktz_signal.Proto.Varint.{Cursor, IsU64, write_varint}
use oktz_signal.Proto.Fields.{write_tag, expect_wire}
use oktz_signal.Proto.Fields.RoundTrip.{
  IsField, tag, varint, write_tag-tag, write_varint-varint, length-tag,
}
use oktz_signal.Proto.Fields.RoundTrip.{field_loop_round, field_loop_end}
use oktz_signal.Proto.Whisper.{WhisperMessage, Partial, start, whisper_arms}
use oktz_signal.Proto.Whisper.{decode_whisper, encode_whisper}
use oktz_signal.Proto.Whisper.RoundTrip.{
  IsSendable, whisper_bytes, whisper_fields, whisper_fields-append,
}
use oktz_signal.Proto.Whisper.Unknown.{skip_varint}
use oktz_signal.Proto.Whisper.Written.{
  Field, AllWritable, write_fields, fields_bytes, write_fields-bytes, fields_stop, room_for,
}
use oktz_signal.Proto.Whisper.RoundTrip.{encode_whisper-bytes, whisper_rounds, decoded, enough_fuel}

-- The wire type that a known field must have.
abbrev pub wire_of : ℕ → ℕ
wire_of field = if (field == 1) then 2 else if (field == 4) then 2 else 0

abbrev pub name_of : ℕ → String
name_of field =
    if field == 1
    then "ephemeral_key"
    else if field == 2
    then "counter"
    else if field == 3
    then "previous_counter"
    else "ciphertext"

refuse_wire :
    (field wire : ℕ) (c : Cursor) (s : Partial)
    → 1 ≤ field
    → field ≤ 4
    → wire ≢ wire_of field
    → whisper_arms field wire c s ≡ err (wrong_wire_type field (name_of field) wire (wire_of field))
unfolding whisper_arms expect_wire
refuse_wire field wire c s lo hi ne = ground arith

module _ (msg : WhisperMessage) (sendable : IsSendable msg) where
  room : (more : List ℕ) → length more + 4 ≤ length (whisper_fields msg more)
  room more =
      rw (← whisper_fields-append msg more)
        (simp (length-append {0}) (omega (arith, enough_fuel msg sendable)))

  -- One more field behind the four, as the loop sees it.
  skip_rounds :
      (field v : ℕ)
      → 5 ≤ field
      → IsField field 0
      → IsU64 v
      → decode_whisper (whisper_fields msg (tag field 0 ++ (varint v ++ []))) ≡ ok msg
  unfolding decode_whisper
  skip_rounds field v lo h u =
      let more = tag field 0 ++ (varint v ++ []) in
      let space = room more in
      let (end, rounds) =
        whisper_rounds msg sendable (length (whisper_fields msg more)) 0 more (omega arith) in
      let last =
        field_loop_round whisper_arms (length (whisper_fields msg more) - 1 - 1 - 1 - 1) field 0
          (varint v ++ []) end (decoded msg sendable) _ _ h
          (omega (arith, length-tag field 0, length-append (tag field 0) (varint v ++ [])))
          (skip_varint field v [] _ (decoded msg sendable) lo u) in
      rw (rounds, last, field_loop_end whisper_arms)
        (ground (arith, sendable.key_present, sendable.text_present))

  -- A varint field with a number above 4 behind an encoded message is skipped.
  pub decode_whisper_skips :
      (field v : ℕ)
      → 5 ≤ field
      → field ≤ 0x1fff_ffff
      → IsU64 v
      → (encode_whisper msg >>= λ buf. decode_whisper (write_varint (write_tag buf field 0) v))
        ≡ ok msg
  decode_whisper_skips field v lo hi u = rw (encode_whisper-bytes msg sendable) (
      rw
        (
          write_tag-tag field 0 (omega arith) (whisper_bytes msg),
          write_varint-varint v u,
          append_assoc (whisper_bytes msg) (tag field 0) (varint v),
          whisper_fields-append msg,
          ← append-nil (varint v),
        )
        (skip_rounds field v lo (omega arith) u))

-- Behind any sequence of written fields, none included, one of the four fields at another wire type
-- than its own is refused with the field's number and name and both wire types, whatever follows.
-- The fields before it are the four known ones, in any order and any number of times, and varint
-- fields with numbers above 4, with counters that fit u32 and bytes and values that fit u64.
pub decode_whisper_refuses :
    (before : List Field) (field wire : ℕ) (rest : List ℕ)
    → AllWritable before
    → 1 ≤ field
    → field ≤ 4
    → wire < 8
    → wire ≢ wire_of field
    → decode_whisper (write_tag (write_fields [] before) field wire ++ rest)
      ≡ err (wrong_wire_type field (name_of field) wire (wire_of field))
unfolding decode_whisper
decode_whisper_refuses before field wire rest writable lo hi hw ne =
    (let is_field : IsField field wire = (omega arith, omega arith, omega arith) in
      rw
        (
          write_fields-bytes before writable [],
          write_tag-tag field wire is_field (fields_bytes before),
          append_assoc (fields_bytes before) (tag field wire) rest,
        )
        (rw (
          fields_stop before field wire rest
            (length (fields_bytes before ++ (tag field wire ++ rest))) 0 start
            (wrong_wire_type field (name_of field) wire (wire_of field)) writable is_field
            (λ c s. refuse_wire field wire c s lo hi ne)
            (room_for before (tag field wire ++ rest)
              (omega (arith, length-tag field wire, length-append (tag field wire) rest))))))
