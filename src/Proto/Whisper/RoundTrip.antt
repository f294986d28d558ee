-- ===== src/Proto/Whisper/RoundTrip.antt =====
-- `decode_whisper` reads back what `encode_whisper` wrote.
use oktz_signal.Base.{ℕ, ◌+◌, ◌-◌, ◌≤◌, ◌≡◌, ◌∙◌, List, [], ◌++◌, append_assoc, append-nil}
use oktz_signal.Base.{length, length-append, arith, false, true, is_empty, ok, ◌>>=◌}
use oktz_signal.Proto.Varint.{at, IsU32, IsU64}
use oktz_signal.Proto.Fields.{field_loop, expect_wire}
use oktz_signal.Proto.Fields.RoundTrip.{varint, tag, sized, length-tag}
use oktz_signal.Proto.Fields.RoundTrip.{write_varint-varint, write_tag-tag, write_bytes-sized}
use oktz_signal.Proto.Fields.RoundTrip.{
  read_varint_u32-varint, read_bytes-sized, field_loop_round, field_loop_end,
}
use oktz_signal.Proto.Whisper.{WhisperMessage, Partial, start, whisper_arms}
use oktz_signal.Proto.Whisper.{decode_whisper, encode_whisper}

-- A message that the wire can carry: u32 counters, and byte fields that are not empty.
pub record IsSendable (msg : WhisperMessage) : Type 0 where
  pub key_present : is_empty msg.ephemeral_key ≡ false
  pub key_length : IsU64 (length msg.ephemeral_key)
  pub counter_fits : IsU32 msg.counter
  pub previous_fits : IsU32 msg.previous_counter
  pub text_present : is_empty msg.ciphertext ≡ false
  pub text_length : IsU64 (length msg.ciphertext)

-- The wire form: four fields in order, and what follows.
unfoldable pub whisper_fields : WhisperMessage → List ℕ → List ℕ
whisper_fields msg more =
    tag 1 2
    ++ (sized msg.ephemeral_key
        ++ (tag 2 0
            ++ (varint msg.counter
                ++ (tag 3 0
                    ++ (varint msg.previous_counter
                        ++ (tag 4 2 ++ (sized msg.ciphertext ++ more)))))))

unfoldable pub whisper_bytes : WhisperMessage → List ℕ
unfolding whisper_fields
whisper_bytes msg = whisper_fields msg []

pub whisper_fields-append :
    (msg : WhisperMessage) (more : List ℕ) → whisper_bytes msg ++ more ≡ whisper_fields msg more
unfolding whisper_bytes whisper_fields
whisper_fields-append msg more = simp append_assoc

-- The arm of each field on what the encoder wrote for it.
module _ (rest : List ℕ) (pos : ℕ) (s : Partial) where
  pub read_ephemeral_key :
      (v : List ℕ)
      → IsU64 (length v)
      → whisper_arms 1 2 (at (sized v ++ rest) pos) s
        ≡ ok (
          record s { msg = record (s.msg) { ephemeral_key = v }; seen_ephemeral_key = true },
          at rest (pos + length (varint (length v)) + length v),
        )
  unfolding whisper_arms expect_wire
  read_ephemeral_key v h = rw (read_bytes-sized v rest pos h)

  pub read_counter :
      (v : ℕ)
      → IsU32 v
      → whisper_arms 2 0 (at (varint v ++ rest) pos) s
        ≡ ok (record s { msg = record (s.msg) { counter = v } }, at rest (pos + length (varint v)))
  unfolding whisper_arms expect_wire
  read_counter v h = rw (read_varint_u32-varint v "counter" rest pos h)

  pub read_previous_counter :
      (v : ℕ)
      → IsU32 v
      → whisper_arms 3 0 (at (varint v ++ rest) pos) s
        ≡ ok (
          record s { msg = record (s.msg) { previous_counter = v } },
          at rest (pos + length (varint v)),
        )
  unfolding whisper_arms expect_wire
  read_previous_counter v h = rw (read_varint_u32-varint v "previous_counter" rest pos h)

  pub read_ciphertext :
      (v : List ℕ)
      → IsU64 (length v)
      → whisper_arms 4 2 (at (sized v ++ rest) pos) s
        ≡ ok (
          record s { msg = record (s.msg) { ciphertext = v }; seen_ciphertext = true },
          at rest (pos + length (varint (length v)) + length v),
        )
  unfolding whisper_arms expect_wire
  read_ciphertext v h = rw (read_bytes-sized v rest pos h)

module _ (msg : WhisperMessage) (sendable : IsSendable msg) where
  pub encode_whisper-bytes : encode_whisper msg ≡ ok (whisper_bytes msg)
  unfolding encode_whisper whisper_bytes
  encode_whisper-bytes = simp (
    write_tag-tag 1 2 (omega arith),
    write_bytes-sized msg.ephemeral_key sendable.key_length,
    write_tag-tag 2 0 (omega arith),
    write_varint-varint msg.counter (omega arith),
    write_tag-tag 3 0 (omega arith),
    write_varint-varint msg.previous_counter (omega arith),
    write_tag-tag 4 2 (omega arith),
    write_bytes-sized msg.ciphertext sendable.text_length,
    append_assoc,
    append-nil,
  )

  pub enough_fuel : 4 ≤ length (whisper_bytes msg)
  unfolding whisper_bytes
  enough_fuel =
      simp (length-append {0})
        (omega (arith, length-tag 1 2, length-tag 2 0, length-tag 3 0, length-tag 4 2))

  abbrev pub decoded : Partial
  decoded = record { msg = msg; seen_ephemeral_key = true; seen_ciphertext = true }

  pub whisper_rounds :
      (fuel pos : ℕ) (more : List ℕ)
      → 4 ≤ fuel
      → (end : ℕ) × (field_loop whisper_arms fuel (at (whisper_fields msg more) pos) start
          ≡ field_loop whisper_arms (fuel - 1 - 1 - 1 - 1) (at more end) decoded)
  unfolding whisper_fields
  whisper_rounds fuel pos more h = (
    _,
    field_loop_round whisper_arms fuel 1 2 _ pos start _ _ (omega arith) (omega arith)
          (read_ephemeral_key _ _ start msg.ephemeral_key sendable.key_length)
        ∙ field_loop_round whisper_arms (fuel - 1) 2 0 _ _ _ _ _ (omega arith) (omega arith)
            (read_counter _ _ _ msg.counter sendable.counter_fits)
        ∙ field_loop_round whisper_arms (fuel - 1 - 1) 3 0 _ _ _ _ _ (omega arith) (omega arith)
            (read_previous_counter _ _ _ msg.previous_counter sendable.previous_fits)
        ∙ field_loop_round whisper_arms (fuel - 1 - 1 - 1) 4 2 _ _ _ _ _ (omega arith) (omega arith)
            (read_ciphertext more _ _ msg.ciphertext sendable.text_length),
  )

  pub decode_whisper-bytes : decode_whisper (whisper_bytes msg) ≡ ok msg
  unfolding decode_whisper whisper_bytes
  decode_whisper-bytes =
      let (end, rounds) = whisper_rounds (length (whisper_bytes msg)) 0 [] enough_fuel in
      rw (rounds, field_loop_end whisper_arms _ end decoded)
        (ground (arith, sendable.key_present, sendable.text_present))

-- Decoding what the encoder wrote for a message with u32 counters and with an ephemeral key and a
-- ciphertext that are not empty gives that message back.
pub decode_whisper-encode_whisper :
    (msg : WhisperMessage) → IsSendable msg → (encode_whisper msg >>= decode_whisper) ≡ ok msg
decode_whisper-encode_whisper msg sendable =
    rw (encode_whisper-bytes msg sendable) (decode_whisper-bytes msg sendable)
