-- ===== src/Proto/Whisper/Sound.antt =====
-- What `decode_whisper` accepts and what it refuses.
use oktz_signal.Base.{ℕ, ◌≤◌, ◌≡◌, ◌≢◌, List, length, arith}
use oktz_signal.Base.{ok, err, out_of_fuel, ◌>>=◌, true, ◌==◌}
use oktz_signal.Base.{Bool-cases, inl, inr}
use oktz_signal.Base.Post.{Post, Post-err, Post-cases}
use oktz_signal.Proto.Varint.{Cursor, IsU32, IsU64}
use oktz_signal.Proto.Fields.Progress.{
  Kept, read_bytes-Taken, read_varint_u32-Small, unknown_field-Post,
}
use oktz_signal.Proto.Fields.Progress.{known_field-Post, decode_fields-Post}
use oktz_signal.Proto.Whisper.{
  WhisperMessage, Partial, start, whisper_arms, finish_whisper, decode_whisper,
}
use oktz_signal.Proto.Whisper.{encode_whisper}
use oktz_signal.Proto.Whisper.RoundTrip.{IsSendable, decode_whisper-encode_whisper}

-- What every arm keeps, on `n` bytes of input.
record Fits (n : ℕ) (s : Partial) : Type 0 where
  key_length : length s.msg.ephemeral_key ≤ n
  counter_fits : IsU32 s.msg.counter
  previous_fits : IsU32 s.msg.previous_counter
  text_length : length s.msg.ciphertext ≤ n

whisper_arms-Fits :
    (n field wire : ℕ) (c : Cursor) (s : Partial)
    → Fits n s
    → length c.rest ≤ n
    → Post (Kept (Fits n) (length c.rest)) (whisper_arms field wire c s)
unfolding whisper_arms
whisper_arms-Fits n field wire c s p h = elim (Bool-cases (field == 1)) [
  | inl e ↦
      rw (e, whisper_arms)
        (known_field-Post (Fits n) (length c.rest)
          (λ (v, d).
            (record s { msg = record (s.msg) { ephemeral_key = v }; seen_ephemeral_key = true }, d))
          field "ephemeral_key" wire 2 (read_bytes-Taken c) (λ a q. omega arith))
  | inr e ↦ elim (Bool-cases (field == 2)) [
    | inl e' ↦
        rw (e, e', whisper_arms)
          (known_field-Post (Fits n) (length c.rest)
            (λ (v, d). (record s { msg = record (s.msg) { counter = v } }, d)) field "counter" wire
            0 (read_varint_u32-Small c _) (λ a q. omega arith))
    | inr e' ↦ elim (Bool-cases (field == 3)) [
      | inl e'' ↦
          rw (e, e', e'', whisper_arms)
            (known_field-Post (Fits n) (length c.rest)
              (λ (v, d). (record s { msg = record (s.msg) { previous_counter = v } }, d)) field
              "previous_counter" wire 0 (read_varint_u32-Small c _) (λ a q. omega arith))
      | inr e'' ↦ elim (Bool-cases (field == 4)) [
        | inl e3 ↦
            rw (e, e', e'', e3, whisper_arms)
              (known_field-Post (Fits n) (length c.rest)
                (λ (v, d).
                  (record s { msg = record (s.msg) { ciphertext = v }; seen_ciphertext = true }, d))
                field "ciphertext" wire 2 (read_bytes-Taken c) (λ a q. omega arith))
        | inr e3 ↦ rw (e, e', e'', e3, whisper_arms) (unknown_field-Post (Fits n) s c wire p)
      ]
    ]
  ]
]

finish_whisper-IsSendable :
    (n : ℕ) (s : Partial) → IsU64 n → Fits n s → Post IsSendable (finish_whisper s)
unfolding finish_whisper
finish_whisper-IsSendable n s small p = record {
  ends = λ q. ground arith;
  holds = λ msg q. ground arith;
}

decode_whisper-Post :
    (bytes : List ℕ) → IsU64 (length bytes) → Post IsSendable (decode_whisper bytes)
unfolding decode_whisper
decode_whisper-Post bytes small =
    elim (Post-cases (
      decode_fields-Post whisper_arms (Fits (length bytes)) bytes (whisper_arms-Fits (length bytes))
        start (omega arith))) [
          | inl (s, e, p) ↦
              rw (e, decode_whisper) (finish_whisper-IsSendable (length bytes) s small p)
          | inr (x, e, n) ↦ rw (e, decode_whisper) (Post-err x n)
        ]

-- On every input the decoder ends: it returns a message or one of the errors of the source.
pub decode_whisper-ends :
    (bytes : List ℕ) → IsU64 (length bytes) → decode_whisper bytes ≢ err out_of_fuel
decode_whisper-ends bytes small = (decode_whisper-Post bytes small).ends

-- A message that is accepted has u32 counters and an ephemeral key and a ciphertext that are not
-- empty, so encoding it and decoding again gives the same message.
pub decode_whisper-IsSendable :
    (bytes : List ℕ) (msg : WhisperMessage)
    → IsU64 (length bytes)
    → decode_whisper bytes ≡ ok msg
    → IsSendable msg × ((encode_whisper msg >>= decode_whisper) ≡ ok msg)
decode_whisper-IsSendable bytes msg small e =
    let sendable = (decode_whisper-Post bytes small).holds msg e in
    (sendable, decode_whisper-encode_whisper msg sendable)
