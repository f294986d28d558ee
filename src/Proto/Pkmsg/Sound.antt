-- ===== src/Proto/Pkmsg/Sound.antt =====
-- What `decode_pkmsg` accepts.
use oktz_signal.Base.{ℕ, ◌≤◌, ◌≡◌, ◌≢◌, List, length, arith, some, true}
use oktz_signal.Base.{ok, err, out_of_fuel, ◌>>=◌, ◌==◌, Bool-cases, inl, inr}
use oktz_signal.Base.Post.{Post, Post-err, Post-cases}
use oktz_signal.Proto.Varint.{Cursor, IsU32, IsU64}
use oktz_signal.Proto.Fields.Progress.{
  Kept, read_bytes-Taken, read_varint_u32-Small, unknown_field-Post,
}
use oktz_signal.Proto.Fields.Progress.{known_field-Post, decode_fields-Post}
use oktz_signal.Proto.Pkmsg.{
  PreKeyWhisperMessage, Partial, start, pkmsg_arms, finish_pkmsg, decode_pkmsg,
}
use oktz_signal.Proto.Pkmsg.{encode_pkmsg}
use oktz_signal.Proto.Pkmsg.RoundTrip.{FitsU32, IsSendable, decode_pkmsg-encode_pkmsg}

-- What every arm keeps, on `n` bytes of input.
record Fits (n : ℕ) (s : Partial) : Type 0 where
  pre_key_fits : FitsU32 s.msg.pre_key_id
  base_length : length s.msg.base_key ≤ n
  identity_length : length s.msg.identity_key ≤ n
  message_length : length s.msg.message ≤ n
  registration_fits : IsU32 s.msg.registration_id
  signed_fits : FitsU32 s.msg.signed_pre_key_id

pkmsg_arms-Fits :
    (n field wire : ℕ) (c : Cursor) (s : Partial)
    → Fits n s
    → length c.rest ≤ n
    → Post (Kept (Fits n) (length c.rest)) (pkmsg_arms field wire c s)
unfolding pkmsg_arms
pkmsg_arms-Fits n field wire c s p h = elim (Bool-cases (field == 1)) [
  | inl e1 ↦
      rw (e1, pkmsg_arms)
        (known_field-Post (Fits n) (length c.rest)
          (λ (v, d). (record s { msg = record (s.msg) { pre_key_id = some v } }, d)) field
          "pre_key_id" wire 0 (read_varint_u32-Small c _) (λ a q. ground arith))
  | inr e1 ↦ elim (Bool-cases (field == 2)) [
    | inl e2 ↦
        rw (e1, e2, pkmsg_arms)
          (known_field-Post (Fits n) (length c.rest)
            (λ (v, d).
              (record s { msg = record (s.msg) { base_key = v }; seen_base_key = true }, d))
            field "base_key" wire 2 (read_bytes-Taken c) (λ a q. ground arith))
    | inr e2 ↦ elim (Bool-cases (field == 3)) [
      | inl e3 ↦
          rw (e1, e2, e3, pkmsg_arms)
            (known_field-Post (Fits n) (length c.rest)
              (λ (v, d). (
                record s { msg = record (s.msg) { identity_key = v }; seen_identity_key = true },
                d,
              ))
              field "identity_key" wire 2 (read_bytes-Taken c) (λ a q. ground arith))
      | inr e3 ↦ elim (Bool-cases (field == 4)) [
        | inl e4 ↦
            rw (e1, e2, e3, e4, pkmsg_arms)
              (known_field-Post (Fits n) (length c.rest)
                (λ (v, d).
                  (record s { msg = record (s.msg) { message = v }; seen_message = true }, d))
                field "message" wire 2 (read_bytes-Taken c) (λ a q. ground arith))
        | inr e4 ↦ elim (Bool-cases (field == 5)) [
          | inl e5 ↦
              rw (e1, e2, e3, e4, e5, pkmsg_arms)
                (known_field-Post (Fits n) (length c.rest)
                  (λ (v, d). (
                    record s {
                      msg = record (s.msg) { registration_id = v };
                      seen_registration_id = true;
                    },
                    d,
                  ))
                  field "registration_id" wire 0 (read_varint_u32-Small c _) (λ a q. ground arith))
          | inr e5 ↦ elim (Bool-cases (field == 6)) [
            | inl e6 ↦
                rw (e1, e2, e3, e4, e5, e6, pkmsg_arms)
                  (known_field-Post (Fits n) (length c.rest)
                    (λ (v, d).
                      (record s { msg = record (s.msg) { signed_pre_key_id = some v } }, d))
                    field "signed_pre_key_id" wire 0 (read_varint_u32-Small c _)
                    (λ a q. ground arith))
            | inr e6 ↦
                rw (e1, e2, e3, e4, e5, e6, pkmsg_arms) (unknown_field-Post (Fits n) s c wire p)
          ]
        ]
      ]
    ]
  ]
]

finish_pkmsg-IsSendable :
    (n : ℕ) (s : Partial) → IsU64 n → Fits n s → Post IsSendable (finish_pkmsg s)
unfolding finish_pkmsg
finish_pkmsg-IsSendable n s small p = record {
  ends = λ q. ground arith;
  holds = λ msg q. ground arith;
}

decode_pkmsg-Post : (bytes : List ℕ) → IsU64 (length bytes) → Post IsSendable (decode_pkmsg bytes)
unfolding decode_pkmsg
decode_pkmsg-Post bytes small =
    elim (Post-cases (
      decode_fields-Post pkmsg_arms (Fits (length bytes)) bytes (pkmsg_arms-Fits (length bytes))
        start (ground arith))) [
          | inl (s, e, p) ↦ rw (e, decode_pkmsg) (finish_pkmsg-IsSendable (length bytes) s small p)
          | inr (x, e, n) ↦ rw (e, decode_pkmsg) (Post-err x n)
        ]

-- On every input the decoder ends: it returns a message or one of the errors of the source.
pub decode_pkmsg-ends :
    (bytes : List ℕ) → IsU64 (length bytes) → decode_pkmsg bytes ≢ err out_of_fuel
decode_pkmsg-ends bytes small = (decode_pkmsg-Post bytes small).ends

-- A message that is accepted has u32 numbers and three byte fields that are not empty, so encoding
-- it and decoding again gives the same message.
pub decode_pkmsg-IsSendable :
    (bytes : List ℕ) (msg : PreKeyWhisperMessage)
    → IsU64 (length bytes)
    → decode_pkmsg bytes ≡ ok msg
    → IsSendable msg × ((encode_pkmsg msg >>= decode_pkmsg) ≡ ok msg)
decode_pkmsg-IsSendable bytes msg small e =
    let sendable = (decode_pkmsg-Post bytes small).holds msg e in
    (sendable, decode_pkmsg-encode_pkmsg msg sendable)
