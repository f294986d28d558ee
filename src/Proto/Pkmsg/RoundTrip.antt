-- ===== src/Proto/Pkmsg/RoundTrip.antt =====
-- `decode_pkmsg` reads back what `encode_pkmsg` wrote.
use oktz_signal.Base.{ℕ, ◌+◌, ◌-◌, ◌≤◌, ◌≡◌, ◌∙◌, List, [], ◌++◌, append_assoc, append-nil}
use oktz_signal.Base.{length, length-append, arith, false, true, is_empty, ok, ◌>>=◌}
use oktz_signal.Base.{Option, none, some}
use oktz_signal.Proto.Varint.{at, IsU32, IsU64}
use oktz_signal.Proto.Fields.{field_loop, expect_wire}
use oktz_signal.Proto.Fields.RoundTrip.{varint, tag, sized, length-tag}
use oktz_signal.Proto.Fields.RoundTrip.{write_varint-varint, write_tag-tag, write_bytes-sized}
use oktz_signal.Proto.Fields.RoundTrip.{read_varint_u32-varint, read_bytes-sized}
use oktz_signal.Proto.Fields.RoundTrip.{field_loop_round, field_loop_end, length-sized}
use oktz_signal.Proto.Pkmsg.{PreKeyWhisperMessage, Partial, start, pkmsg_arms}
use oktz_signal.Proto.Pkmsg.{write_optional, decode_pkmsg, encode_pkmsg}

abbrev pub FitsU32 : Option ℕ → Type 0
FitsU32 none = Unit
FitsU32 (some id) = IsU32 id

-- A message that the wire can carry: u32 numbers, and byte fields that are not empty.
pub record IsSendable (msg : PreKeyWhisperMessage) : Type 0 where
  pub pre_key_fits : FitsU32 msg.pre_key_id
  pub base_present : is_empty msg.base_key ≡ false
  pub base_length : IsU64 (length msg.base_key)
  pub identity_present : is_empty msg.identity_key ≡ false
  pub identity_length : IsU64 (length msg.identity_key)
  pub message_present : is_empty msg.message ≡ false
  pub message_length : IsU64 (length msg.message)
  pub registration_fits : IsU32 msg.registration_id
  pub signed_fits : FitsU32 msg.signed_pre_key_id

unfoldable pub optional : ℕ → Option ℕ → List ℕ
optional field none = []
optional field (some id) = tag field 0 ++ varint id

write_optional-optional :
    (field : ℕ) (id : Option ℕ)
    → (1 ≤ field) × (field ≤ 6)
    → FitsU32 id
    → (buf : List ℕ) → write_optional buf field id ≡ buf ++ optional field id
unfolding write_optional optional
write_optional-optional field none h f buf = rw append-nil
write_optional-optional field (some id) h f buf =
    simp (write_tag-tag field 0 (omega arith), write_varint-varint id (omega arith), append_assoc)

unfoldable pub pkmsg_bytes : PreKeyWhisperMessage → List ℕ
pkmsg_bytes msg =
    optional 1 msg.pre_key_id
    ++ (tag 2 2
        ++ (sized msg.base_key
            ++ (tag 3 2
                ++ (sized msg.identity_key
                    ++ (tag 4 2
                        ++ (sized msg.message
                            ++ (tag 5 0
                                ++ (varint msg.registration_id
                                    ++ (optional 6 msg.signed_pre_key_id ++ [])))))))))

-- The arm of each field on what the encoder wrote for it.
module _ (rest : List ℕ) (pos : ℕ) (s : Partial) where
  read_pre_key_id :
      (v : ℕ)
      → IsU32 v
      → pkmsg_arms 1 0 (at (varint v ++ rest) pos) s
        ≡ ok (
          record s { msg = record (s.msg) { pre_key_id = some v } },
          at rest (pos + length (varint v)),
        )
  unfolding pkmsg_arms expect_wire
  read_pre_key_id v h = rw (read_varint_u32-varint v "pre_key_id" rest pos h)

  read_base_key :
      (v : List ℕ)
      → IsU64 (length v)
      → pkmsg_arms 2 2 (at (sized v ++ rest) pos) s
        ≡ ok (
          record s { msg = record (s.msg) { base_key = v }; seen_base_key = true },
          at rest (pos + length (varint (length v)) + length v),
        )
  unfolding pkmsg_arms expect_wire
  read_base_key v h = rw (read_bytes-sized v rest pos h)

  read_identity_key :
      (v : List ℕ)
      → IsU64 (length v)
      → pkmsg_arms 3 2 (at (sized v ++ rest) pos) s
        ≡ ok (
          record s { msg = record (s.msg) { identity_key = v }; seen_identity_key = true },
          at rest (pos + length (varint (length v)) + length v),
        )
  unfolding pkmsg_arms expect_wire
  read_identity_key v h = rw (read_bytes-sized v rest pos h)

  read_message :
      (v : List ℕ)
      → IsU64 (length v)
      → pkmsg_arms 4 2 (at (sized v ++ rest) pos) s
        ≡ ok (
          record s { msg = record (s.msg) { message = v }; seen_message = true },
          at rest (pos + length (varint (length v)) + length v),
        )
  unfolding pkmsg_arms expect_wire
  read_message v h = rw (read_bytes-sized v rest pos h)

  read_registration_id :
      (v : ℕ)
      → IsU32 v
      → pkmsg_arms 5 0 (at (varint v ++ rest) pos) s
        ≡ ok (
          record s { msg = record (s.msg) { registration_id = v }; seen_registration_id = true },
          at rest (pos + length (varint v)),
        )
  unfolding pkmsg_arms expect_wire
  read_registration_id v h = rw (read_varint_u32-varint v "registration_id" rest pos h)

  read_signed_pre_key_id :
      (v : ℕ)
      → IsU32 v
      → pkmsg_arms 6 0 (at (varint v ++ rest) pos) s
        ≡ ok (
          record s { msg = record (s.msg) { signed_pre_key_id = some v } },
          at rest (pos + length (varint v)),
        )
  unfolding pkmsg_arms expect_wire
  read_signed_pre_key_id v h = rw (read_varint_u32-varint v "signed_pre_key_id" rest pos h)

module _ (msg : PreKeyWhisperMessage) (sendable : IsSendable msg) where
  pub encode_pkmsg-bytes : encode_pkmsg msg ≡ ok (pkmsg_bytes msg)
  unfolding encode_pkmsg pkmsg_bytes
  encode_pkmsg-bytes = simp (
    write_optional-optional 1 msg.pre_key_id (omega arith) sendable.pre_key_fits,
    write_tag-tag 2 2 (omega arith),
    write_bytes-sized msg.base_key sendable.base_length,
    write_tag-tag 3 2 (omega arith),
    write_bytes-sized msg.identity_key sendable.identity_length,
    write_tag-tag 4 2 (omega arith),
    write_bytes-sized msg.message sendable.message_length,
    write_tag-tag 5 0 (omega arith),
    write_varint-varint msg.registration_id (omega arith),
    write_optional-optional 6 msg.signed_pre_key_id (omega arith) sendable.signed_fits,
    append_assoc,
    append-nil,
  )

  enough_fuel : 6 ≤ length (pkmsg_bytes msg)
  unfolding pkmsg_bytes
  enough_fuel = simp (length-append {0}) (
      omega (
        arith,
        length-tag 2 2,
        length-tag 3 2,
        length-tag 4 2,
        length-tag 5 0,
        length-sized msg.base_key,
        length-sized msg.identity_key,
      ))

  abbrev seen : Option ℕ → Option ℕ → Partial
  seen first last = record {
    msg = record msg { pre_key_id = first; signed_pre_key_id = last };
    seen_base_key = true;
    seen_identity_key = true;
    seen_message = true;
    seen_registration_id = true;
  }

  last_round :
      (fuel pos : ℕ) (first last : Option ℕ)
      → 1 ≤ fuel
      → FitsU32 last
      → field_loop pkmsg_arms fuel (at (optional 6 last ++ []) pos) (seen first none)
        ≡ ok (seen first last)
  unfolding optional
  last_round fuel pos first none h f = field_loop_end pkmsg_arms fuel pos _
  last_round fuel pos first (some id) h f = rw (append_assoc (tag 6 0) (varint id) []) (
      field_loop_round pkmsg_arms fuel 6 0 _ pos (seen first none) _ _ (omega arith) (omega arith)
        (read_signed_pre_key_id _ _ (seen first none) id f)
      ∙ field_loop_end pkmsg_arms _ _ _)

  -- The four required fields, and the optional one behind them.
  required_rounds :
      (fuel pos : ℕ) (first : Option ℕ)
      → 5 ≤ fuel
      → field_loop pkmsg_arms fuel
          (at
            (tag 2 2
              ++ (sized msg.base_key
                  ++ (tag 3 2
                      ++ (sized msg.identity_key
                          ++ (tag 4 2
                              ++ (sized msg.message
                                  ++ (tag 5 0
                                      ++ (varint msg.registration_id
                                          ++ (optional 6 msg.signed_pre_key_id ++ [])))))))))
            pos)
          (record start { msg = record (start.msg) { pre_key_id = first } })
        ≡ ok (seen first msg.signed_pre_key_id)
  required_rounds fuel pos first h =
      field_loop_round pkmsg_arms fuel 2 2 _ pos _ _ _ (omega arith) (omega arith)
        (read_base_key _ _ _ msg.base_key sendable.base_length)
      ∙ field_loop_round pkmsg_arms (fuel - 1) 3 2 _ _ _ _ _ (omega arith) (omega arith)
          (read_identity_key _ _ _ msg.identity_key sendable.identity_length)
      ∙ field_loop_round pkmsg_arms (fuel - 1 - 1) 4 2 _ _ _ _ _ (omega arith) (omega arith)
          (read_message _ _ _ msg.message sendable.message_length)
      ∙ field_loop_round pkmsg_arms (fuel - 1 - 1 - 1) 5 0 _ _ _ _ _ (omega arith) (omega arith)
          (read_registration_id _ _ _ msg.registration_id sendable.registration_fits)
      ∙ last_round (fuel - 1 - 1 - 1 - 1) _ first msg.signed_pre_key_id (omega arith)
          sendable.signed_fits

  pkmsg_rounds :
      (fuel pos : ℕ) (first : Option ℕ)
      → 6 ≤ fuel
      → FitsU32 first
      → field_loop pkmsg_arms fuel (at (pkmsg_bytes (record msg { pre_key_id = first })) pos) start
        ≡ ok (seen first msg.signed_pre_key_id)
  unfolding pkmsg_bytes optional
  pkmsg_rounds fuel pos none h f = required_rounds fuel pos none (omega arith)
  pkmsg_rounds fuel pos (some id) h f = rw (append_assoc (tag 1 0) (varint id)) (
      field_loop_round pkmsg_arms fuel 1 0 _ pos start _ _ (omega arith) (omega arith)
        (read_pre_key_id _ _ start id f)
      ∙ required_rounds (fuel - 1) _ (some id) (omega arith))

  pub decode_pkmsg-bytes : decode_pkmsg (pkmsg_bytes msg) ≡ ok msg
  unfolding decode_pkmsg
  decode_pkmsg-bytes =
      rw (pkmsg_rounds _ 0 msg.pre_key_id enough_fuel sendable.pre_key_fits)
        (ground (arith, sendable.base_present, sendable.identity_present, sendable.message_present))

-- Decoding what the encoder wrote for a message with u32 numbers, with or without either optional
-- id, whose three byte fields are not empty gives that message back.
pub decode_pkmsg-encode_pkmsg :
    (msg : PreKeyWhisperMessage) → IsSendable msg → (encode_pkmsg msg >>= decode_pkmsg) ≡ ok msg
decode_pkmsg-encode_pkmsg msg sendable =
    rw (encode_pkmsg-bytes msg sendable) (decode_pkmsg-bytes msg sendable)
