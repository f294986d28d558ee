-- ===== src/Proto/Whisper.antt =====
-- proto.rs, `WhisperMessage`, `decode_whisper` and `encode_whisper`.
pub mod RoundTrip
pub mod Sound
pub mod Unknown
pub mod Written
pub mod Extra
use oktz_signal.Base.{ℕ, String, List, [], Bool, true, false, not, ◌==◌, if◌then◌else◌, is_empty}
use oktz_signal.Base.{Result, ok, ◌>>=◌, ◌>>◌, bail_if, field_required, field_empty}
use oktz_signal.Proto.Varint.{Cursor, write_varint}
use oktz_signal.Proto.Fields.{read_bytes, read_varint_u32, write_bytes, write_tag, skip_field}
use oktz_signal.Proto.Fields.{expect_wire, decode_fields}

pub record WhisperMessage : Type 0 where
  pub ephemeral_key : List ℕ
  pub counter : ℕ
  pub previous_counter : ℕ
  pub ciphertext : List ℕ

-- The locals of the decoder.
pub record Partial : Type 0 where
  pub msg : WhisperMessage
  pub seen_ephemeral_key : Bool
  pub seen_ciphertext : Bool

abbrev pub start : Partial
start = record {
  msg = record { ephemeral_key = []; counter = 0; previous_counter = 0; ciphertext = [] };
  seen_ephemeral_key = false;
  seen_ciphertext = false;
}

-- The `match field` of the loop.
unfoldable pub whisper_arms : ℕ → ℕ → Cursor → Partial → Result (Partial × Cursor)
whisper_arms field wire c s =
    if field == 1
    then (do
      expect_wire field "ephemeral_key" wire 2
      (v, c') ← read_bytes c
      ok (record s { msg = record (s.msg) { ephemeral_key = v }; seen_ephemeral_key = true }, c'))
    else if field == 2
    then (do
      expect_wire field "counter" wire 0
      (v, c') ← read_varint_u32 c "counter"
      ok (record s { msg = record (s.msg) { counter = v } }, c'))
    else if field == 3
    then (do
      expect_wire field "previous_counter" wire 0
      (v, c') ← read_varint_u32 c "previous_counter"
      ok (record s { msg = record (s.msg) { previous_counter = v } }, c'))
    else if field == 4
    then (do
      expect_wire field "ciphertext" wire 2
      (v, c') ← read_bytes c
      ok (record s { msg = record (s.msg) { ciphertext = v }; seen_ciphertext = true }, c'))
    else (do c' ← skip_field c wire; ok (s, c'))

-- The checks behind the loop.
unfoldable pub finish_whisper : Partial → Result WhisperMessage
finish_whisper s = do
  bail_if (not s.seen_ephemeral_key) (field_required "ephemeral_key")
  bail_if (is_empty s.msg.ephemeral_key) (field_empty "ephemeral_key")
  bail_if (not s.seen_ciphertext) (field_required "ciphertext")
  bail_if (is_empty s.msg.ciphertext) (field_empty "ciphertext")
  ok s.msg

unfoldable pub decode_whisper : List ℕ → Result WhisperMessage
unfolding decode_fields whisper_arms finish_whisper
decode_whisper bytes = do s ← decode_fields whisper_arms bytes start; finish_whisper s

unfoldable pub encode_whisper : WhisperMessage → Result (List ℕ)
encode_whisper msg = do
  let buf0 = write_tag [] 1 2
  let buf1 = write_bytes buf0 msg.ephemeral_key
  let buf2 = write_tag buf1 2 0
  let buf3 = write_varint buf2 msg.counter
  let buf4 = write_tag buf3 3 0
  let buf5 = write_varint buf4 msg.previous_counter
  let buf6 = write_tag buf5 4 2
  ok (write_bytes buf6 msg.ciphertext)
