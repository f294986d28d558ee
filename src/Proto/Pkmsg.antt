-- ===== src/Proto/Pkmsg.antt =====
-- proto.rs, `PreKeyWhisperMessage`, `decode_pkmsg` and `encode_pkmsg`.
pub mod RoundTrip
pub mod Sound
use oktz_signal.Base.{ℕ, String, List, [], Bool, true, false, not, ◌==◌, if◌then◌else◌, is_empty}
use oktz_signal.Base.{
  Option, none, some, Result, ok, ◌>>=◌, ◌>>◌, bail_if, field_required, field_empty,
}
use oktz_signal.Proto.Varint.{Cursor, write_varint}
use oktz_signal.Proto.Fields.{read_bytes, read_varint_u32, write_bytes, write_tag, skip_field}
use oktz_signal.Proto.Fields.{expect_wire, decode_fields}

pub record PreKeyWhisperMessage : Type 0 where
  pub pre_key_id : Option ℕ
  pub base_key : List ℕ
  pub identity_key : List ℕ
  pub message : List ℕ
  pub registration_id : ℕ
  pub signed_pre_key_id : Option ℕ

-- The locals of the decoder.
pub record Partial : Type 0 where
  pub msg : PreKeyWhisperMessage
  pub seen_base_key : Bool
  pub seen_identity_key : Bool
  pub seen_message : Bool
  pub seen_registration_id : Bool

abbrev pub start : Partial
start = record {
  msg = record {
    pre_key_id = none;
    base_key = [];
    identity_key = [];
    message = [];
    registration_id = 0;
    signed_pre_key_id = none;
  };
  seen_base_key = false;
  seen_identity_key = false;
  seen_message = false;
  seen_registration_id = false;
}

-- The `match field` of the loop.
unfoldable pub pkmsg_arms : ℕ → ℕ → Cursor → Partial → Result (Partial × Cursor)
pkmsg_arms field wire c s =
    if field == 1
    then (do
      expect_wire field "pre_key_id" wire 0
      (v, c') ← read_varint_u32 c "pre_key_id"
      ok (record s { msg = record (s.msg) { pre_key_id = some v } }, c'))
    else if field == 2
    then (do
      expect_wire field "base_key" wire 2
      (v, c') ← read_bytes c
      ok (record s { msg = record (s.msg) { base_key = v }; seen_base_key = true }, c'))
    else if field == 3
    then (do
      expect_wire field "identity_key" wire 2
      (v, c') ← read_bytes c
      ok (record s { msg = record (s.msg) { identity_key = v }; seen_identity_key = true }, c'))
    else if field == 4
    then (do
      expect_wire field "message" wire 2
      (v, c') ← read_bytes c
      ok (record s { msg = record (s.msg) { message = v }; seen_message = true }, c'))
    else if field == 5
    then (do
      expect_wire field "registration_id" wire 0
      (v, c') ← read_varint_u32 c "registration_id"
      ok (
        record s { msg = record (s.msg) { registration_id = v }; seen_registration_id = true },
        c',
      ))
    else if field == 6
    then (do
      expect_wire field "signed_pre_key_id" wire 0
      (v, c') ← read_varint_u32 c "signed_pre_key_id"
      ok (record s { msg = record (s.msg) { signed_pre_key_id = some v } }, c'))
    else (do c' ← skip_field c wire; ok (s, c'))

-- The checks behind the loop.
unfoldable pub finish_pkmsg : Partial → Result PreKeyWhisperMessage
finish_pkmsg s = do
  bail_if (not s.seen_base_key) (field_required "base_key")
  bail_if (is_empty s.msg.base_key) (field_empty "base_key")
  bail_if (not s.seen_identity_key) (field_required "identity_key")
  bail_if (is_empty s.msg.identity_key) (field_empty "identity_key")
  bail_if (not s.seen_message) (field_required "message")
  bail_if (is_empty s.msg.message) (field_empty "message")
  bail_if (not s.seen_registration_id) (field_required "registration_id")
  ok s.msg

unfoldable pub decode_pkmsg : List ℕ → Result PreKeyWhisperMessage
unfolding decode_fields pkmsg_arms finish_pkmsg
decode_pkmsg bytes = do s ← decode_fields pkmsg_arms bytes start; finish_pkmsg s

-- `if let Some(id) = … { write_tag(…); write_varint(…) }`
unfoldable pub write_optional : List ℕ → ℕ → Option ℕ → List ℕ
write_optional buf field none = buf
write_optional buf field (some id) = write_varint (write_tag buf field 0) id

unfoldable pub encode_pkmsg : PreKeyWhisperMessage → Result (List ℕ)
encode_pkmsg msg = do
  let buf1 = write_optional [] 1 msg.pre_key_id
  let buf2 = write_bytes (write_tag buf1 2 2) msg.base_key
  let buf3 = write_bytes (write_tag buf2 3 2) msg.identity_key
  let buf4 = write_bytes (write_tag buf3 4 2) msg.message
  let buf5 = write_varint (write_tag buf4 5 0) msg.registration_id
  ok (write_optional buf5 6 msg.signed_pre_key_id)
