-- ===== src/Tests/Proto.antt =====
-- proto.rs at concrete inputs.
use oktz_signal.Base.{
  ℕ, ◌+◌, ◌<◌, ◌≤◌, ◌≡◌, ◌≢◌, refl, List, [], ◌∷◌, ◌++◌, none, some, arith, length,
}
use oktz_signal.Base.{ok, err, ◌>>=◌, out_of_fuel, wrong_wire_type}
use oktz_signal.Proto.Varint.{at, IsU64, read_varint, write_varint}
use oktz_signal.Proto.Varint.RoundTrip.{read_varint-write_varint}
use oktz_signal.Proto.Varint.Bounds.{value, read_varint-value, read_varint_padded}
use oktz_signal.Proto.Fields.{
  write_tag, write_bytes, read_tag, expect_wire, read_bytes, read_varint_u32,
}
use oktz_signal.Proto.Whisper.{WhisperMessage, decode_whisper, encode_whisper}
use oktz_signal.Proto.Whisper.RoundTrip.{IsSendable, decode_whisper-encode_whisper}
use oktz_signal.Proto.Whisper.Sound.{decode_whisper-ends, decode_whisper-IsSendable}
use oktz_signal.Proto.Whisper.Written.{Field, counter_field, unknown_field, write_fields}
use oktz_signal.Proto.Whisper.Extra.{decode_whisper_skips, decode_whisper_refuses}
use oktz_signal.Proto.Pkmsg.{PreKeyWhisperMessage, decode_pkmsg, encode_pkmsg}
use oktz_signal.Proto.Pkmsg.RoundTrip
use oktz_signal.Proto.Pkmsg.RoundTrip.{decode_pkmsg-encode_pkmsg}
use oktz_signal.Proto.Pkmsg.Sound.{decode_pkmsg-ends, decode_pkmsg-IsSendable}

read_varint-write_varint_example :
    read_varint (at (write_varint [] 300 ++ 7 ∷ []) 0)
    ≡ ok (300, at (7 ∷ []) (0 + length (write_varint [] 300)))
read_varint-write_varint_example = read_varint-write_varint 300 (7 ∷ []) 0 (omega arith)

read_varint_300 : read_varint (at (172 ∷ 2 ∷ 7 ∷ []) 5) ≡ ok (300, at (7 ∷ []) 7)
unfolding read_varint
read_varint_300 = refl

read_varint-value_example :
    (300 ≡ value (172 ∷ 2 ∷ 7 ∷ [])) × IsU64 300 × (1 < 3) × (3 ≤ 1 + 10) × (7 + 1 ≡ 5 + 3)
read_varint-value_example =
    read_varint-value (at (172 ∷ 2 ∷ 7 ∷ []) 5) (at (7 ∷ []) 7) 300
      (omega arith, (omega arith, (omega arith, tt))) read_varint_300

read_varint_padded_example : read_varint (at ((5 + 128) ∷ 0 ∷ []) 0) ≡ ok (5, at [] (0 + 1 + 1))
read_varint_padded_example = read_varint_padded 5 [] 0 (omega arith)

abbrev hello : WhisperMessage
hello = record {
  ephemeral_key = 5 ∷ 200 ∷ [];
  counter = 300;
  previous_counter = 2;
  ciphertext = 9 ∷ 8 ∷ 7 ∷ [];
}

hello-IsSendable : IsSendable hello
hello-IsSendable = record {
  key_present = refl;
  key_length = omega arith;
  counter_fits = omega arith;
  previous_fits = omega arith;
  text_present = refl;
  text_length = omega arith;
}

abbrev hello_bytes : List ℕ
hello_bytes = 10 ∷ 2 ∷ 5 ∷ 200 ∷ 16 ∷ 172 ∷ 2 ∷ 24 ∷ 2 ∷ 34 ∷ 3 ∷ 9 ∷ 8 ∷ 7 ∷ []

encode_hello : encode_whisper hello ≡ ok hello_bytes
unfolding encode_whisper write_tag write_varint write_bytes
encode_hello = refl

decode_hello : decode_whisper hello_bytes ≡ ok hello
unfolding decode_whisper read_tag read_varint expect_wire read_bytes read_varint_u32
decode_hello = refl

decode_whisper-encode_whisper_example : (encode_whisper hello >>= decode_whisper) ≡ ok hello
decode_whisper-encode_whisper_example = decode_whisper-encode_whisper hello hello-IsSendable

decode_whisper-ends_example : decode_whisper hello_bytes ≢ err out_of_fuel
decode_whisper-ends_example = decode_whisper-ends hello_bytes (omega arith)

decode_whisper-IsSendable_example :
    IsSendable hello × ((encode_whisper hello >>= decode_whisper) ≡ ok hello)
decode_whisper-IsSendable_example =
    decode_whisper-IsSendable hello_bytes hello (omega arith) decode_hello

decode_whisper_skips_example :
    (encode_whisper hello >>= λ buf. decode_whisper (write_varint (write_tag buf 9 0) 77))
    ≡ ok hello
decode_whisper_skips_example =
    decode_whisper_skips hello hello-IsSendable 9 77 (omega arith) (omega arith) (omega arith)

-- A counter and an unknown field, and then an ephemeral key as a varint, its first occurrence.
abbrev two_fields : List Field
two_fields = counter_field 3 ∷ unknown_field 9 77 ∷ []

decode_whisper_refuses_example :
    decode_whisper (write_tag (write_fields [] two_fields) 1 0 ++ 1 ∷ [])
    ≡ err (wrong_wire_type 1 "ephemeral_key" 0 2)
decode_whisper_refuses_example =
    decode_whisper_refuses two_fields 1 0 (1 ∷ [])
      (omega arith, ((omega arith, omega arith, omega arith), tt)) (omega arith) (omega arith)
      (omega arith) (λ h. omega (arith, h))

abbrev first_contact : PreKeyWhisperMessage
first_contact = record {
  pre_key_id = some 31;
  base_key = 5 ∷ 1 ∷ [];
  identity_key = 5 ∷ 2 ∷ [];
  message = 51 ∷ [];
  registration_id = 4000;
  signed_pre_key_id = none;
}

first_contact-IsSendable : RoundTrip.IsSendable first_contact
first_contact-IsSendable = record {
  pre_key_fits = omega arith;
  base_present = refl;
  base_length = omega arith;
  identity_present = refl;
  identity_length = omega arith;
  message_present = refl;
  message_length = omega arith;
  registration_fits = omega arith;
  signed_fits = tt;
}

abbrev first_contact_bytes : List ℕ
first_contact_bytes = 8 ∷ 31 ∷ 18 ∷ 2 ∷ 5 ∷ 1 ∷ 26 ∷ 2 ∷ 5 ∷ 2 ∷ 34 ∷ 1 ∷ 51 ∷ 40 ∷ 160 ∷ 31 ∷ []

decode_first_contact : decode_pkmsg first_contact_bytes ≡ ok first_contact
unfolding decode_pkmsg read_tag read_varint expect_wire read_bytes read_varint_u32
decode_first_contact = refl

decode_pkmsg-encode_pkmsg_example : (encode_pkmsg first_contact >>= decode_pkmsg) ≡ ok first_contact
decode_pkmsg-encode_pkmsg_example = decode_pkmsg-encode_pkmsg first_contact first_contact-IsSendable

decode_pkmsg-ends_example : decode_pkmsg first_contact_bytes ≢ err out_of_fuel
decode_pkmsg-ends_example = decode_pkmsg-ends first_contact_bytes (omega arith)

decode_pkmsg-IsSendable_example :
    RoundTrip.IsSendable first_contact
    × ((encode_pkmsg first_contact >>= decode_pkmsg) ≡ ok first_contact)
decode_pkmsg-IsSendable_example =
    decode_pkmsg-IsSendable first_contact_bytes first_contact (omega arith) decode_first_contact
