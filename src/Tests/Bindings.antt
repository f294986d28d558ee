-- ===== src/Tests/Bindings.antt =====
-- lib.rs at concrete inputs.
use oktz_signal.Base.{
  ◌≡◌, ◌≢◌, refl, [], ◌∷◌, arith, err, not_a_json_object, out_of_fuel, replicate,
}
use oktz_signal.BTreeMap.Keys.{Str}
use oktz_signal.Session.{SessionRecord, default_version, parse, trim_start, white_len}
use oktz_signal.Ratchet.Cbc.{chunks}
use oktz_signal.Ratchet.Cbc.Blocks.{concat}
use oktz_signal.Ratchet.Encrypt.{encrypt}
use oktz_signal.Ratchet.Decrypt.{decrypt_whisper, decrypt_pkmsg}
use oktz_signal.Conversation.Terminates.{calls_end}
use oktz_signal.Bindings.{
  returned, thrown, own, from_result, session_deserialize, session_serialize,
  session_have_open_session,
}
use oktz_signal.Bindings.Records.{session_deserialize-normalizes}
use oktz_signal.Tests.Toy.{toy}
use oktz_signal.Tests.Codec.{numbers_serde, numbers_serde-IsFaithful, print_record}

-- The text of a record without sessions.
abbrev empty_record : SessionRecord
empty_record = record { sessions = []; version = default_version }

abbrev empty_text : Str
empty_text = print_record empty_record

session_deserialize-normalizes_example :
    (session_serialize numbers_serde empty_text ≡ session_deserialize numbers_serde empty_text)
    × ((text : Str)
        → session_deserialize numbers_serde empty_text ≡ returned text
        → (session_deserialize numbers_serde text ≡ returned text)
          × (session_have_open_session numbers_serde text
              ≡ session_have_open_session numbers_serde empty_text))
session_deserialize-normalizes_example =
    session_deserialize-normalizes numbers_serde numbers_serde-IsFaithful empty_text

refuses_array : session_deserialize numbers_serde (91 ∷ 93 ∷ []) ≡ thrown (own not_a_json_object)
unfolding session_deserialize from_result parse trim_start
refuses_array = refl

calls_end_example :
    (encrypt toy numbers_serde empty_text (51 ∷ 10 ∷ 1 ∷ []) (5 ∷ []) 7 ≢ err out_of_fuel)
    × (decrypt_whisper toy numbers_serde empty_text (51 ∷ 10 ∷ 1 ∷ []) (5 ∷ []) []
        ≢ err out_of_fuel)
    × (decrypt_pkmsg toy numbers_serde empty_text (51 ∷ 10 ∷ 1 ∷ []) (5 ∷ []) [] ≢ err out_of_fuel)
    × (concat (chunks (replicate 20 7)) ≡ replicate 20 7)
    × (white_len (trim_start empty_text) ≡ 0)
calls_end_example =
    calls_end toy numbers_serde empty_text (51 ∷ 10 ∷ 1 ∷ []) (5 ∷ []) [] (replicate 20 7) 7
      (omega arith)
