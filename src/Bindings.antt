-- ===== src/Bindings.antt =====
-- lib.rs: what Node calls. A `Buffer` is the list of its bytes; the seeds and the time that the
-- calls below take from the operating system are arguments.
pub mod Records
use oktz_signal.Base.{ℕ, List, [], ◌∷◌, Option, Bool, ◌⊎◌, inl, inr}
use oktz_signal.Base.{Result, Error, ok, err, ◌>>=◌, ◌>>◌}
use oktz_signal.Base.Int.{ℤ}
use oktz_signal.BTreeMap.Keys.{Str}
use oktz_signal.Session.{
  SessionRecord, Serde, parse, validate, serialize, deserialize, have_open_session,
}
use oktz_signal.Crates.{Crates}
use oktz_signal.Curve.{Dalek, sign, verify, scalar_multiply, generate_keypair}
use oktz_signal.Proto.Whisper.{WhisperMessage, encode_whisper, decode_whisper}
use oktz_signal.Proto.Pkmsg.{PreKeyWhisperMessage, encode_pkmsg, decode_pkmsg}
use oktz_signal.X3dh.{X3dhParams, build_initial_session, build_recipient_session}
use oktz_signal.Ratchet.Encrypt.{EncryptResult, encrypt}
use oktz_signal.Ratchet.Decrypt.{DecryptResult, decrypt_whisper, decrypt_pkmsg}

-- The reason of a JavaScript exception: a message of this library, or one of serde_json.
pub data Reason : Type 0 where
  own : Error → Reason
  foreign : Str → Reason

-- napi's `Result`: what is thrown or returned.
pub data Outcome (A : Type 0) : Type 0 where
  thrown : Reason → Outcome A
  returned : A → Outcome A

-- `.map_err(|e| Error::from_reason(e))?`, and the conversion of the value.
unfoldable pub from_result : {A B : Type 0} → Result A → (A → B) → Outcome B
from_result (err e) to_js = thrown (own e)
from_result (ok a) to_js = returned (to_js a)

pub record WhisperMessageObj : Type 0 where
  pub ephemeral_key : List ℕ
  pub counter : ℕ
  pub previous_counter : ℕ
  pub ciphertext : List ℕ

pub record PkmsgObj : Type 0 where
  pub pre_key_id : Option ℕ
  pub base_key : List ℕ
  pub identity_key : List ℕ
  pub message : List ℕ
  pub registration_id : ℕ
  pub signed_pre_key_id : Option ℕ

pub record EncryptResultObj : Type 0 where
  pub session_json : Str
  pub message_type : ℕ
  pub ciphertext : List ℕ

pub record DecryptResultObj : Type 0 where
  pub session_json : Str
  pub plaintext : List ℕ

unfoldable pub proto_encode_whisper : List ℕ → ℕ → ℕ → List ℕ → Outcome (List ℕ)
unfolding encode_whisper from_result
proto_encode_whisper ephemeral_key counter previous_counter ciphertext =
    from_result
      (encode_whisper (record {
        ephemeral_key = ephemeral_key;
        counter = counter;
        previous_counter = previous_counter;
        ciphertext = ciphertext;
      }))
      (λ encoded. encoded)

unfoldable pub proto_decode_whisper : List ℕ → Outcome WhisperMessageObj
unfolding decode_whisper from_result
proto_decode_whisper bytes = from_result (decode_whisper bytes) (λ msg. record {
  ephemeral_key = msg.ephemeral_key;
  counter = msg.counter;
  previous_counter = msg.previous_counter;
  ciphertext = msg.ciphertext;
})

-- `serde_json::from_str` of a PreKeyWhisperMessage: serde's message, or the value.
abbrev pub PkmsgReader : Type 0
PkmsgReader = Str → Str ⊎ PreKeyWhisperMessage

unfoldable pub proto_encode_pkmsg : PkmsgReader → Str → Outcome (List ℕ)
unfolding encode_pkmsg from_result
proto_encode_pkmsg from_str json = elim (from_str json) [
  | inl refusal ↦ thrown (foreign refusal)
  | inr msg ↦ from_result (encode_pkmsg msg) (λ encoded. encoded)
]

unfoldable pub proto_decode_pkmsg : List ℕ → Outcome PkmsgObj
unfolding decode_pkmsg from_result
proto_decode_pkmsg bytes = from_result (decode_pkmsg bytes) (λ msg. record {
  pre_key_id = msg.pre_key_id;
  base_key = msg.base_key;
  identity_key = msg.identity_key;
  message = msg.message;
  registration_id = msg.registration_id;
  signed_pre_key_id = msg.signed_pre_key_id;
})

module _ (serde : Serde) where
  unfoldable pub session_deserialize : Str → Outcome Str
  unfolding parse validate serialize from_result
  session_deserialize json =
      from_result (parse serde json >>= λ r. validate r >> serialize serde r) (λ text. text)

  unfoldable pub session_serialize : Str → Outcome Str
  unfolding deserialize serialize from_result
  session_serialize json = from_result (deserialize serde json >>= serialize serde) (λ text. text)

  unfoldable pub session_have_open_session : Str → Outcome Bool
  unfolding deserialize have_open_session from_result
  session_have_open_session json = from_result (deserialize serde json) have_open_session

module _ (c : Crates) where
  unfoldable pub curve_scalar_multiply : List ℕ → List ℕ → Outcome (List ℕ)
  unfolding scalar_multiply from_result
  curve_scalar_multiply secret_key public_key =
      from_result (scalar_multiply c secret_key public_key) (λ shared. shared)

  -- The public key and the private key.
  unfoldable pub curve_generate_keypair : List ℕ → Outcome (List (List ℕ))
  unfolding generate_keypair from_result
  curve_generate_keypair seed = from_result (generate_keypair c seed) (λ pair. pair.0 ∷ pair.1 ∷ [])

  module _ (d : Dalek) (serde : Serde) where
    unfoldable pub x3dh_build_initial_session :
        List ℕ
        → List ℕ
        → List ℕ
        → List ℕ
        → Option (List ℕ)
        → Option ℕ
        → List ℕ
        → List ℕ
        → ℕ
        → ℕ
        → List ℕ
        → ℤ
        → Outcome Str
    unfolding build_initial_session from_result
    x3dh_build_initial_session identity_priv identity_pub signed_prekey_pub signed_prekey_sig
          prekey_pub prekey_id recipient_pub recipient_prekey registration_id signed_key_id seed
          now =
        from_result
          (build_initial_session c d serde
            (record {
              identity_priv = identity_priv;
              identity_pub = identity_pub;
              signed_prekey_pub = signed_prekey_pub;
              signed_prekey_sig = signed_prekey_sig;
              prekey_pub = prekey_pub;
              prekey_id = prekey_id;
              recipient_pub = recipient_pub;
              recipient_prekey = recipient_prekey;
              registration_id = registration_id;
              signed_key_id = signed_key_id;
            })
            seed now)
          (λ json. json)

    unfoldable pub x3dh_build_recipient_session :
        List ℕ → List ℕ → List ℕ → Option (List ℕ) → List ℕ → List ℕ → ℕ → ℤ → Outcome Str
    unfolding build_recipient_session from_result
    x3dh_build_recipient_session our_identity_priv our_signed_prekey_priv our_signed_prekey_pub
          our_prekey_priv sender_identity sender_ephemeral registration_id now =
        from_result
          (build_recipient_session c d serde our_identity_priv our_signed_prekey_priv
            our_signed_prekey_pub our_prekey_priv sender_identity sender_ephemeral registration_id
            now)
          (λ json. json)

  module _ (serde : Serde) where
    unfoldable pub ratchet_encrypt : Str → List ℕ → List ℕ → ℕ → Outcome EncryptResultObj
    unfolding encrypt from_result
    ratchet_encrypt session_json plaintext our_identity_pub our_registration_id =
        from_result (encrypt c serde session_json plaintext our_identity_pub our_registration_id)
          (λ result. record {
            session_json = result.session_json;
            message_type = result.message_type;
            ciphertext = result.ciphertext;
          })

    unfoldable pub ratchet_decrypt_whisper :
        Str → List ℕ → List ℕ → List ℕ → Outcome DecryptResultObj
    unfolding decrypt_whisper from_result
    ratchet_decrypt_whisper session_json ciphertext our_identity_pub seed =
        from_result (decrypt_whisper c serde session_json ciphertext our_identity_pub seed)
          (λ result. record { session_json = result.session_json; plaintext = result.plaintext })

    unfoldable pub ratchet_decrypt_pkmsg : Str → List ℕ → List ℕ → List ℕ → Outcome DecryptResultObj
    unfolding decrypt_pkmsg from_result
    ratchet_decrypt_pkmsg session_json ciphertext our_identity_pub seed =
        from_result (decrypt_pkmsg c serde session_json ciphertext our_identity_pub seed)
          (λ result. record { session_json = result.session_json; plaintext = result.plaintext })

module _ (d : Dalek) where
  unfoldable pub curve_sign : List ℕ → List ℕ → Option (List ℕ) → List ℕ → Outcome (List ℕ)
  unfolding sign from_result
  curve_sign secret_key message random generated =
      from_result (sign d secret_key message random generated) (λ sig. sig)

  unfoldable pub curve_verify : List ℕ → List ℕ → List ℕ → Outcome Bool
  unfolding verify from_result
  curve_verify public_key message signature =
      from_result (verify d public_key message signature) (λ valid. valid)
