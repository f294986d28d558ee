-- ===== src/Conversation/Wrapped.antt =====
-- ratchet.rs, `encrypt` and `decrypt_pkmsg`: the message that a pending pre-key message wraps.
use oktz_signal.Base.{
  ℕ, zero, suc, ◌+◌, ◌*◌, ◌/◌, ◌≤◌, ◌≡◌, refl, ap, ◌∙◌, List, [], ◌∷◌, ◌++◌, some, true, arith, not,
}
use oktz_signal.Base.{length, take, ok, length-append, length-take}
use oktz_signal.Base.{
  >>=-ok, >>-ok, ◌>>=◌, ok_or, invalid_base64, bail_if, no_open_session_for_pkmsg,
}
use oktz_signal.BTreeMap.Keys.{Str}
use oktz_signal.Session.{SessionRecord, Serde, PendingPreKey, deserialize, have_open_session}
use oktz_signal.Crates.{Crates}
use oktz_signal.Proto.Varint.RoundTrip.{groups}
use oktz_signal.Proto.Fields.RoundTrip.{tag, varint, sized}
use oktz_signal.Proto.Whisper.{WhisperMessage}
use oktz_signal.Proto.Whisper.RoundTrip.{whisper_bytes, whisper_fields}
use oktz_signal.Proto.Pkmsg.{PreKeyWhisperMessage}
use oktz_signal.Proto.Pkmsg.RoundTrip.{
  IsSendable, pkmsg_bytes, encode_pkmsg-bytes, decode_pkmsg-bytes,
}
use oktz_signal.Proto.Varint.{IsU32}
use oktz_signal.Proto.Pkmsg.RoundTrip.{FitsU32}
use oktz_signal.X3dh.{get_1_33}
use oktz_signal.Base.{is_empty, false}
use oktz_signal.Conversation.First.{with_prefix-short}
use oktz_signal.Ratchet.Kdf.{chunk}
use oktz_signal.Ratchet.Chains.{with_prefix}
use oktz_signal.Ratchet.Encrypt.{wrap_pkmsg, version_byte, message_keys_of, seal}
use oktz_signal.Ratchet.Decrypt.{decrypt_whisper, decrypt_pkmsg}
use oktz_signal.Conversation.Sending.{packed, wire_bytes}

length-groups-le : (k v : ℕ) → length (groups k v) ≤ k + 1
unfolding groups
length-groups-le zero v = omega arith
length-groups-le (suc k) v = ground (arith, length-groups-le k (v / 128))

length-varint-le : (v : ℕ) → length (varint v) ≤ 10
unfolding varint
length-varint-le v = omega (arith, length-groups-le 9 v)

length-tag-le : (field wire : ℕ) → length (tag field wire) ≤ 10
unfolding tag
length-tag-le field wire = omega (arith, length-groups-le 9 (field * 8 + wire))

pub length-whisper_bytes :
    (msg : WhisperMessage)
    → length (whisper_bytes msg) ≤ length msg.ephemeral_key + length msg.ciphertext + 80
unfolding whisper_bytes whisper_fields sized
length-whisper_bytes msg = simp (length-append {0}) (omega (arith, length-varint-le, length-tag-le))

-- The version and the tag come on top.
pub length-wire_bytes :
    (c : Crates) (mk sender receiver : List ℕ) (msg : WhisperMessage)
    → (1 ≤ length (wire_bytes c mk sender receiver msg))
      × (length (wire_bytes c mk sender receiver msg)
          ≤ length msg.ephemeral_key + length msg.ciphertext + 89)
unfolding wire_bytes seal
length-wire_bytes c mk sender receiver msg =
    (let mac =
        c.hmac (chunk (message_keys_of c mk) 1)
          (sender ++ receiver ++ version_byte ∷ whisper_bytes msg) in
      omega (
        arith,
        length-append (whisper_bytes msg) (take 8 mac),
        length-take 8 mac,
        length-whisper_bytes msg,
      ))

module _ (c : Crates) where
  -- The pre-key message around the bytes of another.
  abbrev pub wrapping : PendingPreKey → List ℕ → List ℕ → List ℕ → ℕ → PreKeyWhisperMessage
  wrapping pk base_key message sender registration_id = record {
    pre_key_id = pk.pre_key_id;
    base_key = with_prefix base_key;
    identity_key = sender;
    message = message;
    registration_id = registration_id;
    signed_pre_key_id = pk.signed_key_id;
  }

  pub packed-wrapping :
      (pk : PendingPreKey) (json : Str) (base_key message sender : List ℕ) (registration_id : ℕ)
      → c.decode pk.base_key ≡ some base_key
      → IsSendable (wrapping pk base_key message sender registration_id)
      → packed c (some pk) json message sender registration_id
        ≡ ok (record {
          session_json = json;
          message_type = 3;
          ciphertext =
              version_byte ∷ pkmsg_bytes (wrapping pk base_key message sender registration_id);
        })
  unfolding packed wrap_pkmsg
  packed-wrapping pk json base_key message sender registration_id decoded sendable =
      ap
        (λ r. r >>= λ wrapped.
          ok (record { session_json = json; message_type = 3; ciphertext = wrapped }))
        (>>=-ok _ (ap (ok_or invalid_base64) decoded)
          ∙ >>=-ok (λ bytes. ok (version_byte ∷ bytes))
              (encode_pkmsg-bytes (wrapping pk base_key message sender registration_id) sendable))

  module _ (serde : Serde) where
    pub decrypt_pkmsg-wrapping :
        (json : Str) (r : SessionRecord) (pm : PreKeyWhisperMessage) (receiver seed : List ℕ)
        → IsSendable pm
        → deserialize serde json ≡ ok r
        → have_open_session r ≡ true
        → decrypt_pkmsg c serde json (version_byte ∷ pkmsg_bytes pm) receiver seed
          ≡ decrypt_whisper c serde json pm.message receiver seed
    unfolding decrypt_pkmsg
    decrypt_pkmsg-wrapping json r pm receiver seed sendable read is_open =
        >>=-ok _ (decode_pkmsg-bytes pm sendable)
        ∙ >>=-ok _ read
        ∙ >>-ok _ (ap (λ b. bail_if (not b) no_open_session_for_pkmsg) is_open)

pub present : (key k : List ℕ) → get_1_33 key ≡ some k → is_empty key ≡ false
present [] k h = ground (arith, h)
present (x ∷ xs) k h = refl

module _ (c : Crates) where
  -- The pre-key message around a message that is short enough.
  pub wrapping-IsSendable :
      (pk : PendingPreKey) (base message sender : List ℕ) (id registration_id : ℕ)
      → pk.signed_key_id ≡ some id
      → FitsU32 pk.pre_key_id
      → IsU32 id
      → IsU32 registration_id
      → length base ≡ 32
      → is_empty sender ≡ false
      → length sender ≤ 4294967295
      → 1 ≤ length message
      → length message ≤ 8589934784
      → IsSendable (wrapping c pk base message sender registration_id)
  wrapping-IsSendable pk base message sender id registration_id signed pre fits our whole
        some_sender short some_message not_long =
      (let key = with_prefix-short base whole in
        record {
          pre_key_fits = pre;
          base_present = rw key refl;
          base_length = rw key (omega (arith, whole));
          identity_present = some_sender;
          identity_length = omega (arith, short);
          message_present = filled_text message some_message;
          message_length = omega (arith, not_long);
          registration_fits = our;
          signed_fits = rw signed fits;
        })
    where
      filled_text : (xs : List ℕ) → 1 ≤ length xs → is_empty xs ≡ false
      filled_text [] h = ground (arith, h)
      filled_text (x ∷ xs) h = refl
