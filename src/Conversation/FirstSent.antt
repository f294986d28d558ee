-- ===== src/Conversation/FirstSent.antt =====
-- ratchet.rs, `encrypt`, on the text of the initiator: the first message that it sends.
use oktz_signal.Base.{ap, sym, is_empty, false}
use oktz_signal.Proto.Varint.{IsU32}
use oktz_signal.Proto.Pkmsg.RoundTrip.{FitsU32}
use oktz_signal.Conversation.Handshake.{put_entry-single}
use oktz_signal.Base.{ℕ, ◌≤◌, ◌<◌, ◌≡◌, refl, ◌∙◌, List, ◌∷◌, some, arith}
use oktz_signal.Base.{length, All, ok}
use oktz_signal.Base.Int.{ℤ}
use oktz_signal.BTreeMap.Keys.{Str, str_ord, int_ord}
use oktz_signal.Session.{Chain, Serde, sending, PendingPreKey}
use oktz_signal.Session.Text.{IsReadable, deserialize-printed}
use oktz_signal.Crates.{Crates, IsEncoding}
use oktz_signal.Curve.{Dalek}
use oktz_signal.Ratchet.Kdf.{whisper_ratchet}
use oktz_signal.Ratchet.MessageKeys.Schedule.{message_key, advance}
use oktz_signal.Ratchet.Plan.{new_chain}
use oktz_signal.Ratchet.Encrypt.{encrypt, put_entry, put_chain, version_byte}
use oktz_signal.X3dh.{X3dhParams, initiator_entry, strip_prefix, derive_secrets, single_session}
use oktz_signal.X3dh.Agreement.{IsDiffieHellman}
use oktz_signal.X3dh.Built.{IsInitial}
use oktz_signal.Proto.Pkmsg.RoundTrip.{IsSendable, pkmsg_bytes}
use oktz_signal.Conversation.Sound.{new_chain-IsKept}
use oktz_signal.Conversation.Sending.{IsAes, Message, message, wire_bytes, encrypt-packed}
use oktz_signal.Conversation.Delivery.{IsPrinting}
use oktz_signal.Conversation.Wrapped.{
  length-wire_bytes, wrapping-IsSendable, wrapping, packed-wrapping,
}
use oktz_signal.Proto.Pkmsg.{PreKeyWhisperMessage}
use oktz_signal.Conversation.Answer.{sent_entry}
use oktz_signal.Conversation.Handshake.{
  select_sending-initiator, current-single, root_of, chain_key_of, chain_key-length,
  new_chain-HasKey,
}

module _ (c : Crates) (encoding : IsEncoding c) (dh : IsDiffieHellman c) (d : Dalek) (serde : Serde)
    (params : X3dhParams) (ea : List ℕ) (now : ℤ) (json : Str)
    (a : IsInitial c d serde params ea now json) where
  abbrev pub ck : List ℕ
  ck = chain_key_of c a.agreed (root_of c a.secret)

  abbrev pub pe : List ℕ
  pe = c.mul_base_clamped ea

  abbrev pub first_chain : Chain
  first_chain = new_chain (c.encode ck) sending

  pub first_message :
      (aes : IsAes c) (sender plaintext : List ℕ)
      → All (λ b. b < 256) plaintext
      → length plaintext ≤ 4294967295
      → Message c first_chain (message_key c 0 ck) pe sender params.recipient_pub plaintext 0
  unfolding advance
  first_message aes sender plaintext bytes short =
      message c encoding aes first_chain 0 0 ck pe sender params.recipient_pub plaintext
        (new_chain-IsKept (c.encode ck) sending).well
        (new_chain-HasKey c encoding ck sending
          (chain_key-length c encoding a.agreed (root_of c a.secret)))
        (omega arith) (omega arith) (omega (arith, dh.length-public ea))
        (omega (arith, dh.length-public ea)) bytes short

  abbrev pub first_pending : PendingPreKey
  first_pending = record {
    base_key = c.encode pe;
    signed_key_id = some params.signed_key_id;
    pre_key_id = params.prekey_id;
  }

  -- What the initiator's text sends first: the message, wrapped.
  abbrev pub first_wrapping : List ℕ → List ℕ → ℕ → PreKeyWhisperMessage
  first_wrapping message sender our_registration_id =
      wrapping c first_pending pe message sender our_registration_id

  pub first_wrapping-IsSendable :
      (sender plaintext : List ℕ) (our_registration_id : ℕ)
      (m : Message c first_chain (message_key c 0 ck) pe sender params.recipient_pub plaintext 0)
      → FitsU32 params.prekey_id
      → IsU32 params.signed_key_id
      → IsU32 our_registration_id
      → is_empty sender ≡ false
      → length sender ≤ 4294967295
      → length plaintext ≤ 4294967295
      → IsSendable (
          first_wrapping
            (wire_bytes c (message_key c 0 ck) sender params.recipient_pub m.msg)
            sender
            our_registration_id)
  first_wrapping-IsSendable sender plaintext our_registration_id m prekey_fits signed_fits our_fits
        some_sender sender_short short =
      (let inner = wire_bytes c (message_key c 0 ck) sender params.recipient_pub m.msg in
        let limits = length-wire_bytes c (message_key c 0 ck) sender params.recipient_pub m.msg in
        wrapping-IsSendable c first_pending pe inner sender params.signed_key_id our_registration_id
          refl prekey_fits signed_fits our_fits (dh.length-public ea) some_sender sender_short
          limits.0 (omega (arith, limits.1, m.short, dh.length-public ea, short)))

  pub encrypt-first :
      (aes : IsAes c) (printing : IsPrinting serde) (sender plaintext : List ℕ)
      (our_registration_id : ℕ)
      (m : Message c first_chain (message_key c 0 ck) pe sender params.recipient_pub plaintext 0)
      → IsReadable serde json
      → IsSendable (
          first_wrapping
            (wire_bytes c (message_key c 0 ck) sender params.recipient_pub m.msg)
            sender
            our_registration_id)
      → (written : Str) × (serde.to_string (
            single_session (c.encode pe) (
              sent_entry c encoding dh params ea
                (strip_prefix params.signed_prekey_pub)
                (derive_secrets c a.agreed (root_of c a.secret) whisper_ratchet)
                now
                m.next))
          ≡ some written)
        × (encrypt c serde json plaintext sender our_registration_id
            ≡ ok (record {
              session_json = written;
              message_type = 3;
              ciphertext =
                  version_byte
                  ∷ pkmsg_bytes (
                      first_wrapping
                        (wire_bytes c (message_key c 0 ck) sender params.recipient_pub m.msg)
                        sender
                        our_registration_id);
            }))
  unfolding initiator_entry
  encrypt-first aes printing sender plaintext our_registration_id m readable sendable =
      (let spk = strip_prefix params.signed_prekey_pub in
        let mk_ratchet = derive_secrets c a.agreed (root_of c a.secret) whisper_ratchet in
        let entry = initiator_entry c params ea pe spk mk_ratchet now in
        let id = c.encode pe in
        let r = single_session id entry in
        let (written, printed) = printing (put_entry id (put_chain id m.next entry) r) in
        (
          written,
          ap serde.to_string (sym (put_entry-single id entry (put_chain id m.next entry)))
              ∙ printed,
          encrypt-packed c encoding aes serde json written r id id entry first_chain
                (message_key c 0 ck) pe sender params.recipient_pub plaintext our_registration_id m
                (deserialize-printed serde json r readable refl a.printed) (current-single id entry)
                (encoding.decode-encode params.recipient_pub) (encoding.decode-encode pe)
                (select_sending-initiator c encoding dh d serde params ea spk mk_ratchet now)
                printed
              ∙ packed-wrapping c first_pending written pe
                  (wire_bytes c (message_key c 0 ck) sender params.recipient_pub m.msg) sender
                  our_registration_id (encoding.decode-encode pe) sendable,
        ))
