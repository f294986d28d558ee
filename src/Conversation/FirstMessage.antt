-- ===== src/Conversation/FirstMessage.antt =====
-- x3dh.rs and ratchet.rs, text to text: from the session builders to the first message that is read.
use oktz_signal.Base.{ℕ, ◌≤◌, ◌<◌, ◌≡◌, ◌≢◌, List, Option}
use oktz_signal.Base.{length, All, ok}
use oktz_signal.Base.Int.{ℤ}
use oktz_signal.BTreeMap.Keys.{Str, str_ord, int_ord}
use oktz_signal.Session.{Serde}
use oktz_signal.Session.Text.{IsReadable}
use oktz_signal.Crates.{Crates, IsEncoding}
use oktz_signal.Curve.{Dalek, scalar_multiply, generate_keypair}
use oktz_signal.Ratchet.Encrypt.{EncryptResult, encrypt}
use oktz_signal.Ratchet.Decrypt.{DecryptResult, decrypt_pkmsg}
use oktz_signal.Ratchet.Decrypt.Opened.{IsVerifying}
use oktz_signal.X3dh.{X3dhParams, build_initial_session, build_recipient_session}
use oktz_signal.X3dh.Agreement.{IsDiffieHellman}
use oktz_signal.X3dh.Built.{build_initial_session-IsInitial, build_recipient_session-IsRecipient}
use oktz_signal.Proto.Varint.{IsU32}
use oktz_signal.Proto.Pkmsg.RoundTrip.{FitsU32}
use oktz_signal.Conversation.Sending.{IsAes}
use oktz_signal.Conversation.Delivery.{IsPrinting}
use oktz_signal.Conversation.Delivered.{AreAcquainted, first_delivery}

module _ (c : Crates) (encoding : IsEncoding c) (dh : IsDiffieHellman c) (verifying : IsVerifying c)
    (aes : IsAes c) (d : Dalek) (serde : Serde) (printing : IsPrinting serde) where
  -- With encodings, X25519, HMAC, AES and serde_json as documented: let both session builders have
  -- succeeded, for an initiator who has the recipient's public keys and a recipient who has the
  -- initiator's, and let their texts be read back. Let the recipient's random seed give a key pair
  -- whose public key is not the initiator's ephemeral one and that agrees with it on a secret. For
  -- ids of u32, and for an identity key and a plaintext of bytes no longer than u32: `encrypt` on
  -- the initiator's text succeeds, with message type 3, and `decrypt_pkmsg` of its ciphertext on
  -- the recipient's text returns the plaintext.
  pub decrypt_pkmsg-encrypt :
      (params : X3dhParams) (ea ib sb sender seed new_pub new_priv agreed_new plaintext : List ℕ)
      (ob : Option (List ℕ)) (registration_id our_registration_id : ℕ) (now now' : ℤ)
      (json json' : Str)
      → build_initial_session c d serde params ea now ≡ ok json
      → build_recipient_session c d serde ib sb
          (c.mul_base_clamped sb)
          ob
          sender
          (c.mul_base_clamped ea)
          registration_id
          now'
        ≡ ok json'
      → AreAcquainted c dh params ea ib sb sender ob
      → IsReadable serde json
      → IsReadable serde json'
      → generate_keypair c seed ≡ ok (new_pub, new_priv)
      → scalar_multiply c new_priv (c.mul_base_clamped ea) ≡ ok agreed_new
      → new_pub ≢ c.mul_base_clamped ea
      → FitsU32 params.prekey_id
      → IsU32 params.signed_key_id
      → IsU32 our_registration_id
      → length sender ≤ 4294967295
      → All (λ b. b < 256) plaintext
      → length plaintext ≤ 4294967295
      → (sent : EncryptResult) × (read : DecryptResult) × (encrypt c serde json plaintext sender
            our_registration_id
          ≡ ok sent)
        × (sent.message_type ≡ 3)
        × (decrypt_pkmsg c serde json' sent.ciphertext params.recipient_pub seed ≡ ok read)
        × (read.plaintext ≡ plaintext)
  decrypt_pkmsg-encrypt params ea ib sb sender seed new_pub new_priv agreed_new plaintext ob
        registration_id our_registration_id now now' json json' built built' acquainted readable
        readable' fresh agrees_new new_key prekey_fits signed_fits our_fits sender_short bytes
        short =
      (let a = build_initial_session-IsInitial c d serde params ea now json built in
        let b =
          build_recipient_session-IsRecipient c d serde ib sb (c.mul_base_clamped sb) ob sender
            (c.mul_base_clamped ea) registration_id now' json' built' in
        let done =
          first_delivery c encoding dh verifying aes d serde printing params ea ib sb sender seed
            new_pub new_priv agreed_new plaintext ob registration_id our_registration_id now now'
            json json' a b acquainted readable readable' fresh agrees_new new_key prekey_fits
            signed_fits our_fits sender_short bytes short in
        (done.sent, done.read, done.encrypts, done.wrapped, done.decrypts, done.same_text))
