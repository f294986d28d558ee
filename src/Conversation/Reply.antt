-- ===== src/Conversation/Reply.antt =====
-- x3dh.rs and ratchet.rs, text to text: the first message and the answer to it, behind a ratchet
-- step on either side.
use oktz_signal.Base.{ℕ, ◌≤◌, ◌<◌, ◌≡◌, ◌≢◌, refl, ap, ◌∙◌, List, Option, some, arith}
use oktz_signal.Base.{length, All, ok}
use oktz_signal.Base.Int.{ℤ}
use oktz_signal.BTreeMap.{insert}
use oktz_signal.BTreeMap.Keys.{Str, str_ord, int_ord}
use oktz_signal.Session.{Serde, sending}
use oktz_signal.Session.Text.{IsReadable, deserialize-printed}
use oktz_signal.Crates.{Crates, IsEncoding}
use oktz_signal.Curve.{Dalek, scalar_multiply, generate_keypair}
use oktz_signal.Ratchet.Encrypt.{EncryptResult, encrypt}
use oktz_signal.Ratchet.Decrypt.{DecryptResult, decrypt_pkmsg}
use oktz_signal.Ratchet.Decrypt.Opened.{IsVerifying}
use oktz_signal.X3dh.{
  X3dhParams, recipient_entry, single_session, build_initial_session, build_recipient_session,
}
use oktz_signal.X3dh.Agreement.{IsDiffieHellman, scalar_multiply-commutes}
use oktz_signal.X3dh.Built.{build_initial_session-IsInitial, build_recipient_session-IsRecipient}
use oktz_signal.Proto.Varint.{IsU32}
use oktz_signal.Proto.Pkmsg.RoundTrip.{FitsU32}
use oktz_signal.Conversation.Sending.{IsAes, wire_bytes}
use oktz_signal.Conversation.Delivery.{IsPrinting}
use oktz_signal.Conversation.Handshake.{root_of}
use oktz_signal.Conversation.Delivered.{AreAcquainted, first_delivery}
use oktz_signal.Session.Text.{IsFaithful}
use oktz_signal.Session.{SessionEntry, deserialize, SessionRecord, Chain, is_receiving, sending}
use oktz_signal.X3dh.Built.{generate_keypair-keys}
use oktz_signal.BTreeMap.{insert}
use oktz_signal.BTreeMap.Keys.{str_ord}
use oktz_signal.Base.{false, refl, ap, ◌∙◌}
use oktz_signal.Ratchet.Plan.{ended_counter}
use oktz_signal.Ratchet.Chains.{chain_key_ids_b64}
use oktz_signal.Ratchet.Decrypt.{decrypt_whisper}
use oktz_signal.Conversation.Opening.{first_entry}
use oktz_signal.Conversation.Exchange.{encrypt-read_entry, decrypt_whisper-sent_entry}

-- A text that was printed is read back.
printed-IsReadable :
    (serde : Serde) (faithful : IsFaithful serde) (r : SessionRecord) (json : Str)
    → serde.to_string r ≡ some json
    → IsReadable serde json
printed-IsReadable serde faithful r json h = record {
  object = faithful.object r json h;
  reads_back = λ q. faithful.reads_back q json;
}

read_single :
    (serde : Serde) (faithful : IsFaithful serde) (id : Str) (entry : SessionEntry) (json : Str)
    → serde.to_string (single_session id entry) ≡ some json
    → deserialize serde json ≡ ok (single_session id entry)
unfolding insert
read_single serde faithful id entry json h =
    deserialize-printed serde json (single_session id entry)
      (printed-IsReadable serde faithful (single_session id entry) json h) refl h

receives_not : (chain : Chain) → chain.chain_type ≡ sending → is_receiving chain ≡ false
receives_not chain h = ground (arith, h)

module _ (c : Crates) (encoding : IsEncoding c) (dh : IsDiffieHellman c) (verifying : IsVerifying c)
    (aes : IsAes c) (d : Dalek) (serde : Serde) (printing : IsPrinting serde)
    (faithful : IsFaithful serde) where
  -- With encodings, X25519, HMAC, AES and serde_json as documented: let both session builders have
  -- succeeded, for an initiator who has the recipient's public keys and a recipient who has the
  -- initiator's. Let the random seed of each side give a key pair that agrees on a secret with the
  -- public key the other side sent last and is not that key. For ids of u32, and for an identity
  -- key and plaintexts of bytes no longer than u32: the recipient reads the initiator's first
  -- message with `decrypt_pkmsg`, `encrypt` on the text that this leaves makes an answer of message
  -- type 1, and `decrypt_whisper` of the answer, on the text that the first message left with the
  -- initiator, returns the answer's plaintext.
  pub decrypt_whisper_answer :
      (params : X3dhParams)
      (ea ib sb sender seed seed' agreed_new agreed_last plaintext plaintext' : List ℕ)
      (ob : Option (List ℕ)) (registration_id our_registration_id : ℕ) (now now' : ℤ)
      (json json' : Str)
      → build_initial_session c d serde params ea now ≡ ok json
      → build_recipient_session c d serde ib sb
          (c.mul_base_clamped sb)
          ob
          sender
          (c.mul_base_clamped ea)
          registration_id
          now'
        ≡ ok json'
      → AreAcquainted c dh params ea ib sb sender ob
      → generate_keypair c seed ≡ ok (c.mul_base_clamped seed, seed)
      → generate_keypair c seed' ≡ ok (c.mul_base_clamped seed', seed')
      → scalar_multiply c seed (c.mul_base_clamped ea) ≡ ok agreed_new
      → scalar_multiply c seed' (c.mul_base_clamped seed) ≡ ok agreed_last
      → c.mul_base_clamped seed ≢ c.mul_base_clamped ea
      → c.mul_base_clamped seed' ≢ c.mul_base_clamped seed
      → FitsU32 params.prekey_id
      → IsU32 params.signed_key_id
      → IsU32 our_registration_id
      → length sender ≤ 4294967295
      → All (λ b. b < 256) plaintext
      → length plaintext ≤ 4294967295
      → All (λ b. b < 256) plaintext'
      → length plaintext' ≤ 4294967295
      → (sent : EncryptResult) × (read : DecryptResult) × (answer : EncryptResult)
        × (last : DecryptResult) × (encrypt c serde json plaintext sender our_registration_id
            ≡ ok sent)
        × (decrypt_pkmsg c serde json' sent.ciphertext params.recipient_pub seed ≡ ok read)
        × (read.plaintext ≡ plaintext)
        × (encrypt c serde read.session_json plaintext' params.recipient_pub registration_id
            ≡ ok answer)
        × (answer.message_type ≡ 1)
        × (decrypt_whisper c serde sent.session_json answer.ciphertext sender seed' ≡ ok last)
        × (last.plaintext ≡ plaintext')
  unfolding recipient_entry
  decrypt_whisper_answer params ea ib sb sender seed seed' agreed_new agreed_last plaintext
        plaintext' ob registration_id our_registration_id now now' json json' built built'
        acquainted fresh fresh' agrees_new agrees_last new_key last_key prekey_fits signed_fits
        our_fits sender_short bytes short bytes' short' =
      (let a = build_initial_session-IsInitial c d serde params ea now json built in
        let b =
          build_recipient_session-IsRecipient c d serde ib sb (c.mul_base_clamped sb) ob sender
            (c.mul_base_clamped ea) registration_id now' json' built' in
        let root = root_of c a.secret in
        let id = c.encode (c.mul_base_clamped ea) in
        let new_pub = c.mul_base_clamped seed in
        let done =
          first_delivery c encoding dh verifying aes d serde printing params ea ib sb sender seed
            new_pub seed agreed_new plaintext ob registration_id our_registration_id now now' json
            json' a b acquainted (printed-IsReadable serde faithful _ json a.printed)
            (printed-IsReadable serde faithful _ json' b.printed) fresh agrees_new new_key
            prekey_fits signed_fits our_fits sender_short bytes short in
        let entry =
          first_entry c encoding dh sb ea root a.agreed new_pub seed agreed_new seed b.secret sender
            registration_id now' in
        let (m, written, answers) =
          encrypt-read_entry c encoding dh aes serde printing sb ea root a.agreed seed agreed_new
            entry done.full done.counter (ended_counter c entry) (chain_key_ids_b64 c id) id
            done.read.session_json params.recipient_pub sender plaintext' registration_id
            (read_single serde faithful id _ done.read.session_json done.read_text) done.sound
            (encoding.decode-encode sender) new_key bytes' short' in
        let agrees =
          scalar_multiply-commutes c dh ea seed a.whole
            (generate_keypair-keys c seed (new_pub, seed) fresh).0
          ∙ agrees_new in
        let (last, reads, same_text) =
          decrypt_whisper-sent_entry c encoding dh verifying serde printing params ea root a.agreed
            seed agreed_new now done.next (c.mul_base_clamped seed') seed' agreed_last seed' id
            done.sent.session_json sender plaintext' _ m
            (read_single serde faithful id _ done.sent.session_json done.sent_text) agrees fresh'
            agrees_last last_key new_key (receives_not done.next done.still_sends)
            (ap length acquainted.signed ∙ dh.length-public sb) in
        (
          done.sent,
          done.read,
          record {
            session_json = written;
            message_type = 1;
            ciphertext = wire_bytes c _ params.recipient_pub sender m.msg;
          },
          last,
          done.encrypts,
          done.decrypts,
          done.same_text,
          answers,
          refl,
          reads,
          same_text,
        ))
