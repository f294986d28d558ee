-- ===== src/Conversation/Exchange.antt =====
-- ratchet.rs, text to text: the answer to the first message.
use oktz_signal.Base.{ℕ, ◌≤◌, ◌<◌, ◌≡◌, ◌≢◌, refl, ap, List, ◌∷◌, some, false, arith}
use oktz_signal.Base.{length, All, ok}
use oktz_signal.Base.Int.{ℤ}
use oktz_signal.BTreeMap.Keys.{Str, str_ord, int_ord}
use oktz_signal.Session.{Chain, SessionEntry, Serde, deserialize, is_receiving, sending}
use oktz_signal.Crates.{Crates, IsEncoding}
use oktz_signal.Curve.{scalar_multiply, generate_keypair}
use oktz_signal.Ratchet.Kdf.{derive_secrets_n, expand, chunk, whisper_ratchet}
use oktz_signal.Ratchet.Chains.{chain_key_ids_b64, with_prefix}
use oktz_signal.Ratchet.MessageKeys.Schedule.{message_key, advance}
use oktz_signal.Ratchet.Plan.{new_chain, apply_ratchet, ended_counter}
use oktz_signal.Ratchet.Encrypt.{encrypt, put_entry, put_chain}
use oktz_signal.Ratchet.Decrypt.{DecryptResult, decrypt_whisper, apply_plan}
use oktz_signal.Ratchet.Decrypt.Opened.{IsVerifying, opened}
use oktz_signal.X3dh.{X3dhParams, strip_prefix, initiator_entry, derive_secrets, single_session}
use oktz_signal.X3dh.Agreement.{IsDiffieHellman, wire}
use oktz_signal.Conversation.Sound.{IsSound, new_chain-IsKept}
use oktz_signal.Conversation.Sending.{IsAes, Message, message, wire_bytes, packed, encrypt-packed}
use oktz_signal.Conversation.Receiving.{decrypt_whisper-wire_bytes}
use oktz_signal.Conversation.Delivery.{IsPrinting}
use oktz_signal.Conversation.First.{plan_from, with_prefix-short}
use oktz_signal.Conversation.Handshake.{
  current-single, chain_key_of, chain_key-length, new_chain-HasKey, text_full,
}
use oktz_signal.Conversation.Opening.{opens_stepped}
use oktz_signal.Conversation.Answer.{sent_entry, plan_ratchet-sent_entry, select_sending-opened}

with_prefix-twice : (key : List ℕ) → length key ≡ 32 → with_prefix (with_prefix key) ≡ 5 ∷ key
unfolding with_prefix
with_prefix-twice key h = ground (arith, h)

module _ (c : Crates) (encoding : IsEncoding c) (dh : IsDiffieHellman c)
    (sb ea root agreed seed agreed_new : List ℕ) (entry : SessionEntry) (full : Chain)
    (counter ended : ℕ) (retired : List Str) where
  -- The recipient's entry behind the first message.
  abbrev pub read_entry : SessionEntry
  read_entry = opened c (c.encode (wire c dh ea)) full counter (
      apply_plan c entry (
        some (
          plan_from c encoding dh sb ea root agreed (c.mul_base_clamped seed) seed agreed_new seed
            retired ended)))

module _ (c : Crates) (agreed root : List ℕ) where
  -- The root key that its step has left, and the key of its sending chain.
  abbrev pub next_root : List ℕ
  next_root = chunk (derive_secrets c agreed root whisper_ratchet) 0

  abbrev pub answer_key : List ℕ → List ℕ
  answer_key agreed_new = chain_key_of c agreed_new next_root

  abbrev pub answer_chain : List ℕ → Chain
  answer_chain agreed_new = new_chain (c.encode (answer_key agreed_new)) sending

module _ (c : Crates) (encoding : IsEncoding c) (dh : IsDiffieHellman c) (aes : IsAes c)
    (serde : Serde) (printing : IsPrinting serde) (sb ea root agreed seed agreed_new : List ℕ)
    (entry : SessionEntry) (full : Chain) (counter ended : ℕ) (retired : List Str) where
  abbrev left : SessionEntry
  left = read_entry c encoding dh sb ea root agreed seed agreed_new entry full counter ended retired

  abbrev key : List ℕ
  key = answer_key c agreed root agreed_new

  pub encrypt-read_entry :
      (id json : Str) (sender receiver plaintext : List ℕ) (registration_id : ℕ)
      → deserialize serde json ≡ ok (single_session id left)
      → IsSound left
      → c.decode entry.index_info.remote_identity_key ≡ some receiver
      → c.mul_base_clamped seed ≢ c.mul_base_clamped ea
      → All (λ b. b < 256) plaintext
      → length plaintext ≤ 4294967295
      → (m : Message c
          (answer_chain c agreed root agreed_new)
          (message_key c 0 key)
          (with_prefix (c.mul_base_clamped seed))
          sender
          receiver
          plaintext
          left.current_ratchet.previous_counter)
        × (written : Str) × (encrypt c serde json plaintext sender registration_id
            ≡ ok (record {
              session_json = written;
              message_type = 1;
              ciphertext = wire_bytes c (message_key c 0 key) sender receiver m.msg;
            }))
  unfolding opened apply_plan apply_ratchet plan_from advance derive_secrets_n expand packed
  encrypt-read_entry id json sender receiver plaintext registration_id read sound identity new_key
        bytes short =
      (let eph = with_prefix (c.mul_base_clamped seed) in
        let shape = with_prefix-short (c.mul_base_clamped seed) (dh.length-public seed) in
        let mk = message_key c 0 key in
        let m =
          message c encoding aes (answer_chain c agreed root agreed_new) 0
            left.current_ratchet.previous_counter key eph sender receiver plaintext
            (new_chain-IsKept (c.encode key) sending).well
            (new_chain-HasKey c encoding key sending
              (chain_key-length c encoding agreed_new (next_root c agreed root)))
            (omega arith) sound.previous_fits (omega (arith, ap length shape))
            (omega (arith, ap length shape, dh.length-public seed)) bytes short in
        let (written, printed) =
          printing (put_entry id (put_chain (c.encode eph) m.next left) (single_session id left)) in
        (
          m,
          written,
          encrypt-packed c encoding aes serde json written (single_session id left) id
              (c.encode eph) left (answer_chain c agreed root agreed_new) mk eph sender receiver
              plaintext registration_id m read (current-single id left) identity
              (encoding.decode-encode eph)
              (select_sending-opened c encoding dh sb ea root agreed (c.mul_base_clamped seed) seed
                agreed_new seed entry full counter ended retired new_key (dh.length-public seed))
              printed,
        ))

module _ (c : Crates) (encoding : IsEncoding c) (dh : IsDiffieHellman c) (verifying : IsVerifying c)
    (serde : Serde) (printing : IsPrinting serde) (params : X3dhParams)
    (ea root agreed seed agreed_new : List ℕ) (now : ℤ) (next : Chain)
    (new_pub new_priv agreed_last seed' : List ℕ) where
  abbrev spk : List ℕ
  spk = strip_prefix params.signed_prekey_pub

  abbrev sent : SessionEntry
  sent =
      sent_entry c encoding dh params ea spk (derive_secrets c agreed root whisper_ratchet) now next

  pub decrypt_whisper-sent_entry :
      (id json : Str) (sender plaintext : List ℕ) (previous : ℕ)
      (m : Message c
        (answer_chain c agreed root agreed_new)
        (message_key c 0 (answer_key c agreed root agreed_new))
        (with_prefix (c.mul_base_clamped seed))
        params.recipient_pub
        sender
        plaintext
        previous)
      → deserialize serde json ≡ ok (single_session id sent)
      → scalar_multiply c ea (c.mul_base_clamped seed) ≡ ok agreed_new
      → generate_keypair c seed' ≡ ok (new_pub, new_priv)
      → scalar_multiply c new_priv (c.mul_base_clamped seed) ≡ ok agreed_last
      → new_pub ≢ c.mul_base_clamped seed
      → c.mul_base_clamped seed ≢ c.mul_base_clamped ea
      → is_receiving next ≡ false
      → length spk ≡ 32
      → (read : DecryptResult) × (decrypt_whisper c serde json
            (wire_bytes c
              (message_key c 0 (answer_key c agreed root agreed_new))
              params.recipient_pub
              sender
              m.msg)
            sender
            seed'
          ≡ ok read)
        × (read.plaintext ≡ plaintext)
  unfolding initiator_entry
  decrypt_whisper-sent_entry id json sender plaintext previous m read agrees fresh agrees_last
        new_key other quiet whole =
      (let root' = next_root c agreed root in
        let mk = message_key c 0 (answer_key c agreed root agreed_new) in
        let retired = chain_key_ids_b64 c (c.encode spk) in
        let planned =
          plan_ratchet-sent_entry c encoding dh params ea spk
            (derive_secrets c agreed root whisper_ratchet) now next seed agreed_new new_pub new_priv
            agreed_last seed' m.msg.previous_counter agrees fresh agrees_last other quiet
            (text_full c encoding spk whole) in
        let (full, opens) =
          opens_stepped c encoding dh verifying ea seed root' agreed_new new_pub new_priv
            agreed_last seed' agrees fresh agrees_last new_key sent (c.mul_base_clamped ea)
            (with_prefix (c.mul_base_clamped seed)) params.recipient_pub sender plaintext previous
            (ended_counter c sent) retired (answer_chain c agreed root agreed_new) m
            (with_prefix-twice (c.mul_base_clamped seed) (dh.length-public seed)) refl planned refl
            (dh.length-public ea) (encoding.decode-encode params.recipient_pub) in
        let left = opened c (c.encode (wire c dh seed)) full m.msg.counter (
          apply_plan c sent (
            some (
              plan_from c encoding dh ea seed root' agreed_new new_pub new_priv agreed_last seed'
                retired (ended_counter c sent)))) in
        let (written, printed) = printing (put_entry id left (single_session id sent)) in
        (
          record { session_json = written; plaintext = plaintext },
          decrypt_whisper-wire_bytes c encoding serde json written (single_session id sent) id sent
              left m.msg mk params.recipient_pub sender seed' plaintext m.sendable read
              (current-single id sent) opens printed,
          refl,
        ))
