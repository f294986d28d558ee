-- ===== src/Conversation/Delivered.antt =====
-- x3dh.rs and ratchet.rs, text to text: the first message of a session, and both texts behind it.
use oktz_signal.X3dh.Built.{IsInitial, IsRecipient}
use oktz_signal.Session.{Chain}
use oktz_signal.Base.{ℕ, ◌≤◌, ◌<◌, ◌≡◌, ◌≢◌, refl, ap, sym, subst, ◌∙◌, List, ◌∷◌, Option, some}
use oktz_signal.Base.{length, All, ok, replicate}
use oktz_signal.Base.Int.{ℤ}
use oktz_signal.BTreeMap.{insert}
use oktz_signal.BTreeMap.Keys.{Str, str_ord, int_ord}
use oktz_signal.Session.{Serde, have_open_session, sending}
use oktz_signal.Session.Text.{IsReadable, deserialize-printed}
use oktz_signal.Crates.{Crates, IsEncoding}
use oktz_signal.Curve.{Dalek, scalar_multiply, generate_keypair}
use oktz_signal.Ratchet.Kdf.{whisper_text}
use oktz_signal.Ratchet.MessageKeys.Schedule.{message_key}
use oktz_signal.Ratchet.Plan.{new_chain}
use oktz_signal.Ratchet.Encrypt.{EncryptResult, encrypt, put_entry, version_byte}
use oktz_signal.Ratchet.Decrypt.{DecryptResult, decrypt_pkmsg}
use oktz_signal.Ratchet.Decrypt.Opened.{IsVerifying}
use oktz_signal.X3dh.{
  X3dhParams, strip_prefix, get_1_33, recipient_entry, derive_secrets, single_session,
}
use oktz_signal.X3dh.Agreement.{IsDiffieHellman, AreKeys, one_time, scalar_multiply-commutes}
use oktz_signal.Proto.Varint.{IsU32}
use oktz_signal.Proto.Pkmsg.RoundTrip.{FitsU32, pkmsg_bytes}
use oktz_signal.Conversation.Sending.{IsAes, wire_bytes}
use oktz_signal.Conversation.Receiving.{decrypt_whisper-wire_bytes}
use oktz_signal.Conversation.Delivery.{IsPrinting}
use oktz_signal.Conversation.Wrapped.{present, decrypt_pkmsg-wrapping}
use oktz_signal.Conversation.Opening.{first_entry, first_left, opens_first}
use oktz_signal.Conversation.FirstSent.{
  first_wrapping-IsSendable, first_wrapping, first_message, encrypt-first,
}
use oktz_signal.Conversation.{Step, IsStart}
use oktz_signal.Conversation.Sound.{IsSound}
use oktz_signal.Conversation.Invariant.{Step-IsSound, IsStart-IsSound}
use oktz_signal.Conversation.Answer.{sent_entry}
use oktz_signal.Proto.Whisper.RoundTrip.{whisper_bytes}
use oktz_signal.Ratchet.Kdf.{whisper_ratchet}
use oktz_signal.Conversation.Handshake.{
  put_entry-single, secrets_agree, current-single, root_of, chain_key_of,
}

module _ (c : Crates) (dh : IsDiffieHellman c) where
  -- The initiator has the recipient's public keys, the recipient has the initiator's, and the
  -- private keys have 32 bytes.
  pub record AreAcquainted (params : X3dhParams) (ea ib sb sender : List ℕ) (ob : Option (List ℕ))
      : Type 0 where
    pub keys : AreKeys c dh params.identity_priv ea ib sb ob
    pub to : get_1_33 params.recipient_pub ≡ some (c.mul_base_clamped ib)
    pub signed : strip_prefix params.signed_prekey_pub ≡ c.mul_base_clamped sb
    pub one : params.prekey_pub ≡ one_time c dh ob
    pub from : get_1_33 sender ≡ some (c.mul_base_clamped params.identity_priv)

module _ (c : Crates) (encoding : IsEncoding c) (dh : IsDiffieHellman c) (serde : Serde)
    (params : X3dhParams) (ea sb sender seed new_pub new_priv agreed_new plaintext : List ℕ)
    (registration_id our_registration_id : ℕ) (now now' : ℤ) (json json' : Str) where
  -- The message is sent and read; the initiator's text holds the session that has sent it, and the
  -- recipient's the one that has read it.
  pub record IsDelivered (agreed root secret : List ℕ) : Type 0 where
    pub sent : EncryptResult
    pub read : DecryptResult
    pub next : Chain
    pub full : Chain
    pub counter : ℕ
    pub encrypts : encrypt c serde json plaintext sender our_registration_id ≡ ok sent
    pub wrapped : sent.message_type ≡ 3
    pub decrypts : decrypt_pkmsg c serde json' sent.ciphertext params.recipient_pub seed ≡ ok read
    pub same_text : read.plaintext ≡ plaintext
    pub still_sends : next.chain_type ≡ sending
    pub sent_text :
        serde.to_string (
          single_session (c.encode (c.mul_base_clamped ea)) (
            sent_entry c encoding dh params ea
              (strip_prefix params.signed_prekey_pub)
              (derive_secrets c agreed root whisper_ratchet)
              now
              next))
        ≡ some sent.session_json
    pub read_text :
        serde.to_string (
          single_session (c.encode (c.mul_base_clamped ea)) (
            first_left c encoding dh sb ea root agreed new_pub new_priv agreed_new seed
              (first_entry c encoding dh sb ea root agreed new_pub new_priv agreed_new seed secret
                sender registration_id now')
              full
              counter))
        ≡ some read.session_json
    pub sound : IsSound (
        first_left c encoding dh sb ea root agreed new_pub new_priv agreed_new seed
          (first_entry c encoding dh sb ea root agreed new_pub new_priv agreed_new seed secret
            sender registration_id now')
          full
          counter)

module _ (c : Crates) (encoding : IsEncoding c) (dh : IsDiffieHellman c) (verifying : IsVerifying c)
    (aes : IsAes c) (d : Dalek) (serde : Serde) (printing : IsPrinting serde) where
  pub first_delivery :
      (params : X3dhParams) (ea ib sb sender seed new_pub new_priv agreed_new plaintext : List ℕ)
      (ob : Option (List ℕ)) (registration_id our_registration_id : ℕ) (now now' : ℤ)
      (json json' : Str) (a : IsInitial c d serde params ea now json)
      (b : IsRecipient c d serde ib sb
        (c.mul_base_clamped sb)
        ob
        sender
        (c.mul_base_clamped ea)
        registration_id
        now'
        json')
      → AreAcquainted c dh params ea ib sb sender ob
      → IsReadable serde json
      → IsReadable serde json'
      → generate_keypair c seed ≡ ok (new_pub, new_priv)
      → scalar_multiply c new_priv (c.mul_base_clamped ea) ≡ ok agreed_new
      → new_pub ≢ c.mul_base_clamped ea
      → FitsU32 params.prekey_id
      → IsU32 params.signed_key_id
      → IsU32 our_registration_id
      → length sender ≤ 4294967295
      → All (λ b. b < 256) plaintext
      → length plaintext ≤ 4294967295
      → IsDelivered c encoding dh serde params ea sb sender seed new_pub new_priv agreed_new
          plaintext registration_id our_registration_id now now' json json' a.agreed
          (root_of c a.secret)
          b.secret
  unfolding have_open_session recipient_entry insert
  first_delivery params ea ib sb sender seed new_pub new_priv agreed_new plaintext ob
        registration_id our_registration_id now now' json json' a b acquainted readable readable'
        fresh agrees_new new_key prekey_fits signed_fits our_fits sender_short bytes short =
      (let pa = c.mul_base_clamped ea in
        let root = root_of c a.secret in
        let mk = message_key c 0 (chain_key_of c a.agreed root) in
        let id = c.encode pa in
        let entry =
          recipient_entry c sb (c.mul_base_clamped sb) sender pa registration_id
            (derive_secrets c b.secret (replicate 32 0) whisper_text) now' in
        let r = single_session id entry in
        let m =
          first_message c encoding dh d serde params ea now json a aes sender plaintext bytes
            short in
        let agrees =
          scalar_multiply-commutes c dh sb ea b.signed_whole a.whole
          ∙ subst (λ k. scalar_multiply c ea k ≡ ok a.agreed) acquainted.signed a.agreed_made in
        let same_secret =
          secrets_agree c encoding dh d serde params ea ib sb sender ob registration_id now now'
            json json' a b acquainted.keys acquainted.to acquainted.signed acquainted.one
            acquainted.from in
        let (full, opens) =
          opens_first c encoding dh verifying sb ea root a.agreed new_pub new_priv agreed_new seed
            agrees fresh agrees_new new_key b.secret sender params.recipient_pub plaintext
            registration_id 0 now' (new_chain (c.encode (chain_key_of c a.agreed root)) sending) m
            refl (ap (root_of c) (sym same_secret)) in
        let inner = wire_bytes c mk sender params.recipient_pub m.msg in
        let outer =
          first_wrapping c encoding dh d serde params ea now json a inner sender
            our_registration_id in
        let sendable =
          first_wrapping-IsSendable c encoding dh d serde params ea now json a sender plaintext
            our_registration_id m prekey_fits signed_fits our_fits
            (present sender (c.mul_base_clamped params.identity_priv) acquainted.from) sender_short
            short in
        let (written, sent_text, sends) =
          encrypt-first c encoding dh d serde params ea now json a aes printing sender plaintext
            our_registration_id m readable sendable in
        let (written', printed') = printing (
          put_entry id
            (first_left c encoding dh sb ea root a.agreed new_pub new_priv agreed_new seed entry
              full m.msg.counter)
            r) in
        let read = deserialize-printed serde json' r readable' refl b.printed in
        let left =
          first_left c encoding dh sb ea root a.agreed new_pub new_priv agreed_new seed entry full
            m.msg.counter in
        record {
          sent = record {
            session_json = written;
            message_type = 3;
            ciphertext = version_byte ∷ pkmsg_bytes outer;
          };
          read = record { session_json = written'; plaintext = plaintext };
          next = m.next;
          full = full;
          counter = m.msg.counter;
          encrypts = sends;
          wrapped = refl;
          decrypts =
              decrypt_pkmsg-wrapping c serde json' r outer params.recipient_pub seed sendable read
                refl
              ∙ decrypt_whisper-wire_bytes c encoding serde json' written' r id entry left m.msg mk
                  sender params.recipient_pub seed plaintext m.sendable read
                  (current-single id entry) opens printed';
          same_text = refl;
          still_sends = m.kept_type;
          sent_text = sent_text;
          read_text = ap serde.to_string (sym (put_entry-single id entry left)) ∙ printed';
          sound = subst IsSound (ap (λ o. o.1) opens) (
              Step-IsSound c
                (Step.receive entry m.msg (whisper_bytes m.msg) _ params.recipient_pub seed)
                (IsStart-IsSound c (
                  IsStart.recipient sb (c.mul_base_clamped sb) sender pa registration_id
                    (derive_secrets c b.secret (replicate 32 0) whisper_text) now')));
        })
