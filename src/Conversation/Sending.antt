-- ===== src/Conversation/Sending.antt =====
-- ratchet.rs, `encrypt`: the message that a session sends, in its parts and as a whole.
use oktz_signal.Base.{
  ℕ, ◌+◌, ◌≤◌, ◌<◌, ◌≡◌, refl, ap, sym, ◌∙◌, List, [], ◌∷◌, ◌++◌, some, none, false, arith,
}
use oktz_signal.Base.{
  length, take, All, is_empty, ok, Option, >>=-ok, ◌>>=◌, Result, ok_or, no_session_entry,
  invalid_base64, counter_beyond_u32, invalid_json,
}
use oktz_signal.Base.Int.{ℤ, pos, negsuc, pos_part, ◌+ℤ◌, ◌≤ℤ◌, +ℤ_parts}
use oktz_signal.BTreeMap.Keys.{Str, str_ord, int_ord}
use oktz_signal.Session.{
  Chain, SessionEntry, SessionRecord, PendingPreKey, Serde, serialize, deserialize,
  current_session_mut,
}
use oktz_signal.Crates.{Crates, BlockCipher, IsEncoding}
use oktz_signal.Proto.Whisper.{WhisperMessage, encode_whisper}
use oktz_signal.Proto.Whisper.RoundTrip.{IsSendable, whisper_bytes, encode_whisper-bytes}
use oktz_signal.Ratchet.Kdf.{chunk, derive_secrets_n, expand}
use oktz_signal.Ratchet.Cbc.{aes_cbc_encrypt}
use oktz_signal.Ratchet.Cbc.Blocks.{IsCipher}
use oktz_signal.Ratchet.Cbc.RoundTrip.{aes_cbc_encrypt-whole}
use oktz_signal.Ratchet.Chains.{with_prefix}
use oktz_signal.Ratchet.MessageKeys.Schedule.{IsWellFormed, HasKey, message_key, advance}
use oktz_signal.Ratchet.Encrypt.{
  EncryptResult, encrypt, select_sending, next_message_key, message_keys_of, try_u32, seal,
  put_chain, put_entry, version_byte, wrap_pkmsg,
}
use oktz_signal.Ratchet.Encrypt.Advance.{next_message_key-advances}
use oktz_signal.Ratchet.Decrypt.Opened.{IsSealed, iv-IsBlock}

-- AES-256: a key of 32 bytes is accepted, and decryption undoes encryption.
abbrev pub IsAes : Crates → Type 0
IsAes c =
    (key : List ℕ)
    → length key ≡ 32
    → (cipher : BlockCipher) × (c.aes256 key ≡ some cipher) × IsCipher cipher

module _ (c : Crates) where
  -- What a session sends for a plaintext under one message key.
  pub record Message (chain : Chain) (mk eph sender receiver plaintext : List ℕ) (previous : ℕ)
      : Type 0 where
    pub msg : WhisperMessage
    pub next : Chain
    pub stepped : next_message_key c chain ≡ ok (pos msg.counter, (c.encode mk, next))
    pub kept_type : next.chain_type ≡ chain.chain_type
    pub place : pos msg.counter ≡ chain.chain_key.counter +ℤ pos 1
    pub enciphered :
        aes_cbc_encrypt c
          (chunk (message_keys_of c mk) 0)
          (take 16 (chunk (message_keys_of c mk) 2))
          plaintext
        ≡ ok msg.ciphertext
    pub key_shape : msg.ephemeral_key ≡ with_prefix eph
    pub previous_shape : msg.previous_counter ≡ previous
    pub short :
        length msg.ephemeral_key + length msg.ciphertext ≤ length eph + length plaintext + 17
    pub fits : try_u32 (pos msg.counter) ≡ some msg.counter
    pub sendable : IsSendable msg
    pub sealed :
        IsSealed c mk sender receiver msg
          (whisper_bytes msg)
          (take 8 (
            c.hmac
              (chunk (message_keys_of c mk) 1)
              (sender ++ receiver ++ version_byte ∷ whisper_bytes msg)))
          plaintext

  -- The bytes that travel: version, message and tag.
  unfoldable pub wire_bytes : List ℕ → List ℕ → List ℕ → WhisperMessage → List ℕ
  unfolding seal
  wire_bytes mk sender receiver msg =
      seal c (message_keys_of c mk) sender receiver (whisper_bytes msg)

  -- How `encrypt` ends, once the record is written.
  unfoldable pub packed : Option PendingPreKey → Str → List ℕ → List ℕ → ℕ → Result EncryptResult
  unfolding wrap_pkmsg
  packed pending json result sender registration_id = elim pending [
    | some pk ↦ (do
      wrapped ← wrap_pkmsg c pk result sender registration_id
      ok (record { session_json = json; message_type = 3; ciphertext = wrapped }))
    | none ↦ ok (record { session_json = json; message_type = 1; ciphertext = result })
  ]

fits_u32 : (n : ℕ) → n ≤ 4294967295 → try_u32 (pos n) ≡ some n
fits_u32 n h = ground (arith, h)

not_empty : (xs : List ℕ) → 1 ≤ length xs → is_empty xs ≡ false
not_empty [] h = ground (arith, h)
not_empty (x ∷ xs) h = refl

prefixed_length :
    (key : List ℕ)
    → 1 ≤ length key
    → (1 ≤ length (with_prefix key)) × (length (with_prefix key) ≤ length key + 1)
unfolding with_prefix
prefixed_length key h = ground (arith, h)

same_message :
    (msg : WhisperMessage) (key : List ℕ) (previous : ℕ)
    → msg.ephemeral_key ≡ key
    → msg.previous_counter ≡ previous
    → record {
      ephemeral_key = key;
      counter = msg.counter;
      previous_counter = previous;
      ciphertext = msg.ciphertext;
    }
      ≡ msg
same_message msg key previous e f = rw (← e, ← f) refl

as_u32 :
    (z : ℤ) → pos 0 ≤ℤ z → z ≤ℤ pos 4294967295 → (pos (pos_part z) ≡ z) × (pos_part z ≤ 4294967295)
as_u32 (pos n) low high = (refl, omega (arith, high))
as_u32 (negsuc n) low high = absurd (omega (arith, low))

next_place :
    (k : ℤ)
    → negsuc 0 ≤ℤ k
    → k ≤ℤ pos 4294967294
    → (pos (pos_part (k +ℤ pos 1)) ≡ k +ℤ pos 1) × (pos_part (k +ℤ pos 1) ≤ 4294967295)
next_place k low high =
    as_u32 (k +ℤ pos 1) (omega (arith, low, +ℤ_parts k (pos 1)))
      (omega (arith, high, +ℤ_parts k (pos 1)))

module _ (c : Crates) (encoding : IsEncoding c) (aes : IsAes c) where
  first_chunk-length : (mk : List ℕ) → length (chunk (message_keys_of c mk) 0) ≡ 32
  unfolding derive_secrets_n expand
  first_chunk-length mk = encoding.length-hmac _ _

  -- A session can send: with a sending chain whose key decodes to the schedule's, a plaintext of
  -- bytes and a ratchet key that are not too long, every part of `encrypt` succeeds.
  pub message :
      (chain : Chain) (n previous : ℕ) (ck eph sender receiver plaintext : List ℕ)
      → IsWellFormed chain
      → HasKey c chain (advance c n ck)
      → chain.chain_key.counter ≤ℤ pos 4294967294
      → previous ≤ 4294967295
      → 1 ≤ length eph
      → length eph ≤ 4294967295
      → All (λ b. b < 256) plaintext
      → length plaintext ≤ 4294967295
      → Message c chain (message_key c n ck) eph sender receiver plaintext previous
  unfolding message_key
  message chain n previous ck eph sender receiver plaintext well key room fits some_key short bytes
        not_long =
      (let mk = message_key c n ck in
        let keys = message_keys_of c mk in
        let (next, stepped, _, _, _, _, kept_type) =
          next_message_key-advances c encoding chain (advance c n ck) well key room in
        let (cipher, accepted, laws) = aes (chunk keys 0) (first_chunk-length mk) in
        let (ciphertext, enciphered, _, full, few) =
          aes_cbc_encrypt-whole c (chunk keys 0) (take 16 (chunk keys 2)) plaintext cipher accepted
            laws (iv-IsBlock c encoding mk) bytes in
        let (place, small) = next_place chain.chain_key.counter well.started room in
        let (present, long) = prefixed_length eph some_key in
        let msg : WhisperMessage = record {
          ephemeral_key = with_prefix eph;
          counter = pos_part (chain.chain_key.counter +ℤ pos 1);
          previous_counter = previous;
          ciphertext = ciphertext;
        } in
        record {
          msg = msg;
          next = next;
          stepped = stepped ∙ ap (λ k. ok (k, (c.encode mk, next))) (sym place);
          kept_type = kept_type;
          place = place;
          enciphered = enciphered;
          key_shape = refl;
          previous_shape = refl;
          short = omega (arith, long, few);
          fits = fits_u32 (pos_part (chain.chain_key.counter +ℤ pos 1)) small;
          sendable = record {
            key_present = not_empty (with_prefix eph) present;
            key_length = omega (arith, long, short);
            counter_fits = omega (arith, small);
            previous_fits = omega (arith, fits);
            text_present = not_empty ciphertext full;
            text_length = omega (arith, few, not_long);
          };
          sealed = record {
            cipher = cipher;
            accepted = accepted;
            laws = laws;
            bytes = bytes;
            enciphered = enciphered;
            tagged = refl;
          };
        })

  module _ (serde : Serde) where
    pub encrypt-packed :
        (json json' : Str) (r : SessionRecord) (id chain_id : Str) (entry : SessionEntry)
        (chain : Chain) (mk eph sender receiver plaintext : List ℕ) (registration_id : ℕ)
        (m : Message c chain mk eph sender receiver plaintext
          entry.current_ratchet.previous_counter)
        → deserialize serde json ≡ ok r
        → current_session_mut r ≡ some (id, entry)
        → c.decode entry.index_info.remote_identity_key ≡ some receiver
        → c.decode entry.current_ratchet.ephemeral_key_pair.pub_key ≡ some eph
        → select_sending c entry ≡ ok (chain_id, chain)
        → serde.to_string (put_entry id (put_chain chain_id m.next entry) r) ≡ some json'
        → encrypt c serde json plaintext sender registration_id
          ≡ packed c entry.pending_pre_key json'
              (wire_bytes c mk sender receiver m.msg)
              sender
              registration_id
    unfolding encrypt wire_bytes packed
    encrypt-packed json json' r id chain_id entry chain mk eph sender receiver plaintext
          registration_id m read current identity key selected printed =
        >>=-ok _ read
        ∙ >>=-ok _ (ap (ok_or no_session_entry) current)
        ∙ >>=-ok _ (ap (ok_or invalid_base64) identity)
        ∙ >>=-ok _ (ap (ok_or invalid_base64) key)
        ∙ >>=-ok _ selected
        ∙ >>=-ok _ m.stepped
        ∙ >>=-ok _ (ap (ok_or invalid_base64) (encoding.decode-encode mk))
        ∙ >>=-ok _ m.enciphered
        ∙ >>=-ok _ (ap (ok_or counter_beyond_u32) m.fits)
        ∙ >>=-ok
            (λ buf. serialize serde (put_entry id (put_chain chain_id m.next entry) r) >>= λ j.
              packed c entry.pending_pre_key j (seal c (message_keys_of c mk) sender receiver buf)
                sender registration_id)
            (ap encode_whisper (
                same_message m.msg (with_prefix eph) entry.current_ratchet.previous_counter
                  m.key_shape m.previous_shape)
              ∙ encode_whisper-bytes m.msg m.sendable)
        ∙ >>=-ok
            (λ j.
              packed c entry.pending_pre_key j (wire_bytes c mk sender receiver m.msg) sender
                registration_id)
            (ap (ok_or invalid_json) printed)
