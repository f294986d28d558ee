-- ===== src/Ratchet/Decrypt/Sealed.antt =====
-- ratchet.rs: what was sealed for a chain is decrypted on it, in any order.
use oktz_signal.Base.{ℕ, suc, ◌≤◌, ◌<◌, ◌≡◌, refl, List, ◌∷◌, ◌++◌, true, none, some, arith}
use oktz_signal.Base.{length, take, drop, All, drop-length_append}
use oktz_signal.Base.{ok}
use oktz_signal.Base.Int.{pos, ◌+ℤ◌, ◌≤ℤ◌}
use oktz_signal.BTreeMap.Keys.{str_ord, int_ord}
use oktz_signal.Ratchet.Decrypt.Opened.{IsSealed, IsVerifying, opened, decrypt_entry-opened}
use oktz_signal.Session.{Chain, SessionEntry, is_receiving}
use oktz_signal.Crates.{Crates, BlockCipher, IsEncoding}
use oktz_signal.Proto.Whisper.{WhisperMessage}
use oktz_signal.Ratchet.Kdf.{chunk}
use oktz_signal.Ratchet.Cbc.{aes_cbc_encrypt}
use oktz_signal.Ratchet.Cbc.Blocks.{IsCipher}
use oktz_signal.Ratchet.Chains.{chain_key_ids, find_chain}
use oktz_signal.Ratchet.Chains.Find.{find_chain-mut}
use oktz_signal.Ratchet.MessageKeys.Schedule.{IsWellFormed, HasKey, filled, message_key}
use oktz_signal.Ratchet.MessageKeys.Agreement.{
  fill_message_keys-filled, peek_message_key-message_key,
}
use oktz_signal.Ratchet.MessageKeys.Filled.{get-filled, filled-IsWellFormed}
use oktz_signal.Ratchet.Plan.{plan_ratchet}
use oktz_signal.Ratchet.Encrypt.{message_keys_of, version_byte, seal}
use oktz_signal.Ratchet.Decrypt.{apply_plan, decrypt_entry, chain_to_peek}

module _ (c : Crates) (encoding : IsEncoding c) where
  -- The tag of a sealed message.
  abbrev pub tag_of : List (List ℕ) → List ℕ → List ℕ → List ℕ → List ℕ
  unfolding seal
  tag_of keys sender receiver buf = drop (suc (length buf)) (seal c keys sender receiver buf)

  tag_of-hmac :
      (keys : List (List ℕ)) (sender receiver buf : List ℕ)
      → tag_of keys sender receiver buf
        ≡ take 8 (c.hmac (chunk keys 1) (sender ++ receiver ++ version_byte ∷ buf))
  unfolding tag_of seal
  tag_of-hmac keys sender receiver buf =
      drop-length_append buf
        (take 8 (c.hmac (chunk keys 1) (sender ++ receiver ++ version_byte ∷ buf)))

  -- With encodings, HMAC and AES as documented: let the entry find, for the message's ephemeral
  -- key, a well-formed receiving chain whose key decodes to `ck`, and let the message's counter be
  -- 1 to 2000 places ahead of the chain and its ciphertext be the plaintext enciphered under the
  -- keys of that place. Then, with the tag that the sender's `seal` put on the buffer for both
  -- identities, `decrypt_entry` returns the plaintext, however many messages are skipped.
  pub decrypt_entry-seal :
      (verifying : IsVerifying c) (entry : SessionEntry) (msg : WhisperMessage)
      (buf our seed : List ℕ) (chain : Chain) (ck remote plaintext : List ℕ) (n : ℕ)
      (cipher : BlockCipher)
      → find_chain entry.chains (chain_key_ids c msg.ephemeral_key) ≡ some chain
      → is_receiving chain ≡ true
      → IsWellFormed chain
      → HasKey c chain ck
      → pos msg.counter ≡ chain.chain_key.counter +ℤ pos (suc n)
      → suc n ≤ 2000
      → msg.counter ≤ 4294967295
      → c.decode entry.index_info.remote_identity_key ≡ some remote
      → c.aes256 (chunk (message_keys_of c (message_key c n ck)) 0) ≡ some cipher
      → IsCipher cipher
      → All (λ b. b < 256) plaintext
      → aes_cbc_encrypt c
          (chunk (message_keys_of c (message_key c n ck)) 0)
          (take 16 (chunk (message_keys_of c (message_key c n ck)) 2))
          plaintext
        ≡ ok msg.ciphertext
      → (left : SessionEntry) × (decrypt_entry c entry msg buf
            (tag_of (message_keys_of c (message_key c n ck)) remote our buf)
            our
            seed
          ≡ (ok plaintext, left))
  unfolding plan_ratchet chain_to_peek apply_plan
  decrypt_entry-seal verifying entry msg buf our seed chain ck remote plaintext n cipher found
        receives well key place few small identity accepted laws bytes enciphered =
      (let ids = chain_key_ids c msg.ephemeral_key in
        let mk = message_key c n ck in
        let keys = message_keys_of c mk in
        let counter = pos msg.counter in
        let in_range : (counter ≤ℤ pos 4294967295) = omega (arith, small) in
        let sealed : IsSealed c mk remote our msg buf (tag_of keys remote our buf) plaintext =
          record {
            cipher = cipher;
            accepted = accepted;
            laws = laws;
            bytes = bytes;
            enciphered = enciphered;
            tagged = tag_of-hmac keys remote our buf;
          } in
        let (id, for_writing) = find_chain-mut entry.chains ids chain found in
        (
          opened c id (filled c (suc n) ck chain) msg.counter entry,
          decrypt_entry-opened c encoding verifying entry msg buf (tag_of keys remote our buf) our
              seed none id chain (filled c (suc n) ck chain) mk remote plaintext
              (rw (found, plan_ratchet) refl) (rw (found, chain_to_peek, receives) refl) for_writing
              receives
              (peek_message_key-message_key c encoding chain ck counter n well key place few
                in_range)
              (fill_message_keys-filled c encoding chain ck counter (suc n) well key place few
                in_range)
              (get-filled c encoding chain ck counter (suc n) n well
                (filled-IsWellFormed c encoding (suc n) ck chain well).sorted (omega arith) few
                place)
              identity sealed,
        ))
