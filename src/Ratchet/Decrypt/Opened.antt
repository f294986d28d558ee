-- ===== src/Ratchet/Decrypt/Opened.antt =====
-- ratchet.rs, `decrypt_entry`: what it takes to open a message, whether a ratchet step comes first
-- or not and wherever the message's key comes from.
use oktz_signal.Base.{ℕ, ◌<◌, ◌≡◌, refl, ap, subst, ◌∙◌, List, ◌∷◌, ◌++◌, true, none, some, arith}
use oktz_signal.Base.{take, All, replicate, length-take}
use oktz_signal.Base.{ok}
use oktz_signal.Base.Int.{pos}
use oktz_signal.BTreeMap.{get, remove}
use oktz_signal.BTreeMap.Keys.{str_ord, int_ord}
use oktz_signal.Base.{Option}
use oktz_signal.BTreeMap.{insert}
use oktz_signal.BTreeMap.Keys.{Str}
use oktz_signal.Ratchet.Chains.{find_chain_mut}
use oktz_signal.Ratchet.MessageKeys.{peek_message_key}
use oktz_signal.Ratchet.Plan.{RatchetPlan}
use oktz_signal.Session.{Chain, SessionEntry, is_receiving}
use oktz_signal.Crates.{Crates, BlockCipher, IsEncoding}
use oktz_signal.Proto.Whisper.{WhisperMessage}
use oktz_signal.Ratchet.Kdf.{chunk, derive_secrets_n, expand, whisper_message_keys}
use oktz_signal.Ratchet.Cbc.{aes_cbc_encrypt, aes_cbc_decrypt}
use oktz_signal.Ratchet.Cbc.Xor.{IsBlock}
use oktz_signal.Ratchet.Cbc.Blocks.{IsCipher, All-take}
use oktz_signal.Ratchet.Cbc.RoundTrip.{aes_cbc_decrypt-aes_cbc_encrypt}
use oktz_signal.Ratchet.Chains.{chain_key_ids}
use oktz_signal.Ratchet.MessageKeys.{fill_message_keys}
use oktz_signal.Ratchet.Plan.{plan_ratchet}
use oktz_signal.Ratchet.Encrypt.{message_keys_of, version_byte}
use oktz_signal.Ratchet.Decrypt.{
  authenticate, spend, commit, apply_plan, decrypt_entry, chain_to_peek,
}

-- HMAC: the first bytes of a tag are verified.
abbrev pub IsVerifying : Crates → Type 0
IsVerifying c =
    (key bytes : List ℕ) → c.verify_truncated_left key bytes (take 8 (c.hmac key bytes)) ≡ true

module _ (c : Crates) (encoding : IsEncoding c) where
  third_chunk :
      (input salt info : List ℕ)
      → (key : List ℕ) × (bytes : List ℕ) × (chunk (derive_secrets_n c input salt info 3) 2
          ≡ c.hmac key bytes)
  unfolding derive_secrets_n expand
  third_chunk input salt info = (_, _, refl)

  pub iv-IsBlock : (key : List ℕ) → IsBlock (take 16 (chunk (message_keys_of c key) 2))
  iv-IsBlock key =
      (let (k, m, e) = third_chunk key (replicate 32 0) whisper_message_keys in
        rw e (
          omega (arith, length-take 16 (c.hmac k m), encoding.length-hmac k m),
          All-take (λ b. b < 256) 16 (c.hmac k m) (encoding.hmac_bytes k m),
        ))

  pub undone :
      (key iv plaintext ciphertext : List ℕ) (cipher : BlockCipher)
      → c.aes256 key ≡ some cipher
      → IsCipher cipher
      → IsBlock iv
      → All (λ b. b < 256) plaintext
      → aes_cbc_encrypt c key iv plaintext ≡ ok ciphertext
      → aes_cbc_decrypt c key iv ciphertext ≡ ok plaintext
  undone key iv plaintext ciphertext cipher k laws b bytes h =
      (let (ct, enc, dec) =
          aes_cbc_decrypt-aes_cbc_encrypt c key iv plaintext cipher k laws b bytes in
        let same : (ct ≡ ciphertext) = cc in
        subst (λ x. aes_cbc_decrypt c key iv x ≡ ok plaintext) same dec)

module _ (c : Crates) where
  -- The ciphertext is the plaintext enciphered under the keys that the message key gives, and the
  -- tag is the one of those keys over both identities and the buffer.
  pub record IsSealed (mk remote our : List ℕ) (msg : WhisperMessage) (buf mac plaintext : List ℕ)
      : Type 0 where
    pub cipher : BlockCipher
    pub accepted : c.aes256 (chunk (message_keys_of c mk) 0) ≡ some cipher
    pub laws : IsCipher cipher
    pub bytes : All (λ b. b < 256) plaintext
    pub enciphered :
        aes_cbc_encrypt c
          (chunk (message_keys_of c mk) 0)
          (take 16 (chunk (message_keys_of c mk) 2))
          plaintext
        ≡ ok msg.ciphertext
    pub tagged :
        mac ≡ take 8 (c.hmac (chunk (message_keys_of c mk) 1) (remote ++ our ++ version_byte ∷ buf))

  -- The entry that a message leaves which was opened: the chain stands where it was filled to, and
  -- the message's key is spent.
  unfoldable pub opened : Str → Chain → ℕ → SessionEntry → SessionEntry
  unfolding insert remove
  opened id full counter stepped = record stepped {
    chains =
        insert id (record full { message_keys = remove (pos counter) full.message_keys })
          stepped.chains;
    pending_pre_key = none;
  }

module _ (c : Crates) (encoding : IsEncoding c) (verifying : IsVerifying c) where
  pub decrypt_entry-opened :
      (entry : SessionEntry) (msg : WhisperMessage) (buf mac our seed : List ℕ)
      (plan : Option RatchetPlan) (id : Str) (chain full : Chain) (mk remote plaintext : List ℕ)
      → plan_ratchet c entry (chain_key_ids c msg.ephemeral_key) msg.previous_counter seed ≡ ok plan
      → chain_to_peek c entry (chain_key_ids c msg.ephemeral_key) plan ≡ ok chain
      → find_chain_mut (apply_plan c entry plan).chains (chain_key_ids c msg.ephemeral_key)
        ≡ some (id, chain)
      → is_receiving chain ≡ true
      → peek_message_key c chain (pos msg.counter) ≡ ok (some (c.encode mk))
      → fill_message_keys c chain (pos msg.counter) ≡ (ok tt, full)
      → get (pos msg.counter) full.message_keys ≡ some (c.encode mk)
      → c.decode entry.index_info.remote_identity_key ≡ some remote
      → IsSealed c mk remote our msg buf mac plaintext
      → decrypt_entry c entry msg buf mac our seed
        ≡ (ok plaintext, opened c id full msg.counter (apply_plan c entry plan))
  unfolding decrypt_entry authenticate commit spend opened
  decrypt_entry-opened entry msg buf mac our seed plan id chain full mk remote plaintext planned
        to_peek for_writing receives peeked fills got identity sealed =
      (let keys = message_keys_of c mk in
        let counter = pos msg.counter in
        let input = remote ++ our ++ version_byte ∷ buf in
        let verified : (c.verify_truncated_left (chunk keys 1) input mac ≡ true) =
          rw sealed.tagged (verifying (chunk keys 1) input) in
        let authentic : (authenticate c entry msg buf mac our seed ≡ ok (plan, keys)) =
          rw (planned, authenticate, to_peek, peeked, encoding.decode-encode mk, identity, verified)
            refl in
        let stepped = apply_plan c entry plan in
        let deciphered =
          undone c encoding (chunk keys 0) (take 16 (chunk keys 2)) plaintext msg.ciphertext
            sealed.cipher sealed.accepted sealed.laws (iv-IsBlock c encoding mk) sealed.bytes
            sealed.enciphered in
        let next = (fill_message_keys c chain counter).1 in
        let reached : (next ≡ full) = ap (λ x. x.1) fills in
        let succeeds : ((fill_message_keys c chain counter).0 ≡ ok tt) = ap (λ x. x.0) fills in
        let given : (get counter next.message_keys ≡ some (c.encode mk)) = rw reached got in
        let spending : (spend c stepped id chain msg keys
            ≡ (ok plaintext, opened c id full msg.counter stepped)) =
          rw (succeeds, spend, given, deciphered) refl
          ∙ ap (λ x. (ok plaintext, opened c id x msg.counter stepped)) reached in
        let committed : (commit c entry msg plan keys
            ≡ (ok plaintext, opened c id full msg.counter stepped)) =
          rw (for_writing, commit, receives) spending in
        rw (authentic, decrypt_entry) committed)
