-- ===== src/Conversation/Ends.antt =====
-- ratchet.rs: every call ends, on every input.
use oktz_signal.Base.{
  ℕ, zero, suc, List, not, ◌%◌, ◌==◌, ◌||◌, arith, inl, inr, Option-cases, Bool-cases,
}
use oktz_signal.Base.{
  err, ok_or, aes_key_length, invalid_ciphertext_length, counter_overflow, message_key_not_found,
  no_sending_chain, ambiguous_sending_chain, is_empty, length,
}
use oktz_signal.Base.Post.{
  ok_or-Ends, bail_if-Ends, Ends, Ends-ok, Ends-err, Ends-bail_if, Ends-ok_or, >>=-Ends, >>-Ends,
}
use oktz_signal.Base.Int.{ℤ, pos}
use oktz_signal.BTreeMap.{get}
use oktz_signal.BTreeMap.Keys.{Str, str_ord, int_ord}
use oktz_signal.Session.{
  SessionEntry, SessionRecord, Chain, Serde, serialize, deserialize, parse, validate, is_receiving,
  is_sending,
}
use oktz_signal.Crates.{Crates}
use oktz_signal.Util.{unb64}
use oktz_signal.Curve.{check_len, scalar_multiply, generate_keypair}
use oktz_signal.Ratchet.Cbc.{aes_cbc_encrypt, aes_cbc_decrypt, unpad_pkcs7, decrypt_blocks, chunks}
use oktz_signal.Ratchet.Chains.{chain_key_ids_b64, find_chain, find_chain_mut, as_x25519}
use oktz_signal.Ratchet.MessageKeys.{peek_message_key, fill_message_keys}
use oktz_signal.Ratchet.MessageKeys.Bounds.{fill_message_keys-IsBounded}
use oktz_signal.Ratchet.Plan.{retired_ids, plan_step, plan_ratchet, first_id}
use oktz_signal.Ratchet.Encrypt.{
  checked_add_one, count_sending, find_sending, select_sending, next_message_key,
}

check_len-Ends : (v : List ℕ) (n : ℕ) (what : _) → Ends (check_len v n what)
unfolding check_len
check_len-Ends v n what = Ends-bail_if _ _ (λ h. cc)

unpad_pkcs7-Ends : (out : List ℕ) → Ends (unpad_pkcs7 out)
unfolding unpad_pkcs7
unpad_pkcs7-Ends out h = ground (arith, h)

pub deserialize-Ends : (serde : Serde) (json : Str) → Ends (deserialize serde json)
unfolding deserialize parse validate
deserialize-Ends serde json h = ground (arith, h)

pub serialize-Ends : (serde : Serde) (r : SessionRecord) → Ends (serialize serde r)
unfolding serialize
serialize-Ends serde r h = ground (arith, h)

module _ (c : Crates) where
  pub unb64-Ends : (s : Str) → Ends (unb64 c s)
  unfolding unb64
  unb64-Ends s = Ends-ok_or _ _ (λ h. cc)

  pub aes_cbc_encrypt-Ends : (key iv plaintext : List ℕ) → Ends (aes_cbc_encrypt c key iv plaintext)
  unfolding aes_cbc_encrypt
  aes_cbc_encrypt-Ends key iv plaintext h = ground (arith, h)

  pub aes_cbc_decrypt-Ends :
      (key iv ciphertext : List ℕ) → Ends (aes_cbc_decrypt c key iv ciphertext)
  unfolding aes_cbc_decrypt
  aes_cbc_decrypt-Ends key iv ciphertext =
      bail_if-Ends (not (length ciphertext % 16 == 0) || is_empty ciphertext)
        invalid_ciphertext_length _ (λ h. cc)
        (ok_or-Ends aes_key_length (c.aes256 key) _ (λ h. cc)
          (λ cipher. unpad_pkcs7-Ends (decrypt_blocks cipher iv (chunks ciphertext))))

  scalar_multiply-Ends :
      (secret_key public_key : List ℕ) → Ends (scalar_multiply c secret_key public_key)
  unfolding scalar_multiply check_len
  scalar_multiply-Ends secret_key public_key h = ground (arith, h)

  generate_keypair-Ends : (seed : List ℕ) → Ends (generate_keypair c seed)
  unfolding generate_keypair check_len
  generate_keypair-Ends seed h = ground (arith, h)

  pub peek_message_key-Ends :
      (chain : Chain) (counter : ℤ) → Ends (peek_message_key c chain counter)
  unfolding peek_message_key unb64
  peek_message_key-Ends chain counter h = ground (arith, h)

  retired_ids-Ends : (entry : SessionEntry) (previous : ℕ) → Ends (retired_ids c entry previous)
  unfolding retired_ids
  retired_ids-Ends entry previous =
      (let last = entry.current_ratchet.last_remote_ephemeral_key in
        let ids = chain_key_ids_b64 c last in
        elim (Bool-cases (is_empty last)) [
          | inl e ↦ rw (e, retired_ids) (Ends-ok _)
          | inr e ↦ elim (Option-cases (find_chain entry.chains ids)) [
            | inl f ↦ rw (e, retired_ids, f) (Ends-ok _)
            | inr (chain, f) ↦ elim (Bool-cases (is_receiving chain)) [
              | inl g ↦
                  rw (e, retired_ids, f, g)
                    (>>=-Ends (peek_message_key c chain (pos previous)) _
                      (peek_message_key-Ends chain (pos previous)) (λ o _. Ends-ok ids))
              | inr g ↦ rw (e, retired_ids, f, g) (Ends-ok ids)
            ]
          ]
        ])

  plan_step-Ends :
      (entry : SessionEntry) (ids : List Str) (previous : ℕ) (seed : List ℕ)
      → Ends (plan_step c entry ids previous seed)
  unfolding plan_step
  plan_step-Ends entry ids previous seed =
      >>=-Ends (unb64 c (first_id ids)) _ (unb64-Ends (first_id ids)) (λ remote _.
        >>=-Ends (retired_ids c entry previous) _ (retired_ids-Ends entry previous) (λ retired _.
          >>=-Ends (unb64 c entry.current_ratchet.ephemeral_key_pair.priv_key) _
            (unb64-Ends entry.current_ratchet.ephemeral_key_pair.priv_key)
            (λ priv _.
              >>=-Ends (scalar_multiply c priv (as_x25519 remote)) _
                (scalar_multiply-Ends priv (as_x25519 remote))
                (λ shared _.
                  >>=-Ends (unb64 c entry.current_ratchet.root_key) _
                    (unb64-Ends entry.current_ratchet.root_key)
                    (λ root _.
                      >>=-Ends (generate_keypair c seed) _ (generate_keypair-Ends seed) (λ pair _.
                        >>=-Ends (scalar_multiply c pair.1 (as_x25519 remote)) _
                          (scalar_multiply-Ends pair.1 (as_x25519 remote))
                          (λ shared_send _. Ends-ok _)))))))

  pub plan_ratchet-Ends :
      (entry : SessionEntry) (ids : List Str) (previous : ℕ) (seed : List ℕ)
      → Ends (plan_ratchet c entry ids previous seed)
  unfolding plan_ratchet
  plan_ratchet-Ends entry ids previous seed = elim (Option-cases (find_chain entry.chains ids)) [
    | inl e ↦
        rw (e, plan_ratchet)
          (>>=-Ends (plan_step c entry ids previous seed) _ (plan_step-Ends entry ids previous seed)
            (λ plan _. Ends-ok _))
    | inr (chain, e) ↦ rw (e, plan_ratchet) (Ends-ok _)
  ]

  pub select_sending-Ends : (entry : SessionEntry) → Ends (select_sending c entry)
  unfolding select_sending
  select_sending-Ends entry =
      (let ids = chain_key_ids_b64 c entry.current_ratchet.ephemeral_key_pair.pub_key in
        elim (Option-cases (find_chain entry.chains ids)) [
          | inl e ↦ rw (e, select_sending) (alone (count_sending entry.chains))
          | inr (chain, e) ↦ elim (Bool-cases (is_sending chain)) [
            | inl f ↦
                rw (e, select_sending, f)
                  (Ends-ok_or no_sending_chain (find_chain_mut entry.chains ids) (λ h. cc))
            | inr f ↦ rw (e, select_sending, f) (alone (count_sending entry.chains))
          ]
        ])
    where
      alone :
          (n : ℕ)
          → Ends (elim n [
            | zero ↦ err no_sending_chain
            | suc n ↦ elim n [
              | zero ↦ ok_or no_sending_chain (find_sending entry.chains)
              | suc m ↦ err (ambiguous_sending_chain (suc (suc m)))
            ]
          ])
      alone zero = Ends-err no_sending_chain (λ h. cc)
      alone (suc zero) = Ends-ok_or no_sending_chain (find_sending entry.chains) (λ h. cc)
      alone (suc (suc m)) = Ends-err (ambiguous_sending_chain (suc (suc m))) (λ h. cc)

  pub next_message_key-Ends : (chain : Chain) → Ends (next_message_key c chain)
  unfolding next_message_key
  next_message_key-Ends chain =
      ok_or-Ends counter_overflow (checked_add_one chain.chain_key.counter) _ (λ h. cc)
        (λ target.
          >>-Ends (fill_message_keys c chain target).0 _
            (fill_message_keys-IsBounded c chain target).ends
            (ok_or-Ends message_key_not_found
              (get target (fill_message_keys c chain target).1.message_keys) _ (λ h. cc)
              (λ key. Ends-ok _)))
