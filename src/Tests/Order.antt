-- ===== src/Tests/Order.antt =====
-- Two messages that overtake each other, and the steps of an entry, at concrete inputs.
use oktz_signal.Base.{ℕ, ◌≡◌, refl, List, [], ◌∷◌, ◌++◌, some, ok, err, arith, take}
use oktz_signal.Base.Int.{pos, negsuc, ◌+ℤ◌}
use oktz_signal.BTreeMap.{get, insert, remove}
use oktz_signal.BTreeMap.Keys.{compare_str, str_ord, int_ord}
use oktz_signal.Session.{Chain, SessionEntry, sending, receiving}
use oktz_signal.Proto.Whisper.{WhisperMessage}
use oktz_signal.Ratchet.Chains.{chain_key_ids, chain_key_ids_b64, find_chain, find_chain_mut}
use oktz_signal.Ratchet.Kdf.{chunk}
use oktz_signal.Ratchet.Plan.{new_chain}
use oktz_signal.Ratchet.Encrypt.{
  put_chain, next_message_key, select_sending, message_keys_of, version_byte,
}
use oktz_signal.Ratchet.Decrypt.{decrypt_entry}
use oktz_signal.Ratchet.Decrypt.Opened.{IsSealed}
use oktz_signal.Ratchet.Decrypt.Order.{decrypt_entry_swapped}
use oktz_signal.Ratchet.MessageKeys.Schedule.{message_key}
use oktz_signal.X3dh.{initiator_entry}
use oktz_signal.Ratchet.MessageKeys.{fill_message_keys}
use oktz_signal.Conversation.{Step, Reach, IsStart}
use oktz_signal.Conversation.Sound.{IsSound, new_chain-IsKept}
use oktz_signal.Conversation.Invariant.{Reach-IsSound}
use oktz_signal.Ratchet.Cbc.{aes_cbc_encrypt}
use oktz_signal.Ratchet.Kdf.{derive_secrets_n}
use oktz_signal.Tests.Delivery.{ratchet_key, chain_key, sender, receiver, entry, receiving_chain}
use oktz_signal.Tests.Conversation.{params, ephemeral_a}
use oktz_signal.Tests.Toy.{toy, toy_cipher, toy-IsEncoding, toy-IsCipher, toy-IsVerifying}

abbrev ciphertext : ℕ → List ℕ → List ℕ
unfolding aes_cbc_encrypt message_key derive_secrets_n
ciphertext n plaintext =
    (let keys = message_keys_of toy (message_key toy n chain_key) in
      elim (aes_cbc_encrypt toy (chunk keys 0) (take 16 (chunk keys 2)) plaintext) [
        | ok c ↦ c
        | err e ↦ []
      ])

abbrev sent : ℕ → List ℕ → WhisperMessage
sent n plaintext = record {
  ephemeral_key = 5 ∷ ratchet_key;
  counter = n;
  previous_counter = 0;
  ciphertext = ciphertext n plaintext;
}

-- The tag over a buffer of one byte.
abbrev mac : ℕ → List ℕ
mac n = take 8 (
    toy.hmac (chunk (message_keys_of toy (message_key toy n chain_key)) 1)
      (sender ++ receiver ++ version_byte ∷ n ∷ []))

early-IsSealed :
    IsSealed toy
      (message_key toy 0 chain_key)
      sender
      receiver
      (sent 0 (1 ∷ 2 ∷ []))
      (0 ∷ [])
      (mac 0)
      (1 ∷ 2 ∷ [])
unfolding aes_cbc_encrypt message_key derive_secrets_n ciphertext
early-IsSealed = record {
  cipher = toy_cipher;
  accepted = refl;
  laws = toy-IsCipher;
  bytes = (omega arith, (omega arith, tt));
  enciphered = refl;
  tagged = refl;
}

late-IsSealed :
    IsSealed toy
      (message_key toy 1 chain_key)
      sender
      receiver
      (sent 1 (3 ∷ []))
      (1 ∷ [])
      (mac 1)
      (3 ∷ [])
unfolding aes_cbc_encrypt message_key derive_secrets_n ciphertext
late-IsSealed = record {
  cipher = toy_cipher;
  accepted = refl;
  laws = toy-IsCipher;
  bytes = (omega arith, tt);
  enciphered = refl;
  tagged = refl;
}

abbrev receiving_entry : SessionEntry
receiving_entry = entry sender (5 ∷ ratchet_key) receiving_chain

found :
    find_chain receiving_entry.chains (chain_key_ids toy (5 ∷ ratchet_key)) ≡ some receiving_chain
unfolding find_chain chain_key_ids compare_str
found = refl

early_place : pos 0 ≡ negsuc 0 +ℤ pos 1
unfolding ◌+ℤ◌
early_place = refl

late_place : pos 1 ≡ negsuc 0 +ℤ pos 2
unfolding ◌+ℤ◌
late_place = refl

decrypt_entry_swapped_example :
    (left : SessionEntry) × (last : SessionEntry) × (decrypt_entry toy receiving_entry
        (sent 1 (3 ∷ []))
        (1 ∷ [])
        (mac 1)
        receiver
        []
      ≡ (ok (3 ∷ []), left))
    × (decrypt_entry toy left (sent 0 (1 ∷ 2 ∷ [])) (0 ∷ []) (mac 0) receiver []
        ≡ (ok (1 ∷ 2 ∷ []), last))
decrypt_entry_swapped_example =
    decrypt_entry_swapped toy toy-IsEncoding toy-IsVerifying receiving_entry (sent 0 (1 ∷ 2 ∷ []))
      (sent 1 (3 ∷ [])) (0 ∷ []) (mac 0) (1 ∷ []) (mac 1) receiver [] [] receiving_chain chain_key
      sender (1 ∷ 2 ∷ []) (3 ∷ []) 0 1 refl found refl (new_chain-IsKept chain_key receiving).well
      (record { text = chain_key; stored = refl; full = refl; decodes = refl }) early_place
      late_place (omega arith) (omega arith) (omega arith) refl early-IsSealed late-IsSealed

-- The initiator's entry, which sends a message and then receives one that is forged.
abbrev start : SessionEntry
start =
    initiator_entry toy params ephemeral_a (toy.mul_base_clamped ephemeral_a)
      params.signed_prekey_pub (chain_key ∷ chain_key ∷ []) (pos 3)

abbrev start_chain : Chain
start_chain = new_chain chain_key sending

abbrev second_chain : Chain
second_chain = record start_chain {
  chain_key = record { counter = pos 0; key = some (toy.hmac chain_key (2 ∷ [])) };
}

selected : select_sending toy start ≡ ok (toy.mul_base_clamped ephemeral_a, start_chain)
unfolding select_sending initiator_entry insert chain_key_ids_b64 chain_key_ids find_chain_mut
    compare_str
selected = refl

stepped : next_message_key toy start_chain ≡ ok (pos 0, (toy.hmac chain_key (1 ∷ []), second_chain))
unfolding next_message_key fill_message_keys insert remove get ◌+ℤ◌
stepped = refl

abbrev forged : SessionEntry
forged =
    (decrypt_entry toy (put_chain (toy.mul_base_clamped ephemeral_a) second_chain start)
      (sent 0 (1 ∷ [])) (1 ∷ []) (mac 1) receiver []).1

Reach-IsSound_example : IsSound forged
Reach-IsSound_example =
    Reach-IsSound toy
      (IsStart.initiator params ephemeral_a (toy.mul_base_clamped ephemeral_a)
        params.signed_prekey_pub (chain_key ∷ chain_key ∷ []) (pos 3))
      (Reach.next
        (Reach.next Reach.here (
          Step.send start (toy.mul_base_clamped ephemeral_a) start_chain second_chain (pos 0)
            (toy.hmac chain_key (1 ∷ [])) selected stepped))
        (Step.receive (put_chain (toy.mul_base_clamped ephemeral_a) second_chain start)
          (sent 0 (1 ∷ [])) (1 ∷ []) (mac 1) receiver []))
