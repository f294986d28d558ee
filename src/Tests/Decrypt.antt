-- ===== src/Tests/Decrypt.antt =====
-- ratchet.rs, sending and receiving entries, at concrete inputs.
use oktz_signal.Base.{ℕ, ◌%◌, ◌≤◌, ◌≡◌, ◌≢◌, refl, List, [], ◌∷◌, ◌++◌, none, some, arith, ◌⊎◌}
use oktz_signal.Base.{
  ok, err, Error, length, replicate, wrong_length, non_contributory, message_key_not_found,
}
use oktz_signal.Base.Int.{pos, negsuc, ◌+ℤ◌}
use oktz_signal.BTreeMap.{get}
use oktz_signal.BTreeMap.Keys.{Str, str_ord, int_ord, compare_str}
use oktz_signal.Session.{Chain, SessionEntry}
use oktz_signal.Crates.{BlockCipher}
use oktz_signal.Proto.Whisper.{WhisperMessage}
use oktz_signal.Curve.{scalar_multiply}
use oktz_signal.Curve.Keys.{scalar_multiply_cases}
use oktz_signal.Ratchet.Cbc.{aes_cbc_encrypt, aes_cbc_decrypt, decrypt_blocks, chunks}
use oktz_signal.Ratchet.Cbc.RoundTrip.{aes_cbc_decrypt-aes_cbc_encrypt, aes_cbc_decrypt_strict}
use oktz_signal.Ratchet.MessageKeys.Schedule.{IsWellFormed, HasKey}
use oktz_signal.Ratchet.Encrypt.Select.{IsChosen, select_sending-IsChosen}
use oktz_signal.Ratchet.Decrypt.{decrypt_entry}
use oktz_signal.Ratchet.Decrypt.Authentic.{IsAuthentic, decrypt_entry-IsAuthentic}
use oktz_signal.Ratchet.Decrypt.Replay.{decrypt_entry_again}
use oktz_signal.Base.{take}
use oktz_signal.Ratchet.Kdf.{chunk, derive_secrets_n}
use oktz_signal.Ratchet.Chains.{find_chain, chain_key_ids}
use oktz_signal.Ratchet.MessageKeys.Schedule.{message_key}
use oktz_signal.Ratchet.Encrypt.{message_keys_of}
use oktz_signal.Ratchet.Decrypt.Sealed.{tag_of, decrypt_entry-seal}
use oktz_signal.Ratchet.Plan.{RatchetPlan, new_chain, apply_ratchet}
use oktz_signal.Ratchet.Plan.Apply.{IsAmong, apply_ratchet-retires}
use oktz_signal.Tests.Toy.{toy, toy_cipher, toy-IsEncoding, toy-IsCipher, toy-IsVerifying}

-- The receiver's entry, with a receiving chain at its start.
abbrev entry : SessionEntry
entry = record {
  registration_id = 7;
  current_ratchet = record {
    ephemeral_key_pair = record { pub_key = 1 ∷ []; priv_key = 2 ∷ [] };
    last_remote_ephemeral_key = 8 ∷ [];
    previous_counter = 0;
    root_key = 3 ∷ [];
  };
  index_info = record {
    base_key = 1 ∷ [];
    base_key_type = 1;
    closed = negsuc 0;
    used = pos 1;
    created = pos 1;
    remote_identity_key = 4 ∷ [];
  };
  chains =
      (
        8 ∷ [],
        record {
          chain_key = record { counter = negsuc 0; key = some (7 ∷ []) };
          chain_type = 2;
          message_keys = [];
        },
      )
      ∷ [];
  pending_pre_key = none;
}

select_sending-IsChosen_example : IsChosen toy entry
select_sending-IsChosen_example = select_sending-IsChosen toy entry

abbrev message : WhisperMessage
message = record {
  ephemeral_key = 8 ∷ [];
  counter = 0;
  previous_counter = 0;
  ciphertext = 16 ∷ 19 ∷ 18 ∷ replicate 13 28;
}

-- What the first message leaves: the chain has moved on and retains nothing.
abbrev left : SessionEntry
left = record entry {
  chains =
      (
        8 ∷ [],
        record {
          chain_key = record { counter = pos 0; key = some (replicate 32 32) };
          chain_type = 2;
          message_keys = [];
        },
      )
      ∷ [];
}

decrypt_first :
    decrypt_entry toy entry message (1 ∷ []) (replicate 8 186) (6 ∷ []) []
    ≡ (ok (1 ∷ 2 ∷ 3 ∷ []), left)
unfolding decrypt_entry compare_str
decrypt_first = refl

decrypt_entry_again_example :
    decrypt_entry toy left message (1 ∷ []) (replicate 8 186) (6 ∷ []) (5 ∷ [])
    ≡ (err message_key_not_found, left)
decrypt_entry_again_example =
    decrypt_entry_again toy entry left message (1 ∷ []) (replicate 8 186) (6 ∷ []) []
      (1 ∷ 2 ∷ 3 ∷ []) decrypt_first (1 ∷ []) (replicate 8 186) (6 ∷ []) (5 ∷ [])

decrypt_entry-IsAuthentic_example :
    ((e : Error) × (decrypt_entry toy entry message (1 ∷ []) (replicate 8 186) (6 ∷ []) []
        ≡ (err e, entry)))
    ⊎ IsAuthentic toy entry message (1 ∷ []) (replicate 8 186) (6 ∷ []) []
decrypt_entry-IsAuthentic_example =
    decrypt_entry-IsAuthentic toy entry message (1 ∷ []) (replicate 8 186) (6 ∷ []) []

abbrev key : List ℕ
key = replicate 32 103

abbrev iv : List ℕ
iv = replicate 16 17

key_accepted : toy.aes256 key ≡ some toy_cipher
key_accepted = refl

aes_cbc_decrypt-aes_cbc_encrypt_example :
    (ciphertext : List ℕ) × (aes_cbc_encrypt toy key iv (1 ∷ 2 ∷ 3 ∷ []) ≡ ok ciphertext)
    × (aes_cbc_decrypt toy key iv ciphertext ≡ ok (1 ∷ 2 ∷ 3 ∷ []))
aes_cbc_decrypt-aes_cbc_encrypt_example =
    aes_cbc_decrypt-aes_cbc_encrypt toy key iv (1 ∷ 2 ∷ 3 ∷ []) toy_cipher key_accepted toy-IsCipher
      (refl, ground arith) (ground arith)

decrypt_message : aes_cbc_decrypt toy key iv message.ciphertext ≡ ok (1 ∷ 2 ∷ 3 ∷ [])
unfolding aes_cbc_decrypt
decrypt_message = refl

aes_cbc_decrypt_strict_example :
    (cipher : BlockCipher) × (n : ℕ) × (toy.aes256 key ≡ some cipher)
    × (length message.ciphertext % 16 ≡ 0)
    × (message.ciphertext ≢ [])
    × (1 ≤ n)
    × (n ≤ 16)
    × (decrypt_blocks cipher iv (chunks message.ciphertext) ≡ (1 ∷ 2 ∷ 3 ∷ []) ++ replicate n n)
aes_cbc_decrypt_strict_example =
    aes_cbc_decrypt_strict toy key iv message.ciphertext (1 ∷ 2 ∷ 3 ∷ []) decrypt_message

abbrev zeros : List ℕ
zeros = replicate 32 0

scalar_multiply_cases_example :
    (length key ≢ 32
      → scalar_multiply toy key zeros ≡ err (wrong_length "secret key" (length key) 32))
    × (length key ≡ 32
        → length zeros ≢ 32
        → scalar_multiply toy key zeros ≡ err (wrong_length "public key" (length zeros) 32))
    × (length key ≡ 32
        → length zeros ≡ 32
        → ((n : ℕ) × (toy.mul_clamped zeros key ≡ replicate n 0)
            × (scalar_multiply toy key zeros ≡ err non_contributory))
          ⊎ (((n : ℕ) → toy.mul_clamped zeros key ≢ replicate n 0)
              × (scalar_multiply toy key zeros ≡ ok (toy.mul_clamped zeros key))))
scalar_multiply_cases_example = scalar_multiply_cases toy key zeros

abbrev first_chain : Chain
first_chain = record {
  chain_key = record { counter = negsuc 0; key = some (7 ∷ []) };
  chain_type = 2;
  message_keys = [];
}

first_chain-IsWellFormed : IsWellFormed first_chain
first_chain-IsWellFormed = record { sorted = tt; behind = tt; started = omega arith }

first_chain-HasKey : HasKey toy first_chain (7 ∷ [])
first_chain-HasKey = record { text = 7 ∷ []; stored = refl; full = refl; decodes = refl }

-- The keys of its first message.
abbrev first_keys : List (List ℕ)
first_keys = message_keys_of toy (message_key toy 0 (7 ∷ []))

find_first : find_chain entry.chains (chain_key_ids toy (8 ∷ [])) ≡ some first_chain
unfolding find_chain chain_key_ids compare_str
find_first = refl

place_first : pos 0 ≡ negsuc 0 +ℤ pos 1
unfolding ◌+ℤ◌
place_first = refl

first_key_accepted : toy.aes256 (chunk first_keys 0) ≡ some toy_cipher
unfolding message_key derive_secrets_n
first_key_accepted = refl

enciphered_first :
    aes_cbc_encrypt toy (chunk first_keys 0) (take 16 (chunk first_keys 2)) (1 ∷ 2 ∷ 3 ∷ [])
    ≡ ok message.ciphertext
unfolding aes_cbc_encrypt message_key derive_secrets_n
enciphered_first = refl

decrypt_entry-seal_example :
    (left : SessionEntry) × (decrypt_entry toy entry message
        (1 ∷ [])
        (tag_of toy toy-IsEncoding first_keys (4 ∷ []) (6 ∷ []) (1 ∷ []))
        (6 ∷ [])
        []
      ≡ (ok (1 ∷ 2 ∷ 3 ∷ []), left))
decrypt_entry-seal_example =
    decrypt_entry-seal toy toy-IsEncoding toy-IsVerifying entry message (1 ∷ []) (6 ∷ []) []
      first_chain (7 ∷ []) (4 ∷ []) (1 ∷ 2 ∷ 3 ∷ []) 0 toy_cipher find_first refl
      first_chain-IsWellFormed first_chain-HasKey place_first (omega arith) (omega arith) refl
      first_key_accepted toy-IsCipher (omega arith, (omega arith, (omega arith, tt)))
      enciphered_first

-- A step that retires the chain under `8`.
abbrev step : RatchetPlan
step = record {
  retired_recv_ids = (8 ∷ []) ∷ [];
  receiving_chain_id = 10 ∷ [];
  last_remote_ephemeral_key = 10 ∷ [];
  previous_counter = 0;
  root_key = 11 ∷ [];
  ephemeral_key_pair = record { pub_key = 12 ∷ []; priv_key = 13 ∷ [] };
  receiving_chain = new_chain (14 ∷ []) 2;
  sending_chain = new_chain (15 ∷ []) 1;
}

apply_ratchet-retires_example :
    (get (12 ∷ []) (apply_ratchet toy entry step).chains ≡ some step.sending_chain)
    × ((apply_ratchet toy entry step).current_ratchet.root_key ≡ 11 ∷ [])
    × ((apply_ratchet toy entry step).current_ratchet.ephemeral_key_pair ≡ step.ephemeral_key_pair)
    × ((apply_ratchet toy entry step).current_ratchet.last_remote_ephemeral_key ≡ 10 ∷ [])
    × ((id : Str)
        → IsAmong id step.retired_recv_ids
        → id ≢ 10 ∷ []
        → id ≢ 12 ∷ []
        → get id (apply_ratchet toy entry step).chains ≡ none)
apply_ratchet-retires_example = apply_ratchet-retires toy entry step
