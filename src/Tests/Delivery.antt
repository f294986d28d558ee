-- ===== src/Tests/Delivery.antt =====
-- Messages of a session that stands, at concrete inputs.
use oktz_signal.Base.{ℕ, ◌≡◌, refl, List, [], ◌∷◌, none, some, replicate, ok, arith}
use oktz_signal.Base.Int.{pos, negsuc, ◌+ℤ◌}
use oktz_signal.BTreeMap.{insert}
use oktz_signal.BTreeMap.Keys.{Str, compare_str, str_ord, int_ord}
use oktz_signal.Session.{Chain, SessionEntry, SessionRecord, sending, receiving}
use oktz_signal.Session.Text.{deserialize-printed}
use oktz_signal.Ratchet.Chains.{
  chain_key_ids, chain_key_ids_b64, find_chain, find_chain_mut, with_prefix,
}
use oktz_signal.Ratchet.Plan.{new_chain}
use oktz_signal.Ratchet.Encrypt.{EncryptResult, encrypt, select_sending}
use oktz_signal.Ratchet.Decrypt.{DecryptResult, decrypt_whisper}
use oktz_signal.Ratchet.MessageKeys.Schedule.{advance}
use oktz_signal.X3dh.{single_session}
use oktz_signal.Conversation.Handshake.{current-single}
use oktz_signal.Conversation.Sound.{new_chain-IsKept}
use oktz_signal.Conversation.Delivery.{IsSender, IsReceiver, decrypt_whisper-encrypt}
use oktz_signal.Tests.Toy.{toy-IsAes, toy, toy-IsEncoding, toy-IsVerifying}
use oktz_signal.Tests.Codec.{
  numbers_serde, print_record, numbers_serde-IsPrinting, print_record-IsReadable,
}

abbrev pub ratchet_key : List ℕ
ratchet_key = replicate 32 9

abbrev pub chain_key : List ℕ
chain_key = replicate 32 3

abbrev pub sender : List ℕ
sender = 5 ∷ replicate 32 1

abbrev pub receiver : List ℕ
receiver = 5 ∷ replicate 32 2

abbrev pub entry : List ℕ → Str → Chain → SessionEntry
entry remote id chain = record {
  registration_id = 7;
  current_ratchet = record {
    ephemeral_key_pair = record { pub_key = ratchet_key; priv_key = replicate 32 8 };
    last_remote_ephemeral_key = [];
    previous_counter = 0;
    root_key = replicate 32 4;
  };
  index_info = record {
    base_key = 1 ∷ [];
    base_key_type = 0;
    closed = negsuc 0;
    used = pos 1;
    created = pos 1;
    remote_identity_key = remote;
  };
  chains = (id, chain) ∷ [];
  pending_pre_key = none;
}

-- The sender has sent one message that has not arrived.
abbrev sending_chain : Chain
unfolding advance
sending_chain = record {
  chain_key = record { counter = pos 0; key = some (advance toy 1 chain_key) };
  chain_type = sending;
  message_keys = [];
}

abbrev pub receiving_chain : Chain
receiving_chain = new_chain chain_key receiving

abbrev record_a : SessionRecord
record_a = single_session (1 ∷ []) (entry receiver ratchet_key sending_chain)

abbrev record_b : SessionRecord
record_b = single_session (1 ∷ []) (entry sender (5 ∷ ratchet_key) receiving_chain)

abbrev text_a : Str
text_a = print_record record_a

abbrev text_b : Str
text_b = print_record record_b

abbrev sends : IsSender toy numbers_serde text_a (advance toy 1 chain_key) receiver
unfolding insert advance select_sending chain_key_ids_b64 chain_key_ids find_chain_mut compare_str
sends = record {
  r = record_a;
  id = 1 ∷ [];
  entry = entry receiver ratchet_key sending_chain;
  chain_id = ratchet_key;
  chain = sending_chain;
  ratchet_key = ratchet_key;
  read =
      deserialize-printed numbers_serde text_a record_a (print_record-IsReadable record_a) refl
        refl;
  current = current-single (1 ∷ []) (entry receiver ratchet_key sending_chain);
  sound = record {
    kept = (
      record {
        well = record { sorted = tt; behind = tt; started = omega arith };
        capped = omega arith;
      },
      tt,
    );
    previous_fits = omega arith;
  };
  identity = refl;
  key = refl;
  some_key = omega arith;
  short_key = omega arith;
  selected = refl;
  holds = record { text = advance toy 1 chain_key; stored = refl; full = refl; decodes = refl };
  room = omega arith;
}

abbrev receives : IsReceiver toy numbers_serde text_b ratchet_key chain_key sender
unfolding insert chain_key_ids find_chain compare_str with_prefix
receives = record {
  r = record_b;
  id = 1 ∷ [];
  entry = entry sender (5 ∷ ratchet_key) receiving_chain;
  chain = receiving_chain;
  read =
      deserialize-printed numbers_serde text_b record_b (print_record-IsReadable record_b) refl
        refl;
  current = current-single (1 ∷ []) (entry sender (5 ∷ ratchet_key) receiving_chain);
  sound = record { kept = (new_chain-IsKept chain_key receiving, tt); previous_fits = omega arith };
  identity = refl;
  found = refl;
  receives = refl;
  holds = record { text = chain_key; stored = refl; full = refl; decodes = refl };
}

decrypt_whisper-encrypt_example :
    (sent : EncryptResult) × (read : DecryptResult) × (encrypt toy numbers_serde text_a
        (1 ∷ 2 ∷ [])
        sender
        7
      ≡ ok sent)
    × (sent.message_type ≡ 1)
    × (decrypt_whisper toy numbers_serde text_b sent.ciphertext receiver [] ≡ ok read)
    × (read.plaintext ≡ 1 ∷ 2 ∷ [])
unfolding sends receives ◌+ℤ◌
decrypt_whisper-encrypt_example =
    decrypt_whisper-encrypt toy toy-IsEncoding toy-IsVerifying toy-IsAes numbers_serde
      numbers_serde-IsPrinting text_a text_b chain_key sender receiver (1 ∷ 2 ∷ []) [] 1 7 sends
      receives refl refl (omega arith) (omega arith, (omega arith, tt)) (omega arith)
