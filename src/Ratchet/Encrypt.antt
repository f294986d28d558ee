-- ===== src/Ratchet/Encrypt.antt =====
-- ratchet.rs, `encrypt`.
pub mod Advance
pub mod Select
use oktz_signal.Base.{
  ℕ, zero, suc, ◌+◌, List, [], ◌∷◌, ◌++◌, Bool, true, false, not, ◌&&◌, Option, none, some,
  if◌then◌else◌,
}
use oktz_signal.Base.{take, replicate, leb}
use oktz_signal.Base.{
  Result, ok, err, ◌>>=◌, ◌>>◌, bail_if, ok_or, no_session_entry, no_sending_chain,
  ambiguous_sending_chain,
}
use oktz_signal.Base.{counter_overflow, message_key_not_found, counter_beyond_u32}
use oktz_signal.Base.Int.{ℤ, pos, negsuc, ◌+ℤ◌, ltb_ℤ, leb_ℤ, i64_max}
use oktz_signal.BTreeMap.{BTreeMap, get, insert, remove}
use oktz_signal.BTreeMap.Keys.{Str, str_ord, int_ord}
use oktz_signal.Session.{
  Chain, SessionEntry, SessionRecord, PendingPreKey, is_sending, Serde, serialize, deserialize,
  current_session_mut,
}
use oktz_signal.Crates.{Crates}
use oktz_signal.Util.{unb64}
use oktz_signal.Proto.Whisper.{WhisperMessage, encode_whisper}
use oktz_signal.Proto.Pkmsg.{PreKeyWhisperMessage, encode_pkmsg}
use oktz_signal.Ratchet.Kdf.{derive_secrets_n, chunk, whisper_message_keys}
use oktz_signal.Ratchet.Cbc.{aes_cbc_encrypt}
use oktz_signal.Ratchet.Chains.{with_prefix, chain_key_ids_b64, find_chain, find_chain_mut}
use oktz_signal.Ratchet.MessageKeys.{fill_message_keys}

pub record EncryptResult : Type 0 where
  pub session_json : Str
  pub message_type : ℕ
  pub ciphertext : List ℕ

-- The version byte, 3 for the version and 3 for the lowest understood.
abbrev pub version_byte : ℕ
version_byte = 51

-- `filter(is_sending).count()`
abbrev pub count_sending : BTreeMap Str Chain → ℕ
count_sending [] = 0
count_sending ((id, chain) ∷ m) =
    (let rest = count_sending m in if is_sending chain then suc rest else rest)

-- `values_mut().find(is_sending)`
abbrev pub find_sending : BTreeMap Str Chain → Option (Str × Chain)
find_sending [] = none
find_sending ((id, chain) ∷ m) =
    (let rest = find_sending m in if is_sending chain then some (id, chain) else rest)

-- `checked_add(1)`
abbrev pub checked_add_one : ℤ → Option ℤ
checked_add_one k = if leb_ℤ i64_max k then none else some (k +ℤ pos 1)

-- `u32::try_from`
abbrev pub try_u32 : ℤ → Option ℕ
try_u32 (pos n) = if leb n 4294967295 then some n else none
try_u32 (negsuc n) = none

-- The keys of one message: AES, MAC and, in the third, the IV.
abbrev pub message_keys_of : Crates → List ℕ → List (List ℕ)
message_keys_of c message_key =
    derive_secrets_n c message_key (replicate 32 0) whisper_message_keys 3

-- The entry with one chain replaced, and the record with one entry replaced.
abbrev pub put_chain : Str → Chain → SessionEntry → SessionEntry
unfolding insert
put_chain id chain entry = record entry { chains = insert id chain entry.chains }

abbrev pub put_entry : Str → SessionEntry → SessionRecord → SessionRecord
unfolding insert
put_entry id entry r = record r { sessions = insert id entry r.sessions }

module _ (c : Crates) where
  -- The chain under the current key if it is sending, else the only one that is.
  unfoldable pub select_sending : SessionEntry → Result (Str × Chain)
  unfolding chain_key_ids_b64 find_chain find_chain_mut
  select_sending entry = do
    let sending_ids = chain_key_ids_b64 c entry.current_ratchet.ephemeral_key_pair.pub_key
    let named_sending : Bool = elim (find_chain entry.chains sending_ids) [
      | none ↦ false
      | some chain ↦ is_sending chain
    ]
    (if named_sending
        then ok_or no_sending_chain (find_chain_mut entry.chains sending_ids)
        else elim (count_sending entry.chains) [
          | zero ↦ err no_sending_chain
          | suc n ↦ elim n [
            | zero ↦ ok_or no_sending_chain (find_sending entry.chains)
            | suc m ↦ err (ambiguous_sending_chain (suc (suc m)))
          ]
        ])

  -- The counter of the message, its key as stored, and the chain it leaves.
  unfoldable pub next_message_key : Chain → Result (ℤ × (Str × Chain))
  unfolding ◌+ℤ◌ fill_message_keys get remove
  next_message_key chain = do
    target_counter ← ok_or counter_overflow (checked_add_one chain.chain_key.counter)
    let (filled, next) = fill_message_keys c chain target_counter
    filled
    key ← ok_or message_key_not_found (get target_counter next.message_keys)
    ok (
      target_counter,
      (key, record next { message_keys = remove target_counter next.message_keys }),
    )

  -- What a pending pre-key message wraps.
  unfoldable pub wrap_pkmsg : PendingPreKey → List ℕ → List ℕ → ℕ → Result (List ℕ)
  unfolding with_prefix encode_pkmsg
  wrap_pkmsg pk message our_identity_pub our_registration_id = do
    pk_bk ← unb64 c pk.base_key
    pk_bytes ← encode_pkmsg (record {
      pre_key_id = pk.pre_key_id;
      base_key = with_prefix pk_bk;
      identity_key = our_identity_pub;
      message = message;
      registration_id = our_registration_id;
      signed_pre_key_id = pk.signed_key_id;
    })
    ok (version_byte ∷ pk_bytes)

  -- The message with its tag, under the keys of one message.
  unfoldable pub seal : List (List ℕ) → List ℕ → List ℕ → List ℕ → List ℕ
  seal keys sender_identity receiver_identity msg_buf =
      (let mac =
          c.hmac (chunk keys 1) (sender_identity ++ receiver_identity ++ version_byte ∷ msg_buf) in
        version_byte ∷ (msg_buf ++ take 8 mac))

  module _ (serde : Serde) where
    unfoldable pub encrypt : Str → List ℕ → List ℕ → ℕ → Result EncryptResult
    unfolding deserialize current_session_mut with_prefix select_sending next_message_key
        derive_secrets_n aes_cbc_encrypt encode_whisper seal insert serialize wrap_pkmsg
    encrypt session_json plaintext our_identity_pub our_registration_id = do
      r ← deserialize serde session_json
      (id, entry) ← ok_or no_session_entry (current_session_mut r)
      remote_identity_pub ← unb64 c entry.index_info.remote_identity_key
      eph_pub ← unb64 c entry.current_ratchet.ephemeral_key_pair.pub_key
      (chain_id, chain) ← select_sending entry
      (target_counter, (message_key_b64, next)) ← next_message_key chain
      message_key ← unb64 c message_key_b64
      let keys = message_keys_of c message_key
      ciphertext ← aes_cbc_encrypt c (chunk keys 0) (take 16 (chunk keys 2)) plaintext
      counter ← ok_or counter_beyond_u32 (try_u32 target_counter)
      msg_buf ← encode_whisper (record {
        ephemeral_key = with_prefix eph_pub;
        counter = counter;
        previous_counter = entry.current_ratchet.previous_counter;
        ciphertext = ciphertext;
      })
      let result = seal keys our_identity_pub remote_identity_pub msg_buf
      json ← serialize serde (put_entry id (put_chain chain_id next entry) r)
      elim entry.pending_pre_key [
        | some pk ↦ (do
          wrapped ← wrap_pkmsg pk result our_identity_pub our_registration_id
          ok (record { session_json = json; message_type = 3; ciphertext = wrapped }))
        | none ↦ ok (record { session_json = json; message_type = 1; ciphertext = result })
      ]
