-- ===== src/Ratchet/Decrypt.antt =====
-- ratchet.rs, `decrypt_whisper`, `decrypt_entry` and `decrypt_pkmsg`. What the random number
-- generator fills in for a ratchet step is an argument.
pub mod Replay
pub mod Authentic
pub mod Opened
pub mod Order
pub mod Sealed
use oktz_signal.Base.{
  ℕ, ◌-◌, List, [], ◌∷◌, ◌++◌, Bool, true, false, not, ◌||◌, Option, none, some, if◌then◌else◌,
}
use oktz_signal.Base.{length, take, drop, ltb, ◌==◌}
use oktz_signal.Base.{
  Result, ok, err, ◌>>=◌, ◌>>◌, bail_if, ok_or, bad_version_byte, no_session_entry,
  no_receiving_chain,
}
use oktz_signal.Base.{message_key_not_found, mac_failed, no_open_session_for_pkmsg}
use oktz_signal.Base.Int.{pos}
use oktz_signal.BTreeMap.{get, insert, remove}
use oktz_signal.BTreeMap.Keys.{Str, str_ord, int_ord}
use oktz_signal.Session.{
  Chain, SessionEntry, is_receiving, Serde, serialize, deserialize, current_session_mut,
  have_open_session,
}
use oktz_signal.Crates.{Crates}
use oktz_signal.Util.{unb64}
use oktz_signal.Proto.Whisper.{WhisperMessage, decode_whisper}
use oktz_signal.Proto.Pkmsg.{decode_pkmsg}
use oktz_signal.Ratchet.Kdf.{derive_secrets_n, chunk}
use oktz_signal.Ratchet.Cbc.{aes_cbc_decrypt}
use oktz_signal.Ratchet.Chains.{chain_key_ids, find_chain, find_chain_mut}
use oktz_signal.Ratchet.MessageKeys.{peek_message_key, fill_message_keys}
use oktz_signal.Ratchet.Plan.{RatchetPlan, plan_ratchet, apply_ratchet}
use oktz_signal.Ratchet.Encrypt.{message_keys_of, put_chain, put_entry, version_byte}

pub record DecryptResult : Type 0 where
  pub session_json : Str
  pub plaintext : List ℕ

-- The version byte in front; false on the empty byte string.
abbrev pub starts_with_version : List ℕ → Bool
starts_with_version [] = false
starts_with_version (x ∷ xs) = x == version_byte

-- `.filter(|c| c.is_receiving())`
abbrev pub receiving_only : Option Chain → Option Chain
receiving_only none = none
receiving_only (some chain) = if is_receiving chain then some chain else none

module _ (c : Crates) where
  -- The chain that peeks the key: the plan's, or the one stored.
  unfoldable pub chain_to_peek : SessionEntry → List Str → Option RatchetPlan → Result Chain
  unfolding find_chain
  chain_to_peek entry ids (some plan) = ok plan.receiving_chain
  chain_to_peek entry ids none =
      ok_or no_receiving_chain (receiving_only (find_chain entry.chains ids))

  -- The part before `verify_truncated_left` and with it, which only reads the entry: the plan and the keys.
  unfoldable pub authenticate :
      SessionEntry
      → WhisperMessage
      → List ℕ
      → List ℕ
      → List ℕ
      → List ℕ
      → Result (Option RatchetPlan × List (List ℕ))
  unfolding chain_key_ids plan_ratchet chain_to_peek peek_message_key derive_secrets_n
  authenticate entry msg msg_buf mac_bytes our_identity_pub seed = do
    let remote_key_ids = chain_key_ids c msg.ephemeral_key
    plan ← plan_ratchet c entry remote_key_ids msg.previous_counter seed
    receiving_chain ← chain_to_peek entry remote_key_ids plan
    peeked ← peek_message_key c receiving_chain (pos msg.counter)
    message_key_b64 ← ok_or message_key_not_found peeked
    message_key ← unb64 c message_key_b64
    let keys = message_keys_of c message_key
    remote_identity ← unb64 c entry.index_info.remote_identity_key
    let mac_input = remote_identity ++ our_identity_pub ++ version_byte ∷ msg_buf
    bail_if (not (c.verify_truncated_left (chunk keys 1) mac_input mac_bytes)) mac_failed
    ok (plan, keys)

  -- `if let Some(plan) = plan`
  unfoldable pub apply_plan : SessionEntry → Option RatchetPlan → SessionEntry
  unfolding apply_ratchet
  apply_plan entry none = entry
  apply_plan entry (some plan) = apply_ratchet c entry plan

  -- Behind the second search for the chain: the key is spent, and the text deciphered.
  unfoldable pub spend :
      SessionEntry → Str → Chain → WhisperMessage → List (List ℕ) → Result (List ℕ) × SessionEntry
  unfolding fill_message_keys get remove insert aes_cbc_decrypt
  spend entry id chain msg keys = do
    let counter = pos msg.counter
    let (filled, next) = fill_message_keys c chain counter
    elim filled [
      | err e ↦ (err e, put_chain id next entry)
      | ok u ↦ elim (get counter next.message_keys) [
        | none ↦ (err message_key_not_found, put_chain id next entry)
        | some key ↦ (do
          let spent =
              put_chain id (record next { message_keys = remove counter next.message_keys }) entry
          elim (aes_cbc_decrypt c (chunk keys 0) (take 16 (chunk keys 2)) msg.ciphertext) [
            | err e ↦ (err e, spent)
            | ok plaintext ↦ (ok plaintext, record spent { pending_pre_key = none })
          ])
      ]
    ]

  -- The part behind the check, with the entry it leaves on success and on failure.
  unfoldable pub commit :
      SessionEntry
      → WhisperMessage
      → Option RatchetPlan
      → List (List ℕ)
      → Result (List ℕ) × SessionEntry
  unfolding chain_key_ids apply_plan find_chain_mut spend
  commit entry msg plan keys = do
    let stepped = apply_plan entry plan
    elim (find_chain_mut stepped.chains (chain_key_ids c msg.ephemeral_key)) [
      | none ↦ (err no_receiving_chain, stepped)
      | some (id, chain) ↦
          (if is_receiving chain
            then spend stepped id chain msg keys
            else (err no_receiving_chain, stepped))
    ]

  unfoldable pub decrypt_entry :
      SessionEntry
      → WhisperMessage
      → List ℕ
      → List ℕ
      → List ℕ
      → List ℕ
      → Result (List ℕ) × SessionEntry
  unfolding authenticate commit
  decrypt_entry entry msg msg_buf mac_bytes our_identity_pub seed =
      elim (authenticate entry msg msg_buf mac_bytes our_identity_pub seed) [
        | err e ↦ (err e, entry)
        | ok (plan, keys) ↦ commit entry msg plan keys
      ]

  module _ (serde : Serde) where
    unfoldable pub decrypt_whisper : Str → List ℕ → List ℕ → List ℕ → Result DecryptResult
    unfolding decode_whisper deserialize current_session_mut decrypt_entry insert serialize
    decrypt_whisper session_json ciphertext our_identity_pub seed = do
      bail_if (ltb (length ciphertext) 9 || not (starts_with_version ciphertext)) bad_version_byte
      let msg_buf = take (length ciphertext - 9) (drop 1 ciphertext)
      let mac_bytes = drop (length ciphertext - 8) ciphertext
      msg ← decode_whisper msg_buf
      r ← deserialize serde session_json
      (id, entry) ← ok_or no_session_entry (current_session_mut r)
      let (outcome, left) = decrypt_entry entry msg msg_buf mac_bytes our_identity_pub seed
      plaintext ← outcome
      json ← serialize serde (put_entry id left r)
      ok (record { session_json = json; plaintext = plaintext })

    unfoldable pub decrypt_pkmsg : Str → List ℕ → List ℕ → List ℕ → Result DecryptResult
    unfolding decode_pkmsg deserialize have_open_session decrypt_whisper
    decrypt_pkmsg session_json ciphertext our_identity_pub seed = do
      bail_if (not (starts_with_version ciphertext)) bad_version_byte
      pkmsg ← decode_pkmsg (drop 1 ciphertext)
      r ← deserialize serde session_json
      bail_if (not (have_open_session r)) no_open_session_for_pkmsg
      decrypt_whisper session_json pkmsg.message our_identity_pub seed
