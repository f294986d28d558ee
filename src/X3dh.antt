-- ===== src/X3dh.antt =====
-- x3dh.rs: the sessions that a key agreement starts. The time and what the random number
-- generator fills in are arguments. The chunks of `derive_secrets` are those of
-- `derive_secrets_n` for 3.
pub mod Agreement
pub mod FirstStep
pub mod Built
use oktz_signal.Base.{ℕ, List, [], ◌++◌, not, Option, none, some, if◌then◌else◌}
use oktz_signal.Base.{length, take, drop, replicate, bytes_eq, leb}
use oktz_signal.Base.{
  Result, ok, ◌>>=◌, ◌>>◌, bail_if, ok_or, recipient_pub_length, sender_identity_length,
}
use oktz_signal.Base.{
  signature_rejected, identity_mismatch, prekey_mismatch, signed_prekey_mismatch,
}
use oktz_signal.Base.Int.{ℤ, negsuc}
use oktz_signal.BTreeMap.{insert}
use oktz_signal.BTreeMap.Keys.{Str, str_ord}
use oktz_signal.Session.{SessionEntry, SessionRecord}
use oktz_signal.Session.{sending, default_version, Serde, serialize}
use oktz_signal.Crates.{Crates}
use oktz_signal.Util.{b64}
use oktz_signal.Curve.{Dalek, verify, generate_keypair, scalar_multiply}
use oktz_signal.Ratchet.Kdf.{derive_secrets_n, chunk, whisper_text, whisper_ratchet}
use oktz_signal.Ratchet.Chains.{is_wire_key}

pub record X3dhParams : Type 0 where
  pub identity_priv : List ℕ
  pub identity_pub : List ℕ
  pub signed_prekey_pub : List ℕ
  pub signed_prekey_sig : List ℕ
  pub prekey_pub : Option (List ℕ)
  pub prekey_id : Option ℕ
  pub recipient_pub : List ℕ
  pub recipient_prekey : List ℕ
  pub registration_id : ℕ
  pub signed_key_id : ℕ

abbrev pub strip_prefix : List ℕ → List ℕ
strip_prefix key = if is_wire_key key then drop 1 key else key

-- `get(1..33)`
abbrev pub get_1_33 : List ℕ → Option (List ℕ)
get_1_33 key = if leb 33 (length key) then some (take 32 (drop 1 key)) else none

-- 32 bytes of 0xff, the agreements in the order given, and that of the one-time prekey.
abbrev pub shared_secret : List ℕ → List ℕ → List ℕ → Option (List ℕ) → List ℕ
shared_secret a1 a2 a3 a4 = replicate 32 255 ++ a1 ++ a2 ++ a3 ++ elim a4 [ none ↦ [] | some a ↦ a ]

-- The record of one session.
abbrev pub single_session : Str → SessionEntry → SessionRecord
unfolding insert
single_session id entry = record { sessions = insert id entry []; version = default_version }

module _ (c : Crates) where
  abbrev pub derive_secrets : List ℕ → List ℕ → List ℕ → List (List ℕ)
  unfolding derive_secrets_n
  derive_secrets input salt info = derive_secrets_n c input salt info 3

  -- The agreement with the one-time prekey, when there is one.
  abbrev pub agree_one_time : List ℕ → Option (List ℕ) → Result (Option (List ℕ))
  unfolding scalar_multiply
  agree_one_time priv none = ok none
  agree_one_time priv (some opk) = do a4 ← scalar_multiply c priv (strip_prefix opk); ok (some a4)

  -- Steps 3 and 4: the agreements, and the shared secret they make up.
  unfoldable pub initiator_secret :
      List ℕ → List ℕ → List ℕ → List ℕ → Option (List ℕ) → Result (List ℕ)
  unfolding scalar_multiply
  initiator_secret identity_priv ephemeral_priv recipient_pub_32 spk prekey_pub = do
    a1 ← scalar_multiply c identity_priv spk
    a2 ← scalar_multiply c ephemeral_priv recipient_pub_32
    a3 ← scalar_multiply c ephemeral_priv spk
    a4 ← agree_one_time ephemeral_priv prekey_pub
    ok (shared_secret a1 a2 a3 a4)

  -- The recipient's agreements, in the initiator's order in the shared secret.
  unfoldable pub recipient_secret :
      List ℕ → List ℕ → Option (List ℕ) → List ℕ → List ℕ → Result (List ℕ)
  unfolding scalar_multiply
  recipient_secret our_identity_priv our_signed_prekey_priv our_prekey_priv sender_identity_x
        sender_ephemeral =
      do
        a1 ← scalar_multiply c our_identity_priv sender_ephemeral
        a2 ← scalar_multiply c our_signed_prekey_priv sender_identity_x
        a3 ← scalar_multiply c our_signed_prekey_priv sender_ephemeral
        a4 ← elim our_prekey_priv [
          | none ↦ ok none
          | some opk_priv ↦ (do a ← scalar_multiply c opk_priv sender_ephemeral; ok (some a))
        ]
        ok (shared_secret a2 a1 a3 a4)

  -- Steps 6 and 7: the entry, with its sending chain.
  unfoldable pub initiator_entry :
      X3dhParams → List ℕ → List ℕ → List ℕ → List (List ℕ) → ℤ → SessionEntry
  unfolding insert
  initiator_entry params ephemeral_priv ephemeral_pub spk mk_ratchet now = record {
    registration_id = params.registration_id;
    current_ratchet = record {
      ephemeral_key_pair = record {
        priv_key = b64 c ephemeral_priv;
        pub_key = b64 c ephemeral_pub;
      };
      last_remote_ephemeral_key = b64 c spk;
      previous_counter = 0;
      root_key = b64 c (chunk mk_ratchet 0);
    };
    index_info = record {
      base_key = b64 c ephemeral_pub;
      base_key_type = elim params.prekey_pub [ some opk ↦ 1 | none ↦ 0 ];
      closed = negsuc 0;
      used = now;
      created = now;
      remote_identity_key = b64 c params.recipient_pub;
    };
    chains =
        insert (b64 c ephemeral_pub)
          (record {
            chain_key = record { counter = negsuc 0; key = some (b64 c (chunk mk_ratchet 1)) };
            chain_type = sending;
            message_keys = [];
          })
          [];
    pending_pre_key = some (record {
      base_key = b64 c ephemeral_pub;
      signed_key_id = some params.signed_key_id;
      pre_key_id = params.prekey_id;
    });
  }

  -- The recipient's entry, which has no chain yet.
  unfoldable pub recipient_entry :
      List ℕ → List ℕ → List ℕ → List ℕ → ℕ → List (List ℕ) → ℤ → SessionEntry
  recipient_entry our_signed_prekey_priv our_signed_prekey_pub sender_identity sender_ephemeral
        registration_id mk now =
      record {
        registration_id = registration_id;
        current_ratchet = record {
          ephemeral_key_pair = record {
            priv_key = b64 c our_signed_prekey_priv;
            pub_key = b64 c our_signed_prekey_pub;
          };
          last_remote_ephemeral_key = b64 c sender_ephemeral;
          previous_counter = 0;
          root_key = b64 c (chunk mk 0);
        };
        index_info = record {
          base_key = b64 c sender_ephemeral;
          base_key_type = 0;
          closed = negsuc 0;
          used = now;
          created = now;
          remote_identity_key = b64 c sender_identity;
        };
        chains = [];
        pending_pre_key = none;
      }

  module _ (d : Dalek) (serde : Serde) where
    unfoldable pub build_initial_session_with_ephemeral : X3dhParams → List ℕ → ℤ → Result Str
    unfolding verify generate_keypair scalar_multiply initiator_secret derive_secrets_n
        initiator_entry insert serialize
    build_initial_session_with_ephemeral params ephemeral_priv now = do
      recipient_pub_32 ← ok_or recipient_pub_length (get_1_33 params.recipient_pub)
      let spk = strip_prefix params.signed_prekey_pub
      verified ← verify d recipient_pub_32 params.signed_prekey_pub params.signed_prekey_sig
      bail_if (not verified) signature_rejected
      (identity, _) ← generate_keypair c params.identity_priv
      bail_if (not (bytes_eq identity (strip_prefix params.identity_pub))) identity_mismatch
      bail_if (not (bytes_eq (strip_prefix params.recipient_prekey) spk)) prekey_mismatch
      (ephemeral_pub, _) ← generate_keypair c ephemeral_priv
      shared ←
          initiator_secret params.identity_priv ephemeral_priv recipient_pub_32 spk
            params.prekey_pub
      let mk = derive_secrets shared (replicate 32 0) whisper_text
      shared_ratchet ← scalar_multiply c ephemeral_priv spk
      let mk_ratchet = derive_secrets shared_ratchet (chunk mk 0) whisper_ratchet
      let entry = initiator_entry params ephemeral_priv ephemeral_pub spk mk_ratchet now
      serialize serde (single_session (b64 c ephemeral_pub) entry)

    unfoldable pub build_initial_session : X3dhParams → List ℕ → ℤ → Result Str
    unfolding build_initial_session_with_ephemeral
    build_initial_session params seed now = build_initial_session_with_ephemeral params seed now

    unfoldable pub build_recipient_session :
        List ℕ → List ℕ → List ℕ → Option (List ℕ) → List ℕ → List ℕ → ℕ → ℤ → Result Str
    unfolding generate_keypair recipient_secret derive_secrets_n recipient_entry insert serialize
    build_recipient_session our_identity_priv our_signed_prekey_priv our_signed_prekey_pub
          our_prekey_priv sender_identity sender_ephemeral registration_id now =
        do
          sender_identity_x ← ok_or sender_identity_length (get_1_33 sender_identity)
          (signed_prekey, _) ← generate_keypair c our_signed_prekey_priv
          bail_if (not (bytes_eq signed_prekey (strip_prefix our_signed_prekey_pub)))
              signed_prekey_mismatch
          shared ←
              recipient_secret our_identity_priv our_signed_prekey_priv our_prekey_priv
                sender_identity_x sender_ephemeral
          let mk = derive_secrets shared (replicate 32 0) whisper_text
          let entry =
              recipient_entry our_signed_prekey_priv our_signed_prekey_pub sender_identity
                sender_ephemeral registration_id mk now
          serialize serde (single_session (b64 c sender_ephemeral) entry)
