-- ===== src/Conversation.antt =====
-- ratchet.rs and x3dh.rs: the life of one session entry, from the key agreement through messages
-- sent and received in any order.
pub mod Chains
pub mod Operations
pub mod Sound
pub mod Invariant
pub mod Calls
pub mod Texts
pub mod Ends
pub mod Terminates
pub mod Sending
pub mod Receiving
pub mod Delivery
pub mod Wrapped
pub mod First
pub mod Handshake
pub mod Opening
pub mod FirstSent
pub mod Delivered
pub mod FirstMessage
pub mod Reply
pub mod Answer
pub mod Exchange
use oktz_signal.Base.{ℕ, ◌≡◌, List, ok}
use oktz_signal.Base.Int.{ℤ}
use oktz_signal.BTreeMap.Keys.{Str}
use oktz_signal.Session.{Chain, SessionEntry}
use oktz_signal.Crates.{Crates}
use oktz_signal.Proto.Whisper.{WhisperMessage}
use oktz_signal.Ratchet.Encrypt.{select_sending, next_message_key, put_chain}
use oktz_signal.Ratchet.Decrypt.{decrypt_entry}
use oktz_signal.X3dh.{X3dhParams, initiator_entry, recipient_entry}

module _ (c : Crates) where
  -- What `encrypt` does to the entry, and what `decrypt_entry` leaves of it, on success and on
  -- failure: the message, its tag and the random bytes are the environment's.
  pub data Step : SessionEntry → SessionEntry → Type 0 where
    send :
        (entry : SessionEntry) (id : Str) (chain next : Chain) (counter : ℤ) (key : Str)
        → select_sending c entry ≡ ok (id, chain)
        → next_message_key c chain ≡ ok (counter, (key, next))
        → Step entry (put_chain id next entry)
    receive :
        (entry : SessionEntry) (msg : WhisperMessage) (buf mac our seed : List ℕ)
        → Step entry (decrypt_entry c entry msg buf mac our seed).1

  pub data Reach (entry : SessionEntry) : SessionEntry → Type 0 where
    here : Reach entry entry
    next : {s t : SessionEntry} → Reach entry s → Step s t → Reach entry t

  -- The entries that a key agreement starts with.
  pub data IsStart : SessionEntry → Type 0 where
    initiator :
        (params : X3dhParams) (ephemeral_priv ephemeral_pub spk : List ℕ)
        (mk_ratchet : List (List ℕ)) (now : ℤ)
        → IsStart (initiator_entry c params ephemeral_priv ephemeral_pub spk mk_ratchet now)
    recipient :
        (signed_prekey_priv signed_prekey_pub sender_identity sender_ephemeral : List ℕ)
        (registration_id : ℕ) (mk : List (List ℕ)) (now : ℤ)
        → IsStart (
            recipient_entry c signed_prekey_priv signed_prekey_pub sender_identity sender_ephemeral
              registration_id mk now)
