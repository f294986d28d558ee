-- ===== src/Ratchet/Decrypt/Authentic.antt =====
-- ratchet.rs, `decrypt_entry`: nothing moves before the tag is verified.
use oktz_signal.Base.{ℕ, ◌≡◌, refl, ap, ◌∙◌, true, Option, some, List, ◌∷◌, ◌++◌}
use oktz_signal.Base.{Option-cases, Bool-cases, Result-cases, inl, inr, ◌⊎◌}
use oktz_signal.Base.{ok, err, Error, message_key_not_found, invalid_base64, mac_failed}
use oktz_signal.Base.Int.{pos}
use oktz_signal.BTreeMap.Keys.{Str}
use oktz_signal.Session.{Chain, SessionEntry}
use oktz_signal.Crates.{Crates}
use oktz_signal.Proto.Whisper.{WhisperMessage}
use oktz_signal.Ratchet.Kdf.{chunk}
use oktz_signal.Ratchet.Chains.{chain_key_ids}
use oktz_signal.Ratchet.MessageKeys.{peek_message_key}
use oktz_signal.Ratchet.Plan.{RatchetPlan, plan_ratchet}
use oktz_signal.Ratchet.Encrypt.{message_keys_of, version_byte}
use oktz_signal.Ratchet.Decrypt.{authenticate, decrypt_entry, chain_to_peek}

module _ (c : Crates) where
  -- The tag is the one that the peeked message key gives for both identities and the buffer.
  pub record IsAuthentic (entry : SessionEntry) (msg : WhisperMessage) (buf mac our seed : List ℕ)
      : Type 0 where
    pub plan : Option RatchetPlan
    pub chain : Chain
    pub text : Str
    pub key : List ℕ
    pub remote : List ℕ
    pub planned :
        plan_ratchet c entry (chain_key_ids c msg.ephemeral_key) msg.previous_counter seed ≡ ok plan
    pub peeked_at : chain_to_peek c entry (chain_key_ids c msg.ephemeral_key) plan ≡ ok chain
    pub peeked : peek_message_key c chain (pos msg.counter) ≡ ok (some text)
    pub decoded : c.decode text ≡ some key
    pub identity : c.decode entry.index_info.remote_identity_key ≡ some remote
    pub verified :
        c.verify_truncated_left
          (chunk (message_keys_of c key) 1)
          (remote ++ our ++ version_byte ∷ buf)
          mac
        ≡ true

  authenticate-IsAuthentic :
      (entry : SessionEntry) (msg : WhisperMessage) (buf mac our seed : List ℕ)
      → ((e : Error) × (authenticate c entry msg buf mac our seed ≡ err e))
        ⊎ IsAuthentic entry msg buf mac our seed
  unfolding authenticate
  authenticate-IsAuthentic entry msg buf mac our seed =
      (let ids = chain_key_ids c msg.ephemeral_key in
        elim (Result-cases (plan_ratchet c entry ids msg.previous_counter seed)) [
          | inr (e, p) ↦ inl (e, rw (p, authenticate) refl)
          | inl (plan, p) ↦ elim (Result-cases (chain_to_peek c entry ids plan)) [
            | inr (e, q) ↦ inl (e, rw (p, authenticate, q) refl)
            | inl (chain, q) ↦ elim (Result-cases (peek_message_key c chain (pos msg.counter))) [
              | inr (e, r) ↦ inl (e, rw (p, authenticate, q, r) refl)
              | inl (peeked, r) ↦ elim (Option-cases peeked) [
                | inl s ↦ inl (message_key_not_found, rw (p, authenticate, q, r, s) refl)
                | inr (text, s) ↦ elim (Option-cases (c.decode text)) [
                  | inl d ↦ inl (invalid_base64, rw (p, authenticate, q, r, s, d) refl)
                  | inr (key, d) ↦
                      elim (Option-cases (c.decode entry.index_info.remote_identity_key)) [
                        | inl i ↦ inl (invalid_base64, rw (p, authenticate, q, r, s, d, i) refl)
                        | inr (remote, i) ↦
                            elim (Bool-cases (
                              c.verify_truncated_left (chunk (message_keys_of c key) 1)
                                (remote ++ our ++ version_byte ∷ buf) mac)) [
                                  | inr v ↦
                                      inl (mac_failed, rw (p, authenticate, q, r, s, d, i, v) refl)
                                  | inl v ↦ inr (record {
                                    plan = plan;
                                    chain = chain;
                                    text = text;
                                    key = key;
                                    remote = remote;
                                    planned = p;
                                    peeked_at = q;
                                    peeked = r ∙ ap ok s;
                                    decoded = d;
                                    identity = i;
                                    verified = v;
                                  })
                                ]
                      ]
                ]
              ]
            ]
          ]
        ])

  -- Whatever the entry and the message: either `decrypt_entry` fails and leaves the entry
  -- exactly as it was, or the tag has been verified, under the message key that the chain of the
  -- planned ratchet step, or the stored receiving chain, gives for the message's counter, over
  -- the remote identity, our identity, the version byte and the message.
  pub decrypt_entry-IsAuthentic :
      (entry : SessionEntry) (msg : WhisperMessage) (buf mac our seed : List ℕ)
      → ((e : Error) × (decrypt_entry c entry msg buf mac our seed ≡ (err e, entry)))
        ⊎ IsAuthentic entry msg buf mac our seed
  unfolding decrypt_entry
  decrypt_entry-IsAuthentic entry msg buf mac our seed =
      elim (authenticate-IsAuthentic entry msg buf mac our seed) [
        | inl (e, h) ↦ inl (e, rw (h, decrypt_entry) refl)
        | inr a ↦ inr a
      ]
