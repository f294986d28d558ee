-- ===== src/Conversation/Terminates.antt =====
-- ratchet.rs: `encrypt`, `decrypt_whisper` and `decrypt_pkmsg` end on every input.
use oktz_signal.Base.{
  ℕ, ◌≡◌, ◌≢◌, ap, ◌∙◌, List, ◌∷◌, Option, none, some, not, ◌-◌, ◌||◌, arith, inl, inr,
  Option-cases, Bool-cases,
}
use oktz_signal.Base.{
  err, bail_if, out_of_fuel, no_session_entry, counter_beyond_u32, message_key_not_found, length,
  take, drop, Result-cases,
}
use oktz_signal.Base.Post.{
  ok_or-Ends, bail_if-Ends, Ends, Ends-ok, Ends-err, Ends-bail_if, Ends-ok_or, >>=-Ends, >>-Ends,
}
use oktz_signal.Base.Int.{pos}
use oktz_signal.BTreeMap.{get}
use oktz_signal.BTreeMap.Keys.{Str, str_ord, int_ord}
use oktz_signal.Session.{
  SessionEntry, PendingPreKey, Chain, Serde, serialize, deserialize, current_session_mut,
  have_open_session, is_receiving, white_len, trim_start,
}
use oktz_signal.Session.Trim.{trim_start-white_len}
use oktz_signal.Crates.{Crates}
use oktz_signal.Util.{unb64}
use oktz_signal.Ratchet.Cbc.{aes_cbc_encrypt, aes_cbc_decrypt, chunks}
use oktz_signal.Ratchet.Cbc.Blocks.{concat, concat-chunks}
use oktz_signal.Ratchet.Chains.{find_chain, find_chain_mut}
use oktz_signal.Ratchet.MessageKeys.{peek_message_key, fill_message_keys}
use oktz_signal.Ratchet.MessageKeys.Bounds.{fill_message_keys-IsBounded}
use oktz_signal.Ratchet.Plan.{plan_ratchet}
use oktz_signal.Ratchet.Kdf.{chunk}
use oktz_signal.Conversation.Sending.{packed}
use oktz_signal.Proto.Whisper.{encode_whisper}
use oktz_signal.Proto.Pkmsg.{encode_pkmsg}
use oktz_signal.Ratchet.Encrypt.{
  wrap_pkmsg, encrypt, message_keys_of, try_u32, put_entry, put_chain, select_sending,
  next_message_key,
}
use oktz_signal.Conversation.Ends.{
  deserialize-Ends, serialize-Ends, unb64-Ends, aes_cbc_encrypt-Ends, aes_cbc_decrypt-Ends,
  peek_message_key-Ends, plan_ratchet-Ends, select_sending-Ends, next_message_key-Ends,
}
use oktz_signal.Base.{
  length-take, length-drop, ltb, no_receiving_chain, mac_failed, bad_version_byte,
  no_open_session_for_pkmsg, ◌++◌,
}
use oktz_signal.Session.{is_receiving}
use oktz_signal.Proto.Varint.{IsU64}
use oktz_signal.Proto.Whisper.{WhisperMessage, decode_whisper}
use oktz_signal.Proto.Whisper.Sound.{decode_whisper-ends}
use oktz_signal.Proto.Pkmsg.{decode_pkmsg}
use oktz_signal.Proto.Pkmsg.Sound.{decode_pkmsg-ends, decode_pkmsg-IsSendable}
use oktz_signal.Ratchet.Chains.{chain_key_ids, find_chain_mut}
use oktz_signal.Ratchet.Plan.{RatchetPlan}
use oktz_signal.Ratchet.Encrypt.{version_byte}
use oktz_signal.Ratchet.Decrypt.{
  authenticate, chain_to_peek, spend, commit, apply_plan, decrypt_entry, decrypt_whisper,
  decrypt_pkmsg, starts_with_version, receiving_only,
}

module _ (c : Crates) where
  wrap_pkmsg-Ends :
      (pk : PendingPreKey) (message sender : List ℕ) (registration_id : ℕ)
      → Ends (wrap_pkmsg c pk message sender registration_id)
  unfolding wrap_pkmsg encode_pkmsg unb64
  wrap_pkmsg-Ends pk message sender registration_id h = ground (arith, h)

  packed-Ends :
      (pending : Option PendingPreKey) (json : Str) (result sender : List ℕ) (registration_id : ℕ)
      → Ends (packed c pending json result sender registration_id)
  unfolding packed
  packed-Ends none json result sender registration_id = Ends-ok _
  packed-Ends (some pk) json result sender registration_id =
      >>=-Ends (wrap_pkmsg c pk result sender registration_id) _
        (wrap_pkmsg-Ends pk result sender registration_id) (λ wrapped _. Ends-ok _)

  encrypt-Ends :
      (serde : Serde) (json : Str) (plaintext sender : List ℕ) (registration_id : ℕ)
      → Ends (encrypt c serde json plaintext sender registration_id)
  unfolding encrypt packed encode_whisper
  encrypt-Ends serde json plaintext sender registration_id =
      >>=-Ends (deserialize serde json) _ (deserialize-Ends serde json) (λ r _.
        ok_or-Ends no_session_entry (current_session_mut r) _ (λ h. cc)
          (λ p.
            >>=-Ends (unb64 c p.1.index_info.remote_identity_key) _
              (unb64-Ends c p.1.index_info.remote_identity_key)
              (λ receiver _.
                >>=-Ends (unb64 c p.1.current_ratchet.ephemeral_key_pair.pub_key) _
                  (unb64-Ends c p.1.current_ratchet.ephemeral_key_pair.pub_key)
                  (λ eph _. >>=-Ends (select_sending c p.1) _ (select_sending-Ends c p.1) (λ q _.
                    >>=-Ends (next_message_key c q.1) _ (next_message_key-Ends c q.1) (λ t _.
                      >>=-Ends (unb64 c t.1.0) _ (unb64-Ends c t.1.0) (λ mk _.
                        >>=-Ends
                          (aes_cbc_encrypt c (chunk (message_keys_of c mk) 0)
                            (take 16 (chunk (message_keys_of c mk) 2)) plaintext)
                          _ (aes_cbc_encrypt-Ends c _ _ plaintext)
                          (λ ciphertext _.
                            ok_or-Ends counter_beyond_u32 (try_u32 t.0) _ (λ h. cc)
                              (λ counter.
                                >>=-Ends
                                  (serialize serde (put_entry p.0 (put_chain q.0 t.1.1 p.1) r)) _
                                  (serialize-Ends serde (put_entry p.0 (put_chain q.0 t.1.1 p.1) r))
                                  (λ json' _.
                                    packed-Ends p.1.pending_pre_key json' _ sender
                                      registration_id))))))))))

  chain_to_peek-Ends :
      (entry : SessionEntry) (ids : List Str) (plan : Option RatchetPlan)
      → Ends (chain_to_peek c entry ids plan)
  unfolding chain_to_peek
  chain_to_peek-Ends entry ids (some plan) = Ends-ok _
  chain_to_peek-Ends entry ids none =
      Ends-ok_or no_receiving_chain (receiving_only (find_chain entry.chains ids)) (λ h. cc)

  authenticate-Ends :
      (entry : SessionEntry) (msg : WhisperMessage) (buf mac our seed : List ℕ)
      → Ends (authenticate c entry msg buf mac our seed)
  unfolding authenticate
  authenticate-Ends entry msg buf mac our seed =
      (let ids = chain_key_ids c msg.ephemeral_key in
        >>=-Ends (plan_ratchet c entry ids msg.previous_counter seed) _
          (plan_ratchet-Ends c entry ids msg.previous_counter seed)
          (λ plan _.
            >>=-Ends (chain_to_peek c entry ids plan) _ (chain_to_peek-Ends entry ids plan)
              (λ chain _.
                >>=-Ends (peek_message_key c chain (pos msg.counter)) _
                  (peek_message_key-Ends c chain (pos msg.counter))
                  (λ peeked _.
                    ok_or-Ends message_key_not_found peeked _ (λ h. cc)
                      (λ key. >>=-Ends (unb64 c key) _ (unb64-Ends c key) (λ mk _.
                        >>=-Ends (unb64 c entry.index_info.remote_identity_key) _
                          (unb64-Ends c entry.index_info.remote_identity_key)
                          (λ remote _.
                            >>-Ends
                              (bail_if
                                (not (
                                  c.verify_truncated_left (chunk (message_keys_of c mk) 1)
                                    (remote ++ our ++ version_byte ∷ buf) mac))
                                mac_failed)
                              _ (Ends-bail_if _ mac_failed (λ h. cc)) (Ends-ok _))))))))

  spend-Ends :
      (entry : SessionEntry) (id : Str) (chain : Chain) (msg : WhisperMessage)
      (keys : List (List ℕ))
      → Ends (spend c entry id chain msg keys).0
  unfolding spend
  spend-Ends entry id chain msg keys =
      (let filling = fill_message_keys c chain (pos msg.counter) in
        elim (Result-cases filling.0) [
          | inr (e, f) ↦
              rw (f, spend)
                (Ends-err e (λ h.
                  (fill_message_keys-IsBounded c chain (pos msg.counter)).ends (f ∙ ap err h)))
          | inl (u, f) ↦ elim (Option-cases (get (pos msg.counter) filling.1.message_keys)) [
            | inl g ↦ rw (f, spend, g) (Ends-err message_key_not_found (λ h. cc))
            | inr (key, g) ↦
                elim (Result-cases
                  (aes_cbc_decrypt c (chunk keys 0) (take 16 (chunk keys 2)) msg.ciphertext)) [
                    | inr (e, k) ↦
                        rw (f, spend, g, k)
                          (Ends-err e (λ h.
                            aes_cbc_decrypt-Ends c (chunk keys 0) (take 16 (chunk keys 2))
                              msg.ciphertext (k ∙ ap err h)))
                    | inl (p, k) ↦ rw (f, spend, g, k) (Ends-ok p)
                  ]
          ]
        ])

  commit-Ends :
      (entry : SessionEntry) (msg : WhisperMessage) (plan : Option RatchetPlan)
      (keys : List (List ℕ))
      → Ends (commit c entry msg plan keys).0
  unfolding commit
  commit-Ends entry msg plan keys =
      elim (Option-cases
        (find_chain_mut (apply_plan c entry plan).chains (chain_key_ids c msg.ephemeral_key))) [
          | inl g ↦ rw (g, commit) (Ends-err no_receiving_chain (λ h. cc))
          | inr ((id, chain), g) ↦ elim (Bool-cases (is_receiving chain)) [
            | inl k ↦ rw (g, commit, k) (spend-Ends (apply_plan c entry plan) id chain msg keys)
            | inr k ↦ rw (g, commit, k) (Ends-err no_receiving_chain (λ h. cc))
          ]
        ]

  decrypt_entry-Ends :
      (entry : SessionEntry) (msg : WhisperMessage) (buf mac our seed : List ℕ)
      → Ends (decrypt_entry c entry msg buf mac our seed).0
  unfolding decrypt_entry
  decrypt_entry-Ends entry msg buf mac our seed =
      elim (Result-cases (authenticate c entry msg buf mac our seed)) [
        | inr (e, f) ↦
            rw (f, decrypt_entry)
              (Ends-err e (λ h. authenticate-Ends entry msg buf mac our seed (f ∙ ap err h)))
        | inl ((plan, keys), f) ↦ rw (f, decrypt_entry) (commit-Ends entry msg plan keys)
      ]

  decrypt_whisper-Ends :
      (serde : Serde) (json : Str) (ciphertext our seed : List ℕ)
      → IsU64 (length ciphertext)
      → Ends (decrypt_whisper c serde json ciphertext our seed)
  unfolding decrypt_whisper
  decrypt_whisper-Ends serde json ciphertext our seed short =
      (let buf = take (length ciphertext - 9) (drop 1 ciphertext) in
        let mac = drop (length ciphertext - 8) ciphertext in
        bail_if-Ends (ltb (length ciphertext) 9 || not (starts_with_version ciphertext))
          bad_version_byte _ (λ h. cc)
          (>>=-Ends (decode_whisper buf) _ (decode_whisper-ends buf (shorter ciphertext short))
            (λ msg _. >>=-Ends (deserialize serde json) _ (deserialize-Ends serde json) (λ r _.
              ok_or-Ends no_session_entry (current_session_mut r) _ (λ h. cc)
                (λ p.
                  >>=-Ends (decrypt_entry c p.1 msg buf mac our seed).0 _
                    (decrypt_entry-Ends p.1 msg buf mac our seed)
                    (λ plaintext _.
                      >>=-Ends
                        (serialize serde
                          (put_entry p.0 (decrypt_entry c p.1 msg buf mac our seed).1 r))
                        _ (serialize-Ends serde _) (λ json' _. Ends-ok _)))))))
    where
      shorter :
          (ct : List ℕ) → IsU64 (length ct) → IsU64 (length (take (length ct - 9) (drop 1 ct)))
      shorter ct h = omega (arith, h, length-take (length ct - 9) (drop 1 ct), length-drop 1 ct)

  decrypt_pkmsg-Ends :
      (serde : Serde) (json : Str) (ciphertext our seed : List ℕ)
      → IsU64 (length ciphertext)
      → Ends (decrypt_pkmsg c serde json ciphertext our seed)
  unfolding decrypt_pkmsg
  decrypt_pkmsg-Ends serde json ciphertext our seed short =
      (let body = drop 1 ciphertext in
        let small : IsU64 (length body) = omega (arith, short, length-drop 1 ciphertext) in
        bail_if-Ends (not (starts_with_version ciphertext)) bad_version_byte _ (λ h. cc)
          (>>=-Ends (decode_pkmsg body) _ (decode_pkmsg-ends body small) (λ pm accepted.
            >>=-Ends (deserialize serde json) _ (deserialize-Ends serde json) (λ r _.
              bail_if-Ends (not (have_open_session r)) no_open_session_for_pkmsg _ (λ h. cc)
                (decrypt_whisper-Ends serde json pm.message our seed
                  (decode_pkmsg-IsSendable body pm small accepted).0.message_length)))))

  -- On any session text and any plaintext or ciphertext whose length fits u64, `encrypt`,
  -- `decrypt_whisper` and `decrypt_pkmsg` end with a value or with an error of the source, never
  -- with `out_of_fuel`, whatever the crates do. The two loops on fuel that cannot fail have enough
  -- of it too: the cut into blocks leaves out no byte of any byte string, and `trim_start` leaves
  -- no white space at the front of the session text.
  pub calls_end :
      (serde : Serde) (json : Str) (bytes identity seed text : List ℕ) (registration_id : ℕ)
      → IsU64 (length bytes)
      → (encrypt c serde json bytes identity registration_id ≢ err out_of_fuel)
        × (decrypt_whisper c serde json bytes identity seed ≢ err out_of_fuel)
        × (decrypt_pkmsg c serde json bytes identity seed ≢ err out_of_fuel)
        × (concat (chunks text) ≡ text)
        × (white_len (trim_start json) ≡ 0)
  calls_end serde json bytes identity seed text registration_id short = (
    encrypt-Ends serde json bytes identity registration_id,
    decrypt_whisper-Ends serde json bytes identity seed short,
    decrypt_pkmsg-Ends serde json bytes identity seed short,
    concat-chunks text,
    trim_start-white_len json,
  )
