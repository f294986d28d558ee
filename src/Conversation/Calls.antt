-- ===== src/Conversation/Calls.antt =====
-- ratchet.rs: what `encrypt`, `decrypt_whisper` and `decrypt_pkmsg` have done when they return.
use oktz_signal.Base.{ℕ, ◌≡◌, ◌-◌, refl, ap, ◌∙◌, List, Option, none, some, not}
use oktz_signal.Base.{
  ok, ok_or, ok_or-some, bail_if, no_session_entry, counter_beyond_u32, bad_version_byte,
  no_open_session_for_pkmsg, length, take, drop,
}
use oktz_signal.Base.Post.{Returns, Returns-ok, >>=-Returns, >>-Returns}
use oktz_signal.BTreeMap.Keys.{Str, str_ord}
use oktz_signal.Session.{
  SessionEntry, SessionRecord, PendingPreKey, Serde, serialize, deserialize, current_session_mut,
  have_open_session,
}
use oktz_signal.Crates.{Crates}
use oktz_signal.Util.{unb64}
use oktz_signal.Proto.Whisper.{decode_whisper, encode_whisper}
use oktz_signal.Proto.Pkmsg.{decode_pkmsg}
use oktz_signal.Ratchet.Kdf.{chunk}
use oktz_signal.Ratchet.Cbc.{aes_cbc_encrypt}
use oktz_signal.Ratchet.Encrypt.{
  EncryptResult, encrypt, select_sending, next_message_key, put_entry, put_chain, message_keys_of,
  try_u32, seal, wrap_pkmsg,
}
use oktz_signal.Ratchet.Decrypt.{DecryptResult, decrypt_whisper, decrypt_pkmsg, decrypt_entry}
use oktz_signal.Conversation.{Step}
use oktz_signal.Conversation.Sending.{packed}

module _ (c : Crates) (serde : Serde) where
  -- A call has read the text, made one step of the session in use, and printed the record.
  pub record IsCall (json json' : Str) : Type 0 where
    pub r : SessionRecord
    pub id : Str
    pub entry : SessionEntry
    pub left : SessionEntry
    pub read : deserialize serde json ≡ ok r
    pub current : current_session_mut r ≡ some (id, entry)
    pub step : Step c entry left
    pub printed : serialize serde (put_entry id left r) ≡ ok json'

  packed-session_json :
      (pending : Option PendingPreKey) (json : Str) (result sender : List ℕ) (registration_id : ℕ)
      → Returns
          (λ (s : EncryptResult). json ≡ s.session_json)
          (packed c pending json result sender registration_id)
  unfolding packed
  packed-session_json none json result sender registration_id = Returns-ok _ refl
  packed-session_json (some pk) json result sender registration_id =
      >>=-Returns (wrap_pkmsg c pk result sender registration_id) _ (λ wrapped h. Returns-ok _ refl)

  pub encrypt-Returns :
      (json : Str) (plaintext sender : List ℕ) (registration_id : ℕ)
      → Returns
          (λ (sent : EncryptResult). IsCall json sent.session_json)
          (encrypt c serde json plaintext sender registration_id)
  unfolding encrypt packed
  encrypt-Returns json plaintext sender registration_id =
      >>=-Returns (deserialize serde json) _ (λ r read.
        >>=-Returns (ok_or no_session_entry (current_session_mut r)) _ (λ p current.
          >>=-Returns (unb64 c p.1.index_info.remote_identity_key) _ (λ receiver _.
            >>=-Returns (unb64 c p.1.current_ratchet.ephemeral_key_pair.pub_key) _ (λ eph _.
              >>=-Returns (select_sending c p.1) _ (λ q selected.
                >>=-Returns (next_message_key c q.1) _ (λ t stepped.
                  >>=-Returns (unb64 c t.1.0) _ (λ mk _.
                    >>=-Returns
                      (aes_cbc_encrypt c (chunk (message_keys_of c mk) 0)
                        (take 16 (chunk (message_keys_of c mk) 2)) plaintext)
                      _
                      (λ ciphertext _.
                        >>=-Returns (ok_or counter_beyond_u32 (try_u32 t.0)) _ (λ counter _.
                          >>=-Returns (encode_whisper _) _ (λ buf _.
                            >>=-Returns
                              (serialize serde (put_entry p.0 (put_chain q.0 t.1.1 p.1) r)) _
                              (λ json' printed. record {
                                returns = λ sent h. record {
                                  r = r;
                                  id = p.0;
                                  entry = p.1;
                                  left = put_chain q.0 t.1.1 p.1;
                                  read = read;
                                  current =
                                      ok_or-some no_session_entry (current_session_mut r) current;
                                  step = Step.send p.1 q.0 q.1 t.1.1 t.0 t.1.0 selected stepped;
                                  printed =
                                      printed
                                      ∙ ap ok (
                                          (packed-session_json p.1.pending_pre_key json'
                                              (seal c (message_keys_of c mk) sender receiver buf)
                                              sender registration_id).returns
                                            sent h);
                                };
                              })))))))))))

  pub decrypt_whisper-Returns :
      (json : Str) (ciphertext receiver seed : List ℕ)
      → Returns
          (λ (read : DecryptResult). IsCall json read.session_json)
          (decrypt_whisper c serde json ciphertext receiver seed)
  unfolding decrypt_whisper
  decrypt_whisper-Returns json ciphertext receiver seed =
      (let buf = take (length ciphertext - 9) (drop 1 ciphertext) in
        let mac = drop (length ciphertext - 8) ciphertext in
        >>-Returns (bail_if _ bad_version_byte) _ (
          >>=-Returns (decode_whisper buf) _ (λ msg _.
            >>=-Returns (deserialize serde json) _ (λ r read.
              >>=-Returns (ok_or no_session_entry (current_session_mut r)) _ (λ p current.
                >>=-Returns (decrypt_entry c p.1 msg buf mac receiver seed).0 _ (λ plaintext _.
                  >>=-Returns
                    (serialize serde
                      (put_entry p.0 (decrypt_entry c p.1 msg buf mac receiver seed).1 r))
                    _
                    (λ json' printed. Returns-ok _ (record {
                      r = r;
                      id = p.0;
                      entry = p.1;
                      left = (decrypt_entry c p.1 msg buf mac receiver seed).1;
                      read = read;
                      current = ok_or-some no_session_entry (current_session_mut r) current;
                      step = Step.receive p.1 msg buf mac receiver seed;
                      printed = printed;
                    }))))))))

  pub decrypt_pkmsg-Returns :
      (json : Str) (ciphertext receiver seed : List ℕ)
      → Returns
          (λ (read : DecryptResult). IsCall json read.session_json)
          (decrypt_pkmsg c serde json ciphertext receiver seed)
  unfolding decrypt_pkmsg
  decrypt_pkmsg-Returns json ciphertext receiver seed = >>-Returns (bail_if _ bad_version_byte) _ (
      >>=-Returns (decode_pkmsg (drop 1 ciphertext)) _ (λ pm _.
        >>=-Returns (deserialize serde json) _ (λ r _.
          >>-Returns (bail_if (not (have_open_session r)) no_open_session_for_pkmsg) _
            (decrypt_whisper-Returns json pm.message receiver seed))))
