-- ===== src/Conversation/Receiving.antt =====
-- ratchet.rs, `decrypt_whisper` and `decrypt_pkmsg`: from the bytes to `decrypt_entry`.
use oktz_signal.Base.{
  ℕ, suc, ◌+◌, ◌-◌, ◌≡◌, ap, ◌∙◌, List, ◌∷◌, ◌++◌, some, false, arith, not, ◌||◌, ltb,
}
use oktz_signal.Base.{
  length, take, drop, ok, length-take, length-append, take-length_append, drop-length_append,
}
use oktz_signal.Base.{
  >>=-ok, >>-ok, ◌>>=◌, Result, bail_if, ok_or, no_session_entry, invalid_json, bad_version_byte,
}
use oktz_signal.BTreeMap.Keys.{Str, str_ord}
use oktz_signal.Session.{
  SessionEntry, SessionRecord, Serde, serialize, deserialize, current_session_mut,
}
use oktz_signal.Crates.{Crates, IsEncoding}
use oktz_signal.Proto.Whisper.{WhisperMessage, decode_whisper}
use oktz_signal.Proto.Whisper.RoundTrip.{IsSendable, whisper_bytes, decode_whisper-bytes}
use oktz_signal.Ratchet.Kdf.{chunk}
use oktz_signal.Ratchet.Encrypt.{message_keys_of, put_entry, version_byte, seal}
use oktz_signal.Ratchet.Decrypt.{DecryptResult, decrypt_entry, decrypt_whisper, starts_with_version}
use oktz_signal.Conversation.Sending.{wire_bytes}

module _ (buf tag : List ℕ) (eight : length tag ≡ 8) where
  abbrev framed : List ℕ
  framed = version_byte ∷ (buf ++ tag)

  length-framed : length framed ≡ suc (length buf + 8)
  length-framed = omega (arith, length-append buf tag, eight)

  not_short : (ltb (length framed) 9 || not (starts_with_version framed)) ≡ false
  not_short = ground (arith, length-framed)

  body : take (length framed - 9) (drop 1 framed) ≡ buf
  body =
      ap (λ n. take n (buf ++ tag)) (shorter (length framed) (length buf) length-framed)
      ∙ take-length_append buf tag
    where
      shorter : (a b : ℕ) → a ≡ suc (b + 8) → a - 9 ≡ b
      shorter a b h = omega arith

  ending : drop (length framed - 8) framed ≡ tag
  ending =
      ap (λ n. drop n framed) (shorter (length framed) (length buf) length-framed)
      ∙ drop-length_append buf tag
    where
      shorter : (a b : ℕ) → a ≡ suc (b + 8) → a - 8 ≡ suc b
      shorter a b h = omega arith

module _ (c : Crates) (encoding : IsEncoding c) (serde : Serde) where
  -- The tag of a message as it travels.
  abbrev pub tag_of : List ℕ → List ℕ → List ℕ → WhisperMessage → List ℕ
  tag_of mk sender receiver msg = take 8 (
      c.hmac (chunk (message_keys_of c mk) 1)
        (sender ++ receiver ++ version_byte ∷ whisper_bytes msg))

  length-tag_of :
      (mk sender receiver : List ℕ) (msg : WhisperMessage)
      → length (tag_of mk sender receiver msg) ≡ 8
  length-tag_of mk sender receiver msg = omega (
    arith,
    length-take 8 (
        c.hmac (chunk (message_keys_of c mk) 1)
          (sender ++ receiver ++ version_byte ∷ whisper_bytes msg)),
    encoding.length-hmac (chunk (message_keys_of c mk) 1)
        (sender ++ receiver ++ version_byte ∷ whisper_bytes msg),
  )

  pub decrypt_whisper-wire_bytes :
      (json json' : Str) (r : SessionRecord) (id : Str) (entry left : SessionEntry)
      (msg : WhisperMessage) (mk sender receiver seed plaintext : List ℕ)
      → IsSendable msg
      → deserialize serde json ≡ ok r
      → current_session_mut r ≡ some (id, entry)
      → decrypt_entry c entry msg (whisper_bytes msg) (tag_of mk sender receiver msg) receiver seed
        ≡ (ok plaintext, left)
      → serde.to_string (put_entry id left r) ≡ some json'
      → decrypt_whisper c serde json (wire_bytes c mk sender receiver msg) receiver seed
        ≡ ok (record { session_json = json'; plaintext = plaintext })
  unfolding decrypt_whisper wire_bytes seal
  decrypt_whisper-wire_bytes json json' r id entry left msg mk sender receiver seed plaintext
        sendable read current opens printed =
      (let buf = whisper_bytes msg in
        let tag = tag_of mk sender receiver msg in
        let eight = length-tag_of mk sender receiver msg in
        let ct = framed buf tag eight in
        let finish : (Result (List ℕ) × SessionEntry → Result DecryptResult) = λ o. o.0 >>= λ p.
        serialize serde (put_entry id o.1 r) >>= λ j.
        ok (record { session_json = j; plaintext = p }) in
        >>-ok _ (ap (λ b. bail_if b bad_version_byte) (not_short buf tag eight))
        ∙ >>=-ok _ (ap decode_whisper (body buf tag eight) ∙ decode_whisper-bytes msg sendable)
        ∙ >>=-ok _ read
        ∙ >>=-ok _ (ap (ok_or no_session_entry) current)
        ∙ ap finish (
            ap (λ b. decrypt_entry c entry msg b (drop (length ct - 8) ct) receiver seed)
              (body buf tag eight)
            ∙ ap (λ t. decrypt_entry c entry msg buf t receiver seed) (ending buf tag eight)
            ∙ opens)
        ∙ >>=-ok (λ j. ok (record { session_json = j; plaintext = plaintext }))
            (ap (ok_or invalid_json) printed))
