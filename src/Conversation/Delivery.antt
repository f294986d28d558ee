-- ===== src/Conversation/Delivery.antt =====
-- ratchet.rs, `encrypt` and `decrypt_whisper`, text to text: what one session sends the other reads.
use oktz_signal.Base.{ℕ, suc, ◌≤◌, ◌<◌, ◌≡◌, refl, ap, ◌∙◌, List, none, some, true}
use oktz_signal.Base.{length, All, ok, arith}
use oktz_signal.Base.Int.{ℤ, pos, ◌+ℤ◌, ◌≤ℤ◌, +ℤ_parts, eq_of_parts, pos_part, neg_part}
use oktz_signal.BTreeMap.Keys.{Str, str_ord}
use oktz_signal.Session.{
  Chain, SessionEntry, SessionRecord, Serde, deserialize, current_session_mut, is_receiving,
}
use oktz_signal.Crates.{Crates, IsEncoding}
use oktz_signal.Ratchet.Chains.{chain_key_ids, find_chain, with_prefix}
use oktz_signal.Ratchet.Chains.Find.{find_chain-mut}
use oktz_signal.Ratchet.Plan.{plan_ratchet}
use oktz_signal.Ratchet.MessageKeys.Schedule.{HasKey, filled, message_key, advance}
use oktz_signal.Ratchet.MessageKeys.Agreement.{
  fill_message_keys-filled, peek_message_key-message_key,
}
use oktz_signal.Ratchet.MessageKeys.Filled.{get-filled, filled-IsWellFormed}
use oktz_signal.Ratchet.Encrypt.{EncryptResult, encrypt, select_sending, put_entry, put_chain}
use oktz_signal.Ratchet.Decrypt.{
  DecryptResult, decrypt_whisper, apply_plan, decrypt_entry, chain_to_peek,
}
use oktz_signal.Ratchet.Decrypt.Opened.{IsVerifying, opened, decrypt_entry-opened}
use oktz_signal.Conversation.Chains.{AllKept-find_chain_mut}
use oktz_signal.Conversation.Operations.{select_sending-IsKept}
use oktz_signal.Conversation.Sound.{IsSound}
use oktz_signal.Conversation.Sending.{IsAes, Message, message, wire_bytes, packed, encrypt-packed}
use oktz_signal.Proto.Whisper.RoundTrip.{whisper_bytes}
use oktz_signal.Conversation.Receiving.{decrypt_whisper-wire_bytes, tag_of}

-- serde_json prints every record: its fields are texts, numbers and maps with such keys.
abbrev pub IsPrinting : Serde → Type 0
IsPrinting serde = (r : SessionRecord) → (json : Str) × (serde.to_string r ≡ some json)

module _ (c : Crates) (serde : Serde) where
  -- The text is that of a record whose current session sends to the receiver: its sending chain
  -- holds the chain key and has counters of u32 left.
  pub record IsSender (json : Str) (chain_key receiver : List ℕ) : Type 0 where
    pub r : SessionRecord
    pub id : Str
    pub entry : SessionEntry
    pub chain_id : Str
    pub chain : Chain
    pub ratchet_key : List ℕ
    pub read : deserialize serde json ≡ ok r
    pub current : current_session_mut r ≡ some (id, entry)
    pub sound : IsSound entry
    pub identity : c.decode entry.index_info.remote_identity_key ≡ some receiver
    pub key : c.decode entry.current_ratchet.ephemeral_key_pair.pub_key ≡ some ratchet_key
    pub some_key : 1 ≤ length ratchet_key
    pub short_key : length ratchet_key ≤ 4294967295
    pub selected : select_sending c entry ≡ ok (chain_id, chain)
    pub holds : HasKey c chain chain_key
    pub room : chain.chain_key.counter ≤ℤ pos 4294967294

  -- The text is that of a record whose current session has a receiving chain for the ratchet key,
  -- which holds the chain key, and knows the sender.
  pub record IsReceiver (json : Str) (ratchet_key chain_key sender : List ℕ) : Type 0 where
    pub r : SessionRecord
    pub id : Str
    pub entry : SessionEntry
    pub chain : Chain
    pub read : deserialize serde json ≡ ok r
    pub current : current_session_mut r ≡ some (id, entry)
    pub sound : IsSound entry
    pub identity : c.decode entry.index_info.remote_identity_key ≡ some sender
    pub found : find_chain entry.chains (chain_key_ids c (with_prefix ratchet_key)) ≡ some chain
    pub receives : is_receiving chain ≡ true
    pub holds : HasKey c chain chain_key

further : (k j z : ℤ) (n : ℕ) → j ≡ k +ℤ pos n → z ≡ j +ℤ pos 1 → z ≡ k +ℤ pos (suc n)
further k j z n e f = eq_of_parts z (k +ℤ pos (suc n)) (
    omega (
      arith,
      +ℤ_parts k (pos n),
      +ℤ_parts j (pos 1),
      +ℤ_parts k (pos (suc n)),
      ap pos_part e,
      ap neg_part e,
      ap pos_part f,
      ap neg_part f,
    ))

module _ (c : Crates) (encoding : IsEncoding c) (verifying : IsVerifying c) (aes : IsAes c)
    (serde : Serde) (printing : IsPrinting serde) where
  -- What a sending session makes of a plaintext.
  pub sent_message :
      (json : Str) (ck receiver sender plaintext : List ℕ) (n : ℕ)
      (s : IsSender c serde json (advance c n ck) receiver)
      → All (λ b. b < 256) plaintext
      → length plaintext ≤ 4294967295
      → Message c s.chain
          (message_key c n ck)
          s.ratchet_key
          sender
          receiver
          plaintext
          s.entry.current_ratchet.previous_counter
  sent_message json ck receiver sender plaintext n s bytes short =
      message c encoding aes s.chain n s.entry.current_ratchet.previous_counter ck s.ratchet_key
        sender receiver plaintext
        (select_sending-IsKept c s.entry s.chain_id s.chain s.sound.kept s.selected).well s.holds
        s.room s.sound.previous_fits s.some_key s.short_key bytes short

  -- A receiving session opens it.
  pub opens_message :
      (json' : Str) (ck sender receiver key plaintext seed : List ℕ) (n previous : ℕ)
      (chain : Chain) (t : IsReceiver c serde json' key ck sender)
      (m : Message c chain (message_key c n ck) key sender receiver plaintext previous)
      → chain.chain_key.counter ≡ t.chain.chain_key.counter +ℤ pos n
      → suc n ≤ 2000
      → (left : SessionEntry) × (decrypt_entry c t.entry m.msg
            (whisper_bytes m.msg)
            (tag_of c encoding serde (message_key c n ck) sender receiver m.msg)
            receiver
            seed
          ≡ (ok plaintext, left))
  unfolding plan_ratchet chain_to_peek apply_plan
  opens_message json' ck sender receiver key plaintext seed n previous chain t m aligned few =
      (let mk = message_key c n ck in
        let ids = chain_key_ids c m.msg.ephemeral_key in
        let found : (find_chain t.entry.chains ids ≡ some t.chain) = rw m.key_shape t.found in
        let (id, for_writing) = find_chain-mut t.entry.chains ids t.chain found in
        let well =
          (AllKept-find_chain_mut ids id t.chain t.entry.chains t.sound.kept for_writing).well in
        let place =
          further t.chain.chain_key.counter chain.chain_key.counter (pos m.msg.counter) n aligned
            m.place in
        let in_range : (pos m.msg.counter ≤ℤ pos 4294967295) =
          omega (arith, m.sendable.counter_fits) in
        let full = filled c (suc n) ck t.chain in
        (
          opened c id full m.msg.counter t.entry,
          decrypt_entry-opened c encoding verifying t.entry m.msg (whisper_bytes m.msg)
              (tag_of c encoding serde mk sender receiver m.msg) receiver seed none id t.chain full
              mk sender plaintext (rw (found, plan_ratchet) refl)
              (rw (found, chain_to_peek, t.receives) refl) for_writing t.receives
              (peek_message_key-message_key c encoding t.chain ck (pos m.msg.counter) n well t.holds
                place few in_range)
              (fill_message_keys-filled c encoding t.chain ck (pos m.msg.counter) (suc n) well
                t.holds place few in_range)
              (get-filled c encoding t.chain ck (pos m.msg.counter) (suc n) n well
                (filled-IsWellFormed c encoding (suc n) ck t.chain well).sorted (omega arith) few
                place)
              t.identity m.sealed,
        ))

  -- With encodings, HMAC, AES and serde_json as documented: let one text hold a session that sends
  -- to the receiver and has no pending pre-key message, and the other a session that receives from
  -- the sender, on a chain that is `n` places behind the sender's, `n` below 2000. Then `encrypt`
  -- succeeds on every plaintext of bytes, with message type 1, and `decrypt_whisper` of its
  -- ciphertext on the other text returns the plaintext, whatever the random bytes.
  pub decrypt_whisper-encrypt :
      (json json' : Str) (ck sender receiver plaintext seed : List ℕ) (n registration_id : ℕ)
      (s : IsSender c serde json (advance c n ck) receiver)
      (t : IsReceiver c serde json' s.ratchet_key ck sender)
      → s.entry.pending_pre_key ≡ none
      → s.chain.chain_key.counter ≡ t.chain.chain_key.counter +ℤ pos n
      → suc n ≤ 2000
      → All (λ b. b < 256) plaintext
      → length plaintext ≤ 4294967295
      → (sent : EncryptResult) × (read : DecryptResult) × (encrypt c serde json plaintext sender
            registration_id
          ≡ ok sent)
        × (sent.message_type ≡ 1)
        × (decrypt_whisper c serde json' sent.ciphertext receiver seed ≡ ok read)
        × (read.plaintext ≡ plaintext)
  unfolding packed
  decrypt_whisper-encrypt json json' ck sender receiver plaintext seed n registration_id s t fresh
        aligned few bytes short =
      (let mk = message_key c n ck in
        let m = sent_message json ck receiver sender plaintext n s bytes short in
        let (left, opens) =
          opens_message json' ck sender receiver s.ratchet_key plaintext seed n _ s.chain t m
            aligned few in
        let (written, printed) =
          printing (put_entry s.id (put_chain s.chain_id m.next s.entry) s.r) in
        let (written', printed') = printing (put_entry t.id left t.r) in
        (
          record {
            session_json = written;
            message_type = 1;
            ciphertext = wire_bytes c mk sender receiver m.msg;
          },
          record { session_json = written'; plaintext = plaintext },
          encrypt-packed c encoding aes serde json written s.r s.id s.chain_id s.entry s.chain mk
                s.ratchet_key sender receiver plaintext registration_id m s.read s.current
                s.identity s.key s.selected printed
              ∙ ap
                  (λ p.
                    packed c p written (wire_bytes c mk sender receiver m.msg) sender
                      registration_id)
                  fresh,
          refl,
          decrypt_whisper-wire_bytes c encoding serde json' written' t.r t.id t.entry left m.msg mk
              sender receiver seed plaintext m.sendable t.read t.current opens printed',
          refl,
        ))
