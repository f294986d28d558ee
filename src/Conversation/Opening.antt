-- ===== src/Conversation/Opening.antt =====
-- ratchet.rs and x3dh.rs: the recipient's entry opens the first message.
use oktz_signal.Base.{ℕ, ◌≡◌, ◌≢◌, refl, ap, sym, subst, ◌∙◌, List, ◌∷◌, ◌++◌, some, arith}
use oktz_signal.Base.{length, take, ok, replicate}
use oktz_signal.Base.Int.{ℤ, pos, negsuc, ◌+ℤ◌, ◌≤ℤ◌}
use oktz_signal.BTreeMap.Keys.{Str, str_ord, int_ord}
use oktz_signal.Session.{Chain, SessionEntry, receiving}
use oktz_signal.Crates.{Crates, IsEncoding}
use oktz_signal.Curve.{scalar_multiply, generate_keypair}
use oktz_signal.Ratchet.Kdf.{derive_secrets_n, chunk, whisper_ratchet, whisper_text}
use oktz_signal.Ratchet.Chains.{with_prefix, chain_key_ids, chain_key_ids_b64, find_chain_mut}
use oktz_signal.Ratchet.MessageKeys.Schedule.{HasKey, filled, message_key}
use oktz_signal.Ratchet.MessageKeys.Agreement.{
  fill_message_keys-filled, peek_message_key-message_key,
}
use oktz_signal.Ratchet.MessageKeys.Filled.{get-filled, filled-IsWellFormed}
use oktz_signal.Ratchet.Plan.{RatchetPlan, ended_counter, plan_ratchet}
use oktz_signal.Ratchet.Encrypt.{message_keys_of, version_byte}
use oktz_signal.Ratchet.Decrypt.{apply_plan, chain_to_peek, decrypt_entry}
use oktz_signal.Ratchet.Decrypt.Opened.{IsVerifying, opened, decrypt_entry-opened}
use oktz_signal.X3dh.{recipient_entry, derive_secrets}
use oktz_signal.X3dh.Agreement.{IsDiffieHellman, wire}
use oktz_signal.X3dh.Built.{generate_keypair-keys}
use oktz_signal.X3dh.FirstStep.{two_of_three}
use oktz_signal.Proto.Whisper.RoundTrip.{whisper_bytes}
use oktz_signal.Conversation.Sound.{new_chain-IsKept}
use oktz_signal.Conversation.Sending.{Message}
use oktz_signal.Conversation.First.{
  plan_from, plan_ratchet-recipient_entry, find_chain_mut-apply_ratchet, with_prefix-short,
}
use oktz_signal.Conversation.Handshake.{
  root_of, chain_key_of, chain_key-length, text_full, new_chain-HasKey,
}

public_length :
    (c : Crates) (dh : IsDiffieHellman c) (seed new_pub new_priv : List ℕ)
    → generate_keypair c seed ≡ ok (new_pub, new_priv)
    → (length new_pub ≡ 32)
public_length c dh seed new_pub new_priv fresh =
    (let (whole, pair) = generate_keypair-keys c seed (new_pub, new_priv) fresh in
      ap (λ p. length p.0) pair ∙ dh.length-public seed)

module _ (c : Crates) (encoding : IsEncoding c) (dh : IsDiffieHellman c)
    (sb ea root agreed new_pub new_priv agreed_new seed : List ℕ) where
  -- The recipient's entry as it is built.
  abbrev pub first_entry : List ℕ → List ℕ → ℕ → ℤ → SessionEntry
  first_entry secret sender registration_id now =
      recipient_entry c sb (c.mul_base_clamped sb) sender (c.mul_base_clamped ea) registration_id
        (derive_secrets c secret (replicate 32 0) whisper_text) now

  -- The step that the first message brings about.
  abbrev pub first_plan : SessionEntry → RatchetPlan
  first_plan entry =
      plan_from c encoding dh sb ea root agreed new_pub new_priv agreed_new seed
        (chain_key_ids_b64 c (c.encode (c.mul_base_clamped ea))) (ended_counter c entry)

  -- The entry behind that step, with the message's chain filled and its key spent.
  abbrev pub first_left : SessionEntry → Chain → ℕ → SessionEntry
  first_left entry full counter =
      opened c (c.encode (wire c dh ea)) full counter (apply_plan c entry (some (first_plan entry)))

module _ (c : Crates) (encoding : IsEncoding c) (dh : IsDiffieHellman c) (verifying : IsVerifying c)
    (sb ea root agreed new_pub new_priv agreed_new seed : List ℕ)
    (agrees : scalar_multiply c sb (c.mul_base_clamped ea) ≡ ok agreed)
    (fresh : generate_keypair c seed ≡ ok (new_pub, new_priv))
    (agrees_new : scalar_multiply c new_priv (c.mul_base_clamped ea) ≡ ok agreed_new)
    (new_key : new_pub ≢ c.mul_base_clamped ea) where
  abbrev plan : List Str → ℕ → RatchetPlan
  plan retired ended =
      plan_from c encoding dh sb ea root agreed new_pub new_priv agreed_new seed retired ended

  receiving_chain-HasKey :
      (retired : List Str) (ended : ℕ)
      → HasKey c (plan retired ended).receiving_chain (chain_key_of c agreed root)
  unfolding plan_from
  receiving_chain-HasKey retired ended =
      rw (two_of_three c encoding dh agreed root whisper_ratchet) (
        new_chain-HasKey c encoding (chain_key_of c agreed root) receiving
          (chain_key-length c encoding agreed root))

  -- An entry that steps to the chain of a first message opens it.
  pub opens_stepped :
      (entry : SessionEntry) (own eph sender receiver plaintext : List ℕ) (previous ended : ℕ)
      (retired : List Str) (chain : Chain)
      (m : Message c chain
        (message_key c 0 (chain_key_of c agreed root))
        eph
        sender
        receiver
        plaintext
        previous)
      → with_prefix eph ≡ wire c dh ea
      → chain.chain_key.counter ≡ negsuc 0
      → plan_ratchet c entry (chain_key_ids c (wire c dh ea)) m.msg.previous_counter seed
        ≡ ok (some (plan retired ended))
      → entry.current_ratchet.ephemeral_key_pair.pub_key ≡ c.encode own
      → length own ≡ 32
      → c.decode entry.index_info.remote_identity_key ≡ some sender
      → (full : Chain) × (decrypt_entry c entry m.msg
            (whisper_bytes m.msg)
            (take 8 (
              c.hmac
                (chunk (message_keys_of c (message_key c 0 (chain_key_of c agreed root))) 1)
                (sender ++ receiver ++ version_byte ∷ whisper_bytes m.msg)))
            receiver
            seed
          ≡ (
            ok plaintext,
            opened c
                (c.encode (wire c dh ea))
                full
                m.msg.counter
                (apply_plan c entry (some (plan retired ended))),
          ))
  unfolding chain_to_peek apply_plan plan_from
  opens_stepped entry own eph sender receiver plaintext previous ended retired chain m shape start
        planned own_key own_whole identity =
      (let ck = chain_key_of c agreed root in
        let p = plan retired ended in
        let counter = pos m.msg.counter in
        let same_ids = ap (chain_key_ids c) (m.key_shape ∙ shape) in
        let fresh_chain = p.receiving_chain in
        let well =
          (new_chain-IsKept (c.encode (chunk (derive_secrets_n c agreed root whisper_ratchet 2) 1))
            receiving).well in
        let holds = receiving_chain-HasKey retired ended in
        let place : (counter ≡ fresh_chain.chain_key.counter +ℤ pos 1) =
          m.place ∙ ap (λ k. k +ℤ pos 1) start in
        let in_range : (counter ≤ℤ pos 4294967295) = omega (arith, m.sendable.counter_fits) in
        let full = filled c 1 ck fresh_chain in
        let for_writing =
          subst
            (λ ids.
              find_chain_mut (apply_plan c entry (some p)).chains ids
              ≡ some (c.encode (wire c dh ea), fresh_chain))
            (sym same_ids)
            (find_chain_mut-apply_ratchet c encoding dh sb ea root agreed new_pub new_priv
              agreed_new seed entry own retired ended own_key own_whole new_key
              (public_length c dh seed new_pub new_priv fresh)) in
        (
          full,
          decrypt_entry-opened c encoding verifying entry m.msg (whisper_bytes m.msg) _ receiver
              seed (some p) (c.encode (wire c dh ea)) fresh_chain full (message_key c 0 ck) sender
              plaintext
              (subst (λ ids. plan_ratchet c entry ids m.msg.previous_counter seed ≡ ok (some p))
                (sym same_ids) planned)
              refl for_writing refl
              (peek_message_key-message_key c encoding fresh_chain ck counter 0 well holds place
                (omega arith) in_range)
              (fill_message_keys-filled c encoding fresh_chain ck counter 1 well holds place
                (omega arith) in_range)
              (get-filled c encoding fresh_chain ck counter 1 0 well
                (filled-IsWellFormed c encoding 1 ck fresh_chain well).sorted (omega arith)
                (omega arith) place)
              identity m.sealed,
        ))

  -- The recipient's entry, which has no chain yet, opens the first message of the sending chain.
  pub opens_first :
      (secret sender receiver plaintext : List ℕ) (registration_id previous : ℕ) (now : ℤ)
      (chain : Chain)
      (m : Message c chain
        (message_key c 0 (chain_key_of c agreed root))
        (c.mul_base_clamped ea)
        sender
        receiver
        plaintext
        previous)
      → chain.chain_key.counter ≡ negsuc 0
      → root_of c secret ≡ root
      → (full : Chain) × (decrypt_entry c
            (first_entry c encoding dh sb ea root agreed new_pub new_priv agreed_new seed secret
              sender registration_id now)
            m.msg
            (whisper_bytes m.msg)
            (take 8 (
              c.hmac
                (chunk (message_keys_of c (message_key c 0 (chain_key_of c agreed root))) 1)
                (sender ++ receiver ++ version_byte ∷ whisper_bytes m.msg)))
            receiver
            seed
          ≡ (
            ok plaintext,
            first_left c encoding dh sb ea root agreed new_pub new_priv agreed_new seed
                (first_entry c encoding dh sb ea root agreed new_pub new_priv agreed_new seed secret
                  sender registration_id now)
                full
                m.msg.counter,
          ))
  unfolding recipient_entry
  opens_first secret sender receiver plaintext registration_id previous now chain m start at_root =
      (let pe = c.mul_base_clamped ea in
        let three = derive_secrets c secret (replicate 32 0) whisper_text in
        let entry =
          recipient_entry c sb (c.mul_base_clamped sb) sender pe registration_id three now in
        opens_stepped entry (c.mul_base_clamped sb) pe sender receiver plaintext previous
          (ended_counter c entry) (chain_key_ids_b64 c (c.encode pe)) chain m
          (with_prefix-short pe (dh.length-public ea)) start
          (plan_ratchet-recipient_entry c encoding dh sb ea root agreed new_pub new_priv agreed_new
            seed agrees fresh agrees_new sender registration_id m.msg.previous_counter now three
            at_root (text_full c encoding pe (dh.length-public ea)))
          refl (dh.length-public sb) (encoding.decode-encode sender))
