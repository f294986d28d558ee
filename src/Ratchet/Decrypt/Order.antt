-- ===== src/Ratchet/Decrypt/Order.antt =====
-- ratchet.rs, `decrypt_entry`: messages of one chain may arrive in either order.
use oktz_signal.Base.{ℕ, suc, ◌≤◌, ◌<◌, ◌≡◌, refl, ap, ◌∙◌, List, some, none, true, arith, false}
use oktz_signal.Base.{ok}
use oktz_signal.Base.Int.{pos, ◌+ℤ◌, ◌≤ℤ◌, ◌<ℤ◌, ℤ, leb_ℤ, +ℤ_parts, pos_part, neg_part}
use oktz_signal.BTreeMap.{get, remove, same}
use oktz_signal.BTreeMap.Laws.{get-remove}
use oktz_signal.BTreeMap.Keys.{int_ord, str_ord}
use oktz_signal.Session.{Chain, SessionEntry, is_receiving}
use oktz_signal.Crates.{Crates, IsEncoding}
use oktz_signal.Proto.Whisper.{WhisperMessage}
use oktz_signal.Ratchet.Chains.{chain_key_ids, find_chain}
use oktz_signal.Ratchet.Chains.Find.{find_chain-mut, find_chain-insert}
use oktz_signal.Ratchet.MessageKeys.{fill_message_keys, peek_message_key}
use oktz_signal.Ratchet.MessageKeys.Schedule.{IsWellFormed, HasKey, filled, message_key}
use oktz_signal.Ratchet.MessageKeys.Agreement.{
  fill_message_keys-filled, peek_message_key-message_key,
}
use oktz_signal.Ratchet.MessageKeys.Filled.{get-filled, filled-IsWellFormed}
use oktz_signal.Ratchet.MessageKeys.Guards.{fill_levels_stay}
use oktz_signal.Ratchet.Plan.{plan_ratchet}
use oktz_signal.Ratchet.Decrypt.{apply_plan, decrypt_entry, chain_to_peek}
use oktz_signal.Ratchet.Decrypt.Opened.{IsVerifying, IsSealed, opened, decrypt_entry-opened}

is_behind : (a b : ℤ) → a ≤ℤ b → leb_ℤ a b ≡ true
is_behind a b h = ground (arith, h)

not_same : (a b : ℤ) → a <ℤ b → same a b ≡ false
not_same a b h = ground (arith, h)

module _ (c : Crates) (encoding : IsEncoding c) (verifying : IsVerifying c) where
  -- A chain at or behind the counter is left as it is.
  fill_message_keys_stay :
      (chain : Chain) (counter : ℤ)
      → leb_ℤ counter chain.chain_key.counter ≡ true
      → fill_message_keys c chain counter ≡ (ok tt, chain)
  unfolding fill_message_keys
  fill_message_keys_stay chain counter h = fill_levels_stay c encoding _ chain counter h

  peek_message_key_stay :
      (chain : Chain) (counter : ℤ)
      → leb_ℤ counter chain.chain_key.counter ≡ true
      → peek_message_key c chain counter ≡ ok (get counter chain.message_keys)
  unfolding peek_message_key
  peek_message_key_stay chain counter h = rw (h, peek_message_key) refl

  -- With encodings, HMAC and AES as documented: let the entry find, for the ephemeral key that two
  -- messages share, a well-formed receiving chain whose key decodes to `ck`, and let the messages
  -- be sealed under the keys of two places of the chain, 1 to 2000 ahead of it. When the one that
  -- was sent later arrives first, `decrypt_entry` returns its plaintext; and on the entry that
  -- this leaves it returns the plaintext of the other.
  pub decrypt_entry_swapped :
      (entry : SessionEntry) (early late : WhisperMessage)
      (buf mac buf' mac' our seed seed' : List ℕ) (chain : Chain)
      (ck remote plaintext plaintext' : List ℕ) (i j : ℕ)
      → early.ephemeral_key ≡ late.ephemeral_key
      → find_chain entry.chains (chain_key_ids c late.ephemeral_key) ≡ some chain
      → is_receiving chain ≡ true
      → IsWellFormed chain
      → HasKey c chain ck
      → pos early.counter ≡ chain.chain_key.counter +ℤ pos (suc i)
      → pos late.counter ≡ chain.chain_key.counter +ℤ pos (suc j)
      → i < j
      → suc j ≤ 2000
      → late.counter ≤ 4294967295
      → c.decode entry.index_info.remote_identity_key ≡ some remote
      → IsSealed c (message_key c i ck) remote our early buf mac plaintext
      → IsSealed c (message_key c j ck) remote our late buf' mac' plaintext'
      → (left : SessionEntry) × (last : SessionEntry) × (decrypt_entry c entry late buf' mac' our
            seed'
          ≡ (ok plaintext', left))
        × (decrypt_entry c left early buf mac our seed ≡ (ok plaintext, last))
  unfolding plan_ratchet chain_to_peek apply_plan opened filled
  decrypt_entry_swapped entry early late buf mac buf' mac' our seed seed' chain ck remote plaintext
        plaintext' i j same_key found receives well key place place' order few small identity sealed
        sealed' =
      (let ids = chain_key_ids c late.ephemeral_key in
        let in_range : (pos late.counter ≤ℤ pos 4294967295) = omega (arith, small) in
        let full = filled c (suc j) ck chain in
        let full_well = filled-IsWellFormed c encoding (suc j) ck chain well in
        let (id, for_writing) = find_chain-mut entry.chains ids chain found in
        let left = opened c id full late.counter entry in
        let first =
          decrypt_entry-opened c encoding verifying entry late buf' mac' our seed' none id chain
            full (message_key c j ck) remote plaintext' (rw (found, plan_ratchet) refl)
            (rw (found, chain_to_peek, receives) refl) for_writing receives
            (peek_message_key-message_key c encoding chain ck (pos late.counter) j well key place'
              few in_range)
            (fill_message_keys-filled c encoding chain ck (pos late.counter) (suc j) well key place'
              few in_range)
            (get-filled c encoding chain ck (pos late.counter) (suc j) j well full_well.sorted
              (omega arith) few place')
            identity sealed' in
        let after : Chain = record full {
          message_keys = remove (pos late.counter) full.message_keys;
        } in
        let found' : (find_chain left.chains (chain_key_ids c early.ephemeral_key) ≡ some after) =
          rw same_key (find_chain-insert entry.chains ids id chain after for_writing).1 in
        let behind : (leb_ℤ (pos early.counter) after.chain_key.counter ≡ true) =
          is_behind (pos early.counter) after.chain_key.counter (
            omega (
              arith,
              +ℤ_parts chain.chain_key.counter (pos (suc i)),
              +ℤ_parts chain.chain_key.counter (pos (suc j)),
              ap pos_part place,
              ap neg_part place,
            )) in
        let differs : (same (pos early.counter) (pos late.counter) ≡ false) =
          not_same (pos early.counter) (pos late.counter) (
            omega (
              arith,
              +ℤ_parts chain.chain_key.counter (pos (suc i)),
              +ℤ_parts chain.chain_key.counter (pos (suc j)),
              ap pos_part place,
              ap neg_part place,
              ap pos_part place',
              ap neg_part place',
            )) in
        let got : (get (pos early.counter) full.message_keys
            ≡ some (c.encode (message_key c i ck))) =
          get-filled c encoding chain ck (pos early.counter) (suc j) i well full_well.sorted
            (omega arith) few place in
        let kept : (get (pos early.counter) after.message_keys
            ≡ some (c.encode (message_key c i ck))) =
          get-remove (pos late.counter) (pos early.counter) full.message_keys ∙ rw differs got in
        let (id', for_writing') =
          find_chain-mut left.chains (chain_key_ids c early.ephemeral_key) after found' in
        (
          left,
          opened c id' after early.counter left,
          first,
          decrypt_entry-opened c encoding verifying left early buf mac our seed none id' after after
              (message_key c i ck) remote plaintext (rw (found', plan_ratchet) refl)
              (rw (found', chain_to_peek, receives) refl) for_writing' receives
              (peek_message_key_stay after (pos early.counter) behind ∙ ap ok kept)
              (fill_message_keys_stay after (pos early.counter) behind) kept identity sealed,
        ))
