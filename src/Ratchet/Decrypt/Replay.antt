-- ===== src/Ratchet/Decrypt/Replay.antt =====
-- ratchet.rs, `decrypt_entry`: a message is decrypted once.
use oktz_signal.Base.{
  ℕ, ◌≡◌, ◌≢◌, refl, sym, ap, subst, ◌∙◌, true, Option, none, some, List, arith, take,
}
use oktz_signal.Base.{Option-cases, Bool-cases, Result-cases, inl, inr}
use oktz_signal.Base.{Result, ok, err, Error, message_key_not_found, no_receiving_chain}
use oktz_signal.Base.Int.{pos, leb_ℤ, ◌≤ℤ◌}
use oktz_signal.BTreeMap.{get, insert, remove}
use oktz_signal.BTreeMap.Laws.{get-remove, same_self}
use oktz_signal.BTreeMap.Keys.{Str, str_ord, int_ord}
use oktz_signal.Session.{Chain, SessionEntry, is_receiving}
use oktz_signal.Crates.{Crates}
use oktz_signal.Proto.Whisper.{WhisperMessage}
use oktz_signal.Ratchet.Kdf.{chunk}
use oktz_signal.Ratchet.Cbc.{aes_cbc_decrypt}
use oktz_signal.Ratchet.Chains.{chain_key_ids, find_chain, find_chain_mut}
use oktz_signal.Ratchet.Chains.Find.{find_chain-insert}
use oktz_signal.Ratchet.MessageKeys.{peek_message_key, fill_message_keys}
use oktz_signal.Ratchet.MessageKeys.Bounds.{IsBounded, fill_message_keys-IsBounded}
use oktz_signal.Ratchet.Plan.{RatchetPlan, plan_ratchet}
use oktz_signal.Ratchet.Encrypt.{put_chain}
use oktz_signal.Ratchet.Decrypt.{
  authenticate, spend, commit, apply_plan, decrypt_entry, chain_to_peek,
}

module _ (c : Crates) where
  -- The chain of a message, with the message's key spent.
  abbrev spent : Chain → ℕ → Chain
  unfolding remove
  spent next counter = record next { message_keys = remove (pos counter) next.message_keys }

  -- What a message that was decrypted has gone through, on the entry with the plan applied.
  record Spent (stepped : SessionEntry) (id : Str) (chain : Chain) (msg : WhisperMessage)
      (left : SessionEntry) : Type 0 where
    pub next : Chain
    pub filled : fill_message_keys c chain (pos msg.counter) ≡ (ok tt, next)
    pub kept : left.chains ≡ insert id (spent next msg.counter) stepped.chains

  refused :
      (r : Result (List ℕ) × SessionEntry) (e : Error) (s left : SessionEntry) (p : List ℕ)
      → r ≡ (err e, s)
      → r ≢ (ok p, left)
  refused r e s left p h k = cc

  spend-Spent :
      (stepped left : SessionEntry) (id : Str) (chain : Chain) (msg : WhisperMessage)
      (keys : List (List ℕ)) (plaintext : List ℕ)
      → spend c stepped id chain msg keys ≡ (ok plaintext, left)
      → Spent stepped id chain msg left
  unfolding spend
  spend-Spent stepped left id chain msg keys plaintext h =
      (let next = (fill_message_keys c chain (pos msg.counter)).1 in
        let r = spend c stepped id chain msg keys in
        elim (Result-cases (fill_message_keys c chain (pos msg.counter)).0) [
          | inr (x, e) ↦
              absurd (refused r x (put_chain id next stepped) left plaintext (rw (e, spend) refl) h)
          | inl (u, e) ↦ elim (Option-cases (get (pos msg.counter) next.message_keys)) [
            | inl g ↦ absurd (
                refused r message_key_not_found (put_chain id next stepped) left plaintext
                  (rw (e, spend, g) refl) h)
            | inr (key, g) ↦
                elim (Result-cases
                  (aes_cbc_decrypt c (chunk keys 0) (take 16 (chunk keys 2)) msg.ciphertext)) [
                    | inr (x, d) ↦ absurd (
                        refused r x (put_chain id (spent next msg.counter) stepped) left plaintext
                          (rw (e, spend, g, d) refl) h)
                    | inl (p, d) ↦
                        (let after : SessionEntry =
                            record (put_chain id (spent next msg.counter) stepped) {
                              pending_pre_key = none;
                            } in
                          let opened : (r ≡ (ok p, after)) = rw (e, spend, g, d) refl in
                          record {
                            next = next;
                            filled = ap (λ o. (o, next)) e;
                            kept = ap (λ x. x.1.chains) (sym h ∙ opened);
                          })
                  ]
          ]
        ])

  commit-Spent :
      (entry left : SessionEntry) (msg : WhisperMessage) (plan : Option RatchetPlan)
      (keys : List (List ℕ)) (plaintext : List ℕ)
      → commit c entry msg plan keys ≡ (ok plaintext, left)
      → (id : Str) × (chain : Chain) × (find_chain_mut
            (apply_plan c entry plan).chains
            (chain_key_ids c msg.ephemeral_key)
          ≡ some (id, chain))
        × (is_receiving chain ≡ true)
        × Spent (apply_plan c entry plan) id chain msg left
  unfolding commit
  commit-Spent entry left msg plan keys plaintext h =
      (let stepped = apply_plan c entry plan in
        let r = commit c entry msg plan keys in
        elim (Option-cases (find_chain_mut stepped.chains (chain_key_ids c msg.ephemeral_key))) [
          | inl e ↦
              absurd (refused r no_receiving_chain stepped left plaintext (rw (e, commit) refl) h)
          | inr ((id, chain), e) ↦ elim (Bool-cases (is_receiving chain)) [
            | inr f ↦
                absurd
                  (refused r no_receiving_chain stepped left plaintext (rw (e, commit, f) refl) h)
            | inl f ↦
                (let opened : (r ≡ spend c stepped id chain msg keys) = rw (e, commit, f) refl in
                  (
                    id,
                    chain,
                    e,
                    f,
                    spend-Spent stepped left id chain msg keys plaintext (sym opened ∙ h),
                  ))
          ]
        ])

  -- The key of a chain's own past that was removed is not found again.
  peek-spent :
      (chain next : Chain) (counter : ℕ)
      → fill_message_keys c chain (pos counter) ≡ (ok tt, next)
      → peek_message_key c (spent next counter) (pos counter) ≡ ok none
  unfolding peek_message_key spent
  peek-spent chain next counter h =
      (let bounded =
          subst (IsBounded chain (pos counter)) h
            (fill_message_keys-IsBounded c chain (pos counter)) in
        let reached : (pos counter ≤ℤ next.chain_key.counter) = bounded.reached refl in
        let behind : (leb_ℤ (pos counter) next.chain_key.counter ≡ true) =
          ground (arith, reached) in
        let gone : (get (pos counter) (remove (pos counter) next.message_keys) ≡ none) =
          get-remove (pos counter) (pos counter) next.message_keys
          ∙ rw (same_self (pos counter)) refl in
        rw (behind, peek_message_key, gone) refl)

  still_receiving :
      (chain next : Chain) (counter : ℕ)
      → fill_message_keys c chain (pos counter) ≡ (ok tt, next)
      → is_receiving chain ≡ true
      → is_receiving (spent next counter) ≡ true
  unfolding spent
  still_receiving chain next counter h f =
      (let bounded =
          subst (IsBounded chain (pos counter)) h
            (fill_message_keys-IsBounded c chain (pos counter)) in
        let same_type : (next.chain_type ≡ chain.chain_type) = bounded.same_type in rw same_type f)

  authenticate-Spent :
      (stepped left : SessionEntry) (id : Str) (chain : Chain) (msg : WhisperMessage)
      (buf mac our seed : List ℕ)
      → find_chain_mut stepped.chains (chain_key_ids c msg.ephemeral_key) ≡ some (id, chain)
      → is_receiving chain ≡ true
      → Spent stepped id chain msg left
      → authenticate c left msg buf mac our seed ≡ err message_key_not_found
  unfolding authenticate plan_ratchet chain_to_peek
  authenticate-Spent stepped left id chain msg buf mac our seed e f s =
      (let last : Chain = spent s.next msg.counter in
        let found : (find_chain left.chains (chain_key_ids c msg.ephemeral_key) ≡ some last) =
          rw s.kept
            (find_chain-insert stepped.chains (chain_key_ids c msg.ephemeral_key) id chain last
              e).1 in
        let receives = still_receiving chain s.next msg.counter s.filled f in
        let ids = chain_key_ids c msg.ephemeral_key in
        let no_plan : (plan_ratchet c left ids msg.previous_counter seed ≡ ok none) =
          rw (found, plan_ratchet) refl in
        let to_peek : (chain_to_peek c left ids none ≡ ok last) =
          rw (found, chain_to_peek, receives) refl in
        rw (no_plan, authenticate, to_peek, peek-spent chain s.next msg.counter s.filled) refl)

  -- A message is decrypted at most once. Whatever the entry and the first call's random bytes:
  -- when `decrypt_entry` has returned a plaintext, a second call with the same message on the
  -- entry it left fails with "message key not found" and leaves that entry as it is, whatever
  -- the buffer, the tag, our identity and the random bytes are then.
  pub decrypt_entry_again :
      (entry left : SessionEntry) (msg : WhisperMessage) (buf mac our seed plaintext : List ℕ)
      → decrypt_entry c entry msg buf mac our seed ≡ (ok plaintext, left)
      → (buf' mac' our' seed' : List ℕ)
      → decrypt_entry c left msg buf' mac' our' seed' ≡ (err message_key_not_found, left)
  unfolding decrypt_entry
  decrypt_entry_again entry left msg buf mac our seed plaintext h buf' mac' our' seed' =
      elim (Result-cases (authenticate c entry msg buf mac our seed)) [
        | inr (x, e) ↦ absurd (
            refused (decrypt_entry c entry msg buf mac our seed) x entry left plaintext
              (rw (e, decrypt_entry) refl) h)
        | inl ((plan, keys), e) ↦
            (let opened : (decrypt_entry c entry msg buf mac our seed
                  ≡ commit c entry msg plan keys) =
                rw (e, decrypt_entry) refl in
              let (id, chain, f, r, s) =
                commit-Spent entry left msg plan keys plaintext (sym opened ∙ h) in
              let again =
                authenticate-Spent (apply_plan c entry plan) left id chain msg buf' mac' our' seed'
                  f r s in
              rw (again, decrypt_entry) refl)
      ]
