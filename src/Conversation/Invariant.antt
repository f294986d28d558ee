-- ===== src/Conversation/Invariant.antt =====
-- The invariant of a session entry, kept by everything that is sent and received.
use oktz_signal.Base.{
  ℕ, ◌≡◌, ap, ◌∙◌, List, Option, some, none, arith, inl, inr, Option-cases, Bool-cases,
}
use oktz_signal.Base.{
  ok, >>=-eq-ok, >>-eq-ok, ok_injective, ok_or, bail_if, mac_failed, message_key_not_found,
  Result-cases,
}
use oktz_signal.Base.{take}
use oktz_signal.Base.Int.{pos}
use oktz_signal.BTreeMap.{get, insert, remove}
use oktz_signal.BTreeMap.Keys.{Str, str_ord, int_ord}
use oktz_signal.Session.{Chain, SessionEntry, is_receiving}
use oktz_signal.Crates.{Crates}
use oktz_signal.Proto.Whisper.{WhisperMessage}
use oktz_signal.Util.{unb64}
use oktz_signal.Ratchet.Kdf.{chunk}
use oktz_signal.Ratchet.Cbc.{aes_cbc_decrypt}
use oktz_signal.Ratchet.Chains.{chain_key_ids, find_chain_mut}
use oktz_signal.Ratchet.MessageKeys.{fill_message_keys, peek_message_key}
use oktz_signal.Ratchet.Plan.{RatchetPlan, plan_ratchet}
use oktz_signal.Ratchet.Decrypt.{
  decrypt_entry, authenticate, commit, spend, apply_plan, chain_to_peek,
}
use oktz_signal.X3dh.{initiator_entry, recipient_entry}
use oktz_signal.Conversation.{Step, Reach, IsStart}
use oktz_signal.Conversation.Chains.{IsKept, AllKept-find_chain_mut}
use oktz_signal.Conversation.Operations.{
  IsKept-remove, fill_message_keys-IsKept, next_message_key-IsKept, select_sending-IsKept,
}
use oktz_signal.Conversation.Sound.{
  IsSound, new_chain-IsKept, put_chain-IsSound, plan_ratchet-IsSoundPlan, apply_ratchet-IsSound,
}

module _ (c : Crates) where
  -- The plan that was authenticated is the one that was made.
  authenticate-plan :
      (entry : SessionEntry) (msg : WhisperMessage) (buf mac our seed : List ℕ)
      (plan : Option RatchetPlan) (keys : List (List ℕ))
      → authenticate c entry msg buf mac our seed ≡ ok (plan, keys)
      → plan_ratchet c entry (chain_key_ids c msg.ephemeral_key) msg.previous_counter seed ≡ ok plan
  unfolding authenticate
  authenticate-plan entry msg buf mac our seed plan keys h =
      (let ids = chain_key_ids c msg.ephemeral_key in
        let (plan', e, h1) = >>=-eq-ok (plan_ratchet c entry ids msg.previous_counter seed) _ h in
        let (chain, _, h2) = >>=-eq-ok (chain_to_peek c entry ids plan') _ h1 in
        let (peeked, _, h3) = >>=-eq-ok (peek_message_key c chain (pos msg.counter)) _ h2 in
        let (text, _, h4) = >>=-eq-ok (ok_or message_key_not_found peeked) _ h3 in
        let (key, _, h5) = >>=-eq-ok (unb64 c text) _ h4 in
        let (remote, _, h6) = >>=-eq-ok (unb64 c entry.index_info.remote_identity_key) _ h5 in
        let (_, h7) = >>-eq-ok (bail_if _ mac_failed) _ h6 in
        e ∙ ap ok (ap (λ x. x.0) (ok_injective h7)))

  spend-IsSound :
      (entry : SessionEntry) (id : Str) (chain : Chain) (msg : WhisperMessage)
      (keys : List (List ℕ))
      → IsSound entry
      → IsKept chain
      → IsSound (spend c entry id chain msg keys).1
  unfolding spend
  spend-IsSound entry id chain msg keys s k =
      (let counter = pos msg.counter in
        let next = (fill_message_keys c chain counter).1 in
        let kept : IsKept next = fill_message_keys-IsKept c chain counter k in
        let advanced = put_chain-IsSound id next entry kept s in
        let spent : Chain = record next { message_keys = remove counter next.message_keys } in
        let after = put_chain-IsSound id spent entry (IsKept-remove counter next kept) s in
        elim (Result-cases (fill_message_keys c chain counter).0) [
          | inr (x, e) ↦ rw (e, spend) advanced
          | inl (u, e) ↦ elim (Option-cases (get counter next.message_keys)) [
            | inl g ↦ rw (e, spend, g) advanced
            | inr (key, g) ↦
                elim (Result-cases
                  (aes_cbc_decrypt c (chunk keys 0) (take 16 (chunk keys 2)) msg.ciphertext)) [
                    | inr (x, d) ↦ rw (e, spend, g, d) after
                    | inl (p, d) ↦
                        rw (e, spend, g, d)
                          (record { kept = after.kept; previous_fits = after.previous_fits })
                  ]
          ]
        ])

  commit-IsSound :
      (entry : SessionEntry) (msg : WhisperMessage) (plan : Option RatchetPlan)
      (keys : List (List ℕ))
      → IsSound (apply_plan c entry plan)
      → IsSound (commit c entry msg plan keys).1
  unfolding commit
  commit-IsSound entry msg plan keys s =
      (let stepped = apply_plan c entry plan in
        let ids = chain_key_ids c msg.ephemeral_key in
        elim (Option-cases (find_chain_mut stepped.chains ids)) [
          | inl e ↦ rw (e, commit) s
          | inr ((id, chain), e) ↦ elim (Bool-cases (is_receiving chain)) [
            | inr f ↦ rw (e, commit, f) s
            | inl f ↦
                rw (e, commit, f)
                  (spend-IsSound stepped id chain msg keys s
                    (AllKept-find_chain_mut ids id chain stepped.chains s.kept e))
          ]
        ])

  apply_plan-IsSound :
      (entry : SessionEntry) (plan : Option RatchetPlan) (ids : List Str) (previous : ℕ)
      (seed : List ℕ)
      → IsSound entry
      → plan_ratchet c entry ids previous seed ≡ ok plan
      → IsSound (apply_plan c entry plan)
  unfolding apply_plan
  apply_plan-IsSound entry none ids previous seed s h = s
  apply_plan-IsSound entry (some plan) ids previous seed s h =
      apply_ratchet-IsSound c entry plan s
        (plan_ratchet-IsSoundPlan c entry ids previous seed plan s h)

  decrypt_entry-IsSound :
      (entry : SessionEntry) (msg : WhisperMessage) (buf mac our seed : List ℕ)
      → IsSound entry
      → IsSound (decrypt_entry c entry msg buf mac our seed).1
  unfolding decrypt_entry
  decrypt_entry-IsSound entry msg buf mac our seed s =
      elim (Result-cases (authenticate c entry msg buf mac our seed)) [
        | inr (e, h) ↦ rw (h, decrypt_entry) s
        | inl ((plan, keys), h) ↦
            rw (h, decrypt_entry)
              (commit-IsSound entry msg plan keys (
                apply_plan-IsSound entry plan (chain_key_ids c msg.ephemeral_key)
                  msg.previous_counter seed s
                  (authenticate-plan entry msg buf mac our seed plan keys h)))
      ]

  pub Step-IsSound : {s t : SessionEntry} → Step c s t → IsSound s → IsSound t
  Step-IsSound (Step.send entry id chain next counter key selected stepped) s =
      put_chain-IsSound id next entry
        (next_message_key-IsKept c chain next counter key
          (select_sending-IsKept c entry id chain s.kept selected) stepped)
        s
  Step-IsSound (Step.receive entry msg buf mac our seed) s =
      decrypt_entry-IsSound entry msg buf mac our seed s

  Reaches-IsSound : {s t : SessionEntry} → Reach c s t → IsSound s → IsSound t
  Reaches-IsSound Reach.here s = s
  Reaches-IsSound (Reach.next r step) s = Step-IsSound step (Reaches-IsSound r s)

  pub IsStart-IsSound : {s : SessionEntry} → IsStart c s → IsSound s
  unfolding initiator_entry recipient_entry insert
  IsStart-IsSound (IsStart.initiator params ea pa spk mk now) = record {
    kept = (new_chain-IsKept _ _, tt);
    previous_fits = omega arith;
  }
  IsStart-IsSound (IsStart.recipient sb pb sender ea id mk now) = record {
    kept = tt;
    previous_fits = omega arith;
  }

  -- Whatever is sent and received, in any order and with any random bytes, genuine or forged,
  -- accepted or refused: an entry that is reached from one that a key agreement starts with is
  -- sound. Each of its chains has its retained keys in order, none ahead of where it stands, and
  -- at most 2000 of them, and stands at -1 or later; and the previous counter fits the wire's u32.
  pub Reach-IsSound :
      {start entry : SessionEntry} → IsStart c start → Reach c start entry → IsSound entry
  Reach-IsSound start reached = Reaches-IsSound reached (IsStart-IsSound start)
