-- ===== src/Conversation/Sound.antt =====
-- A session entry that is sound, and the ratchet step, which keeps it so.
use oktz_signal.Base.{
  ℕ, ◌≤◌, ◌≡◌, subst, ◌∙◌, List, some, none, arith, inl, inr, Option-cases, Bool-cases,
}
use oktz_signal.Base.{ok, >>=-eq-ok, ok_injective, ◌>>=◌}
use oktz_signal.BTreeMap.{insert}
use oktz_signal.BTreeMap.Keys.{Str, str_ord, int_ord}
use oktz_signal.Session.{Chain, SessionEntry, is_sending}
use oktz_signal.Crates.{Crates}
use oktz_signal.Util.{unb64}
use oktz_signal.Curve.{scalar_multiply, generate_keypair}
use oktz_signal.Ratchet.Chains.{chain_key_ids_b64, find_chain, as_x25519}
use oktz_signal.Ratchet.Plan.{
  RatchetPlan, new_chain, plan_step, plan_ratchet, apply_ratchet, ended_counter, retired_ids,
  first_id, remove_first, remove_all,
}
use oktz_signal.Ratchet.Encrypt.{put_chain}
use oktz_signal.Conversation.Chains.{IsKept, AllKept, AllKept-remove_all, AllKept-remove_first}
use oktz_signal.BTreeMap.Values.{AllValues-insert}

-- Every chain is well-formed and retains at most 2000 keys, and the counter of the last sending
-- chain fits the wire.
pub record IsSound (entry : SessionEntry) : Type 0 where
  pub kept : AllKept entry.chains
  pub previous_fits : entry.current_ratchet.previous_counter ≤ 4294967295

pub new_chain-IsKept : (key : Str) (chain_type : ℕ) → IsKept (new_chain key chain_type)
new_chain-IsKept key chain_type = record {
  well = record { sorted = tt; behind = tt; started = omega arith };
  capped = omega arith;
}

-- The parts of a plan that the entry takes over.
pub record IsSoundPlan (plan : RatchetPlan) : Type 0 where
  pub receiving_kept : IsKept plan.receiving_chain
  pub sending_kept : IsKept plan.sending_chain
  pub previous_fits : plan.previous_counter ≤ 4294967295

pub put_chain-IsSound :
    (id : Str) (chain : Chain) (entry : SessionEntry)
    → IsKept chain
    → IsSound entry
    → IsSound (put_chain id chain entry)
unfolding insert
put_chain-IsSound id chain entry k s = record {
  kept = AllValues-insert IsKept id chain entry.chains k s.kept;
  previous_fits = s.previous_fits;
}

module _ (c : Crates) where
  ended_counter-fits : (entry : SessionEntry) → IsSound entry → ended_counter c entry ≤ 4294967295
  unfolding ended_counter
  ended_counter-fits entry s =
      elim (Option-cases (
        find_chain entry.chains
          (chain_key_ids_b64 c entry.current_ratchet.ephemeral_key_pair.pub_key))) [
            | inl e ↦ rw (e, ended_counter) s.previous_fits
            | inr (chain, e) ↦ elim (Bool-cases (is_sending chain)) [
              | inl f ↦ rw (e, ended_counter, f) (omega arith)
              | inr f ↦ rw (e, ended_counter, f) s.previous_fits
            ]
          ]

  plan_step-IsSoundPlan :
      (entry : SessionEntry) (ids : List Str) (previous : ℕ) (seed : List ℕ) (plan : RatchetPlan)
      → IsSound entry
      → plan_step c entry ids previous seed ≡ ok plan
      → IsSoundPlan plan
  unfolding plan_step
  plan_step-IsSoundPlan entry ids previous seed plan s h =
      (let (remote, _, h1) = >>=-eq-ok (unb64 c (first_id ids)) _ h in
        let (retired, _, h2) = >>=-eq-ok (retired_ids c entry previous) _ h1 in
        let (priv, _, h3) =
          >>=-eq-ok (unb64 c entry.current_ratchet.ephemeral_key_pair.priv_key) _ h2 in
        let (shared, _, h4) = >>=-eq-ok (scalar_multiply c priv (as_x25519 remote)) _ h3 in
        let (root, _, h5) = >>=-eq-ok (unb64 c entry.current_ratchet.root_key) _ h4 in
        let (pair, _, h6) = >>=-eq-ok (generate_keypair c seed) _ h5 in
        let (again, _, h7) = >>=-eq-ok (scalar_multiply c pair.1 (as_x25519 remote)) _ h6 in
        subst IsSoundPlan (ok_injective h7) (record {
          receiving_kept = new_chain-IsKept _ _;
          sending_kept = new_chain-IsKept _ _;
          previous_fits = ended_counter-fits entry s;
        }))

  pub plan_ratchet-IsSoundPlan :
      (entry : SessionEntry) (ids : List Str) (previous : ℕ) (seed : List ℕ) (plan : RatchetPlan)
      → IsSound entry
      → plan_ratchet c entry ids previous seed ≡ ok (some plan)
      → IsSoundPlan plan
  unfolding plan_ratchet
  plan_ratchet-IsSoundPlan entry ids previous seed plan s h =
      elim (Option-cases (find_chain entry.chains ids)) [
        | inr (chain, e) ↦ absurd (no_step (rw (e, plan_ratchet) at h))
        | inl e ↦
            (let stepped : ((plan_step c entry ids previous seed >>= λ p. ok (some p))
                  ≡ ok (some plan)) =
                rw (e, plan_ratchet) at h in
              let (p, planned, same) =
                >>=-eq-ok (plan_step c entry ids previous seed) (λ p. ok (some p)) stepped in
              plan_step-IsSoundPlan entry ids previous seed plan s (planned ∙ inner same))
      ]
    where
      no_step : ok none ≡ ok (some plan) → ⊥
      no_step q = cc

      inner : {p : RatchetPlan} → ok (some p) ≡ ok (some plan) → ok p ≡ ok plan
      inner q = cc

  pub apply_ratchet-IsSound :
      (entry : SessionEntry) (plan : RatchetPlan)
      → IsSound entry
      → IsSoundPlan plan
      → IsSound (apply_ratchet c entry plan)
  unfolding apply_ratchet
  apply_ratchet-IsSound entry plan s p =
      (let ids = chain_key_ids_b64 c entry.current_ratchet.ephemeral_key_pair.pub_key in
        let received =
          insert plan.receiving_chain_id plan.receiving_chain
            (remove_all plan.retired_recv_ids entry.chains) in
        let kept : AllKept received =
          AllValues-insert IsKept plan.receiving_chain_id plan.receiving_chain
            (remove_all plan.retired_recv_ids entry.chains) p.receiving_kept
            (AllKept-remove_all plan.retired_recv_ids entry.chains s.kept) in
        record {
          kept =
              AllValues-insert IsKept plan.ephemeral_key_pair.pub_key plan.sending_chain
                (remove_first ids received).1 p.sending_kept
                (AllKept-remove_first ids received kept);
          previous_fits = elim (Option-cases (remove_first ids received).0) [
            | inl e ↦ rw (e, apply_ratchet) s.previous_fits
            | inr (old, e) ↦ elim (Bool-cases (is_sending old)) [
              | inl f ↦ rw (e, apply_ratchet, f) p.previous_fits
              | inr f ↦ rw (e, apply_ratchet, f) s.previous_fits
            ]
          ];
        })
