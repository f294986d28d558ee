-- ===== src/Ratchet/Plan/Apply.antt =====
-- ratchet.rs, `apply_ratchet`: which chains the step leaves in the map.
use oktz_signal.Base.{
  ◌≡◌, ◌≢◌, refl, ap, ◌∙◌, List, [], ◌∷◌, false, none, some, arith, inl, inr, ◌⊎◌,
}
use oktz_signal.Base.{if◌then◌else◌, Bool-cases, Option-cases}
use oktz_signal.BTreeMap.{BTreeMap, get, insert, remove, same}
use oktz_signal.BTreeMap.Laws.{get-insert, get-remove, same_iff, same_self}
use oktz_signal.BTreeMap.Keys.{Str, str_ord}
use oktz_signal.Session.{Chain, SessionEntry}
use oktz_signal.Crates.{Crates}
use oktz_signal.Ratchet.Chains.{chain_key_ids_b64}
use oktz_signal.Ratchet.Plan.{RatchetPlan, remove_all, remove_first, apply_ratchet}

abbrev pub IsAmong : Str → List Str → Type 0
IsAmong j [] = ⊥
IsAmong j (id ∷ ids) = (j ≡ id) ⊎ IsAmong j ids

stays_gone : (j id : Str) (m : BTreeMap Str Chain) → get j m ≡ none → get j (remove id m) ≡ none
stays_gone j id m h = ground (arith, get-remove id j m, h)

goes : (id : Str) (m : BTreeMap Str Chain) → get id (remove id m) ≡ none
goes id m = ground (arith, get-remove id id m, same_self id)

remove_all_gone :
    (ids : List Str) (j : Str) (m : BTreeMap Str Chain)
    → get j m ≡ none
    → get j (remove_all ids m) ≡ none
unfolding remove_all
remove_all_gone [] j m h = h
remove_all_gone (id ∷ ids) j m h = remove_all_gone ids j (remove id m) (stays_gone j id m h)

remove_all-removes :
    (ids : List Str) (j : Str) (m : BTreeMap Str Chain)
    → IsAmong j ids
    → get j (remove_all ids m) ≡ none
unfolding remove_all
remove_all-removes [] j m h = elim h [ ]
remove_all-removes (id ∷ ids) j m (inl e) = remove_all_gone ids j (remove id m) (rw e (goes id m))
remove_all-removes (id ∷ ids) j m (inr h) = remove_all-removes ids j (remove id m) h

remove_first_gone :
    (ids : List Str) (j : Str) (m : BTreeMap Str Chain)
    → get j m ≡ none
    → get j (remove_first ids m).1 ≡ none
unfolding remove_first
remove_first_gone [] j m h = h
remove_first_gone (id ∷ ids) j m h = elim (Option-cases (get id m)) [
  | inl e ↦ rw (e, remove_first) (remove_first_gone ids j m h)
  | inr (chain, e) ↦ rw (e, remove_first) (stays_gone j id m h)
]

other_key : (j k : Str) → j ≢ k → same j k ≡ false
other_key j k n = elim (Bool-cases (same j k)) [
  | inl e ↦ absurd (n ((same_iff j k).0 e))
  | inr e ↦ e
]

not_inserted :
    (k j : Str) (v : Chain) (m : BTreeMap Str Chain)
    → j ≢ k
    → get j m ≡ none
    → get j (insert k v m) ≡ none
not_inserted k j v m n h = ground (arith, get-insert k j v m, other_key j k n, h)

module _ (c : Crates) where
  -- Whatever the entry and the plan, the step stores the plan's sending chain under the new
  -- ratchet key, takes the plan's root key, key pair and remote key, and leaves no chain under any
  -- id of the chain that it retires, unless the id is that of one of the two new chains.
  pub apply_ratchet-retires :
      (entry : SessionEntry) (plan : RatchetPlan)
      → (get plan.ephemeral_key_pair.pub_key (apply_ratchet c entry plan).chains
          ≡ some plan.sending_chain)
        × ((apply_ratchet c entry plan).current_ratchet.root_key ≡ plan.root_key)
        × ((apply_ratchet c entry plan).current_ratchet.ephemeral_key_pair
            ≡ plan.ephemeral_key_pair)
        × ((apply_ratchet c entry plan).current_ratchet.last_remote_ephemeral_key
            ≡ plan.last_remote_ephemeral_key)
        × ((id : Str)
            → IsAmong id plan.retired_recv_ids
            → id ≢ plan.receiving_chain_id
            → id ≢ plan.ephemeral_key_pair.pub_key
            → get id (apply_ratchet c entry plan).chains ≡ none)
  unfolding apply_ratchet
  apply_ratchet-retires entry plan =
      (let key = plan.ephemeral_key_pair.pub_key in
        let kept = remove_all plan.retired_recv_ids entry.chains in
        let received = insert plan.receiving_chain_id plan.receiving_chain kept in
        let old_ids = chain_key_ids_b64 c entry.current_ratchet.ephemeral_key_pair.pub_key in
        let left = (remove_first old_ids received).1 in
        (
          get-insert key key plan.sending_chain left
              ∙ ap (λ b. if b then some plan.sending_chain else get key left) (same_self key),
          refl,
          refl,
          refl,
          λ id retired n m. not_inserted key id plan.sending_chain left m (
              remove_first_gone old_ids id received (
                not_inserted plan.receiving_chain_id id plan.receiving_chain kept n
                  (remove_all-removes plan.retired_recv_ids id entry.chains retired))),
        ))
