-- ===== src/Conversation/Chains.antt =====
-- Chains as the program keeps them, and the maps of such chains under each update.
use oktz_signal.Base.{◌≤◌, ◌≡◌, List, [], ◌∷◌, some, inl, inr, Option-cases}
use oktz_signal.Base.{length, subst}
use oktz_signal.BTreeMap.{BTreeMap, get, contains_key, remove}
use oktz_signal.BTreeMap.Values.{AllValues, AllValues-get, AllValues-remove}
use oktz_signal.BTreeMap.Keys.{Str, str_ord}
use oktz_signal.Session.{Chain}
use oktz_signal.Ratchet.MessageKeys.Schedule.{IsWellFormed}
use oktz_signal.Ratchet.Chains.{find_chain_mut}
use oktz_signal.Ratchet.Plan.{remove_all, remove_first}

-- A well-formed chain that retains at most 2000 keys.
pub record IsKept (chain : Chain) : Type 0 where
  pub well : IsWellFormed chain
  pub capped : length chain.message_keys ≤ 2000

abbrev pub AllKept : BTreeMap Str Chain → Type 0
AllKept = AllValues IsKept

pub AllKept-remove_all :
    (ids : List Str) (m : BTreeMap Str Chain) → AllKept m → AllKept (remove_all ids m)
unfolding remove_all
AllKept-remove_all [] m kept = kept
AllKept-remove_all (id ∷ ids) m kept =
    AllKept-remove_all ids (remove id m) (AllValues-remove IsKept id m kept)

pub AllKept-remove_first :
    (ids : List Str) (m : BTreeMap Str Chain) → AllKept m → AllKept (remove_first ids m).1
unfolding remove_first
AllKept-remove_first [] m kept = kept
AllKept-remove_first (id ∷ ids) m kept = elim (Option-cases (get id m)) [
  | inl e ↦ rw (e, remove_first) (AllKept-remove_first ids m kept)
  | inr (chain, e) ↦ rw (e, remove_first) (AllValues-remove IsKept id m kept)
]

pub AllKept-find_chain_mut :
    (ids : List Str) (id : Str) (chain : Chain) (m : BTreeMap Str Chain)
    → AllKept m
    → find_chain_mut m ids ≡ some (id, chain)
    → IsKept chain
unfolding find_chain_mut contains_key
AllKept-find_chain_mut [] id chain m kept h = cc
AllKept-find_chain_mut (i ∷ ids) id chain m kept h = elim (Option-cases (get i m)) [
  | inl e ↦ AllKept-find_chain_mut ids id chain m kept (rw (e, find_chain_mut, contains_key) at h)
  | inr (found, e) ↦
      (let first : (some (i, found) ≡ some (id, chain)) =
          rw (e, find_chain_mut, contains_key) at h in
        let at_head : (found ≡ chain) = cc in
        subst IsKept at_head (AllValues-get IsKept i found m kept e))
]
