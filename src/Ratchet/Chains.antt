-- ===== src/Ratchet/Chains.antt =====
-- ratchet.rs, the keys of the chain map: `chain_key_ids`, `find_chain` and their kin.
pub mod Find
use oktz_signal.Base.{
  ℕ, List, [], ◌∷◌, ◌++◌, Bool, true, false, not, ◌&&◌, Option, none, some, ◌==◌, if◌then◌else◌,
}
use oktz_signal.Base.{length, drop, bytes_eq}
use oktz_signal.BTreeMap.{BTreeMap, get, contains_key}
use oktz_signal.BTreeMap.Keys.{Str, str_ord}
use oktz_signal.Session.{Chain}
use oktz_signal.Crates.{Crates}
use oktz_signal.Util.{b64}

-- `raw.len() == 33 && raw[0] == 0x05`: the wire form of a public key.
abbrev pub is_wire_key : List ℕ → Bool
is_wire_key [] = false
is_wire_key (x ∷ xs) = (length (x ∷ xs) == 33) && (x == 5)

unfoldable pub as_x25519 : List ℕ → List ℕ
as_x25519 raw = if is_wire_key raw then drop 1 raw else raw

-- A 32-byte key gets the prefix of the wire form; another is left as it is.
unfoldable pub with_prefix : List ℕ → List ℕ
with_prefix key = if length key == 32 then 5 ∷ key else key

module _ (c : Crates) where
  unfoldable pub chain_key_ids : List ℕ → List Str
  chain_key_ids raw =
      (let stripped = b64 c (drop 1 raw) in
        if is_wire_key raw && not (bytes_eq stripped (b64 c raw))
        then b64 c raw ∷ stripped ∷ []
        else b64 c raw ∷ [])

  unfoldable pub chain_key_ids_b64 : Str → List Str
  unfolding chain_key_ids
  chain_key_ids_b64 key = elim (c.decode key) [ none ↦ key ∷ [] | some raw ↦ chain_key_ids raw ]

unfoldable pub find_chain : BTreeMap Str Chain → List Str → Option Chain
unfolding get
find_chain chains [] = none
find_chain chains (id ∷ ids) =
    (let rest = find_chain chains ids in
      elim (get id chains) [ none ↦ rest | some chain ↦ some chain ])

-- The mutable reference is the key that is present, with the chain.
unfoldable pub find_chain_mut : BTreeMap Str Chain → List Str → Option (Str × Chain)
unfolding get contains_key
find_chain_mut chains [] = none
find_chain_mut chains (id ∷ ids) =
    (let rest = find_chain_mut chains ids in
      if contains_key id chains
      then elim (get id chains) [ none ↦ none | some chain ↦ some (id, chain) ]
      else rest)
