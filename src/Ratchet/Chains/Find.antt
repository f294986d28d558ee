-- ===== src/Ratchet/Chains/Find.antt =====
-- ratchet.rs, `find_chain` and `find_chain_mut`: they agree, before and after a write.
use oktz_signal.Base.{◌≡◌, refl, sym, ap, ◌∙◌, none, some, List, [], ◌∷◌, arith}
use oktz_signal.Base.{Option-cases, Bool-cases, inl, inr}
use oktz_signal.BTreeMap.{BTreeMap, get, contains_key, insert, same}
use oktz_signal.BTreeMap.Laws.{get-insert, same_iff}
use oktz_signal.BTreeMap.Keys.{Str, str_ord}
use oktz_signal.Session.{Chain}
use oktz_signal.Ratchet.Chains.{find_chain, find_chain_mut}

-- The chain found for writing is the one found for reading, and one written in its place is found
-- again.
pub find_chain-insert :
    (chains : BTreeMap Str Chain) (ids : List Str) (id : Str) (old new : Chain)
    → find_chain_mut chains ids ≡ some (id, old)
    → (find_chain chains ids ≡ some old) × (find_chain (insert id new chains) ids ≡ some new)
unfolding find_chain find_chain_mut contains_key
find_chain-insert chains [] id old new h = ground arith
find_chain-insert chains (i ∷ ids) id old new h = elim (Option-cases (get i chains)) [
  | inl e ↦
      (let (p, q) =
          find_chain-insert chains ids id old new
            (sym (rw (e, find_chain_mut, contains_key) refl) ∙ h) in
        (
          rw (e, find_chain) p,
          elim (Bool-cases (same i id)) [
            | inl s ↦
                (let got : (get i (insert id new chains) ≡ some new) =
                    ground (arith, get-insert id i new chains, s) in
                  rw (got, find_chain) refl)
            | inr s ↦
                (let got : (get i (insert id new chains) ≡ none) =
                    ground (arith, get-insert id i new chains, s, e) in
                  rw (got, find_chain) q)
          ],
        ))
  | inr (chain, e) ↦
      (let found : (some (i, chain) ≡ some (id, old)) =
          sym (rw (e, find_chain_mut, contains_key) refl) ∙ h in
        let at_id : (i ≡ id) = cc in
        let got : (get i (insert id new chains) ≡ some new) =
          ground (arith, get-insert id i new chains, (same_iff i id).1 at_id) in
        (rw (e, find_chain) cc, rw (got, find_chain) refl))
]

-- What is found for reading is found for writing.
pub find_chain-mut :
    (chains : BTreeMap Str Chain) (ids : List Str) (chain : Chain)
    → find_chain chains ids ≡ some chain
    → (id : Str) × (find_chain_mut chains ids ≡ some (id, chain))
unfolding find_chain find_chain_mut contains_key
find_chain-mut chains [] chain h = ground arith
find_chain-mut chains (i ∷ ids) chain h = elim (Option-cases (get i chains)) [
  | inl e ↦
      (let (id, f) = find_chain-mut chains ids chain (sym (rw (e, find_chain) refl) ∙ h) in
        (id, rw (e, find_chain_mut, contains_key) f))
  | inr (found, e) ↦
      (let same : (some found ≡ some chain) = sym (rw (e, find_chain) refl) ∙ h in
        let eq : (found ≡ chain) = cc in
        (i, rw (e, find_chain_mut, contains_key) (ap (λ x. some (i, x)) eq)))
]
