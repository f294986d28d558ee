-- ===== src/Conversation/Operations.antt =====
-- What one operation leaves of a chain that the program keeps.
use oktz_signal.Base.{
  ℕ, ◌≡◌, refl, subst, List, [], ◌∷◌, some, none, false, arith, inl, inr, Option-cases, Bool-cases,
}
use oktz_signal.Base.{
  ok, Result, err, Error, Result-cases, ok_or-some, zero, suc, Bool, no_sending_chain,
}
use oktz_signal.Base.Int.{ℤ, pos, ◌+ℤ◌}
use oktz_signal.BTreeMap.{BTreeMap, get, remove}
use oktz_signal.BTreeMap.Laws.{remove-IsSorted, length-remove-le}
use oktz_signal.BTreeMap.Keys.{Str, str_ord, int_ord}
use oktz_signal.Session.{Chain, SessionEntry, is_sending}
use oktz_signal.Crates.{Crates}
use oktz_signal.Ratchet.MessageKeys.{fill_message_keys}
use oktz_signal.Ratchet.MessageKeys.Bounds.{fill_message_keys-IsBounded}
use oktz_signal.Ratchet.Chains.{chain_key_ids_b64, find_chain, find_chain_mut}
use oktz_signal.Ratchet.Encrypt.{
  select_sending, next_message_key, find_sending, count_sending, checked_add_one,
}
use oktz_signal.Ratchet.Encrypt.Advance.{AllBelow-remove}
use oktz_signal.Conversation.Chains.{IsKept, AllKept, AllKept-find_chain_mut}

pub IsKept-remove :
    (k : ℤ) (chain : Chain)
    → IsKept chain
    → IsKept (record chain { message_keys = remove k chain.message_keys })
IsKept-remove k chain kept = record {
  well = record {
    sorted = remove-IsSorted k chain.message_keys kept.well.sorted;
    behind =
        AllBelow-remove k chain.message_keys (chain.chain_key.counter +ℤ pos 1) kept.well.behind;
    started = kept.well.started;
  };
  capped = omega (arith, length-remove-le k chain.message_keys, kept.capped);
}

AllKept-find_sending :
    (id : Str) (chain : Chain) (m : BTreeMap Str Chain)
    → AllKept m
    → find_sending m ≡ some (id, chain)
    → IsKept chain
AllKept-find_sending id chain [] kept h = cc
AllKept-find_sending id chain ((j, v) ∷ m) (k, kept) h = elim (Bool-cases (is_sending v)) [
  | inl e ↦
      (let first : (some (j, v) ≡ some (id, chain)) = rw e at h in
        let at_head : (v ≡ chain) = cc in subst IsKept at_head k)
  | inr e ↦ AllKept-find_sending id chain m kept (rw e at h)
]

refused : {A : Type 0} {e : Error} {a : A} (x : Unit {0}) → err e ≡ ok a → ⊥
refused x h = cc

left_equal :
    {k k' : ℤ} {t t' : Str} {x y : Chain}
    → ◌≡◌ {A = Result (ℤ × (Str × Chain))} (ok (k, (t, x))) (ok (k', (t', y)))
    → x ≡ y
left_equal h = cc

module _ (c : Crates) where
  pub fill_message_keys-IsKept :
      (chain : Chain) (counter : ℤ) → IsKept chain → IsKept (fill_message_keys c chain counter).1
  fill_message_keys-IsKept chain counter kept =
      (let b = fill_message_keys-IsBounded c chain counter in
        record { well = b.well kept.well; capped = omega (arith, b.capped, kept.capped) })

  pub next_message_key-IsKept :
      (chain next : Chain) (counter : ℤ) (key : Str)
      → IsKept chain
      → next_message_key c chain ≡ ok (counter, (key, next))
      → IsKept next
  unfolding next_message_key
  next_message_key-IsKept chain next counter key kept h =
      elim (Option-cases (checked_add_one chain.chain_key.counter)) [
        | inl e ↦ absurd (refused tt (rw (e, next_message_key) at h))
        | inr (target, e) ↦
            (let full = (fill_message_keys c chain target).1 in
              let spent : Chain = record full { message_keys = remove target full.message_keys } in
              elim (Result-cases (fill_message_keys c chain target).0) [
                | inr (x, f) ↦ absurd (refused tt (rw (e, next_message_key, f) at h))
                | inl (u, f) ↦ elim (Option-cases (get target full.message_keys)) [
                  | inl g ↦ absurd (refused tt (rw (e, next_message_key, f, g) at h))
                  | inr (text, g) ↦
                      (let given : (ok (target, (text, spent)) ≡ ok (counter, (key, next))) =
                          rw (e, next_message_key, f, g) at h in
                        subst IsKept (left_equal given)
                          (IsKept-remove target full (fill_message_keys-IsKept chain target kept)))
                ]
              ])
      ]

  ids_of : SessionEntry → List Str
  unfolding chain_key_ids_b64
  ids_of entry = chain_key_ids_b64 c entry.current_ratchet.ephemeral_key_pair.pub_key

  named : SessionEntry → Bool
  unfolding find_chain ids_of
  named entry = elim (find_chain entry.chains (ids_of entry)) [
    | none ↦ false
    | some chain ↦ is_sending chain
  ]

  by_count :
      (entry : SessionEntry) (id : Str) (chain : Chain) (n : ℕ)
      → AllKept entry.chains
      → named entry ≡ false
      → count_sending entry.chains ≡ n
      → select_sending c entry ≡ ok (id, chain)
      → IsKept chain
  unfolding select_sending named ids_of
  by_count entry id chain zero kept f e h = absurd (refused tt (rw (f, select_sending, e) at h))
  by_count entry id chain (suc zero) kept f e h =
      AllKept-find_sending id chain entry.chains kept
        (ok_or-some no_sending_chain (find_sending entry.chains) (rw (f, select_sending, e) at h))
  by_count entry id chain (suc (suc n)) kept f e h =
      absurd (refused tt (rw (f, select_sending, e) at h))

  pub select_sending-IsKept :
      (entry : SessionEntry) (id : Str) (chain : Chain)
      → AllKept entry.chains
      → select_sending c entry ≡ ok (id, chain)
      → IsKept chain
  unfolding select_sending named ids_of
  select_sending-IsKept entry id chain kept h = elim (Bool-cases (named entry)) [
    | inr f ↦ by_count entry id chain (count_sending entry.chains) kept f refl h
    | inl f ↦ AllKept-find_chain_mut (ids_of entry) id chain entry.chains kept (
        ok_or-some no_sending_chain (find_chain_mut entry.chains (ids_of entry))
          (rw (f, select_sending) at h))
  ]
