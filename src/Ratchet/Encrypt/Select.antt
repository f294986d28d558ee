-- ===== src/Ratchet/Encrypt/Select.antt =====
-- ratchet.rs, `encrypt`: the choice of the sending chain.
use oktz_signal.Base.{
  ℕ, zero, suc, ◌≡◌, ◌≤◌, refl, sym, Bool, true, false, none, some, List, [], ◌∷◌, arith,
}
use oktz_signal.Base.{Option-cases, Bool-cases, inl, inr, ◌⊎◌}
use oktz_signal.Base.{ok, err, no_sending_chain, ambiguous_sending_chain}
use oktz_signal.BTreeMap.{BTreeMap}
use oktz_signal.BTreeMap.Entries.{Has}
use oktz_signal.BTreeMap.Keys.{Str, str_ord}
use oktz_signal.Session.{Chain, SessionEntry, is_sending}
use oktz_signal.Crates.{Crates}
use oktz_signal.Ratchet.Chains.{chain_key_ids_b64, find_chain, find_chain_mut}
use oktz_signal.Ratchet.Chains.Find.{find_chain-mut, find_chain-insert}
use oktz_signal.Ratchet.Encrypt.{select_sending, count_sending, find_sending}

-- The chain sends.
abbrev pub Sends : Chain → Type 0
Sends chain = chain.chain_type ≡ 1

abbrev pub NoneSends : BTreeMap Str Chain → Type 0
NoneSends m = (id : Str) (chain : Chain) → Has id chain m → ¬ Sends chain

-- The chain is in the map and sends, and no other entry's does.
pub record OnlySends (id : Str) (chain : Chain) (m : BTreeMap Str Chain) : Type 0 where
  pub present : Has id chain m
  pub sends : Sends chain
  pub alone : (j : Str) (other : Chain) → Has j other m → Sends other → (j ≡ id) × (other ≡ chain)

Sends_of : (chain : Chain) → is_sending chain ≡ true → Sends chain
Sends_of chain h = ground (arith, h)

not_sends : (chain : Chain) → is_sending chain ≡ false → ¬ Sends chain
not_sends chain h = ground (arith, h)

NoneSends-over :
    (i : Str) (c : Chain) (m : BTreeMap Str Chain)
    → ¬ Sends c
    → NoneSends m
    → NoneSends ((i, c) ∷ m)
NoneSends-over i c m n all j other (inl (e, f)) = rw f n
NoneSends-over i c m n all j other (inr h) = all j other h

OnlySends-over :
    (i id : Str) (c chain : Chain) (m : BTreeMap Str Chain)
    → ¬ Sends c
    → OnlySends id chain m
    → OnlySends id chain ((i, c) ∷ m)
OnlySends-over i id c chain m n only = record {
  present = inr only.present;
  sends = only.sends;
  alone = λ j other h s. elim h [
    | inl (e, f) ↦ absurd (n (rw (sym f) s))
    | inr k ↦ only.alone j other k s
  ];
}

OnlySends-first :
    (id : Str) (chain : Chain) (m : BTreeMap Str Chain)
    → Sends chain
    → NoneSends m
    → OnlySends id chain ((id, chain) ∷ m)
OnlySends-first id chain m s none_sends = record {
  present = inl (refl, refl);
  sends = s;
  alone = λ j other h t. elim h [ inl e ↦ e | inr k ↦ absurd (none_sends j other k t) ];
}

count_sending_cases :
    (m : BTreeMap Str Chain)
    → ((count_sending m ≡ 0) × NoneSends m)
      ⊎ (((id : Str) × (chain : Chain) × (count_sending m ≡ 1)
            × (find_sending m ≡ some (id, chain))
            × OnlySends id chain m)
          ⊎ (2 ≤ count_sending m))
count_sending_cases [] = inl (refl, λ id chain h. elim h [ ])
count_sending_cases ((id, chain) ∷ m) = elim (Bool-cases (is_sending chain)) [
  | inl e ↦ elim (count_sending_cases m) [
    | inl (z, n) ↦ inr (
        inl (id, chain, rw (e, z) refl, rw e refl, OnlySends-first id chain m (Sends_of chain e) n))
    | inr (inl (i, ch, o, f, only)) ↦ inr (inr (rw (e, o) (omega arith)))
    | inr (inr l) ↦ inr (inr (rw e (omega (arith, l))))
  ]
  | inr e ↦ elim (count_sending_cases m) [
    | inl (z, n) ↦ inl (rw (e, z) refl, NoneSends-over id chain m (not_sends chain e) n)
    | inr (inl (i, ch, o, f, only)) ↦ inr (
        inl (
          i,
          ch,
          rw (e, o) refl,
          rw (e, f) refl,
          OnlySends-over id i chain ch m (not_sends chain e) only,
        ))
    | inr (inr l) ↦ inr (inr (rw e l))
  ]
]

module _ (c : Crates) where
  abbrev pub current_ids : SessionEntry → List Str
  unfolding chain_key_ids_b64
  current_ids entry = chain_key_ids_b64 c entry.current_ratchet.ephemeral_key_pair.pub_key

  -- The chain found under the current ratchet key sends, and is the choice.
  pub record Named (entry : SessionEntry) : Type 0 where
    pub id : Str
    pub chain : Chain
    pub first : find_chain entry.chains (current_ids entry) ≡ some chain
    pub placed : find_chain_mut entry.chains (current_ids entry) ≡ some (id, chain)
    pub sends : Sends chain
    pub chosen : select_sending c entry ≡ ok (id, chain)

  -- No sending chain is found under the current ratchet key.
  abbrev pub Unnamed : SessionEntry → Type 0
  unfolding find_chain
  Unnamed entry =
      (chain : Chain) → find_chain entry.chains (current_ids entry) ≡ some chain → ¬ Sends chain

  -- The choice among all chains: none, the only one, or a refusal with the number.
  abbrev pub ByCount : SessionEntry → Type 0
  unfolding select_sending
  ByCount entry =
      ((select_sending c entry ≡ err no_sending_chain) × NoneSends entry.chains)
      ⊎ (((id : Str) × (chain : Chain) × (select_sending c entry ≡ ok (id, chain))
            × OnlySends id chain entry.chains)
          ⊎ ((select_sending c entry ≡ err (ambiguous_sending_chain (count_sending entry.chains)))
              × (2 ≤ count_sending entry.chains)))

  abbrev pub IsChosen : SessionEntry → Type 0
  unfolding find_chain select_sending
  IsChosen entry = Named entry ⊎ (Unnamed entry × ByCount entry)

  named : SessionEntry → Bool
  unfolding find_chain chain_key_ids_b64
  named entry =
      elim (find_chain entry.chains
        (chain_key_ids_b64 c entry.current_ratchet.ephemeral_key_pair.pub_key)) [
          | none ↦ false
          | some chain ↦ is_sending chain
        ]

  over_one :
      (entry : SessionEntry) (n : ℕ)
      → named entry ≡ false
      → count_sending entry.chains ≡ n
      → 2 ≤ n
      → select_sending c entry ≡ err (ambiguous_sending_chain n)
  unfolding named select_sending
  over_one entry zero f e l = absurd (omega arith)
  over_one entry (suc zero) f e l = absurd (omega arith)
  over_one entry (suc (suc n)) f e l = rw (f, select_sending, e) refl

  by_count : (entry : SessionEntry) → named entry ≡ false → ByCount entry
  unfolding named select_sending
  by_count entry f = elim (count_sending_cases entry.chains) [
    | inl (z, n) ↦ inl (rw (f, select_sending, z) refl, n)
    | inr (inl (id, chain, o, g, only)) ↦
        inr (inl (id, chain, rw (f, select_sending, o, g) refl, only))
    | inr (inr l) ↦ inr (inr (over_one entry (count_sending entry.chains) f refl l, l))
  ]

  -- A sending chain under the current ratchet key is the one.
  pub select_sending-named :
      (entry : SessionEntry) (id : Str) (chain : Chain)
      → find_chain_mut entry.chains
          (chain_key_ids_b64 c entry.current_ratchet.ephemeral_key_pair.pub_key)
        ≡ some (id, chain)
      → is_sending chain ≡ true
      → select_sending c entry ≡ ok (id, chain)
  unfolding select_sending
  select_sending-named entry id chain h f =
      (let ids = chain_key_ids_b64 c entry.current_ratchet.ephemeral_key_pair.pub_key in
        let (e, _) = find_chain-insert entry.chains ids id chain chain h in
        rw (e, select_sending, f, h) refl)

  -- Whatever the chains of an entry, one of two. Either the chain found under the current ratchet
  -- key sends, and it is chosen, whatever other chains send. Or the one found there does not
  -- send, or there is none, and then: no chain of the entry sends and the choice fails; or
  -- exactly one does and it is chosen; or two or more do, and the choice fails with their number.
  pub select_sending-IsChosen : (entry : SessionEntry) → IsChosen entry
  unfolding named IsChosen
  select_sending-IsChosen entry =
      (let ids = chain_key_ids_b64 c entry.current_ratchet.ephemeral_key_pair.pub_key in
        elim (Option-cases (find_chain entry.chains ids)) [
          | inl e ↦ inr (λ chain f. cc, by_count entry (rw (e, named) refl))
          | inr (chain, e) ↦ elim (Bool-cases (is_sending chain)) [
            | inr f ↦ inr (
              λ other g. (let same : (other ≡ chain) = cc in rw same (not_sends chain f)),
              by_count entry (rw (e, named, f) refl),
            )
            | inl f ↦
                (let (id, g) = find_chain-mut entry.chains ids chain e in
                  inl (record {
                    id = id;
                    chain = chain;
                    first = e;
                    placed = g;
                    sends = Sends_of chain f;
                    chosen = select_sending-named entry id chain g f;
                  }))
          ]
        ])
