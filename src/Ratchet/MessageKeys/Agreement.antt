-- ===== src/Ratchet/MessageKeys/Agreement.antt =====
-- ratchet.rs: `peek_message_key` and `fill_message_keys` agree, and the schedule they follow.
use oktz_signal.Base.{ℕ, zero, suc, ◌-◌, ◌≤◌, ◌≡◌, ◌≢◌, refl, ap, List, [], ◌∷◌, arith}
use oktz_signal.Base.{Option, some, true, false, inl, inr}
use oktz_signal.Base.{Result, ok, err, Error, Bool-cases, ◌⊎◌}
use oktz_signal.Base.Int.{
  ℤ, pos, negsuc, pos_part, neg_part, ◌+ℤ◌, ◌-ℤ◌, ◌≤ℤ◌, ◌<ℤ◌, +ℤ_parts, -ℤ_parts, eq_of_parts,
  ltb_ℤ, leb_ℤ,
}
use oktz_signal.BTreeMap.{get}
use oktz_signal.BTreeMap.Keys.{Str, int_ord}
use oktz_signal.Session.{Chain}
use oktz_signal.Crates.{Crates, IsEncoding}
use oktz_signal.Ratchet.MessageKeys.{fill_message_keys, peek_loop, peek_message_key}
use oktz_signal.Ratchet.MessageKeys.Schedule.{IsWellFormed, HasKey, advance, message_key, filled}
use oktz_signal.Ratchet.MessageKeys.Fill.{
  not_over, within_i64, wrap_i64_small, one_before, is_ahead, fill_levels-filled,
}
use oktz_signal.Ratchet.MessageKeys.Filled.{get-filled, filled-IsWellFormed}
use oktz_signal.Ratchet.MessageKeys.Guards.{fill_levels_stay, fill_levels_fails, same_guards}

distance_of : (k counter : ℤ) (n : ℕ) → counter ≡ k +ℤ pos n → pos_part (counter -ℤ k) ≡ n
distance_of k counter n e =
    ground (arith, +ℤ_parts k (pos n), -ℤ_parts counter k, ap pos_part e, ap neg_part e)

module _ (c : Crates) (encoding : IsEncoding c) where
  peek_loop-message_key : (n : ℕ) (ck m : List ℕ) → peek_loop c (suc n) ck m ≡ message_key c n ck
  unfolding peek_loop message_key advance
  peek_loop-message_key zero ck m = refl
  peek_loop-message_key (suc n) ck m =
      peek_loop-message_key n (c.hmac ck (2 ∷ [])) (c.hmac ck (1 ∷ []))

  -- For a well-formed chain whose key decodes to `ck`, and a counter `n` places ahead of it, `n`
  -- at most 2000 and the counter in the range of `u32`: filling succeeds. The chain then stands at the counter with the chain key advanced by `n`
  -- steps, and retains the last 2000 of its entries followed by those of the `n` steps (unchanged
  -- for `n` of 0).
  pub fill_message_keys-filled :
      (chain : Chain) (ck : List ℕ) (counter : ℤ) (n : ℕ)
      → IsWellFormed chain
      → HasKey c chain ck
      → counter ≡ chain.chain_key.counter +ℤ pos n
      → n ≤ 2000
      → counter ≤ℤ pos 4294967295
      → fill_message_keys c chain counter ≡ (ok tt, filled c n ck chain)
  unfolding fill_message_keys
  fill_message_keys-filled chain ck counter n well key e l small =
      (let d = distance_of chain.chain_key.counter counter n e in
        fill_levels-filled c encoding (pos_part (counter -ℤ chain.chain_key.counter)) n chain ck
          counter well key e (omega (arith, d)) l small)

  pub peek_message_key-message_key :
      (chain : Chain) (ck : List ℕ) (counter : ℤ) (n : ℕ)
      → IsWellFormed chain
      → HasKey c chain ck
      → counter ≡ chain.chain_key.counter +ℤ pos (suc n)
      → suc n ≤ 2000
      → counter ≤ℤ pos 4294967295
      → peek_message_key c chain counter ≡ ok (some (c.encode (message_key c n ck)))
  unfolding peek_message_key
  peek_message_key-message_key chain ck counter n well key e l small =
      (let k = chain.chain_key.counter in
        let distance = counter -ℤ k in
        let parts = -ℤ_parts counter k in
        let ahead = one_before c encoding k counter n e in
        let w =
          wrap_i64_small distance (within_i64 k counter well.started small)
            (omega (arith, parts)) in
        let near =
          not_over distance
            (omega (arith, parts, +ℤ_parts k (pos (suc n)), ap pos_part e, ap neg_part e)) in
        rw
          (
            is_ahead c encoding counter k ahead,
            peek_message_key,
            key.stored,
            key.full,
            w,
            near,
            key.decodes,
            distance_of k counter (suc n) e,
            peek_loop-message_key n ck [],
          )
          refl)

  near : (a : ℤ) → ltb_ℤ (pos 2000) a ≡ false → a ≤ℤ pos 2000
  near a h = ground (arith, h)

  positive : (a : ℤ) (n : ℕ) → pos_part a ≡ suc n → negsuc 0 ≤ℤ a
  positive a n h = ground (arith, h)

  few_steps : (a : ℤ) (n : ℕ) → pos_part a ≡ suc n → a ≤ℤ pos 2000 → suc n ≤ 2000
  few_steps a n h l = ground (arith, h, l)

  place :
      (k counter : ℤ)
      → leb_ℤ counter k ≡ false
      → (n : ℕ) × (counter ≡ k +ℤ pos (suc n)) × (pos_part (counter -ℤ k) ≡ suc n)
  place k counter h =
      (let d = pos_part (counter -ℤ k) in
        let parts = -ℤ_parts counter k in
        let ahead : (k <ℤ counter) = ground (arith, h) in
        (
          d - 1,
          eq_of_parts counter (k +ℤ pos (suc (d - 1)))
              (ground (arith, ahead, parts, +ℤ_parts k (pos (suc (d - 1))))),
          ground (arith, ahead, parts),
        ))

  failed_not : (x : Error) (r : Result (Unit {0})) → r ≡ err x → r ≢ ok tt
  failed_not x r e q = cc

  peeked :
      (chain : Chain) (counter : ℤ)
      → IsWellFormed chain
      → counter ≤ℤ pos 4294967295
      → leb_ℤ counter chain.chain_key.counter ≡ false
      → ((e : Error) × (peek_message_key c chain counter ≡ err e)
          × (fill_message_keys c chain counter ≡ (err e, chain)))
        ⊎ ((ck : List ℕ) × (n : ℕ) × HasKey c chain ck
            × (counter ≡ chain.chain_key.counter +ℤ pos (suc n))
            × (suc n ≤ 2000)
            × (peek_message_key c chain counter ≡ ok (some (c.encode (message_key c n ck))))
            × (fill_message_keys c chain counter ≡ (ok tt, filled c (suc n) ck chain)))
  unfolding fill_message_keys
  peeked chain counter well small h =
      (let k = chain.chain_key.counter in
        let (n, e, d) = place k counter h in
        elim (same_guards c encoding chain counter h) [
          | inl (x, p, l) ↦ inl (
            x,
            p,
            fill_levels_fails c encoding (pos_part (counter -ℤ k)) chain counter x
                (omega (arith, d)) h l,
          )
          | inr (ck, key, o) ↦
              (let w =
                  wrap_i64_small (counter -ℤ k) (within_i64 k counter well.started small)
                    (positive (counter -ℤ k) n d) in
                let few : (suc n ≤ 2000) =
                  few_steps (counter -ℤ k) n d (near (counter -ℤ k) (rw⁻¹ w o)) in
                inr (
                  ck,
                  n,
                  key,
                  e,
                  few,
                  peek_message_key-message_key chain ck counter n well key e few small,
                  fill_message_keys-filled chain ck counter (suc n) well key e few small,
                ))
        ])

  peek_behind :
      (chain : Chain) (counter : ℤ)
      → leb_ℤ counter chain.chain_key.counter ≡ true
      → peek_message_key c chain counter ≡ ok (get counter chain.message_keys)
  unfolding peek_message_key
  peek_behind chain counter h = rw (h, peek_message_key) refl

  fill_behind :
      (chain : Chain) (counter : ℤ)
      → leb_ℤ counter chain.chain_key.counter ≡ true
      → fill_message_keys c chain counter ≡ (ok tt, chain)
  unfolding fill_message_keys
  fill_behind chain counter h =
      fill_levels_stay c encoding (pos_part (counter -ℤ chain.chain_key.counter)) chain counter h

  -- For a well-formed chain and a counter in the range of `u32`, on any chain key: when peeking
  -- fails, filling fails with the same error and leaves the chain as it was; when peeking finds
  -- no key, filling succeeds and the filled chain has none at the counter; and when peeking
  -- finds a message key, filling succeeds and the filled chain has that key at the counter.
  pub fill_message_keys-peek_message_key :
      (chain : Chain) (counter : ℤ)
      → IsWellFormed chain
      → counter ≤ℤ pos 4294967295
      → ((e : Error)
          → peek_message_key c chain counter ≡ err e
          → fill_message_keys c chain counter ≡ (err e, chain))
        × ((o : Option Str)
            → peek_message_key c chain counter ≡ ok o
            → ((fill_message_keys c chain counter).0 ≡ ok tt)
              × (get counter (fill_message_keys c chain counter).1.message_keys ≡ o))
  fill_message_keys-peek_message_key chain counter well small =
      elim (Bool-cases (leb_ℤ counter chain.chain_key.counter)) [
        | inl h ↦
            (let p = peek_behind chain counter h in
              let f = fill_behind chain counter h in (λ e q. cc, λ o q. rw f (refl, cc)))
        | inr h ↦ elim (peeked chain counter well small h) [
          | inl (x, p, f) ↦ (λ e q. cc, λ o q. (cc, cc))
          | inr (ck, n, key, e, few, p, f) ↦
              (let got =
                  get-filled c encoding chain ck counter (suc n) n well
                    (filled-IsWellFormed c encoding (suc n) ck chain well).sorted (omega arith) few
                    e in
                (λ x q. cc, λ o q. rw f (refl, cc)))
        ]
      ]

  -- Out of order, the same keys: for a well-formed chain, two counters ahead of it and a chain
  -- that reaches the later one, the filled chain retains for the earlier one the message key
  -- that the chain would have given had that message come first.
  pub fill_message_keys_skipped :
      (chain : Chain) (earlier later : ℤ) (key : Str)
      → IsWellFormed chain
      → later ≤ℤ pos 4294967295
      → chain.chain_key.counter <ℤ earlier
      → earlier ≤ℤ later
      → (fill_message_keys c chain later).0 ≡ ok tt
      → peek_message_key c chain earlier ≡ ok (some key)
      → get earlier (fill_message_keys c chain later).1.message_keys ≡ some key
  fill_message_keys_skipped chain earlier later key well small ahead order success found =
      (let k = chain.chain_key.counter in
        let ahead_too = is_ahead c encoding later k (omega (arith, ahead, order)) in
        elim (peeked chain later well small ahead_too) [
          | inl (x, p, f) ↦
              elim (failed_not x (fill_message_keys c chain later).0 (ap (λ r. r.0) f) success) [ ]
          | inr (ck, n, has_key, e, few, p, f) ↦
              (let (i, e', d) = place k earlier (is_ahead c encoding earlier k ahead) in
                let sooner : (suc i ≤ suc n) = omega (
                  arith,
                  order,
                  ap pos_part e,
                  ap neg_part e,
                  ap pos_part e',
                  ap neg_part e',
                  +ℤ_parts k (pos (suc i)),
                  +ℤ_parts k (pos (suc n)),
                ) in
                let q =
                  peek_message_key-message_key chain ck earlier i well has_key e'
                    (omega (arith, sooner, few)) (omega (arith, order, small)) in
                let got =
                  get-filled c encoding chain ck earlier (suc n) i well
                    (filled-IsWellFormed c encoding (suc n) ck chain well).sorted
                    (omega (arith, sooner)) few e' in
                rw f cc)
        ])
