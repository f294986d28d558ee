-- ===== src/Ratchet/MessageKeys/Fill.antt =====
-- ratchet.rs, `fill_message_keys` and `peek_message_key` against the schedule.
use oktz_signal.Base.{
  ℕ, zero, suc, ◌-◌, ◌≤◌, ◌≡◌, ◌≢◌, refl, sym, ap, ◌∙◌, List, [], ◌∷◌, ◌++◌, arith,
}
use oktz_signal.Base.{true, false, length, is_empty, append_assoc}
use oktz_signal.Base.{ok}
use oktz_signal.Base.Int.{
  ℤ, pos, negsuc, pos_part, neg_part, ◌+ℤ◌, ◌-ℤ◌, ◌≤ℤ◌, ◌<ℤ◌, +ℤ_parts, -ℤ_parts, eq_of_parts,
  wrap_i64, i64_max, ltb_ℤ, leb_ℤ,
}
use oktz_signal.BTreeMap.{BTreeMap, IsSorted}
use oktz_signal.BTreeMap.Laws.{insert-IsSorted}
use oktz_signal.BTreeMap.Keys.{Str, int_ord}
use oktz_signal.Session.{Chain}
use oktz_signal.Crates.{Crates, IsEncoding}
use oktz_signal.Ratchet.MessageKeys.{fill_level, fill_levels}
use oktz_signal.Ratchet.MessageKeys.Evict.{
  newest, evict-newest, newest-append, AllBelow, insert-append, AllBelow-weaken, AllBelow-append,
  AllBelow-drop, IsSorted-drop,
}
use oktz_signal.Ratchet.MessageKeys.Schedule.{IsWellFormed, HasKey, advance, schedule, filled}

-- In the range of `i64` nothing wraps.
pub wrap_i64_small : (a : ℤ) → a ≤ℤ i64_max → negsuc 0 ≤ℤ a → wrap_i64 a ≡ a
unfolding wrap_i64
wrap_i64_small a h l = ground arith

pub within_i64 : (a b : ℤ) → negsuc 0 ≤ℤ a → b ≤ℤ pos 4294967295 → (b -ℤ a) ≤ℤ i64_max
within_i64 a b h k = omega (arith, -ℤ_parts b a)

pub not_over : (a : ℤ) → a ≤ℤ pos 2000 → ltb_ℤ (pos 2000) a ≡ false
not_over a h = ground arith

AllBelow-newest : (m : BTreeMap ℤ Str) (k : ℤ) → AllBelow m k → AllBelow (newest m) k
unfolding newest
AllBelow-newest m k a = AllBelow-drop (length m - 2000) m k a

IsSorted-newest : (m : BTreeMap ℤ Str) → IsSorted m → IsSorted (newest m)
unfolding newest
IsSorted-newest m s = IsSorted-drop (length m - 2000) m s

module _ (c : Crates) where
  pub first-IsWellFormed :
      (ck : List ℕ) (chain : Chain) → IsWellFormed chain → IsWellFormed (filled c 1 ck chain)
  unfolding filled schedule
  first-IsWellFormed ck chain well =
      (let k = chain.chain_key.counter +ℤ pos 1 in
        let v = c.encode (c.hmac ck (1 ∷ [])) in
        let grown = chain.message_keys ++ (k, v) ∷ [] in
        record {
          sorted =
              (IsSorted-newest grown (
                rw⁻¹ (insert-append k v chain.message_keys well.behind)
                  (insert-IsSorted k v chain.message_keys well.sorted)));
          behind = AllBelow-newest grown (k +ℤ pos 1) (
              AllBelow-append chain.message_keys ((k, v) ∷ []) (k +ℤ pos 1)
                (AllBelow-weaken chain.message_keys k (k +ℤ pos 1)
                  (omega (arith, +ℤ_parts k (pos 1))) well.behind)
                (omega (arith, +ℤ_parts k (pos 1)), tt));
          started = omega (arith, well.started, +ℤ_parts chain.chain_key.counter (pos 1));
        })

module _ (c : Crates) (encoding : IsEncoding c) where
  fill_level-filled :
      (chain : Chain) (ck : List ℕ) (counter : ℤ)
      → IsWellFormed chain
      → HasKey c chain ck
      → chain.chain_key.counter <ℤ counter
      → counter ≤ℤ (chain.chain_key.counter +ℤ pos 2000)
      → counter ≤ℤ pos 4294967295
      → fill_level c chain counter ≡ ok (filled c 1 ck chain)
  unfolding fill_level filled schedule advance
  fill_level-filled chain ck counter well key ahead near small =
      (let distance = counter -ℤ chain.chain_key.counter in
        let parts = -ℤ_parts counter chain.chain_key.counter in
        let w =
          wrap_i64_small distance (within_i64 chain.chain_key.counter counter well.started small)
            (omega (arith, parts)) in
        let near_enough =
          not_over distance (omega (arith, parts, +ℤ_parts chain.chain_key.counter (pos 2000))) in
        rw
          (
            key.stored,
            fill_level,
            key.full,
            w,
            near_enough,
            key.decodes,
            insert-append (chain.chain_key.counter +ℤ pos 1) (c.encode (c.hmac ck (1 ∷ [])))
                chain.message_keys well.behind,
            evict-newest (
                chain.message_keys
                ++ (chain.chain_key.counter +ℤ pos 1, c.encode (c.hmac ck (1 ∷ []))) ∷ []),
          )
          refl)

  pub one_more : (k : ℤ) (n : ℕ) → (k +ℤ pos 1 +ℤ pos n) ≡ (k +ℤ pos (suc n))
  one_more k n =
      eq_of_parts (k +ℤ pos 1 +ℤ pos n) (k +ℤ pos (suc n))
        (omega (arith, +ℤ_parts k (pos 1), +ℤ_parts (k +ℤ pos 1) (pos n), +ℤ_parts k (pos (suc n))))

  -- The first of the steps can be taken apart.
  pub filled-suc :
      (n : ℕ) (ck : List ℕ) (chain : Chain)
      → filled c (suc n) ck chain ≡ filled c n (c.hmac ck (2 ∷ [])) (filled c 1 ck chain)
  unfolding filled schedule advance
  filled-suc zero ck chain = refl
  filled-suc (suc n) ck chain =
      (let k = chain.chain_key.counter in
        let first : BTreeMap ℤ Str = (k +ℤ pos 1, c.encode (c.hmac ck (1 ∷ []))) ∷ [] in
        let rest : BTreeMap ℤ Str = schedule c (suc n) (c.hmac ck (2 ∷ [])) (k +ℤ pos 1 +ℤ pos 1) in
        rw
          (
            newest-append (chain.message_keys ++ first) rest,
            append_assoc chain.message_keys first rest,
            one_more k (suc n),
          )
          refl)

  pub not_blank : (key message : List ℕ) → is_empty (c.encode (c.hmac key message)) ≡ false
  not_blank key message =
      go (c.encode (c.hmac key message)) (encoding.encode_full (c.hmac key message) tag_full)
    where
      tag_full : c.hmac key message ≢ []
      tag_full e = omega (arith, encoding.length-hmac key message, ap length e)

      go : (s : Str) → s ≢ [] → is_empty s ≡ false
      go [] n = elim (n refl) [ ]
      go (x ∷ s) n = refl

  pub first-HasKey :
      (ck : List ℕ) (chain : Chain) → HasKey c (filled c 1 ck chain) (c.hmac ck (2 ∷ []))
  unfolding filled advance
  first-HasKey ck chain = record {
    text = c.encode (c.hmac ck (2 ∷ []));
    stored = refl;
    full = not_blank ck (2 ∷ []);
    decodes = encoding.decode-encode (c.hmac ck (2 ∷ []));
  }

  pub one_before : (k counter : ℤ) (n : ℕ) → counter ≡ k +ℤ pos (suc n) → k <ℤ counter
  one_before k counter n e = omega (arith, +ℤ_parts k (pos (suc n)), ap pos_part e, ap neg_part e)

  pub not_ahead : (a b : ℤ) → a ≤ℤ b → leb_ℤ a b ≡ true
  not_ahead a b h = ground arith

  pub is_ahead : (a b : ℤ) → b <ℤ a → leb_ℤ a b ≡ false
  is_ahead a b h = ground arith

  pub fill_levels-filled :
      (fuel n : ℕ) (chain : Chain) (ck : List ℕ) (counter : ℤ)
      → IsWellFormed chain
      → HasKey c chain ck
      → counter ≡ chain.chain_key.counter +ℤ pos n
      → n ≤ fuel
      → n ≤ 2000
      → counter ≤ℤ pos 4294967295
      → fill_levels c fuel chain counter ≡ (ok tt, filled c n ck chain)
  unfolding fill_levels filled
  fill_levels-filled zero zero chain ck counter well key e f l small =
      rw
        (
          not_ahead counter chain.chain_key.counter (
              omega
                (arith, +ℤ_parts chain.chain_key.counter (pos 0), ap pos_part e, ap neg_part e)),
          fill_levels,
        )
        refl
  fill_levels-filled (suc fuel) zero chain ck counter well key e f l small =
      rw
        (
          not_ahead counter chain.chain_key.counter (
              omega
                (arith, +ℤ_parts chain.chain_key.counter (pos 0), ap pos_part e, ap neg_part e)),
          fill_levels,
        )
        refl
  fill_levels-filled zero (suc n) chain ck counter well key e f l small = ground arith
  fill_levels-filled (suc fuel) (suc n) chain ck counter well key e f l small =
      (let k = chain.chain_key.counter in
        let ahead = one_before k counter n e in
        let near : (counter ≤ℤ (k +ℤ pos 2000)) =
          omega (
            arith,
            +ℤ_parts k (pos (suc n)),
            +ℤ_parts k (pos 2000),
            ap pos_part e,
            ap neg_part e,
          ) in
        let level = fill_level-filled chain ck counter well key ahead near small in
        rw (is_ahead counter k ahead, fill_levels, level)
          (fill_levels-filled fuel n (filled c 1 ck chain) (c.hmac ck (2 ∷ [])) counter
              (first-IsWellFormed c ck chain well) (first-HasKey ck chain) (e ∙ sym (one_more k n))
              (omega arith) (omega arith) small
            ∙ ap (λ x. (ok tt, x)) (sym (filled-suc n ck chain))))
