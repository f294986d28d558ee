-- ===== src/Ratchet/MessageKeys/Bounds.antt =====
-- ratchet.rs: what holds of `fill_message_keys` whatever the chain holds.
use oktz_signal.Base.{
  ℕ, zero, suc, ◌≤◌, ◌≡◌, ◌≢◌, refl, ap, ◌∙◌, List, [], ◌∷◌, ◌++◌, some, arith, max,
}
use oktz_signal.Base.{true, length, inl, inr, Bool-cases, Option-cases}
use oktz_signal.Base.{
  Result, ok, err, out_of_fuel, receiving_chain_closed, over_max_skip, invalid_base64,
}
use oktz_signal.Base.Int.{
  ℤ, pos, pos_part, neg_part, ◌+ℤ◌, ◌-ℤ◌, ◌≤ℤ◌, +ℤ_parts, -ℤ_parts, leb_ℤ, ltb_ℤ, wrap_i64,
}
use oktz_signal.Base.Post.{Post, Post-ok, Post-err, Post-cases}
use oktz_signal.BTreeMap.{BTreeMap, insert}
use oktz_signal.BTreeMap.Keys.{Str, int_ord}
use oktz_signal.Session.{Chain, is_closed}
use oktz_signal.Crates.{Crates}
use oktz_signal.Util.{b64}
use oktz_signal.Ratchet.MessageKeys.{max_skip, evict, fill_level, fill_levels, fill_message_keys}
use oktz_signal.Ratchet.MessageKeys.Evict.{length-evict, evict-newest, insert-append}
use oktz_signal.Ratchet.MessageKeys.Schedule.{IsWellFormed, filled, schedule, advance}
use oktz_signal.Ratchet.MessageKeys.Fill.{first-IsWellFormed}

-- What a level leaves: the chain has moved by one, and retains at most 2000 keys.
record IsNext (chain next : Chain) : Type 0 where
  pub moved : next.chain_key.counter ≡ chain.chain_key.counter +ℤ pos 1
  pub capped : length next.message_keys ≤ 2000
  pub same_type : next.chain_type ≡ chain.chain_type
  pub well : IsWellFormed chain → IsWellFormed next

capped_at : (m : BTreeMap ℤ Str) → length (evict m) ≤ 2000
capped_at m = omega (arith, length-evict m)

not_ahead : (a b : ℤ) → a ≤ℤ b → leb_ℤ a b ≡ true
not_ahead a b h = ground arith

-- What filling leaves: an outcome, a success or one of the program's errors, on a chain that has
-- reached the counter if it succeeded, that retains no more than 2000 keys or what it had, that
-- is of the same type, and well-formed if it was so before.
pub record IsBounded (chain : Chain) (counter : ℤ) (r : Result (Unit {0}) × Chain) : Type 0 where
  pub ends : r.0 ≢ err out_of_fuel
  pub reached : r.0 ≡ ok tt → counter ≤ℤ r.1.chain_key.counter
  pub onward : chain.chain_key.counter ≤ℤ r.1.chain_key.counter
  pub capped : length r.1.message_keys ≤ max 2000 (length chain.message_keys)
  pub same_type : r.1.chain_type ≡ chain.chain_type
  pub well : IsWellFormed chain → IsWellFormed r.1

IsBounded-stay :
    (chain : Chain) (counter : ℤ) (o : Result (Unit {0}))
    → o ≢ err out_of_fuel
    → (o ≡ ok tt → counter ≤ℤ chain.chain_key.counter)
    → IsBounded chain counter (o, chain)
IsBounded-stay chain counter o e h = record {
  ends = e;
  reached = h;
  onward = omega arith;
  capped = omega arith;
  same_type = refl;
  well = λ w. w;
}

IsBounded-next :
    (chain next : Chain) (counter : ℤ) (r : Result (Unit {0}) × Chain)
    → IsNext chain next
    → IsBounded next counter r
    → IsBounded chain counter r
IsBounded-next chain next counter r n b = record {
  ends = b.ends;
  reached = b.reached;
  onward = omega (
    arith,
    b.onward,
    ap pos_part n.moved,
    ap neg_part n.moved,
    +ℤ_parts chain.chain_key.counter (pos 1),
  );
  capped = omega (arith, b.capped, n.capped);
  same_type = b.same_type ∙ n.same_type;
  well = λ w. b.well (n.well w);
}

module _ (c : Crates) where
  first_level :
      (ck : List ℕ) (chain : Chain)
      → IsWellFormed chain
      → IsWellFormed (record chain {
        message_keys = evict (
            chain.message_keys
            ++ (chain.chain_key.counter +ℤ pos 1, b64 c (c.hmac ck (1 ∷ []))) ∷ []);
        chain_key = record {
          counter = chain.chain_key.counter +ℤ pos 1;
          key = some (b64 c (c.hmac ck (2 ∷ [])));
        };
      })
  unfolding filled schedule advance
  first_level ck chain w =
      rw
        (evict-newest (
          chain.message_keys
          ++ (chain.chain_key.counter +ℤ pos 1, b64 c (c.hmac ck (1 ∷ []))) ∷ []))
        (first-IsWellFormed c ck chain w)

  fill_level-Post : (chain : Chain) (counter : ℤ) → Post (IsNext chain) (fill_level c chain counter)
  unfolding fill_level
  fill_level-Post chain counter = elim (Bool-cases (is_closed chain.chain_key)) [
    | inl e ↦ rw (e, fill_level) (Post-err receiving_chain_closed (λ q. cc))
    | inr e ↦ elim (Bool-cases (ltb_ℤ max_skip (wrap_i64 (counter -ℤ chain.chain_key.counter)))) [
      | inl f ↦ rw (e, f, fill_level) (Post-err over_max_skip (λ q. cc))
      | inr f ↦ elim (Option-cases chain.chain_key.key) [
        | inl g ↦ ground (arith, g)
        | inr (key, g) ↦ elim (Option-cases (c.decode key)) [
          | inl d ↦ rw (e, f, g, d, fill_level) (Post-err invalid_base64 (λ q. cc))
          | inr (ck, d) ↦
              rw (e, f, g, d, fill_level)
                (Post-ok _ (record {
                  moved = refl;
                  capped = capped_at (
                      insert (chain.chain_key.counter +ℤ pos 1) (b64 c (c.hmac ck (1 ∷ [])))
                        chain.message_keys);
                  same_type = refl;
                  well = λ w.
                      rw
                        (insert-append (chain.chain_key.counter +ℤ pos 1)
                          (b64 c (c.hmac ck (1 ∷ []))) chain.message_keys w.behind)
                        (first_level ck _ w);
                }))
        ]
      ]
    ]
  ]

  fill_levels-IsBounded :
      (fuel : ℕ) (chain : Chain) (counter : ℤ)
      → counter ≤ℤ (chain.chain_key.counter +ℤ pos fuel)
      → IsBounded chain counter (fill_levels c fuel chain counter)
  unfolding fill_levels
  fill_levels-IsBounded zero chain counter f =
      (let h : (counter ≤ℤ chain.chain_key.counter) =
          omega (arith, f, +ℤ_parts chain.chain_key.counter (pos 0)) in
        rw (not_ahead counter chain.chain_key.counter h, fill_levels)
          (IsBounded-stay chain counter (ok tt) (λ q. cc) (λ q. h)))
  fill_levels-IsBounded (suc fuel) chain counter f =
      elim (Bool-cases (leb_ℤ counter chain.chain_key.counter)) [
        | inl e ↦
            rw (e, fill_levels)
              (IsBounded-stay chain counter (ok tt) (λ q. cc) (λ q. ground (arith, e)))
        | inr e ↦ elim (Post-cases (fill_level-Post chain counter)) [
          | inl (next, g, n) ↦
              rw (e, g, fill_levels)
                (IsBounded-next chain next counter (fill_levels c fuel next counter) n (
                  fill_levels-IsBounded fuel next counter (
                    omega (
                      arith,
                      f,
                      ap pos_part n.moved,
                      ap neg_part n.moved,
                      +ℤ_parts chain.chain_key.counter (pos 1),
                      +ℤ_parts chain.chain_key.counter (pos (suc fuel)),
                      +ℤ_parts next.chain_key.counter (pos fuel),
                    ))))
          | inr (x, g, n) ↦
              rw (e, g, fill_levels) (IsBounded-stay chain counter (err x) (λ q. n (cc)) (λ q. cc))
        ]
      ]

  -- Whatever the chain holds, filling to any counter returns, with success or with one of the
  -- program's errors. The chain it leaves has not moved back, has reached the counter if filling
  -- succeeded, retains at most 2000 keys or, if it held more, no more than it held, is of the
  -- same type, and well-formed if the chain was: also when filling fails half way.
  pub fill_message_keys-IsBounded :
      (chain : Chain) (counter : ℤ) → IsBounded chain counter (fill_message_keys c chain counter)
  unfolding fill_message_keys
  fill_message_keys-IsBounded chain counter =
      (let k = chain.chain_key.counter in
        fill_levels-IsBounded (pos_part (counter -ℤ k)) chain counter
          (omega (arith, -ℤ_parts counter k, +ℤ_parts k (pos (pos_part (counter -ℤ k))))))
