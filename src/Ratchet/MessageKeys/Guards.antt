-- ===== src/Ratchet/MessageKeys/Guards.antt =====
-- ratchet.rs: the guards of `fill_message_keys` and `peek_message_key`, which are the same.
use oktz_signal.Base.{ℕ, zero, suc, ◌<◌, ◌≡◌, refl, List, arith}
use oktz_signal.Base.{true, false, inl, inr}
use oktz_signal.Base.{
  ok, err, Error, receiving_chain_closed, over_max_skip, invalid_base64, Bool-cases, Option-cases,
  ◌⊎◌,
}
use oktz_signal.Base.Int.{ℤ, pos, ◌-ℤ◌, wrap_i64, ltb_ℤ, leb_ℤ}
use oktz_signal.BTreeMap.Keys.{int_ord}
use oktz_signal.Session.{Chain, is_closed}
use oktz_signal.Crates.{Crates, IsEncoding}
use oktz_signal.Ratchet.MessageKeys.{fill_level, fill_levels, peek_message_key}
use oktz_signal.Ratchet.MessageKeys.Schedule.{HasKey}

module _ (c : Crates) (encoding : IsEncoding c) where
  pub fill_levels_stay :
      (fuel : ℕ) (chain : Chain) (counter : ℤ)
      → leb_ℤ counter chain.chain_key.counter ≡ true
      → fill_levels c fuel chain counter ≡ (ok tt, chain)
  unfolding fill_levels
  fill_levels_stay zero chain counter h = rw (h, fill_levels) refl
  fill_levels_stay (suc fuel) chain counter h = rw (h, fill_levels) refl

  pub fill_levels_fails :
      (fuel : ℕ) (chain : Chain) (counter : ℤ) (e : Error)
      → 0 < fuel
      → leb_ℤ counter chain.chain_key.counter ≡ false
      → fill_level c chain counter ≡ err e
      → fill_levels c fuel chain counter ≡ (err e, chain)
  unfolding fill_levels
  fill_levels_fails zero chain counter e p h l = ground arith
  fill_levels_fails (suc fuel) chain counter e p h l = rw (h, fill_levels, l) refl

  -- Both are refused alike, or the chain has a key and the counter is near.
  pub same_guards :
      (chain : Chain) (counter : ℤ)
      → leb_ℤ counter chain.chain_key.counter ≡ false
      → ((e : Error) × (peek_message_key c chain counter ≡ err e)
          × (fill_level c chain counter ≡ err e))
        ⊎ ((ck : List ℕ) × HasKey c chain ck
            × (ltb_ℤ (pos 2000) (wrap_i64 (counter -ℤ chain.chain_key.counter)) ≡ false))
  unfolding peek_message_key fill_level
  same_guards chain counter h = elim (Bool-cases (is_closed chain.chain_key)) [
    | inl e ↦
        inl (receiving_chain_closed, rw (h, peek_message_key, e) refl, rw (e, fill_level) refl)
    | inr e ↦ elim (Bool-cases (ltb_ℤ (pos 2000) (wrap_i64 (counter -ℤ chain.chain_key.counter)))) [
      | inl f ↦ inl (over_max_skip, rw (h, peek_message_key, e, f) refl, rw (e, f, fill_level) refl)
      | inr f ↦ elim (Option-cases chain.chain_key.key) [
        | inl g ↦ ground (arith, g)
        | inr (key, g) ↦ elim (Option-cases (c.decode key)) [
          | inl d ↦ inl (
            invalid_base64,
            rw (h, peek_message_key, e, f, g, d) refl,
            rw (e, f, g, d, fill_level) refl,
          )
          | inr (ck, d) ↦
              inr
                (ck, record { text = key; stored = g; full = ground (arith, e, g); decodes = d }, f)
        ]
      ]
    ]
  ]
