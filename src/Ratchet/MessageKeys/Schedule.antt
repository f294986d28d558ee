-- ===== src/Ratchet/MessageKeys/Schedule.antt =====
-- ratchet.rs: the symmetric ratchet, described apart from the code that runs it.
use oktz_signal.Base.{ℕ, zero, suc, ◌<◌, ◌≡◌, refl, ap, List, [], ◌∷◌, ◌++◌, arith, some, false}
use oktz_signal.Base.{length, is_empty, inl, inr}
use oktz_signal.Base.Int.{ℤ, pos, negsuc, pos_part, neg_part, ◌+ℤ◌, ◌≤ℤ◌, +ℤ_parts, eq_of_parts}
use oktz_signal.BTreeMap.{BTreeMap, IsSorted}
use oktz_signal.BTreeMap.Entries.{Has}
use oktz_signal.BTreeMap.Keys.{Str, int_ord}
use oktz_signal.Session.{Chain}
use oktz_signal.Crates.{Crates}
use oktz_signal.Ratchet.MessageKeys.Evict.{AllBelow, newest}

-- A chain is well-formed when its retained keys are in order, none is ahead of it, and it stands
-- at -1, where it starts, or later.
pub record IsWellFormed (chain : Chain) : Type 0 where
  pub sorted : IsSorted chain.message_keys
  pub behind : AllBelow chain.message_keys (chain.chain_key.counter +ℤ pos 1)
  pub started : negsuc 0 ≤ℤ chain.chain_key.counter

module _ (c : Crates) where
  -- The chain's key is there, is not blank, and is the text of `ck`.
  pub record HasKey (chain : Chain) (ck : List ℕ) : Type 0 where
    pub text : Str
    pub stored : chain.chain_key.key ≡ some text
    pub full : is_empty text ≡ false
    pub decodes : c.decode text ≡ some ck

  -- The chain key after `n` steps.
  unfoldable pub advance : ℕ → List ℕ → List ℕ
  advance zero ck = ck
  advance (suc n) ck = advance n (c.hmac ck (2 ∷ []))

  -- The message key of the `n`-th step.
  unfoldable pub message_key : ℕ → List ℕ → List ℕ
  unfolding advance
  message_key n ck = c.hmac (advance n ck) (1 ∷ [])

  -- The entries of `n` steps, from a position on.
  unfoldable pub schedule : ℕ → List ℕ → ℤ → BTreeMap ℤ Str
  schedule zero ck k = []
  schedule (suc n) ck k =
      (k, c.encode (c.hmac ck (1 ∷ []))) ∷ schedule n (c.hmac ck (2 ∷ [])) (k +ℤ pos 1)

  -- The chain after `n` steps; it retains the newest 2000 of its entries followed by
  -- those of the steps, and no step drops nothing.
  unfoldable pub filled : ℕ → List ℕ → Chain → Chain
  unfolding schedule advance newest
  filled zero ck chain = chain
  filled (suc n) ck chain = record chain {
    message_keys =
        newest (chain.message_keys ++ schedule (suc n) ck (chain.chain_key.counter +ℤ pos 1));
    chain_key = record {
      counter = chain.chain_key.counter +ℤ pos (suc n);
      key = some (c.encode (advance (suc n) ck));
    };
  }

  pub length-schedule : (n : ℕ) (ck : List ℕ) (k : ℤ) → length (schedule n ck k) ≡ n
  unfolding schedule
  length-schedule zero ck k = refl
  length-schedule (suc n) ck k = ap suc (length-schedule n (c.hmac ck (2 ∷ [])) (k +ℤ pos 1))

  -- The entry of the step at `k + i`.
  pub Has-schedule :
      (n i : ℕ) (ck : List ℕ) (k j : ℤ)
      → i < n
      → j ≡ k +ℤ pos i
      → Has j (c.encode (message_key i ck)) (schedule n ck k)
  unfolding schedule message_key advance
  Has-schedule zero i ck k j h e = ground arith
  Has-schedule (suc n) zero ck k j h e =
      inl (eq_of_parts j k (omega (arith, +ℤ_parts k (pos 0), ap pos_part e, ap neg_part e)), refl)
  Has-schedule (suc n) (suc i) ck k j h e = inr (
      Has-schedule n i (c.hmac ck (2 ∷ [])) (k +ℤ pos 1) j (omega arith) (
        eq_of_parts j (k +ℤ pos 1 +ℤ pos i) (
          omega (
            arith,
            +ℤ_parts k (pos (suc i)),
            +ℤ_parts k (pos 1),
            +ℤ_parts (k +ℤ pos 1) (pos i),
            ap pos_part e,
            ap neg_part e,
          ))))
