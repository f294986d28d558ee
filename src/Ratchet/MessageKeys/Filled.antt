-- ===== src/Ratchet/MessageKeys/Filled.antt =====
-- ratchet.rs, `fill_message_keys`: the chain that the schedule fills, and its keys.
use oktz_signal.Base.{ℕ, zero, suc, ◌≤◌, ◌<◌, ◌≡◌, sym, ◌∙◌, List, [], ◌∷◌, ◌++◌, arith}
use oktz_signal.Base.{some}
use oktz_signal.Base.Int.{ℤ, pos, ◌+ℤ◌}
use oktz_signal.BTreeMap.{get, IsSorted}
use oktz_signal.BTreeMap.Entries.{Has→get}
use oktz_signal.BTreeMap.Keys.{int_ord}
use oktz_signal.Session.{Chain}
use oktz_signal.Crates.{Crates, IsEncoding}
use oktz_signal.Ratchet.MessageKeys.Evict.{newest, Has-newest}
use oktz_signal.Ratchet.MessageKeys.Schedule.{
  IsWellFormed, message_key, schedule, filled, length-schedule, Has-schedule,
}
use oktz_signal.Ratchet.MessageKeys.Fill.{one_more, filled-suc, first-IsWellFormed}

module _ (c : Crates) (encoding : IsEncoding c) where
  -- The entries of the steps are retained, and a map has them.
  pub get-filled :
      (chain : Chain) (ck : List ℕ) (counter : ℤ) (n i : ℕ)
      → IsWellFormed chain
      → IsSorted (filled c n ck chain).message_keys
      → i < n
      → n ≤ 2000
      → counter ≡ chain.chain_key.counter +ℤ pos (suc i)
      → get counter (filled c n ck chain).message_keys ≡ some (c.encode (message_key c i ck))
  unfolding filled
  get-filled chain ck counter zero i well sorted h l e = ground arith
  get-filled chain ck counter (suc n) i well sorted h l e =
      (let k = chain.chain_key.counter +ℤ pos 1 in
        let entries = schedule c (suc n) ck k in
        Has→get counter (c.encode (message_key c i ck)) (newest (chain.message_keys ++ entries))
          sorted
          (Has-newest counter (c.encode (message_key c i ck)) chain.message_keys entries
            (omega (arith, length-schedule c (suc n) ck k, l))
            (Has-schedule c (suc n) i ck k counter h
              (e ∙ sym (one_more c encoding chain.chain_key.counter i)))))

  pub filled-IsWellFormed :
      (n : ℕ) (ck : List ℕ) (chain : Chain)
      → IsWellFormed chain
      → IsWellFormed (filled c n ck chain)
  unfolding filled
  filled-IsWellFormed zero ck chain well = well
  filled-IsWellFormed (suc n) ck chain well = rw (filled-suc c encoding n ck chain) (
      filled-IsWellFormed n (c.hmac ck (2 ∷ [])) (filled c 1 ck chain)
        (first-IsWellFormed c ck chain well))
