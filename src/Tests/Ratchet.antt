-- ===== src/Tests/Ratchet.antt =====
-- ratchet.rs, message keys and chains, at concrete inputs.
use oktz_signal.Base.{◌≡◌, refl, [], ◌∷◌, Option, none, some, arith}
use oktz_signal.Base.{ok, err, Error, replicate}
use oktz_signal.Base.Int.{pos, ◌+ℤ◌}
use oktz_signal.BTreeMap.{get}
use oktz_signal.BTreeMap.Keys.{Str, str_ord, int_ord}
use oktz_signal.Session.{Chain}
use oktz_signal.Ratchet.MessageKeys.{fill_message_keys, peek_message_key}
use oktz_signal.Ratchet.MessageKeys.Schedule.{IsWellFormed, HasKey, filled}
use oktz_signal.Ratchet.MessageKeys.Bounds.{IsBounded, fill_message_keys-IsBounded}
use oktz_signal.Ratchet.MessageKeys.Agreement.{
  fill_message_keys-filled, fill_message_keys-peek_message_key, fill_message_keys_skipped,
}
use oktz_signal.Ratchet.Encrypt.{next_message_key}
use oktz_signal.Ratchet.Encrypt.Advance.{next_message_key-advances}
use oktz_signal.Tests.Toy.{toy, toy-IsEncoding}

-- A receiving chain at 4 that retains the key of message 2.
abbrev chain : Chain
chain = record {
  chain_key = record { counter = pos 4; key = some (7 ∷ []) };
  chain_type = 2;
  message_keys = (pos 2, 9 ∷ []) ∷ [];
}

chain-IsWellFormed : IsWellFormed chain
unfolding ◌+ℤ◌
chain-IsWellFormed = record { sorted = (tt, tt); behind = (omega arith, tt); started = omega arith }

chain-HasKey : HasKey toy chain (7 ∷ [])
chain-HasKey = record { text = 7 ∷ []; stored = refl; full = refl; decodes = refl }

fill_message_keys-filled_example :
    fill_message_keys toy chain (pos 7) ≡ (ok tt, filled toy 3 (7 ∷ []) chain)
unfolding ◌+ℤ◌
fill_message_keys-filled_example =
    fill_message_keys-filled toy toy-IsEncoding chain (7 ∷ []) (pos 7) 3 chain-IsWellFormed
      chain-HasKey refl (omega arith) (omega arith)

fill_message_keys-peek_message_key_example :
    ((e : Error)
      → peek_message_key toy chain (pos 7) ≡ err e
      → fill_message_keys toy chain (pos 7) ≡ (err e, chain))
    × ((o : Option Str)
        → peek_message_key toy chain (pos 7) ≡ ok o
        → ((fill_message_keys toy chain (pos 7)).0 ≡ ok tt)
          × (get (pos 7) (fill_message_keys toy chain (pos 7)).1.message_keys ≡ o))
fill_message_keys-peek_message_key_example =
    fill_message_keys-peek_message_key toy toy-IsEncoding chain (pos 7) chain-IsWellFormed
      (omega arith)

fill_chain : (fill_message_keys toy chain (pos 7)).0 ≡ ok tt
unfolding fill_message_keys
fill_chain = refl

peek_chain : peek_message_key toy chain (pos 5) ≡ ok (some (replicate 32 27))
unfolding peek_message_key
peek_chain = refl

fill_message_keys_skipped_example :
    get (pos 5) (fill_message_keys toy chain (pos 7)).1.message_keys ≡ some (replicate 32 27)
fill_message_keys_skipped_example =
    fill_message_keys_skipped toy toy-IsEncoding chain (pos 5) (pos 7) (replicate 32 27)
      chain-IsWellFormed (omega arith) (omega arith) (omega arith) fill_chain peek_chain

fill_message_keys-IsBounded_example :
    IsBounded chain (pos 9000) (fill_message_keys toy chain (pos 9000))
fill_message_keys-IsBounded_example = fill_message_keys-IsBounded toy chain (pos 9000)

next_message_key-advances_example :
    (next : Chain) × (next_message_key toy chain
      ≡ ok (pos 4 +ℤ pos 1, (toy.encode (toy.hmac (7 ∷ []) (1 ∷ [])), next)))
    × (next.chain_key.counter ≡ pos 4 +ℤ pos 1)
    × HasKey toy next (toy.hmac (7 ∷ []) (2 ∷ []))
    × (get (pos 4 +ℤ pos 1) next.message_keys ≡ none)
    × IsWellFormed next
    × (next.chain_type ≡ chain.chain_type)
next_message_key-advances_example =
    next_message_key-advances toy toy-IsEncoding chain (7 ∷ []) chain-IsWellFormed chain-HasKey
      (omega arith)
