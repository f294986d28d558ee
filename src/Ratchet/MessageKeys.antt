-- ===== src/Ratchet/MessageKeys.antt =====
-- ratchet.rs, the message keys of one chain: `fill_message_keys`, its read-only twin
-- `peek_message_key`, and the cap on the keys that are retained.
pub mod Evict
pub mod Schedule
pub mod Fill
pub mod Filled
pub mod Guards
pub mod Agreement
pub mod Bounds
use oktz_signal.Base.{
  ℕ, zero, suc, List, [], ◌∷◌, Bool, true, false, Option, none, some, ltb, length, if◌then◌else◌,
}
use oktz_signal.Base.{
  Result, ok, err, ◌>>=◌, ◌>>◌, bail_if, receiving_chain_closed, over_max_skip, out_of_fuel,
}
use oktz_signal.Base.Int.{ℤ, pos, pos_part, ◌+ℤ◌, ◌-ℤ◌, ltb_ℤ, leb_ℤ, wrap_i64}
use oktz_signal.BTreeMap.{BTreeMap, get, insert}
use oktz_signal.BTreeMap.Keys.{Str, int_ord}
use oktz_signal.Session.{Chain, is_closed, open_key}
use oktz_signal.Crates.{Crates}
use oktz_signal.Util.{b64, unb64}

abbrev pub max_skip : ℤ
max_skip = pos 2000

abbrev pub max_retained_message_keys : ℕ
max_retained_message_keys = 2000

-- The loop of `evict_oldest_message_keys`: `pop_first` while there are too many.
unfoldable pub evict : BTreeMap ℤ Str → BTreeMap ℤ Str
evict [] = []
evict (e ∷ m) = if ltb max_retained_message_keys (length (e ∷ m)) then evict m else e ∷ m

abbrev pub evict_oldest_message_keys : Chain → Chain
unfolding evict
evict_oldest_message_keys chain = record chain { message_keys = evict chain.message_keys }

module _ (c : Crates) where
  -- One level of the recursion: what is behind the test `counter <= chainKey.counter`. A level
  -- that fails has written nothing.
  unfoldable pub fill_level : Chain → ℤ → Result Chain
  unfolding wrap_i64 ◌+ℤ◌ ◌-ℤ◌ insert evict
  fill_level chain counter = do
    bail_if (is_closed chain.chain_key) receiving_chain_closed
    bail_if (ltb_ℤ max_skip (wrap_i64 (counter -ℤ chain.chain_key.counter))) over_max_skip
    key ← open_key chain.chain_key
    ck ← unb64 c key
    let message_key = c.hmac ck (1 ∷ [])
    let next_chain_key = c.hmac ck (2 ∷ [])
    let position = chain.chain_key.counter +ℤ pos 1
    let filled = record chain {
      message_keys = insert position (b64 c message_key) chain.message_keys;
    }
    ok (record (evict_oldest_message_keys filled) {
      chain_key = record { counter = position; key = some (b64 c next_chain_key) };
    })

  -- The recursion, with the chain it leaves on success and on failure.
  unfoldable pub fill_levels : ℕ → Chain → ℤ → Result (Unit {0}) × Chain
  unfolding fill_level
  fill_levels zero chain counter = elim (leb_ℤ counter chain.chain_key.counter) [
    | true ↦ (ok tt, chain)
    | false ↦ (err out_of_fuel, chain)
  ]
  fill_levels (suc fuel) chain counter = elim (leb_ℤ counter chain.chain_key.counter) [
    | true ↦ (ok tt, chain)
    | false ↦ elim (fill_level chain counter) [
      | ok next ↦ fill_levels fuel next counter
      | err e ↦ (err e, chain)
    ]
  ]

  -- Each level moves the chain by one, so the distance is fuel enough.
  unfoldable pub fill_message_keys : Chain → ℤ → Result (Unit {0}) × Chain
  unfolding fill_levels ◌-ℤ◌
  fill_message_keys chain counter =
      fill_levels (pos_part (counter -ℤ chain.chain_key.counter)) chain counter

  -- The body of `for _ in chain.chainKey.counter..counter`.
  unfoldable pub peek_loop : ℕ → List ℕ → List ℕ → List ℕ
  peek_loop zero ck message_key = message_key
  peek_loop (suc n) ck message_key = peek_loop n (c.hmac ck (2 ∷ [])) (c.hmac ck (1 ∷ []))

  unfoldable pub peek_message_key : Chain → ℤ → Result (Option Str)
  unfolding peek_loop wrap_i64 ◌-ℤ◌ get
  peek_message_key chain counter = elim (leb_ℤ counter chain.chain_key.counter) [
    | true ↦ ok (get counter chain.message_keys)
    | false ↦ (do
      bail_if (is_closed chain.chain_key) receiving_chain_closed
      bail_if (ltb_ℤ max_skip (wrap_i64 (counter -ℤ chain.chain_key.counter))) over_max_skip
      key ← open_key chain.chain_key
      ck ← unb64 c key
      ok (some (b64 c (peek_loop (pos_part (counter -ℤ chain.chain_key.counter)) ck []))))
  ]
