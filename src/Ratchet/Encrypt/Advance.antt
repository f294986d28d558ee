-- ===== src/Ratchet/Encrypt/Advance.antt =====
-- ratchet.rs, `encrypt`: the step of the sending chain.
use oktz_signal.Base.{ℕ, ◌≡◌, refl, ◌∙◌, false, none, List, [], ◌∷◌, arith}
use oktz_signal.Base.{ok}
use oktz_signal.Base.Int.{ℤ, pos, ◌+ℤ◌, ◌≤ℤ◌, +ℤ_parts, leb_ℤ, i64_max}
use oktz_signal.BTreeMap.{get, remove}
use oktz_signal.BTreeMap.Laws.{get-remove, same_self, remove-IsSorted}
use oktz_signal.BTreeMap.Keys.{Str, int_ord}
use oktz_signal.Session.{Chain}
use oktz_signal.Crates.{Crates, IsEncoding}
use oktz_signal.Ratchet.MessageKeys.{fill_message_keys}
use oktz_signal.Ratchet.MessageKeys.Evict.{AllBelow}
use oktz_signal.Ratchet.MessageKeys.Schedule.{IsWellFormed, HasKey, filled, advance, message_key}
use oktz_signal.Ratchet.MessageKeys.Fill.{first-HasKey}
use oktz_signal.Ratchet.MessageKeys.Agreement.{fill_message_keys-filled}
use oktz_signal.Ratchet.MessageKeys.Filled.{get-filled, filled-IsWellFormed}
use oktz_signal.Ratchet.Encrypt.{next_message_key}
use oktz_signal.BTreeMap.{BTreeMap}

pub AllBelow-remove : (k : ℤ) (m : BTreeMap ℤ Str) (b : ℤ) → AllBelow m b → AllBelow (remove k m) b
unfolding remove
AllBelow-remove k [] b a = tt
AllBelow-remove k ((j, v) ∷ m) b (h, a) = ground (arith, AllBelow-remove k m b a, h)

has_room : (k : ℤ) → k ≤ℤ pos 4294967294 → leb_ℤ i64_max k ≡ false
has_room k h = ground (arith, h)

module _ (c : Crates) (encoding : IsEncoding c) where
  -- For a well-formed sending chain whose key decodes to `ck` and that stands below the last
  -- counter of `u32`: the step gives the next counter and, as its key, the HMAC of 1 under `ck`.
  -- The chain it leaves stands at that counter with the HMAC of 2 under `ck` as its key, does not
  -- retain the key it gave, is well-formed again, and has the same type.
  pub next_message_key-advances :
      (chain : Chain) (ck : List ℕ)
      → IsWellFormed chain
      → HasKey c chain ck
      → chain.chain_key.counter ≤ℤ pos 4294967294
      → (next : Chain) × (next_message_key c chain
          ≡ ok (chain.chain_key.counter +ℤ pos 1, (c.encode (c.hmac ck (1 ∷ [])), next)))
        × (next.chain_key.counter ≡ chain.chain_key.counter +ℤ pos 1)
        × HasKey c next (c.hmac ck (2 ∷ []))
        × (get (chain.chain_key.counter +ℤ pos 1) next.message_keys ≡ none)
        × IsWellFormed next
        × (next.chain_type ≡ chain.chain_type)
  unfolding next_message_key filled message_key advance
  next_message_key-advances chain ck well key room =
      (let target = chain.chain_key.counter +ℤ pos 1 in
        let full = filled c 1 ck chain in
        let full_well = filled-IsWellFormed c encoding 1 ck chain well in
        let fills : (fill_message_keys c chain target ≡ (ok tt, full)) =
          fill_message_keys-filled c encoding chain ck target 1 well key refl (omega arith)
            (omega (arith, room, +ℤ_parts chain.chain_key.counter (pos 1))) in
        let got =
          get-filled c encoding chain ck target 1 0 well full_well.sorted (omega arith)
            (omega arith) refl in
        let next : Chain = record full { message_keys = remove target full.message_keys } in
        (
          next,
          rw (has_room chain.chain_key.counter room, next_message_key, fills, got) refl,
          refl,
          (let k = first-HasKey c encoding ck chain in
              record { text = k.text; stored = k.stored; full = k.full; decodes = k.decodes }),
          get-remove target target full.message_keys ∙ rw (same_self target) refl,
          record {
            sorted = remove-IsSorted target full.message_keys full_well.sorted;
            behind =
                AllBelow-remove target full.message_keys (full.chain_key.counter +ℤ pos 1)
                  full_well.behind;
            started = full_well.started;
          },
          refl,
        ))
