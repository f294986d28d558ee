-- ===== src/Ratchet/Plan.antt =====
-- ratchet.rs, the Diffie-Hellman ratchet step: computed by `plan_ratchet` without a write, and
-- carried out by `apply_ratchet`. What the random number generator fills in is an argument.
pub mod Apply
use oktz_signal.Base.{ℕ, ◌%◌, ◌^◌, List, [], ◌∷◌, Option, none, some, if◌then◌else◌, is_empty}
use oktz_signal.Base.{Result, ok, ◌>>=◌}
use oktz_signal.Base.Int.{ℤ, pos, negsuc, pos_part}
use oktz_signal.BTreeMap.{BTreeMap, insert, remove, get}
use oktz_signal.BTreeMap.Keys.{Str, str_ord}
use oktz_signal.Session.{KeyPair, Chain, SessionEntry, sending, receiving, is_sending, is_receiving}
use oktz_signal.Crates.{Crates}
use oktz_signal.Util.{b64, unb64}
use oktz_signal.Curve.{generate_keypair, scalar_multiply}
use oktz_signal.Ratchet.Kdf.{derive_secrets_n, chunk, whisper_ratchet}
use oktz_signal.Ratchet.Chains.{as_x25519, with_prefix, chain_key_ids_b64, find_chain}
use oktz_signal.Ratchet.MessageKeys.{peek_message_key}

pub record RatchetPlan : Type 0 where
  pub retired_recv_ids : List Str
  pub receiving_chain_id : Str
  pub last_remote_ephemeral_key : Str
  pub previous_counter : ℕ
  pub root_key : Str
  pub ephemeral_key_pair : KeyPair
  pub receiving_chain : Chain
  pub sending_chain : Chain

-- A new chain: it stands at -1 and retains nothing.
abbrev pub new_chain : Str → ℕ → Chain
new_chain key chain_type = record {
  chain_key = record { counter = negsuc 0; key = some key };
  chain_type = chain_type;
  message_keys = [];
}

-- `ids[0]`; the source would panic on an empty list, and no caller has one.
abbrev pub first_id : List Str → Str
first_id [] = []
first_id (id ∷ ids) = id

-- `counter.max(0) as u32`
abbrev pub counter_u32 : ℤ → ℕ
counter_u32 k = pos_part k % 2 ^ 32

module _ (c : Crates) where
  -- Step 1: the ids of the chain that is retired.
  unfoldable pub retired_ids : SessionEntry → ℕ → Result (List Str)
  unfolding chain_key_ids_b64 find_chain peek_message_key
  retired_ids entry previous_counter =
      (let last = entry.current_ratchet.last_remote_ephemeral_key in
        if is_empty last then ok [] else (do
          let prev_ids = chain_key_ids_b64 c last
          elim (find_chain entry.chains prev_ids) [
            | none ↦ ok prev_ids
            | some prev_chain ↦
                if is_receiving prev_chain
                then (do _ ← peek_message_key c prev_chain (pos previous_counter); ok prev_ids)
                else ok prev_ids
          ]))

  -- Step 3: the counter of the sending chain that ends.
  unfoldable pub ended_counter : SessionEntry → ℕ
  unfolding chain_key_ids_b64 find_chain
  ended_counter entry =
      elim (find_chain entry.chains
        (chain_key_ids_b64 c entry.current_ratchet.ephemeral_key_pair.pub_key)) [
          | none ↦ entry.current_ratchet.previous_counter
          | some old_send ↦
              if is_sending old_send
              then counter_u32 old_send.chain_key.counter
              else entry.current_ratchet.previous_counter
        ]

  -- The step when no chain is there for the remote key.
  unfoldable pub plan_step : SessionEntry → List Str → ℕ → List ℕ → Result RatchetPlan
  unfolding as_x25519 retired_ids scalar_multiply derive_secrets_n ended_counter generate_keypair
      with_prefix
  plan_step entry remote_key_ids previous_counter seed = do
    remote_raw ← unb64 c (first_id remote_key_ids)
    let remote_key = as_x25519 remote_raw
    retired_recv_ids ← retired_ids entry previous_counter
    ratchet_priv ← unb64 c entry.current_ratchet.ephemeral_key_pair.priv_key
    shared ← scalar_multiply c ratchet_priv remote_key
    root_key ← unb64 c entry.current_ratchet.root_key
    let mk_recv = derive_secrets_n c shared root_key whisper_ratchet 2
    (new_pub, new_priv) ← generate_keypair c seed
    shared_send ← scalar_multiply c new_priv remote_key
    let mk_send = derive_secrets_n c shared_send (chunk mk_recv 0) whisper_ratchet 2
    let new_pub_id = b64 c (with_prefix new_pub)
    ok (record {
      retired_recv_ids = retired_recv_ids;
      receiving_chain_id = first_id remote_key_ids;
      last_remote_ephemeral_key = first_id remote_key_ids;
      previous_counter = ended_counter entry;
      root_key = b64 c (chunk mk_send 0);
      ephemeral_key_pair = record { pub_key = new_pub_id; priv_key = b64 c new_priv };
      receiving_chain = new_chain (b64 c (chunk mk_recv 1)) receiving;
      sending_chain = new_chain (b64 c (chunk mk_send 1)) sending;
    })

  unfoldable pub plan_ratchet : SessionEntry → List Str → ℕ → List ℕ → Result (Option RatchetPlan)
  unfolding find_chain plan_step
  plan_ratchet entry remote_key_ids previous_counter seed =
      elim (find_chain entry.chains remote_key_ids) [
        | some chain ↦ ok none
        | none ↦ (do plan ← plan_step entry remote_key_ids previous_counter seed; ok (some plan))
      ]

unfoldable pub remove_all : List Str → BTreeMap Str Chain → BTreeMap Str Chain
unfolding remove
remove_all [] chains = chains
remove_all (id ∷ ids) chains = remove_all ids (remove id chains)

-- The loop that removes the first of the ids that is there, and breaks.
unfoldable pub remove_first : List Str → BTreeMap Str Chain → Option Chain × BTreeMap Str Chain
unfolding get remove
remove_first [] chains = (none, chains)
remove_first (id ∷ ids) chains =
    (let rest = remove_first ids chains in
      elim (get id chains) [ none ↦ rest | some chain ↦ (some chain, remove id chains) ])

module _ (c : Crates) where
  unfoldable pub apply_ratchet : SessionEntry → RatchetPlan → SessionEntry
  unfolding remove_all insert remove_first chain_key_ids_b64
  apply_ratchet entry plan = do
    let ratchet = entry.current_ratchet
    let chains1 = remove_all plan.retired_recv_ids entry.chains
    let chains2 = insert plan.receiving_chain_id plan.receiving_chain chains1
    let (retired_sending, chains3) =
        remove_first (chain_key_ids_b64 c ratchet.ephemeral_key_pair.pub_key) chains2
    let previous_counter : ℕ = elim retired_sending [
      | none ↦ ratchet.previous_counter
      | some old_send ↦
          if is_sending old_send then plan.previous_counter else ratchet.previous_counter
    ]
    record entry {
      current_ratchet = record {
        ephemeral_key_pair = plan.ephemeral_key_pair;
        last_remote_ephemeral_key = plan.last_remote_ephemeral_key;
        previous_counter = previous_counter;
        root_key = plan.root_key;
      };
      chains = insert plan.ephemeral_key_pair.pub_key plan.sending_chain chains3;
    }
