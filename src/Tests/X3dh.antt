-- ===== src/Tests/X3dh.antt =====
-- x3dh.rs at concrete inputs.
use oktz_signal.Base.{ℕ, ◌≡◌, refl, List, [], ◌∷◌, Option, none, some, replicate, ok}
use oktz_signal.Base.Int.{pos, negsuc}
use oktz_signal.BTreeMap.{get}
use oktz_signal.BTreeMap.Keys.{str_ord}
use oktz_signal.Session.{Chain, SessionEntry}
use oktz_signal.Curve.{scalar_multiply}
use oktz_signal.Ratchet.Kdf.{whisper_ratchet}
use oktz_signal.Ratchet.Plan.{RatchetPlan, plan_step, new_chain}
use oktz_signal.X3dh.{
  X3dhParams, initiator_entry, initiator_secret, recipient_secret, derive_secrets,
}
use oktz_signal.X3dh.Agreement.{one_time, initiator_secret-recipient_secret}
use oktz_signal.X3dh.FirstStep.{plan_step-initiator_entry}
use oktz_signal.Tests.Toy.{toy, toy-IsEncoding, toy-IsDiffieHellman}

abbrev identity_a : List ℕ
identity_a = replicate 32 5

abbrev ephemeral_a : List ℕ
ephemeral_a = replicate 32 1

abbrev identity_b : List ℕ
identity_b = replicate 32 6

abbrev signed_b : List ℕ
signed_b = replicate 32 2

abbrev one_time_b : Option (List ℕ)
one_time_b = some (replicate 32 7)

initiator_secret-recipient_secret_example :
    initiator_secret toy identity_a ephemeral_a
      (toy.mul_base_clamped identity_b)
      (toy.mul_base_clamped signed_b)
      (one_time toy toy-IsDiffieHellman one_time_b)
    ≡ recipient_secret toy identity_b signed_b one_time_b
        (toy.mul_base_clamped identity_a)
        (toy.mul_base_clamped ephemeral_a)
initiator_secret-recipient_secret_example =
    initiator_secret-recipient_secret toy toy-IsDiffieHellman identity_a ephemeral_a identity_b
      signed_b one_time_b (refl, refl, refl, refl, refl)

abbrev entry : SessionEntry
entry = record {
  registration_id = 7;
  current_ratchet = record {
    ephemeral_key_pair = record { pub_key = toy.mul_base_clamped signed_b; priv_key = signed_b };
    last_remote_ephemeral_key = [];
    previous_counter = 0;
    root_key = 9 ∷ [];
  };
  index_info = record {
    base_key = 1 ∷ [];
    base_key_type = 0;
    closed = negsuc 0;
    used = pos 1;
    created = pos 1;
    remote_identity_key = 4 ∷ [];
  };
  chains = [];
  pending_pre_key = none;
}

abbrev params : X3dhParams
params = record {
  identity_priv = identity_a;
  identity_pub = toy.mul_base_clamped identity_a;
  signed_prekey_pub = toy.mul_base_clamped signed_b;
  signed_prekey_sig = replicate 64 0;
  prekey_pub = none;
  prekey_id = none;
  recipient_pub = 5 ∷ toy.mul_base_clamped identity_b;
  recipient_prekey = toy.mul_base_clamped signed_b;
  registration_id = 7;
  signed_key_id = 1;
}

abbrev remote : List ℕ
remote = 5 ∷ replicate 32 32

abbrev seed : List ℕ
seed = replicate 32 3

abbrev plan : RatchetPlan
plan = record {
  retired_recv_ids = [];
  receiving_chain_id = remote;
  last_remote_ephemeral_key = remote;
  previous_counter = 0;
  root_key = replicate 32 117;
  ephemeral_key_pair = record { pub_key = 5 ∷ replicate 32 96; priv_key = seed };
  receiving_chain = new_chain (replicate 32 218) 2;
  sending_chain = new_chain (replicate 32 186) 1;
}

step_succeeds : plan_step toy entry (remote ∷ []) 0 seed ≡ ok plan
unfolding plan_step
step_succeeds = refl

agreed : scalar_multiply toy ephemeral_a (toy.mul_base_clamped signed_b) ≡ ok (replicate 32 97)
unfolding scalar_multiply
agreed = refl

plan_step-initiator_entry_example :
    (chain : Chain) × (get
        (toy.encode (toy.mul_base_clamped ephemeral_a))
        (initiator_entry toy params ephemeral_a
          (toy.mul_base_clamped ephemeral_a)
          (toy.mul_base_clamped signed_b)
          (derive_secrets toy (replicate 32 97) (9 ∷ []) whisper_ratchet)
          (pos 3)).chains
      ≡ some chain)
    × (plan.receiving_chain.chain_key ≡ chain.chain_key)
plan_step-initiator_entry_example =
    plan_step-initiator_entry toy toy-IsEncoding toy-IsDiffieHellman params
      (toy.mul_base_clamped signed_b) (pos 3) entry (remote ∷ []) 0 seed ephemeral_a signed_b
      (9 ∷ []) (replicate 32 97) plan refl refl refl refl refl agreed step_succeeds
