-- ===== src/Conversation/First.antt =====
-- ratchet.rs and x3dh.rs: the recipient's first ratchet step, on an entry that has no chain yet.
use oktz_signal.Base.{
  ℕ, ◌≡◌, ◌≢◌, refl, ap, sym, ◌∙◌, List, [], ◌∷◌, none, some, false, arith, not, ◌&&◌, inl, inr,
  Bool-cases, Option-cases, if◌then◌else◌,
}
use oktz_signal.Base.{length, drop, bytes_eq, ok, is_empty, ◌>>=◌}
use oktz_signal.Base.Int.{ℤ}
use oktz_signal.BTreeMap.{BTreeMap, get, contains_key, insert, same}
use oktz_signal.BTreeMap.Laws.{get-insert, get-remove, same_iff, same_self}
use oktz_signal.BTreeMap.Keys.{Str, str_ord}
use oktz_signal.Session.{Chain, SessionEntry, sending, receiving}
use oktz_signal.Crates.{Crates, IsEncoding}
use oktz_signal.Curve.{scalar_multiply, generate_keypair}
use oktz_signal.Ratchet.Kdf.{derive_secrets_n, chunk, whisper_ratchet}
use oktz_signal.Ratchet.Chains.{
  is_wire_key, chain_key_ids, chain_key_ids_b64, find_chain, find_chain_mut, with_prefix,
}
use oktz_signal.Ratchet.Plan.{
  RatchetPlan, new_chain, plan_step, plan_ratchet, retired_ids, ended_counter, apply_ratchet,
  remove_all, remove_first, first_id,
}
use oktz_signal.X3dh.{recipient_entry}
use oktz_signal.X3dh.Agreement.{IsDiffieHellman, wire, as_x25519-wire}

find_chain-nil : (ids : List Str) → find_chain [] ids ≡ none
unfolding find_chain
find_chain-nil [] = refl
find_chain-nil (id ∷ ids) = find_chain-nil ids

not_wire : (key : List ℕ) → length key ≡ 32 → is_wire_key key ≡ false
not_wire [] h = ground (arith, h)
not_wire (x ∷ xs) h = ground (arith, h)

pub differ : (j k : Str) → j ≢ k → same j k ≡ false
differ j k n = elim (Bool-cases (same j k)) [ inl e ↦ absurd (n ((same_iff j k).0 e)) | inr e ↦ e ]

pub found_first :
    (m : BTreeMap Str Chain) (id : Str) (ids : List Str) (chain : Chain)
    → get id m ≡ some chain
    → find_chain_mut m (id ∷ ids) ≡ some (id, chain)
unfolding find_chain_mut contains_key
found_first m id ids chain h = rw (h, find_chain_mut, contains_key) refl

pub with_prefix-short : (key : List ℕ) → length key ≡ 32 → with_prefix key ≡ 5 ∷ key
unfolding with_prefix
with_prefix-short key h = ground (arith, h)

pub tail_of : (a b : List ℕ) → ◌≡◌ {A = List ℕ} (5 ∷ a) (5 ∷ b) → b ≡ a
tail_of a b h = cc

get-remove_first :
    (j id : Str) (m : BTreeMap Str Chain)
    → same j id ≡ false
    → get j (remove_first (id ∷ []) m).1 ≡ get j m
unfolding remove_first
get-remove_first j id m apart = elim (Option-cases (get id m)) [
  | inl e ↦ rw (e, remove_first) refl
  | inr (chain, e) ↦
      rw (e, remove_first) (get-remove id j m ∙ ap (λ b. if b then none else get j m) apart)
]

module _ (c : Crates) (encoding : IsEncoding c) where
  pub encode_injective : (a b : List ℕ) → c.encode a ≡ c.encode b → a ≡ b
  encode_injective a b e =
      inner (sym (encoding.decode-encode a) ∙ ap c.decode e ∙ encoding.decode-encode b)
    where
      inner : {a b : List ℕ} → some a ≡ some b → a ≡ b
      inner q = cc

  -- A key of 32 bytes has one id.
  pub chain_key_ids_b64-plain :
      (key : List ℕ) → length key ≡ 32 → chain_key_ids_b64 c (c.encode key) ≡ c.encode key ∷ []
  unfolding chain_key_ids_b64 chain_key_ids
  chain_key_ids_b64-plain key h =
      rw (encoding.decode-encode key, chain_key_ids_b64, chain_key_ids, not_wire key h) refl

  -- The first id of a key is its own text.
  pub chain_key_ids-first :
      (key : List ℕ) → (rest : List Str) × (chain_key_ids c key ≡ c.encode key ∷ rest)
  unfolding chain_key_ids
  chain_key_ids-first key =
      elim (Bool-cases (is_wire_key key && not (bytes_eq (c.encode (drop 1 key)) (c.encode key)))) [
        | inl e ↦ (c.encode (drop 1 key) ∷ [], rw (e, chain_key_ids) refl)
        | inr e ↦ ([], rw (e, chain_key_ids) refl)
      ]

module _ (c : Crates) (encoding : IsEncoding c) (dh : IsDiffieHellman c)
    (sb ea root agreed new_pub new_priv agreed_new seed : List ℕ) where
  -- What a ratchet step on the ephemeral key `ea` plans.
  unfoldable pub plan_from : List Str → ℕ → RatchetPlan
  plan_from retired ended = do
    let mk_recv = derive_secrets_n c agreed root whisper_ratchet 2
    let mk_send = derive_secrets_n c agreed_new (chunk mk_recv 0) whisper_ratchet 2
    record {
      retired_recv_ids = retired;
      receiving_chain_id = c.encode (wire c dh ea);
      last_remote_ephemeral_key = c.encode (wire c dh ea);
      previous_counter = ended;
      root_key = c.encode (chunk mk_send 0);
      ephemeral_key_pair = record {
        pub_key = c.encode (with_prefix new_pub);
        priv_key = c.encode new_priv;
      };
      receiving_chain = new_chain (c.encode (chunk mk_recv 1)) receiving;
      sending_chain = new_chain (c.encode (chunk mk_send 1)) sending;
    }

  module _ (agrees : scalar_multiply c sb (c.mul_base_clamped ea) ≡ ok agreed)
      (fresh : generate_keypair c seed ≡ ok (new_pub, new_priv))
      (agrees_new : scalar_multiply c new_priv (c.mul_base_clamped ea) ≡ ok agreed_new) where
    pub plan_step-from :
        (entry : SessionEntry) (ids retired : List Str) (previous : ℕ)
        → entry.current_ratchet.ephemeral_key_pair.priv_key ≡ c.encode sb
        → entry.current_ratchet.root_key ≡ c.encode root
        → first_id ids ≡ c.encode (wire c dh ea)
        → retired_ids c entry previous ≡ ok retired
        → plan_step c entry ids previous seed ≡ ok (plan_from retired (ended_counter c entry))
    unfolding plan_step plan_from
    plan_step-from entry ids retired previous p r f q =
        (let remote = encoding.decode-encode (wire c dh ea) in
          let priv = encoding.decode-encode sb in
          let root_text = encoding.decode-encode root in
          let key = as_x25519-wire c dh ea in
          rw (f, plan_step, remote, q, p, priv, key, agrees, r, root_text, fresh, agrees_new) refl)

    -- The recipient's entry finds no chain, so that the step is made.
    pub plan_ratchet-recipient_entry :
        (sender : List ℕ) (registration_id previous : ℕ) (now : ℤ) (mk : List (List ℕ))
        → chunk mk 0 ≡ root
        → is_empty (c.encode (c.mul_base_clamped ea)) ≡ false
        → plan_ratchet c
            (recipient_entry c sb
              (c.mul_base_clamped sb)
              sender
              (c.mul_base_clamped ea)
              registration_id
              mk
              now)
            (chain_key_ids c (wire c dh ea))
            previous
            seed
          ≡ ok (
              some (
                plan_from (chain_key_ids_b64 c (c.encode (c.mul_base_clamped ea))) (
                  ended_counter c (
                    recipient_entry c sb
                      (c.mul_base_clamped sb)
                      sender
                      (c.mul_base_clamped ea)
                      registration_id
                      mk
                      now))))
    unfolding plan_ratchet recipient_entry
    plan_ratchet-recipient_entry sender registration_id previous now mk at_root full =
        (let pb = c.mul_base_clamped sb in
          let pe = c.mul_base_clamped ea in
          let entry = recipient_entry c sb pb sender pe registration_id mk now in
          let ids = chain_key_ids c (wire c dh ea) in
          let (rest, shape) = chain_key_ids-first c encoding (wire c dh ea) in
          let retired : (retired_ids c entry previous ≡ ok (chain_key_ids_b64 c (c.encode pe))) =
            rw (full, retired_ids, find_chain-nil (chain_key_ids_b64 c (c.encode pe))) refl in
          rw (find_chain-nil ids, plan_ratchet)
            (ap (λ p. p >>= λ q. ok (some q))
              (plan_step-from entry ids (chain_key_ids_b64 c (c.encode pe)) previous refl
                (ap c.encode at_root) (ap first_id shape) retired)))

  -- Behind the step the receiving chain is found under the ephemeral key.
  pub find_chain_mut-apply_ratchet :
      (entry : SessionEntry) (pb : List ℕ) (retired : List Str) (ended : ℕ)
      → entry.current_ratchet.ephemeral_key_pair.pub_key ≡ c.encode pb
      → length pb ≡ 32
      → new_pub ≢ c.mul_base_clamped ea
      → length new_pub ≡ 32
      → find_chain_mut
          (apply_ratchet c entry (plan_from retired ended)).chains
          (chain_key_ids c (wire c dh ea))
        ≡ some (c.encode (wire c dh ea), (plan_from retired ended).receiving_chain)
  unfolding apply_ratchet plan_from
  find_chain_mut-apply_ratchet entry pb retired ended own own_whole new_key whole =
      (let id = c.encode (wire c dh ea) in
        let new_id = c.encode (with_prefix new_pub) in
        let chain = (plan_from retired ended).receiving_chain in
        let second = (plan_from retired ended).sending_chain in
        let (rest, shape) = chain_key_ids-first c encoding (wire c dh ea) in
        let other : (same id (c.encode pb) ≡ false) = differ id (c.encode pb) (λ e. omega (
          arith,
          ap length (encode_injective c encoding (wire c dh ea) pb e),
          own_whole,
          dh.length-public ea,
        )) in
        let apart : (same id new_id ≡ false) = differ id new_id (λ e. new_key (
          tail_of (c.mul_base_clamped ea) new_pub (
            encode_injective c encoding (wire c dh ea) (with_prefix new_pub) e
            ∙ with_prefix-short new_pub whole))) in
        let grown = insert id chain (remove_all retired entry.chains) in
        let own_ids : (chain_key_ids_b64 c entry.current_ratchet.ephemeral_key_pair.pub_key
            ≡ c.encode pb ∷ []) =
          ap (chain_key_ids_b64 c) own ∙ chain_key_ids_b64-plain c encoding pb own_whole in
        let left =
          (remove_first (chain_key_ids_b64 c entry.current_ratchet.ephemeral_key_pair.pub_key)
            grown).1 in
        let kept : (get id left ≡ get id grown) =
          ap (λ ids. get id (remove_first ids grown).1) own_ids
          ∙ get-remove_first id (c.encode pb) grown other in
        let got : (get id (insert new_id second left) ≡ some chain) =
          get-insert new_id id second left
          ∙ ap (λ b. if b then some second else get id left) apart
          ∙ kept
          ∙ get-insert id id chain (remove_all retired entry.chains)
          ∙ ap (λ b. if b then some chain else get id (remove_all retired entry.chains))
              (same_self id) in
        rw shape (found_first (insert new_id second left) id rest chain got))
