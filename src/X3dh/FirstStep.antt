-- ===== src/X3dh/FirstStep.antt =====
-- x3dh.rs and ratchet.rs: the recipient's first ratchet step meets the initiator's sending chain.
use oktz_signal.Base.{ℕ, ◌≡◌, refl, ap, subst, ◌∙◌, List, [], none, some}
use oktz_signal.Base.{length, inl, inr, Result-cases, if◌then◌else◌}
use oktz_signal.Base.{Result, ok, err}
use oktz_signal.Base.Int.{ℤ}
use oktz_signal.BTreeMap.{get}
use oktz_signal.BTreeMap.Keys.{str_ord}
use oktz_signal.BTreeMap.Laws.{get-insert, same_self}
use oktz_signal.Session.{Chain, SessionEntry}
use oktz_signal.Crates.{Crates, IsEncoding}
use oktz_signal.Curve.{scalar_multiply, generate_keypair}
use oktz_signal.Ratchet.Kdf.{derive_secrets_n, expand, chunk, whisper_ratchet}
use oktz_signal.Ratchet.Plan.{RatchetPlan, plan_step, retired_ids, first_id, new_chain}
use oktz_signal.Session.{sending, receiving}
use oktz_signal.X3dh.{X3dhParams, initiator_entry, derive_secrets}
use oktz_signal.X3dh.Agreement.{IsDiffieHellman, wire, scalar_multiply-commutes, as_x25519-wire}

module _ (c : Crates) (encoding : IsEncoding c) (dh : IsDiffieHellman c) where
  -- A plan, if there is one, receives on this chain.
  abbrev Receives : Chain → Result RatchetPlan → Type 0
  Receives chain (err e) = Unit
  Receives chain (ok plan) = plan.receiving_chain ≡ chain

  plan_step-receiving_chain :
      (entry : SessionEntry) (ids : List (List ℕ)) (previous : ℕ) (seed ea sb root shared : List ℕ)
      → length ea ≡ 32
      → length sb ≡ 32
      → entry.current_ratchet.ephemeral_key_pair.priv_key ≡ c.encode sb
      → entry.current_ratchet.root_key ≡ c.encode root
      → first_id ids ≡ c.encode (wire c dh ea)
      → scalar_multiply c ea (c.mul_base_clamped sb) ≡ ok shared
      → Receives
          (new_chain
            (c.encode (chunk (derive_secrets_n c shared root whisper_ratchet 2) 1))
            receiving)
          (plan_step c entry ids previous seed)
  unfolding plan_step
  plan_step-receiving_chain entry ids previous seed ea sb root shared le ls p r f s =
      (let remote = encoding.decode-encode (wire c dh ea) in
        let priv = encoding.decode-encode sb in
        let root_text = encoding.decode-encode root in
        let key = as_x25519-wire c dh ea in
        let agreed : (scalar_multiply c sb (c.mul_base_clamped ea) ≡ ok shared) =
          scalar_multiply-commutes c dh sb ea ls le ∙ s in
        elim (Result-cases (retired_ids c entry previous)) [
          | inr (e, q) ↦ rw (f, plan_step, remote, q) tt
          | inl (ids', q) ↦ elim (Result-cases (generate_keypair c seed)) [
            | inr (e, g) ↦ rw (f, plan_step, remote, q, p, priv, key, agreed, r, root_text, g) tt
            | inl ((new_pub, new_priv), g) ↦
                elim (Result-cases (scalar_multiply c new_priv (c.mul_base_clamped ea))) [
                  | inr (e, m) ↦
                      rw (f, plan_step, remote, q, p, priv, key, agreed, r, root_text, g, m) tt
                  | inl (t, m) ↦
                      rw (f, plan_step, remote, q, p, priv, key, agreed, r, root_text, g, m) refl
                ]
          ]
        ])

  pub two_of_three :
      (input salt info : List ℕ)
      → chunk (derive_secrets_n c input salt info 2) 1 ≡ chunk (derive_secrets c input salt info) 1
  unfolding derive_secrets_n expand derive_secrets
  two_of_three input salt info = refl

  sending_chain_of :
      (params : X3dhParams) (ea public spk : List ℕ) (mk : List (List ℕ)) (now : ℤ)
      → get (c.encode public) (initiator_entry c params ea public spk mk now).chains
        ≡ some (new_chain (c.encode (chunk mk 1)) sending)
  unfolding initiator_entry get
  sending_chain_of params ea public spk mk now =
      (let chain = new_chain (c.encode (chunk mk 1)) sending in
        let id = c.encode public in
        get-insert id id chain [] ∙ ap (λ b. if b then some chain else none) (same_self id))

  -- With encodings and X25519 as documented and private keys of 32 bytes: let the initiator's
  -- entry be built on the ephemeral key and on the chunks derived from its agreement with the
  -- signed prekey under a root key, and let the recipient's entry hold the signed prekey's private
  -- key and that root key. If the recipient's step for the ephemeral key in wire form succeeds,
  -- the receiving chain it plans starts with the counter and the chain key of the initiator's
  -- sending chain.
  pub plan_step-initiator_entry :
      (params : X3dhParams) (spk : List ℕ) (now : ℤ) (entry : SessionEntry) (ids : List (List ℕ))
      (previous : ℕ) (seed ea sb root shared : List ℕ) (plan : RatchetPlan)
      → length ea ≡ 32
      → length sb ≡ 32
      → entry.current_ratchet.ephemeral_key_pair.priv_key ≡ c.encode sb
      → entry.current_ratchet.root_key ≡ c.encode root
      → first_id ids ≡ c.encode (wire c dh ea)
      → scalar_multiply c ea (c.mul_base_clamped sb) ≡ ok shared
      → plan_step c entry ids previous seed ≡ ok plan
      → (chain : Chain) × (get
            (c.encode (c.mul_base_clamped ea))
            (initiator_entry c params ea
              (c.mul_base_clamped ea)
              spk
              (derive_secrets c shared root whisper_ratchet)
              now).chains
          ≡ some chain)
        × (plan.receiving_chain.chain_key ≡ chain.chain_key)
  plan_step-initiator_entry params spk now entry ids previous seed ea sb root shared plan le ls p r
        f s h =
      (let mk = derive_secrets c shared root whisper_ratchet in
        let chain = new_chain (c.encode (chunk mk 1)) sending in
        let two = derive_secrets_n c shared root whisper_ratchet 2 in
        let received : (plan.receiving_chain ≡ new_chain (c.encode (chunk two 1)) receiving) =
          subst (Receives (new_chain (c.encode (chunk two 1)) receiving)) h
            (plan_step-receiving_chain entry ids previous seed ea sb root shared le ls p r f s) in
        (
          chain,
          sending_chain_of params ea (c.mul_base_clamped ea) spk mk now,
          ap (λ (x : Chain). x.chain_key) received
              ∙ ap (λ x. (new_chain (c.encode x) receiving).chain_key)
                  (two_of_three shared root whisper_ratchet),
        ))
