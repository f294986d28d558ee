-- ===== src/Conversation/Answer.antt =====
-- ratchet.rs: the two entries behind the first message, of which the recipient's now sends and the
-- initiator's receives.
use oktz_signal.Base.{
  ℕ, ◌≡◌, ◌≢◌, refl, ap, sym, subst, ◌∙◌, List, [], ◌∷◌, none, some, false, arith, inl, inr,
  Option-cases, Bool-cases, not, ◌&&◌, if◌then◌else◌, ◌>>=◌,
}
use oktz_signal.Base.{length, All, ok, is_empty, drop, bytes_eq}
use oktz_signal.Base.Int.{ℤ, pos}
use oktz_signal.BTreeMap.{BTreeMap, get, insert, remove, same}
use oktz_signal.BTreeMap.Laws.{get-insert, same_self}
use oktz_signal.BTreeMap.Keys.{Str, str_ord, int_ord}
use oktz_signal.BTreeMap.Values.{AllValues, AllValues-get, AllValues-insert}
use oktz_signal.Session.{Chain, SessionEntry, is_receiving}
use oktz_signal.Crates.{Crates, IsEncoding}
use oktz_signal.Curve.{scalar_multiply, generate_keypair}
use oktz_signal.Ratchet.Kdf.{chunk}
use oktz_signal.Ratchet.Chains.{
  is_wire_key, chain_key_ids, chain_key_ids_b64, find_chain, find_chain_mut, with_prefix,
}
use oktz_signal.Ratchet.Plan.{
  ended_counter, plan_ratchet, retired_ids, apply_ratchet, first_id, remove_first, remove_all,
}
use oktz_signal.Ratchet.Encrypt.{put_chain, select_sending}
use oktz_signal.Ratchet.Encrypt.Select.{select_sending-named}
use oktz_signal.Ratchet.Decrypt.{apply_plan}
use oktz_signal.Ratchet.Decrypt.Opened.{opened}
use oktz_signal.X3dh.{X3dhParams, initiator_entry}
use oktz_signal.X3dh.Agreement.{IsDiffieHellman, wire}
use oktz_signal.Conversation.First.{
  plan_from, found_first, with_prefix-short, chain_key_ids-first, encode_injective, plan_step-from,
  differ, tail_of,
}

-- A chain that is found is a value of the map.
find_chain-AllValues :
    (P : Chain → Type 0) (m : BTreeMap Str Chain) (ids : List Str) (chain : Chain)
    → AllValues P m
    → find_chain m ids ≡ some chain
    → P chain
unfolding find_chain
find_chain-AllValues P m [] chain a h = cc
find_chain-AllValues P m (id ∷ ids) chain a h = elim (Option-cases (get id m)) [
  | inl e ↦ find_chain-AllValues P m ids chain a (rw (e, find_chain) at h)
  | inr (found, e) ↦
      (let first : (some found ≡ some chain) = rw (e, find_chain) at h in
        let same_chain : (found ≡ chain) = cc in
        subst P same_chain (AllValues-get P id found m a e))
]

find_chain-missing :
    (m : BTreeMap Str Chain) (ids : List Str)
    → All (λ id. get id m ≡ none) ids
    → find_chain m ids ≡ none
unfolding find_chain
find_chain-missing m [] a = refl
find_chain-missing m (id ∷ ids) (h, a) = rw (h, find_chain) (find_chain-missing m ids a)

module _ (c : Crates) (encoding : IsEncoding c) (dh : IsDiffieHellman c) where
  -- No id of one key is the text of another.
  other_ids :
      (seed : List ℕ) (key : List ℕ)
      → length key ≡ 32
      → c.mul_base_clamped seed ≢ key
      → All (λ id. same id (c.encode key) ≡ false) (chain_key_ids c (wire c dh seed))
  unfolding chain_key_ids
  other_ids seed key whole n =
      (let k = wire c dh seed in
        let long : (same (c.encode k) (c.encode key) ≡ false) =
          differ (c.encode k) (c.encode key) (λ e. omega (
            arith,
            ap length (encode_injective c encoding k key e),
            whole,
            dh.length-public seed,
          )) in
        let short : (same (c.encode (c.mul_base_clamped seed)) (c.encode key) ≡ false) =
          differ (c.encode (c.mul_base_clamped seed)) (c.encode key)
            (λ e. n (encode_injective c encoding (c.mul_base_clamped seed) key e)) in
        elim (Bool-cases (is_wire_key k && not (bytes_eq (c.encode (drop 1 k)) (c.encode k)))) [
          | inl e ↦ rw (e, chain_key_ids) (long, (short, tt))
          | inr e ↦ rw (e, chain_key_ids) (long, tt)
        ])

  module _ (params : X3dhParams) (ea spk : List ℕ) (mk_ratchet : List (List ℕ)) (now : ℤ)
      (next : Chain) where
    -- The initiator's entry behind its first message.
    abbrev pub sent_entry : SessionEntry
    sent_entry =
        put_chain (c.encode (c.mul_base_clamped ea)) next
          (initiator_entry c params ea (c.mul_base_clamped ea) spk mk_ratchet now)

    get_other :
        (id : Str)
        → same id (c.encode (c.mul_base_clamped ea)) ≡ false
        → get id sent_entry.chains ≡ none
    unfolding initiator_entry insert get
    get_other id h =
        (let own = c.encode (c.mul_base_clamped ea) in
          let m = (initiator_entry c params ea (c.mul_base_clamped ea) spk mk_ratchet now).chains in
          let nothing : (get id m ≡ none) = rw (h, get) refl in
          get-insert own id next m ∙ ap (λ b. if b then some next else get id m) h ∙ nothing)

    sends_only :
        is_receiving next ≡ false
        → AllValues (λ chain. is_receiving chain ≡ false) sent_entry.chains
    unfolding initiator_entry insert
    sends_only h =
        AllValues-insert (λ chain. is_receiving chain ≡ false) (c.encode (c.mul_base_clamped ea))
          next (initiator_entry c params ea (c.mul_base_clamped ea) spk mk_ratchet now).chains h
          (refl, tt)

    retired_ids-sent_entry :
        (previous : ℕ)
        → is_receiving next ≡ false
        → is_empty (c.encode spk) ≡ false
        → retired_ids c sent_entry previous ≡ ok (chain_key_ids_b64 c (c.encode spk))
    unfolding retired_ids initiator_entry insert
    retired_ids-sent_entry previous h full =
        elim (Option-cases (find_chain sent_entry.chains (chain_key_ids_b64 c (c.encode spk)))) [
          | inl e ↦ rw (full, retired_ids, e) refl
          | inr (chain, e) ↦
              (let quiet =
                  find_chain-AllValues (λ chain. is_receiving chain ≡ false) sent_entry.chains _
                    chain (sends_only h) e in
                rw (full, retired_ids, e, quiet) refl)
        ]

    gets_nothing :
        (ids : List Str)
        → All (λ id. same id (c.encode (c.mul_base_clamped ea)) ≡ false) ids
        → All (λ id. get id sent_entry.chains ≡ none) ids
    gets_nothing [] a = tt
    gets_nothing (id ∷ ids) (h, a) = (get_other id h, gets_nothing ids a)

    -- The recipient's new key is in none of its chains, so that the step is made.
    pub plan_ratchet-sent_entry :
        (seed agreed new_pub new_priv agreed_new seed' : List ℕ) (previous : ℕ)
        → scalar_multiply c ea (c.mul_base_clamped seed) ≡ ok agreed
        → generate_keypair c seed' ≡ ok (new_pub, new_priv)
        → scalar_multiply c new_priv (c.mul_base_clamped seed) ≡ ok agreed_new
        → c.mul_base_clamped seed ≢ c.mul_base_clamped ea
        → is_receiving next ≡ false
        → is_empty (c.encode spk) ≡ false
        → plan_ratchet c sent_entry (chain_key_ids c (wire c dh seed)) previous seed'
          ≡ ok (
              some (
                plan_from c encoding dh ea seed
                  (chunk mk_ratchet 0)
                  agreed
                  new_pub
                  new_priv
                  agreed_new
                  seed'
                  (chain_key_ids_b64 c (c.encode spk))
                  (ended_counter c sent_entry)))
    unfolding plan_ratchet initiator_entry
    plan_ratchet-sent_entry seed agreed new_pub new_priv agreed_new seed' previous agrees fresh
          agrees_new other quiet full =
        (let ids = chain_key_ids c (wire c dh seed) in
          let (rest, shape) = chain_key_ids-first c encoding (wire c dh seed) in
          let missing = find_chain-missing sent_entry.chains ids (
            gets_nothing ids
              (other_ids seed (c.mul_base_clamped ea) (dh.length-public ea) other)) in
          rw (missing, plan_ratchet)
            (ap (λ p. p >>= λ q. ok (some q))
              (plan_step-from c encoding dh ea seed (chunk mk_ratchet 0) agreed new_pub new_priv
                agreed_new seed' agrees fresh agrees_new sent_entry ids
                (chain_key_ids_b64 c (c.encode spk)) previous refl refl (ap first_id shape)
                (retired_ids-sent_entry previous quiet full))))

  module _ (sb ea root agreed new_pub new_priv agreed_new seed : List ℕ) where
    -- Behind a step the new chain sends.
    pub select_sending-opened :
        (entry : SessionEntry) (full : Chain) (counter ended : ℕ) (retired : List Str)
        → new_pub ≢ c.mul_base_clamped ea
        → length new_pub ≡ 32
        → select_sending c (
            opened c (c.encode (wire c dh ea)) full counter (
              apply_plan c entry (
                some (
                  plan_from c encoding dh sb ea root agreed new_pub new_priv agreed_new seed retired
                    ended))))
          ≡ ok (
            c.encode (with_prefix new_pub),
            (plan_from c encoding dh sb ea root agreed new_pub new_priv agreed_new seed retired
                ended).sending_chain,
          )
    unfolding opened apply_plan apply_ratchet plan_from chain_key_ids_b64
    select_sending-opened entry full counter ended retired new_key whole =
        (let p =
            plan_from c encoding dh sb ea root agreed new_pub new_priv agreed_new seed retired
              ended in
          let stepped = apply_plan c entry (some p) in
          let id = c.encode (wire c dh ea) in
          let new_id = c.encode (with_prefix new_pub) in
          let left = opened c id full counter stepped in
          let (rest, shape) = chain_key_ids-first c encoding (with_prefix new_pub) in
          let apart : (same new_id id ≡ false) = differ new_id id (λ e. new_key (
            tail_of (c.mul_base_clamped ea) new_pub (
              sym (encode_injective c encoding (with_prefix new_pub) (wire c dh ea) e)
              ∙ with_prefix-short new_pub whole))) in
          let spent : Chain = record full {
            message_keys = remove (pos counter) full.message_keys;
          } in
          let below =
            (remove_first (chain_key_ids_b64 c entry.current_ratchet.ephemeral_key_pair.pub_key)
              (insert id p.receiving_chain (remove_all retired entry.chains))).1 in
          let got : (get new_id left.chains ≡ some p.sending_chain) =
            get-insert id new_id spent stepped.chains
            ∙ ap (λ b. if b then some spent else get new_id stepped.chains) apart
            ∙ get-insert new_id new_id p.sending_chain below
            ∙ ap (λ b. if b then some p.sending_chain else get new_id below) (same_self new_id) in
          let ids : (chain_key_ids_b64 c left.current_ratchet.ephemeral_key_pair.pub_key
              ≡ new_id ∷ rest) =
            rw (encoding.decode-encode (with_prefix new_pub), chain_key_ids_b64) shape in
          select_sending-named c left new_id p.sending_chain
            (ap (find_chain_mut left.chains) ids
              ∙ found_first left.chains new_id rest p.sending_chain got)
            refl)
