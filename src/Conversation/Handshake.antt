-- ===== src/Conversation/Handshake.antt =====
-- x3dh.rs and ratchet.rs, text to text: from the key agreement to the first message that is read.
use oktz_signal.Base.{
  ℕ, ◌≡◌, ◌≢◌, refl, ap, sym, subst, ◌∙◌, List, [], ◌∷◌, Option, none, some, false, arith,
  if◌then◌else◌,
}
use oktz_signal.Base.{length, ok, is_empty, replicate}
use oktz_signal.Base.Int.{ℤ}
use oktz_signal.BTreeMap.{insert, get}
use oktz_signal.BTreeMap.Laws.{get-insert, same_self}
use oktz_signal.BTreeMap.Keys.{Str, str_ord, int_ord}
use oktz_signal.Session.{SessionEntry, Serde, current_session_mut, sending}
use oktz_signal.Crates.{Crates, IsEncoding}
use oktz_signal.Curve.{Dalek}
use oktz_signal.Ratchet.Kdf.{derive_secrets_n, expand, chunk, whisper_ratchet, whisper_text}
use oktz_signal.Ratchet.Chains.{find_chain_mut}
use oktz_signal.Ratchet.MessageKeys.Schedule.{HasKey}
use oktz_signal.Ratchet.Plan.{new_chain}
use oktz_signal.Ratchet.Encrypt.{select_sending, put_entry}
use oktz_signal.X3dh.{
  X3dhParams, strip_prefix, get_1_33, derive_secrets, initiator_secret, recipient_secret,
  initiator_entry, single_session,
}
use oktz_signal.X3dh.Agreement.{
  IsDiffieHellman, AreKeys, one_time, initiator_secret-recipient_secret,
}
use oktz_signal.X3dh.Built.{IsInitial, IsRecipient}
use oktz_signal.Ratchet.Encrypt.Select.{select_sending-named}
use oktz_signal.Conversation.First.{chain_key_ids_b64-plain, found_first}

full_text : (s : Str) → s ≢ [] → is_empty s ≡ false
full_text [] n = elim (n refl) [ ]
full_text (x ∷ s) n = refl

some_equal : {a b : List ℕ} → some a ≡ some b → a ≡ b
some_equal h = cc

ok_equal : {a b : List ℕ} → ok a ≡ ok b → a ≡ b
ok_equal h = cc

pub put_entry-single :
    (id : Str) (entry left : SessionEntry)
    → put_entry id left (single_session id entry) ≡ single_session id left
unfolding insert
put_entry-single id entry left = rw ((str_ord.eq_iff id id).1 refl, insert) refl

pub current-single :
    (id : Str) (entry : SessionEntry)
    → current_session_mut (single_session id entry) ≡ some (id, entry)
unfolding current_session_mut insert
current-single id entry = refl

module _ (c : Crates) where
  -- The root key that the agreement gives, and the chain key that the first step gives.
  abbrev pub root_of : List ℕ → List ℕ
  root_of secret = chunk (derive_secrets c secret (replicate 32 0) whisper_text) 0

  abbrev pub chain_key_of : List ℕ → List ℕ → List ℕ
  chain_key_of agreed root = chunk (derive_secrets c agreed root whisper_ratchet) 1

module _ (c : Crates) (encoding : IsEncoding c) where
  pub text_full : (b : List ℕ) → length b ≡ 32 → is_empty (c.encode b) ≡ false
  text_full b whole =
      full_text (c.encode b) (encoding.encode_full b (λ e. omega (arith, ap length e, whole)))

  pub new_chain-HasKey :
      (b : List ℕ) (chain_type : ℕ) → length b ≡ 32 → HasKey c (new_chain (c.encode b) chain_type) b
  new_chain-HasKey b chain_type whole = record {
    text = c.encode b;
    stored = refl;
    full = text_full b whole;
    decodes = encoding.decode-encode b;
  }

  pub chain_key-length : (agreed root : List ℕ) → length (chain_key_of c agreed root) ≡ 32
  unfolding derive_secrets_n expand
  chain_key-length agreed root = encoding.length-hmac _ _

module _ (c : Crates) (encoding : IsEncoding c) (dh : IsDiffieHellman c) (d : Dalek)
    (serde : Serde) where
  -- Both sides hold the same secret.
  pub secrets_agree :
      (params : X3dhParams) (ea ib sb sender : List ℕ) (ob : Option (List ℕ)) (registration_id : ℕ)
      (now now' : ℤ) (json json' : Str) (a : IsInitial c d serde params ea now json)
      (b : IsRecipient c d serde ib sb
        (c.mul_base_clamped sb)
        ob
        sender
        (c.mul_base_clamped ea)
        registration_id
        now'
        json')
      → AreKeys c dh params.identity_priv ea ib sb ob
      → get_1_33 params.recipient_pub ≡ some (c.mul_base_clamped ib)
      → strip_prefix params.signed_prekey_pub ≡ c.mul_base_clamped sb
      → params.prekey_pub ≡ one_time c dh ob
      → get_1_33 sender ≡ some (c.mul_base_clamped params.identity_priv)
      → a.secret ≡ b.secret
  secrets_agree params ea ib sb sender ob registration_id now now' json json' a b keys to signed one
        from =
      (let pb = c.mul_base_clamped sb in
        let pe = c.mul_base_clamped ea in
        let receiver : (a.receiver ≡ c.mul_base_clamped ib) = some_equal (sym a.at ∙ to) in
        let sender_key : (b.sender_key ≡ c.mul_base_clamped params.identity_priv) =
          some_equal (sym b.at ∙ from) in
        let ours =
          subst
            (λ k.
              initiator_secret c params.identity_priv ea k (strip_prefix params.signed_prekey_pub)
                params.prekey_pub
              ≡ ok a.secret)
            receiver a.secret_made in
        let ours' =
          subst
            (λ k.
              initiator_secret c params.identity_priv ea (c.mul_base_clamped ib) k params.prekey_pub
              ≡ ok a.secret)
            signed ours in
        let ours'' =
          subst
            (λ k.
              initiator_secret c params.identity_priv ea (c.mul_base_clamped ib) pb k ≡ ok a.secret)
            one ours' in
        let theirs =
          subst (λ k. recipient_secret c ib sb ob k pe ≡ ok b.secret) sender_key b.secret_made in
        ok_equal (
          sym ours''
          ∙ initiator_secret-recipient_secret c dh params.identity_priv ea ib sb ob keys
          ∙ theirs))

  pub select_sending-initiator :
      (params : X3dhParams) (ea spk : List ℕ) (mk : List (List ℕ)) (now : ℤ)
      → select_sending c (initiator_entry c params ea (c.mul_base_clamped ea) spk mk now)
        ≡ ok (c.encode (c.mul_base_clamped ea), new_chain (c.encode (chunk mk 1)) sending)
  unfolding select_sending initiator_entry
  select_sending-initiator params ea spk mk now =
      (let id = c.encode (c.mul_base_clamped ea) in
        let chain = new_chain (c.encode (chunk mk 1)) sending in
        let entry = initiator_entry c params ea (c.mul_base_clamped ea) spk mk now in
        let got : (get id (insert id chain []) ≡ some chain) =
          get-insert id id chain [] ∙ ap (λ b. if b then some chain else none) (same_self id) in
        select_sending-named c entry id chain
          (ap (find_chain_mut entry.chains)
              (chain_key_ids_b64-plain c encoding (c.mul_base_clamped ea) (dh.length-public ea))
            ∙ found_first (insert id chain []) id [] chain got)
          refl)
