-- ===== src/X3dh/Built.antt =====
-- x3dh.rs: what a session that was built has gone through, and what its text holds.
use oktz_signal.Base.{ℕ, ◌≡◌, sym, subst, List, not, Option, some, arith, ◌==◌}
use oktz_signal.Base.{length, replicate}
use oktz_signal.Base.{
  ok, Error, bail_if, ok_or, ok_or-some, ok_injective, >>=-eq-ok, >>-eq-ok, recipient_pub_length,
  sender_identity_length, signature_rejected, identity_mismatch, prekey_mismatch,
  signed_prekey_mismatch, degenerate_seed, invalid_json,
}
use oktz_signal.Base.Int.{ℤ}
use oktz_signal.BTreeMap.Keys.{Str}
use oktz_signal.Session.{Serde, serialize}
use oktz_signal.Crates.{Crates}
use oktz_signal.Curve.{
  Dalek, verify, check_len, seed_is_degenerate, generate_keypair, scalar_multiply,
}
use oktz_signal.Ratchet.Kdf.{chunk, whisper_text, whisper_ratchet}
use oktz_signal.X3dh.{
  X3dhParams, strip_prefix, get_1_33, derive_secrets, initiator_secret, recipient_secret,
  initiator_entry, recipient_entry, single_session, build_initial_session,
  build_initial_session_with_ephemeral, build_recipient_session,
}

same_length : (a b : ℕ) (e : Error) → bail_if (not (a == b)) e ≡ ok tt → a ≡ b
same_length a b e h = ground (arith, h)

module _ (c : Crates) where
  pub generate_keypair-keys :
      (seed : List ℕ) (pair : List ℕ × List ℕ)
      → generate_keypair c seed ≡ ok pair
      → (length seed ≡ 32) × (pair ≡ (c.mul_base_clamped seed, seed))
  unfolding generate_keypair check_len
  generate_keypair-keys seed pair h =
      (let (whole, h1) = >>-eq-ok (check_len seed 32 "seed") _ h in
        let (_, h2) = >>-eq-ok (bail_if (seed_is_degenerate seed) degenerate_seed) _ h1 in
        (same_length (length seed) 32 _ whole, sym (ok_injective h2)))

  module _ (d : Dalek) (serde : Serde) where
    -- What the initiator's checks leave: the secret was agreed on, and the text is that of a
    -- record with one session, the entry under its ephemeral key.
    pub record IsInitial (params : X3dhParams) (ea : List ℕ) (now : ℤ) (json : Str) : Type 0 where
      pub receiver : List ℕ
      pub secret : List ℕ
      pub agreed : List ℕ
      pub whole : length ea ≡ 32
      pub identity_whole : length params.identity_priv ≡ 32
      pub at : get_1_33 params.recipient_pub ≡ some receiver
      pub secret_made :
          initiator_secret c params.identity_priv ea receiver
            (strip_prefix params.signed_prekey_pub)
            params.prekey_pub
          ≡ ok secret
      pub agreed_made : scalar_multiply c ea (strip_prefix params.signed_prekey_pub) ≡ ok agreed
      pub printed :
          serde.to_string (
            single_session (c.encode (c.mul_base_clamped ea)) (
              initiator_entry c params ea
                (c.mul_base_clamped ea)
                (strip_prefix params.signed_prekey_pub)
                (derive_secrets c agreed
                  (chunk (derive_secrets c secret (replicate 32 0) whisper_text) 0)
                  whisper_ratchet)
                now))
          ≡ some json

    pub build_initial_session-IsInitial :
        (params : X3dhParams) (ea : List ℕ) (now : ℤ) (json : Str)
        → build_initial_session c d serde params ea now ≡ ok json
        → IsInitial params ea now json
    unfolding build_initial_session build_initial_session_with_ephemeral
    build_initial_session-IsInitial params ea now json h =
        (let spk = strip_prefix params.signed_prekey_pub in
          let (receiver, at, h1) =
            >>=-eq-ok (ok_or recipient_pub_length (get_1_33 params.recipient_pub)) _ h in
          let (verified, _, h2) =
            >>=-eq-ok (verify d receiver params.signed_prekey_pub params.signed_prekey_sig) _ h1 in
          let (_, h3) = >>-eq-ok (bail_if (not verified) signature_rejected) _ h2 in
          let (identity, own, h4) = >>=-eq-ok (generate_keypair c params.identity_priv) _ h3 in
          let (_, h5) = >>-eq-ok (bail_if _ identity_mismatch) _ h4 in
          let (_, h6) = >>-eq-ok (bail_if _ prekey_mismatch) _ h5 in
          let (pair, fresh, h7) = >>=-eq-ok (generate_keypair c ea) _ h6 in
          let (secret, secret_made, h8) =
            >>=-eq-ok (initiator_secret c params.identity_priv ea receiver spk params.prekey_pub) _
              h7 in
          let (agreed, agreed_made, h9) = >>=-eq-ok (scalar_multiply c ea spk) _ h8 in
          let (whole, keys) = generate_keypair-keys ea pair fresh in
          record {
            receiver = receiver;
            secret = secret;
            agreed = agreed;
            whole = whole;
            identity_whole = (generate_keypair-keys params.identity_priv identity own).0;
            at = ok_or-some recipient_pub_length (get_1_33 params.recipient_pub) at;
            secret_made = secret_made;
            agreed_made = agreed_made;
            printed = ok_or-some invalid_json (serde.to_string _) (
                subst
                  (λ (p : List ℕ × List ℕ).
                    serialize serde (
                      single_session (c.encode p.0) (
                        initiator_entry c params ea p.0 spk
                          (derive_secrets c agreed
                            (chunk (derive_secrets c secret (replicate 32 0) whisper_text) 0)
                            whisper_ratchet)
                          now))
                    ≡ ok json)
                  keys h9);
          })

    pub record IsRecipient (ib sb pb : List ℕ) (ob : Option (List ℕ)) (sender pe : List ℕ)
        (registration_id : ℕ) (now : ℤ) (json : Str) : Type 0 where
      pub sender_key : List ℕ
      pub secret : List ℕ
      pub at : get_1_33 sender ≡ some sender_key
      pub signed_whole : length sb ≡ 32
      pub secret_made : recipient_secret c ib sb ob sender_key pe ≡ ok secret
      pub printed :
          serde.to_string (
            single_session (c.encode pe) (
              recipient_entry c sb pb sender pe registration_id
                (derive_secrets c secret (replicate 32 0) whisper_text)
                now))
          ≡ some json

    pub build_recipient_session-IsRecipient :
        (ib sb pb : List ℕ) (ob : Option (List ℕ)) (sender pe : List ℕ) (registration_id : ℕ)
        (now : ℤ) (json : Str)
        → build_recipient_session c d serde ib sb pb ob sender pe registration_id now ≡ ok json
        → IsRecipient ib sb pb ob sender pe registration_id now json
    unfolding build_recipient_session
    build_recipient_session-IsRecipient ib sb pb ob sender pe registration_id now json h =
        (let (sender_key, at, h1) =
            >>=-eq-ok (ok_or sender_identity_length (get_1_33 sender)) _ h in
          let (pair, own, h2) = >>=-eq-ok (generate_keypair c sb) _ h1 in
          let (_, h3) = >>-eq-ok (bail_if _ signed_prekey_mismatch) _ h2 in
          let (secret, secret_made, h4) =
            >>=-eq-ok (recipient_secret c ib sb ob sender_key pe) _ h3 in
          record {
            sender_key = sender_key;
            secret = secret;
            at = ok_or-some sender_identity_length (get_1_33 sender) at;
            signed_whole = (generate_keypair-keys sb pair own).0;
            secret_made = secret_made;
            printed = ok_or-some invalid_json (serde.to_string _) h4;
          })
