-- ===== src/Conversation/Texts.antt =====
-- ratchet.rs and x3dh.rs, text to text: the session texts that the library's calls hand on.
use oktz_signal.Base.{ℕ, ◌≡◌, ◌≢◌, refl, ap, sym, subst, ◌∙◌, List, [], ◌∷◌, Option, none, some}
use oktz_signal.Base.{ok, ok_injective, ok_or, invalid_json}
use oktz_signal.Base.Int.{ℤ}
use oktz_signal.BTreeMap.{BTreeMap, insert, IsSorted}
use oktz_signal.BTreeMap.Keys.{Str, str_ord}
use oktz_signal.BTreeMap.Laws.{insert-IsSorted}
use oktz_signal.BTreeMap.Values.{AllValues, AllValues-get, AllValues-insert}
use oktz_signal.Session.{
  SessionEntry, SessionRecord, Serde, serialize, deserialize, current_session_mut, default_version,
}
use oktz_signal.Session.Current.{current_session_mut-IsBest}
use oktz_signal.Session.Text.{IsFaithful, deserialize_refuses, deserialize_back}
use oktz_signal.Crates.{Crates}
use oktz_signal.Curve.{Dalek}
use oktz_signal.X3dh.{X3dhParams, single_session, build_initial_session, build_recipient_session}
use oktz_signal.X3dh.Built.{build_initial_session-IsInitial, build_recipient_session-IsRecipient}
use oktz_signal.Ratchet.Encrypt.{EncryptResult, encrypt, put_entry}
use oktz_signal.Ratchet.Decrypt.{DecryptResult, decrypt_whisper, decrypt_pkmsg}
use oktz_signal.Conversation.{IsStart}
use oktz_signal.Conversation.Sound.{IsSound}
use oktz_signal.Conversation.Invariant.{Step-IsSound, IsStart-IsSound}
use oktz_signal.Conversation.Calls.{
  IsCall, encrypt-Returns, decrypt_whisper-Returns, decrypt_pkmsg-Returns,
}

-- The sessions are in the order of their keys, and every one of them is sound.
pub record IsSoundRecord (r : SessionRecord) : Type 0 where
  pub sorted : IsSorted r.sessions
  pub entries : AllValues IsSound r.sessions

some_sessions :
    (m : BTreeMap Str SessionEntry) (v : Str) {p : Str × SessionEntry}
    → current_session_mut (record { sessions = m; version = v }) ≡ some p
    → m ≢ []
unfolding current_session_mut
some_sessions [] v h e = absurd (none_not_some h)
  where
    none_not_some : {A : Type 0} {a : A} → none ≡ some a → ⊥
    none_not_some q = cc
some_sessions (x ∷ m) v h e = absurd (cons_not_nil e)
  where
    cons_not_nil : {A : Type 0} {a : A} {l : List A} → a ∷ l ≡ [] → ⊥
    cons_not_nil q = cc

current_session_mut-IsSound :
    (r : SessionRecord) (id : Str) (entry : SessionEntry)
    → IsSoundRecord r
    → current_session_mut r ≡ some (id, entry)
    → IsSound entry
current_session_mut-IsSound r id entry s h =
    (let (k, best, current, stored, _) =
        current_session_mut-IsBest r s.sorted (some_sessions r.sessions r.version h) in
      let same_one : (best ≡ entry) = second (sym current ∙ h) in
      subst IsSound same_one (AllValues-get IsSound k best r.sessions s.entries stored))
  where
    second :
        {a b : Str} {x y : SessionEntry}
        → ◌≡◌ {A = Option (Str × SessionEntry)} (some (a, x)) (some (b, y))
        → x ≡ y
    second e = cc

single-IsSoundRecord :
    (id : Str) (entry : SessionEntry) → IsSound entry → IsSoundRecord (single_session id entry)
unfolding insert
single-IsSoundRecord id entry s = record { sorted = (tt, tt); entries = (s, tt) }

put_entry-IsSoundRecord :
    (id : Str) (entry : SessionEntry) (r : SessionRecord)
    → IsSound entry
    → IsSoundRecord r
    → IsSoundRecord (put_entry id entry r)
unfolding insert
put_entry-IsSoundRecord id entry r s t = record {
  sorted = insert-IsSorted id entry r.sessions t.sorted;
  entries = AllValues-insert IsSound id entry r.sessions s t.entries;
}

module _ (serde : Serde) where
  -- The text is read as a record that is sound.
  pub record IsSoundText (json : Str) : Type 0 where
    pub r : SessionRecord
    pub read : deserialize serde json ≡ ok r
    pub sound : IsSoundRecord r

  printed-IsSoundText :
      (faithful : IsFaithful serde) (r : SessionRecord) (json : Str)
      → r.version ≡ default_version
      → IsSoundRecord r
      → serialize serde r ≡ ok json
      → IsSoundText json
  printed-IsSoundText faithful r json v s h = record {
    r = r;
    read = deserialize_back serde faithful r json v h;
    sound = s;
  }

module _ (c : Crates) (d : Dalek) (serde : Serde) where
  -- The texts of sessions that were built.
  pub data Began : Str → Type 0 where
    initial :
        (params : X3dhParams) (ephemeral_priv : List ℕ) (now : ℤ) (json : Str)
        → build_initial_session c d serde params ephemeral_priv now ≡ ok json
        → Began json
    received :
        (identity_priv signed_priv signed_pub : List ℕ) (one_time_priv : Option (List ℕ))
        (sender ephemeral : List ℕ) (registration_id : ℕ) (now : ℤ) (json : Str)
        → build_recipient_session c d serde identity_priv signed_priv signed_pub one_time_priv
            sender ephemeral registration_id now
          ≡ ok json
        → Began json

  -- The texts that calls make of a text, each from the text that the one before returned. A call
  -- that fails returns none, and the text in use stays what it was.
  pub data Talk : Str → Type 0 where
    begin : {json : Str} → Began json → Talk json
    encrypted :
        {json : Str} (plaintext sender : List ℕ) (registration_id : ℕ) (sent : EncryptResult)
        → Talk json
        → encrypt c serde json plaintext sender registration_id ≡ ok sent
        → Talk sent.session_json
    decrypted :
        {json : Str} (ciphertext receiver seed : List ℕ) (read : DecryptResult)
        → Talk json
        → decrypt_whisper c serde json ciphertext receiver seed ≡ ok read
        → Talk read.session_json
    opened :
        {json : Str} (ciphertext receiver seed : List ℕ) (read : DecryptResult)
        → Talk json
        → decrypt_pkmsg c serde json ciphertext receiver seed ≡ ok read
        → Talk read.session_json

  module _ (faithful : IsFaithful serde) where
    Began-IsSoundText : {json : Str} → Began json → IsSoundText serde json
    unfolding serialize insert
    Began-IsSoundText (Began.initial params ea now json h) =
        (let a = build_initial_session-IsInitial c d serde params ea now json h in
          printed-IsSoundText serde faithful _ json refl
            (single-IsSoundRecord _ _ (IsStart-IsSound c (IsStart.initiator params ea _ _ _ now)))
            (ap (ok_or invalid_json) a.printed))
    Began-IsSoundText (Began.received ib sb pb ob sender pe id now json h) =
        (let b =
            build_recipient_session-IsRecipient c d serde ib sb pb ob sender pe id now json h in
          printed-IsSoundText serde faithful _ json refl
            (single-IsSoundRecord _ _
              (IsStart-IsSound c (IsStart.recipient sb pb sender pe id _ now)))
            (ap (ok_or invalid_json) b.printed))

    IsCall-IsSoundText :
        {json json' : Str}
        → IsCall c serde json json'
        → IsSoundText serde json
        → IsSoundText serde json'
    unfolding insert
    IsCall-IsSoundText {json} {json'} call s =
        (let same_record : (s.r ≡ call.r) = ok_injective (sym s.read ∙ call.read) in
          let sound = subst IsSoundRecord same_record s.sound in
          let version = ((deserialize_refuses serde json).2 call.r call.read).1 in
          printed-IsSoundText serde faithful (put_entry call.id call.left call.r) json' version
            (put_entry-IsSoundRecord call.id call.left call.r
              (Step-IsSound c call.step
                (current_session_mut-IsSound call.r call.id call.entry sound call.current))
              sound)
            call.printed)

    -- With a serde that reads back what it prints as an object: every text that a session builder
    -- has returned, and every text that any calls of `encrypt`, `decrypt_whisper` and
    -- `decrypt_pkmsg` have made of one, with any arguments and random bytes, is read again by
    -- `deserialize`. The record has its sessions in the order of their keys, and every session is
    -- sound: each chain has its retained keys in order, none ahead of where it stands, and at most
    -- 2000 of them, and stands at -1 or later; and the previous counter fits the wire's u32.
    pub Talk-IsSoundText : {json : Str} → Talk json → IsSoundText serde json
    Talk-IsSoundText (Talk.begin began) = Began-IsSoundText began
    Talk-IsSoundText (Talk.encrypted {json} plaintext sender id sent talk h) =
        IsCall-IsSoundText ((encrypt-Returns c serde json plaintext sender id).returns sent h)
          (Talk-IsSoundText talk)
    Talk-IsSoundText (Talk.decrypted {json} ciphertext receiver seed read talk h) =
        IsCall-IsSoundText
          ((decrypt_whisper-Returns c serde json ciphertext receiver seed).returns read h)
          (Talk-IsSoundText talk)
    Talk-IsSoundText (Talk.opened {json} ciphertext receiver seed read talk h) =
        IsCall-IsSoundText
          ((decrypt_pkmsg-Returns c serde json ciphertext receiver seed).returns read h)
          (Talk-IsSoundText talk)
