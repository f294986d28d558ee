-- ===== src/Bindings/Records.antt =====
-- lib.rs: the two exports that parse a session text and print it again.
use oktz_signal.Base.{◌≡◌, refl, ap, sym, ◌∙◌, inl, inr}
use oktz_signal.Base.{Result, ok, err, ◌>>=◌, >>=-eq-ok, Result-cases}
use oktz_signal.BTreeMap.Keys.{Str}
use oktz_signal.Session.{
  SessionRecord, Serde, parse, validate, serialize, deserialize, have_open_session,
}
use oktz_signal.Session.Text.{IsFaithful, deserialize_refuses, deserialize_back}
use oktz_signal.Bindings.{
  Reason, returned, thrown, from_result, session_deserialize, session_serialize,
  session_have_open_session,
}

from_result-returned :
    {A B : Type 0} (r : Result A) (to_js : A → B) {b : B}
    → from_result r to_js ≡ returned b
    → (a : A) × (r ≡ ok a) × (to_js a ≡ b)
unfolding from_result
from_result-returned (err e) to_js h = absurd (not_thrown h)
  where
    not_thrown : {B : Type 0} {x : Reason} {b : B} → thrown x ≡ returned b → ⊥
    not_thrown q = cc
from_result-returned (ok a) to_js h = (a, refl, same_value h)
  where
    same_value : {B : Type 0} {x y : B} → returned x ≡ returned y → x ≡ y
    same_value q = cc

module _ (serde : Serde) where
  -- Both exports are the same function of the text.
  session_serialize-session_deserialize :
      (json : Str) → session_serialize serde json ≡ session_deserialize serde json
  unfolding session_serialize session_deserialize deserialize
  session_serialize-session_deserialize json = elim (Result-cases (parse serde json)) [
    | inr (e, h) ↦ rw h refl
    | inl (r, h) ↦ elim (Result-cases (validate r)) [
      | inr (e, k) ↦ rw (h, k) refl
      | inl (u, k) ↦ rw (h, k) refl
    ]
  ]

  -- What is returned is the print of the record that was read.
  returned-printed :
      (json text : Str)
      → session_serialize serde json ≡ returned text
      → (r : SessionRecord) × (deserialize serde json ≡ ok r) × (serialize serde r ≡ ok text)
  unfolding session_serialize
  returned-printed json text h =
      (let (t, e, same_text) =
          from_result-returned (deserialize serde json >>= serialize serde) (λ t. t) h in
        let (r, read, printed) = >>=-eq-ok (deserialize serde json) (serialize serde) e in
        (r, read, printed ∙ ap ok same_text))

  -- The two exports agree on every text, refusals included. With a serde that reads back what it
  -- prints as an object: a text that they return is in normal form, that is, both return it
  -- unchanged, and `session_have_open_session` answers for it as for the text it was made of.
  pub session_deserialize-normalizes :
      (faithful : IsFaithful serde) (json : Str)
      → (session_serialize serde json ≡ session_deserialize serde json)
        × ((text : Str)
            → session_deserialize serde json ≡ returned text
            → (session_deserialize serde text ≡ returned text)
              × (session_have_open_session serde text ≡ session_have_open_session serde json))
  unfolding session_serialize session_have_open_session from_result
  session_deserialize-normalizes faithful json = (
    session_serialize-session_deserialize json,
    λ text h.
        (let (r, read, printed) =
            returned-printed json text (session_serialize-session_deserialize json ∙ h) in
          let version = ((deserialize_refuses serde json).2 r read).1 in
          let again = deserialize_back serde faithful r text version printed in
          (
            sym (session_serialize-session_deserialize text)
                ∙ ap (λ q. from_result (q >>= serialize serde) (λ t. t)) again
                ∙ ap (λ q. from_result q (λ t. t)) printed,
            ap (λ q. from_result q have_open_session) (again ∙ sym read),
          )),
  )
