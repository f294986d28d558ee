-- ===== src/Session/Text.antt =====
-- session.rs, the texts of a record: what is refused, and the way out and back.
use oktz_signal.Base.{ℕ, ◌≤◌, ◌≡◌, ◌≢◌, refl, ap, true, false, some, ◌∷◌, ◌⊎◌, arith}
use oktz_signal.Base.{bytes_eq, bytes_eq_self, bytes_eq→eq, Bool-cases, inl, inr}
use oktz_signal.Base.{ok, err, not_a_json_object, unsupported_version, Option-cases}
use oktz_signal.BTreeMap.Keys.{Str}
use oktz_signal.Session.{SessionRecord, Serde, default_version, trim_start, starts_with_brace}
use oktz_signal.Session.Trim.{trim_start-visible}
use oktz_signal.Session.{parse, serialize, validate, deserialize}

-- serde_json: a struct is printed as an object, and what is printed is read back.
pub record IsFaithful (serde : Serde) : Type 0 where
  pub object :
      (r : SessionRecord) (s : Str)
      → serde.to_string r ≡ some s
      → starts_with_brace (trim_start s) ≡ true
  pub reads_back :
      (r : SessionRecord) (s : Str) → serde.to_string r ≡ some s → serde.from_str s ≡ some r

other_version :
    (r : SessionRecord) → r.version ≢ default_version → bytes_eq r.version default_version ≡ false
other_version r n = elim (Bool-cases (bytes_eq r.version default_version)) [
  | inl e ↦ elim (n (bytes_eq→eq _ _ e)) [ ]
  | inr e ↦ e
]

differs :
    (r : SessionRecord) → bytes_eq r.version default_version ≡ false → r.version ≢ default_version
differs r e v =
    ground (arith, ap (λ (t : Str). bytes_eq t default_version) v, bytes_eq_self default_version)

module _ (serde : Serde) where
  -- A text that is not blank followed by `{` is refused as no JSON object, whatever serde makes of
  -- it; a text serde reads as a record of a version other than "v1" is refused with that version;
  -- and a record that is accepted is the one serde read, and has version "v1".
  pub deserialize_refuses :
      (json : Str)
      → (starts_with_brace (trim_start json) ≡ false
          → deserialize serde json ≡ err not_a_json_object)
        × ((r : SessionRecord)
            → starts_with_brace (trim_start json) ≡ true
            → serde.from_str json ≡ some r
            → r.version ≢ default_version
            → deserialize serde json ≡ err (unsupported_version r.version))
        × ((r : SessionRecord)
            → deserialize serde json ≡ ok r
            → (serde.from_str json ≡ some r)
              × (r.version ≡ default_version)
              × (starts_with_brace (trim_start json) ≡ true))
  unfolding deserialize parse validate
  deserialize_refuses json = (
    λ h. rw h refl,
    λ r h f n. rw (h, f, other_version r n) refl,
    λ r h. elim (Option-cases (serde.from_str json)) [
      | inl e ↦ ground (arith, e)
      | inr (q, e) ↦ ground (arith, e, bytes_eq→eq q.version default_version)
    ],
  )

  pub deserialize_back :
      (faithful : IsFaithful serde) (r : SessionRecord) (s : Str)
      → r.version ≡ default_version
      → serialize serde r ≡ ok s
      → deserialize serde s ≡ ok r
  unfolding deserialize serialize parse validate
  deserialize_back faithful r s v h = elim (Option-cases (serde.to_string r)) [
    | inl e ↦ ground (arith, e)
    | inr (t, e) ↦
        ground
          (arith, e, faithful.object r s, faithful.reads_back r s, bytes_eq_self default_version)
  ]

  deserialize_other :
      (faithful : IsFaithful serde) (r : SessionRecord) (s : Str)
      → r.version ≢ default_version
      → serialize serde r ≡ ok s
      → deserialize serde s ≡ err (unsupported_version r.version)
  unfolding deserialize serialize parse validate
  deserialize_other faithful r s n h = elim (Option-cases (serde.to_string r)) [
    | inl e ↦ ground (arith, e)
    | inr (t, e) ↦
        ground (arith, e, faithful.object r s, faithful.reads_back r s, other_version r n)
  ]

  deserialize_garbled :
      (x : ℕ) (s : Str)
      → 33 ≤ x
      → x ≤ 126
      → x ≢ 123
      → deserialize serde (x ∷ s) ≡ err not_a_json_object
  unfolding deserialize parse
  deserialize_garbled x s lo hi n = rw (trim_start-visible x s lo hi) (ground arith)

  -- With a serde that prints an object and reads back what it prints, and a record that serializes
  -- to a text: when the record's version is "v1", the text is deserialized to that record, and
  -- when it is another, the text is refused with that version. With one visible ASCII character
  -- other than `{` put in front, the text is refused as no JSON object.
  pub deserialize-serialize :
      (faithful : IsFaithful serde) (r : SessionRecord) (s : Str) (x : ℕ)
      → serialize serde r ≡ ok s
      → 33 ≤ x
      → x ≤ 126
      → x ≢ 123
      → (((r.version ≡ default_version) × (deserialize serde s ≡ ok r))
          ⊎ ((r.version ≢ default_version)
              × (deserialize serde s ≡ err (unsupported_version r.version))))
        × (deserialize serde (x ∷ s) ≡ err not_a_json_object)
  deserialize-serialize faithful r s x h lo hi n = (
    elim (Bool-cases (bytes_eq r.version default_version)) [
      | inl e ↦
          (let v = bytes_eq→eq r.version default_version e in
            inl (v, deserialize_back faithful r s v h))
      | inr e ↦ (let v = differs r e in inr (v, deserialize_other faithful r s v h))
    ],
    deserialize_garbled x s lo hi n,
  )

-- A text that is no other record's, and that is read back as its record.
pub record IsReadable (serde : Serde) (json : Str) : Type 0 where
  pub object : starts_with_brace (trim_start json) ≡ true
  pub reads_back :
      (r : SessionRecord) → serde.to_string r ≡ some json → serde.from_str json ≡ some r

pub deserialize-printed :
    (serde : Serde) (json : Str) (r : SessionRecord)
    → IsReadable serde json
    → r.version ≡ default_version
    → serde.to_string r ≡ some json
    → deserialize serde json ≡ ok r
unfolding deserialize parse validate
deserialize-printed serde json r readable v printed =
    ground (arith, readable.object, readable.reads_back r printed, bytes_eq_self default_version)
