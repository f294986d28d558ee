-- ===== src/Tests/Session.antt =====
-- session.rs at concrete inputs.
use oktz_signal.Base.{◌≡◌, ◌≢◌, refl, arith, [], ◌∷◌, true, false, none, some, ◌⊎◌}
use oktz_signal.Base.{ok, err, not_a_json_object, unsupported_version, no_open_session}
use oktz_signal.Base.Int.{ℤ, pos, negsuc}
use oktz_signal.BTreeMap.{BTreeMap, get, IsSorted}
use oktz_signal.BTreeMap.Keys.{Str, str_ord, compare_str}
use oktz_signal.Session.{
  SessionEntry, SessionRecord, current_session_mut, max_by_rank, archive_current, have_open_session,
  default_version, serialize, deserialize, starts_with_brace, trim_start,
}
use oktz_signal.Session.Current.{Yields, current_session_mut-IsBest}
use oktz_signal.Session.Archive.{Archived, NoneOpen, archive_current-Archived}
use oktz_signal.Session.Text.{deserialize-serialize, deserialize_refuses}
use oktz_signal.Tests.Toy.{toy_serde, toy-IsFaithful}

abbrev entry_with : ℤ → ℤ → SessionEntry
entry_with closed used = record {
  registration_id = 7;
  current_ratchet = record {
    ephemeral_key_pair = record { pub_key = 1 ∷ []; priv_key = 2 ∷ [] };
    last_remote_ephemeral_key = [];
    previous_counter = 0;
    root_key = 3 ∷ [];
  };
  index_info = record {
    base_key = 1 ∷ [];
    base_key_type = 1;
    closed = closed;
    used = used;
    created = pos 1;
    remote_identity_key = 4 ∷ [];
  };
  chains = [];
  pending_pre_key = none;
}

-- Two open sessions and an archived one that was used last.
abbrev three : BTreeMap Str SessionEntry
three =
    (65 ∷ [], entry_with (negsuc 0) (pos 50))
    ∷ (66 ∷ [], entry_with (pos 1) (pos 90))
    ∷ (67 ∷ [], entry_with (negsuc 0) (pos 60))
    ∷ []

abbrev busy : SessionRecord
busy = record { sessions = three; version = default_version }

busy_current : current_session_mut busy ≡ some (67 ∷ [], entry_with (negsuc 0) (pos 60))
unfolding current_session_mut max_by_rank get compare_str
busy_current = refl

busy-IsSorted : IsSorted three
unfolding compare_str
busy-IsSorted = ((refl, (refl, tt)), ((refl, tt), (tt, tt)))

current_session_mut-IsBest_example :
    (k : Str) × (s : SessionEntry) × (current_session_mut busy ≡ some (k, s))
    × (get k three ≡ some s)
    × ((j : Str) (u : SessionEntry) → get j three ≡ some u → Yields j u k s)
current_session_mut-IsBest_example = current_session_mut-IsBest busy busy-IsSorted (λ q. cc)

archive_current-Archived_example :
    ((archive_current busy ≡ err no_open_session)
      × (have_open_session busy ≡ false)
      × NoneOpen three)
    ⊎ ((r : SessionRecord) × (archive_current busy ≡ ok r)
        × Archived three r.sessions
        × (r.version ≡ default_version)
        × (have_open_session busy ≡ true))
archive_current-Archived_example = archive_current-Archived busy

abbrev empty_record : SessionRecord
empty_record = record { sessions = []; version = default_version }

serialize_empty : serialize toy_serde empty_record ≡ ok (123 ∷ 118 ∷ 49 ∷ [])
unfolding serialize
serialize_empty = refl

-- With a `[` in front it is no object.
deserialize-serialize_example :
    (((default_version ≡ default_version)
        × (deserialize toy_serde (123 ∷ 118 ∷ 49 ∷ []) ≡ ok empty_record))
      ⊎ ((default_version ≢ default_version)
          × (deserialize toy_serde (123 ∷ 118 ∷ 49 ∷ [])
              ≡ err (unsupported_version default_version))))
    × (deserialize toy_serde (91 ∷ 123 ∷ 118 ∷ 49 ∷ []) ≡ err not_a_json_object)
deserialize-serialize_example =
    deserialize-serialize toy_serde toy-IsFaithful empty_record (123 ∷ 118 ∷ 49 ∷ []) 91
      serialize_empty (omega arith) (omega arith) (omega arith)

-- A blank and `[]`.
abbrev array_text : Str
array_text = 32 ∷ 91 ∷ 93 ∷ []

deserialize_refuses_example :
    (starts_with_brace (trim_start array_text) ≡ false
      → deserialize toy_serde array_text ≡ err not_a_json_object)
    × ((r : SessionRecord)
        → starts_with_brace (trim_start array_text) ≡ true
        → toy_serde.from_str array_text ≡ some r
        → r.version ≢ default_version
        → deserialize toy_serde array_text ≡ err (unsupported_version r.version))
    × ((r : SessionRecord)
        → deserialize toy_serde array_text ≡ ok r
        → (toy_serde.from_str array_text ≡ some r)
          × (r.version ≡ default_version)
          × (starts_with_brace (trim_start array_text) ≡ true))
deserialize_refuses_example = deserialize_refuses toy_serde array_text
