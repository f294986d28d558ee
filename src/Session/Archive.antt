-- ===== src/Session/Archive.antt =====
-- session.rs, `archive_current` and `have_open_session`.
use oktz_signal.Base.{◌≡◌, ◌≢◌, refl, ap, true, false, none, some, [], ◌∷◌, ◌++◌}
use oktz_signal.Base.{◌⊎◌, inl, inr, Bool-cases, ok, err, no_open_session}
use oktz_signal.Base.Int.{pos, negsuc}
use oktz_signal.BTreeMap.{BTreeMap, values}
use oktz_signal.BTreeMap.Keys.{Str, str_ord}
use oktz_signal.Session.Open.{open_closed, not_open}
use oktz_signal.Session.{
  SessionEntry, SessionRecord, is_open, close, have_open_session, any_open, archive_first,
  archive_current,
}

-- `closed` is -1 in no session of the map.
abbrev pub NoneOpen : BTreeMap Str SessionEntry → Type 0
NoneOpen [] = Unit
NoneOpen ((k, s) ∷ m) = (s.index_info.closed ≢ negsuc 0) × NoneOpen m

-- The map with `closed` set from -1 to 1 in its first session that had -1.
pub record Archived (m m' : BTreeMap Str SessionEntry) : Type 0 where
  pub front : BTreeMap Str SessionEntry
  pub key : Str
  pub entry : SessionEntry
  pub back : BTreeMap Str SessionEntry
  pub before : m ≡ front ++ (key, entry) ∷ back
  pub after :
      m'
      ≡ front
        ++ (key, record entry { index_info = record (entry.index_info) { closed = pos 1 } }) ∷ back
  pub none_before : NoneOpen front
  pub was_open : entry.index_info.closed ≡ negsuc 0

archive_first-Archived :
    (m : BTreeMap Str SessionEntry)
    → ((archive_first m ≡ none) × (any_open (values m) ≡ false) × NoneOpen m)
      ⊎ ((m' : BTreeMap Str SessionEntry) × (archive_first m ≡ some m')
          × Archived m m'
          × (any_open (values m) ≡ true))
unfolding archive_first
archive_first-Archived [] = inl (refl, refl, tt)
archive_first-Archived ((k, s) ∷ m) = elim (Bool-cases (is_open s)) [
  | inl e ↦ inr (
    (k, close s) ∷ m,
    rw e refl,
    record {
      front = [];
      key = k;
      entry = s;
      back = m;
      before = refl;
      after = refl;
      none_before = tt;
      was_open = open_closed s e;
    },
    rw e refl,
  )
  | inr e ↦ elim (archive_first-Archived m) [
    | inl (n, o, z) ↦ inl (rw (e, n) refl, rw (e, o) refl, (not_open s e, z))
    | inr (m', f, a, o) ↦ inr (
      (k, s) ∷ m',
      rw (e, f) refl,
      record {
        front = (k, s) ∷ a.front;
        key = a.key;
        entry = a.entry;
        back = a.back;
        before = ap (◌∷◌ (k, s)) a.before;
        after = ap (◌∷◌ (k, s)) a.after;
        none_before = (not_open s e, a.none_before);
        was_open = a.was_open;
      },
      rw (e, o) refl,
    )
  ]
]

-- Archiving fails exactly when `have_open_session` is false, and then no session has `closed` at
-- -1. Otherwise it sets `closed` to 1 in the first session, in the order of the keys, that has it
-- at -1, and leaves the rest of that session, every other session, the order and the version as
-- they are.
pub archive_current-Archived :
    (r : SessionRecord)
    → ((archive_current r ≡ err no_open_session)
        × (have_open_session r ≡ false)
        × NoneOpen r.sessions)
      ⊎ ((r' : SessionRecord) × (archive_current r ≡ ok r')
          × Archived r.sessions r'.sessions
          × (r'.version ≡ r.version)
          × (have_open_session r ≡ true))
unfolding archive_current have_open_session
archive_current-Archived r = elim (archive_first-Archived r.sessions) [
  | inl (n, o, z) ↦ inl (rw (n, archive_current) refl, o, z)
  | inr (m', f, a, o) ↦ inr (record r { sessions = m' }, rw (f, archive_current) refl, a, refl, o)
]
