-- ===== src/Session.antt =====
-- session.rs: the session record, its parser and the choice of the session in use. A `String` is
-- the list of its bytes, an `i64` an integer, a `u32` a native number. The `Zeroize` and `Drop`
-- impls scrub memory that is being released and have no counterpart here.
pub mod Open
pub mod Current
pub mod Archive
pub mod Trim
pub mod Text
use oktz_signal.Base.{
  ℕ, zero, suc, ◌-◌, List, [], ◌∷◌, Bool, true, false, not, ◌&&◌, ◌||◌, Option, none, some,
}
use oktz_signal.Base.{
  ltb, leb, ◌==◌, if◌then◌else◌, length, is_empty, drop, bytes_eq, Result, ok, err, ◌>>=◌, ◌>>◌,
}
use oktz_signal.Base.{
  bail_if, ok_or, not_a_json_object, invalid_json, chain_key_closed, no_open_session,
}
use oktz_signal.Base.{unsupported_version}
use oktz_signal.Base.Int.{ℤ, pos, negsuc, ltb_ℤ}
use oktz_signal.BTreeMap.{BTreeMap, get, values}
use oktz_signal.BTreeMap.Keys.{Str, str_ord}

pub record KeyPair : Type 0 where
  pub pub_key : Str
  pub priv_key : Str

pub record Ratchet : Type 0 where
  pub ephemeral_key_pair : KeyPair
  pub last_remote_ephemeral_key : Str
  pub previous_counter : ℕ
  pub root_key : Str

pub record IndexInfo : Type 0 where
  pub base_key : Str
  pub base_key_type : ℕ
  pub closed : ℤ
  pub used : ℤ
  pub created : ℤ
  pub remote_identity_key : Str

pub record ChainKey : Type 0 where
  pub counter : ℤ
  pub key : Option Str

pub record Chain : Type 0 where
  pub chain_key : ChainKey
  pub chain_type : ℕ
  pub message_keys : BTreeMap ℤ Str

pub record PendingPreKey : Type 0 where
  pub signed_key_id : Option ℕ
  pub pre_key_id : Option ℕ
  pub base_key : Str

pub record SessionEntry : Type 0 where
  pub registration_id : ℕ
  pub current_ratchet : Ratchet
  pub index_info : IndexInfo
  pub chains : BTreeMap Str Chain
  pub pending_pre_key : Option PendingPreKey

pub record SessionRecord : Type 0 where
  pub sessions : BTreeMap Str SessionEntry
  pub version : Str

abbrev pub sending : ℕ
sending = 1

abbrev pub receiving : ℕ
receiving = 2

abbrev pub legacy_receiving : ℕ
legacy_receiving = 0

abbrev pub is_sending : Chain → Bool
is_sending c = c.chain_type == sending

abbrev pub is_receiving : Chain → Bool
is_receiving c = (c.chain_type == receiving) || (c.chain_type == legacy_receiving)

abbrev pub is_closed : ChainKey → Bool
is_closed k = elim k.key [ none ↦ true | some s ↦ is_empty s ]

-- `ChainKey::key`, named apart from the field.
abbrev pub open_key : ChainKey → Result Str
open_key k = do bail_if (is_closed k) chain_key_closed; ok (elim k.key [ none ↦ [] | some s ↦ s ])

-- "v1"
abbrev pub default_version : Str
default_version = 118 ∷ 49 ∷ []

-- serde_json and serde's derived impls, for the record.
pub record Serde : Type 0 where
  pub from_str : Str → Option SessionRecord
  pub to_string : SessionRecord → Option Str

-- U+1680, U+2000-200A, U+2028, U+2029, U+202F, U+205F and U+3000.
abbrev wide_white : ℕ → ℕ → ℕ → Bool
wide_white a b c =
    ((a == 225) && (b == 154) && (c == 128))
    || ((a == 226)
        && (b == 128)
        && ((leb 128 c && leb c 138) || (leb 168 c && leb c 169) || (c == 175)))
    || ((a == 226) && (b == 129) && (c == 159))
    || ((a == 227) && (b == 128) && (c == 128))

-- The bytes of the white space character (Unicode White_Space, in UTF-8) at the front, 0 for none.
abbrev pub white_len : Str → ℕ
white_len [] = 0
white_len (a ∷ s) = if (leb 9 a && leb a 13) || (a == 32) then 1 else elim s [
  | [] ↦ 0
  | b ∷ t ↦
      if (a == 194) && ((b == 133) || (b == 160))
      then 2
      else elim t [ [] ↦ 0 | c ∷ u ↦ if wide_white a b c then 3 else 0 ]
]

abbrev pub trim_loop : ℕ → Str → Str
trim_loop zero s = s
trim_loop (suc fuel) s = elim (white_len s) [ zero ↦ s | suc n ↦ trim_loop fuel (drop (suc n) s) ]

-- Each round takes at least one byte, so the length is fuel enough.
unfoldable pub trim_start : Str → Str
trim_start s = trim_loop (length s) s

-- `starts_with('{')`
abbrev pub starts_with_brace : Str → Bool
starts_with_brace [] = false
starts_with_brace (a ∷ s) = a == 123

module _ (serde : Serde) where
  unfoldable pub parse : Str → Result SessionRecord
  parse json = do
    bail_if (not (starts_with_brace (trim_start json))) not_a_json_object
    ok_or invalid_json (serde.from_str json)

  unfoldable pub serialize : SessionRecord → Result Str
  serialize r = ok_or invalid_json (serde.to_string r)

unfoldable pub validate : SessionRecord → Result (Unit {0})
validate r = bail_if (not (bytes_eq r.version default_version)) (unsupported_version r.version)

module _ (serde : Serde) where
  unfoldable pub deserialize : Str → Result SessionRecord
  unfolding parse validate
  deserialize json = do r ← parse serde json; validate r; ok r

-- `closed == -1`
abbrev pub is_open : SessionEntry → Bool
is_open s = elim s.index_info.closed [ negsuc zero ↦ true | _ ↦ false ]

abbrev pub any_open : List SessionEntry → Bool
any_open [] = false
any_open (s ∷ rest) = is_open s || any_open rest

unfoldable pub have_open_session : SessionRecord → Bool
have_open_session r = any_open (values r.sessions)

-- `(open, used)`, compared as Rust compares tuples: the first pair is above the second.
abbrev pub above : Bool → ℤ → Bool → ℤ → Bool
above true a true b = ltb_ℤ b a
above true a false b = true
above false a true b = false
above false a false b = ltb_ℤ b a

abbrev pub outranks : SessionEntry → SessionEntry → Bool
outranks s t = above (is_open s) s.index_info.used (is_open t) t.index_info.used

-- `max_by_key`: of equal maxima the last.
unfoldable pub max_by_rank : Str → SessionEntry → BTreeMap Str SessionEntry → Str × SessionEntry
max_by_rank k s [] = (k, s)
max_by_rank k s ((j, t) ∷ m) = if outranks s t then max_by_rank k s m else max_by_rank j t m

-- The mutable reference is the key of the entry it points into, with the entry.
unfoldable pub current_session_mut : SessionRecord → Option (Str × SessionEntry)
unfolding max_by_rank get
current_session_mut r = elim r.sessions [
  | [] ↦ none
  | (k, s) ∷ [] ↦ some (k, s)
  | (k, s) ∷ m ↦
      (let best_key = (max_by_rank k s m).0 in
        elim (get best_key r.sessions) [ none ↦ none | some t ↦ some (best_key, t) ])
]

abbrev pub close : SessionEntry → SessionEntry
close s = record s { index_info = record (s.index_info) { closed = pos 1 } }

-- The loop of `archive_current`, which returns at the first open session.
unfoldable pub archive_first : BTreeMap Str SessionEntry → Option (BTreeMap Str SessionEntry)
archive_first [] = none
archive_first ((k, s) ∷ m) =
    (let rest = archive_first m in
      if is_open s
      then some ((k, close s) ∷ m)
      else elim rest [ none ↦ none | some m' ↦ some ((k, s) ∷ m') ])

unfoldable pub archive_current : SessionRecord → Result SessionRecord
unfolding archive_first
archive_current r = elim (archive_first r.sessions) [
  | none ↦ err no_open_session
  | some m ↦ ok (record r { sessions = m })
]
