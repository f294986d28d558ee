-- ===== src/Proto/Whisper/Unknown.antt =====
-- proto.rs: the arm for a field the decoder does not know.
use oktz_signal.Base.{ℕ, ◌+◌, ◌≤◌, ◌≡◌, List, ◌++◌, length, arith, ok}
use oktz_signal.Proto.Varint.{at, IsU64}
use oktz_signal.Proto.Varint.RoundTrip.{read_varint-groups}
use oktz_signal.Proto.Fields.{skip_field}
use oktz_signal.Proto.Fields.RoundTrip.{varint}
use oktz_signal.Proto.Whisper.{Partial, whisper_arms}

pub skip_varint :
    (field v : ℕ) (rest : List ℕ) (pos : ℕ) (s : Partial)
    → 5 ≤ field
    → IsU64 v
    → whisper_arms field 0 (at (varint v ++ rest) pos) s ≡ ok (s, at rest (pos + length (varint v)))
unfolding whisper_arms skip_field varint
skip_varint field v rest pos s h u = ground (arith, read_varint-groups v rest pos u)
