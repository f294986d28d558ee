-- ===== src/Util.antt =====
-- util.rs: base64.
use oktz_signal.Base.{ℕ, List, Result, ok_or, invalid_base64}
use oktz_signal.BTreeMap.Keys.{Str}
use oktz_signal.Crates.{Crates}

abbrev pub b64 : Crates → List ℕ → Str
b64 c bytes = c.encode bytes

abbrev pub unb64 : Crates → Str → Result (List ℕ)
unb64 c text = ok_or invalid_base64 (c.decode text)
