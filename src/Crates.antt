-- ===== src/Crates.antt =====
-- The crates below the program (base64, hmac with sha2, aes), as a record of their operations. A
-- decoder that fails and a key that is refused are `none`; the messages they carry are left out.
use oktz_signal.Base.{◌<◌, All, ℕ, ◌≡◌, ◌≢◌, Bool, Option, some, List, [], length}
use oktz_signal.BTreeMap.Keys.{Str}

-- One AES key, expanded.
pub record BlockCipher : Type 0 where
  pub encrypt_block : List ℕ → List ℕ
  pub decrypt_block : List ℕ → List ℕ

pub record Crates : Type 0 where
  -- base64, `STANDARD`
  pub encode : List ℕ → Str
  pub decode : Str → Option (List ℕ)
  -- HMAC-SHA256 of data under a key, which may have any length
  pub hmac : List ℕ → List ℕ → List ℕ
  -- `verify_truncated_left`: key, data and tag
  pub verify_truncated_left : List ℕ → List ℕ → List ℕ → Bool
  -- `Aes256::new_from_slice`
  pub aes256 : List ℕ → Option BlockCipher
  -- curve25519-dalek: `MontgomeryPoint::mul_base_clamped(scalar)` and
  -- `MontgomeryPoint(point).mul_clamped(scalar)`, as bytes
  pub mul_base_clamped : List ℕ → List ℕ
  pub mul_clamped : List ℕ → List ℕ → List ℕ

-- What base64 and HMAC document: a text decodes to what was encoded, only the empty byte string
-- has the empty text, and a tag
-- has 32 bytes.
pub record IsEncoding (c : Crates) : Type 0 where
  pub decode-encode : (b : List ℕ) → c.decode (c.encode b) ≡ some b
  pub encode_full : (b : List ℕ) → b ≢ [] → c.encode b ≢ []
  pub length-hmac : (key message : List ℕ) → length (c.hmac key message) ≡ 32
  pub hmac_bytes : (key message : List ℕ) → All (λ b. b < 256) (c.hmac key message)
