-- ===== src/Ratchet/Kdf.antt =====
-- ratchet.rs, `derive_secrets_n`, and x3dh.rs, `derive_secrets`: HKDF with HMAC-SHA256.
use oktz_signal.Base.{ℕ, zero, suc, ◌+◌, ◌%◌, List, [], ◌∷◌, ◌++◌}
use oktz_signal.Crates.{Crates}

-- The bytes of "WhisperRatchet", "WhisperMessageKeys" and "WhisperText".
abbrev pub whisper : List ℕ
whisper = 87 ∷ 104 ∷ 105 ∷ 115 ∷ 112 ∷ 101 ∷ 114 ∷ []

abbrev pub whisper_ratchet : List ℕ
whisper_ratchet = whisper ++ 82 ∷ 97 ∷ 116 ∷ 99 ∷ 104 ∷ 101 ∷ 116 ∷ []

abbrev pub whisper_message_keys : List ℕ
whisper_message_keys = whisper ++ 77 ∷ 101 ∷ 115 ∷ 115 ∷ 97 ∷ 103 ∷ 101 ∷ 75 ∷ 101 ∷ 121 ∷ 115 ∷ []

abbrev pub whisper_text : List ℕ
whisper_text = whisper ++ 84 ∷ 101 ∷ 120 ∷ 116 ∷ []

-- `keys[i]`; behind the last chunk, where the source would panic, the empty byte string.
abbrev pub chunk : List (List ℕ) → ℕ → List ℕ
chunk [] i = []
chunk (k ∷ ks) zero = k
chunk (k ∷ ks) (suc i) = chunk ks i

module _ (c : Crates) where
  -- `for i in 0..n`, from `i` on.
  unfoldable pub expand : ℕ → ℕ → List ℕ → List ℕ → List ℕ → List (List ℕ)
  expand zero i prk info prev = []
  expand (suc n) i prk info prev =
      (let next = c.hmac prk (prev ++ info ++ ((i + 1) % 256) ∷ []) in
        next ∷ expand n (i + 1) prk info next)

  -- HMAC takes a key of any length, so that the source's `map_err` branches are dead.
  unfoldable pub derive_secrets_n : List ℕ → List ℕ → List ℕ → ℕ → List (List ℕ)
  unfolding expand
  derive_secrets_n input salt info n = expand n 0 (c.hmac salt input) info []
