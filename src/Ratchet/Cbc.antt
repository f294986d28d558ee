-- ===== src/Ratchet/Cbc.antt =====
-- ratchet.rs, `aes_cbc_encrypt` and `aes_cbc_decrypt`: AES-256-CBC with PKCS7 padding.
pub mod Xor
pub mod Blocks
pub mod Padding
pub mod RoundTrip
use oktz_signal.Base.{
  ℕ, zero, suc, ◌+◌, ◌-◌, ◌%◌, ◌≤◌, List, [], ◌∷◌, ◌++◌, Bool, true, false, not, ◌&&◌, ◌||◌, ltb,
  leb, ◌==◌,
}
use oktz_signal.Base.{
  if◌then◌else◌, length, take, drop, replicate, is_empty, bit_xor, bit_or, Option, none, some,
}
use oktz_signal.Base.{
  Result, ok, err, ◌>>=◌, ◌>>◌, bail_if, ok_or, aes_key_length, invalid_ciphertext_length,
  invalid_padding,
}
use oktz_signal.Crates.{Crates, BlockCipher}

-- `zip`: behind the end of the second, the first is left as it is.
unfoldable pub xor_block : List ℕ → List ℕ → List ℕ
xor_block [] ys = []
xor_block (x ∷ xs) [] = x ∷ xs
xor_block (x ∷ xs) (y ∷ ys) = bit_xor x y ∷ xor_block xs ys

-- `chunks(16)`: each round takes at least one byte, so the length is fuel enough.
unfoldable pub chunk_loop : ℕ → List ℕ → List (List ℕ)
chunk_loop zero bytes = []
chunk_loop (suc fuel) bytes = elim bytes [
  | [] ↦ []
  | b ∷ rest ↦ take 16 (b ∷ rest) ∷ chunk_loop fuel (drop 16 (b ∷ rest))
]

unfoldable pub chunks : List ℕ → List (List ℕ)
unfolding chunk_loop
chunks bytes = chunk_loop (length bytes) bytes

-- The two loops, from the block before.
unfoldable pub encrypt_blocks : BlockCipher → List ℕ → List (List ℕ) → List ℕ
unfolding xor_block
encrypt_blocks cipher prev [] = []
encrypt_blocks cipher prev (chunk ∷ rest) =
    (let block = cipher.encrypt_block (xor_block chunk prev) in
      block ++ encrypt_blocks cipher block rest)

unfoldable pub decrypt_blocks : BlockCipher → List ℕ → List (List ℕ) → List ℕ
unfolding xor_block
decrypt_blocks cipher prev [] = []
decrypt_blocks cipher prev (block ∷ rest) =
    xor_block (cipher.decrypt_block block) prev ++ decrypt_blocks cipher block rest

unfoldable pub pad_pkcs7 : List ℕ → List ℕ
pad_pkcs7 plaintext =
    (let pad_len = 16 - length plaintext % 16 in plaintext ++ replicate pad_len pad_len)

abbrev pub last : List ℕ → Option ℕ
last [] = none
last (b ∷ bytes) = elim (last bytes) [ none ↦ some b | some x ↦ some x ]

-- `for &b in ..`: the differences to the padding byte, or-ed.
abbrev pub differences : ℕ → List ℕ → ℕ → ℕ
differences pad [] diff = diff
differences pad (b ∷ bytes) diff = differences pad bytes (bit_or diff (bit_xor b pad))

unfoldable pub unpad_pkcs7 : List ℕ → Result (List ℕ)
unpad_pkcs7 out = do
  pad ← ok_or invalid_padding (last out)
  let diff =
      if ltb 0 pad && leb pad 16 && leb pad (length out)
      then differences pad (drop (length out - pad) out) 0
      else 1
  bail_if (not (diff == 0)) invalid_padding
  ok (take (length out - pad) out)

module _ (c : Crates) where
  unfoldable pub aes_cbc_encrypt : List ℕ → List ℕ → List ℕ → Result (List ℕ)
  unfolding encrypt_blocks chunks pad_pkcs7
  aes_cbc_encrypt key iv plaintext = do
    cipher ← ok_or aes_key_length (c.aes256 key)
    ok (encrypt_blocks cipher iv (chunks (pad_pkcs7 plaintext)))

  unfoldable pub aes_cbc_decrypt : List ℕ → List ℕ → List ℕ → Result (List ℕ)
  unfolding decrypt_blocks chunks unpad_pkcs7
  aes_cbc_decrypt key iv ciphertext = do
    bail_if (not (length ciphertext % 16 == 0) || is_empty ciphertext) invalid_ciphertext_length
    cipher ← ok_or aes_key_length (c.aes256 key)
    unpad_pkcs7 (decrypt_blocks cipher iv (chunks ciphertext))
