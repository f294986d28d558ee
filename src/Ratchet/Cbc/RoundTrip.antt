-- ===== src/Ratchet/Cbc/RoundTrip.antt =====
-- ratchet.rs: what `aes_cbc_decrypt` makes of what `aes_cbc_encrypt` made, and what it accepts.
use oktz_signal.Base.{
  ℕ, zero, suc, ◌+◌, ◌-◌, ◌*◌, ◌/◌, ◌%◌, ◌≤◌, ◌<◌, ◌≡◌, ◌≢◌, refl, sym, ap, ◌∙◌, List, [], ◌∷◌,
  ◌++◌, arith,
}
use oktz_signal.Base.{some, false, not, ◌||◌, ◌==◌, Bool-cases, Option-cases, inl, inr}
use oktz_signal.Base.{length, is_empty, replicate, All, length-append, length-replicate}
use oktz_signal.Base.{ok}
use oktz_signal.Crates.{Crates, BlockCipher}
use oktz_signal.Ratchet.Cbc.{
  chunks, encrypt_blocks, decrypt_blocks, pad_pkcs7, unpad_pkcs7, aes_cbc_encrypt, aes_cbc_decrypt,
}
use oktz_signal.Ratchet.Cbc.Xor.{IsBlock}
use oktz_signal.Ratchet.Cbc.Blocks.{
  IsCipher, concat, chunks_whole, length-encrypt_blocks, decrypt_blocks-encrypt_blocks,
}
use oktz_signal.Ratchet.Cbc.Padding.{unpad_pkcs7-replicate, unpad_pkcs7_strict}

All-append : (P : ℕ → Type 0) (xs ys : List ℕ) → All P xs → All P ys → All P (xs ++ ys)
All-append P [] ys h k = k
All-append P (x ∷ xs) ys (h, hs) k = (h, All-append P xs ys hs k)

All-replicate : (P : ℕ → Type 0) (n x : ℕ) → P x → All P (replicate n x)
All-replicate P zero x h = tt
All-replicate P (suc n) x h = (h, All-replicate P n x h)

-- The padded text is a number of whole blocks, at least one.
padded :
    (plaintext : List ℕ)
    → (n : ℕ) × (p : ℕ) × (length (pad_pkcs7 plaintext) ≡ suc n * 16)
      × (pad_pkcs7 plaintext ≡ plaintext ++ replicate (suc p) (suc p))
      × (suc p ≤ 16)
unfolding pad_pkcs7
padded plaintext =
    (let n = length plaintext in
      let p = 15 - n % 16 in
      let same : (16 - n % 16 ≡ suc p) = omega arith in
      (
        n / 16,
        p,
        omega (
          arith,
          length-append plaintext (replicate (16 - n % 16) (16 - n % 16)),
          length-replicate (16 - n % 16) (16 - n % 16),
        ),
        ap (λ k. plaintext ++ replicate k k) same,
        omega arith,
      ))

accepts :
    (xs : List ℕ) (n : ℕ)
    → length xs ≡ suc n * 16
    → (not (length xs % 16 == 0) || is_empty xs) ≡ false
accepts [] n h = ground arith
accepts (x ∷ xs) n h = ground (arith, h)

accepted :
    (xs : List ℕ)
    → (not (length xs % 16 == 0) || is_empty xs) ≡ false
    → (length xs % 16 ≡ 0) × (xs ≢ [])
accepted [] h = ground arith
accepted (x ∷ xs) h = (ground (arith, h), λ q. cc)

length-concat : (bs : List (List ℕ)) → All IsBlock bs → length (concat bs) ≡ length bs * 16
length-concat [] all = omega arith
length-concat (b ∷ bs) ((l, _), all) =
    omega (arith, length-append b (concat bs), l, length-concat bs all)

module _ (c : Crates) where
  -- The round trip, with the length of the ciphertext.
  pub aes_cbc_encrypt-whole :
      (key iv plaintext : List ℕ) (cipher : BlockCipher)
      → c.aes256 key ≡ some cipher
      → IsCipher cipher
      → IsBlock iv
      → All (λ x. x < 256) plaintext
      → (ciphertext : List ℕ) × (aes_cbc_encrypt c key iv plaintext ≡ ok ciphertext)
        × (aes_cbc_decrypt c key iv ciphertext ≡ ok plaintext)
        × (1 ≤ length ciphertext)
        × (length ciphertext ≤ length plaintext + 16)
  unfolding aes_cbc_encrypt aes_cbc_decrypt
  aes_cbc_encrypt-whole key iv plaintext cipher k laws b bytes =
      (let (n, p, l, shape, small) = padded plaintext in
        let text = pad_pkcs7 plaintext in
        let text_bytes : All (λ x. x < 256) text = rw shape (
          All-append (λ x. x < 256) plaintext (replicate (suc p) (suc p)) bytes
            (All-replicate (λ x. x < 256) (suc p) (suc p) (omega arith))) in
        let (blocks, whole) = chunks_whole (suc n) text l text_bytes in
        let ct = encrypt_blocks cipher iv (chunks text) in
        let ct_length : (length ct ≡ suc n * 16) = omega (
          arith,
          length-encrypt_blocks cipher iv (chunks text) laws b blocks,
          length-concat (chunks text) blocks,
          ap length whole,
          l,
        ) in
        (
          ct,
          rw k refl,
          rw
              (
                accepts ct n ct_length,
                k,
                decrypt_blocks-encrypt_blocks cipher iv (chunks text) laws b blocks ∙ whole ∙ shape,
              )
              (unpad_pkcs7-replicate plaintext p small),
          omega (arith, ct_length),
          omega (
            arith,
            ct_length,
            l,
            ap length shape,
            length-append plaintext (replicate (suc p) (suc p)),
            length-replicate (suc p) (suc p),
            small,
          ),
        ))

  -- Under a key that AES accepts, with a cipher whose decryption undoes its encryption on blocks,
  -- an IV of 16 bytes and a plaintext of bytes of any length: encryption succeeds and decryption
  -- under the same key and IV gives the plaintext back.
  pub aes_cbc_decrypt-aes_cbc_encrypt :
      (key iv plaintext : List ℕ) (cipher : BlockCipher)
      → c.aes256 key ≡ some cipher
      → IsCipher cipher
      → IsBlock iv
      → All (λ x. x < 256) plaintext
      → (ciphertext : List ℕ) × (aes_cbc_encrypt c key iv plaintext ≡ ok ciphertext)
        × (aes_cbc_decrypt c key iv ciphertext ≡ ok plaintext)
  aes_cbc_decrypt-aes_cbc_encrypt key iv plaintext cipher k laws b bytes =
      (let (ciphertext, enciphered, deciphered, _, _) =
          aes_cbc_encrypt-whole key iv plaintext cipher k laws b bytes in
        (ciphertext, enciphered, deciphered))

  -- What decryption accepts is a positive number of whole blocks, under a key that AES accepts,
  -- and deciphers to the plaintext followed by 1 to 16 bytes, each their number.
  pub aes_cbc_decrypt_strict :
      (key iv ciphertext plaintext : List ℕ)
      → aes_cbc_decrypt c key iv ciphertext ≡ ok plaintext
      → (cipher : BlockCipher) × (n : ℕ) × (c.aes256 key ≡ some cipher)
        × (length ciphertext % 16 ≡ 0)
        × (ciphertext ≢ [])
        × (1 ≤ n)
        × (n ≤ 16)
        × (decrypt_blocks cipher iv (chunks ciphertext) ≡ plaintext ++ replicate n n)
  unfolding aes_cbc_decrypt
  aes_cbc_decrypt_strict key iv ciphertext plaintext h =
      elim (Bool-cases (not (length ciphertext % 16 == 0) || is_empty ciphertext)) [
        | inl e ↦ ground (arith, e)
        | inr e ↦ elim (Option-cases (c.aes256 key)) [
          | inl k ↦ ground (arith, e, k)
          | inr (cipher, k) ↦
              (let opened : (aes_cbc_decrypt c key iv ciphertext
                    ≡ unpad_pkcs7 (decrypt_blocks cipher iv (chunks ciphertext))) =
                  rw (e, k) refl in
                let (n, low, high, shape) =
                  unpad_pkcs7_strict (decrypt_blocks cipher iv (chunks ciphertext)) plaintext
                    (sym opened ∙ h) in
                let (l, full) = accepted ciphertext e in (cipher, n, k, l, full, low, high, shape))
        ]
      ]
