-- ===== src/Ratchet/Cbc/Blocks.antt =====
-- ratchet.rs: the cut of a byte string into blocks of 16, and CBC on a list of blocks.
use oktz_signal.Base.{
  ℕ, zero, suc, ◌-◌, ◌*◌, ◌≤◌, ◌<◌, ◌≡◌, refl, sym, ap, ◌∙◌, List, [], ◌∷◌, ◌++◌, arith,
}
use oktz_signal.Base.{
  length, take, drop, All, length-drop, length-take, length-append, take-length_append,
  drop-length_append, take-append-drop,
}
use oktz_signal.Crates.{BlockCipher}
use oktz_signal.Ratchet.Cbc.{chunks, chunk_loop, encrypt_blocks, decrypt_blocks, xor_block}
use oktz_signal.Ratchet.Cbc.Xor.{IsBlock, xor_block-IsBlock, xor_block-xor_block}

-- What AES documents of a key: blocks go to blocks, and decryption undoes encryption.
pub record IsCipher (cipher : BlockCipher) : Type 0 where
  pub block : (b : List ℕ) → IsBlock b → IsBlock (cipher.encrypt_block b)
  pub undoes : (b : List ℕ) → IsBlock b → cipher.decrypt_block (cipher.encrypt_block b) ≡ b

abbrev pub concat : List (List ℕ) → List ℕ
concat [] = []
concat (b ∷ bs) = b ++ concat bs

chunk_loop_fuel :
    (n m : ℕ) (bytes : List ℕ)
    → length bytes ≤ n
    → length bytes ≤ m
    → chunk_loop n bytes ≡ chunk_loop m bytes
unfolding chunk_loop
chunk_loop_fuel zero zero bytes h k = refl
chunk_loop_fuel zero (suc m) [] h k = refl
chunk_loop_fuel zero (suc m) (b ∷ bytes) h k = ground arith
chunk_loop_fuel (suc n) zero [] h k = refl
chunk_loop_fuel (suc n) zero (b ∷ bytes) h k = ground arith
chunk_loop_fuel (suc n) (suc m) [] h k = refl
chunk_loop_fuel (suc n) (suc m) (b ∷ bytes) h k = ap (◌∷◌ (take 16 (b ∷ bytes))) (
    chunk_loop_fuel n m (drop 16 (b ∷ bytes)) (omega (arith, length-drop 16 (b ∷ bytes)))
      (omega (arith, length-drop 16 (b ∷ bytes))))

chunk_loop_whole : (n : ℕ) (bytes : List ℕ) → length bytes ≤ n → concat (chunk_loop n bytes) ≡ bytes
unfolding chunk_loop
chunk_loop_whole zero [] h = refl
chunk_loop_whole zero (b ∷ bytes) h = ground arith
chunk_loop_whole (suc n) [] h = refl
chunk_loop_whole (suc n) (b ∷ bytes) h =
    rw (chunk_loop_whole n (drop 16 (b ∷ bytes)) (omega (arith, length-drop 16 (b ∷ bytes))))
      (take-append-drop 16 (b ∷ bytes))

-- Nothing of a byte string is lost when it is cut.
pub concat-chunks : (bytes : List ℕ) → concat (chunks bytes) ≡ bytes
unfolding chunks
concat-chunks bytes = chunk_loop_whole (length bytes) bytes (omega arith)

first_chunk :
    (b : List ℕ) (rest : List ℕ) (n : ℕ)
    → length b ≡ 16
    → chunk_loop (suc n) (b ++ rest) ≡ b ∷ chunk_loop n rest
unfolding chunk_loop
first_chunk [] rest n h = ground arith
first_chunk (x ∷ b) rest n h =
    (let t : (take 16 ((x ∷ b) ++ rest) ≡ x ∷ b) =
        ap (λ k. take k ((x ∷ b) ++ rest)) (sym h) ∙ take-length_append (x ∷ b) rest in
      let d : (drop 16 ((x ∷ b) ++ rest) ≡ rest) =
        ap (λ k. drop k ((x ∷ b) ++ rest)) (sym h) ∙ drop-length_append (x ∷ b) rest in
      rw (t, d) refl)

pub chunks-append : (b rest : List ℕ) → length b ≡ 16 → chunks (b ++ rest) ≡ b ∷ chunks rest
unfolding chunks
chunks-append b rest h =
    (let l = length-append b rest in
      chunk_loop_fuel (length (b ++ rest)) (suc (length (b ++ rest) - 1)) (b ++ rest) (omega arith)
        (omega (arith, l))
      ∙ first_chunk b rest (length (b ++ rest) - 1) h
      ∙ ap (◌∷◌ b) (
          chunk_loop_fuel (length (b ++ rest) - 1) (length rest) rest (omega (arith, l))
            (omega arith)))

pub chunks-nil : chunks [] ≡ []
unfolding chunks chunk_loop
chunks-nil = refl

pub All-take : (P : ℕ → Type 0) (n : ℕ) (xs : List ℕ) → All P xs → All P (take n xs)
All-take P zero xs h = tt
All-take P (suc n) [] h = tt
All-take P (suc n) (x ∷ xs) (h, hs) = (h, All-take P n xs hs)

All-drop : (P : ℕ → Type 0) (n : ℕ) (xs : List ℕ) → All P xs → All P (drop n xs)
All-drop P zero xs h = h
All-drop P (suc n) [] h = tt
All-drop P (suc n) (x ∷ xs) (h, hs) = All-drop P n xs hs

-- Whole blocks are cut off, and nothing is left over.
pub chunks_whole :
    (n : ℕ) (bytes : List ℕ)
    → length bytes ≡ n * 16
    → All (λ x. x < 256) bytes
    → All IsBlock (chunks bytes) × (concat (chunks bytes) ≡ bytes)
chunks_whole zero [] l h = rw chunks-nil (tt, refl)
chunks_whole zero (b ∷ bytes) l h = ground arith
chunks_whole (suc n) bytes l h =
    (let front = take 16 bytes in
      let rest = drop 16 bytes in
      let front_length : (length front ≡ 16) = omega (arith, length-take 16 bytes, l) in
      let (blocks, whole) =
        chunks_whole n rest (omega (arith, length-drop 16 bytes, l))
          (All-drop (λ x. x < 256) 16 bytes h) in
      let cut =
        ap chunks (sym (take-append-drop 16 bytes)) ∙ chunks-append front rest front_length in
      rw cut (
        ((front_length, All-take (λ x. x < 256) 16 bytes h), blocks),
        ap (λ x. front ++ x) whole ∙ take-append-drop 16 bytes,
      ))

pub length-encrypt_blocks :
    (cipher : BlockCipher) (prev : List ℕ) (blocks : List (List ℕ))
    → IsCipher cipher
    → IsBlock prev
    → All IsBlock blocks
    → length (encrypt_blocks cipher prev blocks) ≡ length blocks * 16
unfolding encrypt_blocks
length-encrypt_blocks cipher prev [] laws p all = omega arith
length-encrypt_blocks cipher prev (b ∷ blocks) laws p (h, all) =
    (let mixed = xor_block b prev in
      let block = cipher.encrypt_block mixed in
      let is_block = laws.block mixed (xor_block-IsBlock b prev h p) in
      omega (
        arith,
        length-append block (encrypt_blocks cipher block blocks),
        is_block.0,
        length-encrypt_blocks cipher block blocks laws is_block all,
      ))

pub decrypt_blocks-encrypt_blocks :
    (cipher : BlockCipher) (prev : List ℕ) (blocks : List (List ℕ))
    → IsCipher cipher
    → IsBlock prev
    → All IsBlock blocks
    → decrypt_blocks cipher prev (chunks (encrypt_blocks cipher prev blocks)) ≡ concat blocks
unfolding decrypt_blocks encrypt_blocks
decrypt_blocks-encrypt_blocks cipher prev [] laws p all = rw chunks-nil refl
decrypt_blocks-encrypt_blocks cipher prev (b ∷ blocks) laws p (h, all) =
    (let mixed = xor_block b prev in
      let mixed_block = xor_block-IsBlock b prev h p in
      let block = cipher.encrypt_block mixed in
      let is_block = laws.block mixed mixed_block in
      rw
        (
          chunks-append block (encrypt_blocks cipher block blocks) is_block.0,
          laws.undoes mixed mixed_block,
          xor_block-xor_block b prev,
          decrypt_blocks-encrypt_blocks cipher block blocks laws is_block all,
        )
        refl)
