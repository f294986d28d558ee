-- ===== src/Ratchet/Cbc/Padding.antt =====
-- ratchet.rs, the PKCS7 padding.
use oktz_signal.Base.{
  ℕ, zero, suc, ◌-◌, ◌/◌, ◌≤◌, ◌<◌, ◌≡◌, ◌≢◌, refl, sym, ap, ◌∙◌, List, [], ◌∷◌, ◌++◌, arith,
}
use oktz_signal.Base.{
  true, ◌&&◌, some, ltb, leb, ◌==◌, ==_iff, Bool-cases, Option-cases, inl, inr, ◌⊎◌,
}
use oktz_signal.Base.{
  length, take, drop, replicate, length-append, length-replicate, length-drop, take-length_append,
  drop-length_append, take-append-drop,
}
use oktz_signal.Base.{Result, ok, err, invalid_padding, bit_or, bit_xor}
use oktz_signal.Base.Bits.{bit_or_step, zero-bit_or}
use oktz_signal.Base.Order.{lt_wf}
use oktz_signal.Ratchet.Cbc.{unpad_pkcs7, last, differences}
use oktz_signal.Ratchet.Cbc.Xor.{xor_self, xor_zero}
use mathlib.Core.WellFounded

-- An or that is 0 has only zeros in it.
pub bit_or_zero : (a b : ℕ) → bit_or a b ≡ 0 → (a ≡ 0) × (b ≡ 0)
bit_or_zero a =
    WellFounded.induction lt_wf {C = λ n. (b : ℕ) → bit_or n b ≡ 0 → (n ≡ 0) × (b ≡ 0)} a
      λ n ih. halve n ih
  where
    halve :
        (n : ℕ)
        → ((m : ℕ) → m < n → (b : ℕ) → bit_or m b ≡ 0 → (m ≡ 0) × (b ≡ 0))
        → (b : ℕ) → bit_or n b ≡ 0
        → (n ≡ 0) × (b ≡ 0)
    halve zero ih b h = (refl, sym (zero-bit_or b) ∙ h)
    halve (suc n) ih b h =
        (let s = bit_or_step (suc n) b in
          let (p, q) = ih (suc n / 2) (omega arith) (b / 2) (omega (arith, s, h)) in
          (omega (arith, s, h, p, q), omega (arith, s, h, p, q)))

differences_zero :
    (pad : ℕ) (bytes : List ℕ) (diff : ℕ)
    → differences pad bytes diff ≡ 0
    → (diff ≡ 0) × (bytes ≡ replicate (length bytes) pad)
differences_zero pad [] diff h = (h, refl)
differences_zero pad (b ∷ bytes) diff h =
    (let (p, q) = differences_zero pad bytes (bit_or diff (bit_xor b pad)) h in
      let (d, x) = bit_or_zero diff (bit_xor b pad) p in
      (d, ap (λ y. y ∷ bytes) (xor_zero b pad x) ∙ ap (◌∷◌ pad) q))

differences-replicate : (pad n : ℕ) → differences pad (replicate n pad) 0 ≡ 0
differences-replicate pad zero = refl
differences-replicate pad (suc n) =
    ap (differences pad (replicate n pad)) (zero-bit_or (bit_xor pad pad) ∙ xor_self pad)
    ∙ differences-replicate pad n

last-append : (xs : List ℕ) (y : ℕ) (ys : List ℕ) → last (xs ++ y ∷ ys) ≡ last (y ∷ ys)
last-append [] y ys = refl
last-append (x ∷ xs) y ys = elim (Option-cases (last ys)) [
  | inl e ↦ ground (arith, last-append xs y ys, e)
  | inr (z, e) ↦ ground (arith, last-append xs y ys, e)
]

last-replicate : (n k : ℕ) → last (replicate (suc n) k) ≡ some k
last-replicate zero k = refl
last-replicate (suc n) k = rw (last-replicate n k) refl

-- Unpadding gives back what was padded with 1 to 16 bytes of that number.
pub unpad_pkcs7-replicate :
    (bytes : List ℕ) (n : ℕ)
    → suc n ≤ 16
    → unpad_pkcs7 (bytes ++ replicate (suc n) (suc n)) ≡ ok bytes
unfolding unpad_pkcs7
unpad_pkcs7-replicate bytes n h =
    (let pad = suc n in
      let out = bytes ++ replicate pad pad in
      let l : (length out - pad ≡ length bytes) =
        omega (arith, length-append bytes (replicate pad pad), length-replicate pad pad) in
      let fits : ((ltb 0 pad && leb pad 16 && leb pad (length out)) ≡ true) =
        ground (arith, length-append bytes (replicate pad pad), length-replicate pad pad) in
      rw
        (
          last-append bytes pad (replicate n pad) ∙ last-replicate n pad,
          unpad_pkcs7,
          fits,
          l,
          drop-length_append bytes (replicate pad pad),
          take-length_append bytes (replicate pad pad),
          differences-replicate pad pad,
        )
        refl)

-- The three outcomes of unpadding, by the last byte.
unpad_pkcs7-cases :
    (out : List ℕ) (pad : ℕ)
    → last out ≡ some pad
    → (unpad_pkcs7 out ≡ err invalid_padding)
      ⊎ (((ltb 0 pad && leb pad 16 && leb pad (length out)) ≡ true)
          × (differences pad (drop (length out - pad) out) 0 ≡ 0)
          × (unpad_pkcs7 out ≡ ok (take (length out - pad) out)))
unfolding unpad_pkcs7
unpad_pkcs7-cases out pad e = elim (Bool-cases (ltb 0 pad && leb pad 16 && leb pad (length out))) [
  | inr f ↦ inl (rw (e, unpad_pkcs7, f) refl)
  | inl f ↦ elim (Bool-cases (differences pad (drop (length out - pad) out) 0 == 0)) [
    | inl d ↦ inr (f, (==_iff _ 0).0 d, rw (e, unpad_pkcs7, f, d) refl)
    | inr d ↦ inl (rw (e, unpad_pkcs7, f, d) refl)
  ]
]

refused : (r : Result (List ℕ)) {x : List ℕ} → r ≡ err invalid_padding → r ≢ ok x
refused r p q = cc

same_ok : (r : Result (List ℕ)) (x y : List ℕ) → r ≡ ok x → r ≡ ok y → x ≡ y
same_ok r x y p q = cc

-- What is accepted ends in 1 to 16 bytes, each their number, and they alone are cut off.
pub unpad_pkcs7_strict :
    (out bytes : List ℕ)
    → unpad_pkcs7 out ≡ ok bytes
    → (n : ℕ) × (1 ≤ n) × (n ≤ 16) × (out ≡ bytes ++ replicate n n)
unfolding unpad_pkcs7
unpad_pkcs7_strict out bytes h = elim (Option-cases (last out)) [
  | inl e ↦ ground (arith, e)
  | inr (pad, e) ↦ elim (unpad_pkcs7-cases out pad e) [
    | inl q ↦ absurd (refused (unpad_pkcs7 out) q h)
    | inr (f, d, q) ↦
        (let tail = drop (length out - pad) out in
          let (z, padding) = differences_zero pad tail 0 d in
          let l : (length tail ≡ pad) = ground (arith, f, length-drop (length out - pad) out) in
          (
            pad,
            ground (arith, f),
            ground (arith, f),
            sym (take-append-drop (length out - pad) out)
                ∙ ap (λ x. x ++ tail)
                    (same_ok (unpad_pkcs7 out) (take (length out - pad) out) bytes q h)
                ∙ ap (λ x. bytes ++ x) (padding ∙ ap (λ k. replicate k pad) l),
          ))
  ]
]
