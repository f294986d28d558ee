-- ===== src/Curve/Bytes.antt =====
-- curve.rs, the bytes that an assignment `v[i] = ..` changes and those it leaves.
use oktz_signal.Base.{ℕ, zero, suc, ◌+◌, ◌<◌, ◌≡◌, ◌≢◌, refl, ap, ◌∙◌, arith}
use oktz_signal.Base.{List, [], ◌∷◌, ◌++◌, length}
use oktz_signal.Curve.{modify, byte_at}

pub length-modify : (i : ℕ) (f : ℕ → ℕ) (xs : List ℕ) → length (modify i f xs) ≡ length xs
unfolding modify
length-modify i f [] = refl
length-modify zero f (x ∷ xs) = refl
length-modify (suc i) f (x ∷ xs) = ap suc (length-modify i f xs)

pub byte_at-modify :
    (i : ℕ) (f : ℕ → ℕ) (xs : List ℕ) → i < length xs → byte_at i (modify i f xs) ≡ f (byte_at i xs)
unfolding modify byte_at
byte_at-modify i f [] h = ground (arith, h)
byte_at-modify zero f (x ∷ xs) h = refl
byte_at-modify (suc i) f (x ∷ xs) h = byte_at-modify i f xs (omega (arith, h))

-- A change of a byte that is taken back.
pub modify-modify :
    (i : ℕ) (f g : ℕ → ℕ) (xs : List ℕ)
    → g (f (byte_at i xs)) ≡ byte_at i xs
    → modify i g (modify i f xs) ≡ xs
unfolding modify byte_at
modify-modify i f g [] h = refl
modify-modify zero f g (x ∷ xs) h = ap (λ y. y ∷ xs) h
modify-modify (suc i) f g (x ∷ xs) h = ap (◌∷◌ x) (modify-modify i f g xs h)

pub byte_at-append : (xs ys : List ℕ) (i : ℕ) → byte_at (length xs + i) (xs ++ ys) ≡ byte_at i ys
unfolding byte_at
byte_at-append [] ys i = ap (λ k. byte_at k ys) (zero_plus i)
  where
    zero_plus : (i : ℕ) → 0 + i ≡ i
    zero_plus i = omega arith
byte_at-append (x ∷ xs) ys i =
    ap (λ k. byte_at k (x ∷ (xs ++ ys))) (suc_plus (length xs) i) ∙ byte_at-append xs ys i
  where
    suc_plus : (n i : ℕ) → suc n + i ≡ suc (n + i)
    suc_plus n i = omega arith

pub byte_at-modify_other :
    (i j : ℕ) (f : ℕ → ℕ) (xs : List ℕ) → i ≢ j → byte_at i (modify j f xs) ≡ byte_at i xs
unfolding modify byte_at
byte_at-modify_other i j f [] h = refl
byte_at-modify_other zero zero f (x ∷ xs) h = absurd (h refl)
byte_at-modify_other zero (suc j) f (x ∷ xs) h = refl
byte_at-modify_other (suc i) zero f (x ∷ xs) h = refl
byte_at-modify_other (suc i) (suc j) f (x ∷ xs) h = byte_at-modify_other i j f xs λ e. h (ap suc e)
