-- ===== src/BTreeMap/Keys.antt =====
-- The two key types of the program: texts, in the order of their bytes, and `i64` counters.
use Prim.Native.Nat.{Ordering, compare}
use oktz_signal.Base.{ℕ, ◌+◌, ◌≡◌, ◌↔◌, refl, List, [], ◌∷◌, arith}
use oktz_signal.Base.Int.{ℤ, pos_part, neg_part, eq_of_parts}
use oktz_signal.BTreeMap.{Ord}

-- A `String` is the list of its bytes.
abbrev pub Str : Type 0
Str = List ℕ

unfoldable pub compare_str : Str → Str → Ordering
compare_str [] [] = Ordering.eq
compare_str [] (y ∷ ys) = Ordering.lt
compare_str (x ∷ xs) [] = Ordering.gt
compare_str (x ∷ xs) (y ∷ ys) = elim (compare x y) [
  | Ordering.lt ↦ Ordering.lt
  | Ordering.eq ↦ compare_str xs ys
  | Ordering.gt ↦ Ordering.gt
]

compare_str→eq : (a b : Str) → compare_str a b ≡ Ordering.eq → a ≡ b
unfolding compare_str
compare_str→eq [] [] h = refl
compare_str→eq [] (y ∷ ys) h = cc
compare_str→eq (x ∷ xs) [] h = cc
compare_str→eq (x ∷ xs) (y ∷ ys) h = ground (arith, compare_str→eq xs ys)

compare_str_self : (a : Str) → compare_str a a ≡ Ordering.eq
unfolding compare_str
compare_str_self [] = refl
compare_str_self (x ∷ xs) = ground (arith, compare_str_self xs)

pub compare_str_flip : (a b : Str) → compare_str a b ≡ Ordering.gt → compare_str b a ≡ Ordering.lt
unfolding compare_str
compare_str_flip [] [] h = cc
compare_str_flip [] (y ∷ ys) h = cc
compare_str_flip (x ∷ xs) [] h = refl
compare_str_flip (x ∷ xs) (y ∷ ys) h = ground (arith, compare_str_flip xs ys)

pub compare_str_trans :
    (a b c : Str)
    → compare_str a b ≡ Ordering.lt
    → compare_str b c ≡ Ordering.lt
    → compare_str a c ≡ Ordering.lt
unfolding compare_str
compare_str_trans [] [] c h k = cc
compare_str_trans [] (y ∷ ys) [] h k = cc
compare_str_trans [] (y ∷ ys) (z ∷ zs) h k = refl
compare_str_trans (x ∷ xs) [] c h k = cc
compare_str_trans (x ∷ xs) (y ∷ ys) [] h k = cc
compare_str_trans (x ∷ xs) (y ∷ ys) (z ∷ zs) h k = ground (arith, compare_str_trans xs ys zs)

pub compare_str_iff : (a b : Str) → (compare_str a b ≡ Ordering.eq) ↔ (a ≡ b)
compare_str_iff a b = (compare_str→eq a b, λ e. rw e (compare_str_self b))

instance abbrev pub str_ord : Ord Str
str_ord = record {
  cmp = compare_str;
  eq_iff = compare_str_iff;
  flip = compare_str_flip;
  trans = compare_str_trans;
}

abbrev pub compare_ℤ : ℤ → ℤ → Ordering
compare_ℤ a b = compare (pos_part a + neg_part b) (pos_part b + neg_part a)

pub compare_ℤ_iff : (a b : ℤ) → (compare_ℤ a b ≡ Ordering.eq) ↔ (a ≡ b)
compare_ℤ_iff a b = (λ h. ground (arith, eq_of_parts a b), λ h. ground arith)

pub compare_ℤ_flip : (a b : ℤ) → compare_ℤ a b ≡ Ordering.gt → compare_ℤ b a ≡ Ordering.lt
compare_ℤ_flip a b h = ground arith

pub compare_ℤ_trans :
    (a b c : ℤ)
    → compare_ℤ a b ≡ Ordering.lt
    → compare_ℤ b c ≡ Ordering.lt
    → compare_ℤ a c ≡ Ordering.lt
compare_ℤ_trans a b c h k = ground arith

instance abbrev pub int_ord : Ord ℤ
int_ord = record {
  cmp = compare_ℤ;
  eq_iff = compare_ℤ_iff;
  flip = compare_ℤ_flip;
  trans = compare_ℤ_trans;
}
