-- ===== src/Ratchet/MessageKeys/Evict.antt =====
-- ratchet.rs, `evict_oldest_message_keys`: what is kept.
use oktz_signal.Base.{
  ℕ, zero, suc, ◌+◌, ◌-◌, ◌≤◌, ◌≡◌, refl, ap, ◌∙◌, sym, List, [], ◌∷◌, ◌++◌, arith, inl, inr,
}
use oktz_signal.Base.{length, drop, length-append, length-drop, Bool-cases, ltb, ltb→lt, min}
use oktz_signal.Base.Int.{ℤ, ◌≤ℤ◌, ◌<ℤ◌}
use oktz_signal.BTreeMap.{BTreeMap, insert, IsSorted}
use oktz_signal.BTreeMap.Entries.{Has}
use oktz_signal.BTreeMap.Keys.{Str, int_ord}
use oktz_signal.Ratchet.MessageKeys.{evict}

module _ {A : Type 0} where
  drop_eq : (a b : ℕ) (xs : List A) → a ≡ b → drop a xs ≡ drop b xs
  drop_eq a b xs e = ap (λ n. drop n xs) e

  pub drop-append_le :
      (n : ℕ) (xs ys : List A) → n ≤ length xs → drop n (xs ++ ys) ≡ drop n xs ++ ys
  drop-append_le zero xs ys h = refl
  drop-append_le (suc n) [] ys h = ground arith
  drop-append_le (suc n) (x ∷ xs) ys h = drop-append_le n xs ys (omega arith)

  drop-nil : (n : ℕ) → drop {A = A} n [] ≡ []
  drop-nil zero = refl
  drop-nil (suc n) = refl

  pub drop-drop : (m n : ℕ) (xs : List A) → drop m (drop n xs) ≡ drop (n + m) xs
  drop-drop m zero xs = drop_eq m (0 + m) xs (omega arith)
  drop-drop m (suc n) [] = drop-nil m ∙ sym (drop-nil (suc n + m))
  drop-drop m (suc n) (x ∷ xs) =
      drop-drop m n xs ∙ drop_eq (suc (n + m)) (suc n + m) (x ∷ xs) (omega arith)

-- The newest 2000 entries.
unfoldable pub newest : BTreeMap ℤ Str → BTreeMap ℤ Str
newest m = drop (length m - 2000) m

pub evict-newest : (m : BTreeMap ℤ Str) → evict m ≡ newest m
unfolding evict newest
evict-newest [] = refl
evict-newest (e ∷ m) = elim (Bool-cases (ltb 2000 (length (e ∷ m)))) [
  | inl h ↦
      (let d = ltb→lt 2000 (length (e ∷ m)) h in
        rw (h, evict)
          (evict-newest m
            ∙ drop_eq (suc (length m - 2000)) (length (e ∷ m) - 2000) (e ∷ m) (omega (arith, d))))
  | inr h ↦ rw (h, evict) (drop_eq 0 (length (e ∷ m) - 2000) (e ∷ m) (ground arith))
]

-- Evicting early makes no difference to what is left in the end.
pub newest-append : (m n : BTreeMap ℤ Str) → newest (newest m ++ n) ≡ newest (m ++ n)
unfolding newest
newest-append m n = rw (length-append (drop (length m - 2000) m) n) (
    rw
      (
        sym (drop-append_le (length m - 2000) m n (omega arith)),
        drop-drop (length (drop (length m - 2000) m) + length n - 2000) (length m - 2000) (m ++ n),
        length-append m n,
        length-drop (length m - 2000) m,
      )
      (drop_eq _ _ (m ++ n) (omega arith)))

pub length-evict : (m : BTreeMap ℤ Str) → length (evict m) ≡ min 2000 (length m)
unfolding newest
length-evict m = rw (evict-newest m, length-drop (length m - 2000) m) (omega arith)

pub Has-append : (k : ℤ) (v : Str) (m n : BTreeMap ℤ Str) → Has k v n → Has k v (m ++ n)
Has-append k v [] n h = h
Has-append k v (e ∷ m) n h = inr (Has-append k v m n h)

-- Of a tail of at most 2000 entries nothing is lost.
pub Has-newest :
    (k : ℤ) (v : Str) (m n : BTreeMap ℤ Str)
    → length n ≤ 2000
    → Has k v n
    → Has k v (newest (m ++ n))
unfolding newest
Has-newest k v m n s h =
    rw (length-append m n, drop-append_le (length m + length n - 2000) m n (omega arith))
      (Has-append k v (drop (length m + length n - 2000) m) n h)

-- Every key of the map is below.
abbrev pub AllBelow : BTreeMap ℤ Str → ℤ → Type 0
AllBelow [] k = Unit
AllBelow ((j, v) ∷ m) k = (j <ℤ k) × AllBelow m k

pub insert-append :
    (k : ℤ) (v : Str) (m : BTreeMap ℤ Str) → AllBelow m k → insert k v m ≡ m ++ (k, v) ∷ []
unfolding insert
insert-append k v [] h = refl
insert-append k v ((j, w) ∷ m) (hj, hm) = ground (arith, insert-append k v m hm)

pub AllBelow-weaken : (m : BTreeMap ℤ Str) (j k : ℤ) → j ≤ℤ k → AllBelow m j → AllBelow m k
AllBelow-weaken [] j k h all = tt
AllBelow-weaken ((i, v) ∷ m) j k h (a, all) = (omega arith, AllBelow-weaken m j k h all)

pub AllBelow-append :
    (m n : BTreeMap ℤ Str) (k : ℤ) → AllBelow m k → AllBelow n k → AllBelow (m ++ n) k
AllBelow-append [] n k a b = b
AllBelow-append ((i, v) ∷ m) n k (h, a) b = (h, AllBelow-append m n k a b)

pub AllBelow-drop : (d : ℕ) (m : BTreeMap ℤ Str) (k : ℤ) → AllBelow m k → AllBelow (drop d m) k
AllBelow-drop zero m k a = a
AllBelow-drop (suc d) [] k a = tt
AllBelow-drop (suc d) (e ∷ m) k (h, a) = AllBelow-drop d m k a

pub IsSorted-drop : (d : ℕ) (m : BTreeMap ℤ Str) → IsSorted m → IsSorted (drop d m)
IsSorted-drop zero m s = s
IsSorted-drop (suc d) [] s = tt
IsSorted-drop (suc d) (e ∷ m) (h, s) = IsSorted-drop d m s
