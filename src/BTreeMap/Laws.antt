-- ===== src/BTreeMap/Laws.antt =====
-- The map laws, in the form of one `get` after an update, and what keeps the keys in order.
use Prim.Native.Nat.{Ordering}
use oktz_signal.Base.{◌+◌, ◌≤◌, ◌≡◌, refl, true, none, some, [], ◌∷◌}
use oktz_signal.Base.{length, arith, if◌then◌else◌, ◌⊎◌, inl, inr}
use oktz_signal.BTreeMap.{Ord, BTreeMap, same, IsBelow, get, insert, remove, AllAbove, IsSorted}

-- The three outcomes of a comparison, with the equation kept.
pub Ordering-cases : (c : Ordering) → (c ≡ Ordering.lt) ⊎ ((c ≡ Ordering.eq) ⊎ (c ≡ Ordering.gt))
Ordering-cases Ordering.lt = inl refl
Ordering-cases Ordering.eq = inr (inl refl)
Ordering-cases Ordering.gt = inr (inr refl)

module _ {K : Type 0} ⦃o : Ord K⦄ where
  pub same_iff : (a b : K) → (same a b ≡ true → a ≡ b) × (a ≡ b → same a b ≡ true)
  same_iff a b = (λ h. ground (arith, o.eq_iff a b), λ h. ground (arith, o.eq_iff a b))

  pub same_self : (a : K) → same a a ≡ true
  same_self a = (same_iff a a).1 refl

module _ {K V : Type 0} ⦃o : Ord K⦄ where
  pub get-insert :
      (k j : K) (v : V) (m : BTreeMap K V)
      → get j (insert k v m) ≡ (if same j k then some v else get j m)
  unfolding get insert
  get-insert k j v [] = ground arith
  get-insert k j v ((i, w) ∷ m) =
      ground (arith, o.eq_iff j k, o.eq_iff k i, o.eq_iff j i, get-insert k j v m)

  pub get-remove :
      (k j : K) (m : BTreeMap K V) → get j (remove k m) ≡ (if same j k then none else get j m)
  unfolding get remove
  get-remove k j [] = ground arith
  get-remove k j ((i, w) ∷ m) =
      ground (arith, o.eq_iff j k, o.eq_iff k i, o.eq_iff j i, get-remove k j m)

  pub length-insert-le : (k : K) (v : V) (m : BTreeMap K V) → length (insert k v m) ≤ length m + 1
  unfolding insert
  length-insert-le k v [] = omega arith
  length-insert-le k v ((i, w) ∷ m) = ground (arith, length-insert-le k v m)

  pub length-remove-le : (k : K) (m : BTreeMap K V) → length (remove k m) ≤ length m
  unfolding remove
  length-remove-le k [] = omega arith
  length-remove-le k ((i, w) ∷ m) = ground (arith, length-remove-le k m)

  AllAbove-insert :
      (a k : K) (v : V) (m : BTreeMap K V) → IsBelow a k → AllAbove a m → AllAbove a (insert k v m)
  unfolding insert
  AllAbove-insert a k v [] h all = (h, tt)
  AllAbove-insert a k v ((i, w) ∷ m) h (hi, hm) = elim (Ordering-cases (o.cmp k i)) [
    | inl e ↦ rw (e, insert) (h, (hi, hm))
    | inr (inl e) ↦ rw (e, insert) (h, hm)
    | inr (inr e) ↦ rw (e, insert) (hi, AllAbove-insert a k v m h hm)
  ]

  AllAbove-trans : (a b : K) (m : BTreeMap K V) → IsBelow a b → AllAbove b m → AllAbove a m
  AllAbove-trans a b [] h all = tt
  AllAbove-trans a b ((i, w) ∷ m) h (hi, hm) = (o.trans a b i h hi, AllAbove-trans a b m h hm)

  pub insert-IsSorted : (k : K) (v : V) (m : BTreeMap K V) → IsSorted m → IsSorted (insert k v m)
  unfolding insert
  insert-IsSorted k v [] s = (tt, tt)
  insert-IsSorted k v ((i, w) ∷ m) (hi, s) = elim (Ordering-cases (o.cmp k i)) [
    | inl e ↦ rw (e, insert) ((e, AllAbove-trans k i m e hi), (hi, s))
    | inr (inl e) ↦ rw (e, insert) (rw ((o.eq_iff k i).0 e) hi, s)
    | inr (inr e) ↦
        rw (e, insert) (AllAbove-insert i k v m (o.flip k i e) hi, insert-IsSorted k v m s)
  ]

  AllAbove-remove : (a k : K) (m : BTreeMap K V) → AllAbove a m → AllAbove a (remove k m)
  unfolding remove
  AllAbove-remove a k [] all = tt
  AllAbove-remove a k ((i, w) ∷ m) (hi, hm) = elim (Ordering-cases (o.cmp k i)) [
    | inl e ↦ rw (e, remove) (hi, AllAbove-remove a k m hm)
    | inr (inl e) ↦ rw (e, remove) (AllAbove-remove a k m hm)
    | inr (inr e) ↦ rw (e, remove) (hi, AllAbove-remove a k m hm)
  ]

  pub remove-IsSorted : (k : K) (m : BTreeMap K V) → IsSorted m → IsSorted (remove k m)
  unfolding remove
  remove-IsSorted k [] s = tt
  remove-IsSorted k ((i, w) ∷ m) (hi, s) = elim (Ordering-cases (o.cmp k i)) [
    | inl e ↦ rw (e, remove) (AllAbove-remove i k m hi, remove-IsSorted k m s)
    | inr (inl e) ↦ rw (e, remove) (remove-IsSorted k m s)
    | inr (inr e) ↦ rw (e, remove) (AllAbove-remove i k m hi, remove-IsSorted k m s)
  ]

  get_of_AllAbove : (k : K) (m : BTreeMap K V) → AllAbove k m → get k m ≡ none
  unfolding get
  get_of_AllAbove k [] all = refl
  get_of_AllAbove k ((i, w) ∷ m) (hi, hm) = ground (arith, hi, get_of_AllAbove k m hm)

  -- The lowest key goes, and only it.
  pub get_of_tail :
      (i j : K) (w : V) (m : BTreeMap K V)
      → IsSorted ((i, w) ∷ m)
      → get j m ≡ (if same j i then none else get j ((i, w) ∷ m))
  unfolding get
  get_of_tail i j w m (hi, s) = ground (arith, o.eq_iff j i, get_of_AllAbove i m hi)
