-- ===== src/BTreeMap/Entries.antt =====
-- The entries of a map, as a relation that does not look at the keys' order, and `get` on a map
-- whose keys are in order.
use oktz_signal.Base.{◌≡◌, ◌≢◌, some, [], ◌∷◌, arith, ◌⊎◌, inl, inr}
use Prim.Native.Nat.{Ordering}
use oktz_signal.BTreeMap.{Ord, BTreeMap, IsBelow, get, AllAbove, IsSorted}

module _ {K V : Type 0} where
  abbrev pub Has : K → V → BTreeMap K V → Type 0
  Has k v [] = ⊥
  Has k v ((j, w) ∷ m) = ((k ≡ j) × (v ≡ w)) ⊎ Has k v m

module _ {K : Type 0} ⦃o : Ord K⦄ where
  not_same : (a k : K) → IsBelow a k → o.cmp k a ≢ Ordering.eq
  not_same a k h e = ground (arith, o.eq_iff k a, o.eq_iff a k, h)

module _ {K V : Type 0} ⦃o : Ord K⦄ where
  pub get→Has : (k : K) (v : V) (m : BTreeMap K V) → get k m ≡ some v → Has k v m
  unfolding get
  get→Has k v [] h = cc
  get→Has k v ((j, w) ∷ m) h = ground (arith, o.eq_iff k j, get→Has k v m)

  AllAbove→Has : (a k : K) (v : V) (m : BTreeMap K V) → AllAbove a m → Has k v m → IsBelow a k
  AllAbove→Has a k v [] all h = elim h [ ]
  AllAbove→Has a k v ((j, w) ∷ m) (hj, hm) (inl (e, f)) = rw e hj
  AllAbove→Has a k v ((j, w) ∷ m) (hj, hm) (inr h) = AllAbove→Has a k v m hm h

  pub Has→get : (k : K) (v : V) (m : BTreeMap K V) → IsSorted m → Has k v m → get k m ≡ some v
  unfolding get
  Has→get k v [] s h = elim h [ ]
  Has→get k v ((j, w) ∷ m) (hj, s) (inl (e, f)) = ground (arith, o.eq_iff k j)
  Has→get k v ((j, w) ∷ m) (hj, s) (inr h) =
      ground (arith, not_same j k (AllAbove→Has j k v m hj h), Has→get k v m s h)
