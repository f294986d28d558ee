-- ===== src/BTreeMap/Values.antt =====
-- A predicate of all values of a map, under each update.
use oktz_signal.Base.{◌≡◌, [], ◌∷◌, some, inl, inr, subst}
use oktz_signal.BTreeMap.{BTreeMap, Ord, get, insert, remove}
use oktz_signal.BTreeMap.Laws.{Ordering-cases}

abbrev pub AllValues : {K V : Type 0} → (V → Type 0) → BTreeMap K V → Type 0
AllValues P [] = Unit
AllValues P ((k, v) ∷ m) = P v × AllValues P m

module _ {K V : Type 0} ⦃o : Ord K⦄ (P : V → Type 0) where
  pub AllValues-get : (k : K) (v : V) (m : BTreeMap K V) → AllValues P m → get k m ≡ some v → P v
  unfolding get
  AllValues-get k v [] a h = cc
  AllValues-get k v ((j, w) ∷ m) (p, a) h = elim (Ordering-cases (o.cmp k j)) [
    | inl e ↦ AllValues-get k v m a (rw (e, get) at h)
    | inr (inl e) ↦
        (let found : (some w ≡ some v) = rw (e, get) at h in
          let at_head : (w ≡ v) = cc in subst P at_head p)
    | inr (inr e) ↦ AllValues-get k v m a (rw (e, get) at h)
  ]

  pub AllValues-insert :
      (k : K) (v : V) (m : BTreeMap K V) → P v → AllValues P m → AllValues P (insert k v m)
  unfolding insert
  AllValues-insert k v [] p a = (p, tt)
  AllValues-insert k v ((j, w) ∷ m) p (q, a) = elim (Ordering-cases (o.cmp k j)) [
    | inl e ↦ rw (e, insert) (p, (q, a))
    | inr (inl e) ↦ rw (e, insert) (p, a)
    | inr (inr e) ↦ rw (e, insert) (q, AllValues-insert k v m p a)
  ]

  pub AllValues-remove : (k : K) (m : BTreeMap K V) → AllValues P m → AllValues P (remove k m)
  unfolding remove
  AllValues-remove k [] a = tt
  AllValues-remove k ((j, w) ∷ m) (q, a) = elim (Ordering-cases (o.cmp k j)) [
    | inl e ↦ rw (e, remove) (q, AllValues-remove k m a)
    | inr (inl e) ↦ rw (e, remove) (AllValues-remove k m a)
    | inr (inr e) ↦ rw (e, remove) (q, AllValues-remove k m a)
  ]
