-- ===== src/BTreeMap.antt =====
-- `std::collections::BTreeMap`: entries in ascending order of their keys. The tree itself is the
-- standard library's; what the program uses of it is here, with its laws.
pub mod Keys
pub mod Laws
pub mod Values
pub mod Entries
use Prim.Native.Nat.{Ordering}
use oktz_signal.Base.{
  ℕ, ◌≡◌, ◌≢◌, ◌↔◌, Bool, true, false, Option, none, some, List, [], ◌∷◌, length,
}

-- `Ord`, as its documentation has it: a total order.
pub record Ord (K : Type 0) : Type 0 where
  pub cmp : K → K → Ordering
  pub eq_iff : (a b : K) → (cmp a b ≡ Ordering.eq) ↔ (a ≡ b)
  pub flip : (a b : K) → cmp a b ≡ Ordering.gt → cmp b a ≡ Ordering.lt
  pub trans : (a b c : K) → cmp a b ≡ Ordering.lt → cmp b c ≡ Ordering.lt → cmp a c ≡ Ordering.lt

abbrev pub BTreeMap : Type 0 → Type 0 → Type 0
BTreeMap K V = List (K × V)

module _ {K : Type 0} ⦃o : Ord K⦄ where
  -- The keys are the same.
  abbrev pub same : K → K → Bool
  same a b = elim (o.cmp a b) [ Ordering.eq ↦ true | _ ↦ false ]

  abbrev pub IsBelow : K → K → Type 0
  IsBelow a b = o.cmp a b ≡ Ordering.lt

module _ {K V : Type 0} ⦃o : Ord K⦄ where
  unfoldable pub get : K → BTreeMap K V → Option V
  get k [] = none
  get k ((j, v) ∷ m) = elim (same k j) [ true ↦ some v | false ↦ get k m ]

  unfoldable pub contains_key : K → BTreeMap K V → Bool
  unfolding get
  contains_key k m = elim (get k m) [ none ↦ false | some _ ↦ true ]

  unfoldable pub insert : K → V → BTreeMap K V → BTreeMap K V
  insert k v [] = (k, v) ∷ []
  insert k v ((j, w) ∷ m) = elim (o.cmp k j) [
    | Ordering.lt ↦ (k, v) ∷ (j, w) ∷ m
    | Ordering.eq ↦ (k, v) ∷ m
    | Ordering.gt ↦ (j, w) ∷ insert k v m
  ]

  unfoldable pub remove : K → BTreeMap K V → BTreeMap K V
  remove k [] = []
  remove k ((j, w) ∷ m) = elim (same k j) [ true ↦ remove k m | false ↦ (j, w) ∷ remove k m ]

  -- The invariant of the tree: every key is below all that follow.
  abbrev pub AllAbove : K → BTreeMap K V → Type 0
  AllAbove k [] = Unit
  AllAbove k ((j, w) ∷ m) = IsBelow k j × AllAbove k m

  abbrev pub IsSorted : BTreeMap K V → Type 0
  IsSorted [] = Unit
  IsSorted ((j, w) ∷ m) = AllAbove j m × IsSorted m

-- `pop_first`: the entry with the lowest key, and the rest.
abbrev pub pop_first : {K V : Type 0} → BTreeMap K V → Option (K × V) × BTreeMap K V
pop_first [] = (none, [])
pop_first (e ∷ m) = (some e, m)

abbrev pub values : {K V : Type 0} → BTreeMap K V → List V
values [] = []
values ((k, v) ∷ m) = v ∷ values m
