-- ===== src/Session/Current.antt =====
-- session.rs, `current_session_mut`: which entry it selects.
use oktz_signal.Base.{◌≡◌, ◌≢◌, refl, sym, ◌∙◌, subst, Bool, true, false, some, [], ◌∷◌, arith}
use oktz_signal.Base.{◌⊎◌, inl, inr, Bool-cases}
use oktz_signal.Base.Int.{ℤ, negsuc, ◌<ℤ◌, ltb_ℤ, eq_of_parts}
use oktz_signal.BTreeMap.{BTreeMap, IsBelow, get, IsSorted}
use oktz_signal.BTreeMap.Entries.{Has, get→Has, Has→get}
use oktz_signal.BTreeMap.Keys.{Str, str_ord, compare_str_trans}
use oktz_signal.Session.Open.{open_closed, not_open}
use oktz_signal.Session.{
  SessionEntry, SessionRecord, is_open, above, outranks, max_by_rank, current_session_mut,
}

above_trans :
    (o p q : Bool) (a b c : ℤ)
    → above o a p b ≡ true
    → above o a q c ≡ false
    → above p b q c ≡ false
above_trans true true true a b c h k = ground arith
above_trans true true false a b c h k = ground arith
above_trans true false true a b c h k = ground arith
above_trans true false false a b c h k = ground arith
above_trans false true true a b c h k = ground arith
above_trans false true false a b c h k = ground arith
above_trans false false true a b c h k = ground arith
above_trans false false false a b c h k = ground arith

above_weak :
    (o p q : Bool) (a b c : ℤ) → above o a p b ≡ true → above o a q c ≡ false → above q c p b ≡ true
above_weak true true true a b c h k = ground arith
above_weak true true false a b c h k = ground arith
above_weak true false true a b c h k = ground arith
above_weak true false false a b c h k = ground arith
above_weak false true true a b c h k = ground arith
above_weak false true false a b c h k = ground arith
above_weak false false true a b c h k = ground arith
above_weak false false false a b c h k = ground arith

above_neg :
    (o p q : Bool) (a b c : ℤ)
    → above o a p b ≡ false
    → above p b q c ≡ false
    → above o a q c ≡ false
above_neg true true true a b c h k = ground arith
above_neg true true false a b c h k = ground arith
above_neg true false true a b c h k = ground arith
above_neg true false false a b c h k = ground arith
above_neg false true true a b c h k = ground arith
above_neg false true false a b c h k = ground arith
above_neg false false true a b c h k = ground arith
above_neg false false false a b c h k = ground arith

above_back :
    (o p q : Bool) (a b c : ℤ) → above o a p b ≡ false → above q c p b ≡ true → above q c o a ≡ true
above_back true true true a b c h k = ground arith
above_back true true false a b c h k = ground arith
above_back true false true a b c h k = ground arith
above_back true false false a b c h k = ground arith
above_back false true true a b c h k = ground arith
above_back false true false a b c h k = ground arith
above_back false false true a b c h k = ground arith
above_back false false false a b c h k = ground arith

above_self : (o : Bool) (a : ℤ) → above o a o a ≡ false
above_self true a = ground arith
above_self false a = ground arith

module _ (s t v : SessionEntry) where
  outranks_trans : outranks s t ≡ true → outranks s v ≡ false → outranks t v ≡ false
  outranks_trans =
      above_trans (is_open s) (is_open t) (is_open v) s.index_info.used t.index_info.used
        v.index_info.used

  outranks_weak : outranks s t ≡ true → outranks s v ≡ false → outranks v t ≡ true
  outranks_weak =
      above_weak (is_open s) (is_open t) (is_open v) s.index_info.used t.index_info.used
        v.index_info.used

  outranks_neg : outranks s t ≡ false → outranks t v ≡ false → outranks s v ≡ false
  outranks_neg =
      above_neg (is_open s) (is_open t) (is_open v) s.index_info.used t.index_info.used
        v.index_info.used

  outranks_back : outranks s t ≡ false → outranks v t ≡ true → outranks v s ≡ true
  outranks_back =
      above_back (is_open s) (is_open t) (is_open v) s.index_info.used t.index_info.used
        v.index_info.used

-- No entry outranks this one, and one that it does not outrank has a lower key.
abbrev pub IsBest : Str → SessionEntry → BTreeMap Str SessionEntry → Type 0
IsBest b v m =
    (j : Str) (u : SessionEntry)
    → Has j u m
    → (outranks u v ≡ false) × ((outranks v u ≡ true) ⊎ ((j ≡ b) ⊎ IsBelow j b))

abbrev Selected : Str × SessionEntry → BTreeMap Str SessionEntry → Type 0
Selected best m = Has best.0 best.1 m × IsBest best.0 best.1 m

max_by_rank-keeps :
    (k j : Str) (s t : SessionEntry) (m : BTreeMap Str SessionEntry)
    → outranks s t ≡ true
    → max_by_rank k s ((j, t) ∷ m) ≡ max_by_rank k s m
unfolding max_by_rank
max_by_rank-keeps k j s t m e = rw e refl

max_by_rank-moves :
    (k j : Str) (s t : SessionEntry) (m : BTreeMap Str SessionEntry)
    → outranks s t ≡ false
    → max_by_rank k s ((j, t) ∷ m) ≡ max_by_rank j t m
unfolding max_by_rank
max_by_rank-moves k j s t m e = rw e refl

IsBelow-trans : (i j b : Str) → IsBelow i j → (j ≡ b) ⊎ IsBelow j b → IsBelow i b
IsBelow-trans i j b h (inl e) = rw (sym e) h
IsBelow-trans i j b h (inr k) = compare_str_trans i j b h k

IsBest-lower :
    (k j b : Str) (s t v : SessionEntry) (m : BTreeMap Str SessionEntry)
    → outranks s t ≡ true
    → IsBest b v ((k, s) ∷ m)
    → IsBest b v ((k, s) ∷ (j, t) ∷ m)
IsBest-lower k j b s t v m h best i u (inl e) = best i u (inl e)
IsBest-lower k j b s t v m h best i u (inr (inr e)) = best i u (inr e)
IsBest-lower k j b s t v m h best i u (inr (inl (ei, eu))) =
    (let q = (best k s (inl (refl, refl))).0 in
      rw eu (outranks_trans s t v h q, inl (outranks_weak s t v h q)))

IsBest-higher :
    (k j b : Str) (s t v : SessionEntry) (m : BTreeMap Str SessionEntry)
    → IsBelow k j
    → outranks s t ≡ false
    → IsBest b v ((j, t) ∷ m)
    → IsBest b v ((k, s) ∷ (j, t) ∷ m)
IsBest-higher k j b s t v m l h best i u (inr e) = best i u e
IsBest-higher k j b s t v m l h best i u (inl (ei, eu)) =
    (let q = best j t (inl (refl, refl)) in
      rw (ei, eu)
        (
          outranks_neg s t v h q.0,
          elim q.1 [
            | inl w ↦ inl (outranks_back s t v h w)
            | inr w ↦ inr (inr (IsBelow-trans k j b l w))
          ],
        ))

max_by_rank-nil : (k : Str) (s : SessionEntry) → max_by_rank k s [] ≡ (k, s)
unfolding max_by_rank
max_by_rank-nil k s = refl

max_by_rank-one : (k : Str) (s : SessionEntry) → IsBest k s ((k, s) ∷ [])
max_by_rank-one k s j u (inl (e, f)) = rw f (above_self (is_open s) s.index_info.used, inr (inl e))
max_by_rank-one k s j u (inr x) = elim x [ ]

Selected-along :
    (m : BTreeMap Str SessionEntry) {a b : Str × SessionEntry} → a ≡ b → Selected b m → Selected a m
Selected-along m e h = subst (λ x. Selected x m) (sym e) h

max_by_rank-Selected :
    (k : Str) (s : SessionEntry) (m : BTreeMap Str SessionEntry)
    → IsSorted ((k, s) ∷ m)
    → Selected (max_by_rank k s m) ((k, s) ∷ m)
max_by_rank-Selected k s [] sorted =
    rw (max_by_rank-nil k s) (inl (refl, refl), max_by_rank-one k s)
max_by_rank-Selected k s ((j, t) ∷ m) ((l, a), (b, sorted)) = elim (Bool-cases (outranks s t)) [
  | inl e ↦
      (let best = max_by_rank k s m in
        let (has, is_best) = max_by_rank-Selected k s m (a, sorted) in
        Selected-along ((k, s) ∷ (j, t) ∷ m) (max_by_rank-keeps k j s t m e) (
          elim has [ inl x ↦ inl x | inr x ↦ inr (inr x) ],
          IsBest-lower k j best.0 s t best.1 m e is_best,
        ))
  | inr e ↦
      (let best = max_by_rank j t m in
        let (has, is_best) = max_by_rank-Selected j t m (b, sorted) in
        Selected-along ((k, s) ∷ (j, t) ∷ m) (max_by_rank-moves k j s t m e)
          (inr has, IsBest-higher k j best.0 s t best.1 m l e is_best))
]

selects :
    (v : Str) (m : BTreeMap Str SessionEntry)
    → IsSorted m
    → m ≢ []
    → (k : Str) × (s : SessionEntry) × (current_session_mut (record { sessions = m; version = v })
        ≡ some (k, s))
      × (get k m ≡ some s)
      × ((j : Str) (u : SessionEntry)
          → get j m ≡ some u
          → (outranks u s ≡ false) × ((outranks s u ≡ true) ⊎ ((j ≡ k) ⊎ IsBelow j k)))
unfolding current_session_mut
selects v [] sorted full = elim (full refl) [ ]
selects v ((k, s) ∷ []) sorted full = (
  k,
  s,
  refl,
  Has→get k s ((k, s) ∷ []) sorted (inl (refl, refl)),
  λ j u h. max_by_rank-one k s j u (get→Has j u ((k, s) ∷ []) h),
)
selects v ((k, s) ∷ e ∷ m) sorted full =
    (let best = max_by_rank k s (e ∷ m) in
      let q = max_by_rank-Selected k s (e ∷ m) sorted in
      let found = Has→get best.0 best.1 ((k, s) ∷ e ∷ m) sorted q.0 in
      (
        best.0,
        best.1,
        rw (found, current_session_mut) refl,
        found,
        λ j u h. q.1 j u (get→Has j u ((k, s) ∷ e ∷ m) h),
      ))

-- `closed` is -1.
abbrev pub IsOpen : SessionEntry → Type 0
IsOpen s = s.index_info.closed ≡ negsuc 0

-- The session `u`, stored under `j`, comes no later than `s`, stored under `k`, in the order of the
-- choice: `s` has `closed` at -1 and `u` has not; or both have or neither has, and then `u` was
-- used before `s`, or at the same time and stands under a lower key or the same.
abbrev pub Yields : Str → SessionEntry → Str → SessionEntry → Type 0
Yields j u k s =
    (IsOpen s × (¬ IsOpen u))
    ⊎ (((IsOpen s × IsOpen u) ⊎ ((¬ IsOpen s) × (¬ IsOpen u)))
        × ((u.index_info.used <ℤ s.index_info.used)
            ⊎ ((u.index_info.used ≡ s.index_info.used) × ((j ≡ k) ⊎ IsBelow j k))))

IsOpen-cases :
    (s : SessionEntry) → ((is_open s ≡ true) × IsOpen s) ⊎ ((is_open s ≡ false) × (¬ IsOpen s))
IsOpen-cases s = elim (Bool-cases (is_open s)) [
  | inl e ↦ inl (e, open_closed s e)
  | inr e ↦ inr (e, not_open s e)
]

-- Both open, or neither: the times decide.
by_time :
    (a b : ℤ) (Below : Type 0)
    → ltb_ℤ b a ≡ false
    → (ltb_ℤ a b ≡ true) ⊎ Below
    → (a <ℤ b) ⊎ ((a ≡ b) × Below)
by_time a b Below h (inl k) = inl (ground (arith, k))
by_time a b Below h (inr k) = elim (Bool-cases (ltb_ℤ a b)) [
  | inl l ↦ inl (ground (arith, l))
  | inr l ↦ inr (eq_of_parts a b (ground (arith, h, l)), k)
]

by_rank :
    (o p : Bool) (a b : ℤ) (Below : Type 0)
    → above o a p b ≡ false
    → (above p b o a ≡ true) ⊎ Below
    → ((p ≡ true) × (o ≡ false)) ⊎ ((o ≡ p) × ((a <ℤ b) ⊎ ((a ≡ b) × Below)))
by_rank true true a b Below h k = inr (refl, by_time a b Below h k)
by_rank false false a b Below h k = inr (refl, by_time a b Below h k)
by_rank true false a b Below h k = cc
by_rank false true a b Below h k = inl (refl, refl)

yields :
    (j k : Str) (u s : SessionEntry)
    → outranks u s ≡ false
    → (outranks s u ≡ true) ⊎ ((j ≡ k) ⊎ IsBelow j k)
    → Yields j u k s
yields j k u s h w =
    (let rank =
        by_rank (is_open u) (is_open s) u.index_info.used s.index_info.used ((j ≡ k) ⊎ IsBelow j k)
          h w in
      elim rank [
        | inl (p, o) ↦ inl (open_closed s p, not_open u o)
        | inr (e, t) ↦ elim (IsOpen-cases s) [
          | inl (p, c) ↦ inr (inl (c, open_closed u (e ∙ p)), t)
          | inr (p, c) ↦ inr (inr (c, not_open u (e ∙ p)), t)
        ]
      ])

-- For a record whose sessions are in the order of their keys and not empty, the selection returns
-- a session of the record, the one stored under the key it reports, and every session of the
-- record comes no later in the order (`closed` is -1, last used, key).
pub current_session_mut-IsBest :
    (r : SessionRecord)
    → IsSorted r.sessions
    → r.sessions ≢ []
    → (k : Str) × (s : SessionEntry) × (current_session_mut r ≡ some (k, s))
      × (get k r.sessions ≡ some s)
      × ((j : Str) (u : SessionEntry) → get j r.sessions ≡ some u → Yields j u k s)
current_session_mut-IsBest r sorted full =
    (let (k, s, e, g, best) = selects r.version r.sessions sorted full in
      (k, s, e, g, λ j u h. yields j k u s (best j u h).0 (best j u h).1))
