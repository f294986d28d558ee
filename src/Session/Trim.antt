-- ===== src/Session/Trim.antt =====
-- session.rs, `trim_start`: it takes all the white space there is, and a visible character stays.
use oktz_signal.Base.{
  ℕ, zero, suc, ◌≤◌, ◌≡◌, refl, [], ◌∷◌, length, drop, length-drop, arith, ◌⊎◌, inl, inr,
}
use oktz_signal.BTreeMap.Keys.{Str}
use oktz_signal.Session.{white_len, trim_loop, trim_start}

-- A test that keeps its equation.
white_cases : (n : ℕ) → (n ≡ 0) ⊎ ((k : ℕ) × (n ≡ suc k))
white_cases zero = inl refl
white_cases (suc k) = inr (k, refl)

trim_loop-white_len : (fuel : ℕ) (s : Str) → length s ≤ fuel → white_len (trim_loop fuel s) ≡ 0
trim_loop-white_len zero [] h = refl
trim_loop-white_len (suc fuel) [] h = refl
trim_loop-white_len zero (a ∷ s) h = absurd (omega arith)
trim_loop-white_len (suc fuel) (a ∷ s) h = elim (white_cases (white_len (a ∷ s))) [
  | inl e ↦ rw (e, trim_loop) e
  | inr (k, e) ↦
      rw (e, trim_loop)
        (trim_loop-white_len fuel (drop (suc k) (a ∷ s))
          (omega (arith, length-drop (suc k) (a ∷ s))))
]

-- No white space is left at the front.
pub trim_start-white_len : (s : Str) → white_len (trim_start s) ≡ 0
unfolding trim_start
trim_start-white_len s = trim_loop-white_len (length s) s (omega arith)

visible : (x : ℕ) (s : Str) → 33 ≤ x → x ≤ 126 → white_len (x ∷ s) ≡ 0
visible x [] lo hi = ground arith
visible x (b ∷ []) lo hi = ground arith
visible x (b ∷ c ∷ u) lo hi = ground arith

trim_loop_stays : (fuel : ℕ) (s : Str) → white_len s ≡ 0 → trim_loop fuel s ≡ s
trim_loop_stays zero s h = refl
trim_loop_stays (suc fuel) s h = rw (h, trim_loop) refl

-- A visible ASCII character at the front stays there.
pub trim_start-visible : (x : ℕ) (s : Str) → 33 ≤ x → x ≤ 126 → trim_start (x ∷ s) ≡ x ∷ s
unfolding trim_start
trim_start-visible x s lo hi = trim_loop_stays (length (x ∷ s)) (x ∷ s) (visible x s lo hi)
