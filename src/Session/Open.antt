-- ===== src/Session/Open.antt =====
-- session.rs: the test `closed == -1` of a session.
use oktz_signal.Base.{zero, suc, ◌≡◌, ◌≢◌, refl, true, false}
use oktz_signal.Base.Int.{ℤ, pos, negsuc}
use oktz_signal.Session.{SessionEntry, is_open}

pub open_closed : (s : SessionEntry) → is_open s ≡ true → s.index_info.closed ≡ negsuc 0
open_closed s h = minus_one s.index_info.closed h
  where
    minus_one : (k : ℤ) → elim k [ negsuc zero ↦ true | _ ↦ false ] ≡ true → k ≡ negsuc 0
    minus_one (pos n) h = cc
    minus_one (negsuc zero) h = refl
    minus_one (negsuc (suc n)) h = cc

pub not_open : (s : SessionEntry) → is_open s ≡ false → s.index_info.closed ≢ negsuc 0
not_open s h e = minus_one s.index_info.closed e h
  where
    minus_one : (k : ℤ) → k ≡ negsuc 0 → elim k [ negsuc zero ↦ true | _ ↦ false ] ≢ false
    minus_one k e = rw e (λ h. cc)
