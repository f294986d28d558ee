-- ===== src/Base/Post.antt =====
-- Postconditions of fallible code: it does not run out of fuel, and what it returns satisfies `P`.
use mathlib.Core.Path.{◌≡◌, refl, ap}
use mathlib.Core.Logic.{◌≢◌, ◌⊎◌, inl, inr}
use oktz_signal.Base.Errors.{Error, out_of_fuel, Result, ok, err, ◌>>=◌, ◌>>◌, bail_if, ok_or}
use mathlib.Core.Path.{subst}
use mathlib.Core.Bool.{Bool, true, false}
use mathlib.Core.Option.{Option, none, some}

pub record Post {A : Type 0} (P : A → Type 0) (r : Result A) : Type 0 where
  pub ends : r ≢ err out_of_fuel
  pub holds : (a : A) → r ≡ ok a → P a

ok_value : {A : Type 0} (d : A) → Result A → A
ok_value d (ok a) = a
ok_value d (err e) = d

module _ {A : Type 0} {P : A → Type 0} where
  pub Post-ok : (a : A) → P a → Post P (ok a)
  unfolding ok_value
  Post-ok a h = record { ends = λ e. cc; holds = λ b e. subst P (ap (ok_value a) e) h }

  pub Post-err : (e : Error) → e ≢ out_of_fuel → Post P (err e)
  Post-err e h = record { ends = λ q. h (cc); holds = λ b q. cc }

  pub Post-weaken : {Q : A → Type 0} {r : Result A} → ((a : A) → P a → Q a) → Post P r → Post Q r
  Post-weaken w p = record { ends = p.ends; holds = λ a e. w a (p.holds a e) }

-- What a call returned, with its postcondition: the case split of a `?`.
pub Post-cases :
    {A : Type 0} {P : A → Type 0} {r : Result A}
    → Post P r
    → ((a : A) × (r ≡ ok a) × P a) ⊎ ((e : Error) × (r ≡ err e) × (e ≢ out_of_fuel))
Post-cases {r = ok a} p = inl (a, refl, p.holds a refl)
Post-cases {r = err e} p = inr (e, refl, λ h. p.ends (ap err h))

-- What is returned, if anything is, satisfies `P`.
pub record Returns {A : Type 0} (P : A → Type 0) (r : Result A) : Type 0 where
  pub returns : (a : A) → r ≡ ok a → P a

module _ {B : Type 0} {P : B → Type 0} where
  pub Returns-ok : (b : B) → P b → Returns P (ok b)
  unfolding ok_value
  Returns-ok b p = record { returns = λ a e. subst P (ap (ok_value b) e) p }

  pub >>=-Returns :
      {A : Type 0} (m : Result A) (next : A → Result B)
      → ((a : A) → m ≡ ok a → Returns P (next a))
      → Returns P (m >>= next)
  >>=-Returns (ok a) next h = h a refl
  >>=-Returns (err e) next h = record { returns = λ a q. cc }

  pub >>-Returns :
      (m : Result (Unit {0})) (next : Result B) → Returns P next → Returns P (m >> next)
  >>-Returns (ok u) next h = h
  >>-Returns (err e) next h = record { returns = λ a q. cc }

-- A call that ends, with a value or with an error of the source.
abbrev pub Ends : {A : Type 0} → Result A → Type 0
Ends r = r ≢ err out_of_fuel

pub Ends-ok : {A : Type 0} (a : A) → Ends (ok a)
Ends-ok a h = cc

pub Ends-err : {A : Type 0} (e : Error) → e ≢ out_of_fuel → Ends {A = A} (err e)
Ends-err e n h = n (cc)

pub Ends-bail_if : (b : Bool) (e : Error) → e ≢ out_of_fuel → Ends (bail_if b e)
Ends-bail_if true e n h = n (cc)
Ends-bail_if false e n h = cc

pub Ends-ok_or : {A : Type 0} (e : Error) (o : Option A) → e ≢ out_of_fuel → Ends (ok_or e o)
Ends-ok_or e none n h = n (cc)
Ends-ok_or e (some a) n h = cc

err_injective : {A : Type 0} {x y : Error} → ◌≡◌ {A = Result A} (err x) (err y) → x ≡ y
err_injective r = cc

pub >>=-Ends :
    {A B : Type 0} (m : Result A) (next : A → Result B)
    → Ends m
    → ((a : A) → m ≡ ok a → Ends (next a))
    → Ends (m >>= next)
>>=-Ends (ok a) next e h q = h a refl q
>>=-Ends (err x) next e h q = e (ap err (err_injective q))

pub >>-Ends :
    {B : Type 0} (m : Result (Unit {0})) (next : Result B) → Ends m → Ends next → Ends (m >> next)
>>-Ends (ok u) next e h q = h q
>>-Ends (err x) next e h q = e (ap err (err_injective q))

-- A guard, and an `ok_or(e)?`, with an error of the source.
pub bail_if-Ends :
    {B : Type 0} (b : Bool) (e : Error) (next : Result B)
    → e ≢ out_of_fuel
    → Ends next
    → Ends (bail_if b e >> next)
bail_if-Ends b e next n h = >>-Ends (bail_if b e) next (Ends-bail_if b e n) h

pub ok_or-Ends :
    {A B : Type 0} (e : Error) (o : Option A) (next : A → Result B)
    → e ≢ out_of_fuel
    → ((a : A) → Ends (next a))
    → Ends (ok_or e o >>= next)
ok_or-Ends e o next n h = >>=-Ends (ok_or e o) next (Ends-ok_or e o n) (λ a _. h a)
