-- ===== src/Outcome/Yields.antt =====
-- Postconditions of statements that change no object: what holds of a value that is returned.
use region_sensitivity.Prelude.{◌≡◌, refl, Bool, true, false, if◌then◌else◌, subst}
use region_sensitivity.Outcome.{Exception, Result, ok, err, ◌>>=◌, ◌>>◌}

abbrev Holds {ℓ κ} : {A : Type ℓ} → (A → Type κ) → Result A → Type κ
Holds P (ok a) = P a
Holds P (err e) = Unit

pub record Yields {ℓ κ} {A : Type ℓ} (P : A → Type κ) (r : Result A) : Type κ where
  pub holds : Holds P r

module _ {ℓ κ} {A : Type ℓ} {P : A → Type κ} where
  pub Yields-ok : (a : A) → P a → Yields P (ok a)
  Yields-ok a h = record { holds = h }

  pub Yields-err : (e : Exception) → Yields P (err e)
  Yields-err e = record { holds = tt }

  -- the value that was returned has the property
  pub Yields-use : (r : Result A) (a : A) → Yields P r → r ≡ ok a → P a
  Yields-use r a h e = subst (Holds P) e h.holds

  pub Yields-of : (r : Result A) → ((a : A) → r ≡ ok a → P a) → Yields P r
  Yields-of (ok a) h = record { holds = h a refl }
  Yields-of (err e) h = record { holds = tt }

  pub Yields-if :
      (b : Bool) (m n : Result A)
      → (b ≡ true → Yields P m)
      → (b ≡ false → Yields P n)
      → Yields P (if b then m else n)
  Yields-if true m n h k = h refl
  Yields-if false m n h k = k refl

  -- a refusal, or what follows
  pub Yields-unless :
      (b : Bool) (e : Exception) (next : Result A)
      → Yields P next
      → Yields P (if b then err e else next)
  Yields-unless true e next h = record { holds = tt }
  Yields-unless false e next h = h

  -- a check that raises when its condition holds, and what follows
  pub Yields-check :
      (b : Bool) (e : Exception) (next : Result A)
      → (b ≡ false → Yields P next)
      → Yields P ((if b then err e else ok tt) >> next)
  Yields-check true e next h = record { holds = tt }
  Yields-check false e next h = record { holds = (h refl).holds }

  -- a check that raises when its condition fails, and what follows
  pub Yields-require :
      (b : Bool) (e : Exception) (next : Result A)
      → (b ≡ true → Yields P next)
      → Yields P ((if b then ok tt else err e) >> next)
  Yields-require true e next h = record { holds = (h refl).holds }
  Yields-require false e next h = record { holds = tt }

module _ {ℓ κ} {A B : Type ℓ} {Q : B → Type κ} where
  -- what follows gets the equation of the value
  pub Yields-bind :
      (m : Result A) (f : A → Result B) → ((a : A) → m ≡ ok a → Yields Q (f a)) → Yields Q (m >>= f)
  Yields-bind (ok a) f h = record { holds = (h a refl).holds }
  Yields-bind (err e) f h = record { holds = tt }

  -- what follows gets a property of the value
  pub Yields-then {μ} :
      {P : A → Type μ} (m : Result A) (f : A → Result B)
      → Yields P m
      → ((a : A) → P a → Yields Q (f a))
      → Yields Q (m >>= f)
  Yields-then (ok a) f h k = record { holds = (k a h.holds).holds }
  Yields-then (err e) f h k = record { holds = tt }
