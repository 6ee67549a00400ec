-- ===== src/Outcome/Exec.antt =====
-- Methods that change an object and may raise, as state passing, and their postconditions.
use region_sensitivity.Prelude.{◌≡◌, refl, Bool, true, false, if◌then◌else◌}
use region_sensitivity.Outcome.{Exception, Result, ok, err}

abbrev pub Exec {ℓ} : Type ℓ → Type ℓ → Type ℓ
Exec S A = S → Result A × S

module _ {ℓ} {S A : Type ℓ} where
  pub gets : (S → A) → Exec S A
  gets f s = (ok (f s), s)

  pub pure : A → Exec S A
  pure a s = (ok a, s)

  -- a pure function that may raise
  pub lift : Result A → Exec S A
  lift result s = (result, s)

  pub raise : Exception → Exec S A
  raise e s = (err e, s)

  abbrev pub handle : Result A → (Exception → Exec S A) → Exec S A
  handle (ok a) handler s = (ok a, s)
  handle (err e) handler s = handler e s

  -- `try: body` / `except: handler`, the handler getting the exception
  pub try_except : Exec S A → (Exception → Exec S A) → Exec S A
  try_except body handler s = let (r, t) = body s in handle r handler t

pub modify : {S : Type 0} → (S → S) → Exec S Unit
modify f s = (ok tt, f s)

module _ {ℓ} {S A B : Type ℓ} where
  abbrev pub continue : Result A → (A → Exec S B) → Exec S B
  continue (ok a) f s = f a s
  continue (err e) f s = (err e, s)

  infixl 10 ◌>>=◌ ◌>>◌
  -- opening this opens the other ways to build an `Exec` too
  unfoldable pub ◌>>=◌ : Exec S A → (A → Exec S B) → Exec S B
  unfolding pure raise lift gets modify try_except
  ◌>>=◌ m f s = let (result, left) = m s in continue result f left

  abbrev pub ◌>>◌ : Exec S A → Exec S B → Exec S B
  first >> next = first >>= λ done. next

module _ {S A : Type 0} where
  -- `P` holds of what is returned and of the state then, `Q` of what is raised and of the state.
  abbrev pub Post : (A → S → Type 0) → (Exception → S → Type 0) → Result A × S → Type 0
  Post P Q (ok a, s) = P a s
  Post P Q (err e, s) = Q e s

  pub record Ensures (P : A → S → Type 0) (Q : Exception → S → Type 0) (m : Exec S A) (s : S)
      : Type 0 where
    pub holds : Post P Q (m s)

module _ {S A : Type 0} {P : A → S → Type 0} {Q : Exception → S → Type 0} where
  pub Ensures-pure : (a : A) (s : S) → P a s → Ensures P Q (pure a) s
  unfolding pure
  Ensures-pure a s h = record { holds = h }

  pub Ensures-raise : (e : Exception) (s : S) → Q e s → Ensures P Q (raise e) s
  unfolding raise
  Ensures-raise e s h = record { holds = h }

  pub Ensures-ok : (a : A) (s : S) → P a s → Ensures P Q (lift (ok a)) s
  unfolding lift
  Ensures-ok a s h = record { holds = h }

  pub Ensures-err : (e : Exception) (s : S) → Q e s → Ensures P Q (lift (err e)) s
  unfolding lift
  Ensures-err e s h = record { holds = h }

  pub Ensures-gets : (f : S → A) (s : S) → P (f s) s → Ensures P Q (gets f) s
  unfolding gets
  Ensures-gets f s h = record { holds = h }

  pub Ensures-if :
      (b : Bool) (m n : Exec S A) (s : S)
      → (b ≡ true → Ensures P Q m s)
      → (b ≡ false → Ensures P Q n s)
      → Ensures P Q (if b then m else n) s
  Ensures-if true m n s h k = h refl
  Ensures-if false m n s h k = k refl

module _ {S A : Type 0} {P : A → S → Type 0} {Q Q' : Exception → S → Type 0} where
  Post-try :
      (r : Result A) (s : S) (handler : Exception → Exec S A)
      → Post P Q' (r, s)
      → ((e : Exception) (t : S) → Q' e t → Ensures P Q (handler e) t)
      → Post P Q (handle r handler s)
  Post-try (ok a) s handler h k = h
  Post-try (err e) s handler h k = (k e s h).holds

  -- what the body raises is left to the handler
  pub Ensures-try :
      (body : Exec S A) (handler : Exception → Exec S A) (s : S)
      → Ensures P Q' body s
      → ((e : Exception) (t : S) → Q' e t → Ensures P Q (handler e) t)
      → Ensures P Q (try_except body handler) s
  unfolding try_except
  Ensures-try body handler s h k =
      let (r, t) = body s in record { holds = Post-try r t handler h.holds k }

pub Ensures-modify :
    {S : Type 0} {P : Unit → S → Type 0} {Q : Exception → S → Type 0} (f : S → S) (s : S)
    → P tt (f s)
    → Ensures P Q (modify f) s
unfolding modify
Ensures-modify f s h = record { holds = h }

module _ {S A B : Type 0} {P : A → S → Type 0} {P' : B → S → Type 0}
    {Q : Exception → S → Type 0} where
  Post-continue :
      (r : Result A) (s : S) (f : A → Exec S B)
      → Post P Q (r, s)
      → ((a : A) (t : S) → P a t → Ensures P' Q (f a) t)
      → Post P' Q (continue r f s)
  Post-continue (ok a) s f h k = (k a s h).holds
  Post-continue (err e) s f h k = h

  pub Ensures-bind :
      (m : Exec S A) (f : A → Exec S B) (s : S)
      → Ensures P Q m s
      → ((a : A) (t : S) → P a t → Ensures P' Q (f a) t)
      → Ensures P' Q (m >>= f) s
  unfolding ◌>>=◌
  Ensures-bind m f s h k = let (r, t) = m s in record { holds = Post-continue r t f h.holds k }

module _ {S A B : Type 0} {P : B → S → Type 0} {Q : Exception → S → Type 0} where
  -- what follows is the postcondition of what comes first
  pub Ensures-then :
      (m : Exec S A) (f : A → Exec S B) (s : S)
      → Ensures (λ a t. Ensures P Q (f a) t) Q m s
      → Ensures P Q (m >>= f) s
  Ensures-then m f s h = Ensures-bind m f s h (λ a t k. k)

  pub Ensures-bind_ok :
      (a : A) (f : A → Exec S B) (s : S) → Ensures P Q (f a) s → Ensures P Q (lift (ok a) >>= f) s
  unfolding ◌>>=◌
  Ensures-bind_ok a f s h = record { holds = h.holds }

  pub Ensures-bind_gets :
      (g : S → A) (f : A → Exec S B) (s : S)
      → Ensures P Q (f (g s)) s
      → Ensures P Q (gets g >>= f) s
  unfolding ◌>>=◌
  Ensures-bind_gets g f s h = record { holds = h.holds }

module _ {S A : Type 0} {P : A → S → Type 0} {Q : Exception → S → Type 0} where
  -- a guard that raises, and what follows it
  pub Ensures-guard :
      (b : Bool) (e : Exception) (next : Exec S A) (s : S)
      → (b ≡ false → Q e s)
      → (b ≡ true → Ensures P Q next s)
      → Ensures P Q ((if b then pure tt else raise e) >> next) s
  unfolding ◌>>=◌
  Ensures-guard true e next s q h = record { holds = (h refl).holds }
  Ensures-guard false e next s q h = record { holds = q refl }

module _ {S A : Type 0} {P P' : A → S → Type 0} {Q Q' : Exception → S → Type 0} where
  weaken :
      (r : Result A) (s : S)
      → Post P Q (r, s)
      → ((a : A) (t : S) → P a t → P' a t)
      → ((e : Exception) (t : S) → Q e t → Q' e t)
      → Post P' Q' (r, s)
  weaken (ok a) s h f g = f a s h
  weaken (err e) s h f g = g e s h

  pub Ensures-weaken :
      (m : Exec S A) (s : S)
      → Ensures P Q m s
      → ((a : A) (t : S) → P a t → P' a t)
      → ((e : Exception) (t : S) → Q e t → Q' e t)
      → Ensures P' Q' m s
  Ensures-weaken m s h f g = record { holds = weaken (m s).0 (m s).1 h.holds f g }

module _ {S A : Type 0} where
  -- Nothing is asked of what comes back.
  pub Ensures-anything : (m : Exec S A) (s : S) → Ensures (λ _ _. Unit) (λ _ _. Unit) m s
  Ensures-anything m s = record { holds = go (m s).0 (m s).1 }
    where
      go : (r : Result A) (t : S) → Post (λ _ _. Unit) (λ _ _. Unit) (r, t)
      go (ok a) t = tt
      go (err e) t = tt

-- Two accounts of one call.
pub Ensures-both :
    {S A : Type 0} {P P' : A → S → Type 0} {Q Q' : Exception → S → Type 0} (m : Exec S A) (s : S)
    → Ensures P Q m s
    → Ensures P' Q' m s
    → Ensures (λ a t. P a t × P' a t) (λ e t. Q e t × Q' e t) m s
Ensures-both {S} {A} {P} {P'} {Q} {Q'} m s h k = record {
  holds = go (m s).0 (m s).1 h.holds k.holds;
}
  where
    go :
        (r : Result A) (t : S)
        → Post P Q (r, t)
        → Post P' Q' (r, t)
        → Post (λ a u. P a u × P' a u) (λ e u. Q e u × Q' e u) (r, t)
    go (ok a) t h k = (h, k)
    go (err e) t h k = (h, k)
