-- ===== src/Outcome.antt =====
-- Python statements that may raise. `Exception` has a constructor for each exception class that
-- the modelled code raises or tells apart, with the message up to its interpolated values. A
-- method that changes an object and may raise is an `Exec S A`: what was written before a raise
-- stays written, so the state comes back beside the exception too.
-- (ssat/core/dump/errors.py, ssat/core/runtime/errors.py, ssat/core/plan/builder.py)
pub mod Exec
pub mod Yields
use region_sensitivity.Prelude.{◌≡◌, refl, Bool, true, false, String, ◌⊎◌, inl, inr}

pub data Exception : Type 0 where
  value_error type_error os_error other_error : String → Exception
  -- RuntimeExecutionError, its subclass RuntimeCancelledError, and RuntimeContractError
  execution_error cancelled_error contract_error : String → Exception
  dump_error dump_corruption_error dump_schema_error : String → Exception
  adapter_out_of_memory : String → Exception
  plan_build_error region_expansion_error : String → Exception
  -- not an exception of the program: a loop of the model ran out of its fuel
  out_of_fuel : Exception

pub data Result {ℓ} (A : Type ℓ) : Type ℓ where
  ok : A → Result A
  err : Exception → Result A

pub Result-cases {ℓ} :
    {A : Type ℓ} (r : Result A) → ((a : A) × (r ≡ ok a)) ⊎ ((e : Exception) × (r ≡ err e))
Result-cases (ok a) = inl (a, refl)
Result-cases (err e) = inr (e, refl)

module _ {ℓ κ} {A : Type ℓ} {B : Type κ} where
  infixl 10 ◌>>=◌
  abbrev pub ◌>>=◌ : Result A → (A → Result B) → Result B
  ok a >>= f = f a
  err e >>= f = err e

-- a statement without a value, and what follows
infixl 10 ◌>>◌
abbrev pub ◌>>◌ {ℓ} : {B : Type ℓ} → Result (Unit {0}) → Result B → Result B
first >> next = first >>= λ done. next
