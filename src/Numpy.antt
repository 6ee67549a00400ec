-- ===== src/Numpy.antt =====
-- What the program uses of numpy's arrays, as an interface: numpy is not part of the repository.
-- The laws state the documented behaviour of `np.stack` and of slicing along the first axis.
use region_sensitivity.Prelude.{ℕ, ◌-◌, ◌≡◌, true, Bool, List, [], ◌∷◌, all, All, take, drop}
use region_sensitivity.Outcome.{Result, ok}

pub record Numpy : Type 1 where
  -- one item's (T, H, W, C) array
  pub Array : Type 0
  pub shape : Array → List ℕ
  pub is_uint8 : Array → Bool
  -- an array with one more axis in front, seen as its rows
  pub Stacked : Type 0
  pub rows : Stacked → List Array
  pub row_shape : Stacked → List ℕ
  pub rows_are_uint8 : Stacked → Bool
  -- np.stack(arrays)
  pub stack : List Array → Result Stacked
  -- np.empty((0, *shape), dtype=np.uint8)
  pub empty : List ℕ → Stacked
  -- stacked[start:stop]
  pub slice : Stacked → ℕ → ℕ → Stacked
  pub stack_same_shape :
      (a : Array) (as' : List Array)
      → All (λ b. shape b ≡ shape a) as'
      → (s : Stacked) × (stack (a ∷ as') ≡ ok s)
        × (rows s ≡ a ∷ as')
        × (row_shape s ≡ shape a)
        × (all is_uint8 (a ∷ as') ≡ true → rows_are_uint8 s ≡ true)
  pub rows-empty : (ns : List ℕ) → rows (empty ns) ≡ []
  pub row_shape-empty : (ns : List ℕ) → row_shape (empty ns) ≡ ns
  pub rows_are_uint8-empty : (ns : List ℕ) → rows_are_uint8 (empty ns) ≡ true
  pub rows-slice :
      (s : Stacked) (start stop : ℕ)
      → rows (slice s start stop) ≡ take (stop - start) (drop start (rows s))
  pub row_shape-slice :
      (s : Stacked) (start stop : ℕ) → row_shape (slice s start stop) ≡ row_shape s
  pub rows_are_uint8-slice :
      (s : Stacked) (start stop : ℕ) → rows_are_uint8 (slice s start stop) ≡ rows_are_uint8 s
