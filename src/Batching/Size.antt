-- ===== src/Batching/Size.antt =====
-- `BatchSizeState` of ssat/core/runtime/types.py.
use region_sensitivity.Prelude.{
  ℕ, zero, suc, ◌+◌, ◌/◌, ◌≤◌, ◌*◌, ◌<◌, ◌⊎◌, inl, inr, min, max, ◌≡◌, arith, ◌==◌, if◌then◌else◌,
}
use region_sensitivity.Outcome.{Result, ok, err, value_error}

pub record BatchSizeState : Type 0 where
  pub initial_size : ℕ
  pub current_size : ℕ
  pub oom_events : ℕ

-- `BatchSizeState(initial_size)`
unfoldable pub new_state : ℕ → Result BatchSizeState
new_state initial_size =
    if initial_size == 0
    then err (value_error "initial_size must be positive")
    else ok (record { initial_size = initial_size; current_size = initial_size; oom_events = 0 })

unfoldable pub record_oom : ℕ → BatchSizeState → Result BatchSizeState
record_oom failed_size state =
    if failed_size == 0
    then err (value_error "failed_size must be positive")
    else ok (record state {
      oom_events = state.oom_events + 1;
      current_size = min state.current_size (max 1 (failed_size / 2));
    })

-- The cap is positive and never above the size that the run started with.
pub record IsValid (state : BatchSizeState) : Type 0 where
  pub positive : 0 < state.current_size
  pub below_initial : state.current_size ≤ state.initial_size

-- The cap only shrinks, and the events only grow.
pub record IsLater (old new : BatchSizeState) : Type 0 where
  pub same_start : new.initial_size ≡ old.initial_size
  pub smaller : new.current_size ≤ old.current_size
  pub more_events : old.oom_events ≤ new.oom_events

pub record IsLargest (P : ℕ → Type 0) (n : ℕ) : Type 0 where
  pub holds : P n
  pub largest : (m : ℕ) → P m → m ≤ n

pub IsLater-refl : (state : BatchSizeState) → IsLater state state
IsLater-refl state = omega arith

pub IsLater-trans : {a b c : BatchSizeState} → IsLater a b → IsLater b c → IsLater a c
IsLater-trans h k = omega arith

pub new_state-IsValid : (n : ℕ) (state : BatchSizeState) → new_state n ≡ ok state → IsValid state
unfolding new_state
new_state-IsValid n state h = ground arith

-- After a failed size that is positive, the cap is the largest number that is no larger than the
-- cap before and is either one or, doubled, no larger than the failed size. It is valid again, the
-- event is counted, and the initial size is kept.
pub record_oom_total :
    (n : ℕ) (state : BatchSizeState)
    → 0 < n
    → IsValid state
    → (state' : BatchSizeState) × (record_oom n state ≡ ok state')
      × IsValid state'
      × IsLater state state'
      × (state'.oom_events ≡ state.oom_events + 1)
      × IsLargest (λ m. (m ≤ state.current_size) × (m ≡ 1 ⊎ m * 2 ≤ n)) state'.current_size
unfolding record_oom
record_oom_total zero state h v = elim h [ ]
record_oom_total (suc n) state h v = (
  record state {
    oom_events = state.oom_events + 1;
    current_size = min state.current_size (max 1 (suc n / 2));
  },
  ground arith,
  omega arith,
  omega arith,
  omega arith,
  record { holds = halved; largest = λ m k. largest_one m k },
)
  where
    halved :
        (min state.current_size (max 1 (suc n / 2)) ≤ state.current_size)
        × (min state.current_size (max 1 (suc n / 2)) ≡ 1
            ⊎ min state.current_size (max 1 (suc n / 2)) * 2 ≤ suc n)
    halved = let positive = v.positive in (omega arith, ground arith)

    largest_one :
        (m : ℕ)
        → (m ≤ state.current_size) × (m ≡ 1 ⊎ m * 2 ≤ suc n)
        → m ≤ min state.current_size (max 1 (suc n / 2))
    largest_one m (below, inl one) = omega arith
    largest_one m (below, inr twice) = omega arith
