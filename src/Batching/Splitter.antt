-- ===== src/Batching/Splitter.antt =====
-- `BatchSplitter` of ssat/core/runtime/batching.py, with `PredictionResult` of
-- ssat/core/runtime/types.py. The model adapter is a parameter: it runs a model framework.
pub mod Results
pub mod Steps
pub mod Rule
pub mod Capacity
use region_sensitivity.Prelude.{
  ℕ, zero, suc, ◌/◌, ◌+◌, ◌≡◌, Bool, true, false, ◌&&◌, Option, none, some, List, [], ◌∷◌, ◌++◌,
  map, ◌==◌, if◌then◌else◌, length,
}
use region_sensitivity.Numpy.{Numpy}
use region_sensitivity.Outcome.{
  Exception, Result, ok, err, value_error, other_error, contract_error, adapter_out_of_memory,
  out_of_fuel,
}
use region_sensitivity.Outcome.Exec.{Exec, pure, raise, lift, ◌>>=◌, ◌>>◌}
use region_sensitivity.Status.{
  ItemStatus, completed, load_failed, prepare_failed, predict_failed, skipped_oom,
}
use region_sensitivity.Batching.Size.{BatchSizeState, record_oom}
use region_sensitivity.Batching.Batch.{InferenceBatch, slice_batch}

pub record PredictionResult (Item Output : Type 0) : Type 0 where
  pub item : Item
  pub status : ItemStatus
  pub output : Option Output

-- The checks of `PredictionResult.__post_init__`.
unfoldable pub is_splitter_status : ItemStatus → Bool
is_splitter_status completed = true
is_splitter_status predict_failed = true
is_splitter_status skipped_oom = true
is_splitter_status _ = false

-- `(status is ItemStatus.OK) == (output is not None)`
unfoldable pub output_fits : {A : Type 0} → ItemStatus → Option A → Bool
output_fits completed (some _) = true
output_fits completed none = false
output_fits _ (some _) = false
output_fits _ none = true

unfoldable pub is_result : {Item Output : Type 0} → PredictionResult Item Output → Bool
unfolding is_splitter_status output_fits
is_result r = is_splitter_status r.status && output_fits r.status r.output

-- What `BatchSplitter` uses of a `ModelAdapter`, over the state `W` of the adapter and its device.
pub record Adapter (W Stacked Output : Type 0) : Type 0 where
  pub predict : Stacked → Exec W (List Output)
  pub cleanup_after_oom : Exec W Unit

-- What a prediction changes: the adapter's world and the shared batch cap.
pub record Machine (W : Type 0) : Type 0 where
  pub world : W
  pub batch_size : BatchSizeState

module _ {W : Type 0} where
  unfoldable pub on_world : {A : Type 0} → Exec W A → Exec (Machine W) A
  on_world m machine = let (r, w) = m machine.world in (r, record machine { world = w })

  abbrev pub store_size : Result BatchSizeState → Exec (Machine W) Unit
  store_size (ok size) machine = (ok tt, record machine { batch_size = size })
  store_size (err e) machine = (err e, machine)

  -- a method of `BatchSizeState` that may raise
  unfoldable pub on_batch_size : (BatchSizeState → Result BatchSizeState) → Exec (Machine W) Unit
  on_batch_size f machine = store_size (f machine.batch_size) machine

module _ {Item Output : Type 0} where
  abbrev pub succeeded : Item → Output → PredictionResult Item Output
  succeeded item output = record { item = item; status = completed; output = some output }

  abbrev pub failed : ItemStatus → Item → PredictionResult Item Output
  failed status item = record { item = item; status = status; output = none }

  -- The `zip` of items and outputs, which are as many.
  pub zip_results : List Item → List Output → List (PredictionResult Item Output)
  zip_results (i ∷ is) (o ∷ os) = succeeded i o ∷ zip_results is os
  zip_results _ _ = []

  -- the end of `predict`, after `self._adapter.predict` returned
  pub collect : List Item → List Output → Result (List (PredictionResult Item Output))
  unfolding zip_results
  collect items outputs =
      if length outputs == length items
      then ok (zip_results items outputs)
      else err (contract_error "adapter returned a different number of outputs than inputs")

module _ (numpy : Numpy) {Item : Type 0} (array : Item → numpy.Array) {W Output : Type 0}
    (adapter : Adapter W numpy.Stacked Output) where
  abbrev Batch : Type 0
  Batch = InferenceBatch Item numpy.Stacked

  abbrev Results : Type 0
  Results = List (PredictionResult Item Output)

  -- `(PredictionResult(item=batch.items[0], status=SKIPPED_OOM),)`
  skip_first : List Item → Exec (Machine W) Results
  skip_first [] = raise (other_error "IndexError")
  skip_first (item ∷ _) = pure (failed skipped_oom item ∷ [])

  split : (Batch → Exec (Machine W) Results) → Batch → Exec (Machine W) Results
  split recurse batch = do
    let midpoint = length batch.items / 2
    left ← lift (slice_batch numpy array batch 0 midpoint)
    right ← lift (slice_batch numpy array batch midpoint (length batch.items))
    first ← recurse left
    second ← recurse right
    pure (first ++ second)

  -- `except AdapterOutOfMemoryError`
  recover : (Batch → Exec (Machine W) Results) → Batch → Exec (Machine W) Results
  unfolding skip_first split
  recover recurse batch = do
    on_world adapter.cleanup_after_oom
    on_batch_size (record_oom (length batch.items))
    if length batch.items == 1 then skip_first batch.items else split recurse batch

  -- the other `except` clauses, and what follows when the adapter returned
  after_reply :
      (Batch → Exec (Machine W) Results) → Batch → Result (List Output) → Exec (Machine W) Results
  unfolding recover collect
  after_reply recurse batch (ok outputs) = lift (collect batch.items outputs)
  after_reply recurse batch (err (adapter_out_of_memory _)) = recover recurse batch
  after_reply recurse batch (err (contract_error message)) = raise (contract_error message)
  after_reply recurse batch (err _) = pure (map (failed predict_failed) batch.items)

  -- `BatchSplitter.predict`. The fuel bounds the depth of the recursion.
  unfoldable pub predict : ℕ → Batch → Exec (Machine W) Results
  unfolding after_reply
  predict zero batch machine = raise out_of_fuel machine
  predict (suc fuel) batch machine =
      let (reply, w) = adapter.predict batch.arrays machine.world in
      after_reply (predict fuel) batch reply (record machine { world = w })
