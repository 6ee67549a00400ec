-- ===== src/Runtime/Execution.antt =====
-- The loops of ssat/core/runtime/execution.py with the generators of ssat/core/runtime/pipeline.py
-- that feed them, and the workers' `__getitem__` of ssat/core/runtime/processors.py. A generator is
-- pulled when `Rebatcher` wants more items: each source (a sample, a chunk) is one pull.
pub mod Ledger
pub mod Promises
pub mod Zoomed
pub mod Records
pub mod Checked
pub mod Writes
pub mod Consume
pub mod Pulls
pub mod Chunked
pub mod Complete
pub mod Worked
pub mod Preparing
pub mod Journaled
pub mod Counted
pub mod Dumped
pub mod Recorded
pub mod Planned
use region_sensitivity.Prelude.{
  ℕ, ◌+◌, min, String, Bool, true, false, not, ◌&&◌, Option, none, some, List, [], ◌∷◌, map, str_eq,
  if◌then◌else◌, length, any,
}
use region_sensitivity.Outcome.{
  Exception, Result, ok, err, contract_error, execution_error, out_of_fuel, ◌>>=◌ as then_do,
}
use region_sensitivity.Outcome.Exec.{
  Exec, handle, pure, raise, lift, gets, modify, try_except, ◌>>=◌, ◌>>◌,
}
use region_sensitivity.Status.{ItemStatus, is_ok, skipped_oom}
use region_sensitivity.Work.{WorkItem, WorkChunk, WorkChunkMeta, SampleMeta, n_items, is_nil}
use region_sensitivity.Plan.Chunks.{item_ids}
use region_sensitivity.Plan.Builder.{texts_eq}
use region_sensitivity.Batching.Size.{BatchSizeState, new_state}
use region_sensitivity.Batching.Batch.{InferenceBatch}
use region_sensitivity.Batching.Rebatcher.{rebatch}
use region_sensitivity.Batching.Splitter.{Machine, PredictionResult, on_world, predict}
use region_sensitivity.Runtime.Worker.{
  Load, loaded, load_error, WorkerResult, chunk_prepared, chunk_failed, process_chunk,
}
use region_sensitivity.Runtime.Transfer.{PreparedChunk, FailedChunk}
use region_sensitivity.Runtime.Items.{
  LoadedSample, InferenceItem, clean_item, perturbed_item, item_array, PerturbedInferenceItem,
}
use region_sensitivity.Runtime.Normalize.{PreparedWorkChunk, normalize}
use region_sensitivity.Runtime.Failures.{PreparationFailure}
use region_sensitivity.Runtime.Environment.{
  Environment, SourceResult, sample_loaded, sample_failed, Run,
}
use region_sensitivity.Runtime.Run.{
  as_contract_error, as_worker_error, on_writer, on_planner, on_machine, raise_if_cancelled,
  raise_if_fail_fast, Item, write_prediction_result, write_prediction_failure,
  write_preparation_failure, write_load_failure,
}

-- an exception of `sample_source.load` is a `LoadError` of the sample that was asked for
abbrev pub load_or_error :
    {Array : Type 0} → String → Result (SourceResult Array) → SourceResult Array
load_or_error sample_id (ok result) = result
load_or_error sample_id (err _) = sample_failed sample_id

abbrev pub source_id : {Array : Type 0} → SourceResult Array → String
source_id (sample_loaded sample) = sample.sample_id
source_id (sample_failed sample_id) = sample_id

abbrev pub as_load : {Array : Type 0} → SourceResult Array → Load (LoadedSample Array)
as_load (sample_loaded sample) = loaded sample.sample_id sample
as_load (sample_failed sample_id) = load_error sample_id

abbrev pub result_chunk_id : {Stacked Mask : Type 0} → WorkerResult Stacked Mask → String
result_chunk_id (chunk_prepared result) = result.chunk_id
result_chunk_id (chunk_failed result) = result.chunk_id

module _ (env : Environment) where
  open env use {numpy, masks, Output, planner, adapter, runtime, recorder}

  -- `CleanProcessor.__getitem__`
  unfoldable pub get_sample : SampleMeta → Result (SourceResult numpy.Array)
  get_sample sample =
      let result = load_or_error sample.sample_id (env.load sample.sample_id) in
      if str_eq (source_id result) sample.sample_id
      then ok result
      else err (contract_error "sample_source returned a mismatched sample_id")

  -- `ChunkProcessor.__getitem__`
  unfoldable pub get_chunk : WorkChunkMeta → Result (WorkerResult numpy.Stacked masks.Mask)
  unfolding process_chunk texts_eq
  get_chunk meta = then_do (planner.materialize meta.chunk_id (env.worker_planner meta)).0 λ chunk.
      if str_eq chunk.sample_id meta.sample_id && texts_eq (item_ids chunk.items) meta.item_ids
      then process_chunk numpy masks runtime.fail_fast env.attempt
          (λ sample. numpy.shape (LoadedSample.array sample)) chunk
          (as_load (load_or_error chunk.sample_id (env.load chunk.sample_id)))
      else err (contract_error "materialized chunk does not match its metadata")

  -- the body of the loop of `_iter_clean_items`
  unfoldable pub handle_clean : SourceResult numpy.Array → Exec (Run env) (List (Item env))
  unfolding write_load_failure raise_if_fail_fast
  handle_clean (sample_loaded sample) = pure (clean_item sample ∷ [])
  handle_clean (sample_failed sample_id) = do
    write_load_failure env sample_id
    raise_if_fail_fast env "clean sample load failed"
    pure []

  -- One round of `_iter_clean_items` over `iter_clean_preparation_results`.
  unfoldable pub pull_clean : SampleMeta → Exec (Run env) (List (Item env))
  unfolding as_contract_error as_worker_error get_sample raise_if_cancelled handle_clean
  pull_clean sample = as_contract_error "clean worker contract failed" (do
    result ← as_worker_error "clean worker contract failed" (lift (get_sample sample))
    raise_if_cancelled env
    handle_clean result)

  -- One round of `iter_prepared_work_chunks`.
  unfoldable pub prepare_work_chunk :
      WorkChunkMeta
      → Exec (Run env) (PreparedWorkChunk (PerturbedInferenceItem numpy.Array masks.Mask))
  unfolding as_worker_error get_chunk on_planner on_machine on_world normalize
  prepare_work_chunk meta = as_worker_error "chunk worker contract failed" (do
    result ← lift (get_chunk meta)
    chunk ← on_planner env (planner.materialize (result_chunk_id result))
    on_machine env (
        on_world (
          normalize numpy masks env.transform_mask env.seeds runtime.global_seed runtime.fail_fast
            chunk result)))

  unfoldable pub write_preparation_failures : List PreparationFailure → Exec (Run env) Unit
  unfolding write_preparation_failure
  write_preparation_failures [] = pure tt
  write_preparation_failures (failure ∷ failures) = do
    write_preparation_failure env failure
    write_preparation_failures failures

  abbrev pub message_of : Option String → String
  message_of none = "chunk preparation failed"
  message_of (some message) = message

  -- One round of `_iter_perturbed_items`.
  unfoldable pub pull_perturbed : WorkChunkMeta → Exec (Run env) (List (Item env))
  unfolding as_contract_error prepare_work_chunk raise_if_cancelled write_preparation_failures
      raise_if_fail_fast
  pull_perturbed meta = as_contract_error "chunk worker contract failed" (do
    ready ← prepare_work_chunk meta
    raise_if_cancelled env
    write_preparation_failures ready.failures
    if is_nil ready.failures
        then pure tt
        else raise_if_fail_fast env (message_of ready.failure_message)
    pure (map perturbed_item ready.items))

  -- `PredictionBatchOutcome`: results, or the items of a batch whose prediction raised
  abbrev pub settle :
      Result (List (PredictionResult (Item env) Output))
      → Exec (Run env) (Option (List (PredictionResult (Item env) Output)))
  settle (ok results) = pure (some results)
  settle (err (contract_error message)) = raise (contract_error message)
  settle (err out_of_fuel) = raise out_of_fuel
  settle (err _) = pure none

  -- One round of `iter_prediction_batches`: `none` when the splitter raised.
  unfoldable pub predict_batch :
      InferenceBatch (Item env) numpy.Stacked
      → Exec (Run env) (Option (List (PredictionResult (Item env) Output)))
  unfolding on_machine
  predict_batch batch s =
      let (r, m) = predict numpy item_array adapter (length batch.items) batch s.machine in
      settle r (record s { machine = m })

  unfoldable pub write_prediction_results :
      List (PredictionResult (Item env) Output) → Exec (Run env) Unit
  unfolding write_prediction_result
  write_prediction_results [] = pure tt
  write_prediction_results (result ∷ results) = do
    write_prediction_result env result
    write_prediction_results results

  unfoldable pub write_prediction_failures : List (Item env) → Exec (Run env) Unit
  unfolding write_prediction_failure
  write_prediction_failures [] = pure tt
  write_prediction_failures (item ∷ items) = do
    write_prediction_failure env item
    write_prediction_failures items

  abbrev is_skipped : ItemStatus → Bool
  is_skipped skipped_oom = true
  is_skipped _ = false

  abbrev pub failure_message : List (PredictionResult (Item env) Output) → String
  failure_message results =
      if any (λ r. is_skipped (PredictionResult.status r)) results
      then "singleton inference ran out of memory"
      else "adapter prediction failed"

  -- the rest of the loop's body of `_run_batches`
  unfoldable pub record_outcome :
      List (Item env) → Option (List (PredictionResult (Item env) Output)) → Exec (Run env) Unit
  unfolding write_prediction_failures write_prediction_results raise_if_fail_fast
  record_outcome items none = do
    write_prediction_failures items
    raise_if_fail_fast env "adapter prediction failed"
  record_outcome items (some results) = do
    write_prediction_results results
    if any (λ r. not (is_ok (PredictionResult.status r))) results
        then raise_if_fail_fast env (failure_message results)
        else pure tt

  -- the loop's body of `_run_batches`
  unfoldable pub consume : InferenceBatch (Item env) numpy.Stacked → Exec (Run env) Unit
  unfolding predict_batch raise_if_cancelled record_outcome
  consume batch = do
    outcome ← predict_batch batch
    raise_if_cancelled env
    record_outcome batch.items outcome

  abbrev pub cap : Run env → ℕ
  cap s = s.machine.batch_size.current_size

  -- `_run_batches`
  unfoldable pub run_batches :
      {Source : Type 0}
      → (Source → Exec (Run env) (List (Item env)))
      → List Source
      → Exec (Run env) Unit
  unfolding as_contract_error consume
  run_batches pull sources =
      as_contract_error "runtime batch stream failed"
        (rebatch numpy item_array cap consume pull sources)

  -- From the first loop of `run_audit` to its last flush.
  unfoldable pub run_pending : List SampleMeta → List WorkChunkMeta → Exec (Run env) Unit
  unfolding run_batches pull_clean pull_perturbed raise_if_cancelled on_writer
  run_pending samples chunks = do
    run_batches pull_clean samples
    run_batches pull_perturbed chunks
    raise_if_cancelled env
    on_writer env recorder.flush
