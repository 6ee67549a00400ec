-- ===== src/Runtime/Execution/Promises.antt =====
-- What the collaborators of a run promise. A promise says what holds when a call returns, and that
-- what it raises is a `Fault`, whichever exceptions the caller of the theorems puts under that
-- name.
use region_sensitivity.Prelude.{
  ℕ, ◌+◌, ◌<◌, ◌≤◌, ◌^◌, ◌≡◌, ◌⊎◌, String, Bool, true, false, not, ◌&&◌, some, List, [], ◌∷◌, ◌++◌,
  map, All, length,
}
use region_sensitivity.Outcome.{
  Exception, ok, execution_error, cancelled_error, contract_error, out_of_fuel,
}
use region_sensitivity.Outcome.Exec.{Exec, Ensures}
use region_sensitivity.Status.{is_ok}
use region_sensitivity.Work.{WorkChunkMeta, SampleMeta, check_item, is_blank, is_nil}
use region_sensitivity.Dump.Types.{CleanDumpRecord, PerturbedDumpRecord}
use region_sensitivity.Dump.Writer.Calls.{IsCheckedClean, IsCheckedPerturbed}
use region_sensitivity.Batching.Size.{IsValid}
use region_sensitivity.Batching.Batch.{InferenceBatch, IsBatch}
use region_sensitivity.Batching.Splitter.{Machine, predict}
use region_sensitivity.Batching.Splitter.Steps.{Returned}
use region_sensitivity.Runtime.Items.{
  LoadedSample, PerturbedInferenceItem, clean_item, perturbed_item, item_array, check_loaded,
  check_perturbed_item,
}
use region_sensitivity.Runtime.Normalize.{PreparedWorkChunk}
use region_sensitivity.Runtime.Failures.{PreparationFailure}
use region_sensitivity.Runtime.Environment.{Environment, sample_loaded, Run}
use region_sensitivity.Runtime.Run.{is_execution_error, Item}
use region_sensitivity.Runtime.Execution.{load_or_error, source_id, prepare_work_chunk}
use region_sensitivity.Runtime.Execution.Ledger.{
  Entry, clean_entry, item_entry, tally, item_key, chunk_keys, owed_keys, entry_key, Key,
}

-- A sample that a source loads has passed its checks, and has no empty axis.
pub record IsLoaded (env : Environment) (sample : LoadedSample env.numpy.Array) : Type 0 where
  pub checked : check_loaded env.numpy sample ≡ ok sample
  pub positive : All (λ n. 0 < n) sample.original_shape

-- A work item has passed its checks, and so has the inference item that carries it.
pub record IsHydrated (env : Environment)
    (item : PerturbedInferenceItem env.numpy.Array env.masks.Mask) : Type 0 where
  pub planned : check_item item.work_item ≡ ok item.work_item
  pub checked : check_perturbed_item env.numpy env.masks item ≡ ok item

pub record IsFailure (failure : PreparationFailure) : Type 0 where
  pub planned : check_item failure.work_item ≡ ok failure.work_item
  pub seeded : failure.seed_used < 2 ^ 128
  pub failed : is_ok failure.status ≡ false

abbrev pub IsReady : (env : Environment) → Item env → Type 0
IsReady env (clean_item sample) = IsLoaded env sample
IsReady env (perturbed_item item) = IsHydrated env item

-- What `prepare_work_chunk` has done of a chunk: it has taken nothing but the planner's and the
-- adapter's state further, and accounts for each item of the chunk, unless it stops at a failure.
pub record IsPrepared (env : Environment) (meta : WorkChunkMeta) (s : Run env)
    (ready : PreparedWorkChunk (PerturbedInferenceItem env.numpy.Array env.masks.Mask))
    (t : Run env) : Type 0 where
  pub items : All (IsHydrated env) ready.items
  pub failures : All IsFailure ready.failures
  -- the items that `fail_fast` leaves aside
  pub left : List Key
  pub balanced :
      (k : Key)
      → tally k (map (λ (f : PreparationFailure). item_key f.work_item.item_id) ready.failures)
          + tally k (
              map
                (λ (i : PerturbedInferenceItem env.numpy.Array env.masks.Mask).
                  item_key i.work_item.item_id)
                ready.items)
          + tally k left
        ≡ tally k (chunk_keys meta)
  pub none_left : (env.runtime.fail_fast && not (is_nil ready.failures)) ≡ false → left ≡ []
  pub same_cap : t.machine.batch_size ≡ s.machine.batch_size
  pub same_writer : t.writer ≡ s.writer
  pub same_clean : t.clean_records ≡ s.clean_records
  pub same_perturbed : t.perturbed_records ≡ s.perturbed_records
  pub same_counts : t.counts ≡ s.counts

-- the exceptions of a prediction that leave the loop over the batches
abbrev pub Escapes : (Exception → Type 0) → Exception → Type 0
Escapes Fault (contract_error message) = Fault (contract_error message)
Escapes Fault out_of_fuel = Fault out_of_fuel
Escapes Fault _ = Unit

-- no key has been recorded more often than it is owed
abbrev pub IsWithin :
    {Output : Type 0} → List SampleMeta → List WorkChunkMeta → List (Entry Output) → Type 0
IsWithin samples chunks log =
    (k : Key) → tally k (map entry_key log) ≤ tally k (owed_keys samples chunks)

-- The parts of a run other than its writer.
pub record Partners (env : Environment) (samples : List SampleMeta) (chunks : List WorkChunkMeta)
    : Type 1 where
  -- what the planner keeps of its state
  pub PlannerOk : env.PlannerState → Type 0
  pub Fault : Exception → Type 0
  pub on_progress :
      (callback : ℕ → ℕ → Exec env.CallerState Unit)
      → env.callbacks.progress ≡ some callback
      → (written total : ℕ) (c : env.CallerState)
      → Ensures (λ _ _. Unit) (λ e _. Fault e) (callback written total) c
  pub on_cancel :
      (question : Exec env.CallerState Bool)
      → env.callbacks.cancel_requested ≡ some question
      → (c : env.CallerState)
      → Ensures
          (λ yes_ _. yes_ ≡ true → Fault (cancelled_error "audit execution was cancelled"))
          (λ e _. Fault e)
          question
          c
  pub on_fail_fast :
      env.runtime.fail_fast ≡ true → (message : String) → Fault (execution_error message)
  -- a fault that is not an execution error becomes one
  pub on_wrap :
      (e : Exception) (message : String)
      → Fault e
      → is_execution_error e ≡ false
      → Fault (contract_error message)
  pub on_predict :
      (batch : InferenceBatch (Item env) env.numpy.Stacked) (m : Machine env.AdapterState)
      → IsBatch env.numpy item_array batch
      → IsValid m.batch_size
      → Ensures
          (Returned env.numpy item_array env.adapter batch m.batch_size)
          (λ e t. Escapes Fault e × IsValid t.batch_size)
          (predict env.numpy item_array env.adapter (length batch.items) batch)
          m
  pub on_load :
      (sample_id : String) (sample : LoadedSample env.numpy.Array)
      → env.load sample_id ≡ ok (sample_loaded sample)
      → IsLoaded env sample
  pub on_mismatch :
      All
        (λ (s : SampleMeta).
          (source_id (load_or_error s.sample_id (env.load s.sample_id)) ≡ s.sample_id)
          ⊎ ((message : String) → Fault (contract_error message)))
        samples
  pub samples_named : All (λ (s : SampleMeta). is_blank s.sample_id ≡ false) samples
  pub model_named : is_blank env.model_id ≡ false
  pub on_prepare :
      All
        (λ meta.
          (s : Run env)
          → PlannerOk s.planner_state
          → Ensures
              (λ ready t. IsPrepared env meta s ready t × PlannerOk t.planner_state)
              (λ e _. Fault e)
              (prepare_work_chunk env meta)
              s)
        chunks

pub record Promises (env : Environment) (samples : List SampleMeta) (chunks : List WorkChunkMeta)
    : Type 1 where
  pub partners : Partners env samples chunks
  -- what the writer has been given so far
  pub Logs : env.WriterState → List (Entry env.Output) → Type 0
  -- what is on disk once the writer has been flushed
  pub Durable : env.WriterState → List (Entry env.Output) → Type 0
  pub on_write_clean :
      (r : CleanDumpRecord env.Output) (log : List (Entry env.Output)) (d : env.WriterState)
      → IsCheckedClean r
      → IsWithin samples chunks (log ++ clean_entry r ∷ [])
      → Logs d log
      → Ensures
          (λ _ t. Logs t (log ++ clean_entry r ∷ []))
          (λ e _. partners.Fault e)
          (env.recorder.write_clean r)
          d
  pub on_write_perturbed :
      (r : PerturbedDumpRecord env.Output) (log : List (Entry env.Output)) (d : env.WriterState)
      → IsCheckedPerturbed r
      → IsWithin samples chunks (log ++ item_entry r ∷ [])
      → Logs d log
      → Ensures
          (λ _ t. Logs t (log ++ item_entry r ∷ []))
          (λ e _. partners.Fault e)
          (env.recorder.write_perturbed r)
          d
  pub on_flush :
      (log : List (Entry env.Output)) (d : env.WriterState)
      → Logs d log
      → Ensures (λ _ t. Logs t log × Durable t log) (λ e _. partners.Fault e) env.recorder.flush d
