-- ===== src/Runtime/Run.antt =====
-- `_RunState` of ssat/core/runtime/execution.py and the functions that write a record through it,
-- or end the run.
use region_sensitivity.Prelude.{
  ℕ, ◌+◌, String, Bool, true, false, Option, none, some, if◌then◌else◌,
}
use region_sensitivity.Outcome.{
  Exception, execution_error, cancelled_error, contract_error, out_of_fuel,
}
use region_sensitivity.Outcome.Exec.{Exec, pure, raise, lift, gets, modify, try_except, ◌>>=◌, ◌>>◌}
use region_sensitivity.Status.{ItemStatus, load_failed, predict_failed}
use region_sensitivity.Dump.Types.{
  CleanDumpRecord, PerturbedDumpRecord, check_clean, check_perturbed,
}
use region_sensitivity.Dump.Session.{same_status}
use region_sensitivity.Batching.Splitter.{Machine, PredictionResult}
use region_sensitivity.Runtime.Items.{
  LoadedSample, PerturbedInferenceItem, InferenceItem, clean_item, perturbed_item,
}
use region_sensitivity.Runtime.Failures.{PreparationFailure}
use region_sensitivity.Runtime.Environment.{Environment, Run}

-- a call on a part of the state
unfoldable pub zoom : {S T A : Type 0} → (S → T) → (T → S → S) → Exec T A → Exec S A
zoom part set m s = let (r, t) = m (part s) in (r, set t s)

-- `counts[status] += 1`
unfoldable pub count_one : ItemStatus → (ItemStatus → ℕ) → ItemStatus → ℕ
count_one status counts other = (if same_status status other then 1 else 0) + counts other

-- `RuntimeExecutionError` and its two subclasses. Running out of fuel is not an exception of the
-- program, and no handler of the program takes it.
abbrev pub is_execution_error : Exception → Bool
is_execution_error (execution_error _) = true
is_execution_error (cancelled_error _) = true
is_execution_error (contract_error _) = true
is_execution_error out_of_fuel = true
is_execution_error _ = false

-- `except RuntimeExecutionError: raise` / `except Exception as error: raise RuntimeContractError`
unfoldable pub as_contract_error : {S A : Type 0} → String → Exec S A → Exec S A
as_contract_error message body =
    try_except body (λ e. if is_execution_error e then raise e else raise (contract_error message))

-- `RuntimeContractError`
abbrev pub is_contract_error : Exception → Bool
is_contract_error (contract_error _) = true
is_contract_error out_of_fuel = true
is_contract_error _ = false

-- `except RuntimeContractError: raise` / `except Exception as error: raise RuntimeContractError`
unfoldable pub as_worker_error : {S A : Type 0} → String → Exec S A → Exec S A
as_worker_error message body =
    try_except body (λ e. if is_contract_error e then raise e else raise (contract_error message))

module _ (env : Environment) where
  open env use {numpy, masks, Output, callbacks, recorder, model_id, runtime}

  unfoldable pub on_writer : {A : Type 0} → Exec env.WriterState A → Exec (Run env) A
  unfolding zoom
  on_writer m = zoom (λ s. Run.writer s) (λ d s. record s { writer = d }) m

  unfoldable pub on_caller : {A : Type 0} → Exec env.CallerState A → Exec (Run env) A
  unfolding zoom
  on_caller m = zoom (λ s. Run.caller s) (λ c s. record s { caller = c }) m

  unfoldable pub on_planner : {A : Type 0} → Exec env.PlannerState A → Exec (Run env) A
  unfolding zoom
  on_planner m = zoom (λ s. Run.planner_state s) (λ b s. record s { planner_state = b }) m

  unfoldable pub on_machine : {A : Type 0} → Exec (Machine env.AdapterState) A → Exec (Run env) A
  unfolding zoom
  on_machine m = zoom (λ s. Run.machine s) (λ w s. record s { machine = w }) m

  abbrev pub call_progress :
      Option (ℕ → ℕ → Exec env.CallerState Unit) → ℕ → ℕ → Exec (Run env) Unit
  call_progress none written total = pure tt
  call_progress (some callback) written total = on_caller (callback written total)

  -- `_report_progress`
  unfoldable pub report_progress : Exec (Run env) Unit
  unfolding on_caller
  report_progress = do
    written ← gets (λ (s : Run env). s.clean_records + s.perturbed_records)
    total ← gets (λ (s : Run env). s.total_records)
    call_progress callbacks.progress written total

  -- `_RunState.write_clean`
  unfoldable pub write_clean : CleanDumpRecord Output → Exec (Run env) Unit
  unfolding on_writer report_progress count_one
  write_clean r = do
    on_writer (recorder.write_clean r)
    modify (λ (s : Run env). record s {
      clean_records = s.clean_records + 1;
      counts = count_one r.status s.counts;
    })
    report_progress

  -- `_RunState.write_perturbed`
  unfoldable pub write_perturbed : PerturbedDumpRecord Output → Exec (Run env) Unit
  unfolding on_writer report_progress count_one
  write_perturbed r = do
    on_writer (recorder.write_perturbed r)
    modify (λ (s : Run env). record s {
      perturbed_records = s.perturbed_records + 1;
      counts = count_one r.status s.counts;
    })
    report_progress

  abbrev pub ask : Option (Exec env.CallerState Bool) → Exec (Run env) Bool
  ask none = pure false
  ask (some question) = on_caller question

  -- `state.writer.flush()` and a raise
  unfoldable pub flush_and_raise : Exception → Exec (Run env) Unit
  unfolding on_writer
  flush_and_raise e = do on_writer recorder.flush; raise e

  -- `_raise_if_cancelled`
  unfoldable pub raise_if_cancelled : Exec (Run env) Unit
  unfolding on_caller flush_and_raise
  raise_if_cancelled = do
    cancelled ← ask callbacks.cancel_requested
    if cancelled then flush_and_raise (cancelled_error "audit execution was cancelled") else pure tt

  -- `_raise_if_fail_fast`
  unfoldable pub raise_if_fail_fast : String → Exec (Run env) Unit
  unfolding flush_and_raise
  raise_if_fail_fast message =
      if runtime.fail_fast then flush_and_raise (execution_error message) else pure tt

  -- `CleanDumpRecord(...)` of a sample that was sent to inference
  abbrev pub clean_record :
      LoadedSample numpy.Array → ItemStatus → Option Output → CleanDumpRecord Output
  clean_record sample status output = record {
    sample_id = sample.sample_id;
    status = status;
    model_id = model_id;
    logits = output;
    content_hash = some sample.content_hash;
    gt_label = sample.gt_label;
    original_shape = some sample.original_shape;
  }

  -- `PerturbedDumpRecord(...)` of an item that was sent to inference
  abbrev pub perturbed_record :
      PerturbedInferenceItem numpy.Array masks.Mask
      → ItemStatus
      → Option Output
      → PerturbedDumpRecord Output
  perturbed_record item status output = record {
    work_item = item.work_item;
    status = status;
    seed_used = item.seed_used;
    logits = output;
    region_meta = some item.region_meta;
    effective_area_px = item.effective_area_px;
  }

  abbrev pub Item : Type 0
  Item = InferenceItem numpy.Array masks.Mask

  -- The two branches of `_write_prediction_result`, and of `_write_prediction_failure`, which
  -- builds the same records without an output.
  unfoldable pub write_outcome_of : Item → ItemStatus → Option Output → Exec (Run env) Unit
  unfolding write_clean write_perturbed
  write_outcome_of (clean_item sample) status output =
      lift (check_clean (clean_record sample status output)) >>= λ r. write_clean r
  write_outcome_of (perturbed_item item) status output =
      lift (check_perturbed (perturbed_record item status output)) >>= λ r. write_perturbed r

  -- `_write_prediction_result`
  unfoldable pub write_prediction_result : PredictionResult Item Output → Exec (Run env) Unit
  unfolding write_outcome_of
  write_prediction_result result = write_outcome_of result.item result.status result.output

  -- `_write_prediction_failure`
  unfoldable pub write_prediction_failure : Item → Exec (Run env) Unit
  unfolding write_outcome_of
  write_prediction_failure item = write_outcome_of item predict_failed none

  -- the record of a preparation that failed
  abbrev pub failure_record : PreparationFailure → PerturbedDumpRecord Output
  failure_record failure = record {
    work_item = failure.work_item;
    status = failure.status;
    seed_used = failure.seed_used;
    logits = none;
    region_meta = failure.region_meta;
    effective_area_px = none;
  }

  -- `_write_preparation_failure`
  unfoldable pub write_preparation_failure : PreparationFailure → Exec (Run env) Unit
  unfolding write_perturbed
  write_preparation_failure failure =
      lift (check_perturbed (failure_record failure)) >>= λ r. write_perturbed r

  -- the record of a clean sample that could not be loaded
  abbrev pub load_failure_record : String → CleanDumpRecord Output
  load_failure_record sample_id = record {
    sample_id = sample_id;
    status = load_failed;
    model_id = model_id;
    logits = none;
    content_hash = none;
    gt_label = none;
    original_shape = none;
  }

  unfoldable pub write_load_failure : String → Exec (Run env) Unit
  unfolding write_clean
  write_load_failure sample_id =
      lift (check_clean (load_failure_record sample_id)) >>= λ r. write_clean r
