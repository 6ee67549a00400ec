-- ===== src/Runtime/Audit.antt =====
-- `run_audit` of ssat/core/runtime/execution.py, with `initial_batch_size` of pipeline.py and
-- `ExecutionSummary` of types.py. The checks of types and the logging are not modelled.
pub mod Totals
pub mod Audited
use region_sensitivity.Prelude.{
  ℕ, ◌+◌, min, Bool, true, false, not, Option, none, some, List, [], ◌∷◌, if◌then◌else◌, length,
}
use region_sensitivity.Outcome.{execution_error}
use region_sensitivity.Outcome.Exec.{Exec, pure, raise, lift, gets, modify, ◌>>=◌, ◌>>◌}
use region_sensitivity.Status.{ItemStatus}
use region_sensitivity.Work.{WorkChunkMeta, SampleMeta, n_items}
use region_sensitivity.Dump.Session.{ConfigApi, RunManifest}
use region_sensitivity.Resume.{ResumeIndex, pending_chunks, pending_clean_samples}
use region_sensitivity.Batching.Size.{BatchSizeState, new_state}
use region_sensitivity.Runtime.Environment.{Environment, Run}
use region_sensitivity.Runtime.Run.{on_planner}
use region_sensitivity.Runtime.Execution.{run_pending}

abbrev pub initial_batch_size : ℕ → Option ℕ → ℕ
initial_batch_size target_batch_size none = target_batch_size
initial_batch_size target_batch_size (some max_batch_size) = min target_batch_size max_batch_size

-- `sum(chunk.n_items for chunk in chunks)`
unfoldable pub total_items : List WorkChunkMeta → ℕ
total_items [] = 0
total_items (chunk ∷ chunks) = n_items chunk + total_items chunks

pub record ExecutionSummary : Type 0 where
  pub clean_pending : ℕ
  pub chunks_pending : ℕ
  pub clean_records : ℕ
  pub perturbed_records : ℕ
  pub counts_by_status : ItemStatus → ℕ
  pub oom_events : ℕ
  pub initial_batch_size : ℕ
  pub final_batch_size : ℕ

abbrev pub records_written : ExecutionSummary → ℕ
records_written summary = summary.clean_records + summary.perturbed_records

-- What `run_audit` compares, and the limit of the adapter.
pub record AuditConfig (api : ConfigApi) : Type 0 where
  pub config : api.Config
  -- adapter.describe()
  pub spec : api.Spec
  pub max_batch_size : Option ℕ

module _ (env : Environment) (api : ConfigApi) (manifest_of : env.WriterState → RunManifest api)
    (audit : AuditConfig api) where
  open env use {planner, runtime}

  unfoldable pub check_run : Exec (Run env) Unit
  check_run = do
    if api.spec_eq audit.spec (api.adapter_spec audit.config)
        then pure tt
        else raise (execution_error "adapter spec does not match resolved config")
    manifest ← gets (λ (s : Run env). manifest_of s.writer)
    if api.config_eq manifest.resolved_config audit.config
        then pure tt
        else raise (execution_error "writer config does not match resolved config")
    if api.spec_eq manifest.adapter_spec audit.spec
        then pure tt
        else raise (execution_error "writer adapter spec does not match adapter")

  -- `_RunState(...)` with the batch size that the run starts with
  unfoldable pub start_run : ℕ → BatchSizeState → Exec (Run env) Unit
  start_run total_records batch_state = modify (λ (s : Run env). record s {
    machine = record s.machine { batch_size = batch_state };
    clean_records = 0;
    perturbed_records = 0;
    total_records = total_records;
    counts = λ status. 0;
  })

  abbrev pub summarize : List SampleMeta → List WorkChunkMeta → Run env → ExecutionSummary
  summarize clean_samples chunks s = record {
    clean_pending = length clean_samples;
    chunks_pending = length chunks;
    clean_records = s.clean_records;
    perturbed_records = s.perturbed_records;
    counts_by_status = s.counts;
    oom_events = s.machine.batch_size.oom_events;
    initial_batch_size = s.machine.batch_size.initial_size;
    final_batch_size = s.machine.batch_size.current_size;
  }

  -- the rest of `run_audit`, once the pending work is known
  unfoldable pub audit_pending :
      List SampleMeta → List WorkChunkMeta → Exec (Run env) ExecutionSummary
  unfolding start_run total_items run_pending
  audit_pending clean_samples chunks = do
    batch_state ←
        lift (new_state (initial_batch_size runtime.target_batch_size audit.max_batch_size))
    start_run (length clean_samples + total_items chunks) batch_state
    run_pending env clean_samples chunks
    gets (summarize clean_samples chunks)

  unfoldable pub run_audit : ResumeIndex → Exec (Run env) ExecutionSummary
  unfolding check_run on_planner audit_pending
  run_audit resume_index = do
    check_run
    samples ← on_planner env planner.enumerate_clean
    metas ← on_planner env planner.enumerate
    audit_pending (pending_clean_samples resume_index runtime.retry_failed samples)
        (pending_chunks resume_index runtime.retry_failed metas)
