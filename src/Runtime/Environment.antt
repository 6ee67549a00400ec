-- ===== src/Runtime/Environment.antt =====
-- What a run of ssat/core/runtime/execution.py is given: its collaborators, each over a state of
-- its own, and the parts of the configuration that it reads. The state of a run holds theirs.
use region_sensitivity.Prelude.{ℕ, String, Bool, Option, List}
use region_sensitivity.Numpy.{Numpy}
use region_sensitivity.Outcome.{Result}
use region_sensitivity.Outcome.Exec.{Exec}
use region_sensitivity.Status.{ItemStatus}
use region_sensitivity.Work.{WorkItem, WorkChunk, WorkChunkMeta, SampleMeta}
use region_sensitivity.Dump.Types.{CleanDumpRecord, PerturbedDumpRecord}
use region_sensitivity.Batching.Splitter.{Adapter, Machine}
use region_sensitivity.Runtime.Worker.{Attempt}
use region_sensitivity.Runtime.Items.{Masks, Seeds, LoadedSample}

-- What a run uses of a `DumpWriter`.
pub record Recorder (D Output : Type 0) : Type 0 where
  pub write_clean : CleanDumpRecord Output → Exec D Unit
  pub write_perturbed : PerturbedDumpRecord Output → Exec D Unit
  pub flush : Exec D Unit

-- What a run uses of a `PlanBuilder`.
pub record Planner (B : Type 0) : Type 0 where
  pub enumerate_clean : Exec B (List SampleMeta)
  pub enumerate : Exec B (List WorkChunkMeta)
  pub materialize : String → Exec B WorkChunk

-- `progress_callback` and `cancel_requested`, over the state of the caller.
pub record Callbacks (C : Type 0) : Type 0 where
  pub progress : Option (ℕ → ℕ → Exec C Unit)
  pub cancel_requested : Option (Exec C Bool)

-- `SampleSource.load`: a sample, or a `LoadError` with its identifier.
pub data SourceResult (Array : Type 0) : Type 0 where
  sample_loaded : LoadedSample Array → SourceResult Array
  sample_failed : String → SourceResult Array

-- The fields of `config.runtime` that a run reads.
pub record RuntimeConfig : Type 0 where
  pub target_batch_size : ℕ
  pub retry_failed : Bool
  pub fail_fast : Bool
  pub global_seed : ℕ

pub record Environment : Type 1 where
  pub numpy : Numpy
  pub masks : Masks numpy
  pub Output : Type 0
  -- the states of the planner, of the adapter and its device, of the caller, of the writer
  pub PlannerState : Type 0
  pub AdapterState : Type 0
  pub CallerState : Type 0
  pub WriterState : Type 0
  pub planner : Planner PlannerState
  pub adapter : Adapter AdapterState numpy.Stacked Output
  pub transform_mask : masks.Mask → Exec AdapterState (Option masks.Mask)
  pub callbacks : Callbacks CallerState
  pub recorder : Recorder WriterState Output
  -- A worker has a copy of the source and of the planner, in whatever state its caches are.
  pub load : String → Result (SourceResult numpy.Array)
  pub worker_planner : WorkChunkMeta → PlannerState
  pub attempt : LoadedSample numpy.Array → WorkItem → Attempt numpy.Array masks.Mask
  pub seeds : Seeds
  pub model_id : String
  pub runtime : RuntimeConfig

-- The state of a run: `_RunState`, with what it and the loops of `run_audit` refer to.
pub record Run (env : Environment) : Type 0 where
  pub planner_state : env.PlannerState
  pub machine : Machine env.AdapterState
  pub caller : env.CallerState
  pub writer : env.WriterState
  pub clean_records : ℕ
  pub perturbed_records : ℕ
  pub total_records : ℕ
  pub counts : ItemStatus → ℕ
