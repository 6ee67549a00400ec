-- ===== src/Samples/Runs.antt =====
-- A run over one sample and one chunk of two items, the second of which cannot be prepared.
use region_sensitivity.Prelude.{
  ℕ, ◌+◌, String, Bool, true, false, not, ◌||◌, none, some, List, [], ◌∷◌, ◌++◌, arith, str_eq,
  if◌then◌else◌,
}
use region_sensitivity.Outcome.{Result, ok}
use region_sensitivity.Outcome.Exec.{Exec, pure, modify}
use region_sensitivity.Work.{WorkItem, WorkChunkMeta, SampleMeta}
use region_sensitivity.Runtime.Worker.{Attempt, prepared, not_prepared}
use region_sensitivity.Runtime.Items.{Seeds, LoadedSample}
use region_sensitivity.Runtime.Environment.{
  Recorder, Planner, SourceResult, sample_loaded, sample_failed, Environment, Run,
}
use region_sensitivity.Batching.Batch.{shape_eq}
use region_sensitivity.Samples.Arrays.{plain_masks, Tile, tiles}
use region_sensitivity.Samples.Batches.{small_adapter, fresh}
use region_sensitivity.Samples.Dumps.{some_hash}
use region_sensitivity.Samples.Preparations.{other_hash, planned_chunk, area}
use region_sensitivity.Runtime.Execution.Ledger.{Entry, clean_entry, item_entry}

abbrev pub sevens : Seeds
sevens = record {
  first_bytes = λ seed item_id salt. 7;
  first_bytes-lt = λ seed item_id salt. omega arith;
}

abbrev pub cat : LoadedSample Tile
cat = record {
  array = record { number = 1; dims = 1 ∷ 2 ∷ 2 ∷ 3 ∷ [] };
  sample_id = "cat";
  original_shape = 1 ∷ 2 ∷ 2 ∷ 3 ∷ [];
  content_hash = some_hash;
  gt_label = none;
}

abbrev pub cats_only : String → Result (SourceResult Tile)
cats_only sample_id =
    if str_eq sample_id "cat" then ok (sample_loaded cat) else ok (sample_failed sample_id)

abbrev pub first_only : LoadedSample Tile → WorkItem → Attempt Tile Bool
first_only sample item =
    if str_eq item.item_id other_hash || not (shape_eq sample.array.dims cat.original_shape)
    then not_prepared none
    else prepared sample.array true area

abbrev pub cat_meta : SampleMeta
cat_meta = record { sample_id = "cat"; path = "cat.png"; gt_label = none }

abbrev pub chunk_meta : WorkChunkMeta
chunk_meta = record {
  chunk_id = some_hash;
  sample_id = "cat";
  item_ids = some_hash ∷ other_hash ∷ [];
}

-- a planner of one chunk, which counts its calls
abbrev pub one_chunk : Planner ℕ
one_chunk = record {
  enumerate_clean = pure (cat_meta ∷ []);
  enumerate = pure (chunk_meta ∷ []);
  materialize = λ chunk_id calls. (ok planned_chunk, calls + 1);
}

-- a writer that keeps what it is given
abbrev pub in_memory : Recorder (List (Entry ℕ)) ℕ
in_memory = record {
  write_clean = λ r. modify (λ log. log ++ clean_entry r ∷ []);
  write_perturbed = λ r. modify (λ log. log ++ item_entry r ∷ []);
  flush = pure tt;
}

abbrev pub note_progress : ℕ → ℕ → Exec ℕ Unit
note_progress written total caller = (ok tt, written)

abbrev pub never : Exec ℕ Bool
never caller = (ok false, caller)

-- the run, whatever its writer is
abbrev pub small_run_with : (D : Type 0) → Recorder D ℕ → Environment
small_run_with D writer = record {
  numpy = tiles;
  masks = plain_masks;
  Output = ℕ;
  PlannerState = ℕ;
  AdapterState = ℕ;
  CallerState = ℕ;
  WriterState = D;
  planner = one_chunk;
  adapter = small_adapter;
  transform_mask = λ mask. pure (some mask);
  callbacks = record { progress = some note_progress; cancel_requested = some never };
  recorder = writer;
  load = cats_only;
  worker_planner = λ meta. 0;
  attempt = first_only;
  seeds = sevens;
  model_id = "model";
  runtime = record {
    target_batch_size = 8;
    retry_failed = false;
    fail_fast = false;
    global_seed = 3;
  };
}

abbrev pub small_run : Environment
small_run = small_run_with (List (Entry ℕ)) in_memory

abbrev pub at_start_with : (D : Type 0) (writer : Recorder D ℕ) → D → Run (small_run_with D writer)
at_start_with D writer held = record {
  planner_state = 0;
  machine = fresh;
  caller = 0;
  writer = held;
  clean_records = 0;
  perturbed_records = 0;
  total_records = 3;
  counts = λ status. 0;
}

abbrev pub at_start : Run small_run
at_start = at_start_with (List (Entry ℕ)) in_memory []
