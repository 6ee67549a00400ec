-- ===== src/Lib.antt =====
-- SSAT audits how sensitive an image or video classifier is to perturbed regions. A plan enumerates
-- work items (a region of a sample, a perturbation, a seed) and groups them in chunks; the runtime
-- perturbs the samples, packs them in batches, asks a model adapter for predictions and splits a
-- batch that does not fit in memory; a dump keeps one record for each clean sample and each
-- perturbed item in numbered fragments, from which an interrupted run resumes.
--
-- Which file models which part (paths from the repository's root):
--   Status, Json, Work: ssat/core/types.py, ssat/core/region/types.py, ssat/core/plan/types.py.
--   Batching/Size, Batching/Batch: BatchSizeState, InferenceBatch of ssat/core/runtime/types.py.
--   Batching/Rebatcher, Batching/Splitter: Rebatcher and BatchSplitter of
--     ssat/core/runtime/batching.py. A generator is a loop that hands each batch to its consumer.
--   Plan: ssat/core/plan. Plan/Expanders and Plan/RegionExpander expand region families, Plan/Items
--     enumerates the items of a sample, Plan/Chunks and Plan/Builder are PlanBuilder with its
--     caches as a state.
--   Dump: ssat/core/dump. Dump/Types has the records and rows, Dump/Storage the fragment
--     directories, Dump/Index the two loaders, Dump/Session and Dump/Writer the DumpWriter and its
--     disk, Dump/Create and Dump/Open its constructor in the two modes.
--   Runtime: ssat/core/runtime. Runtime/Transfer, Runtime/Items and Runtime/Worker have the
--     values and the chunk worker of processors.py and types.py, Runtime/Validate,
--     Runtime/Failures and Runtime/Normalize the loop body of `iter_prepared_work_chunks` in
--     pipeline.py, Runtime/Environment and Runtime/Run the collaborators of `run_audit` and the
--     `_RunState` of execution.py with its writes and raises, Runtime/Execution the loops over
--     samples, chunks and batches. Runtime/Execution/Promises states what a run relies on,
--     Runtime/Execution/Dumped gives the writer's part for DumpWriter, Runtime/Execution/Planned
--     the planner's part for PlanBuilder, and Runtime/Audit is `run_audit` as a whole.
--   Resume: ssat/core/resume/index.py, the ResumeIndex without `rebuild`.
--   Prelude, Dict, Outcome: lists and numbers, Python's dict, exceptions and statements.
--   Samples: concrete runs of the theorems.
--
-- How code becomes definitions: a value class is a record, with a function `check_…` for its
-- `__post_init__`; a method that changes an object is an `Exec` over the object's state, which is
-- kept when the method raises; an exception is a constructor of `Exception`. The generator of
-- Rebatcher runs in step with its consumer, which may change the batch cap, and so do the
-- generators of the runtime: one sample or chunk is pulled when the buffer asks for it.
--
-- Parameters: numpy is the interface `Numpy` with the documented laws of stacking and slicing; the
-- model adapter is `Adapter`, with no law but where a theorem states one; the SHA-256 digest is
-- `Digest`; a resolved configuration is `ConfigApi` to the dump and `PlanConfig` to the plan; a
-- provider of sample regions and the source of samples are arguments. A run is given its
-- collaborators as an `Environment`, each with a state of its own: planner, adapter, callbacks and
-- writer. A worker process has a copy of the planner in whatever state its caches are, and
-- resolving and perturbing one item is an `Attempt`. Shapes, types and set pixels of masks are the
-- interface `Masks`, the digest of a seed is `Seeds`. The file system decides the fate of each
-- write (`WriteFate`): it happens, it is lost before the rename, or it fails after it. It also
-- decides which `mkdir` fails, and the order in which it lists a directory (`Listing`): a directory
-- itself maps ordinals to fragments and is kept by ordinal, and only `fragment_files` makes an order
-- of what is listed.
--
-- Fuel: `predict` recurses at most once for each item of the batch, so the batch's length is
-- enough; `drain` shortens its buffer in each round, so one more than its length is enough; `slices`
-- takes an item in each round.
--
-- Not modelled: the identifiers in the messages of a run, the data loader (its results come in
-- order), logging, parquet and Arrow schemas, media decoding, torch, floating-point arithmetic (a
-- float is kept as its text), and the parts of the program that the list of files above does not
-- name.
pub mod Prelude
pub mod Dict
pub mod Outcome
pub mod Status
pub mod Numpy
pub mod Json
pub mod Work
pub mod Batching
pub mod Plan
pub mod Dump
pub mod Resume
pub mod Runtime
pub mod Samples
