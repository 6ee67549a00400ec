-- ===== src/Runtime/Worker.antt =====
-- `ChunkProcessor.__getitem__` of ssat/core/runtime/processors.py, from the sample's load on. What
-- is resolved and perturbed for one item is an argument: a mask, its measurements and an array, or
-- a failure with the measurements that were made before it.
use region_sensitivity.Prelude.{ℕ, Bool, String, Option, some, List, [], ◌∷◌, str_eq, if◌then◌else◌}
use region_sensitivity.Numpy.{Numpy}
use region_sensitivity.Runtime.Items.{Masks}
use region_sensitivity.Outcome.{Result, ok, err, contract_error, ◌>>=◌}
use region_sensitivity.Status.{completed, load_failed, prepare_failed}
use region_sensitivity.Work.{WorkItem, WorkChunk}
use region_sensitivity.Dump.Types.{RegionMeta}
use region_sensitivity.Plan.Chunks.{item_ids}
use region_sensitivity.Runtime.Transfer.{
  ItemMeta, check_item_meta, PreparedChunk, check_prepared, FailedChunk, check_failed,
}

-- `LoadedSample` and `LoadError`, as far as the worker reads them. An exception of `load` is a
-- `LoadError` of the sample that was asked for.
pub data Load (Sample : Type 0) : Type 0 where
  loaded : (sample_id : String) → Sample → Load Sample
  load_error : (sample_id : String) → Load Sample

abbrev pub loaded_id : {Sample : Type 0} → Load Sample → String
loaded_id (loaded sample_id _) = sample_id
loaded_id (load_error sample_id) = sample_id

-- the outcome of the `try` for one item
pub data Attempt (Array Mask : Type 0) : Type 0 where
  prepared : Array → Mask → RegionMeta → Attempt Array Mask
  not_prepared : Option RegionMeta → Attempt Array Mask

-- the four lists of the loop
pub record Progress (Array Mask : Type 0) : Type 0 where
  pub arrays : List Array
  pub masks : List Mask
  pub successful : List ItemMeta
  pub failed : List ItemMeta

pub data WorkerResult (Stacked Mask : Type 0) : Type 0 where
  chunk_prepared : PreparedChunk Stacked Mask → WorkerResult Stacked Mask
  chunk_failed : FailedChunk → WorkerResult Stacked Mask

module _ (numpy : Numpy) (masks : Masks numpy) {Sample : Type 0} (fail_fast : Bool)
    (attempt : Sample → WorkItem → Attempt numpy.Array masks.Mask)
    (shape_of : Sample → List ℕ) where
  abbrev Lists : Type 0
  Lists = Progress numpy.Array masks.Mask

  abbrev pub none_yet : Progress numpy.Array masks.Mask
  none_yet = record { arrays = []; masks = []; successful = []; failed = [] }

  -- one more success in front of what the rest of the loop appends
  abbrev pub add_success : numpy.Array → masks.Mask → ItemMeta → Lists → Lists
  add_success a m meta rest = record rest {
    arrays = a ∷ rest.arrays;
    masks = m ∷ rest.masks;
    successful = meta ∷ rest.successful;
  }

  abbrev pub add_failure : ItemMeta → Lists → Lists
  add_failure meta rest = record rest { failed = meta ∷ rest.failed }

  -- what follows the `try` of an item, `rest` being the rest of the loop
  unfoldable pub after_attempt :
      WorkItem → Attempt numpy.Array masks.Mask → Result Lists → Result Lists
  after_attempt item (prepared a m region_meta) rest = do
    meta ←
        check_item_meta
          (record { item_id = item.item_id; region_meta = some region_meta; status = completed })
    lists ← rest
    ok (add_success a m meta lists)
  after_attempt item (not_prepared region_meta) rest = do
    meta ←
        check_item_meta
          (record { item_id = item.item_id; region_meta = region_meta; status = prepare_failed })
    lists ← if fail_fast then ok none_yet else rest
    ok (add_failure meta lists)

  -- `for item in chunk.items`
  unfoldable pub prepare_items : Sample → List WorkItem → Result Lists
  unfolding after_attempt
  prepare_items sample [] = ok none_yet
  prepare_items sample (item ∷ items) =
      after_attempt item (attempt sample item) (prepare_items sample items)

  -- `np.stack(arrays) if arrays else np.empty(...)`
  unfoldable pub stack_all : Sample → List numpy.Array → Result numpy.Stacked
  stack_all sample [] = ok (numpy.empty (shape_of sample))
  stack_all sample (a ∷ as') = numpy.stack (a ∷ as')

  unfoldable pub prepare_chunk :
      WorkChunk → Sample → Result (PreparedChunk numpy.Stacked masks.Mask)
  unfolding prepare_items stack_all
  prepare_chunk chunk sample = do
    lists ← prepare_items sample chunk.items
    stacked ← stack_all sample lists.arrays
    check_prepared numpy masks (record {
      chunk_id = chunk.chunk_id;
      arrays = stacked;
      masks = lists.masks;
      item_metas = lists.successful;
      failed_items = lists.failed;
    })

  -- the two kinds of result
  unfoldable pub process_loaded :
      WorkChunk → Load Sample → Result (WorkerResult numpy.Stacked masks.Mask)
  unfolding prepare_chunk
  process_loaded chunk (load_error _) = do
    failed ← check_failed (record {
      chunk_id = chunk.chunk_id;
      reason = load_failed;
      item_ids = item_ids chunk.items;
    })
    ok (chunk_failed failed)
  process_loaded chunk (loaded _ sample) = do
    ready ← prepare_chunk chunk sample
    ok (chunk_prepared ready)

  -- `ChunkProcessor.__getitem__`, once the chunk is materialized
  unfoldable pub process_chunk :
      WorkChunk → Load Sample → Result (WorkerResult numpy.Stacked masks.Mask)
  unfolding process_loaded
  process_chunk chunk load =
      if str_eq (loaded_id load) chunk.sample_id
      then process_loaded chunk load
      else err (contract_error "sample_source returned a mismatched sample_id")
