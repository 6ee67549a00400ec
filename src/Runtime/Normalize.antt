-- ===== src/Runtime/Normalize.antt =====
-- `iter_prepared_work_chunks` of ssat/core/runtime/pipeline.py, for one worker result: successes
-- become inference items, failures become records to write. An adapter's mask transform may change
-- the adapter's state.
pub mod Made
pub mod Sorted
pub mod Balanced
pub mod Validated
use region_sensitivity.Prelude.{
  ℕ, ◌+◌, ◌*◌, ◌/◌, ◌%◌, max, String, Bool, true, false, not, ◌&&◌, ◌||◌, Option, none, some, List,
  [], ◌∷◌, ◌++◌, map, ltb, ◌==◌, if◌then◌else◌, length,
}
use region_sensitivity.Numpy.{Numpy}
use region_sensitivity.Outcome.{
  Result, ok, err, value_error, type_error, other_error, contract_error, ◌>>=◌,
}
use region_sensitivity.Outcome.Exec.{Exec, pure, raise, lift, try_except, ◌>>=◌ as bind}
use region_sensitivity.Dict.{Dict, get}
use region_sensitivity.Status.{ItemStatus, prepare_failed}
use region_sensitivity.Work.{WorkItem, WorkChunk, is_nil}
use region_sensitivity.Dump.Types.{RegionMeta}
use region_sensitivity.Runtime.Transfer.{ItemMeta, PreparedChunk, FailedChunk}
use region_sensitivity.Runtime.Worker.{WorkerResult, chunk_prepared, chunk_failed}
use region_sensitivity.Runtime.Validate.{validate_failed_chunk, validate_prepared_chunk}
use region_sensitivity.Runtime.Items.{
  Masks, Seeds, derive, PerturbedInferenceItem, check_perturbed_item,
}
use region_sensitivity.Runtime.Failures.{
  PreparationFailure, known_item, preparation_failure, all_failures, item_failures,
}

pub record PreparedWorkChunk (Item : Type 0) : Type 0 where
  pub chunk_id : String
  pub items : List Item
  pub failures : List PreparationFailure
  pub prepared_bytes : ℕ
  pub max_item_bytes : ℕ
  pub failure_message : Option String

-- The lists of the loop over `result.item_metas`.
pub record Normalized (Item : Type 0) : Type 0 where
  pub items : List Item
  pub failures : List PreparationFailure
  pub failure_message : Option String

abbrev sum : List ℕ → ℕ
sum [] = 0
sum (n ∷ ns) = n + sum ns

-- `int(round(total / frames))`, half to even; the mean of no frames is not a number
unfoldable pub round_mean : ℕ → ℕ → Result ℕ
round_mean total frames =
    let quotient = total / frames in
    let remainder = 2 * (total % frames) in
    if frames == 0
    then err (value_error "cannot convert float NaN to integer")
    else if ltb remainder frames || (remainder == frames && quotient % 2 == 0)
    then ok quotient
    else ok (quotient + 1)

abbrev pub is_some : Option String → Bool
is_some none = false
is_some (some _) = true

module _ (numpy : Numpy) (masks : Masks numpy) {W : Type 0}
    (transform_mask : masks.Mask → Exec W (Option masks.Mask)) where
  abbrev pub area_of : Option masks.Mask → Result (Option ℕ)
  area_of none = ok none
  area_of (some mask) =
      let rank = length (masks.mask_shape mask) in
      if masks.is_bool mask && (rank == 2 || rank == 3)
      then (round_mean (sum (masks.frame_counts mask)) (length (masks.frame_counts mask))
          >>= λ area. ok (some area))
      else err (type_error "adapter mask transform must return a bool array")

  -- `_effective_mask_area`
  unfoldable pub effective_mask_area : masks.Mask → Exec W (Option ℕ)
  unfolding round_mean
  effective_mask_area mask = bind (transform_mask mask) λ transformed. lift (area_of transformed)

  -- `try: effective_area = …` / `except Exception`: `none` when it raised
  unfoldable pub try_area : masks.Mask → Exec W (Option (Option ℕ))
  unfolding effective_mask_area
  try_area mask =
      try_except (bind (effective_mask_area mask) λ area. pure (some area)) (λ _. pure none)

  abbrev PerturbedItem : Type 0
  PerturbedItem = PerturbedInferenceItem numpy.Array masks.Mask

  module _ (seeds : Seeds) (global_seed : ℕ) where
    -- a region's measurements, which `ItemMeta` demands of a success
    abbrev pub measured : Option RegionMeta → Result RegionMeta
    measured none = err (contract_error "prepared item lacks region metadata")
    measured (some region_meta) = ok region_meta

    -- `PerturbedInferenceItem(...)`
    unfoldable pub inference_item :
        WorkItem → ItemMeta → numpy.Array → masks.Mask → Option ℕ → Result PerturbedItem
    unfolding derive
    inference_item item meta array mask area = do
      region_meta ← measured meta.region_meta
      seed ← derive seeds global_seed item.item_id item.seed_salt
      check_perturbed_item numpy masks (record {
        work_item = item;
        array = array;
        mask = mask;
        region_meta = region_meta;
        seed_used = seed;
        effective_area_px = area;
      })

    -- `failures.append(...)`, with the message of the first failure
    unfoldable pub append_failure :
        WorkItem → ItemMeta → Normalized PerturbedItem → Result (Normalized PerturbedItem)
    unfolding preparation_failure
    append_failure item meta done =
        preparation_failure seeds global_seed item prepare_failed meta.region_meta >>= λ failure.
        ok (record done {
          failures = done.failures ++ failure ∷ [];
          failure_message =
              if is_some done.failure_message
              then done.failure_message
              else some "adapter mask transform failed";
        })

    abbrev pub append_item : Normalized PerturbedItem → PerturbedItem → Normalized PerturbedItem
    append_item done item = record done { items = done.items ++ item ∷ [] }

    -- the rest of the loop's body after the `try`, and what follows
    abbrev pub after_area :
        Bool
        → (Normalized PerturbedItem → Exec W (Normalized PerturbedItem))
        → WorkItem
        → ItemMeta
        → numpy.Array
        → masks.Mask
        → Normalized PerturbedItem
        → Option (Option ℕ)
        → Exec W (Normalized PerturbedItem)
    after_area fail_fast rest item meta array mask done none =
        bind (lift (append_failure item meta done))
          λ failed. if fail_fast then pure failed else rest failed
    after_area fail_fast rest item meta array mask done (some area) =
        bind (lift (inference_item item meta array mask area)) λ made. rest (append_item done made)

    -- `for index, meta in enumerate(result.item_metas)`
    unfoldable pub normalize_items :
        Bool
        → Dict WorkItem
        → List ItemMeta
        → List numpy.Array
        → List masks.Mask
        → Normalized PerturbedItem
        → Exec W (Normalized PerturbedItem)
    unfolding try_area append_failure inference_item
    normalize_items fail_fast work_items [] arrays ms done = pure done
    normalize_items fail_fast work_items (meta ∷ metas) (array ∷ arrays) (mask ∷ ms) done =
        bind (lift (known_item (get meta.item_id work_items))) λ item. bind (try_area mask) λ area.
          after_area fail_fast (normalize_items fail_fast work_items metas arrays ms) item meta
            array mask done area
    normalize_items fail_fast work_items (meta ∷ metas) _ _ done = raise (other_error "IndexError")

    -- `max(..., default=0)` over arrays and masks in step
    unfoldable pub largest_pair : List numpy.Array → List masks.Mask → ℕ
    largest_pair (array ∷ arrays) (mask ∷ ms) =
        max (masks.array_bytes array + masks.mask_bytes mask) (largest_pair arrays ms)
    largest_pair _ _ = 0

    abbrev pub bytes_of : PreparedChunk numpy.Stacked masks.Mask → ℕ
    bytes_of result = masks.stacked_bytes result.arrays + sum (map masks.mask_bytes result.masks)

    abbrev pub chunk_message : List PreparationFailure → Option String
    chunk_message failures = if is_nil failures then none else some "chunk preparation failed"

    -- the rest of the loop's body for a prepared chunk that is validated
    unfoldable pub normalize_validated :
        Bool
        → WorkChunk
        → PreparedChunk numpy.Stacked masks.Mask
        → Dict WorkItem
        → Exec W (PreparedWorkChunk PerturbedItem)
    unfolding item_failures normalize_items largest_pair
    normalize_validated fail_fast chunk result work_items =
        bind (lift (item_failures seeds global_seed work_items result.failed_items)) λ failures.
          bind
            (if not (is_nil result.failed_items) && fail_fast
              then pure (record {
                items = [];
                failures = failures;
                failure_message = some "chunk preparation failed";
              })
              else normalize_items fail_fast work_items result.item_metas (numpy.rows result.arrays)
                  result.masks
                  (record {
                    items = [];
                    failures = failures;
                    failure_message = chunk_message failures;
                  }))
            λ done. pure (record {
              chunk_id = chunk.chunk_id;
              items = done.items;
              failures = done.failures;
              prepared_bytes = bytes_of result;
              max_item_bytes = largest_pair (numpy.rows result.arrays) result.masks;
              failure_message = done.failure_message;
            })

    -- a chunk that could not be loaded, once it is validated
    unfoldable pub normalize_failed :
        WorkChunk → FailedChunk → Exec W (PreparedWorkChunk PerturbedItem)
    unfolding all_failures
    normalize_failed chunk result =
        bind (lift (all_failures seeds global_seed result.reason chunk.items)) λ failures.
          pure (record {
            chunk_id = chunk.chunk_id;
            items = [];
            failures = failures;
            prepared_bytes = 0;
            max_item_bytes = 0;
            failure_message = some "chunk load failed";
          })

    -- the loop's body, once the chunk of the result is materialized
    unfoldable pub normalize :
        Bool
        → WorkChunk
        → WorkerResult numpy.Stacked masks.Mask
        → Exec W (PreparedWorkChunk PerturbedItem)
    unfolding normalize_failed normalize_validated
    normalize fail_fast chunk (chunk_failed result) =
        bind (lift (validate_failed_chunk result chunk)) λ _. normalize_failed chunk result
    normalize fail_fast chunk (chunk_prepared result) =
        bind (lift (validate_prepared_chunk fail_fast result chunk))
          λ work_items. normalize_validated fail_fast chunk result work_items
