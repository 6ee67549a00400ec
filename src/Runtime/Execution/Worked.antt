-- ===== src/Runtime/Execution/Worked.antt =====
-- What a worker returns for a pending chunk passes the validation of the main process.
use region_sensitivity.Prelude.{
  ◌≡◌, refl, sym, ap, subst, ◌∙◌, String, Bool, true, false, not, ◌&&◌, ◌||◌, List, [], ◌∷◌, arith,
  All, all, if◌then◌else◌, length,
}
use region_sensitivity.Outcome.{Result, ok, err, contract_error}
use region_sensitivity.Outcome.Yields.{Yields-use}
use region_sensitivity.Dict.{Dict, contains, is_distinct}
use region_sensitivity.Status.{load_failed}
use region_sensitivity.Work.{WorkItem, WorkChunk, WorkChunkMeta, check_item, is_sha256, is_nil}
use region_sensitivity.Dump.Types.{RegionMeta}
use region_sensitivity.Dump.Writer.Calls.{id_of_checked}
use region_sensitivity.Plan.Chunks.{item_ids}
use region_sensitivity.Runtime.Transfer.{
  ItemMeta, PreparedChunk, FailedChunk, check_failed, is_prepare_failed,
}
use region_sensitivity.Runtime.Worker.{
  Attempt, prepared, not_prepared, WorkerResult, chunk_prepared, chunk_failed, prepare_chunk,
  process_loaded,
}
use region_sensitivity.Runtime.Validate.{
  items_by_id, returned, is_failed_prefix, is_complete, validate_prepared_chunk,
}
use region_sensitivity.Runtime.Accepted.Validated.{prepare_chunk-validated}
use region_sensitivity.Runtime.Prepared.{
  Rows, AttemptFits, prepare_chunk_total, IsSoundFit, IsSoundFit,
}
use region_sensitivity.Runtime.Items.{LoadedSample, mask_fits}
use region_sensitivity.Runtime.Normalize.Made.{IsFitting}
use region_sensitivity.Runtime.Normalize.Sorted.{shape_of}
use region_sensitivity.Runtime.Environment.{Environment, SourceResult, sample_loaded, sample_failed}
use region_sensitivity.Runtime.Execution.{as_load}
use region_sensitivity.Runtime.Execution.Promises.{IsLoaded}
use region_sensitivity.Runtime.Execution.Checked.{check_loaded-Facts}

-- A materialized chunk is the one that the metadata names, and has passed its checks.
pub record IsChunkOf (meta : WorkChunkMeta) (chunk : WorkChunk) : Type 0 where
  pub same_id : chunk.chunk_id ≡ meta.chunk_id
  pub same_sample : chunk.sample_id ≡ meta.sample_id
  pub same_items : item_ids chunk.items ≡ meta.item_ids
  pub digest : is_sha256 meta.chunk_id ≡ true
  pub nonempty : is_nil meta.item_ids ≡ false
  pub distinct : is_distinct meta.item_ids ≡ true
  pub checked : All (λ (w : WorkItem). check_item w ≡ ok w) chunk.items

-- An attempt gives an array like the sample's, and a mask that fits it.
pub record IsFaithful (env : Environment) : Type 0 where
  pub on_load :
      (sample_id : String) (sample : LoadedSample env.numpy.Array)
      → env.load sample_id ≡ ok (sample_loaded sample)
      → IsLoaded env sample
  pub on_attempt :
      (sample : LoadedSample env.numpy.Array) (item : WorkItem) (a : env.numpy.Array)
      (k : env.masks.Mask) (region_meta : RegionMeta)
      → env.attempt sample item ≡ prepared a k region_meta
      → (env.numpy.is_uint8 a ≡ true)
        × (env.numpy.shape a ≡ env.numpy.shape sample.array)
        × (mask_fits env.numpy env.masks (env.numpy.shape a) k ≡ true)

module _ {Stacked Mask : Type 0} (fail_fast : Bool) (result : PreparedChunk Stacked Mask) where
  -- the validation, over the expected identifiers and what it returns
  decided : List String → Dict WorkItem → Result (Dict WorkItem)
  decided expected d =
      if not (is_distinct (returned result))
        || not (all (λ id. contains id expected) (returned result))
      then err (contract_error "prepared chunk contains unknown or duplicate item IDs")
      else if fail_fast && not (is_nil result.failed_items)
      then (if is_failed_prefix result expected
          then ok d
          else err (contract_error "fail-fast prepared chunk must return one failed prefix"))
      else if is_complete result expected
      then ok d
      else err (contract_error "prepared chunk omitted or reordered materialized work items")

  decided_other :
      (ids : List String) (d e : Dict WorkItem) → decided ids d ≡ ok d → decided ids e ≡ ok e
  unfolding decided
  decided_other ids d e h = ground arith

  other_items :
      (chunk other : WorkChunk)
      → item_ids chunk.items ≡ item_ids other.items
      → validate_prepared_chunk fail_fast result chunk ≡ ok (items_by_id chunk.items)
      → validate_prepared_chunk fail_fast result other ≡ ok (items_by_id other.items)
  unfolding validate_prepared_chunk decided
  other_items chunk other same h =
      subst (λ ids. decided ids (items_by_id other.items) ≡ ok (items_by_id other.items)) same
        (decided_other (item_ids chunk.items) (items_by_id chunk.items) (items_by_id other.items) h)

module _ (env : Environment) (meta : WorkChunkMeta) where
  -- a prepared chunk, tied to its sample, that is valid for the chunk of the metadata
  pub record IsPreparedFor (result : PreparedChunk env.numpy.Stacked env.masks.Mask) : Type 0 where
    pub sample : LoadedSample env.numpy.Array
    pub rows :
        Rows env.numpy env.masks env.runtime.fail_fast env.attempt
          (shape_of env)
          (IsFitting env)
          sample
          result.item_metas
          (env.numpy.rows result.arrays)
          result.masks
    pub failed : All (λ m. is_prepare_failed (ItemMeta.status m) ≡ true) result.failed_items
    pub same_id : result.chunk_id ≡ meta.chunk_id
    pub valid :
        (chunk : WorkChunk)
        → item_ids chunk.items ≡ meta.item_ids
        → validate_prepared_chunk env.runtime.fail_fast result chunk ≡ ok (items_by_id chunk.items)

  pub record IsFailedFor (result : FailedChunk) : Type 0 where
    pub reason : result.reason ≡ load_failed
    pub same_items : result.item_ids ≡ meta.item_ids
    pub same_id : result.chunk_id ≡ meta.chunk_id

  abbrev pub IsWorked : WorkerResult env.numpy.Stacked env.masks.Mask → Type 0
  IsWorked (chunk_prepared result) = IsPreparedFor result
  IsWorked (chunk_failed result) = IsFailedFor result

  abbrev pub Works : Result (WorkerResult env.numpy.Stacked env.masks.Mask) → Type 0
  Works r =
      (result : WorkerResult env.numpy.Stacked env.masks.Mask) × (r ≡ ok result) × IsWorked result

  attempts_fit :
      (faithful : IsFaithful env) (sample : LoadedSample env.numpy.Array)
      → IsLoaded env sample
      → (item : WorkItem)
      → AttemptFits env.numpy env.masks env.runtime.fail_fast env.attempt
          (shape_of env)
          (IsFitting env)
          sample
          (env.attempt sample item)
  attempts_fit faithful sample loaded item = go (env.attempt sample item) refl
    where
      go :
          (tried : Attempt env.numpy.Array env.masks.Mask)
          → env.attempt sample item ≡ tried
          → AttemptFits env.numpy env.masks env.runtime.fail_fast env.attempt
              (shape_of env)
              (IsFitting env)
              sample
              tried
      go (prepared a k region_meta) e =
          let (uint8, same_shape, mask) = faithful.on_attempt sample item a k region_meta e in
          record {
            uint8 = uint8;
            same_shape = same_shape;
            axes = ap length same_shape ∙ (check_loaded-Facts env.numpy sample loaded.checked).axes;
            mask = mask;
          }
      go (not_prepared region_meta) e = tt

  all_digests :
      (items : List WorkItem)
      → All (λ (w : WorkItem). check_item w ≡ ok w) items
      → All (λ (w : WorkItem). is_sha256 w.item_id ≡ true) items
  all_digests [] h = tt
  all_digests (w ∷ ws) h = (id_of_checked w h.0, all_digests ws h.1)

  sound_fit :
      (sample : LoadedSample env.numpy.Array)
      → IsLoaded env sample
      → IsSoundFit env.numpy env.masks env.runtime.fail_fast env.attempt
          (shape_of env)
          (IsFitting env)
          sample
  sound_fit sample loaded = record {
    axes = (check_loaded-Facts env.numpy sample loaded.checked).axes;
    uint8 = λ a k f. f.uint8;
    shape = λ a k f. f.same_shape;
    mask = λ a k f. subst (λ ns. mask_fits env.numpy env.masks ns k ≡ true) f.same_shape f.mask;
  }

  prepared_Works :
      (faithful : IsFaithful env) (sample : LoadedSample env.numpy.Array) (chunk : WorkChunk)
      → IsLoaded env sample
      → IsChunkOf meta chunk
      → (result : PreparedChunk env.numpy.Stacked env.masks.Mask) × (prepare_chunk env.numpy
            env.masks env.runtime.fail_fast env.attempt
            (shape_of env)
            chunk
            sample
          ≡ ok result)
        × IsPreparedFor result
  prepared_Works faithful sample chunk loaded h =
      let digest : is_sha256 chunk.chunk_id ≡ true =
        subst (λ id. is_sha256 id ≡ true) (sym h.same_id) h.digest in
      let distinct : is_distinct (item_ids chunk.items) ≡ true =
        subst (λ ids. is_distinct ids ≡ true) (sym h.same_items) h.distinct in
      let (result, made, rows, failed, same_id) =
        prepare_chunk_total env.numpy env.masks env.runtime.fail_fast env.attempt (shape_of env)
          (IsFitting env) sample (attempts_fit faithful sample loaded) (sound_fit sample loaded)
          chunk digest (all_digests chunk.items h.checked) in
      let validated =
        Yields-use _ result
          (prepare_chunk-validated env.numpy env.masks env.runtime.fail_fast env.attempt
            (shape_of env) chunk sample distinct)
          made in
      (
        result,
        made,
        record {
          sample = sample;
          rows = rows;
          failed = failed;
          same_id = same_id ∙ h.same_id;
          valid = λ other same.
              other_items env.runtime.fail_fast result chunk other (h.same_items ∙ sym same)
                validated.0;
        },
      )

  all_sha256 :
      (items : List WorkItem)
      → All (λ (w : WorkItem). check_item w ≡ ok w) items
      → all is_sha256 (item_ids items) ≡ true
  all_sha256 [] h = refl
  all_sha256 (w ∷ ws) h = rw (id_of_checked w h.0) (all_sha256 ws h.1)

  abbrev pub IsLoadedOr : SourceResult env.numpy.Array → Type 0
  IsLoadedOr (sample_loaded sample) = IsLoaded env sample
  IsLoadedOr (sample_failed id) = Unit

  pub process_loaded-Works :
      (faithful : IsFaithful env) (chunk : WorkChunk) (found : SourceResult env.numpy.Array)
      → IsLoadedOr found
      → IsChunkOf meta chunk
      → Works (
          process_loaded env.numpy env.masks env.runtime.fail_fast env.attempt
            (shape_of env)
            chunk
            (as_load found))
  unfolding process_loaded check_failed
  process_loaded-Works faithful chunk (sample_loaded sample) loaded h =
      let (result, made, for_chunk) = prepared_Works faithful sample chunk loaded h in
      (chunk_prepared result, rw made refl, for_chunk)
  process_loaded-Works faithful chunk (sample_failed id) loaded h =
      let digest : is_sha256 chunk.chunk_id ≡ true =
        subst (λ id. is_sha256 id ≡ true) (sym h.same_id) h.digest in
      let nonempty : is_nil (item_ids chunk.items) ≡ false =
        subst (λ ids. is_nil ids ≡ false) (sym h.same_items) h.nonempty in
      (
        chunk_failed (record {
          chunk_id = chunk.chunk_id;
          reason = load_failed;
          item_ids = item_ids chunk.items;
        }),
        rw (digest, nonempty, all_sha256 chunk.items h.checked) refl,
        record { reason = refl; same_items = h.same_items; same_id = h.same_id },
      )
