-- ===== src/Runtime/Transfer.antt =====
-- What a worker hands to the main process: `ItemMeta`, `PreparedChunk` and `FailedChunk` of
-- ssat/core/runtime/types.py, with the checks of their constructors.
use region_sensitivity.Prelude.{
  ℕ, Bool, true, false, not, ◌&&◌, String, Option, List, [], ◌∷◌, length, all, ◌==◌, if◌then◌else◌,
}
use region_sensitivity.Numpy.{Numpy}
use region_sensitivity.Runtime.Items.{Masks, mask_fits}
use region_sensitivity.Outcome.{Result, ok, err, value_error, type_error, ◌>>=◌}
use region_sensitivity.Status.{ItemStatus, prepare_failed, is_ok}
use region_sensitivity.Work.{is_sha256, is_nil}
use region_sensitivity.Dump.Types.{RegionMeta, is_given}

pub record ItemMeta : Type 0 where
  pub item_id : String
  pub region_meta : Option RegionMeta
  pub status : ItemStatus

-- `ItemMeta.__post_init__`
unfoldable pub check_item_meta : ItemMeta → Result ItemMeta
check_item_meta m =
    if not (is_sha256 m.item_id)
    then err (value_error "item_id must be a lowercase SHA-256 hex digest")
    else if is_ok m.status && not (is_given m.region_meta)
    then err (value_error "successful prepared items require region_meta")
    else ok m

pub record PreparedChunk (Stacked Mask : Type 0) : Type 0 where
  pub chunk_id : String
  pub arrays : Stacked
  pub masks : List Mask
  pub item_metas : List ItemMeta
  pub failed_items : List ItemMeta

-- `meta.status is ItemStatus.PREPARE_FAILED`
unfoldable pub is_prepare_failed : ItemStatus → Bool
is_prepare_failed prepare_failed = true
is_prepare_failed _ = false

module _ (numpy : Numpy) (masks : Masks numpy) where
  -- `for mask in self.masks`
  unfoldable pub check_masks : List ℕ → List masks.Mask → Result (Unit {0})
  check_masks shape [] = ok tt
  check_masks shape (mask ∷ rest) =
      if not (masks.is_bool mask)
      then err (type_error "each mask must be a boolean numpy ndarray")
      else if not (mask_fits numpy masks shape mask)
      then err
          (value_error "each mask must use (H, W) or (T, H, W) layout matching prepared arrays")
      else check_masks shape rest

  -- the statuses of the two lists of reports
  unfoldable pub check_statuses :
      PreparedChunk numpy.Stacked masks.Mask → Result (PreparedChunk numpy.Stacked masks.Mask)
  unfolding is_prepare_failed
  check_statuses c =
      if not (all (λ m. is_ok (ItemMeta.status m)) c.item_metas)
      then err (value_error "item_metas may contain successful items only")
      else if not (all (λ m. is_prepare_failed (ItemMeta.status m)) c.failed_items)
      then err (value_error "failed_items must use prepare_failed status")
      else ok c

  -- `PreparedChunk.__post_init__`
  unfoldable pub check_prepared :
      PreparedChunk numpy.Stacked masks.Mask → Result (PreparedChunk numpy.Stacked masks.Mask)
  unfolding check_masks check_statuses
  check_prepared c =
      if not (is_sha256 c.chunk_id)
      then err (value_error "chunk_id must be a lowercase SHA-256 hex digest")
      else if not (numpy.rows_are_uint8 c.arrays)
      then err (type_error "arrays must have dtype uint8")
      else if not (length (numpy.row_shape c.arrays) == 4)
      then err (value_error "arrays must use (K, T, H, W, C) layout")
      else if not (
          length (numpy.rows c.arrays) == length c.item_metas
          && length c.masks == length c.item_metas)
      then err (value_error "arrays, masks, and successful item_metas must be aligned")
      else check_masks (numpy.row_shape c.arrays) c.masks >>= λ _. check_statuses c

pub record FailedChunk : Type 0 where
  pub chunk_id : String
  pub reason : ItemStatus
  pub item_ids : List String

-- `FailedChunk.__post_init__`
unfoldable pub check_failed : FailedChunk → Result FailedChunk
check_failed c =
    if not (is_sha256 c.chunk_id)
    then err (value_error "chunk_id must be a lowercase SHA-256 hex digest")
    else if is_ok c.reason
    then err (value_error "a failed chunk cannot use ok status")
    else if is_nil c.item_ids
    then err (value_error "item_ids must not be empty")
    else if not (all is_sha256 c.item_ids)
    then err (value_error "item_id must be a lowercase SHA-256 hex digest")
    else ok c
