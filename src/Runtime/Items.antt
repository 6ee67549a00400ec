-- ===== src/Runtime/Items.antt =====
-- What the main process sends to inference: `CleanInferenceItem` and `PerturbedInferenceItem` of
-- ssat/core/runtime/types.py over `LoadedSample` of ssat/core/source/types.py, and the item-local
-- seed of ssat/core/perturb/rng.py.
use region_sensitivity.Prelude.{
  ℕ, ◌^◌, ◌<◌, String, Bool, not, ◌&&◌, ◌||◌, Option, List, [], ◌∷◌, ltb, ◌==◌, if◌then◌else◌,
  length,
}
use region_sensitivity.Numpy.{Numpy}
use region_sensitivity.Outcome.{Result, ok, err, value_error}
use region_sensitivity.Work.{WorkItem, is_sha256, is_blank}
use region_sensitivity.Dump.Types.{RegionMeta}
use region_sensitivity.Batching.Batch.{shape_eq}

-- The masks, which are numpy arrays: `frame_counts` has the number of set pixels of each frame of a
-- (T, H, W) mask, and of the whole of a (H, W) mask.
pub record Masks (numpy : Numpy) : Type 1 where
  pub Mask : Type 0
  pub mask_shape : Mask → List ℕ
  pub is_bool : Mask → Bool
  pub frame_counts : Mask → List ℕ
  pub mask_bytes : Mask → ℕ
  pub array_bytes : numpy.Array → ℕ
  pub stacked_bytes : numpy.Stacked → ℕ

-- The first 16 bytes, as a number, of the SHA-256 digest of the namespace, the global seed, the
-- item and the salt.
pub record Seeds : Type 0 where
  pub first_bytes : ℕ → String → ℕ → ℕ
  pub first_bytes-lt :
      (seed : ℕ) (item_id : String) (salt : ℕ) → first_bytes seed item_id salt < 2 ^ 128

-- `derive`; a seed and a salt are natural numbers here
unfoldable pub derive : Seeds → ℕ → String → ℕ → Result ℕ
derive seeds global_seed item_id seed_salt =
    if is_sha256 item_id
    then ok (seeds.first_bytes global_seed item_id seed_salt)
    else err (value_error "item_id must be a 64-character lowercase SHA-256 hex digest")

pub record LoadedSample (Array : Type 0) : Type 0 where
  pub array : Array
  pub sample_id : String
  pub original_shape : List ℕ
  pub content_hash : String
  pub gt_label : Option ℕ

pub record PerturbedInferenceItem (Array Mask : Type 0) : Type 0 where
  pub work_item : WorkItem
  pub array : Array
  pub mask : Mask
  pub region_meta : RegionMeta
  pub seed_used : ℕ
  pub effective_area_px : Option ℕ

pub data InferenceItem (Array Mask : Type 0) : Type 0 where
  clean_item : LoadedSample Array → InferenceItem Array Mask
  perturbed_item : PerturbedInferenceItem Array Mask → InferenceItem Array Mask

-- `item.array`
abbrev pub item_array : {Array Mask : Type 0} → InferenceItem Array Mask → Array
item_array (clean_item sample) = sample.array
item_array (perturbed_item item) = item.array

-- (T, H, W) and (H, W) of a (T, H, W, C) shape
abbrev frame_shapes : List ℕ → List ℕ × List ℕ
frame_shapes (t ∷ h ∷ w ∷ _) = (h ∷ w ∷ [], t ∷ h ∷ w ∷ [])
frame_shapes _ = ([], [])

module _ (numpy : Numpy) where
  -- `LoadedSample.__post_init__`
  unfoldable pub check_loaded : LoadedSample numpy.Array → Result (LoadedSample numpy.Array)
  check_loaded s =
      if not (numpy.is_uint8 s.array)
      then err (value_error "array must have dtype uint8")
      else if not (length (numpy.shape s.array) == 4)
      then err (value_error "array must use (T, H, W, C) layout")
      else if not (shape_eq (numpy.shape s.array) s.original_shape)
      then err (value_error "original_shape must match array.shape")
      else if is_blank s.sample_id
      then err (value_error "sample_id must not be empty")
      else if not (is_sha256 s.content_hash)
      then err (value_error "content_hash must be a lowercase SHA-256 hex digest")
      else ok s

  module _ (masks : Masks numpy) where
    -- `mask.dtype == np.bool_`, and its shape is one of the two
    unfoldable pub mask_fits : List ℕ → masks.Mask → Bool
    mask_fits shape mask =
        let (plane, frames) = frame_shapes shape in
        masks.is_bool mask
        && (shape_eq (masks.mask_shape mask) plane || shape_eq (masks.mask_shape mask) frames)

    -- `PerturbedInferenceItem.__post_init__`; an area is a natural number here
    unfoldable pub check_perturbed_item :
        PerturbedInferenceItem numpy.Array masks.Mask
        → Result (PerturbedInferenceItem numpy.Array masks.Mask)
    unfolding mask_fits
    check_perturbed_item item =
        if not (numpy.is_uint8 item.array && length (numpy.shape item.array) == 4)
        then err (value_error "array must be (T, H, W, C) uint8")
        else if not (mask_fits (numpy.shape item.array) item.mask)
        then err (value_error "mask must be (H, W) or (T, H, W) bool matching array")
        else if not (ltb item.seed_used (2 ^ 128))
        then err (value_error "seed_used must be an unsigned 128-bit integer")
        else ok item
