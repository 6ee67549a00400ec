-- ===== src/Runtime/Execution/Checked.antt =====
-- The records that a run builds pass the checks of their constructors.
use region_sensitivity.Prelude.{
  ℕ, ◌<◌, ◌^◌, ◌≡◌, refl, ap, sym, ◌∙◌, true, false, Option, none, some, List, [], ◌∷◌, arith, ltb,
  lt→ltb, All, all, length, ◌==◌, ==_iff, String,
}
use region_sensitivity.Numpy.{Numpy}
use region_sensitivity.Outcome.{ok}
use region_sensitivity.Status.{
  ItemStatus, completed, load_failed, prepare_failed, predict_failed, skipped_oom,
}
use region_sensitivity.Work.{is_sha256, is_blank}
use region_sensitivity.Dump.Types.{check_clean, check_perturbed, check_logits}
use region_sensitivity.Batching.Batch.{shape_eq, shape_eq-eq, IsFrames}
use region_sensitivity.Batching.Splitter.{output_fits}
use region_sensitivity.Runtime.Items.{
  Masks, LoadedSample, PerturbedInferenceItem, clean_item, perturbed_item, item_array, check_loaded,
  check_perturbed_item,
}
use region_sensitivity.Runtime.Failures.{PreparationFailure}
use region_sensitivity.Runtime.Environment.{Environment}
use region_sensitivity.Runtime.Run.{
  Item, clean_record, perturbed_record, failure_record, load_failure_record,
}
use region_sensitivity.Runtime.Execution.Promises.{IsLoaded, IsHydrated, IsFailure, IsReady}

all_positive : (ns : List ℕ) → All (λ n. 0 < n) ns → all (ltb 0) ns ≡ true
all_positive [] h = refl
all_positive (n ∷ ns) h = rw (lt→ltb 0 n h.0) (all_positive ns h.1)

logits_fit :
    {Output : Type 0} (status : ItemStatus) (output : Option Output)
    → output_fits status output ≡ true
    → check_logits status output ≡ ok tt
unfolding output_fits check_logits
logits_fit completed none h = cc
logits_fit completed (some o) h = refl
logits_fit load_failed none h = refl
logits_fit load_failed (some o) h = cc
logits_fit prepare_failed none h = refl
logits_fit prepare_failed (some o) h = cc
logits_fit predict_failed none h = refl
logits_fit predict_failed (some o) h = cc
logits_fit skipped_oom none h = refl
logits_fit skipped_oom (some o) h = cc

-- what the checks of a `LoadedSample` say
pub record Facts (numpy : Numpy) (sample : LoadedSample numpy.Array) : Type 0 where
  pub uint8 : numpy.is_uint8 sample.array ≡ true
  pub axes : length (numpy.shape sample.array) ≡ 4
  same_shape : shape_eq (numpy.shape sample.array) sample.original_shape ≡ true
  named : is_blank sample.sample_id ≡ false
  digest : is_sha256 sample.content_hash ≡ true

pub check_loaded-Facts :
    (numpy : Numpy) (sample : LoadedSample numpy.Array)
    → check_loaded numpy sample ≡ ok sample
    → Facts numpy sample
unfolding check_loaded
check_loaded-Facts numpy sample h = record {
  uint8 = ground arith;
  axes = ground arith;
  same_shape = ground arith;
  named = ground arith;
  digest = ground arith;
}

check_perturbed_item-seeded :
    (numpy : Numpy) (masks : Masks numpy) (item : PerturbedInferenceItem numpy.Array masks.Mask)
    → check_perturbed_item numpy masks item ≡ ok item
    → ltb item.seed_used (2 ^ 128) ≡ true
unfolding check_perturbed_item
check_perturbed_item-seeded numpy masks item h = ground arith

module _ (env : Environment) where
  pub clean_record-checked :
      (sample : LoadedSample env.numpy.Array) (status : ItemStatus) (output : Option env.Output)
      → IsLoaded env sample
      → is_blank env.model_id ≡ false
      → output_fits status output ≡ true
      → check_clean (clean_record env sample status output)
        ≡ ok (clean_record env sample status output)
  unfolding check_clean
  clean_record-checked sample status output h model fits =
      let f = check_loaded-Facts env.numpy sample h.checked in
      let shape : numpy_shape ≡ sample.original_shape =
        shape_eq-eq numpy_shape sample.original_shape f.same_shape in
      let four : (length sample.original_shape == 4) ≡ true =
        (==_iff _ _).1 (ap length (sym shape) ∙ f.axes) in
      let positive = all_positive _ h.positive in
      rw (f.named, model, logits_fit status output fits, f.digest, four, positive) (ground arith)
    where
      numpy_shape : List ℕ
      numpy_shape = env.numpy.shape sample.array

  pub load_failure_record-checked :
      (sample_id : String)
      → is_blank sample_id ≡ false
      → is_blank env.model_id ≡ false
      → check_clean (load_failure_record env sample_id) ≡ ok (load_failure_record env sample_id)
  unfolding check_clean check_logits
  load_failure_record-checked sample_id named model = rw (named, model) refl

  pub perturbed_record-checked :
      (item : PerturbedInferenceItem env.numpy.Array env.masks.Mask) (status : ItemStatus)
      (output : Option env.Output)
      → IsHydrated env item
      → output_fits status output ≡ true
      → check_perturbed (perturbed_record env item status output)
        ≡ ok (perturbed_record env item status output)
  unfolding check_perturbed
  perturbed_record-checked item status output h fits =
      let seeded : ltb item.seed_used (2 ^ 128) ≡ true =
        check_perturbed_item-seeded env.numpy env.masks item h.checked in
      rw (logits_fit status output fits) (ground arith)

  pub failure_record-checked :
      (failure : PreparationFailure)
      → IsFailure failure
      → check_perturbed (failure_record env failure) ≡ ok (failure_record env failure)
  unfolding check_perturbed check_logits
  failure_record-checked failure h = rw (h.failed, lt→ltb _ _ h.seeded) refl

  -- what is sent to inference is an array of frames
  pub ready-IsFrames : (item : Item env) → IsReady env item → IsFrames env.numpy item_array item
  unfolding check_perturbed_item
  ready-IsFrames (clean_item sample) h =
      let f = check_loaded-Facts env.numpy sample h.checked in
      record { uint8 = f.uint8; four_axes = f.axes }
  ready-IsFrames (perturbed_item item) h =
      let checked = h.checked in record { uint8 = ground arith; four_axes = ground arith }
