-- ===== src/Runtime/Normalize/Made.antt =====
-- The records and inference items that the normalization makes of one planned item.
use region_sensitivity.Prelude.{
  ℕ, ◌<◌, ◌^◌, ◌≡◌, refl, ◌∙◌, String, Bool, true, false, Option, none, some, List, [], ◌∷◌, map,
  ltb, lt→ltb, ◌==◌, ==_iff, if◌then◌else◌, All, length, Bool-cases, inl, inr, str_eq, eq_iff,
}
use region_sensitivity.Outcome.{ok}
use region_sensitivity.Dict.{Dict, get, get-put_all, last_entry, contains}
use region_sensitivity.Status.{ItemStatus, is_ok}
use region_sensitivity.Work.{WorkItem, check_item}
use region_sensitivity.Dump.Types.{RegionMeta}
use region_sensitivity.Dump.Writer.Calls.{id_of_checked}
use region_sensitivity.Plan.Chunks.{item_ids}
use region_sensitivity.Runtime.Validate.{items_by_id}
use region_sensitivity.Runtime.Transfer.{ItemMeta}
use region_sensitivity.Runtime.Items.{
  LoadedSample, derive, PerturbedInferenceItem, mask_fits, check_perturbed_item,
}
use region_sensitivity.Runtime.Normalize.{inference_item}
use region_sensitivity.Runtime.Failures.{PreparationFailure, preparation_failure}
use region_sensitivity.Runtime.Prepared.{IsRow}
use region_sensitivity.Runtime.Environment.{Environment}
use region_sensitivity.Runtime.Execution.Promises.{IsHydrated, IsFailure}

-- The chunk has this item, by its identifier.
pub record IsKnown (work_items : Dict WorkItem) (id : String) : Type 0 where
  pub item : WorkItem
  pub found : get id work_items ≡ some item
  pub named : item.item_id ≡ id
  pub checked : check_item item ≡ ok item

module _ (id : String) where
  abbrev Found : Option WorkItem → Type 0
  Found o = (w : WorkItem) × (o ≡ some w) × (w.item_id ≡ id) × (check_item w ≡ ok w)

  abbrev with_ids : List WorkItem → List (String × WorkItem)
  with_ids items = map (λ (w : WorkItem). (w.item_id, w)) items

  stays-Found :
      (items : List WorkItem) (o : Option WorkItem)
      → All (λ (w : WorkItem). check_item w ≡ ok w) items
      → Found o
      → Found (last_entry id (with_ids items) o)
  unfolding last_entry
  stays-Found [] o h f = f
  stays-Found (w ∷ ws) o h f =
      stays-Found ws (if str_eq w.item_id id then some w else o) h.1
        (elim (Bool-cases (str_eq w.item_id id)) [
          | inl here ↦ rw here (w, refl, (eq_iff _ _).0 here, h.0)
          | inr other ↦ rw other f
        ])

  last_entry-Found :
      (items : List WorkItem) (o : Option WorkItem)
      → All (λ (w : WorkItem). check_item w ≡ ok w) items
      → contains id (item_ids items) ≡ true
      → Found (last_entry id (with_ids items) o)
  unfolding last_entry contains
  last_entry-Found [] o h c = cc
  last_entry-Found (w ∷ ws) o h c = elim (Bool-cases (str_eq w.item_id id)) [
    | inl here ↦
        stays-Found ws (if str_eq w.item_id id then some w else o) h.1
          (rw here (w, refl, (eq_iff _ _).0 here, h.0))
    | inr other ↦
        last_entry-Found ws (if str_eq w.item_id id then some w else o) h.1 (rw other at c)
  ]

pub items_by_id-IsKnown :
    (items : List WorkItem) (id : String)
    → All (λ (w : WorkItem). check_item w ≡ ok w) items
    → contains id (item_ids items) ≡ true
    → IsKnown (items_by_id items) id
unfolding get
items_by_id-IsKnown items id h c =
    let (w, e, named, checked) = last_entry-Found id items none h c in
    record {
      item = w;
      found = get-put_all id (with_ids id items) [] ∙ e;
      named = named;
      checked = checked;
    }

-- What an attempt gives for a sample: a uint8 array of the sample's four axes, and a mask that
-- fits.
pub record IsFitting (env : Environment) (sample : LoadedSample env.numpy.Array)
    (a : env.numpy.Array) (k : env.masks.Mask) : Type 0 where
  pub uint8 : env.numpy.is_uint8 a ≡ true
  pub same_shape : env.numpy.shape a ≡ env.numpy.shape sample.array
  pub axes : length (env.numpy.shape a) ≡ 4
  pub mask : mask_fits env.numpy env.masks (env.numpy.shape a) k ≡ true

module _ (env : Environment) (item : WorkItem) (checked : check_item item ≡ ok item) where
  seed : ℕ
  seed = env.seeds.first_bytes env.runtime.global_seed item.item_id item.seed_salt

  seed-lt : seed < 2 ^ 128
  unfolding seed
  seed-lt = env.seeds.first_bytes-lt _ _ _

  derived : derive env.seeds env.runtime.global_seed item.item_id item.seed_salt ≡ ok seed
  unfolding derive seed
  derived = rw (id_of_checked item checked) refl

  pub preparation_failure_total :
      (status : ItemStatus) (region_meta : Option RegionMeta)
      → is_ok status ≡ false
      → (failure : PreparationFailure) × (preparation_failure env.seeds env.runtime.global_seed item
            status region_meta
          ≡ ok failure)
        × IsFailure failure
        × (failure.work_item ≡ item)
  unfolding preparation_failure
  preparation_failure_total status region_meta bad = (
    record { work_item = item; status = status; seed_used = seed; region_meta = region_meta },
    rw derived refl,
    record { planned = checked; seeded = seed-lt; failed = bad },
    refl,
  )

  pub inference_item_total :
      (ff : Bool) (attempt_shape : LoadedSample env.numpy.Array → List ℕ)
      (sample : LoadedSample env.numpy.Array) (meta : ItemMeta) (a : env.numpy.Array)
      (k : env.masks.Mask) (area : Option ℕ)
      → IsRow env.numpy env.masks ff env.attempt attempt_shape (IsFitting env) sample meta a k
      → (made : PerturbedInferenceItem env.numpy.Array env.masks.Mask) × (inference_item env.numpy
            env.masks env.transform_mask env.seeds env.runtime.global_seed item meta a k area
          ≡ ok made)
        × IsHydrated env made
        × (made.work_item ≡ item)
  unfolding inference_item check_perturbed_item
  inference_item_total ff attempt_shape sample meta a k area h =
      let made : PerturbedInferenceItem env.numpy.Array env.masks.Mask = record {
        work_item = item;
        array = a;
        mask = k;
        region_meta = h.region_meta;
        seed_used = seed;
        effective_area_px = area;
      } in
      let four : (length (env.numpy.shape a) == 4) ≡ true = (==_iff _ _).1 h.fits.axes in
      let bounded : ltb seed (2 ^ 128) ≡ true = lt→ltb _ _ seed-lt in
      let valid : check_perturbed_item env.numpy env.masks made ≡ ok made =
        rw (h.fits.uint8, four, h.fits.mask, bounded) refl in
      (made, rw (h.measured, derived) valid, record { planned = checked; checked = valid }, refl)
