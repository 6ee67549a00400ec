-- ===== src/Plan/Chunks.antt =====
-- The pure part of `_ensure_samples` and `_ensure_plan` of ssat/core/plan/builder.py: what the
-- planner's caches are filled with.
pub mod Planned
pub mod Covers
pub mod Keyed
use Prim.Native.Nat.{Ordering}
use Prim.Native.String.{compare}
use region_sensitivity.Prelude.{
  ℕ, zero, suc, ◌+◌, String, Bool, true, false, Option, none, some, List, [], ◌∷◌, ◌++◌, map,
  if◌then◌else◌, length, ◌==◌, take, drop,
}
use region_sensitivity.Outcome.{Result, ok, err, value_error, plan_build_error, ◌>>=◌, ◌>>◌}
use region_sensitivity.Dict.{Dict, get, put, put_all, is_distinct}
use region_sensitivity.Work.{WorkItem, WorkChunkMeta, SampleMeta, check_meta}
use region_sensitivity.Plan.Config.{PlanConfig}
use region_sensitivity.Plan.Expanders.{Provider}
use region_sensitivity.Plan.Hashing.{Digest, compute_chunk_id}
use region_sensitivity.Plan.Items.{sample_items}

-- What a `PlanBuilder` is constructed with. The sample source is a parameter.
pub record Inputs : Type 0 where
  pub digest : Digest
  pub config : PlanConfig
  pub provider : Provider
  pub list_samples : Result (List SampleMeta)

-- `_ChunkLocator`
pub record ChunkLocator : Type 0 where
  pub sample_id : String
  pub chunk_ordinal : ℕ
  pub meta : WorkChunkMeta

abbrev pub item_ids : List WorkItem → List String
item_ids items = map (λ (w : WorkItem). w.item_id) items

abbrev pub is_nil : {A : Type 0} → List A → Bool
is_nil [] = true
is_nil (_ ∷ _) = false

abbrev pub is_some : {A : Type 0} → Option A → Bool
is_some none = false
is_some (some _) = true

-- `s <= t` on texts
unfoldable pub text_le : String → String → Bool
text_le s t = elim (compare s t) [ Ordering.gt ↦ false | _ ↦ true ]

-- `sorted(samples, key=lambda sample: sample.sample_id)`, a stable sort
unfoldable pub insert_sample : SampleMeta → List SampleMeta → List SampleMeta
unfolding text_le
insert_sample s [] = s ∷ []
insert_sample s (t ∷ ts) =
    if text_le s.sample_id t.sample_id then s ∷ t ∷ ts else t ∷ insert_sample s ts

unfoldable pub sort_samples : List SampleMeta → List SampleMeta
unfolding insert_sample
sort_samples [] = []
sort_samples (s ∷ ss) = insert_sample s (sort_samples ss)

abbrev pub sample_entries : List SampleMeta → List (String × SampleMeta)
sample_entries ss = map (λ (s : SampleMeta). (s.sample_id, s)) ss

-- `except Exception: raise PlanBuildError`
abbrev pub or_plan_error : Result (List SampleMeta) → Result (List SampleMeta)
or_plan_error (ok samples) = ok samples
or_plan_error (err _) = err (plan_build_error "sample_source.list_samples() failed")

-- `_ensure_samples` without its cache: the sorted samples and `_sample_by_id`
unfoldable pub load_samples : Inputs → Result (List SampleMeta × Dict SampleMeta)
unfolding sort_samples
load_samples inputs = do
  samples ← or_plan_error inputs.list_samples
  if is_nil samples
      then err (plan_build_error "work planning requires at least one sample")
      else ok tt
  let ordered = sort_samples samples
  if is_distinct (map (λ (s : SampleMeta). s.sample_id) ordered)
      then ok (ordered, put_all (sample_entries ordered) [])
      else err (plan_build_error "sample_source returned duplicate sample_id values")

module _ (inputs : Inputs) (by_id : Dict SampleMeta) where
  abbrev pub known_sample : Option SampleMeta → Result SampleMeta
  known_sample none = err (plan_build_error "unknown sample_id")
  known_sample (some sample) = ok sample

  -- `_enumerate_items_for_sample`
  unfoldable pub items_for : String → Result (List WorkItem)
  items_for sample_id =
      known_sample (get sample_id by_id)
      >>= sample_items inputs.digest inputs.config inputs.provider

  -- `items[start : start + chunk_size]` for each `start` of `range(0, len(items), chunk_size)`; the
  -- fuel is the number of items, and a chunk size of zero is refused below
  unfoldable pub slices : ℕ → ℕ → List WorkItem → List (List WorkItem)
  slices zero size items = []
  slices (suc fuel) size [] = []
  slices (suc fuel) size (w ∷ ws) = take size (w ∷ ws) ∷ slices fuel size (drop size (w ∷ ws))

  -- the body of the loop over one sample's chunks
  unfoldable pub chunk_metas :
      String
      → ℕ
      → List (List WorkItem)
      → Dict ChunkLocator
      → Result (List WorkChunkMeta × Dict ChunkLocator)
  chunk_metas sample_id ordinal [] locators = ok ([], locators)
  chunk_metas sample_id ordinal (chunk ∷ chunks) locators = do
    chunk_id ←
        compute_chunk_id inputs.digest inputs.config.schema_version sample_id ordinal
          (item_ids chunk)
    meta ←
        check_meta
          (record { chunk_id = chunk_id; sample_id = sample_id; item_ids = item_ids chunk })
    if is_some (get chunk_id locators)
        then err (plan_build_error "duplicate chunk_id generated")
        else ok tt
    rest ← chunk_metas sample_id (ordinal + 1) chunks (
        put chunk_id (record { sample_id = sample_id; chunk_ordinal = ordinal; meta = meta })
          locators)
    ok (meta ∷ rest.0, rest.1)

  -- `for sample in samples`
  unfoldable pub plan_metas :
      List SampleMeta → Dict ChunkLocator → Result (List WorkChunkMeta × Dict ChunkLocator)
  unfolding chunk_metas slices
  plan_metas [] locators = ok ([], locators)
  plan_metas (sample ∷ samples) locators = do
    items ← items_for sample.sample_id
    if inputs.config.variants_per_chunk == 0
        then err (value_error "range() arg 3 must not be zero")
        else ok tt
    first ←
        chunk_metas sample.sample_id 0
          (slices (length items) inputs.config.variants_per_chunk items) locators
    rest ← plan_metas samples first.1
    ok (first.0 ++ rest.0, rest.1)
