-- ===== src/Plan/Builder.antt =====
-- `PlanBuilder` of ssat/core/plan/builder.py: the caches, and the public methods.
pub mod Caches
pub mod Materialize
pub mod Enumerate
use region_sensitivity.Prelude.{
  ◌*◌, String, Bool, true, false, Option, none, some, List, [], ◌∷◌, str_eq, if◌then◌else◌, take,
  drop, ◌&&◌,
}
use region_sensitivity.Outcome.{Result, ok, err, plan_build_error}
use region_sensitivity.Outcome.Exec.{Exec, pure, raise, lift, gets, modify, ◌>>=◌, ◌>>◌}
use region_sensitivity.Dict.{Dict, get}
use region_sensitivity.Work.{WorkItem, WorkChunkMeta, WorkChunk, SampleMeta, check_chunk}
use region_sensitivity.Plan.Hashing.{compute_chunk_id}
use region_sensitivity.Plan.Chunks.{
  Inputs, ChunkLocator, item_ids, load_samples, items_for, plan_metas,
}

-- The mutable fields of a `PlanBuilder`: `_samples` and `_sample_by_id` are filled together, and so
-- are `_chunk_metas` and `_chunk_locators`.
pub record Builder : Type 0 where
  pub samples : Option (List SampleMeta × Dict SampleMeta)
  pub chunks : Option (List WorkChunkMeta × Dict ChunkLocator)
  pub last_materialized : Option (String × List WorkItem)

abbrev pub new_builder : Builder
new_builder = record { samples = none; chunks = none; last_materialized = none }

unfoldable pub texts_eq : List String → List String → Bool
texts_eq [] [] = true
texts_eq (s ∷ ss) (t ∷ ts) = str_eq s t && texts_eq ss ts
texts_eq _ _ = false

module _ (inputs : Inputs) where
  abbrev pub load_and_cache : Exec Builder (List SampleMeta × Dict SampleMeta)
  load_and_cache = do
    loaded ← lift (load_samples inputs)
    modify (λ b. record b { samples = some loaded })
    pure loaded

  abbrev pub use_samples :
      Option (List SampleMeta × Dict SampleMeta) → Exec Builder (List SampleMeta × Dict SampleMeta)
  use_samples (some loaded) = pure loaded
  use_samples none = load_and_cache

  -- `_ensure_samples`, with `_sample_by_id` beside the samples
  unfoldable pub ensure_samples : Exec Builder (List SampleMeta × Dict SampleMeta)
  ensure_samples = do cached ← gets (λ b. Builder.samples b); use_samples cached

  abbrev pub plan_and_cache : Exec Builder (List WorkChunkMeta × Dict ChunkLocator)
  plan_and_cache = do
    loaded ← ensure_samples
    plan ← lift (plan_metas inputs loaded.1 loaded.0 [])
    modify (λ b. record b { chunks = some plan })
    pure plan

  abbrev pub use_plan :
      Option (List WorkChunkMeta × Dict ChunkLocator)
      → Exec Builder (List WorkChunkMeta × Dict ChunkLocator)
  use_plan (some plan) = pure plan
  use_plan none = plan_and_cache

  -- `_ensure_plan`
  unfoldable pub ensure_plan : Exec Builder (List WorkChunkMeta × Dict ChunkLocator)
  unfolding ensure_samples
  ensure_plan = do cached ← gets (λ b. Builder.chunks b); use_plan cached

  unfoldable pub enumerate : Exec Builder (List WorkChunkMeta)
  unfolding ensure_plan
  enumerate = do plan ← ensure_plan; pure plan.0

  unfoldable pub enumerate_clean : Exec Builder (List SampleMeta)
  unfolding ensure_samples
  enumerate_clean = do loaded ← ensure_samples; pure loaded.0

  abbrev pub compute_and_cache : String → Exec Builder (List WorkItem)
  compute_and_cache sample_id = do
    loaded ← ensure_samples
    items ← lift (items_for inputs loaded.1 sample_id)
    modify (λ b. record b { last_materialized = some (sample_id, items) })
    pure items

  abbrev pub reuse : String → Option (String × List WorkItem) → Exec Builder (List WorkItem)
  reuse sample_id none = compute_and_cache sample_id
  reuse sample_id (some (cached_id, items)) =
      if str_eq cached_id sample_id then pure items else compute_and_cache sample_id

  -- `_sample_items_for_materialize`
  unfoldable pub items_for_materialize : String → Exec Builder (List WorkItem)
  unfolding ensure_samples
  items_for_materialize sample_id = do
    cached ← gets (λ b. Builder.last_materialized b)
    reuse sample_id cached

  abbrev pub known_locator : Option ChunkLocator → Result ChunkLocator
  known_locator none = err (plan_build_error "unknown chunk_id")
  known_locator (some locator) = ok locator

  -- `all_items[start : start + chunk_size]`
  abbrev pub cut : ChunkLocator → List WorkItem → List WorkItem
  cut locator items =
      let size = inputs.config.variants_per_chunk in
      take size (drop (locator.chunk_ordinal * size) items)

  unfoldable pub materialize : String → Exec Builder WorkChunk
  unfolding ensure_plan items_for_materialize texts_eq
  materialize chunk_id = do
    plan ← ensure_plan
    locator ← lift (known_locator (get chunk_id plan.1))
    all_items ← items_for_materialize locator.sample_id
    let items = cut locator all_items
    if texts_eq (item_ids items) locator.meta.item_ids
        then pure tt
        else raise (plan_build_error "materialized item_ids do not match metadata")
    recomputed ← lift (
        compute_chunk_id inputs.digest inputs.config.schema_version locator.sample_id
          locator.chunk_ordinal (item_ids items))
    if str_eq recomputed chunk_id
        then pure tt
        else raise (plan_build_error "materialized chunk_id does not match requested chunk_id")
    lift
        (check_chunk (record { chunk_id = chunk_id; sample_id = locator.sample_id; items = items }))
