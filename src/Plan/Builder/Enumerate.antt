-- ===== src/Plan/Builder/Enumerate.antt =====
-- `enumerate` puts every item of every sample in one chunk.
use region_sensitivity.Prelude.{◌≡◌, sym, subst, ◌<◌, ◌≤◌, List, [], All}
use region_sensitivity.Outcome.{ok}
use region_sensitivity.Outcome.Yields.{Yields-use}
use region_sensitivity.Outcome.Exec.{Ensures, Ensures-pure, Ensures-bind}
use region_sensitivity.Dict.{Dict, get}
use region_sensitivity.Work.{WorkItem, WorkChunkMeta, SampleMeta, n_items}
use region_sensitivity.Plan.Chunks.{Inputs, ChunkLocator, item_ids, load_samples, plan_metas}
use region_sensitivity.Plan.Chunks.Planned.{planned_ids}
use region_sensitivity.Plan.Chunks.Covers.{all_items, plan_metas-IsPlan}
use region_sensitivity.Plan.Builder.{Builder, enumerate}
use region_sensitivity.Plan.Builder.Caches.{IsCoherent, ensure_plan-Gives}

module _ (inputs : Inputs) where
  -- The chunks hold the items of the samples, in order, none more than it may.
  pub record Covers (loaded : List SampleMeta × Dict SampleMeta) (metas : List WorkChunkMeta)
      : Type 0 where
    pub items : List WorkItem
    pub enumerated : all_items inputs loaded.1 loaded.0 ≡ ok items
    pub in_order : planned_ids metas ≡ item_ids items
    pub sized : All (λ m. (0 < n_items m) × (n_items m ≤ inputs.config.variants_per_chunk)) metas

  -- When planning succeeds, `enumerate` returns, from caches that hold what would be computed
  -- again: the item ids of its chunks, one chunk after the other, are those of the items of the
  -- samples, one sample after the other, and each chunk has at least one item and at most
  -- `variants_per_chunk`. The caches still hold what would be computed again.
  pub enumerate_total :
      (loaded : List SampleMeta × Dict SampleMeta) (plan : List WorkChunkMeta × Dict ChunkLocator)
      (b : Builder)
      → load_samples inputs ≡ ok loaded
      → plan_metas inputs loaded.1 loaded.0 [] ≡ ok plan
      → IsCoherent inputs b
      → Ensures
          (λ metas t. Covers loaded metas × IsCoherent inputs t)
          (λ _ _. ⊥)
          (enumerate inputs)
          b
  unfolding enumerate get
  enumerate_total loaded plan b is_loaded is_plan coherent =
      let is =
        Yields-use _ plan (plan_metas-IsPlan inputs loaded.1 loaded.0 [] (λ id l e. cc)) is_plan in
      let covers : Covers loaded plan.0 = record {
        items = is.items;
        enumerated = is.enumerated;
        in_order = is.planned.covers;
        sized = is.planned.sized;
      } in
      Ensures-bind _ _ b (ensure_plan-Gives inputs loaded is_loaded plan is_plan b coherent)
        λ p t (same, h). Ensures-pure p.0 t (subst (λ x. Covers loaded x.0) (sym same) covers, h)
