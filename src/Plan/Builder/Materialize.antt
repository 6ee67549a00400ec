-- ===== src/Plan/Builder/Materialize.antt =====
-- Every chunk that is enumerated can be materialized, and is the chunk that its metadata names.
use region_sensitivity.Prelude.{
  ◌≡◌, refl, sym, subst, String, true, false, some, List, [], ◌∷◌, str_eq, eq_iff, arith, all, All,
  All-take, All-drop, ℕ, take, drop, ap, ◌∙◌, map-take, map-drop,
}
use region_sensitivity.Outcome.{ok}
use region_sensitivity.Outcome.Yields.{Yields-use}
use region_sensitivity.Outcome.Exec.{
  Ensures, Ensures-ok, Ensures-bind, Ensures-bind_ok, Ensures-guard,
}
use region_sensitivity.Dict.{Dict, get, is_distinct, is_distinct-take, is_distinct-drop}
use region_sensitivity.Work.{
  WorkItem, WorkChunkMeta, WorkChunk, SampleMeta, check_item, check_meta, check_chunk, is_sha256,
  is_blank, is_nil,
}
use region_sensitivity.Plan.Items.Owned.{Owned}
use region_sensitivity.Plan.Chunks.{Inputs, ChunkLocator, item_ids, load_samples, plan_metas}
use region_sensitivity.Plan.Chunks.Planned.{Describes, IsListed}
use region_sensitivity.Plan.Chunks.Covers.{plan_metas-IsPlan}
use region_sensitivity.Plan.Chunks.Keyed.{items_for-Owned}
use region_sensitivity.Plan.Builder.{Builder, texts_eq, cut, materialize}
use region_sensitivity.Plan.Builder.Caches.{
  IsCoherent, ensure_plan-Gives, items_for_materialize-Gives,
}

str_eq_refl : (s : String) → str_eq s s ≡ true
str_eq_refl s = (eq_iff s s).1 refl

pub texts_eq_refl : (ss : List String) → texts_eq ss ss ≡ true
unfolding texts_eq
texts_eq_refl [] = refl
texts_eq_refl (s ∷ ss) = rw (str_eq_refl s) (texts_eq_refl ss)

record IsNamed (m : WorkChunkMeta) : Type 0 where
  digest : is_sha256 m.chunk_id ≡ true
  sample : is_blank m.sample_id ≡ false
  some_ids : is_nil m.item_ids ≡ false

check_meta-IsNamed : (m : WorkChunkMeta) → check_meta m ≡ ok m → IsNamed m
unfolding check_meta
check_meta-IsNamed m h = record {
  digest = ground arith;
  sample = ground arith;
  some_ids = ground arith;
}

Owned-all :
    (id : String) (items : List WorkItem)
    → Owned id items
    → all (λ (w : WorkItem). str_eq w.sample_id id) items ≡ true
Owned-all id [] h = refl
Owned-all id (w ∷ ws) h = rw ((eq_iff w.sample_id id).1 (h.0.named)) (Owned-all id ws h.1)

own_checked :
    (id : String) (items : List WorkItem)
    → Owned id items
    → All (λ (w : WorkItem). check_item w ≡ ok w) items
own_checked id [] h = tt
own_checked id (w ∷ ws) h = (h.0.checked, own_checked id ws h.1)

-- a cut of items without repetitions
cut-distinct :
    (n start : ℕ) (items : List WorkItem)
    → is_distinct (item_ids items) ≡ true
    → is_distinct (item_ids (take n (drop start items))) ≡ true
cut-distinct n start items h =
    subst (λ ids. is_distinct ids ≡ true)
      (sym (map-take _ n (drop start items) ∙ ap (take n) (map-drop _ start items)))
      (is_distinct-take n _ (is_distinct-drop start _ h))

some_items : (items : List WorkItem) → is_nil (item_ids items) ≡ false → is_nil items ≡ false
some_items [] h = h
some_items (w ∷ ws) h = refl

check_chunk_total :
    (c : WorkChunk)
    → is_sha256 c.chunk_id ≡ true
    → is_blank c.sample_id ≡ false
    → is_nil c.items ≡ false
    → Owned c.sample_id c.items
    → check_chunk c ≡ ok c
unfolding check_chunk
check_chunk_total c digest sample nonempty owned =
    rw (digest, sample, nonempty, Owned-all c.sample_id c.items owned)

-- The chunk has the ids of the metadata, and its items have passed their checks, none twice.
pub record Matches (meta : WorkChunkMeta) (chunk : WorkChunk) : Type 0 where
  pub same_id : chunk.chunk_id ≡ meta.chunk_id
  pub same_sample : chunk.sample_id ≡ meta.sample_id
  pub same_items : item_ids chunk.items ≡ meta.item_ids
  pub digest : is_sha256 meta.chunk_id ≡ true
  pub nonempty : is_nil meta.item_ids ≡ false
  pub distinct : is_distinct meta.item_ids ≡ true
  pub checked : All (λ (w : WorkItem). check_item w ≡ ok w) chunk.items

module _ (inputs : Inputs) where
  abbrev pub Materializes : Builder → WorkChunkMeta → Type 0
  Materializes b meta =
      Ensures (λ chunk t. Matches meta chunk × IsCoherent inputs t) (λ _ _. ⊥)
        (materialize inputs meta.chunk_id) b

  module _ (loaded : List SampleMeta × Dict SampleMeta)
      (is_loaded : load_samples inputs ≡ ok loaded) (plan : List WorkChunkMeta × Dict ChunkLocator)
      (is_plan : plan_metas inputs loaded.1 loaded.0 [] ≡ ok plan) (b : Builder)
      (coherent : IsCoherent inputs b) where
    listed-Materializes :
        (l : ChunkLocator)
        → get l.meta.chunk_id plan.1 ≡ some l
        → Describes inputs loaded.1 l.meta.chunk_id l
        → Materializes b l.meta
    unfolding materialize
    listed-Materializes l listed d =
        let id = l.meta.chunk_id in
        let items = cut inputs l d.items in
        let named = check_meta-IsNamed l.meta d.checked in
        let chunk : WorkChunk = record { chunk_id = id; sample_id = l.sample_id; items = items } in
        let all_owned = items_for-Owned inputs loaded l.sample_id d.items is_loaded d.found in
        let owned : Owned l.sample_id items = All-take _ _ _ (All-drop _ _ _ all_owned.0) in
        let valid : check_chunk chunk ≡ ok chunk =
          check_chunk_total chunk named.digest
            (subst (λ s. is_blank s ≡ false) d.same_sample named.sample)
            (some_items items (subst (λ is. is_nil is ≡ false) (sym d.same_ids) named.some_ids))
            owned in
        Ensures-bind _ _ b (ensure_plan-Gives inputs loaded is_loaded plan is_plan b coherent)
          λ p t (same_plan, h).
            rw (same_plan, listed)
              (Ensures-bind_ok l _ t (
                Ensures-bind _ _ t
                  (items_for_materialize-Gives inputs loaded is_loaded l.sample_id d.items d.found t
                    h)
                  λ all_items u (same_items, k).
                    rw (same_items, d.same_ids)
                      (Ensures-guard _ _ _ u (λ no. cc (no, texts_eq_refl l.meta.item_ids))
                        λ _. rw (d.digest) (
                          Ensures-bind_ok id _ u (
                            Ensures-guard _ _ _ u (λ no. cc (no, str_eq_refl id))
                              λ _. rw valid (
                                Ensures-ok chunk u (
                                  record {
                                    same_id = refl;
                                    same_sample = sym d.same_sample;
                                    same_items = d.same_ids;
                                    digest = named.digest;
                                    nonempty = named.some_ids;
                                    distinct =
                                        subst (λ ids. is_distinct ids ≡ true) d.same_ids
                                          (cut-distinct _ _ d.items all_owned.1);
                                    checked = own_checked l.sample_id items owned;
                                  },
                                  k,
                                )))))))

    -- all of them
    all-Materializes :
        (metas : List WorkChunkMeta)
        → ((id : String) (l : ChunkLocator)
            → get id plan.1 ≡ some l
            → Describes inputs loaded.1 id l)
        → All (IsListed plan.1) metas
        → All (Materializes b) metas
    all-Materializes [] described listed = tt
    all-Materializes (m ∷ ms) described listed =
        let one : Materializes b listed.0.locator.meta =
          let e =
            subst (λ x. get (WorkChunkMeta.chunk_id x) plan.1 ≡ some listed.0.locator)
              (sym listed.0.same) listed.0.found in
          listed-Materializes listed.0.locator e (described _ _ e) in
        (subst (Materializes b) listed.0.same one, all-Materializes ms described listed.1)

  -- Whatever a builder has cached before, as long as its caches hold what would be computed again:
  -- when planning succeeds, `materialize` succeeds for every chunk that is enumerated, the chunk
  -- has the ids of its metadata and at least one item, no item twice and each as its checks demand,
  -- and the caches still hold what would be computed again.
  pub materialize_total :
      (loaded : List SampleMeta × Dict SampleMeta) (plan : List WorkChunkMeta × Dict ChunkLocator)
      (b : Builder)
      → load_samples inputs ≡ ok loaded
      → plan_metas inputs loaded.1 loaded.0 [] ≡ ok plan
      → IsCoherent inputs b
      → All (Materializes b) plan.0
  unfolding get
  materialize_total loaded plan b is_loaded is_plan coherent =
      let is =
        Yields-use _ plan (plan_metas-IsPlan inputs loaded.1 loaded.0 [] (λ id l e. cc)) is_plan in
      all-Materializes loaded is_loaded plan is_plan b coherent plan.0 is.planned.described
        is.planned.listed
