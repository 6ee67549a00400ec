-- ===== src/Plan/Builder/Caches.antt =====
-- The caches of a `PlanBuilder` hold what would be computed again.
use region_sensitivity.Prelude.{
  ◌≡◌, refl, sym, subst, ◌∙◌, String, Option, none, some, List, [], str_eq, eq_iff,
}
use region_sensitivity.Outcome.{ok}
use region_sensitivity.Outcome.Exec.{
  Exec, Ensures, Ensures-pure, Ensures-bind, Ensures-then, Ensures-bind_gets, Ensures-bind_ok,
  Ensures-modify, Ensures-if,
}
use region_sensitivity.Dict.{Dict}
use region_sensitivity.Work.{WorkItem, WorkChunkMeta, SampleMeta}
use region_sensitivity.Plan.Chunks.{Inputs, ChunkLocator, load_samples, items_for, plan_metas}
use region_sensitivity.Plan.Builder.{
  Builder, new_builder, use_samples, load_and_cache, ensure_samples, use_plan, plan_and_cache,
  ensure_plan, compute_and_cache, reuse, items_for_materialize,
}

abbrev Loaded : Type 0
Loaded = List SampleMeta × Dict SampleMeta

abbrev Plan : Type 0
Plan = List WorkChunkMeta × Dict ChunkLocator

module _ (inputs : Inputs) where
  pub record IsCoherent (b : Builder) : Type 0 where
    pub samples_cached : (l : Loaded) → b.samples ≡ some l → load_samples inputs ≡ ok l
    pub chunks_cached :
        (l : Loaded) (p : Plan)
        → load_samples inputs ≡ ok l
        → b.chunks ≡ some p
        → plan_metas inputs l.1 l.0 [] ≡ ok p
    pub items_cached :
        (l : Loaded) (id : String) (items : List WorkItem)
        → load_samples inputs ≡ ok l
        → b.last_materialized ≡ some (id, items)
        → items_for inputs l.1 id ≡ ok items

  -- a new builder has no caches
  pub new_builder-IsCoherent : IsCoherent new_builder
  new_builder-IsCoherent = record {
    samples_cached = λ l e. cc;
    chunks_cached = λ l p is_loaded e. cc;
    items_cached = λ l id items is_loaded e. cc;
  }

  -- It returns `a` and raises nothing, and leaves coherent caches.
  abbrev pub Gives : {A : Type 0} → A → Exec Builder A → Builder → Type 0
  Gives a m b = Ensures (λ r t. (r ≡ a) × IsCoherent t) (λ _ _. ⊥) m b

  module _ (loaded : Loaded) (is_loaded : load_samples inputs ≡ ok loaded) where
    ok_loaded : (l : Loaded) → load_samples inputs ≡ ok l → l ≡ loaded
    ok_loaded l e = let both : ok l ≡ ok loaded = sym e ∙ is_loaded in cc

    load_and_cache-Gives : (b : Builder) → IsCoherent b → Gives loaded (load_and_cache inputs) b
    load_and_cache-Gives b h = rw is_loaded (
        Ensures-bind_ok loaded _ b (
          Ensures-then _ _ b (
            Ensures-modify _ b (
              Ensures-pure loaded _ (
                refl,
                record {
                  samples_cached = λ l e.
                      let it : loaded ≡ l = cc in
                      subst (λ x. load_samples inputs ≡ ok x) it is_loaded;
                  chunks_cached = h.chunks_cached;
                  items_cached = h.items_cached;
                },
              )))))

    pub ensure_samples-Gives : (b : Builder) → IsCoherent b → Gives loaded (ensure_samples inputs) b
    unfolding ensure_samples
    ensure_samples-Gives b h = Ensures-bind_gets _ _ b (go b.samples refl)
      where
        go :
            (cached : Option Loaded)
            → b.samples ≡ cached
            → Gives loaded (use_samples inputs cached) b
        go none e = load_and_cache-Gives b h
        go (some l) e = Ensures-pure l b (ok_loaded l (h.samples_cached l e), h)

    module _ (plan : Plan) (is_plan : plan_metas inputs loaded.1 loaded.0 [] ≡ ok plan) where
      plan_and_cache-Gives : (b : Builder) → IsCoherent b → Gives plan (plan_and_cache inputs) b
      plan_and_cache-Gives b h = Ensures-bind _ _ b (ensure_samples-Gives b h) λ l t (same, k).
          let found : plan_metas inputs l.1 l.0 [] ≡ ok plan =
            subst (λ x. plan_metas inputs x.1 x.0 [] ≡ ok plan) (sym same) is_plan in
          rw found (
            Ensures-bind_ok plan _ t (
              Ensures-then _ _ t (
                Ensures-modify _ t (
                  Ensures-pure plan _ (
                    refl,
                    record {
                      samples_cached = k.samples_cached;
                      chunks_cached = λ l' p e cached.
                          let it : plan ≡ p = cc in
                          subst (λ x. plan_metas inputs l'.1 l'.0 [] ≡ ok x) it
                            (subst (λ x. plan_metas inputs x.1 x.0 [] ≡ ok plan)
                              (sym (ok_loaded l' e)) is_plan);
                      items_cached = k.items_cached;
                    },
                  )))))

      pub ensure_plan-Gives : (b : Builder) → IsCoherent b → Gives plan (ensure_plan inputs) b
      unfolding ensure_plan
      ensure_plan-Gives b h = Ensures-bind_gets _ _ b (go b.chunks refl)
        where
          go : (cached : Option Plan) → b.chunks ≡ cached → Gives plan (use_plan inputs cached) b
          go none e = plan_and_cache-Gives b h
          go (some p) e =
              let both : ok p ≡ ok plan = sym (h.chunks_cached loaded p is_loaded e) ∙ is_plan in
              Ensures-pure p b (cc, h)

    module _ (id : String) (items : List WorkItem)
        (found : items_for inputs loaded.1 id ≡ ok items) where
      compute_and_cache-Gives :
          (b : Builder) → IsCoherent b → Gives items (compute_and_cache inputs id) b
      compute_and_cache-Gives b h = Ensures-bind _ _ b (ensure_samples-Gives b h) λ l t (same, k).
          let here : items_for inputs l.1 id ≡ ok items =
            subst (λ x. items_for inputs x.1 id ≡ ok items) (sym same) found in
          rw here (
            Ensures-bind_ok items _ t (
              Ensures-then _ _ t (
                Ensures-modify _ t (
                  Ensures-pure items _ (
                    refl,
                    record {
                      samples_cached = k.samples_cached;
                      chunks_cached = k.chunks_cached;
                      items_cached = λ l' id' items' e cached.
                          let old : String × List WorkItem = (id, items) in
                          let new : String × List WorkItem = (id', items') in
                          let pair : old ≡ new = cc in
                          subst (λ x. items_for inputs l'.1 x.0 ≡ ok x.1) pair
                            (subst (λ x. items_for inputs x.1 id ≡ ok items) (sym (ok_loaded l' e))
                              found);
                    },
                  )))))

      pub items_for_materialize-Gives :
          (b : Builder) → IsCoherent b → Gives items (items_for_materialize inputs id) b
      unfolding items_for_materialize
      items_for_materialize-Gives b h = Ensures-bind_gets _ _ b (go b.last_materialized refl)
        where
          go :
              (cached : Option (String × List WorkItem))
              → b.last_materialized ≡ cached
              → Gives items (reuse inputs id cached) b
          go none e = compute_and_cache-Gives b h
          go (some (cached_id, cached)) e =
              Ensures-if (str_eq cached_id id) _ _ b
                (λ same.
                  let held : items_for inputs loaded.1 id ≡ ok cached =
                    subst (λ x. items_for inputs loaded.1 x ≡ ok cached)
                      ((eq_iff cached_id id).0 same)
                      (h.items_cached loaded cached_id cached is_loaded e) in
                  let both : ok cached ≡ ok items = sym held ∙ found in
                  Ensures-pure cached b (cc, h))
                (λ _. compute_and_cache-Gives b h)
