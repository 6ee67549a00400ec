-- ===== src/Runtime/Execution/Planned.antt =====
-- A run whose planner is `PlanBuilder` of ssat/core/plan/builder.py, in the process and, in
-- whatever state its caches are, in each worker.
use region_sensitivity.Prelude.{◌≡◌, true, ◌⊎◌, inl, inr, refl, String, List, [], ◌∷◌, All}
use region_sensitivity.Outcome.{Exception, ok, contract_error}
use region_sensitivity.Outcome.Exec.{Ensures, Ensures-weaken}
use region_sensitivity.Dict.{Dict}
use region_sensitivity.Work.{WorkChunkMeta, SampleMeta}
use region_sensitivity.Plan.Chunks.{Inputs, ChunkLocator, load_samples, plan_metas}
use region_sensitivity.Plan.Builder.{Builder, enumerate, enumerate_clean, materialize}
use region_sensitivity.Plan.Builder.Caches.{IsCoherent}
use region_sensitivity.Plan.Builder.Materialize.{Matches, Materializes, materialize_total}
use region_sensitivity.Runtime.Environment.{Environment, Planner, Run}
use region_sensitivity.Runtime.Run.{is_contract_error}
use region_sensitivity.Runtime.Execution.{load_or_error, source_id, prepare_work_chunk}
use region_sensitivity.Runtime.Execution.Promises.{IsPrepared}
use region_sensitivity.Runtime.Execution.Worked.{IsChunkOf, IsFaithful}
use region_sensitivity.Runtime.Execution.Preparing.{prepare_work_chunk_rule, IsServed}

abbrev pub builder_planner : Inputs → Planner Builder
builder_planner inputs = record {
  enumerate_clean = enumerate_clean inputs;
  enumerate = enumerate inputs;
  materialize = materialize inputs;
}

-- a run that plans with a `PlanBuilder`, and whose workers have these copies of it
abbrev pub with_builder : Environment → Inputs → (WorkChunkMeta → Builder) → Environment
with_builder env inputs copies = record env {
  PlannerState = Builder;
  planner = builder_planner inputs;
  worker_planner = copies;
}

with_builder-IsFaithful :
    (env : Environment) (inputs : Inputs) (copies : WorkChunkMeta → Builder)
    → IsFaithful env
    → IsFaithful (with_builder env inputs copies)
with_builder-IsFaithful env inputs copies faithful = record {
  on_load = λ sample_id sample e.
      let h = faithful.on_load sample_id sample e in
      record { checked = h.checked; positive = h.positive };
  on_attempt = faithful.on_attempt;
}

-- what holds of each member from every good state
all_states :
    {A S : Type 0} (Good : S → Type 0) (P : S → A → Type 0) (xs : List A)
    → ((s : S) → Good s → All (P s) xs)
    → All (λ x. (s : S) → Good s → P s x) xs
all_states Good P [] h = tt
all_states Good P (x ∷ xs) h =
    (λ s good. (h s good).0, all_states Good P xs (λ s good. (h s good).1))

module _ (env : Environment) (inputs : Inputs) (copies : WorkChunkMeta → Builder)
    (copied : (meta : WorkChunkMeta) → IsCoherent inputs (copies meta)) (faithful : IsFaithful env)
    (Fault : Exception → Type 0)
    (answered : (sample_id : String)
      → (source_id (load_or_error sample_id (env.load sample_id)) ≡ sample_id)
        ⊎ ((message : String) → Fault (contract_error message))) where
  abbrev planned_run : Environment
  planned_run = with_builder env inputs copies

  abbrev pub IsPreparedAlways : WorkChunkMeta → Type 0
  IsPreparedAlways meta =
      (s : Run (with_builder env inputs copies))
      → IsCoherent inputs s.planner_state
      → Ensures
          (λ ready t.
            IsPrepared (with_builder env inputs copies) meta s ready t
            × IsCoherent inputs t.planner_state)
          (λ e _. Fault e) (prepare_work_chunk (with_builder env inputs copies) meta) s

  Matches-IsChunkOf : (meta : WorkChunkMeta) (chunk : _) → Matches meta chunk → IsChunkOf meta chunk
  Matches-IsChunkOf meta chunk h = record {
    same_id = h.same_id;
    same_sample = h.same_sample;
    same_items = h.same_items;
    digest = h.digest;
    nonempty = h.nonempty;
    distinct = h.distinct;
    checked = h.checked;
  }

  -- what is raised is a contract error
  abbrev Raised : Exception → Type 0
  Raised e = Fault e × (is_contract_error e ≡ true)

  with_contract :
      {P : Type 0}
      → P ⊎ ((message : String) → Fault (contract_error message))
      → P ⊎ ((message : String) → Raised (contract_error message))
  with_contract (inl same) = inl same
  with_contract (inr fault) = inr (λ message. (fault message, refl))

  served :
      (meta : WorkChunkMeta)
      → ((b : Builder) → IsCoherent inputs b → Materializes inputs b meta)
      → IsServed planned_run (IsCoherent inputs) Raised meta
  served meta h = record {
    materializes = λ b good.
        Ensures-weaken _ b (h b good)
          (λ chunk t (matches, kept). (Matches-IsChunkOf meta chunk matches, kept))
          (λ _ _ f. elim f [ ]);
    worker_ok = copied meta;
    answered = with_contract (answered meta.sample_id);
  }

  all-IsPreparedAlways :
      (metas : List WorkChunkMeta)
      → All (λ meta. (b : Builder) → IsCoherent inputs b → Materializes inputs b meta) metas
      → All IsPreparedAlways metas
  all-IsPreparedAlways [] h = tt
  all-IsPreparedAlways (meta ∷ metas) h = (
    λ s good.
        Ensures-weaken _ s
          (prepare_work_chunk_rule planned_run (IsCoherent inputs) Raised
            (with_builder-IsFaithful env inputs copies faithful) meta (served meta h.0)
            (λ e message raised other. cc (raised.1, other)) s good)
          (λ _ _ k. k) (λ e t raised. raised.0),
    all-IsPreparedAlways metas h.1,
  )

  -- If planning succeeds, the builders of the process and of its workers hold in their caches what
  -- would be computed again, and the source and the attempts keep their promises, then each chunk
  -- that is planned is prepared, from every such state: the planner's part of what a run relies on
  -- holds for `PlanBuilder`, and only faults of the source are raised.
  pub prepare_work_chunk-IsPrepared :
      (loaded : List SampleMeta × Dict SampleMeta) (plan : List WorkChunkMeta × Dict ChunkLocator)
      → load_samples inputs ≡ ok loaded
      → plan_metas inputs loaded.1 loaded.0 [] ≡ ok plan
      → All IsPreparedAlways plan.0
  prepare_work_chunk-IsPrepared loaded plan is_loaded is_plan = all-IsPreparedAlways plan.0 (
      all_states (IsCoherent inputs) (Materializes inputs) plan.0
        (λ b good. materialize_total inputs loaded plan b is_loaded is_plan good))
