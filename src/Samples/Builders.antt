-- ===== src/Samples/Builders.antt =====
-- The small plan, prepared by the small run.
use region_sensitivity.Prelude.{
  ℕ, ◌≡◌, refl, sym, inl, inr, String, List, All, Bool-cases, str_eq, eq_iff,
}
use region_sensitivity.Work.{WorkChunkMeta}
use region_sensitivity.Plan.Builder.{Builder, new_builder}
use region_sensitivity.Plan.Builder.Caches.{IsCoherent, new_builder-IsCoherent}
use region_sensitivity.Runtime.Execution.{load_or_error, source_id}
use region_sensitivity.Runtime.Execution.Ledger.{Entry}
use region_sensitivity.Runtime.Execution.Planned.{IsPreparedAlways, prepare_work_chunk-IsPrepared}
use region_sensitivity.Samples.Plans.{
  small_inputs, small_loaded, small_plan, small_loaded-eq, small_plan-eq,
}
use region_sensitivity.Samples.Runs.{small_run, in_memory, cats_only}
use region_sensitivity.Samples.Partners.{small_run-IsFaithful, Nothing}

abbrev new_copies : WorkChunkMeta → Builder
new_copies meta = new_builder

new_copies-IsCoherent : (meta : WorkChunkMeta) → IsCoherent small_inputs (new_copies meta)
new_copies-IsCoherent meta = new_builder-IsCoherent small_inputs

cats_answer :
    (sample_id : String) → source_id (load_or_error sample_id (cats_only sample_id)) ≡ sample_id
cats_answer sample_id = elim (Bool-cases (str_eq sample_id "cat")) [
  | inl here ↦ rw here (sym ((eq_iff sample_id "cat").0 here))
  | inr other ↦ rw other refl
]

prepare_work_chunk-IsPrepared_example :
    All
      (IsPreparedAlways small_run small_inputs new_copies new_copies-IsCoherent
        (small_run-IsFaithful (List (Entry ℕ)) in_memory)
        Nothing
        (λ sample_id. inl (cats_answer sample_id)))
      small_plan.0
prepare_work_chunk-IsPrepared_example =
    prepare_work_chunk-IsPrepared small_run small_inputs new_copies new_copies-IsCoherent
      (small_run-IsFaithful (List (Entry ℕ)) in_memory) Nothing
      (λ sample_id. inl (cats_answer sample_id)) small_loaded small_plan small_loaded-eq
      small_plan-eq
