-- ===== src/Samples/Audits.antt =====
-- The small run as `run_audit`, over a resume index that knows nothing of it.
use region_sensitivity.Prelude.{ℕ, ◌≡◌, ◌⊎◌, refl, true, none, List, [], ◌∷◌, arith}
use region_sensitivity.Outcome.Exec.{Ensures, Ensures-pure}
use region_sensitivity.Work.{WorkChunkMeta, SampleMeta}
use region_sensitivity.Dict.{get}
use region_sensitivity.Dump.Session.{RunManifest}
use region_sensitivity.Resume.{
  ResumeIndex, pending_chunks, pending_clean_samples, needs_work, item_status, clean_status,
}
use region_sensitivity.Runtime.Execution.Ledger.{Entry}
use region_sensitivity.Runtime.Execution.Promises.{Promises}
use region_sensitivity.Runtime.Audit.{AuditConfig, run_audit}
use region_sensitivity.Runtime.Audit.Audited.{
  is_matched, IsRefused, IsAudited, Lists, pending_samples, pending_metas, run_audit-IsAudited,
}
use region_sensitivity.Samples.Dumps.{small_api, empty_manifest}
use region_sensitivity.Samples.Runs.{small_run, at_start, cat_meta, chunk_meta}
use region_sensitivity.Samples.Partners.{small_run-Promises, AnyState, Nothing}

abbrev empty_index : ResumeIndex
empty_index = record { item_locations = []; clean_locations = [] }

abbrev small_audit : AuditConfig small_api
small_audit = record { config = 2; spec = 0; max_batch_size = none }

abbrev one_manifest : List (Entry ℕ) → RunManifest small_api
one_manifest held = empty_manifest

abbrev left_samples : List SampleMeta
left_samples =
    pending_samples small_run small_api one_manifest small_audit empty_index (cat_meta ∷ [])

abbrev left_chunks : List WorkChunkMeta
left_chunks =
    pending_metas small_run small_api one_manifest small_audit empty_index (chunk_meta ∷ [])

abbrev audit_promises : Promises small_run left_samples left_chunks
unfolding pending_chunks pending_clean_samples needs_work item_status clean_status get
audit_promises = small_run-Promises

lists_all :
    Lists small_run small_api one_manifest small_audit AnyState Nothing
      (cat_meta ∷ [])
      (chunk_meta ∷ [])
lists_all = record {
  clean = λ b kept. Ensures-pure _ b (refl, tt);
  perturbed = λ b kept. Ensures-pure _ b (refl, tt);
}

run_audit-IsAudited_example :
    Ensures
      (λ summary t.
        IsAudited small_run small_api one_manifest small_audit audit_promises summary t
        × (is_matched small_run small_api one_manifest small_audit at_start.writer ≡ true))
      (λ e _.
        audit_promises.partners.Fault e
        ⊎ IsRefused small_run small_api one_manifest small_audit at_start.writer e)
      (run_audit small_run small_api one_manifest small_audit empty_index)
      at_start
unfolding audit_promises
run_audit-IsAudited_example =
    run_audit-IsAudited small_run small_api one_manifest small_audit empty_index (cat_meta ∷ [])
      (chunk_meta ∷ []) audit_promises lists_all (omega arith) at_start refl tt
