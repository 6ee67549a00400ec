-- ===== src/Runtime/Audit/Audited.antt =====
-- A run of `run_audit` that returns has recorded all that was pending, and its summary says so.
use region_sensitivity.Prelude.{
  ℕ, ◌+◌, ◌<◌, ◌≡◌, refl, sym, subst, ◌∙◌, ◌⊎◌, inl, inr, String, Bool, true, false, ◌&&◌, List, [],
  arith, length, length-map,
}
use region_sensitivity.Outcome.{Exception, ok, execution_error}
use region_sensitivity.Runtime.Run.{on_planner}
use region_sensitivity.Outcome.Exec.{
  Exec, ◌>>=◌, Ensures, Ensures-pure, Ensures-raise, Ensures-bind, Ensures-bind_ok,
  Ensures-bind_gets, Ensures-gets, Ensures-modify, Ensures-then, Ensures-guard, Ensures-if,
  Ensures-weaken,
}
use region_sensitivity.Status.{ItemStatus}
use region_sensitivity.Work.{WorkChunkMeta, SampleMeta}
use region_sensitivity.Dump.Session.{ConfigApi, RunManifest}
use region_sensitivity.Resume.{ResumeIndex, pending_chunks, pending_clean_samples}
use region_sensitivity.Batching.Size.{BatchSizeState, new_state, IsValid}
use region_sensitivity.Runtime.Environment.{Environment, Run}
use region_sensitivity.Runtime.Execution.Ledger.{entry_key, count_entries}
use region_sensitivity.Runtime.Execution.Promises.{Promises}
use region_sensitivity.Runtime.Execution.Zoomed.{on_planner_rule}
use region_sensitivity.Runtime.Execution.Complete.{IsComplete, run_pending-IsComplete}
use region_sensitivity.Runtime.Audit.{
  initial_batch_size, total_items, ExecutionSummary, records_written, AuditConfig, check_run,
  start_run, summarize, audit_pending, run_audit,
}
use region_sensitivity.Runtime.Audit.Totals.{same_length, length-owed_keys}

module _ (env : Environment) (api : ConfigApi) (manifest_of : env.WriterState → RunManifest api)
    (audit : AuditConfig api) where
  -- the configuration, the adapter and the writer belong together
  abbrev pub is_matched : env.WriterState → Bool
  is_matched d =
      api.spec_eq audit.spec (api.adapter_spec audit.config)
      && (api.config_eq (manifest_of d).resolved_config audit.config
          && api.spec_eq (manifest_of d).adapter_spec audit.spec)

  abbrev pub IsRefused : env.WriterState → Exception → Type 0
  IsRefused d e = (is_matched d ≡ false) × ((message : String) × (e ≡ execution_error message))

  check_run_rule :
      (s : Run env)
      → Ensures
          (λ _ t. (t ≡ s) × (is_matched s.writer ≡ true))
          (λ e _. IsRefused s.writer e)
          (check_run env api manifest_of audit)
          s
  unfolding check_run
  check_run_rule s =
      Ensures-guard _ _ _ s (λ no. (ground arith, (_, refl)))
        λ yes_. Ensures-bind_gets _ _ s (
          Ensures-guard _ _ _ s (λ no. (ground arith, (_, refl)))
            λ yes'.
              Ensures-if (api.spec_eq (manifest_of s.writer).adapter_spec audit.spec) _ _ s
                (λ yes''. Ensures-pure tt s (refl, ground arith))
                (λ no. Ensures-raise _ s (ground arith, (_, refl))))

  module _ {samples : List SampleMeta} {chunks : List WorkChunkMeta}
      (p : Promises env samples chunks) where
    -- The summary counts what the writer was given, which is what was pending.
    pub record IsAudited (summary : ExecutionSummary) (t : Run env) : Type 0 where
      pub complete : IsComplete env p t
      pub clean_pending : summary.clean_pending ≡ length samples
      pub chunks_pending : summary.chunks_pending ≡ length chunks
      pub all_written : records_written summary ≡ length samples + total_items chunks
      pub by_status :
          (status : ItemStatus)
          → summary.counts_by_status status ≡ count_entries status complete.log

    summarize-IsAudited :
        (t : Run env)
        → IsComplete env p t
        → IsAudited (summarize env api manifest_of audit samples chunks t) t
    summarize-IsAudited t c = record {
      complete = c;
      clean_pending = refl;
      chunks_pending = refl;
      all_written =
          c.counted
          ∙ sym (length-map entry_key c.log)
          ∙ same_length _ _ c.once
          ∙ length-owed_keys samples chunks;
      by_status = c.by_status;
    }

    new_state_ok :
        (n : ℕ) → 0 < n → (state : BatchSizeState) × (new_state n ≡ ok state) × IsValid state
    unfolding new_state
    new_state_ok n h =
        let state : BatchSizeState = record {
          initial_size = n;
          current_size = n;
          oom_events = 0;
        } in
        (state, ground arith, record { positive = h; below_initial = omega arith })

    audit_pending_rule :
        (s : Run env)
        → 0 < initial_batch_size env.runtime.target_batch_size audit.max_batch_size
        → p.Logs s.writer []
        → p.partners.PlannerOk s.planner_state
        → Ensures IsAudited
            (λ e _. p.partners.Fault e)
            (audit_pending env api manifest_of audit samples chunks)
            s
    unfolding audit_pending start_run
    audit_pending_rule s positive logged planner_ok =
        let (state, made, valid) = new_state_ok _ positive in
        rw made (
          Ensures-bind_ok state _ s (
            Ensures-then _ _ s (
              Ensures-modify _ s (
                Ensures-bind _ _ _
                  (run_pending-IsComplete env p _ (record {
                    logged = logged;
                    cap_valid = valid;
                    planner_ok = planner_ok;
                    no_records = refl;
                    no_counts = λ status. refl;
                  }))
                  (λ _ t c. Ensures-gets _ t (summarize-IsAudited t c))))))

  -- What the planner of a run lists, from any state in which it keeps its promises.
  pub record Lists (PlannerOk : env.PlannerState → Type 0) (Fault : Exception → Type 0)
      (samples : List SampleMeta) (chunks : List WorkChunkMeta) : Type 0 where
    pub clean :
        (b : env.PlannerState)
        → PlannerOk b
        → Ensures
            (λ listed t. (listed ≡ samples) × PlannerOk t)
            (λ e _. Fault e)
            env.planner.enumerate_clean
            b
    pub perturbed :
        (b : env.PlannerState)
        → PlannerOk b
        → Ensures
            (λ listed t. (listed ≡ chunks) × PlannerOk t)
            (λ e _. Fault e)
            env.planner.enumerate
            b

  abbrev pub pending_samples : ResumeIndex → List SampleMeta → List SampleMeta
  pending_samples index listed = pending_clean_samples index env.runtime.retry_failed listed

  abbrev pub pending_metas : ResumeIndex → List WorkChunkMeta → List WorkChunkMeta
  pending_metas index listed = pending_chunks index env.runtime.retry_failed listed

  module _ (index : ResumeIndex) (samples : List SampleMeta) (chunks : List WorkChunkMeta)
      (p : Promises env (pending_samples index samples) (pending_metas index chunks))
      (lists : Lists p.partners.PlannerOk p.partners.Fault samples chunks)
      (positive : 0 < initial_batch_size env.runtime.target_batch_size audit.max_batch_size) where
    abbrev Audits : Exec (Run env) ExecutionSummary → Run env → Type 0
    Audits m s = Ensures (λ summary t. IsAudited p summary t) (λ e _. p.partners.Fault e) m s

    -- once the samples are listed
    abbrev then_chunks : List SampleMeta → Exec (Run env) ExecutionSummary
    then_chunks listed = on_planner env env.planner.enumerate >>= λ metas.
        audit_pending env api manifest_of audit (pending_samples index listed)
          (pending_metas index metas)

    then_chunks_rule :
        (s : Run env)
        → p.Logs s.writer []
        → p.partners.PlannerOk s.planner_state
        → Audits (then_chunks samples) s
    then_chunks_rule s logged planner_ok = Ensures-then _ _ s (
        on_planner_rule env _ s (
          Ensures-weaken _ _ (lists.perturbed s.planner_state planner_ok)
            (λ metas b (same, kept).
              subst
                (λ xs.
                  Audits
                    (audit_pending env api manifest_of audit (pending_samples index samples)
                      (pending_metas index xs))
                    (record s { planner_state = b }))
                (sym same)
                (audit_pending_rule p (record s { planner_state = b }) positive logged kept))
            (λ _ _ f. f)))

    listed_rule :
        (s : Run env)
        → p.Logs s.writer []
        → p.partners.PlannerOk s.planner_state
        → Audits (on_planner env env.planner.enumerate_clean >>= then_chunks) s
    listed_rule s logged planner_ok = Ensures-then _ _ s (
        on_planner_rule env _ s (
          Ensures-weaken _ _ (lists.clean s.planner_state planner_ok)
            (λ listed b (same, kept).
              subst (λ xs. Audits (then_chunks xs) (record s { planner_state = b })) (sym same)
                (then_chunks_rule (record s { planner_state = b }) logged kept))
            (λ _ _ f. f)))

    -- A run whose collaborators keep their promises for the work that the resume index leaves of
    -- what the planner lists, with a positive batch size and a writer that has been given nothing:
    -- if it returns, then configuration, adapter and writer were matched, the writer has been given
    -- one record for each pending sample and item, and the summary counts the pending samples and
    -- chunks and as many records as they have samples and items, by their statuses. If it raises,
    -- that is a fault of the collaborators, or an execution error of a run that is not matched.
    pub run_audit-IsAudited :
        (s : Run env)
        → p.Logs s.writer []
        → p.partners.PlannerOk s.planner_state
        → Ensures
            (λ summary t. IsAudited p summary t × (is_matched s.writer ≡ true))
            (λ e _. p.partners.Fault e ⊎ IsRefused s.writer e)
            (run_audit env api manifest_of audit index)
            s
    unfolding run_audit
    run_audit-IsAudited s logged planner_ok =
        Ensures-bind _ _ s (Ensures-weaken _ s (check_run_rule s) (λ _ _ h. h) (λ _ _ f. inr f))
          λ _ t (same, matched).
            Ensures-weaken _ t
              (subst (Audits (on_planner env env.planner.enumerate_clean >>= then_chunks))
                (sym same) (listed_rule s logged planner_ok))
              (λ _ _ h. (h, matched)) (λ _ _ f. inl f)
