-- ===== src/Runtime/Execution/Records.antt =====
-- Each record that a run writes settles one key that it owes.
use region_sensitivity.Prelude.{
  ℕ, ◌+◌, ◌≡◌, refl, sym, ap, subst, ◌∙◌, Option, none, some, List, [], ◌∷◌, ◌++◌, map, map-append,
  arith, All, length, length-append,
}
use region_sensitivity.Outcome.Exec.{
  Exec, Ensures, Ensures-pure, Ensures-modify, Ensures-then, Ensures-bind_gets, Ensures-weaken,
}
use region_sensitivity.Status.{ItemStatus}
use region_sensitivity.Dump.Types.{CleanDumpRecord, PerturbedDumpRecord}
use region_sensitivity.Dump.Writer.Calls.{IsCheckedClean, IsCheckedPerturbed}
use region_sensitivity.Batching.Size.{IsValid}
use region_sensitivity.Runtime.Environment.{Environment, Run}
use region_sensitivity.Runtime.Run.{
  count_one, Item, call_progress, report_progress, write_clean, write_perturbed,
}
use region_sensitivity.Runtime.Execution.Ledger.{
  Key, sample_key, item_key, tally, tally-append, Entry, clean_entry, item_entry, entry_key,
  entry_status, count_entries, count_entries-append, key_of, owed_keys,
}
use region_sensitivity.Runtime.Execution.Promises.{Promises, IsReady, IsWithin}
use region_sensitivity.Work.{SampleMeta, WorkChunkMeta}
use region_sensitivity.Runtime.Execution.Zoomed.{on_writer_rule, on_caller_rule}

module _ (env : Environment) {samples : List SampleMeta} {chunks : List WorkChunkMeta}
    (p : Promises env samples chunks) where
  -- The keys that the run owes at first are those of the log, those in the queue and those still
  -- owed. The counters are those of the log.
  pub record Balance (owed : List Key) (queue : List (Item env)) (s : Run env) : Type 0 where
    pub log : List (Entry env.Output)
    pub logged : p.Logs s.writer log
    pub balanced :
        (k : Key)
        → tally k (map entry_key log) + (tally k (map key_of queue) + tally k owed)
          ≡ tally k (owed_keys samples chunks)
    pub ready : All (IsReady env) queue
    pub cap_valid : IsValid s.machine.batch_size
    pub planner_ok : p.partners.PlannerOk s.planner_state
    pub counted : s.clean_records + s.perturbed_records ≡ length log
    pub by_status : (status : ItemStatus) → s.counts status ≡ count_entries status log

  -- an item of the queue is one of those owed
  pub unqueue :
      (owed : List Key) (item : Item env) (queue : List (Item env)) (s : Run env)
      → Balance owed (item ∷ queue) s
      → Balance (key_of item ∷ owed) queue s
  unfolding tally
  unqueue owed item queue s b = record {
    log = b.log;
    logged = b.logged;
    balanced = λ k. omega (arith, b.balanced k);
    ready = b.ready.1;
    cap_valid = b.cap_valid;
    planner_ok = b.planner_ok;
    counted = b.counted;
    by_status = b.by_status;
  }

  -- another state with the same writer and counters
  pub moved :
      (owed : List Key) (queue : List (Item env)) (s t : Run env)
      → Balance owed queue s
      → t.writer ≡ s.writer
      → IsValid t.machine.batch_size
      → p.partners.PlannerOk t.planner_state
      → t.clean_records ≡ s.clean_records
      → t.perturbed_records ≡ s.perturbed_records
      → t.counts ≡ s.counts
      → Balance owed queue t
  moved owed queue s t b w v o c q n = record {
    log = b.log;
    logged = subst (λ d. p.Logs d b.log) (sym w) b.logged;
    balanced = b.balanced;
    ready = b.ready;
    cap_valid = v;
    planner_ok = o;
    counted = omega (arith, c, q, b.counted);
    by_status = λ status. ap (λ f. f status) n ∙ b.by_status status;
  }

  -- the keys and the counters once `entry` is logged
  entered :
      (owed : List Key) (queue : List (Item env)) (s t : Run env) (entry : Entry env.Output)
      (b : Balance (entry_key entry ∷ owed) queue s)
      → p.Logs t.writer (b.log ++ entry ∷ [])
      → t.machine ≡ s.machine
      → t.planner_state ≡ s.planner_state
      → t.clean_records + t.perturbed_records ≡ s.clean_records + s.perturbed_records + 1
      → t.counts ≡ count_one (entry_status entry) s.counts
      → Balance owed queue t
  unfolding tally count_entries count_one
  entered owed queue s t entry b logged m o c n = record {
    log = b.log ++ entry ∷ [];
    logged = logged;
    balanced = λ k.
        let split =
          ap (tally k) (map-append entry_key b.log (entry ∷ []))
          ∙ tally-append k (map entry_key b.log) (entry_key entry ∷ []) in
        omega (arith, split, b.balanced k);
    ready = b.ready;
    cap_valid = subst (λ x. IsValid x.batch_size) (sym m) b.cap_valid;
    planner_ok = subst (λ x. p.partners.PlannerOk x) (sym o) b.planner_ok;
    counted = omega (arith, length-append b.log (entry ∷ []), b.counted, c);
    by_status = λ status.
        let here = ap (λ f. f status) n in
        let grown = count_entries-append status b.log (entry ∷ []) in
        omega (arith, here, grown, b.by_status status);
  }

  -- the log may take the entry that is owed next
  within :
      (owed : List Key) (queue : List (Item env)) (s : Run env) (entry : Entry env.Output)
      (b : Balance (entry_key entry ∷ owed) queue s)
      → IsWithin samples chunks (b.log ++ entry ∷ [])
  unfolding tally
  within owed queue s entry b k =
      let split =
        ap (tally k) (map-append entry_key b.log (entry ∷ []))
        ∙ tally-append k (map entry_key b.log) (entry_key entry ∷ []) in
      omega (arith, split, b.balanced k)

  abbrev pub Keeps : List Key → List (Item env) → Run env → Run env → Type 0
  Keeps owed queue s t = Balance owed queue t × (t.machine ≡ s.machine)

  report_progress_rule :
      (owed : List Key) (queue : List (Item env)) (s : Run env)
      → Balance owed queue s
      → Ensures (λ _ t. Keeps owed queue s t) (λ e _. p.partners.Fault e) (report_progress env) s
  unfolding report_progress
  report_progress_rule owed queue s b =
      Ensures-bind_gets _ _ s (Ensures-bind_gets _ _ s (go env.callbacks.progress refl))
    where
      go :
          (callback : Option (ℕ → ℕ → Exec env.CallerState Unit))
          → env.callbacks.progress ≡ callback
          → Ensures
              (λ _ t. Keeps owed queue s t)
              (λ e _. p.partners.Fault e)
              (call_progress env callback (s.clean_records + s.perturbed_records) s.total_records)
              s
      go none e = Ensures-pure tt s (b, refl)
      go (some callback) e = on_caller_rule env _ s (
          Ensures-weaken _ _ (p.partners.on_progress callback e _ _ s.caller)
            (λ _ c _. (
              moved owed queue s (record s { caller = c }) b refl b.cap_valid b.planner_ok refl refl
                  refl,
              refl,
            ))
            (λ x t f. f))

  pub write_clean_rule :
      (r : CleanDumpRecord env.Output) (owed : List Key) (queue : List (Item env)) (s : Run env)
      → IsCheckedClean r
      → Balance (sample_key r.sample_id ∷ owed) queue s
      → Ensures (λ _ t. Keeps owed queue s t) (λ e _. p.partners.Fault e) (write_clean env r) s
  unfolding write_clean
  write_clean_rule r owed queue s checked b = Ensures-then _ _ s (
      on_writer_rule env _ s (
        Ensures-weaken _ _
          (p.on_write_clean r b.log s.writer checked (within owed queue s (clean_entry r) b)
            b.logged)
          (λ _ d logged.
            let after : Run env = record s {
              writer = d;
              clean_records = s.clean_records + 1;
              counts = count_one r.status s.counts;
            } in
            let grown : after.clean_records + after.perturbed_records
                ≡ s.clean_records + s.perturbed_records + 1 =
              omega arith in
            Ensures-then _ _ _ (
              Ensures-modify _ _ (
                Ensures-weaken _ _
                  (report_progress_rule owed queue after
                    (entered owed queue s after (clean_entry r) b logged refl refl grown refl))
                  (λ _ t h. h) (λ x t f. f))))
          (λ x t f. f)))

  pub write_perturbed_rule :
      (r : PerturbedDumpRecord env.Output) (owed : List Key) (queue : List (Item env)) (s : Run env)
      → IsCheckedPerturbed r
      → Balance (item_key r.work_item.item_id ∷ owed) queue s
      → Ensures (λ _ t. Keeps owed queue s t) (λ e _. p.partners.Fault e) (write_perturbed env r) s
  unfolding write_perturbed
  write_perturbed_rule r owed queue s checked b = Ensures-then _ _ s (
      on_writer_rule env _ s (
        Ensures-weaken _ _
          (p.on_write_perturbed r b.log s.writer checked (within owed queue s (item_entry r) b)
            b.logged)
          (λ _ d logged.
            let after : Run env = record s {
              writer = d;
              perturbed_records = s.perturbed_records + 1;
              counts = count_one r.status s.counts;
            } in
            let grown : after.clean_records + after.perturbed_records
                ≡ s.clean_records + s.perturbed_records + 1 =
              omega arith in
            Ensures-then _ _ _ (
              Ensures-modify _ _ (
                Ensures-weaken _ _
                  (report_progress_rule owed queue after
                    (entered owed queue s after (item_entry r) b logged refl refl grown refl))
                  (λ _ t h. h) (λ x t f. f))))
          (λ x t f. f)))
