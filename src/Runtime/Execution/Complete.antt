-- ===== src/Runtime/Execution/Complete.antt =====
-- A run that returns has recorded each pending sample and each pending item once.
use region_sensitivity.Prelude.{
  ℕ, ◌+◌, ◌≡◌, refl, sym, ap, subst, ◌⊎◌, String, false, List, [], ◌∷◌, ◌++◌, map, arith, All,
  length,
}
use region_sensitivity.Outcome.{contract_error}
use region_sensitivity.Outcome.Exec.{Exec, Ensures, Ensures-bind, Ensures-weaken}
use region_sensitivity.Work.{SampleMeta, WorkChunkMeta, is_blank}
use region_sensitivity.Batching.Size.{IsValid}
use region_sensitivity.Batching.Rebatcher.Rule.{Keeps, rebatch_rule}
use region_sensitivity.Runtime.Items.{item_array}
use region_sensitivity.Status.{ItemStatus}
use region_sensitivity.Runtime.Environment.{Environment, Run}
use region_sensitivity.Runtime.Run.{Item}
use region_sensitivity.Runtime.Execution.{
  load_or_error, source_id, pull_clean, pull_perturbed, consume, cap, run_batches, run_pending,
}
use region_sensitivity.Runtime.Execution.Ledger.{
  Key, sample_key, tally, Entry, entry_key, count_entries, sample_keys, chunk_keys, chunks_keys,
  owed_keys,
}
use region_sensitivity.Runtime.Execution.Promises.{Promises}
use region_sensitivity.Runtime.Execution.Records.{Balance}
use region_sensitivity.Runtime.Execution.Zoomed.{on_writer_rule}
use region_sensitivity.Runtime.Execution.Writes.{raise_if_cancelled_rule}
use region_sensitivity.Runtime.Execution.Consume.{FaultOut, as_contract_error_rule, consume_rule}
use region_sensitivity.Runtime.Execution.Pulls.{Pulled, IsAsked, pull_clean_rule}
use region_sensitivity.Runtime.Execution.Chunked.{IsPlanned, pull_perturbed_rule}

-- what the sources that are left owe, and what comes after them
owes : {Source : Type 0} → (Source → List Key) → List Key → List Source → List Key
owes keys later [] = later
owes keys later (source ∷ sources) = keys source ++ owes keys later sources

module _ (env : Environment) {samples : List SampleMeta} {chunks : List WorkChunkMeta}
    (p : Promises env samples chunks) where
  module _ {Source : Type 0} (keys : Source → List Key) (Ok : Source → Type 0)
      (pull : Source → Exec (Run env) (List (Item env))) (later : List Key) where
    record Goes (rest : List Source) (queue : List (Item env)) (s : Run env) : Type 0 where
      balance : Balance env p (owes keys later rest) queue s
      sources : All Ok rest

    module _
        (pulls : (source : Source) (owed : List Key) (queue : List (Item env)) (s : Run env)
          → Ok source
          → Balance env p (keys source ++ owed) queue s
          → Ensures (Pulled env p owed queue s) (λ e _. p.partners.Fault e) (pull source) s) where
      keeps_Goes :
          Keeps env.numpy item_array (cap env) (consume env) pull Goes (λ e _. p.partners.Fault e)
      unfolding owes
      keeps_Goes = record {
        cap_positive = λ rest queue s g. g.balance.cap_valid.positive;
        on_pull = λ source rest queue s g.
            Ensures-weaken _ s (pulls source (owes keys later rest) queue s g.sources.0 g.balance)
              (λ items t (b, frames, kept).
                (record { balance = b; sources = g.sources.1 }, frames, kept))
              (λ _ _ f. f);
        on_emit = λ batch rest queue s valid fits g.
            Ensures-weaken _ s
              (consume_rule env p batch (owes keys later rest) queue s valid g.balance)
              (λ _ t b. record { balance = b; sources = g.sources }) (λ _ _ f. f);
      }

      run_batches_rule :
          (sources : List Source) (s : Run env)
          → All Ok sources
          → Balance env p (owes keys later sources) [] s
          → Ensures
              (λ _ t. Balance env p later [] t)
              (FaultOut env p)
              (run_batches env pull sources)
              s
      unfolding run_batches owes
      run_batches_rule sources s all_ok b = as_contract_error_rule env p _ _ s (
          Ensures-weaken _ s
            (rebatch_rule env.numpy item_array (cap env) (consume env) pull Goes _ keeps_Goes
              sources s (record { balance = b; sources = all_ok }))
            (λ _ t g. g.balance) (λ _ _ f. f))

abbrev sample_owes : SampleMeta → List Key
sample_owes sample = sample_key sample.sample_id ∷ []

owes_samples :
    (later : List Key) (xs : List SampleMeta) → owes sample_owes later xs ≡ sample_keys xs ++ later
unfolding owes
owes_samples later [] = refl
owes_samples later (x ∷ xs) = ap (λ ks. sample_key x.sample_id ∷ ks) (owes_samples later xs)

owes_chunks : (xs : List WorkChunkMeta) → owes chunk_keys [] xs ≡ chunks_keys xs
unfolding owes chunks_keys
owes_chunks [] = refl
owes_chunks (x ∷ xs) = ap (λ ks. chunk_keys x ++ ks) (owes_chunks xs)

nothing_left : (k : Key) {n m : ℕ} → n + (tally k [] + tally k []) ≡ m → n ≡ m
unfolding tally
nothing_left k h = omega arith

module _ (env : Environment) {samples : List SampleMeta} {chunks : List WorkChunkMeta}
    (p : Promises env samples chunks) where
  -- The writer has been given one record for each sample and each item, and the counters say so.
  pub record IsComplete (s : Run env) : Type 0 where
    pub log : List (Entry env.Output)
    pub logged : p.Logs s.writer log
    pub durable : p.Durable s.writer log
    pub once : (k : Key) → tally k (map entry_key log) ≡ tally k (owed_keys samples chunks)
    pub counted : s.clean_records + s.perturbed_records ≡ length log
    pub by_status : (status : ItemStatus) → s.counts status ≡ count_entries status log

  -- before the first record
  pub record IsFresh (s : Run env) : Type 0 where
    pub logged : p.Logs s.writer []
    pub cap_valid : IsValid s.machine.batch_size
    pub planner_ok : p.partners.PlannerOk s.planner_state
    pub no_records : s.clean_records + s.perturbed_records ≡ 0
    pub no_counts : (status : ItemStatus) → s.counts status ≡ 0

  all-IsAsked :
      (xs : List SampleMeta)
      → All (λ (s : SampleMeta). is_blank s.sample_id ≡ false) xs
      → All
          (λ (s : SampleMeta).
            (source_id (load_or_error s.sample_id (env.load s.sample_id)) ≡ s.sample_id)
            ⊎ ((message : String) → p.partners.Fault (contract_error message)))
          xs
      → All (IsAsked env p) xs
  all-IsAsked [] h k = tt
  all-IsAsked (x ∷ xs) h k = ((h.0, k.0), all-IsAsked xs h.1 k.1)

  start :
      (s : Run env) → IsFresh s → Balance env p (owes sample_owes (chunks_keys chunks) samples) [] s
  unfolding tally count_entries
  start s h = record {
    log = [];
    logged = h.logged;
    balanced = λ k. omega (arith, ap (tally k) (owes_samples (chunks_keys chunks) samples));
    ready = tt;
    cap_valid = h.cap_valid;
    planner_ok = h.planner_ok;
    counted = h.no_records;
    by_status = h.no_counts;
  }

  -- If its collaborators keep their promises, and it starts with a valid batch cap, counters at
  -- zero and a writer that has been given nothing, a run over pending samples and chunks that
  -- returns has given the writer one record for each of the samples and each item of the chunks, as
  -- often as it is listed, and its counters are those of the records. What it raises, lack of fuel
  -- included, is one of the faults that the promises allow.
  pub run_pending-IsComplete :
      (s : Run env)
      → IsFresh s
      → Ensures (λ _ t. IsComplete t) (λ e _. p.partners.Fault e) (run_pending env samples chunks) s
  unfolding run_pending
  run_pending-IsComplete s fresh =
      Ensures-bind _ _ s
        (Ensures-weaken _ s
          (run_batches_rule env p sample_owes (IsAsked env p) (pull_clean env) (chunks_keys chunks)
            (λ sample owed queue t. pull_clean_rule env p sample owed queue t) samples s
            (all-IsAsked samples p.partners.samples_named p.partners.on_mismatch) (start s fresh))
          (λ _ _ b. b) (λ _ _ f. f.0))
        λ _ t b.
          Ensures-bind _ _ t
            (Ensures-weaken _ t
              (run_batches_rule env p chunk_keys (IsPlanned env p) (pull_perturbed env) []
                (λ meta owed queue u. pull_perturbed_rule env p meta owed queue u) chunks t
                p.partners.on_prepare
                (subst (λ ks. Balance env p ks [] t) (sym (owes_chunks chunks)) b))
              (λ _ _ c. c) (λ _ _ f. f.0))
            λ _ u c. Ensures-bind _ _ u (raise_if_cancelled_rule env p [] [] u c) λ _ v (d, _).
              on_writer_rule env _ v (
                Ensures-weaken _ _ (p.on_flush d.log v.writer d.logged)
                  (λ _ w (logged, durable). record {
                    log = d.log;
                    logged = logged;
                    durable = durable;
                    once = λ k. nothing_left k (d.balanced k);
                    counted = d.counted;
                    by_status = d.by_status;
                  })
                  (λ _ _ f. f))
