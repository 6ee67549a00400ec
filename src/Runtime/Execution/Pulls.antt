-- ===== src/Runtime/Execution/Pulls.antt =====
-- What a run pulls: a clean sample, or the items of a chunk, with the records of those that fail.
use region_sensitivity.Prelude.{
  true, false, ◌≡◌, refl, sym, ap, subst, ◌∙◌, ◌⊎◌, inl, inr, String, false, List, [], ◌∷◌, ◌++◌,
  map, map-append, append-nil, arith, All, All-append, Bool-cases, str_eq, eq_iff,
}
use region_sensitivity.Outcome.{Exception, Result, ok, err, contract_error}
use region_sensitivity.Outcome.Exec.{
  Ensures-try, Ensures-if, Ensures-raise, lift, Ensures, Ensures-pure, Ensures-ok, Ensures-err,
  Ensures-bind, Ensures-weaken,
}
use region_sensitivity.Work.{SampleMeta, WorkChunkMeta, is_blank}
use region_sensitivity.Batching.Batch.{IsFrames}
use region_sensitivity.Runtime.Items.{clean_item, item_array}
use region_sensitivity.Runtime.Environment.{
  Environment, SourceResult, sample_loaded, sample_failed, Run,
}
use region_sensitivity.Runtime.Run.{Item, is_contract_error, as_worker_error}
use region_sensitivity.Runtime.Execution.{
  load_or_error, source_id, get_sample, handle_clean, pull_clean, cap,
}
use region_sensitivity.Runtime.Execution.Ledger.{Key, sample_key, key_of, tally, tally-append}
use region_sensitivity.Runtime.Execution.Promises.{Promises, IsLoaded, IsReady}
use region_sensitivity.Runtime.Execution.Checked.{ready-IsFrames}
use region_sensitivity.Runtime.Execution.Records.{Balance}
use region_sensitivity.Runtime.Execution.Writes.{
  write_load_failure_rule, raise_if_fail_fast_rule, raise_if_cancelled_rule,
}
use region_sensitivity.Runtime.Execution.Consume.{wrapped_rule}

module _ (env : Environment) {samples : List SampleMeta} {chunks : List WorkChunkMeta}
    (p : Promises env samples chunks) where
  -- the same keys are owed, in another order or grouping
  pub regroup :
      (owed owed' : List Key) (queue : List (Item env)) (s : Run env)
      → ((k : Key) → tally k owed' ≡ tally k owed)
      → Balance env p owed queue s
      → Balance env p owed' queue s
  regroup owed owed' queue s same b = record {
    log = b.log;
    logged = b.logged;
    balanced = λ k. omega (arith, b.balanced k, same k);
    ready = b.ready;
    cap_valid = b.cap_valid;
    planner_ok = b.planner_ok;
    counted = b.counted;
    by_status = b.by_status;
  }

  -- items that are owed enter the queue
  pub enqueue :
      (items : List (Item env)) (owed : List Key) (queue : List (Item env)) (s : Run env)
      → All (IsReady env) items
      → Balance env p (map key_of items ++ owed) queue s
      → Balance env p owed (queue ++ items) s
  enqueue items owed queue s ready b = record {
    log = b.log;
    logged = b.logged;
    balanced = λ k.
        let split =
          ap (tally k) (map-append key_of queue items)
          ∙ tally-append k (map key_of queue) (map key_of items) in
        omega (arith, split, tally-append k (map key_of items) owed, b.balanced k);
    ready = All-append (IsReady env) queue items b.ready ready;
    cap_valid = b.cap_valid;
    planner_ok = b.planner_ok;
    counted = b.counted;
    by_status = b.by_status;
  }

  -- what a pull hands to the loop over the batches
  abbrev pub Pulled : List Key → List (Item env) → Run env → List (Item env) → Run env → Type 0
  Pulled owed queue s items t =
      Balance env p owed (queue ++ items) t
      × All (IsFrames env.numpy item_array) items
      × (cap env t ≡ cap env s)

  pub all_frames :
      (items : List (Item env))
      → All (IsReady env) items
      → All (IsFrames env.numpy item_array) items
  all_frames [] h = tt
  all_frames (i ∷ is) h = (ready-IsFrames env i h.0, all_frames is h.1)

  -- A sample has a name, and the source answers for it, or else a fault may be raised.
  abbrev pub IsAsked : SampleMeta → Type 0
  IsAsked s =
      (is_blank s.sample_id ≡ false)
      × ((source_id (load_or_error s.sample_id (env.load s.sample_id)) ≡ s.sample_id)
          ⊎ ((message : String) → p.partners.Fault (contract_error message)))

  abbrev IsAnswer : SampleMeta → SourceResult env.numpy.Array → Type 0
  IsAnswer sample (sample_loaded x) = IsLoaded env x × (x.sample_id ≡ sample.sample_id)
  IsAnswer sample (sample_failed id) = id ≡ sample.sample_id

  answers :
      (sample : SampleMeta) (r : Result (SourceResult env.numpy.Array))
      → env.load sample.sample_id ≡ r
      → source_id (load_or_error sample.sample_id r) ≡ sample.sample_id
      → IsAnswer sample (load_or_error sample.sample_id r)
  answers sample (ok (sample_loaded x)) e same = (p.partners.on_load sample.sample_id x e, same)
  answers sample (ok (sample_failed id)) e same = same
  answers sample (err _) e same = refl

  get_sample_rule :
      (sample : SampleMeta) (s : Run env)
      → IsAsked sample
      → Ensures
          (λ result t. IsAnswer sample result × (t ≡ s))
          (λ e _. p.partners.Fault e × (is_contract_error e ≡ true))
          (lift (get_sample env sample))
          s
  unfolding get_sample
  get_sample_rule sample s (named, inl same) =
      let found = answers sample (env.load sample.sample_id) refl same in
      rw ((eq_iff _ _).1 same) (Ensures-ok _ s (found, refl))
  get_sample_rule sample s (named, inr fault) =
      let result = load_or_error sample.sample_id (env.load sample.sample_id) in
      elim (Bool-cases (str_eq (source_id result) sample.sample_id)) [
        | inl here ↦ rw here (
            Ensures-ok _ s
              (answers sample (env.load sample.sample_id) refl ((eq_iff _ _).0 here), refl))
        | inr other ↦ rw other (Ensures-err _ s (fault _, refl))
      ]

  get_worked_sample_rule :
      (message : String) (sample : SampleMeta) (s : Run env)
      → IsAsked sample
      → Ensures
          (λ result t. IsAnswer sample result × (t ≡ s))
          (λ e _. p.partners.Fault e)
          (as_worker_error message (lift (get_sample env sample)))
          s
  unfolding as_worker_error
  get_worked_sample_rule message sample s asked =
      Ensures-try _ _ s (get_sample_rule sample s asked) λ e t raised.
        Ensures-if (is_contract_error e) _ _ t (λ _. Ensures-raise e t raised.0)
          (λ other. Ensures-raise _ t (elim (neither e raised.1 other) [ ]))
    where
      neither : (e : Exception) → is_contract_error e ≡ true → is_contract_error e ≡ false → ⊥
      neither e out other = cc

  handle_clean_rule :
      (sample : SampleMeta) (result : SourceResult env.numpy.Array) (owed : List Key)
      (queue : List (Item env)) (s : Run env)
      → is_blank sample.sample_id ≡ false
      → IsAnswer sample result
      → Balance env p (sample_key sample.sample_id ∷ owed) queue s
      → Ensures (Pulled owed queue s) (λ e _. p.partners.Fault e) (handle_clean env result) s
  unfolding handle_clean
  handle_clean_rule sample (sample_loaded x) owed queue s named h b =
      let ready : All (IsReady env) (clean_item x ∷ []) = (h.0, tt) in
      let owes = subst (λ id. Balance env p (sample_key id ∷ owed) queue s) (sym h.1) b in
      Ensures-pure _ s (
        enqueue (clean_item x ∷ []) owed queue s ready owes,
        all_frames (clean_item x ∷ []) ready,
        refl,
      )
  handle_clean_rule sample (sample_failed id) owed queue s named h b =
      Ensures-bind _ _ s
        (write_load_failure_rule env p id owed queue s
          (subst (λ x. is_blank x ≡ false) (sym h) named)
          (subst (λ x. Balance env p (sample_key x ∷ owed) queue s) (sym h) b))
        λ _ t (c, same).
          Ensures-bind _ _ t (raise_if_fail_fast_rule env p _ owed queue t c) λ _ u (d, same').
            Ensures-pure [] u (
              subst (λ q. Balance env p owed q u) (sym (append-nil queue)) d,
              tt,
              ap (λ m. m.batch_size.current_size) (same' ∙ same),
            )

  pub pull_clean_rule :
      (sample : SampleMeta) (owed : List Key) (queue : List (Item env)) (s : Run env)
      → IsAsked sample
      → Balance env p (sample_key sample.sample_id ∷ owed) queue s
      → Ensures (Pulled owed queue s) (λ e _. p.partners.Fault e) (pull_clean env sample) s
  unfolding pull_clean
  pull_clean_rule sample owed queue s asked b = wrapped_rule env p _ _ s (
      Ensures-bind _ _ s (get_worked_sample_rule _ sample s asked) λ result t (answer, same).
        Ensures-bind _ _ t
          (raise_if_cancelled_rule env p (sample_key sample.sample_id ∷ owed) queue t
            (subst (λ x. Balance env p (sample_key sample.sample_id ∷ owed) queue x) (sym same) b))
          λ _ u (c, same').
            Ensures-weaken _ u (handle_clean_rule sample result owed queue u asked.0 answer c)
              (λ items v (d, frames, kept). (
                d,
                frames,
                kept ∙ ap (λ m. m.batch_size.current_size) same' ∙ ap (λ x. cap env x) same,
              ))
              (λ _ _ f. f))
