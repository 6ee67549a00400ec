-- ===== src/Runtime/Execution/Consume.antt =====
-- One batch of `_run_batches`: predicted, and each of its items recorded.
use region_sensitivity.Prelude.{
  ◌≡◌, refl, sym, subst, String, true, not, Option, none, some, List, ◌++◌, map, any, length,
}
use region_sensitivity.Outcome.{
  Exception, Result, ok, err, value_error, type_error, os_error, other_error, execution_error,
  cancelled_error, contract_error, dump_error, dump_corruption_error, dump_schema_error,
  adapter_out_of_memory, plan_build_error, region_expansion_error, out_of_fuel,
}
use region_sensitivity.Outcome.Exec.{
  Exec, Post, Ensures, Ensures-pure, Ensures-raise, Ensures-bind, Ensures-if, Ensures-weaken,
  Ensures-try,
}
use region_sensitivity.Status.{is_ok}
use region_sensitivity.Work.{SampleMeta, WorkChunkMeta}
use region_sensitivity.Batching.Size.{IsValid}
use region_sensitivity.Batching.Batch.{InferenceBatch, IsBatch}
use region_sensitivity.Batching.Splitter.{PredictionResult, Machine, predict}
use region_sensitivity.Batching.Splitter.Results.{AllResults}
use region_sensitivity.Batching.Splitter.Steps.{Returned}
use region_sensitivity.Runtime.Items.{item_array}
use region_sensitivity.Runtime.Environment.{Environment, Run}
use region_sensitivity.Runtime.Run.{Item, as_contract_error, is_execution_error}
use region_sensitivity.Runtime.Execution.{
  settle, predict_batch, record_outcome, consume, failure_message,
}
use region_sensitivity.Runtime.Execution.Ledger.{Key}
use region_sensitivity.Runtime.Execution.Promises.{Promises, Escapes}
use region_sensitivity.Runtime.Execution.Records.{Balance, moved}
use region_sensitivity.Runtime.Execution.Writes.{
  Settles, settle_both, write_prediction_results_rule, write_prediction_failures_rule,
  raise_if_fail_fast_rule, raise_if_cancelled_rule,
}

module _ (env : Environment) {samples : List SampleMeta} {chunks : List WorkChunkMeta}
    (p : Promises env samples chunks) where
  -- what the handler lets out is a fault, and an execution error
  abbrev pub FaultOut : Exception → Run env → Type 0
  FaultOut e t = p.partners.Fault e × (is_execution_error e ≡ true)

  pub as_contract_error_rule :
      {A : Type 0} {P : A → Run env → Type 0} (message : String) (body : Exec (Run env) A)
      (s : Run env)
      → Ensures P (λ e _. p.partners.Fault e) body s
      → Ensures P FaultOut (as_contract_error message body) s
  unfolding as_contract_error
  as_contract_error_rule message body s h = Ensures-try body _ s h λ e t fault.
      Ensures-if (is_execution_error e) _ _ t (λ out. Ensures-raise e t (fault, out))
        (λ other. Ensures-raise _ t (p.partners.on_wrap e message fault other, refl))

  -- the same, where it does not matter that it is an execution error
  pub wrapped_rule :
      {A : Type 0} {P : A → Run env → Type 0} (message : String) (body : Exec (Run env) A)
      (s : Run env)
      → Ensures P (λ e _. p.partners.Fault e) body s
      → Ensures P (λ e _. p.partners.Fault e) (as_contract_error message body) s
  wrapped_rule message body s h =
      Ensures-weaken _ s (as_contract_error_rule message body s h) (λ _ _ k. k) (λ _ _ k. k.0)

  -- a batch has an outcome that belongs to it
  abbrev Belongs : List (Item env) → Option (List (PredictionResult (Item env) env.Output)) → Type 0
  Belongs items none = Unit
  Belongs items (some results) =
      (map (λ r. PredictionResult.item r) results ≡ items) × AllResults results

  settle_rule :
      (batch : InferenceBatch (Item env) env.numpy.Stacked) (owed : List Key)
      (queue : List (Item env)) (s : Run env)
      (r : Result (List (PredictionResult (Item env) env.Output))) (m : Machine env.AdapterState)
      → Balance env p owed queue s
      → Post
          (Returned env.numpy item_array env.adapter batch s.machine.batch_size)
          (λ e t. Escapes p.partners.Fault e × IsValid t.batch_size)
          (r, m)
      → Ensures
          (λ outcome t. Balance env p owed queue t × Belongs batch.items outcome)
          (λ e _. p.partners.Fault e)
          (settle env r)
          (record s { machine = m })
  settle_rule batch owed queue s (ok results) m b h = Ensures-pure _ _ (
    moved env p owed queue s (record s { machine = m }) b refl h.valid b.planner_ok refl refl refl,
    (h.items, h.results),
  )
  settle_rule batch owed queue s (err e) m b h = go e h.0
    where
      after : Balance env p owed queue (record s { machine = m })
      after =
          moved env p owed queue s (record s { machine = m }) b refl h.1 b.planner_ok refl refl refl

      go :
          (e : Exception)
          → Escapes p.partners.Fault e
          → Ensures
              (λ outcome t. Balance env p owed queue t × Belongs batch.items outcome)
              (λ e _. p.partners.Fault e)
              (settle env (err e))
              (record s { machine = m })
      go (contract_error message) fault = Ensures-raise _ _ fault
      go out_of_fuel fault = Ensures-raise _ _ fault
      go (value_error _) fault = Ensures-pure _ _ (after, tt)
      go (type_error _) fault = Ensures-pure _ _ (after, tt)
      go (os_error _) fault = Ensures-pure _ _ (after, tt)
      go (other_error _) fault = Ensures-pure _ _ (after, tt)
      go (execution_error _) fault = Ensures-pure _ _ (after, tt)
      go (cancelled_error _) fault = Ensures-pure _ _ (after, tt)
      go (dump_error _) fault = Ensures-pure _ _ (after, tt)
      go (dump_corruption_error _) fault = Ensures-pure _ _ (after, tt)
      go (dump_schema_error _) fault = Ensures-pure _ _ (after, tt)
      go (adapter_out_of_memory _) fault = Ensures-pure _ _ (after, tt)
      go (plan_build_error _) fault = Ensures-pure _ _ (after, tt)
      go (region_expansion_error _) fault = Ensures-pure _ _ (after, tt)

  predict_batch_rule :
      (batch : InferenceBatch (Item env) env.numpy.Stacked) (owed : List Key)
      (queue : List (Item env)) (s : Run env)
      → IsBatch env.numpy item_array batch
      → Balance env p owed queue s
      → Ensures
          (λ outcome t. Balance env p owed queue t × Belongs batch.items outcome)
          (λ e _. p.partners.Fault e)
          (predict_batch env batch)
          s
  unfolding predict_batch
  predict_batch_rule batch owed queue s valid b =
      let (r, m) = predict env.numpy item_array env.adapter (length batch.items) batch s.machine in
      let answered = p.partners.on_predict batch s.machine valid b.cap_valid in
      let settled = settle_rule batch owed queue s r m b answered.holds in
      record { holds = settled.holds }

  record_outcome_rule :
      (items : List (Item env)) (outcome : Option (List (PredictionResult (Item env) env.Output)))
      (owed : List Key) (queue : List (Item env)) (s : Run env)
      → Belongs items outcome
      → Balance env p owed (items ++ queue) s
      → Settles env p owed queue (record_outcome env items outcome) s
  unfolding record_outcome
  record_outcome_rule items none owed queue s h b =
      settle_both env p owed owed queue queue _ _ s
        (write_prediction_failures_rule env p items owed queue s b)
        (λ t c. raise_if_fail_fast_rule env p _ owed queue t c)
  record_outcome_rule items (some results) owed queue s h b =
      settle_both env p owed owed queue queue _ _ s
        (write_prediction_results_rule env p results owed queue s h.1
          (subst (λ is. Balance env p owed (is ++ queue) s) (sym h.0) b))
        (λ t c.
          Ensures-if (any (λ r. not (is_ok (PredictionResult.status r))) results) _ _ t
            (λ _. raise_if_fail_fast_rule env p (failure_message env results) owed queue t c)
            (λ _. Ensures-pure tt t (c, refl)))

  pub consume_rule :
      (batch : InferenceBatch (Item env) env.numpy.Stacked) (owed : List Key)
      (queue : List (Item env)) (s : Run env)
      → IsBatch env.numpy item_array batch
      → Balance env p owed (batch.items ++ queue) s
      → Ensures
          (λ _ t. Balance env p owed queue t)
          (λ e _. p.partners.Fault e)
          (consume env batch)
          s
  unfolding consume
  consume_rule batch owed queue s valid b =
      Ensures-bind _ _ s (predict_batch_rule batch owed (batch.items ++ queue) s valid b)
        λ outcome t (c, belongs).
          Ensures-bind _ _ t (raise_if_cancelled_rule env p owed (batch.items ++ queue) t c)
            λ _ u (d, _).
              Ensures-weaken _ u (record_outcome_rule batch.items outcome owed queue u belongs d)
                (λ _ _ k. k.0) (λ _ _ k. k)
