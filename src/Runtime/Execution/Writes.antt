-- ===== src/Runtime/Execution/Writes.antt =====
-- The loops that write records settle what they write, and a run that ends early ends with a fault.
use region_sensitivity.Prelude.{
  ◌≡◌, refl, ◌∙◌, String, Bool, true, false, Option, none, some, List, [], ◌∷◌, ◌++◌, map, All,
  &&_true,
}
use region_sensitivity.Outcome.{Exception, cancelled_error}
use region_sensitivity.Outcome.Exec.{
  Exec, Ensures, Ensures-pure, Ensures-raise, Ensures-bind, Ensures-then, Ensures-bind_ok,
  Ensures-if, Ensures-weaken, ◌>>=◌,
}
use region_sensitivity.Status.{ItemStatus, predict_failed}
use region_sensitivity.Work.{SampleMeta, WorkChunkMeta, is_blank}
use region_sensitivity.Batching.Splitter.{PredictionResult, is_result, output_fits}
use region_sensitivity.Batching.Splitter.Results.{AllResults}
use region_sensitivity.Runtime.Items.{clean_item, perturbed_item}
use region_sensitivity.Runtime.Failures.{PreparationFailure}
use region_sensitivity.Runtime.Environment.{Environment, Run}
use region_sensitivity.Runtime.Run.{
  Item, ask, flush_and_raise, raise_if_cancelled, raise_if_fail_fast, write_outcome_of,
  write_prediction_result, write_prediction_failure, write_preparation_failure, write_load_failure,
}
use region_sensitivity.Runtime.Execution.{
  write_preparation_failures, write_prediction_results, write_prediction_failures,
}
use region_sensitivity.Runtime.Execution.Ledger.{Key, sample_key, item_key}
use region_sensitivity.Runtime.Execution.Promises.{Promises, IsFailure}
use region_sensitivity.Runtime.Execution.Checked.{
  clean_record-checked, load_failure_record-checked, perturbed_record-checked,
  failure_record-checked,
}
use region_sensitivity.Runtime.Execution.Records.{
  Balance, Keeps, unqueue, moved, write_clean_rule, write_perturbed_rule,
}
use region_sensitivity.Runtime.Execution.Zoomed.{on_writer_rule, on_caller_rule}

module _ (env : Environment) {samples : List SampleMeta} {chunks : List WorkChunkMeta}
    (p : Promises env samples chunks) where
  abbrev pub Settles : List Key → List (Item env) → Exec (Run env) Unit → Run env → Type 0
  Settles owed queue m s =
      Ensures (λ _ t. Keeps env p owed queue s t) (λ e _. p.partners.Fault e) m s

  -- one after the other
  pub settle_both :
      (owed owed' : List Key) (queue queue' : List (Item env)) (m : Exec (Run env) Unit)
      (n : Exec (Run env) Unit) (s : Run env)
      → Settles owed queue m s
      → ((t : Run env) → Balance env p owed queue t → Settles owed' queue' n t)
      → Settles owed' queue' (m >>= (λ _. n)) s
  settle_both owed owed' queue queue' m n s h k =
      Ensures-bind _ _ s h λ _ t (b, same).
        Ensures-weaken _ t (k t b) (λ _ u (c, same'). (c, same' ∙ same)) (λ _ _ f. f)

  pub write_outcome_rule :
      (item : Item env) (status : ItemStatus) (output : Option env.Output) (owed : List Key)
      (queue : List (Item env)) (s : Run env)
      → output_fits status output ≡ true
      → Balance env p owed (item ∷ queue) s
      → Settles owed queue (write_outcome_of env item status output) s
  unfolding write_outcome_of
  write_outcome_rule (clean_item sample) status output owed queue s fits b =
      rw (clean_record-checked env sample status output b.ready.0 p.partners.model_named fits) (
        Ensures-bind_ok _ _ s (
          write_clean_rule env p _ owed queue s
            (clean_record-checked env sample status output b.ready.0 p.partners.model_named fits)
            (unqueue env p owed (clean_item sample) queue s b)))
  write_outcome_rule (perturbed_item item) status output owed queue s fits b =
      rw (perturbed_record-checked env item status output b.ready.0 fits) (
        Ensures-bind_ok _ _ s (
          write_perturbed_rule env p _ owed queue s b.ready.0.planned
            (unqueue env p owed (perturbed_item item) queue s b)))

  -- all results of a batch, its items standing first in the queue
  pub write_prediction_results_rule :
      (results : List (PredictionResult (Item env) env.Output)) (owed : List Key)
      (queue : List (Item env)) (s : Run env)
      → AllResults results
      → Balance env p owed (map (λ r. PredictionResult.item r) results ++ queue) s
      → Settles owed queue (write_prediction_results env results) s
  unfolding write_prediction_results write_prediction_result is_result
  write_prediction_results_rule [] owed queue s h b = Ensures-pure tt s (b, refl)
  write_prediction_results_rule (r ∷ rs) owed queue s h b =
      settle_both owed owed (map (λ r. PredictionResult.item r) rs ++ queue) queue _ _ s
        (write_outcome_rule r.item r.status r.output owed _ s (&&_true _ _ h.0).1 b)
        (λ t c. write_prediction_results_rule rs owed queue t h.1 c)

  pub write_prediction_failures_rule :
      (items : List (Item env)) (owed : List Key) (queue : List (Item env)) (s : Run env)
      → Balance env p owed (items ++ queue) s
      → Settles owed queue (write_prediction_failures env items) s
  unfolding write_prediction_failures write_prediction_failure output_fits
  write_prediction_failures_rule [] owed queue s b = Ensures-pure tt s (b, refl)
  write_prediction_failures_rule (item ∷ items) owed queue s b =
      settle_both owed owed (items ++ queue) queue _ _ s
        (write_outcome_rule item predict_failed none owed _ s refl b)
        (λ t c. write_prediction_failures_rule items owed queue t c)

  abbrev pub failure_keys : List PreparationFailure → List Key
  failure_keys failures = map (λ (f : PreparationFailure). item_key f.work_item.item_id) failures

  pub write_preparation_failures_rule :
      (failures : List PreparationFailure) (owed : List Key) (queue : List (Item env)) (s : Run env)
      → All IsFailure failures
      → Balance env p (failure_keys failures ++ owed) queue s
      → Settles owed queue (write_preparation_failures env failures) s
  unfolding write_preparation_failures write_preparation_failure
  write_preparation_failures_rule [] owed queue s h b = Ensures-pure tt s (b, refl)
  write_preparation_failures_rule (f ∷ fs) owed queue s h b =
      settle_both (failure_keys fs ++ owed) owed queue queue _ _ s
        (rw (failure_record-checked env f h.0)
          (Ensures-bind_ok _ _ s (write_perturbed_rule env p _ _ queue s h.0.planned b)))
        (λ t c. write_preparation_failures_rule fs owed queue t h.1 c)

  pub write_load_failure_rule :
      (sample_id : String) (owed : List Key) (queue : List (Item env)) (s : Run env)
      → is_blank sample_id ≡ false
      → Balance env p (sample_key sample_id ∷ owed) queue s
      → Settles owed queue (write_load_failure env sample_id) s
  unfolding write_load_failure
  write_load_failure_rule sample_id owed queue s named b =
      rw (load_failure_record-checked env sample_id named p.partners.model_named) (
        Ensures-bind_ok _ _ s (
          write_clean_rule env p _ owed queue s
            (load_failure_record-checked env sample_id named p.partners.model_named) b))

  -- it does not return
  flush_and_raise_rule :
      {P : Unit → Run env → Type 0} (e : Exception) (owed : List Key) (queue : List (Item env))
      (s : Run env)
      → p.partners.Fault e
      → Balance env p owed queue s
      → Ensures P (λ x _. p.partners.Fault x) (flush_and_raise env e) s
  unfolding flush_and_raise
  flush_and_raise_rule e owed queue s fault b = Ensures-then _ _ s (
      on_writer_rule env _ s (
        Ensures-weaken _ _ (p.on_flush b.log s.writer b.logged) (λ _ d _. Ensures-raise e _ fault)
          (λ x d f. f)))

  -- it returns only without `fail_fast`
  pub slow_rule :
      (message : String) (owed : List Key) (queue : List (Item env)) (s : Run env)
      → Balance env p owed queue s
      → Ensures
          (λ _ t. Keeps env p owed queue s t × (env.runtime.fail_fast ≡ false))
          (λ e _. p.partners.Fault e)
          (raise_if_fail_fast env message)
          s
  unfolding raise_if_fail_fast
  slow_rule message owed queue s b =
      Ensures-if env.runtime.fail_fast _ _ s
        (λ fast. flush_and_raise_rule _ owed queue s (p.partners.on_fail_fast fast message) b)
        (λ slow. Ensures-pure tt s ((b, refl), slow))

  pub raise_if_fail_fast_rule :
      (message : String) (owed : List Key) (queue : List (Item env)) (s : Run env)
      → Balance env p owed queue s
      → Settles owed queue (raise_if_fail_fast env message) s
  raise_if_fail_fast_rule message owed queue s b =
      Ensures-weaken _ s (slow_rule message owed queue s b) (λ _ _ k. k.0) (λ _ _ f. f)

  pub raise_if_cancelled_rule :
      (owed : List Key) (queue : List (Item env)) (s : Run env)
      → Balance env p owed queue s
      → Settles owed queue (raise_if_cancelled env) s
  unfolding raise_if_cancelled
  raise_if_cancelled_rule owed queue s b =
      Ensures-bind _ _ s (go env.callbacks.cancel_requested refl) λ cancelled t (fault, c, same).
        Ensures-if cancelled _ _ t (λ now. flush_and_raise_rule _ owed queue t (fault now) c)
          (λ _. Ensures-pure tt t (c, same))
    where
      go :
          (question : Option (Exec env.CallerState Bool))
          → env.callbacks.cancel_requested ≡ question
          → Ensures
              (λ cancelled t.
                (cancelled ≡ true
                  → p.partners.Fault (cancelled_error "audit execution was cancelled"))
                × Balance env p owed queue t
                × (t.machine ≡ s.machine))
              (λ e _. p.partners.Fault e)
              (ask env question)
              s
      go none e = Ensures-pure false s ((λ h. cc), b, refl)
      go (some question) e = on_caller_rule env _ s (
          Ensures-weaken _ _ (p.partners.on_cancel question e s.caller)
            (λ cancelled c fault. (
              fault,
              moved env p owed queue s (record s { caller = c }) b refl b.cap_valid b.planner_ok
                  refl refl refl,
              refl,
            ))
            (λ x c f. f))
