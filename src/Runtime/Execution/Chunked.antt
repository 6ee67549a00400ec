-- ===== src/Runtime/Execution/Chunked.antt =====
-- What a run pulls of a chunk: its failures are recorded, and its items handed on.
use region_sensitivity.Prelude.{
  ◌≡◌, refl, sym, ap, subst, ◌∙◌, false, not, ◌&&◌, List, [], ◌∷◌, ◌++◌, map, arith, All,
  if◌then◌else◌,
}
use region_sensitivity.Outcome.Exec.{
  pure, ◌>>◌, Ensures, Ensures-pure, Ensures-bind, Ensures-if, Ensures-weaken,
}
use region_sensitivity.Work.{SampleMeta, WorkChunkMeta, is_nil}
use region_sensitivity.Batching.Size.{IsValid}
use region_sensitivity.Runtime.Items.{PerturbedInferenceItem, perturbed_item}
use region_sensitivity.Runtime.Normalize.{PreparedWorkChunk}
use region_sensitivity.Runtime.Environment.{Environment, Run}
use region_sensitivity.Runtime.Run.{Item, raise_if_fail_fast, raise_if_cancelled}
use region_sensitivity.Runtime.Execution.{
  write_preparation_failures, prepare_work_chunk, pull_perturbed, message_of,
}
use region_sensitivity.Runtime.Execution.Ledger.{
  Key, item_key, key_of, tally, tally-append, chunk_keys,
}
use region_sensitivity.Runtime.Execution.Promises.{Promises, IsHydrated, IsReady, IsPrepared}
use region_sensitivity.Runtime.Execution.Records.{Balance, moved}
use region_sensitivity.Runtime.Execution.Writes.{
  failure_keys, write_preparation_failures_rule, slow_rule, raise_if_cancelled_rule,
}
use region_sensitivity.Runtime.Execution.Consume.{wrapped_rule}
use region_sensitivity.Runtime.Execution.Pulls.{regroup, enqueue, Pulled, all_frames}

module _ (env : Environment) {samples : List SampleMeta} {chunks : List WorkChunkMeta}
    (p : Promises env samples chunks) where
  abbrev Perturbed : Type 0
  Perturbed = PerturbedInferenceItem env.numpy.Array env.masks.Mask

  all-IsReady :
      (items : List Perturbed)
      → All (IsHydrated env) items
      → All (IsReady env) (map perturbed_item items)
  all-IsReady [] h = tt
  all-IsReady (i ∷ is) h = (h.0, all-IsReady is h.1)

  perturbed_keys :
      (items : List Perturbed)
      → map key_of (map perturbed_item items)
        ≡ map (λ (i : Perturbed). item_key i.work_item.item_id) items
  perturbed_keys [] = refl
  perturbed_keys (i ∷ is) = ap (λ ks. item_key i.work_item.item_id ∷ ks) (perturbed_keys is)

  abbrev item_keys : PreparedWorkChunk Perturbed → List Key
  item_keys ready = map key_of (map perturbed_item ready.items)

  -- the chunk's keys, by what became of its items
  sorted_keys :
      (meta : WorkChunkMeta) (s t : Run env) (ready : PreparedWorkChunk Perturbed) (owed : List Key)
      (h : IsPrepared env meta s ready t) (k : Key)
      → tally k (failure_keys env p ready.failures ++ (item_keys ready ++ (h.left ++ owed)))
        ≡ tally k (chunk_keys meta ++ owed)
  sorted_keys meta s t ready owed h k =
      let same = ap (tally k) (perturbed_keys ready.items) in
      omega (
        arith,
        same,
        h.balanced k,
        tally-append k (chunk_keys meta) owed,
        tally-append k (failure_keys env p ready.failures) (item_keys ready ++ (h.left ++ owed)),
        tally-append k (item_keys ready) (h.left ++ owed),
        tally-append k h.left owed,
      )

  -- after the failures are recorded, a run that goes on has left no item aside
  goes_on_rule :
      (meta : WorkChunkMeta) (s t u : Run env) (ready : PreparedWorkChunk Perturbed)
      (owed : List Key) (queue : List (Item env)) (h : IsPrepared env meta s ready t)
      → Balance env p (item_keys ready ++ (h.left ++ owed)) queue u
      → Ensures
          (λ _ v. Balance env p (item_keys ready ++ owed) queue v × (v.machine ≡ u.machine))
          (λ e _. p.partners.Fault e)
          (if is_nil ready.failures
            then pure tt
            else raise_if_fail_fast env (message_of env ready.failure_message))
          u
  goes_on_rule meta s t u ready owed queue h b =
      Ensures-if (is_nil ready.failures) _ _ u
        (λ none. Ensures-pure tt u (drop (ground arith) u b, refl))
        λ failed.
          Ensures-weaken _ u
            (slow_rule env p (message_of env ready.failure_message)
              (item_keys ready ++ (h.left ++ owed)) queue u b)
            (λ _ v (c, slow). (drop (rw slow refl) v c.0, c.1)) (λ _ _ f. f)
    where
      drop :
          (env.runtime.fail_fast && not (is_nil ready.failures)) ≡ false
          → (v : Run env) → Balance env p (item_keys ready ++ (h.left ++ owed)) queue v
          → Balance env p (item_keys ready ++ owed) queue v
      drop slow v c =
          subst (λ l. Balance env p (item_keys ready ++ (l ++ owed)) queue v) (h.none_left slow) c

  -- the rest of a round, once the chunk is prepared
  handle_prepared_rule :
      (meta : WorkChunkMeta) (s t : Run env) (ready : PreparedWorkChunk Perturbed) (owed : List Key)
      (queue : List (Item env)) (h : IsPrepared env meta s ready t)
      → Balance env p (chunk_keys meta ++ owed) queue t
      → Ensures
          (Pulled env p owed queue t)
          (λ e _. p.partners.Fault e)
          (raise_if_cancelled env
            >> (write_preparation_failures env ready.failures
                >> ((if is_nil ready.failures
                      then pure tt
                      else raise_if_fail_fast env (message_of env ready.failure_message))
                    >> pure (map perturbed_item ready.items))))
          t
  handle_prepared_rule meta s t ready owed queue h b =
      let items = map perturbed_item ready.items in
      let owes = item_keys ready ++ (h.left ++ owed) in
      let sorted =
        regroup env p (chunk_keys meta ++ owed) (failure_keys env p ready.failures ++ owes) queue t
          (sorted_keys meta s t ready owed h) b in
      Ensures-bind _ _ t (raise_if_cancelled_rule env p _ queue t sorted) λ _ u (c, same).
        Ensures-bind _ _ u
          (write_preparation_failures_rule env p ready.failures owes queue u h.failures c)
          λ _ v (d, same').
            Ensures-bind _ _ v (goes_on_rule meta s t v ready owed queue h d) λ _ w (e, same'').
              Ensures-pure items w (
                enqueue env p items owed queue w (all-IsReady ready.items h.items) e,
                all_frames env p items (all-IsReady ready.items h.items),
                ap (λ m. m.batch_size.current_size) (same'' ∙ same' ∙ same),
              )

  -- The planner prepares a chunk, or a fault may be raised.
  abbrev pub IsPlanned : WorkChunkMeta → Type 0
  IsPlanned meta =
      (s : Run env)
      → p.partners.PlannerOk s.planner_state
      → Ensures (λ ready t. IsPrepared env meta s ready t × p.partners.PlannerOk t.planner_state)
          (λ e _. p.partners.Fault e) (prepare_work_chunk env meta) s

  pub pull_perturbed_rule :
      (meta : WorkChunkMeta) (owed : List Key) (queue : List (Item env)) (s : Run env)
      → IsPlanned meta
      → Balance env p (chunk_keys meta ++ owed) queue s
      → Ensures (Pulled env p owed queue s) (λ e _. p.partners.Fault e) (pull_perturbed env meta) s
  unfolding pull_perturbed
  pull_perturbed_rule meta owed queue s planned b = wrapped_rule env p _ _ s (
      Ensures-bind _ _ s (planned s b.planner_ok) λ ready t (h, planner_ok).
        let c : Balance env p (chunk_keys meta ++ owed) queue t =
          moved env p _ queue s t b h.same_writer (subst IsValid (sym h.same_cap) b.cap_valid)
            planner_ok h.same_clean h.same_perturbed h.same_counts in
        Ensures-weaken _ t (handle_prepared_rule meta s t ready owed queue h c)
          (λ items u (d, frames, kept). (d, frames, kept ∙ ap (λ b. b.current_size) h.same_cap))
          (λ _ _ f. f))
