-- ===== src/Runtime/Execution/Preparing.antt =====
-- `prepare_work_chunk` keeps the promise that the run relies on, if the planner and the source keep
-- theirs.
use region_sensitivity.Prelude.{
  ◌≡◌, refl, sym, ap, subst, ◌∙◌, ◌⊎◌, inl, inr, String, true, false, ◌&&◌, str_eq, eq_iff,
  if◌then◌else◌, Bool-cases,
}
use region_sensitivity.Outcome.{Exception, Result, ok, err, contract_error, ◌>>=◌ as and_then}
use region_sensitivity.Outcome.Exec.{
  Exec, Post, lift, ◌>>=◌, Ensures-try, Ensures-if, Ensures-raise, Ensures-then, Ensures,
  Ensures-ok, Ensures-err, Ensures-bind, Ensures-bind_ok, Ensures-weaken,
}
use region_sensitivity.Status.{is_ok}
use region_sensitivity.Work.{WorkChunk, WorkChunkMeta}
use region_sensitivity.Plan.Chunks.{item_ids}
use region_sensitivity.Plan.Builder.{texts_eq}
use region_sensitivity.Plan.Builder.Materialize.{texts_eq_refl}
use region_sensitivity.Batching.Splitter.{on_world}
use region_sensitivity.Runtime.Transfer.{FailedChunk}
use region_sensitivity.Runtime.Worker.{
  WorkerResult, chunk_prepared, chunk_failed, loaded_id, process_chunk,
}
use region_sensitivity.Runtime.Validate.{validate_failed_chunk}
use region_sensitivity.Runtime.Normalize.{normalize}
use region_sensitivity.Runtime.Normalize.Sorted.{shape_of}
use region_sensitivity.Runtime.Normalize.Balanced.{IsBalanced, normalize_failed_rule}
use region_sensitivity.Runtime.Normalize.Validated.{normalize_validated_rule}
use region_sensitivity.Runtime.Environment.{
  Environment, SourceResult, sample_loaded, sample_failed, Run,
}
use region_sensitivity.Runtime.Run.{on_planner, on_machine, as_worker_error, is_contract_error}
use region_sensitivity.Runtime.Execution.{
  load_or_error, source_id, as_load, result_chunk_id, get_chunk, prepare_work_chunk,
}
use region_sensitivity.Runtime.Execution.Promises.{IsPrepared}
use region_sensitivity.Runtime.Execution.Zoomed.{zoom_rule, on_planner_rule}
use region_sensitivity.Runtime.Execution.Worked.{
  IsChunkOf, IsFaithful, IsFailedFor, IsWorked, IsLoadedOr, process_loaded-Works,
}

-- What the planner promises for a chunk, in the main process and in the worker, and the source for
-- its sample.
pub record IsServed (env : Environment) (PlannerOk : env.PlannerState → Type 0)
    (Fault : Exception → Type 0) (meta : WorkChunkMeta) : Type 0 where
  pub materializes :
      (b : env.PlannerState)
      → PlannerOk b
      → Ensures
          (λ chunk t. IsChunkOf meta chunk × PlannerOk t)
          (λ e _. Fault e)
          (env.planner.materialize meta.chunk_id)
          b
  pub worker_ok : PlannerOk (env.worker_planner meta)
  pub answered :
      (source_id (load_or_error meta.sample_id (env.load meta.sample_id)) ≡ meta.sample_id)
      ⊎ ((message : String) → Fault (contract_error message))

module _ (env : Environment) (PlannerOk : env.PlannerState → Type 0) (Fault : Exception → Type 0)
    (faithful : IsFaithful env) (meta : WorkChunkMeta)
    (served : IsServed env PlannerOk Fault meta) where
  abbrev GetsWorked : Result (WorkerResult env.numpy.Stacked env.masks.Mask) → Run env → Type 0
  GetsWorked r s =
      Ensures (λ result t. IsWorked env meta result × (t ≡ s)) (λ e _. Fault e) (lift r) s

  loads :
      (id : String) (r : Result (SourceResult env.numpy.Array))
      → env.load id ≡ r
      → IsLoadedOr env meta (load_or_error id r)
  loads id (ok (sample_loaded sample)) e = faithful.on_load id sample e
  loads id (ok (sample_failed _)) e = tt
  loads id (err _) e = tt

  abbrev found : String → SourceResult env.numpy.Array
  found id = load_or_error id (env.load id)

  loaded_id_eq : (r : SourceResult env.numpy.Array) → loaded_id (as_load r) ≡ source_id r
  loaded_id_eq (sample_loaded _) = refl
  loaded_id_eq (sample_failed _) = refl

  process_chunk_rule :
      (chunk : WorkChunk) (s : Run env)
      → IsChunkOf meta chunk
      → GetsWorked
          (process_chunk env.numpy env.masks env.runtime.fail_fast env.attempt
            (shape_of env)
            chunk
            (as_load (found chunk.sample_id)))
          s
  unfolding process_chunk
  process_chunk_rule chunk s h =
      let (result, made, worked) =
        process_loaded-Works env meta faithful chunk (found chunk.sample_id)
          (loads chunk.sample_id (env.load chunk.sample_id) refl) h in
      rw (loaded_id_eq (found chunk.sample_id))
        (elim (Bool-cases (str_eq (source_id (found chunk.sample_id)) chunk.sample_id)) [
          | inl here ↦ rw (here, made) (Ensures-ok result s (worked, refl))
          | inr other ↦ rw other (Ensures-err _ s (mismatch other served.answered))
        ])
    where
      mismatch :
          str_eq (source_id (found chunk.sample_id)) chunk.sample_id ≡ false
          → ((source_id (found meta.sample_id) ≡ meta.sample_id)
              ⊎ ((message : String) → Fault (contract_error message)))
          → Fault (contract_error "sample_source returned a mismatched sample_id")
      mismatch other (inl same) =
          let here : source_id (found chunk.sample_id) ≡ chunk.sample_id =
            subst (λ id. source_id (found id) ≡ id) (sym h.same_sample) same in
          cc ((eq_iff _ _).1 here, other)
      mismatch other (inr fault) = fault _

  get_chunk_rule : (s : Run env) → GetsWorked (get_chunk env meta) s
  unfolding get_chunk
  get_chunk_rule s =
      go (env.planner.materialize meta.chunk_id (env.worker_planner meta)).0
        (env.planner.materialize meta.chunk_id (env.worker_planner meta)).1
        (served.materializes (env.worker_planner meta) served.worker_ok).holds
    where
      after : WorkChunk → Result (WorkerResult env.numpy.Stacked env.masks.Mask)
      after chunk =
          if str_eq chunk.sample_id meta.sample_id && texts_eq (item_ids chunk.items) meta.item_ids
          then process_chunk env.numpy env.masks env.runtime.fail_fast env.attempt (shape_of env)
              chunk (as_load (found chunk.sample_id))
          else err (contract_error "materialized chunk does not match its metadata")

      go :
          (r : Result WorkChunk) (t : env.PlannerState)
          → Post (λ chunk t. IsChunkOf meta chunk × PlannerOk t) (λ e _. Fault e) (r, t)
          → GetsWorked (and_then r after) s
      go (ok chunk) t h =
          let same_sample : str_eq chunk.sample_id meta.sample_id ≡ true =
            (eq_iff _ _).1 h.0.same_sample in
          let same_items : texts_eq (item_ids chunk.items) meta.item_ids ≡ true =
            subst (λ ids. texts_eq (item_ids chunk.items) ids ≡ true) h.0.same_items
              (texts_eq_refl (item_ids chunk.items)) in
          rw (same_sample, same_items) (process_chunk_rule chunk s h.0)
      go (err e) t h = Ensures-err e s h

  abbrev Normalized :
      WorkerResult env.numpy.Stacked env.masks.Mask → WorkChunk → env.AdapterState → Type 0
  Normalized result chunk w =
      Ensures (λ ready _. IsBalanced env meta.item_ids ready) (λ _ _. ⊥)
        (normalize env.numpy env.masks env.transform_mask env.seeds env.runtime.global_seed
          env.runtime.fail_fast chunk result)
        w

  failed_valid :
      (result : FailedChunk) (chunk : WorkChunk)
      → IsFailedFor env meta result
      → IsChunkOf meta chunk
      → validate_failed_chunk result chunk ≡ ok tt
  unfolding validate_failed_chunk
  failed_valid result chunk worked h =
      let same : texts_eq result.item_ids (item_ids chunk.items) ≡ true =
        subst (λ ids. texts_eq result.item_ids ids ≡ true) (worked.same_items ∙ sym h.same_items)
          (texts_eq_refl result.item_ids) in
      rw (worked.reason, same) refl

  -- what the worker returned passes its validation, and is accounted for
  normalize_rule :
      (result : WorkerResult env.numpy.Stacked env.masks.Mask) (chunk : WorkChunk)
      (w : env.AdapterState)
      → IsWorked env meta result
      → IsChunkOf meta chunk
      → Normalized result chunk w
  unfolding normalize
  normalize_rule (chunk_prepared result) chunk w worked h =
      let valid = worked.valid chunk h.same_items in
      rw valid (
        Ensures-bind_ok _ _ w (
          Ensures-weaken _ w
            (normalize_validated_rule env worked.sample chunk result valid worked.rows worked.failed
              h.checked w)
            (λ ready _ k. subst (λ ids. IsBalanced env ids ready) h.same_items k) (λ _ _ f. f)))
  normalize_rule (chunk_failed result) chunk w worked h =
      let bad : is_ok result.reason ≡ false = ap is_ok worked.reason in
      rw (failed_valid result chunk worked h) (
        Ensures-bind_ok tt _ w (
          Ensures-weaken _ w (normalize_failed_rule env chunk result w bad h.checked)
            (λ ready _ k. subst (λ ids. IsBalanced env ids ready) h.same_items k) (λ _ _ f. f)))

  worked_id :
      (result : WorkerResult env.numpy.Stacked env.masks.Mask)
      → IsWorked env meta result
      → result_chunk_id result ≡ meta.chunk_id
  worked_id (chunk_prepared result) worked = worked.same_id
  worked_id (chunk_failed result) worked = worked.same_id

  -- a call that reaches the adapter
  on_world_rule :
      {A : Type 0} {P : A → Run env → Type 0} {Q : Exception → Run env → Type 0}
      (m : Exec env.AdapterState A) (s : Run env)
      → Ensures
          (λ a w. P a (record s { machine = record s.machine { world = w } }))
          (λ e w. Q e (record s { machine = record s.machine { world = w } }))
          m
          s.machine.world
      → Ensures P Q (on_machine env (on_world m)) s
  unfolding on_machine on_world
  on_world_rule m s h =
      zoom_rule _ (λ w s. record s { machine = record s.machine { world = w } }) m s h

  -- the rest of the round, once the worker has returned
  abbrev Prepares : Run env → WorkerResult env.numpy.Stacked env.masks.Mask → Run env → Type 0
  Prepares s result t =
      Ensures (λ ready u. IsPrepared env meta s ready u × PlannerOk u.planner_state)
        (λ e _. Fault e)
        (on_planner env (env.planner.materialize (result_chunk_id result)) >>= λ chunk.
          on_machine env (
            on_world (
              normalize env.numpy env.masks env.transform_mask env.seeds env.runtime.global_seed
                env.runtime.fail_fast chunk result)))
        t

  after_worker_rule :
      (result : WorkerResult env.numpy.Stacked env.masks.Mask) (s : Run env)
      → IsWorked env meta result
      → PlannerOk s.planner_state
      → Prepares s result s
  after_worker_rule result s worked planner_ok = Ensures-then _ _ s (
      on_planner_rule env _ s (
        Ensures-weaken _ _
          (subst
            (λ id.
              Ensures (λ chunk b. IsChunkOf meta chunk × PlannerOk b) (λ e _. Fault e)
                (env.planner.materialize id) s.planner_state)
            (sym (worked_id result worked)) (served.materializes s.planner_state planner_ok))
          (λ chunk b (h, kept).
            on_world_rule _ (record s { planner_state = b })
              (Ensures-weaken _ _ (normalize_rule result chunk s.machine.world worked h)
                (λ ready w k. (
                  record {
                    items = k.items;
                    failures = k.failures;
                    left = k.left;
                    balanced = k.balanced;
                    none_left = k.none_left;
                    same_cap = refl;
                    same_writer = refl;
                    same_clean = refl;
                    same_perturbed = refl;
                    same_counts = refl;
                  },
                  kept,
                ))
                (λ _ _ f. elim f [ ])))
          (λ _ _ f. f)))

  -- Over a source, attempts and a planner that keep their promises for a chunk, in the process and
  -- in its workers, and with faults that may be wrapped, preparing the chunk raises only a fault of
  -- theirs. Else each of its items is in what is returned, as an item for inference that has passed
  -- its checks or as a failure, no more and no fewer times than the chunk lists it, unless
  -- `fail_fast` is set and there is a failure; and the run's writer, counters and batch cap are
  -- what they were.
  pub prepare_work_chunk_rule :
      (on_wrap : (e : Exception) (message : String)
        → Fault e
        → is_contract_error e ≡ false
        → Fault (contract_error message))
      (s : Run env)
      → PlannerOk s.planner_state
      → Ensures
          (λ ready t. IsPrepared env meta s ready t × PlannerOk t.planner_state)
          (λ e _. Fault e)
          (prepare_work_chunk env meta)
          s
  unfolding prepare_work_chunk as_worker_error
  prepare_work_chunk_rule on_wrap s planner_ok =
      Ensures-try _ _ s
        (Ensures-bind _ _ s (get_chunk_rule s) λ result t (worked, same).
          subst (Prepares s result) (sym same) (after_worker_rule result s worked planner_ok))
        λ e t fault.
          Ensures-if (is_contract_error e) _ _ t (λ _. Ensures-raise e t fault)
            (λ other. Ensures-raise _ t (on_wrap e _ fault other))
