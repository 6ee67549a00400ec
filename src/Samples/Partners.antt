-- ===== src/Samples/Partners.antt =====
-- The parts of the small run keep their promises.
use region_sensitivity.Prelude.{
  ℕ, ◌≡◌, refl, sym, subst, ◌∙◌, inl, String, Bool, true, false, some, List, [], ◌∷◌, ◌++◌, ap,
  arith, length,
}
use region_sensitivity.Outcome.{Exception, Result, ok, err}
use region_sensitivity.Outcome.Exec.{Exec, Post, Ensures, Ensures-pure, Ensures-modify}
use region_sensitivity.Work.{WorkItem, check_item, is_sha256}
use region_sensitivity.Dump.Types.{RegionMeta}
use region_sensitivity.Batching.Size.{IsValid}
use region_sensitivity.Batching.Splitter.{Machine, predict}
use region_sensitivity.Runtime.Worker.{prepared}
use region_sensitivity.Runtime.Items.{LoadedSample, check_loaded, mask_fits}
use region_sensitivity.Runtime.Environment.{Recorder, sample_loaded}
use region_sensitivity.Dict.{is_distinct, contains}
use region_sensitivity.Batching.Batch.{InferenceBatch, IsBatch, shape_eq, shape_eq-eq}
use region_sensitivity.Batching.Splitter.Rule.{predict_rule}
use region_sensitivity.Batching.Splitter.Steps.{Returned}
use region_sensitivity.Batching.Splitter.Capacity.{IsRowwise, predict_complete}
use region_sensitivity.Runtime.Items.{InferenceItem, item_array}
use region_sensitivity.Runtime.Execution.{prepare_work_chunk}
use region_sensitivity.Runtime.Execution.Promises.{
  Promises, Partners, IsLoaded, IsPrepared, Escapes,
}
use region_sensitivity.Runtime.Execution.Worked.{IsChunkOf, IsFaithful}
use region_sensitivity.Runtime.Execution.Preparing.{IsServed, prepare_work_chunk_rule}
use region_sensitivity.Runtime.Execution.Complete.{IsComplete, IsFresh, run_pending-IsComplete}
use region_sensitivity.Runtime.Execution.{run_pending}
use region_sensitivity.Samples.Arrays.{plain_masks, Tile, Tiles, tiles}
use region_sensitivity.Samples.Batches.{small_adapter, small_adapter-IsRowwise, fresh-IsValid}
use region_sensitivity.Samples.Preparations.{planned_chunk}
use region_sensitivity.Runtime.Execution.Ledger.{Entry, clean_entry, item_entry}
use region_sensitivity.Samples.Runs.{
  cat, cats_only, first_only, cat_meta, chunk_meta, in_memory, note_progress, never, small_run_with,
  small_run, at_start,
}

loads_cat :
    (sample_id : String) (sample : LoadedSample Tile)
    → cats_only sample_id ≡ ok (sample_loaded sample)
    → sample ≡ cat
loads_cat sample_id sample e = ground arith

attempt_fits :
    (sample : LoadedSample Tile) (item : WorkItem) (a : Tile) (k : Bool) (region_meta : RegionMeta)
    → first_only sample item ≡ prepared a k region_meta
    → (a ≡ sample.array) × (shape_eq sample.array.dims cat.original_shape ≡ true)
attempt_fits sample item a k region_meta e = (ground arith, ground arith)

true-mask_fits :
    (dims : List ℕ) (k : Bool)
    → dims ≡ cat.original_shape
    → mask_fits tiles plain_masks dims k ≡ true
unfolding mask_fits shape_eq
true-mask_fits dims k e = subst (λ ns. mask_fits tiles plain_masks ns k ≡ true) (sym e) refl

abbrev pub Nothing : Exception → Type 0
Nothing e = ⊥

abbrev pub AnyState : ℕ → Type 0
AnyState calls = Unit

planned_chunk-IsChunkOf : IsChunkOf chunk_meta planned_chunk
unfolding is_sha256 is_distinct contains check_item
planned_chunk-IsChunkOf = record {
  same_id = refl;
  same_sample = refl;
  same_items = refl;
  digest = refl;
  nonempty = refl;
  distinct = refl;
  checked = (refl, (refl, tt));
}

abbrev number_in : Tile → ℕ
number_in t = t.number

-- the adapter of the small batches, over the items of a run
small_run-IsRowwise : IsRowwise tiles (item_array {Mask = Bool}) small_adapter number_in 2
small_run-IsRowwise = record {
  positive = small_adapter-IsRowwise.positive;
  replies = small_adapter-IsRowwise.replies;
  cleans = small_adapter-IsRowwise.cleans;
}

abbrev TileItem : Type 0
TileItem = InferenceItem Tile Bool

raises_nothing :
    {S A : Type 0} {Good Full : A → S → Type 0} {Bad Other : Exception → S → Type 0} (m : Exec S A)
    (s : S)
    → Ensures Good Bad m s
    → Ensures Full (λ e t. ⊥) m s
    → Ensures Good Other m s
raises_nothing {S} {A} {Good} {Full} {Bad} {Other} m s h k = record {
  holds = go (m s).0 (m s).1 h.holds k.holds;
}
  where
    go :
        (r : Result A) (t : S)
        → Post Good Bad (r, t)
        → Post Full (λ e u. ⊥) (r, t)
        → Post Good Other (r, t)
    go (ok a) t h k = h
    go (err e) t h k = elim k [ ]

-- what `predict` returns, given that it raises nothing
pub small_run_predicts :
    (batch : InferenceBatch TileItem Tiles) (m : Machine ℕ)
    → IsBatch tiles item_array batch
    → IsValid m.batch_size
    → Ensures
        (Returned tiles item_array small_adapter batch m.batch_size)
        (λ e t. Escapes Nothing e × IsValid t.batch_size)
        (predict tiles item_array small_adapter (length batch.items) batch)
        m
small_run_predicts batch m valid v =
    raises_nothing _ m
      (predict_rule tiles item_array small_adapter (length batch.items) batch m (omega arith) valid
        v)
      (predict_complete tiles item_array small_adapter number_in 2 small_run-IsRowwise
        (length batch.items) batch m (omega arith) valid v)

pub notes_progress :
    (callback : ℕ → ℕ → Exec ℕ Unit)
    → some note_progress ≡ some callback
    → (written total caller : ℕ) → Ensures (λ _ _. Unit) (λ e _. ⊥) (callback written total) caller
notes_progress callback e written total caller =
    let same : note_progress ≡ callback = cc e in
    subst (λ (f : ℕ → ℕ → Exec ℕ Unit). Ensures (λ _ _. Unit) (λ e _. ⊥) (f written total) caller)
      same (record { holds = tt })

pub not_both : false ≡ true → ⊥
not_both h = ground arith

pub never_cancels :
    (question : Exec ℕ Bool)
    → some never ≡ some question
    → (caller : ℕ) → Ensures (λ cancelled _. cancelled ≡ true → ⊥) (λ e _. ⊥) question caller
never_cancels question e caller =
    let same : never ≡ question = cc e in
    subst (λ (f : Exec ℕ Bool). Ensures (λ cancelled _. cancelled ≡ true → ⊥) (λ e _. ⊥) f caller)
      same (record { holds = not_both })

module _ (D : Type 0) (writer : Recorder D ℕ) where
  cat-IsLoaded : IsLoaded (small_run_with D writer) cat
  unfolding check_loaded is_sha256 shape_eq
  cat-IsLoaded = record {
    checked = refl;
    positive = (omega arith, (omega arith, (omega arith, (omega arith, tt))));
  }

  pub small_run-IsFaithful : IsFaithful (small_run_with D writer)
  small_run-IsFaithful = record {
    on_load = λ sample_id sample e.
        subst (IsLoaded (small_run_with D writer)) (sym (loads_cat sample_id sample e))
          cat-IsLoaded;
    on_attempt = λ sample item a k region_meta e.
        let (same, fits) = attempt_fits sample item a k region_meta e in
        (
          refl,
          ap (λ (t : Tile). t.dims) same,
          true-mask_fits a.dims k (ap (λ (t : Tile). t.dims) same ∙ shape_eq-eq _ _ fits),
        );
  }

  pub small_run-IsServed : IsServed (small_run_with D writer) AnyState Nothing chunk_meta
  small_run-IsServed = record {
    materializes = λ b ok_. record { holds = (planned_chunk-IsChunkOf, tt) };
    worker_ok = tt;
    answered = inl refl;
  }

  abbrev pub small_run-Partners :
      Partners (small_run_with D writer) (cat_meta ∷ []) (chunk_meta ∷ [])
  small_run-Partners = record {
    PlannerOk = AnyState;
    Fault = Nothing;
    on_progress = λ callback e written total c. notes_progress callback e written total c;
    on_cancel = λ question e c. never_cancels question e c;
    on_fail_fast = λ e message. not_both e;
    on_wrap = λ e message fault other. fault;
    on_predict = λ batch m valid v. small_run_predicts batch m valid v;
    on_load = small_run-IsFaithful.on_load;
    on_mismatch = (inl refl, tt);
    samples_named = (refl, tt);
    model_named = refl;
    on_prepare = (
      λ s planner_ok.
          prepare_work_chunk_rule (small_run_with D writer) AnyState Nothing small_run-IsFaithful
            chunk_meta small_run-IsServed (λ e message fault other. fault) s planner_ok,
      tt,
    );
  }

prepare_work_chunk_rule_example :
    Ensures
      (λ ready t. IsPrepared small_run chunk_meta at_start ready t × Unit)
      (λ e _. ⊥)
      (prepare_work_chunk small_run chunk_meta)
      at_start
prepare_work_chunk_rule_example =
    prepare_work_chunk_rule small_run AnyState Nothing
      (small_run-IsFaithful (List (Entry ℕ)) in_memory) chunk_meta
      (small_run-IsServed (List (Entry ℕ)) in_memory) (λ e message fault other. fault) at_start tt

abbrev pub small_run-Promises : Promises small_run (cat_meta ∷ []) (chunk_meta ∷ [])
small_run-Promises = record {
  partners = small_run-Partners (List (Entry ℕ)) in_memory;
  Logs = λ held log. held ≡ log;
  Durable = λ held log. held ≡ log;
  on_write_clean =
      λ r log d checked within h. Ensures-modify _ d (ap (λ es. es ++ clean_entry r ∷ []) h);
  on_write_perturbed =
      λ r log d checked within h. Ensures-modify _ d (ap (λ es. es ++ item_entry r ∷ []) h);
  on_flush = λ log d h. Ensures-pure tt d (h, h);
}

at_start-IsFresh : IsFresh small_run small_run-Promises at_start
at_start-IsFresh = record {
  logged = refl;
  cap_valid = fresh-IsValid;
  planner_ok = tt;
  no_records = refl;
  no_counts = λ status. refl;
}

run_pending-IsComplete_example :
    Ensures
      (λ _ t. IsComplete small_run small_run-Promises t)
      (λ e _. ⊥)
      (run_pending small_run (cat_meta ∷ []) (chunk_meta ∷ []))
      at_start
run_pending-IsComplete_example =
    run_pending-IsComplete small_run small_run-Promises at_start at_start-IsFresh
