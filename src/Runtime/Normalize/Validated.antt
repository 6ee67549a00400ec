-- ===== src/Runtime/Normalize/Validated.antt =====
-- A prepared chunk that passes its validation is accounted for.
use region_sensitivity.Prelude.{
  ◌+◌, ◌≡◌, sym, ap, ◌∙◌, String, Bool, true, false, not, ◌&&◌, Option, List, [], ◌∷◌, ◌++◌, map,
  map-append, arith, All, all, if◌then◌else◌, &&_true, drop, length, take-append-drop,
}
use region_sensitivity.Outcome.{ok}
use region_sensitivity.Outcome.Exec.{
  Ensures, Ensures-pure, Ensures-bind, Ensures-bind_ok, Ensures-if, Ensures-weaken,
}
use region_sensitivity.Outcome.Yields.{Yields-use}
use region_sensitivity.Dict.{contains}
use region_sensitivity.Work.{WorkItem, WorkChunk, check_item, is_nil}
use region_sensitivity.Plan.Chunks.{item_ids}
use region_sensitivity.Runtime.Transfer.{ItemMeta, PreparedChunk, is_prepare_failed}
use region_sensitivity.Runtime.Validate.{meta_ids, items_by_id, returned, validate_prepared_chunk}
use region_sensitivity.Runtime.Accounts.{IsAccounted, IsFailedPrefix, validate_prepared_chunk_sound}
use region_sensitivity.Runtime.Items.{LoadedSample}
use region_sensitivity.Runtime.Normalize.{Normalized, normalize_validated}
use region_sensitivity.Runtime.Failures.{PreparationFailure}
use region_sensitivity.Runtime.Normalize.Made.{IsKnown, IsFitting, items_by_id-IsKnown}
use region_sensitivity.Runtime.Normalize.Sorted.{
  Item, failure_keys, item_keys, shape_of, IsSorted, normalize_items_rule,
}
use region_sensitivity.Runtime.Normalize.Balanced.{tally-items, item_failures_total, IsBalanced}
use region_sensitivity.Runtime.Prepared.{Rows}
use region_sensitivity.Runtime.Environment.{Environment}
use region_sensitivity.Runtime.Execution.Ledger.{Key, item_key, tally, tally-append}
use region_sensitivity.Runtime.Execution.Promises.{IsHydrated, IsFailure}

module _ (items : List WorkItem) (checked : All (λ (w : WorkItem). check_item w ≡ ok w) items) where
  all-IsKnown :
      (ids : List String)
      → all (λ id. contains id (item_ids items)) ids ≡ true
      → All (IsKnown (items_by_id items)) ids
  all-IsKnown [] h = tt
  all-IsKnown (id ∷ ids) h =
      let (here, rest) = &&_true _ _ h in
      (items_by_id-IsKnown items id checked here, all-IsKnown ids rest)

split_known :
    (P : String → Type 0) (xs ys : List ItemMeta)
    → All P (meta_ids (xs ++ ys))
    → All P (meta_ids xs) × All P (meta_ids ys)
split_known P [] ys h = (tt, h)
split_known P (x ∷ xs) ys h = let (a, b) = split_known P xs ys h.1 in ((h.0, a), b)

take_true : (A B : Type 0) (b : Bool) → b ≡ true → (if b then A else B) → A
take_true A B true e x = x
take_true A B false e x = cc

take_false : (A B : Type 0) (b : Bool) → b ≡ false → (if b then A else B) → B
take_false A B true e x = cc
take_false A B false e x = x

both_sides : (a b c : Bool) → (a && b) ≡ c → (b && a) ≡ c
both_sides a b c h = ground arith

module _ (env : Environment) (sample : LoadedSample env.numpy.Array) (chunk : WorkChunk)
    (result : PreparedChunk env.numpy.Stacked env.masks.Mask)
    (valid : validate_prepared_chunk env.runtime.fail_fast result chunk
      ≡ ok (items_by_id chunk.items)) where
  known_ids : all (λ id. contains id (item_ids chunk.items)) (returned result) ≡ true
  unfolding validate_prepared_chunk
  known_ids = ground arith

  facts :
      if env.runtime.fail_fast && not (is_nil result.failed_items)
      then IsFailedPrefix result chunk
      else IsAccounted result chunk
  facts =
      (Yields-use _ _ (validate_prepared_chunk_sound env.runtime.fail_fast result chunk) valid).2

  -- the items that a failed prefix leaves aside
  prefix_balanced :
      IsFailedPrefix result chunk
      → (k : Key)
      → tally k (map item_key (meta_ids result.failed_items))
          + tally k (
              map item_key (meta_ids result.item_metas)
              ++ map item_key (drop (length (returned result)) (item_ids chunk.items)))
        ≡ tally k (map item_key (item_ids chunk.items))
  prefix_balanced h k =
      let ids = item_ids chunk.items in
      let metas = meta_ids result.item_metas in
      let failed = meta_ids result.failed_items in
      let rest = drop (length (returned result)) ids in
      let whole : (metas ++ failed) ++ rest ≡ ids =
        ap (λ xs. xs ++ rest)
          (sym (map-append (λ (m : ItemMeta). m.item_id) result.item_metas result.failed_items)
            ∙ h.prefix)
        ∙ take-append-drop (length (returned result)) ids in
      let keys =
        ap (λ xs. tally k (map item_key xs)) (sym whole)
        ∙ ap (tally k) (map-append item_key (metas ++ failed) rest)
        ∙ tally-append k (map item_key (metas ++ failed)) (map item_key rest) in
      let first =
        ap (tally k) (map-append item_key metas failed)
        ∙ tally-append k (map item_key metas) (map item_key failed) in
      omega (arith, keys, first, tally-append k (map item_key metas) (map item_key rest))

  -- what the loop leaves
  record IsDone (out : Normalized (Item env)) : Type 0 where
    items : All (IsHydrated env) out.items
    failures : All IsFailure out.failures
    left : List Key
    balanced :
        (k : Key)
        → tally k (failure_keys env out.failures) + tally k (item_keys env out.items) + tally k left
          ≡ tally k (map item_key (item_ids chunk.items))
    none_left : (env.runtime.fail_fast && not (is_nil out.failures)) ≡ false → left ≡ []

  stopped :
      (fs : List PreparationFailure) (message : Option String)
      → All IsFailure fs
      → failure_keys env fs ≡ map item_key (meta_ids result.failed_items)
      → (not (is_nil result.failed_items) && env.runtime.fail_fast) ≡ true
      → IsDone (record { items = []; failures = fs; failure_message = message })
  unfolding tally
  stopped fs message h keys stops =
      let (some_failed, fast) = &&_true _ _ stops in
      let prefix : IsFailedPrefix result chunk =
        take_true _ _ (env.runtime.fail_fast && not (is_nil result.failed_items))
          (both_sides (not (is_nil result.failed_items)) _ true stops) facts in
      record {
        items = tt;
        failures = h;
        left =
            map item_key (meta_ids result.item_metas)
            ++ map item_key (drop (length (returned result)) (item_ids chunk.items));
        balanced = λ k. omega (arith, ap (tally k) keys, prefix_balanced prefix k);
        none_left = λ slow. never fs result.failed_items (rw fast at slow) keys some_failed;
      }
    where
      never :
          {P : Type 0} (gs : List PreparationFailure) (ms : List ItemMeta)
          → not (is_nil gs) ≡ false
          → failure_keys env gs ≡ map item_key (meta_ids ms)
          → not (is_nil ms) ≡ true
          → P
      never [] [] a b c = cc
      never [] (m ∷ ms) a b c = cc
      never (g ∷ gs) ms a b c = cc

  sorted :
      (fs : List PreparationFailure) (message : Option String)
      → failure_keys env fs ≡ map item_key (meta_ids result.failed_items)
      → (not (is_nil result.failed_items) && env.runtime.fail_fast) ≡ false
      → (out : Normalized (Item env))
      → IsSorted env
          (map item_key (meta_ids result.item_metas))
          (record { items = []; failures = fs; failure_message = message })
          out
      → IsDone out
  unfolding tally
  sorted fs message keys goes out h =
      let complete : IsAccounted result chunk =
        take_false _ _ (env.runtime.fail_fast && not (is_nil result.failed_items))
          (both_sides (not (is_nil result.failed_items)) _ false goes) facts in
      record {
        items = h.items;
        failures = h.failures;
        left = h.left;
        balanced = λ k. omega (
          arith,
          h.balanced k,
          ap (tally k) keys,
          tally-items (meta_ids result.item_metas) (meta_ids result.failed_items)
              (item_ids chunk.items) complete.balanced k,
        );
        none_left = h.none_left;
      }

  module _
      (rows : Rows env.numpy env.masks env.runtime.fail_fast env.attempt
        (shape_of env)
        (IsFitting env)
        sample
        result.item_metas
        (env.numpy.rows result.arrays)
        result.masks)
      (failed : All (λ m. is_prepare_failed (ItemMeta.status m) ≡ true) result.failed_items)
      (checked : All (λ (w : WorkItem). check_item w ≡ ok w) chunk.items) where
    -- the failures of the chunk, or its successes after them
    pub normalize_validated_rule :
        (w : env.AdapterState)
        → Ensures
            (λ ready _. IsBalanced env (item_ids chunk.items) ready)
            (λ _ _. ⊥)
            (normalize_validated env.numpy env.masks env.transform_mask env.seeds
              env.runtime.global_seed env.runtime.fail_fast chunk result
              (items_by_id chunk.items))
            w
    unfolding normalize_validated
    normalize_validated_rule w =
        let known =
          split_known (IsKnown (items_by_id chunk.items)) result.item_metas result.failed_items
            (all-IsKnown chunk.items checked (returned result) known_ids) in
        let (fs, made, all_failure, keys) =
          item_failures_total env (items_by_id chunk.items) result.failed_items known.1 failed in
        rw made (
          Ensures-bind_ok fs _ w (
            Ensures-bind _ _ w
              (Ensures-if (not (is_nil result.failed_items) && env.runtime.fail_fast) _ _ w
                (λ stops. Ensures-pure _ w (stopped fs _ all_failure keys stops))
                λ goes.
                  Ensures-weaken _ w
                    (normalize_items_rule env sample (items_by_id chunk.items) result.item_metas
                      (env.numpy.rows result.arrays) result.masks _ w rows known.0
                      (tt, all_failure))
                    (λ out _ h. sorted fs _ keys goes out h) (λ _ _ f. f))
              λ done t h. Ensures-pure _ t (record {
                items = h.items;
                failures = h.failures;
                left = h.left;
                balanced = h.balanced;
                none_left = h.none_left;
              })))
