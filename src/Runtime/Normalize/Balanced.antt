-- ===== src/Runtime/Normalize/Balanced.antt =====
-- The normalization of a worker's result accounts for each planned item of the chunk.
use region_sensitivity.Prelude.{
  ◌+◌, ◌≡◌, refl, sym, ap, ◌∙◌, String, true, false, not, ◌&&◌, none, List, [], ◌∷◌, map, arith,
  All,
}
use region_sensitivity.Outcome.{Result, ok}
use region_sensitivity.Outcome.Exec.{Ensures, Ensures-pure, Ensures-bind_ok}
use region_sensitivity.Dict.{Dict}
use region_sensitivity.Status.{
  ItemStatus, completed, load_failed, prepare_failed, predict_failed, skipped_oom, is_ok,
}
use region_sensitivity.Work.{WorkItem, WorkChunk, check_item, is_nil}
use region_sensitivity.Plan.Chunks.{item_ids}
use region_sensitivity.Runtime.Transfer.{ItemMeta, FailedChunk, is_prepare_failed}
use region_sensitivity.Runtime.Validate.{meta_ids}
use region_sensitivity.Runtime.Accounts.{occurrences}
use region_sensitivity.Runtime.Normalize.{PreparedWorkChunk, normalize_failed}
use region_sensitivity.Runtime.Failures.{PreparationFailure, item_failures, all_failures}
use region_sensitivity.Runtime.Normalize.Made.{IsKnown, preparation_failure_total}
use region_sensitivity.Runtime.Normalize.Sorted.{Item, failure_keys, item_keys}
use region_sensitivity.Runtime.Environment.{Environment}
use region_sensitivity.Runtime.Execution.Ledger.{Key, sample_key, item_key, tally}
use region_sensitivity.Runtime.Execution.Promises.{IsHydrated, IsFailure}

-- keys of items are counted like their identifiers
pub tally-items :
    (xs ys zs : List String)
    → ((id : String) → occurrences id xs + occurrences id ys ≡ occurrences id zs)
    → (k : Key) → tally k (map item_key xs) + tally k (map item_key ys) ≡ tally k (map item_key zs)
unfolding tally occurrences
tally-items xs ys zs h (sample_key id) = omega (arith, none_of xs, none_of ys, none_of zs)
  where
    none_of : (ws : List String) → tally (sample_key id) (map item_key ws) ≡ 0
    none_of [] = refl
    none_of (w ∷ ws) = omega (arith, none_of ws)
tally-items xs ys zs h (item_key id) = omega (arith, same xs, same ys, same zs, h id)
  where
    same : (ws : List String) → tally (item_key id) (map item_key ws) ≡ occurrences id ws
    same [] = refl
    same (w ∷ ws) = omega (arith, same ws)

not_ok : (status : ItemStatus) → is_prepare_failed status ≡ true → is_ok status ≡ false
unfolding is_prepare_failed
not_ok completed h = sym h
not_ok load_failed h = refl
not_ok prepare_failed h = refl
not_ok predict_failed h = refl
not_ok skipped_oom h = refl

module _ (env : Environment) where
  abbrev Failures : Result (List PreparationFailure) → List Key → Type 0
  Failures r keys =
      (fs : List PreparationFailure) × (r ≡ ok fs) × All IsFailure fs × (failure_keys env fs ≡ keys)

  pub item_failures_total :
      (work_items : Dict WorkItem) (metas : List ItemMeta)
      → All (IsKnown work_items) (meta_ids metas)
      → All (λ m. is_prepare_failed (ItemMeta.status m) ≡ true) metas
      → Failures
          (item_failures env.seeds env.runtime.global_seed work_items metas)
          (map item_key (meta_ids metas))
  unfolding item_failures
  item_failures_total work_items [] known failed = ([], refl, tt, refl)
  item_failures_total work_items (m ∷ ms) known failed =
      let k = known.0 in
      let (f, made, is_failure, same) =
        preparation_failure_total env k.item k.checked m.status m.region_meta (not_ok _ failed.0) in
      let (fs, rest, all_failure, keys) = item_failures_total work_items ms known.1 failed.1 in
      let key = ap (λ (w : WorkItem). item_key w.item_id) same ∙ ap item_key k.named in
      (
        f ∷ fs,
        rw (k.found, made, rest) refl,
        (is_failure, all_failure),
        ap (λ x. x ∷ failure_keys env fs) key ∙ ap (λ xs. item_key m.item_id ∷ xs) keys,
      )

  all_failures_total :
      (status : ItemStatus) (items : List WorkItem)
      → is_ok status ≡ false
      → All (λ (w : WorkItem). check_item w ≡ ok w) items
      → Failures
          (all_failures env.seeds env.runtime.global_seed status items)
          (map item_key (item_ids items))
  unfolding all_failures
  all_failures_total status [] bad checked = ([], refl, tt, refl)
  all_failures_total status (w ∷ ws) bad checked =
      let (f, made, is_failure, same) = preparation_failure_total env w checked.0 status none bad in
      let (fs, rest, all_failure, keys) = all_failures_total status ws bad checked.1 in
      let key = ap (λ (w : WorkItem). item_key w.item_id) same in
      (
        f ∷ fs,
        rw (made, rest) refl,
        (is_failure, all_failure),
        ap (λ x. x ∷ failure_keys env fs) key ∙ ap (λ xs. item_key w.item_id ∷ xs) keys,
      )

  -- Each planned item is an item, a failure, or left aside, which only `fail_fast` does.
  pub record IsBalanced (ids : List String) (ready : PreparedWorkChunk (Item env)) : Type 0 where
    pub items : All (IsHydrated env) ready.items
    pub failures : All IsFailure ready.failures
    pub left : List Key
    pub balanced :
        (k : Key)
        → tally k (failure_keys env ready.failures)
            + tally k (item_keys env ready.items)
            + tally k left
          ≡ tally k (map item_key ids)
    pub none_left : (env.runtime.fail_fast && not (is_nil ready.failures)) ≡ false → left ≡ []

  pub normalize_failed_rule :
      (chunk : WorkChunk) (result : FailedChunk) (w : env.AdapterState)
      → is_ok result.reason ≡ false
      → All (λ (w : WorkItem). check_item w ≡ ok w) chunk.items
      → Ensures
          (λ ready _. IsBalanced (item_ids chunk.items) ready)
          (λ _ _. ⊥)
          (normalize_failed env.numpy env.masks env.transform_mask env.seeds env.runtime.global_seed
            chunk result)
          w
  unfolding normalize_failed tally
  normalize_failed_rule chunk result w bad checked =
      let (fs, made, all_failure, keys) =
        all_failures_total result.reason chunk.items bad checked in
      rw made (
        Ensures-bind_ok fs _ w (
          Ensures-pure _ w (record {
            items = tt;
            failures = all_failure;
            left = [];
            balanced = λ k. omega (arith, ap (tally k) keys);
            none_left = λ _. refl;
          })))
