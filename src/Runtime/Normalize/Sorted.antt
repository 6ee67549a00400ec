-- ===== src/Runtime/Normalize/Sorted.antt =====
-- The loop over a chunk's successes makes an item or a failure of each, and stops at a failure only
-- with `fail_fast`.
use region_sensitivity.Prelude.{
  ℕ, ◌+◌, ◌≡◌, refl, ap, ◌∙◌, true, false, not, ◌&&◌, Option, none, some, List, [], ◌∷◌, ◌++◌, map,
  map-append, arith, All, All-append, if◌then◌else◌,
}
use region_sensitivity.Outcome.{ok}
use region_sensitivity.Outcome.Exec.{
  Exec, Ensures, Ensures-pure, Ensures-bind, Ensures-bind_ok, Ensures-if, Ensures-try,
  Ensures-weaken, Ensures-anything,
}
use region_sensitivity.Dict.{Dict}
use region_sensitivity.Status.{prepare_failed}
use region_sensitivity.Work.{WorkItem, check_item, is_nil}
use region_sensitivity.Runtime.Transfer.{ItemMeta}
use region_sensitivity.Runtime.Validate.{meta_ids}
use region_sensitivity.Runtime.Items.{LoadedSample, PerturbedInferenceItem}
use region_sensitivity.Runtime.Normalize.{
  is_some, Normalized, append_failure, append_item, try_area, after_area, normalize_items,
}
use region_sensitivity.Runtime.Failures.{PreparationFailure}
use region_sensitivity.Runtime.Normalize.Made.{
  IsKnown, IsFitting, preparation_failure_total, inference_item_total,
}
use region_sensitivity.Runtime.Prepared.{IsRow, Rows}
use region_sensitivity.Runtime.Environment.{Environment}
use region_sensitivity.Runtime.Execution.Ledger.{Key, item_key, tally, tally-append}
use region_sensitivity.Runtime.Execution.Promises.{IsHydrated, IsFailure}

module _ (env : Environment) where
  abbrev pub Item : Type 0
  Item = PerturbedInferenceItem env.numpy.Array env.masks.Mask

  abbrev pub failure_keys : List PreparationFailure → List Key
  failure_keys failures = map (λ (f : PreparationFailure). item_key f.work_item.item_id) failures

  abbrev pub item_keys : List Item → List Key
  item_keys items = map (λ (i : Item). item_key i.work_item.item_id) items

  abbrev pub shape_of : LoadedSample env.numpy.Array → List ℕ
  shape_of sample = env.numpy.shape sample.array

  -- the keys of both lists
  abbrev pub held : Key → Normalized Item → ℕ
  held k n = tally k (failure_keys n.failures) + tally k (item_keys n.items)

  pub record IsSorted (ids : List Key) (done out : Normalized Item) : Type 0 where
    pub items : All (IsHydrated env) out.items
    pub failures : All IsFailure out.failures
    pub left : List Key
    pub balanced : (k : Key) → held k out + tally k left ≡ held k done + tally k ids
    pub none_left : (env.runtime.fail_fast && not (is_nil out.failures)) ≡ false → left ≡ []

  abbrev HasItems : Normalized Item → Type 0
  HasItems n = All (IsHydrated env) n.items × All IsFailure n.failures

  nonempty : {A : Type 0} (xs : List A) (x : A) → is_nil (xs ++ x ∷ []) ≡ false
  nonempty [] x = refl
  nonempty (y ∷ ys) x = refl

  -- one more failure
  abbrev Failed : WorkItem → Normalized Item → Normalized Item → Type 0
  Failed item done next =
      HasItems next
      × (is_nil next.failures ≡ false)
      × ((k : Key) → held k next ≡ held k done + tally k (item_key item.item_id ∷ []))

  append_failure_total :
      (item : WorkItem) (meta : ItemMeta) (done : Normalized Item)
      → check_item item ≡ ok item
      → HasItems done
      → (next : Normalized Item) × (append_failure env.numpy env.masks env.transform_mask env.seeds
            env.runtime.global_seed item meta done
          ≡ ok next)
        × Failed item done next
  unfolding append_failure
  append_failure_total item meta done checked h =
      let (f, made, is_failure, same) =
        preparation_failure_total env item checked prepare_failed meta.region_meta refl in
      let next : Normalized Item = record done {
        failures = done.failures ++ f ∷ [];
        failure_message =
            if is_some done.failure_message
            then done.failure_message
            else some "adapter mask transform failed";
      } in
      (
        next,
        rw made refl,
        (
          (h.0, All-append IsFailure done.failures (f ∷ []) h.1 (is_failure, tt)),
          nonempty done.failures f,
          λ k.
              let key = ap (λ (w : WorkItem). tally k (item_key w.item_id ∷ [])) same in
              let split =
                ap (tally k) (
                  map-append (λ (f : PreparationFailure). item_key f.work_item.item_id)
                    done.failures (f ∷ []))
                ∙ tally-append k (failure_keys done.failures) (failure_keys (f ∷ [])) in
              omega (arith, key, split),
        ),
      )

  -- the mask transform may raise, which is caught
  try_area_rule :
      (mask : env.masks.Mask) (w : env.AdapterState)
      → Ensures (λ _ _. Unit) (λ _ _. ⊥) (try_area env.numpy env.masks env.transform_mask mask) w
  unfolding try_area
  try_area_rule mask w =
      Ensures-try _ _ w
        (Ensures-bind _ _ w (Ensures-anything _ w) λ area t _. Ensures-pure (some area) t tt)
        (λ e t _. Ensures-pure none t tt)

  module _ (sample : LoadedSample env.numpy.Array) (work_items : Dict WorkItem) where
    abbrev Loop :
        List ItemMeta
        → List env.numpy.Array
        → List env.masks.Mask
        → Normalized Item
        → Exec env.AdapterState (Normalized Item)
    Loop metas arrays ms done =
        normalize_items env.numpy env.masks env.transform_mask env.seeds env.runtime.global_seed
          env.runtime.fail_fast work_items metas arrays ms done

    abbrev Sorts :
        List ItemMeta
        → Normalized Item
        → Exec env.AdapterState (Normalized Item)
        → env.AdapterState
        → Type 0
    Sorts metas done m w =
        Ensures (λ out _. IsSorted (map item_key (meta_ids metas)) done out) (λ _ _. ⊥) m w

    -- after one item has become a failure or an inference item
    step-IsSorted :
        (meta : ItemMeta) (metas : List ItemMeta) (done next out : Normalized Item)
        → ((k : Key) → held k next ≡ held k done + tally k (item_key meta.item_id ∷ []))
        → IsSorted (map item_key (meta_ids metas)) next out
        → IsSorted (map item_key (meta_ids (meta ∷ metas))) done out
    unfolding tally
    step-IsSorted meta metas done next out grown h = record {
      items = h.items;
      failures = h.failures;
      left = h.left;
      balanced = λ k. omega (arith, h.balanced k, grown k);
      none_left = h.none_left;
    }

    stop-IsSorted :
        (meta : ItemMeta) (metas : List ItemMeta) (done next : Normalized Item)
        → ((k : Key) → held k next ≡ held k done + tally k (item_key meta.item_id ∷ []))
        → HasItems next
        → is_nil next.failures ≡ false
        → env.runtime.fail_fast ≡ true
        → IsSorted (map item_key (meta_ids (meta ∷ metas))) done next
    unfolding tally
    stop-IsSorted meta metas done next grown h some_failed fast = record {
      items = h.0;
      failures = h.1;
      left = map item_key (meta_ids metas);
      balanced = λ k. omega (arith, grown k);
      none_left = λ slow. absurd_of (rw (fast, some_failed) at slow);
    }
      where
        absurd_of : {P : Type 0} → true ≡ false → P
        absurd_of e = cc

    held-append_item :
        (item : WorkItem) (made : Item) (done : Normalized Item)
        → made.work_item ≡ item
        → (k : Key)
        → held k (
            append_item env.numpy env.masks env.transform_mask env.seeds env.runtime.global_seed
              done made)
          ≡ held k done + tally k (item_key item.item_id ∷ [])
    held-append_item item made done same k =
        let key = ap (λ (w : WorkItem). tally k (item_key w.item_id ∷ [])) same in
        let split =
          ap (tally k)
            (map-append (λ (i : Item). item_key i.work_item.item_id) done.items (made ∷ []))
          ∙ tally-append k (item_keys done.items) (item_keys (made ∷ [])) in
        omega (arith, key, split)

    renamed :
        (item : WorkItem) (meta : ItemMeta) (done next : Normalized Item)
        → item.item_id ≡ meta.item_id
        → ((k : Key) → held k next ≡ held k done + tally k (item_key item.item_id ∷ []))
        → (k : Key) → held k next ≡ held k done + tally k (item_key meta.item_id ∷ [])
    renamed item meta done next named h k =
        h k ∙ ap (λ id. held k done + tally k (item_key id ∷ [])) named

    after_area_rule :
        (meta : ItemMeta) (metas : List ItemMeta) (a : env.numpy.Array) (m : env.masks.Mask)
        (rest : Normalized Item → Exec env.AdapterState (Normalized Item)) (done : Normalized Item)
        (known : IsKnown work_items meta.item_id) (area : Option (Option ℕ)) (w : env.AdapterState)
        → IsRow env.numpy env.masks env.runtime.fail_fast env.attempt shape_of
            (IsFitting env)
            sample
            meta
            a
            m
        → HasItems done
        → ((next : Normalized Item) (t : env.AdapterState)
            → HasItems next
            → Sorts metas next (rest next) t)
        → Sorts
            (meta ∷ metas)
            done
            (after_area env.numpy env.masks env.transform_mask env.seeds env.runtime.global_seed
              env.runtime.fail_fast rest known.item meta a m done area)
            w
    after_area_rule meta metas a m rest done known none w row h goes =
        let item = known.item in
        let (next, made, (has, some_failed, grown)) =
          append_failure_total item meta done known.checked h in
        let grown' = renamed item meta done next known.named grown in
        rw made (
          Ensures-bind_ok next _ w (
            Ensures-if env.runtime.fail_fast _ _ w
              (λ fast.
                Ensures-pure next w
                  (stop-IsSorted meta metas done next grown' has some_failed fast))
              λ _.
                Ensures-weaken _ w (goes next w has)
                  (λ out _ k. step-IsSorted meta metas done next out grown' k) (λ _ _ f. f)))
    after_area_rule meta metas a m rest done known (some area) w row h goes =
        let item = known.item in
        let (made, e, hydrated, same) =
          inference_item_total env item known.checked env.runtime.fail_fast shape_of sample meta a m
            area row in
        let next =
          append_item env.numpy env.masks env.transform_mask env.seeds env.runtime.global_seed done
            made in
        let grown =
          renamed item meta done next known.named (held-append_item item made done same) in
        rw e (
          Ensures-bind_ok made _ w (
            Ensures-weaken _ w
              (goes next w
                (All-append (IsHydrated env) done.items (made ∷ []) h.0 (hydrated, tt), h.1))
              (λ out _ k. step-IsSorted meta metas done next out grown k) (λ _ _ f. f)))

    -- Every success of the chunk becomes an item or a failure, whatever the mask transform does.
    pub normalize_items_rule :
        (metas : List ItemMeta) (arrays : List env.numpy.Array) (ms : List env.masks.Mask)
        (done : Normalized Item) (w : env.AdapterState)
        → Rows env.numpy env.masks env.runtime.fail_fast env.attempt shape_of
            (IsFitting env)
            sample
            metas
            arrays
            ms
        → All (IsKnown work_items) (meta_ids metas)
        → HasItems done
        → Sorts metas done (Loop metas arrays ms done) w
    unfolding normalize_items tally
    normalize_items_rule [] [] [] done w rows known h = Ensures-pure done w (record {
      items = h.0;
      failures = h.1;
      left = [];
      balanced = λ k. refl;
      none_left = λ _. refl;
    })
    normalize_items_rule (meta ∷ metas) (a ∷ as') (m ∷ ms) done w rows known h =
        rw (known.0.found) (
          Ensures-bind_ok known.0.item _ w (
            Ensures-bind _ _ w (try_area_rule m w) λ area t _.
              after_area_rule meta metas a m _ done known.0 area t rows.0 h
                λ next u has. normalize_items_rule metas as' ms next u rows.1 known.1 has))
    normalize_items_rule [] [] (_ ∷ _) done w rows known h = elim rows [ ]
    normalize_items_rule [] (_ ∷ _) _ done w rows known h = elim rows [ ]
    normalize_items_rule (_ ∷ _) [] _ done w rows known h = elim rows [ ]
    normalize_items_rule (_ ∷ _) (_ ∷ _) [] done w rows known h = elim rows [ ]
