-- ===== src/Batching/Splitter/Capacity.antt =====
-- `BatchSplitter.predict` over an adapter that computes its outputs row by row, and runs out of
-- memory on nothing but large batches.
use region_sensitivity.Prelude.{
  ℕ, zero, suc, ◌-◌, ◌/◌, ◌≤◌, ◌<◌, ◌≡◌, refl, sym, ap, ap₂, subst, ◌∙◌, ◌≢◌, ◌⊎◌, inl, inr, true,
  String, List, [], ◌∷◌, ◌++◌, map, map-append, arith, ◌==◌, ==_iff, length, length-map,
  length-take, length-drop,
}
use region_sensitivity.Numpy.{Numpy}
use region_sensitivity.Outcome.{Exception, ok, err, adapter_out_of_memory}
use region_sensitivity.Outcome.Exec.{
  Exec, Post, lift, Ensures, Ensures-pure, Ensures-ok, Ensures-bind, Ensures-bind_ok, Ensures-if,
}
use region_sensitivity.Batching.Size.{record_oom, IsValid, record_oom_total}
use region_sensitivity.Batching.Batch.{InferenceBatch, IsBatch, slice_batch_total}
use region_sensitivity.Batching.Splitter.{
  PredictionResult, Adapter, Machine, on_world, on_batch_size, store_size, succeeded, zip_results,
  collect, split, recover, after_reply, predict,
}
use region_sensitivity.Batching.Splitter.Results.{half_split, halves_eq}

module _ (numpy : Numpy) {Item : Type 0} (array : Item → numpy.Array) {W Output : Type 0}
    (adapter : Adapter W numpy.Stacked Output) where
  -- A call returns `f` of each row, or runs out of memory on more than `capacity` rows.
  pub record IsRowwise (f : numpy.Array → Output) (capacity : ℕ) : Type 0 where
    pub positive : 0 < capacity
    pub replies :
        (x : numpy.Stacked) (w : W)
        → ((adapter.predict x w).0 ≡ ok (map f (numpy.rows x)))
          ⊎ ((message : String) × ((adapter.predict x w).0 ≡ err (adapter_out_of_memory message))
              × (capacity < length (numpy.rows x)))
    pub cleans : (w : W) → (adapter.cleanup_after_oom w).0 ≡ ok tt

  module _ (f : numpy.Array → Output) where
    abbrev pub full : List Item → List (PredictionResult Item Output)
    full items = map (λ i. succeeded i (f (array i))) items

    abbrev Completes : List Item → List (PredictionResult Item Output) → Machine W → Type 0
    Completes items rs t = (rs ≡ full items) × IsValid t.batch_size

    abbrev Never : Exception → Machine W → Type 0
    Never e t = ⊥

    zip_full : (items : List Item) → zip_results items (map f (map array items)) ≡ full items
    unfolding zip_results
    zip_full [] = refl
    zip_full (i ∷ is) = ap (λ rs. succeeded i (f (array i)) ∷ rs) (zip_full is)

    module _ (capacity : ℕ) (rowwise : IsRowwise f capacity) where
      cleanup_ok :
          (m : Machine W)
          → IsValid m.batch_size
          → Ensures (λ _ t. IsValid t.batch_size) Never (on_world adapter.cleanup_after_oom) m
      unfolding on_world
      cleanup_ok m v =
          let w = (adapter.cleanup_after_oom m.world).1 in
          record {
            holds =
                subst (λ r. Post (λ _ t. IsValid t.batch_size) Never (r, record m { world = w }))
                  (sym (rowwise.cleans m.world)) v;
          }

      size_ok :
          (n : ℕ) (m : Machine W)
          → 0 < n
          → IsValid m.batch_size
          → Ensures (λ _ t. IsValid t.batch_size) Never (on_batch_size (record_oom n)) m
      unfolding on_batch_size
      size_ok n m pos v =
          let (size, recorded, v', _, _, _) = record_oom_total n m.batch_size pos v in
          record {
            holds =
                subst (λ r. Post (λ _ t. IsValid t.batch_size) Never (store_size r m))
                  (sym recorded) v';
          }

      abbrev Recursive :
          (InferenceBatch Item numpy.Stacked
            → Exec (Machine W) (List (PredictionResult Item Output)))
          → ℕ
          → Type 0
      Recursive recurse n =
          (cut : InferenceBatch Item numpy.Stacked) (m : Machine W)
          → IsBatch numpy array cut
          → length cut.items < n
          → IsValid m.batch_size
          → Ensures (Completes cut.items) Never (recurse cut) m

      split_ok :
          (recurse : InferenceBatch Item numpy.Stacked
            → Exec (Machine W) (List (PredictionResult Item Output)))
          (batch : InferenceBatch Item numpy.Stacked) (m : Machine W)
          → Recursive recurse (length batch.items)
          → IsBatch numpy array batch
          → length batch.items ≢ 1
          → IsValid m.batch_size
          → Ensures (Completes batch.items) Never (split numpy array adapter recurse batch) m
      unfolding split
      split_ok recurse batch m rec valid several v =
          let n : ℕ = length batch.items in
          let (pos, smaller) = half_split n several valid.nonempty in
          let (left, le, li, lv) =
            slice_batch_total numpy array batch 0 (n / 2) valid pos (omega arith) in
          let (right, re, ri, rv) =
            slice_batch_total numpy array batch (n / 2) n valid smaller (omega arith) in
          let ll : length left.items ≡ n / 2 = rw (li, length-take) (omega arith) in
          let rl : length right.items ≡ n - n / 2 =
            rw (ri, length-take, length-drop) (omega arith) in
          rw (le, re)
            (Ensures-bind_ok left _ m (
              Ensures-bind_ok right _ m (
                Ensures-bind _ _ m (rec left m lv (omega arith) v) λ first t (first_eq, v').
                  Ensures-bind _ _ t (rec right t rv (omega arith) v') λ second u (second_eq, v'').
                    Ensures-pure _ u (
                      ap₂ (λ xs ys. xs ++ ys) first_eq second_eq
                          ∙ ap₂ (λ xs ys. full xs ++ full ys) li ri
                          ∙ sym (map-append _ _ _)
                          ∙ ap full (halves_eq (n / 2) batch.items),
                      v'',
                    ))))

      recover_ok :
          (recurse : InferenceBatch Item numpy.Stacked
            → Exec (Machine W) (List (PredictionResult Item Output)))
          (batch : InferenceBatch Item numpy.Stacked) (m : Machine W)
          → Recursive recurse (length batch.items)
          → IsBatch numpy array batch
          → 1 < length batch.items
          → IsValid m.batch_size
          → Ensures (Completes batch.items) Never (recover numpy array adapter recurse batch) m
      unfolding recover
      recover_ok recurse batch m rec valid several v = Ensures-bind _ _ m (cleanup_ok m v) λ _ t v'.
          Ensures-bind _ _ t (size_ok (length batch.items) t valid.nonempty v') λ _ u v''.
            Ensures-if (length batch.items == 1) _ _ u
              (λ one. absurd (omega (arith, (==_iff _ _).0 one)))
              λ _. split_ok recurse batch u rec valid (omega arith) v''

      collect_ok :
          (batch : InferenceBatch Item numpy.Stacked) (m : Machine W)
          → IsBatch numpy array batch
          → IsValid m.batch_size
          → Ensures
              (Completes batch.items)
              Never
              (lift (collect batch.items (map f (numpy.rows batch.arrays))))
              m
      unfolding collect
      collect_ok batch m valid v =
          let as_many : (length (map f (map array batch.items)) == length batch.items) ≡ true =
            (==_iff _ _).1 (length-map f _ ∙ length-map array batch.items) in
          rw (valid.rows_eq, as_many) (Ensures-ok _ m (zip_full batch.items, v))

      -- With fuel for the length of a valid batch, and a valid cap, over an adapter that returns
      -- `f` of each row whenever it does not run out of memory, that does so only above a positive
      -- capacity, and whose cleanup succeeds, `predict` completes every item: it returns `f` of
      -- each item's array, in order, and raises nothing.
      pub predict_complete :
          (fuel : ℕ) (batch : InferenceBatch Item numpy.Stacked) (m : Machine W)
          → length batch.items ≤ fuel
          → IsBatch numpy array batch
          → IsValid m.batch_size
          → Ensures (Completes batch.items) Never (predict numpy array adapter fuel batch) m
      unfolding predict after_reply
      predict_complete zero batch m enough valid v = absurd (omega (arith, valid.nonempty))
      predict_complete (suc fuel) batch m enough valid v =
          let (reply, w) = adapter.predict batch.arrays m.world in
          let moved : Machine W = record m { world = w } in
          record {
            holds = elim (rowwise.replies batch.arrays m.world) [
              | inl e ↦
                  subst
                    (λ r. Post (Completes batch.items) Never (
                      after_reply numpy array adapter (predict numpy array adapter fuel) batch r
                        moved))
                    (sym e) (collect_ok batch moved valid v).holds
              | inr (message, e, large) ↦
                  let many : 1 < length batch.items =
                    let rows_many : length (numpy.rows batch.arrays) ≡ length batch.items =
                      ap length valid.rows_eq ∙ length-map array batch.items in
                    omega (arith, rowwise.positive) in
                  subst
                    (λ r. Post (Completes batch.items) Never (
                      after_reply numpy array adapter (predict numpy array adapter fuel) batch r
                        moved))
                    (sym e)
                    (recover_ok (predict numpy array adapter fuel) batch moved
                      (λ cut t cut_valid smaller tv.
                        predict_complete fuel cut t (omega arith) cut_valid tv)
                      valid many v).holds
            ];
          }
