-- ===== src/Batching/Splitter/Rule.antt =====
-- The branches of `BatchSplitter.predict`, and the whole.
use region_sensitivity.Prelude.{
  ℕ, zero, suc, ◌+◌, ◌*◌, ◌-◌, ◌/◌, ◌≤◌, ◌≡◌, refl, sym, ap, ap₂, subst, ◌∙◌, ◌≢◌, inl, inr, List,
  [], ◌∷◌, ◌++◌, map-append, arith, ◌==◌, ==_iff, Bool-cases, length, All-append, length-take,
  length-drop,
}
use region_sensitivity.Numpy.{Numpy}
use region_sensitivity.Outcome.{Result, ok, err, contract_error, adapter_out_of_memory}
use region_sensitivity.Outcome.Exec.{
  Exec, lift, Ensures, Ensures-pure, Ensures-raise, Ensures-ok, Ensures-err, Ensures-bind,
  Ensures-bind_ok, Ensures-if, Ensures-weaken,
}
use region_sensitivity.Batching.Size.{IsValid, IsLater, IsLater-refl, IsLater-trans}
use region_sensitivity.Batching.Batch.{InferenceBatch, IsBatch, slice_batch_total}
use region_sensitivity.Batching.Splitter.{
  PredictionResult, is_result, Adapter, Machine, collect, skip_first, split, recover, after_reply,
  predict,
}
use region_sensitivity.Batching.Splitter.Results.{
  half_split, halves_eq, zip_results_lem, failed_lem,
}
use region_sensitivity.Batching.Splitter.Steps.{
  Raised, Returned, HasRecorded, Recursive, cleanup_rule, size_rule, Raised-later,
}

module _ (numpy : Numpy) {Item : Type 0} (array : Item → numpy.Array) {W Output : Type 0}
    (adapter : Adapter W numpy.Stacked Output) where
  split_rule :
      (recurse : InferenceBatch Item numpy.Stacked
        → Exec (Machine W) (List (PredictionResult Item Output)))
      (batch : InferenceBatch Item numpy.Stacked) (m : Machine W)
      → Recursive numpy array adapter recurse (length batch.items)
      → IsBatch numpy array batch
      → length batch.items ≢ 1
      → IsValid m.batch_size
      → Ensures
          (λ rs t.
            Returned numpy array adapter batch m.batch_size rs t
            × (t.batch_size.oom_events + 2 ≤ m.batch_size.oom_events + 2 * length batch.items))
          (Raised numpy array adapter m.batch_size)
          (split numpy array adapter recurse batch)
          m
  unfolding split
  split_rule recurse batch m rec valid several v =
      let n : ℕ = length batch.items in
      let (pos, smaller) = half_split n several valid.nonempty in
      let (left, le, li, lv) =
        slice_batch_total numpy array batch 0 (n / 2) valid pos (omega arith) in
      let (right, re, ri, rv) =
        slice_batch_total numpy array batch (n / 2) n valid smaller (omega arith) in
      let ll : length left.items ≡ n / 2 = rw (li, length-take) (omega arith) in
      let rl : length right.items ≡ n - n / 2 = rw (ri, length-take, length-drop) (omega arith) in
      rw (le, re)
        (Ensures-bind_ok left _ m (
          Ensures-bind_ok right _ m (
            Ensures-bind _ _ m (rec left m lv (omega arith) v) λ first t a.
              Ensures-bind _ _ t
                (Ensures-weaken _ t (rec right t rv (omega arith) a.valid) (λ _ _ h. h)
                  λ e u r. Raised-later numpy array adapter m t e u a.later r)
                λ second u b. Ensures-pure _ u (
                  record {
                    items =
                        map-append _ first second
                        ∙ ap₂ (λ x y. x ++ y) (a.items ∙ li) (b.items ∙ ri)
                        ∙ halves_eq (n / 2) batch.items;
                    results = All-append _ first second a.results b.results;
                    valid = b.valid;
                    later = IsLater-trans a.later b.later;
                    bounded = omega (arith, a.bounded, b.bounded);
                  },
                  omega (arith, a.bounded, b.bounded),
                ))))

  collect_rule :
      (batch : InferenceBatch Item numpy.Stacked) (outputs : List Output) (m : Machine W)
      → IsBatch numpy array batch
      → IsValid m.batch_size
      → Ensures
          (Returned numpy array adapter batch m.batch_size)
          (Raised numpy array adapter m.batch_size)
          (lift (collect batch.items outputs))
          m
  unfolding collect
  collect_rule batch outputs m valid v = elim (Bool-cases (length outputs == length batch.items)) [
    | inl same ↦
        let (items, results) = zip_results_lem batch.items outputs ((==_iff _ _).0 same) in
        rw same (
          Ensures-ok _ m (record {
            items = items;
            results = results;
            valid = v;
            later = IsLater-refl m.batch_size;
            bounded = omega (arith, valid.nonempty);
          }))
    | inr other ↦ rw other (
        Ensures-err _ m (record { escapes = inl tt; valid = v; later = IsLater-refl m.batch_size }))
  ]

  skip_rule :
      (batch : InferenceBatch Item numpy.Stacked) (m t : Machine W)
      → length batch.items ≡ 1
      → HasRecorded numpy array adapter m.batch_size t
      → Ensures
          (Returned numpy array adapter batch m.batch_size)
          (Raised numpy array adapter m.batch_size)
          (skip_first numpy array adapter batch.items)
          t
  unfolding skip_first is_result
  skip_rule batch m t one (v, later, more) = go batch.items refl
    where
      go :
          (items : List Item)
          → batch.items ≡ items
          → Ensures
              (Returned numpy array adapter batch m.batch_size)
              (Raised numpy array adapter m.batch_size)
              (skip_first numpy array adapter items)
              t
      go [] e = absurd (omega (arith, one, ap length e))
      go (i ∷ []) e = Ensures-pure _ t (record {
        items = sym e;
        results = (refl, tt);
        valid = v;
        later = later;
        bounded = omega (arith, one, more);
      })
      go (i ∷ j ∷ is) e = absurd (omega (arith, one, ap length e))

  recover_rule :
      (recurse : InferenceBatch Item numpy.Stacked
        → Exec (Machine W) (List (PredictionResult Item Output)))
      (batch : InferenceBatch Item numpy.Stacked) (m : Machine W)
      → Recursive numpy array adapter recurse (length batch.items)
      → IsBatch numpy array batch
      → IsValid m.batch_size
      → Ensures
          (Returned numpy array adapter batch m.batch_size)
          (Raised numpy array adapter m.batch_size)
          (recover numpy array adapter recurse batch)
          m
  unfolding recover
  recover_rule recurse batch m rec valid v =
      Ensures-bind _ _ m (cleanup_rule numpy array adapter m v) λ _ t same.
        Ensures-bind _ _ t
          (Ensures-weaken _ t
            (size_rule numpy array adapter (length batch.items) t valid.nonempty
              (subst IsValid (sym same) v))
            (λ _ u h.
              let moved : HasRecorded numpy array adapter m.batch_size u =
                subst
                  (λ b.
                    IsValid u.batch_size
                    × IsLater b u.batch_size
                    × (u.batch_size.oom_events ≡ b.oom_events + 1))
                  same h in
              moved)
            λ e u r. record {
              escapes = r.escapes;
              valid = r.valid;
              later = subst (λ b. IsLater b u.batch_size) same r.later;
            })
          λ _ u recorded.
            Ensures-if (length batch.items == 1) _ _ u
              (λ one. skip_rule batch m u ((==_iff _ _).0 one) recorded)
              λ several.
                Ensures-weaken _ u
                  (split_rule recurse batch u rec valid (λ e. cc ((==_iff _ _).1 e, several))
                    recorded.0)
                  (λ rs w (a, room). record {
                    items = a.items;
                    results = a.results;
                    valid = a.valid;
                    later = IsLater-trans recorded.1 a.later;
                    bounded = omega (arith, room, recorded.2);
                  })
                  λ e w r. Raised-later numpy array adapter m u e w recorded.1 r

  after_reply_rule :
      (recurse : InferenceBatch Item numpy.Stacked
        → Exec (Machine W) (List (PredictionResult Item Output)))
      (batch : InferenceBatch Item numpy.Stacked) (reply : Result (List Output)) (m : Machine W)
      → Recursive numpy array adapter recurse (length batch.items)
      → IsBatch numpy array batch
      → IsValid m.batch_size
      → Ensures
          (Returned numpy array adapter batch m.batch_size)
          (Raised numpy array adapter m.batch_size)
          (after_reply numpy array adapter recurse batch reply)
          m
  unfolding after_reply
  after_reply_rule recurse batch (ok outputs) m rec valid v = collect_rule batch outputs m valid v
  after_reply_rule recurse batch (err (adapter_out_of_memory _)) m rec valid v =
      recover_rule recurse batch m rec valid v
  after_reply_rule recurse batch (err (contract_error _)) m rec valid v =
      Ensures-raise _ m (record { escapes = inl tt; valid = v; later = IsLater-refl m.batch_size })
  after_reply_rule recurse batch (err _) m rec valid v =
      let (items, results) = failed_lem Output batch.items in
      Ensures-pure _ m (record {
        items = items;
        results = results;
        valid = v;
        later = IsLater-refl m.batch_size;
        bounded = omega (arith, valid.nonempty);
      })

  -- With fuel for the length of a valid batch, and a valid cap, `predict` returns one result for
  -- each item of the batch, in order, each as `PredictionResult` demands, after fewer than two
  -- out-of-memory events for each item; it raises only for a violated contract or a failing
  -- cleanup. The cap stays positive and never grows, whichever way `predict` ends.
  pub predict_rule :
      (fuel : ℕ) (batch : InferenceBatch Item numpy.Stacked) (m : Machine W)
      → length batch.items ≤ fuel
      → IsBatch numpy array batch
      → IsValid m.batch_size
      → Ensures
          (Returned numpy array adapter batch m.batch_size)
          (Raised numpy array adapter m.batch_size)
          (predict numpy array adapter fuel batch)
          m
  unfolding predict
  predict_rule zero batch m enough valid v = absurd (omega (arith, valid.nonempty))
  predict_rule (suc fuel) batch m enough valid v =
      let (reply, w) = adapter.predict batch.arrays m.world in
      let rule =
        after_reply_rule (predict numpy array adapter fuel) batch reply (record m { world = w })
          (λ cut t cut_valid smaller tv. predict_rule fuel cut t (omega arith) cut_valid tv) valid
          v in
      record { holds = rule.holds }
