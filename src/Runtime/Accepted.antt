-- ===== src/Runtime/Accepted.antt =====
-- What a worker prepares passes the validation of the main process.
pub mod Validated
use region_sensitivity.Prelude.{
  ℕ, ◌+◌, ◌≡◌, refl, sym, ap, ap₂, subst, ◌∙◌, ◌⊎◌, inl, inr, Bool, true, false, not, ◌&&◌, ◌||◌,
  String, Option, List, [], ◌∷◌, ◌++◌, map, map-append, append-nil, arith, str_eq, eq_iff,
  if◌then◌else◌, Bool-cases, &&_true, length, take, ◌==◌, ==_iff, all,
}
use region_sensitivity.Numpy.{Numpy}
use region_sensitivity.Runtime.Items.{Masks, mask_fits}
use region_sensitivity.Outcome.{Result, ok, err, ◌>>=◌}
use region_sensitivity.Outcome.Yields.{
  Yields, Yields-ok, Yields-err, Yields-bind, Yields-then, Yields-of, Yields-if, Yields-use,
}
use region_sensitivity.Dict.{Dict, contains, is_distinct}
use region_sensitivity.Status.{completed, prepare_failed}
use region_sensitivity.Work.{WorkItem, WorkChunk}
use region_sensitivity.Dump.Types.{RegionMeta}
use region_sensitivity.Plan.Chunks.{item_ids, is_nil}
use region_sensitivity.Plan.Builder.{texts_eq}
use region_sensitivity.Plan.Builder.Materialize.{texts_eq_refl}
use region_sensitivity.Runtime.Transfer.{ItemMeta, check_item_meta, PreparedChunk, check_prepared}
use region_sensitivity.Runtime.Worker.{
  Attempt, prepared, not_prepared, Progress, none_yet, after_attempt, prepare_items, prepare_chunk,
}
use region_sensitivity.Runtime.Validate.{
  meta_ids, keep, items_by_id, returned, is_failed_prefix, is_complete, validate_prepared_chunk,
}
use region_sensitivity.Runtime.Distinct.{
  Split, split_end, to_success, to_failure, Split-keep, Split-distinct, Split-known, prefix_take,
  prefix_known, prefix_distinct,
}

-- What the loop over the items leaves: it has gone through all of them, or has stopped after the
-- first failure.
pub data Loop (fail_fast : Bool) (ids s f : List String) : Type 0 where
  all_tried : Split ids s f → (fail_fast ≡ true → f ≡ []) → Loop fail_fast ids s f
  stopped :
      (id : String) (later : List String)
      → fail_fast ≡ true
      → f ≡ id ∷ []
      → ids ≡ s ++ id ∷ later
      → Loop fail_fast ids s f

check_item_meta-eq : (m checked : ItemMeta) → check_item_meta m ≡ ok checked → checked ≡ m
unfolding check_item_meta
check_item_meta-eq m checked h = ground arith

Loop-success :
    (fail_fast : Bool) (id : String) (ids s f : List String)
    → Loop fail_fast ids s f
    → Loop fail_fast (id ∷ ids) (id ∷ s) f
Loop-success fail_fast id ids s f (all_tried split none) =
    all_tried (to_success id ids s f split) none
Loop-success fail_fast id ids s f (stopped x later fast one e) =
    stopped x later fast one (ap (λ xs. id ∷ xs) e)

module _ (numpy : Numpy) (masks : Masks numpy) {Sample : Type 0} (fail_fast : Bool)
    (attempt : Sample → WorkItem → Attempt numpy.Array masks.Mask)
    (shape_of : Sample → List ℕ) where
  abbrev HasLooped : List WorkItem → Progress numpy.Array masks.Mask → Type 0
  HasLooped items lists =
      Loop fail_fast (item_ids items) (meta_ids (Progress.successful lists))
        (meta_ids (Progress.failed lists))

  -- after a failure: nothing more, or the rest of the loop
  abbrev Follows : List WorkItem → Progress numpy.Array masks.Mask → Type 0
  Follows items lists =
      ((fail_fast ≡ true) × (lists ≡ none_yet numpy masks fail_fast attempt shape_of))
      ⊎ ((fail_fast ≡ false) × HasLooped items lists)

  failure-Loop :
      (item : WorkItem) (items : List WorkItem) (lists : Progress numpy.Array masks.Mask)
      → Follows items lists
      → Loop fail_fast
          (item_ids (item ∷ items))
          (meta_ids lists.successful)
          (item.item_id ∷ meta_ids lists.failed)
  failure-Loop item items lists (inl (fast, e)) =
      subst
        (λ (l : Progress numpy.Array masks.Mask).
          Loop fail_fast (item_ids (item ∷ items)) (meta_ids l.successful)
            (item.item_id ∷ meta_ids l.failed))
        (sym e) (stopped item.item_id (item_ids items) fast refl refl)
  failure-Loop item items lists (inr (slow, all_tried split none)) =
      all_tried (to_failure item.item_id _ _ _ split) (λ fast. cc)
  failure-Loop item items lists (inr (slow, stopped id later fast one e)) = cc

  after_attempt-Loop :
      (item : WorkItem) (items : List WorkItem) (tried : Attempt numpy.Array masks.Mask)
      (rest : Result (Progress numpy.Array masks.Mask))
      → Yields (HasLooped items) rest
      → Yields
          (HasLooped (item ∷ items))
          (after_attempt numpy masks fail_fast attempt shape_of item tried rest)
  unfolding after_attempt
  after_attempt-Loop item items (prepared a m region_meta) rest h =
      Yields-bind (check_item_meta _) _ λ meta made. Yields-then rest _ h λ lists looped.
        let same = ap (λ x. ItemMeta.item_id x) (check_item_meta-eq _ meta made) in
        Yields-ok _ (
          subst
            (λ x.
              Loop fail_fast (item_ids (item ∷ items)) (x ∷ meta_ids lists.successful)
                (meta_ids lists.failed))
            (sym same) (Loop-success fail_fast item.item_id _ _ _ looped))
  after_attempt-Loop item items (not_prepared region_meta) rest h =
      Yields-bind (check_item_meta _) _ λ meta made.
        Yields-then
          (if fail_fast then ok (none_yet numpy masks fail_fast attempt shape_of) else rest) _
          (Yields-if {P = Follows items} fail_fast _ rest (λ e. Yields-ok _ (inl (e, refl)))
            (λ e. Yields-of rest (λ lists le. inr (e, Yields-use rest lists h le))))
          λ lists follows.
            let same = ap (λ x. ItemMeta.item_id x) (check_item_meta-eq _ meta made) in
            Yields-ok _ (
              subst
                (λ x.
                  Loop fail_fast (item_ids (item ∷ items)) (meta_ids lists.successful)
                    (x ∷ meta_ids lists.failed))
                (sym same) (failure-Loop item items lists follows))

  pub prepare_items-Loop :
      (sample : Sample) (items : List WorkItem)
      → Yields (HasLooped items) (prepare_items numpy masks fail_fast attempt shape_of sample items)
  unfolding prepare_items
  prepare_items-Loop sample [] = Yields-ok _ (all_tried split_end (λ _. refl))
  prepare_items-Loop sample (item ∷ items) =
      after_attempt-Loop item items (attempt sample item) _ (prepare_items-Loop sample items)
