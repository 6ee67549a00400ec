-- ===== src/Runtime/Accepted/Validated.antt =====
-- The validation of a worker's result: every check passes.
use region_sensitivity.Prelude.{
  ℕ, ◌≡◌, refl, sym, ap, subst, subst₂, ◌∙◌, Bool, true, false, not, ◌&&◌, String, List, [], ◌∷◌,
  ◌++◌, map-append, if◌then◌else◌, length, length-map, ◌==◌, ==_iff, all,
}
use region_sensitivity.Numpy.{Numpy}
use region_sensitivity.Runtime.Items.{Masks}
use region_sensitivity.Outcome.{ok, err, contract_error}
use region_sensitivity.Outcome.Yields.{
  Yields, Yields-unless, Yields-ok, Yields-use, Yields-bind, Yields-then, Yields-of,
}
use region_sensitivity.Dict.{contains, is_distinct}
use region_sensitivity.Status.{is_ok}
use region_sensitivity.Work.{is_sha256, WorkItem, WorkChunk}
use region_sensitivity.Plan.Chunks.{item_ids, is_nil}
use region_sensitivity.Plan.Builder.Materialize.{texts_eq_refl}
use region_sensitivity.Runtime.Transfer.{
  ItemMeta, PreparedChunk, is_prepare_failed, check_masks, check_statuses, check_prepared,
}
use region_sensitivity.Runtime.Worker.{Attempt, prepare_items, stack_all, prepare_chunk}
use region_sensitivity.Runtime.Validate.{
  meta_ids, items_by_id, returned, is_failed_prefix, is_complete, validate_prepared_chunk,
}
use region_sensitivity.Runtime.Distinct.{
  Split, Split-keep, Split-distinct, Split-known, prefix_take, prefix_known, prefix_distinct,
}
use region_sensitivity.Runtime.Accepted.{Loop, all_tried, stopped, prepare_items-Loop}

module _ {Stacked Mask : Type 0} (result : PreparedChunk Stacked Mask) where
  returned-eq : returned result ≡ meta_ids result.item_metas ++ meta_ids result.failed_items
  returned-eq = map-append (λ (m : ItemMeta). m.item_id) result.item_metas result.failed_items

  complete_of_Split :
      (expected : List String)
      → Split expected (meta_ids result.item_metas) (meta_ids result.failed_items)
      → is_distinct expected ≡ true
      → is_complete result expected ≡ true
  unfolding is_complete
  complete_of_Split expected split h =
      let (k, l) = Split-keep expected _ _ split h in
      rw (k, l)
        (rw (texts_eq_refl (meta_ids result.item_metas))
          (texts_eq_refl (meta_ids result.failed_items)))

  prefix_of_stop :
      (id : String) (later : List String)
      → meta_ids result.failed_items ≡ id ∷ []
      → is_failed_prefix result (meta_ids result.item_metas ++ id ∷ later) ≡ true
  unfolding is_failed_prefix
  prefix_of_stop id later one =
      let s = meta_ids result.item_metas in
      let all_of : returned result ≡ s ++ id ∷ [] = returned-eq ∙ ap (λ f. s ++ f) one in
      let single : (length result.failed_items == 1) ≡ true =
        (==_iff _ _).1
          (sym (length-map (λ (m : ItemMeta). m.item_id) result.failed_items) ∙ ap length one) in
      rw (single, all_of, prefix_take s later id) (texts_eq_refl (s ++ id ∷ []))

nil_of_ids : (metas : List ItemMeta) → meta_ids metas ≡ [] → is_nil metas ≡ true
nil_of_ids [] h = refl
nil_of_ids (m ∷ ms) h = cc

not_nil_of_ids :
    (metas : List ItemMeta) (id : String) → meta_ids metas ≡ id ∷ [] → is_nil metas ≡ false
not_nil_of_ids [] id h = cc
not_nil_of_ids (m ∷ ms) id h = refl

module _ {Stacked Mask : Type 0} (fail_fast : Bool) (result : PreparedChunk Stacked Mask)
    (chunk : WorkChunk) where
  no_prefix :
      (b : Bool)
      → (b ≡ true → meta_ids result.failed_items ≡ [])
      → (b && not (is_nil result.failed_items)) ≡ false
  no_prefix false h = refl
  no_prefix true h = rw (nil_of_ids result.failed_items (h refl)) refl

  -- the checks, one after the other
  passes :
      is_distinct (returned result) ≡ true
      → all (λ id. contains id (item_ids chunk.items)) (returned result) ≡ true
      → (if fail_fast && not (is_nil result.failed_items)
          then is_failed_prefix result (item_ids chunk.items)
          else is_complete result (item_ids chunk.items))
        ≡ true
      → validate_prepared_chunk fail_fast result chunk ≡ ok (items_by_id chunk.items)
  unfolding validate_prepared_chunk
  passes distinct known right = rw (distinct, known) (last_check _ _ _ right)
    where
      last_check :
          (a b c : Bool)
          → (if a then b else c) ≡ true
          → (if a
              then (if b
                  then ok (items_by_id chunk.items)
                  else err
                      (contract_error "fail-fast prepared chunk must return one failed prefix"))
              else if c
              then ok (items_by_id chunk.items)
              else err
                  (contract_error "prepared chunk omitted or reordered materialized work items"))
            ≡ ok (items_by_id chunk.items)
      last_check true b c h = rw h refl
      last_check false b c h = rw h refl

  pub Loop-validated :
      Loop fail_fast
        (item_ids chunk.items)
        (meta_ids result.item_metas)
        (meta_ids result.failed_items)
      → is_distinct (item_ids chunk.items) ≡ true
      → validate_prepared_chunk fail_fast result chunk ≡ ok (items_by_id chunk.items)
  Loop-validated (all_tried split none) h =
      let expected = item_ids chunk.items in
      let whole = returned-eq result in
      passes (subst (λ r. is_distinct r ≡ true) (sym whole) (Split-distinct expected _ _ split h))
        (subst (λ r. all (λ id. contains id expected) r ≡ true) (sym whole)
          (Split-known expected _ _ split))
        (rw (no_prefix fail_fast none) (complete_of_Split result expected split h))
  Loop-validated (stopped id later fast one e) h =
      let s = meta_ids result.item_metas in
      let expected = item_ids chunk.items in
      let whole : returned result ≡ s ++ id ∷ [] = returned-eq result ∙ ap (λ f. s ++ f) one in
      passes
        (subst (λ r. is_distinct r ≡ true) (sym whole)
          (prefix_distinct s later id (subst (λ r. is_distinct r ≡ true) e h)))
        (subst₂ (λ r t. all (λ x. contains x t) r ≡ true) (sym whole) (sym e)
          (prefix_known s later id))
        (rw (fast, not_nil_of_ids result.failed_items id one)
          (subst (λ t. is_failed_prefix result t ≡ true) (sym e)
            (prefix_of_stop result id later one)))

module _ (numpy : Numpy) (masks : Masks numpy) where
  check_statuses-eq :
      (c : PreparedChunk numpy.Stacked masks.Mask)
      → Yields (λ checked. checked ≡ c) (check_statuses numpy masks c)
  unfolding check_statuses
  check_statuses-eq c =
      Yields-unless (not (all (λ m. is_ok (ItemMeta.status m)) c.item_metas)) _ _ (
        Yields-unless (not (all (λ m. is_prepare_failed (ItemMeta.status m)) c.failed_items)) _ _
          (Yields-ok c refl))

  check_prepared-eq :
      (c : PreparedChunk numpy.Stacked masks.Mask)
      → Yields (λ checked. checked ≡ c) (check_prepared numpy masks c)
  unfolding check_prepared
  check_prepared-eq c = Yields-unless (not (is_sha256 c.chunk_id)) _ _ (
      Yields-unless (not (numpy.rows_are_uint8 c.arrays)) _ _ (
        Yields-unless (not (length (numpy.row_shape c.arrays) == 4)) _ _ (
          Yields-unless
            (not (
              length (numpy.rows c.arrays) == length c.item_metas
              && length c.masks == length c.item_metas))
            _ _
            (Yields-bind (check_masks numpy masks (numpy.row_shape c.arrays) c.masks) _
              (λ _ _. check_statuses-eq c)))))

-- What a worker prepares of a chunk with distinct items passes `_validate_prepared_chunk`, with or
-- without `fail_fast`, and whichever items cannot be prepared: if the worker returns a chunk, the
-- validation returns the chunk's items by their ids, and the chunk has the planned chunk's id.
pub prepare_chunk-validated :
    (numpy : Numpy) (masks : Masks numpy) {Sample : Type 0} (fail_fast : Bool)
    (attempt : Sample → WorkItem → Attempt numpy.Array masks.Mask) (shape_of : Sample → List ℕ)
    (chunk : WorkChunk) (sample : Sample)
    → is_distinct (item_ids chunk.items) ≡ true
    → Yields
        (λ result.
          (validate_prepared_chunk fail_fast result chunk ≡ ok (items_by_id chunk.items))
          × (PreparedChunk.chunk_id result ≡ chunk.chunk_id))
        (prepare_chunk numpy masks fail_fast attempt shape_of chunk sample)
unfolding prepare_chunk
prepare_chunk-validated numpy masks fail_fast attempt shape_of chunk sample h =
    Yields-then (prepare_items numpy masks fail_fast attempt shape_of sample chunk.items) _
      (prepare_items-Loop numpy masks fail_fast attempt shape_of sample chunk.items)
      λ lists looped.
        Yields-bind (stack_all numpy masks fail_fast attempt shape_of sample lists.arrays) _
          λ stacked _. Yields-of _ λ result checked.
            let same = Yields-use _ result (check_prepared-eq numpy masks _) checked in
            subst
              (λ (r : PreparedChunk _ _).
                (validate_prepared_chunk fail_fast r chunk ≡ ok (items_by_id chunk.items))
                × (r.chunk_id ≡ chunk.chunk_id))
              (sym same) (Loop-validated fail_fast _ chunk looped h, refl)
