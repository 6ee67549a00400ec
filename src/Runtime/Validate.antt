-- ===== src/Runtime/Validate.antt =====
-- The main process checks what workers hand over: `_validate_failed_chunk` and
-- `_validate_prepared_chunk` of ssat/core/runtime/pipeline.py.
use region_sensitivity.Prelude.{
  Bool, true, false, not, ◌&&◌, ◌||◌, String, List, [], ◌∷◌, ◌++◌, map, length, take, all, ◌==◌,
  if◌then◌else◌,
}
use region_sensitivity.Outcome.{Result, ok, err, contract_error}
use region_sensitivity.Dict.{Dict, put_all, contains, is_distinct}
use region_sensitivity.Status.{ItemStatus, load_failed}
use region_sensitivity.Work.{WorkItem, WorkChunk}
use region_sensitivity.Plan.Chunks.{item_ids, is_nil}
use region_sensitivity.Plan.Builder.{texts_eq}
use region_sensitivity.Runtime.Transfer.{ItemMeta, PreparedChunk, FailedChunk}

abbrev is_load_failed : ItemStatus → Bool
is_load_failed load_failed = true
is_load_failed _ = false

-- `_validate_failed_chunk`
unfoldable pub validate_failed_chunk : FailedChunk → WorkChunk → Result (Unit {0})
validate_failed_chunk result chunk =
    if is_load_failed result.reason && texts_eq result.item_ids (item_ids chunk.items)
    then ok tt
    else err (contract_error "failed chunk does not match materialized work")

abbrev pub meta_ids : List ItemMeta → List String
meta_ids metas = map (λ (m : ItemMeta). m.item_id) metas

-- `tuple(item_id for item_id in expected if item_id in failed_ids)`, or `not in`
unfoldable pub keep : Bool → List String → List String → List String
keep wanted failed_ids [] = []
keep wanted failed_ids (id ∷ ids) =
    let rest = keep wanted failed_ids ids in
    if contains id failed_ids
    then (if wanted then id ∷ rest else rest)
    else if wanted
    then rest
    else id ∷ rest

abbrev pub items_by_id : List WorkItem → Dict WorkItem
items_by_id items = put_all (map (λ (w : WorkItem). (w.item_id, w)) items) []

module _ {Stacked Mask : Type 0} where
  abbrev pub returned : PreparedChunk Stacked Mask → List String
  returned result = meta_ids (result.item_metas ++ result.failed_items)

  -- the branch of `fail_fast and result.failed_items`
  unfoldable pub is_failed_prefix : PreparedChunk Stacked Mask → List String → Bool
  is_failed_prefix result expected =
      length result.failed_items == 1
      && texts_eq (returned result) (take (length (returned result)) expected)

  -- the two comparisons at the end
  unfoldable pub is_complete : PreparedChunk Stacked Mask → List String → Bool
  unfolding keep
  is_complete result expected =
      let failed_ids = meta_ids result.failed_items in
      texts_eq (meta_ids result.item_metas) (keep false failed_ids expected)
      && texts_eq failed_ids (keep true failed_ids expected)

  -- `_validate_prepared_chunk`
  unfoldable pub validate_prepared_chunk :
      Bool → PreparedChunk Stacked Mask → WorkChunk → Result (Dict WorkItem)
  unfolding is_failed_prefix is_complete
  validate_prepared_chunk fail_fast result chunk =
      let expected = item_ids chunk.items in
      let known = all (λ id. contains id expected) (returned result) in
      if not (is_distinct (returned result)) || not known
      then err (contract_error "prepared chunk contains unknown or duplicate item IDs")
      else if fail_fast && not (is_nil result.failed_items)
      then (if is_failed_prefix result expected
          then ok (items_by_id chunk.items)
          else err (contract_error "fail-fast prepared chunk must return one failed prefix"))
      else if is_complete result expected
      then ok (items_by_id chunk.items)
      else err (contract_error "prepared chunk omitted or reordered materialized work items")
