-- ===== src/Runtime/Failures.antt =====
-- `PreparationFailure` of ssat/core/runtime/pipeline.py, and the failures of a chunk.
use region_sensitivity.Prelude.{ℕ, Option, none, some, List, [], ◌∷◌}
use region_sensitivity.Outcome.{Result, ok, err, other_error, ◌>>=◌}
use region_sensitivity.Dict.{Dict, get}
use region_sensitivity.Status.{ItemStatus}
use region_sensitivity.Work.{WorkItem}
use region_sensitivity.Dump.Types.{RegionMeta}
use region_sensitivity.Runtime.Transfer.{ItemMeta}
use region_sensitivity.Runtime.Items.{Seeds, derive}

pub record PreparationFailure : Type 0 where
  pub work_item : WorkItem
  pub status : ItemStatus
  pub seed_used : ℕ
  pub region_meta : Option RegionMeta

-- `work_items[item_id]`
abbrev pub known_item : Option WorkItem → Result WorkItem
known_item none = err (other_error "KeyError")
known_item (some item) = ok item

-- `_preparation_failure`
unfoldable pub preparation_failure :
    Seeds → ℕ → WorkItem → ItemStatus → Option RegionMeta → Result PreparationFailure
preparation_failure seeds global_seed item status region_meta =
    derive seeds global_seed item.item_id item.seed_salt >>= λ seed.
    ok (record { work_item = item; status = status; seed_used = seed; region_meta = region_meta })

-- the list comprehension over one kind of failure
unfoldable pub all_failures :
    Seeds → ℕ → ItemStatus → List WorkItem → Result (List PreparationFailure)
unfolding preparation_failure
all_failures seeds global_seed status [] = ok []
all_failures seeds global_seed status (item ∷ items) = do
  failure ← preparation_failure seeds global_seed item status none
  rest ← all_failures seeds global_seed status items
  ok (failure ∷ rest)

-- `for failed in result.failed_items`
unfoldable pub item_failures :
    Seeds → ℕ → Dict WorkItem → List ItemMeta → Result (List PreparationFailure)
unfolding preparation_failure
item_failures seeds global_seed work_items [] = ok []
item_failures seeds global_seed work_items (failed ∷ metas) = do
  item ← known_item (get failed.item_id work_items)
  failure ← preparation_failure seeds global_seed item failed.status failed.region_meta
  rest ← item_failures seeds global_seed work_items metas
  ok (failure ∷ rest)
