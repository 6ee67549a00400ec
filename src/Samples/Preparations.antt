-- ===== src/Samples/Preparations.antt =====
-- A chunk of two items, the second of which could not be prepared.
use region_sensitivity.Prelude.{
  ℕ, ◌≡◌, refl, Bool, true, false, not, ◌&&◌, String, none, some, List, [], ◌∷◌, str_eq, All,
  if◌then◌else◌,
}
use region_sensitivity.Outcome.{Result, ok, err}
use region_sensitivity.Outcome.Yields.{Yields}
use region_sensitivity.Dict.{contains, is_distinct}
use region_sensitivity.Status.{completed, prepare_failed}
use region_sensitivity.Work.{is_sha256, WorkItem, WorkChunk}
use region_sensitivity.Dump.Types.{RegionMeta}
use region_sensitivity.Plan.Chunks.{item_ids, is_nil}
use region_sensitivity.Runtime.Transfer.{
  is_prepare_failed, ItemMeta, check_item_meta, PreparedChunk, check_masks, check_statuses,
  check_prepared,
}
use region_sensitivity.Runtime.Worker.{Attempt, prepared, not_prepared, prepare_chunk}
use region_sensitivity.Runtime.Validate.{items_by_id, returned, validate_prepared_chunk}
use region_sensitivity.Runtime.Accounts.{IsFailedPrefix, IsAccounted, validate_prepared_chunk_sound}
use region_sensitivity.Runtime.Accepted.Validated.{prepare_chunk-validated}
use region_sensitivity.Runtime.Prepared.{Rows, AttemptFits, IsSoundFit, prepare_chunk_total}
use region_sensitivity.Runtime.Items.{mask_fits}
use region_sensitivity.Batching.Batch.{shape_eq}
use region_sensitivity.Samples.Arrays.{plain_masks, Tile, Tiles, tiles}
use region_sensitivity.Samples.Dumps.{some_hash, some_item}

abbrev pub other_hash : String
other_hash = "bbbbbbbbbbbbbbbbbbbbbbbbbbbbbbbbbbbbbbbbbbbbbbbbbbbbbbbbbbbbbbbb"

abbrev pub other_item : WorkItem
other_item = record some_item { item_id = other_hash }

abbrev pub planned_chunk : WorkChunk
planned_chunk = record {
  chunk_id = some_hash;
  sample_id = "cat";
  items = some_item ∷ other_item ∷ [];
}

abbrev prepared_chunk : PreparedChunk Tiles Bool
prepared_chunk = record {
  chunk_id = some_hash;
  arrays = record {
    tiles = record { number = 1; dims = 1 ∷ 2 ∷ 2 ∷ 3 ∷ [] } ∷ [];
    dims = 1 ∷ 2 ∷ 2 ∷ 3 ∷ [];
  };
  masks = true ∷ [];
  item_metas =
      record {
        item_id = some_hash;
        region_meta = some (record {
          intended_area_px = 4;
          intended_area_ratio = "1.0";
          generator_kind = "grid";
          generator_version = "1";
          confidence = none;
        });
        status = completed;
      }
      ∷ [];
  failed_items = record { item_id = other_hash; region_meta = none; status = prepare_failed } ∷ [];
}

validate_prepared_chunk_sound_example :
    Yields
      (λ by_id.
        (by_id ≡ items_by_id planned_chunk.items)
        × (is_distinct (returned prepared_chunk) ≡ true)
        × (if true && not (is_nil prepared_chunk.failed_items)
            then IsFailedPrefix prepared_chunk planned_chunk
            else IsAccounted prepared_chunk planned_chunk))
      (validate_prepared_chunk true prepared_chunk planned_chunk)
validate_prepared_chunk_sound_example =
    validate_prepared_chunk_sound true prepared_chunk planned_chunk

-- a worker whose attempt at the second item fails
abbrev pub area : RegionMeta
area = record {
  intended_area_px = 4;
  intended_area_ratio = "1.0";
  generator_kind = "grid";
  generator_version = "1";
  confidence = none;
}

abbrev some_attempt : Tile → WorkItem → Attempt Tile Bool
some_attempt sample item =
    if str_eq item.item_id other_hash then not_prepared none else prepared sample true area

abbrev dims_of : Tile → List ℕ
dims_of sample = Tile.dims sample

abbrev cat_tile : Tile
cat_tile = record { number = 1; dims = 1 ∷ 2 ∷ 2 ∷ 3 ∷ [] }

pub planned_chunk-distinct : is_distinct (item_ids planned_chunk.items) ≡ true
unfolding is_distinct contains
planned_chunk-distinct = refl

prepare_chunk-validated_example :
    Yields
      (λ result.
        (validate_prepared_chunk false result planned_chunk ≡ ok (items_by_id planned_chunk.items))
        × (PreparedChunk.chunk_id result ≡ some_hash))
      (prepare_chunk tiles plain_masks false some_attempt dims_of planned_chunk cat_tile)
prepare_chunk-validated_example =
    prepare_chunk-validated tiles plain_masks false some_attempt dims_of planned_chunk cat_tile
      planned_chunk-distinct

-- it does return a chunk
abbrev returns_chunk : {A : Type 0} → Result A → Bool
returns_chunk (ok _) = true
returns_chunk (err _) = false

planned_chunk-returned :
    returns_chunk
      (prepare_chunk tiles plain_masks false some_attempt dims_of planned_chunk cat_tile)
    ≡ true
unfolding prepare_chunk check_item_meta check_prepared check_masks check_statuses mask_fits shape_eq
    is_sha256
planned_chunk-returned = refl

-- the shape of the cat's tile
abbrev IsAlike : Tile → Tile → Bool → Type 0
IsAlike sample a mask = Tile.dims a ≡ 1 ∷ 2 ∷ 2 ∷ 3 ∷ []

IsAlike-IsSoundFit : IsSoundFit tiles plain_masks false some_attempt dims_of IsAlike cat_tile
unfolding mask_fits shape_eq
IsAlike-IsSoundFit = record {
  axes = refl;
  uint8 = λ a k alike. refl;
  shape = λ a k alike. alike;
  mask = λ a k alike. refl;
}

some_attempt_fits :
    (item : WorkItem)
    → AttemptFits tiles plain_masks false some_attempt dims_of IsAlike cat_tile
        (some_attempt cat_tile item)
some_attempt_fits item = go (str_eq item.item_id other_hash)
  where
    go :
        (b : Bool)
        → AttemptFits tiles plain_masks false some_attempt dims_of IsAlike cat_tile
            (if b then not_prepared none else prepared cat_tile true area)
    go true = tt
    go false = refl

planned_chunk-digests : All (λ (w : WorkItem). is_sha256 w.item_id ≡ true) planned_chunk.items
unfolding is_sha256
planned_chunk-digests = (refl, (refl, tt))

some_hash-digest : is_sha256 some_hash ≡ true
unfolding is_sha256
some_hash-digest = refl

prepare_chunk_total_example :
    (result : PreparedChunk Tiles Bool) × (prepare_chunk tiles plain_masks false some_attempt
        dims_of planned_chunk cat_tile
      ≡ ok result)
    × Rows tiles plain_masks false some_attempt dims_of IsAlike cat_tile result.item_metas
        result.arrays.tiles result.masks
    × All (λ m. is_prepare_failed (ItemMeta.status m) ≡ true) result.failed_items
    × (result.chunk_id ≡ some_hash)
prepare_chunk_total_example =
    prepare_chunk_total tiles plain_masks false some_attempt dims_of IsAlike cat_tile
      some_attempt_fits IsAlike-IsSoundFit planned_chunk some_hash-digest planned_chunk-digests
