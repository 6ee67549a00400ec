-- ===== src/Samples/Batches.antt =====
-- Batches of tiles, and an adapter that runs out of memory on more than two of them.
use region_sensitivity.Prelude.{
  ℕ, ◌+◌, ◌-◌, ◌≤◌, ◌<◌, ◌≡◌, refl, ◌*◌, ◌⊎◌, inl, inr, List, [], ◌∷◌, map, arith, ltb, ltb→lt,
  Bool-cases, if◌then◌else◌, length, max, All,
}
use region_sensitivity.Outcome.{Result, ok, err, adapter_out_of_memory}
use region_sensitivity.Outcome.Exec.{Ensures, pure}
use region_sensitivity.Batching.Size.{
  BatchSizeState, IsValid, record_oom, record_oom_total, IsLater, IsLargest,
}
use region_sensitivity.Batching.Batch.{
  InferenceBatch, IsFrames, IsBatch, slice_batch, slice_batch_total,
}
use region_sensitivity.Batching.Rebatcher.{rebatch}
use region_sensitivity.Batching.Rebatcher.Consumed.{
  Consumer, receive, items_received, concat, IsUnderCap, rebatch-in_order,
}
use region_sensitivity.Batching.Splitter.{Adapter, Machine, predict}
use region_sensitivity.Batching.Splitter.Rule.{predict_rule}
use region_sensitivity.Batching.Splitter.Steps.{Returned, Raised}
use region_sensitivity.Batching.Splitter.Capacity.{IsRowwise, full, predict_complete}
use region_sensitivity.Samples.Arrays.{Tile, Tiles, tiles}

abbrev tile : ℕ → Tile
tile n = record { number = n; dims = 1 ∷ 2 ∷ 2 ∷ 3 ∷ [] }

abbrev self : Tile → Tile
self t = t

abbrev five_tiles : List Tile
five_tiles = tile 1 ∷ tile 2 ∷ tile 3 ∷ tile 4 ∷ tile 5 ∷ []

abbrev five : InferenceBatch Tile Tiles
five = record {
  items = five_tiles;
  arrays = record { tiles = five_tiles; dims = 1 ∷ 2 ∷ 2 ∷ 3 ∷ [] };
}

abbrev pub number_of : Tile → ℕ
number_of t = Tile.number t

abbrev tile-IsFrames : (n : ℕ) → IsFrames tiles self (tile n)
tile-IsFrames n = record { uint8 = refl; four_axes = refl }

abbrev five-IsBatch : IsBatch tiles self five
five-IsBatch = record {
  nonempty = omega arith;
  rows_eq = refl;
  same_shape = (refl, (refl, (refl, (refl, (refl, tt)))));
  uint8 = refl;
  five_axes = refl;
}

abbrev reply_for : Tiles → Result (List ℕ)
reply_for x =
    if ltb 2 (length (Tiles.tiles x))
    then err (adapter_out_of_memory "more than two")
    else ok (map number_of (Tiles.tiles x))

abbrev pub small_adapter : Adapter ℕ Tiles ℕ
small_adapter = record {
  predict = λ x calls. (reply_for x, calls + 1);
  cleanup_after_oom = λ calls. (ok tt, calls);
}

pub small_adapter-IsRowwise : IsRowwise tiles self small_adapter number_of 2
small_adapter-IsRowwise = record {
  positive = omega arith;
  replies = λ x w. elim (Bool-cases (ltb 2 (length (Tiles.tiles x)))) [
    | inl large ↦ inr ("more than two", rw large refl, ltb→lt _ _ large)
    | inr small ↦ inl (rw small refl)
  ];
  cleans = λ w. refl;
}

abbrev pub fresh : Machine ℕ
fresh = record {
  world = 0;
  batch_size = record { initial_size = 8; current_size = 8; oom_events = 0 };
}

abbrev pub fresh-IsValid : IsValid (fresh.batch_size)
fresh-IsValid = record { positive = omega arith; below_initial = omega arith }

record_oom_total_example :
    (state' : BatchSizeState) × (record_oom 5 fresh.batch_size ≡ ok state')
    × IsValid state'
    × IsLater fresh.batch_size state'
    × (state'.oom_events ≡ 0 + 1)
    × IsLargest (λ m. (m ≤ 8) × (m ≡ 1 ⊎ m * 2 ≤ 5)) state'.current_size
record_oom_total_example = record_oom_total 5 fresh.batch_size (omega arith) fresh-IsValid

slice_batch_total_example :
    (cut : InferenceBatch Tile Tiles) × (slice_batch tiles self five 2 5 ≡ ok cut)
    × (cut.items ≡ tile 3 ∷ tile 4 ∷ tile 5 ∷ [])
    × IsBatch tiles self cut
slice_batch_total_example =
    slice_batch_total tiles self five 2 5 five-IsBatch (omega arith) (omega arith)

predict_rule_example :
    Ensures
      (Returned tiles self small_adapter five fresh.batch_size)
      (Raised tiles self small_adapter fresh.batch_size)
      (predict tiles self small_adapter 5 five)
      fresh
predict_rule_example =
    predict_rule tiles self small_adapter 5 five fresh (omega arith) five-IsBatch fresh-IsValid

predict_complete_example :
    Ensures
      (λ rs (t : Machine ℕ).
        (rs ≡ full tiles self small_adapter number_of five_tiles) × IsValid t.batch_size)
      (λ e t. ⊥)
      (predict tiles self small_adapter 5 five)
      fresh
predict_complete_example =
    predict_complete tiles self small_adapter number_of 2 small_adapter-IsRowwise 5 five fresh
      (omega arith) five-IsBatch fresh-IsValid

-- each batch leaves a smaller cap
abbrev shrink : InferenceBatch Tile Tiles → ℕ → ℕ
shrink batch size = max 1 (size - 1)

shrink-positive : (batch : InferenceBatch Tile Tiles) (size : ℕ) → 0 < size → 0 < shrink batch size
shrink-positive batch size h = omega arith

rebatch-in_order_example :
    Ensures
      (λ _ (c : Consumer (InferenceBatch Tile Tiles)).
        (items_received tiles self shrink c.received
          ≡ concat tiles self shrink (five_tiles ∷ five_tiles ∷ []))
        × All (IsUnderCap tiles self shrink) c.received)
      (λ _ _. ⊥)
      (rebatch tiles self
        (λ c. Consumer.cap c)
        (receive tiles self shrink)
        (λ source. pure source)
        (five_tiles ∷ five_tiles ∷ []))
      (record { cap = 3; received = [] })
rebatch-in_order_example =
    rebatch-in_order tiles self shrink shrink-positive (five_tiles ∷ five_tiles ∷ []) 3
      (omega arith) (five_frames, (five_frames, tt))
  where
    five_frames : All (IsFrames tiles self) five_tiles
    five_frames = (
      tile-IsFrames 1,
      (tile-IsFrames 2, (tile-IsFrames 3, (tile-IsFrames 4, (tile-IsFrames 5, tt)))),
    )
