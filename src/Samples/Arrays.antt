-- ===== src/Samples/Arrays.antt =====
-- `Numpy` over arrays that are one number with a shape.
use region_sensitivity.Prelude.{
  ℕ, ◌-◌, ◌≡◌, refl, Bool, true, List, [], ◌∷◌, all, All, take, drop, if◌then◌else◌,
}
use region_sensitivity.Outcome.{Result, ok, err, value_error}
use region_sensitivity.Numpy.{Numpy}
use region_sensitivity.Runtime.Items.{Masks}
use region_sensitivity.Batching.Batch.{shape_eq, shape_eq_refl}

pub record Tile : Type 0 where
  pub number : ℕ
  pub dims : List ℕ

pub record Tiles : Type 0 where
  pub tiles : List Tile
  pub dims : List ℕ

abbrev pub always : Tile → Bool
always tile = true

abbrev pub stack_tiles : List Tile → Result Tiles
stack_tiles [] = err (value_error "need at least one array to stack")
stack_tiles (a ∷ as') =
    if all (λ b. shape_eq (Tile.dims b) (Tile.dims a)) as'
    then ok (record { tiles = a ∷ as'; dims = Tile.dims a })
    else err (value_error "all input arrays must have the same shape")

pub same_dims :
    (dims : List ℕ) (ts : List Tile)
    → All (λ b. Tile.dims b ≡ dims) ts
    → all (λ b. shape_eq (Tile.dims b) dims) ts ≡ true
same_dims dims [] h = refl
same_dims dims (t ∷ ts) h = rw (h.0) (rw (shape_eq_refl dims) (same_dims dims ts h.1))

abbrev pub tiles : Numpy
tiles = record {
  Array = Tile;
  shape = λ a. Tile.dims a;
  is_uint8 = always;
  Stacked = Tiles;
  rows = λ s. Tiles.tiles s;
  row_shape = λ s. Tiles.dims s;
  rows_are_uint8 = λ s. true;
  stack = stack_tiles;
  empty = λ ns. record { tiles = []; dims = ns };
  slice = λ s start stop. record {
    tiles = take (stop - start) (drop start (Tiles.tiles s));
    dims = Tiles.dims s;
  };
  stack_same_shape = λ a as' h. (
    record { tiles = a ∷ as'; dims = Tile.dims a },
    rw (same_dims (Tile.dims a) as' h),
    refl,
    refl,
    λ _. refl,
  );
  rows-empty = λ ns. refl;
  row_shape-empty = λ ns. refl;
  rows_are_uint8-empty = λ ns. refl;
  rows-slice = λ s start stop. refl;
  row_shape-slice = λ s start stop. refl;
  rows_are_uint8-slice = λ s start stop. refl;
}

abbrev pub plain_masks : Masks tiles
plain_masks = record {
  Mask = Bool;
  mask_shape = λ mask. 2 ∷ 2 ∷ [];
  is_bool = λ mask. true;
  frame_counts = λ mask. 4 ∷ [];
  mask_bytes = λ mask. 4;
  array_bytes = λ tile. 12;
  stacked_bytes = λ stacked. 12;
}
