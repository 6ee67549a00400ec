-- ===== src/Plan/Expanders.antt =====
-- ssat/core/plan/region_expanders.py: the built-in region-family expanders.
pub mod Grid
use region_sensitivity.Prelude.{
  ℕ, zero, suc, ◌+◌, String, Bool, true, false, not, ◌&&◌, Option, none, some, List, [], ◌∷◌, ◌++◌,
  ◌==◌, if◌then◌else◌, length,
}
use region_sensitivity.Json.{Json, natural}
use region_sensitivity.Outcome.{Result, ok, err, region_expansion_error, ◌>>=◌}
use region_sensitivity.Dict.{get}
use region_sensitivity.Work.{
  RegionKind, grid, bbox_partition, skeleton_parts, gt_bbox, explicit, random_area_match,
  RegionSpec, SampleMeta, check_region,
}
use region_sensitivity.Plan.Text.{decimal, join}
use region_sensitivity.Plan.Config.{ResolvedRegionConfig}

abbrev is_some : {A : Type 0} → Option A → Bool
is_some none = false
is_some (some _) = true

-- `key in params`
abbrev pub is_key : String → List (String × Json) → Bool
is_key key params = is_some (get key params)

-- `set(params) != {"rows", "cols"}`: the keys of a dict are distinct
unfoldable pub has_grid_keys : List (String × Json) → Bool
has_grid_keys params = length params == 2 && is_key "rows" params && is_key "cols" params

-- A positive `int` that is not a `bool`.
abbrev pub positive : Option Json → Option ℕ
positive (some (natural zero)) = none
positive (some (natural (suc n))) = some (suc n)
positive _ = none

abbrev pub grid_sizes : Option ℕ → Option ℕ → Result (ℕ × ℕ)
grid_sizes (some rows) (some cols) = ok (rows, cols)
grid_sizes none _ = err (region_expansion_error "grid.rows must be a positive integer")
grid_sizes (some _) none = err (region_expansion_error "grid.cols must be a positive integer")

-- `GridRegionExpander._validate_params`, with the two values that it has checked
unfoldable pub grid_params : List (String × Json) → Result (ℕ × ℕ)
grid_params params =
    if not (has_grid_keys params)
    then err (region_expansion_error "grid params must contain exactly ['cols', 'rows']")
    else grid_sizes (positive (get "rows" params)) (positive (get "cols" params))

-- One cell of the grid.
unfoldable pub grid_cell : String → ℕ → ℕ → ℕ → ℕ → RegionSpec
grid_cell region_id rows cols row col = record {
  region_id = region_id;
  region_instance_id = join region_id (join "/r" (join (decimal row) (join "/c" (decimal col))));
  kind = grid;
  params =
      ("rows", natural rows)
      ∷ ("cols", natural cols)
      ∷ ("row_index", natural row)
      ∷ ("col_index", natural col)
      ∷ [];
  ref = none;
  ref_hash = none;
}

-- `for x in range(start, start + n)`, collecting
unfoldable pub for_range : {A : Type 0} → ℕ → ℕ → (ℕ → List A) → List A
for_range zero start body = []
for_range (suc n) start body = body start ++ for_range n (start + 1) body

-- Row-major order.
unfoldable pub grid_cells : String → ℕ → ℕ → List RegionSpec
unfolding for_range grid_cell
grid_cells region_id rows cols =
    for_range rows 0 (λ row. for_range cols 0 (λ col. grid_cell region_id rows cols row col ∷ []))

-- `RegionSpec(...)` for each, with the checks of its constructor
unfoldable pub check_all : List RegionSpec → Result (List RegionSpec)
check_all [] = ok []
check_all (r ∷ rs) = do first ← check_region r; rest ← check_all rs; ok (first ∷ rest)

-- An annotation-backed provider, which may be absent.
abbrev pub Provider : Type 0
Provider = Option (SampleMeta → ResolvedRegionConfig → Result (List RegionSpec))

-- The four expander classes.
pub data Expander : Type 0 where
  grid_expander explicit_expander sample_dependent_expander random_area_match_expander : Expander

unfoldable pub supports : Expander → RegionKind → Bool
supports grid_expander grid = true
supports explicit_expander explicit = true
supports sample_dependent_expander bbox_partition = true
supports sample_dependent_expander skeleton_parts = true
supports sample_dependent_expander gt_bbox = true
supports random_area_match_expander random_area_match = true
supports _ _ = false

-- `except RegionExpansionError: raise`, `except Exception` as a RegionExpansionError
abbrev pub or_expansion_error : {A : Type 0} → String → Result A → Result A
or_expansion_error message (ok a) = ok a
or_expansion_error message (err (region_expansion_error m)) = err (region_expansion_error m)
or_expansion_error message (err _) = err (region_expansion_error message)

abbrev pub ask_provider : Provider → SampleMeta → ResolvedRegionConfig → Result (List RegionSpec)
ask_provider none sample family =
    err (region_expansion_error "region kind is not implemented; provide a SampleRegionProvider")
ask_provider (some provider) sample family =
    or_expansion_error "sample region provider failed" (provider sample family)

unfoldable pub expand_family :
    Provider → Expander → SampleMeta → ResolvedRegionConfig → Result (List RegionSpec)
unfolding grid_params check_all grid_cells
expand_family provider grid_expander sample family = do
  sizes ← grid_params family.params
  check_all (grid_cells family.region_id sizes.0 sizes.1)
expand_family provider explicit_expander sample family = check_all (
    record {
      region_id = family.region_id;
      region_instance_id = family.region_id;
      kind = family.kind;
      params = family.params;
      ref = family.ref;
      ref_hash = family.ref_hash;
    }
    ∷ [])
expand_family provider sample_dependent_expander sample family = ask_provider provider sample family
expand_family provider random_area_match_expander sample family =
    err
      (region_expansion_error "random_area_match is generated internally by area-matched controls")
