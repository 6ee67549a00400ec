-- ===== src/Plan/Items.antt =====
-- The items of one sample: `_enumerate_items_for_sample`, `_make_item` and `_region_recipe` of
-- ssat/core/plan/builder.py.
pub mod Owned
use region_sensitivity.Prelude.{
  ℕ, zero, suc, ◌+◌, String, Bool, true, false, Option, none, some, List, [], ◌∷◌, ◌++◌, map,
  if◌then◌else◌, length, ◌==◌,
}
use region_sensitivity.Json.{Json, Fields, null, natural, text, object, field, nothing}
use region_sensitivity.Outcome.{
  Result, ok, err, plan_build_error, region_expansion_error, ◌>>=◌, ◌>>◌,
}
use region_sensitivity.Dict.{Dict, get, put, contains, is_distinct}
use region_sensitivity.Work.{
  RegionKind, grid, bbox_partition, skeleton_parts, gt_bbox, explicit, random_area_match,
  RegionSpec, WorkItem, SampleMeta, check_region, check_item,
}
use region_sensitivity.Plan.Text.{decimal, join}
use region_sensitivity.Plan.Config.{
  ResolvedRegionConfig, PerturbationConfig, ControlConfig, PlanConfig,
}
use region_sensitivity.Plan.Expanders.{Provider}
use region_sensitivity.Plan.RegionExpander.{expand}
use region_sensitivity.Plan.Hashing.{Digest, compute_item_id}

-- `region.kind.value`
unfoldable pub kind_value : RegionKind → String
kind_value grid = "grid"
kind_value bbox_partition = "bbox_partition"
kind_value skeleton_parts = "skeleton_parts"
kind_value gt_bbox = "gt_bbox"
kind_value explicit = "explicit"
kind_value random_area_match = "random_area_match"

abbrev fields_of : List (String × Json) → Fields
fields_of [] = nothing
fields_of ((k, v) ∷ d) = field k v (fields_of d)

abbrev optional : Option String → Json
optional none = null
optional (some t) = text t

-- `_region_recipe`
unfoldable pub region_recipe : RegionSpec → Json
unfolding kind_value
region_recipe r = object (
    field "region_id" (text r.region_id) (
      field "region_instance_id" (text r.region_instance_id) (
        field "kind" (text (kind_value r.kind)) (
          field "params" (object (fields_of r.params))
            (field "ref" (optional r.ref) (field "ref_hash" (optional r.ref_hash) nothing))))))

module _ (d : Digest) (config : PlanConfig) where
  -- `_make_item`
  unfoldable pub make_item : String → RegionSpec → PerturbationConfig → ℕ → Bool → Result WorkItem
  make_item sample_id region perturbation seed_salt is_control = check_item (record {
    item_id = compute_item_id d config.schema_version (record {
      sample_id = sample_id;
      region_spec = region;
      perturb_op = perturbation.op;
      perturb_params = perturbation.params;
      invert_mask = perturbation.invert_mask;
      seed_salt = seed_salt;
      is_control = is_control;
    });
    sample_id = sample_id;
    region_spec = region;
    perturb_op = perturbation.op;
    perturb_params = perturbation.params;
    invert_mask = perturbation.invert_mask;
    seed_salt = seed_salt;
    is_control = is_control;
  })

  -- `for seed_salt in perturbation.seed_salts`
  unfoldable pub salt_items :
      String → RegionSpec → PerturbationConfig → Bool → List ℕ → Result (List WorkItem)
  unfolding make_item
  salt_items sample_id region perturbation is_control [] = ok []
  salt_items sample_id region perturbation is_control (salt ∷ salts) = do
    item ← make_item sample_id region perturbation salt is_control
    items ← salt_items sample_id region perturbation is_control salts
    ok (item ∷ items)

  -- `for perturbation in self._config.perturbations`
  unfoldable pub perturbation_items :
      String → RegionSpec → Bool → List PerturbationConfig → Result (List WorkItem)
  unfolding salt_items
  perturbation_items sample_id region is_control [] = ok []
  perturbation_items sample_id region is_control (perturbation ∷ perturbations) = do
    first ← salt_items sample_id region perturbation is_control perturbation.seed_salts
    rest ← perturbation_items sample_id region is_control perturbations
    ok (first ++ rest)

  -- `for region_spec in runtime_regions`
  unfoldable pub region_items : String → Bool → List RegionSpec → Result (List WorkItem)
  unfolding perturbation_items
  region_items sample_id is_control [] = ok []
  region_items sample_id is_control (region ∷ regions) = do
    first ← perturbation_items sample_id region is_control config.perturbations
    rest ← region_items sample_id is_control regions
    ok (first ++ rest)

  -- The control region for one target and one index.
  unfoldable pub control_region : String → RegionSpec → ℕ → ℕ → Result RegionSpec
  unfolding region_recipe
  control_region control_region_id target request index = check_region (record {
    region_id = control_region_id;
    region_instance_id = join "control:" (
        join target.region_instance_id
          (join ":" (join (decimal request) (join ":" (decimal index)))));
    kind = random_area_match;
    params =
        ("target_region", region_recipe target)
        ∷ ("control_request_index", natural request)
        ∷ ("control_index", natural index)
        ∷ [];
    ref = none;
    ref_hash = none;
  })

  -- `for control_index in range(control.n_samples)`, from `index` on
  unfoldable pub sample_controls : String → String → RegionSpec → ℕ → ℕ → ℕ → Result (List WorkItem)
  unfolding control_region perturbation_items
  sample_controls sample_id control_id target request zero index = ok []
  sample_controls sample_id control_id target request (suc n) index = do
    region ← control_region control_id target request index
    first ← perturbation_items sample_id region true config.perturbations
    rest ← sample_controls sample_id control_id target request n (index + 1)
    ok (first ++ rest)

  -- `for target_region in target_regions`
  unfoldable pub target_controls :
      String → String → ℕ → ℕ → List RegionSpec → Result (List WorkItem)
  unfolding sample_controls
  target_controls sample_id control_id request n [] = ok []
  target_controls sample_id control_id request n (target ∷ targets) = do
    first ← sample_controls sample_id control_id target request n 0
    rest ← target_controls sample_id control_id request n targets
    ok (first ++ rest)

  abbrev pub target_regions : Option (List RegionSpec) → Result (List RegionSpec)
  target_regions none = err (plan_build_error "control references unknown region_id")
  target_regions (some regions) = ok regions

  -- `for control_request_index, control in enumerate(self._config.controls)`
  unfoldable pub control_items :
      String → Dict (List RegionSpec) → ℕ → List ControlConfig → Result (List WorkItem)
  unfolding target_controls
  control_items sample_id families request [] = ok []
  control_items sample_id families request (control ∷ controls) = do
    targets ← target_regions (get control.match_area_of families)
    let control_id = join "control:" (join control.match_area_of (join ":" (decimal request)))
    if contains control_id (map (λ (e : String × List RegionSpec). e.0) families)
        then err (plan_build_error "generated control region_id collides with config")
        else ok tt
    first ← target_controls sample_id control_id request control.n_samples targets
    rest ← control_items sample_id families (request + 1) controls
    ok (first ++ rest)

  -- `except RegionExpansionError as error: raise PlanBuildError`
  abbrev or_plan_error : Result (List RegionSpec) → Result (List RegionSpec)
  or_plan_error (err (region_expansion_error _)) = err (plan_build_error "region expansion failed")
  or_plan_error r = r

  -- The regions of each family, and all of them in order.
  unfoldable pub expand_families :
      Provider
      → SampleMeta
      → List ResolvedRegionConfig
      → Dict (List RegionSpec)
      → Result (Dict (List RegionSpec) × List RegionSpec)
  expand_families provider sample [] families = ok (families, [])
  expand_families provider sample (family ∷ rest) families = do
    instances ← or_plan_error (expand provider sample family)
    more ← expand_families provider sample rest (put family.region_id instances families)
    ok (more.0, instances ++ more.1)

  -- `_enumerate_items_for_sample`, for a sample that is known
  unfoldable pub sample_items : Provider → SampleMeta → Result (List WorkItem)
  unfolding region_items control_items expand_families
  sample_items provider sample = do
    expanded ← expand_families provider sample config.regions []
    plain ← region_items sample.sample_id false expanded.1
    if length expanded.0 == length config.regions
        then ok tt
        else err (plan_build_error "resolved config contains duplicate region_id values")
    controls ← control_items sample.sample_id expanded.0 0 config.controls
    let items = plain ++ controls
    if is_distinct (map (λ (w : WorkItem). w.item_id) items)
        then ok items
        else err (plan_build_error "duplicate item_id generated")
