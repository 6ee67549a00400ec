-- ===== src/Plan/RegionExpander.antt =====
-- ssat/core/plan/region_expander.py and region_expander_dispatch.py, with the built-in expanders of
-- ssat/core/plan/region_expander_factory.py in their order.
use region_sensitivity.Prelude.{
  Bool, true, false, not, List, [], ◌∷◌, map, str_eq, if◌then◌else◌, all,
}
use region_sensitivity.Outcome.{Result, ok, err, region_expansion_error, ◌>>=◌, ◌>>◌}
use region_sensitivity.Dict.{is_distinct}
use region_sensitivity.Work.{RegionKind, RegionSpec, SampleMeta}
use region_sensitivity.Plan.Config.{ResolvedRegionConfig}
use region_sensitivity.Plan.Expanders.{
  Provider, Expander, grid_expander, explicit_expander, sample_dependent_expander,
  random_area_match_expander, supports, or_expansion_error, expand_family,
}

abbrev pub built_in_expanders : List Expander
built_in_expanders =
    grid_expander ∷ explicit_expander ∷ sample_dependent_expander ∷ random_area_match_expander ∷ []

-- `find_family_expander`
unfoldable pub find_expander : List Expander → RegionKind → Result Expander
find_expander [] kind = err (region_expansion_error "region kind cannot be expanded from config")
find_expander (expander ∷ expanders) kind =
    if supports expander kind then ok expander else find_expander expanders kind

-- `dispatch_family_expander`
unfoldable pub dispatch :
    Provider → List Expander → SampleMeta → ResolvedRegionConfig → Result (List RegionSpec)
unfolding find_expander
dispatch provider expanders sample family = do
  expander ← find_expander expanders family.kind
  or_expansion_error "family expander execution failed"
      (expand_family provider expander sample family)

abbrev is_nil : {A : Type 0} → List A → Bool
is_nil [] = true
is_nil (_ ∷ _) = false

-- `RegionExpander._validate_instances`
unfoldable pub validate_instances : ResolvedRegionConfig → List RegionSpec → Result (Unit {0})
validate_instances family instances =
    if is_nil instances
    then err (region_expansion_error "region family produced no instances")
    else if not (all (λ (r : RegionSpec). str_eq r.region_id family.region_id) instances)
    then err
        (region_expansion_error "expanded RegionSpec.region_id must match its family region_id")
    else if not (is_distinct (map (λ (r : RegionSpec). r.region_instance_id) instances))
    then err (region_expansion_error "region family produced duplicate instance IDs")
    else ok tt

-- `RegionExpander.expand`
unfoldable pub expand : Provider → SampleMeta → ResolvedRegionConfig → Result (List RegionSpec)
unfolding dispatch validate_instances
expand provider sample family = do
  instances ← dispatch provider built_in_expanders sample family
  validate_instances family instances
  ok instances
