-- ===== src/Plan/Items/Owned.antt =====
-- Every item that is enumerated for a sample carries the sample's id and has passed its checks, and
-- no two of them have one id.
use region_sensitivity.Prelude.{
  ℕ, length, ◌==◌, zero, suc, ◌+◌, ◌≡◌, String, Bool, true, false, List, [], ◌∷◌, ◌++◌, map, arith,
  All, All-append, ap, sym, subst,
}
use region_sensitivity.Outcome.{Result, ok, ◌>>=◌}
use region_sensitivity.Outcome.Yields.{
  Yields, Yields-ok, Yields-err, Yields-bind, Yields-then, Yields-check, Yields-require, Yields-if,
}
use region_sensitivity.Dict.{Dict, get, contains, is_distinct}
use region_sensitivity.Plan.Text.{decimal, join}
use region_sensitivity.Work.{RegionSpec, WorkItem, SampleMeta, check_item}
use region_sensitivity.Plan.Config.{PerturbationConfig, ControlConfig, PlanConfig}
use region_sensitivity.Plan.Expanders.{Provider}
use region_sensitivity.Plan.Hashing.{Digest}
use region_sensitivity.Plan.Items.{
  make_item, salt_items, perturbation_items, region_items, sample_controls, target_controls,
  control_items, sample_items, target_regions, expand_families,
}

pub record IsOwn (sample_id : String) (w : WorkItem) : Type 0 where
  pub named : w.sample_id ≡ sample_id
  pub checked : check_item w ≡ ok w

abbrev pub Owned : String → List WorkItem → Type 0
Owned sample_id items = All (IsOwn sample_id) items

abbrev pub AllOwned : String → List WorkItem → Type 0
AllOwned sample_id items =
    Owned sample_id items × (is_distinct (map (λ (w : WorkItem). w.item_id) items) ≡ true)

-- the loops append what two enumerations return
both-Owned :
    (sample_id : String) (m n : Result (List WorkItem))
    → Yields (Owned sample_id) m
    → Yields (Owned sample_id) n
    → Yields (Owned sample_id) (m >>= λ first. n >>= λ rest. ok (first ++ rest))
both-Owned sample_id m n h k =
    Yields-then m _ h
      λ first a. Yields-then n _ k λ rest b. Yields-ok _ (All-append _ first rest a b)

check_item-eq : (w checked : WorkItem) → check_item w ≡ ok checked → checked ≡ w
unfolding check_item
check_item-eq w checked h = ground arith

module _ (d : Digest) (config : PlanConfig) (sample_id : String) where
  salt_items-Owned :
      (region : RegionSpec) (p : PerturbationConfig) (is_control : Bool) (salts : List ℕ)
      → Yields (Owned sample_id) (salt_items d config sample_id region p is_control salts)
  unfolding salt_items make_item
  salt_items-Owned region p is_control [] = Yields-ok [] tt
  salt_items-Owned region p is_control (salt ∷ salts) = Yields-bind _ _ λ item made.
      Yields-then _ _ (salt_items-Owned region p is_control salts) λ items owned.
        let same = check_item-eq _ item made in
        Yields-ok (item ∷ items) (
          record {
            named = ap (λ w. WorkItem.sample_id w) same;
            checked = subst (λ w. check_item w ≡ ok item) (sym same) made;
          },
          owned,
        )

  perturbation_items-Owned :
      (region : RegionSpec) (is_control : Bool) (ps : List PerturbationConfig)
      → Yields (Owned sample_id) (perturbation_items d config sample_id region is_control ps)
  unfolding perturbation_items
  perturbation_items-Owned region is_control [] = Yields-ok [] tt
  perturbation_items-Owned region is_control (p ∷ ps) =
      both-Owned sample_id _ _ (salt_items-Owned region p is_control p.seed_salts)
        (perturbation_items-Owned region is_control ps)

  region_items-Owned :
      (is_control : Bool) (regions : List RegionSpec)
      → Yields (Owned sample_id) (region_items d config sample_id is_control regions)
  unfolding region_items
  region_items-Owned is_control [] = Yields-ok [] tt
  region_items-Owned is_control (region ∷ regions) =
      both-Owned sample_id _ _ (perturbation_items-Owned region is_control config.perturbations)
        (region_items-Owned is_control regions)

  sample_controls-Owned :
      (control_id : String) (target : RegionSpec) (request n index : ℕ)
      → Yields
          (Owned sample_id)
          (sample_controls d config sample_id control_id target request n index)
  unfolding sample_controls
  sample_controls-Owned control_id target request zero index = Yields-ok [] tt
  sample_controls-Owned control_id target request (suc n) index = Yields-bind _ _ λ region _.
      both-Owned sample_id _ _ (perturbation_items-Owned region true config.perturbations)
        (sample_controls-Owned control_id target request n (index + 1))

  target_controls-Owned :
      (control_id : String) (request n : ℕ) (targets : List RegionSpec)
      → Yields (Owned sample_id) (target_controls d config sample_id control_id request n targets)
  unfolding target_controls
  target_controls-Owned control_id request n [] = Yields-ok [] tt
  target_controls-Owned control_id request n (target ∷ targets) =
      both-Owned sample_id _ _ (sample_controls-Owned control_id target request n 0)
        (target_controls-Owned control_id request n targets)

  control_items-Owned :
      (families : Dict (List RegionSpec)) (request : ℕ) (controls : List ControlConfig)
      → Yields (Owned sample_id) (control_items d config sample_id families request controls)
  unfolding control_items
  control_items-Owned families request [] = Yields-ok [] tt
  control_items-Owned families request (control ∷ controls) =
      let control_id = join "control:" (join control.match_area_of (join ":" (decimal request))) in
      let names = map (λ (e : String × List RegionSpec). e.0) families in
      Yields-bind (target_regions d config (get control.match_area_of families)) _ λ targets _.
        Yields-check (contains control_id names) _ _ λ _.
          both-Owned sample_id _ _
            (target_controls-Owned control_id request control.n_samples targets)
            (control_items-Owned families (request + 1) controls)

pub sample_items-Owned :
    (d : Digest) (config : PlanConfig) (provider : Provider) (sample : SampleMeta)
    → Yields (AllOwned sample.sample_id) (sample_items d config provider sample)
unfolding sample_items
sample_items-Owned d config provider sample =
    Yields-bind (expand_families d config provider sample config.regions []) _ λ expanded _.
      Yields-then (region_items d config sample.sample_id false expanded.1) _
        (region_items-Owned d config sample.sample_id false expanded.1)
        λ plain a. Yields-require (length expanded.0 == length config.regions) _ _ λ _.
          Yields-then (control_items d config sample.sample_id expanded.0 0 config.controls) _
            (control_items-Owned d config sample.sample_id expanded.0 0 config.controls)
            λ controls b.
              let ids = map (λ (w : WorkItem). w.item_id) (plain ++ controls) in
              Yields-if (is_distinct ids) _ _
                (λ distinct.
                  Yields-ok (plain ++ controls) (All-append _ plain controls a b, distinct))
                (λ _. Yields-err _)
