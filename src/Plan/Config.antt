-- ===== src/Plan/Config.antt =====
-- What planning reads of a `ResolvedConfig` (ssat/core/config/schema.py).
use region_sensitivity.Prelude.{ℕ, String, Bool, Option, List}
use region_sensitivity.Json.{Json}
use region_sensitivity.Work.{RegionKind, PerturbationOp}

pub record ResolvedRegionConfig : Type 0 where
  pub region_id : String
  pub kind : RegionKind
  pub params : List (String × Json)
  pub ref : Option String
  pub ref_hash : Option String

pub record PerturbationConfig : Type 0 where
  pub op : PerturbationOp
  pub params : List (String × Json)
  pub invert_mask : Bool
  pub seed_salts : List ℕ

pub record ControlConfig : Type 0 where
  pub match_area_of : String
  pub n_samples : ℕ

pub record PlanConfig : Type 0 where
  pub schema_version : String
  pub regions : List ResolvedRegionConfig
  pub perturbations : List PerturbationConfig
  pub controls : List ControlConfig
  pub variants_per_chunk : ℕ
