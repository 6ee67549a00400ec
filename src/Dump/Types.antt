-- ===== src/Dump/Types.antt =====
-- ssat/core/dump/types.py and the rows of ssat/core/dump/writer.py. `Output` stands for
-- `RawOutput`, `Logits` for the column of float32 values that numpy makes of one.
use Prim.Native.Nat.{◌^◌}
use region_sensitivity.Prelude.{
  ℕ, String, Bool, true, false, not, ◌&&◌, ◌||◌, Option, none, some, List, ltb, ◌==◌, if◌then◌else◌,
  length, all,
}
use mathlib.Core.Option
use region_sensitivity.Json.{Json}
use region_sensitivity.Outcome.{Result, ok, err, value_error, ◌>>◌}
use region_sensitivity.Status.{ItemStatus, is_ok, value}
use region_sensitivity.Work.{RegionKind, PerturbationOp, WorkItem, is_sha256, is_blank}

-- `RegionMeta` of ssat/core/region/types.py. The ratio and the confidence are floats, kept as the
-- texts of their `repr`.
pub record RegionMeta : Type 0 where
  pub intended_area_px : ℕ
  pub intended_area_ratio : String
  pub generator_kind : String
  pub generator_version : String
  pub confidence : Option String

abbrev pub is_given : {A : Type 0} → Option A → Bool
is_given none = false
is_given (some _) = true

pub record CleanDumpRecord (Output : Type 0) : Type 0 where
  pub sample_id : String
  pub status : ItemStatus
  pub model_id : String
  pub logits : Option Output
  pub content_hash : Option String
  pub gt_label : Option ℕ
  pub original_shape : Option (List ℕ)

pub record PerturbedDumpRecord (Output : Type 0) : Type 0 where
  pub work_item : WorkItem
  pub status : ItemStatus
  pub seed_used : ℕ
  pub logits : Option Output
  pub region_meta : Option RegionMeta
  pub effective_area_px : Option ℕ

abbrev hash_fits : Option String → Bool
hash_fits none = true
hash_fits (some hash) = is_sha256 hash

abbrev shape_fits : Option (List ℕ) → Bool
shape_fits none = true
shape_fits (some dims) = length dims == 4 && all (ltb 0) dims

module _ {Output : Type 0} where
  -- `_validate_status_and_logits`
  unfoldable pub check_logits : ItemStatus → Option Output → Result (Unit {0})
  check_logits status logits =
      if is_ok status && not (is_given logits)
      then err (value_error "status=ok requires logits")
      else if not (is_ok status) && is_given logits
      then err (value_error "failure statuses require logits=None")
      else ok tt

  -- `CleanDumpRecord.__post_init__`
  unfoldable pub check_clean : CleanDumpRecord Output → Result (CleanDumpRecord Output)
  unfolding check_logits
  check_clean r = do
    if is_blank r.sample_id || is_blank r.model_id
        then err (value_error "sample_id and model_id must not be empty")
        else ok tt
    check_logits r.status r.logits
    if not (hash_fits r.content_hash)
        then err (value_error "content_hash must be a lowercase SHA-256 hex digest")
        else if not (shape_fits r.original_shape)
        then err (value_error "original_shape must contain four positive dimensions")
        else if is_ok r.status && not (is_given r.content_hash && is_given r.original_shape)
        then err (value_error "successful clean records require content_hash and original_shape")
        else ok r

  -- `PerturbedDumpRecord.__post_init__`
  unfoldable pub check_perturbed : PerturbedDumpRecord Output → Result (PerturbedDumpRecord Output)
  unfolding check_logits
  check_perturbed r = do
    check_logits r.status r.logits
    if not (ltb r.seed_used (2 ^ 128))
        then err (value_error "seed_used must be an unsigned 128-bit integer")
        else if is_ok r.status && not (is_given r.region_meta)
        then err (value_error "successful perturbed records require region_meta")
        else ok r

-- A row of a clean fragment. `status` is the text that is stored.
pub record CleanRow (Logits : Type 0) : Type 0 where
  pub sample_id : String
  pub content_hash : Option String
  pub gt_label : Option ℕ
  pub status : String
  pub logits : Option Logits
  pub original_shape : Option (List ℕ)
  pub model_id : String
  pub written_at : ℕ

-- A row of a perturbed fragment. The JSON columns keep the parameters that they are printed from,
-- and `seed_used` the number that `seed_to_hex` prints.
pub record PerturbedRow (Logits : Type 0) : Type 0 where
  pub item_id : String
  pub sample_id : String
  pub status : String
  pub region_id : String
  pub region_instance_id : String
  pub region_kind : RegionKind
  pub region_params : List (String × Json)
  pub intended_area_px : Option ℕ
  pub intended_area_ratio : Option String
  pub generator_kind : Option String
  pub generator_version : Option String
  pub generator_confidence : Option String
  pub effective_area_px : Option ℕ
  pub effective_area_available : Bool
  pub perturb_op : PerturbationOp
  pub perturb_params : List (String × Json)
  pub invert_mask : Bool
  pub is_control : Bool
  pub seed_used : ℕ
  pub logits : Option Logits
  pub written_at : ℕ

-- `chunk_file`: the path of a data fragment, by its ordinal, or any other text.
pub data ChunkFile : Type 0 where
  perturbed_chunk : ℕ → ChunkFile
  other_path : String → ChunkFile

pub record IndexRow : Type 0 where
  pub item_id : String
  pub status : String
  pub chunk_file : ChunkFile
  pub written_at : ℕ

module _ {Output Logits : Type 0} (logits_list : Output → Logits) where
  -- `_clean_row`
  unfoldable pub clean_row : ℕ → CleanDumpRecord Output → CleanRow Logits
  clean_row written_at r = record {
    sample_id = r.sample_id;
    content_hash = r.content_hash;
    gt_label = r.gt_label;
    status = value r.status;
    logits = Option.map logits_list r.logits;
    original_shape = r.original_shape;
    model_id = r.model_id;
    written_at = written_at;
  }

  -- `_perturbed_row`
  unfoldable pub perturbed_row : ℕ → PerturbedDumpRecord Output → PerturbedRow Logits
  perturbed_row written_at r = record {
    item_id = r.work_item.item_id;
    sample_id = r.work_item.sample_id;
    status = value r.status;
    region_id = r.work_item.region_spec.region_id;
    region_instance_id = r.work_item.region_spec.region_instance_id;
    region_kind = r.work_item.region_spec.kind;
    region_params = r.work_item.region_spec.params;
    intended_area_px = Option.map (λ m. RegionMeta.intended_area_px m) r.region_meta;
    intended_area_ratio = Option.map (λ m. RegionMeta.intended_area_ratio m) r.region_meta;
    generator_kind = Option.map (λ m. RegionMeta.generator_kind m) r.region_meta;
    generator_version = Option.map (λ m. RegionMeta.generator_version m) r.region_meta;
    generator_confidence = Option.bind r.region_meta (λ m. RegionMeta.confidence m);
    effective_area_px = r.effective_area_px;
    effective_area_available = is_given r.effective_area_px;
    perturb_op = r.work_item.perturb_op;
    perturb_params = r.work_item.perturb_params;
    invert_mask = r.work_item.invert_mask;
    is_control = r.work_item.is_control;
    seed_used = r.seed_used;
    logits = Option.map logits_list r.logits;
    written_at = written_at;
  }

-- the row of `index_rows` for one record, in the fragment `ordinal`
unfoldable pub index_row : {Output : Type 0} → ℕ → ℕ → PerturbedDumpRecord Output → IndexRow
index_row ordinal written_at r = record {
  item_id = r.work_item.item_id;
  status = value r.status;
  chunk_file = perturbed_chunk ordinal;
  written_at = written_at;
}
