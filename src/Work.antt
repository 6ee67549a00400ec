-- ===== src/Work.antt =====
-- `RegionSpec` of ssat/core/region/types.py and the work values of ssat/core/plan/types.py, with
-- the checks that their constructors make.
use Prim.Native.Char.{code}
use region_sensitivity.Prelude.{
  ℕ, String, Bool, true, false, not, ◌&&◌, ◌||◌, Option, none, some, List, [], ◌∷◌, leb, ◌==◌,
  str_eq, if◌then◌else◌, length, all,
}
use region_sensitivity.Json.{Json}
use region_sensitivity.Outcome.{Result, ok, err, value_error}

pub data RegionKind : Type 0 where
  grid bbox_partition skeleton_parts gt_bbox explicit random_area_match : RegionKind

pub data PerturbationOp : Type 0 where
  constant_fill mean_fill blur gaussian_noise patch_shuffle : PerturbationOp

unfoldable pub codes : String → List ℕ
codes String.[] = []
codes (String.◌∷◌ c s) = code c ∷ codes s

-- `character in "0123456789abcdef"`
unfoldable pub is_hex : ℕ → Bool
is_hex c = leb b'0' c && leb c b'9' || leb b'a' c && leb c b'f'

-- `_validate_sha256_hex`, and the same test elsewhere: 64 lowercase hexadecimal digits
unfoldable pub is_sha256 : String → Bool
unfolding codes is_hex
is_sha256 value = let cs = codes value in length cs == 64 && all is_hex cs

abbrev pub is_blank : String → Bool
is_blank text = str_eq text ""

pub record RegionSpec : Type 0 where
  pub region_id : String
  pub region_instance_id : String
  pub kind : RegionKind
  pub params : List (String × Json)
  pub ref : Option String
  pub ref_hash : Option String

abbrev is_given : Option String → Bool
is_given none = false
is_given (some _) = true

abbrev is_explicit : RegionKind → Bool
is_explicit explicit = true
is_explicit _ = false

-- `RegionSpec.__post_init__`
unfoldable pub check_region : RegionSpec → Result RegionSpec
check_region r =
    if is_blank r.region_id || is_blank r.region_instance_id
    then err (value_error "region_id and region_instance_id must not be empty")
    else if is_explicit r.kind && not (is_given r.ref && is_given r.ref_hash)
    then err (value_error "resolved explicit regions require ref and ref_hash")
    else if not (is_explicit r.kind) && (is_given r.ref || is_given r.ref_hash)
    then err (value_error "procedural regions cannot define ref or ref_hash")
    else ok r

pub record WorkItem : Type 0 where
  pub item_id : String
  pub sample_id : String
  pub region_spec : RegionSpec
  pub perturb_op : PerturbationOp
  pub perturb_params : List (String × Json)
  pub invert_mask : Bool
  pub seed_salt : ℕ
  pub is_control : Bool

-- `WorkItem.__post_init__`; a seed salt is a natural number here
unfoldable pub check_item : WorkItem → Result WorkItem
check_item w =
    if not (is_sha256 w.item_id)
    then err (value_error "item_id must be a 64-character lowercase SHA-256 hex digest")
    else if is_blank w.sample_id
    then err (value_error "sample_id must not be empty")
    else ok w

pub record WorkChunkMeta : Type 0 where
  pub chunk_id : String
  pub sample_id : String
  pub item_ids : List String

abbrev pub is_nil : {A : Type 0} → List A → Bool
is_nil [] = true
is_nil (_ ∷ _) = false

-- `WorkChunkMeta.__post_init__`
unfoldable pub check_meta : WorkChunkMeta → Result WorkChunkMeta
check_meta m =
    if not (is_sha256 m.chunk_id)
    then err (value_error "chunk_id must be a 64-character lowercase SHA-256 hex digest")
    else if is_blank m.sample_id
    then err (value_error "sample_id must not be empty")
    else if is_nil m.item_ids
    then err (value_error "item_ids must not be empty")
    else if not (all is_sha256 m.item_ids)
    then err (value_error "item_id must be a 64-character lowercase SHA-256 hex digest")
    else ok m

pub record WorkChunk : Type 0 where
  pub chunk_id : String
  pub sample_id : String
  pub items : List WorkItem

-- `WorkChunk.__post_init__`
unfoldable pub check_chunk : WorkChunk → Result WorkChunk
check_chunk c =
    if not (is_sha256 c.chunk_id)
    then err (value_error "chunk_id must be a 64-character lowercase SHA-256 hex digest")
    else if is_blank c.sample_id
    then err (value_error "sample_id must not be empty")
    else if is_nil c.items
    then err (value_error "items must not be empty")
    else if not (all (λ (w : WorkItem). str_eq w.sample_id c.sample_id) c.items)
    then err (value_error "every work item must belong to the chunk sample_id")
    else ok c

-- `WorkChunkMeta.n_items`
abbrev pub n_items : WorkChunkMeta → ℕ
n_items m = length m.item_ids

-- `SampleMeta` of ssat/core/source/types.py
pub record SampleMeta : Type 0 where
  pub sample_id : String
  pub path : String
  pub gt_label : Option ℕ
