-- ===== src/Samples/Plans.antt =====
-- A plan of one sample, one cell of a grid and its control, in chunks of one item.
use region_sensitivity.Prelude.{
  ℕ, ◌+◌, ◌<◌, some, ◌*◌, length, ◌≡◌, refl, String, Bool, true, false, none, List, [], ◌∷◌, ◌==◌,
  if◌then◌else◌, All,
}
use region_sensitivity.Json.{natural}
use region_sensitivity.Outcome.{ok}
use region_sensitivity.Outcome.Exec.{Ensures}
use region_sensitivity.Dict.{Dict, get, put, put_all, is_distinct}
use region_sensitivity.Work.{
  RegionSpec, grid, blur, is_sha256, check_region, check_item, check_meta, SampleMeta,
  WorkChunkMeta,
}
use region_sensitivity.Plan.Hashing.{
  Envelope, work_item, work_chunk, IdentityPayload, compute_item_id, compute_chunk_id,
}
use region_sensitivity.Plan.Text.{decimal}
use region_sensitivity.Plan.Expanders.Grid.{IsCell, get_elem?, grid_cells_lem}
use region_sensitivity.Plan.Expanders.{grid_cells, supports, expand_family, has_grid_keys}
use region_sensitivity.Plan.RegionExpander.{expand}
use region_sensitivity.Plan.Items.{sample_items}
use region_sensitivity.Plan.Chunks.{Inputs, ChunkLocator, load_samples, items_for, plan_metas}
use region_sensitivity.Plan.Builder.{new_builder, enumerate}
use region_sensitivity.Plan.Builder.Caches.{IsCoherent, new_builder-IsCoherent}
use region_sensitivity.Plan.Builder.Enumerate.{Covers, enumerate_total}
use region_sensitivity.Plan.Builder.Materialize.{Materializes, materialize_total}

-- four digests
abbrev pick : Bool → String → String → String
pick b s t = if b then s else t

pick-is_sha256 :
    (b : Bool) (s t : String)
    → is_sha256 s ≡ true
    → is_sha256 t ≡ true
    → is_sha256 (pick b s t) ≡ true
pick-is_sha256 true s t h k = h
pick-is_sha256 false s t h k = k

abbrev control_digest : String
control_digest = "aaaaaaaaaaaaaaaaaaaaaaaaaaaaaaaaaaaaaaaaaaaaaaaaaaaaaaaaaaaaaaaa"

abbrev plain_digest : String
plain_digest = "bbbbbbbbbbbbbbbbbbbbbbbbbbbbbbbbbbbbbbbbbbbbbbbbbbbbbbbbbbbbbbbb"

abbrev first_digest : String
first_digest = "cccccccccccccccccccccccccccccccccccccccccccccccccccccccccccccccc"

abbrev second_digest : String
second_digest = "dddddddddddddddddddddddddddddddddddddddddddddddddddddddddddddddd"

abbrev small_digest : Envelope → String
small_digest (work_item version payload) =
    pick (IdentityPayload.is_control payload) control_digest plain_digest
small_digest (work_chunk version sample_id ordinal ids) =
    pick (ordinal == 0) first_digest second_digest

pub small_digest-is_sha256 : (e : Envelope) → is_sha256 (small_digest e) ≡ true
unfolding is_sha256
small_digest-is_sha256 (work_item version payload) =
    pick-is_sha256 (IdentityPayload.is_control payload) control_digest plain_digest refl refl
small_digest-is_sha256 (work_chunk version sample_id ordinal ids) =
    pick-is_sha256 (ordinal == 0) first_digest second_digest refl refl

abbrev cat : SampleMeta
cat = record { sample_id = "cat"; path = "cat.png"; gt_label = none }

abbrev pub small_inputs : Inputs
small_inputs = record {
  digest = record { digest = small_digest; digest-is_sha256 = small_digest-is_sha256 };
  config = record {
    schema_version = "1.0.0";
    regions =
        record {
          region_id = "g";
          kind = grid;
          params = ("rows", natural 1) ∷ ("cols", natural 1) ∷ [];
          ref = none;
          ref_hash = none;
        }
        ∷ [];
    perturbations =
        record { op = blur; params = []; invert_mask = false; seed_salts = 0 ∷ [] } ∷ [];
    controls = record { match_area_of = "g"; n_samples = 1 } ∷ [];
    variants_per_chunk = 1;
  };
  provider = none;
  list_samples = ok (cat ∷ []);
}

abbrev pub small_loaded : List SampleMeta × Dict SampleMeta
small_loaded = (cat ∷ [], ("cat", cat) ∷ [])

abbrev first_chunk : WorkChunkMeta
first_chunk = record { chunk_id = first_digest; sample_id = "cat"; item_ids = plain_digest ∷ [] }

abbrev second_chunk : WorkChunkMeta
second_chunk = record {
  chunk_id = second_digest;
  sample_id = "cat";
  item_ids = control_digest ∷ [];
}

abbrev pub small_plan : List WorkChunkMeta × Dict ChunkLocator
small_plan = (
  first_chunk ∷ second_chunk ∷ [],
  (first_digest, record { sample_id = "cat"; chunk_ordinal = 0; meta = first_chunk })
      ∷ (second_digest, record { sample_id = "cat"; chunk_ordinal = 1; meta = second_chunk })
      ∷ [],
)

pub small_loaded-eq : load_samples small_inputs ≡ ok small_loaded
unfolding load_samples is_distinct put_all put
small_loaded-eq = refl

pub small_plan-eq : plan_metas small_inputs small_loaded.1 small_loaded.0 [] ≡ ok small_plan
unfolding plan_metas items_for get sample_items expand supports expand_family has_grid_keys
    check_region decimal is_distinct check_item is_sha256 compute_item_id put compute_chunk_id
    check_meta
small_plan-eq = refl

enumerate_total_example :
    Ensures
      (λ metas t. Covers small_inputs small_loaded metas × IsCoherent small_inputs t)
      (λ _ _. ⊥)
      (enumerate small_inputs)
      new_builder
enumerate_total_example =
    enumerate_total small_inputs small_loaded small_plan new_builder small_loaded-eq small_plan-eq
      (new_builder-IsCoherent small_inputs)

materialize_total_example : All (Materializes small_inputs new_builder) small_plan.0
materialize_total_example =
    materialize_total small_inputs small_loaded small_plan new_builder small_loaded-eq small_plan-eq
      (new_builder-IsCoherent small_inputs)

grid_cells_lem_example :
    (length (grid_cells "g" 2 3) ≡ 2 * 3)
    × ((row col : ℕ)
        → row < 2
        → col < 3
        → (r : RegionSpec) × (get_elem? (grid_cells "g" 2 3) (row * 3 + col) ≡ some r)
          × IsCell "g" 2 3 row col r)
grid_cells_lem_example = grid_cells_lem "g" 2 3
