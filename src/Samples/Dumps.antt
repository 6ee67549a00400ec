-- ===== src/Samples/Dumps.antt =====
-- A dump of two records, over a disk that loses the first write and fails after the third.
use region_sensitivity.Prelude.{
  ℕ, refl, String, true, false, none, some, List, [], ◌∷◌, arith, All, ◌==◌,
}
use region_sensitivity.Status.{completed, predict_failed}
use region_sensitivity.Work.{grid, blur, WorkItem, check_item, is_sha256}
use region_sensitivity.Dump.Types.{CleanDumpRecord, PerturbedDumpRecord, check_clean}
use region_sensitivity.Dump.Storage.{done, lost, published_then_failed}
use region_sensitivity.Dump.Session.{directory, ConfigApi, RunManifest, Session}
use region_sensitivity.Dump.Writer.Safe.{Safe}
use region_sensitivity.Dump.Writer.Operations.{
  Operation, put_clean, put_perturbed, commit, shut, IsChecked, perform_all, perform_all-Safe,
}
use region_sensitivity.Dump.Open.{Opening}
use region_sensitivity.Dump.Reopen.{Reopens, perform_all-Reopens}

abbrev pub small_api : ConfigApi
small_api = record {
  Config = ℕ;
  Spec = ℕ;
  config_eq = λ m n. m == n;
  spec_eq = λ m n. m == n;
  adapter_spec = λ m. 0;
  flush_every = λ n. n;
}

abbrev pub some_hash : String
some_hash = "ca978112ca1bbdcafac231b39a23dc4da786eff8147c4e72b9807785afee48bb"

abbrev pub some_item : WorkItem
some_item = record {
  item_id = some_hash;
  sample_id = "cat";
  region_spec = record {
    region_id = "g";
    region_instance_id = "g/r0/c0";
    kind = grid;
    params = [];
    ref = none;
    ref_hash = none;
  };
  perturb_op = blur;
  perturb_params = [];
  invert_mask = false;
  seed_salt = 0;
  is_control = false;
}

abbrev pub failed_record : PerturbedDumpRecord ℕ
failed_record = record {
  work_item = some_item;
  status = predict_failed;
  seed_used = 7;
  logits = none;
  region_meta = none;
  effective_area_px = none;
}

abbrev pub clean_record : CleanDumpRecord ℕ
clean_record = record {
  sample_id = "cat";
  status = completed;
  model_id = "model";
  logits = some 5;
  content_hash = some some_hash;
  gt_label = none;
  original_shape = some (1 ∷ 8 ∷ 8 ∷ 3 ∷ []);
}

abbrev pub empty_manifest : RunManifest small_api
empty_manifest = record {
  resolved_config = 2;
  code_version = "1";
  adapter_spec = 0;
  environment = "";
  started_at = 0;
  finished_at = none;
  counts_by_status = λ status. 0;
  resume_events = [];
}

abbrev pub empty_session : Session small_api ℕ ℕ
empty_session = record {
  disk = record {
    fragments = record {
      clean = [];
      perturbed = [];
      index = [];
      clean_listing = 1 ∷ [];
      perturbed_listing = 2 ∷ 1 ∷ [];
      index_listing = 1 ∷ [];
    };
    stored_manifest = some empty_manifest;
    root = directory;
    folders = "clean" ∷ "perturbed" ∷ "index" ∷ [];
    has_foreign = false;
    mkdirs = [];
    fates = lost ∷ done ∷ published_then_failed ∷ [];
    clock = 1;
  };
  writer = record {
    config = 2;
    manifest = empty_manifest;
    clean_buffer = [];
    perturbed_buffer = [];
    closed = false;
    clean_statuses = [];
    item_statuses = [];
    clean_ordinal = 0;
    perturbed_ordinal = 0;
  };
}

abbrev pub same : ℕ → ℕ
same n = n

abbrev some_operations : List (Operation ℕ)
some_operations =
    put_clean clean_record ∷ put_perturbed failed_record ∷ commit ∷ commit ∷ commit ∷ shut true ∷ []

some_operations-IsChecked : All IsChecked some_operations
unfolding check_clean check_item is_sha256
some_operations-IsChecked = (refl, (refl, (tt, (tt, (tt, (tt, tt))))))

abbrev restart : Opening small_api
restart = record { config = 2; code_version = "1"; environment = "" }

pub empty_session-Safe : Safe empty_session
empty_session-Safe = record {
  sound = record {
    clean_order = omega arith;
    perturbed_order = omega arith;
    index_order = omega arith;
    clean_rows = tt;
    perturbed_rows = tt;
    linked = tt;
  };
  clean_named = tt;
  items_named = tt;
}

perform_all-Safe_example : Safe (perform_all same some_operations empty_session)
perform_all-Safe_example =
    perform_all-Safe same some_operations empty_session some_operations-IsChecked empty_session-Safe

perform_all-Reopens_example :
    Reopens (Session.disk (perform_all same some_operations empty_session)).fragments
perform_all-Reopens_example =
    perform_all-Reopens same some_operations empty_session some_operations-IsChecked
      empty_session-Safe
