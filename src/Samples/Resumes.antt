-- ===== src/Samples/Resumes.antt =====
-- A dump of one clean sample and one failed item, resumed.
use region_sensitivity.Prelude.{ℕ, ◌≡◌, refl, Bool, false, none, some, List, [], ◌∷◌, arith}
use region_sensitivity.Outcome.{ok}
use region_sensitivity.Outcome.Exec.{Ensures}
use region_sensitivity.Dict.{is_distinct, contains}
use region_sensitivity.Status.{completed, predict_failed, value}
use region_sensitivity.Work.{is_sha256, WorkChunkMeta, SampleMeta}
use region_sensitivity.Dump.Types.{clean_row, perturbed_row, index_row}
use region_sensitivity.Dump.Storage.{read_fragment}
use region_sensitivity.Dump.Sound.{IsSound}
use region_sensitivity.Dump.Session.{directory, no_root, Disk}
use region_sensitivity.Dump.Open.{Opening}
use region_sensitivity.Dump.Create.{create}
use region_sensitivity.Dump.Create.Created.{IsCreated, create_total}
use region_sensitivity.Dump.Create.Making.{IsRefusedNew}
use region_sensitivity.Resume.{ResumeIndex, open_index, pending_chunks, pending_clean_samples}
use region_sensitivity.Resume.Pending.{Leaves, IsChunkDone, IsSampleDone, pending_total}
use region_sensitivity.Samples.Dumps.{small_api, same, clean_record, failed_record, empty_manifest}

abbrev some_disk : Disk small_api ℕ
some_disk = record {
  fragments = record {
    clean = (0, clean_row same 1 clean_record ∷ []) ∷ [];
    perturbed = (0, perturbed_row same 2 failed_record ∷ []) ∷ [];
    index = (0, index_row 0 2 failed_record ∷ []) ∷ [];
    clean_listing = 1 ∷ [];
    perturbed_listing = 2 ∷ 1 ∷ [];
    index_listing = 1 ∷ [];
  };
  stored_manifest = some empty_manifest;
  root = directory;
  folders = "clean" ∷ "perturbed" ∷ "index" ∷ [];
  has_foreign = false;
  mkdirs = [];
  fates = [];
  clock = 3;
}

some_disk-IsSound : IsSound some_disk.fragments 1 1
unfolding clean_row perturbed_row index_row is_sha256 is_distinct contains read_fragment value
some_disk-IsSound = record {
  clean_order = (omega arith, omega arith);
  perturbed_order = (omega arith, omega arith);
  index_order = (omega arith, omega arith);
  clean_rows = (
    record {
      distinct = refl;
      good = (record { id = refl; status = completed; status_text = refl }, tt);
    },
    tt,
  );
  perturbed_rows = (
    record {
      distinct = refl;
      good = (record { id = refl; status = predict_failed; status_text = refl }, tt);
    },
    tt,
  );
  linked = (
    record {
      rows = perturbed_row same 2 failed_record ∷ [];
      found = refl;
      good = record {
        distinct = refl;
        good = (record { id = refl; status = predict_failed; status_text = refl }, tt);
      };
      same = refl;
    },
    tt,
  );
}

abbrev same_run : Opening small_api
same_run = record { config = 2; code_version = "1"; environment = "" }

pending_total_example :
    (index : ResumeIndex) × (open_index some_disk ≡ ok index)
    × ((retry_failed : Bool) (chunks : List WorkChunkMeta)
        → Leaves
            (IsChunkDone some_disk.fragments retry_failed)
            chunks
            (pending_chunks index retry_failed chunks))
    × ((retry_failed : Bool) (samples : List SampleMeta)
        → Leaves
            (IsSampleDone some_disk.fragments retry_failed)
            samples
            (pending_clean_samples index retry_failed samples))
pending_total_example = pending_total some_disk 1 1 empty_manifest some_disk-IsSound refl

abbrev bare_disk : Disk small_api ℕ
bare_disk = record {
  fragments = record {
    clean = [];
    perturbed = [];
    index = [];
    clean_listing = [];
    perturbed_listing = [];
    index_listing = [];
  };
  stored_manifest = none;
  root = no_root;
  folders = [];
  has_foreign = false;
  mkdirs = false ∷ false ∷ [];
  fates = [];
  clock = 0;
}

create_total_example :
    Ensures
      (IsCreated {Output = ℕ})
      (λ _ t. IsRefusedNew same_run bare_disk t)
      (create same_run)
      bare_disk
create_total_example =
    create_total same_run bare_disk
      (record { bare = λ _. (refl, refl, refl); rootless = λ _. refl }) ℕ
