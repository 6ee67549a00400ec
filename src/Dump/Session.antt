-- ===== src/Dump/Session.antt =====
-- The state of a dump writer and of its disk, and the durable writes of ssat/core/dump/_storage.py
-- and ssat/core/dump/manifest.py over it. `resolved_config` is a pydantic model, which the writer
-- compares and reads only as `ConfigApi` says; environments are texts; a time is the count of the
-- readings of the clock before it.
use region_sensitivity.Prelude.{
  ℕ, ◌+◌, String, Bool, true, false, Option, none, some, List, [], ◌∷◌, if◌then◌else◌,
}
use region_sensitivity.Outcome.{ok}
use region_sensitivity.Outcome.Exec.{Exec, modify, ◌>>◌}
use region_sensitivity.Dict.{Dict}
use region_sensitivity.Status.{
  ItemStatus, completed, load_failed, prepare_failed, predict_failed, skipped_oom,
}
use region_sensitivity.Dump.Types.{
  CleanDumpRecord, PerturbedDumpRecord, CleanRow, PerturbedRow, IndexRow,
}
use region_sensitivity.Dump.Storage.{Directory, WriteFate, done, atomic_write}
use region_sensitivity.Dump.Index.{Fragments}

-- What the dump uses of a `ResolvedConfig`.
pub record ConfigApi : Type 1 where
  pub Config : Type 0
  pub Spec : Type 0
  pub config_eq : Config → Config → Bool
  pub spec_eq : Spec → Spec → Bool
  pub adapter_spec : Config → Spec
  pub flush_every : Config → ℕ

pub record RunManifest (api : ConfigApi) : Type 0 where
  pub resolved_config : api.Config
  pub code_version : String
  pub adapter_spec : api.Spec
  pub environment : String
  pub started_at : ℕ
  pub finished_at : Option ℕ
  pub counts_by_status : ItemStatus → ℕ
  pub resume_events : List (ℕ × String)

-- what there is under the path of the root
pub data Root : Type 0 where
  no_root directory other_file : Root

-- The dump directory, with what the file system will do and the clock.
pub record Disk (api : ConfigApi) (Logits : Type 0) : Type 0 where
  pub fragments : Fragments Logits
  pub stored_manifest : Option (RunManifest api)
  pub root : Root
  -- those of clean/, perturbed/ and index/ that have been made
  pub folders : List String
  -- the root holds an entry that is none of the dump's
  pub has_foreign : Bool
  pub fates : List WriteFate
  -- whether each of the coming `mkdir`s fails; without an entry, it succeeds
  pub mkdirs : List Bool
  pub clock : ℕ

pub record Writer (api : ConfigApi) (Output : Type 0) : Type 0 where
  pub config : api.Config
  pub manifest : RunManifest api
  pub clean_buffer : List (CleanDumpRecord Output)
  pub perturbed_buffer : List (PerturbedDumpRecord Output)
  pub closed : Bool
  pub clean_statuses : Dict ItemStatus
  pub item_statuses : Dict ItemStatus
  pub clean_ordinal : ℕ
  pub perturbed_ordinal : ℕ

pub record Session (api : ConfigApi) (Output Logits : Type 0) : Type 0 where
  pub disk : Disk api Logits
  pub writer : Writer api Output

-- without an entry in the list, a write succeeds
abbrev pub next_fate : List WriteFate → WriteFate
next_fate [] = done
next_fate (fate ∷ _) = fate

abbrev pub later_fates : List WriteFate → List WriteFate
later_fates [] = []
later_fates (_ ∷ fates) = fates

-- `list(statuses).count(status)` over the values of a dict
unfoldable pub same_status : ItemStatus → ItemStatus → Bool
same_status completed completed = true
same_status load_failed load_failed = true
same_status prepare_failed prepare_failed = true
same_status predict_failed predict_failed = true
same_status skipped_oom skipped_oom = true
same_status _ _ = false

unfoldable pub count_status : ItemStatus → Dict ItemStatus → ℕ
unfolding same_status
count_status status [] = 0
count_status status ((_, found) ∷ d) =
    (if same_status found status then 1 else 0) + count_status status d

abbrev pub is_nil : {A : Type 0} → List A → Bool
is_nil [] = true
is_nil (_ ∷ _) = false

-- the manifest file, as a directory of one file
abbrev pub files_of : {A : Type 0} → Option A → Directory A
files_of none = []
files_of (some a) = (0, a) ∷ []

abbrev pub content : {A : Type 0} → Directory A → Option A
content [] = none
content ((_, a) ∷ _) = some a

-- `_authoritative_counts`
unfoldable pub authoritative_counts : Dict ItemStatus → Dict ItemStatus → ItemStatus → ℕ
authoritative_counts clean items status = count_status status clean + count_status status items

module _ {api : ConfigApi} {Output Logits : Type 0} where
  -- `_now()`
  unfoldable pub now : Exec (Session api Output Logits) ℕ
  now s = (ok s.disk.clock, record s { disk = record s.disk { clock = s.disk.clock + 1 } })

  -- `atomic_write_parquet` under clean/
  unfoldable pub publish_clean : ℕ → List (CleanRow Logits) → Exec (Session api Output Logits) Unit
  publish_clean ordinal rows s =
      let disk = s.disk in
      let (r, clean) = atomic_write (next_fate disk.fates) ordinal rows disk.fragments.clean in
      (
        r,
        record s {
          disk = record disk {
            fragments = record disk.fragments { clean = clean };
            fates = later_fates disk.fates;
          };
        },
      )

  -- `atomic_write_parquet` under perturbed/
  unfoldable pub publish_perturbed :
      ℕ → List (PerturbedRow Logits) → Exec (Session api Output Logits) Unit
  publish_perturbed ordinal rows s =
      let disk = s.disk in
      let (r, perturbed) =
        atomic_write (next_fate disk.fates) ordinal rows disk.fragments.perturbed in
      (
        r,
        record s {
          disk = record disk {
            fragments = record disk.fragments { perturbed = perturbed };
            fates = later_fates disk.fates;
          };
        },
      )

  -- `atomic_write_parquet` under index/
  unfoldable pub publish_index : ℕ → List IndexRow → Exec (Session api Output Logits) Unit
  publish_index ordinal rows s =
      let disk = s.disk in
      let (r, index) = atomic_write (next_fate disk.fates) ordinal rows disk.fragments.index in
      (
        r,
        record s {
          disk = record disk {
            fragments = record disk.fragments { index = index };
            fates = later_fates disk.fates;
          };
        },
      )

  -- `write_manifest(self._manifest_path, self._manifest)`
  unfoldable pub write_manifest : Exec (Session api Output Logits) Unit
  write_manifest s =
      let disk = s.disk in
      let (r, files) =
        atomic_write (next_fate disk.fates) 0 s.writer.manifest (files_of disk.stored_manifest) in
      (
        r,
        record s {
          disk = record disk { stored_manifest = content files; fates = later_fates disk.fates };
        },
      )

  unfoldable pub on_writer :
      (Writer api Output → Writer api Output) → Exec (Session api Output Logits) Unit
  on_writer f = modify (λ s. record s { writer = f s.writer })

  -- `_write_counts`
  unfoldable pub write_counts : Exec (Session api Output Logits) Unit
  unfolding write_manifest on_writer authoritative_counts
  write_counts = do
    on_writer (λ w. record w {
      manifest = record w.manifest {
        counts_by_status = authoritative_counts w.clean_statuses w.item_statuses;
      };
    })
    write_manifest
