-- ===== src/Dump/Open.antt =====
-- Opening a dump again: the constructor of `DumpWriter` in ssat/core/dump/writer.py, and the
-- manifest's functions that it calls. The manifest that is stored has the program's schema version,
-- and its JSON is valid. A subdirectory that is missing and one that is empty are the same here.
mod Ordinals
pub mod Outcomes
pub mod Resumed
pub mod Interrupted
use region_sensitivity.Prelude.{
  ℕ, ◌+◌, ◌≡◌, String, Bool, true, false, not, ◌&&◌, Option, none, some, List, [], ◌∷◌, ◌++◌, map,
  str_eq, if◌then◌else◌,
}
use region_sensitivity.Outcome.{
  Exception, Result, ok, err, value_error, dump_error, dump_corruption_error, ◌>>=◌, ◌>>◌,
}
use region_sensitivity.Outcome.Exec.{Exec}
use region_sensitivity.Dict.{Dict}
use region_sensitivity.Status.{ItemStatus}
use region_sensitivity.Work.{is_blank}
use region_sensitivity.Dump.Storage.{next_ordinal}
use region_sensitivity.Dump.Index.{
  Fragments, IndexLocation, CleanLocation, load_index_locations, load_clean_locations,
}
use region_sensitivity.Dump.Session.{
  ConfigApi, RunManifest, Disk, Writer, Session, is_nil, authoritative_counts, write_manifest,
}

-- the arguments of the constructor
pub record Opening (api : ConfigApi) : Type 0 where
  pub config : api.Config
  pub code_version : String
  pub environment : String

abbrev pub statuses_of : {L : Type 0} → (L → ItemStatus) → Dict L → Dict ItemStatus
statuses_of status [] = []
statuses_of status ((key, location) ∷ locations) =
    (key, status location) ∷ statuses_of status locations

module _ {api : ConfigApi} where
  abbrev pub stored : Option (RunManifest api) → Result (RunManifest api)
  stored none = err (dump_corruption_error "run manifest does not exist")
  stored (some manifest) = ok manifest

  -- `new_manifest`
  unfoldable pub new_manifest : Opening api → ℕ → RunManifest api
  new_manifest o now = record {
    resolved_config = o.config;
    code_version = o.code_version;
    adapter_spec = api.adapter_spec o.config;
    environment = o.environment;
    started_at = now;
    finished_at = none;
    counts_by_status = λ status. 0;
    resume_events = [];
  }

  abbrev pub is_absent : Option (RunManifest api) → Bool
  is_absent none = true
  is_absent (some _) = false

  -- `manifest.model_copy(update=...)` of a resumed run
  unfoldable pub resumed_manifest :
      Opening api → ℕ → Dict ItemStatus → Dict ItemStatus → RunManifest api → RunManifest api
  resumed_manifest o now clean items manifest = record manifest {
    finished_at = none;
    counts_by_status = authoritative_counts clean items;
    resume_events = manifest.resume_events ++ (now, o.environment) ∷ [];
  }

  -- the three comparisons of `_initialize_resumed_run`
  unfoldable pub check_provenance : Opening api → RunManifest api → Result (Unit {0})
  check_provenance o manifest =
      if not (api.config_eq manifest.resolved_config o.config)
      then err (dump_error "resolved_config does not match the existing run manifest")
      else if not (api.spec_eq manifest.adapter_spec (api.adapter_spec o.config))
      then err (dump_error "adapter_spec does not match the existing run manifest")
      else if not (str_eq manifest.code_version o.code_version)
      then err (dump_error "code_version does not match the existing run manifest")
      else ok tt

module _ {api : ConfigApi} {Logits : Type 0} where
  -- `load_manifest`
  unfoldable pub load_manifest : Disk api Logits → Result (RunManifest api)
  load_manifest disk = stored disk.stored_manifest

module _ {api : ConfigApi} {Output Logits : Type 0} where
  -- `_initialize_resumed_run` up to the write of the manifest
  unfoldable pub resumed_writer : Opening api → Disk api Logits → Result (Writer api Output)
  unfolding load_manifest check_provenance resumed_manifest
  resumed_writer o disk = do
    manifest ← load_manifest disk
    check_provenance o manifest
    clean ← load_clean_locations disk.fragments
    items ← load_index_locations disk.fragments
    clean_next ← next_ordinal disk.fragments.clean_listing disk.fragments.clean
    perturbed_next ← next_ordinal disk.fragments.perturbed_listing disk.fragments.perturbed
    let clean_statuses = statuses_of (λ l. CleanLocation.status l) clean
    let item_statuses = statuses_of (λ l. IndexLocation.status l) items
    ok (record {
      config = o.config;
      manifest = resumed_manifest o disk.clock clean_statuses item_statuses manifest;
      clean_buffer = [];
      perturbed_buffer = [];
      closed = false;
      clean_statuses = clean_statuses;
      item_statuses = item_statuses;
      clean_ordinal = clean_next;
      perturbed_ordinal = perturbed_next;
    })

  abbrev pub opened :
      Result (Unit {0}) → Session api Output Logits → Result (Writer api Output) × Disk api Logits
  opened (ok _) s = (ok s.writer, s.disk)
  opened (err e) s = (err e, s.disk)

  -- the write of the manifest at the end of both, after the clock has been read
  unfoldable pub write_first :
      Result (Writer api Output) → Exec (Disk api Logits) (Writer api Output)
  unfolding write_manifest
  write_first (err e) disk = (err e, disk)
  write_first (ok w) disk =
      let (r, s) =
        write_manifest {Output = Output}
          (record { disk = record disk { clock = disk.clock + 1 }; writer = w }) in
      opened r s

  -- `DumpWriter(..., mode="resume")`
  unfoldable pub resume : Opening api → Exec (Disk api Logits) (Writer api Output)
  unfolding resumed_writer write_first
  resume o disk =
      write_first
        (if is_blank o.code_version
          then err (value_error "code_version must not be empty")
          else resumed_writer o disk)
        disk
