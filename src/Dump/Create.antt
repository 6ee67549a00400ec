-- ===== src/Dump/Create.antt =====
-- Creating a dump: the constructor of `DumpWriter` with `mode="create"` in
-- ssat/core/dump/writer.py.
pub mod Making
pub mod Created
use region_sensitivity.Prelude.{
  ◌≡◌, String, Bool, true, false, not, ◌&&◌, none, List, [], ◌∷◌, ◌++◌, if◌then◌else◌,
}
use region_sensitivity.Outcome.{ok, err, value_error, dump_error, os_error}
use region_sensitivity.Outcome.Exec.{Exec, pure, raise, gets, ◌>>=◌, ◌>>◌}
use region_sensitivity.Work.{is_blank}
use region_sensitivity.Dump.Session.{
  ConfigApi, Root, no_root, directory, other_file, Disk, Writer, is_nil,
}
use region_sensitivity.Dump.Open.{Opening, new_manifest, is_absent, write_first}

abbrev pub mkdir_fails : List Bool → Bool
mkdir_fails [] = false
mkdir_fails (fails ∷ _) = fails

abbrev pub later_mkdirs : List Bool → List Bool
later_mkdirs [] = []
later_mkdirs (_ ∷ mkdirs) = mkdirs

module _ {api : ConfigApi} {Logits : Type 0} where
  -- `not any(self._root.iterdir())`
  unfoldable pub is_empty_disk : Disk api Logits → Bool
  is_empty_disk disk = is_absent disk.stored_manifest && is_nil disk.folders && not disk.has_foreign

  -- the checks of a root that exists
  abbrev pub root_checked : Root → Exec (Disk api Logits) Unit
  unfolding is_empty_disk
  root_checked no_root disk = (ok tt, disk)
  root_checked other_file disk = (err (dump_error "dump root is not a directory"), disk)
  root_checked directory disk =
      if is_empty_disk disk
      then (ok tt, disk)
      else (err (dump_error "create mode requires an empty dump root"), disk)

  unfoldable pub check_root : Exec (Disk api Logits) Unit
  check_root disk = root_checked disk.root disk

  -- a `mkdir` that has something to make
  unfoldable pub mkdir : (Disk api Logits → Disk api Logits) → Exec (Disk api Logits) Unit
  mkdir make disk =
      let next = record disk { mkdirs = later_mkdirs disk.mkdirs } in
      if mkdir_fails disk.mkdirs then (err (os_error "mkdir failed"), next) else (ok tt, make next)

  abbrev pub with_root : Disk api Logits → Disk api Logits
  with_root disk = record disk { root = directory }

  abbrev pub with_folder : String → Disk api Logits → Disk api Logits
  with_folder name disk = record disk { folders = disk.folders ++ name ∷ [] }

  abbrev pub root_made : Root → Exec (Disk api Logits) Unit
  unfolding mkdir
  root_made directory disk = (ok tt, disk)
  root_made _ disk = mkdir with_root disk

  -- `self._root.mkdir(parents=True, exist_ok=True)`
  unfoldable pub make_root : Exec (Disk api Logits) Unit
  make_root disk = root_made disk.root disk

  -- `(self._root / name).mkdir()`
  unfoldable pub make_folder : String → Exec (Disk api Logits) Unit
  unfolding mkdir
  make_folder name = mkdir (with_folder name)

module _ {api : ConfigApi} {Output Logits : Type 0} where
  abbrev pub first_writer : Opening api → Disk api Logits → Writer api Output
  unfolding new_manifest
  first_writer o disk = record {
    config = o.config;
    manifest = new_manifest o disk.clock;
    clean_buffer = [];
    perturbed_buffer = [];
    closed = false;
    clean_statuses = [];
    item_statuses = [];
    clean_ordinal = 0;
    perturbed_ordinal = 0;
  }

  -- `_initialize_new_run` up to the write of the manifest
  unfoldable pub new_writer : Opening api → Exec (Disk api Logits) (Writer api Output)
  unfolding check_root make_root make_folder
  new_writer o = do
    check_root
    make_root
    make_folder "clean"
    make_folder "perturbed"
    make_folder "index"
    gets (first_writer o)

  -- `DumpWriter(..., mode="create")`
  unfoldable pub create : Opening api → Exec (Disk api Logits) (Writer api Output)
  unfolding new_writer write_first
  create o = do
    if is_blank o.code_version
        then raise (value_error "code_version must not be empty")
        else pure tt
    w ← new_writer o
    write_first (ok w)
