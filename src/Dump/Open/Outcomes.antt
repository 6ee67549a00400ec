-- ===== src/Dump/Open/Outcomes.antt =====
-- What can come of resuming a dump, and the write of the manifest at the end.
use mathlib.Core.Option
use region_sensitivity.Prelude.{
  ◌+◌, ◌≡◌, ◌≢◌, refl, String, false, Option, none, some, [], ◌∷◌, arith,
}
use region_sensitivity.Outcome.{Exception, ok, err}
use region_sensitivity.Outcome.Exec.{Post, Ensures}
use region_sensitivity.Dict.{Dict, get, put_all, last_entry}
use region_sensitivity.Status.{ItemStatus}
use region_sensitivity.Work.{is_blank}
use region_sensitivity.Dump.Storage.{
  WriteFate, done, lost, published_then_failed, atomic_write, publish,
}
use region_sensitivity.Dump.Index.{Fragments, IndexLocation, CleanLocation}
use region_sensitivity.Dump.Index.Loads.{entries, index_entry, clean_entry}
use region_sensitivity.Dump.Session.{
  ConfigApi, RunManifest, Disk, Writer, next_fate, files_of, content, later_fates, write_manifest,
}
use region_sensitivity.Dump.Writer.Safe.{IsSafe}
use region_sensitivity.Dump.Open.{Opening, statuses_of, check_provenance, opened, write_first}

pub get-statuses_of :
    {L : Type 0} (status : L → ItemStatus) (id : String) (d : Dict L)
    → get id (statuses_of status d) ≡ Option.map status (get id d)
unfolding get
get-statuses_of status id [] = refl
get-statuses_of status id ((k, l) ∷ d) = ground (arith, get-statuses_of status id d)

module _ {Logits : Type 0} where
  abbrev pub items_now : Fragments Logits → Dict ItemStatus
  items_now f = statuses_of (λ l. IndexLocation.status l) (put_all (entries index_entry f.index) [])

  abbrev pub samples_now : Fragments Logits → Dict ItemStatus
  samples_now f =
      statuses_of (λ l. CleanLocation.status l) (put_all (entries clean_entry f.clean) [])

module _ {api : ConfigApi} {Logits : Type 0} where
  -- The manifest is there and is of the same configuration, adapter and code, and the disk takes
  -- the write.
  pub record Accepts (o : Opening api) (disk : Disk api Logits) : Type 0 where
    pub has_code_version : is_blank o.code_version ≡ false
    pub manifest : RunManifest api
    pub found : disk.stored_manifest ≡ some manifest
    pub same : check_provenance o manifest ≡ ok tt
    pub writes : next_fate disk.fates ≡ done

  pub record IsRefused (o : Opening api) (old : Disk api Logits) (t : Disk api Logits)
      : Type 0 where
    pub kept : t.fragments ≡ old.fragments
    pub not_accepted : Accepts o old → ⊥

module _ {api : ConfigApi} {Output Logits : Type 0} where
  -- What a resumed writer holds: nothing to write, the statuses of the last rows of the dump, and a
  -- manifest that is on the disk. The fragments are those that were there.
  pub record IsResumed (old : Disk api Logits) (w : Writer api Output) (t : Disk api Logits)
      : Type 0 where
    pub safe : IsSafe t.fragments w
    pub kept : t.fragments ≡ old.fragments
    pub is_open : w.closed ≡ false
    pub no_clean : w.clean_buffer ≡ []
    pub no_items : w.perturbed_buffer ≡ []
    pub items :
        (id : String)
        → get id w.item_statuses
          ≡ Option.map
              (λ l. IndexLocation.status l)
              (last_entry id (entries index_entry old.fragments.index) none)
    pub samples :
        (id : String)
        → get id w.clean_statuses
          ≡ Option.map
              (λ l. CleanLocation.status l)
              (last_entry id (entries clean_entry old.fragments.clean) none)
    pub durable : t.stored_manifest ≡ some w.manifest

  pub first_write :
      (w : Writer api Output) (disk : Disk api Logits)
      → Ensures
          (λ v t. (v ≡ w) × (t.fragments ≡ disk.fragments) × (t.stored_manifest ≡ some w.manifest))
          (λ _ t. (t.fragments ≡ disk.fragments) × (next_fate disk.fates ≢ done))
          (write_first (ok w))
          disk
  unfolding write_first write_manifest atomic_write publish
  first_write w disk = record { holds = go (next_fate disk.fates) disk.stored_manifest refl }
    where
      go :
          (fate : WriteFate) (old : Option (RunManifest api))
          → next_fate disk.fates ≡ fate
          → Post
              (λ (v : Writer api Output) (t : Disk api Logits).
                (v ≡ w) × (t.fragments ≡ disk.fragments) × (t.stored_manifest ≡ some w.manifest))
              (λ _ t. (t.fragments ≡ disk.fragments) × (next_fate disk.fates ≢ done))
              (let (r, files) = atomic_write fate 0 w.manifest (files_of old) in
                opened r (record {
                  disk = record disk {
                    clock = disk.clock + 1;
                    stored_manifest = content files;
                    fates = later_fates disk.fates;
                  };
                  writer = w;
                }))
      go done none e = (refl, refl, refl)
      go done (some m) e = (refl, refl, refl)
      go lost none e = (refl, λ k. cc)
      go lost (some m) e = (refl, λ k. cc)
      go published_then_failed none e = (refl, λ k. cc)
      go published_then_failed (some m) e = (refl, λ k. cc)

  -- nothing is made or removed beside the manifest
  pub first_write_root :
      (w : Writer api Output) (disk : Disk api Logits)
      → Ensures
          (λ _ t. (t.folders ≡ disk.folders) × (t.root ≡ disk.root))
          (λ _ _. Unit)
          (write_first (ok w))
          disk
  unfolding write_first write_manifest atomic_write publish
  first_write_root w disk = record { holds = go (next_fate disk.fates) disk.stored_manifest }
    where
      go :
          (fate : WriteFate) (old : Option (RunManifest api))
          → Post
              (λ (v : Writer api Output) (t : Disk api Logits).
                (t.folders ≡ disk.folders) × (t.root ≡ disk.root))
              (λ _ _. Unit)
              (let (r, files) = atomic_write fate 0 w.manifest (files_of old) in
                opened r (record {
                  disk = record disk {
                    clock = disk.clock + 1;
                    stored_manifest = content files;
                    fates = later_fates disk.fates;
                  };
                  writer = w;
                }))
      go done none = (refl, refl)
      go done (some m) = (refl, refl)
      go lost none = tt
      go lost (some m) = tt
      go published_then_failed none = tt
      go published_then_failed (some m) = tt

  pub first_error :
      {P : Writer api Output → Disk api Logits → Type 0} {Q : Exception → Disk api Logits → Type 0}
      (e : Exception) (disk : Disk api Logits)
      → Q e disk
      → Ensures P Q (write_first (err e)) disk
  unfolding write_first
  first_error e disk h = record { holds = h }
