-- ===== src/Resume/Pending.antt =====
-- The pending work is what the dump has no last row for, or a failed one that is to be retried.
use mathlib.Core.Option
use region_sensitivity.Prelude.{
  ℕ, ◌≡◌, refl, ap, String, Bool, true, ◌&&◌, ◌||◌, Option, none, some, List, [], ◌∷◌, map, arith,
  All, Bool-cases, inl, inr,
}
use region_sensitivity.Outcome.{ok}
use region_sensitivity.Dict.{get, last_entry, get-put_all, put_all}
use region_sensitivity.Status.{ItemStatus}
use region_sensitivity.Work.{WorkChunkMeta, SampleMeta}
use region_sensitivity.Dump.Index.{Fragments, IndexLocation, CleanLocation}
use region_sensitivity.Dump.Sound.{IsSound}
use region_sensitivity.Dump.Index.Loads.{
  entries, index_entry, clean_entry, load_index_locations_sound, load_clean_locations_sound,
}
use region_sensitivity.Dump.Session.{ConfigApi, RunManifest, Disk}
use region_sensitivity.Dump.Open.{load_manifest}
use region_sensitivity.Resume.{
  ResumeIndex, open_index, item_status, clean_status, is_absent, is_not_ok, needs_work,
  pending_chunks, pending_clean_samples,
}
use region_sensitivity.Resume.Settled.{
  IsSettled, settled, absent_unsettled, failed_unsettled, needs_work-false, needs_work-true,
}

-- The second list has the members of the first that are not done, in their order.
pub data Leaves {A : Type 0} (Done : A → Type 0) : List A → List A → Type 0 where
  nothing_left : Leaves Done [] []
  done_before : (x : A) (xs ys : List A) → Done x → Leaves Done xs ys → Leaves Done (x ∷ xs) ys
  still_left :
      (x : A) (xs ys : List A) → (Done x → ⊥) → Leaves Done xs ys → Leaves Done (x ∷ xs) (x ∷ ys)

module _ {Logits : Type 0} (f : Fragments Logits) where
  -- what the last row of an identifier says
  abbrev pub item_recorded : String → Option ItemStatus
  item_recorded id =
      Option.map (λ l. IndexLocation.status l) (last_entry id (entries index_entry f.index) none)

  abbrev pub clean_recorded : String → Option ItemStatus
  clean_recorded id =
      Option.map (λ l. CleanLocation.status l) (last_entry id (entries clean_entry f.clean) none)

  abbrev pub IsChunkDone : Bool → WorkChunkMeta → Type 0
  IsChunkDone retry_failed chunk =
      All (λ id. IsSettled retry_failed (item_recorded id)) chunk.item_ids

  abbrev pub IsSampleDone : Bool → SampleMeta → Type 0
  IsSampleDone retry_failed sample = IsSettled retry_failed (clean_recorded sample.sample_id)

map_pointwise :
    (f g : String → Option ItemStatus) (same : (id : String) → f id ≡ g id) (ids : List String)
    → map f ids ≡ map g ids
map_pointwise f g same [] = refl
map_pointwise f g same (id ∷ ids) = rw (same id) (ap (λ r. g id ∷ r) (map_pointwise f g same ids))

module _ {Logits : Type 0} (f : Fragments Logits) (index : ResumeIndex)
    (items_same : (id : String) → item_status index id ≡ item_recorded f id)
    (clean_same : (id : String) → clean_status index id ≡ clean_recorded f id)
    (retry_failed : Bool) where
  pending_chunks-Leaves :
      (chunks : List WorkChunkMeta)
      → Leaves (IsChunkDone f retry_failed) chunks (pending_chunks index retry_failed chunks)
  unfolding pending_chunks
  pending_chunks-Leaves [] = nothing_left
  pending_chunks-Leaves (chunk ∷ chunks) =
      let rest = pending_chunks-Leaves chunks in
      let same = map_pointwise (item_status index) (item_recorded f) items_same chunk.item_ids in
      rw same (elim (Bool-cases (needs_work retry_failed (map (item_recorded f) chunk.item_ids))) [
        | inl work ↦ rw work (
            still_left chunk chunks _
              (needs_work-true retry_failed (item_recorded f) chunk.item_ids work) rest)
        | inr done ↦ rw done (
            done_before chunk chunks _
              (needs_work-false retry_failed (item_recorded f) chunk.item_ids done) rest)
      ])

  pending_clean_samples-Leaves :
      (samples : List SampleMeta)
      → Leaves
          (IsSampleDone f retry_failed)
          samples
          (pending_clean_samples index retry_failed samples)
  unfolding pending_clean_samples
  pending_clean_samples-Leaves [] = nothing_left
  pending_clean_samples-Leaves (sample ∷ samples) =
      let rest = pending_clean_samples-Leaves samples in
      let status = clean_recorded f sample.sample_id in
      rw (clean_same sample.sample_id)
        (elim (Bool-cases (is_absent status || (retry_failed && is_not_ok status))) [
          | inl work ↦ rw work (still_left sample samples _ (unsettled status work) rest)
          | inr done ↦ rw done (
              done_before sample samples _
                (settled retry_failed status (ground arith) (ground arith)) rest)
        ])
    where
      unsettled :
          (status : Option ItemStatus)
          → (is_absent status || (retry_failed && is_not_ok status)) ≡ true
          → IsSettled retry_failed status
          → ⊥
      unsettled status h = elim (Bool-cases (is_absent status)) [
        | inl here ↦ absent_unsettled retry_failed status here
        | inr later ↦ failed_unsettled retry_failed status (ground arith)
      ]

-- Over a sound dump with a manifest, in whatever order the file system lists its directories,
-- `open` returns an index. Whatever chunks and samples it is asked about, pending are those that
-- are not done, in their order: a chunk is done when the dump has a last row for each of its items,
-- a sample when it has a last row, and with `retry_failed` only if these rows are successes.
pub pending_total :
    {api : ConfigApi} {Logits : Type 0} (disk : Disk api Logits) (c p : ℕ)
    (manifest : RunManifest api)
    → IsSound disk.fragments c p
    → disk.stored_manifest ≡ some manifest
    → (index : ResumeIndex) × (open_index disk ≡ ok index)
      × ((retry_failed : Bool) (chunks : List WorkChunkMeta)
          → Leaves
              (IsChunkDone disk.fragments retry_failed)
              chunks
              (pending_chunks index retry_failed chunks))
      × ((retry_failed : Bool) (samples : List SampleMeta)
          → Leaves
              (IsSampleDone disk.fragments retry_failed)
              samples
              (pending_clean_samples index retry_failed samples))
unfolding open_index load_manifest item_status clean_status get
pending_total disk c p manifest sound found =
    let f = disk.fragments in
    let index : ResumeIndex = record {
      item_locations = put_all (entries index_entry f.index) [];
      clean_locations = put_all (entries clean_entry f.clean) [];
    } in
    let items_same : (id : String) → item_status index id ≡ item_recorded f id =
      λ id. ap (Option.map (λ l. IndexLocation.status l)) (get-put_all id _ []) in
    let clean_same : (id : String) → clean_status index id ≡ clean_recorded f id =
      λ id. ap (Option.map (λ l. CleanLocation.status l)) (get-put_all id _ []) in
    (
      index,
      rw (found, load_index_locations_sound f c p sound, load_clean_locations_sound f c p sound)
          refl,
      λ retry_failed chunks.
          pending_chunks-Leaves f index items_same clean_same retry_failed chunks,
      λ retry_failed samples.
          pending_clean_samples-Leaves f index items_same clean_same retry_failed samples,
    )
