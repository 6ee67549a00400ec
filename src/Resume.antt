-- ===== src/Resume.antt =====
-- ssat/core/resume/index.py: which work an interrupted run has left. `rebuild` is not modelled.
pub mod Settled
pub mod Pending
use mathlib.Core.Option
use region_sensitivity.Prelude.{
  String, Bool, true, false, not, ◌&&◌, ◌||◌, Option, none, some, List, [], ◌∷◌, map, if◌then◌else◌,
  any,
}
use region_sensitivity.Outcome.{Result, ok, err, ◌>>=◌}
use region_sensitivity.Dict.{Dict, get}
use region_sensitivity.Status.{ItemStatus, is_ok}
use region_sensitivity.Work.{WorkChunkMeta, SampleMeta}
use region_sensitivity.Dump.Index.{
  IndexLocation, CleanLocation, load_index_locations, load_clean_locations,
}
use region_sensitivity.Dump.Session.{ConfigApi, Disk}
use region_sensitivity.Dump.Open.{load_manifest}

pub record ResumeIndex : Type 0 where
  pub item_locations : Dict IndexLocation
  pub clean_locations : Dict CleanLocation

-- `ResumeIndex.open`
unfoldable pub open_index :
    {api : ConfigApi} {Logits : Type 0} → Disk api Logits → Result ResumeIndex
unfolding load_manifest
open_index disk = do
  manifest ← load_manifest disk
  items ← load_index_locations disk.fragments
  clean ← load_clean_locations disk.fragments
  ok (record { item_locations = items; clean_locations = clean })

unfoldable pub item_status : ResumeIndex → String → Option ItemStatus
item_status index item_id =
    Option.map (λ l. IndexLocation.status l) (get item_id index.item_locations)

unfoldable pub clean_status : ResumeIndex → String → Option ItemStatus
clean_status index sample_id =
    Option.map (λ l. CleanLocation.status l) (get sample_id index.clean_locations)

-- `status is None`
abbrev pub is_absent : Option ItemStatus → Bool
is_absent none = true
is_absent (some status) = false

-- `status is not ItemStatus.OK`
abbrev pub is_not_ok : Option ItemStatus → Bool
is_not_ok none = true
is_not_ok (some status) = not (is_ok status)

-- the two conditions under which a chunk is pending
unfoldable pub needs_work : Bool → List (Option ItemStatus) → Bool
needs_work retry_failed statuses =
    if any is_absent statuses then true else retry_failed && any is_not_ok statuses

unfoldable pub pending_chunks : ResumeIndex → Bool → List WorkChunkMeta → List WorkChunkMeta
unfolding needs_work item_status
pending_chunks index retry_failed [] = []
pending_chunks index retry_failed (chunk ∷ chunks) =
    let rest = pending_chunks index retry_failed chunks in
    if needs_work retry_failed (map (item_status index) chunk.item_ids) then chunk ∷ rest else rest

unfoldable pub pending_clean_samples : ResumeIndex → Bool → List SampleMeta → List SampleMeta
unfolding clean_status
pending_clean_samples index retry_failed [] = []
pending_clean_samples index retry_failed (sample ∷ samples) =
    let rest = pending_clean_samples index retry_failed samples in
    let status = clean_status index sample.sample_id in
    if is_absent status || (retry_failed && is_not_ok status) then sample ∷ rest else rest
