-- ===== src/Runtime/Execution/Recorded.antt =====
-- A run that writes to a `DumpWriter`: once it returns, the fragments on disk say of each sample
-- and item what the run recorded of it.
use region_sensitivity.Prelude.{
  ◌+◌, ◌≤◌, ◌≡◌, refl, sym, ap, subst, ◌∙◌, String, false, List, [], map, arith, All,
}
use region_sensitivity.Outcome.{ok}
use region_sensitivity.Outcome.Exec.{Ensures, Ensures-weaken}
use region_sensitivity.Dict.{last_entry, get}
use region_sensitivity.Status.{ItemStatus}
use region_sensitivity.Work.{SampleMeta, WorkChunkMeta}
use region_sensitivity.Dump.Session.{ConfigApi, Session}
use region_sensitivity.Dump.Writer.Safe.{Safe}
use region_sensitivity.Dump.Writer.Newest.{clean_pairs, item_pairs}
use region_sensitivity.Dump.Writer.Journal.{clean_view, item_view, IsQuiet, IsNoted}
use region_sensitivity.Dump.Session.{Disk}
use region_sensitivity.Resume.{ResumeIndex, open_index, pending_chunks, pending_clean_samples}
use region_sensitivity.Resume.Settled.{IsSettled}
use region_sensitivity.Resume.Pending.{
  Leaves, nothing_left, done_before, still_left, pending_total, IsChunkDone, IsSampleDone,
  clean_recorded, item_recorded,
}
use region_sensitivity.Batching.Size.{IsValid}
use region_sensitivity.Runtime.Environment.{Environment, Run}
use region_sensitivity.Runtime.Execution.{run_pending}
use region_sensitivity.Runtime.Execution.Ledger.{
  Key, sample_key, tally, tally-append, Entry, entry_key, sample_keys, chunks_keys, owed_keys,
  count_entries,
}
use region_sensitivity.Runtime.Execution.Promises.{Partners, Promises}
use region_sensitivity.Runtime.Execution.Complete.{IsComplete, IsFresh, run_pending-IsComplete}
use region_sensitivity.Runtime.Execution.Counted.{
  sample-IsSettled, item-IsSettled, all_counted, chunks_counted, All-map,
}
use region_sensitivity.Runtime.Execution.Journaled.{
  recorded_cleans, recorded_items, with_dump, clean_key, work_key,
}
use region_sensitivity.Runtime.Execution.Dumped.{none_held, dump_promises}

module _ (env : Environment) (api : ConfigApi) {Logits : Type 0} (logits_list : env.Output → Logits)
    (samples : List SampleMeta) (chunks : List WorkChunkMeta)
    (unique : (k : Key) → tally k (owed_keys samples chunks) ≤ 1)
    (partners : Partners (with_dump env api logits_list) samples chunks) where
  -- before the first record: nothing is buffered, and the journal agrees with the disk
  pub record IsOpened (s : Run (with_dump env api logits_list)) : Type 0 where
    pub quiet : IsQuiet s.writer
    pub safe : Safe s.writer
    pub empty : s.writer.writer.clean_buffer ≡ []
    pub empty_items : s.writer.writer.perturbed_buffer ≡ []
    pub cap_valid : IsValid s.machine.batch_size
    pub planner_ok : partners.PlannerOk s.planner_state
    pub no_records : s.clean_records + s.perturbed_records ≡ 0
    pub no_counts : (status : ItemStatus) → s.counts status ≡ 0

  -- The dump is sound and has a row for all that was pending, and `log` tells which.
  pub record IsRecorded (s t : Run (with_dump env api logits_list)) : Type 0 where
    pub log : List (Entry env.Output)
    pub once : (k : Key) → tally k (map entry_key log) ≡ tally k (owed_keys samples chunks)
    pub by_status : (status : ItemStatus) → t.counts status ≡ count_entries status log
    pub clean_rows :
        (id : String)
        → clean_recorded t.writer.disk.fragments id
          ≡ last_entry id (recorded_cleans log) (clean_recorded s.writer.disk.fragments id)
    pub item_rows :
        (id : String)
        → item_recorded t.writer.disk.fragments id
          ≡ last_entry id (recorded_items log) (item_recorded s.writer.disk.fragments id)
    pub samples_done : All (IsSampleDone t.writer.disk.fragments false) samples
    pub chunks_done : All (IsChunkDone t.writer.disk.fragments false) chunks
    pub safe : Safe t.writer
    pub has_manifest : IsNoted t.writer.disk

  unbuffered_clean :
      (d : Session api env.Output Logits)
      → IsQuiet d
      → d.writer.clean_buffer ≡ []
      → (id : String) → clean_view d id ≡ clean_recorded d.disk.fragments id
  unfolding last_entry
  unbuffered_clean d quiet empty id =
      ap (λ rs. last_entry id (clean_pairs rs) (get id d.writer.clean_statuses)) empty
      ∙ quiet.clean_agrees id

  unbuffered_items :
      (d : Session api env.Output Logits)
      → IsQuiet d
      → d.writer.perturbed_buffer ≡ []
      → (id : String) → item_view d id ≡ item_recorded d.disk.fragments id
  unfolding last_entry
  unbuffered_items d quiet empty id =
      ap (λ rs. last_entry id (item_pairs rs) (get id d.writer.item_statuses)) empty
      ∙ quiet.items_agree id

  module _ (s : Run (with_dump env api logits_list)) (opened : IsOpened s) where
    abbrev kept_promises : Promises (with_dump env api logits_list) samples chunks
    kept_promises = dump_promises env api logits_list samples chunks unique s.writer partners

    opened-IsFresh : IsFresh (with_dump env api logits_list) kept_promises s
    unfolding last_entry tally
    opened-IsFresh = record {
      logged = (
        record {
          quiet = opened.quiet;
          safe = opened.safe;
          clean_now = λ id. refl;
          items_now = λ id. refl;
          clean_held = λ k.
              none_held env api logits_list samples chunks unique s.writer clean_key _ [] k
                opened.empty;
          items_held = λ k.
              none_held env api logits_list samples chunks unique s.writer work_key _ [] k
                opened.empty_items;
        },
        λ k. omega arith,
      );
      cap_valid = opened.cap_valid;
      planner_ok = opened.planner_ok;
      no_records = opened.no_records;
      no_counts = opened.no_counts;
    }

    recorded :
        (t : Run (with_dump env api logits_list))
        → IsComplete (with_dump env api logits_list) kept_promises t
        → IsRecorded s t
    recorded t c =
        let (held, within) = c.logged in
        let (empty, empty') = c.durable in
        let cleans = λ (id : String).
          sym (unbuffered_clean t.writer held.quiet empty id)
          ∙ held.clean_now id
          ∙ ap (last_entry id (recorded_cleans c.log))
              (unbuffered_clean s.writer opened.quiet opened.empty id) in
        let items = λ (id : String).
          sym (unbuffered_items t.writer held.quiet empty' id)
          ∙ held.items_now id
          ∙ ap (last_entry id (recorded_items c.log))
              (unbuffered_items s.writer opened.quiet opened.empty_items id) in
        record {
          log = c.log;
          once = c.once;
          by_status = c.by_status;
          clean_rows = cleans;
          item_rows = items;
          samples_done =
              All-map
                (λ (sample : SampleMeta) n.
                  subst (IsSettled false) (sym (cleans sample.sample_id))
                    (sample-IsSettled sample.sample_id c.log _ n))
                samples
                (all_counted (λ k. tally k (map entry_key c.log))
                  (λ (sample : SampleMeta). sample_key sample.sample_id) samples
                  (λ k.
                    omega (
                      arith,
                      c.once k,
                      tally-append k (sample_keys samples) (chunks_keys chunks),
                    )));
          chunks_done =
              All-map
                (λ (chunk : WorkChunkMeta) ns.
                  All-map
                    (λ id n. subst (IsSettled false) (sym (items id)) (item-IsSettled id c.log _ n))
                    chunk.item_ids ns)
                chunks
                (chunks_counted (λ k. tally k (map entry_key c.log)) chunks
                  (λ k.
                    omega (
                      arith,
                      c.once k,
                      tally-append k (sample_keys samples) (chunks_keys chunks),
                    )));
          safe = held.safe;
          has_manifest = held.quiet.has_manifest;
        }

  -- A run over samples and chunks none of which is listed twice writes to a `DumpWriter` whose
  -- writes all happen, that has a sound dump with a manifest and empty buffers. If the other
  -- parts of the run keep their promises, and it returns, then it has recorded each sample and each
  -- item once; on disk, the last status of every identifier is the recorded one, or what it was
  -- before where none was recorded; no sample or chunk is without its rows; and the dump is sound.
  -- What the run raises is a fault of one of these parts.
  pub run_pending-IsRecorded :
      (s : Run (with_dump env api logits_list))
      → IsOpened s
      → Ensures
          (λ _ t. IsRecorded s t)
          (λ e _. partners.Fault e)
          (run_pending (with_dump env api logits_list) samples chunks)
          s
  run_pending-IsRecorded s opened =
      Ensures-weaken _ s
        (run_pending-IsComplete (with_dump env api logits_list) (kept_promises s opened) s
          (opened-IsFresh s opened))
        (λ _ t c. recorded s opened t c) (λ _ _ f. f)

all_left :
    {A : Type 0} {Done : A → Type 0} (xs ys : List A) → Leaves Done xs ys → All Done xs → ys ≡ []
all_left _ _ nothing_left h = refl
all_left _ _ (done_before x xs ys done rest) h = all_left xs ys rest h.1
all_left _ _ (still_left x xs ys undone rest) h = absurd (undone h.0)

module _ (env : Environment) (api : ConfigApi) {Logits : Type 0} (logits_list : env.Output → Logits)
    (samples : List SampleMeta) (chunks : List WorkChunkMeta)
    (unique : (k : Key) → tally k (owed_keys samples chunks) ≤ 1)
    (partners : Partners (with_dump env api logits_list) samples chunks) where
  -- the dump opens, and has all that is asked for
  abbrev pub NothingPending : Disk api Logits → Type 0
  NothingPending disk =
      (index : ResumeIndex) × (open_index disk ≡ ok index)
      × (pending_chunks index false chunks ≡ [])
      × (pending_clean_samples index false samples ≡ [])

  -- A run over samples and chunks none of which is listed twice writes to a `DumpWriter` whose
  -- writes all happen, that has a sound dump with a manifest and empty buffers. If the other parts
  -- of the run keep their promises, and it returns, then the resume index of its dump opens, and
  -- leaves none of these chunks and samples to a later run without `retry_failed`.
  pub run_pending-NothingPending :
      (s : Run (with_dump env api logits_list))
      → IsOpened env api logits_list samples chunks unique partners s
      → Ensures
          (λ _ t. NothingPending t.writer.disk)
          (λ e _. partners.Fault e)
          (run_pending (with_dump env api logits_list) samples chunks)
          s
  run_pending-NothingPending s opened =
      Ensures-weaken _ s
        (run_pending-IsRecorded env api logits_list samples chunks unique partners s opened)
        (λ _ t r.
          let (manifest, found) = r.has_manifest in
          let (index, opens, chunks_left, samples_left) =
            pending_total t.writer.disk _ _ manifest r.safe.sound found in
          (
            index,
            opens,
            all_left chunks _ (chunks_left false chunks) r.chunks_done,
            all_left samples _ (samples_left false samples) r.samples_done,
          ))
        (λ _ _ f. f)
