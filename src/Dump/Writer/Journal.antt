-- ===== src/Dump/Writer/Journal.antt =====
-- `DumpWriter` as a journal: what has been written, buffered or not, is the last status of each
-- sample and item, and once it is flushed the dump says the same.
use region_sensitivity.Prelude.{
  ◌≡◌, refl, sym, ap, ◌∙◌, String, true, false, Option, none, some, [], map, arith,
}
use region_sensitivity.Outcome.Exec.{Ensures, Ensures-then, Ensures-bind_gets, Ensures-guard}
use region_sensitivity.Dict.{get, put_all, get-put_all, last_entry, is_distinct}
use region_sensitivity.Status.{ItemStatus}
use region_sensitivity.Dump.Types.{
  CleanDumpRecord, PerturbedDumpRecord, clean_row, perturbed_row, index_row,
}
use region_sensitivity.Dump.Storage.{publish, IsAscending, publish-IsAscending}
use region_sensitivity.Dump.Session.{
  ConfigApi, RunManifest, Disk, content, files_of, Session, write_counts, later_fates,
}
use region_sensitivity.Dump.Writer.Rules.{on_writer_rule, now_rule}
use region_sensitivity.Dump.Writer.{commit_clean, commit_perturbed}
use region_sensitivity.Dump.Writer.Quiet.{
  publish_clean_done, publish_perturbed_done, publish_index_done, write_manifest_done,
}
use region_sensitivity.Dump.Writer.Newest.{
  clean_pairs, item_pairs, clean_recorded_new, item_recorded_new,
}
use region_sensitivity.Resume.Pending.{clean_recorded, item_recorded}

abbrev pub IsNoted : {api : ConfigApi} {Logits : Type 0} → Disk api Logits → Type 0
IsNoted {api} disk = (manifest : RunManifest api) × (disk.stored_manifest ≡ some manifest)

manifest_noted :
    {M : Type 0} (manifest : M) (stored : Option M)
    → (manifest' : M) × (content (publish 0 manifest (files_of stored)) ≡ some manifest')
unfolding publish
manifest_noted manifest none = (manifest, refl)
manifest_noted manifest (some _) = (manifest, refl)

module _ {api : ConfigApi} {Output Logits : Type 0} where
  -- the last status that was written for a sample, or an item
  abbrev pub clean_view : Session api Output Logits → String → Option ItemStatus
  clean_view s id =
      last_entry id (clean_pairs s.writer.clean_buffer) (get id s.writer.clean_statuses)

  abbrev pub item_view : Session api Output Logits → String → Option ItemStatus
  item_view s id =
      last_entry id (item_pairs s.writer.perturbed_buffer) (get id s.writer.item_statuses)

  -- All writes happen, there is a manifest, the next ordinals are free, and the statuses are those
  -- of the fragments.
  pub record IsQuiet (s : Session api Output Logits) : Type 0 where
    pub no_faults : s.disk.fates ≡ []
    pub open_ : s.writer.closed ≡ false
    pub has_manifest : IsNoted s.disk
    pub clean_free : IsAscending 0 s.disk.fragments.clean s.writer.clean_ordinal
    pub index_free : IsAscending 0 s.disk.fragments.index s.writer.perturbed_ordinal
    pub clean_agrees :
        (id : String) → get id s.writer.clean_statuses ≡ clean_recorded s.disk.fragments id
    pub items_agree :
        (id : String) → get id s.writer.item_statuses ≡ item_recorded s.disk.fragments id

  pub record SameViews (s t : Session api Output Logits) : Type 0 where
    pub clean : (id : String) → clean_view t id ≡ clean_view s id
    pub items : (id : String) → item_view t id ≡ item_view s id

  module _ (logits_list : Output → Logits) where
    -- one fragment of clean rows
    pub commit_clean-IsQuiet :
        (s : Session api Output Logits)
        → IsQuiet s
        → is_distinct (map (λ (r : CleanDumpRecord Output). r.sample_id) s.writer.clean_buffer)
          ≡ true
        → Ensures
            (λ _ t.
              IsQuiet t
              × SameViews s t
              × (t.writer.clean_buffer ≡ [])
              × (t.writer.perturbed_buffer ≡ s.writer.perturbed_buffer))
            (λ _ _. ⊥)
            (commit_clean api logits_list s.writer.clean_buffer)
            s
    unfolding commit_clean write_counts last_entry
    commit_clean-IsQuiet s h distinct =
        let records = s.writer.clean_buffer in
        let n = s.writer.clean_ordinal in
        let rows = map (clean_row logits_list s.disk.clock) records in
        let statuses = put_all (clean_pairs records) s.writer.clean_statuses in
        Ensures-guard _ _ _ s (λ no. cc (no, distinct))
          λ _. Ensures-then _ _ s (
            now_rule s (
              Ensures-bind_gets _ _ _ (
                Ensures-then _ _ _ (
                  publish_clean_done n rows _ h.no_faults (
                    Ensures-then _ _ _ (
                      on_writer_rule _ _ (
                        Ensures-then _ _ _ (
                          on_writer_rule _ _ (
                            write_manifest_done _ (ap later_fates h.no_faults) (
                              record {
                                no_faults = ap (λ x. later_fates (later_fates x)) h.no_faults;
                                open_ = h.open_;
                                has_manifest = manifest_noted _ s.disk.stored_manifest;
                                clean_free =
                                    publish-IsAscending 0 n n rows s.disk.fragments.clean
                                      h.clean_free (omega arith) (omega arith);
                                index_free = h.index_free;
                                clean_agrees = λ id.
                                    get-put_all id (clean_pairs records) s.writer.clean_statuses
                                    ∙ ap (last_entry id (clean_pairs records)) (h.clean_agrees id)
                                    ∙ sym (
                                        clean_recorded_new logits_list s.disk.fragments s.disk.clock
                                          n records id h.clean_free);
                                items_agree = h.items_agree;
                              },
                              record {
                                clean = λ id.
                                    get-put_all id (clean_pairs records) s.writer.clean_statuses;
                                items = λ id. refl;
                              },
                              refl,
                              refl,
                            ))))))))))

    -- one fragment of items, the data before its index
    pub commit_perturbed-IsQuiet :
        (s : Session api Output Logits)
        → IsQuiet s
        → is_distinct (
            map (λ (r : PerturbedDumpRecord Output). r.work_item.item_id) s.writer.perturbed_buffer)
          ≡ true
        → Ensures
            (λ _ t.
              IsQuiet t
              × SameViews s t
              × (t.writer.perturbed_buffer ≡ [])
              × (t.writer.clean_buffer ≡ s.writer.clean_buffer))
            (λ _ _. ⊥)
            (commit_perturbed api logits_list s.writer.perturbed_buffer)
            s
    unfolding commit_perturbed write_counts last_entry
    commit_perturbed-IsQuiet s h distinct =
        let records = s.writer.perturbed_buffer in
        let n = s.writer.perturbed_ordinal in
        let rows = map (perturbed_row logits_list s.disk.clock) records in
        let index = map (index_row n s.disk.clock) records in
        Ensures-guard _ _ _ s (λ no. cc (no, distinct))
          λ _. Ensures-then _ _ s (
            now_rule s (
              Ensures-bind_gets _ _ _ (
                Ensures-then _ _ _ (
                  publish_perturbed_done n rows _ h.no_faults (
                    Ensures-then _ _ _ (
                      on_writer_rule _ _ (
                        Ensures-then _ _ _ (
                          publish_index_done n index _ (ap later_fates h.no_faults) (
                            Ensures-then _ _ _ (
                              on_writer_rule _ _ (
                                Ensures-then _ _ _ (
                                  on_writer_rule _ _ (
                                    write_manifest_done _
                                      (ap (λ x. later_fates (later_fates x)) h.no_faults)
                                      (
                                        record {
                                          no_faults =
                                              ap (λ x. later_fates (later_fates (later_fates x)))
                                                h.no_faults;
                                          open_ = h.open_;
                                          has_manifest = manifest_noted _ s.disk.stored_manifest;
                                          clean_free = h.clean_free;
                                          index_free =
                                              publish-IsAscending 0 n n index s.disk.fragments.index
                                                h.index_free (omega arith) (omega arith);
                                          clean_agrees = h.clean_agrees;
                                          items_agree = λ id.
                                              get-put_all id (item_pairs records)
                                                s.writer.item_statuses
                                              ∙ ap (last_entry id (item_pairs records))
                                                  (h.items_agree id)
                                              ∙ sym (
                                                  item_recorded_new logits_list s.disk.fragments
                                                    s.disk.clock n records id h.index_free);
                                        },
                                        record {
                                          clean = λ id. refl;
                                          items = λ id.
                                              get-put_all id (item_pairs records)
                                                s.writer.item_statuses;
                                        },
                                        refl,
                                        refl,
                                      ))))))))))))))
