-- ===== src/Dump/Writer/Safe.antt =====
-- Every operation of the writer keeps the dump sound, whichever writes fail and whether or not it
-- raises.
use region_sensitivity.Prelude.{◌+◌, ◌≡◌, refl, sym, subst₂, true, false, map, All, ==_iff}
use region_sensitivity.Outcome.Exec.{
  Exec, Ensures, Ensures-pure, Ensures-bind, Ensures-then, Ensures-bind_gets, Ensures-guard,
  Ensures-if,
}
use region_sensitivity.Work.{is_sha256, is_blank}
use region_sensitivity.Dump.Types.{
  CleanDumpRecord, PerturbedDumpRecord, clean_row, perturbed_row, index_row,
}
use region_sensitivity.Dump.Storage.{publish, read_fragment-publish}
use region_sensitivity.Dump.Index.{Fragments}
use region_sensitivity.Dump.Session.{ConfigApi, Writer, Session, write_counts, write_manifest}
use region_sensitivity.Dump.Writer.Rows.{
  clean_rows-IsGoodClean, perturbed_rows-IsGoodData, index_rows_eq,
}
use region_sensitivity.Dump.Writer.Rules.{
  publish_clean_rule, publish_perturbed_rule, publish_index_rule, on_writer_rule, now_rule,
  write_manifest_rule,
}
use region_sensitivity.Dump.Sound.{
  IsSound, publish_clean-IsSound, publish_perturbed-IsSound, next_clean-IsSound,
  next_perturbed-IsSound, publish_index-IsSound,
}
use region_sensitivity.Dump.Writer.{commit_clean, flush_clean, commit_perturbed, flush_perturbed}

module _ {api : ConfigApi} {Output Logits : Type 0} where
  -- The records in the buffers are as their constructors demand.
  pub record IsSafe (f : Fragments Logits) (w : Writer api Output) : Type 0 where
    pub sound : IsSound f w.clean_ordinal w.perturbed_ordinal
    pub clean_named :
        All (λ (r : CleanDumpRecord Output). is_blank r.sample_id ≡ false) w.clean_buffer
    pub items_named :
        All
          (λ (r : PerturbedDumpRecord Output). is_sha256 r.work_item.item_id ≡ true)
          w.perturbed_buffer

  abbrev pub Safe : Session api Output Logits → Type 0
  Safe s = IsSafe s.disk.fragments s.writer

  abbrev pub KeepsSafe : Exec (Session api Output Logits) Unit → Type 0
  KeepsSafe m =
      (s : Session api Output Logits) → Safe s → Ensures (λ _ t. Safe t) (λ _ t. Safe t) m s

  pub write_manifest-Safe : KeepsSafe write_manifest
  write_manifest-Safe s h = write_manifest_rule s λ t same_files same_writer.
      let kept : Safe t = subst₂ IsSafe (sym same_files) (sym same_writer) h in (kept, λ _. kept)

  write_counts-Safe : KeepsSafe write_counts
  unfolding write_counts
  write_counts-Safe s h =
      Ensures-bind {P = λ _ t. Safe t} _ _ s
        (on_writer_rule _ s
          (record { sound = h.sound; clean_named = h.clean_named; items_named = h.items_named }))
        (λ _ t k. write_manifest-Safe t k)

  module _ (logits_list : Output → Logits) where
    commit_clean-Safe :
        (s : Session api Output Logits)
        → Safe s
        → Ensures
            (λ _ t. Safe t)
            (λ _ t. Safe t)
            (commit_clean api logits_list s.writer.clean_buffer)
            s
    unfolding commit_clean
    commit_clean-Safe s h =
        let n = s.writer.clean_ordinal in
        let f = s.disk.fragments in
        Ensures-guard _ _ _ s (λ _. h)
          λ distinct.
            let rows = map (clean_row logits_list s.disk.clock) s.writer.clean_buffer in
            let published = publish_clean-IsSound f n _ h.sound rows (
              clean_rows-IsGoodClean logits_list s.disk.clock s.writer.clean_buffer distinct
                h.clean_named) in
            let kept : IsSafe (record f { clean = publish n rows f.clean }) s.writer = record {
              sound = published;
              clean_named = h.clean_named;
              items_named = h.items_named;
            } in
            Ensures-then _ _ s (
              now_rule s (
                Ensures-bind_gets _ _ _ (
                  Ensures-then _ _ _ (
                    publish_clean_rule n rows _
                      (Ensures-then _ _ _ (
                        on_writer_rule _ _ (
                          write_counts-Safe _ (record {
                            sound = next_clean-IsSound _ n _ published;
                            clean_named = tt;
                            items_named = h.items_named;
                          }))))
                      (λ _. h) (λ _. kept)))))

    pub flush_clean-Safe : KeepsSafe (flush_clean api logits_list)
    unfolding flush_clean
    flush_clean-Safe s h =
        Ensures-bind_gets _ _ s
          (Ensures-if _ _ _ s (λ _. Ensures-pure tt s h) (λ _. commit_clean-Safe s h))

    commit_perturbed-Safe :
        (s : Session api Output Logits)
        → Safe s
        → Ensures
            (λ _ t. Safe t)
            (λ _ t. Safe t)
            (commit_perturbed api logits_list s.writer.perturbed_buffer)
            s
    unfolding commit_perturbed
    commit_perturbed-Safe s h =
        let n = s.writer.perturbed_ordinal in
        let c = s.writer.clean_ordinal in
        let f = s.disk.fragments in
        Ensures-guard _ _ _ s (λ _. h)
          λ distinct.
            let records = s.writer.perturbed_buffer in
            let rows = map (perturbed_row logits_list s.disk.clock) records in
            let good =
              perturbed_rows-IsGoodData logits_list s.disk.clock records distinct h.items_named in
            let f' : Fragments Logits = record f { perturbed = publish n rows f.perturbed } in
            let published : IsSound f' c n = publish_perturbed-IsSound f c n h.sound rows good in
            let kept : IsSafe f' s.writer = record {
              sound = published;
              clean_named = h.clean_named;
              items_named = h.items_named;
            } in
            let reserved : IsSound f' c (n + 1) = next_perturbed-IsSound f' c n published in
            let index_rows = map (index_row n s.disk.clock) records in
            let indexed = publish_index-IsSound f' c n index_rows reserved (record {
              rows = rows;
              found = rw (read_fragment-publish n n rows f.perturbed, (==_iff n n).1 refl);
              good = good;
              same = index_rows_eq logits_list n s.disk.clock records;
            }) in
            Ensures-then _ _ s (
              now_rule s (
                Ensures-bind_gets _ _ _ (
                  Ensures-then _ _ _ (
                    publish_perturbed_rule n rows _
                      (Ensures-then _ _ _ (
                        on_writer_rule _ _ (
                          Ensures-then _ _ _ (
                            publish_index_rule n index_rows _
                              (Ensures-then _ _ _ (
                                on_writer_rule _ _ (
                                  write_counts-Safe _ (record {
                                    sound = indexed;
                                    clean_named = h.clean_named;
                                    items_named = tt;
                                  }))))
                              (λ _. record {
                                sound = reserved;
                                clean_named = h.clean_named;
                                items_named = h.items_named;
                              })
                              (λ _. record {
                                sound = indexed;
                                clean_named = h.clean_named;
                                items_named = h.items_named;
                              })))))
                      (λ _. h) (λ _. kept)))))

    pub flush_perturbed-Safe : KeepsSafe (flush_perturbed api logits_list)
    unfolding flush_perturbed
    flush_perturbed-Safe s h =
        Ensures-bind_gets _ _ s
          (Ensures-if _ _ _ s (λ _. Ensures-pure tt s h) (λ _. commit_perturbed-Safe s h))
