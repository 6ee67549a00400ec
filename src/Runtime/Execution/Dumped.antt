-- ===== src/Runtime/Execution/Dumped.antt =====
-- A `DumpWriter` keeps what a run is promised of its writer, while all of its writes happen.
use region_sensitivity.Prelude.{
  ◌≤◌, ◌≡◌, refl, sym, subst, ◌∙◌, inr, List, [], ◌∷◌, ◌++◌, map, arith,
}
use region_sensitivity.Outcome.Exec.{Ensures, Ensures-weaken, Ensures-both}
use region_sensitivity.Dict.{last_entry}
use region_sensitivity.Work.{SampleMeta, WorkChunkMeta}
use region_sensitivity.Dump.Types.{CleanDumpRecord, PerturbedDumpRecord}
use region_sensitivity.Dump.Session.{ConfigApi, Session}
use region_sensitivity.Dump.Writer.{write_clean, write_perturbed, flush}
use region_sensitivity.Dump.Writer.Calls.{
  IsCheckedClean, IsCheckedPerturbed, named_of_checked, id_of_checked, write_clean-Safe,
  write_perturbed-Safe, flush-Safe,
}
use region_sensitivity.Dump.Writer.Written.{write_clean_rule, write_perturbed_rule, flush_rule}
use region_sensitivity.Runtime.Environment.{Environment}
use region_sensitivity.Runtime.Execution.Ledger.{
  Key, tally, Entry, clean_entry, item_entry, entry_key, owed_keys,
}
use region_sensitivity.Runtime.Execution.Promises.{Partners, Promises, IsWithin}
use region_sensitivity.Runtime.Execution.Journaled.{
  with_dump, clean_key, work_key, IsJournal, IsJournal-clean, IsJournal-item, distinct_samples,
  distinct_works, held_grows,
}

module _ (env : Environment) (api : ConfigApi) {Logits : Type 0} (logits_list : env.Output → Logits)
    (samples : List SampleMeta) (chunks : List WorkChunkMeta)
    (unique : (k : Key) → tally k (owed_keys samples chunks) ≤ 1)
    (start : Session api env.Output Logits) where
  abbrev Held : Session api env.Output Logits → List (Entry env.Output) → Type 0
  Held d log = IsJournal logits_list start d log

  -- a buffer that is bounded by the log, which is bounded by what is owed
  held_once :
      {R : Type 0} (key : R → Key) (buffer : List R) (r : R) (e : Entry env.Output)
      (log : List (Entry env.Output)) (k : Key)
      → key r ≡ entry_key e
      → IsWithin samples chunks (log ++ e ∷ [])
      → tally k (map key buffer) ≤ tally k (map entry_key log)
      → tally k (map key (buffer ++ r ∷ [])) ≤ 1
  held_once key buffer r e log k same within h = omega (
    arith,
    within k,
    unique k,
    held_grows logits_list start key (buffer ++ r ∷ []) buffer r e log k same (inr refl) h,
  )

  pub write_clean_Held :
      (r : CleanDumpRecord env.Output) (log : List (Entry env.Output))
      (d : Session api env.Output Logits)
      → IsCheckedClean r
      → IsWithin samples chunks (log ++ clean_entry r ∷ [])
      → Held d log
      → Ensures
          (λ _ t. Held t (log ++ clean_entry r ∷ []))
          (λ _ _. ⊥)
          (write_clean api logits_list r)
          d
  write_clean_Held r log d checked within h =
      Ensures-weaken _ d
        (Ensures-both _ d
          (write_clean_rule logits_list r d h.quiet (
            distinct_samples logits_list start _ λ k.
              held_once clean_key d.writer.clean_buffer r (clean_entry r) log k refl within
                (h.clean_held k)))
          (write_clean-Safe logits_list r d (named_of_checked r checked) h.safe))
        (λ _ t (w, safe). IsJournal-clean logits_list start r log d t h w safe) (λ _ _ f. f.0)

  pub write_perturbed_Held :
      (r : PerturbedDumpRecord env.Output) (log : List (Entry env.Output))
      (d : Session api env.Output Logits)
      → IsCheckedPerturbed r
      → IsWithin samples chunks (log ++ item_entry r ∷ [])
      → Held d log
      → Ensures
          (λ _ t. Held t (log ++ item_entry r ∷ []))
          (λ _ _. ⊥)
          (write_perturbed api logits_list r)
          d
  write_perturbed_Held r log d checked within h =
      Ensures-weaken _ d
        (Ensures-both _ d
          (write_perturbed_rule logits_list r d h.quiet (
            distinct_works logits_list start _ λ k.
              held_once work_key d.writer.perturbed_buffer r (item_entry r) log k refl within
                (h.items_held k)))
          (write_perturbed-Safe logits_list r d (id_of_checked r.work_item checked) h.safe))
        (λ _ t (w, safe). IsJournal-item logits_list start r log d t h w safe) (λ _ _ f. f.0)

  pub none_held :
      {R : Type 0} (key : R → Key) (rs : List R) (log : List (Entry env.Output)) (k : Key)
      → rs ≡ []
      → tally k (map key rs) ≤ tally k (map entry_key log)
  unfolding tally
  none_held key rs log k empty =
      subst (λ xs. tally k (map key xs) ≤ tally k (map entry_key log)) (sym empty) (omega arith)

  abbrev Emptied : Session api env.Output Logits → Type 0
  Emptied d = (d.writer.clean_buffer ≡ []) × (d.writer.perturbed_buffer ≡ [])

  pub flush_Held :
      (log : List (Entry env.Output)) (d : Session api env.Output Logits)
      → ((k : Key) → tally k (map entry_key log) ≤ 1)
      → Held d log
      → Ensures (λ _ t. Held t log × Emptied t) (λ _ _. ⊥) (flush api logits_list) d
  unfolding last_entry
  flush_Held log d once h =
      Ensures-weaken _ d
        (Ensures-both _ d
          (flush_rule logits_list d h.quiet
            (distinct_samples logits_list start _ λ k. omega (arith, once k, h.clean_held k))
            (distinct_works logits_list start _ λ k. omega (arith, once k, h.items_held k)))
          (flush-Safe logits_list d h.safe))
        (λ _ t ((w, empty, empty'), safe). (
          record {
            quiet = w.quiet;
            safe = safe;
            clean_now = λ id. w.clean_now id ∙ h.clean_now id;
            items_now = λ id. w.items_now id ∙ h.items_now id;
            clean_held = λ k. none_held clean_key t.writer.clean_buffer log k empty;
            items_held = λ k. none_held work_key t.writer.perturbed_buffer log k empty';
          },
          (empty, empty'),
        ))
        (λ _ _ f. f.0)

  -- Over a `DumpWriter` whose writes all happen, the writer's part of the promises holds.
  abbrev pub dump_promises :
      Partners (with_dump env api logits_list) samples chunks
      → Promises (with_dump env api logits_list) samples chunks
  dump_promises partners = record {
    partners = partners;
    Logs = λ d log. Held d log × IsWithin samples chunks log;
    Durable = λ d log. Emptied d;
    on_write_clean = λ r log d checked within (h, _).
        Ensures-weaken _ d (write_clean_Held r log d checked within h) (λ _ t k. (k, within))
          (λ _ _ f. elim f [ ]);
    on_write_perturbed = λ r log d checked within (h, _).
        Ensures-weaken _ d (write_perturbed_Held r log d checked within h) (λ _ t k. (k, within))
          (λ _ _ f. elim f [ ]);
    on_flush = λ log d (h, within).
        Ensures-weaken _ d (flush_Held log d (λ k. omega (arith, within k, unique k)) h)
          (λ _ t (k, empty). ((k, within), empty)) (λ _ _ f. elim f [ ]);
  }
