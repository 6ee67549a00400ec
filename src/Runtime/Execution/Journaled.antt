-- ===== src/Runtime/Execution/Journaled.antt =====
-- What a `DumpWriter` holds and has on disk, entry by entry.
use region_sensitivity.Prelude.{
  ◌≤◌, ◌≡◌, refl, sym, ap, subst, ◌∙◌, ◌⊎◌, inl, inr, String, true, List, [], ◌∷◌, ◌++◌, map,
  map-append, append-nil, arith,
}
use mathlib.Core.List.{map-map}
use region_sensitivity.Dict.{last_entry, is_distinct}
use region_sensitivity.Status.{ItemStatus}
use region_sensitivity.Dump.Types.{CleanDumpRecord, PerturbedDumpRecord}
use region_sensitivity.Dump.Session.{ConfigApi, Session}
use region_sensitivity.Dump.Writer.{write_clean, write_perturbed, flush}
use region_sensitivity.Dump.Writer.Safe.{Safe}
use region_sensitivity.Dump.Writer.Quiet.{last_entry-append}
use region_sensitivity.Dump.Writer.Newest.{clean_pairs, item_pairs}
use region_sensitivity.Dump.Writer.Journal.{clean_view, item_view, IsQuiet}
use region_sensitivity.Dump.Writer.Written.{sample_ids, work_ids, IsWritten}
use region_sensitivity.Runtime.Environment.{Environment, Recorder}
use region_sensitivity.Runtime.Execution.Ledger.{
  Key, sample_key, item_key, tally, tally-append, Entry, clean_entry, item_entry, entry_key,
  distinct_of_tally,
}

module _ {Output : Type 0} where
  -- the clean statuses, and the items', that a run has recorded, in order
  abbrev pub recorded_cleans : List (Entry Output) → List (String × ItemStatus)
  recorded_cleans [] = []
  recorded_cleans (clean_entry r ∷ log) = (r.sample_id, r.status) ∷ recorded_cleans log
  recorded_cleans (item_entry r ∷ log) = recorded_cleans log

  abbrev pub recorded_items : List (Entry Output) → List (String × ItemStatus)
  recorded_items [] = []
  recorded_items (clean_entry r ∷ log) = recorded_items log
  recorded_items (item_entry r ∷ log) = (r.work_item.item_id, r.status) ∷ recorded_items log

  recorded_cleans-append :
      (xs ys : List (Entry Output))
      → recorded_cleans (xs ++ ys) ≡ recorded_cleans xs ++ recorded_cleans ys
  recorded_cleans-append [] ys = refl
  recorded_cleans-append (clean_entry r ∷ xs) ys =
      ap (λ es. (r.sample_id, r.status) ∷ es) (recorded_cleans-append xs ys)
  recorded_cleans-append (item_entry r ∷ xs) ys = recorded_cleans-append xs ys

  recorded_items-append :
      (xs ys : List (Entry Output))
      → recorded_items (xs ++ ys) ≡ recorded_items xs ++ recorded_items ys
  recorded_items-append [] ys = refl
  recorded_items-append (clean_entry r ∷ xs) ys = recorded_items-append xs ys
  recorded_items-append (item_entry r ∷ xs) ys =
      ap (λ es. (r.work_item.item_id, r.status) ∷ es) (recorded_items-append xs ys)

abbrev pub clean_key : {Output : Type 0} → CleanDumpRecord Output → Key
clean_key r = sample_key r.sample_id

abbrev pub work_key : {Output : Type 0} → PerturbedDumpRecord Output → Key
work_key r = item_key r.work_item.item_id

module _ (api : ConfigApi) {Output Logits : Type 0} (logits_list : Output → Logits) where
  -- `DumpWriter`, as a run uses it
  abbrev pub dump_recorder : Recorder (Session api Output Logits) Output
  dump_recorder = record {
    write_clean = write_clean api logits_list;
    write_perturbed = write_perturbed api logits_list;
    flush = flush api logits_list;
  }

-- a run that writes to a `DumpWriter`
abbrev pub with_dump :
    (env : Environment) (api : ConfigApi) {Logits : Type 0} → (env.Output → Logits) → Environment
with_dump env api {Logits} logits_list = record env {
  WriterState = Session api env.Output Logits;
  recorder = dump_recorder api logits_list;
}

module _ {api : ConfigApi} {Output Logits : Type 0} (logits_list : Output → Logits)
    (start : Session api Output Logits) where
  -- What the writer holds and has on disk, after these entries.
  pub record IsJournal (d : Session api Output Logits) (log : List (Entry Output)) : Type 0 where
    pub quiet : IsQuiet d
    pub safe : Safe d
    pub clean_now :
        (id : String) → clean_view d id ≡ last_entry id (recorded_cleans log) (clean_view start id)
    pub items_now :
        (id : String) → item_view d id ≡ last_entry id (recorded_items log) (item_view start id)
    -- no buffer has more than has been recorded
    pub clean_held :
        (k : Key) → tally k (map clean_key d.writer.clean_buffer) ≤ tally k (map entry_key log)
    pub items_held :
        (k : Key) → tally k (map work_key d.writer.perturbed_buffer) ≤ tally k (map entry_key log)

  -- a buffer that has grown by one, against a log that has
  pub held_grows :
      {R : Type 0} (key : R → Key) (rs buffer : List R) (r : R) (e : Entry Output)
      (log : List (Entry Output)) (k : Key)
      → key r ≡ entry_key e
      → ((rs ≡ []) ⊎ (rs ≡ buffer ++ r ∷ []))
      → tally k (map key buffer) ≤ tally k (map entry_key log)
      → tally k (map key rs) ≤ tally k (map entry_key (log ++ e ∷ []))
  unfolding tally
  held_grows key rs buffer r e log k same (inl empty) h =
      subst (λ xs. tally k (map key xs) ≤ tally k (map entry_key (log ++ e ∷ []))) (sym empty)
        (omega arith)
  held_grows key rs buffer r e log k same (inr grown) h =
      rw
        (
          grown,
          map-append key buffer (r ∷ []),
          map-append entry_key log (e ∷ []),
          tally-append k (map key buffer) (map key (r ∷ [])),
          tally-append k (map entry_key log) (entry_key e ∷ []),
          same,
        )
        (omega (arith, h))

  -- a buffer that stays, or is emptied
  held_stays :
      {R : Type 0} (key : R → Key) (rs buffer : List R) (e : Entry Output)
      (log : List (Entry Output)) (k : Key)
      → ((rs ≡ []) ⊎ (rs ≡ buffer ++ []))
      → tally k (map key buffer) ≤ tally k (map entry_key log)
      → tally k (map key rs) ≤ tally k (map entry_key (log ++ e ∷ []))
  unfolding tally
  held_stays key rs buffer e log k (inl empty) h =
      subst (λ xs. tally k (map key xs) ≤ tally k (map entry_key (log ++ e ∷ []))) (sym empty)
        (omega arith)
  held_stays key rs buffer e log k (inr kept) h =
      rw
        (
          kept,
          append-nil buffer,
          map-append entry_key log (e ∷ []),
          tally-append k (map entry_key log) (entry_key e ∷ []),
        )
        (omega (arith, h))

  pub IsJournal-clean :
      (r : CleanDumpRecord Output) (log : List (Entry Output)) (d t : Session api Output Logits)
      → IsJournal d log
      → IsWritten (r ∷ []) [] d t
      → Safe t
      → IsJournal t (log ++ clean_entry r ∷ [])
  unfolding last_entry
  IsJournal-clean r log d t h w safe = record {
    quiet = w.quiet;
    safe = safe;
    clean_now = λ id.
        w.clean_now id
        ∙ ap (last_entry id (clean_pairs (r ∷ []))) (h.clean_now id)
        ∙ sym (last_entry-append id (recorded_cleans log) (clean_pairs (r ∷ [])) _)
        ∙ ap (λ es. last_entry id es (clean_view start id))
            (sym (recorded_cleans-append log (clean_entry r ∷ [])));
    items_now = λ id.
        w.items_now id
        ∙ h.items_now id
        ∙ ap (λ es. last_entry id es (item_view start id))
            (sym (recorded_items-append log (clean_entry r ∷ []) ∙ append-nil _));
    clean_held = λ k.
        held_grows clean_key t.writer.clean_buffer d.writer.clean_buffer r (clean_entry r) log k
          refl w.clean_held (h.clean_held k);
    items_held = λ k.
        held_stays work_key t.writer.perturbed_buffer d.writer.perturbed_buffer (clean_entry r) log
          k w.items_held (h.items_held k);
  }

  pub IsJournal-item :
      (r : PerturbedDumpRecord Output) (log : List (Entry Output)) (d t : Session api Output Logits)
      → IsJournal d log
      → IsWritten [] (r ∷ []) d t
      → Safe t
      → IsJournal t (log ++ item_entry r ∷ [])
  unfolding last_entry
  IsJournal-item r log d t h w safe = record {
    quiet = w.quiet;
    safe = safe;
    clean_now = λ id.
        w.clean_now id
        ∙ h.clean_now id
        ∙ ap (λ es. last_entry id es (clean_view start id))
            (sym (recorded_cleans-append log (item_entry r ∷ []) ∙ append-nil _));
    items_now = λ id.
        w.items_now id
        ∙ ap (last_entry id (item_pairs (r ∷ []))) (h.items_now id)
        ∙ sym (last_entry-append id (recorded_items log) (item_pairs (r ∷ [])) _)
        ∙ ap (λ es. last_entry id es (item_view start id))
            (sym (recorded_items-append log (item_entry r ∷ [])));
    clean_held = λ k.
        held_stays clean_key t.writer.clean_buffer d.writer.clean_buffer (item_entry r) log k
          w.clean_held (h.clean_held k);
    items_held = λ k.
        held_grows work_key t.writer.perturbed_buffer d.writer.perturbed_buffer r (item_entry r) log
          k refl w.items_held (h.items_held k);
  }

  -- a key that is recorded no more than once is buffered no more than once
  pub distinct_samples :
      (rs : List (CleanDumpRecord Output))
      → ((k : Key) → tally k (map clean_key rs) ≤ 1)
      → is_distinct (sample_ids rs) ≡ true
  distinct_samples rs h =
      distinct_of_tally sample_key (λ a b. refl) (sample_ids rs)
        (λ k. subst (λ ks. tally k ks ≤ 1) (sym (map-map sample_key _ rs)) (h k))

  pub distinct_works :
      (rs : List (PerturbedDumpRecord Output))
      → ((k : Key) → tally k (map work_key rs) ≤ 1)
      → is_distinct (work_ids rs) ≡ true
  distinct_works rs h =
      distinct_of_tally item_key (λ a b. refl) (work_ids rs)
        (λ k. subst (λ ks. tally k ks ≤ 1) (sym (map-map item_key _ rs)) (h k))
