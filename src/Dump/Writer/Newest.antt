-- ===== src/Dump/Writer/Newest.antt =====
-- What a new fragment adds to the statuses that a dump records.
use region_sensitivity.Prelude.{
  ℕ, ◌≡◌, sym, ap, ◌∙◌, String, none, List, [], ◌∷◌, ◌++◌, map, append-nil, append_assoc, arith,
}
use mathlib.Core.Option
use mathlib.Core.List.{map-map}
use region_sensitivity.Dict.{last_entry}
use region_sensitivity.Status.{ItemStatus}
use region_sensitivity.Dump.Types.{CleanDumpRecord, PerturbedDumpRecord, clean_row, index_row}
use region_sensitivity.Dump.Storage.{Directory, publish, IsAscending, publish_new}
use region_sensitivity.Dump.Index.{Fragments, IndexLocation, CleanLocation}
use region_sensitivity.Dump.Index.Loads
use region_sensitivity.Dump.Index.Loads.{decode-value, entries, index_entry}
use region_sensitivity.Dump.Writer.Quiet.{last_entry-append, last_entry-map}
use region_sensitivity.Resume.Pending.{clean_recorded, item_recorded}

-- entries of a new fragment come last
entries_new :
    {A L : Type 0} (entry : ℕ → A → L) (d : Directory (List A)) (n : ℕ) (rows : List A)
    → entries entry (d ++ (n, rows) ∷ []) ≡ entries entry d ++ map (entry n) rows
unfolding entries
entries_new entry [] n rows = append-nil (map (entry n) rows)
entries_new entry ((k, r) ∷ d) n rows =
    ap (λ xs. map (entry k) r ++ xs) (entries_new entry d n rows)
    ∙ sym (append_assoc (map (entry k) r) (entries entry d) (map (entry n) rows))

module _ {Output : Type 0} where
  abbrev pub clean_pairs : List (CleanDumpRecord Output) → List (String × ItemStatus)
  clean_pairs records = map (λ (r : CleanDumpRecord Output). (r.sample_id, r.status)) records

  abbrev pub item_pairs : List (PerturbedDumpRecord Output) → List (String × ItemStatus)
  item_pairs records =
      map (λ (r : PerturbedDumpRecord Output). (r.work_item.item_id, r.status)) records

module _ {Output Logits : Type 0} (logits_list : Output → Logits) (f : Fragments Logits)
    (time : ℕ) where
  -- a new clean fragment records the last status of its rows
  pub clean_recorded_new :
      (n : ℕ) (records : List (CleanDumpRecord Output)) (id : String)
      → IsAscending 0 f.clean n
      → clean_recorded
          (record f { clean = publish n (map (clean_row logits_list time) records) f.clean })
          id
        ≡ last_entry id (clean_pairs records) (clean_recorded f id)
  unfolding clean_row
  clean_recorded_new n records id free =
      let rows = map (clean_row logits_list time) records in
      let listed =
        ap (entries Loads.clean_entry) (publish_new 0 n n rows f.clean free (omega arith))
        ∙ entries_new Loads.clean_entry f.clean n rows in
      ap (λ es. Option.map (λ l. CleanLocation.status l) (last_entry id es none)) listed
      ∙ ap (Option.map (λ l. CleanLocation.status l)) (
          last_entry-append id (entries Loads.clean_entry f.clean) (map (Loads.clean_entry n) rows)
            none
          ∙ ap (λ es. last_entry id es (last_entry id (entries Loads.clean_entry f.clean) none))
              (map-map (Loads.clean_entry n) (clean_row logits_list time) records))
      ∙ last_entry-map (λ r. CleanDumpRecord.sample_id r)
          (λ r. (Loads.clean_entry n (clean_row logits_list time r)).1)
          (λ r. CleanDumpRecord.status r) (λ l. CleanLocation.status l)
          (λ r. decode-value (CleanDumpRecord.status r)) id records
          (last_entry id (entries Loads.clean_entry f.clean) none)

  -- so does a new index fragment
  pub item_recorded_new :
      (n : ℕ) (records : List (PerturbedDumpRecord Output)) (id : String)
      → IsAscending 0 f.index n
      → item_recorded (record f { index = publish n (map (index_row n time) records) f.index }) id
        ≡ last_entry id (item_pairs records) (item_recorded f id)
  unfolding index_row
  item_recorded_new n records id free =
      let rows = map (index_row n time) records in
      let listed =
        ap (entries index_entry) (publish_new 0 n n rows f.index free (omega arith))
        ∙ entries_new index_entry f.index n rows in
      ap (λ es. Option.map (λ l. IndexLocation.status l) (last_entry id es none)) listed
      ∙ ap (Option.map (λ l. IndexLocation.status l)) (
          last_entry-append id (entries index_entry f.index) (map (index_entry n) rows) none
          ∙ ap (λ es. last_entry id es (last_entry id (entries index_entry f.index) none))
              (map-map (index_entry n) (index_row n time) records))
      ∙ last_entry-map (λ (r : PerturbedDumpRecord Output). r.work_item.item_id)
          (λ r. (index_entry n (index_row n time r)).1) (λ r. PerturbedDumpRecord.status r)
          (λ l. IndexLocation.status l) (λ r. decode-value (PerturbedDumpRecord.status r)) id
          records (last_entry id (entries index_entry f.index) none)
