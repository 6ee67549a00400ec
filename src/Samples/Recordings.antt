-- ===== src/Samples/Recordings.antt =====
-- The small run over a `DumpWriter` with an empty dump.
use region_sensitivity.Prelude.{
  ℕ, ◌+◌, ◌≤◌, ◌≡◌, refl, sym, ◌∙◌, inl, inr, String, Bool-cases, if◌then◌else◌, true, false, [],
  ◌∷◌, arith, str_eq, eq_iff,
}
use region_sensitivity.Outcome.Exec.{Ensures}
use region_sensitivity.Dict.{get, last_entry, is_distinct, contains}
use region_sensitivity.Dump.Session.{Session}
use region_sensitivity.Dump.Index.Loads.{entries}
use region_sensitivity.Dump.Writer.{write_perturbed}
use region_sensitivity.Dump.Writer.Journal.{IsQuiet}
use region_sensitivity.Dump.Writer.Written.{IsWritten, write_perturbed_rule}
use region_sensitivity.Runtime.Environment.{Environment, Run}
use region_sensitivity.Runtime.Execution.{run_pending}
use region_sensitivity.Runtime.Execution.Ledger.{
  Key, sample_key, item_key, tally, owed_keys, chunks_keys,
}
use region_sensitivity.Runtime.Execution.Journaled.{dump_recorder, with_dump}
use region_sensitivity.Runtime.Execution.Promises.{Partners}
use region_sensitivity.Runtime.Execution.Recorded.{
  IsOpened, IsRecorded, run_pending-IsRecorded, NothingPending, run_pending-NothingPending,
}
use region_sensitivity.Samples.Batches.{fresh-IsValid}
use region_sensitivity.Samples.Dumps.{
  small_api, same, some_hash, empty_session, empty_session-Safe, failed_record,
}
use region_sensitivity.Samples.Preparations.{other_hash}
use region_sensitivity.Samples.Partners.{small_run-Partners}
use region_sensitivity.Samples.Runs.{small_run, at_start_with, cat_meta, chunk_meta}

-- a disk whose writes all happen
abbrev quiet_session : Session small_api ℕ ℕ
quiet_session = record empty_session { disk = record empty_session.disk { fates = [] } }

quiet_session-IsQuiet : IsQuiet quiet_session
unfolding get last_entry entries
quiet_session-IsQuiet = record {
  no_faults = refl;
  open_ = refl;
  has_manifest = (_, refl);
  clean_free = omega arith;
  index_free = omega arith;
  clean_agrees = λ id. refl;
  items_agree = λ id. refl;
}

failed_record-alone : is_distinct (some_hash ∷ []) ≡ true
unfolding is_distinct contains
failed_record-alone = refl

write_perturbed_rule_example :
    Ensures
      (λ _ t. IsWritten [] (failed_record ∷ []) quiet_session t)
      (λ _ _. ⊥)
      (write_perturbed small_api same failed_record)
      quiet_session
write_perturbed_rule_example =
    write_perturbed_rule same failed_record quiet_session quiet_session-IsQuiet failed_record-alone

-- two names are not both the one that is looked for
one_of_two :
    (a b id : String)
    → str_eq a b ≡ false
    → 0 + ((if str_eq a id then 1 else 0) + ((if str_eq b id then 1 else 0) + 0)) ≤ 1
one_of_two a b id apart = elim (Bool-cases (str_eq a id)) [
  | inl here ↦ elim (Bool-cases (str_eq b id)) [
    | inl there ↦
        absurd (cc ((eq_iff a b).1 ((eq_iff a id).0 here ∙ sym ((eq_iff b id).0 there)), apart))
    | inr other ↦ rw (here, other) (omega arith)
  ]
  | inr other ↦ rw other (ground arith)
]

listed_once : (k : Key) → tally k (owed_keys (cat_meta ∷ []) (chunk_meta ∷ [])) ≤ 1
unfolding tally chunks_keys
listed_once (sample_key id) = ground arith
listed_once (item_key id) = one_of_two some_hash other_hash id refl

abbrev dump_run : Environment
dump_run = with_dump small_run small_api same

abbrev dump_partners : Partners dump_run (cat_meta ∷ []) (chunk_meta ∷ [])
dump_partners = small_run-Partners (Session small_api ℕ ℕ) (dump_recorder small_api same)

abbrev dump_start : Run dump_run
dump_start = at_start_with (Session small_api ℕ ℕ) (dump_recorder small_api same) quiet_session

dump_start-IsOpened :
    IsOpened small_run small_api same
      (cat_meta ∷ [])
      (chunk_meta ∷ [])
      listed_once
      dump_partners
      dump_start
dump_start-IsOpened = record {
  quiet = quiet_session-IsQuiet;
  safe = empty_session-Safe;
  empty = refl;
  empty_items = refl;
  cap_valid = fresh-IsValid;
  planner_ok = tt;
  no_records = refl;
  no_counts = λ status. refl;
}

run_pending-IsRecorded_example :
    Ensures
      (λ _ t.
        IsRecorded small_run small_api same
          (cat_meta ∷ [])
          (chunk_meta ∷ [])
          listed_once
          dump_partners
          dump_start
          t)
      (λ e _. ⊥)
      (run_pending dump_run (cat_meta ∷ []) (chunk_meta ∷ []))
      dump_start
run_pending-IsRecorded_example =
    run_pending-IsRecorded small_run small_api same (cat_meta ∷ []) (chunk_meta ∷ []) listed_once
      dump_partners dump_start dump_start-IsOpened

run_pending-NothingPending_example :
    Ensures
      (λ _ t.
        NothingPending small_run small_api same
          (cat_meta ∷ [])
          (chunk_meta ∷ [])
          listed_once
          dump_partners
          t.writer.disk)
      (λ e _. ⊥)
      (run_pending dump_run (cat_meta ∷ []) (chunk_meta ∷ []))
      dump_start
run_pending-NothingPending_example =
    run_pending-NothingPending small_run small_api same (cat_meta ∷ []) (chunk_meta ∷ [])
      listed_once dump_partners dump_start dump_start-IsOpened
