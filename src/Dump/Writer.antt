-- ===== src/Dump/Writer.antt =====
-- `DumpWriter` of ssat/core/dump/writer.py: its buffers and their commits, data before index. The
-- logging is not modelled.
pub mod Rules
mod Rows
pub mod Safe
pub mod Calls
pub mod Operations
pub mod Quiet
pub mod Newest
pub mod Journal
pub mod Written
use region_sensitivity.Prelude.{
  ℕ, ◌+◌, ◌≡◌, String, Bool, true, false, not, Option, none, some, List, [], ◌∷◌, ◌++◌, map, leb,
  ◌==◌, str_eq, if◌then◌else◌, length,
}
use region_sensitivity.Outcome.{
  Exception, Result, ok, err, value_error, dump_error, dump_corruption_error,
}
use region_sensitivity.Outcome.Exec.{Exec, pure, raise, lift, gets, modify, try_except, ◌>>=◌, ◌>>◌}
use region_sensitivity.Dict.{Dict, put_all, is_distinct}
use region_sensitivity.Status.{
  ItemStatus, completed, load_failed, prepare_failed, predict_failed, skipped_oom,
}
use region_sensitivity.Work.{is_blank}
use region_sensitivity.Dump.Types.{
  CleanDumpRecord, PerturbedDumpRecord, CleanRow, PerturbedRow, IndexRow, clean_row, perturbed_row,
  index_row,
}
use region_sensitivity.Dump.Storage.{Directory, WriteFate, done, atomic_write, next_ordinal}
use region_sensitivity.Dump.Index.{
  Fragments, IndexLocation, CleanLocation, load_index_locations, load_clean_locations,
}
use region_sensitivity.Dump.Session.{
  ConfigApi, RunManifest, Writer, Session, is_nil, now, publish_clean, publish_perturbed,
  publish_index, on_writer, write_counts, write_manifest,
}

module _ (api : ConfigApi) {Output Logits : Type 0} (logits_list : Output → Logits) where
  abbrev pub clean_entry : CleanDumpRecord Output → String × ItemStatus
  clean_entry r = (r.sample_id, r.status)

  abbrev pub item_entry : PerturbedDumpRecord Output → String × ItemStatus
  item_entry r = (r.work_item.item_id, r.status)

  -- the rest of `_flush_clean`, for a buffer that is not empty
  unfoldable pub commit_clean :
      List (CleanDumpRecord Output) → Exec (Session api Output Logits) Unit
  unfolding now publish_clean write_counts
  commit_clean records = do
    if is_distinct (map (λ (r : CleanDumpRecord Output). r.sample_id) records)
        then pure tt
        else raise (dump_error "one clean fragment cannot contain duplicate sample_id values")
    written_at ← now
    ordinal ← gets (λ s. s.writer.clean_ordinal)
    publish_clean ordinal (map (clean_row logits_list written_at) records)
    on_writer (λ w. record w {
      clean_ordinal = ordinal + 1;
      clean_buffer = [];
      clean_statuses = put_all (map clean_entry records) w.clean_statuses;
    })
    write_counts

  unfoldable pub flush_clean : Exec (Session api Output Logits) Unit
  unfolding commit_clean
  flush_clean = do
    records ← gets (λ s. s.writer.clean_buffer)
    if is_nil records then pure tt else commit_clean records

  -- the rest of `_flush_perturbed`: the data, then the ordinal, then the index
  unfoldable pub commit_perturbed :
      List (PerturbedDumpRecord Output) → Exec (Session api Output Logits) Unit
  unfolding now publish_perturbed publish_index write_counts
  commit_perturbed records = do
    if is_distinct (map (λ (r : PerturbedDumpRecord Output). r.work_item.item_id) records)
        then pure tt
        else raise (dump_error "one perturbed fragment cannot contain duplicate item_id values")
    written_at ← now
    ordinal ← gets (λ s. s.writer.perturbed_ordinal)
    publish_perturbed ordinal (map (perturbed_row logits_list written_at) records)
    on_writer (λ w. record w { perturbed_ordinal = ordinal + 1 })
    publish_index ordinal (map (index_row ordinal written_at) records)
    on_writer (λ w. record w {
      perturbed_buffer = [];
      item_statuses = put_all (map item_entry records) w.item_statuses;
    })
    write_counts

  unfoldable pub flush_perturbed : Exec (Session api Output Logits) Unit
  unfolding commit_perturbed
  flush_perturbed = do
    records ← gets (λ s. s.writer.perturbed_buffer)
    if is_nil records then pure tt else commit_perturbed records

  -- `_ensure_open`
  unfoldable pub ensure_open : Exec (Session api Output Logits) Unit
  ensure_open = do
    closed ← gets (λ s. s.writer.closed)
    if closed then raise (dump_error "dump writer is closed") else pure tt

  unfoldable pub write_clean : CleanDumpRecord Output → Exec (Session api Output Logits) Unit
  unfolding ensure_open flush_clean
  write_clean r = do
    ensure_open
    on_writer (λ w. record w { clean_buffer = w.clean_buffer ++ r ∷ [] })
    held ← gets (λ s. length s.writer.clean_buffer)
    every ← gets (λ s. api.flush_every s.writer.config)
    if leb every held then flush_clean else pure tt

  unfoldable pub write_perturbed :
      PerturbedDumpRecord Output → Exec (Session api Output Logits) Unit
  unfolding ensure_open flush_perturbed
  write_perturbed r = do
    ensure_open
    on_writer (λ w. record w { perturbed_buffer = w.perturbed_buffer ++ r ∷ [] })
    held ← gets (λ s. length s.writer.perturbed_buffer)
    every ← gets (λ s. api.flush_every s.writer.config)
    if leb every held then flush_perturbed else pure tt

  unfoldable pub flush : Exec (Session api Output Logits) Unit
  unfolding ensure_open flush_clean flush_perturbed
  flush = do ensure_open; flush_clean; flush_perturbed

  -- `finished_at`, the clock being read only for a success
  unfoldable pub set_finished : Option ℕ → Exec (Session api Output Logits) Unit
  set_finished time =
      on_writer (λ w. record w { manifest = record w.manifest { finished_at = time } })

  unfoldable pub stamp : Bool → Exec (Session api Output Logits) Unit
  unfolding set_finished
  stamp success = if success then (now >>= λ time. set_finished (some time)) else set_finished none

  -- the rest of `close`, for a writer that is open
  unfoldable pub finish : Bool → Exec (Session api Output Logits) Unit
  unfolding flush stamp
  finish success = do
    flush
    stamp success
    write_manifest
    on_writer (λ w. record w { closed = true })

  unfoldable pub close : Bool → Exec (Session api Output Logits) Unit
  unfolding finish
  close success = do
    closed ← gets (λ s. s.writer.closed)
    if closed then pure tt else finish success

  -- `__exit__`, for a body of the `with` that raised or not
  unfoldable pub leave : Bool → Exec (Session api Output Logits) Unit
  unfolding close
  leave raised = if raised then try_except (close false) (λ _. pure tt) else close true

  unfoldable pub write_clean_many :
      List (CleanDumpRecord Output) → Exec (Session api Output Logits) Unit
  unfolding write_clean
  write_clean_many [] = pure tt
  write_clean_many (r ∷ rs) = do write_clean r; write_clean_many rs

  unfoldable pub write_perturbed_many :
      List (PerturbedDumpRecord Output) → Exec (Session api Output Logits) Unit
  unfolding write_perturbed
  write_perturbed_many [] = pure tt
  write_perturbed_many (r ∷ rs) = do write_perturbed r; write_perturbed_many rs
