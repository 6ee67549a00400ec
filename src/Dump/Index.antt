-- ===== src/Dump/Index.antt =====
-- ssat/core/dump/_index.py, over the directories of a dump.
pub mod Loads
use region_sensitivity.Prelude.{
  ℕ, ◌≡◌, String, Bool, true, false, not, Option, none, some, List, [], ◌∷◌, ◌++◌, map, ◌==◌,
  str_eq, if◌then◌else◌,
}
use region_sensitivity.Outcome.{Exception, Result, ok, err, dump_corruption_error, ◌>>=◌, ◌>>◌}
use region_sensitivity.Dict.{Dict, put, is_distinct}
use region_sensitivity.Status.{ItemStatus, parse}
use region_sensitivity.Work.{is_sha256, is_blank}
use region_sensitivity.Dump.Types.{
  CleanRow, PerturbedRow, IndexRow, ChunkFile, perturbed_chunk, other_path,
}
use region_sensitivity.Dump.Storage.{Directory, Listing, fragment_files, read_fragment}

-- What lies under the root of a dump, the manifest apart, and the orders in which the file system
-- lists its directories.
pub record Fragments (Logits : Type 0) : Type 0 where
  pub clean : Directory (List (CleanRow Logits))
  pub perturbed : Directory (List (PerturbedRow Logits))
  pub index : Directory (List IndexRow)
  pub clean_listing : Listing
  pub perturbed_listing : Listing
  pub index_listing : Listing

pub record IndexLocation : Type 0 where
  pub status : ItemStatus
  pub chunk_file : ChunkFile
  pub written_at : ℕ
  pub ordinal : ℕ

pub record CleanLocation : Type 0 where
  pub status : ItemStatus
  pub fragment_file : ℕ
  pub ordinal : ℕ

-- `except (TypeError, ValueError)` of `_parse_status`
abbrev pub or_corruption : Result ItemStatus → Result ItemStatus
or_corruption (ok status) = ok status
or_corruption (err _) = err (dump_corruption_error "unknown dump status")

-- `_parse_status`
unfoldable pub parse_status : String → Result ItemStatus
parse_status text = or_corruption (parse text)

-- `_validate_chunk_file` and the comparison with `expected_chunk`
unfoldable pub check_chunk_file : ℕ → ChunkFile → Result (Unit {0})
check_chunk_file ordinal (perturbed_chunk n) =
    if n == ordinal
    then ok tt
    else err (dump_corruption_error "index fragment must reference its chunk")
check_chunk_file ordinal (other_path _) = err (dump_corruption_error "unsafe index chunk_file")

abbrev is_present : {A : Type 0} → Option A → Bool
is_present none = false
is_present (some _) = true

module _ {Logits : Type 0} where
  -- the body of the inner loop of `load_index_locations`
  unfoldable pub index_location : Fragments Logits → ℕ → IndexRow → Result (String × IndexLocation)
  unfolding check_chunk_file
  index_location fragments ordinal row = do
    if is_sha256 row.item_id
        then ok tt
        else err (dump_corruption_error "invalid item_id in index fragment")
    check_chunk_file ordinal row.chunk_file
    if is_present (read_fragment ordinal fragments.perturbed)
        then ok tt
        else err (dump_corruption_error "index references a missing data fragment")
    status ← parse_status row.status
    ok (
      row.item_id,
      record {
        status = status;
        chunk_file = row.chunk_file;
        written_at = row.written_at;
        ordinal = ordinal;
      },
    )

  unfoldable pub clean_location : ℕ → CleanRow Logits → Result (String × CleanLocation)
  clean_location ordinal row = do
    if is_blank row.sample_id
        then err (dump_corruption_error "invalid sample_id in clean fragment")
        else ok tt
    status ← parse_status row.status
    ok (row.sample_id, record { status = status; fragment_file = ordinal; ordinal = ordinal })

module _ {A L : Type 0} (locate : A → Result (String × L)) where
  -- one `locations[key] = …` for each row
  unfoldable pub load_rows : List A → Dict L → Result (Dict L)
  load_rows [] locations = ok locations
  load_rows (row ∷ rows) locations = do
    entry ← locate row
    load_rows rows (put entry.0 entry.1 locations)

module _ {A L : Type 0} (key : A → String) (locate : ℕ → A → Result (String × L)) where
  -- the outer loop: fragments in commit order, so that the latest entry is kept
  unfoldable pub load_fragments : Directory (List A) → Dict L → Result (Dict L)
  unfolding load_rows
  load_fragments [] locations = ok locations
  load_fragments ((ordinal, rows) ∷ fragments) locations = do
    if is_distinct (map key rows)
        then ok tt
        else err (dump_corruption_error "duplicate identifier within fragment")
    next ← load_rows (locate ordinal) rows locations
    load_fragments fragments next

module _ {Logits : Type 0} where
  unfoldable pub load_index_locations : Fragments Logits → Result (Dict IndexLocation)
  unfolding load_fragments
  load_index_locations fragments = do
    files ← fragment_files fragments.index_listing fragments.index
    load_fragments (λ row. IndexRow.item_id row) (index_location fragments) files []

  unfoldable pub load_clean_locations : Fragments Logits → Result (Dict CleanLocation)
  unfolding load_fragments
  load_clean_locations fragments = do
    files ← fragment_files fragments.clean_listing fragments.clean
    load_fragments (λ row. CleanRow.sample_id row) clean_location files []
