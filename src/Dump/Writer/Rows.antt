-- ===== src/Dump/Writer/Rows.antt =====
-- The rows that the writer makes of records are as the loaders demand.
use region_sensitivity.Prelude.{ℕ, ◌≡◌, refl, ap, true, false, List, [], ◌∷◌, map, All}
use mathlib.Core.List.{map-map}
use region_sensitivity.Dict.{is_distinct}
use region_sensitivity.Work.{is_sha256, is_blank}
use region_sensitivity.Dump.Types.{
  CleanDumpRecord, PerturbedDumpRecord, clean_row, perturbed_row, index_row,
}
use region_sensitivity.Dump.Sound.{index_of, IsGoodRow, IsGoodData, IsGoodCleanRow, IsGoodClean}

module _ {Output Logits : Type 0} (logits_list : Output → Logits) where
  pub clean_rows-IsGoodClean :
      (time : ℕ) (records : List (CleanDumpRecord Output))
      → is_distinct (map (λ (r : CleanDumpRecord Output). r.sample_id) records) ≡ true
      → All (λ (r : CleanDumpRecord Output). is_blank r.sample_id ≡ false) records
      → IsGoodClean (map (clean_row logits_list time) records)
  unfolding clean_row
  clean_rows-IsGoodClean time records distinct named = record {
    distinct = rw (map-map _ _ records) distinct;
    good = good records named;
  }
    where
      good :
          (rs : List (CleanDumpRecord Output))
          → All (λ (r : CleanDumpRecord Output). is_blank r.sample_id ≡ false) rs
          → All IsGoodCleanRow (map (clean_row logits_list time) rs)
      good [] h = tt
      good (r ∷ rs) h = (record { id = h.0; status = r.status; status_text = refl }, good rs h.1)

  pub perturbed_rows-IsGoodData :
      (time : ℕ) (records : List (PerturbedDumpRecord Output))
      → is_distinct (map (λ (r : PerturbedDumpRecord Output). r.work_item.item_id) records) ≡ true
      → All (λ (r : PerturbedDumpRecord Output). is_sha256 r.work_item.item_id ≡ true) records
      → IsGoodData (map (perturbed_row logits_list time) records)
  unfolding perturbed_row
  perturbed_rows-IsGoodData time records distinct named = record {
    distinct = rw (map-map _ _ records) distinct;
    good = good records named;
  }
    where
      good :
          (rs : List (PerturbedDumpRecord Output))
          → All (λ (r : PerturbedDumpRecord Output). is_sha256 r.work_item.item_id ≡ true) rs
          → All IsGoodRow (map (perturbed_row logits_list time) rs)
      good [] h = tt
      good (r ∷ rs) h = (record { id = h.0; status = r.status; status_text = refl }, good rs h.1)

  pub index_rows_eq :
      (n time : ℕ) (records : List (PerturbedDumpRecord Output))
      → map (index_row n time) records
        ≡ map (index_of n) (map (perturbed_row logits_list time) records)
  unfolding perturbed_row index_row
  index_rows_eq n time [] = refl
  index_rows_eq n time (r ∷ rs) = ap (λ x. index_row n time r ∷ x) (index_rows_eq n time rs)
