-- ===== src/Dump/Index/Loads.antt =====
-- Over a sound dump the index loaders return, and keep the latest entry of each identifier.
use mathlib.Core.List.{map-map}
use region_sensitivity.Prelude.{
  ℕ, ◌+◌, ◌≡◌, refl, ap, sym, ◌∙◌, String, true, some, List, [], ◌∷◌, ◌++◌, map, ◌==◌, ==_iff, All,
}
use region_sensitivity.Outcome.{Result, ok, err}
use region_sensitivity.Dict.{Dict, put_all, put_all-append, is_distinct}
use region_sensitivity.Status.{ItemStatus, completed, value, parse, parse-value}
use region_sensitivity.Dump.Types.{CleanRow, PerturbedRow, IndexRow}
use region_sensitivity.Dump.Storage.{Directory, read_fragment}
use region_sensitivity.Dump.Storage.Listed.{fragment_files-IsAscending}
use region_sensitivity.Dump.Sound.{
  index_of, IsGoodRow, IsGoodCleanRow, IsGoodClean, IsLinked, IsSound,
}
use region_sensitivity.Dump.Index.{
  Fragments, IndexLocation, CleanLocation, parse_status, index_location, clean_location, load_rows,
  load_fragments, load_index_locations, load_clean_locations,
}

-- the status that a stored text stands for
abbrev status_of : Result ItemStatus → ItemStatus
status_of (ok status) = status
status_of (err _) = completed

unfoldable pub decode : String → ItemStatus
decode text = status_of (parse text)

pub decode-value : (status : ItemStatus) → decode (value status) ≡ status
unfolding decode
decode-value status = ap status_of (parse-value status)

parse_status-value :
    (status : ItemStatus) → parse_status (value status) ≡ ok (decode (value status))
unfolding parse_status decode
parse_status-value status = rw (parse-value status)

abbrev pub index_entry : ℕ → IndexRow → String × IndexLocation
index_entry n row = (
  row.item_id,
  record {
    status = decode row.status;
    chunk_file = row.chunk_file;
    written_at = row.written_at;
    ordinal = n;
  },
)

abbrev pub clean_entry : {Logits : Type 0} → ℕ → CleanRow Logits → String × CleanLocation
clean_entry n row =
    (row.sample_id, record { status = decode row.status; fragment_file = n; ordinal = n })

-- all rows of a directory, fragment by fragment
unfoldable pub entries : {A L : Type 0} → (ℕ → A → L) → Directory (List A) → List L
entries entry [] = []
entries entry ((n, rows) ∷ d) = map (entry n) rows ++ entries entry d

module _ {A L : Type 0} (locate : A → Result (String × L)) (entry : A → String × L) where
  load_rows-eq :
      (rows : List A) (d : Dict L)
      → All (λ row. locate row ≡ ok (entry row)) rows
      → load_rows locate rows d ≡ ok (put_all (map entry rows) d)
  unfolding load_rows put_all
  load_rows-eq [] d h = refl
  load_rows-eq (row ∷ rows) d h = rw (h.0) (load_rows-eq rows _ h.1)

module _ {A L : Type 0} (key : A → String) (locate : ℕ → A → Result (String × L))
    (entry : ℕ → A → String × L) where
  -- each fragment has distinct keys, and each of its rows is located
  record Loads (e : ℕ × List A) : Type 0 where
    distinct : is_distinct (map key e.1) ≡ true
    located : All (λ row. locate e.0 row ≡ ok (entry e.0 row)) e.1

  load_fragments-eq :
      (files : Directory (List A)) (d : Dict L)
      → All Loads files
      → load_fragments key locate files d ≡ ok (put_all (entries entry files) d)
  unfolding load_fragments entries put_all
  load_fragments-eq [] d h = refl
  load_fragments-eq ((n, rows) ∷ files) d h = rw (h.0.distinct) (
      rw (load_rows-eq (locate n) (entry n) rows d h.0.located) (
        load_fragments-eq files _ h.1
        ∙ ap ok (sym (put_all-append (map (entry n) rows) (entries entry files) d))))

module _ {Logits : Type 0} (f : Fragments Logits) where
  index_rows-located :
      (n : ℕ) (data_rows rows : List (PerturbedRow Logits))
      → read_fragment n f.perturbed ≡ some data_rows
      → All IsGoodRow rows
      → All (λ row. index_location f n row ≡ ok (index_entry n row)) (map (index_of n) rows)
  unfolding index_location
  index_rows-located n ds [] found h = tt
  index_rows-located n ds (row ∷ rows) found h =
      let same : (n == n) ≡ true = (==_iff n n).1 refl in
      let text = h.0.status_text in
      (
        rw (h.0.id, same, found, text, parse_status-value h.0.status),
        index_rows-located n ds rows found h.1,
      )

  index-Loads :
      (files : Directory (List IndexRow))
      → All (IsLinked f.perturbed) files
      → All (Loads (λ row. IndexRow.item_id row) (index_location f) index_entry) files
  index-Loads [] h = tt
  index-Loads ((n, rows) ∷ files) h = (
    record {
      distinct = rw (h.0.same, map-map) h.0.good.distinct;
      located = rw (h.0.same) (index_rows-located n _ _ h.0.found h.0.good.good);
    },
    index-Loads files h.1,
  )

  -- The index of a sound dump loads, the latest entry of an item winning.
  pub load_index_locations_sound :
      (c p : ℕ)
      → IsSound f c p
      → load_index_locations f ≡ ok (put_all (entries index_entry f.index) [])
  unfolding load_index_locations
  load_index_locations_sound c p h =
      rw (fragment_files-IsAscending f.index_listing 0 p f.index h.index_order)
        (load_fragments-eq _ _ index_entry f.index [] (index-Loads f.index h.linked))

  clean_rows-located :
      (n : ℕ) (rows : List (CleanRow Logits))
      → All IsGoodCleanRow rows
      → All (λ row. clean_location n row ≡ ok (clean_entry n row)) rows
  unfolding clean_location
  clean_rows-located n [] h = tt
  clean_rows-located n (row ∷ rows) h =
      let text = h.0.status_text in
      (rw (h.0.id, text, parse_status-value h.0.status), clean_rows-located n rows h.1)

  clean-Loads :
      (files : Directory (List (CleanRow Logits)))
      → All (λ e. IsGoodClean e.1) files
      → All (Loads (λ row. CleanRow.sample_id row) clean_location clean_entry) files
  clean-Loads [] h = tt
  clean-Loads ((n, rows) ∷ files) h = (
    record { distinct = h.0.distinct; located = clean_rows-located n rows h.0.good },
    clean-Loads files h.1,
  )

  -- So do the clean fragments.
  pub load_clean_locations_sound :
      (c p : ℕ)
      → IsSound f c p
      → load_clean_locations f ≡ ok (put_all (entries clean_entry f.clean) [])
  unfolding load_clean_locations
  load_clean_locations_sound c p h =
      rw (fragment_files-IsAscending f.clean_listing 0 (c + 1) f.clean h.clean_order)
        (load_fragments-eq _ _ clean_entry f.clean [] (clean-Loads f.clean h.clean_rows))
