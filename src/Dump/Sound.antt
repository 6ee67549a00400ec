-- ===== src/Dump/Sound.antt =====
-- When the fragments of a dump belong together: what every durable write of the writer keeps, and
-- what the index loader and the reader need.
use region_sensitivity.Prelude.{
  ℕ, ◌+◌, ◌≡◌, true, false, some, List, [], ◌∷◌, map, arith, ◌==◌, All, inl, inr, leb, Bool-cases,
}
use region_sensitivity.Dict.{is_distinct}
use region_sensitivity.Status.{ItemStatus, value}
use region_sensitivity.Work.{is_sha256, is_blank}
use region_sensitivity.Dump.Types.{CleanRow, PerturbedRow, IndexRow, perturbed_chunk}
use region_sensitivity.Dump.Storage.{
  Directory, publish, read_fragment, IsAscending, IsAscending-le, IsAscending-weaken,
  publish-IsAscending, read_fragment-publish,
}
use region_sensitivity.Dump.Index.{Fragments}

All-publish :
    {A : Type 0} (P : ℕ × A → Type 0) (n : ℕ) (a : A) (d : Directory A)
    → All P d
    → P (n, a)
    → All P (publish n a d)
unfolding publish
All-publish P n a [] h p = (p, tt)
All-publish P n a ((k, b) ∷ d) h p = elim (Bool-cases (k == n)) [
  | inl same ↦ rw same (p, h.1)
  | inr other ↦ elim (Bool-cases (leb n k)) [
    | inl before ↦ rw (other, before) (p, h)
    | inr later ↦ rw (other, later) (h.0, All-publish P n a d h.1 p)
  ]
]

module _ {Logits : Type 0} where
  -- the index row that belongs to a data row of the fragment `ordinal`
  abbrev pub index_of : ℕ → PerturbedRow Logits → IndexRow
  index_of ordinal row = record {
    item_id = row.item_id;
    status = row.status;
    chunk_file = perturbed_chunk ordinal;
    written_at = row.written_at;
  }

  pub record IsGoodRow (row : PerturbedRow Logits) : Type 0 where
    pub id : is_sha256 row.item_id ≡ true
    pub status : ItemStatus
    pub status_text : row.status ≡ value status

  pub record IsGoodData (rows : List (PerturbedRow Logits)) : Type 0 where
    pub distinct : is_distinct (map (λ (row : PerturbedRow Logits). row.item_id) rows) ≡ true
    pub good : All IsGoodRow rows

  pub record IsGoodCleanRow (row : CleanRow Logits) : Type 0 where
    pub id : is_blank row.sample_id ≡ false
    pub status : ItemStatus
    pub status_text : row.status ≡ value status

  pub record IsGoodClean (rows : List (CleanRow Logits)) : Type 0 where
    pub distinct : is_distinct (map (λ (row : CleanRow Logits). row.sample_id) rows) ≡ true
    pub good : All IsGoodCleanRow rows

  -- An index fragment has the rows of the data fragment with its ordinal.
  pub record IsLinked (perturbed : Directory (List (PerturbedRow Logits)))
      (entry : ℕ × List IndexRow) : Type 0 where
    pub rows : List (PerturbedRow Logits)
    pub found : read_fragment entry.0 perturbed ≡ some rows
    pub good : IsGoodData rows
    pub same : entry.1 ≡ map (index_of entry.0) rows

  -- The directories are maps in their one form, by ordinal, however they are listed. The next
  -- ordinals are free: above every clean and indexed fragment that counts, and no index fragment
  -- has the next data ordinal or a later one.
  pub record IsSound (f : Fragments Logits) (clean_next perturbed_next : ℕ) : Type 0 where
    pub clean_order : IsAscending 0 f.clean (clean_next + 1)
    pub perturbed_order : IsAscending 0 f.perturbed (perturbed_next + 1)
    pub index_order : IsAscending 0 f.index perturbed_next
    pub clean_rows : All (λ e. IsGoodClean e.1) f.clean
    pub perturbed_rows : All (λ e. IsGoodData e.1) f.perturbed
    pub linked : All (IsLinked f.perturbed) f.index

  -- Index fragments below `n` do not see a change at `n`.
  IsLinked-publish :
      (low n : ℕ) (rows : List (PerturbedRow Logits))
      (perturbed : Directory (List (PerturbedRow Logits))) (index : Directory (List IndexRow))
      → IsAscending low index n
      → All (IsLinked perturbed) index
      → All (IsLinked (publish n rows perturbed)) index
  IsLinked-publish low n rows perturbed [] h l = tt
  IsLinked-publish low n rows perturbed ((k, r) ∷ index) h l =
      let below = IsAscending-le (k + 1) n index h.1 in
      let other : (n == k) ≡ false = ground arith in
      (
        record {
          rows = l.0.rows;
          found = rw (read_fragment-publish n k rows perturbed, other) l.0.found;
          good = l.0.good;
          same = l.0.same;
        },
        IsLinked-publish (k + 1) n rows perturbed index h.1 l.1,
      )

  module _ (f : Fragments Logits) (c p : ℕ) (h : IsSound f c p) where
    -- a clean fragment at the next clean ordinal
    pub publish_clean-IsSound :
        (rows : List (CleanRow Logits))
        → IsGoodClean rows
        → IsSound (record f { clean = publish c rows f.clean }) c p
    publish_clean-IsSound rows good = record {
      clean_order =
          publish-IsAscending 0 (c + 1) c rows f.clean h.clean_order (omega arith) (omega arith);
      perturbed_order = h.perturbed_order;
      index_order = h.index_order;
      clean_rows = All-publish (λ e. IsGoodClean e.1) c rows f.clean h.clean_rows good;
      perturbed_rows = h.perturbed_rows;
      linked = h.linked;
    }

    -- a data fragment at the next data ordinal
    pub publish_perturbed-IsSound :
        (rows : List (PerturbedRow Logits))
        → IsGoodData rows
        → IsSound (record f { perturbed = publish p rows f.perturbed }) c p
    publish_perturbed-IsSound rows good = record {
      clean_order = h.clean_order;
      perturbed_order =
          publish-IsAscending 0 (p + 1) p rows f.perturbed h.perturbed_order (omega arith)
            (omega arith);
      index_order = h.index_order;
      clean_rows = h.clean_rows;
      perturbed_rows = All-publish (λ e. IsGoodData e.1) p rows f.perturbed h.perturbed_rows good;
      linked = IsLinked-publish 0 p rows f.perturbed f.index h.index_order h.linked;
    }

    -- the next ordinals move on
    pub next_clean-IsSound : IsSound f (c + 1) p
    next_clean-IsSound = record {
      clean_order = IsAscending-weaken 0 (c + 1) (c + 1 + 1) f.clean h.clean_order (omega arith);
      perturbed_order = h.perturbed_order;
      index_order = h.index_order;
      clean_rows = h.clean_rows;
      perturbed_rows = h.perturbed_rows;
      linked = h.linked;
    }

    pub next_perturbed-IsSound : IsSound f c (p + 1)
    next_perturbed-IsSound = record {
      clean_order = h.clean_order;
      perturbed_order =
          IsAscending-weaken 0 (p + 1) (p + 1 + 1) f.perturbed h.perturbed_order (omega arith);
      index_order = IsAscending-weaken 0 p (p + 1) f.index h.index_order (omega arith);
      clean_rows = h.clean_rows;
      perturbed_rows = h.perturbed_rows;
      linked = h.linked;
    }

  -- an index fragment for the data that has just been published
  pub publish_index-IsSound :
      (f : Fragments Logits) (c n : ℕ) (rows : List IndexRow)
      → IsSound f c (n + 1)
      → IsLinked f.perturbed (n, rows)
      → IsSound (record f { index = publish n rows f.index }) c (n + 1)
  publish_index-IsSound f c n rows h link = record {
    clean_order = h.clean_order;
    perturbed_order = h.perturbed_order;
    index_order =
        publish-IsAscending 0 (n + 1) n rows f.index h.index_order (omega arith) (omega arith);
    clean_rows = h.clean_rows;
    perturbed_rows = h.perturbed_rows;
    linked = All-publish (IsLinked f.perturbed) n rows f.index h.linked link;
  }
