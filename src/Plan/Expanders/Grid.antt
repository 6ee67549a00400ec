-- ===== src/Plan/Expanders/Grid.antt =====
-- The cells of a grid.
use region_sensitivity.Prelude.{
  ℕ, zero, suc, ◌+◌, ◌*◌, ◌≡◌, refl, ap, ap₂, sym, subst, ◌∙◌, String, Option, none, some, List, [],
  ◌∷◌, ◌++◌, arith, length, length-append, ◌<◌,
}
use region_sensitivity.Work.{RegionSpec}
use region_sensitivity.Dict.{get}
use region_sensitivity.Plan.Text.{decimal, join}
use region_sensitivity.Json.{natural}
use region_sensitivity.Plan.Expanders.{for_range, grid_cell, grid_cells}

for_range-length :
    {A : Type 0} (n start k : ℕ) (body : ℕ → List A)
    → ((i : ℕ) → length (body i) ≡ k)
    → length (for_range n start body) ≡ n * k
unfolding for_range
for_range-length zero start k body h = omega arith
for_range-length (suc n) start k body h =
    let here = h start in
    let later = for_range-length n (start + 1) k body h in
    length-append (body start) (for_range n (start + 1) body)
    ∙ ap₂ (λ x y. x + y) here later
    ∙ omega arith

unfoldable pub get_elem? : {A : Type 0} → List A → ℕ → Option A
get_elem? [] i = none
get_elem? (x ∷ xs) zero = some x
get_elem? (x ∷ xs) (suc i) = get_elem? xs i

get_elem?-before :
    {A : Type 0} (xs ys : List A) (i : ℕ) → i < length xs → get_elem? (xs ++ ys) i ≡ get_elem? xs i
unfolding get_elem?
get_elem?-before [] ys i h = elim (impossible i h) [ ]
  where
    impossible : (n : ℕ) → n < 0 → ⊥
    impossible n k = omega arith
get_elem?-before (x ∷ xs) ys zero h = refl
get_elem?-before (x ∷ xs) ys (suc i) h = get_elem?-before xs ys i (omega arith)

get_elem?-past :
    {A : Type 0} (xs ys : List A) (i p : ℕ)
    → p ≡ length xs + i
    → get_elem? (xs ++ ys) p ≡ get_elem? ys i
unfolding get_elem?
get_elem?-past [] ys i p at = ap (get_elem? ys) {x = p} {y = i} (omega arith)
get_elem?-past (x ∷ xs) ys i zero at = elim (impossible (length xs) i at) [ ]
  where
    impossible : (l j : ℕ) → 0 ≡ suc l + j → ⊥
    impossible l j e = omega arith
get_elem?-past (x ∷ xs) ys i (suc p) at = get_elem?-past xs ys i p (omega arith)

one_more : (i k j l : ℕ) → l ≡ k → suc i * k + j ≡ l + (i * k + j)
one_more i k j l here = subst (λ m. suc i * k + j ≡ m + (i * k + j)) (sym here) (omega arith)

-- The collected lists, of one length each, lie one after the other.
for_range-get_elem? :
    {A : Type 0} (n start k i j p m : ℕ) (body : ℕ → List A)
    → ((l : ℕ) → length (body l) ≡ k)
    → i < n
    → j < k
    → p ≡ i * k + j
    → m ≡ start + i
    → get_elem? (for_range n start body) p ≡ get_elem? (body m) j
unfolding for_range
for_range-get_elem? zero start k i j p m body h below inside at there =
    elim (none_below i below) [ ]
  where
    none_below : (l : ℕ) → l < 0 → ⊥
    none_below l less = omega arith
for_range-get_elem? (suc n) start k zero j p m body h below inside at there =
    let here = h start in
    let first : p ≡ j = omega arith in
    let same : m ≡ start = omega arith in
    rw (first, same) (get_elem?-before (body start) (for_range n (start + 1) body) j (omega arith))
for_range-get_elem? (suc n) start k (suc i) j p m body h below inside at there =
    get_elem?-past (body start) (for_range n (start + 1) body) (i * k + j) p
      (at ∙ one_more i k j _ (h start))
    ∙ for_range-get_elem? n (start + 1) k i j (i * k + j) m body h (omega arith) inside refl
        (omega arith)

-- The cell of a grid in a row and a column.
pub record IsCell (region_id : String) (rows cols row col : ℕ) (r : RegionSpec) : Type 0 where
  pub same_id : r.region_id ≡ region_id
  pub named :
      r.region_instance_id
      ≡ join region_id (join "/r" (join (decimal row) (join "/c" (decimal col))))
  pub of_rows : get "rows" r.params ≡ some (natural rows)
  pub of_cols : get "cols" r.params ≡ some (natural cols)
  pub in_row : get "row_index" r.params ≡ some (natural row)
  pub in_col : get "col_index" r.params ≡ some (natural col)

-- A grid has `rows * cols` elements, in row-major order: for each row below `rows` and each column
-- below `cols`, the element at `row * cols + col` is the cell of that row and column, whose
-- parameters and instance identifier say so.
pub grid_cells_lem :
    (region_id : String) (rows cols : ℕ)
    → (length (grid_cells region_id rows cols) ≡ rows * cols)
      × ((row col : ℕ)
          → row < rows
          → col < cols
          → (r : RegionSpec) × (get_elem? (grid_cells region_id rows cols) (row * cols + col)
              ≡ some r)
            × IsCell region_id rows cols row col r)
unfolding grid_cells grid_cell get_elem? get
grid_cells_lem region_id rows cols = (
  for_range-length rows 0 cols _ wide,
  λ row col in_rows in_cols. (
    grid_cell region_id rows cols row col,
    for_range-get_elem? rows 0 cols row col _ row cells_of wide in_rows in_cols refl (omega arith)
        ∙ for_range-get_elem? cols 0 1 col 0 col col (λ m. grid_cell region_id rows cols row m ∷ [])
            (λ m. refl) in_cols (omega arith) (omega arith) (omega arith),
    cell row col,
  ),
)
  where
    cells_of : ℕ → List RegionSpec
    cells_of row = for_range cols 0 (λ col. grid_cell region_id rows cols row col ∷ [])

    times_one : (n : ℕ) → n * 1 ≡ n
    times_one n = omega arith

    wide : (row : ℕ) → length (cells_of row) ≡ cols
    wide row = for_range-length cols 0 1 _ (λ col. refl) ∙ times_one cols

    cell :
        (row col : ℕ) → IsCell region_id rows cols row col (grid_cell region_id rows cols row col)
    cell row col = record {
      same_id = refl;
      named = refl;
      of_rows = refl;
      of_cols = refl;
      in_row = refl;
      in_col = refl;
    }
