-- ===== src/Batching/Batch.antt =====
-- `InferenceBatch` of ssat/core/runtime/types.py, and how batches are made and cut.
use region_sensitivity.Prelude.{
  ℕ, ◌-◌, ◌≤◌, ◌<◌, ◌≡◌, refl, sym, ap, subst, ◌∙◌, Bool, true, false, not, ◌&&◌, List, [], ◌∷◌,
  map, arith, ◌==◌, if◌then◌else◌, length, take, drop, all, All, length-map, length-take,
  length-drop, map-take, map-drop, All-take, All-drop, ==_iff,
}
use region_sensitivity.Numpy.{Numpy}
use region_sensitivity.Outcome.{Result, ok, err, value_error, ◌>>=◌}

-- `==` and `!=` on shape tuples
unfoldable pub shape_eq : List ℕ → List ℕ → Bool
shape_eq [] [] = true
shape_eq (m ∷ ms) (n ∷ ns) = m == n && shape_eq ms ns
shape_eq _ _ = false

pub shape_eq_refl : (ms : List ℕ) → shape_eq ms ms ≡ true
unfolding shape_eq
shape_eq_refl [] = refl
shape_eq_refl (m ∷ ms) = ground (arith, shape_eq_refl ms)

pub shape_eq-eq : (ms ns : List ℕ) → shape_eq ms ns ≡ true → ms ≡ ns
unfolding shape_eq
shape_eq-eq [] [] h = refl
shape_eq-eq [] (n ∷ ns) h = ground arith
shape_eq-eq (m ∷ ms) [] h = ground arith
shape_eq-eq (m ∷ ms) (n ∷ ns) h = ground (arith, shape_eq-eq ms ns)

abbrev pub is_empty : {A : Type 0} → List A → Bool
is_empty [] = true
is_empty (x ∷ xs) = false

pub is_empty→nil : {A : Type 0} (xs : List A) → is_empty xs ≡ true → xs ≡ []
is_empty→nil [] h = refl
is_empty→nil (x ∷ xs) h = cc

pub record InferenceBatch (Item Stacked : Type 0) : Type 0 where
  pub items : List Item
  pub arrays : Stacked

module _ (numpy : Numpy) {Item : Type 0} (array : Item → numpy.Array) where
  open numpy use {Stacked, shape, is_uint8, rows, row_shape, rows_are_uint8, stack, slice}

  -- `InferenceBatch(items, arrays)` with the checks of `__post_init__`
  unfoldable pub inference_batch : List Item → Stacked → Result (InferenceBatch Item Stacked)
  inference_batch items arrays =
      if is_empty items
      then err (value_error "inference batch must not be empty")
      else if not (rows_are_uint8 arrays && length (row_shape arrays) == 4)
      then err (value_error "arrays must be (B, T, H, W, C) uint8")
      else if not (length (rows arrays) == length items)
      then err (value_error "items and arrays must be aligned")
      else if not (all (λ item. shape_eq (shape (array item)) (row_shape arrays)) items)
      then err (value_error "every item array must match the batch shape")
      else ok (record { items = items; arrays = arrays })

  -- `Rebatcher._make_batch`
  unfoldable pub make_batch : List Item → Result (InferenceBatch Item Stacked)
  make_batch items = stack (map array items) >>= λ arrays. inference_batch items arrays

  -- `BatchSplitter._slice`
  unfoldable pub slice_batch :
      InferenceBatch Item Stacked → ℕ → ℕ → Result (InferenceBatch Item Stacked)
  slice_batch batch start stop =
      inference_batch (take (stop - start) (drop start batch.items)) (slice batch.arrays start stop)

  -- What an item brings: a uint8 array with four axes (`LoadedSample`, `PerturbedInferenceItem`).
  pub record IsFrames (item : Item) : Type 0 where
    pub uint8 : is_uint8 (array item) ≡ true
    pub four_axes : length (shape (array item)) ≡ 4

  pub record IsBatch (batch : InferenceBatch Item Stacked) : Type 0 where
    pub nonempty : 0 < length batch.items
    pub rows_eq : rows batch.arrays ≡ map array batch.items
    pub same_shape : All (λ item. shape (array item) ≡ row_shape batch.arrays) batch.items
    pub uint8 : rows_are_uint8 batch.arrays ≡ true
    pub five_axes : length (row_shape batch.arrays) ≡ 4

  all-shape_eq :
      (ns : List ℕ) (items : List Item)
      → All (λ item. shape (array item) ≡ ns) items
      → all (λ item. shape_eq (shape (array item)) ns) items ≡ true
  all-shape_eq ns [] h = refl
  all-shape_eq ns (i ∷ is) h = rw (h.0) (rw (shape_eq_refl ns) (all-shape_eq ns is h.1))

  all-is_uint8 : (items : List Item) → All IsFrames items → all is_uint8 (map array items) ≡ true
  all-is_uint8 [] h = refl
  all-is_uint8 (i ∷ is) h = rw (h.0.uint8) (all-is_uint8 is h.1)

  -- The checks pass for rows of one shape that belong to the items.
  pub inference_batch_total :
      (items : List Item) (arrays : Stacked)
      → IsBatch (record { items = items; arrays = arrays })
      → inference_batch items arrays ≡ ok (record { items = items; arrays = arrays })
  unfolding inference_batch
  inference_batch_total [] arrays h = elim h.nonempty [ ]
  inference_batch_total (i ∷ is) arrays h =
      let same : (length (rows arrays) == length (i ∷ is)) ≡ true =
        rw (h.rows_eq) (rw (length-map array (i ∷ is)) ((==_iff _ _).1 refl)) in
      rw (h.uint8, h.five_axes, same, all-shape_eq (row_shape arrays) (i ∷ is) h.same_shape)

  to_arrays :
      (ns : List ℕ) (items : List Item)
      → All (λ item. shape (array item) ≡ ns) items
      → All (λ a. shape a ≡ ns) (map array items)
  to_arrays ns [] h = tt
  to_arrays ns (i ∷ is) h = (h.0, to_arrays ns is h.1)

  -- Items of one shape make a batch.
  pub make_batch_total :
      (ns : List ℕ) (items : List Item)
      → 0 < length items
      → All IsFrames items
      → All (λ item. shape (array item) ≡ ns) items
      → (batch : InferenceBatch Item Stacked) × (make_batch items ≡ ok batch)
        × (batch.items ≡ items)
        × IsBatch batch
  unfolding make_batch
  make_batch_total ns [] pos frames same = elim pos [ ]
  make_batch_total ns (i ∷ is) pos frames same =
      let here : (All (λ item. shape (array item) ≡ shape (array i)) (i ∷ is)) =
        subst (λ t. All (λ item. shape (array item) ≡ t) (i ∷ is)) (sym same.0) same in
      let (s, e, re, se, ue) =
        numpy.stack_same_shape (array i) (map array is) (to_arrays _ is here.1) in
      let valid : IsBatch (record { items = i ∷ is; arrays = s }) = record {
        nonempty = omega arith;
        rows_eq = re;
        same_shape = subst (λ t. All (λ item. shape (array item) ≡ t) (i ∷ is)) (sym se) here;
        uint8 = ue (all-is_uint8 (i ∷ is) frames);
        five_axes = rw se (frames.0.four_axes);
      } in
      (
        record { items = i ∷ is; arrays = s },
        rw e (inference_batch_total (i ∷ is) s valid),
        refl,
        valid,
      )

  -- A cut of a valid batch that is not empty and ends within it passes the checks of the
  -- constructor, has the items from `start` to `stop`, and is a valid batch again.
  pub slice_batch_total :
      (batch : InferenceBatch Item Stacked) (start stop : ℕ)
      → IsBatch batch
      → start < stop
      → stop ≤ length batch.items
      → (cut : InferenceBatch Item Stacked) × (slice_batch batch start stop ≡ ok cut)
        × (cut.items ≡ take (stop - start) (drop start batch.items))
        × IsBatch cut
  unfolding slice_batch
  slice_batch_total batch start stop h lt le =
      let items = take (stop - start) (drop start batch.items) in
      let valid : IsBatch (record { items = items; arrays = slice batch.arrays start stop }) =
        record {
          nonempty =
              rw
                (length-take (stop - start) (drop start batch.items), length-drop start batch.items)
                (omega arith);
          rows_eq =
              numpy.rows-slice batch.arrays start stop
              ∙ ap (λ r. take (stop - start) (drop start r)) h.rows_eq
              ∙ ap (take (stop - start)) (sym (map-drop array start batch.items))
              ∙ sym (map-take array (stop - start) (drop start batch.items));
          same_shape =
              rw (numpy.row_shape-slice batch.arrays start stop)
                (All-take _ (stop - start) _ (All-drop _ start _ h.same_shape));
          uint8 = rw (numpy.rows_are_uint8-slice batch.arrays start stop) h.uint8;
          five_axes = rw (numpy.row_shape-slice batch.arrays start stop) h.five_axes;
        } in
      (
        record { items = items; arrays = slice batch.arrays start stop },
        inference_batch_total items _ valid,
        refl,
        valid,
      )
