-- ===== src/Runtime/Prepared.antt =====
-- A worker whose attempts give arrays of the sample's shape prepares every chunk, and ties each
-- success to its array and its mask.
use region_sensitivity.Prelude.{
  ℕ, suc, ◌≡◌, refl, sym, ap, subst, ◌∙◌, Bool, true, false, some, List, [], ◌∷◌, if◌then◌else◌,
  length, all, All, ◌==◌, ==_iff, &&_true,
}
use region_sensitivity.Numpy.{Numpy}
use region_sensitivity.Runtime.Items.{Masks, mask_fits}
use region_sensitivity.Outcome.{Result, ok, ◌>>=◌}
use region_sensitivity.Status.{completed, prepare_failed, is_ok}
use region_sensitivity.Work.{WorkItem, WorkChunk, is_sha256}
use region_sensitivity.Dump.Types.{RegionMeta}
use region_sensitivity.Runtime.Transfer.{
  ItemMeta, check_item_meta, PreparedChunk, is_prepare_failed, check_masks, check_statuses,
  check_prepared,
}
use region_sensitivity.Runtime.Worker.{
  Attempt, prepared, not_prepared, Progress, none_yet, add_success, add_failure, after_attempt,
  prepare_items, stack_all, prepare_chunk,
}

mask_fits-is_bool :
    (numpy : Numpy) (masks : Masks numpy) (shape : List ℕ) (mask : masks.Mask)
    → mask_fits numpy masks shape mask ≡ true
    → masks.is_bool mask ≡ true
unfolding mask_fits
mask_fits-is_bool numpy masks shape mask h = (&&_true _ _ h).0

module _ (numpy : Numpy) (masks : Masks numpy) {Sample : Type 0} (fail_fast : Bool)
    (attempt : Sample → WorkItem → Attempt numpy.Array masks.Mask) (shape_of : Sample → List ℕ)
    (Fits : Sample → numpy.Array → masks.Mask → Type 0) where
  -- A success has a full report, and its array and mask fit the sample.
  pub record IsRow (sample : Sample) (m : ItemMeta) (a : numpy.Array) (k : masks.Mask)
      : Type 0 where
    pub digest : is_sha256 m.item_id ≡ true
    pub success : is_ok m.status ≡ true
    pub region_meta : RegionMeta
    pub measured : m.region_meta ≡ some region_meta
    pub fits : Fits sample a k

  -- What fits a sample is what the constructor of the chunk asks for.
  pub record IsSoundFit (sample : Sample) : Type 0 where
    pub axes : length (shape_of sample) ≡ 4
    pub uint8 : (a : numpy.Array) (k : masks.Mask) → Fits sample a k → numpy.is_uint8 a ≡ true
    pub shape :
        (a : numpy.Array) (k : masks.Mask) → Fits sample a k → numpy.shape a ≡ shape_of sample
    pub mask :
        (a : numpy.Array) (k : masks.Mask)
        → Fits sample a k
        → mask_fits numpy masks (shape_of sample) k ≡ true

  abbrev pub Rows : Sample → List ItemMeta → List numpy.Array → List masks.Mask → Type 0
  Rows sample [] [] [] = Unit
  Rows sample (m ∷ ms) (a ∷ as') (k ∷ ks) = IsRow sample m a k × Rows sample ms as' ks
  Rows sample _ _ _ = ⊥

  pub record IsTied (sample : Sample) (lists : Progress numpy.Array masks.Mask) : Type 0 where
    pub rows : Rows sample lists.successful lists.arrays lists.masks
    pub failures : All (λ m. is_prepare_failed (ItemMeta.status m) ≡ true) lists.failed

  abbrev Ready : Sample → Result (Progress numpy.Array masks.Mask) → Type 0
  Ready sample r = (lists : Progress numpy.Array masks.Mask) × (r ≡ ok lists) × IsTied sample lists

  abbrev pub AttemptFits : Sample → Attempt numpy.Array masks.Mask → Type 0
  AttemptFits sample (prepared a m _) = Fits sample a m
  AttemptFits sample (not_prepared _) = Unit

  after_attempt_total :
      (sample : Sample) (item : WorkItem) (tried : Attempt numpy.Array masks.Mask)
      (rest : Result (Progress numpy.Array masks.Mask))
      → is_sha256 item.item_id ≡ true
      → AttemptFits sample tried
      → Ready sample rest
      → Ready sample (after_attempt numpy masks fail_fast attempt shape_of item tried rest)
  unfolding after_attempt check_item_meta is_prepare_failed
  after_attempt_total sample item (prepared a m region_meta) rest digest fits (lists, e, tied) =
      let meta : ItemMeta = record {
        item_id = item.item_id;
        region_meta = some region_meta;
        status = completed;
      } in
      let row : IsRow sample meta a m = record {
        digest = digest;
        success = refl;
        region_meta = region_meta;
        measured = refl;
        fits = fits;
      } in
      (
        add_success numpy masks fail_fast attempt shape_of a m meta lists,
        rw (digest, e) refl,
        record { rows = (row, tied.rows); failures = tied.failures },
      )
  after_attempt_total sample item (not_prepared region_meta) rest digest fits (lists, e, tied) =
      go fail_fast
    where
      meta : ItemMeta
      meta = record { item_id = item.item_id; region_meta = region_meta; status = prepare_failed }

      go :
          (b : Bool)
          → Ready sample (
              check_item_meta meta >>= λ m.
              (if b then ok (none_yet numpy masks fail_fast attempt shape_of) else rest) >>= λ ls.
              ok (add_failure numpy masks fail_fast attempt shape_of m ls))
      go true = (
        add_failure numpy masks fail_fast attempt shape_of meta
            (none_yet numpy masks fail_fast attempt shape_of),
        rw digest refl,
        record { rows = tt; failures = (refl, tt) },
      )
      go false = (
        add_failure numpy masks fail_fast attempt shape_of meta lists,
        rw (digest, e) refl,
        record { rows = tied.rows; failures = (refl, tied.failures) },
      )

  module _ (sample : Sample)
      (tries : (item : WorkItem) → AttemptFits sample (attempt sample item)) where
    prepare_items_total :
        (items : List WorkItem)
        → All (λ (w : WorkItem). is_sha256 w.item_id ≡ true) items
        → Ready sample (prepare_items numpy masks fail_fast attempt shape_of sample items)
    unfolding prepare_items
    prepare_items_total [] h =
        (none_yet numpy masks fail_fast attempt shape_of, refl, record { rows = tt; failures = tt })
    prepare_items_total (item ∷ items) h =
        after_attempt_total sample item (attempt sample item) _ h.0 (tries item)
          (prepare_items_total items h.1)

    all_uint8 :
        (sound : IsSoundFit sample) (ms : List ItemMeta) (arrays : List numpy.Array)
        (ks : List masks.Mask)
        → Rows sample ms arrays ks
        → all numpy.is_uint8 arrays ≡ true
    all_uint8 f [] [] [] h = refl
    all_uint8 f (m ∷ ms) (a ∷ as') (k ∷ ks) h =
        rw (f.uint8 a k h.0.fits) (all_uint8 f ms as' ks h.1)
    all_uint8 f [] [] (_ ∷ _) h = elim h [ ]
    all_uint8 f [] (_ ∷ _) _ h = elim h [ ]
    all_uint8 f (_ ∷ _) [] _ h = elim h [ ]
    all_uint8 f (_ ∷ _) (_ ∷ _) [] h = elim h [ ]

    masks_checked :
        (sound : IsSoundFit sample) (ms : List ItemMeta) (arrays : List numpy.Array)
        (ks : List masks.Mask)
        → Rows sample ms arrays ks
        → check_masks numpy masks (shape_of sample) ks ≡ ok tt
    unfolding check_masks
    masks_checked f [] [] [] h = refl
    masks_checked f (m ∷ ms) (a ∷ as') (k ∷ ks) h =
        let fits = f.mask a k h.0.fits in
        let is_bool = mask_fits-is_bool numpy masks (shape_of sample) k fits in
        rw (is_bool, fits) (masks_checked f ms as' ks h.1)
    masks_checked f [] [] (_ ∷ _) h = elim h [ ]
    masks_checked f [] (_ ∷ _) _ h = elim h [ ]
    masks_checked f (_ ∷ _) [] _ h = elim h [ ]
    masks_checked f (_ ∷ _) (_ ∷ _) [] h = elim h [ ]

    -- the arrays of one shape are stacked
    stacks :
        (sound : IsSoundFit sample) (ms : List ItemMeta) (arrays : List numpy.Array)
        (ks : List masks.Mask)
        → Rows sample ms arrays ks
        → (s : numpy.Stacked) × (stack_all numpy masks fail_fast attempt shape_of sample arrays
            ≡ ok s)
          × (numpy.rows s ≡ arrays)
          × (numpy.row_shape s ≡ shape_of sample)
          × (numpy.rows_are_uint8 s ≡ true)
    unfolding stack_all
    stacks f [] [] [] h = (
      numpy.empty (shape_of sample),
      refl,
      numpy.rows-empty _,
      numpy.row_shape-empty _,
      numpy.rows_are_uint8-empty _,
    )
    stacks f (m ∷ ms) (a ∷ as') (k ∷ ks) h =
        let (s, e, r, dims, uint8) = numpy.stack_same_shape a as' (same ms as' ks h.1) in
        (s, e, r, dims ∙ f.shape a k h.0.fits, uint8 (all_uint8 f (m ∷ ms) (a ∷ as') (k ∷ ks) h))
      where
        same :
            (ms : List ItemMeta) (bs : List numpy.Array) (ks : List masks.Mask)
            → Rows sample ms bs ks
            → All (λ b. numpy.shape b ≡ numpy.shape a) bs
        same [] [] [] g = tt
        same (m ∷ ms) (b ∷ bs) (k' ∷ ks) g =
            (f.shape b k' g.0.fits ∙ sym (f.shape a k h.0.fits), same ms bs ks g.1)
        same [] [] (_ ∷ _) g = elim g [ ]
        same [] (_ ∷ _) _ g = elim g [ ]
        same (_ ∷ _) [] _ g = elim g [ ]
        same (_ ∷ _) (_ ∷ _) [] g = elim g [ ]
    stacks f [] [] (_ ∷ _) h = elim h [ ]
    stacks f [] (_ ∷ _) _ h = elim h [ ]
    stacks f (_ ∷ _) [] _ h = elim h [ ]
    stacks f (_ ∷ _) (_ ∷ _) [] h = elim h [ ]

    -- what the constructor of the chunk checks
    row_counts :
        (ms : List ItemMeta) (arrays : List numpy.Array) (ks : List masks.Mask)
        → Rows sample ms arrays ks
        → (length arrays ≡ length ms)
          × (length ks ≡ length ms)
          × (all (λ m. is_ok (ItemMeta.status m)) ms ≡ true)
    row_counts [] [] [] h = (refl, refl, refl)
    row_counts (m ∷ ms) (a ∷ as') (k ∷ ks) h =
        let (arrays, masks, oks) = row_counts ms as' ks h.1 in
        (ap suc arrays, ap suc masks, rw (h.0.success) oks)
    row_counts [] [] (_ ∷ _) h = elim h [ ]
    row_counts [] (_ ∷ _) _ h = elim h [ ]
    row_counts (_ ∷ _) [] _ h = elim h [ ]
    row_counts (_ ∷ _) (_ ∷ _) [] h = elim h [ ]

    all_prepare_failed :
        (ms : List ItemMeta)
        → All (λ m. is_prepare_failed (ItemMeta.status m) ≡ true) ms
        → all (λ m. is_prepare_failed (ItemMeta.status m)) ms ≡ true
    all_prepare_failed [] h = refl
    all_prepare_failed (m ∷ ms) h = rw (h.0) (all_prepare_failed ms h.1)

    -- If every attempt for a sample fails or gives a uint8 array of the sample's shape, which has
    -- four axes, and a boolean mask of its frames or its plane, and a chunk and its items have
    -- proper digests, then the worker returns a prepared chunk, whichever of the items fail: its
    -- reports, arrays and masks go together, its failures are of preparation, and it has the
    -- chunk's identifier.
    pub prepare_chunk_total :
        (sound : IsSoundFit sample) (chunk : WorkChunk)
        → is_sha256 chunk.chunk_id ≡ true
        → All (λ (w : WorkItem). is_sha256 w.item_id ≡ true) chunk.items
        → (result : PreparedChunk numpy.Stacked masks.Mask) × (prepare_chunk numpy masks fail_fast
              attempt shape_of chunk sample
            ≡ ok result)
          × Rows sample result.item_metas (numpy.rows result.arrays) result.masks
          × All (λ m. is_prepare_failed (ItemMeta.status m) ≡ true) result.failed_items
          × (result.chunk_id ≡ chunk.chunk_id)
    unfolding prepare_chunk check_prepared check_statuses
    prepare_chunk_total sound chunk digest items =
        let (lists, made, tied) = prepare_items_total chunk.items items in
        let (s, stacked, rows, dims, uint8) =
          stacks sound lists.successful lists.arrays lists.masks tied.rows in
        let (na, nm, oks) = row_counts lists.successful lists.arrays lists.masks tied.rows in
        let axes : (length (numpy.row_shape s) == 4) ≡ true =
          (==_iff _ _).1 (ap length dims ∙ sound.axes) in
        let same_a : (length (numpy.rows s) == length lists.successful) ≡ true =
          (==_iff _ _).1 (ap length rows ∙ na) in
        let same_m : (length lists.masks == length lists.successful) ≡ true = (==_iff _ _).1 nm in
        let fit : check_masks numpy masks (numpy.row_shape s) lists.masks ≡ ok tt =
          subst (λ ns. check_masks numpy masks ns lists.masks ≡ ok tt) (sym dims)
            (masks_checked sound lists.successful lists.arrays lists.masks tied.rows) in
        let failed = all_prepare_failed lists.failed tied.failures in
        (
          record {
            chunk_id = chunk.chunk_id;
            arrays = s;
            masks = lists.masks;
            item_metas = lists.successful;
            failed_items = lists.failed;
          },
          rw (made, stacked, digest, uint8, axes, same_a, same_m, fit, oks, failed) refl,
          subst (λ arrays. Rows sample lists.successful arrays lists.masks) (sym rows) tied.rows,
          tied.failures,
          refl,
        )
