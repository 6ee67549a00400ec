-- ===== src/Dump/Storage/Listed.antt =====
-- What `fragment_files` and `next_fragment_ordinal` of ssat/core/dump/_storage.py make of a listing,
-- in whatever order it is.
use region_sensitivity.Prelude.{
  ℕ, ◌+◌, zero, suc, ◌<◌, All, ◌≡◌, refl, ap, sym, ◌∙◌, true, false, [], ◌∷◌, arith, leb,
  Bool-cases, inl, inr,
}
use region_sensitivity.Outcome.{ok}
use region_sensitivity.Dump.Storage.{
  Directory, Listing, insert_at, iterdir, insert_fragment, sort_fragments, is_strict,
  fragment_files, last_ordinal, next_ordinal, IsAscending,
}

module _ {A : Type 0} where
  insert_fragment-below :
      (n : ℕ) (a : A) (low high : ℕ) (d : Directory A)
      → IsAscending low d high
      → n < low
      → insert_fragment (n, a) d ≡ (n, a) ∷ d
  unfolding insert_fragment
  insert_fragment-below n a low high [] h lt = refl
  insert_fragment-below n a low high ((k, b) ∷ d) h lt = let above = h.0 in ground arith

  sort_fragments-IsAscending :
      (low high : ℕ) (d : Directory A) → IsAscending low d high → sort_fragments d ≡ d
  unfolding sort_fragments
  sort_fragments-IsAscending low high [] h = refl
  sort_fragments-IsAscending low high ((n, a) ∷ []) h = refl
  sort_fragments-IsAscending low high ((n, a) ∷ (k, b) ∷ d) h =
      ap (insert_fragment (n, a)) (sort_fragments-IsAscending (n + 1) high ((k, b) ∷ d) h.1)
      ∙ ground (arith, h.1.0)

  insert_fragment-past :
      (n : ℕ) (a : A) (k : ℕ) (b : A) (d : Directory A)
      → leb n k ≡ false
      → insert_fragment (n, a) ((k, b) ∷ d) ≡ (k, b) ∷ insert_fragment (n, a) d
  unfolding insert_fragment
  insert_fragment-past n a k b d later = rw later

  insert_fragment-swap :
      (n k : ℕ) (a b : A) (d : Directory A)
      → n < k
      → insert_fragment (k, b) (insert_fragment (n, a) d)
        ≡ insert_fragment (n, a) (insert_fragment (k, b) d)
  unfolding insert_fragment
  insert_fragment-swap n k a b [] lt = ground arith
  insert_fragment-swap n k a b ((m, c) ∷ d) lt =
      let up : leb n k ≡ true = ground arith in
      let down : leb k n ≡ false = ground arith in
      elim (Bool-cases (leb n m)) [
        | inl n_first ↦ elim (Bool-cases (leb k m)) [
          | inl k_first ↦ rw (n_first, k_first, up, down)
          | inr k_later ↦ rw (n_first, k_later, down, n_first)
        ]
        | inr n_later ↦
            let k_later : leb k m ≡ false = ground (arith, n_later) in
            ap (insert_fragment (k, b)) (insert_fragment-past n a m c d n_later)
            ∙ insert_fragment-past k b m c (insert_fragment (n, a) d) k_later
            ∙ ap (λ e. (m, c) ∷ e) (insert_fragment-swap n k a b d lt)
            ∙ sym (insert_fragment-past n a m c (insert_fragment (k, b) d) n_later)
            ∙ ap (insert_fragment (n, a)) (sym (insert_fragment-past k b m c d k_later))
      ]

  abbrev IsAbove : ℕ → Directory A → Type 0
  IsAbove n = All (λ f. n < f.0)

  IsAscending-IsAbove :
      (n low high : ℕ) (d : Directory A) → IsAscending low d high → n < low → IsAbove n d
  IsAscending-IsAbove n low high [] h lt = tt
  IsAscending-IsAbove n low high ((k, b) ∷ d) h lt =
      let above = h.0 in (omega arith, IsAscending-IsAbove n (k + 1) high d h.1 (omega arith))

  insert_at-IsAbove :
      (i n : ℕ) (f : ℕ × A) (d : Directory A) → n < f.0 → IsAbove n d → IsAbove n (insert_at i f d)
  unfolding insert_at
  insert_at-IsAbove zero n f d lt h = (lt, h)
  insert_at-IsAbove (suc i) n f [] lt h = (lt, tt)
  insert_at-IsAbove (suc i) n f (g ∷ d) lt h = (h.0, insert_at-IsAbove i n f d lt h.1)

  iterdir-IsAbove :
      (listing : Listing) (n : ℕ) (d : Directory A) → IsAbove n d → IsAbove n (iterdir listing d)
  unfolding iterdir
  iterdir-IsAbove [] n d h = h
  iterdir-IsAbove (i ∷ listing) n [] h = tt
  iterdir-IsAbove (i ∷ listing) n (f ∷ d) h =
      insert_at-IsAbove i n f _ h.0 (iterdir-IsAbove listing n d h.1)

  sort_fragments-insert_at :
      (i n : ℕ) (a : A) (d : Directory A)
      → IsAbove n d
      → sort_fragments (insert_at i (n, a) d) ≡ insert_fragment (n, a) (sort_fragments d)
  unfolding sort_fragments insert_at
  sort_fragments-insert_at zero n a d h = refl
  sort_fragments-insert_at (suc i) n a [] h = refl
  sort_fragments-insert_at (suc i) n a ((k, b) ∷ d) h =
      ap (insert_fragment (k, b)) (sort_fragments-insert_at i n a d h.1)
      ∙ insert_fragment-swap n k a b (sort_fragments d) h.0

  -- Whatever the order of the listing, sorting it puts the directory back in order.
  sort_fragments-iterdir :
      (listing : Listing) (low high : ℕ) (d : Directory A)
      → IsAscending low d high
      → sort_fragments (iterdir listing d) ≡ d
  unfolding iterdir sort_fragments
  sort_fragments-iterdir [] low high d h = sort_fragments-IsAscending low high d h
  sort_fragments-iterdir (i ∷ listing) low high [] h = refl
  sort_fragments-iterdir (i ∷ listing) low high ((n, a) ∷ d) h =
      let above = IsAscending-IsAbove n (n + 1) high d h.1 (omega arith) in
      sort_fragments-insert_at i n a _ (iterdir-IsAbove listing n d above)
      ∙ ap (insert_fragment (n, a)) (sort_fragments-iterdir listing (n + 1) high d h.1)
      ∙ insert_fragment-below n a (n + 1) high d h.1 (omega arith)

  is_strict-IsAscending :
      (low high : ℕ) (d : Directory A) → IsAscending low d high → is_strict d ≡ true
  unfolding is_strict
  is_strict-IsAscending low high [] h = refl
  is_strict-IsAscending low high ((n, a) ∷ []) h = refl
  is_strict-IsAscending low high ((n, a) ∷ (k, b) ∷ d) h =
      ground (arith, h.1.0, is_strict-IsAscending (n + 1) high ((k, b) ∷ d) h.1)

  -- A directory is listed by ordinal, in whatever order the file system lists it.
  pub fragment_files-IsAscending :
      (listing : Listing) (low high : ℕ) (d : Directory A)
      → IsAscending low d high
      → fragment_files listing d ≡ ok d
  unfolding fragment_files
  fragment_files-IsAscending listing low high d h =
      rw (sort_fragments-iterdir listing low high d h) (rw (is_strict-IsAscending low high d h))

  last_ordinal-IsAscending :
      (low high n : ℕ) (a : A) (d : Directory A)
      → IsAscending low ((n, a) ∷ d) high
      → IsAscending low ((n, a) ∷ d) (last_ordinal ((n, a) ∷ d))
  last_ordinal-IsAscending low high n a [] h = (h.0, omega arith)
  last_ordinal-IsAscending low high n a ((k, b) ∷ d) h =
      (h.0, last_ordinal-IsAscending (n + 1) high k b d h.1)

  -- `next_fragment_ordinal` is above every fragment that is there.
  pub next_ordinal-IsAscending :
      (listing : Listing) (high : ℕ) (d : Directory A)
      → IsAscending 0 d high
      → (n : ℕ) × (next_ordinal listing d ≡ ok n) × IsAscending 0 d n
  unfolding next_ordinal
  next_ordinal-IsAscending listing high [] h =
      (0, rw (fragment_files-IsAscending listing 0 high [] h), omega arith)
  next_ordinal-IsAscending listing high ((n, a) ∷ d) h = (
    last_ordinal ((n, a) ∷ d),
    rw (fragment_files-IsAscending listing 0 high ((n, a) ∷ d) h),
    last_ordinal-IsAscending 0 high n a d h,
  )
