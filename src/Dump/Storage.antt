-- ===== src/Dump/Storage.antt =====
-- ssat/core/dump/_storage.py. A directory maps ordinals, which name its fragments, to their
-- content; it is kept by ordinal, so that a directory has one form, and holds no other parquet
-- file. The order in which the file system lists it is arbitrary, and an argument of what lists it.
-- The file system also decides what becomes of a write: it may be lost before the rename, or fail
-- after the rename has published the file.
pub mod Listed
use region_sensitivity.Prelude.{
  ℕ, ◌+◌, zero, suc, ◌≤◌, ◌<◌, All, ◌≡◌, refl, ap, sym, subst, ◌≢◌, ==_iff, ◌∙◌, Bool, true, false,
  Option, none, some, List, [], ◌∷◌, ◌++◌, arith, leb, ◌==◌, if◌then◌else◌, Bool-cases, inl, inr,
}
use region_sensitivity.Outcome.{Result, ok, err, os_error, dump_corruption_error, ◌>>=◌}

abbrev pub Directory : Type 0 → Type 0
Directory A = List (ℕ × A)

-- The order of a listing: where each fragment stands among those of higher ordinals. Each order of
-- the fragments is the one of some such list.
abbrev pub Listing : Type 0
Listing = List ℕ

module _ {A : Type 0} where
  unfoldable pub insert_at : ℕ → ℕ × A → Directory A → Directory A
  insert_at zero f d = f ∷ d
  insert_at (suc i) f [] = f ∷ []
  insert_at (suc i) f (g ∷ d) = g ∷ insert_at i f d

  -- `directory.iterdir()`
  unfoldable pub iterdir : Listing → Directory A → Directory A
  unfolding insert_at
  iterdir [] d = d
  iterdir (i ∷ listing) [] = []
  iterdir (i ∷ listing) (f ∷ d) = insert_at i f (iterdir listing d)

  -- `fragments.sort(key=lambda item: item[0])`, a stable sort
  unfoldable pub insert_fragment : ℕ × A → Directory A → Directory A
  insert_fragment (n, a) [] = (n, a) ∷ []
  insert_fragment (n, a) ((k, b) ∷ d) =
      if leb n k then (n, a) ∷ (k, b) ∷ d else (k, b) ∷ insert_fragment (n, a) d

  unfoldable pub sort_fragments : Directory A → Directory A
  unfolding insert_fragment
  sort_fragments [] = []
  sort_fragments (f ∷ d) = insert_fragment f (sort_fragments d)

  -- in a sorted list, equal ordinals stand side by side
  unfoldable pub is_strict : Directory A → Bool
  is_strict [] = true
  is_strict ((n, a) ∷ []) = true
  is_strict ((n, a) ∷ (k, b) ∷ d) = if n == k then false else is_strict ((k, b) ∷ d)

  -- `fragment_files`
  unfoldable pub fragment_files : Listing → Directory A → Result (Directory A)
  unfolding iterdir sort_fragments is_strict
  fragment_files listing directory =
      let fragments = sort_fragments (iterdir listing directory) in
      if is_strict fragments
      then ok fragments
      else err (dump_corruption_error "duplicate fragment ordinals")

  abbrev pub last_ordinal : Directory A → ℕ
  last_ordinal [] = 0
  last_ordinal ((n, a) ∷ []) = n + 1
  last_ordinal ((n, a) ∷ f ∷ d) = last_ordinal (f ∷ d)

  -- `next_fragment_ordinal`
  unfoldable pub next_ordinal : Listing → Directory A → Result ℕ
  next_ordinal listing directory =
      fragment_files listing directory >>= λ fragments. ok (last_ordinal fragments)

  -- `os.replace(temporary_path, path)`
  unfoldable pub publish : ℕ → A → Directory A → Directory A
  publish n a [] = (n, a) ∷ []
  publish n a ((k, b) ∷ d) =
      if k == n then (n, a) ∷ d else if leb n k then (n, a) ∷ (k, b) ∷ d else (k, b) ∷ publish n a d

  -- `directory / name` with its content, if the file is there
  unfoldable pub read_fragment : ℕ → Directory A → Option A
  read_fragment n [] = none
  read_fragment n ((k, b) ∷ d) = if k == n then some b else read_fragment n d

-- What the file system does with one atomic write.
pub data WriteFate : Type 0 where
  done lost published_then_failed : WriteFate

-- `atomic_write_parquet`: the directory afterwards, and whether the call raised
unfoldable pub atomic_write :
    {A : Type 0} → WriteFate → ℕ → A → Directory A → Result (Unit {0}) × Directory A
atomic_write done n a d = (ok tt, publish n a d)
atomic_write lost n a d = (err (os_error "write failed"), d)
atomic_write published_then_failed n a d = (err (os_error "fsync failed"), publish n a d)

module _ {A : Type 0} where
  -- The ordinals grow, from `low` on, and stay under `high`.
  abbrev pub IsAscending : ℕ → Directory A → ℕ → Type 0
  IsAscending low [] high = low ≤ high
  IsAscending low ((n, a) ∷ d) high = (low ≤ n) × IsAscending (n + 1) d high

  pub IsAscending-le : (low high : ℕ) (d : Directory A) → IsAscending low d high → low ≤ high
  IsAscending-le low high [] h = h
  IsAscending-le low high ((n, a) ∷ d) h = omega (arith, IsAscending-le (n + 1) high d h.1)

  -- Publishing above all ordinals adds at the end.
  pub publish_new :
      (low high n : ℕ) (a : A) (d : Directory A)
      → IsAscending low d high
      → high ≤ n
      → publish n a d ≡ d ++ (n, a) ∷ []
  unfolding publish
  publish_new low high n a [] h le = refl
  publish_new low high n a ((k, b) ∷ d) h le =
      let below = IsAscending-le (k + 1) high d h.1 in
      ground (arith, publish_new (k + 1) high n a d h.1 le)

  pub IsAscending-weaken :
      (low high high' : ℕ) (d : Directory A)
      → IsAscending low d high
      → high ≤ high'
      → IsAscending low d high'
  IsAscending-weaken low high high' [] h le = omega arith
  IsAscending-weaken low high high' ((n, a) ∷ d) h le =
      (h.0, IsAscending-weaken (n + 1) high high' d h.1 le)

  -- Publishing at `n` keeps the order, under a bound that is above `n` too.
  pub publish-IsAscending :
      (low high n : ℕ) (a : A) (d : Directory A)
      → IsAscending low d high
      → low ≤ n
      → high ≤ n + 1
      → IsAscending low (publish n a d) (n + 1)
  unfolding publish
  publish-IsAscending low high n a [] h le le' = (le, omega arith)
  publish-IsAscending low high n a ((k, b) ∷ d) h le le' = elim (Bool-cases (k == n)) [
    | inl same ↦
        let e : k ≡ n = (==_iff k n).0 same in
        rw same (
          le,
          IsAscending-weaken (n + 1) high (n + 1) d (subst (λ m. IsAscending (m + 1) d high) e h.1)
              le',
        )
    | inr other ↦
        let below = IsAscending-le (k + 1) high d h.1 in
        let differs : k ≢ n = λ e. cc ((==_iff k n).1 e, other) in
        let later : leb n k ≡ false = ground (arith, other) in
        rw (other, later) (h.0, publish-IsAscending (k + 1) high n a d h.1 (omega arith) le')
  ]

  pub read_fragment-publish :
      (n k : ℕ) (a : A) (d : Directory A)
      → read_fragment k (publish n a d) ≡ (if n == k then some a else read_fragment k d)
  unfolding publish read_fragment
  read_fragment-publish n k a [] = refl
  read_fragment-publish n k a ((m, b) ∷ d) = ground (arith, read_fragment-publish n k a d)
