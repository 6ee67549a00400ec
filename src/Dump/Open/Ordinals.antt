-- ===== src/Dump/Open/Ordinals.antt =====
-- The ordinals that a resumed writer starts from.
use region_sensitivity.Prelude.{
  ℕ, ◌+◌, ◌≤◌, ◌<◌, ◌≡◌, subst, some, List, [], ◌∷◌, arith, ◌==◌, ==_iff, if◌then◌else◌, All,
  Bool-cases, inl, inr,
}
use region_sensitivity.Dump.Storage.{Directory, read_fragment, IsAscending, IsAscending-weaken}
use region_sensitivity.Dump.Index.{Fragments}
use region_sensitivity.Dump.Types.{PerturbedRow, IndexRow}
use region_sensitivity.Dump.Sound.{IsSound, IsLinked}

-- a fragment that is there stands below the bound
read_fragment-below :
    {A : Type 0} (low high n : ℕ) (a : A) (d : Directory A)
    → IsAscending low d high
    → read_fragment n d ≡ some a
    → n < high
unfolding read_fragment
read_fragment-below low high n a [] h found = cc
read_fragment-below low high n a ((k, b) ∷ d) h found = elim (Bool-cases (k == n)) [
  | inl same ↦ let e : k ≡ n = (==_iff k n).0 same in omega (arith, above (k + 1) high d h.1)
  | inr other ↦
      read_fragment-below (k + 1) high n a d h.1
        (subst (λ t. (if t then some b else read_fragment n d) ≡ some a) other found)
]
  where
    above : {A : Type 0} (low high : ℕ) (d : Directory A) → IsAscending low d high → low ≤ high
    above low high [] h = h
    above low high ((n, a) ∷ d) h = omega (arith, above (n + 1) high d h.1)

module _ {Logits : Type 0} where
  -- every index fragment stands below the bound of the data that it refers to
  linked-IsAscending :
      (perturbed : Directory (List (PerturbedRow Logits))) (low old high : ℕ)
      (index : Directory (List IndexRow))
      → IsAscending 0 perturbed high
      → IsAscending low index old
      → low ≤ high
      → All (IsLinked perturbed) index
      → IsAscending low index high
  linked-IsAscending perturbed low old high [] bound h le l = le
  linked-IsAscending perturbed low old high ((n, rows) ∷ index) bound h le l =
      let below = read_fragment-below 0 high n l.0.rows perturbed bound l.0.found in
      (h.0, linked-IsAscending perturbed (n + 1) old high index bound h.1 (omega arith) l.1)

  pub reopened-IsSound :
      (f : Fragments Logits) (c p clean_next perturbed_next : ℕ)
      → IsSound f c p
      → IsAscending 0 f.clean clean_next
      → IsAscending 0 f.perturbed perturbed_next
      → IsSound f clean_next perturbed_next
  reopened-IsSound f c p clean_next perturbed_next h clean perturbed = record {
    clean_order = IsAscending-weaken 0 clean_next (clean_next + 1) f.clean clean (omega arith);
    perturbed_order =
        IsAscending-weaken 0 perturbed_next (perturbed_next + 1) f.perturbed perturbed
          (omega arith);
    index_order =
        linked-IsAscending f.perturbed 0 p perturbed_next f.index perturbed h.index_order
          (omega arith) h.linked;
    clean_rows = h.clean_rows;
    perturbed_rows = h.perturbed_rows;
    linked = h.linked;
  }
