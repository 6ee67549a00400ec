-- ===== src/Batching/Splitter/Results.antt =====
-- The parts of `BatchSplitter.predict`: zipped results, failed results, and the two halves.
use region_sensitivity.Prelude.{
  ℕ, ◌-◌, ◌/◌, ◌<◌, ◌≡◌, refl, ap, ◌≢◌, true, List, [], ◌∷◌, ◌++◌, map, arith, length, take, drop,
  All, take-append-drop, take-all, length-drop,
}
use region_sensitivity.Outcome.{Exception, contract_error}
use region_sensitivity.Status.{predict_failed}
use region_sensitivity.Batching.Splitter.{PredictionResult, is_result, failed, zip_results}

-- the two halves of a batch
pub half_split : (n : ℕ) → n ≢ 1 → 0 < n → (0 < n / 2) × (n / 2 < n)
half_split n h p = (omega arith, omega arith)

-- they hold all the items
pub halves_eq :
    {A : Type 0} (k : ℕ) (xs : List A)
    → take (k - 0) (drop 0 xs) ++ take (length xs - k) (drop k xs) ≡ xs
halves_eq k xs =
    let whole : k - 0 ≡ k = omega arith in
    rw (whole, take-all (length xs - k) (drop k xs) (rw length-drop (omega arith)))
      (take-append-drop k xs)

module _ {Item Output : Type 0} where
  abbrev pub AllResults : List (PredictionResult Item Output) → Type 0
  AllResults = All (λ r. is_result r ≡ true)

  pub zip_results_lem :
      (is : List Item) (os : List Output)
      → length os ≡ length is
      → (map (λ r. PredictionResult.item r) (zip_results is os) ≡ is)
        × AllResults (zip_results is os)
  unfolding zip_results is_result
  zip_results_lem [] os h = (refl, tt)
  zip_results_lem (i ∷ is) [] h = absurd (omega arith)
  zip_results_lem (i ∷ is) (o ∷ os) h =
      let (items, results) = zip_results_lem is os (omega arith) in
      (ap (λ r. i ∷ r) items, (refl, results))

pub failed_lem :
    {Item : Type 0} (Output : Type 0) (is : List Item)
    → (map (λ r. PredictionResult.item r) (map (failed {Output = Output} predict_failed) is) ≡ is)
      × AllResults (map (failed {Output = Output} predict_failed) is)
unfolding is_result
failed_lem Output [] = (refl, tt)
failed_lem Output (i ∷ is) =
    let (items, results) = failed_lem Output is in (ap (λ r. i ∷ r) items, (refl, results))

abbrev pub IsContractError : Exception → Type 0
IsContractError (contract_error _) = Unit
IsContractError _ = ⊥
