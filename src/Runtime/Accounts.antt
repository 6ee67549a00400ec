-- ===== src/Runtime/Accounts.antt =====
-- A prepared chunk that passes its validation accounts for the planned items.
use region_sensitivity.Prelude.{
  ℕ, ◌+◌, ◌≡◌, refl, ap, ◌∙◌, inl, inr, Bool, true, false, not, ◌&&◌, ◌||◌, String, List, [], ◌∷◌,
  arith, str_eq, eq_iff, if◌then◌else◌, Bool-cases, &&_true, length, take, ==_iff, all,
}
use region_sensitivity.Outcome.Yields.{Yields, Yields-ok, Yields-err, Yields-if}
use region_sensitivity.Dict.{contains, is_distinct}
use region_sensitivity.Work.{WorkChunk}
use region_sensitivity.Plan.Chunks.{item_ids, is_nil}
use region_sensitivity.Plan.Builder.{texts_eq}
use region_sensitivity.Runtime.Transfer.{PreparedChunk}
use region_sensitivity.Runtime.Validate.{
  meta_ids, keep, items_by_id, returned, is_failed_prefix, is_complete, validate_prepared_chunk,
}

-- how often an identifier occurs
unfoldable pub occurrences : String → List String → ℕ
occurrences id [] = 0
occurrences id (x ∷ xs) = (if str_eq x id then 1 else 0) + occurrences id xs

texts_eq-eq : (ss ts : List String) → texts_eq ss ts ≡ true → ss ≡ ts
unfolding texts_eq
texts_eq-eq [] [] h = refl
texts_eq-eq [] (t ∷ ts) h = cc
texts_eq-eq (s ∷ ss) [] h = cc
texts_eq-eq (s ∷ ss) (t ∷ ts) h =
    let (first, rest) = &&_true _ _ h in
    ap (λ x. x ∷ ss) ((eq_iff s t).0 first) ∙ ap (λ xs. t ∷ xs) (texts_eq-eq ss ts rest)

-- the items that are kept and those that are not are all the items
occurrences-keep :
    (id : String) (failed ids : List String)
    → occurrences id (keep false failed ids) + occurrences id (keep true failed ids)
      ≡ occurrences id ids
unfolding occurrences keep
occurrences-keep id failed [] = refl
occurrences-keep id failed (x ∷ ids) =
    let rest = occurrences-keep id failed ids in
    elim (Bool-cases (contains x failed)) [
      | inl here ↦ rw here (omega (arith, rest))
      | inr there ↦ rw there (omega (arith, rest))
    ]

module _ {Stacked Mask : Type 0} where
  -- The successes are the items that are not among the failures, the failures those that are, both
  -- in the planned order, and every identifier is returned as often as it is planned.
  pub record IsAccounted (result : PreparedChunk Stacked Mask) (chunk : WorkChunk) : Type 0 where
    pub successes :
        meta_ids result.item_metas
        ≡ keep false (meta_ids result.failed_items) (item_ids chunk.items)
    pub failures :
        meta_ids result.failed_items
        ≡ keep true (meta_ids result.failed_items) (item_ids chunk.items)
    pub balanced :
        (id : String)
        → occurrences id (meta_ids result.item_metas)
            + occurrences id (meta_ids result.failed_items)
          ≡ occurrences id (item_ids chunk.items)

  -- What a worker returns that stops at the first failure: the successes up to it, and the failure.
  pub record IsFailedPrefix (result : PreparedChunk Stacked Mask) (chunk : WorkChunk) : Type 0 where
    pub one_failure : length result.failed_items ≡ 1
    pub prefix : returned result ≡ take (length (returned result)) (item_ids chunk.items)

  accounted :
      (result : PreparedChunk Stacked Mask) (chunk : WorkChunk)
      → is_complete result (item_ids chunk.items) ≡ true
      → IsAccounted result chunk
  unfolding is_complete
  accounted result chunk h =
      let (a, b) = &&_true _ _ h in
      let failed = meta_ids result.failed_items in
      let expected = item_ids chunk.items in
      let successes = texts_eq-eq (meta_ids result.item_metas) (keep false failed expected) a in
      let failures = texts_eq-eq failed (keep true failed expected) b in
      record {
        successes = successes;
        failures = failures;
        balanced = λ id.
            ap (λ xs. occurrences id xs + occurrences id failed) successes
            ∙ ap (λ xs. occurrences id (keep false failed expected) + occurrences id xs) failures
            ∙ occurrences-keep id failed expected;
      }

  failed_prefix :
      (result : PreparedChunk Stacked Mask) (chunk : WorkChunk)
      → is_failed_prefix result (item_ids chunk.items) ≡ true
      → IsFailedPrefix result chunk
  unfolding is_failed_prefix
  failed_prefix result chunk h =
      let (a, b) = &&_true _ _ h in
      record { one_failure = (==_iff _ _).0 a; prefix = texts_eq-eq _ _ b }

  -- A prepared chunk that `_validate_prepared_chunk` accepts returns no identifier twice, and
  -- accounts for the planned items: with `fail_fast` and a failure, it returns one failure after
  -- the successes before it, a prefix of the planned items; else the successes are the planned
  -- items that are not among the failures, and the failures those that are, both in order, so that
  -- each identifier is returned as often as it is planned.
  pub validate_prepared_chunk_sound :
      (fail_fast : Bool) (result : PreparedChunk Stacked Mask) (chunk : WorkChunk)
      → Yields
          (λ by_id.
            (by_id ≡ items_by_id chunk.items)
            × (is_distinct (returned result) ≡ true)
            × (if fail_fast && not (is_nil result.failed_items)
                then IsFailedPrefix result chunk
                else IsAccounted result chunk))
          (validate_prepared_chunk fail_fast result chunk)
  unfolding validate_prepared_chunk
  validate_prepared_chunk_sound fail_fast result chunk =
      let expected = item_ids chunk.items in
      let known = all (λ id. contains id expected) (returned result) in
      Yields-if (not (is_distinct (returned result)) || not known) _ _ (λ _. Yields-err _)
        λ passed.
          let distinct : is_distinct (returned result) ≡ true = ground arith in
          elim (Bool-cases (fail_fast && not (is_nil result.failed_items))) [
            | inl prefix ↦ rw prefix (
                Yields-if (is_failed_prefix result expected) _ _
                  (λ h. Yields-ok _ (refl, distinct, failed_prefix result chunk h))
                  (λ _. Yields-err _))
            | inr complete ↦ rw complete (
                Yields-if (is_complete result expected) _ _
                  (λ h. Yields-ok _ (refl, distinct, accounted result chunk h)) (λ _. Yields-err _))
          ]
