-- ===== src/Plan/Chunks/Covers.antt =====
-- `_ensure_plan` cuts each sample's items into chunks, in order and without a gap.
use region_sensitivity.Prelude.{
  ℕ, zero, suc, ◌+◌, ◌*◌, ◌≤◌, ◌<◌, ◌≡◌, refl, sym, ap, subst, ◌∙◌, String, false, List, [], ◌∷◌,
  ◌++◌, map-append, arith, ◌==◌, length, length-take, length-map, length-drop, take, drop,
  take-append-drop,
}
use region_sensitivity.Outcome.{Result, ok, ◌>>=◌}
use region_sensitivity.Outcome.Yields.{Yields, Yields-ok, Yields-bind, Yields-then, Yields-check}
use region_sensitivity.Dict.{Dict, get, put}
use region_sensitivity.Work.{WorkItem, WorkChunkMeta, SampleMeta, check_meta, n_items}
use region_sensitivity.Plan.Hashing.{compute_chunk_id}
use region_sensitivity.Plan.Chunks.{
  Inputs, ChunkLocator, item_ids, is_some, items_for, slices, chunk_metas, plan_metas,
}
use region_sensitivity.Plan.Chunks.Planned.{
  AllDescribed, Describes, Planned, put-AllDescribed, Planned-nil, Planned-cons, Planned-append,
}

drop_nil : {A : Type 0} (k : ℕ) → [] ≡ drop {A = A} k []
drop_nil zero = refl
drop_nil (suc k) = refl

drop-drop : {A : Type 0} (m n : ℕ) (xs : List A) → drop m (drop n xs) ≡ drop (n + m) xs
drop-drop m zero xs = ap (λ k. drop k xs) (omega arith)
drop-drop zero (suc n) [] = drop_nil (suc n + 0)
drop-drop (suc m) (suc n) [] = drop_nil (suc n + suc m)
drop-drop m (suc n) (x ∷ xs) =
    let step : suc (n + m) ≡ suc n + m = omega arith in
    drop-drop m n xs ∙ ap (λ k. drop k (x ∷ xs)) step

check_meta-eq : (m checked : WorkChunkMeta) → check_meta m ≡ ok checked → checked ≡ m
unfolding check_meta
check_meta-eq m checked h = ground arith

module _ (inputs : Inputs) (by_id : Dict SampleMeta) where
  abbrev size : ℕ
  size = inputs.config.variants_per_chunk

  -- the items of the samples, one sample after the other
  unfoldable pub all_items : List SampleMeta → Result (List WorkItem)
  all_items [] = ok []
  all_items (sample ∷ samples) = do
    items ← items_for inputs by_id sample.sample_id
    rest ← all_items samples
    ok (items ++ rest)

  module _ (sample_id : String) (items : List WorkItem)
      (found : items_for inputs by_id sample_id ≡ ok items) (positive : 0 < size) where
    fits :
        (w : WorkItem) (ws : List WorkItem)
        → (0 < length (item_ids (take size (w ∷ ws))))
          × (length (item_ids (take size (w ∷ ws))) ≤ size)
    fits w ws = rw (length-map, length-take) (omega arith, omega arith)

    ids_split :
        (ws : List WorkItem) → item_ids (take size ws) ++ item_ids (drop size ws) ≡ item_ids ws
    ids_split ws =
        sym (map-append (λ (w : WorkItem). w.item_id) (take size ws) (drop size ws))
        ∙ ap item_ids (take-append-drop size ws)

    chunk_metas-Planned :
        (fuel ordinal : ℕ) (ws : List WorkItem) (old : Dict ChunkLocator)
        → ws ≡ drop (ordinal * size) items
        → length ws ≤ fuel
        → AllDescribed inputs by_id old
        → Yields
            (Planned inputs by_id old (item_ids ws))
            (chunk_metas inputs by_id sample_id ordinal (slices inputs by_id fuel size ws) old)
    unfolding chunk_metas slices
    chunk_metas-Planned zero ordinal [] old e le all =
        Yields-ok _ (Planned-nil inputs by_id old all)
    chunk_metas-Planned zero ordinal (w ∷ ws) old e le all = elim le [ ]
    chunk_metas-Planned (suc fuel) ordinal [] old e le all =
        Yields-ok _ (Planned-nil inputs by_id old all)
    chunk_metas-Planned (suc fuel) ordinal (w ∷ ws) old e le all =
        let chunk = take size (w ∷ ws) in
        let left = drop size (w ∷ ws) in
        Yields-bind
          (compute_chunk_id inputs.digest inputs.config.schema_version sample_id ordinal
            (item_ids chunk))
          _
          λ id digest_eq.
            let made : WorkChunkMeta = record {
              chunk_id = id;
              sample_id = sample_id;
              item_ids = item_ids chunk;
            } in
            Yields-bind (check_meta made) _ λ meta checked.
              let same : meta ≡ made = check_meta-eq made meta checked in
              Yields-check (is_some (get id old)) _ _ λ new.
                let l : ChunkLocator = record {
                  sample_id = sample_id;
                  chunk_ordinal = ordinal;
                  meta = meta;
                } in
                let described : Describes inputs by_id id l = record {
                  items = items;
                  found = found;
                  same_ids =
                      ap (λ r. item_ids (take size r)) (sym e)
                      ∙ ap (λ m. WorkChunkMeta.item_ids m) (sym same);
                  same_id = ap (λ m. WorkChunkMeta.chunk_id m) same;
                  same_sample = ap (λ m. WorkChunkMeta.sample_id m) same;
                  digest =
                      subst
                        (λ m.
                          compute_chunk_id inputs.digest inputs.config.schema_version sample_id
                            ordinal (WorkChunkMeta.item_ids m)
                          ≡ ok id)
                        (sym same) digest_eq;
                  checked = subst (λ m. check_meta m ≡ ok meta) (sym same) checked;
                } in
                Yields-then _ _
                  (chunk_metas-Planned fuel (ordinal + 1) left (put id l old)
                    (ap (drop size) e
                      ∙ drop-drop size (ordinal * size) items
                      ∙ ap (λ n. drop n items) (omega arith))
                    (rw length-drop (omega arith))
                    (put-AllDescribed inputs by_id id l old described all))
                  λ rest planned.
                    Yields-ok (meta ∷ rest.0, rest.1)
                      (subst (λ is. Planned inputs by_id old is (meta ∷ rest.0, rest.1))
                        (ap (λ m. WorkChunkMeta.item_ids m ++ item_ids left) same
                          ∙ ids_split (w ∷ ws))
                        (Planned-cons inputs by_id id l old _ rest new described
                          (subst (λ m. (0 < n_items m) × (n_items m ≤ size)) (sym same) (fits w ws))
                          planned))

  -- Together: the chunks of all samples.
  pub record IsPlan (old : Dict ChunkLocator) (samples : List SampleMeta)
      (plan : List WorkChunkMeta × Dict ChunkLocator) : Type 0 where
    pub items : List WorkItem
    pub enumerated : all_items samples ≡ ok items
    pub planned : Planned inputs by_id old (item_ids items) plan

  pub plan_metas-IsPlan :
      (samples : List SampleMeta) (old : Dict ChunkLocator)
      → AllDescribed inputs by_id old
      → Yields (IsPlan old samples) (plan_metas inputs by_id samples old)
  unfolding plan_metas all_items
  plan_metas-IsPlan [] old all =
      Yields-ok _
        (record { items = []; enumerated = refl; planned = Planned-nil inputs by_id old all })
  plan_metas-IsPlan (sample ∷ samples) old all =
      Yields-bind (items_for inputs by_id sample.sample_id) _ λ items found.
        Yields-check (size == 0) _ _ λ nonzero.
          Yields-then _ _
            (chunk_metas-Planned sample.sample_id items found (positive_of nonzero) (length items) 0
              items old (subst (λ k. items ≡ drop k items) (zero_times size) refl) (omega arith)
              all)
            λ first a. Yields-then _ _ (plan_metas-IsPlan samples first.1 a.described) λ rest b.
              Yields-ok _ (record {
                items = items ++ b.items;
                enumerated = rw (found, b.enumerated) refl;
                planned =
                    subst (λ is. Planned inputs by_id old is (first.0 ++ rest.0, rest.1))
                      (sym (map-append (λ (w : WorkItem). w.item_id) items b.items))
                      (Planned-append inputs by_id old _ _ first rest a b.planned);
              })
    where
      zero_times : (n : ℕ) → 0 ≡ 0 * n
      zero_times n = omega arith

      positive_of : (size == 0) ≡ false → 0 < size
      positive_of h = ground arith
