-- ===== src/Batching/Splitter/Steps.antt =====
-- What `BatchSplitter.predict` returns, what it does to the cap, what it can raise, and the two
-- steps that precede a split.
use region_sensitivity.Prelude.{
  ℕ, ◌+◌, ◌*◌, ◌≤◌, ◌<◌, ◌≡◌, refl, sym, subst, ◌⊎◌, inr, List, map, length,
}
use region_sensitivity.Numpy.{Numpy}
use region_sensitivity.Outcome.{Exception, Result, ok, err}
use region_sensitivity.Outcome.Exec.{Exec, Post, Ensures}
use region_sensitivity.Batching.Size.{
  BatchSizeState, record_oom, IsValid, IsLater, IsLater-refl, IsLater-trans, record_oom_total,
}
use region_sensitivity.Batching.Batch.{InferenceBatch, IsBatch}
use region_sensitivity.Batching.Splitter.{
  PredictionResult, Adapter, Machine, on_world, on_batch_size, store_size,
}
use region_sensitivity.Batching.Splitter.Results.{AllResults, IsContractError}

module _ (numpy : Numpy) {Item : Type 0} (array : Item → numpy.Array) {W Output : Type 0}
    (adapter : Adapter W numpy.Stacked Output) where
  -- Only a violated contract, or a failing cleanup, leaves `predict`.
  abbrev pub Escapes : Exception → Type 0
  Escapes e = IsContractError e ⊎ ((w : W) × ((adapter.cleanup_after_oom w).0 ≡ err e))

  pub record Raised (old : BatchSizeState) (e : Exception) (m' : Machine W) : Type 0 where
    pub escapes : Escapes e
    pub valid : IsValid m'.batch_size
    pub later : IsLater old m'.batch_size

  pub record Returned (batch : InferenceBatch Item numpy.Stacked) (old : BatchSizeState)
      (rs : List (PredictionResult Item Output)) (m' : Machine W) : Type 0 where
    -- one result for each item, in order
    pub items : map (λ r. PredictionResult.item r) rs ≡ batch.items
    pub results : AllResults rs
    pub valid : IsValid m'.batch_size
    pub later : IsLater old m'.batch_size
    pub bounded : m'.batch_size.oom_events + 1 ≤ old.oom_events + 2 * length batch.items

  pub cleanup_rule :
      (m : Machine W)
      → IsValid m.batch_size
      → Ensures
          (λ _ t. t.batch_size ≡ m.batch_size)
          (Raised m.batch_size)
          (on_world adapter.cleanup_after_oom)
          m
  unfolding on_world
  cleanup_rule m v = record {
    holds = go (adapter.cleanup_after_oom m.world).0 (adapter.cleanup_after_oom m.world).1 refl;
  }
    where
      go :
          (r : Result Unit) (w : W)
          → (adapter.cleanup_after_oom m.world).0 ≡ r
          → Post
              (λ _ t. t.batch_size ≡ m.batch_size)
              (Raised m.batch_size)
              (r, record m { world = w })
      go (ok _) w e = refl
      go (err x) w e = record {
        escapes = inr (m.world, e);
        valid = v;
        later = IsLater-refl m.batch_size;
      }

  abbrev pub HasRecorded : BatchSizeState → Machine W → Type 0
  HasRecorded old t =
      IsValid t.batch_size
      × IsLater old t.batch_size
      × (t.batch_size.oom_events ≡ old.oom_events + 1)

  pub size_rule :
      (n : ℕ) (m : Machine W)
      → 0 < n
      → IsValid m.batch_size
      → Ensures
          (λ _ t. HasRecorded m.batch_size t)
          (Raised m.batch_size)
          (on_batch_size (record_oom n))
          m
  unfolding on_batch_size
  size_rule n m pos v =
      let (size, recorded, v', later, one_more, _) = record_oom_total n m.batch_size pos v in
      record {
        holds =
            subst
              (λ r. Post (λ _ t. HasRecorded m.batch_size t) (Raised m.batch_size) (store_size r m))
              (sym recorded) (v', later, one_more);
      }

  abbrev pub Recursive :
      (InferenceBatch Item numpy.Stacked → Exec (Machine W) (List (PredictionResult Item Output)))
      → ℕ
      → Type 0
  Recursive recurse n =
      (cut : InferenceBatch Item numpy.Stacked) (m : Machine W)
      → IsBatch numpy array cut
      → length cut.items < n
      → IsValid m.batch_size
      → Ensures (Returned cut m.batch_size) (Raised m.batch_size) (recurse cut) m

  pub Raised-later :
      (m t : Machine W) (e : Exception) (u : Machine W)
      → IsLater m.batch_size t.batch_size
      → Raised t.batch_size e u
      → Raised m.batch_size e u
  Raised-later m t e u h r = record {
    escapes = r.escapes;
    valid = r.valid;
    later = IsLater-trans h r.later;
  }
