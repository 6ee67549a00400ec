-- ===== src/Plan/Chunks/Planned.antt =====
-- What the planner's two results say: the chunks hold the items of the samples, in order, and each
-- chunk can be found again by its id.
use region_sensitivity.Prelude.{
  ℕ, ◌*◌, ◌≤◌, ◌<◌, ◌≡◌, refl, sym, ap, ap₂, subst, ◌∙◌, String, false, some, List, [], ◌∷◌, ◌++◌,
  append_assoc, str_eq, eq_iff, Bool-cases, inl, inr, take, drop, All, All-append,
}
use region_sensitivity.Outcome.{ok}
use region_sensitivity.Dict.{Dict, get, put, get-put}
use region_sensitivity.Work.{WorkItem, WorkChunkMeta, SampleMeta, check_meta, n_items}
use region_sensitivity.Plan.Hashing.{compute_chunk_id}
use region_sensitivity.Plan.Chunks.{Inputs, ChunkLocator, item_ids, is_some, items_for}

-- the ids in all chunks, in order
unfoldable pub planned_ids : List WorkChunkMeta → List String
planned_ids [] = []
planned_ids (m ∷ ms) = m.item_ids ++ planned_ids ms

planned_ids-append :
    (xs ys : List WorkChunkMeta) → planned_ids (xs ++ ys) ≡ planned_ids xs ++ planned_ids ys
unfolding planned_ids
planned_ids-append [] ys = refl
planned_ids-append (m ∷ xs) ys =
    ap (λ is. m.item_ids ++ is) (planned_ids-append xs ys)
    ∙ sym (append_assoc m.item_ids (planned_ids xs) (planned_ids ys))

-- `locators[meta.chunk_id].meta is meta`
pub record IsListed (locators : Dict ChunkLocator) (meta : WorkChunkMeta) : Type 0 where
  pub locator : ChunkLocator
  pub found : get meta.chunk_id locators ≡ some locator
  pub same : locator.meta ≡ meta

abbrev pub Extends : Dict ChunkLocator → Dict ChunkLocator → Type 0
Extends old new = (id : String) (l : ChunkLocator) → get id old ≡ some l → get id new ≡ some l

pub All-IsListed-Extends :
    (old new : Dict ChunkLocator) (ms : List WorkChunkMeta)
    → Extends old new
    → All (IsListed old) ms
    → All (IsListed new) ms
All-IsListed-Extends old new [] e h = tt
All-IsListed-Extends old new (m ∷ ms) e h = (
  record { locator = h.0.locator; found = e _ _ h.0.found; same = h.0.same },
  All-IsListed-Extends old new ms e h.1,
)

-- an entry under a new key
pub put-Extends :
    (id : String) (l : ChunkLocator) (old : Dict ChunkLocator)
    → is_some (get id old) ≡ false
    → Extends old (put id l old)
put-Extends id l old new other k h = rw get-put (elim (Bool-cases (str_eq id other)) [
  | inl same ↦
      let clash : some k ≡ get id old =
        sym h ∙ ap (λ t. get t old) (sym ((eq_iff id other).0 same)) in
      cc (ap is_some clash, new)
  | inr differs ↦ rw differs h
])

module _ (inputs : Inputs) (by_id : Dict SampleMeta) where
  abbrev size : ℕ
  size = inputs.config.variants_per_chunk

  -- The locator leads back to the chunk: to its slice of the sample's items, and to its id.
  pub record Describes (id : String) (l : ChunkLocator) : Type 0 where
    pub items : List WorkItem
    pub found : items_for inputs by_id l.sample_id ≡ ok items
    pub same_ids : item_ids (take size (drop (l.chunk_ordinal * size) items)) ≡ l.meta.item_ids
    pub same_id : l.meta.chunk_id ≡ id
    pub same_sample : l.meta.sample_id ≡ l.sample_id
    pub digest :
        compute_chunk_id inputs.digest inputs.config.schema_version l.sample_id l.chunk_ordinal
          l.meta.item_ids
        ≡ ok id
    pub checked : check_meta l.meta ≡ ok l.meta

  abbrev pub AllDescribed : Dict ChunkLocator → Type 0
  AllDescribed locators =
      (id : String) (l : ChunkLocator) → get id locators ≡ some l → Describes id l

  pub put-AllDescribed :
      (id : String) (l : ChunkLocator) (old : Dict ChunkLocator)
      → Describes id l
      → AllDescribed old
      → AllDescribed (put id l old)
  put-AllDescribed id l old d all other k h = elim (Bool-cases (str_eq id other)) [
    | inl same ↦
        let e : some l ≡ some k = sym (get-put id other l old ∙ rw same refl) ∙ h in
        subst (Describes other) (some_injective e)
          (subst (λ t. Describes t l) ((eq_iff id other).0 same) d)
    | inr differs ↦ all other k (sym (get-put id other l old ∙ rw differs refl) ∙ h)
  ]
    where
      some_injective : {a b : ChunkLocator} → some a ≡ some b → a ≡ b
      some_injective e = cc

  -- What planning adds to the locators `old` for items with the ids `ids`.
  pub record Planned (old : Dict ChunkLocator) (ids : List String)
      (plan : List WorkChunkMeta × Dict ChunkLocator) : Type 0 where
    pub described : AllDescribed plan.1
    pub extends : Extends old plan.1
    pub listed : All (IsListed plan.1) plan.0
    pub covers : planned_ids plan.0 ≡ ids
    pub sized : All (λ m. (0 < n_items m) × (n_items m ≤ size)) plan.0

  pub Planned-nil : (old : Dict ChunkLocator) → AllDescribed old → Planned old [] ([], old)
  unfolding planned_ids
  Planned-nil old all = record {
    described = all;
    extends = λ id l h. h;
    listed = tt;
    covers = refl;
    sized = tt;
  }

  pub Planned-append :
      (old : Dict ChunkLocator) (xs ys : List String)
      (first rest : List WorkChunkMeta × Dict ChunkLocator)
      → Planned old xs first
      → Planned first.1 ys rest
      → Planned old (xs ++ ys) (first.0 ++ rest.0, rest.1)
  Planned-append old xs ys first rest a b = record {
    described = b.described;
    extends = λ id l h. b.extends id l (a.extends id l h);
    listed =
        All-append (IsListed rest.1) first.0 rest.0
          (All-IsListed-Extends first.1 rest.1 first.0 b.extends a.listed) b.listed;
    covers = planned_ids-append first.0 rest.0 ∙ ap₂ (λ is js. is ++ js) a.covers b.covers;
    sized = All-append _ first.0 rest.0 a.sized b.sized;
  }

  -- one chunk in front
  pub Planned-cons :
      (id : String) (l : ChunkLocator) (old : Dict ChunkLocator) (ids : List String)
      (rest : List WorkChunkMeta × Dict ChunkLocator)
      → is_some (get id old) ≡ false
      → Describes id l
      → (0 < n_items l.meta) × (n_items l.meta ≤ size)
      → Planned (put id l old) ids rest
      → Planned old (l.meta.item_ids ++ ids) (l.meta ∷ rest.0, rest.1)
  unfolding planned_ids
  Planned-cons id l old ids rest new d fits b = record {
    described = b.described;
    extends = λ other k h. b.extends other k (put-Extends id l old new other k h);
    listed = (
      record {
        locator = l;
        found = b.extends _ _ (
            subst (λ t. get t (put id l old) ≡ some l) (sym d.same_id)
              (get-put id id l old ∙ rw ((eq_iff id id).1 refl) refl));
        same = refl;
      },
      b.listed,
    );
    covers = ap (λ is. l.meta.item_ids ++ is) b.covers;
    sized = (fits, b.sized);
  }
