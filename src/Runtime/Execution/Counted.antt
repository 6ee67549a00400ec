-- ===== src/Runtime/Execution/Counted.antt =====
-- What is counted in a log has a status in it.
use region_sensitivity.Prelude.{
  ℕ, ◌+◌, ◌≤◌, ◌≡◌, refl, sym, subst, inl, inr, String, Bool, true, false, Option, some, List, [],
  ◌∷◌, map, arith, str_eq, if◌then◌else◌, All, Bool-cases,
}
use region_sensitivity.Dict.{last_entry}
use region_sensitivity.Status.{ItemStatus}
use region_sensitivity.Work.{WorkChunkMeta}
use region_sensitivity.Resume.Settled.{IsSettled}
use region_sensitivity.Runtime.Execution.Ledger.{
  key_eq_refl, Key, sample_key, item_key, tally, tally-append, Entry, clean_entry, item_entry,
  entry_key, chunk_keys, chunks_keys,
}
use region_sensitivity.Runtime.Execution.Journaled.{recorded_cleans, recorded_items}

-- A status that was recorded is there at the end.
last_entry-IsSettled :
    (id : String) (es : List (String × ItemStatus)) (status : ItemStatus)
    → IsSettled false (last_entry id es (some status))
unfolding last_entry
last_entry-IsSettled id [] status = record { last = status; found = refl; good = λ h. ground arith }
last_entry-IsSettled id ((k, v) ∷ es) status = elim (Bool-cases (str_eq k id)) [
  | inl here ↦ rw here (last_entry-IsSettled id es v)
  | inr other ↦ rw other (last_entry-IsSettled id es status)
]

counted_later : (b : Bool) (n : ℕ) → b ≡ false → 1 ≤ (if b then 1 else 0) + n → 1 ≤ n
counted_later true n other h = cc
counted_later false n other h = omega (arith, h)

-- whether an entry is the one that is looked for, and what follows it
abbrev ThenRest :
    ItemStatus → String → List (String × ItemStatus) → Option ItemStatus → Bool → Type 0
ThenRest status id rest o here =
    IsSettled false (last_entry id rest (if here then some status else o))

module _ {Output : Type 0} where
  pub sample-IsSettled :
      (id : String) (log : List (Entry Output)) (o : Option ItemStatus)
      → 1 ≤ tally (sample_key id) (map entry_key log)
      → IsSettled false (last_entry id (recorded_cleans log) o)
  unfolding last_entry tally
  sample-IsSettled id [] o h = absurd (omega (arith, h))
  sample-IsSettled id (item_entry r ∷ log) o h = sample-IsSettled id log o (omega (arith, h))
  sample-IsSettled id (clean_entry r ∷ log) o h = elim (Bool-cases (str_eq r.sample_id id)) [
    | inl here ↦
        subst (ThenRest r.status id (recorded_cleans log) o) (sym here)
          (last_entry-IsSettled id (recorded_cleans log) r.status)
    | inr other ↦
        subst (ThenRest r.status id (recorded_cleans log) o) (sym other)
          (sample-IsSettled id log o (counted_later _ _ other h))
  ]

  pub item-IsSettled :
      (id : String) (log : List (Entry Output)) (o : Option ItemStatus)
      → 1 ≤ tally (item_key id) (map entry_key log)
      → IsSettled false (last_entry id (recorded_items log) o)
  unfolding last_entry tally
  item-IsSettled id [] o h = absurd (omega (arith, h))
  item-IsSettled id (clean_entry r ∷ log) o h = item-IsSettled id log o (omega (arith, h))
  item-IsSettled id (item_entry r ∷ log) o h = elim (Bool-cases (str_eq r.work_item.item_id id)) [
    | inl here ↦
        subst (ThenRest r.status id (recorded_items log) o) (sym here)
          (last_entry-IsSettled id (recorded_items log) r.status)
    | inr other ↦
        subst (ThenRest r.status id (recorded_items log) o) (sym other)
          (item-IsSettled id log o (counted_later _ _ other h))
  ]

-- Every key of a list is counted in it.
module _ (count : Key → ℕ) where
  pub all_counted :
      {A : Type 0} (key : A → Key) (xs : List A)
      → ((k : Key) → tally k (map key xs) ≤ count k)
      → All (λ x. 1 ≤ count (key x)) xs
  unfolding tally
  all_counted key [] h = tt
  all_counted key (x ∷ xs) h =
      let one : tally (key x) (map key (x ∷ xs)) ≡ 1 + tally (key x) (map key xs) =
        rw (key_eq_refl (key x)) refl in
      (omega (arith, h (key x), one), all_counted key xs (λ k. omega (arith, h k)))

  pub chunks_counted :
      (chunks : List WorkChunkMeta)
      → ((k : Key) → tally k (chunks_keys chunks) ≤ count k)
      → All (λ (c : WorkChunkMeta). All (λ id. 1 ≤ count (item_key id)) c.item_ids) chunks
  unfolding chunks_keys
  chunks_counted [] h = tt
  chunks_counted (c ∷ cs) h = (
    all_counted item_key c.item_ids
        (λ k. omega (arith, h k, tally-append k (chunk_keys c) (chunks_keys cs))),
    chunks_counted cs (λ k. omega (arith, h k, tally-append k (chunk_keys c) (chunks_keys cs))),
  )

pub All-map :
    {A : Type 0} {P Q : A → Type 0} (f : (a : A) → P a → Q a) (xs : List A) → All P xs → All Q xs
All-map f [] h = tt
All-map f (x ∷ xs) h = (f x h.0, All-map f xs h.1)
