-- ===== src/Runtime/Execution/Ledger.antt =====
-- What a run owes and what it has recorded: keys of clean samples and of perturbed items, and the
-- entries that went to the writer, in order.
use region_sensitivity.Prelude.{
  ℕ, ◌+◌, ◌≤◌, ◌≡◌, refl, ◌∙◌, inl, inr, String, Bool, true, false, List, [], ◌∷◌, ◌++◌, map, arith,
  str_eq, eq_iff, Bool-cases, if◌then◌else◌,
}
use region_sensitivity.Dict.{contains, is_distinct}
use region_sensitivity.Status.{ItemStatus}
use region_sensitivity.Work.{WorkChunkMeta, SampleMeta}
use region_sensitivity.Dump.Types.{CleanDumpRecord, PerturbedDumpRecord}
use region_sensitivity.Dump.Session.{same_status}
use region_sensitivity.Runtime.Items.{InferenceItem, clean_item, perturbed_item}

pub data Key : Type 0 where
  sample_key item_key : String → Key

abbrev pub key_eq : Key → Key → Bool
key_eq (sample_key a) (sample_key b) = str_eq a b
key_eq (item_key a) (item_key b) = str_eq a b
key_eq _ _ = false

pub key_eq_refl : (k : Key) → key_eq k k ≡ true
key_eq_refl (sample_key a) = (eq_iff a a).1 refl
key_eq_refl (item_key a) = (eq_iff a a).1 refl

-- how often a key stands in a list
unfoldable pub tally : Key → List Key → ℕ
tally k [] = 0
tally k (x ∷ xs) = (if key_eq x k then 1 else 0) + tally k xs

pub tally-append : (k : Key) (xs ys : List Key) → tally k (xs ++ ys) ≡ tally k xs + tally k ys
unfolding tally
tally-append k [] ys = omega arith
tally-append k (x ∷ xs) ys = omega (arith, tally-append k xs ys)

pub data Entry (Output : Type 0) : Type 0 where
  clean_entry : CleanDumpRecord Output → Entry Output
  item_entry : PerturbedDumpRecord Output → Entry Output

module _ {Output : Type 0} where
  abbrev pub entry_key : Entry Output → Key
  entry_key (clean_entry r) = sample_key r.sample_id
  entry_key (item_entry r) = item_key r.work_item.item_id

  abbrev pub entry_status : Entry Output → ItemStatus
  entry_status (clean_entry r) = r.status
  entry_status (item_entry r) = r.status

  -- how many entries have a status
  unfoldable pub count_entries : ItemStatus → List (Entry Output) → ℕ
  count_entries status [] = 0
  count_entries status (e ∷ es) =
      (if same_status (entry_status e) status then 1 else 0) + count_entries status es

  pub count_entries-append :
      (status : ItemStatus) (xs ys : List (Entry Output))
      → count_entries status (xs ++ ys) ≡ count_entries status xs + count_entries status ys
  unfolding count_entries
  count_entries-append status [] ys = omega arith
  count_entries-append status (x ∷ xs) ys = omega (arith, count_entries-append status xs ys)

abbrev pub key_of : {Array Mask : Type 0} → InferenceItem Array Mask → Key
key_of (clean_item sample) = sample_key sample.sample_id
key_of (perturbed_item item) = item_key item.work_item.item_id

abbrev pub sample_keys : List SampleMeta → List Key
sample_keys samples = map (λ (s : SampleMeta). sample_key s.sample_id) samples

abbrev pub chunk_keys : WorkChunkMeta → List Key
chunk_keys chunk = map item_key chunk.item_ids

-- all items of the chunks
unfoldable pub chunks_keys : List WorkChunkMeta → List Key
chunks_keys [] = []
chunks_keys (chunk ∷ chunks) = chunk_keys chunk ++ chunks_keys chunks

-- all that a run over these samples and chunks has to record
abbrev pub owed_keys : List SampleMeta → List WorkChunkMeta → List Key
owed_keys samples chunks = sample_keys samples ++ chunks_keys chunks

-- Identifiers that are counted at most once are distinct.
module _ (key : String → Key) (same : (a b : String) → key_eq (key a) (key b) ≡ str_eq a b) where
  contains-tally :
      (id : String) (ids : List String) → contains id ids ≡ true → 1 ≤ tally (key id) (map key ids)
  unfolding contains tally
  contains-tally id [] h = ground arith
  contains-tally id (x ∷ xs) h = elim (Bool-cases (str_eq x id)) [
    | inl here ↦ rw (same x id, here) (omega arith)
    | inr other ↦ rw (same x id, other) (omega (arith, contains-tally id xs (ground arith)))
  ]

  pub distinct_of_tally :
      (ids : List String) → ((k : Key) → tally k (map key ids) ≤ 1) → is_distinct ids ≡ true
  unfolding is_distinct tally
  distinct_of_tally [] h = refl
  distinct_of_tally (x ∷ xs) h = elim (Bool-cases (contains x xs)) [
    | inl again ↦
        let one : key_eq (key x) (key x) ≡ true = same x x ∙ (eq_iff x x).1 refl in
        let twice : tally (key x) (map key (x ∷ xs)) ≡ 1 + tally (key x) (map key xs) =
          rw one refl in
        absurd (omega (arith, twice, h (key x), contains-tally x xs again))
    | inr fresh ↦ rw fresh (distinct_of_tally xs (λ k. omega (arith, h k)))
  ]
