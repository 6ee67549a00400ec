-- ===== src/Runtime/Audit/Totals.antt =====
-- Lists in which every key is counted equally often are equally long.
use region_sensitivity.Prelude.{
  suc, ◌+◌, ◌≤◌, ◌≡◌, refl, sym, ap, ◌∙◌, inl, inr, true, false, List, [], ◌∷◌, arith, Bool-cases,
  eq_iff, length, length-map, length-append,
}
use region_sensitivity.Work.{SampleMeta, WorkChunkMeta}
use region_sensitivity.Runtime.Execution.Ledger.{
  key_eq_refl, Key, sample_key, item_key, key_eq, tally, sample_keys, chunk_keys, chunks_keys,
  owed_keys,
}
use region_sensitivity.Runtime.Audit.{total_items}

key_eq_sound : (a b : Key) → key_eq a b ≡ true → a ≡ b
key_eq_sound (sample_key a) (sample_key b) h = ap sample_key ((eq_iff a b).0 h)
key_eq_sound (item_key a) (item_key b) h = ap item_key ((eq_iff a b).0 h)
key_eq_sound (sample_key a) (item_key b) h = cc
key_eq_sound (item_key a) (sample_key b) h = cc

counted_here : (x : Key) (xs : List Key) → tally x (x ∷ xs) ≡ 1 + tally x xs
unfolding tally
counted_here x xs = rw (key_eq_refl x) refl

counted_after : (x y : Key) (ys : List Key) → key_eq y x ≡ false → tally x (y ∷ ys) ≡ 0 + tally x ys
unfolding tally
counted_after x y ys other = rw other refl

-- what is left of a list without one occurrence of a key
taken_out :
    (x : Key) (ys : List Key)
    → 1 ≤ tally x ys
    → (rest : List Key) × ((k : Key) → tally k ys ≡ tally k (x ∷ rest))
      × (length ys ≡ suc (length rest))
unfolding tally
taken_out x [] h = absurd (omega (arith, h))
taken_out x (y ∷ ys) h = elim (Bool-cases (key_eq y x)) [
  | inl here ↦ (ys, λ k. ap (λ z. tally k (z ∷ ys)) (key_eq_sound y x here), refl)
  | inr other ↦
      let later : 1 ≤ tally x ys = omega (arith, h, counted_after x y ys other) in
      let (rest, same, longer) = taken_out x ys later in
      (y ∷ rest, λ k. omega (arith, same k), ap suc longer)
]

pub same_length : (xs ys : List Key) → ((k : Key) → tally k xs ≡ tally k ys) → length xs ≡ length ys
unfolding tally
same_length [] [] h = refl
same_length [] (y ∷ ys) h = absurd (omega (arith, h y, counted_here y ys))
same_length (x ∷ xs) ys h =
    let (rest, same, longer) = taken_out x ys (omega (arith, h x, counted_here x xs)) in
    ap suc (same_length xs rest (λ k. omega (arith, h k, same k))) ∙ sym longer

length-chunks_keys :
    (chunks : List WorkChunkMeta) → length (chunks_keys chunks) ≡ total_items chunks
unfolding chunks_keys total_items
length-chunks_keys [] = refl
length-chunks_keys (chunk ∷ chunks) =
    length-append (chunk_keys chunk) (chunks_keys chunks)
    ∙ omega (arith, length-map item_key chunk.item_ids, length-chunks_keys chunks)

-- A run owes as many records as it announces.
pub length-owed_keys :
    (samples : List SampleMeta) (chunks : List WorkChunkMeta)
    → length (owed_keys samples chunks) ≡ length samples + total_items chunks
length-owed_keys samples chunks =
    length-append (sample_keys samples) (chunks_keys chunks)
    ∙ omega (
      arith,
      length-map (λ (s : SampleMeta). sample_key s.sample_id) samples,
      length-chunks_keys chunks,
    )
