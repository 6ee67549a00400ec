-- ===== src/Batching/Rebatcher/Consumed.antt =====
-- What a consumer of `Rebatcher` sees when it changes the cap between batches, as the recovery from
-- an out-of-memory error does.
use region_sensitivity.Prelude.{
  ℕ, ◌≤◌, ◌<◌, ◌≡◌, refl, sym, ap, ◌∙◌, List, [], ◌∷◌, ◌++◌, append_assoc, append-nil, length, All,
  All-append,
}
use region_sensitivity.Numpy.{Numpy}
use region_sensitivity.Outcome.Exec.{
  Exec, pure, modify, Ensures, Ensures-pure, Ensures-modify, Ensures-weaken,
}
use region_sensitivity.Batching.Batch.{InferenceBatch, IsFrames, IsBatch}
use region_sensitivity.Batching.Rebatcher.{rebatch}
use region_sensitivity.Batching.Rebatcher.Rule.{Keeps, rebatch_rule}

-- The cap, and the batches that the consumer has got, each with the cap at that time.
pub record Consumer (Batch : Type 0) : Type 0 where
  pub cap : ℕ
  pub received : List (Batch × ℕ)

module _ (numpy : Numpy) {Item : Type 0} (array : Item → numpy.Array)
    (next_cap : InferenceBatch Item numpy.Stacked → ℕ → ℕ) where
  abbrev Batch : Type 0
  Batch = InferenceBatch Item numpy.Stacked

  -- takes a batch, and sets the cap anew
  unfoldable pub receive : Batch → Exec (Consumer Batch) Unit
  receive batch =
      modify
        (λ c. record c { cap = next_cap batch c.cap; received = c.received ++ (batch, c.cap) ∷ [] })

  -- the items of the batches, in the order in which they came
  unfoldable pub items_received : List (Batch × ℕ) → List Item
  items_received [] = []
  items_received ((batch, _) ∷ batches) = batch.items ++ items_received batches

  -- all items of the sources, in order
  unfoldable pub concat : List (List Item) → List Item
  concat [] = []
  concat (xs ∷ xss) = xs ++ concat xss

  abbrev pub IsUnderCap : Batch × ℕ → Type 0
  IsUnderCap (batch, size) = IsBatch numpy array batch × (length batch.items ≤ size)

  items_received-append :
      (xs ys : List (Batch × ℕ))
      → items_received (xs ++ ys) ≡ items_received xs ++ items_received ys
  unfolding items_received
  items_received-append [] ys = refl
  items_received-append ((batch, c) ∷ xs) ys =
      ap (λ is. batch.items ++ is) (items_received-append xs ys)
      ∙ sym (append_assoc batch.items (items_received xs) (items_received ys))

  record Fair (total : List Item) (rest : List (List Item)) (queue : List Item) (c : Consumer Batch)
      : Type 0 where
    positive : 0 < c.cap
    under_cap : All IsUnderCap c.received
    in_order : items_received c.received ++ (queue ++ concat rest) ≡ total
    frames : All (All (IsFrames numpy array)) rest

  module _ (stays_positive : (batch : Batch) (size : ℕ) → 0 < size → 0 < next_cap batch size)
      (total : List Item) where
    keeps_Fair :
        Keeps numpy array
          (λ c. Consumer.cap c)
          receive
          (λ source. pure source)
          (Fair total)
          (λ _ _. ⊥)
    unfolding receive items_received concat
    keeps_Fair = record {
      cap_positive = λ rest queue c h. h.positive;
      on_pull = λ source rest queue c h. Ensures-pure source c (
        record {
          positive = h.positive;
          under_cap = h.under_cap;
          in_order =
              ap (λ is. items_received c.received ++ is) (append_assoc queue source (concat rest))
              ∙ h.in_order;
          frames = h.frames.1;
        },
        h.frames.0,
        refl,
      );
      on_emit = λ batch rest queue c valid fits h. Ensures-modify _ c (record {
        positive = stays_positive batch c.cap h.positive;
        under_cap = All-append IsUnderCap c.received _ h.under_cap ((valid, fits), tt);
        in_order =
            ap (λ is. is ++ (queue ++ concat rest))
              (items_received-append c.received ((batch, c.cap) ∷ [])
                ∙ ap (λ is. items_received c.received ++ is) (append-nil batch.items))
            ∙ append_assoc (items_received c.received) batch.items (queue ++ concat rest)
            ∙ ap (λ is. items_received c.received ++ is)
                (sym (append_assoc batch.items queue (concat rest)))
            ∙ h.in_order;
        frames = h.frames;
      });
    }

  -- `Rebatcher` over any lists of items with four-axis uint8 arrays ends, whichever positive cap
  -- the consumer sets after each batch: the batches that it got hold all the items, once each and
  -- in order, and each is a valid batch of one shape, no longer than the cap when it was made.
  pub rebatch-in_order :
      (stays_positive : (batch : Batch) (size : ℕ) → 0 < size → 0 < next_cap batch size)
      (sources : List (List Item)) (first_cap : ℕ)
      → 0 < first_cap
      → All (All (IsFrames numpy array)) sources
      → Ensures
          (λ _ c. (items_received c.received ≡ concat sources) × All IsUnderCap c.received)
          (λ _ _. ⊥)
          (rebatch numpy array (λ c. Consumer.cap c) receive (λ source. pure source) sources)
          (record { cap = first_cap; received = [] })
  unfolding items_received concat
  rebatch-in_order stays_positive sources first_cap positive frames =
      Ensures-weaken _ _
        (rebatch_rule numpy array (λ c. Consumer.cap c) receive (λ source. pure source) _ _
          (keeps_Fair stays_positive (concat sources)) sources _
          (record { positive = positive; under_cap = tt; in_order = refl; frames = frames }))
        (λ _ c h. (sym (append-nil (items_received c.received)) ∙ h.in_order, h.under_cap))
        (λ _ _ h. h)
