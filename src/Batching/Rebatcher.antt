-- ===== src/Batching/Rebatcher.antt =====
-- `Rebatcher` of ssat/core/runtime/batching.py. The generator runs in step with its consumer: what
-- the consumer does with a batch may shrink the cap that the loop reads next. So the model hands
-- each batch to `emit`, and takes the items from a list of sources by `pull`, which may write
-- records before it returns items.
pub mod Rule
pub mod Consumed
use region_sensitivity.Prelude.{
  ℕ, zero, suc, Bool, true, false, not, ◌&&◌, Option, none, some, List, [], ◌∷◌, ◌++◌, leb,
  if◌then◌else◌, length, take, drop,
}
use region_sensitivity.Numpy.{Numpy}
use region_sensitivity.Outcome.{out_of_fuel}
use region_sensitivity.Outcome.Exec.{Exec, pure, raise, lift, gets, ◌>>=◌, ◌>>◌}
use region_sensitivity.Batching.Batch.{InferenceBatch, is_empty, shape_eq, make_batch}

-- The generator's local variables.
pub record Buffer (Item : Type 0) : Type 0 where
  pub buffered : List Item
  pub shape : Option (List ℕ)

-- `item_shape != shape`
unfoldable pub shape_changed : List ℕ → Option (List ℕ) → Bool
shape_changed item_shape none = true
shape_changed item_shape (some shape) = not (shape_eq item_shape shape)

module _ (numpy : Numpy) {Item : Type 0} (array : Item → numpy.Array) {S Source : Type 0}
    (cap : S → ℕ) (emit : InferenceBatch Item numpy.Stacked → Exec S Unit)
    (pull : Source → Exec S (List Item)) where
  -- `yield self._make_batch(items)`
  yield_batch : List Item → Exec S Unit
  yield_batch items = do batch ← lift (make_batch numpy array items); emit batch

  -- `while len(buffered) >= self._state.current_size`. The cap is read once for each round.
  drain : ℕ → List Item → Exec S (List Item)
  drain zero buffered = raise out_of_fuel
  drain (suc fuel) buffered = do
    size ← gets cap
    let round = yield_batch (take size buffered) >> drain fuel (drop size buffered)
    if leb size (length buffered) then round else pure buffered

  -- The body of `for item in self._items`.
  push : Buffer Item → Item → Exec S (Buffer Item)
  push buffer item = do
    let item_shape = numpy.shape (array item)
    buffered ←
        if not (is_empty buffer.buffered) && shape_changed item_shape buffer.shape
        then yield_batch buffer.buffered >> pure []
        else pure buffer.buffered
    let appended = buffered ++ item ∷ []
    rest ← drain (suc (length appended)) appended
    pure (record { buffered = rest; shape = some item_shape })

  push_all : Buffer Item → List Item → Exec S (Buffer Item)
  push_all buffer [] = pure buffer
  push_all buffer (item ∷ items) = do next ← push buffer item; push_all next items

  push_sources : Buffer Item → List Source → Exec S (Buffer Item)
  push_sources buffer [] = pure buffer
  push_sources buffer (source ∷ sources) = do
    items ← pull source
    next ← push_all buffer items
    push_sources next sources

  -- `if buffered: yield self._make_batch(buffered)`
  finish : Buffer Item → Exec S Unit
  finish buffer = if is_empty buffer.buffered then pure tt else yield_batch buffer.buffered

  -- `Rebatcher.__iter__`
  pub rebatch : List Source → Exec S Unit
  rebatch sources = do
    buffer ← push_sources (record { buffered = []; shape = none }) sources
    finish buffer
