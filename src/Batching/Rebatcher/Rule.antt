-- ===== src/Batching/Rebatcher/Rule.antt =====
-- A proof rule for `Rebatcher`: an invariant of the sources left, of the items that are taken and
-- not yet emitted, in order, and of the state.
use region_sensitivity.Prelude.{
  ℕ, zero, suc, ◌≤◌, ◌<◌, ◌≡◌, refl, sym, ap, subst, false, not, ◌&&◌, Option, none, some, List, [],
  ◌∷◌, ◌++◌, append_assoc, append-nil, arith, leb, leb→le, length, take, drop, All, All-take,
  All-drop, All-append, length-take, length-drop, take-append-drop,
}
use region_sensitivity.Numpy.{Numpy}
use region_sensitivity.Outcome.{Exception}
use region_sensitivity.Outcome.Exec.{
  Exec, Ensures, Ensures-pure, Ensures-bind, Ensures-if, Ensures-bind_gets, Ensures-bind_ok,
}
use region_sensitivity.Batching.Batch.{
  InferenceBatch, is_empty, is_empty→nil, shape_eq-eq, IsFrames, IsBatch, make_batch_total,
}
use region_sensitivity.Batching.Rebatcher.{
  Buffer, shape_changed, yield_batch, drain, push, push_all, push_sources, finish, rebatch,
}

module _ (numpy : Numpy) {Item : Type 0} (array : Item → numpy.Array) {S Source : Type 0}
    (cap : S → ℕ) (emit : InferenceBatch Item numpy.Stacked → Exec S Unit)
    (pull : Source → Exec S (List Item)) (I : List Source → List Item → S → Type 0)
    (Q : Exception → S → Type 0) where
  -- What the consumer and the source have to keep.
  pub record Keeps : Type 0 where
    pub cap_positive : (rest : List Source) (queue : List Item) (s : S) → I rest queue s → 0 < cap s
    pub on_pull :
        (source : Source) (rest : List Source) (queue : List Item) (s : S)
        → I (source ∷ rest) queue s
        → Ensures
            (λ items t.
              I rest (queue ++ items) t × All (IsFrames numpy array) items × (cap t ≡ cap s))
            Q
            (pull source)
            s
    pub on_emit :
        (batch : InferenceBatch Item numpy.Stacked) (rest : List Source) (queue : List Item) (s : S)
        → IsBatch numpy array batch
        → length batch.items ≤ cap s
        → I rest (batch.items ++ queue) s
        → Ensures (λ _ t. I rest queue t) Q (emit batch) s

  module _ (keeps : Keeps) where
    yield_batch_rule :
        (ns : List ℕ) (items : List Item) (rest : List Source) (queue : List Item) (s : S)
        → 0 < length items
        → length items ≤ cap s
        → All (IsFrames numpy array) items
        → All (λ i. numpy.shape (array i) ≡ ns) items
        → I rest (items ++ queue) s
        → Ensures (λ _ t. I rest queue t) Q (yield_batch numpy array cap emit pull items) s
    unfolding yield_batch
    yield_batch_rule ns items rest queue s pos fits frames same inv =
        let (batch, made, items_eq, valid) =
          make_batch_total numpy array ns items pos frames same in
        rw made (
          Ensures-bind_ok batch _ s (
            keeps.on_emit batch rest queue s valid (rw items_eq fits)
              (subst (λ is. I rest (is ++ queue) s) (sym items_eq) inv)))

    -- What is held back fits under the cap, and has one shape.
    record IsHeld (ns : List ℕ) (held : List Item) : Type 0 where
      frames : All (IsFrames numpy array) held
      same : All (λ i. numpy.shape (array i) ≡ ns) held

    drain_rule :
        (ns : List ℕ) (fuel : ℕ) (buffered : List Item) (rest : List Source) (later : List Item)
        (s : S)
        → length buffered < fuel
        → IsHeld ns buffered
        → I rest (buffered ++ later) s
        → Ensures
            (λ left t. I rest (left ++ later) t × IsHeld ns left × (length left < cap t))
            Q
            (drain numpy array cap emit pull fuel buffered)
            s
    unfolding drain
    drain_rule ns zero buffered rest later s lt held inv = elim lt [ ]
    drain_rule ns (suc fuel) buffered rest later s lt held inv = Ensures-bind_gets cap _ s (
        Ensures-if (leb (cap s) (length buffered)) _ _ s
          (λ full.
            Ensures-bind _ _ s
              (yield_batch_rule ns (take (cap s) buffered) rest (drop (cap s) buffered ++ later) s
                (rw length-take (omega (arith, keeps.cap_positive rest _ s inv, leb→le _ _ full)))
                (rw length-take (omega arith)) (All-take _ (cap s) _ held.frames)
                (All-take _ (cap s) _ held.same) (rw (← append_assoc, take-append-drop) inv))
              λ _ t inv'.
                drain_rule ns fuel (drop (cap s) buffered) rest later t
                  (rw length-drop (omega (arith, keeps.cap_positive rest _ s inv, leb→le _ _ full)))
                  (record {
                    frames = All-drop _ (cap s) _ held.frames;
                    same = All-drop _ (cap s) _ held.same;
                  })
                  inv')
          (λ small. Ensures-pure buffered s (inv, held, ground arith)))

    -- Between two items the buffer is shorter than the cap, and of the shape that it remembers.
    record IsBuffer (buffer : Buffer Item) (s : S) : Type 0 where
      frames : All (IsFrames numpy array) buffer.buffered
      same : All (λ i. some (numpy.shape (array i)) ≡ buffer.shape) buffer.buffered
      fits : length buffer.buffered < cap s

    one_shape :
        (ns : List ℕ) (shape : Option (List ℕ)) (items : List Item)
        → some ns ≡ shape
        → All (λ i. some (numpy.shape (array i)) ≡ shape) items
        → All (λ i. numpy.shape (array i) ≡ ns) items
    one_shape ns shape [] e h = tt
    one_shape ns shape (i ∷ is) e h = (cc (h.0, e), one_shape ns shape is e h.1)

    shape_kept :
        (ns : List ℕ) (shape : Option (List ℕ)) (items : List Item)
        → All (λ i. some (numpy.shape (array i)) ≡ shape) items
        → (not (is_empty items) && shape_changed ns shape) ≡ false
        → All (λ i. numpy.shape (array i) ≡ ns) items
    unfolding shape_changed
    shape_kept ns shape [] h e = tt
    shape_kept ns none (i ∷ is) h e = cc
    shape_kept ns (some ms) (i ∷ is) h e =
        one_shape ns (some ms) (i ∷ is) (ap some (shape_eq-eq ns ms (ground arith))) h

    flush_rule :
        (buffer : Buffer Item) (rest : List Source) (queue : List Item) (s : S)
        → IsBuffer buffer s
        → is_empty buffer.buffered ≡ false
        → I rest (buffer.buffered ++ queue) s
        → Ensures
            (λ _ t. I rest queue t)
            Q
            (yield_batch numpy array cap emit pull buffer.buffered)
            s
    flush_rule buffer rest queue s valid some_left inv =
        go buffer.buffered valid.frames valid.same valid.fits some_left inv
      where
        go :
            (items : List Item)
            → All (IsFrames numpy array) items
            → All (λ i. some (numpy.shape (array i)) ≡ buffer.shape) items
            → length items < cap s
            → is_empty items ≡ false
            → I rest (items ++ queue) s
            → Ensures (λ _ t. I rest queue t) Q (yield_batch numpy array cap emit pull items) s
        go [] frames same fits e inv = cc
        go (i ∷ is) frames same fits e inv =
            yield_batch_rule (numpy.shape (array i)) (i ∷ is) rest queue s (omega arith)
              (omega arith) frames (one_shape _ _ (i ∷ is) same.0 same) inv

    push_rule :
        (buffer : Buffer Item) (item : Item) (rest : List Source) (later : List Item) (s : S)
        → IsBuffer buffer s
        → IsFrames numpy array item
        → I rest (buffer.buffered ++ item ∷ later) s
        → Ensures
            (λ b t. I rest (b.buffered ++ later) t × IsBuffer b t)
            Q
            (push numpy array cap emit pull buffer item)
            s
    unfolding push
    push_rule buffer item rest later s valid item_frames inv =
        let ns = numpy.shape (array item) in
        Ensures-bind {P = λ held t. I rest (held ++ item ∷ later) t × IsHeld ns held} _ _ s
          (Ensures-if (not (is_empty buffer.buffered) && shape_changed ns buffer.shape) _ _ s
            (λ new.
              Ensures-bind _ _ s (flush_rule buffer rest (item ∷ later) s valid (ground arith) inv)
                λ _ t inv'. Ensures-pure [] t (inv', record { frames = tt; same = tt }))
            (λ old. Ensures-pure buffer.buffered s (
              inv,
              record {
                frames = valid.frames;
                same = shape_kept ns buffer.shape buffer.buffered valid.same old;
              },
            )))
          λ held t (inv', h).
            Ensures-bind _ _ t
              (drain_rule ns (suc (length (held ++ item ∷ []))) (held ++ item ∷ []) rest later t
                (omega arith)
                (record {
                  frames = All-append _ held (item ∷ []) h.frames (item_frames, tt);
                  same = All-append _ held (item ∷ []) h.same (refl, tt);
                })
                (rw append_assoc inv'))
              λ left u (inv'', h', lt).
                Ensures-pure _ u (
                  inv'',
                  record { frames = h'.frames; same = some_shape ns left h'.same; fits = lt },
                )
      where
        some_shape :
            (ns : List ℕ) (items : List Item)
            → All (λ i. numpy.shape (array i) ≡ ns) items
            → All (λ i. some (numpy.shape (array i)) ≡ some ns) items
        some_shape ns [] h = tt
        some_shape ns (i ∷ is) h = (ap some h.0, some_shape ns is h.1)

    push_all_rule :
        (buffer : Buffer Item) (items : List Item) (rest : List Source) (s : S)
        → IsBuffer buffer s
        → All (IsFrames numpy array) items
        → I rest (buffer.buffered ++ items) s
        → Ensures
            (λ b t. I rest b.buffered t × IsBuffer b t)
            Q
            (push_all numpy array cap emit pull buffer items)
            s
    unfolding push_all
    push_all_rule buffer [] rest s valid frames inv =
        Ensures-pure buffer s (subst (λ is. I rest is s) (append-nil buffer.buffered) inv, valid)
    push_all_rule buffer (item ∷ items) rest s valid frames inv =
        Ensures-bind _ _ s (push_rule buffer item rest items s valid frames.0 inv)
          λ b t (inv', valid'). push_all_rule b items rest t valid' frames.1 inv'

    push_sources_rule :
        (buffer : Buffer Item) (sources : List Source) (s : S)
        → IsBuffer buffer s
        → I sources buffer.buffered s
        → Ensures
            (λ b t. I [] b.buffered t × IsBuffer b t)
            Q
            (push_sources numpy array cap emit pull buffer sources)
            s
    unfolding push_sources
    push_sources_rule buffer [] s valid inv = Ensures-pure buffer s (inv, valid)
    push_sources_rule buffer (source ∷ sources) s valid inv =
        Ensures-bind _ _ s (keeps.on_pull source sources buffer.buffered s inv)
          λ items t (inv', frames, same_cap).
            Ensures-bind _ _ t
              (push_all_rule buffer items sources t
                (record { frames = valid.frames; same = valid.same; fits = rw same_cap valid.fits })
                frames inv')
              λ b u (inv'', valid'). push_sources_rule b sources u valid' inv''

    finish_rule :
        (buffer : Buffer Item) (s : S)
        → IsBuffer buffer s
        → I [] buffer.buffered s
        → Ensures (λ _ t. I [] [] t) Q (finish numpy array cap emit pull buffer) s
    unfolding finish
    finish_rule buffer s valid inv =
        Ensures-if (is_empty buffer.buffered) _ _ s
          (λ e. Ensures-pure tt s (subst (λ is. I [] is s) (is_empty→nil buffer.buffered e) inv))
          (λ e. flush_rule buffer [] [] s valid e (rw append-nil inv))

    -- Every item reaches the consumer, in order, in batches that are valid and under the cap.
    pub rebatch_rule :
        (sources : List Source) (s : S)
        → I sources [] s
        → Ensures (λ _ t. I [] [] t) Q (rebatch numpy array cap emit pull sources) s
    unfolding rebatch
    rebatch_rule sources s inv =
        Ensures-bind _ _ s
          (push_sources_rule (record { buffered = []; shape = none }) sources s
            (record { frames = tt; same = tt; fits = keeps.cap_positive sources [] s inv }) inv)
          λ b t (inv', valid). finish_rule b t valid inv'
