-- ===== src/Dump/Writer/Written.antt =====
-- `DumpWriter` over a disk whose writes all happen: what each method adds to the journal.
use region_sensitivity.Prelude.{
  ◌≡◌, refl, sym, ap, subst, ◌∙◌, ◌⊎◌, inl, inr, String, true, List, [], ◌∷◌, ◌++◌, map, arith,
  map-append, append-nil, leb, length,
}
use region_sensitivity.Outcome.Exec.{
  Exec, Ensures, Ensures-pure, Ensures-bind, Ensures-then, Ensures-bind_gets, Ensures-if,
  Ensures-weaken, ◌>>◌,
}
use region_sensitivity.Dict.{last_entry, is_distinct, get}
use region_sensitivity.Dump.Types.{CleanDumpRecord, PerturbedDumpRecord}
use region_sensitivity.Dump.Session.{ConfigApi, Session, is_nil}
use region_sensitivity.Dump.Writer.Rules.{on_writer_rule}
use region_sensitivity.Dump.Writer.{
  ensure_open, flush_clean, flush_perturbed, write_clean, write_perturbed, flush,
}
use region_sensitivity.Dump.Writer.Quiet.{last_entry-append}
use region_sensitivity.Dump.Writer.Newest.{clean_pairs, item_pairs}
use region_sensitivity.Dump.Writer.Journal.{
  clean_view, item_view, IsQuiet, SameViews, commit_clean-IsQuiet, commit_perturbed-IsQuiet,
}

nil_eq : {A : Type 0} (xs : List A) → is_nil xs ≡ true → xs ≡ []
nil_eq [] h = refl
nil_eq (x ∷ xs) h = ground arith

module _ {Output : Type 0} where
  abbrev pub sample_ids : List (CleanDumpRecord Output) → List String
  sample_ids records = map (λ (r : CleanDumpRecord Output). r.sample_id) records

  abbrev pub work_ids : List (PerturbedDumpRecord Output) → List String
  work_ids records = map (λ (r : PerturbedDumpRecord Output). r.work_item.item_id) records

module _ {api : ConfigApi} {Output Logits : Type 0} where
  -- The journal has these records more, and a buffer has grown by its own or is empty.
  pub record IsWritten (cleans : List (CleanDumpRecord Output))
      (items : List (PerturbedDumpRecord Output)) (s t : Session api Output Logits) : Type 0 where
    pub quiet : IsQuiet t
    pub clean_now :
        (id : String) → clean_view t id ≡ last_entry id (clean_pairs cleans) (clean_view s id)
    pub items_now :
        (id : String) → item_view t id ≡ last_entry id (item_pairs items) (item_view s id)
    pub clean_held :
        (t.writer.clean_buffer ≡ []) ⊎ (t.writer.clean_buffer ≡ s.writer.clean_buffer ++ cleans)
    pub items_held :
        (t.writer.perturbed_buffer ≡ [])
        ⊎ (t.writer.perturbed_buffer ≡ s.writer.perturbed_buffer ++ items)

  module _ (logits_list : Output → Logits) where
    flush_clean_rule :
        (s : Session api Output Logits)
        → IsQuiet s
        → is_distinct (sample_ids s.writer.clean_buffer) ≡ true
        → Ensures
            (λ _ t.
              IsQuiet t
              × SameViews s t
              × (t.writer.clean_buffer ≡ [])
              × (t.writer.perturbed_buffer ≡ s.writer.perturbed_buffer))
            (λ _ _. ⊥)
            (flush_clean api logits_list)
            s
    unfolding flush_clean
    flush_clean_rule s h distinct = Ensures-bind_gets _ _ s (
        Ensures-if (is_nil s.writer.clean_buffer) _ _ s
          (λ none_.
            Ensures-pure tt s
              (h, record { clean = λ _. refl; items = λ _. refl }, nil_eq _ none_, refl))
          (λ _. commit_clean-IsQuiet logits_list s h distinct))

    flush_perturbed_rule :
        (s : Session api Output Logits)
        → IsQuiet s
        → is_distinct (work_ids s.writer.perturbed_buffer) ≡ true
        → Ensures
            (λ _ t.
              IsQuiet t
              × SameViews s t
              × (t.writer.perturbed_buffer ≡ [])
              × (t.writer.clean_buffer ≡ s.writer.clean_buffer))
            (λ _ _. ⊥)
            (flush_perturbed api logits_list)
            s
    unfolding flush_perturbed
    flush_perturbed_rule s h distinct = Ensures-bind_gets _ _ s (
        Ensures-if (is_nil s.writer.perturbed_buffer) _ _ s
          (λ none_.
            Ensures-pure tt s
              (h, record { clean = λ _. refl; items = λ _. refl }, nil_eq _ none_, refl))
          (λ _. commit_perturbed-IsQuiet logits_list s h distinct))

    -- a method of an open writer
    open_rule :
        {P : Unit → Session api Output Logits → Type 0}
        (next : Exec (Session api Output Logits) Unit) (s : Session api Output Logits)
        → IsQuiet s
        → Ensures P (λ _ _. ⊥) next s
        → Ensures P (λ _ _. ⊥) (ensure_open api logits_list >> next) s
    unfolding ensure_open
    open_rule {P} next s h k = Ensures-then _ _ s (
        Ensures-bind_gets {P = λ _ t. Ensures P (λ _ _. ⊥) next t} _ _ s (
          Ensures-if s.writer.closed _ _ s (λ closed. absurd (cc (closed, h.open_)))
            (λ _. Ensures-pure tt s k)))

    -- one record more in the buffer
    hold_clean_view :
        (r : CleanDumpRecord Output) (s : Session api Output Logits) (id : String)
        → last_entry id
            (clean_pairs (s.writer.clean_buffer ++ r ∷ []))
            (get id s.writer.clean_statuses)
          ≡ last_entry id (clean_pairs (r ∷ [])) (clean_view s id)
    hold_clean_view r s id =
        ap (λ es. last_entry id es (get id s.writer.clean_statuses))
          (map-append _ s.writer.clean_buffer (r ∷ []))
        ∙ last_entry-append id (clean_pairs s.writer.clean_buffer) (clean_pairs (r ∷ []))
            (get id s.writer.clean_statuses)

    hold_item_view :
        (r : PerturbedDumpRecord Output) (s : Session api Output Logits) (id : String)
        → last_entry id
            (item_pairs (s.writer.perturbed_buffer ++ r ∷ []))
            (get id s.writer.item_statuses)
          ≡ last_entry id (item_pairs (r ∷ [])) (item_view s id)
    hold_item_view r s id =
        ap (λ es. last_entry id es (get id s.writer.item_statuses))
          (map-append _ s.writer.perturbed_buffer (r ∷ []))
        ∙ last_entry-append id (item_pairs s.writer.perturbed_buffer) (item_pairs (r ∷ []))
            (get id s.writer.item_statuses)

    IsQuiet-buffers :
        (cleans : List (CleanDumpRecord Output)) (items : List (PerturbedDumpRecord Output))
        (s : Session api Output Logits)
        → IsQuiet s
        → IsQuiet (record s {
          writer = record s.writer { clean_buffer = cleans; perturbed_buffer = items };
        })
    IsQuiet-buffers cleans items s h = record {
      no_faults = h.no_faults;
      open_ = h.open_;
      has_manifest = h.has_manifest;
      clean_free = h.clean_free;
      index_free = h.index_free;
      clean_agrees = h.clean_agrees;
      items_agree = h.items_agree;
    }

    -- While all writes happen, writing a clean record of an open writer raises nothing if its
    -- buffer repeats no sample; then that sample's last status is the record's, buffered or not,
    -- and those of the other samples and of all items are what they were.
    pub write_clean_rule :
        (r : CleanDumpRecord Output) (s : Session api Output Logits)
        → IsQuiet s
        → is_distinct (sample_ids (s.writer.clean_buffer ++ r ∷ [])) ≡ true
        → Ensures (λ _ t. IsWritten (r ∷ []) [] s t) (λ _ _. ⊥) (write_clean api logits_list r) s
    unfolding write_clean last_entry
    write_clean_rule r s h distinct = open_rule _ s h (
        Ensures-then _ _ s (
          on_writer_rule _ s (
            Ensures-bind_gets _ _ _ (
              Ensures-bind_gets _ _ _ (
                Ensures-if (leb (api.flush_every s.writer.config) (length held)) _ _ _
                  (λ _.
                    Ensures-weaken _ _ (flush_clean_rule _ grown distinct)
                      (λ _ t (quiet, views, empty, same). record {
                        quiet = quiet;
                        clean_now = λ id. views.clean id ∙ hold_clean_view r s id;
                        items_now = views.items;
                        clean_held = inl empty;
                        items_held = inr (same ∙ sym (append-nil _));
                      })
                      (λ _ _ f. f))
                  (λ _. Ensures-pure tt _ (record {
                    quiet = grown;
                    clean_now = hold_clean_view r s;
                    items_now = λ id. refl;
                    clean_held = inr refl;
                    items_held = inr (sym (append-nil _));
                  })))))))
      where
        held : List (CleanDumpRecord Output)
        held = s.writer.clean_buffer ++ r ∷ []

        grown : IsQuiet (record s {
          writer = record s.writer { clean_buffer = s.writer.clean_buffer ++ r ∷ [] };
        })
        grown = IsQuiet-buffers (s.writer.clean_buffer ++ r ∷ []) s.writer.perturbed_buffer s h

    -- While all writes happen, writing the record of an item through an open writer whose journal
    -- agrees with its disk raises nothing, if the buffer then repeats no item. The last status of
    -- that item, buffered or on disk, is then the record's; those of the other items and of all
    -- samples are what they were; the journal still agrees with the disk; and each buffer is empty
    -- or what it was, with the record behind it.
    pub write_perturbed_rule :
        (r : PerturbedDumpRecord Output) (s : Session api Output Logits)
        → IsQuiet s
        → is_distinct (work_ids (s.writer.perturbed_buffer ++ r ∷ [])) ≡ true
        → Ensures
            (λ _ t. IsWritten [] (r ∷ []) s t)
            (λ _ _. ⊥)
            (write_perturbed api logits_list r)
            s
    unfolding write_perturbed last_entry
    write_perturbed_rule r s h distinct = open_rule _ s h (
        Ensures-then _ _ s (
          on_writer_rule _ s (
            Ensures-bind_gets _ _ _ (
              Ensures-bind_gets _ _ _ (
                Ensures-if (leb (api.flush_every s.writer.config) (length held)) _ _ _
                  (λ _.
                    Ensures-weaken _ _ (flush_perturbed_rule _ grown distinct)
                      (λ _ t (quiet, views, empty, same). record {
                        quiet = quiet;
                        clean_now = views.clean;
                        items_now = λ id. views.items id ∙ hold_item_view r s id;
                        clean_held = inr (same ∙ sym (append-nil _));
                        items_held = inl empty;
                      })
                      (λ _ _ f. f))
                  (λ _. Ensures-pure tt _ (record {
                    quiet = grown;
                    clean_now = λ id. refl;
                    items_now = hold_item_view r s;
                    clean_held = inr (sym (append-nil _));
                    items_held = inr refl;
                  })))))))
      where
        held : List (PerturbedDumpRecord Output)
        held = s.writer.perturbed_buffer ++ r ∷ []

        grown : IsQuiet (record s {
          writer = record s.writer { perturbed_buffer = s.writer.perturbed_buffer ++ r ∷ [] };
        })
        grown = IsQuiet-buffers s.writer.clean_buffer (s.writer.perturbed_buffer ++ r ∷ []) s h

    -- Flushing empties both buffers and leaves the journal as it was.
    pub flush_rule :
        (s : Session api Output Logits)
        → IsQuiet s
        → is_distinct (sample_ids s.writer.clean_buffer) ≡ true
        → is_distinct (work_ids s.writer.perturbed_buffer) ≡ true
        → Ensures
            (λ _ t.
              IsWritten [] [] s t × (t.writer.clean_buffer ≡ []) × (t.writer.perturbed_buffer ≡ []))
            (λ _ _. ⊥)
            (flush api logits_list)
            s
    unfolding flush last_entry
    flush_rule s h distinct distinct' = open_rule _ s h (
        Ensures-bind _ _ s (flush_clean_rule s h distinct) λ _ t (quiet, views, empty, same).
          Ensures-weaken _ t
            (flush_perturbed_rule t quiet
              (subst (λ rs. is_distinct (work_ids rs) ≡ true) (sym same) distinct'))
            (λ _ u (quiet', views', empty', same'). (
              record {
                quiet = quiet';
                clean_now = λ id. views'.clean id ∙ views.clean id;
                items_now = λ id. views'.items id ∙ views.items id;
                clean_held = inl (same' ∙ empty);
                items_held = inl empty';
              },
              same' ∙ empty,
              empty',
            ))
            (λ _ _ f. f))
